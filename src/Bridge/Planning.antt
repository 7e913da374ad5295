-- ===== src/Bridge/Planning.antt =====
-- What the checks of `set` let through, before the device is touched.
use matter_thread2mqtt.Prelude.{
  Text, List, [], ◌∷◌, true, false, some, ◌≡◌, refl, subst, ℤ, All, arith,
}
use matter_thread2mqtt.Python.{Runtime, Value, Fields, end, field, Outcome, ok, raise, ◌>>=◌}
use matter_thread2mqtt.Devices.{coerce, settable}
use matter_thread2mqtt.Bridge.{
  Device, Write, Verdict, granted, refused, prop_of, check_write, collect, plan, order_writes, at,
}
use matter_thread2mqtt.Bridge.WriteOrder.{Writable, clash, expected}
use matter_thread2mqtt.Bridge.WriteLoop.{Ordered, order_writes_lem}

module _ (py : Runtime) (dev : Device) where
  -- A write that stands for the entry `prop: value` of the request.
  pub record Serves (prop : Text) (value : Value) (w : Write) : Type 0 where
    pub known : prop_of dev.props prop ≡ some w.cap
    pub can_set : settable w.cap.kind ≡ true
    pub coerced : coerce py w.cap.kind value ≡ ok w.value
    pub valid : Writable py w

  -- One write for each entry, in order.
  abbrev pub ServesAll : Fields → List Write → Type 0
  ServesAll end [] = Unit
  ServesAll end (w ∷ ws) = ⊥
  ServesAll (field prop value rest) [] = ⊥
  ServesAll (field prop value rest) (w ∷ ws) = Serves prop value w × ServesAll rest ws

  check_write-Serves :
      (prop : Text) (value : Value) (w : Write)
      → check_write py dev prop value ≡ ok (granted w)
      → Serves prop value w
  unfolding check_write
  check_write-Serves prop value w h = ground arith

  collect_step :
      (r : Outcome (Verdict Write)) (rs : Outcome (Verdict (List Write))) {ws : List Write}
      → (r >>= λ v. elim v [
        | refused m ↦ ok (refused m)
        | granted w ↦
            rs >>= λ more. ok (elim more [ refused m ↦ refused m | granted ws ↦ granted (w ∷ ws) ])
      ])
        ≡ ok (granted ws)
      → (w : Write) × (more : List Write) × (r ≡ ok (granted w))
        × (rs ≡ ok (granted more))
        × (ws ≡ w ∷ more)
  collect_step (ok (granted w)) (ok (granted more)) h = (w, more, refl, refl, ground arith)
  collect_step (ok (granted w)) (ok (refused m)) h = absurd (cc)
  collect_step (ok (granted w)) (raise e) h = absurd (cc)
  collect_step (ok (refused m)) rs h = absurd (cc)
  collect_step (raise e) rs h = absurd (cc)

  collect-ServesAll :
      (payload : Fields) (ws : List Write)
      → collect py dev payload ≡ ok (granted ws)
      → ServesAll payload ws
  unfolding collect
  collect-ServesAll end [] h = tt
  collect-ServesAll end (w ∷ ws) h = ground arith
  collect-ServesAll (field prop value rest) ws h =
      let (w, more, first, others, e) =
        collect_step (check_write py dev prop value) (collect py dev rest) h in
      rw e (check_write-Serves prop value w first, collect-ServesAll rest more others)

  ServesAll-Writable :
      (payload : Fields) (ws : List Write) → ServesAll payload ws → All (Writable py) ws
  ServesAll-Writable end [] h = tt
  ServesAll-Writable end (w ∷ ws) h = absurd h
  ServesAll-Writable (field prop value rest) [] h = absurd h
  ServesAll-Writable (field prop value rest) (w ∷ ws) (h, hs) =
      (h.valid, ServesAll-Writable rest ws hs)

  plan_step :
      (r : Outcome (Verdict (List Write))) (f : List Write → Outcome (Verdict (List Write)))
      {ws : List Write}
      → (r >>= λ v. elim v [ refused m ↦ ok (refused m) | granted ws ↦ f ws ]) ≡ ok (granted ws)
      → (found : List Write) × (r ≡ ok (granted found)) × (f found ≡ ok (granted ws))
  plan_step (ok (granted found)) f h = (found, refl, h)
  plan_step (ok (refused m)) f h = absurd (cc)
  plan_step (raise e) f h = absurd (cc)

  -- A plan that `set` goes on with: every entry of the request names a known and settable property
  -- and has a coerced value that is valid for it, and on every endpoint the plan is the expected
  -- order of the writes for these entries.
  pub plan_lem :
      (payload : Fields) (ws : List Write)
      → plan py dev payload ≡ ok (granted ws)
      → (found : List Write) × ServesAll payload found
        × ((ep : ℤ) → (clash py (at ep found) ≡ false) × (at ep ws ≡ expected py (at ep found)))
  unfolding plan
  plan_lem payload ws h =
      let (found, collected, ordered) = plan_step (collect py dev payload) (order_writes py) h in
      let all_served = collect-ServesAll payload found collected in
      (
        found,
        all_served,
        subst (Ordered py found) ordered
            (order_writes_lem py found (ServesAll-Writable payload found all_served)),
      )
