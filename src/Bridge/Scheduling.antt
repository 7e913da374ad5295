-- ===== src/Bridge/Scheduling.antt =====
-- What holds of the tables whatever sequence of events the event loop brings.
use matter_thread2mqtt.Prelude.{
  Text, Option, none, some, find, ℕ, suc, zero, ℤ, List, [], ◌∷◌, ◌++◌, Bool, true, false, not,
  ◌&&◌, ◌||◌, ◌≡◌, refl, ap, ◌∙◌, ◌==◌, int_eq, inl, inr, Bool-cases, arith, contains,
  contains-keep, Distinct, Distinct-snoc, Distinct-keep, keep, eqb_ℤ_iff, if◌then◌else◌,
}
use matter_thread2mqtt.Python.{Runtime, Outcome, ok, raise}
use matter_thread2mqtt.Devices.{DataModel, SwitchEvent, Printing}
use matter_thread2mqtt.Bridge.Lookups.{contains-subscribe_from}
use matter_thread2mqtt.Bridge.{
  Device, Effect, Client, Tables, NodeEvent, Result, node_ids, table_from, subscribe_from, drop_one,
  rebuild, on_matter_connect, on_matter_disconnect, schedule_state, flush_state, on_node_event, Act,
  result_of, publish_found, publish_action, react,
}

-- Whether there is a subscription fits whether there is a device.
abbrev pub fits : (whole subscribed known : Bool) → Bool
fits true subscribed known = (not subscribed || known) && (not known || subscribed)
fits false subscribed known = not subscribed || known

-- Each subscription is for a device, once, and if `whole` each device has one; and a timer runs for exactly
-- the pending nodes, one for each.
pub record IsSound (whole : Bool) (t : Tables) : Type 0 where
  pub subscribed :
      (n : ℤ) → fits whole (contains t.attr_unsubs n) (contains (node_ids t.devices) n) ≡ true
  pub subscribed_once : Distinct t.attr_unsubs
  pub scheduled : t.timers ≡ t.pending_state
  pub scheduled_once : Distinct t.pending_state

-- Whether each device has a subscription after a rebuild: as before, if a device could not be made.
abbrev pub whole_rebuilt : Outcome (List Device) → Bool → Bool
whole_rebuilt (ok nodes) whole = true
whole_rebuilt (raise e) whole = whole

fits-weaken : (whole a b : Bool) → fits true a b ≡ true → fits whole a b ≡ true
fits-weaken true a b h = h
fits-weaken false a b h = ground arith

pub IsSound-weaken : (whole : Bool) (t : Tables) → IsSound true t → IsSound whole t
IsSound-weaken whole t h = record {
  subscribed = λ n. fits-weaken whole _ _ (h.subscribed n);
  subscribed_once = h.subscribed_once;
  scheduled = h.scheduled;
  scheduled_once = h.scheduled_once;
}

subscribe_from-Distinct : (subs ns : List ℤ) → Distinct subs → Distinct (subscribe_from subs ns).0
unfolding subscribe_from
subscribe_from-Distinct subs [] d = d
subscribe_from-Distinct subs (n ∷ ns) d = elim (Bool-cases (contains subs n)) [
  | inl old ↦ rw old (subscribe_from-Distinct subs ns d)
  | inr new ↦ rw new (subscribe_from-Distinct (subs ++ n ∷ []) ns (Distinct-snoc subs n d new))
]

keep_others : (n : ℤ) (ms : List ℤ) → contains ms n ≡ false → keep (λ m. not (m == n)) ms ≡ ms
unfolding keep contains
keep_others n [] h = refl
keep_others n (m ∷ ms) h = ground (arith, keep_others n ms, eqb_ℤ_iff m n, eqb_ℤ_iff n m)

drop_one_lem : (n : ℤ) (ms : List ℤ) → Distinct ms → drop_one n ms ≡ keep (λ m. not (m == n)) ms
unfolding drop_one keep
drop_one_lem n [] d = refl
drop_one_lem n (m ∷ ms) (fresh, d) =
    ground (arith, drop_one_lem n ms d, keep_others n ms, eqb_ℤ_iff m n, ap (contains ms))

-- A burst of `k` attribute updates of a node
unfoldable pub burst : ℕ → ℤ → Tables → Tables
unfolding schedule_state
burst zero n t = t
burst (suc k) n t = burst k n (schedule_state n t).1

contains-last : (xs : List ℤ) (n : ℤ) → contains (xs ++ n ∷ []) n ≡ true
unfolding contains
contains-last [] n = ground (arith, eqb_ℤ_iff n n)
contains-last (x ∷ xs) n = ground (arith, contains-last xs n)

burst-pending : (k : ℕ) (n : ℤ) (t : Tables) → contains t.pending_state n ≡ true → burst k n t ≡ t
unfolding burst
burst-pending zero n t h = refl
burst-pending (suc k) n t h = simp h (burst-pending k n t h)

-- In sound tables, a burst of one or more attribute updates of a node sets exactly one timer for its
-- publication, and none if one runs already; the other timers stay.
pub burst-timers :
    (k : ℕ) (n : ℤ) (whole : Bool) (t : Tables)
    → IsSound whole t
    → (burst (suc k) n t).timers ≡ (if contains t.timers n then t.timers else t.timers ++ n ∷ [])
unfolding burst
burst-timers k n whole t h = elim (Bool-cases (contains t.pending_state n)) [
  | inl old ↦
      simp (old, ap (λ (l : List ℤ). contains l n) h.scheduled)
        (ap (λ (u : Tables). u.timers) (burst-pending k n t old))
  | inr new ↦
      simp (new, ap (λ (l : List ℤ). contains l n) h.scheduled)
        (ap (λ (u : Tables). u.timers)
          (burst-pending k n
            (record t { pending_state = t.pending_state ++ n ∷ []; timers = t.timers ++ n ∷ [] })
            (contains-last t.pending_state n)))
]

module _ (py : Runtime) (ids : DataModel) (client : Client) where
  pub rebuild-IsSound :
      (s : List Effect) (made : Outcome (List Device)) (whole : Bool) (t : Tables)
      → IsSound whole t
      → IsSound (whole_rebuilt made whole) (rebuild py ids client s made t).1
  unfolding rebuild
  rebuild-IsSound s (raise e) whole t h = h
  rebuild-IsSound s (ok nodes) whole t h =
      let ns = node_ids (table_from [] nodes) in
      let known : ℤ → Bool = λ n. contains ns n in
      record {
        subscribed = λ n. ground (
          arith,
          contains-subscribe_from (keep known t.attr_unsubs) ns n,
          contains-keep known t.attr_unsubs n,
        );
        subscribed_once =
            subscribe_from-Distinct (keep known t.attr_unsubs) ns
              (Distinct-keep known t.attr_unsubs h.subscribed_once);
        scheduled = h.scheduled;
        scheduled_once = h.scheduled_once;
      }

  -- At least what held before a rebuild holds after it.
  pub rebuilt-IsSound :
      (s : List Effect) (made : Outcome (List Device)) (whole : Bool) (t : Tables)
      → IsSound whole t
      → IsSound whole (rebuild py ids client s made t).1
  rebuilt-IsSound s (raise e) whole t h = rebuild-IsSound s (raise e) whole t h
  rebuilt-IsSound s (ok nodes) whole t h =
      IsSound-weaken whole _ (rebuild-IsSound s (ok nodes) whole t h)

  module _ (pr : Printing) (events : SwitchEvent → ℤ) (switch : ℤ) where
    -- What the event loop calls; the cache at that time is the one after the effects `s`.
    pub data Callback : Type 0 where
      connected nodes_changed : (s : List Effect) (made : Outcome (List Device)) → Callback
      disconnected : Callback
      attribute_updated : ℤ → Callback
      timer_ran_out : (s : List Effect) → ℤ → Callback
      node_event : NodeEvent → Callback

    unfoldable pub handle : Callback → Tables → Result
    unfolding on_matter_connect rebuild on_matter_disconnect schedule_state flush_state
        on_node_event
    handle (connected s made) t = on_matter_connect py ids client s made t
    handle (nodes_changed s made) t = rebuild py ids client s made t
    handle disconnected t = on_matter_disconnect t
    handle (attribute_updated n) t = schedule_state n t
    handle (timer_ran_out s n) t = flush_state py ids client s n t
    handle (node_event e) t = on_node_event pr events switch e t

    -- A timer runs out only if it was set.
    abbrev pub IsDue : Callback → Tables → Type 0
    IsDue (timer_ran_out s n) t = contains t.timers n ≡ true
    IsDue _ t = Unit

    abbrev pub initial : Tables
    initial = record { devices = []; attr_unsubs = []; pending_state = []; timers = [] }

    -- Whether each device has a subscription after a callback: a new client has none at first.
    abbrev pub whole_after : Callback → Bool → Bool
    whole_after (connected s made) whole = whole_rebuilt made false
    whole_after (nodes_changed s made) whole = whole_rebuilt made whole
    whole_after _ whole = whole

    -- The tables after any sequence of callbacks, exceptions out of them included. The flag is false from
    -- a connection whose devices cannot all be made until a change of the nodes after which they can.
    pub data Reach : (whole : Bool) → Tables → Type 0 where
      start : Reach true initial
      next :
          {whole : Bool} {t : Tables}
          → Reach whole t
          → (c : Callback) → IsDue c t
          → Reach (whole_after c whole) (handle c t).1

    module _ {whole : Bool} where
      schedule_state-IsSound :
          (n : ℤ) (t : Tables) → IsSound whole t → IsSound whole (schedule_state n t).1
      unfolding schedule_state
      schedule_state-IsSound n t h = elim (Bool-cases (contains t.pending_state n)) [
        | inl old ↦ simp old h
        | inr new ↦ simp new (record {
          subscribed = h.subscribed;
          subscribed_once = h.subscribed_once;
          scheduled = ap (λ (l : List ℤ). l ++ n ∷ []) h.scheduled;
          scheduled_once = Distinct-snoc t.pending_state n h.scheduled_once new;
        })
      ]

      result_of-IsSound :
          (t : Tables) (o : Outcome (List Act)) → IsSound whole t → IsSound whole (result_of t o).1
      unfolding result_of
      result_of-IsSound t (ok acts) h = h
      result_of-IsSound t (raise e) h = h

      publish_found-IsSound :
          (s : List Effect) (t : Tables) (d : Option Device)
          → IsSound whole t
          → IsSound whole (publish_found py ids client s t d).1
      unfolding publish_found
      publish_found-IsSound s t none h = h
      publish_found-IsSound s t (some d) h = result_of-IsSound t _ h

      publish_action-IsSound :
          (t : Tables) (d : Device) (o : Outcome (Option (Text × Text)))
          → IsSound whole t
          → IsSound whole (publish_action t d o).1
      unfolding publish_action
      publish_action-IsSound t d (raise x) h = h
      publish_action-IsSound t d (ok none) h = h
      publish_action-IsSound t d (ok (some (prop, act))) h = h

      react-IsSound :
          (e : NodeEvent) (t : Tables) (d : Option Device)
          → IsSound whole t
          → IsSound whole (react pr events switch e t d).1
      unfolding react
      react-IsSound e t none h = h
      react-IsSound e t (some d) h = publish_action-IsSound t d _ h

      flush_state-IsSound :
          (s : List Effect) (n : ℤ) (t : Tables)
          → IsSound whole t
          → IsSound whole (flush_state py ids client s n t).1
      unfolding flush_state
      flush_state-IsSound s n t h =
          publish_found-IsSound s _ (find (λ d. d.node_id == n) t.devices) (record {
            subscribed = h.subscribed;
            subscribed_once = h.subscribed_once;
            scheduled =
                ap (drop_one n) h.scheduled ∙ drop_one_lem n t.pending_state h.scheduled_once;
            scheduled_once = Distinct-keep (λ m. not (m == n)) t.pending_state h.scheduled_once;
          })

      node_event-IsSound :
          (e : NodeEvent) (t : Tables)
          → IsSound whole t
          → IsSound whole (on_node_event pr events switch e t).1
      unfolding on_node_event
      node_event-IsSound e t h = react-IsSound e t (find (λ d. d.node_id == e.node_id) t.devices) h

    pub handle-IsSound :
        (c : Callback) (whole : Bool) (t : Tables)
        → IsSound whole t
        → IsSound (whole_after c whole) (handle c t).1
    unfolding handle on_matter_connect
    handle-IsSound (connected s made) whole t h =
        rebuild-IsSound s made false (record t { attr_unsubs = [] })
          (record {
            subscribed = λ n. unfold contains in refl;
            subscribed_once = tt;
            scheduled = h.scheduled;
            scheduled_once = h.scheduled_once;
          })
    handle-IsSound (nodes_changed s made) whole t h = rebuild-IsSound s made whole t h
    handle-IsSound disconnected whole t h = unfold on_matter_disconnect in h
    handle-IsSound (attribute_updated n) whole t h = schedule_state-IsSound n t h
    handle-IsSound (timer_ran_out s n) whole t h = flush_state-IsSound s n t h
    handle-IsSound (node_event e) whole t h = node_event-IsSound e t h

    pub Reach-IsSound : (whole : Bool) (t : Tables) → Reach whole t → IsSound whole t
    Reach-IsSound whole t start = record {
      subscribed = λ n. unfold contains in refl;
      subscribed_once = tt;
      scheduled = refl;
      scheduled_once = tt;
    }
    Reach-IsSound whole t (next {whole = w} {t = u} r c due) =
        handle-IsSound c w u (Reach-IsSound w u r)
