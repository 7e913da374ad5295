-- ===== src/Bridge/Nan.antt =====
-- A set request with a nan: it passes the checks, and fails after the device was touched.
use matter_thread2mqtt.Prelude.{
  ℕ, ℤ, pos, Text, List, [], ◌∷◌, ◌++◌, true, false, none, ◌≡◌, refl, eqb_list, contains, keep,
  find, eqb_ℤ_iff,
}
use matter_thread2mqtt.Python.{
  Runtime, int, float, null, bool, num, str, Fields, end, field, ok, raise, Exc, codes, get, pop,
  upper, round_num, times, num_lt,
}
use matter_thread2mqtt.Devices.{
  Cap, on_off_cap, level_cap, on, name, coerce, validate, write, settable, as_number, check_number,
}
use matter_thread2mqtt.Bridge.{
  Device, Write, granted, Effect, send, Client, prop_of, is_state, order_writes, collect, plan,
  send_all, set,
}

module _ (py : Runtime) (a b ep : ℤ) where
  -- A dimmable light with its two settable properties on one endpoint.
  abbrev pub state_cap : Cap
  state_cap = record { ep = ep; kind = on_off_cap; prop = codes "state" }

  abbrev pub brightness_cap : Cap
  brightness_cap = record {
    ep = ep;
    kind = level_cap (num (int a)) (num (int b));
    prop = codes "brightness";
  }

  abbrev pub dimmable : ℤ → Text → Device
  dimmable node_id friendly_name = record {
    node_id = node_id;
    friendly_name = friendly_name;
    unique_id = null;
    available = true;
    props = (codes "state", state_cap) ∷ (codes "brightness", brightness_cap) ∷ [];
  }

  -- {"state": true, "brightness": f}
  abbrev pub switch_and_dim : ℕ → Fields
  switch_and_dim f =
      field (codes "state") (bool true) (field (codes "brightness") (num (float f)) end)

  abbrev nan_writes : ℕ → List Write
  nan_writes f =
      record { cap = state_cap; value = str (codes "ON") }
      ∷ record { cap = brightness_cap; value = num (float f) }
      ∷ []

  module _ (f : ℕ) (low : py.float_lt (float f) (int a) ≡ false)
      (high : py.float_lt (int b) (float f) ≡ false) (node_id : ℤ) (friendly_name : Text) where
    collect-nan :
        collect py (dimmable node_id friendly_name) (switch_and_dim f) ≡ ok (granted (nan_writes f))
    unfolding collect prop_of settable coerce validate check_number num_lt as_number eqb_list upper
    collect-nan = rw (low, high) refl

    order-nan : order_writes py (nan_writes f) ≡ ok (granted (nan_writes f))
    unfolding order_writes is_state name eqb_list upper keep find contains
    order-nan = rw ((eqb_ℤ_iff ep ep).1 refl) refl

    plan-nan :
        plan py (dimmable node_id friendly_name) (switch_and_dim f) ≡ ok (granted (nan_writes f))
    unfolding plan
    plan-nan = rw collect-nan order-nan

    send-nan :
        (client : Client) (e : Exc) (s : List Effect)
        → py.float_round f ≡ raise e
        → client.answer s (send node_id ep on) ≡ none
        → send_all py client
            (dimmable node_id friendly_name)
            (record { transition = pos 0; with_on_off = true })
            (nan_writes f)
            s
          ≡ (raise e, s ++ send node_id ep on ∷ [])
    unfolding send_all write round_num eqb_list upper
    send-nan client e s r calm = rw (calm, r) refl

  -- To a dimmable light comes {"state": true, "brightness": f}, for a float `f` that no comparison puts
  -- outside of the limits and that `round` refuses, as a nan. Then `set` sends the command On to the
  -- device and only after that raises, though the request can never be carried out.
  pub set-nan :
      (f : ℕ) (e : Exc) (client : Client) (request friendly_name : Text) (node_id : ℤ)
      (s : List Effect)
      → py.float_lt (float f) (int a) ≡ false
      → py.float_lt (int b) (float f) ≡ false
      → py.float_round f ≡ raise e
      → client.answer s (send node_id ep on) ≡ none
      → set py client request (dimmable node_id friendly_name) (switch_and_dim f) s
        ≡ (raise e, s ++ send node_id ep on ∷ [])
  unfolding set get pop eqb_list as_number round_num times num_lt
  set-nan f e client request friendly_name node_id s low high r calm =
      rw (plan-nan f low high node_id friendly_name)
        (send-nan f low high node_id friendly_name client e s r calm)
