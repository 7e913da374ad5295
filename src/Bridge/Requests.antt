-- ===== src/Bridge/Requests.antt =====
-- `resolve` and `set`.
use matter_thread2mqtt.Prelude.{
  pos, Text, List, [], ◌∷◌, map, Bool, true, false, Option, none, some, ◌==◌, text_eq, find,
  if◌then◌else◌,
}
use matter_thread2mqtt.Python
use matter_thread2mqtt.Python.{
  sorted_texts, Runtime, Num, int, Value, null, bool, num, str, list, dict, Fields, end, field,
  Outcome, ok, raise, codes, show_ℤ, round_num, times, num_lt, pop, keys,
}
use matter_thread2mqtt.Devices.{Cap, Opts, settable, coerce, validate, write, as_number}
use matter_thread2mqtt.Bridge.State.{
  Device, bad_transition, bad_with_on_off, unknown_property, not_settable, invalid, send,
}
use matter_thread2mqtt.Bridge.Exec.{Client, Exec, ◌>>=◌, ◌>>◌, pure, lift, error, call}
use matter_thread2mqtt.Bridge.Writes.{Write, Verdict, granted, refused, order_writes}

-- `dev.props.get(prop)`
unfoldable pub prop_of : List (Text × Cap) → Text → Option Cap
prop_of [] prop = none
prop_of ((p, c) ∷ props) prop = let rest = prop_of props prop in if p == prop then some c else rest

unfoldable pub is_text : Value → Text → Bool
is_text (str s) name = s == name
is_text v name = false

abbrev pub or_else {ℓ} : {A : Type ℓ} → Option A → Option A → Option A
or_else (some a) o = some a
or_else none o = o

-- The three passes over the devices: by friendly_name, unique_id, node_id.
unfoldable pub resolve : List Device → Text → Option Device
unfolding find is_text
resolve devices name = or_else (find (λ d. d.friendly_name == name) devices) (
    or_else (find (λ d. is_text d.unique_id name) devices)
      (find (λ d. show_ℤ d.node_id == name) devices))

-- `transition`: a number of at least 0, or None where the source refuses it.
unfoldable pub transition_of : Runtime → Value → Option Num
unfolding num_lt
transition_of py (num n) = if num_lt py n (int (pos 0)) then none else some n
transition_of py v = none

unfoldable pub flag_of : Value → Option Bool
flag_of (bool b) = some b
flag_of v = none

abbrev pub get_or : Option Value → Value → Value
get_or (some v) default = v
get_or none default = default

-- What `set` reads of the options of its payload, and the properties that it then leaves.
abbrev pub transition_value : Runtime → Fields → Value
transition_value py payload =
    as_number py (get_or (Python.get (codes "transition") payload) (num (int (pos 0))))

abbrev pub flag_value : Fields → Value
flag_value payload =
    get_or (Python.get (codes "with_on_off") (pop (codes "transition") payload)) (bool true)

abbrev pub settings : Fields → Fields
settings payload = pop (codes "with_on_off") (pop (codes "transition") payload)

module _ (py : Runtime) where
  -- One property of the request: its coerced write, or the error that ends the request.
  unfoldable pub check_write : Device → Text → Value → Outcome (Verdict Write)
  unfolding prop_of
  check_write dev prop value = elim (prop_of dev.props prop) [
    | none ↦ ok (refused (unknown_property prop (sorted_texts (map (λ p. p.0) dev.props))))
    | some cap ↦
        if settable cap.kind
        then Python.◌>>=◌ (coerce py cap.kind value) (λ v.
          Python.◌>>=◌ (validate py cap.kind v) (λ problem. ok (elim problem [
            | some p ↦ refused (invalid prop p)
            | none ↦ granted (record { cap = cap; value = v })
          ])))
        else ok (refused (not_settable prop))
  ]

  -- The loop that validates everything before the device is touched.
  unfoldable pub collect : Device → Fields → Outcome (Verdict (List Write))
  unfolding check_write
  collect dev end = ok (granted [])
  collect dev (field prop value rest) = Python.◌>>=◌ (check_write dev prop value) (λ v. elim v [
    | refused m ↦ ok (refused m)
    | granted w ↦
        Python.◌>>=◌ (collect dev rest)
          (λ more. ok (elim more [ refused m ↦ refused m | granted ws ↦ granted (w ∷ ws) ]))
  ])

  -- The checks and the ordering of `set`, which do not touch the device.
  unfoldable pub plan : Device → Fields → Outcome (Verdict (List Write))
  unfolding collect
  plan dev payload =
      Python.◌>>=◌ (collect dev payload)
        (λ v. elim v [ refused m ↦ ok (refused m) | granted ws ↦ order_writes py ws ])

module _ (py : Runtime) (client : Client) where
  -- `await cap.write(...)` for each of the ordered writes
  unfoldable pub send_all : Device → Opts → List Write → Exec (Unit {0})
  send_all dev opts [] = pure tt
  send_all dev opts (w ∷ ws) = do
    cmd ← lift (write py w.cap.kind w.value opts)
    call client (send dev.node_id w.cap.ep cmd)
    send_all dev opts ws

  unfoldable pub set_with : Text → Device → Fields → Num → Bool → Exec (Unit {0})
  unfolding plan send_all
  set_with request dev payload transition with_on_off = do
    tenths ← lift (round_num py (times py transition 10))
    verdict ← lift (plan py dev payload)
    elim verdict [
      | refused m ↦ error request m
      | granted ws ↦ send_all dev (record { transition = tenths; with_on_off = with_on_off }) ws
    ]

  -- After the two options were taken out of the payload; `none` is an option that is refused.
  unfoldable pub set_checked :
      Text → Device → Fields → Value → Value → Option Num → Option Bool → Exec (Unit {0})
  unfolding set_with
  set_checked request dev rest t w none o = error request (bad_transition t)
  set_checked request dev rest t w (some n) none = error request (bad_with_on_off w)
  set_checked request dev rest t w (some n) (some b) = set_with request dev rest n b

  unfoldable pub set : Text → Device → Fields → Exec (Unit {0})
  unfolding set_checked transition_of flag_of
  set request dev payload =
      let t = transition_value py payload in
      let w = flag_value payload in
      set_checked request dev (settings payload) t w (transition_of py t) (flag_of w)
