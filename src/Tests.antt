-- ===== src/Tests.antt =====
-- Runs of the model, and the theorems at concrete data.
use matter_thread2mqtt.Prelude.{
  ℤ, pos, ◌≤ℤ◌, Text, List, [], ◌∷◌, ◌++◌, true, false, Option, none, some, ◌≡◌, ◌↔◌, refl, keep,
  find, contains, eqb_list, drop_while,
}
use matter_thread2mqtt.Python.{
  Value, bool, int, str, dict, Fields, end, field, ok, raise, value_error, codes, get, pop, strip,
  upper, split, parse_int, round_num, times, num_lt, as_num,
}
use matter_thread2mqtt.Devices.{
  on, move_to_level, coerce, validate, write, settable, name, as_number, check_number, level_cap,
}
use matter_thread2mqtt.Devices.Names.{valid_name, friendly_name_of}
use matter_thread2mqtt.Devices.Naming.{friendly_name_of-valid}
use matter_thread2mqtt.Devices.Bounds.{validate-level_iff}
use matter_thread2mqtt.Bridge
use matter_thread2mqtt.Bridge.{
  Write, granted, refused, Effect, send, publish, state_payload, topic_root, bridge_request,
  device_task, plan, set, order_writes, resolve, device_request, transition_of, flag_of, on_message,
  prop_of, is_state,
}
use matter_thread2mqtt.Bridge.WriteLoop.{Ordered, order_writes_lem}
use matter_thread2mqtt.Bridge.WriteOrder.{clash, expected}
use matter_thread2mqtt.Bridge.Planning.{ServesAll, plan_lem}
use matter_thread2mqtt.Bridge.Setting.{Done, set-Done, done, build, set-Built}
use matter_thread2mqtt.Bridge.Getting.{Got, get-Got}
use matter_thread2mqtt.Bridge.Reporting.{Reported, device_request-Reported}
use matter_thread2mqtt.Bridge.Resolving.{Resolved, resolve-Resolved}
use matter_thread2mqtt.Bridge.Routing.{on_message-device, on_message-own_topics, on_message-posing}
use matter_thread2mqtt.Bridge.TopicParts.{topic, posing}
use matter_thread2mqtt.Bridge.Nan.{dimmable, switch_and_dim, set-nan}
use matter_thread2mqtt.Samples.{py, ids, calm, broken, nan, number, state_cap, brightness_cap, lamp}

-- To unfold this is to unfold all that the runs below compute with.
computed : Unit {0}
unfolding plan prop_of settable coerce validate check_number as_number parse_int strip drop_while
    num_lt as_num order_writes is_state keep find contains name eqb_list upper set get pop round_num
    times
computed = tt

-- {"brightness": 10, "state": "off"}: the lamp is only switched off.
abbrev off_and_dim : List Write
off_and_dim =
    record { cap = brightness_cap; value = number 10 }
    ∷ record { cap = state_cap; value = str (codes "OFF") }
    ∷ []

order_writes_lem_example : Ordered py off_and_dim (order_writes py off_and_dim)
unfolding computed
order_writes_lem_example = order_writes_lem py off_and_dim (refl, (refl, tt))

off_only :
    order_writes py off_and_dim
    ≡ ok (granted (record { cap = state_cap; value = str (codes "OFF") } ∷ []))
unfolding computed
off_only = refl

abbrev on_and_dim : Fields
on_and_dim =
    field (codes "brightness") (str (codes " 120 ")) (field (codes "state") (bool true) end)

abbrev on_and_dim_writes : List Write
on_and_dim_writes =
    record { cap = state_cap; value = str (codes "ON") }
    ∷ record { cap = brightness_cap; value = number 120 }
    ∷ []

on_and_dim-plan : plan py lamp on_and_dim ≡ ok (granted on_and_dim_writes)
unfolding computed
on_and_dim-plan = refl

plan_lem_example :
    (found : List Write) × ServesAll py lamp on_and_dim found
    × ((ep : ℤ)
        → (clash py (Bridge.at ep found) ≡ false)
          × (Bridge.at ep on_and_dim_writes ≡ expected py (Bridge.at ep found)))
plan_lem_example = plan_lem py lamp on_and_dim on_and_dim_writes on_and_dim-plan

-- {"brightness": " 120 ", "state": true, "transition": 2}
abbrev fade : Fields
fade = field (codes "transition") (number 2) on_and_dim

set-Done_example :
    Done py broken lamp
      (codes "desk/lamp/set")
      fade
      []
      (set py broken (codes "desk/lamp/set") lamp fade []).1
set-Done_example = set-Done py broken lamp (codes "desk/lamp/set") fade []

abbrev fade_effects : List Effect
fade_effects =
    send (pos 7) (pos 1) on ∷ send (pos 7) (pos 1) (move_to_level true (pos 120) (pos 20)) ∷ []

set-Built_example : set py calm (codes "desk/lamp/set") lamp fade [] ≡ (ok tt, fade_effects)
unfolding computed write
set-Built_example =
    set-Built py calm lamp (codes "desk/lamp/set") fade (int (pos 2)) true (pos 20)
      on_and_dim_writes fade_effects [] refl refl refl refl
      (build on refl (build (move_to_level true (pos 120) (pos 20)) refl done)) (λ h e. refl)

get-Got_example :
    Got py ids calm lamp
      (codes "desk/lamp/get")
      end
      []
      (Bridge.get py ids calm (codes "desk/lamp/get") lamp end [])
get-Got_example = get-Got py ids calm lamp (codes "desk/lamp/get") end []

device_request-Reported_example :
    ((device_request py ids broken true (lamp ∷ []) (codes "7") (codes "set") (dict fade) []).0
      ≡ ok tt)
    × Reported py ids broken true
        (lamp ∷ [])
        (codes "7")
        (codes "set")
        (dict fade)
        []
        (device_request py ids broken true (lamp ∷ []) (codes "7") (codes "set") (dict fade) []).1
device_request-Reported_example =
    device_request-Reported py ids broken true (lamp ∷ []) (codes "7") (codes "set") (dict fade) []

resolve-Resolved_example : Resolved (lamp ∷ []) (codes "33BB") (resolve (lamp ∷ []) (codes "33BB"))
resolve-Resolved_example = resolve-Resolved (lamp ∷ []) (codes "33BB")

friendly_name_of-valid_example :
    valid_name py (str (friendly_name_of py (str (codes "a/set")) (pos 12))) ≡ true
friendly_name_of-valid_example = friendly_name_of-valid py (str (codes "a/set")) (pos 12)

-- A json parser that accepts one text.
abbrev loads : Text → Option Value
loads raw = elim (raw) [ [] ↦ none | c ∷ cs ↦ some (dict end) ]

on_message-device_example :
    on_message py loads (topic (codes "desk/lamp" ++ b'/' ∷ codes "set")) (codes "{}")
    ≡ some (device_task (codes "desk/lamp") (codes "set") (dict end))
unfolding computed split Bridge.is_device_request Bridge.payload_of
on_message-device_example =
    on_message-device py loads (codes "desk/lamp") (codes "set") (codes "{}") refl refl

on_message-own_topics_example :
    (on_message py loads
        (topic (friendly_name_of py (str (codes "desk/lamp")) (pos 7)))
        (codes "{}")
      ≡ none)
    × (on_message py loads
          (topic
            (friendly_name_of py (str (codes "desk/lamp")) (pos 7) ++ b'/' ∷ codes "availability"))
          (codes "{}")
        ≡ none)
unfolding computed split friendly_name_of
on_message-own_topics_example =
    on_message-own_topics py loads (str (codes "desk/lamp")) (pos 7) (codes "{}") refl

on_message-posing_example :
    (friendly_name_of py (str (posing (codes "x"))) (pos 7) ≡ posing (codes "x"))
    × (on_message py loads (topic (posing (codes "x"))) (codes "{}")
        ≡ some (bridge_request (codes "x") (dict end)))
unfolding computed valid_name Bridge.payload_of
on_message-posing_example = on_message-posing py loads (codes "x") (codes "{}") (pos 7) refl

validate-level_iff_example :
    ((validate py (level_cap (number 1) (number 254)) (number 255) ≡ ok none)
      ↔ ((pos 1 ≤ℤ pos 255) × (pos 255 ≤ℤ pos 254)))
    × (write py
          (level_cap (number 1) (number 254))
          (number 255)
          (record { transition = pos 0; with_on_off = true })
        ≡ ok (move_to_level true (pos 255) (pos 0)))
validate-level_iff_example =
    validate-level_iff py (pos 1) (pos 254) (pos 255)
      (record { transition = pos 0; with_on_off = true })

set-nan_example :
    set py calm
      (codes "a/set")
      (dimmable py (pos 1) (pos 254) (pos 1) (pos 7) (codes "a"))
      (switch_and_dim py (pos 1) (pos 254) (pos 1) nan)
      []
    ≡ (raise value_error, send (pos 7) (pos 1) on ∷ [])
set-nan_example =
    set-nan py (pos 1) (pos 254) (pos 1) nan value_error calm (codes "a/set") (codes "a") (pos 7) []
      refl refl refl refl
