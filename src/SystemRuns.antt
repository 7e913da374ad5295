-- ===== src/SystemRuns.antt =====
-- The theorems on the whole system and on colours, at concrete data.
use matter_thread2mqtt.Prelude.{
  ℕ, ◌+◌, ◌*◌, ◌/◌, ℤ, pos, Text, [], ◌∷◌, ◌++◌, true, Option, none, some, ◌≡◌, refl, eqb_list,
  find, if◌then◌else◌, ◌==◌, int_eq,
}
use matter_thread2mqtt.Python.{
  Runtime, Num, int, Value, num, str, dict, field, end, ok, codes, split, strip,
}
use matter_thread2mqtt.Devices.{SwitchEvent, Opts, AttrId}
use matter_thread2mqtt.Devices.Gestures.{rank}
use matter_thread2mqtt.Bridge.{
  provision, device_task, on_message, payload_of, device_request, resolve, prop_of,
}
use matter_thread2mqtt.Bridge.TopicParts.{topic}
use matter_thread2mqtt.System.{System, initial, on_connect, started}
use matter_thread2mqtt.Bridge.Scheduling.{handle, connected}
use matter_thread2mqtt.System.Brightness.{asked, answer_of, message-level}
use matter_thread2mqtt.Samples.{py, ids, calm, lamp, printing}

abbrev bright : Text
bright = codes "brightness"

-- The payload as the json parser reads it.
abbrev asks_bright : Text → Option Value
asks_bright s = some (dict (asked bright (pos 100)))

message-level_example :
    (on_message py asks_bright
        (topic (codes "desk/lamp" ++ b'/' ∷ codes "set"))
        (codes "{\"brightness\": 100}")
      ≡ some (device_task (codes "desk/lamp") (codes "set") (dict (asked bright (pos 100)))))
    × (device_request py ids calm true
          (lamp ∷ [])
          (codes "desk/lamp")
          (codes "set")
          (dict (asked bright (pos 100)))
          []
        ≡ (
          ok tt,
          answer_of py lamp bright bright
                (pos 1)
                (pos 1)
                (pos 254)
                (pos 100)
                (codes "desk/lamp" ++ (codes "/" ++ codes "set"))
              ∷ [],
        ))
unfolding split eqb_list payload_of resolve prop_of strip find
message-level_example =
    message-level py lamp bright bright (pos 1) (pos 1) (pos 254) (pos 100) calm (λ h e. refl) ids
      asks_bright (lamp ∷ []) (codes "desk/lamp") (codes "{\"brightness\": 100}") [] refl refl refl
      refl refl

abbrev switch_ids : SwitchEvent → ℤ
unfolding rank
switch_ids e = pos (rank e)

abbrev nearest_div : Num → ℕ → Option ℕ
nearest_div (int (pos n)) k = some ((2 * n + k) / (2 * k))
nearest_div _ k = none

-- An interpreter whose quotients are rounded already.
abbrev rounding_py : Runtime
rounding_py = record py { true_div = nearest_div; float_round = λ q. ok (pos q) }

-- A transition of a second
abbrev soon : Opts
soon = record { transition = pos 10; with_on_off = true }

-- A light that reports the hue and the saturation that it was told, and always the same coordinates.
abbrev reported : (hue saturation : ℤ) → AttrId → Value
reported hue saturation a =
    if a.attribute == pos 0
    then num (int hue)
    else if a.attribute == pos 1
    then num (int saturation)
    else num (int (pos 24939))

-- mqtt connects, then the Matter server; a request to provision comes in and is carried out.
abbrev provision_payload : Value
provision_payload = dict (field (codes "code") (str (codes "3497-011-2332")) end)

abbrev asks_provision : Text → Option Value
asks_provision s = some provision_payload

abbrev on_mqtt : System
unfolding on_connect
on_mqtt = on_connect initial

abbrev on_matter : System
unfolding on_mqtt handle
on_matter = record on_mqtt {
  connected = true;
  tables =
      (handle py ids calm printing switch_ids (pos 59) (connected [] (ok (lamp ∷ [])))
        on_mqtt.tables).1;
}

abbrev asked_system : System
unfolding on_matter
asked_system = record on_matter { tasks = provision provision_payload ∷ [] }

abbrev provisioning_system : System
unfolding started asked_system
provisioning_system =
    started py ids calm printing switch_ids (pos 59) (provision provision_payload) [] (ok []) none
      (record asked_system { tasks = [] })
