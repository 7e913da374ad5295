-- ===== src/Bridge/Announcing.antt =====
-- What mqtt clients find on the retained topics after a rebuild.
use matter_thread2mqtt.Prelude.{
  Text, List, [], ◌∷◌, map, true, false, not, keep, Option, some, ◌≡◌, contains, nat_eq, text_eq,
  int_eq,
}
use matter_thread2mqtt.Python.{Runtime, Value}
use matter_thread2mqtt.Devices.{DataModel}
use matter_thread2mqtt.Bridge.{
  Device, Effect, publish, Payload, devices_payload, availability_payload, state_payload,
  state_topic, Client, Tables, Act, out, publish_all, table_from, subscribe_from, node_ids,
  unsubscribe,
}
use matter_thread2mqtt.Bridge.Retained.{availability_topic, devices_topic, kept, retained}

module _ (py : Runtime) (ids : DataModel) (client : Client) (s : List Effect) where
  abbrev shown : Device → List (Text × Value) → Act
  shown d state = out (publish (state_topic d) (state_payload state) false)

  abbrev pub ShowsAvailability : (old : Text → Option Payload) → List Act → Device → Type 0
  ShowsAvailability old acts d =
      retained (availability_topic d) (old (availability_topic d)) acts
      ≡ some (availability_payload d.available)

  -- Before the list of the devices: the subscriptions that end, and the new ones.
  abbrev ended_subscriptions : List Device → Tables → List Act
  ended_subscriptions nodes t =
      map unsubscribe (keep (λ n. not (contains (node_ids (table_from [] nodes)) n)) t.attr_unsubs)

  abbrev new_subscriptions : List Device → Tables → List Act
  new_subscriptions nodes t =
      let known = node_ids (table_from [] nodes) in
      (subscribe_from (keep (λ n. contains known n) t.attr_unsubs) known).1

  abbrev listing : List Device → List Act
  listing devices =
      out (publish devices_topic (devices_payload devices) true)
      ∷ (publish_all py ids client s devices).1

  -- What was retained when the list of the devices was out.
  abbrev listed_then :
      (old : Text → Option Payload) → List Act → List Device → Text → Option Payload
  listed_then old before devices t =
      kept t (retained t (old t) before)
        (out (publish devices_topic (devices_payload devices) true))
