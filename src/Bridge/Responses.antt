-- ===== src/Bridge/Responses.antt =====
-- The requests on bridge/request, and `discover`.
use matter_thread2mqtt.Prelude.{
  Text, List, [], ◌∷◌, ◌++◌, Bool, true, false, Option, none, some, ◌==◌, text_eq, if◌then◌else◌,
}
use matter_thread2mqtt.Python
use matter_thread2mqtt.Python.{
  Runtime, Value, null, str, dict, Fields, Outcome, ok, raise, Exc, codes, list, type_error,
}
use matter_thread2mqtt.Devices.{DataModel}
use matter_thread2mqtt.Bridge.State.{
  Device, Effect, publish, topic_root, not_connected, error_payload, Response, answer, refusal,
  payload_not_json_object, unknown_request, disconnected, no_such_device, raised, response_payload,
}
use matter_thread2mqtt.Bridge.Exec.{Client}
use matter_thread2mqtt.Bridge.Requests.{resolve}
use matter_thread2mqtt.Bridge.Callbacks.{Tables, Result, out, rebuild}

-- `payload.get("transaction")`, or None for a payload that is no dict
unfoldable pub transaction_of : Value → Value
transaction_of (dict fs) = elim (Python.get (codes "transaction") fs) [ some v ↦ v | none ↦ null ]
transaction_of v = null

-- `resolve(name) if name is not None else None`: only a text equals one of the compared texts.
unfoldable pub named : List Device → Option Value → Option Device
unfolding resolve
named devices (some (str s)) = resolve devices s
named devices _ = none

-- What `respond` publishes.
abbrev pub respond : Text → Value → Response → Effect
respond subject transaction r =
    publish (topic_root ++ (codes "/bridge/response/" ++ subject)) (response_payload transaction r)
      false

abbrev pub device_dump : Text
device_dump = codes "device/dump"

-- `dump` is `dump_node` of a device's node.
module _ (dump : Device → Outcome Value) where
  unfoldable pub dumped : Device → Outcome Value → Response
  dumped dev (ok v) = answer dev.node_id dev.friendly_name v
  dumped dev (raise e) = refusal (raised e)

  unfoldable pub dump_named : Option Device → Response
  unfolding dumped
  dump_named none = refusal no_such_device
  dump_named (some dev) = dumped dev (dump dev)

module _ (dump : Device → Outcome Value) (connected : Bool) (devices : List Device) where
  unfoldable pub req_device_dump : Fields → Response
  unfolding dump_named named
  req_device_dump fs =
      if connected
      then dump_named dump (named devices (Python.get (codes "device") fs))
      else refusal disconnected

  unfoldable pub handled : Text → Value → Response
  unfolding req_device_dump
  handled subject (dict fs) =
      if subject == device_dump then req_device_dump fs else refusal (unknown_request subject)
  handled subject v = refusal payload_not_json_object

  unfoldable pub request : Text → Value → List Effect
  unfolding handled transaction_of
  request subject payload = respond subject (transaction_of payload) (handled subject payload) ∷ []

-- `discover`
unfoldable pub discover :
    Runtime
    → DataModel
    → Client
    → List Effect
    → (connected : Bool) → (made : Outcome (List Device)) → Tables
    → Result
unfolding rebuild
discover py ids client s true made t = rebuild py ids client s made t
discover py ids client s false made t =
    (ok tt, t, out (publish topic_root (error_payload (codes "discover") not_connected) false) ∷ [])
