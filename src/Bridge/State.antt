-- ===== src/Bridge/State.antt =====
-- The data of the bridge: devices, messages, and the effects that its methods have.
use matter_thread2mqtt.Prelude.{ℤ, Text, List, Bool}
use matter_thread2mqtt.Python.{Value, Exc, codes}
use matter_thread2mqtt.Devices.{Cap, Command, Problem}

-- What requests read of a `Device`; `props` is its dict in order.
pub record Device : Type 0 where
  pub node_id : ℤ
  pub friendly_name : Text
  pub unique_id : Value
  pub available : Bool
  pub props : List (Text × Cap)

-- An error text stands as its kind with the values that it prints.
pub data Message : Type 0 where
  not_connected payload_not_object : Message
  unknown_device : Text → Message
  exception : Exc → Message
  bad_transition bad_with_on_off : Value → Message
  unknown_property : Text → List Text → Message
  not_settable not_readable : Text → Message
  invalid : Text → Problem → Message
  color_modes_clash : ℤ → Message
  toggle_clash : ℤ → List Text → Message

-- Why a request on bridge/request is answered with an error.
pub data RequestError : Type 0 where
  payload_not_json_object disconnected no_such_device : RequestError
  unknown_request : Text → RequestError
  raised : Exc → RequestError

-- The status of a response with its error or its data, here the dump of a device.
pub data Response : Type 0 where
  answer : (node : ℤ) → (friendly_name : Text) → (endpoints : Value) → Response
  refusal : RequestError → Response

-- What `publish` serialises.
pub data Payload : Type 0 where
  error_payload : Text → Message → Payload
  state_payload : List (Text × Value) → Payload
  availability_payload : (online : Bool) → Payload
  -- the infos of the devices
  devices_payload : List Device → Payload
  action_payload : (prop action : Text) → Payload
  -- the answer to a ping
  pong_payload : Payload
  response_payload : (transaction : Value) → Response → Payload

-- A publication on mqtt, a command to an endpoint of a node, a live read of an attribute path.
pub data Effect : Type 0 where
  publish : (topic : Text) → Payload → (retain : Bool) → Effect
  send : (node ep : ℤ) → Command → Effect
  refresh : (node : ℤ) → Text → Effect

abbrev pub topic_root : Text
topic_root = codes "mt2m"
