-- ===== src/Bridge/Answering.antt =====
-- How a request on bridge/request is answered.
use matter_thread2mqtt.Prelude.{Text, List, Bool, true, some, ◌≡◌, text_eq, nat_eq}
use matter_thread2mqtt.Python
use matter_thread2mqtt.Python.{Value, dict, Fields, Outcome, ok, codes, Outcome-cases}
use matter_thread2mqtt.Bridge.State.{Device, Response, answer, refusal}
use matter_thread2mqtt.Bridge.Responses.{named, device_dump}

module _ (dump : Device → Outcome Value) (connected : Bool) (devices : List Device) where
  -- A request for the dump of a device that is there, while the client is connected.
  pub record Dumps (subject : Text) (payload : Value) (r : Response) : Type 0 where
    pub fields : Fields
    pub object : payload ≡ dict fields
    pub known : subject ≡ device_dump
    pub online : connected ≡ true
    pub dev : Device
    pub found : named devices (Python.get (codes "device") fields) ≡ some dev
    pub endpoints : Value
    pub read : dump dev ≡ ok endpoints
    pub reply : r ≡ answer dev.node_id dev.friendly_name endpoints

  abbrev pub IsRefusal : Response → Type 0
  IsRefusal (refusal e) = Unit
  IsRefusal (answer n name v) = ⊥

  -- The two ways to answer a request.
  pub data Answered (subject : Text) (payload : Value) (r : Response) : Type 0 where
    served : Dumps subject payload r → Answered subject payload r
    turned_down : IsRefusal r → Answered subject payload r
