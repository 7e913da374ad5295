-- ===== src/Bridge/Dispatch.antt =====
-- `device_request`: the operation on the device that a topic names, with its errors as messages.
use matter_thread2mqtt.Prelude.{
  Text, List, ◌++◌, Bool, true, false, Option, none, some, ◌==◌, text_eq, if◌then◌else◌,
}
use matter_thread2mqtt.Python.{Runtime, Value, dict, Fields, codes}
use matter_thread2mqtt.Devices.{DataModel}
use matter_thread2mqtt.Bridge.State.{
  Device, unknown_device, not_connected, payload_not_object, exception,
}
use matter_thread2mqtt.Bridge.Exec.{Client, Exec, catch, error}
use matter_thread2mqtt.Bridge.Requests.{resolve, set}
use matter_thread2mqtt.Bridge.Reading.{get}

module _ (py : Runtime) (ids : DataModel) (client : Client) where
  -- The operation of a device request, `set` or else `get`.
  unfoldable pub perform : Text → Text → Device → Fields → Exec (Unit {0})
  unfolding set get
  perform op request dev payload =
      if op == codes "set"
      then set py client request dev payload
      else get py ids client request dev payload

  -- The `try` block of `device_request`.
  unfoldable pub guarded : Text → Text → Device → Fields → Exec (Unit {0})
  unfolding perform
  guarded op request dev fs s =
      let (r, t) = perform op request dev fs s in catch r (λ e. error request (exception e)) t

  unfoldable pub with_payload : Text → Text → Device → Value → Exec (Unit {0})
  unfolding guarded
  with_payload op request dev (dict fs) = guarded op request dev fs
  with_payload op request dev v = error request payload_not_object

  unfoldable pub with_device : Text → Text → Text → Value → Option Device → Exec (Unit {0})
  unfolding with_payload
  with_device target op request payload none = error request (unknown_device target)
  with_device target op request payload (some dev) = with_payload op request dev payload

  -- `connected` is `self.matter.client is not None`, and `devices` are the values of the device table.
  unfoldable pub device_request : Bool → List Device → Text → Text → Value → Exec (Unit {0})
  unfolding with_device
  device_request false devices target op payload = error (target ++ (codes "/" ++ op)) not_connected
  device_request true devices target op payload =
      with_device target op (target ++ (codes "/" ++ op)) payload (resolve devices target)
