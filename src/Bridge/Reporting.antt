-- ===== src/Bridge/Reporting.antt =====
-- `device_request`: every way to fail ends in one error message to the client.
use matter_thread2mqtt.Prelude.{
  Text, List, [], ◌∷◌, ◌++◌, Bool, true, false, Option, none, some, ◌≡◌, ◌≢◌, refl,
}
use matter_thread2mqtt.Python.{Runtime, Value, dict, Fields, Outcome, ok, raise, Exc, codes}
use matter_thread2mqtt.Devices.{DataModel}
use matter_thread2mqtt.Bridge.{
  Device, Effect, exception, not_connected, unknown_device, payload_not_object, Client, resolve,
  perform, guarded, with_payload, with_device, device_request, catch, error,
}
use matter_thread2mqtt.Bridge.Setting.{error_effect}

module _ (py : Runtime) (ids : DataModel) (client : Client) where
  abbrev request_of : Text → Text → Text
  request_of target op = target ++ (codes "/" ++ op)

  -- The effects of a device request.
  pub data Reported (connected : Bool) (devices : List Device) (target op : Text) (payload : Value)
      (s t : List Effect) : Type 0 where
    unconnected :
        connected ≡ false
        → t ≡ s ++ error_effect (request_of target op) not_connected ∷ []
        → Reported connected devices target op payload s t
    unresolved :
        resolve devices target ≡ none
        → t ≡ s ++ error_effect (request_of target op) (unknown_device target) ∷ []
        → Reported connected devices target op payload s t
    no_object :
        ((fs : Fields) → payload ≢ dict fs)
        → t ≡ s ++ error_effect (request_of target op) payload_not_object ∷ []
        → Reported connected devices target op payload s t
    served :
        (dev : Device) (fs : Fields)
        → connected ≡ true
        → resolve devices target ≡ some dev
        → payload ≡ dict fs
        → perform py ids client op (request_of target op) dev fs s ≡ (ok tt, t)
        → Reported connected devices target op payload s t
    caught :
        (dev : Device) (fs : Fields) (e : Exc) (u : List Effect)
        → connected ≡ true
        → resolve devices target ≡ some dev
        → payload ≡ dict fs
        → perform py ids client op (request_of target op) dev fs s ≡ (raise e, u)
        → t ≡ u ++ error_effect (request_of target op) (exception e) ∷ []
        → Reported connected devices target op payload s t

  guarded_lem :
      (devices : List Device) (target op : Text) (dev : Device) (fs : Fields) (s : List Effect)
      → resolve devices target ≡ some dev
      → ((guarded py ids client op (request_of target op) dev fs s).0 ≡ ok tt)
        × Reported true devices target op
            (dict fs)
            s
            (guarded py ids client op (request_of target op) dev fs s).1
  unfolding guarded
  guarded_lem devices target op dev fs s found =
      split (perform py ids client op (request_of target op) dev fs s) refl
    where
      split :
          (x : Outcome (Unit {0}) × List Effect)
          → perform py ids client op (request_of target op) dev fs s ≡ x
          → ((catch x.0 (λ e. error (request_of target op) (exception e)) x.1).0 ≡ ok tt)
            × Reported true devices target op
                (dict fs)
                s
                (catch x.0 (λ e. error (request_of target op) (exception e)) x.1).1
      split (ok r, u) h = (refl, served dev fs refl found refl h)
      split (raise e, u) h = (refl, caught dev fs e u refl found refl h refl)

  with_payload_lem :
      (devices : List Device) (target op : Text) (dev : Device) (payload : Value) (s : List Effect)
      → resolve devices target ≡ some dev
      → ((with_payload py ids client op (request_of target op) dev payload s).0 ≡ ok tt)
        × Reported true devices target op payload s
            (with_payload py ids client op (request_of target op) dev payload s).1
  unfolding with_payload
  with_payload_lem devices target op dev (dict fs) s found =
      guarded_lem devices target op dev fs s found
  with_payload_lem devices target op dev v s found = (refl, no_object (λ fs e. cc) refl)

  with_device_lem :
      (devices : List Device) (target op : Text) (payload : Value) (o : Option Device)
      (s : List Effect)
      → resolve devices target ≡ o
      → ((with_device py ids client target op (request_of target op) payload o s).0 ≡ ok tt)
        × Reported true devices target op payload s
            (with_device py ids client target op (request_of target op) payload o s).1
  unfolding with_device
  with_device_lem devices target op payload none s h = (refl, unresolved h refl)
  with_device_lem devices target op payload (some dev) s h =
      with_payload_lem devices target op dev payload s h

  -- A device request never raises. It publishes one error message, and does nothing else, if the
  -- bridge is not connected, if no device has the name, or if the payload is no json object.
  -- Otherwise it does what `set` or `get` does for the device with that name, and if that raises,
  -- one error message with the exception follows.
  pub device_request-Reported :
      (connected : Bool) (devices : List Device) (target op : Text) (payload : Value)
      (s : List Effect)
      → ((device_request py ids client connected devices target op payload s).0 ≡ ok tt)
        × Reported connected devices target op payload s
            (device_request py ids client connected devices target op payload s).1
  unfolding device_request
  device_request-Reported false devices target op payload s = (refl, unconnected refl refl)
  device_request-Reported true devices target op payload s =
      with_device_lem devices target op payload (resolve devices target) s refl
