-- ===== src/System/Consistent.antt =====
-- What holds of the process at any time.
use matter_thread2mqtt.Prelude.{Bool, true, ◌||◌, not, ◌≡◌}
use matter_thread2mqtt.Bridge.Responses
use matter_thread2mqtt.Bridge.Scheduling.{IsSound}
use matter_thread2mqtt.Bridge.Scheduling
use matter_thread2mqtt.Bridge.Commissioning.{IsExclusive}
use matter_thread2mqtt.Bridge.Commissioning
use matter_thread2mqtt.System.{System}

-- The tables and the provisions are in order, and who is subscribed has a bridge.
pub record IsConsistent (whole : Bool) (y : System) : Type 0 where
  pub sound : IsSound whole y.tables
  pub exclusive : IsExclusive y.provisions
  pub ready : (not y.subscribed || y.bridge) ≡ true
