-- ===== src/Devices/Switching.antt =====
-- Which values `OnOffCap.validate` lets through, and that only this capability is named "state".
use matter_thread2mqtt.Prelude.{
  Text, ◌≡◌, refl, ◌⊎◌, inl, inr, Option-cases, true, false, some, none, arith, ◌==◌, text_eq,
  nat_eq, eqb_list, eqb_list_iff,
}
use matter_thread2mqtt.Python.{Runtime, Value, str, ok, codes, upper}
use matter_thread2mqtt.Devices.{
  Kind, on_off_cap, sensor_cap, Sensor, temperature, Command, name, validate, command_of,
}

command_text :
    (u : Text) (c : Command)
    → command_of u ≡ some c
    → (u ≡ codes "ON") ⊎ ((u ≡ codes "OFF") ⊎ (u ≡ codes "TOGGLE"))
unfolding command_of
command_text u c h = ground (
  arith,
  eqb_list_iff u (codes "ON"),
  eqb_list_iff u (codes "OFF"),
  eqb_list_iff u (codes "TOGGLE"),
)

name_of_sensor : (s : Sensor) → (name (sensor_cap s) == codes "state") ≡ false
unfolding name eqb_list
name_of_sensor temperature = refl
name_of_sensor _ = refl

-- A validated value of the property "state" is a text that reads ON, OFF or TOGGLE.
pub state_text :
    (py : Runtime) (k : Kind) (v : Value)
    → (name k == codes "state") ≡ true
    → validate py k v ≡ ok none
    → (s : Text) × (v ≡ str s)
      × ((upper py s ≡ codes "ON") ⊎ ((upper py s ≡ codes "OFF") ⊎ (upper py s ≡ codes "TOGGLE")))
unfolding name validate eqb_list
state_text py on_off_cap (str s) h e = elim (Option-cases (command_of (upper py s))) [
  | inl n ↦ absurd (ground arith)
  | inr (c, f) ↦ (s, refl, command_text (upper py s) c f)
]
state_text py on_off_cap v h e = absurd (cc)
state_text py (sensor_cap s) v h e = ground (arith, name_of_sensor s)
state_text py _ v h e = ground arith
