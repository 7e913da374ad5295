-- ===== src/Devices/Caps.antt =====
-- `Cap` and its subclasses: names, access bits, attributes and their paths.
use matter_thread2mqtt.Prelude.{
  ℕ, ℤ, bit_and, bit_or, eqb, Text, List, [], ◌∷◌, ◌++◌, map, Bool, true, false, not, text_eq,
  int_eq, if◌then◌else◌,
}
use matter_thread2mqtt.Python.{Value, codes, show_ℤ}
use matter_thread2mqtt.Devices.Ids.{AttrId, DataModel}

-- The rows of `SENSORS`.
pub data Sensor : Type 0 where
  temperature humidity pressure illuminance occupancy contact battery battery_low : Sensor

unfoldable pub sensor_name : Sensor → Text
sensor_name temperature = codes "temperature"
sensor_name humidity = codes "humidity"
sensor_name pressure = codes "pressure"
sensor_name illuminance = codes "illuminance"
sensor_name occupancy = codes "occupancy"
sensor_name contact = codes "contact"
sensor_name battery = codes "battery"
sensor_name battery_low = codes "battery_low"

-- The subclass with the fields of its own; bounds are attribute values, `null` for None.
pub data Kind : Type 0 where
  on_off_cap : Kind
  level_cap : (vmin vmax : Value) → Kind
  color_temp_cap : (vmin vmax : Value) → Kind
  color_cap : (hs xy : Bool) → Kind
  color_mode_cap : (values : List Text) → Kind
  action_cap : (latching multi long release : Bool) → (positions max_presses : Value) → Kind
  sensor_cap : Sensor → Kind

pub record Cap : Type 0 where
  pub ep : ℤ
  pub kind : Kind
  pub prop : Text

abbrev pub published : ℕ
published = 1

abbrev pub settable_bit : ℕ
settable_bit = 2

abbrev pub gettable_bit : ℕ
gettable_bit = 4

-- The attributes of a class; `name` is None in `Cap` itself.
pub record CapClass : Type 0 where
  pub name : Text
  pub access : ℕ
  pub momentary : Bool

-- `Cap`
abbrev pub base_class : CapClass
base_class = record { name = []; access = bit_or published gettable_bit; momentary = false }

abbrev pub writable : ℕ
writable = bit_or (bit_or published settable_bit) gettable_bit

-- The subclasses, each with what it overrides
abbrev pub on_off_class : CapClass
on_off_class = record base_class { name = codes "state"; access = writable }

abbrev pub level_class : CapClass
level_class = record base_class { name = codes "brightness"; access = writable }

abbrev pub color_temp_class : CapClass
color_temp_class = record base_class { name = codes "color_temp"; access = writable }

abbrev pub color_class : CapClass
color_class = record base_class { name = codes "color"; access = writable }

abbrev pub color_mode_class : CapClass
color_mode_class = record base_class { name = codes "color_mode" }

abbrev pub action_class : CapClass
action_class = record base_class { name = codes "action"; access = published; momentary = true }

-- A sensor sets its name itself.
abbrev pub sensor_class : Sensor → CapClass
unfolding sensor_name
sensor_class s = record base_class { name = sensor_name s }

unfoldable pub class_of : Kind → CapClass
unfolding sensor_name
class_of on_off_cap = on_off_class
class_of (level_cap vmin vmax) = level_class
class_of (color_temp_cap vmin vmax) = color_temp_class
class_of (color_cap hs xy) = color_class
class_of (color_mode_cap values) = color_mode_class
class_of (action_cap latching multi long release positions max_presses) = action_class
class_of (sensor_cap s) = sensor_class s

unfoldable pub name : Kind → Text
unfolding class_of
name k = (class_of k).name

unfoldable pub access : Kind → ℕ
unfolding class_of
access k = (class_of k).access

-- `cap.access & SETTABLE` and `cap.access & GETTABLE` as tests
unfoldable pub settable : Kind → Bool
unfolding access
settable k = not (eqb (bit_and (access k) settable_bit) 0)

unfoldable pub gettable : Kind → Bool
unfolding access
gettable k = not (eqb (bit_and (access k) gettable_bit) 0)

unfoldable pub momentary : Kind → Bool
unfolding class_of
momentary k = (class_of k).momentary

module _ (ids : DataModel) where
  unfoldable pub sensor_attr : Sensor → AttrId
  sensor_attr temperature = ids.temperature
  sensor_attr humidity = ids.humidity
  sensor_attr pressure = ids.pressure
  sensor_attr illuminance = ids.illuminance
  sensor_attr occupancy = ids.occupancy
  sensor_attr contact = ids.contact
  sensor_attr battery = ids.battery_percent
  sensor_attr battery_low = ids.battery_level

  unfoldable pub attrs : Kind → List AttrId
  unfolding sensor_attr
  attrs on_off_cap = ids.on_off ∷ []
  attrs (level_cap vmin vmax) = ids.current_level ∷ []
  attrs (color_temp_cap vmin vmax) = ids.color_temp_mireds ∷ []
  attrs (color_cap hs xy) =
      (if hs then ids.current_hue ∷ ids.current_saturation ∷ [] else [])
      ++ (if xy then ids.current_x ∷ ids.current_y ∷ [] else [])
  attrs (color_mode_cap values) = ids.color_mode ∷ []
  attrs (action_cap latching multi long release positions max_presses) = []
  attrs (sensor_cap s) = sensor_attr s ∷ []

  -- f"{ep}/{cid}/{aid}"
  unfoldable pub paths : Cap → List Text
  unfolding attrs
  paths c =
      map (λ a. show_ℤ c.ep ++ b'/' ∷ (show_ℤ a.cluster ++ b'/' ∷ show_ℤ a.attribute))
        (attrs c.kind)
