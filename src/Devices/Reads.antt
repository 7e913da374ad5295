-- ===== src/Devices/Reads.antt =====
-- `read` of every capability: the zigbee2mqtt value of cached Matter attributes.
use matter_thread2mqtt.Prelude.{
  ℕ, ◌-◌, ℤ, pos, negsuc, sub_ℕ, bit_and, Text, Bool, not, eqb, none, some, ◌==◌, int_eq,
  if◌then◌else◌,
}
use matter_thread2mqtt.Python.{
  Runtime, Num, int, float, Value, null, bool, num, str, dict, Fields, end, field, Outcome, ok,
  raise, type_error, value_error, ◌>>=◌, codes, strip, parse_int, round_num, times, over, as_num,
  truthy,
}
use matter_thread2mqtt.Devices.Ids.{AttrId, DataModel}
use matter_thread2mqtt.Devices.Caps.{
  Kind, on_off_cap, level_cap, color_temp_cap, color_cap, color_mode_cap, action_cap, sensor_cap,
  Sensor, temperature, humidity, pressure, illuminance, occupancy, contact, battery, battery_low,
  sensor_attr,
}

module _ (py : Runtime) where
  -- A value in arithmetic.
  unfoldable pub number : Value → Outcome Num
  unfolding as_num
  number v = elim (as_num v) [ some n ↦ ok n | none ↦ raise type_error ]

  -- `v / k`
  divided : Value → ℕ → Outcome Value
  unfolding number over
  divided v k = do n ← number v; q ← over py n k; ok (num q)

  -- `round(v * k / d)`
  unfoldable pub rescaled : Value → ℕ → ℕ → Outcome Value
  unfolding number times over round_num
  rescaled v k d = do
    n ← number v
    q ← over py (times py n k) d
    i ← round_num py q
    ok (num (int i))

  unfoldable pub round_to : Num → ℕ → Num
  round_to (int i) k = int i
  round_to (float f) k = float (py.float_round_to f k)

  -- `round(v / 65536, 4)`
  unfoldable pub coordinate : Value → Outcome Value
  unfolding number over round_to
  coordinate v = do n ← number v; q ← over py n 65536; ok (num (round_to q 4))

  pred_num : Num → Num
  pred_num (int (pos n)) = int (sub_ℕ n 1)
  pred_num (int (negsuc n)) = int (negsuc (Prim.Native.Nat.◌+◌ n 1))
  pred_num (float f) = float (py.float_pred f)

  exp10 : Num → Outcome Num
  exp10 (int i) = raise type_error
  exp10 (float f) = do g ← py.float_exp10 f; ok (float g)

  -- `round(10 ** ((v - 1) / 10000), 1) if v else 0`
  lux : Value → Outcome Value
  unfolding number over pred_num exp10 round_to truthy
  lux v =
      if not (truthy v)
      then ok (num (int (pos 0)))
      else do n ← number v; e ← over py (pred_num n) 10000; l ← exp10 e; ok (num (round_to l 1))

  -- `int(v)`
  unfoldable pub int_of : Value → Outcome ℤ
  unfolding parse_int strip
  int_of (num (int i)) = ok i
  int_of (num (float f)) = py.float_trunc f
  int_of (bool b) = ok (pos (if b then 1 else 0))
  int_of (str s) = elim (parse_int py (strip py s)) [ some i ↦ ok i | none ↦ raise value_error ]
  int_of v = raise type_error

  -- `i & k` in two's complement
  and_ℤ : ℤ → ℕ → ℕ
  and_ℤ (pos n) k = bit_and n k
  and_ℤ (negsuc n) k = k - bit_and n k

  unfoldable pub masked : Value → ℕ → Outcome ℕ
  unfolding and_ℤ
  masked (num (int i)) k = ok (and_ℤ i k)
  masked (bool b) k = ok (bit_and (if b then 1 else 0) k)
  masked v k = raise type_error

  -- The conversions of `SENSORS`.
  unfoldable pub convert : DataModel → Sensor → Value → Outcome Value
  unfolding divided lux masked int_of truthy
  convert ids temperature v = divided v 100
  convert ids humidity v = divided v 100
  convert ids pressure v = ok v
  convert ids illuminance v = lux v
  convert ids occupancy v = do m ← masked v ids.occupied; ok (bool (not (eqb m 0)))
  convert ids contact v = ok (bool (truthy v))
  convert ids battery v = divided v 2
  convert ids battery_low v = do i ← int_of v; ok (bool (not (i == ids.bat_ok)))

  -- `f(v)`, or None for None
  unfoldable pub unless_null : (Value → Outcome Value) → Value → Outcome Value
  unless_null f null = ok null
  unless_null f v = f v

  unfoldable pub color_mode_name : DataModel → ℤ → Value
  color_mode_name ids i =
      if i == ids.mode_color_temp
      then str (codes "color_temp")
      else if i == ids.mode_xy
      then str (codes "xy")
      else if i == ids.mode_hs
      then str (codes "hs")
      else null

  -- `if v is not None: out[k] = v`, in front of the entries that follow
  unfoldable pub entry : Text → Value → Fields → Fields
  entry k null fs = fs
  entry k v fs = field k v fs

  -- `out or None`
  unfoldable pub or_null : Fields → Value
  or_null end = null
  or_null (field k v fs) = dict (field k v fs)

  unfoldable pub read_color : DataModel → (AttrId → Value) → Bool → Bool → Outcome Value
  unfolding unless_null rescaled coordinate entry or_null
  read_color ids attr hs xy = do
    h ← if hs then unless_null (λ v. rescaled v 360 254) (attr ids.current_hue) else ok null
    s ← if hs then unless_null (λ v. rescaled v 100 254) (attr ids.current_saturation) else ok null
    x ← if xy then unless_null coordinate (attr ids.current_x) else ok null
    y ← if xy then unless_null coordinate (attr ids.current_y) else ok null
    ok (
        or_null (
          entry (codes "hue") h
            (entry (codes "saturation") s (entry (codes "x") x (entry (codes "y") y end)))))

  -- `attr` is the cached value of an attribute on the capability's endpoint: `null` for a Nullable
  -- and for an attribute that the cache lacks.
  module _ (ids : DataModel) (attr : AttrId → Value) where
    abbrev pub read_on_off : Outcome Value
    read_on_off =
        unless_null (λ v. ok (str (if truthy v then codes "ON" else codes "OFF"))) (attr ids.on_off)

    abbrev pub read_level : Outcome Value
    read_level = ok (attr ids.current_level)

    abbrev pub read_color_temp : Outcome Value
    read_color_temp = ok (attr ids.color_temp_mireds)

    -- A press is never part of the state.
    abbrev pub read_action : Outcome Value
    read_action = ok null

    abbrev pub read_color_mode : Outcome Value
    read_color_mode =
        unless_null (λ v. do i ← int_of v; ok (color_mode_name ids i)) (attr ids.color_mode)

    abbrev pub read_sensor : Sensor → Outcome Value
    read_sensor s = unless_null (convert ids s) (attr (sensor_attr ids s))

  unfoldable pub read : DataModel → (AttrId → Value) → Kind → Outcome Value
  unfolding unless_null convert color_mode_name read_color int_of truthy sensor_attr
  read ids attr on_off_cap = read_on_off ids attr
  read ids attr (level_cap vmin vmax) = read_level ids attr
  read ids attr (color_temp_cap vmin vmax) = read_color_temp ids attr
  read ids attr (color_cap hs xy) = read_color ids attr hs xy
  read ids attr (color_mode_cap values) = read_color_mode ids attr
  read ids attr (action_cap latching multi long release positions max_presses) =
      read_action ids attr
  read ids attr (sensor_cap s) = read_sensor ids attr s
