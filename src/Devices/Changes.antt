-- ===== src/Devices/Changes.antt =====
-- What a set request does with a capability: coercion, validation and the command that a write
-- sends. The commands' `optionsMask` and `optionsOverride` are 0 throughout and left out.
use matter_thread2mqtt.Prelude.{
  ℕ, ℤ, pos, min_ℤ, Text, Bool, true, false, Option, none, some, ◌==◌, text_eq, int_eq,
  if◌then◌else◌,
}
use matter_thread2mqtt.Python.{
  Runtime, int, float, Value, null, bool, num, str, list, dict, Fields, end, field, get, Outcome,
  ok, raise, type_error, attribute_error, key_error, not_implemented, ◌>>=◌, codes, strip, upper,
  round_num, times, over,
}
use matter_thread2mqtt.Devices.Checks.{
  Problem, not_a_switch_state, not_a_color, read_only, as_number, check_number,
}
use matter_thread2mqtt.Devices.Caps.{Kind, on_off_cap, level_cap, color_temp_cap, color_cap}

-- The options of a set request.
pub record Opts : Type 0 where
  pub transition : ℤ
  pub with_on_off : Bool

-- The device commands that `write` sends.
pub data Command : Type 0 where
  on off toggle : Command
  move_to_level : (with_on_off : Bool) → (level transition : ℤ) → Command
  move_to_color_temperature : (mireds transition : ℤ) → Command
  move_to_hue_and_saturation : (hue saturation transition : ℤ) → Command
  move_to_color : (x y transition : ℤ) → Command

abbrev pub xy_max : ℤ
xy_max = pos 0xFEFF

-- `COMMANDS`
unfoldable pub command_of : Text → Option Command
command_of s =
    if s == codes "ON"
    then some on
    else if s == codes "OFF"
    then some off
    else if s == codes "TOGGLE"
    then some toggle
    else none

-- `ALIASES.get(key, key)` for a text
alias : Text → Text
alias s = if s == codes "TRUE" then codes "ON" else if s == codes "FALSE" then codes "OFF" else s

module _ (py : Runtime) where
  -- The look-up of `ALIASES`; True and 1 are one key. A list or a dict is unhashable.
  on_off_alias : Value → Outcome Value
  unfolding alias
  on_off_alias (bool b) = ok (str (if b then codes "ON" else codes "OFF"))
  on_off_alias (num (int i)) = ok (
      if i == pos 1
      then str (codes "ON")
      else if i == pos 0
      then str (codes "OFF")
      else num (int i))
  on_off_alias (num (float f)) = ok (num (float f))
  on_off_alias null = ok null
  on_off_alias (str s) = ok (str (alias (upper py (strip py s))))
  on_off_alias (list vs) = raise type_error
  on_off_alias (dict fs) = raise type_error

  map_as_number : Fields → Fields
  map_as_number end = end
  map_as_number (field k v fs) = field k (as_number py v) (map_as_number fs)

  color_number : Value → Value
  unfolding map_as_number
  color_number (dict fs) = dict (map_as_number fs)
  color_number v = v

  abbrev pub coerce_level : Value → Value
  coerce_level v = as_number py v

  abbrev pub coerce_color_temp : Value → Value
  coerce_color_temp v = as_number py v

  unfoldable pub coerce : Kind → Value → Outcome Value
  unfolding on_off_alias color_number
  coerce on_off_cap v = on_off_alias (as_number py v)
  coerce (level_cap vmin vmax) v = ok (coerce_level v)
  coerce (color_temp_cap vmin vmax) v = ok (coerce_color_temp v)
  coerce (color_cap hs xy) v = ok (color_number v)
  coerce _ v = ok v

  -- `check_number(a, …) or check_number(b, …)`
  unfoldable pub check_both : Value → Value → ℤ → ℤ → Outcome (Option Problem)
  check_both a b amax bmax = do
    first ← check_number py a (num (int (pos 0))) (num (int amax))
    elim first [
      | some p ↦ ok (some p)
      | none ↦ check_number py b (num (int (pos 0))) (num (int bmax))
    ]

  -- The pair of fields that a colour value gives, where the device supports it.
  unfoldable pub pair_of : Bool → Text → Text → Fields → Option (Value × Value)
  pair_of true k j fs = elim (get k fs) [
    | some a ↦ elim (get j fs) [ some b ↦ some (a, b) | none ↦ none ]
    | none ↦ none
  ]
  pair_of false k j fs = none

  unfoldable pub validate_color : Bool → Bool → Value → Outcome (Option Problem)
  unfolding pair_of check_both
  validate_color hs xy (dict fs) = elim (pair_of hs (codes "hue") (codes "saturation") fs) [
    | some (h, s) ↦ check_both h s (pos 360) (pos 100)
    | none ↦ elim (pair_of xy (codes "x") (codes "y") fs) [
      | some (x, y) ↦ check_both x y (pos 1) (pos 1)
      | none ↦ ok (some (not_a_color hs xy (dict fs)))
    ]
  ]
  validate_color hs xy v = ok (some (not_a_color hs xy v))

  validate_state : Value → Outcome (Option Problem)
  unfolding command_of
  validate_state (str s) = elim (command_of (upper py s)) [
    | some c ↦ ok none
    | none ↦ ok (some (not_a_switch_state (str s)))
  ]
  validate_state v = ok (some (not_a_switch_state v))

  abbrev pub validate_level : (vmin vmax : Value) → Value → Outcome (Option Problem)
  validate_level vmin vmax v = check_number py v vmin vmax

  abbrev pub validate_color_temp : (vmin vmax : Value) → Value → Outcome (Option Problem)
  validate_color_temp vmin vmax v = check_number py v vmin vmax

  -- `none` if the value can be written.
  unfoldable pub validate : Kind → Value → Outcome (Option Problem)
  unfolding validate_state validate_color
  validate on_off_cap v = validate_state v
  validate (level_cap vmin vmax) v = validate_level vmin vmax v
  validate (color_temp_cap vmin vmax) v = validate_color_temp vmin vmax v
  validate (color_cap hs xy) v = validate_color hs xy v
  validate _ v = ok (some read_only)

  -- `round(v)`; a bool is an int.
  unfoldable pub round_value : Value → Outcome ℤ
  round_value (num n) = round_num py n
  round_value (bool b) = ok (pos (if b then 1 else 0))
  round_value _ = raise type_error

  -- `round(v * k / d)`; sequences have no `/`.
  unfoldable pub scaled : Value → ℕ → ℕ → Outcome ℤ
  scaled (num n) k d = do q ← over py (times py n k) d; round_num py q
  scaled (bool b) k d = do q ← over py (int (pos (if b then k else 0))) d; round_num py q
  scaled _ k d = raise type_error

  -- `min(round(v * 65536), XY_MAX)`; a text times 65536 is a text, which has no `round`.
  chromaticity : Value → Outcome ℤ
  chromaticity (num n) = do i ← round_num py (times py n 65536); ok (min_ℤ i xy_max)
  chromaticity (bool b) = ok (min_ℤ (pos (if b then 65536 else 0)) xy_max)
  chromaticity _ = raise type_error

  item : Text → Fields → Outcome Value
  item k fs = elim (get k fs) [ some v ↦ ok v | none ↦ raise key_error ]

  unfoldable pub write_color : Bool → Value → Opts → Outcome Command
  unfolding pair_of scaled chromaticity item
  write_color hs (dict fs) opts = elim (pair_of hs (codes "hue") (codes "saturation") fs) [
    | some (h, s) ↦ do
      hue ← scaled h 254 360
      saturation ← scaled s 254 100
      ok (move_to_hue_and_saturation hue saturation opts.transition)
    | none ↦ do
      xv ← item (codes "x") fs
      x ← chromaticity xv
      yv ← item (codes "y") fs
      y ← chromaticity yv
      ok (move_to_color x y opts.transition)
  ]
  write_color hs v opts = raise type_error

  write_state : Value → Outcome Command
  unfolding command_of
  write_state (str s) = elim (command_of (upper py s)) [ some c ↦ ok c | none ↦ raise key_error ]
  write_state v = raise attribute_error

  -- `write` of each capability: the command, before it is sent.
  abbrev pub write_level : Value → Opts → Outcome Command
  write_level v opts = do
    level ← round_value v
    ok (move_to_level opts.with_on_off level opts.transition)

  abbrev pub write_color_temp : Value → Opts → Outcome Command
  write_color_temp v opts = do
    mireds ← round_value v
    ok (move_to_color_temperature mireds opts.transition)

  unfoldable pub write : Kind → Value → Opts → Outcome Command
  unfolding write_state write_color round_value
  write on_off_cap v opts = write_state v
  write (level_cap vmin vmax) v opts = write_level v opts
  write (color_temp_cap vmin vmax) v opts = write_color_temp v opts
  write (color_cap hs xy) v opts = write_color hs v opts
  write _ v opts = raise not_implemented
