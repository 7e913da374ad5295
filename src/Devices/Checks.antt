-- ===== src/Devices/Checks.antt =====
-- `as_number` and `check_number`, and the error texts of the module.
use matter_thread2mqtt.Prelude.{Bool, false, Option, none, some, if◌then◌else◌}
use matter_thread2mqtt.Python.{
  Runtime, Num, int, float, Value, null, num, str, Outcome, ok, raise, type_error, ◌>>=◌, strip,
  parse_int, num_lt, as_num,
}

-- An error text stands as its kind with the values that it prints.
pub data Problem : Type 0 where
  not_a_number : Value → Problem
  out_of_range : Num → Value → Value → Problem
  not_a_switch_state : Value → Problem
  not_a_color : Bool → Bool → Value → Problem
  read_only : Problem

module _ (py : Runtime) where
  unfoldable pub as_number : Value → Value
  as_number (str s) = elim (parse_int py (strip py s)) [
    | some i ↦ num (int i)
    | none ↦ elim (py.parse_float (strip py s)) [ some f ↦ num (float f) | none ↦ str s ]
  ]
  as_number v = v

  -- `v < bound` and `bound < v`, each behind its `bound is not None`.
  below : Num → Value → Outcome Bool
  below n null = ok false
  below n bound = elim (as_num bound) [ some b ↦ ok (num_lt py n b) | none ↦ raise type_error ]

  above : Num → Value → Outcome Bool
  above n null = ok false
  above n bound = elim (as_num bound) [ some b ↦ ok (num_lt py b n) | none ↦ raise type_error ]

  -- The bound `null` is None. A bool is not a `num`, as the source wants it.
  unfoldable pub check_number : Value → Value → Value → Outcome (Option Problem)
  unfolding below above num_lt as_num
  check_number (num n) vmin vmax = do
    low ← below n vmin
    if low
        then ok (some (out_of_range n vmin vmax))
        else do high ← above n vmax; ok (if high then some (out_of_range n vmin vmax) else none)
  check_number v vmin vmax = ok (some (not_a_number v))
