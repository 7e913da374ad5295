-- ===== src/Python/Numbers.antt =====
-- `int(s)`, comparison, `round` and arithmetic on Python numbers.
use matter_thread2mqtt.Prelude.{
  ℕ, suc, ◌+◌, ◌-◌, ◌*◌, ℤ, pos, negsuc, sub_ℕ, scale, ltb_ℤ, Text, [], ◌∷◌, Bool, true, false,
  ◌&&◌, not, Option, none, some, ltb, leb, eqb, is_empty, if◌then◌else◌,
}
use matter_thread2mqtt.Python.Values.{
  Num, int, float, Value, null, bool, num, str, list, dict, nil, cons, end, field,
}
use matter_thread2mqtt.Python.Interpreter.{Runtime}
use matter_thread2mqtt.Python.Errors.{Outcome, ok, raise, overflow_error}

-- CPython refuses longer decimal texts (`sys.set_int_max_str_digits`).
abbrev pub max_digits : ℕ
max_digits = 4300

module _ (py : Runtime) where
  unfoldable pub digit : ℕ → Option ℕ
  digit c =
      if ltb c 128
      then (if leb b'0' c && leb c b'9' then some (c - b'0') else none)
      else py.digit_of c

  -- Digits with single underscores between them; the flag says that the last character was a digit.
  unfoldable pub digits : ℕ → ℕ → Bool → Text → Option ℕ
  unfolding digit
  digits count acc last [] = if last && leb count max_digits then some acc else none
  digits count acc last (c ∷ s) = elim (digit c) [
    | some d ↦ digits (suc count) (acc * 10 + d) true s
    | none ↦ if eqb c b'_' && last then digits count acc false s else none
  ]

  -- `int(s)` of a stripped text; `none` is a ValueError.
  unfoldable pub parse_int : Text → Option ℤ
  unfolding digits digit
  parse_int [] = none
  parse_int (c ∷ s) =
      if eqb c b'-'
      then elim (digits 0 0 false s) [ some n ↦ some (sub_ℕ 0 n) | none ↦ none ]
      else (let t = if eqb c b'+' then s else c ∷ s in
          elim (digits 0 0 false t) [ some n ↦ some (pos n) | none ↦ none ])

  unfoldable pub num_lt : Num → Num → Bool
  num_lt (int a) (int b) = ltb_ℤ a b
  num_lt a b = py.float_lt a b

  -- `round(n)`
  unfoldable pub round_num : Num → Outcome ℤ
  round_num (int i) = ok i
  round_num (float f) = py.float_round f

  -- `n * k` for an integer constant
  unfoldable pub times : Num → ℕ → Num
  times (int i) k = int (scale i k)
  times (float f) k = float (py.float_mul f k)

  -- `n / k` for an integer constant
  unfoldable pub over : Num → ℕ → Outcome Num
  over n k = elim (py.true_div n k) [ some f ↦ ok (float f) | none ↦ raise overflow_error ]

-- The number that a value is in arithmetic: a bool is an int.
unfoldable pub as_num : Value → Option Num
as_num (num n) = some n
as_num (bool b) = some (int (pos (if b then 1 else 0)))
as_num _ = none

-- `bool(v)`; the bit patterns of 0.0 and -0.0 are falsy.
unfoldable pub truthy : Value → Bool
truthy null = false
truthy (bool b) = b
truthy (num (int (pos n))) = not (eqb n 0)
truthy (num (int (negsuc n))) = true
truthy (num (float f)) = not (eqb f 0) && not (eqb f 0x8000000000000000)
truthy (str s) = not (is_empty s)
truthy (list nil) = false
truthy (list (cons v vs)) = true
truthy (dict end) = false
truthy (dict (field k v fs)) = true
