-- ===== src/Python/Interpreter.antt =====
-- What the Python interpreter supplies and the repository does not define: Unicode's tables for
-- code points from 128 on, and the arithmetic of IEEE doubles (each double is its bit pattern).
use matter_thread2mqtt.Prelude.{ℕ, ℤ, Text, Bool, Option}
use matter_thread2mqtt.Python.Values.{Num}
use matter_thread2mqtt.Python.Errors.{Outcome}

pub record Runtime : Type 0 where
  -- the full uppercase mapping of `str.upper`, which may give several characters
  pub upper_of : ℕ → Text
  -- the white space that `str.strip` removes
  pub is_space_of : ℕ → Bool
  -- the value of a decimal digit, as `int` reads it
  pub digit_of : ℕ → Option ℕ
  -- `float(s)` of a stripped text; `none` is a ValueError
  pub parse_float : Text → Option ℕ
  -- `a < b` where one of them is a float
  pub float_lt : Num → Num → Bool
  -- a float times an integer constant
  pub float_mul : ℕ → ℕ → ℕ
  -- `a / b` by an integer constant; `none` is an OverflowError of two integers
  pub true_div : Num → ℕ → Option ℕ
  -- `round(f)`: a ValueError for a nan, an OverflowError for an infinity
  pub float_round : ℕ → Outcome ℤ
  -- `round(f, digits)`, a float again
  pub float_round_to : ℕ → ℕ → ℕ
  -- a float minus one
  pub float_pred : ℕ → ℕ
  -- `10 ** f`, which may overflow
  pub float_exp10 : ℕ → Outcome ℕ
  -- `int(f)`: truncation, which a nan and an infinity refuse
  pub float_trunc : ℕ → Outcome ℤ
