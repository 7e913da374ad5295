-- ===== src/Devices/Numerals.antt =====
-- Numbers that arrive as text.
use matter_thread2mqtt.Prelude.{
  ℕ, ℤ, Text, true, not, ◌≡◌, refl, ap, ◌∙◌, ◌≤◌, ◌<◌, ◌+◌, arith, length, Option, none, some, inl,
  inr, Option-cases,
}
use matter_thread2mqtt.Python.{
  Runtime, Value, num, str, int, float, show_ℤ, strip, is_space, parse_int, max_digits,
}
use matter_thread2mqtt.Python.TextLaws.{all-show_ℤ, strip_none}
use matter_thread2mqtt.Python.Printed.{parse_int-show_ℤ}
use matter_thread2mqtt.Devices.{as_number}

not-is_space-digit : (py : Runtime) (d : ℕ) → d < 10 → not (is_space py (b'0' + d)) ≡ true
unfolding is_space
not-is_space-digit py d h = ground arith

strip-show_ℤ : (py : Runtime) (i : ℤ) → strip py (show_ℤ i) ≡ show_ℤ i
strip-show_ℤ py i =
    strip_none py (show_ℤ i)
      (all-show_ℤ (λ c. not (is_space py c)) (not-is_space-digit py) i (unfold is_space in refl))

-- What `as_number` makes of what `int` finds in the text.
abbrev tried : Runtime → Text → Option ℤ → Value
tried py s (some i) = num (int i)
tried py s none = elim (py.parse_float (strip py s)) [ some f ↦ num (float f) | none ↦ str s ]

as_number-tried :
    (py : Runtime) (s : Text) → as_number py (str s) ≡ tried py s (parse_int py (strip py s))
unfolding as_number
as_number-tried py s = elim (Option-cases (parse_int py (strip py s))) [
  | inl h ↦ rw (h, as_number) refl
  | inr (i, h) ↦ rw (h, as_number) refl
]

-- A number that a client sends as the text that `str` prints of it, of at most 4300 characters, is
-- read as that number.
pub as_number-show_ℤ :
    (py : Runtime) (i : ℤ)
    → length (show_ℤ i) ≤ max_digits
    → as_number py (str (show_ℤ i)) ≡ num (int i)
as_number-show_ℤ py i h =
    as_number-tried py (show_ℤ i)
    ∙ ap (tried py (show_ℤ i)) (ap (parse_int py) (strip-show_ℤ py i) ∙ parse_int-show_ℤ py i h)
