-- ===== src/Python/Printed.antt =====
-- Printing an integer and reading it again.
use Prim.Native.Nat.{ℕ, zero, suc, ◌+◌, ◌-◌, ◌*◌, ◌/◌, ◌%◌, ◌≤◌, ◌<◌}
use matter_thread2mqtt.Prelude.{
  ℤ, pos, negsuc, Text, [], ◌∷◌, Bool, true, false, ◌&&◌, ◌≡◌, sym, ap, ◌∙◌, leb, ltb, length,
  arith, some, if◌then◌else◌,
}
use matter_thread2mqtt.Python.{
  Runtime, digits_onto, show_ℕ, show_ℤ, parse_int, digit, digits, max_digits,
}

-- The number that decimal digits after `a` stand for.
value_from : ℕ → Text → ℕ
value_from a [] = a
value_from a (c ∷ s) = value_from (a * 10 + (c - b'0')) s

value_from-digits_onto :
    (fuel n : ℕ) (acc : Text) → n < fuel → value_from 0 (digits_onto fuel n acc) ≡ value_from n acc
unfolding digits_onto value_from
value_from-digits_onto zero n acc h = absurd (omega arith)
value_from-digits_onto (suc fuel) n acc h =
    ground (arith, value_from-digits_onto fuel (n / 10) ((b'0' + n % 10) ∷ acc))

value_from-show_ℕ : (n : ℕ) → value_from 0 (show_ℕ n) ≡ n
unfolding show_ℕ value_from
value_from-show_ℕ n = value_from-digits_onto (suc n) n [] (omega arith)

-- The first character is a digit.
abbrev starts_digit : Text → Bool
starts_digit [] = false
starts_digit (c ∷ s) = leb b'0' c && leb c b'9'

starts_digit-digits_onto :
    (fuel n : ℕ) (acc : Text)
    → starts_digit acc ≡ true
    → starts_digit (digits_onto fuel n acc) ≡ true
unfolding digits_onto
starts_digit-digits_onto zero n acc h = h
starts_digit-digits_onto (suc fuel) n acc h =
    ground (arith, starts_digit-digits_onto fuel (n / 10) ((b'0' + n % 10) ∷ acc))

starts_digit-show_ℕ : (n : ℕ) → starts_digit (show_ℕ n) ≡ true
unfolding show_ℕ digits_onto
starts_digit-show_ℕ n = ground (arith, starts_digit-digits_onto n (n / 10) ((b'0' + n % 10) ∷ []))

pub show_ℕ_injective : (m n : ℕ) → show_ℕ m ≡ show_ℕ n → m ≡ n
show_ℕ_injective m n h = sym (value_from-show_ℕ m) ∙ (ap (value_from 0) h ∙ value_from-show_ℕ n)

minus_free : (m n : ℕ) → show_ℕ m ≡ b'-' ∷ show_ℕ n → ⊥
minus_free m n h = ground (arith, starts_digit-show_ℕ m, ap starts_digit h)

abbrev tail : Text → Text
tail [] = []
tail (c ∷ s) = s

-- Different integers are printed differently.
pub show_ℤ_injective : (i j : ℤ) → show_ℤ i ≡ show_ℤ j → i ≡ j
unfolding show_ℤ
show_ℤ_injective (pos m) (pos n) h = ap pos (show_ℕ_injective m n h)
show_ℤ_injective (pos m) (negsuc n) h = absurd (minus_free m (suc n) h)
show_ℤ_injective (negsuc m) (pos n) h = absurd (minus_free n (suc m) (sym h))
show_ℤ_injective (negsuc m) (negsuc n) h =
    ground (arith, show_ℕ_injective (suc m) (suc n) (ap tail h))

module _ (py : Runtime) where
  digit_lem : (d : ℕ) → d < 10 → digit py (b'0' + d) ≡ some d
  unfolding digit
  digit_lem d h = ground arith

  -- The digits that `digits_onto` puts in front.
  width : ℕ → ℕ → ℕ
  width zero n = 0
  width (suc fuel) n = let more = width fuel (n / 10) in if ltb n 10 then 1 else suc more

  digits_step :
      (count a : ℕ) (last : Bool) (d : ℕ) (s : Text)
      → d < 10
      → digits py count a last ((b'0' + d) ∷ s) ≡ digits py (suc count) (a * 10 + d) true s
  unfolding digits
  digits_step count a last d s h = rw (digit_lem d h, digits)

  digits-digits_onto :
      (fuel n count : ℕ) (last : Bool) (acc : Text)
      → n < fuel
      → digits py count 0 last (digits_onto fuel n acc)
        ≡ digits py (count + width fuel n) n true acc
  unfolding digits_onto width
  digits-digits_onto zero n count last acc h = absurd (omega arith)
  digits-digits_onto (suc fuel) n count last acc h = ground (
    arith,
    digits_step count 0 last n acc,
    digits-digits_onto fuel (n / 10) count last ((b'0' + n % 10) ∷ acc),
    digits_step (count + width fuel (n / 10)) (n / 10) true (n % 10) acc,
  )

  length-digits_onto :
      (fuel n : ℕ) (acc : Text) → length (digits_onto fuel n acc) ≡ width fuel n + length acc
  unfolding digits_onto width
  length-digits_onto zero n acc = omega arith
  length-digits_onto (suc fuel) n acc =
      ground (arith, length-digits_onto fuel (n / 10) ((b'0' + n % 10) ∷ acc))

  digits-show_ℕ : (n : ℕ) → length (show_ℕ n) ≤ max_digits → digits py 0 0 false (show_ℕ n) ≡ some n
  unfolding show_ℕ
  digits-show_ℕ n h =
      digits-digits_onto (suc n) n 0 false [] (omega arith)
      ∙ unfold digits in ground (arith, length-digits_onto (suc n) n [])

  parse_int-digits :
      (s : Text) (n : ℕ)
      → starts_digit s ≡ true
      → digits py 0 0 false s ≡ some n
      → parse_int py s ≡ some (pos n)
  unfolding parse_int
  parse_int-digits [] n h e = absurd (cc)
  parse_int-digits (c ∷ s) n h e = ground arith

  -- What `str` prints of an integer is read back by `int`, within CPython's limit on digits.
  pub parse_int-show_ℤ : (i : ℤ) → length (show_ℤ i) ≤ max_digits → parse_int py (show_ℤ i) ≡ some i
  unfolding show_ℤ
  parse_int-show_ℤ (pos n) h =
      parse_int-digits (show_ℕ n) n (starts_digit-show_ℕ n) (digits-show_ℕ n h)
  parse_int-show_ℤ (negsuc n) h = unfold parse_int in ground (arith, digits-show_ℕ (suc n))
