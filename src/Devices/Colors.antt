-- ===== src/Devices/Colors.antt =====
-- A hue and a saturation on the way to a light and back.
use matter_thread2mqtt.Prelude.{
  ℕ, ◌+◌, ◌*◌, ◌≤◌, pos, Bool, true, false, some, ◌≡◌, nat_eq, text_eq, int_eq,
}
use matter_thread2mqtt.Python.{Runtime, int, float, Fields, Value, num, dict, end, field, ok, codes}

-- i is an integer nearest to n / k.
abbrev pub Nearest : (n k i : ℕ) → Type 0
Nearest n k i = (2 * (i * k) ≤ 2 * n + k) × (2 * n ≤ 2 * (i * k) + k)

-- `round(n / k)` is an integer nearest to the quotient, for numbers that a float holds with ease.
abbrev pub RoundsNearest : Runtime → ℕ → Type 0
RoundsNearest py k =
    (n : ℕ)
    → n ≤ 100000
    → (q : ℕ) × (i : ℕ) × (py.true_div (int (pos n)) k ≡ some q)
      × (py.float_round q ≡ ok (pos i))
      × Nearest n k i

-- { "hue": h, "saturation": s }
abbrev pub color_of : (h s : ℕ) → Value
color_of h s =
    dict
      (field (codes "hue") (num (int (pos h))) (field (codes "saturation") (num (int (pos s))) end))

-- Quotients of the coordinates of Matter are floats.
abbrev pub DividesCoordinates : Runtime → Type 0
DividesCoordinates py = (n : ℕ) → n ≤ 65535 → (q : ℕ) × (py.true_div (int (pos n)) 65536 ≡ some q)

-- What is published of the coordinates, if the light has them: rounded to four digits.
abbrev pub coordinates_of : Runtime → (xy : Bool) → (x y : ℕ) → Fields
coordinates_of py true x y =
    field (codes "x") (num (float (py.float_round_to x 4)))
      (field (codes "y") (num (float (py.float_round_to y 4))) end)
coordinates_of py false x y = end

-- { "hue": h, "saturation": s } with more
abbrev pub color_with : (h s : ℕ) → Fields → Value
color_with h s more =
    dict (
      field (codes "hue") (num (int (pos h))) (field (codes "saturation") (num (int (pos s))) more))
