-- ===== src/Python/Strings.antt =====
-- `str` methods: strip, upper, split, join, and the decimal print of an integer.
use Prim.Native.Char.{code}
use mathlib.Core.List.{reverse}
use matter_thread2mqtt.Prelude.{
  true, ℕ, zero, suc, ◌+◌, ◌-◌, ◌/◌, ◌%◌, ℤ, pos, negsuc, Text, String, List, [], ◌∷◌, ◌++◌, Bool,
  false, ◌&&◌, ◌||◌, ltb, leb, eqb, drop_while, if◌then◌else◌,
}
use matter_thread2mqtt.Python.Interpreter.{Runtime}

-- A literal of the source.
abbrev pub codes : String → Text
codes String.[] = []
codes (String.◌∷◌ c s) = code c ∷ codes s

module _ (py : Runtime) where
  unfoldable pub is_space : ℕ → Bool
  is_space c = if ltb c 128 then leb 9 c && leb c 13 || leb 28 c && leb c 32 else py.is_space_of c

  unfoldable pub strip : Text → Text
  unfolding is_space drop_while
  strip s = reverse (drop_while is_space (reverse (drop_while is_space s)))

  upper_char : ℕ → Text
  upper_char c =
      if ltb c 128
      then (if leb b'a' c && leb c b'z' then (c - 32) ∷ [] else c ∷ [])
      else py.upper_of c

  unfoldable pub upper : Text → Text
  unfolding upper_char
  upper [] = []
  upper (c ∷ s) = upper_char c ++ upper s

-- `s.split(sep)` for a single character; there is always a last part.
abbrev pub onto_first : ℕ → List Text → List Text
onto_first c [] = (c ∷ []) ∷ []
onto_first c (p ∷ ps) = (c ∷ p) ∷ ps

unfoldable pub split : ℕ → Text → List Text
split sep [] = [] ∷ []
split sep (c ∷ s) = let rest = split sep s in if eqb c sep then [] ∷ rest else onto_first c rest

abbrev pub is_line_break : ℕ → Bool
is_line_break c =
    leb 10 c && leb c 13 || leb 28 c && leb c 30 || (eqb c 0x85 || leb 0x2028 c && leb c 0x2029)

-- The flag says that the character before was a carriage return, which with a line feed is one break.
unfoldable pub lines_from : (after_cr : Bool) → Text → List Text
lines_from after_cr [] = []
lines_from after_cr (c ∷ s) =
    let rest = lines_from (eqb c 13) s in
    if after_cr && eqb c 10 then rest else if is_line_break c then [] ∷ rest else onto_first c rest

-- `s.splitlines()`
unfoldable pub splitlines : Text → List Text
unfolding lines_from
splitlines s = lines_from false s

-- `s < t`, by code points
unfoldable pub text_ltb : Text → Text → Bool
text_ltb s [] = false
text_ltb [] (d ∷ t) = true
text_ltb (c ∷ s) (d ∷ t) = ltb c d || (eqb c d && text_ltb s t)

unfoldable pub insert_text : Text → List Text → List Text
unfolding text_ltb
insert_text s [] = s ∷ []
insert_text s (t ∷ ts) =
    let rest = insert_text s ts in if text_ltb s t then s ∷ t ∷ ts else t ∷ rest

-- `sorted(ts)`, of different texts
unfoldable pub sorted_texts : List Text → List Text
unfolding insert_text
sorted_texts [] = []
sorted_texts (t ∷ ts) = insert_text t (sorted_texts ts)

-- `sep.join(parts)`
unfoldable pub join : ℕ → List Text → Text
join sep [] = []
join sep (p ∷ []) = p
join sep (p ∷ q ∷ ps) = p ++ sep ∷ join sep (q ∷ ps)

-- The decimal digits of `n` in front of `acc`; a number has fewer digits than the fuel `suc n`.
unfoldable pub digits_onto : ℕ → ℕ → Text → Text
digits_onto zero n acc = acc
digits_onto (suc fuel) n acc =
    let more = digits_onto fuel (n / 10) ((b'0' + n % 10) ∷ acc) in
    if ltb n 10 then (b'0' + n) ∷ acc else more

unfoldable pub show_ℕ : ℕ → Text
unfolding digits_onto
show_ℕ n = digits_onto (suc n) n []

-- `str(i)`
unfoldable pub show_ℤ : ℤ → Text
unfolding show_ℕ
show_ℤ (pos n) = show_ℕ n
show_ℤ (negsuc n) = b'-' ∷ show_ℕ (suc n)
