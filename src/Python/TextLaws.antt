-- ===== src/Python/TextLaws.antt =====
-- Laws of `split`, `join`, `strip` and of printed integers.
use Prim.Native.Nat.{ℕ, zero, suc, ◌+◌, ◌/◌, ◌%◌, ◌<◌}
use mathlib.Core.List.{reverse, reverse_aux, reverse-reverse}
use matter_thread2mqtt.Prelude.{
  ℤ, pos, negsuc, Text, List, [], ◌∷◌, ◌++◌, Bool, true, false, ◌&&◌, not, ◌≡◌, refl, ap, ◌∙◌, eqb,
  is_empty, all, drop_while, arith,
}
use matter_thread2mqtt.Python.{
  Runtime, split, join, strip, onto_first, digits_onto, show_ℕ, show_ℤ, is_space,
}

onto_first-append :
    (c : ℕ) (xs ys : List Text)
    → is_empty xs ≡ false
    → onto_first c (xs ++ ys) ≡ onto_first c xs ++ ys
onto_first-append c [] ys h = absurd (cc)
onto_first-append c (x ∷ xs) ys h = refl

pub split-ne-nil : (sep : ℕ) (s : Text) → is_empty (split sep s) ≡ false
unfolding split
split-ne-nil sep [] = refl
split-ne-nil sep (c ∷ s) = ground (arith, split-ne-nil sep s)

-- Splitting a joined text splits its two sides.
pub split-append : (sep : ℕ) (s t : Text) → split sep (s ++ sep ∷ t) ≡ split sep s ++ split sep t
unfolding split
split-append sep [] t = ground arith
split-append sep (c ∷ s) t = ground (
  arith,
  split-append sep s t,
  onto_first-append c (split sep s) (split sep t),
  split-ne-nil sep s,
)

join-onto_first :
    (sep c : ℕ) (xs : List Text)
    → is_empty xs ≡ false
    → join sep (onto_first c xs) ≡ c ∷ join sep xs
unfolding join
join-onto_first sep c [] h = absurd (cc)
join-onto_first sep c (x ∷ []) h = refl
join-onto_first sep c (x ∷ y ∷ xs) h = refl

join-cons_nil :
    (sep : ℕ) (xs : List Text) → is_empty xs ≡ false → join sep ([] ∷ xs) ≡ sep ∷ join sep xs
unfolding join
join-cons_nil sep [] h = absurd (cc)
join-cons_nil sep (x ∷ xs) h = refl

-- Joining what `split` gives is the text again.
pub join-split : (sep : ℕ) (s : Text) → join sep (split sep s) ≡ s
unfolding split
join-split sep [] = unfold join in refl
join-split sep (c ∷ s) = ground (
  arith,
  join-split sep s,
  join-onto_first sep c (split sep s),
  join-cons_nil sep (split sep s),
  split-ne-nil sep s,
)

-- A text without the separator is its own only part.
pub split_single : (sep : ℕ) (s : Text) → all (λ c. not (eqb c sep)) s ≡ true → split sep s ≡ s ∷ []
unfolding split
split_single sep [] h = refl
split_single sep (c ∷ s) h = ground (arith, split_single sep s)

module _ (p : ℕ → Bool) where
  all-reverse_aux : (s t : Text) → all p (reverse_aux s t) ≡ (all p s && all p t)
  all-reverse_aux [] t = refl
  all-reverse_aux (c ∷ s) t = ground (arith, all-reverse_aux s (c ∷ t))

  all-drop_while : (s : Text) → all p (drop_while p s) ≡ all p s
  unfolding drop_while
  all-drop_while [] = refl
  all-drop_while (c ∷ s) = ground (arith, all-drop_while s)

  is_empty-drop_while : (s : Text) → is_empty (drop_while p s) ≡ all p s
  unfolding drop_while
  is_empty-drop_while [] = refl
  is_empty-drop_while (c ∷ s) = ground (arith, is_empty-drop_while s)

is_empty-reverse_aux : (s t : Text) → is_empty (reverse_aux s t) ≡ (is_empty s && is_empty t)
is_empty-reverse_aux [] t = refl
is_empty-reverse_aux (c ∷ s) t = is_empty-reverse_aux s (c ∷ t) ∙ ground (arith)

and_true : (b : Bool) → (b && true) ≡ b
and_true true = refl
and_true false = refl

is_empty-strip_by :
    (p : ℕ → Bool) (s : Text)
    → is_empty (reverse (drop_while p (reverse (drop_while p s)))) ≡ all p s
is_empty-strip_by p s =
    is_empty-reverse_aux (drop_while p (reverse (drop_while p s))) []
    ∙ and_true _
    ∙ is_empty-drop_while p (reverse (drop_while p s))
    ∙ all-reverse_aux p (drop_while p s) []
    ∙ and_true _
    ∙ all-drop_while p s

-- A stripped text is empty exactly if the text is white space.
pub is_empty-strip : (py : Runtime) (s : Text) → is_empty (strip py s) ≡ all (is_space py) s
unfolding strip
is_empty-strip py s = is_empty-strip_by (is_space py) s

drop_while_none : (p : ℕ → Bool) (s : Text) → all (λ c. not (p c)) s ≡ true → drop_while p s ≡ s
unfolding drop_while
drop_while_none p [] h = refl
drop_while_none p (c ∷ s) h = ground arith

-- A text without white space is stripped already.
pub strip_none :
    (py : Runtime) (s : Text) → all (λ c. not (is_space py c)) s ≡ true → strip py s ≡ s
unfolding strip
strip_none py s h =
    ap (λ (t : Text). reverse (drop_while (is_space py) (reverse t))) (drop_while_none _ s h)
    ∙ (ap (λ (t : Text). reverse t)
          (drop_while_none _ (reverse s)
            (all-reverse_aux (λ c. not (is_space py c)) s [] ∙ (and_true _ ∙ h)))
        ∙ reverse-reverse s)

module _ (p : ℕ → Bool) (digits : (d : ℕ) → d < 10 → p (b'0' + d) ≡ true) where
  all-digits_onto :
      (fuel n : ℕ) (acc : Text) → all p acc ≡ true → all p (digits_onto fuel n acc) ≡ true
  unfolding digits_onto
  all-digits_onto zero n acc h = h
  all-digits_onto (suc fuel) n acc h =
      ground
        (arith, digits n, digits (n % 10), all-digits_onto fuel (n / 10) ((b'0' + n % 10) ∷ acc))

  all-show_ℕ : (n : ℕ) → all p (show_ℕ n) ≡ true
  unfolding show_ℕ
  all-show_ℕ n = all-digits_onto (suc n) n [] refl

  -- A printed integer consists of digits and a minus sign.
  pub all-show_ℤ : (i : ℤ) → p b'-' ≡ true → all p (show_ℤ i) ≡ true
  unfolding show_ℤ
  all-show_ℤ (pos n) h = all-show_ℕ n
  all-show_ℤ (negsuc n) h = ground (arith, all-show_ℕ (suc n))
