-- ===== src/Nodes/Keys.antt =====
-- The texts of property names: with and without a suffix, they tell capabilities apart.
use matter_thread2mqtt.Prelude.{
  ℕ, zero, suc, ◌+◌, ◌/◌, ◌%◌, ℤ, pos, negsuc, Text, List, [], ◌∷◌, ◌++◌, Bool, false, ◌&&◌, not,
  ◌≡◌, refl, sym, ap, ◌∙◌, eqb, leb, all, arith,
}
use matter_thread2mqtt.Python.{split, join, digits_onto, show_ℕ, show_ℤ}
use matter_thread2mqtt.Python.TextLaws.{split-append, split_single, join-split, all-show_ℤ}
use matter_thread2mqtt.Python.Printed.{show_ℤ_injective}
use matter_thread2mqtt.Nodes.Properties.{suffixed}

abbrev pub is_digit : ℕ → Bool
is_digit c = leb b'0' c && leb c b'9'

abbrev pub no_digits : Text → Bool
no_digits s = all (λ c. not (is_digit c)) s

no_digits-append : (s t : Text) → no_digits t ≡ false → no_digits (s ++ t) ≡ false
no_digits-append [] t h = h
no_digits-append (c ∷ s) t h = ground (arith, no_digits-append s t)

no_digits-digits_onto :
    (fuel n : ℕ) (acc : Text) → no_digits acc ≡ false → no_digits (digits_onto fuel n acc) ≡ false
unfolding digits_onto
no_digits-digits_onto zero n acc h = h
no_digits-digits_onto (suc fuel) n acc h =
    ground (arith, no_digits-digits_onto fuel (n / 10) ((b'0' + n % 10) ∷ acc))

no_digits-show_ℕ : (n : ℕ) → no_digits (show_ℕ n) ≡ false
unfolding show_ℕ digits_onto
no_digits-show_ℕ n = ground (arith, no_digits-digits_onto n (n / 10) ((b'0' + n % 10) ∷ []))

no_digits-show_ℤ : (i : ℤ) → no_digits (show_ℤ i) ≡ false
unfolding show_ℤ
no_digits-show_ℤ (pos n) = no_digits-show_ℕ n
no_digits-show_ℤ (negsuc n) = ground (arith, no_digits-show_ℕ (suc n))

-- A suffixed name holds a digit.
pub no_digits-suffixed : (n : Text) (ep : ℤ) → no_digits (suffixed n ep) ≡ false
unfolding suffixed
no_digits-suffixed n ep =
    no_digits-append n (b'_' ∷ show_ℤ ep) (ground (arith, no_digits-show_ℤ ep))

abbrev but_last : List Text → List Text
but_last [] = []
but_last (x ∷ []) = []
but_last (x ∷ y ∷ xs) = x ∷ but_last (y ∷ xs)

abbrev last_text : List Text → Text
last_text [] = []
last_text (x ∷ []) = x
last_text (x ∷ y ∷ xs) = last_text (y ∷ xs)

but_last-snoc : (xs : List Text) (x : Text) → but_last (xs ++ x ∷ []) ≡ xs
but_last-snoc [] x = refl
but_last-snoc (y ∷ []) x = refl
but_last-snoc (y ∷ z ∷ xs) x = ap (λ (l : List Text). y ∷ l) (but_last-snoc (z ∷ xs) x)

last_text-snoc : (xs : List Text) (x : Text) → last_text (xs ++ x ∷ []) ≡ x
last_text-snoc [] x = refl
last_text-snoc (y ∷ []) x = refl
last_text-snoc (y ∷ z ∷ xs) x = last_text-snoc (z ∷ xs) x

split-suffixed : (n : Text) (ep : ℤ) → split b'_' (suffixed n ep) ≡ split b'_' n ++ show_ℤ ep ∷ []
unfolding suffixed
split-suffixed n ep =
    split-append b'_' n (show_ℤ ep)
    ∙ ap (λ (l : List Text). split b'_' n ++ l)
        (split_single b'_' (show_ℤ ep)
          (all-show_ℤ (λ c. not (eqb c b'_')) (λ d h. ground arith) ep refl))

-- A suffixed name determines the name and the endpoint.
pub suffixed_injective : (m n : Text) (i j : ℤ) → suffixed m i ≡ suffixed n j → (m ≡ n) × (i ≡ j)
suffixed_injective m n i j h =
    let e : split b'_' m ++ show_ℤ i ∷ [] ≡ split b'_' n ++ show_ℤ j ∷ [] =
      sym (split-suffixed m i) ∙ (ap (split b'_') h ∙ split-suffixed n j) in
    let names : split b'_' m ≡ split b'_' n =
      sym (but_last-snoc _ (show_ℤ i)) ∙ (ap but_last e ∙ but_last-snoc _ (show_ℤ j)) in
    (
      sym (join-split b'_' m) ∙ (ap (join b'_') names ∙ join-split b'_' n),
      show_ℤ_injective i j (
          sym (last_text-snoc (split b'_' m) _)
          ∙ (ap last_text e ∙ last_text-snoc (split b'_' n) _)),
    )
