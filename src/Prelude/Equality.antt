-- ===== src/Prelude/Equality.antt =====
-- Python's `==` on the types that the program compares, behind one interface.
use Prim.Native.Nat.{ℕ}
use mathlib.Core.Path.{◌≡◌, refl, ap}
use mathlib.Core.Logic.{◌↔◌}
use mathlib.Core.Bool.{Bool, true, false, ◌&&◌, ◌||◌}
use mathlib.Core.List.{List, [], ◌∷◌, ◌++◌}
use native.Mathlib.Omega.{arith}
use matter_thread2mqtt.Prelude.Tests.{eqb, if◌then◌else◌}
use matter_thread2mqtt.Prelude.Lists.{keep}
use matter_thread2mqtt.Prelude.Int.{ℤ, eqb_ℤ, eqb_ℤ_iff}

pub eqb_iff : (a b : ℕ) → (eqb a b ≡ true) ↔ (a ≡ b)
eqb_iff a b = ground arith

-- The test and the proof that it decides equality.
pub record Comparable {ℓ} (A : Type ℓ) : Type ℓ where
  pub same : A → A → Bool
  pub same_iff : (x y : A) → (same x y ≡ true) ↔ (x ≡ y)

instance abbrev pub int_eq : Comparable ℤ
int_eq = record { same = eqb_ℤ; same_iff = eqb_ℤ_iff }

instance abbrev pub nat_eq : Comparable ℕ
nat_eq = record { same = eqb; same_iff = eqb_iff }

module _ {ℓ} {A : Type ℓ} ⦃c : Comparable A⦄ where
  infix 50 ◌==◌
  abbrev pub ◌==◌ : A → A → Bool
  x == y = c.same x y

  unfoldable pub contains : List A → A → Bool
  contains [] a = false
  contains (x ∷ xs) a = if a == x then true else contains xs a

  pub same_refl : (a : A) → (a == a) ≡ true
  same_refl a = (c.same_iff a a).1 refl

  unfoldable pub eqb_list : List A → List A → Bool
  eqb_list [] [] = true
  eqb_list (x ∷ xs) (y ∷ ys) = x == y && eqb_list xs ys
  eqb_list _ _ = false

  pub eqb_list_iff : (xs ys : List A) → (eqb_list xs ys ≡ true) ↔ (xs ≡ ys)
  unfolding eqb_list
  eqb_list_iff [] [] = ground arith
  eqb_list_iff [] (y ∷ ys) = ground arith
  eqb_list_iff (x ∷ xs) [] = ground arith
  eqb_list_iff (x ∷ xs) (y ∷ ys) = ground (arith, eqb_list_iff xs ys, c.same_iff x y)

  -- Nothing stands twice in the list.
  abbrev pub Distinct : List A → Type 0
  Distinct [] = Unit
  Distinct (x ∷ xs) = (contains xs x ≡ false) × Distinct xs

  pub contains-append :
      (xs ys : List A) (a : A) → contains (xs ++ ys) a ≡ (contains xs a || contains ys a)
  unfolding contains
  contains-append [] ys a = refl
  contains-append (x ∷ xs) ys a = ground (arith, contains-append xs ys a)

  pub Distinct-snoc :
      (xs : List A) (a : A) → Distinct xs → contains xs a ≡ false → Distinct (xs ++ a ∷ [])
  unfolding contains
  Distinct-snoc [] a d h = (refl, tt)
  Distinct-snoc (x ∷ xs) a (fresh, d) h =
      ground
        (arith, Distinct-snoc xs a d, contains-append xs (a ∷ []) x, c.same_iff x a, c.same_iff a x)

  pub contains-keep :
      (p : A → Bool) (xs : List A) (a : A) → contains (keep p xs) a ≡ (contains xs a && p a)
  unfolding contains keep
  contains-keep p [] a = refl
  contains-keep p (x ∷ xs) a = ground (arith, contains-keep p xs a, c.same_iff a x, ap p)

  pub Distinct-keep : (p : A → Bool) (xs : List A) → Distinct xs → Distinct (keep p xs)
  unfolding keep
  Distinct-keep p [] d = tt
  Distinct-keep p (x ∷ xs) (fresh, d) = ground (arith, Distinct-keep p xs d, contains-keep p xs x)

-- A Python `str` is the list of its code points.
abbrev pub Text : Type 0
Text = List ℕ

instance abbrev pub text_eq : Comparable Text
text_eq = record { same = eqb_list; same_iff = eqb_list_iff }
