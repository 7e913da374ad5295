-- ===== src/Bridge/WriteOrder.antt =====
-- What `order_writes` does to the writes of one endpoint: when they clash, and what is left of them.
use matter_thread2mqtt.Prelude.{
  ℤ, Text, List, [], ◌∷◌, ◌++◌, map, Bool, true, false, ◌&&◌, ◌||◌, not, none, some, ◌≡◌, refl, ◌∙◌,
  ap, ◌⊎◌, inl, inr, ◌==◌, int_eq, text_eq, eqb_list, keep, find, is_empty, All, arith,
  Option-cases, if◌then◌else◌, find_sound, find-eq-none, keep-not_of_none, keep_of_not-none,
  All-find, append-nil,
}
use matter_thread2mqtt.Python.{Runtime, Value, str, Outcome, ok, raise, codes, upper}
use matter_thread2mqtt.Devices.{Cap, validate}
use matter_thread2mqtt.Devices.Switching.{state_text}
use matter_thread2mqtt.Bridge.{Write, Verdict, granted, refused, is_state, has_name, arrange}

-- A write that `validate` let through.
abbrev pub Writable : Runtime → Write → Type 0
Writable py w = validate py w.cap.kind w.value ≡ ok none

abbrev pub states : List Write → List Write
states g = keep is_state g

abbrev pub others : List Write → List Write
others g = keep (λ w. not (is_state w)) g

abbrev reads : Runtime → Text → Value → Bool
reads py t (str s) = upper py s == t
reads py t v = false

-- The first state that the writes ask for reads as the text.
abbrev pub asks : Runtime → Text → List Write → Bool
asks py t g = elim (find is_state g) [ none ↦ false | some w ↦ reads py t w.value ]

-- The writes of one endpoint fight each other.
abbrev pub clash : Runtime → List Write → Bool
clash py g =
    has_name (codes "color_temp") g && has_name (codes "color") g
    || asks py (codes "TOGGLE") g && not (is_empty (others g))

-- What is left of the writes of one endpoint, and in which order.
abbrev pub expected : Runtime → List Write → List Write
expected py g = if asks py (codes "OFF") g then states g else states g ++ others g

abbrev pub Arranged : Runtime → List Write → Outcome (Verdict (List Write)) → Type 0
Arranged py g (ok (granted o)) = (clash py g ≡ false) × (o ≡ expected py g)
Arranged py g (ok (refused m)) = clash py g ≡ true
Arranged py g (raise e) = ⊥

is_empty-map {ℓ κ} :
    {A : Type ℓ} {B : Type κ} (f : A → B) (xs : List A) → is_empty (map f xs) ≡ is_empty xs
is_empty-map f [] = refl
is_empty-map f (x ∷ xs) = refl

eq-nil_of_is_empty {ℓ} : {A : Type ℓ} (xs : List A) → is_empty xs ≡ true → xs ≡ []
eq-nil_of_is_empty [] h = refl
eq-nil_of_is_empty (x ∷ xs) h = ground arith

module _ (py : Runtime) where
  arrange_stateless :
      (ep : ℤ) (g : List Write) → find is_state g ≡ none → Arranged py g (arrange py ep g)
  unfolding arrange
  arrange_stateless ep g h = ground (arith, find-eq-none is_state g h, keep-not_of_none is_state g)

  arrange_stateful :
      (ep : ℤ) (g : List Write) (c : Cap) (s : Text)
      → find is_state g ≡ some (record { cap = c; value = str s })
      → (upper py s ≡ codes "ON") ⊎ ((upper py s ≡ codes "OFF") ⊎ (upper py s ≡ codes "TOGGLE"))
      → Arranged py g (arrange py ep g)
  unfolding arrange eqb_list
  arrange_stateful ep g c s h asked = ground (
    arith,
    is_empty-map (λ (w : Write). w.cap.prop) (others g),
    eq-nil_of_is_empty (others g),
    keep_of_not-none is_state g,
    append-nil (states g),
  )

  pub arrange_lem :
      (ep : ℤ) (g : List Write) → All (Writable py) g → Arranged py g (arrange py ep g)
  unfolding eqb_list is_state
  arrange_lem ep g ok_all = elim (Option-cases (find is_state g)) [
    | inl none_found ↦ arrange_stateless ep g none_found
    | inr (w, found) ↦
        let (s, v, asked) =
          state_text py w.cap.kind w.value (find_sound is_state g w found)
            (All-find (Writable py) is_state g w ok_all found) in
        arrange_stateful ep g w.cap s
          (found ∙ ap (λ (v : Value). some (record { cap = w.cap; value = v })) v) asked
  ]
