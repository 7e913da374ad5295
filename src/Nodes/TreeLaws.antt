-- ===== src/Nodes/TreeLaws.antt =====
-- The integer dicts of a node: their keys stay distinct.
use matter_thread2mqtt.Prelude.{
  ℤ, Text, List, [], ◌∷◌, false, ◌||◌, ◌≡◌, refl, ◌∙◌, ◌==◌, nat_eq, int_eq, text_eq, eqb_ℤ_iff,
  contains, Distinct, arith, inl, inr, ltb_ℤ, Bool-cases, Option-cases,
}
use matter_thread2mqtt.Python.{Runtime, Value}
use matter_thread2mqtt.Nodes.{
  Dict, Tree, set_key, dict_keys, insert_sorted, sorted, graft, path_of, tree_from,
}

module _ {ℓ} {A : Type ℓ} where
  contains-set_key :
      (k : ℤ) (a : A) (d : Dict A) (x : ℤ)
      → contains (dict_keys (set_key k a d)) x ≡ (x == k || contains (dict_keys d) x)
  unfolding set_key contains
  contains-set_key k a [] x = ground arith
  contains-set_key k a ((j, b) ∷ d) x =
      ground (arith, contains-set_key k a d x, eqb_ℤ_iff x k, eqb_ℤ_iff j k, eqb_ℤ_iff x j)

  pub set_key-Distinct :
      (k : ℤ) (a : A) (d : Dict A) → Distinct (dict_keys d) → Distinct (dict_keys (set_key k a d))
  unfolding set_key contains
  set_key-Distinct k a [] h = (refl, tt)
  set_key-Distinct k a ((j, b) ∷ d) (fresh, h) = elim (Bool-cases (j == k)) [
    | inl same ↦ rw same (fresh, h)
    | inr other ↦ rw other (ground (arith, contains-set_key k a d j), set_key-Distinct k a d h)
  ]

  contains-insert_sorted :
      (k : ℤ) (a : A) (d : Dict A) (x : ℤ)
      → contains (dict_keys (insert_sorted k a d)) x ≡ (x == k || contains (dict_keys d) x)
  unfolding insert_sorted contains
  contains-insert_sorted k a [] x = ground arith
  contains-insert_sorted k a ((j, b) ∷ d) x = elim (Bool-cases (ltb_ℤ k j)) [
    | inl less ↦ rw less (ground arith)
    | inr more ↦ rw more (ground (arith, contains-insert_sorted k a d x))
  ]

  insert_sorted-Distinct :
      (k : ℤ) (a : A) (d : Dict A)
      → Distinct (dict_keys d)
      → contains (dict_keys d) k ≡ false
      → Distinct (dict_keys (insert_sorted k a d))
  unfolding insert_sorted contains
  insert_sorted-Distinct k a [] h new = (refl, tt)
  insert_sorted-Distinct k a ((j, b) ∷ d) (fresh, h) new = elim (Bool-cases (ltb_ℤ k j)) [
    | inl less ↦ rw less (new, (fresh, h))
    | inr more ↦ rw more (
      ground (arith, contains-insert_sorted k a d j, eqb_ℤ_iff j k, eqb_ℤ_iff k j),
      insert_sorted-Distinct k a d h (ground arith),
    )
  ]

  pub contains-sorted :
      (d : Dict A) (x : ℤ) → contains (dict_keys (sorted d)) x ≡ contains (dict_keys d) x
  unfolding sorted contains
  contains-sorted [] x = refl
  contains-sorted ((k, a) ∷ d) x =
      ground (arith, contains-insert_sorted k a (sorted d) x, contains-sorted d x)

  pub sorted-Distinct : (d : Dict A) → Distinct (dict_keys d) → Distinct (dict_keys (sorted d))
  unfolding sorted
  sorted-Distinct [] h = tt
  sorted-Distinct ((k, a) ∷ d) (fresh, h) =
      insert_sorted-Distinct k a (sorted d) (sorted-Distinct d h) (contains-sorted d k ∙ fresh)

module _ (py : Runtime) where
  pub tree_from-Distinct :
      (tree : Tree) (attrs : List (Text × Value))
      → Distinct (dict_keys tree)
      → Distinct (dict_keys (tree_from py tree attrs))
  unfolding tree_from
  tree_from-Distinct tree [] d = d
  tree_from-Distinct tree ((k, v) ∷ attrs) d = elim (Option-cases (path_of py k)) [
    | inl bad ↦ rw bad (tree_from-Distinct tree attrs d)
    | inr ((ep, cid, aid), good) ↦ rw good (
        tree_from-Distinct (graft ep cid aid v tree) attrs
          (unfold graft in set_key-Distinct ep _ tree d))
  ]
