-- ===== src/Nodes/Trees.antt =====
-- `attr_tree`: the attributes of a node as dicts of dicts, keyed by integers.
use matter_thread2mqtt.Prelude.{
  ℤ, Text, List, [], ◌∷◌, map, Bool, true, false, Option, none, some, ◌==◌, int_eq, ltb_ℤ,
  if◌then◌else◌,
}
use matter_thread2mqtt.Python.{Runtime, Value, strip, split, parse_int}

-- A dict with integer keys, in insertion order.
abbrev pub Dict {ℓ} : Type ℓ → Type ℓ
Dict A = List (ℤ × A)

module _ {ℓ} {A : Type ℓ} where
  -- `d.get(k)`
  unfoldable pub find_key : ℤ → Dict A → Option A
  find_key k [] = none
  find_key k ((j, a) ∷ d) = if j == k then some a else find_key k d

  -- `d[k] = a`
  unfoldable pub set_key : ℤ → A → Dict A → Dict A
  set_key k a [] = (k, a) ∷ []
  set_key k a ((j, b) ∷ d) =
      let rest = set_key k a d in if j == k then (j, a) ∷ d else (j, b) ∷ rest

  -- `k in d`
  unfoldable pub has_key : ℤ → Dict A → Bool
  has_key k [] = false
  has_key k ((j, a) ∷ d) = if j == k then true else has_key k d

  abbrev pub dict_keys : Dict A → List ℤ
  dict_keys d = map (λ e. e.0) d

  -- `sorted(d.items())`, for a dict whose keys are distinct
  unfoldable pub insert_sorted : ℤ → A → Dict A → Dict A
  insert_sorted k a [] = (k, a) ∷ []
  insert_sorted k a ((j, b) ∷ d) =
      let rest = insert_sorted k a d in if ltb_ℤ k j then (k, a) ∷ (j, b) ∷ d else (j, b) ∷ rest

  unfoldable pub sorted : Dict A → Dict A
  unfolding insert_sorted
  sorted [] = []
  sorted ((k, a) ∷ d) = insert_sorted k a (sorted d)

  -- `d.get(k, default)`
  abbrev pub found_or : Option A → A → A
  found_or (some a) default = a
  found_or none default = default

abbrev pub Cluster : Type 0
Cluster = Dict Value

abbrev pub Endpoint : Type 0
Endpoint = Dict Cluster

abbrev pub Tree : Type 0
Tree = Dict Endpoint

-- `tree.setdefault(ep, {}).setdefault(cid, {})[aid] = val`
unfoldable pub graft : ℤ → ℤ → ℤ → Value → Tree → Tree
unfolding find_key set_key
graft ep cid aid v tree =
    let endpoint = found_or (find_key ep tree) [] in
    let cluster = found_or (find_key cid endpoint) [] in
    set_key ep (set_key cid (set_key aid v cluster) endpoint) tree

abbrev pub Path3 : Type 0
Path3 = ℤ × ℤ × ℤ

module _ (py : Runtime) where
  -- `int(x)`; `none` is a ValueError.
  abbrev pub int_part : Text → Option ℤ
  int_part x = parse_int py (strip py x)

  three : Option ℤ → Option ℤ → Option ℤ → Option Path3
  three (some ep) (some cid) (some aid) = some (ep, cid, aid)
  three _ _ _ = none

  -- `none` for a key that is not three integers
  parts_of : List Text → Option Path3
  unfolding three
  parts_of (a ∷ b ∷ c ∷ []) = three (int_part a) (int_part b) (int_part c)
  parts_of _ = none

  unfoldable pub path_of : Text → Option Path3
  unfolding parts_of split
  path_of key = parts_of (split b'/' key)

  unfoldable pub tree_from : Tree → List (Text × Value) → Tree
  unfolding path_of graft
  tree_from tree [] = tree
  tree_from tree ((key, v) ∷ attrs) =
      tree_from (elim (path_of key) [ none ↦ tree | some (ep, cid, aid) ↦ graft ep cid aid v tree ])
        attrs

  unfoldable pub attr_tree : List (Text × Value) → Tree
  unfolding tree_from
  attr_tree attrs = tree_from [] attrs
