-- ===== src/Nodes/Paths.antt =====
-- `attr_tree` as a map from paths to values.
use matter_thread2mqtt.Prelude.{
  ℤ, Text, List, [], ◌∷◌, Bool, ◌&&◌, Option, none, some, ◌≡◌, refl, ap, ◌∙◌, ◌==◌, int_eq,
  eqb_ℤ_iff, Bool-cases, Option-cases, inl, inr, arith, if◌then◌else◌,
}
use matter_thread2mqtt.Python.{Runtime, Value}
use matter_thread2mqtt.Nodes.{
  Dict, Cluster, Endpoint, Tree, find_key, found_or, set_key, graft, path_of, tree_from, attr_tree,
  Path3,
}

-- The value of an attribute in the tree.
abbrev pub value_in : Path3 → Tree → Option Value
value_in (ep, cid, aid) tree =
    find_key aid (found_or (find_key cid (found_or (find_key ep tree) [])) [])

abbrev pub same_path : Path3 → Path3 → Bool
same_path (ep, cid, aid) (e, c, a) = ep == e && (cid == c && aid == a)

-- The value of the last attribute with this path, or else what was there before.
abbrev pub latest_value : Runtime → Option Value → Path3 → List (Text × Value) → Option Value
latest_value py before path [] = before
latest_value py before path ((key, v) ∷ attrs) =
    latest_value py
      (elim (path_of py key) [
        | none ↦ before
        | some p ↦ if same_path p path then some v else before
      ])
      path attrs

find_key-set_key {ℓ} :
    {A : Type ℓ} (k : ℤ) (a : A) (d : Dict A) (x : ℤ)
    → find_key x (set_key k a d) ≡ (if k == x then some a else find_key x d)
unfolding find_key set_key
find_key-set_key k a [] x = refl
find_key-set_key k a ((j, b) ∷ d) x =
    ground (arith, find_key-set_key k a d x, eqb_ℤ_iff j k, eqb_ℤ_iff k x, eqb_ℤ_iff j x)

-- The tree below one key, after an update of what stands there.
found_or-set_key {ℓ} :
    {A : Type ℓ} (k : ℤ) (a : A) (d : Dict A) (x : ℤ) (default : A)
    → found_or (find_key x (set_key k a d)) default
      ≡ (if k == x then a else found_or (find_key x d) default)
found_or-set_key k a d x default = elim (Bool-cases (k == x)) [
  | inl same ↦ ap (λ o. found_or o default) (find_key-set_key k a d x) ∙ rw same refl
  | inr other ↦ ap (λ o. found_or o default) (find_key-set_key k a d x) ∙ rw other refl
]

-- The same of a cluster in an endpoint, and of an endpoint in the tree.
in_endpoint : ℤ → ℤ → Endpoint → Option Value
in_endpoint c a endpoint = find_key a (found_or (find_key c endpoint) [])

in_endpoint-set_key :
    (cid aid c a : ℤ) (v : Value) (endpoint : Endpoint)
    → in_endpoint c a (set_key cid (set_key aid v (found_or (find_key cid endpoint) [])) endpoint)
      ≡ (if cid == c && aid == a then some v else in_endpoint c a endpoint)
unfolding in_endpoint
in_endpoint-set_key cid aid c a v endpoint =
    let new = set_key aid v (found_or (find_key cid endpoint) []) in
    let e = ap (λ (l : Cluster). find_key a l) (found_or-set_key cid new endpoint c []) in
    elim (Bool-cases (cid == c)) [
      | inl same ↦
          let p : cid ≡ c = (eqb_ℤ_iff cid c).0 same in
          let q = ap (λ (k : ℤ). find_key a (found_or (find_key k endpoint) [])) p in
          e
          ∙ rw same (
              find_key-set_key aid v (found_or (find_key cid endpoint) []) a
              ∙ ap (λ (o : Option Value). if aid == a then some v else o) q)
      | inr other ↦ e ∙ rw other refl
    ]

value_in-graft :
    (p q : Path3) (v : Value) (tree : Tree)
    → value_in q (graft p.0 p.1 p.2 v tree) ≡ (if same_path p q then some v else value_in q tree)
unfolding graft in_endpoint
value_in-graft (ep, cid, aid) (e, c, a) v tree =
    let old = found_or (find_key ep tree) [] in
    let new = set_key cid (set_key aid v (found_or (find_key cid old) [])) old in
    let h = ap (λ (l : Endpoint). in_endpoint c a l) (found_or-set_key ep new tree e []) in
    elim (Bool-cases (ep == e)) [
      | inl same ↦
          let p : ep ≡ e = (eqb_ℤ_iff ep e).0 same in
          let q = ap (λ (k : ℤ). in_endpoint c a (found_or (find_key k tree) [])) p in
          h
          ∙ rw same (
              in_endpoint-set_key cid aid c a v old
              ∙ ap (λ (o : Option Value). if cid == c && aid == a then some v else o) q)
      | inr other ↦ h ∙ rw other refl
    ]

tree_from-latest :
    (py : Runtime) (tree : Tree) (path : Path3) (attrs : List (Text × Value))
    → value_in path (tree_from py tree attrs) ≡ latest_value py (value_in path tree) path attrs
unfolding tree_from
tree_from-latest py tree path [] = refl
tree_from-latest py tree path ((key, v) ∷ attrs) = elim (Option-cases (path_of py key)) [
  | inl bad ↦ rw bad (tree_from-latest py tree path attrs)
  | inr (p, good) ↦ rw good (
      tree_from-latest py (graft p.0 p.1 p.2 v tree) path attrs
      ∙ ap (λ (o : Option Value). latest_value py o path attrs) (value_in-graft p path v tree))
]

-- The tree of a node's attributes is the map from paths to values that they list: at each path it has
-- the value of the last attribute whose key is that path, and nothing where there is none. Keys that are
-- no path leave no trace.
pub attr_tree-latest :
    (py : Runtime) (attrs : List (Text × Value)) (path : Path3)
    → value_in path (attr_tree py attrs) ≡ latest_value py none path attrs
unfolding attr_tree find_key
attr_tree-latest py attrs path = tree_from-latest py [] path attrs
