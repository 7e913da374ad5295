-- ===== src/Nodes/Dumped.antt =====
-- The dump of a node has every attribute that the node reports.
use matter_thread2mqtt.Prelude.{
  ℤ, Text, List, [], ◌∷◌, false, Option, some, ◌≡◌, refl, ap, ◌∙◌, subst, ◌==◌, int_eq, nat_eq,
  text_eq, contains, Distinct, eqb_list_iff, eqb_ℤ_iff, All, Bool-cases, Option-cases, inl, inr,
  arith, ltb_ℤ, if◌then◌else◌,
}
use matter_thread2mqtt.Python.{Runtime, Value, dict, Fields, end, get, show_ℤ}
use matter_thread2mqtt.Python.Printed.{show_ℤ_injective}
use matter_thread2mqtt.Nodes.{
  NodeModel, Node, Dict, Cluster, Endpoint, Tree, find_key, found_or, set_key, dict_keys,
  insert_sorted, sorted, graft, path_of, tree_from, attr_tree, put_field, cluster_name, attr_name,
  Cache, fill, attribute_entry, cluster_entry, endpoint_entry, dump_node,
}
use matter_thread2mqtt.Nodes.TreeLaws.{set_key-Distinct, contains-sorted, sorted-Distinct}
use matter_thread2mqtt.Nodes.Entries.{get-put_field, get-put_field_same}

module _ {ℓ} {A : Type ℓ} where
  find_key-insert_sorted :
      (k : ℤ) (a : A) (d : Dict A) (x : ℤ)
      → contains (dict_keys d) k ≡ false
      → find_key x (insert_sorted k a d) ≡ find_key x ((k, a) ∷ d)
  unfolding insert_sorted find_key contains
  find_key-insert_sorted k a [] x new = refl
  find_key-insert_sorted k a ((j, b) ∷ d) x new = elim (Bool-cases (ltb_ℤ k j)) [
    | inl less ↦ rw less refl
    | inr more ↦ rw more (
        ground (arith, find_key-insert_sorted k a d x, eqb_ℤ_iff k x, eqb_ℤ_iff j x, eqb_ℤ_iff k j))
  ]

  find_key-sorted :
      (d : Dict A) (x : ℤ) → Distinct (dict_keys d) → find_key x (sorted d) ≡ find_key x d
  unfolding sorted find_key
  find_key-sorted [] x h = refl
  find_key-sorted ((k, a) ∷ d) x (new, h) =
      find_key-insert_sorted k a (sorted d) x (contains-sorted d k ∙ new)
      ∙ ap (λ (o : Option A). if k == x then some a else o) (find_key-sorted d x h)

  -- What holds of all items holds of those that are there after `d[k] = a`.
  All-set_key {κ} :
      (P : A → Type κ) (k : ℤ) (a : A) (d : Dict A)
      → P a
      → All (λ (e : ℤ × A). P e.1) d
      → All (λ (e : ℤ × A). P e.1) (set_key k a d)
  unfolding set_key
  All-set_key P k a [] p h = (p, tt)
  All-set_key P k a ((j, b) ∷ d) p (h, hs) = elim (Bool-cases (j == k)) [
    | inl same ↦ rw same (p, hs)
    | inr other ↦ rw other (h, All-set_key P k a d p hs)
  ]

  All-find_key {κ} :
      (P : A → Type κ) (k : ℤ) (d : Dict A) (a : A)
      → All (λ (e : ℤ × A). P e.1) d
      → find_key k d ≡ some a
      → P a
  unfolding find_key
  All-find_key P k [] a h found = absurd (cc)
  All-find_key P k ((j, b) ∷ d) a (h, hs) found = elim (Bool-cases (j == k)) [
    | inl same ↦ let q : b ≡ a = ground arith in subst P q h
    | inr other ↦ All-find_key P k d a hs (ground arith)
  ]

  All-found {κ} :
      (P : A → Type κ) (default : A) (k : ℤ) (d : Dict A)
      → P default
      → All (λ (e : ℤ × A). P e.1) d
      → P (found_or (find_key k d) default)
  unfolding find_key
  All-found P default k [] p h = p
  All-found P default k ((j, b) ∷ d) p (h, hs) = elim (Bool-cases (j == k)) [
    | inl same ↦ rw same h
    | inr other ↦ rw other (All-found P default k d p hs)
  ]

abbrev IsNeatCluster : Cluster → Type 0
IsNeatCluster cl = Distinct (dict_keys cl)

abbrev IsNeatEndpoint : Endpoint → Type 0
IsNeatEndpoint cl = Distinct (dict_keys cl) × All (λ (e : ℤ × Cluster). IsNeatCluster e.1) cl

abbrev IsNeat : Tree → Type 0
IsNeat tree = Distinct (dict_keys tree) × All (λ (e : ℤ × Endpoint). IsNeatEndpoint e.1) tree

graft-IsNeat :
    (ep cid aid : ℤ) (v : Value) (tree : Tree) → IsNeat tree → IsNeat (graft ep cid aid v tree)
unfolding graft
graft-IsNeat ep cid aid v tree (d, h) =
    let endpoint = found_or (find_key ep tree) [] in
    let (e, hs) : IsNeatEndpoint endpoint = All-found IsNeatEndpoint [] ep tree (tt, tt) h in
    let cluster = found_or (find_key cid endpoint) [] in
    let new : IsNeatCluster (set_key aid v cluster) =
      set_key-Distinct aid v cluster (All-found IsNeatCluster [] cid endpoint tt hs) in
    (
      set_key-Distinct ep _ tree d,
      All-set_key IsNeatEndpoint ep (set_key cid (set_key aid v cluster) endpoint) tree
          (
            set_key-Distinct cid _ endpoint e,
            All-set_key IsNeatCluster cid (set_key aid v cluster) endpoint new hs,
          )
          h,
    )

tree_from-IsNeat :
    (py : Runtime) (tree : Tree) (attrs : List (Text × Value))
    → IsNeat tree
    → IsNeat (tree_from py tree attrs)
unfolding tree_from
tree_from-IsNeat py tree [] d = d
tree_from-IsNeat py tree ((k, v) ∷ attrs) d = elim (Option-cases (path_of py k)) [
  | inl bad ↦ rw bad (tree_from-IsNeat py tree attrs d)
  | inr ((ep, cid, aid), good) ↦
      rw good
        (tree_from-IsNeat py (graft ep cid aid v tree) attrs (graft-IsNeat ep cid aid v tree d))
]

-- Different keys have different names.
abbrev pub IsInjective : (ℤ → Text) → Type 0
IsInjective f = (i j : ℤ) → f i ≡ f j → i ≡ j

module _ {ℓ} {A : Type ℓ} (entry_name : ℤ → Text) (entry : ℤ → A → Value)
    (names : IsInjective entry_name) where
  fill-other :
      (out : Fields) (d : Dict A) (k : ℤ)
      → contains (dict_keys d) k ≡ false
      → get (entry_name k) (fill entry_name entry out d) ≡ get (entry_name k) out
  unfolding fill contains
  fill-other out [] k new = refl
  fill-other out ((j, b) ∷ d) k new =
      fill-other (put_field (entry_name j) (entry j b) out) d k (ground arith)
      ∙ get-put_field (entry_name k) (entry_name j) (entry j b) out (
          ground (
            arith,
            eqb_list_iff (entry_name j) (entry_name k),
            names k j,
            names j k,
            eqb_ℤ_iff k j,
          ))

  -- An item of the dict has its entry.
  fill-found :
      (out : Fields) (d : Dict A) (k : ℤ) (a : A)
      → Distinct (dict_keys d)
      → find_key k d ≡ some a
      → get (entry_name k) (fill entry_name entry out d) ≡ some (entry k a)
  unfolding fill find_key
  fill-found out [] k a h found = absurd (cc)
  fill-found out ((j, b) ∷ d) k a (new, h) found = elim (Bool-cases (j == k)) [
    | inl same ↦
        let p : j ≡ k = (eqb_ℤ_iff j k).0 same in
        let q : b ≡ a = ground arith in
        let first : get (entry_name j)
              (fill entry_name entry (put_field (entry_name j) (entry j b) out) d)
            ≡ some (entry j b) =
          fill-other (put_field (entry_name j) (entry j b) out) d j new
          ∙ get-put_field_same (entry_name j) (entry j b) out in
        cc
    | inr other ↦ fill-found (put_field (entry_name j) (entry j b) out) d k a h (ground arith)
  ]

  fill-sorted :
      (d : Dict A) (k : ℤ) (a : A)
      → Distinct (dict_keys d)
      → find_key k d ≡ some a
      → get (entry_name k) (fill entry_name entry end (sorted d)) ≡ some (entry k a)
  fill-sorted d k a h found =
      fill-found end (sorted d) k a (sorted-Distinct d h) (find_key-sorted d k h ∙ found)

-- With names that differ for the clusters, and for the attributes of a cluster, as those of the
-- generated data model do: for each attribute that a node reports, the dump has under its endpoint, its
-- cluster and its name the attribute's value as `json_safe` shows it.
pub dump_node-Complete :
    (py : Runtime) (model : NodeModel) (cache : Cache) (node : Node)
    → IsInjective (cluster_name model)
    → ((cid : ℤ) → IsInjective (attr_name model cid))
    → (ep cid aid : ℤ) (endpoint : Endpoint) (cluster : Cluster) (v : Value)
    → find_key ep (attr_tree py node.attributes) ≡ some endpoint
    → find_key cid endpoint ≡ some cluster
    → find_key aid cluster ≡ some v
    → (clusters : Fields) × (attributes : Fields) × (get (show_ℤ ep) (dump_node py model cache node)
        ≡ some (dict clusters))
      × (get (cluster_name model cid) clusters ≡ some (dict attributes))
      × (get (attr_name model cid aid) attributes
          ≡ some (attribute_entry py model cache ep cid aid v))
unfolding dump_node endpoint_entry cluster_entry
dump_node-Complete py model cache node clusters attrs ep cid aid endpoint cluster v e c a =
    let (d, all) : IsNeat (attr_tree py node.attributes) =
      unfold attr_tree in tree_from-IsNeat py [] node.attributes (tt, tt) in
    let (dc, inner) =
      All-find_key IsNeatEndpoint ep (attr_tree py node.attributes) endpoint all e in
    let da = All-find_key IsNeatCluster cid endpoint cluster inner c in
    (
      _,
      _,
      fill-sorted show_ℤ (endpoint_entry py model cache) show_ℤ_injective
          (attr_tree py node.attributes) ep endpoint d e,
      fill-sorted (cluster_name model) (cluster_entry py model cache ep) clusters endpoint cid
          cluster dc c,
      fill-sorted (attr_name model cid) (attribute_entry py model cache ep cid) (attrs cid) cluster
          aid v da a,
    )
