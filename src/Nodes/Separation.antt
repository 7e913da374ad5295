-- ===== src/Nodes/Separation.antt =====
-- The capabilities of a node's endpoints do not share a name and an endpoint.
use matter_thread2mqtt.Prelude.{
  ℤ, List, [], ◌∷◌, ◌++◌, map, Bool, true, false, not, ◌≡◌, refl, sym, subst, ◌==◌, nat_eq, int_eq,
  text_eq, eqb_ℤ_iff, contains, Distinct, all, All, All-append, all-append, arith,
}
use matter_thread2mqtt.Devices.{Kind, name, Cap}
use matter_thread2mqtt.Nodes.{Dict, Endpoint, dict_keys, all_caps, Visit, new_cap, caps_of}
use matter_thread2mqtt.Nodes.Slots.{kind_names}
use matter_thread2mqtt.Nodes.Renaming.{same_slot, Separate, IsNew}

-- The capabilities of one endpoint, all of different names.
pub record Built (ep : ℤ) (cs : List Cap) : Type 0 where
  pub kinds : List Kind
  pub made : cs ≡ map (new_cap ep) kinds
  pub different : Distinct (kind_names kinds)

abbrev no_ep : ℤ → List Cap → Bool
no_ep ep cs = all (λ d. not (d.ep == ep)) cs

no_ep-new_cap :
    (ep e : ℤ) (ks : List Kind) → (ep == e) ≡ false → no_ep ep (map (new_cap e) ks) ≡ true
no_ep-new_cap ep e [] h = refl
no_ep-new_cap ep e (k ∷ ks) h =
    ground (arith, no_ep-new_cap ep e ks, eqb_ℤ_iff ep e, eqb_ℤ_iff e ep)

apart_from_rest :
    (ep : ℤ) (k : Kind) (cs : List Cap)
    → no_ep ep cs ≡ true
    → all (λ d. not (same_slot (new_cap ep k) d)) cs ≡ true
apart_from_rest ep k [] h = refl
apart_from_rest ep k (c ∷ cs) h =
    ground (arith, apart_from_rest ep k cs, eqb_ℤ_iff ep c.ep, eqb_ℤ_iff c.ep ep)

apart_from_siblings :
    (ep : ℤ) (k : Kind) (ks : List Kind)
    → contains (kind_names ks) (name k) ≡ false
    → all (λ d. not (same_slot (new_cap ep k) d)) (map (new_cap ep) ks) ≡ true
unfolding contains
apart_from_siblings ep k [] h = refl
apart_from_siblings ep k (j ∷ ks) h = ground (arith, apart_from_siblings ep k ks)

Separate-append :
    (ep : ℤ) (ks : List Kind) (cs : List Cap)
    → Distinct (kind_names ks)
    → no_ep ep cs ≡ true
    → Separate cs
    → Separate (map (new_cap ep) ks ++ cs)
Separate-append ep [] cs d h s = s
Separate-append ep (k ∷ ks) cs (fresh, d) h s = (
  all-append (λ c. not (same_slot (new_cap ep k) c)) (map (new_cap ep) ks) cs
      (apart_from_siblings ep k ks fresh) (apart_from_rest ep k cs h),
  Separate-append ep ks cs d h s,
)

IsNew-new_cap : (ep : ℤ) (ks : List Kind) → All IsNew (map (new_cap ep) ks)
IsNew-new_cap ep [] = tt
IsNew-new_cap ep (k ∷ ks) = (refl, IsNew-new_cap ep ks)

-- One endpoint of the tree for each visit.
abbrev pub BuiltAll : Dict Endpoint → List Visit → Type 0
BuiltAll [] [] = Unit
BuiltAll [] (v ∷ vs) = ⊥
BuiltAll ((ep, cl) ∷ tree) [] = ⊥
BuiltAll ((ep, cl) ∷ tree) (v ∷ vs) = Built ep (caps_of v.group) × BuiltAll tree vs

-- The capabilities of all visits
abbrev pub visited_caps : List Visit → List Cap
visited_caps vs = all_caps (map (λ v. v.group) vs)

no_ep-visits :
    (ep : ℤ) (tree : Dict Endpoint) (vs : List Visit)
    → BuiltAll tree vs
    → contains (dict_keys tree) ep ≡ false
    → no_ep ep (visited_caps vs) ≡ true
unfolding contains
no_ep-visits ep [] [] b h = refl
no_ep-visits ep [] (v ∷ vs) b h = absurd b
no_ep-visits ep ((e, cl) ∷ tree) [] b h = absurd b
no_ep-visits ep ((e, cl) ∷ tree) (v ∷ vs) (b, bs) h =
    all-append (λ d. not (d.ep == ep)) (caps_of v.group) (visited_caps vs)
      (subst (λ (l : List Cap). no_ep ep l ≡ true) (sym b.made)
        (no_ep-new_cap ep e b.kinds (ground arith)))
      (no_ep-visits ep tree vs bs (ground arith))

pub visits-Separate :
    (tree : Dict Endpoint) (vs : List Visit)
    → BuiltAll tree vs
    → Distinct (dict_keys tree)
    → Separate (visited_caps vs) × All IsNew (visited_caps vs)
visits-Separate [] [] b d = (tt, tt)
visits-Separate [] (v ∷ vs) b d = absurd b
visits-Separate ((e, cl) ∷ tree) [] b d = absurd b
visits-Separate ((e, cl) ∷ tree) (v ∷ vs) (b, bs) (fresh, d) =
    let (s, new) = visits-Separate tree vs bs d in
    (
      subst (λ (l : List Cap). Separate (l ++ visited_caps vs)) (sym b.made)
          (Separate-append e b.kinds (visited_caps vs) b.different (no_ep-visits e tree vs bs fresh)
            s),
      All-append IsNew (caps_of v.group) (visited_caps vs)
          (subst (λ (l : List Cap). All IsNew l) (sym b.made) (IsNew-new_cap e b.kinds)) new,
    )
