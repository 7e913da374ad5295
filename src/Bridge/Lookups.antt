-- ===== src/Bridge/Lookups.antt =====
-- The device table of `rebuild` as a map from node ids to devices.
use matter_thread2mqtt.Prelude.{
  ℤ, List, [], ◌∷◌, true, Option, some, ◌≡◌, ap, ◌∙◌, ◌==◌, int_eq, eqb_ℤ_iff, contains, find,
  arith, ◌++◌, contains-append, ◌||◌, Bool-cases, inl, inr, if◌then◌else◌,
}
use matter_thread2mqtt.Bridge.{subscribe_from, Device}

-- The device of a node in the table.
abbrev pub device_at : ℤ → List Device → Option Device
device_at n table = find (λ d. d.node_id == n) table

-- The last of the devices with this node id, or else what was there before.
abbrev pub latest : Option Device → ℤ → List Device → Option Device
latest before n [] = before
latest before n (d ∷ ds) = latest (if d.node_id == n then some d else before) n ds

pub contains-subscribe_from :
    (subs ns : List ℤ) (n : ℤ)
    → contains (subscribe_from subs ns).0 n ≡ (contains subs n || contains ns n)
unfolding subscribe_from contains
contains-subscribe_from subs [] n = ground arith
contains-subscribe_from subs (m ∷ ns) n = elim (Bool-cases (contains subs m)) [
  | inl old ↦
      let q : n ≡ m → contains subs n ≡ true = λ p. ap (λ (k : ℤ). contains subs k) p ∙ old in
      rw old (ground (arith, contains-subscribe_from subs ns n, eqb_ℤ_iff n m, q))
  | inr new ↦ rw new (
      ground
        (arith, contains-subscribe_from (subs ++ m ∷ []) ns n, contains-append subs (m ∷ []) n))
]
