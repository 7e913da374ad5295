-- ===== src/Nodes/Reached.antt =====
-- The entries of capabilities that requests reach.
use matter_thread2mqtt.Prelude.{
  ℤ, Text, List, [], ◌∷◌, ◌++◌, map, Bool, true, false, some, ◌≡◌, refl, sym, ap, ◌∙◌, subst, ◌⊎◌,
  inl, inr, contains, eqb_list_iff, nat_eq, text_eq, Distinct, arith, All, All-weaken, All-append,
  map-append,
}
use matter_thread2mqtt.Python.{Fields, Outcome, ok, raise, Holds, Holds-bind}
use matter_thread2mqtt.Devices.{Cap}
use matter_thread2mqtt.Bridge.{prop_of}
use matter_thread2mqtt.Nodes.{
  Group, all_caps, caps_of, rename, rename_group, expose, exposed, group_entry, endpoint_exposes,
  exposes_of,
}
use matter_thread2mqtt.Nodes.Renaming.{entries, prop_names}
use matter_thread2mqtt.Nodes.Entries.{IsEntry, expose-IsEntry}

-- The entry is one of the capability that a request for its property reaches.
abbrev pub IsSingle : List (Text × Cap) → Fields → Type 0
IsSingle props e = (c : Cap) × (prop_of props c.prop ≡ some c) × IsEntry c e

-- Such an entry, or the entry of a light or a switch with such features.
abbrev pub Advertised : List (Text × Cap) → Fields → Type 0
Advertised props e =
    IsSingle props e
    ⊎ ((ep : ℤ) × (light : Bool) × (features : List Fields) × (e ≡ group_entry ep light features)
        × All (IsSingle props) features)

All-split {ℓ κ} :
    {A : Type ℓ} (P : A → Type κ) (xs ys : List A) → All P (xs ++ ys) → All P xs × All P ys
All-split P [] ys h = (tt, h)
All-split P (x ∷ xs) ys (h, hs) = let (a, b) = All-split P xs ys hs in ((h, a), b)

prop_of-contains :
    (props : List (Text × Cap)) (p : Text) (c : Cap)
    → prop_of props p ≡ some c
    → contains (prop_names props) p ≡ true
unfolding prop_of contains
prop_of-contains [] p c h = ground arith
prop_of-contains ((q, d) ∷ props) p c h =
    ground (arith, prop_of-contains props p c, eqb_list_iff q p, eqb_list_iff p q)

-- A property that comes before with another name does not hide this one.
prop_of-after :
    (props : List (Text × Cap)) (q : Text) (d : Cap) (p : Text) (c : Cap)
    → contains (prop_names props) q ≡ false
    → prop_of props p ≡ some c
    → prop_of ((q, d) ∷ props) p ≡ some c
unfolding prop_of
prop_of-after props q d p c new h =
    ground (arith, prop_of-contains props p c, eqb_list_iff q p, eqb_list_iff p q)

pub entries-prop_of :
    (cs : List Cap)
    → Distinct (prop_names (entries cs))
    → All (λ c. prop_of (entries cs) c.prop ≡ some c) cs
unfolding prop_of
entries-prop_of [] d = tt
entries-prop_of (c ∷ cs) (new, d) = (
  ground (arith, eqb_list_iff c.prop c.prop),
  All-weaken (λ (e : Cap). prop_of (entries cs) e.prop ≡ some e) _ cs
      (λ e. prop_of-after (entries cs) c.prop c e.prop e new) (entries-prop_of cs d),
)

Holds-weaken {ℓ κ μ} :
    {A : Type ℓ} (P : A → Type κ) (Q : A → Type μ) (r : Outcome A)
    → ((a : A) → P a → Q a)
    → Holds P r
    → Holds Q r
Holds-weaken P Q (ok a) f h = f a h
Holds-weaken P Q (raise e) f h = tt

module _ (props : List (Text × Cap)) where
  -- A request for the capability's property reaches it.
  abbrev pub IsReached : Cap → Type 0
  IsReached c = prop_of props c.prop ≡ some c

  exposed-IsSingle : (cs : List Cap) → All IsReached cs → Holds (All (IsSingle props)) (exposed cs)
  unfolding exposed
  exposed-IsSingle [] h = tt
  exposed-IsSingle (c ∷ cs) (h, hs) = Holds-bind (All (IsSingle props)) (expose c) _ λ es e.
      Holds-bind (All (IsSingle props)) (exposed cs) (λ more. ok (es ++ more))
        λ more e'.
          All-append (IsSingle props) es more
            (All-weaken (IsEntry c) (IsSingle props) es (λ f i. (c, h, i))
              (subst (Holds (All (IsEntry c))) e (expose-IsEntry c)))
            (subst (Holds (All (IsSingle props))) e' (exposed-IsSingle cs hs))

  singles : (es : List Fields) → All (IsSingle props) es → All (Advertised props) es
  singles es = All-weaken (IsSingle props) (Advertised props) es (λ e h. inl h)

  sensors-Advertised :
      (cs : List Cap) → All IsReached cs → Holds (All (Advertised props)) (exposed cs)
  sensors-Advertised cs h =
      Holds-weaken (All (IsSingle props)) (All (Advertised props)) (exposed cs) singles
        (exposed-IsSingle cs h)

  endpoint-Advertised :
      (ep : ℤ) (light : Bool) (act sens : List Cap)
      → All IsReached act
      → All IsReached sens
      → Holds (All (Advertised props)) (endpoint_exposes ep light act sens)
  unfolding endpoint_exposes
  endpoint-Advertised ep light [] sens h k = sensors-Advertised sens k
  endpoint-Advertised ep light (c ∷ cs) sens h k =
      Holds-bind (All (Advertised props)) (exposed (c ∷ cs)) _ λ features e.
        Holds-bind (All (Advertised props)) (exposed sens)
          (λ more. ok (group_entry ep light features ∷ more))
          λ more e'. (
            inr (
              ep,
              light,
              features,
              refl,
              subst (Holds (All (IsSingle props))) e (exposed-IsSingle (c ∷ cs) h),
            ),
            subst (Holds (All (Advertised props))) e' (sensors-Advertised sens k),
          )

  pub exposes_of-Advertised :
      (gs : List Group)
      → All IsReached (all_caps gs)
      → Holds (All (Advertised props)) (exposes_of gs)
  unfolding exposes_of
  exposes_of-Advertised [] h = tt
  exposes_of-Advertised (g ∷ gs) h =
      let (first, rest) = All-split IsReached (caps_of g) (all_caps gs) h in
      let (act, sens) = All-split IsReached g.actuators g.sensors first in
      Holds-bind (All (Advertised props)) (endpoint_exposes g.ep g.light g.actuators g.sensors) _
        λ es e.
          Holds-bind (All (Advertised props)) (exposes_of gs) (λ more. ok (es ++ more))
            λ more e'.
              All-append (Advertised props) es more
                (subst (Holds (All (Advertised props))) e
                  (endpoint-Advertised g.ep g.light g.actuators g.sensors act sens))
                (subst (Holds (All (Advertised props))) e' (exposes_of-Advertised gs rest))

-- Renaming the groups renames their capabilities.
pub all_caps-rename_group :
    (caps : List Cap) (gs : List Group)
    → all_caps (map (rename_group caps) gs) ≡ map (rename caps) (all_caps gs)
unfolding rename_group
all_caps-rename_group caps [] = refl
all_caps-rename_group caps (g ∷ gs) =
    ap (λ (l : List Cap). l ++ all_caps (map (rename_group caps) gs))
      (sym (map-append (rename caps) g.actuators g.sensors))
    ∙ ap (λ (l : List Cap). map (rename caps) (caps_of g) ++ l) (all_caps-rename_group caps gs)
    ∙ sym (map-append (rename caps) (caps_of g) (all_caps gs))
