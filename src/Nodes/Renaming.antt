-- ===== src/Nodes/Renaming.antt =====
-- After the renaming, the capabilities of a device have different property names.
use matter_thread2mqtt.Prelude.{
  ℕ, ◌+◌, ◌≤◌, ℤ, Text, List, [], ◌∷◌, ◌++◌, map, Bool, true, false, ◌&&◌, not, ◌≡◌, refl, sym, ap,
  ◌∙◌, ◌==◌, nat_eq, int_eq, text_eq, eqb_list_iff, eqb_ℤ_iff, contains, Distinct, all, All, ltb,
  arith, inl, inr, Bool-cases, append_assoc, append-nil, map-append, contains-append, subst,
  if◌then◌else◌,
}
use matter_thread2mqtt.Devices.{
  Kind, on_off_cap, level_cap, color_temp_cap, color_cap, color_mode_cap, action_cap, sensor_cap,
  Sensor, temperature, humidity, pressure, illuminance, occupancy, contact, battery, battery_low,
  sensor_name, name, Cap,
}
use matter_thread2mqtt.Nodes.{count_name, suffixed, rename, set_prop, props_from, props_of}
use matter_thread2mqtt.Nodes.Keys.{no_digits, no_digits-suffixed, suffixed_injective}

no_digits-sensor_name : (s : Sensor) → no_digits (sensor_name s) ≡ true
unfolding sensor_name
no_digits-sensor_name temperature = refl
no_digits-sensor_name humidity = refl
no_digits-sensor_name pressure = refl
no_digits-sensor_name illuminance = refl
no_digits-sensor_name occupancy = refl
no_digits-sensor_name contact = refl
no_digits-sensor_name battery = refl
no_digits-sensor_name battery_low = refl

no_digits-name : (k : Kind) → no_digits (name k) ≡ true
unfolding name
no_digits-name on_off_cap = refl
no_digits-name (level_cap vmin vmax) = refl
no_digits-name (color_temp_cap vmin vmax) = refl
no_digits-name (color_cap hs xy) = refl
no_digits-name (color_mode_cap values) = refl
no_digits-name (action_cap latching multi long release positions max_presses) = refl
no_digits-name (sensor_cap s) = no_digits-sensor_name s

-- Two capabilities of one name on one endpoint.
abbrev pub same_slot : Cap → Cap → Bool
same_slot c d = c.ep == d.ep && name c.kind == name d.kind

-- No two capabilities share their endpoint and their name.
abbrev pub Separate : List Cap → Type 0
Separate [] = Unit
Separate (c ∷ cs) = (all (λ d. not (same_slot c d)) cs ≡ true) × Separate cs

-- The property names as they are made.
abbrev pub IsNew : Cap → Type 0
IsNew c = c.prop ≡ name c.kind

-- The name that `rename` gives a capability whose name is counted `k` times.
key_of : ℕ → Text → ℤ → Text
key_of k n ep = if ltb 1 k then suffixed n ep else n

key : List Cap → Cap → Text
unfolding key_of
key caps c = key_of (count_name (name c.kind) caps) (name c.kind) c.ep

rename-key : (caps : List Cap) (c : Cap) → IsNew c → (rename caps c).prop ≡ key caps c
unfolding rename key
rename-key caps c h = ground arith

-- Different slots get different keys, if a shared name is counted at least twice.
keys_differ :
    (m n : Text) (i j : ℤ) (a b : ℕ)
    → no_digits m ≡ true
    → no_digits n ≡ true
    → (i == j && m == n) ≡ false
    → (m ≡ n → 2 ≤ a)
    → key_of a m i ≡ key_of b n j
    → ⊥
unfolding key_of
keys_differ m n i j a b hm hn slots twice e = elim (Bool-cases (ltb 1 a)) [
  | inl sa ↦ elim (Bool-cases (ltb 1 b)) [
    | inl sb ↦
        let h : suffixed m i ≡ suffixed n j = simp (sa, sb) at e in
        let (p, q) = suffixed_injective m n i j h in ground (arith, eqb_list_iff m n, eqb_ℤ_iff i j)
    | inr sb ↦
        let h : suffixed m i ≡ n = simp (sa, sb) at e in
        ground (arith, no_digits-suffixed m i, ap (λ (t : Text). no_digits t) h)
  ]
  | inr sa ↦ elim (Bool-cases (ltb 1 b)) [
    | inl sb ↦
        let h : m ≡ suffixed n j = simp (sa, sb) at e in
        ground (arith, no_digits-suffixed n j, ap (λ (t : Text). no_digits t) h)
    | inr sb ↦ let h : m ≡ n = simp (sa, sb) at e in ground (arith, twice h)
  ]
]

module _ (caps : List Cap) where
  apart :
      (c d : Cap) (cs : List Cap)
      → all (λ e. not (same_slot c e)) (d ∷ cs) ≡ true
      → 1 + count_name (name c.kind) (d ∷ cs) ≤ count_name (name c.kind) caps
      → key caps c ≡ key caps d
      → ⊥
  unfolding count_name key
  apart c d cs h k e =
      keys_differ (name c.kind) (name d.kind) c.ep d.ep _ (count_name (name d.kind) caps)
        (no_digits-name c.kind) (no_digits-name d.kind) (ground arith)
        (λ n. ground (arith, eqb_list_iff (name d.kind) (name c.kind))) e

  fresh_key :
      (c : Cap) (cs : List Cap)
      → all (λ d. not (same_slot c d)) cs ≡ true
      → 1 + count_name (name c.kind) cs ≤ count_name (name c.kind) caps
      → contains (map (key caps) cs) (key caps c) ≡ false
  unfolding contains
  fresh_key c [] h k = refl
  fresh_key c (d ∷ cs) h k = elim (Bool-cases (key caps c == key caps d)) [
    | inl same ↦ absurd (apart c d cs h k ((eqb_list_iff _ _).0 same))
    | inr other ↦ rw other (fresh_key c cs (ground arith) (unfold count_name in ground arith))
  ]

  Distinct-key :
      (cs : List Cap)
      → Separate cs
      → ((n : Text) → count_name n cs ≤ count_name n caps)
      → Distinct (map (key caps) cs)
  Distinct-key [] s h = tt
  Distinct-key (c ∷ cs) (fresh, s) h = (
    fresh_key c cs fresh (
        unfold count_name in
        ground (arith, h (name c.kind), eqb_list_iff (name c.kind) (name c.kind))),
    Distinct-key cs s (λ n. unfold count_name in ground (arith, h n)),
  )

abbrev pub prop_names : List (Text × Cap) → List Text
prop_names props = map (λ p. p.0) props

-- A property that is not there yet comes last.
set_prop_new :
    (k : Text) (c : Cap) (props : List (Text × Cap))
    → contains (prop_names props) k ≡ false
    → set_prop k c props ≡ props ++ (k, c) ∷ []
unfolding set_prop contains
set_prop_new k c [] h = refl
set_prop_new k c ((j, d) ∷ props) h =
    ground (arith, set_prop_new k c props, eqb_list_iff j k, eqb_list_iff k j)

abbrev pub entries : List Cap → List (Text × Cap)
entries cs = map (λ c. (c.prop, c)) cs

Distinct-middle :
    (xs : List Text) (y : Text) (ys : List Text) → Distinct (xs ++ y ∷ ys) → contains xs y ≡ false
unfolding contains
Distinct-middle [] y ys d = refl
Distinct-middle (x ∷ xs) y ys (h, d) = ground (
  arith,
  Distinct-middle xs y ys d,
  contains-append xs (y ∷ ys) x,
  eqb_list_iff x y,
  eqb_list_iff y x,
)

prop_names_move :
    (props : List (Text × Cap)) (c : Cap) (cs : List Cap)
    → prop_names props ++ prop_names (entries (c ∷ cs))
      ≡ prop_names (props ++ (c.prop, c) ∷ []) ++ prop_names (entries cs)
prop_names_move props c cs =
    sym (append_assoc (prop_names props) (c.prop ∷ []) (prop_names (entries cs)))
    ∙ ap (λ (l : List Text). l ++ prop_names (entries cs))
        (sym (map-append (λ (p : Text × Cap). p.0) props ((c.prop, c) ∷ [])))

props_from_new :
    (props : List (Text × Cap)) (cs : List Cap)
    → Distinct (prop_names props ++ prop_names (entries cs))
    → props_from props cs ≡ props ++ entries cs
unfolding props_from
props_from_new props [] d = sym (append-nil props)
props_from_new props (c ∷ cs) d =
    ap (λ (l : List (Text × Cap)). props_from l cs)
      (set_prop_new c.prop c props (Distinct-middle (prop_names props) c.prop _ d))
    ∙ (props_from_new (props ++ (c.prop, c) ∷ []) cs
          (subst (λ (l : List Text). Distinct l) (prop_names_move props c cs) d)
        ∙ append_assoc props ((c.prop, c) ∷ []) (entries cs))

prop_names-rename :
    (caps cs : List Cap)
    → All IsNew cs
    → prop_names (entries (map (rename caps) cs)) ≡ map (key caps) cs
prop_names-rename caps [] h = refl
prop_names-rename caps (c ∷ cs) (new, h) =
    ap (λ (t : Text). t ∷ prop_names (entries (map (rename caps) cs))) (rename-key caps c new)
    ∙ ap (λ (l : List Text). key caps c ∷ l) (prop_names-rename caps cs h)

renamed-Distinct :
    (caps : List Cap)
    → Separate caps
    → All IsNew caps
    → Distinct (prop_names (entries (map (rename caps) caps)))
renamed-Distinct caps s new =
    subst (λ (l : List Text). Distinct l) (sym (prop_names-rename caps caps new))
      (Distinct-key caps caps s (λ n. omega arith))

-- The table of properties has an entry for each capability, in order, under different names.
pub props_of_lem :
    (caps : List Cap)
    → Separate caps
    → All IsNew caps
    → (props_of caps ≡ entries (map (rename caps) caps)) × Distinct (prop_names (props_of caps))
unfolding props_of
props_of_lem caps s new =
    let d = renamed-Distinct caps s new in
    let e = props_from_new [] (map (rename caps) caps) d in
    (e, subst (λ (l : List (Text × Cap)). Distinct (prop_names l)) (sym e) d)
