-- ===== src/Bridge/Writes.antt =====
-- `order_writes`: properties of one endpoint that fight each other.
use matter_thread2mqtt.Prelude.{
  ℤ, Text, List, [], ◌∷◌, ◌++◌, map, Bool, ◌&&◌, ◌||◌, not, Option, none, some, ◌≡◌, refl, ◌⊎◌, inl,
  inr, ◌==◌, int_eq, text_eq, contains, keep, find, is_empty, if◌then◌else◌,
}
use matter_thread2mqtt.Python.{
  Runtime, Value, str, Outcome, ok, raise, attribute_error, ◌>>=◌, codes, upper,
}
use matter_thread2mqtt.Devices.{Cap, name}
use matter_thread2mqtt.Bridge.State.{Message, color_modes_clash, toggle_clash}

-- A pair `(cap, value)` of the list `writes`.
pub record Write : Type 0 where
  pub cap : Cap
  pub value : Value

-- A checked part of a request: go on with `a`, or publish the error and stop.
pub data Verdict {ℓ} (A : Type ℓ) : Type ℓ where
  granted : A → Verdict A
  refused : Message → Verdict A

pub Verdict-cases {ℓ} :
    {A : Type ℓ} (v : Verdict A) → ((a : A) × (v ≡ granted a)) ⊎ ((m : Message) × (v ≡ refused m))
Verdict-cases (granted a) = inl (a, refl)
Verdict-cases (refused m) = inr (m, refl)

abbrev pub Group : Type 0
Group = ℤ × List Write

unfoldable pub is_state : Write → Bool
is_state w = name w.cap.kind == codes "state"

-- The writes of one endpoint, in order.
unfoldable pub at : ℤ → List Write → List Write
unfolding keep
at ep ws = keep (λ w. w.cap.ep == ep) ws

-- `by_ep.setdefault(ep, []).append(w)`
unfoldable pub add_to_group : ℤ → Write → List Group → List Group
add_to_group ep w [] = (ep, w ∷ []) ∷ []
add_to_group ep w ((e, g) ∷ gs) =
    if e == ep then (e, g ++ w ∷ []) ∷ gs else (e, g) ∷ add_to_group ep w gs

unfoldable pub group_from : List Group → List Write → List Group
unfolding add_to_group
group_from gs [] = gs
group_from gs (w ∷ ws) = group_from (add_to_group w.cap.ep w gs) ws

-- `n in names`
unfoldable pub has_name : Text → List Write → Bool
unfolding contains
has_name n g = contains (map (λ w. name w.cap.kind) g) n

module _ (py : Runtime) where
  -- `v.upper()`
  upper_value : Value → Outcome Text
  upper_value (str s) = ok (upper py s)
  upper_value v = raise attribute_error

  -- `next((v.upper() for c, v in group if c.name == "state"), None)`
  first_state : List Write → Outcome (Option Text)
  unfolding upper_value find is_state
  first_state g = elim (find is_state g) [
    | none ↦ ok none
    | some w ↦ do s ← upper_value w.value; ok (some s)
  ]

  -- `if state and others`, for a state and others that are there
  combine : ℤ → Text → List Write → List Text → Verdict (List Write)
  unfolding keep is_state
  combine ep state g others =
      if state == codes "TOGGLE"
      then refused (toggle_clash ep others)
      else if state == codes "OFF"
      then granted (keep is_state g)
      else granted (keep is_state g ++ keep (λ w. not (is_state w)) g)

  -- The body of the loop over `by_ep`: what one endpoint adds to `ordered`. The stable sort by
  -- `name != "state"` puts the state writes first.
  unfoldable pub arrange : ℤ → List Write → Outcome (Verdict (List Write))
  unfolding first_state combine has_name keep is_state
  arrange ep g =
      if has_name (codes "color_temp") g && has_name (codes "color") g
      then ok (refused (color_modes_clash ep))
      else do
        state ← first_state g
        let others = map (λ w. w.cap.prop) (keep (λ w. not (is_state w)) g)
        elim state [
          | none ↦ ok (granted g)
          | some s ↦ ok (if is_empty s || is_empty others then granted g else combine ep s g others)
        ]

  unfoldable pub arrange_all : List Group → Outcome (Verdict (List Write))
  unfolding arrange
  arrange_all [] = ok (granted [])
  arrange_all ((ep, g) ∷ gs) = do
    v ← arrange ep g
    elim v [
      | refused m ↦ ok (refused m)
      | granted first ↦ do
        rest ← arrange_all gs
        ok (elim rest [ refused m ↦ refused m | granted more ↦ granted (first ++ more) ])
    ]

  unfoldable pub order_writes : List Write → Outcome (Verdict (List Write))
  unfolding arrange_all group_from
  order_writes ws = arrange_all (group_from [] ws)
