-- ===== src/Devices/Presses.antt =====
-- Button presses: `press_name`, `struct_field`, `ActionCap.event` and `Device.action`.
use matter_thread2mqtt.Prelude.{
  ℕ, ℤ, pos, Text, List, [], ◌∷◌, ◌++◌, true, ◌&&◌, ◌||◌, not, Option, none, some, ◌==◌, int_eq,
  if◌then◌else◌,
}
use matter_thread2mqtt.Python.{
  int, float, Value, null, bool, num, list, dict, get, Outcome, ok, raise, type_error,
  attribute_error, ◌>>=◌, codes, show_ℤ, truthy,
}
use matter_thread2mqtt.Devices.Caps.{Kind, action_cap, Cap, momentary}

-- The events of the Switch cluster that the bridge looks at; their ids are generated.
pub data SwitchEvent : Type 0 where
  switch_latched initial_press long_press short_release : SwitchEvent
  long_release multi_press_complete : SwitchEvent

-- What the interpreter does with a value that is no int: its text in an f-string, and the int that
-- a float equals, if any.
pub record Printing : Type 0 where
  pub text_of : Value → Text
  pub whole_of : ℕ → Option ℤ

-- `PRESS_NAMES.get(n, f"{n}x")` for an int
unfoldable pub press_name : ℤ → Text
unfolding show_ℤ
press_name n =
    if n == pos 1
    then codes "single"
    else if n == pos 2
    then codes "double"
    else if n == pos 3
    then codes "triple"
    else if n == pos 4
    then codes "quadruple"
    else if n == pos 5
    then codes "quintuple"
    else show_ℤ n ++ codes "x"

-- A struct that matter-server hands over: a json object has no integer keys.
unfoldable pub struct_field : Value → ℤ → Text → Value
unfolding get show_ℤ
struct_field (dict fs) tag name = elim (get (show_ℤ tag) fs) [
  | some v ↦ v
  | none ↦ elim (get name fs) [ some v ↦ v | none ↦ null ]
]
struct_field v tag name = null

module _ (pr : Printing) where
  -- `press_name` of any value; a list or a dict is unhashable.
  unfoldable pub press_name_of : Value → Outcome Text
  unfolding press_name
  press_name_of (num (int i)) = ok (press_name i)
  press_name_of (num (float f)) = ok (elim (pr.whole_of f) [
    | some i ↦
        if i == pos 1 || (i == pos 2 || (i == pos 3 || (i == pos 4 || i == pos 5)))
        then press_name i
        else pr.text_of (num (float f)) ++ codes "x"
    | none ↦ pr.text_of (num (float f)) ++ codes "x"
  ])
  press_name_of (bool true) = ok (codes "single")
  press_name_of (list vs) = raise type_error
  press_name_of (dict fs) = raise type_error
  press_name_of v = ok (pr.text_of v ++ codes "x")

  position : Value → Option Text
  unfolding show_ℤ
  position null = none
  position (num (int i)) = some (codes "position_" ++ show_ℤ i)
  position v = some (codes "position_" ++ pr.text_of v)

  -- `press_name(count or 1)`
  counted : Value → Outcome (Option Text)
  unfolding press_name_of truthy
  counted v = do s ← press_name_of (if truthy v then v else num (int (pos 1))); ok (some s)

  module _ (ids : SwitchEvent → ℤ) where
    unfoldable pub event : Kind → ℤ → Value → Outcome (Option Text)
    unfolding position counted struct_field
    event (action_cap latching multi long release positions max_presses) id fields =
        if id == ids switch_latched
        then ok (position (struct_field fields (pos 0) (codes "newPosition")))
        else if long && id == ids long_press
        then ok (some (codes "hold"))
        else if long && id == ids long_release
        then ok (some (codes "release"))
        else if multi
        then (if id == ids multi_press_complete
            then counted (struct_field fields (pos 1) (codes "totalNumberOfPressesCounted"))
            else ok none)
        else if release && id == ids short_release
        then ok (some (codes "single"))
        else if not release && id == ids initial_press
        then ok (some (codes "single"))
        else ok none
    event _ id fields = raise attribute_error

    -- The loop of `action` over the properties; ActionCap is the only momentary capability.
    unfoldable pub action_from : List (Text × Cap) → ℤ → ℤ → Value → Outcome (Option (Text × Text))
    unfolding event
    action_from [] endpoint id fields = ok none
    action_from ((prop, cap) ∷ props) endpoint id fields =
        let rest = action_from props endpoint id fields in
        if momentary cap.kind && cap.ep == endpoint
        then (do
          a ← event cap.kind id fields
          ok (elim a [ none ↦ none | some s ↦ some (prop, s) ]))
        else rest

    -- `switch` is the id of the Switch cluster.
    unfoldable pub action :
        (switch : ℤ)
        → List (Text × Cap)
        → (endpoint cluster id : ℤ) → Value
        → Outcome (Option (Text × Text))
    unfolding action_from
    action switch props endpoint cluster id fields =
        if cluster == switch then action_from props endpoint id fields else ok none
