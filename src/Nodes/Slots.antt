-- ===== src/Nodes/Slots.antt =====
-- The capabilities of one endpoint have different names.
use matter_thread2mqtt.Prelude.{
  Text, List, [], ◌∷◌, ◌++◌, map, Bool, true, false, Option, none, ◌≡◌, refl, subst, ap, sym, ◌∙◌,
  ◌==◌, int_eq, nat_eq, text_eq, eqb_list, eqb_list_iff, contains, Distinct, keep, append-nil,
  map-append, arith, inl, inr, Bool-cases, if◌then◌else◌,
}
use matter_thread2mqtt.Python.{Runtime, Outcome, ok, raise, codes}
use matter_thread2mqtt.Devices.{Kind, on_off_cap, sensor_cap, Sensor, sensor_name, name}
use matter_thread2mqtt.Nodes.{
  NodeModel, Endpoint, has_key, all_sensors, reports, sensor_caps, actuator_kinds, sensor_kinds,
  new_color, new_color_mode, new_action, color_kinds, new_level, new_color_temp, with_more,
  one_action,
}

-- The first list is the second without some of its elements.
pub data Sub : List Text → List Text → Type 0 where
  nothing : Sub [] []
  left_out : {x : Text} {xs ys : List Text} → Sub xs ys → Sub xs (x ∷ ys)
  kept : {x : Text} {xs ys : List Text} → Sub xs ys → Sub (x ∷ xs) (x ∷ ys)

contains-Sub :
    {xs ys : List Text} (a : Text) → Sub xs ys → contains ys a ≡ false → contains xs a ≡ false
unfolding contains
contains-Sub a nothing h = refl
contains-Sub {ys = y ∷ ys} a (left_out s) h = contains-Sub a s (ground arith)
contains-Sub {ys = y ∷ ys} a (kept s) h = ground (arith, contains-Sub a s)

Distinct-Sub : {xs ys : List Text} → Sub xs ys → Distinct ys → Distinct xs
Distinct-Sub nothing d = tt
Distinct-Sub (left_out s) (h, d) = Distinct-Sub s d
Distinct-Sub (kept s) (h, d) = (contains-Sub _ s h, Distinct-Sub s d)

Sub-append : {ws xs ys zs : List Text} → Sub ws xs → Sub ys zs → Sub (ws ++ ys) (xs ++ zs)
Sub-append nothing t = t
Sub-append (left_out s) t = left_out (Sub-append s t)
Sub-append (kept s) t = kept (Sub-append s t)

Sub-nil : (ys : List Text) → Sub [] ys
Sub-nil [] = nothing
Sub-nil (y ∷ ys) = left_out (Sub-nil ys)

abbrev pub kind_names : List Kind → List Text
kind_names ks = map (λ k. name k) ks

Sub-sensors :
    (p : Sensor → Bool) (ss : List Sensor)
    → Sub (kind_names (map sensor_cap (keep p ss))) (map sensor_name ss)
unfolding keep name
Sub-sensors p [] = nothing
Sub-sensors p (s ∷ ss) = elim (Bool-cases (p s)) [
  | inl in_it ↦ rw in_it (kept (Sub-sensors p ss))
  | inr out_of_it ↦ rw out_of_it (left_out (Sub-sensors p ss))
]

abbrev color_names : List Text
color_names = codes "color_temp" ∷ codes "color" ∷ codes "color_mode" ∷ []

-- All names, in the order in which an endpoint gets them.
abbrev all_names : List Text
all_names =
    (codes "state" ∷ codes "brightness" ∷ color_names)
    ++ (map sensor_name all_sensors ++ codes "action" ∷ [])

all_names-Distinct : Distinct all_names
unfolding contains eqb_list sensor_name
all_names-Distinct = ground arith

-- The test for `Sub`.
is_sub : List Text → List Text → Bool
is_sub [] ys = true
is_sub (x ∷ xs) [] = false
is_sub (x ∷ xs) (y ∷ ys) = if x == y then is_sub xs ys else is_sub (x ∷ xs) ys

is_sub-Sub : (xs ys : List Text) → is_sub xs ys ≡ true → Sub xs ys
unfolding is_sub
is_sub-Sub [] ys h = Sub-nil ys
is_sub-Sub (x ∷ xs) [] h = absurd (cc)
is_sub-Sub (x ∷ xs) (y ∷ ys) h = elim (Bool-cases (x == y)) [
  | inl same ↦
      subst (λ (z : Text). Sub (x ∷ xs) (z ∷ ys)) ((eqb_list_iff x y).0 same)
        (kept (is_sub-Sub xs ys (ground arith)))
  | inr other ↦ left_out (is_sub-Sub (x ∷ xs) ys (ground arith))
]

abbrev actuator_names : List Text
actuator_names = codes "state" ∷ codes "brightness" ∷ color_names

abbrev sensor_names : List Text
sensor_names = map sensor_name all_sensors ++ codes "action" ∷ []

sensors-Distinct : Distinct (map sensor_name all_sensors)
unfolding contains eqb_list sensor_name
sensors-Distinct = ground arith

abbrev ok_value : Outcome (List Kind) → List Kind
ok_value (ok ks) = ks
ok_value (raise e) = []

abbrev base_names : List Text
base_names = codes "state" ∷ codes "brightness" ∷ []

abbrev action_name : List Text
action_name = codes "action" ∷ []

Sub-kinds-append :
    {ns ms : List Text} (ks js : List Kind)
    → Sub (kind_names ks) ns
    → Sub (kind_names js) ms
    → Sub (kind_names (ks ++ js)) (ns ++ ms)
Sub-kinds-append {ns} {ms} ks js s t =
    subst (λ (l : List Text). Sub l (ns ++ ms)) (sym (map-append (λ (j : Kind). name j) ks js))
      (Sub-append s t)

Sub-with_more :
    {ns ms : List Text} (caps : List Kind) (b : Bool) (more : Outcome (List Kind)) (ks : List Kind)
    → Sub (kind_names caps) ns
    → ((cs : List Kind) → more ≡ ok cs → Sub (kind_names cs) ms)
    → with_more caps b more ≡ ok ks
    → Sub (kind_names ks) (ns ++ ms)
unfolding with_more
Sub-with_more {ns} {ms} caps true (ok cs) ks s t h =
    subst (λ (l : List Kind). Sub (kind_names l) (ns ++ ms)) (ap ok_value h)
      (Sub-kinds-append caps cs s (t cs refl))
Sub-with_more caps true (raise e) ks s t h = absurd (cc)
Sub-with_more {ns} {ms} caps false more ks s t h =
    subst (λ (l : List Kind). Sub (kind_names l) (ns ++ ms)) (append-nil caps ∙ ap ok_value h)
      (Sub-kinds-append caps [] s (Sub-nil ms))

Sub-if :
    {ns : List Text} (b : Bool) (r : Outcome (List Kind)) (ks : List Kind)
    → ((js : List Kind) → r ≡ ok js → Sub (kind_names js) ns)
    → (if b then r else ok []) ≡ ok ks
    → Sub (kind_names ks) ns
Sub-if true r ks f h = f ks h
Sub-if {ns} false r ks f h =
    subst (λ (l : List Kind). Sub (kind_names l) ns) (ap ok_value h) (Sub-nil ns)

module _ (model : NodeModel) (py : Runtime) (cl : Endpoint) where
  Sub-color_kinds :
      (ks : List Kind) → color_kinds model py cl ≡ ok ks → Sub (kind_names ks) color_names
  unfolding color_kinds new_color new_color_mode new_color_temp name is_sub eqb_list
  Sub-color_kinds ks h = is_sub-Sub (kind_names ks) color_names (ground arith)

  Sub-one_action :
      (ks : List Kind) → one_action model py cl ≡ ok ks → Sub (kind_names ks) action_name
  unfolding one_action new_action name is_sub eqb_list
  Sub-one_action ks h = is_sub-Sub (kind_names ks) action_name (ground arith)

  Sub-sensor_caps :
      (only : Option (List Text))
      → Sub (kind_names (sensor_caps model cl only)) (map sensor_name all_sensors)
  unfolding sensor_caps
  Sub-sensor_caps only = Sub-sensors (reports model cl only) all_sensors

  Sub-base :
      (b : Bool)
      → Sub (kind_names (on_off_cap ∷ (if b then new_level model cl ∷ [] else []))) base_names
  unfolding new_level name is_sub eqb_list
  Sub-base true = is_sub-Sub _ base_names refl
  Sub-base false = is_sub-Sub _ base_names refl

  Sub-actuator_kinds :
      (ks : List Kind)
      → actuator_kinds model py cl ≡ ok ks
      → Sub (kind_names ks) (base_names ++ color_names)
  unfolding actuator_kinds
  Sub-actuator_kinds ks h =
      Sub-if (has_key model.onoff cl) _ ks
        (λ js.
          Sub-with_more _ (has_key model.color cl) (color_kinds model py cl) js
            (Sub-base (has_key model.level cl)) Sub-color_kinds)
        h

  Sub-sensor_kinds :
      (ks : List Kind)
      → sensor_kinds model py cl ≡ ok ks
      → Sub (kind_names ks) (map sensor_name all_sensors ++ action_name)
  unfolding sensor_kinds
  Sub-sensor_kinds ks h =
      Sub-with_more _ _ (one_action model py cl) ks (Sub-sensor_caps none) Sub-one_action h

  -- The names of all capabilities of an endpoint are different.
  pub endpoint-Distinct :
      (act sens : List Kind)
      → actuator_kinds model py cl ≡ ok act
      → sensor_kinds model py cl ≡ ok sens
      → Distinct (kind_names (act ++ sens))
  endpoint-Distinct act sens h k =
      Distinct-Sub (Sub-kinds-append act sens (Sub-actuator_kinds act h) (Sub-sensor_kinds sens k))
        all_names-Distinct

  -- So are those of the root endpoint.
  pub sensor_caps-Distinct :
      (only : Option (List Text)) → Distinct (kind_names (sensor_caps model cl only))
  sensor_caps-Distinct only = Distinct-Sub (Sub-sensor_caps only) sensors-Distinct
