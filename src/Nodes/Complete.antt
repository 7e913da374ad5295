-- ===== src/Nodes/Complete.antt =====
-- Every capability of a node is a property of the device.
use matter_thread2mqtt.Prelude.{
  ℤ, pos, Text, List, [], ◌∷◌, ◌++◌, map, Bool, true, false, ◌≡◌, refl, sym, ap, ◌∙◌, subst, ◌==◌,
  nat_eq, int_eq, text_eq, Distinct, arith, ◌⊎◌, inl, inr, map-append, if◌then◌else◌, some,
}
use matter_thread2mqtt.Python.{Runtime, Value, Outcome, ok, raise, ◌>>=◌}
use matter_thread2mqtt.Devices.{Kind, Printing}
use matter_thread2mqtt.Nodes.{
  NodeModel, Dict, Endpoint, dict_keys, sorted, attr_tree, Group, Visit, new_cap, caps_of, group_of,
  visit, visit_all, props_of, rename, endpoint_caps, actuator_kinds, sensor_kinds, sensor_caps,
  battery_names, cluster_name, type_names, device_types_of,
}
use matter_thread2mqtt.Nodes.TreeLaws.{sorted-Distinct, tree_from-Distinct}
use matter_thread2mqtt.Nodes.Slots.{endpoint-Distinct, sensor_caps-Distinct}
use matter_thread2mqtt.Nodes.Renaming.{entries, prop_names, props_of_lem}
use matter_thread2mqtt.Nodes.Separation.{Built, BuiltAll, visited_caps, visits-Separate}

endpoint_parts :
    (ep : ℤ) (m : Outcome (List Kind)) (l : Outcome Bool) (n : Outcome (List Kind)) (g : Group)
    → (m >>= λ act. l >>= λ light. n >>= λ sens. ok (record {
      ep = ep;
      light = light;
      actuators = map (new_cap ep) act;
      sensors = map (new_cap ep) sens;
    }))
      ≡ ok g
    → (act : List Kind) × (sens : List Kind) × (m ≡ ok act)
      × (n ≡ ok sens)
      × (caps_of g ≡ map (new_cap ep) act ++ map (new_cap ep) sens)
endpoint_parts ep (ok act) (ok light) (ok sens) g h = (act, sens, refl, refl, ground arith)
endpoint_parts ep (ok act) (ok light) (raise e) g h = absurd (cc)
endpoint_parts ep (ok act) (raise e) n g h = absurd (cc)
endpoint_parts ep (raise e) l n g h = absurd (cc)

visit_group :
    (clusters : List Text) (o : Outcome (List Text)) (r : Outcome Group) (v : Visit)
    → (o >>= λ names. r >>= λ g. ok (record { group = g; types = names; clusters = clusters }))
      ≡ ok v
    → r ≡ ok v.group
visit_group clusters (ok names) (ok g) v h = ground arith
visit_group clusters (ok names) (raise e) v h = absurd (cc)
visit_group clusters (raise e) r v h = absurd (cc)

visit_parts :
    (clusters : List Text) (types : List Value → Outcome (List Text))
    (f : List Value → Outcome Group) (m : Outcome (List Value)) (v : Visit)
    → (m >>= λ dts. types dts >>= λ names.
        f dts >>= λ g. ok (record { group = g; types = names; clusters = clusters }))
      ≡ ok v
    → (dts : List Value) × (f dts ≡ ok v.group)
visit_parts clusters types f (ok dts) v h = (dts, visit_group clusters (types dts) (f dts) v h)
visit_parts clusters types f (raise e) v h = absurd (cc)

visits_parts :
    (m : Outcome Visit) (ms : Outcome (List Visit)) (vs : List Visit)
    → (m >>= λ v. ms >>= λ us. ok (v ∷ us)) ≡ ok vs
    → (v : Visit) × (us : List Visit) × (m ≡ ok v) × (ms ≡ ok us) × (vs ≡ v ∷ us)
visits_parts (ok v) (ok us) vs h = (v, us, refl, refl, ground arith)
visits_parts (ok v) (raise e) vs h = absurd (cc)
visits_parts (raise e) ms vs h = absurd (cc)

group_if :
    (b : Bool) (root : Group) (r : Outcome Group) (g : Group)
    → (if b then ok root else r) ≡ ok g
    → (root ≡ g) ⊎ (r ≡ ok g)
group_if true root r g h = inl (ground arith)
group_if false root r g h = inr h

module _ (py : Runtime) (pr : Printing) (model : NodeModel) where
  endpoint_caps-Built :
      (ep : ℤ) (cl : Endpoint) (dts : List Value) (g : Group)
      → endpoint_caps py pr model ep cl dts ≡ ok g
      → Built ep (caps_of g)
  unfolding endpoint_caps
  endpoint_caps-Built ep cl dts g h =
      let (act, sens, a, b, e) =
        endpoint_parts ep (actuator_kinds model py cl) _ (sensor_kinds model py cl) g h in
      record {
        kinds = act ++ sens;
        made = e ∙ sym (map-append (new_cap ep) act sens);
        different = endpoint-Distinct model py cl act sens a b;
      }

  group_of-Built :
      (ep : ℤ) (cl : Endpoint) (dts : List Value) (g : Group)
      → group_of py pr model ep cl dts ≡ ok g
      → Built ep (caps_of g)
  unfolding group_of
  group_of-Built ep cl dts g h =
      elim (group_if (ep == pos 0) _ (endpoint_caps py pr model ep cl dts) g h) [
        | inl e ↦ record {
          kinds = sensor_caps model cl (some battery_names);
          made = ap (λ (a : Group). caps_of a) (sym e);
          different = sensor_caps-Distinct model py cl (some battery_names);
        }
        | inr e ↦ endpoint_caps-Built ep cl dts g e
      ]

  visit-Built :
      (ep : ℤ) (cl : Endpoint) (v : Visit)
      → visit py pr model ep cl ≡ ok v
      → Built ep (caps_of v.group)
  unfolding visit
  visit-Built ep cl v h =
      let (dts, made) =
        visit_parts (map (cluster_name model) (dict_keys (sorted cl))) type_names
          (group_of py pr model ep cl) (device_types_of model cl) v h in
      group_of-Built ep cl dts v.group made

  visit_all-BuiltAll :
      (tree : Dict Endpoint) (vs : List Visit)
      → visit_all py pr model tree ≡ ok vs
      → BuiltAll tree vs
  unfolding visit_all
  visit_all-BuiltAll [] [] h = tt
  visit_all-BuiltAll [] (v ∷ vs) h = absurd (ground arith)
  visit_all-BuiltAll ((ep, cl) ∷ tree) vs h =
      let (v, us, first, rest, e) =
        visits_parts (visit py pr model ep cl) (visit_all py pr model tree) vs h in
      subst (λ (l : List Visit). BuiltAll ((ep, cl) ∷ tree) l) (sym e)
        (visit-Built ep cl v first, visit_all-BuiltAll tree us rest)

  -- Whatever attributes a node reports: if its device can be made, then its properties are all of its
  -- capabilities, in order and renamed, under different names. So no capability hides another.
  pub props_of_complete :
      (attrs : List (Text × Value)) (vs : List Visit)
      → visit_all py pr model (sorted (attr_tree py attrs)) ≡ ok vs
      → (props_of (visited_caps vs) ≡ entries (map (rename (visited_caps vs)) (visited_caps vs)))
        × Distinct (prop_names (props_of (visited_caps vs)))
  props_of_complete attrs vs h =
      let d : Distinct (dict_keys (attr_tree py attrs)) =
        unfold attr_tree in tree_from-Distinct py [] attrs tt in
      let (s, new) =
        visits-Separate (sorted (attr_tree py attrs)) vs
          (visit_all-BuiltAll (sorted (attr_tree py attrs)) vs h)
          (sorted-Distinct (attr_tree py attrs) d) in
      props_of_lem (visited_caps vs) s new
