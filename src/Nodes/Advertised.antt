-- ===== src/Nodes/Advertised.antt =====
-- What a device advertises on bridge/devices is what its properties offer.
use matter_thread2mqtt.Prelude.{
  pos, Text, List, [], map, some, ◌≡◌, refl, sym, ap, ◌∙◌, subst, eqb_list, nat_eq, text_eq,
  Distinct, arith, All,
}
use matter_thread2mqtt.Python.{
  Runtime, Fields, end, dict, get, Outcome, ok, raise, ◌>>=◌, Holds, codes,
}
use matter_thread2mqtt.Devices.{Cap, Printing}
use matter_thread2mqtt.Bridge.{Device}
use matter_thread2mqtt.Nodes.{
  NodeModel, Node, Visit, Endpoint, rename, renamed_groups, exposes_of, new_device, device_from,
  visit_all, sorted, attr_tree, find_key, found_or, props_of, put_field, objects, known_facts,
  definition_of, description, endpoints_from, has_key,
}
use matter_thread2mqtt.Nodes.Renaming.{entries, prop_names}
use matter_thread2mqtt.Nodes.Separation.{visited_caps}
use matter_thread2mqtt.Nodes.Complete.{props_of_complete}
use matter_thread2mqtt.Nodes.Entries.{get-put_field, get-put_field_same}
use matter_thread2mqtt.Nodes.Reached.{
  Advertised, IsReached, entries-prop_of, exposes_of-Advertised, all_caps-rename_group,
}

listed_parts :
    (r : Outcome (List Fields)) (made : List Fields → Device × Fields) (d : Device × Fields)
    → (r >>= λ es. ok (made es)) ≡ ok d
    → (es : List Fields) × (r ≡ ok es) × (made es ≡ d)
listed_parts (ok es) made d h = (es, refl, ground arith)
listed_parts (raise e) made d h = absurd (cc)

device_parts :
    (m : Outcome (List Visit)) (ex : List Visit → Outcome (List Fields))
    (made : List Visit → List Fields → Device × Fields) (d : Device × Fields)
    → (m >>= λ vs. ex vs >>= λ es. ok (made vs es)) ≡ ok d
    → (vs : List Visit) × (m ≡ ok vs) × (es : List Fields) × (ex vs ≡ ok es) × (made vs es ≡ d)
device_parts (ok vs) ex made d h =
    let (es, e, f) = listed_parts (ex vs) (made vs) d h in (vs, refl, es, e, f)
device_parts (raise e) ex made d h = absurd (cc)

module _ (py : Runtime) (pr : Printing) (model : NodeModel) where
  device_from-props :
      (node : Node) (root : Endpoint) (vs : List Visit) (es : List Fields)
      → (device_from py pr model node root vs es).0.props ≡ props_of (visited_caps vs)
  unfolding device_from
  device_from-props node root vs es = refl

  -- The entries stand under `definition`, `exposes`.
  device_from-exposes :
      (node : Node) (root : Endpoint) (vs : List Visit) (es : List Fields)
      → (d : Fields) × (get (codes "definition") (device_from py pr model node root vs es).1
          ≡ some (dict d))
        × (get (codes "exposes") d ≡ some (objects es))
  unfolding device_from definition_of get eqb_list
  device_from-exposes node root vs es =
      let info = known_facts py pr model node root in
      let d = definition_of info (description vs) (has_key model.ota_requestor root) es in
      (
        d,
        get-put_field (codes "definition") (codes "endpoints") (dict (endpoints_from end vs))
              (put_field (codes "definition") (dict d) info) refl
            ∙ get-put_field_same (codes "definition") (dict d) info,
        refl,
      )

  -- The parts of a device that can be made of a node.
  pub new_device-made :
      (node : Node) (dev : Device) (info : Fields)
      → new_device py pr model node ≡ ok (dev, info)
      → (vs : List Visit) × (visit_all py pr model (sorted (attr_tree py node.attributes)) ≡ ok vs)
        × (es : List Fields) × (exposes_of (renamed_groups vs) ≡ ok es)
        × (device_from py pr model node
              (found_or (find_key (pos 0) (attr_tree py node.attributes)) [])
              vs
              es
            ≡ (dev, info))
  unfolding new_device
  new_device-made node dev info h =
      device_parts (visit_all py pr model (sorted (attr_tree py node.attributes)))
        (λ vs. exposes_of (renamed_groups vs))
        (device_from py pr model node
          (found_or (find_key (pos 0) (attr_tree py node.attributes)) []))
        (dev, info) h

  -- For a device that can be made of a node: the capabilities of all of the node's endpoints, in order
  -- and renamed, are its properties, under different names. So no capability hides another.
  pub new_device-Complete :
      (node : Node) (dev : Device) (info : Fields)
      → new_device py pr model node ≡ ok (dev, info)
      → (vs : List Visit) × (visit_all py pr model (sorted (attr_tree py node.attributes)) ≡ ok vs)
        × (dev.props ≡ entries (map (rename (visited_caps vs)) (visited_caps vs)))
        × Distinct (prop_names dev.props)
  new_device-Complete node dev info h =
      let root = found_or (find_key (pos 0) (attr_tree py node.attributes)) [] in
      let (vs, visited, es, listed, made) = new_device-made node dev info h in
      let same : dev.props ≡ props_of (visited_caps vs) =
        ap (λ (d : Device × Fields). d.0.props) (sym made) ∙ device_from-props node root vs es in
      let (e, d) = props_of_complete py pr model node.attributes vs visited in
      (
        vs,
        visited,
        same ∙ e,
        subst (λ (l : List (Text × Cap)). Distinct (prop_names l)) (sym same) d,
      )

  -- The entries of a device that was made are those of its properties.
  pub made-Advertised :
      (node : Node) (root : Endpoint) (vs : List Visit) (es : List Fields) (dev : Device)
      (info : Fields)
      → visit_all py pr model (sorted (attr_tree py node.attributes)) ≡ ok vs
      → exposes_of (renamed_groups vs) ≡ ok es
      → device_from py pr model node root vs es ≡ (dev, info)
      → All (Advertised dev.props) es
  unfolding renamed_groups
  made-Advertised node root vs es dev info visited listed made =
      let caps = map (rename (visited_caps vs)) (visited_caps vs) in
      let (e, different) = props_of_complete py pr model node.attributes vs visited in
      let same : dev.props ≡ entries caps =
        ap (λ (d : Device × Fields). d.0.props) (sym made)
        ∙ (device_from-props node root vs es ∙ e) in
      let reached : All (IsReached (entries caps)) caps =
        entries-prop_of caps
          (subst (λ (l : List (Text × Cap)). Distinct (prop_names l)) e different) in
      subst (λ (l : List (Text × Cap)). All (Advertised l) es) (sym same)
        (subst (Holds (All (Advertised (entries caps)))) listed (
          exposes_of-Advertised (entries caps) (renamed_groups vs) (
            subst (λ (l : List Cap). All (IsReached (entries caps)) l)
              (sym (all_caps-rename_group (visited_caps vs) (map (λ (v : Visit). v.group) vs)))
              reached)))

  -- For a device that can be made of a node: each entry under `definition`, `exposes` of its
  -- information, or if it is a light or a switch each of its features, has the property, the access
  -- bits and the endpoint of the capability that a request for that property reaches.
  pub new_device-Advertised :
      (node : Node) (dev : Device) (info : Fields)
      → new_device py pr model node ≡ ok (dev, info)
      → (d : Fields) × (exposes : List Fields) × (get (codes "definition") info ≡ some (dict d))
        × (get (codes "exposes") d ≡ some (objects exposes))
        × All (Advertised dev.props) exposes
  new_device-Advertised node dev info h =
      let root = found_or (find_key (pos 0) (attr_tree py node.attributes)) [] in
      let (vs, visited, es, listed, made) = new_device-made node dev info h in
      let (d, found, shown) = device_from-exposes node root vs es in
      (
        d,
        es,
        ap (λ (m : Device × Fields). get (codes "definition") m.1) (sym made) ∙ found,
        shown,
        made-Advertised node root vs es dev info visited listed made,
      )
