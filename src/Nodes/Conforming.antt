-- ===== src/Nodes/Conforming.antt =====
-- The information that is published of a device has the documented form.
use matter_thread2mqtt.Prelude.{
  ℤ, pos, Text, List, [], map, Bool, true, false, Option, none, some, ◌≡◌, refl, ap, ◌∙◌, subst,
  sym, contains, eqb_list, nat_eq, text_eq, arith, All, All-weaken,
}
use matter_thread2mqtt.Python.{
  Runtime, Value, null, int, num, bool, str, dict, Fields, end, get, ok, codes,
}
use matter_thread2mqtt.Devices.{Printing}
use matter_thread2mqtt.Bridge.{Device}
use matter_thread2mqtt.Nodes.{
  NodeModel, Node, Endpoint, find_key, found_or, attr_tree, put_field, facts, with_basic, basic_of,
  basic_info_fields, name_of, network, known_facts, definition_of, description, get_or_null,
  comma_join, without_repeats, non_root_types, text_or_null, endpoints_from, has_key, device_from,
  new_device,
}
use matter_thread2mqtt.Nodes.Shapes.{
  table, conforms, has_entries, definition_shape, endpoint_shape, device_shape, networks,
}
use matter_thread2mqtt.Nodes.Basics.{get-with_basic, IsRead, with_basic-IsRead, put_field-IsRead}
use matter_thread2mqtt.Nodes.Paths.{latest_value, attr_tree-latest}
use matter_thread2mqtt.Nodes.Entries.{get-put_field, get-put_field_same}
use matter_thread2mqtt.Nodes.Reached.{Advertised}
use matter_thread2mqtt.Nodes.Advertised.{new_device-made, made-Advertised}
use matter_thread2mqtt.Nodes.Forms.{
  advertised-conforms, endpoints_from-conforms, definition-conforms,
}

module _ (py : Runtime) (pr : Printing) (model : NodeModel) where
  network-is_known : (root : Endpoint) → contains networks (network model root) ≡ true
  unfolding contains network eqb_list
  network-is_known root = ground arith

  -- What the basic information does not name is as `facts` has it.
  get-known_facts :
      (k : Text) (node : Node) (root : Endpoint)
      → contains (map (λ (r : ℤ × Text). r.1) (basic_info_fields model)) k ≡ false
      → get k (known_facts py pr model node root)
        ≡ get k (facts node (name_of py pr model node root) (network model root))
  unfolding known_facts
  get-known_facts k node root h =
      get-with_basic k (basic_of py pr model root) (basic_info_fields model) _ h

  abbrev completed : Node → Endpoint → (d t : Value) → Fields
  completed node root d t =
      put_field (codes "endpoints") t
        (put_field (codes "definition") d (known_facts py pr model node root))

  get-completed_other :
      (k : Text) (node : Node) (root : Endpoint) (d t : Value)
      → eqb_list (codes "endpoints") k ≡ false
      → eqb_list (codes "definition") k ≡ false
      → get k (completed node root d t) ≡ get k (known_facts py pr model node root)
  get-completed_other k node root d t e f =
      get-put_field k (codes "endpoints") t _ e ∙ get-put_field k (codes "definition") d _ f

  get_or_null-completed :
      (k : Text) (node : Node) (root : Endpoint) (d t : Value)
      → eqb_list (codes "endpoints") k ≡ false
      → eqb_list (codes "definition") k ≡ false
      → get_or_null k (known_facts py pr model node root) ≡ get_or_null k (completed node root d t)
  get_or_null-completed k node root d t e f =
      ap (λ (o : Option Value). elim o [ none ↦ null | some v ↦ v ])
        (sym (get-completed_other k node root d t e f))

  get-completed :
      (k : Text) (v : Value) (node : Node) (root : Endpoint) (d t : Value)
      → eqb_list (codes "endpoints") k ≡ false
      → eqb_list (codes "definition") k ≡ false
      → contains (map (λ (r : ℤ × Text). r.1) (basic_info_fields model)) k ≡ false
      → get k (facts node (name_of py pr model node root) (network model root)) ≡ some v
      → get k (completed node root d t) ≡ some v
  get-completed k v node root d t e f g h =
      get-completed_other k node root d t e f ∙ (get-known_facts k node root g ∙ h)

  completed-conforms :
      (node : Node) (root : Endpoint) (d t : Value)
      → conforms definition_shape d ≡ true
      → conforms (table endpoint_shape) t ≡ true
      → conforms device_shape (dict (completed node root d t)) ≡ true
  unfolding conforms has_entries facts get eqb_list contains
  completed-conforms node root d t hd ht = ground (
    arith,
    get-completed (codes "node_id") (num (int node.node_id)) node root d t refl refl refl refl,
    get-completed (codes "friendly_name") (str (name_of py pr model node root)) node root d t refl
        refl refl refl,
    get-completed (codes "available") (bool node.available) node root d t refl refl refl refl,
    get-completed (codes "network") (str (network model root)) node root d t refl refl refl refl,
    get-completed (codes "interview_completed") (bool true) node root d t refl refl refl refl,
    get-completed (codes "interviewing") (bool false) node root d t refl refl refl refl,
    get-completed (codes "last_interview") node.last_interview node root d t refl refl refl refl,
    get-completed (codes "interview_version") node.interview_version node root d t refl refl refl
        refl,
    get-put_field (codes "definition") (codes "endpoints") t
        (put_field (codes "definition") d (known_facts py pr model node root)) refl,
    get-put_field_same (codes "definition") d (known_facts py pr model node root),
    get-put_field_same (codes "endpoints") t
        (put_field (codes "definition") d (known_facts py pr model node root)),
    network-is_known root,
  )

  -- The information has each attribute of the basic information that the node reports.
  completed-IsRead :
      (node : Node) (root : Endpoint) (d t : Value)
      → All (IsRead (basic_of py pr model root) (completed node root d t)) (basic_info_fields model)
  unfolding known_facts facts get contains eqb_list
  completed-IsRead node root d t =
      let rows = basic_info_fields model in
      let basic = basic_of py pr model root in
      let first = facts node (name_of py pr model node root) (network model root) in
      let known = with_basic basic rows first in
      put_field-IsRead basic rows (codes "endpoints") t (put_field (codes "definition") d known)
        refl
        (put_field-IsRead basic rows (codes "definition") d known refl (
          with_basic-IsRead basic rows first refl
            (refl, (refl, (refl, (refl, (refl, (refl, (refl, (refl, tt))))))))))

  -- What the documented form says of the information `info` of a node.
  pub record IsDocumented (node : Node) (info : Fields) : Type 0 where
    pub shape : conforms device_shape (dict info) ≡ true
    pub basics :
        All
          (λ (r : ℤ × Text).
            get r.1 info ≡ latest_value py none (pos 0, model.basic_info, r.0) node.attributes)
          (basic_info_fields model)
    pub definition : Fields
    pub defined : get (codes "definition") info ≡ some (dict definition)
    pub vendor : get (codes "vendor") definition ≡ some (get_or_null (codes "manufacturer") info)
    pub same_model : get (codes "model") definition ≡ some (get_or_null (codes "model") info)

  completed-IsDocumented :
      (node : Node) (ota : Bool) (ts : Text) (es : List Fields) (t : Value)
      → (let root = found_or (find_key (pos 0) (attr_tree py node.attributes)) [] in
          conforms definition_shape
            (dict (definition_of (known_facts py pr model node root) (text_or_null ts) ota es))
          ≡ true)
      → conforms (table endpoint_shape) t ≡ true
      → (let root = found_or (find_key (pos 0) (attr_tree py node.attributes)) [] in
          IsDocumented node (
            completed node root
              (dict (definition_of (known_facts py pr model node root) (text_or_null ts) ota es))
              t))
  unfolding basic_of definition_of get eqb_list
  completed-IsDocumented node ota ts es t hd ht =
      let root = found_or (find_key (pos 0) (attr_tree py node.attributes)) [] in
      let known = known_facts py pr model node root in
      let d = definition_of known (text_or_null ts) ota es in
      record {
        shape = completed-conforms node root (dict d) t hd ht;
        basics =
            All-weaken (IsRead (basic_of py pr model root) (completed node root (dict d) t)) _
              (basic_info_fields model)
              (λ r h. h ∙ attr_tree-latest py node.attributes (pos 0, model.basic_info, r.0))
              (completed-IsRead node root (dict d) t);
        definition = d;
        defined =
            get-put_field (codes "definition") (codes "endpoints") t
              (put_field (codes "definition") (dict d) known) refl
            ∙ get-put_field_same (codes "definition") (dict d) known;
        vendor =
            ap (λ (v : Value). some v)
              (get_or_null-completed (codes "manufacturer") node root (dict d) t refl refl);
        same_model =
            ap (λ (v : Value). some v)
              (get_or_null-completed (codes "model") node root (dict d) t refl refl);
      }

  -- For a device that can be made of a node: its information has the documented form, which
  -- `device_shape` spells out. Each key that is listed there is present with a value of its type,
  -- the network is one of four names, `definition` has its texts and a list of entries each of which
  -- has its own five fields or is a light or a switch with a list of such entries, and `endpoints`
  -- has for each endpoint the texts of its device types and clusters. Each of the eight keys of the
  -- basic information (manufacturer, vendor_id, model, product_id, serial_number, unique_id and the
  -- two versions) is present exactly if the node reports its attribute on the root endpoint, with the
  -- last value reported, and `definition` repeats the manufacturer and the model, or has null.
  pub new_device-conforms :
      (node : Node) (dev : Device) (info : Fields)
      → new_device py pr model node ≡ ok (dev, info)
      → IsDocumented node info
  unfolding device_from description conforms
  new_device-conforms node dev info h =
      let root = found_or (find_key (pos 0) (attr_tree py node.attributes)) [] in
      let (vs, visited, es, listed, made) = new_device-made py pr model node dev info h in
      let advertised = made-Advertised py pr model node root vs es dev info visited listed made in
      let known = known_facts py pr model node root in
      let types = comma_join (without_repeats [] (non_root_types vs)) in
      let ota = has_key model.ota_requestor root in
      subst (λ (m : Device × Fields). IsDocumented node m.1) made
        (completed-IsDocumented node ota types es (dict (endpoints_from end vs))
          (definition-conforms known types ota es
            (All-weaken (Advertised dev.props) _ es (advertised-conforms dev.props) advertised))
          (endpoints_from-conforms vs end refl))
