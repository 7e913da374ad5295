-- ===== src/Nodes/Infos.antt =====
-- `Device.__init__`: the device of a node with the information that bridge/devices publishes.
use matter_thread2mqtt.Prelude.{
  ℤ, pos, Text, List, [], ◌∷◌, ◌++◌, map, Bool, true, false, none, some, contains, text_eq, ◌==◌,
  int_eq, if◌then◌else◌,
}
use matter_thread2mqtt.Python.{
  Runtime, int, Value, null, bool, num, str, dict, Fields, end, field, get, Outcome, ok, ◌>>=◌,
  codes, show_ℤ,
}
use matter_thread2mqtt.Devices.{Cap, Printing}
use matter_thread2mqtt.Devices.Names.{friendly_name_of}
use matter_thread2mqtt.Bridge.{Device}
use matter_thread2mqtt.Nodes.Ids.{NodeModel}
use matter_thread2mqtt.Nodes.Trees.{
  Cluster, Endpoint, find_key, has_key, found_or, sorted, attr_tree,
}
use matter_thread2mqtt.Nodes.Endpoints.{Group, value_at}
use matter_thread2mqtt.Nodes.Properties.{Visit, visit_all, all_caps, rename_group, props_of}
use matter_thread2mqtt.Nodes.Exposes.{put_field, texts, objects, expose}

-- A node of the Matter client, as far as the device is made from it. The last two are only shown.
pub record Node : Type 0 where
  pub node_id : ℤ
  pub attributes : List (Text × Value)
  pub available : Bool
  pub last_interview : Value
  pub interview_version : Value

-- `[e for c in caps for e in c.expose()]`
unfoldable pub exposed : List Cap → Outcome (List Fields)
unfolding expose
exposed [] = ok []
exposed (c ∷ cs) = do es ← expose c; more ← exposed cs; ok (es ++ more)

-- The entry of the actuators of an endpoint, which are a light or a switch.
unfoldable pub group_entry : ℤ → Bool → List Fields → Fields
group_entry ep light features =
    field (codes "type") (str (if light then codes "light" else codes "switch"))
      (field (codes "endpoint") (num (int ep)) (field (codes "features") (objects features) end))

-- The entries of an endpoint with these actuators and sensors.
unfoldable pub endpoint_exposes : ℤ → Bool → List Cap → List Cap → Outcome (List Fields)
unfolding exposed group_entry
endpoint_exposes ep light [] sens = exposed sens
endpoint_exposes ep light (c ∷ cs) sens = do
  features ← exposed (c ∷ cs)
  more ← exposed sens
  ok (group_entry ep light features ∷ more)

-- `exposes`
unfoldable pub exposes_of : List Group → Outcome (List Fields)
unfolding endpoint_exposes
exposes_of [] = ok []
exposes_of (g ∷ gs) = do
  es ← endpoint_exposes g.ep g.light g.actuators g.sensors
  more ← exposes_of gs
  ok (es ++ more)

-- `dict.fromkeys(ts)`: each text once, where it is first.
unfoldable pub without_repeats : (seen : List Text) → List Text → List Text
unfolding contains
without_repeats seen [] = []
without_repeats seen (t ∷ ts) =
    let old = without_repeats seen ts in
    let new = without_repeats (t ∷ seen) ts in if contains seen t then old else t ∷ new

-- ", ".join(ts)
unfoldable pub comma_join : List Text → Text
comma_join [] = []
comma_join (t ∷ []) = t
comma_join (t ∷ u ∷ ts) = t ++ codes ", " ++ comma_join (u ∷ ts)

-- `s or None`
abbrev pub text_or_null : Text → Value
text_or_null [] = null
text_or_null (c ∷ s) = str (c ∷ s)

-- `device_types`: those of the endpoints but the root.
unfoldable pub non_root_types : List Visit → List Text
non_root_types [] = []
non_root_types (v ∷ vs) =
    let rest = non_root_types vs in if v.group.ep == pos 0 then rest else v.types ++ rest

unfoldable pub description : List Visit → Value
unfolding without_repeats comma_join non_root_types
description vs = text_or_null (comma_join (without_repeats [] (non_root_types vs)))

-- `groups`, with the capabilities renamed.
unfoldable pub renamed_groups : List Visit → List Group
unfolding rename_group
renamed_groups vs =
    let groups = map (λ (v : Visit). v.group) vs in map (rename_group (all_caps groups)) groups

-- `endpoints`
unfoldable pub endpoints_from : Fields → List Visit → Fields
unfolding put_field show_ℤ
endpoints_from es [] = es
endpoints_from es (v ∷ vs) =
    endpoints_from
      (put_field (show_ℤ v.group.ep)
        (dict (
          field (codes "device_types") (texts v.types)
            (field (codes "clusters") (texts v.clusters) end)))
        es)
      vs

module _ (model : NodeModel) where
  -- `BASIC_INFO_FIELDS`
  abbrev pub basic_info_fields : List (ℤ × Text)
  basic_info_fields =
      (model.vendor_name, codes "manufacturer")
      ∷ (model.vendor_id, codes "vendor_id")
      ∷ (model.product_name, codes "model")
      ∷ (model.product_id, codes "product_id")
      ∷ (model.hardware_version, codes "hardware_version")
      ∷ (model.software_version, codes "software_version")
      ∷ (model.serial_number, codes "serial_number")
      ∷ (model.unique_id, codes "unique_id")
      ∷ []

  unfoldable pub network : Endpoint → Text
  unfolding has_key
  network root =
      if has_key model.thread_diag root
      then codes "thread"
      else if has_key model.wifi_diag root
      then codes "wifi"
      else if has_key model.ethernet_diag root
      then codes "ethernet"
      else codes "unknown"

-- The loop over `BASIC_INFO_FIELDS`
unfoldable pub with_basic : Cluster → List (ℤ × Text) → Fields → Fields
unfolding find_key put_field
with_basic basic [] info = info
with_basic basic ((aid, key) ∷ more) info =
    with_basic basic more
      (elim (find_key aid basic) [ none ↦ info | some v ↦ put_field key v info ])

-- `d.get(key)`
abbrev pub get_or_null : Text → Fields → Value
get_or_null key fs = elim (get key fs) [ none ↦ null | some v ↦ v ]

unfoldable pub definition_of : Fields → Value → Bool → List Fields → Fields
unfolding get
definition_of info description ota exposes =
    field (codes "vendor") (get_or_null (codes "manufacturer") info) (
      field (codes "model") (get_or_null (codes "model") info) (
        field (codes "description") description (
          field (codes "supports_ota") (bool ota) (field (codes "exposes") (objects exposes) end))))

unfoldable pub facts : Node → Text → Text → Fields
facts node friendly_name network = field (codes "node_id") (num (int node.node_id)) (
    field (codes "friendly_name") (str friendly_name) (
      field (codes "available") (bool node.available) (
        field (codes "network") (str network) (
          field (codes "interview_completed") (bool true) (
            field (codes "interviewing") (bool false) (
              field (codes "last_interview") node.last_interview
                (field (codes "interview_version") node.interview_version end)))))))

module _ (py : Runtime) (pr : Printing) (model : NodeModel) where
  -- `basic`
  unfoldable pub basic_of : Endpoint → Cluster
  unfolding find_key
  basic_of root = found_or (find_key model.basic_info root) []

  unfoldable pub name_of : Node → Endpoint → Text
  unfolding basic_of find_key friendly_name_of
  name_of node root = friendly_name_of py (value_at (basic_of root) model.node_label) node.node_id

  -- `info` before the definition is added
  unfoldable pub known_facts : Node → Endpoint → Fields
  unfolding facts network with_basic basic_of name_of
  known_facts node root =
      with_basic (basic_of root) (basic_info_fields model)
        (facts node (name_of node root) (network model root))

  -- The device and its information, from the root endpoint, the visits and the entries.
  unfoldable pub device_from :
      Node → Endpoint → List Visit → (exposes : List Fields) → Device × Fields
  unfolding basic_of name_of known_facts find_key has_key props_of definition_of description
      endpoints_from put_field
  device_from node root vs exposes = (
    record {
      node_id = node.node_id;
      friendly_name = name_of node root;
      unique_id = value_at (basic_of root) model.unique_id;
      available = node.available;
      props = props_of (all_caps (map (λ (v : Visit). v.group) vs));
    },
    put_field (codes "endpoints") (dict (endpoints_from end vs)) (
        put_field (codes "definition")
          (dict (
            definition_of (known_facts node root) (description vs)
              (has_key model.ota_requestor root) exposes))
          (known_facts node root)),
  )

  -- `Device(node)`, with its `info`
  unfoldable pub new_device : Node → Outcome (Device × Fields)
  unfolding attr_tree find_key sorted visit_all renamed_groups exposes_of device_from
  new_device node =
      let tree = attr_tree py node.attributes in
      let root = found_or (find_key (pos 0) tree) [] in
      (do
        vs ← visit_all py pr model (sorted tree)
        exposes ← exposes_of (renamed_groups vs)
        ok (device_from node root vs exposes))
