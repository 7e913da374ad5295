-- ===== src/NodeRuns.antt =====
-- The theorems on nodes at a concrete node: a wall plug with two sockets and a lamp.
use matter_thread2mqtt.Prelude.{
  ℕ, zero, suc, ap, if◌then◌else◌, ◌==◌, int_eq, ℤ, pos, negsuc, Text, List, [], ◌∷◌, map, All,
  Distinct, text_eq, true, false, none, some, ◌≡◌, refl, arith, eqb_list,
}
use matter_thread2mqtt.Python.{
  null, bool, num, int, str, list, dict, nil, cons, Fields, end, field, get, Outcome, ok, raise,
  codes, strip, show_ℤ, parse_int,
}
use matter_thread2mqtt.Devices.{as_number}
use matter_thread2mqtt.Devices.Numerals.{as_number-show_ℤ}
use matter_thread2mqtt.Bridge.{Device}
use matter_thread2mqtt.Nodes.{
  NodeModel, Node, Visit, visit_all, sorted, attr_tree, rename, new_device, objects,
}
use matter_thread2mqtt.Nodes.Renaming.{entries, prop_names}
use matter_thread2mqtt.Nodes.Separation.{visited_caps}
use matter_thread2mqtt.Nodes.Reached.{Advertised}
use matter_thread2mqtt.Nodes.Conforming.{IsDocumented, new_device-conforms}
use matter_thread2mqtt.Nodes.Advertised.{new_device-Complete, new_device-Advertised}
use matter_thread2mqtt.Nodes.{
  Cache, whole, Endpoint, Cluster, attr_name, cluster_name, attribute_entry, dump_node, json_safe,
}
use matter_thread2mqtt.Nodes.Dumped.{IsInjective, dump_node-Complete}
use matter_thread2mqtt.Nodes.Octets.{json_safe-raw}
use matter_thread2mqtt.Nodes.{raw, find_key}
use matter_thread2mqtt.Python.Printed.{show_ℤ_injective}
use matter_thread2mqtt.Python.{value_error, Exc}
use matter_thread2mqtt.Bridge.{Tables}
use matter_thread2mqtt.Link.Reading.{rebuild_nodes, rebuild_nodes-Stopped}
use matter_thread2mqtt.Nodes.Paths.{value_in, latest_value, attr_tree-latest}
use matter_thread2mqtt.Samples.{calm, py, ids, number, printing}

abbrev spec : NodeModel
spec = record {
  ids = ids;
  descriptor = pos 29;
  basic_info = pos 40;
  onoff = pos 6;
  level = pos 8;
  color = pos 768;
  switch = pos 59;
  thread_diag = pos 53;
  wifi_diag = pos 54;
  ethernet_diag = pos 55;
  ota_requestor = pos 42;
  device_type_list = pos 0;
  node_label = pos 5;
  min_level = pos 2;
  max_level = pos 3;
  color_capabilities = pos 16394;
  color_temp_min = pos 16395;
  color_temp_max = pos 16396;
  feature_map = pos 65532;
  number_of_positions = pos 0;
  multi_press_max = pos 2;
  vendor_name = pos 1;
  vendor_id = pos 2;
  product_name = pos 3;
  product_id = pos 4;
  hardware_version = pos 8;
  software_version = pos 10;
  serial_number = pos 15;
  unique_id = pos 18;
  color_temperature_bit = 16;
  hue_saturation_bit = 1;
  xy_bit = 8;
  latching_bit = 1;
  multi_press_bit = 16;
  long_press_bit = 8;
  release_bit = 4;
  device_type_tag = pos 0;
  cluster_class = λ c. none;
  attribute_class = λ c a. none;
}

abbrev plug : Node
plug = record {
  node_id = pos 9;
  attributes =
      (codes "0/40/3", str (codes "Plug"))
      ∷ (codes "2/6/0", bool true)
      ∷ (codes "not/a/path", null)
      ∷ (codes "1/6/0", bool false)
      ∷ (codes "1/8/3", number 100)
      ∷ (codes "1/29/0", list (cons (dict (field (codes "0") (number 267) end)) nil))
      ∷ [];
  available = true;
  last_interview = null;
  interview_version = number 6;
}

abbrev made : Outcome (Device × Fields) → Device × Fields
made (ok d) = d
made (raise e) = (
  record { node_id = pos 0; friendly_name = []; unique_id = null; available = false; props = [] },
  end,
)

abbrev plug_device : Device × Fields
unfolding new_device
plug_device = made (new_device py printing spec plug)

plug-made : new_device py printing spec plug ≡ ok plug_device
unfolding plug_device new_device parse_int eqb_list
plug-made = refl

plug_names :
    prop_names plug_device.0.props ≡ codes "state_1" ∷ codes "brightness" ∷ codes "state_2" ∷ []
unfolding plug_device new_device parse_int eqb_list
plug_names = refl

new_device-Complete_example :
    (vs : List Visit) × (visit_all py printing spec (sorted (attr_tree py plug.attributes)) ≡ ok vs)
    × (plug_device.0.props ≡ entries (map (rename (visited_caps vs)) (visited_caps vs)))
    × Distinct (prop_names plug_device.0.props)
new_device-Complete_example =
    new_device-Complete py printing spec plug plug_device.0 plug_device.1 plug-made

new_device-Advertised_example :
    (d : Fields) × (exposes : List Fields) × (get (codes "definition") plug_device.1
      ≡ some (dict d))
    × (get (codes "exposes") d ≡ some (objects exposes))
    × All (Advertised plug_device.0.props) exposes
new_device-Advertised_example =
    new_device-Advertised py printing spec plug plug_device.0 plug_device.1 plug-made

as_number-show_ℤ_example : as_number py (str (codes "-12")) ≡ num (int (negsuc 11))
unfolding show_ℤ
as_number-show_ℤ_example = as_number-show_ℤ py (negsuc 11) (omega arith)

abbrev dropped : ℕ → Text → Text
dropped zero s = s
dropped (suc n) [] = []
dropped (suc n) (c ∷ s) = dropped n s

cluster_name-IsInjective : IsInjective (cluster_name spec)
unfolding cluster_name
cluster_name-IsInjective i j h = show_ℤ_injective i j (ap (dropped 8) h)

attr_name-IsInjective : (cid : ℤ) → IsInjective (attr_name spec cid)
unfolding attr_name
attr_name-IsInjective cid i j h = show_ℤ_injective i j (ap (dropped 5) h)

-- The typed cache has the switch of the first socket only.
abbrev plug_cache : Cache
plug_cache ep cid aid =
    if ep == pos 1 then (if cid == pos 6 then some (whole (pos 1)) else none) else none

abbrev socket_cluster : Cluster
socket_cluster = (pos 0, bool true) ∷ []

abbrev socket : Endpoint
socket = (pos 6, socket_cluster) ∷ []

socket-found : find_key (pos 2) (attr_tree py plug.attributes) ≡ some socket
unfolding attr_tree find_key parse_int strip
socket-found = refl

dump_node-Complete_example :
    (clusters : Fields) × (attributes : Fields) × (get
        (show_ℤ (pos 2))
        (dump_node py spec plug_cache plug)
      ≡ some (dict clusters))
    × (get (cluster_name spec (pos 6)) clusters ≡ some (dict attributes))
    × (get (attr_name spec (pos 6) (pos 0)) attributes
        ≡ some (attribute_entry py spec plug_cache (pos 2) (pos 6) (pos 0) (bool true)))
unfolding find_key
dump_node-Complete_example =
    dump_node-Complete py spec plug_cache plug cluster_name-IsInjective attr_name-IsInjective
      (pos 2) (pos 6) (pos 0) socket socket_cluster (bool true) socket-found refl refl

json_safe-raw_example :
    json_safe (raw (list (cons (number 7) (cons null nil))))
    ≡ list (cons (number 7) (cons null nil))
json_safe-raw_example = json_safe-raw (list (cons (number 7) (cons null nil)))

-- A node whose device type is a text.
abbrev odd_node : Node
odd_node = record plug {
  attributes =
      (codes "1/29/0", list (cons (dict (field (codes "0") (str (codes "lamp")) end)) nil)) ∷ [];
}

odd_node-raise : new_device py printing spec odd_node ≡ raise value_error
unfolding new_device parse_int strip eqb_list
odd_node-raise = refl

abbrev empty_tables : Tables
empty_tables = record { devices = []; attr_unsubs = []; pending_state = []; timers = [] }

rebuild_nodes-Stopped_example :
    (f : Exc) × (rebuild_nodes py printing spec calm [] (plug ∷ odd_node ∷ []) empty_tables
      ≡ (raise f, empty_tables, []))
rebuild_nodes-Stopped_example =
    rebuild_nodes-Stopped py printing spec calm [] (plug ∷ []) odd_node [] value_error empty_tables
      odd_node-raise

attr_tree-latest_example :
    value_in (pos 1, pos 8, pos 3) (attr_tree py plug.attributes)
    ≡ latest_value py none (pos 1, pos 8, pos 3) plug.attributes
attr_tree-latest_example = attr_tree-latest py plug.attributes (pos 1, pos 8, pos 3)

new_device-conforms_example : IsDocumented py printing spec plug plug_device.1
new_device-conforms_example =
    new_device-conforms py printing spec plug plug_device.0 plug_device.1 plug-made
