-- ===== src/Nodes.antt =====
-- mqtt_bridge/devices.py: how a node of the Matter fabric becomes a device.
mod Ids
mod Trees
mod Endpoints
mod Types
mod Properties
mod Exposes
mod Infos
mod Dumps
pub mod Shapes
pub mod Entries
pub mod Keys
pub mod Slots
pub mod Renaming
pub mod TreeLaws
pub mod Separation
pub mod Complete
pub mod Reached
pub mod Advertised
pub mod Basics
pub mod Forms
pub mod Conforming
pub mod Paths
pub mod Dumped
pub mod Octets
pub use Ids.*
pub use Trees.*
pub use Endpoints.*
pub use Types.*
pub use Properties.*
pub use Exposes.*
pub use Infos.*
pub use Dumps.*
unfoldable pub use Trees.{
  find_key, set_key, has_key, insert_sorted, sorted, graft, path_of, tree_from, attr_tree,
}
unfoldable pub use Endpoints.{
  new_level, new_color_temp, color_caps, has_bit, new_color, new_color_mode, new_action,
  color_kinds, one_action, with_more, is_light, reports, sensor_caps, actuator_kinds, sensor_kinds,
  is_light_type, any_light, endpoint_caps,
}
unfoldable pub use Properties.{
  iterate, drop_nulls, device_types_of, group_of, visit, visit_all, count_name, suffixed, rename,
  rename_group, set_prop, props_from, props_of,
}
unfoldable pub use Types.{
  hex_onto, zeros, hex4, type_in, int_type_name, device_type_name, type_names, cluster_name,
  attr_name,
}
unfoldable pub use Exposes.{
  put_field, base, sensor_unit, sensor_binary, sensor_base, with_unit, expose_sensor, feature,
  composite, expose_color, position_names, press_names, bound_of, action_values, with_values,
  with_range, expose_on_off, expose_color_temp, expose_kind, expose,
}
unfoldable pub use Infos.{
  exposed, group_entry, endpoint_exposes, exposes_of, without_repeats, comma_join, non_root_types,
  description, renamed_groups, endpoints_from, network, with_basic, definition_of, facts, basic_of,
  name_of, known_facts, device_from, new_device,
}
unfoldable pub use Dumps.{
  hex, json_safe, raw, fill, attribute_entry, cluster_entry, endpoint_entry, dump_node,
}
