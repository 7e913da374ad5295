-- ===== src/Nodes/Ids.antt =====
-- What `chip.clusters` generates (a third-party package) beyond the ids of the capabilities: the
-- numbers that the construction of a device looks up, and the names of the data model.
use matter_thread2mqtt.Prelude.{ℕ, ℤ, Text, Option}
use matter_thread2mqtt.Devices.{DataModel}

pub record NodeModel : Type 0 where
  pub ids : DataModel
  -- clusters
  pub descriptor : ℤ
  pub basic_info : ℤ
  pub onoff : ℤ
  pub level : ℤ
  pub color : ℤ
  pub switch : ℤ
  pub thread_diag : ℤ
  pub wifi_diag : ℤ
  pub ethernet_diag : ℤ
  pub ota_requestor : ℤ
  -- attributes of these clusters
  pub device_type_list : ℤ
  pub node_label : ℤ
  pub min_level : ℤ
  pub max_level : ℤ
  pub color_capabilities : ℤ
  pub color_temp_min : ℤ
  pub color_temp_max : ℤ
  pub feature_map : ℤ
  pub number_of_positions : ℤ
  pub multi_press_max : ℤ
  pub vendor_name : ℤ
  pub vendor_id : ℤ
  pub product_name : ℤ
  pub product_id : ℤ
  pub hardware_version : ℤ
  pub software_version : ℤ
  pub serial_number : ℤ
  pub unique_id : ℤ
  -- bits of the colour capabilities and of the switch features
  pub color_temperature_bit : ℕ
  pub hue_saturation_bit : ℕ
  pub xy_bit : ℕ
  pub latching_bit : ℕ
  pub multi_press_bit : ℕ
  pub long_press_bit : ℕ
  pub release_bit : ℕ
  -- the tag of the field `deviceType` of its struct
  pub device_type_tag : ℤ
  -- the names of clusters, and of attributes of a cluster
  pub cluster_class : ℤ → Option Text
  pub attribute_class : ℤ → ℤ → Option Text
