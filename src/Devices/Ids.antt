-- ===== src/Devices/Ids.antt =====
-- The ids that `chip.clusters` generates from the Matter specification (a third-party package):
-- clusters, attributes, enum values and events are numbers that the bridge compares and prints.
use matter_thread2mqtt.Prelude.{ℕ, ℤ}

-- An attribute of a cluster.
pub record AttrId : Type 0 where
  pub cluster : ℤ
  pub attribute : ℤ

pub record DataModel : Type 0 where
  pub on_off : AttrId
  pub current_level : AttrId
  pub color_temp_mireds : AttrId
  pub current_hue : AttrId
  pub current_saturation : AttrId
  pub current_x : AttrId
  pub current_y : AttrId
  pub color_mode : AttrId
  pub temperature : AttrId
  pub humidity : AttrId
  pub pressure : AttrId
  pub illuminance : AttrId
  pub occupancy : AttrId
  pub contact : AttrId
  pub battery_percent : AttrId
  pub battery_level : AttrId
  -- the enum values and the bitmap bit that `read` compares with
  pub mode_hs : ℤ
  pub mode_xy : ℤ
  pub mode_color_temp : ℤ
  pub bat_ok : ℤ
  pub occupied : ℕ
