-- ===== src/Devices.antt =====
-- mqtt_bridge/devices.py: the capabilities of a Matter node as zigbee2mqtt-style properties.
mod Ids
mod Checks
mod Caps
mod Changes
mod Reads
mod Presses
pub mod Names
pub mod Gestures
pub mod Switching
pub mod Naming
pub mod Bounds
pub mod Colors
pub mod Numerals
pub use Ids.*
pub use Checks.*
pub use Caps.*
pub use Changes.*
pub use Reads.*
pub use Presses.*
unfoldable pub use Checks.{as_number, check_number}
unfoldable pub use Caps.{
  sensor_name, class_of, name, access, settable, gettable, paths, momentary, sensor_attr, attrs,
}
unfoldable pub use Changes.{coerce, validate, write, command_of}
unfoldable pub use Reads.{read, masked}
unfoldable pub use Presses.{press_name, struct_field, press_name_of, event, action_from, action}
