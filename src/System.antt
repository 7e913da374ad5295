-- ===== src/System.antt =====
-- The bridge as a whole: the mqtt callbacks of mqtt_bridge/bridge.py, the tasks that they hand to the
-- event loop, and everything that runs on that loop.
mod Steps
pub mod Brightness
pub mod Consistent
pub use Steps.*
unfoldable pub use Steps.{new_bridge, on_connect, submit, is_rebuilding, started, resumed}
