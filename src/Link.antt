-- ===== src/Link.antt =====
-- mqtt_bridge/matter.py: the connection to the Matter server, and the bridge's callbacks on it.
pub mod Loop
pub mod Sessions
pub mod Offline
pub mod Reading
