-- ===== src/Reset.antt =====
-- scripts/esp_reset.py: the hard reset of the radio chip over its serial port.
mod Script
pub mod Strap
pub mod Attempts
pub use Script.*
unfoldable pub use Script.{
  read_banner, starts_with, occurs, any_occurs, classify, outcome, after, attempt_from, whole, main,
}
