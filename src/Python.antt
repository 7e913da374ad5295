-- ===== src/Python.antt =====
-- What the bridge uses of Python itself: text, numbers, json values, exceptions.
-- The tables and float operations of the interpreter are the parameter `Runtime`.
mod Values
mod Interpreter
mod Errors
mod Strings
mod Numbers
pub mod TextLaws
pub mod LineLaws
pub mod Printed
pub use Values.*
pub use Interpreter.*
pub use Errors.*
pub use Strings.*
pub use Numbers.*
unfoldable pub use Values.{get, pop, keys}
unfoldable pub use Strings.{
  is_space, strip, upper, split, lines_from, splitlines, text_ltb, insert_text, sorted_texts, join,
  digits_onto, show_ℕ, show_ℤ,
}
unfoldable pub use Numbers.{
  digit, digits, parse_int, num_lt, round_num, times, over, as_num, truthy,
}
