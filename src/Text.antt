-- ===== src/Text.antt =====
-- Texts and the string functions of src/DebugAdapterProtocol/StringUtils.cpp.
mod Defs
pub mod Find
pub mod Decimal
pub mod Argv
pub mod Slashes
unfoldable pub use Defs.{
  Text, codes, is_space, is_digit, text_eq, find_char, begins_with, starts_loop, starts_with, find,
  before_first, after_first, before_at, after_at,
}
