-- ===== src/Dict.antt =====
-- Python's `dict` with string keys, and the laws of its operations.
mod Defs
mod Values
unfoldable pub use Defs.{lookup, insert, remove}
pub use Defs.*
pub use Values.*
