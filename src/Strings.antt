-- ===== src/Strings.antt =====
-- The functions of Go's `strings` package that the program calls, on bytes. White space is the
-- ASCII one: command output is ASCII apart from the literals that the program compares with.
mod Defs
mod Laws
mod Trim
unfoldable pub use Defs.*
unfoldable pub use Laws.*
pub use Trim.*
