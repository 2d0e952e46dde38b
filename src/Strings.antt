-- ===== src/Strings.antt =====
-- The parts of Go's `strings`, `path`, `path/filepath` and `strconv` that the operator calls.
-- Texts are ASCII: `strings.ToLower` and `ToUpper` map the letters A to Z and a to z, and a byte is a
-- character.
pub mod Order
pub mod Case
pub mod Prefix
pub mod Split
pub mod FilePath
pub mod Quote
