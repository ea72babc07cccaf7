-- ===== src/Text.antt =====
-- What the program uses of Go's `strings`, `strconv`, `path` and `fmt`, over byte strings.
pub mod Search
pub mod Trim
pub mod Split
pub mod Decimal
pub mod Replace
pub mod FilePath
