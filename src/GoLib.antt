-- ===== src/GoLib.antt =====
-- What the code uses of Go's standard library: splitting strings, slash paths, hexadecimal.
pub mod Split
pub mod Path
pub mod Hex
pub mod Base64
pub mod Index
pub mod Text
