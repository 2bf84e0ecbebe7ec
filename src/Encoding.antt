-- ===== src/Encoding.antt =====
-- The parts of Go's standard library that the services encode with: encoding/hex, encoding/base64,
-- the %d verb of fmt and strings.Split.
pub mod Base64
pub mod Decimal
pub mod Hex
pub mod Integer
pub mod Split
pub mod Query
