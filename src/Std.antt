-- ===== src/Std.antt =====
-- What the program calls of Go's standard library and is plain computation on bytes.
pub mod Utf8
pub mod BigEndian
pub mod Base32
pub mod Base64
pub mod Strings
