-- ===== src/Strings.antt =====
-- uct_string.c: text as lists of bytes.
pub mod Number
pub mod Bytes
pub mod Base64
pub mod Uri
pub mod Markup
pub mod Utf8
pub mod Compare
pub mod Search
