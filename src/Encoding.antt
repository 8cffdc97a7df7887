-- ===== src/Encoding.antt =====
-- What the code uses of Go's encoding/base64, unicode/utf8 and strings packages.
pub mod Base64
pub mod Utf8
pub mod Split
pub mod Trim
pub mod Fields
