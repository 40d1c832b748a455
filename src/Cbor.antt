-- ===== src/Cbor.antt =====
-- internal/planproto/limits.go: the bounded scan of an untrusted CBOR frame before it is decoded.
pub mod Limits
pub mod Reads
pub mod Utf8
pub mod Ensures
pub mod Argument
pub mod Scan
mod Tests
