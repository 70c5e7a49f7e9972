-- ===== src/Crypto.antt =====
-- The three kinds of keys that the repository wraps: src/bad_crypto.rs, src/ed25519.rs and
-- src/blsttc.rs, of which src/lib.rs selects one.
pub mod Text
pub mod BadCrypto
pub mod Ed25519
pub mod Blsttc
pub mod Schemes
