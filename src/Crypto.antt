-- ===== src/Crypto.antt =====
-- crates/lr-crypto: nonces, ciphers and the metadata page codec.
pub mod Nonce
pub mod Mac
pub mod Page
pub mod Aead
