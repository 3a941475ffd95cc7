-- ===== src/Crypto.antt =====
-- The crate crates/ahp-crypto. The primitives of the crates that it calls (Ed25519, AES-GCM, SHA-256)
-- are interfaces.
pub mod Signing
pub mod Grant
pub mod Signatures
pub mod Nonce
pub mod Aead
pub mod Tickets
pub mod Keys
pub mod HeaderProtection
