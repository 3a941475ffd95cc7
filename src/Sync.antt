-- ===== src/Sync.antt =====
-- The crate crates/ahp-sync: hierarchical integrity verification.
pub mod Merkle
