-- ===== src/Daemon.antt =====
-- The crate crates/ahp-daemon: the receiving side.
pub mod Streams
pub mod PeerAuth
pub mod Paths
pub mod Manifest
