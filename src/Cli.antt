-- ===== src/Cli.antt =====
-- The crate crates/ahp-cli: the command line of the sender.
pub mod SyncPlan
pub mod Streams
pub mod Retransmit
