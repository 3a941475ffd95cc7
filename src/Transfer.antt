-- ===== src/Transfer.antt =====
-- Both sides of a transfer together: the acknowledgements that the daemon
-- (crates/ahp-daemon/src/net_receiver.rs) builds of a stream, and what the sender
-- (crates/ahp-cli/src/net_sender.rs) makes of them, late, repeated, reordered or lost.
pub mod Reports
pub mod Link
pub mod Safety
pub mod Build
