-- ===== src/Examples.antt =====
-- The theorems at concrete inputs, and runs of the definitions. The crates that the sources call
-- are those of Bytes/Plain.antt.
pub mod Packets
pub mod Payloads
pub mod Handshake
pub mod Runs
pub mod Trees
pub mod Plans
pub mod Transfers
pub mod Grants
pub mod Security
