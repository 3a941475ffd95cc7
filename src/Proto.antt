-- ===== src/Proto.antt =====
-- The crate crates/ahp-proto: packet framing, types, TLV encoding, payloads and handshakes.
pub mod Errors
pub mod Codes
pub mod PacketType
pub mod Flags
pub mod Header
pub mod Tlv
pub mod Extensions
pub mod Data
pub mod Codec
pub mod ErrorCode
pub mod ZeroRuns
pub mod Hello
pub mod Fallback
