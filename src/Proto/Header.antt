-- ===== src/Proto/Header.antt =====
-- crates/ahp-proto/src/header.rs: the 42-byte common header, and the bytes that it stands for.
pub mod Encode
pub mod Decode
pub mod RoundTrip
pub mod Sound
use favonius.Base.{ℕ, ◌^◌, ◌≤◌, ◌<◌, List, ◌++◌}
use favonius.Bytes.Endian.{to_be_bytes}
use favonius.Bytes.Buf.{Crc32c}
use favonius.Proto.PacketType.{PacketType, to_u8}
use favonius.Proto.Flags.{PacketFlags}

abbrev pub header_size : ℕ
header_size = 42

abbrev pub protocol_version : ℕ
protocol_version = 1

pub record PacketHeader : Type 0 where
  pub version : ℕ
  pub packet_type : PacketType
  pub flags : PacketFlags
  pub header_length : ℕ
  pub connection_id : ℕ
  pub stream_id : ℕ
  pub packet_number : ℕ
  pub timestamp : ℕ
  pub payload_length : ℕ
  pub header_crc : ℕ

-- The ranges that the types u8, u16, u32 and u64 of the fields give.
pub record FitsTypes (h : PacketHeader) : Type 0 where
  pub version_u8 : h.version < 256 ^ 1
  pub flags_u16 : h.flags.bits < 256 ^ 2
  pub header_length_u16 : h.header_length < 256 ^ 2
  pub connection_id_u64 : h.connection_id < 256 ^ 8
  pub stream_id_u32 : h.stream_id < 256 ^ 4
  pub packet_number_u64 : h.packet_number < 256 ^ 8
  pub timestamp_u64 : h.timestamp < 256 ^ 8
  pub payload_length_u32 : h.payload_length < 256 ^ 4

-- The table of the module's documentation: the 38 bytes that the checksum covers.
abbrev pub body : PacketHeader → List ℕ
body h =
    to_be_bytes 1 h.version
    ++ (to_be_bytes 1 (to_u8 h.packet_type)
        ++ (to_be_bytes 2 h.flags.bits
            ++ (to_be_bytes 2 h.header_length
                ++ (to_be_bytes 8 h.connection_id
                    ++ (to_be_bytes 4 h.stream_id
                        ++ (to_be_bytes 8 h.packet_number
                            ++ (to_be_bytes 8 h.timestamp ++ to_be_bytes 4 h.payload_length)))))))

-- All 42 bytes on the wire.
abbrev pub wire : ⦃crc : Crc32c⦄ → PacketHeader → List ℕ
wire ⦃crc⦄ h = body h ++ to_be_bytes 4 (crc.crc32c (body h))
