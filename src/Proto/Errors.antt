-- ===== src/Proto/Errors.antt =====
-- crates/ahp-proto/src/error.rs, `ProtoError`. Where the source formats a message, the value here
-- is what the message prints.
use favonius.Base.{ℕ}

pub data Detail : Type 0 where
  unknown_tlv_type : ℕ → Detail
  tlv_header_short : ℕ → Detail
  tlv_value_short : ℕ → ℕ → ℕ → Detail
  unknown_extension_type : ℕ → Detail
  extension_header_short : ℕ → Detail
  extension_value_short : ℕ → ℕ → ℕ → Detail
  data_short : ℕ → ℕ → Detail
  ack_bitmap_short : ℕ → ℕ → Detail
  nack_range_short : ℕ → ℕ → ℕ → Detail

pub data ProtoError : Type 0 where
  buffer_too_short : ℕ → ℕ → ProtoError
  invalid_packet_type : ℕ → ProtoError
  crc_mismatch : ℕ → ℕ → ProtoError
  invalid_tlv : Detail → ProtoError
  unsupported_version : ℕ → ProtoError
  invalid_header_length : ℕ → ℕ → ProtoError
  payload_overflow : ℕ → ℕ → ProtoError
  invalid_extension : Detail → ProtoError
  unknown_error_code : ℕ → ProtoError
  invalid_data_payload : Detail → ProtoError
