-- ===== src/Examples/Payloads.antt =====
-- Records, extensions and the payloads of DATA, ACK_BITMAP and NACK_RANGE packets, run.
use favonius.Base.{ℕ, ◌+◌, ◌≡◌, ◌↔◌, refl, List, [], ◌∷◌, some, arith, false}
use favonius.Base.{ok, err}
use favonius.Bytes.Plain.{plain_buf, mask_flags}
use favonius.Bytes.Endian.{to_be_bytes}
use favonius.Proto.Errors.{invalid_tlv, tlv_header_short}
use favonius.Proto.PacketType.{
  PacketType, try_from, to_u8, is_control, is_data, is_sync, is_relay, count, one_family,
  try_from_iff,
}
use favonius.Proto.ErrorCode.{ErrorCode, as_u16, error_code_try_from, error_code_try_from_iff}
use favonius.Proto.Flags.{from_bits_truncate, has_reserved_bits, has_reserved_bits-truncate}
use favonius.Proto.Tlv.{Tlv, encode, encode_tlvs, decode_tlvs, next}
use favonius.Proto.Tlv.Laws.{decode_tlvs-encode_tlvs, after_calls, next_never_ends}
use favonius.Proto.Extensions
use favonius.Proto.Extensions.{Extension, encode_extensions, decode_extensions}
use favonius.Proto.Extensions.Laws.{decode_extensions-encode_extensions}
use favonius.Proto.Data.{DataPayload, AckBitmap, NackRange}

abbrev records : List Tlv
records =
    record { tlv_type = 0x0001; value = 0xAA ∷ 0xBB ∷ [] }
    ∷ record { tlv_type = 0x8002; value = [] }
    ∷ []

abbrev record_bytes : List ℕ
record_bytes = 0x00 ∷ 0x01 ∷ 0x00 ∷ 0x02 ∷ 0xAA ∷ 0xBB ∷ 0x80 ∷ 0x02 ∷ 0x00 ∷ 0x00 ∷ []

records_written : encode_tlvs records ≡ record_bytes
unfolding encode_tlvs encode to_be_bytes
records_written = refl

records_read : decode_tlvs record_bytes ≡ some (ok records)
records_read = rw (← records_written) (decode_tlvs-encode_tlvs records (omega arith))

next_never_ends_example :
    (next (after_calls 1000 (0x00 ∷ 0x01 ∷ []))).0 ≡ some (err (invalid_tlv (tlv_header_short 2)))
next_never_ends_example = next_never_ends 1000 (0x00 ∷ 0x01 ∷ []) (omega arith) (omega arith)

abbrev extensions : List Extension
extensions =
    record { ext_type = 0x0001; value = 0xAA ∷ 0xBB ∷ [] }
    ∷ record { ext_type = 0x8002; value = [] }
    ∷ []

extensions_written : encode_extensions extensions ≡ record_bytes
unfolding encode_extensions Extensions.encode to_be_bytes
extensions_written = refl

extensions_read : decode_extensions record_bytes ≡ some (ok extensions)
extensions_read =
    rw (← extensions_written) (decode_extensions-encode_extensions extensions (omega arith))

abbrev chunk : DataPayload
chunk = record { file_id = 1; chunk_index = 2; chunk_offset = 0; content = 0x61 ∷ 0x62 ∷ 0x63 ∷ [] }

-- A DATA payload of three bytes, and one that is cut off.
abbrev chunk_bytes : List ℕ
chunk_bytes =
    0 ∷ 0 ∷ 0 ∷ 0 ∷ 0 ∷ 0 ∷ 0 ∷ 1 ∷ 0 ∷ 0 ∷ 0 ∷ 0 ∷ 0 ∷ 0 ∷ 0 ∷ 2 ∷ 0 ∷ 0 ∷ 0 ∷ 0 ∷ 0 ∷ 3 ∷ 0x61
    ∷ 0x62 ∷ 0x63 ∷ []

abbrev ack : AckBitmap
ack = record {
  stream_id = 7;
  base_packet_number = 100;
  highest_contiguous = 130;
  ack_delay_micros = 25;
  bitmap = 0xF0 ∷ [];
}

abbrev ack_bytes : List ℕ
ack_bytes =
    0 ∷ 0 ∷ 0 ∷ 7 ∷ 0 ∷ 0 ∷ 0 ∷ 0 ∷ 0 ∷ 0 ∷ 0 ∷ 100 ∷ 0 ∷ 0 ∷ 0 ∷ 0 ∷ 0 ∷ 0 ∷ 0 ∷ 130 ∷ 0 ∷ 0 ∷ 0
    ∷ 25 ∷ 0 ∷ 1 ∷ 0xF0 ∷ []

abbrev nack : NackRange
nack = record { stream_id = 7; ranges = (3, 5) ∷ (9, 9) ∷ [] }

abbrev nack_bytes : List ℕ
nack_bytes =
    0 ∷ 0 ∷ 0 ∷ 7 ∷ 0 ∷ 1 ∷ 0 ∷ 0 ∷ 0 ∷ 0 ∷ 0 ∷ 0 ∷ 0 ∷ 3 ∷ 0 ∷ 0 ∷ 0 ∷ 0 ∷ 0 ∷ 0 ∷ 0 ∷ 5 ∷ []

try_from_iff_data :
    (try_from 0x20 ≡ ok PacketType.data_packet) ↔ (to_u8 PacketType.data_packet ≡ 0x20)
try_from_iff_data = try_from_iff 0x20 PacketType.data_packet

one_family_finish :
    count (is_control PacketType.finish)
      + count (is_data PacketType.finish)
      + count (is_sync PacketType.finish)
      + count (is_relay PacketType.finish)
    ≡ 1
one_family_finish = one_family PacketType.finish

error_code_try_from_iff_conflict :
    (error_code_try_from 0x0C ≡ ok ErrorCode.conflict) ↔ (as_u16 ErrorCode.conflict ≡ 0x0C)
error_code_try_from_iff_conflict = error_code_try_from_iff 0x0C ErrorCode.conflict

has_reserved_bits-truncate_low_bit : has_reserved_bits (from_bits_truncate 0xFC01) ≡ false
has_reserved_bits-truncate_low_bit = has_reserved_bits-truncate 0xFC01 (omega arith)
