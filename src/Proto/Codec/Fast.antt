-- ===== src/Proto/Codec/Fast.antt =====
-- crates/ahp-proto/src/codec.rs: the functions of the hot path, which work on borrowed slices.
pub mod Write
pub mod Inline
use favonius.Base.{
  ℕ, ◌+◌, ◌-◌, ◌%◌, ◌^◌, Bool, not, List, [], Option, none, some, ltb, ◌==◌, if◌then◌else◌, length,
  slice, index, copy_at, fail_if,
}
use favonius.Base.{Outcome, ok, err, panic, ◌>>=◌, ◌>>◌}
use favonius.Bytes.Endian.{to_be_bytes, from_be_bytes}
use favonius.Bytes.Buf.{ByteBuf, Crc32c, BitFlags}
use favonius.Proto.Errors.{ProtoError, buffer_too_short, payload_overflow}
use favonius.Proto.PacketType.{PacketType, data_packet, ack_bitmap}
use favonius.Proto.Flags.{ack_eliciting, empty}
use favonius.Proto.Header.{PacketHeader, header_size, protocol_version}
use favonius.Proto.Header.Encode.{encode_into}
use favonius.Proto.Header.Decode.{decode_unchecked}
use favonius.Proto.Data.{data_payload_header_size, ack_bitmap_header_size}
use favonius.Proto.Codec.{Packet, run, on_part}

-- The header that `encode_data_packet_into` writes.
abbrev pub data_header : ℕ → ℕ → ℕ → ℕ → ℕ → PacketHeader
data_header conn_id packet_number timestamp stream_id payload_len = record {
  version = protocol_version;
  packet_type = data_packet;
  flags = ack_eliciting;
  header_length = header_size;
  connection_id = conn_id;
  stream_id = stream_id;
  packet_number = packet_number;
  timestamp = timestamp;
  payload_length = payload_len % 2 ^ 32;
  header_crc = 0;
}

-- The header of the other two encoders: no flags, and stream 0.
abbrev pub plain_header : PacketType → ℕ → ℕ → ℕ → ℕ → PacketHeader
plain_header ptype conn_id seq now payload_len = record {
  version = protocol_version;
  packet_type = ptype;
  flags = empty;
  header_length = header_size;
  connection_id = conn_id;
  stream_id = 0;
  packet_number = seq;
  timestamp = now;
  payload_length = payload_len;
  header_crc = 0;
}

module _ ⦃crc : Crc32c⦄ where
  -- `hdr.encode_into(&mut dst[..HEADER_SIZE])`
  abbrev pub header_into : {E : Type 0} → PacketHeader → List ℕ → Outcome E (List ℕ)
  header_into h dst = on_part dst 0 header_size λ part. do (part', n) ← encode_into h part; ok part'

  unfoldable pub encode_data_packet_into :
      {E : Type 0} → List ℕ → ℕ → ℕ → ℕ → ℕ → ℕ → ℕ → ℕ → List ℕ → Outcome E (List ℕ × ℕ)
  encode_data_packet_into dst conn_id packet_number timestamp stream_id file_id chunk_index
        chunk_offset content =
      let payload_len = data_payload_header_size + length content in
      let total = header_size + payload_len in
      do
        dst ← header_into (data_header conn_id packet_number timestamp stream_id payload_len) dst
        dst ← on_part dst header_size (length dst) λ dp. do
          dp ← copy_at dp 0 (to_be_bytes 8 file_id)
          dp ← copy_at dp 8 (to_be_bytes 8 chunk_index)
          dp ← copy_at dp 16 (to_be_bytes 4 chunk_offset)
          dp ← copy_at dp 20 (to_be_bytes 2 (length content % 2 ^ 16))
          copy_at dp 22 content
        ok (dst, total)

  unfoldable pub encode_ack_bitmap_into :
      {E : Type 0} → ℕ → List ℕ → ℕ → ℕ → ℕ → ℕ → ℕ → List ℕ → Outcome E (List ℕ × ℕ)
  encode_ack_bitmap_into now dst conn_id seq stream_id base highest_contiguous bitmap =
      let payload_len = ack_bitmap_header_size + length bitmap in
      let total = header_size + payload_len in
      do
        dst ← header_into (plain_header ack_bitmap conn_id seq now (payload_len % 2 ^ 32)) dst
        dst ← on_part dst header_size (length dst) λ p. do
          p ← copy_at p 0 (to_be_bytes 4 stream_id)
          p ← copy_at p 4 (to_be_bytes 8 base)
          p ← copy_at p 12 (to_be_bytes 8 highest_contiguous)
          p ← copy_at p 20 (to_be_bytes 4 0)
          p ← copy_at p 24 (to_be_bytes 2 (length bitmap % 2 ^ 16))
          copy_at p 26 bitmap
        ok (dst, total)

  unfoldable pub encode_ctrl_packet_with_payload_into :
      {E : Type 0} → ℕ → List ℕ → PacketType → ℕ → ℕ → ℕ → Outcome E (List ℕ × ℕ)
  encode_ctrl_packet_with_payload_into now dst ptype conn_id seq payload_len = do
    dst ← header_into (plain_header ptype conn_id seq now payload_len) dst
    ok (dst, header_size)

  unfoldable pub encode_ctrl_packet_into :
      {E : Type 0} → ℕ → List ℕ → PacketType → ℕ → ℕ → Outcome E (List ℕ × ℕ)
  unfolding encode_ctrl_packet_with_payload_into
  encode_ctrl_packet_into now dst ptype conn_id seq =
      encode_ctrl_packet_with_payload_into now dst ptype conn_id seq 0

-- Extensions are skipped, not parsed.
unfoldable pub decode_packet_unchecked :
    ⦃buf : ByteBuf⦄ → ⦃bf : BitFlags⦄ → List ℕ → Outcome ProtoError Packet
decode_packet_unchecked ⦃buf⦄ ⦃bf⦄ bytes = do
  (header, cursor) ← run decode_unchecked bytes
  let header_len = header.header_length
  let ext_region_size = header_len - header_size
  fail_if (ltb (length cursor) ext_region_size)
      (buffer_too_short header_len (header_size + length cursor))
  cursor ← slice cursor ext_region_size (length cursor)
  let payload_len = header.payload_length
  fail_if (ltb (length cursor) payload_len) (payload_overflow payload_len (length cursor))
  payload ← slice cursor 0 payload_len
  ok (record { header = header; extensions = []; payload = payload })

pub record DataPayloadRef : Type 0 where
  pub stream_id : ℕ
  pub chunk_index : ℕ
  pub content : List ℕ

-- `uN::from_be_bytes([s[at], s[at + 1], ...])`
abbrev pub number_at : {E : Type 0} → List ℕ → ℕ → ℕ → Outcome E ℕ
number_at s at w = do bytes ← slice s at (at + w); ok (from_be_bytes bytes)

unfoldable pub decode_data_inline : {E : Type 0} → List ℕ → Outcome E (Option DataPayloadRef)
decode_data_inline buf =
    if ltb (length buf) (header_size + data_payload_header_size) then ok none else do
      ptype ← index buf 1
      if not (ptype == 0x20) then ok none else do
        stream_id ← number_at buf 14 4
        dp ← slice buf header_size (length buf)
        chunk_index ← number_at dp 8 8
        data_len ← number_at dp 20 2
        let data_start = header_size + data_payload_header_size
        let data_end = data_start + data_len
        if ltb (length buf) data_end then ok none else do
          content ← slice buf data_start data_end
          ok (some (record { stream_id = stream_id; chunk_index = chunk_index; content = content }))
