-- ===== src/Proto/Data.antt =====
-- crates/ahp-proto/src/data.rs: the payloads of DATA, ACK_BITMAP and NACK_RANGE packets.
pub mod Payload
pub mod Ack
pub mod Nack
use mathlib.Core.List.{foldl}
use favonius.Base.{ℕ, zero, suc, ◌+◌, ◌*◌, ◌%◌, ◌^◌, List, [], ◌∷◌, ◌++◌, ltb, length}
use favonius.Bytes.Buf.{ByteBuf, w16, w32, w64}
use favonius.Bytes.Cursor.{Read, pure, ◌>>=◌, ◌>>◌, fail_when, remaining, front, get, skip}
use favonius.Proto.Errors.{
  ProtoError, buffer_too_short, invalid_data_payload, data_short, ack_bitmap_short,
  nack_range_short,
}

pub record DataPayload : Type 0 where
  pub file_id : ℕ
  pub chunk_index : ℕ
  pub chunk_offset : ℕ
  pub content : List ℕ

abbrev pub data_payload_header_size : ℕ
data_payload_header_size = 22

pub record AckBitmap : Type 0 where
  pub stream_id : ℕ
  pub base_packet_number : ℕ
  pub highest_contiguous : ℕ
  pub ack_delay_micros : ℕ
  pub bitmap : List ℕ

abbrev pub ack_bitmap_header_size : ℕ
ack_bitmap_header_size = 26

pub record NackRange : Type 0 where
  pub stream_id : ℕ
  pub ranges : List (ℕ × ℕ)

abbrev pub nack_range_header_size : ℕ
nack_range_header_size = 6

abbrev pub nack_range_entry_size : ℕ
nack_range_entry_size = 16

unfoldable pub data_wire_size : DataPayload → ℕ
data_wire_size p = data_payload_header_size + length p.content

unfoldable pub ack_wire_size : AckBitmap → ℕ
ack_wire_size p = ack_bitmap_header_size + length p.bitmap

unfoldable pub nack_wire_size : NackRange → ℕ
nack_wire_size p = nack_range_header_size + length p.ranges * nack_range_entry_size

module _ ⦃buf : ByteBuf⦄ where
  unfoldable pub encode_data : DataPayload → List ℕ → List ℕ
  encode_data p dst =
      let dst = buf.put_uint w64 dst p.file_id in
      let dst = buf.put_uint w64 dst p.chunk_index in
      let dst = buf.put_uint w32 dst p.chunk_offset in
      let dst = buf.put_uint w16 dst (length p.content % 2 ^ 16) in buf.put_slice dst p.content

  unfoldable pub decode_data : Read ProtoError DataPayload
  decode_data = do
    have ← remaining
    fail_when (ltb have data_payload_header_size) (buffer_too_short data_payload_header_size have)
    file_id ← get w64
    chunk_index ← get w64
    chunk_offset ← get w32
    data_len ← get w16
    left ← remaining
    fail_when (ltb left data_len) (invalid_data_payload (data_short data_len left))
    content ← front data_len
    skip data_len
    pure (record {
      file_id = file_id;
      chunk_index = chunk_index;
      chunk_offset = chunk_offset;
      content = content;
    })

  unfoldable pub encode_ack : AckBitmap → List ℕ → List ℕ
  encode_ack p dst =
      let dst = buf.put_uint w32 dst p.stream_id in
      let dst = buf.put_uint w64 dst p.base_packet_number in
      let dst = buf.put_uint w64 dst p.highest_contiguous in
      let dst = buf.put_uint w32 dst p.ack_delay_micros in
      let dst = buf.put_uint w16 dst (length p.bitmap % 2 ^ 16) in buf.put_slice dst p.bitmap

  unfoldable pub decode_ack : Read ProtoError AckBitmap
  decode_ack = do
    have ← remaining
    fail_when (ltb have ack_bitmap_header_size) (buffer_too_short ack_bitmap_header_size have)
    stream_id ← get w32
    base_packet_number ← get w64
    highest_contiguous ← get w64
    ack_delay_micros ← get w32
    bitmap_len ← get w16
    left ← remaining
    fail_when (ltb left bitmap_len) (invalid_data_payload (ack_bitmap_short bitmap_len left))
    bitmap ← front bitmap_len
    skip bitmap_len
    pure (record {
      stream_id = stream_id;
      base_packet_number = base_packet_number;
      highest_contiguous = highest_contiguous;
      ack_delay_micros = ack_delay_micros;
      bitmap = bitmap;
    })

  -- One round of the loop of `encode`.
  abbrev pub put_range : List ℕ → ℕ × ℕ → List ℕ
  put_range dst (start, end) = buf.put_uint w64 (buf.put_uint w64 dst start) end

  unfoldable pub encode_nack : NackRange → List ℕ → List ℕ
  encode_nack p dst =
      let dst = buf.put_uint w32 dst p.stream_id in
      let dst = buf.put_uint w16 dst (length p.ranges % 2 ^ 16) in foldl put_range dst p.ranges

  -- `for _ in 0..range_count`
  unfoldable pub get_ranges : ℕ → List (ℕ × ℕ) → Read ProtoError (List (ℕ × ℕ))
  get_ranges zero ranges = pure ranges
  get_ranges (suc n) ranges = do
    start ← get w64
    end ← get w64
    get_ranges n (ranges ++ ((start, end) ∷ []))

  unfoldable pub decode_nack : Read ProtoError NackRange
  unfolding get_ranges
  decode_nack = do
    have ← remaining
    fail_when (ltb have nack_range_header_size) (buffer_too_short nack_range_header_size have)
    stream_id ← get w32
    range_count ← get w16
    let needed = range_count * nack_range_entry_size
    left ← remaining
    fail_when (ltb left needed) (invalid_data_payload (nack_range_short range_count needed left))
    ranges ← get_ranges range_count []
    pure (record { stream_id = stream_id; ranges = ranges })
