-- ===== src/Proto/Codec/Fast/Write.antt =====
-- The encoders of the hot path beside the general encoders (crates/ahp-proto/src/codec.rs).
use native.Mathlib.Nat.{mod-eq_of_lt}
use favonius.Base.{
  ℕ, ◌+◌, ◌%◌, ◌^◌, ◌<◌, ◌≤◌, ◌≡◌, refl, ◌∙◌, List, [], ◌++◌, length, take, drop, copy_at,
  slice_front, copy_at-next, length-take, length-drop, append_assoc, append-nil, drop-all,
  drop-drop, slice_back, take-append, arith,
}
use favonius.Base.{Outcome, ok, ◌>>=◌}
use favonius.Bytes.Endian.{to_be_bytes, lens}
use favonius.Bytes.Buf.{ByteBuf, Crc32c}
use favonius.Proto.PacketType.{PacketType, ack_bitmap}
use favonius.Proto.Header.{PacketHeader, wire}
use favonius.Proto.Header.Encode.{encode_into_lem, length-wire, store}
use favonius.Proto.Data
use favonius.Proto.Data.{DataPayload, AckBitmap, encode_data, encode_ack}
use favonius.Proto.Codec.{on_part, encode_packet}
use favonius.Proto.Codec.Encode.{encode_packet_lem}
use favonius.Proto.Codec.Fast.{
  header_into, data_header, plain_header, encode_data_packet_into, encode_ack_bitmap_into,
  encode_ctrl_packet_with_payload_into,
}

-- The acknowledgement that `encode_ack_bitmap_into` writes.
abbrev pub immediate_ack : ℕ → ℕ → ℕ → List ℕ → AckBitmap
immediate_ack stream base highest bitmap = record {
  stream_id = stream;
  base_packet_number = base;
  highest_contiguous = highest;
  ack_delay_micros = 0;
  bitmap = bitmap;
}

module _ ⦃crc : Crc32c⦄ where
  header_into_lem :
      {E : Type 0} (h : PacketHeader) (dst : List ℕ)
      → h.version < 256
      → 42 ≤ length dst
      → header_into {E = E} h dst ≡ ok (wire h ++ drop 42 dst)
  header_into_lem {E = E} h dst v fits = rw (
    slice_front {E = E} dst 42 fits,
    encode_into_lem {E = E} h (take 42 dst) v (omega (arith, length-take 42 dst)),
    drop-all (take 42 dst) 42 (omega (arith, length-take 42 dst)),
    append-nil,
  )

  -- A payload written behind a header of 42 bytes.
  part_lem :
      {E : Type 0} (front old new : List ℕ) (write : List ℕ → Outcome E (List ℕ))
      → length front ≡ 42
      → write old ≡ ok new
      → on_part (front ++ old) 42 (length (front ++ old)) write ≡ ok (front ++ new)
  part_lem {E = E} front old new write e w = rw (
    slice_back {E = E} front old 42 e,
    w,
    take-append front old 42 e,
    drop-all (front ++ old) (length (front ++ old)) (omega arith),
    append-nil,
  )

  data_bytes :
      {E : Type 0} (file_id chunk_index chunk_offset : ℕ) (content dp : List ℕ)
      → length content < 2 ^ 16
      → 22 + length content ≤ length dp
      → (do
        dp ← copy_at dp 0 (to_be_bytes 8 file_id)
        dp ← copy_at dp 8 (to_be_bytes 8 chunk_index)
        dp ← copy_at dp 16 (to_be_bytes 4 chunk_offset)
        dp ← copy_at dp 20 (to_be_bytes 2 (length content % 2 ^ 16))
        copy_at {E = E} dp 22 content)
        ≡ ok (
            Data.Payload.wire (record {
              file_id = file_id;
              chunk_index = chunk_index;
              chunk_offset = chunk_offset;
              content = content;
            })
            ++ drop (22 + length content) dp)
  data_bytes f c o content dp short fits =
      let p1 : List ℕ = to_be_bytes 8 f in
      let p2 : List ℕ = p1 ++ to_be_bytes 8 c in
      let p3 : List ℕ = p2 ++ to_be_bytes 4 o in
      let p4 : List ℕ = p3 ++ to_be_bytes 2 (length content) in
      rw
        (
          mod-eq_of_lt short,
          store [] dp 8 f 0 8 refl refl (omega arith),
          store p1 dp 8 c 8 16 (omega lens) refl (omega arith),
          store p2 dp 4 o 16 20 (omega lens) refl (omega arith),
          store p3 dp 2 (length content) 20 22 (omega lens) refl (omega arith),
          copy_at-next p4 dp content 22 (22 + length content) (omega lens) refl fits,
        )
        (simp append_assoc)

  ack_bytes :
      {E : Type 0} (stream_id base highest : ℕ) (bitmap p : List ℕ)
      → length bitmap < 2 ^ 16
      → 26 + length bitmap ≤ length p
      → (do
        p ← copy_at p 0 (to_be_bytes 4 stream_id)
        p ← copy_at p 4 (to_be_bytes 8 base)
        p ← copy_at p 12 (to_be_bytes 8 highest)
        p ← copy_at p 20 (to_be_bytes 4 0)
        p ← copy_at p 24 (to_be_bytes 2 (length bitmap % 2 ^ 16))
        copy_at {E = E} p 26 bitmap)
        ≡ ok (
            Data.Ack.wire (record {
              stream_id = stream_id;
              base_packet_number = base;
              highest_contiguous = highest;
              ack_delay_micros = 0;
              bitmap = bitmap;
            })
            ++ drop (26 + length bitmap) p)
  ack_bytes s b h bitmap p short fits =
      let p1 : List ℕ = to_be_bytes 4 s in
      let p2 : List ℕ = p1 ++ to_be_bytes 8 b in
      let p3 : List ℕ = p2 ++ to_be_bytes 8 h in
      let p4 : List ℕ = p3 ++ to_be_bytes 4 0 in
      let p5 : List ℕ = p4 ++ to_be_bytes 2 (length bitmap) in
      rw
        (
          mod-eq_of_lt short,
          store [] p 4 s 0 4 refl refl (omega arith),
          store p1 p 8 b 4 12 (omega lens) refl (omega arith),
          store p2 p 8 h 12 20 (omega lens) refl (omega arith),
          store p3 p 4 0 20 24 (omega lens) refl (omega arith),
          store p4 p 2 (length bitmap) 24 26 (omega lens) refl (omega arith),
          copy_at-next p5 p bitmap 26 (26 + length bitmap) (omega lens) refl fits,
        )
        (simp append_assoc)

  pub encode_data_packet_into_lem :
      {E : Type 0} (dst : List ℕ) (conn number stamp stream : ℕ) (p : DataPayload)
      → length p.content < 2 ^ 16
      → 64 + length p.content ≤ length dst
      → encode_data_packet_into {E = E} dst conn number stamp stream p.file_id p.chunk_index
          p.chunk_offset p.content
        ≡ ok (
          wire (data_header conn number stamp stream (22 + length p.content))
              ++ (Data.Payload.wire p ++ drop (64 + length p.content) dst),
          64 + length p.content,
        )
  unfolding encode_data_packet_into
  encode_data_packet_into_lem {E = E} dst conn number stamp stream p short fits =
      let h : PacketHeader = data_header conn number stamp stream (22 + length p.content) in
      let total : 42 + (22 + length p.content) ≡ 64 + length p.content = omega arith in
      rw (
        header_into_lem {E = E} h dst (omega arith) (omega arith),
        part_lem {E = E} (wire h) (drop 42 dst) _ _ (length-wire h) (
            data_bytes p.file_id p.chunk_index p.chunk_offset p.content (drop 42 dst) short
              (omega (arith, length-drop 42 dst))),
        drop-drop 42 (22 + length p.content) (64 + length p.content) dst (omega arith),
        total,
      )

  encode_ack_bitmap_into_lem :
      {E : Type 0} (now : ℕ) (dst : List ℕ) (conn seq stream base highest : ℕ) (bitmap : List ℕ)
      → length bitmap < 2 ^ 16
      → 68 + length bitmap ≤ length dst
      → encode_ack_bitmap_into {E = E} now dst conn seq stream base highest bitmap
        ≡ ok (
          wire (plain_header ack_bitmap conn seq now ((26 + length bitmap) % 2 ^ 32))
              ++ (Data.Ack.wire (immediate_ack stream base highest bitmap)
                  ++ drop (68 + length bitmap) dst),
          68 + length bitmap,
        )
  unfolding encode_ack_bitmap_into
  encode_ack_bitmap_into_lem {E = E} now dst conn seq stream base highest bitmap short fits =
      let h : PacketHeader = plain_header ack_bitmap conn seq now ((26 + length bitmap) % 2 ^ 32) in
      let total : 42 + (26 + length bitmap) ≡ 68 + length bitmap = omega arith in
      rw (
        header_into_lem {E = E} h dst (omega arith) (omega arith),
        part_lem {E = E} (wire h) (drop 42 dst) _ _ (length-wire h) (
            ack_bytes stream base highest bitmap (drop 42 dst) short
              (omega (arith, length-drop 42 dst))),
        drop-drop 42 (26 + length bitmap) (68 + length bitmap) dst (omega arith),
        total,
      )

  module _ ⦃buf : ByteBuf⦄ where
    -- `encode_data_packet_into` writes, over the front of a slice that is long enough, the bytes
    -- that `encode_packet` gives for the DATA packet with the payload that `DataPayload::encode`
    -- gives; it leaves the rest of the slice and returns the count of bytes written.
    pub encode_data_packet_into-encode_packet :
        {E : Type 0} (dst : List ℕ) (conn number stamp stream : ℕ) (p : DataPayload)
        → Data.Payload.Fits p
        → 64 + length p.content ≤ length dst
        → encode_data_packet_into {E = E} dst conn number stamp stream p.file_id p.chunk_index
            p.chunk_offset p.content
          ≡ (encode_packet (record {
            header = data_header conn number stamp stream (22 + length p.content);
            extensions = [];
            payload = encode_data p [];
          })
              >>= λ bytes. ok (bytes ++ drop (64 + length p.content) dst, 64 + length p.content))
    encode_data_packet_into-encode_packet {E = E} dst conn number stamp stream p h fits =
        encode_data_packet_into_lem dst conn number stamp stream p h.3 fits
        ∙ rw
            (
              encode_packet_lem {E = E}
                  (record {
                    header = data_header conn number stamp stream (22 + length p.content);
                    extensions = [];
                    payload = encode_data p [];
                  })
                  tt,
              Data.Payload.encode-wire p [] h,
            )
            (simp append_assoc)

    -- `encode_ack_bitmap_into` writes, over the front of a slice that is long enough, the bytes that
    -- `encode_packet` gives for the ACK_BITMAP packet with no delay and a bitmap that fits; it leaves
    -- the rest of the slice and returns the count of bytes written.
    pub encode_ack_bitmap_into-encode_packet :
        {E : Type 0} (now : ℕ) (dst : List ℕ) (conn seq stream base highest : ℕ) (bitmap : List ℕ)
        → Data.Ack.Fits (immediate_ack stream base highest bitmap)
        → 68 + length bitmap ≤ length dst
        → encode_ack_bitmap_into {E = E} now dst conn seq stream base highest bitmap ≡ (
            encode_packet (record {
              header = plain_header ack_bitmap conn seq now ((26 + length bitmap) % 2 ^ 32);
              extensions = [];
              payload = encode_ack (immediate_ack stream base highest bitmap) [];
            })
            >>= λ bytes. ok (bytes ++ drop (68 + length bitmap) dst, 68 + length bitmap))
    encode_ack_bitmap_into-encode_packet {E = E} now dst conn seq stream base highest bitmap h
          fits =
        encode_ack_bitmap_into_lem now dst conn seq stream base highest bitmap h.4 fits
        ∙ rw
            (
              encode_packet_lem {E = E}
                  (record {
                    header = plain_header ack_bitmap conn seq now ((26 + length bitmap) % 2 ^ 32);
                    extensions = [];
                    payload = encode_ack (immediate_ack stream base highest bitmap) [];
                  })
                  tt,
              Data.Ack.encode-wire (immediate_ack stream base highest bitmap) [] h,
            )
            (simp append_assoc)

    -- `encode_ctrl_packet_with_payload_into` writes, over the front of a slice of 42 bytes or more,
    -- the bytes that `encode_packet` gives for the control packet without its payload, and declares
    -- the length of the payload that the caller sends behind it.
    pub encode_ctrl_packet_with_payload_into-encode_packet :
        {E : Type 0} (now : ℕ) (dst : List ℕ) (ptype : PacketType) (conn seq payload_len : ℕ)
        → 42 ≤ length dst
        → encode_ctrl_packet_with_payload_into {E = E} now dst ptype conn seq payload_len ≡ (
            encode_packet (record {
              header = plain_header ptype conn seq now payload_len;
              extensions = [];
              payload = [];
            })
            >>= λ bytes. ok (bytes ++ drop 42 dst, 42))
    unfolding encode_ctrl_packet_with_payload_into
    encode_ctrl_packet_with_payload_into-encode_packet {E = E} now dst ptype conn seq payload_len
          fits =
        rw (
          header_into_lem {E = E} (plain_header ptype conn seq now payload_len) dst (omega arith)
              fits,
          encode_packet_lem {E = E}
              (record {
                header = plain_header ptype conn seq now payload_len;
                extensions = [];
                payload = [];
              })
              tt,
          append-nil,
        )
