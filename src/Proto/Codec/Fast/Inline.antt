-- ===== src/Proto/Codec/Fast/Inline.antt =====
-- `decode_data_inline` after `encode_data_packet_into`, and beside `decode_packet_unchecked`.
use native.Mathlib.Nat.{mod-eq_of_lt}
use favonius.Base.{
  ℕ, ◌+◌, ◌^◌, ◌<◌, ◌≤◌, ◌≡◌, ◌≢◌, refl, sym, ap, ◌∙◌, false, List, ◌++◌, some, ◌==◌, le→ltb_false,
  length, drop, slice, index, slice_back, slice-middle, append_assoc, arith,
}
use favonius.Base.{ok, err, ◌>>=◌}
use favonius.Bytes.Buf.{ByteBuf, Crc32c, BitFlags}
use favonius.Bytes.Endian.{to_be_bytes, from_be_bytes-to_be_bytes, lens}
use favonius.Bytes.Cursor.{reads}
use favonius.Proto.Errors.{ProtoError, unsupported_version}
use favonius.Proto.PacketType.{data_packet, to_u8}
use favonius.Proto.Header.{PacketHeader, body, wire, protocol_version}
use favonius.Proto.Header.Encode.{length-body, length-wire}
use favonius.Proto.Header.Decode.{decode_unchecked}
use favonius.Proto.Data
use favonius.Proto.Data.{DataPayload}
use favonius.Proto.Codec.Fast.Write.{encode_data_packet_into_lem}
use favonius.Proto.Codec.Fast.{
  data_header, encode_data_packet_into, decode_packet_unchecked, decode_data_inline, number_at,
}

-- The fields that the function takes, where the buffer has them.
inline_of_fields :
    {E : Type 0} (buf dp content : List ℕ) (stream chunk n : ℕ)
    → index {E = E} buf 1 ≡ ok 0x20
    → number_at {E = E} buf 14 4 ≡ ok stream
    → slice {E = E} buf 42 (length buf) ≡ ok dp
    → number_at {E = E} dp 8 8 ≡ ok chunk
    → number_at {E = E} dp 20 2 ≡ ok n
    → 64 + n ≤ length buf
    → slice {E = E} buf 64 (64 + n) ≡ ok content
    → decode_data_inline {E = E} buf
      ≡ ok (some (record { stream_id = stream; chunk_index = chunk; content = content }))
unfolding decode_data_inline
inline_of_fields {E = E} buf dp content stream chunk n e0 e1 e2 e3 e4 fits e5 = rw (
  le→ltb_false (length buf) 64 (omega arith),
  e0,
  e1,
  e2,
  e3,
  e4,
  le→ltb_false (length buf) (64 + n) fits,
  e5,
)

number_at-middle :
    {E : Type 0} (s xs zs : List ℕ) (at w n : ℕ)
    → s ≡ xs ++ (to_be_bytes w n ++ zs)
    → length xs ≡ at
    → n < 256 ^ w
    → number_at {E = E} s at w ≡ ok n
number_at-middle {E = E} s xs zs at w n e p h = rw (
  e,
  slice-middle {E = E} xs (to_be_bytes w n) zs at (at + w) p (omega (lens)),
  from_be_bytes-to_be_bytes w n,
  mod-eq_of_lt h,
)

type_byte :
    {E : Type 0} (h : PacketHeader) (rest : List ℕ)
    → h.packet_type ≡ data_packet
    → index {E = E} (body h ++ rest) 1 ≡ ok 0x20
unfolding to_be_bytes to_u8
type_byte h rest e = rw e refl

-- The fields of a packet whose bytes are those of a DATA header, a checksum and a payload.
decode_data_inline-bytes :
    {E : Type 0} (h : PacketHeader) (sum : ℕ) (p : DataPayload) (rest : List ℕ)
    → h.packet_type ≡ data_packet
    → h.stream_id < 256 ^ 4
    → Data.Payload.Fits p
    → decode_data_inline {E = E} (body h ++ (to_be_bytes 4 sum ++ (Data.Payload.wire p ++ rest)))
      ≡ ok (
          some
            (record { stream_id = h.stream_id; chunk_index = p.chunk_index; content = p.content }))
decode_data_inline-bytes {E = E} h sum p rest e hs fits =
    let front : List ℕ = body h ++ to_be_bytes 4 sum in
    let dp : List ℕ = Data.Payload.wire p ++ rest in
    let buf : List ℕ = body h ++ (to_be_bytes 4 sum ++ dp) in
    let before : List ℕ =
      to_be_bytes 1 h.version
      ++ (to_be_bytes 1 (to_u8 h.packet_type)
          ++ (to_be_bytes 2 h.flags.bits
              ++ (to_be_bytes 2 h.header_length ++ to_be_bytes 8 h.connection_id))) in
    let after : List ℕ =
      to_be_bytes 8 h.packet_number
      ++ (to_be_bytes 8 h.timestamp
          ++ (to_be_bytes 4 h.payload_length ++ (to_be_bytes 4 sum ++ dp))) in
    let split : buf ≡ front ++ dp = sym (append_assoc (body h) (to_be_bytes 4 sum) dp) in
    let l : length front ≡ 42 = omega (lens, length-body h) in
    inline_of_fields {E = E} buf dp p.content h.stream_id p.chunk_index (length p.content)
      (type_byte h (to_be_bytes 4 sum ++ dp) e)
      (number_at-middle buf before after 14 4 h.stream_id (simp append_assoc) (omega lens) hs)
      (rw split (slice_back front dp 42 l))
      (number_at-middle dp (to_be_bytes 8 p.file_id)
        (to_be_bytes 4 p.chunk_offset ++ (to_be_bytes 2 (length p.content) ++ (p.content ++ rest)))
        8 8 p.chunk_index (simp append_assoc) (omega lens) fits.1)
      (number_at-middle dp
        (to_be_bytes 8 p.file_id ++ (to_be_bytes 8 p.chunk_index ++ to_be_bytes 4 p.chunk_offset))
        (p.content ++ rest) 20 2 (length p.content) (simp append_assoc) (omega lens) fits.3)
      (omega (lens, length-body h))
      (rw split (
        ap (λ (s : List ℕ). slice {E = E} s 64 (64 + length p.content)) (simp append_assoc)
        ∙ slice-middle {E = E}
            (front
              ++ (to_be_bytes 8 p.file_id
                  ++ (to_be_bytes 8 p.chunk_index
                      ++ (to_be_bytes 4 p.chunk_offset ++ to_be_bytes 2 (length p.content)))))
            p.content rest 64 (64 + length p.content) (omega (lens, l)) (omega arith)))

not_version : (h : PacketHeader) → h.version ≢ 1 → (h.version == 1) ≡ false
not_version h other = ground arith

module _ ⦃crc : Crc32c⦄ where
  -- `decode_data_inline` gives the stream, the chunk and the content that `encode_data_packet_into`
  -- was called with, whatever bytes follow in the buffer, where these fit their fields and the
  -- buffer is long enough.
  pub decode_data_inline-encode_data_packet_into :
      {E : Type 0} (dst : List ℕ) (conn number stamp stream : ℕ) (p : DataPayload)
      → stream < 256 ^ 4
      → Data.Payload.Fits p
      → 64 + length p.content ≤ length dst
      → (encode_data_packet_into {E = E} dst conn number stamp stream p.file_id p.chunk_index
            p.chunk_offset p.content
          >>= λ r. decode_data_inline r.0)
        ≡ ok
            (some (record { stream_id = stream; chunk_index = p.chunk_index; content = p.content }))
  decode_data_inline-encode_data_packet_into {E = E} dst conn number stamp stream p hs fits room =
      let h : PacketHeader = data_header conn number stamp stream (22 + length p.content) in
      rw
        (
          encode_data_packet_into_lem {E = E} dst conn number stamp stream p fits.3 room,
          append_assoc (body h) (to_be_bytes 4 (crc.crc32c (body h)))
              (Data.Payload.wire p ++ drop (64 + length p.content) dst),
        )
        (decode_data_inline-bytes h (crc.crc32c (body h)) p (drop (64 + length p.content) dst) refl
          hs fits)

  -- `decode_data_inline` looks at no version: of a DATA packet of any version but 1, which
  -- `decode_packet_unchecked` refuses with `unsupported_version`, it returns the fields.
  pub decode_data_inline_ignores_version :
      ⦃buf : ByteBuf⦄
      → ⦃bf : BitFlags⦄ → (h : PacketHeader) (p : DataPayload) (rest : List ℕ)
      → h.packet_type ≡ data_packet
      → h.version < 256
      → h.version ≢ protocol_version
      → h.stream_id < 256 ^ 4
      → Data.Payload.Fits p
      → (decode_packet_unchecked (wire h ++ (Data.Payload.wire p ++ rest))
          ≡ err (unsupported_version h.version))
        × (decode_data_inline {E = ProtoError} (wire h ++ (Data.Payload.wire p ++ rest))
            ≡ ok (
                some (record {
                  stream_id = h.stream_id;
                  chunk_index = p.chunk_index;
                  content = p.content;
                })))
  unfolding decode_packet_unchecked decode_unchecked
  decode_data_inline_ignores_version h p rest e hv other hs fits = (
    rw
        (le→ltb_false (length (wire h ++ (Data.Payload.wire p ++ rest))) 42
          (omega (lens, length-wire h)))
        (simp reads (rw (mod-eq_of_lt hv, not_version h other))),
    rw (append_assoc (body h) (to_be_bytes 4 (crc.crc32c (body h))) (Data.Payload.wire p ++ rest))
        (decode_data_inline-bytes h (crc.crc32c (body h)) p rest e hs fits),
  )
