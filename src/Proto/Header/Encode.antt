-- ===== src/Proto/Header/Encode.antt =====
-- `update_crc`, `encode` and `encode_into` of crates/ahp-proto/src/header.rs.
use favonius.Base.{
  ℕ, ◌+◌, ◌-◌, ◌<◌, ◌≤◌, ◌≡◌, refl, sym, ap, ◌∙◌, List, [], ◌∷◌, ◌++◌, ltb, le→ltb_false,
  if◌then◌else◌, length, drop, slice, slice-middle, copy_at, copy_at-next, copy_at-block,
  length-append, append_assoc, append-nil, arith,
}
use favonius.Base.{Outcome, ok, ◌>>=◌}
use favonius.Bytes.Endian.{to_be_bytes, length-to_be_bytes, lens, to_be_bytes_one}
use favonius.Bytes.Buf.{ByteBuf, Crc32c, w8, w16, w32, w64}
use favonius.Proto.PacketType.{to_u8, to_u8-lt}
use favonius.Proto.Header.{PacketHeader, header_size, body, wire}

-- The checksum of an encoded header computed anew, in place.
unfoldable pub update_crc : ⦃crc : Crc32c⦄ → {E : Type 0} → List ℕ → Outcome E (List ℕ)
update_crc ⦃crc⦄ header = if ltb (length header) header_size then ok header else do
  covered ← slice header 0 (header_size - 4)
  copy_at header (header_size - 4) (to_be_bytes 4 (crc.crc32c covered))

-- The slice after each store, and the count of bytes written.
unfoldable pub encode_into :
    ⦃crc : Crc32c⦄ → {E : Type 0} → PacketHeader → List ℕ → Outcome E (List ℕ × ℕ)
encode_into ⦃crc⦄ h dst = do
  dst ← copy_at dst 0 (h.version ∷ [])
  dst ← copy_at dst 1 (to_u8 h.packet_type ∷ [])
  dst ← copy_at dst 2 (to_be_bytes 2 h.flags.bits)
  dst ← copy_at dst 4 (to_be_bytes 2 h.header_length)
  dst ← copy_at dst 6 (to_be_bytes 8 h.connection_id)
  dst ← copy_at dst 14 (to_be_bytes 4 h.stream_id)
  dst ← copy_at dst 18 (to_be_bytes 8 h.packet_number)
  dst ← copy_at dst 26 (to_be_bytes 8 h.timestamp)
  dst ← copy_at dst 34 (to_be_bytes 4 h.payload_length)
  covered ← slice dst 0 38
  dst ← copy_at dst 38 (to_be_bytes 4 (crc.crc32c covered))
  ok (dst, header_size)

-- `BytesMut` grows at its end.
unfoldable pub encode :
    ⦃buf : ByteBuf⦄ → ⦃crc : Crc32c⦄ → {E : Type 0} → PacketHeader → List ℕ → Outcome E (List ℕ)
encode ⦃buf⦄ ⦃crc⦄ h dst =
    let start = length dst in
    let dst = buf.put_uint w8 dst h.version in
    let dst = buf.put_uint w8 dst (to_u8 h.packet_type) in
    let dst = buf.put_uint w16 dst h.flags.bits in
    let dst = buf.put_uint w16 dst h.header_length in
    let dst = buf.put_uint w64 dst h.connection_id in
    let dst = buf.put_uint w32 dst h.stream_id in
    let dst = buf.put_uint w64 dst h.packet_number in
    let dst = buf.put_uint w64 dst h.timestamp in
    let dst = buf.put_uint w32 dst h.payload_length in
    do
      covered ← slice dst start (start + header_size - 4)
      ok (buf.put_uint w32 dst (crc.crc32c covered))

pub length-body : (h : PacketHeader) → length (body h) ≡ 38
length-body h = simp (length-append, length-to_be_bytes)

pub length-wire : ⦃crc : Crc32c⦄ → (h : PacketHeader) → length (wire h) ≡ 42
length-wire ⦃crc⦄ h = rw (
  length-append (body h) (to_be_bytes 4 (crc.crc32c (body h))),
  length-body h,
  length-to_be_bytes,
)

covered_body :
    {E : Type 0} (h : PacketHeader) (dst : List ℕ)
    → slice {E = E} (dst ++ body h) (length dst) (length dst + 42 - 4) ≡ ok (body h)
covered_body h dst =
    ap (λ (xs : List ℕ). slice (dst ++ xs) (length dst) (length dst + 42 - 4))
      (sym (append-nil (body h)))
    ∙ slice-middle dst (body h) [] (length dst) (length dst + 42 - 4) refl
        (omega (arith, length-body h))

-- `encode` appends the 42 bytes of the header to the buffer.
pub encode_lem :
    ⦃buf : ByteBuf⦄
    → ⦃crc : Crc32c⦄ → {E : Type 0} (h : PacketHeader) (dst : List ℕ)
    → encode {E = E} h dst ≡ ok (dst ++ wire h)
unfolding encode
encode_lem ⦃buf⦄ h dst = simp (buf.put_uint_appends, append_assoc) (rw (covered_body h dst))

-- A number stored behind the bytes that are written already.
pub store :
    {E : Type 0} (pre dst : List ℕ) (w n at to : ℕ)
    → length pre ≡ at
    → at + w ≡ to
    → to ≤ length dst
    → copy_at {E = E} (pre ++ drop at dst) at (to_be_bytes w n)
      ≡ ok ((pre ++ to_be_bytes w n) ++ drop to dst)
store pre dst w n at to p q h =
    copy_at-next pre dst (to_be_bytes w n) at to p (omega (arith, length-to_be_bytes w n)) h

-- `encode_into` writes the same 42 bytes over the front of the slice, and leaves the rest.
pub encode_into_lem :
    ⦃crc : Crc32c⦄
    → {E : Type 0} (h : PacketHeader) (dst : List ℕ) → h.version < 256
    → 42 ≤ length dst
    → encode_into {E = E} h dst ≡ ok (wire h ++ drop 42 dst, 42)
unfolding encode_into
encode_into_lem ⦃crc⦄ h dst v fits =
    let p1 : List ℕ = to_be_bytes 1 h.version in
    let p2 : List ℕ = p1 ++ to_be_bytes 1 (to_u8 h.packet_type) in
    let p3 : List ℕ = p2 ++ to_be_bytes 2 h.flags.bits in
    let p4 : List ℕ = p3 ++ to_be_bytes 2 h.header_length in
    let p5 : List ℕ = p4 ++ to_be_bytes 8 h.connection_id in
    let p6 : List ℕ = p5 ++ to_be_bytes 4 h.stream_id in
    let p7 : List ℕ = p6 ++ to_be_bytes 8 h.packet_number in
    let p8 : List ℕ = p7 ++ to_be_bytes 8 h.timestamp in
    let p9 : List ℕ = p8 ++ to_be_bytes 4 h.payload_length in
    rw
      (
        ← to_be_bytes_one h.version v,
        ← to_be_bytes_one (to_u8 h.packet_type) (to_u8-lt h.packet_type),
        store [] dst 1 h.version 0 1 refl refl (omega arith),
        store p1 dst 1 (to_u8 h.packet_type) 1 2 (omega lens) refl (omega arith),
        store p2 dst 2 h.flags.bits 2 4 (omega lens) refl (omega arith),
        store p3 dst 2 h.header_length 4 6 (omega lens) refl (omega arith),
        store p4 dst 8 h.connection_id 6 14 (omega lens) refl (omega arith),
        store p5 dst 4 h.stream_id 14 18 (omega lens) refl (omega arith),
        store p6 dst 8 h.packet_number 18 26 (omega lens) refl (omega arith),
        store p7 dst 8 h.timestamp 26 34 (omega lens) refl (omega arith),
        store p8 dst 4 h.payload_length 34 38 (omega lens) refl (omega arith),
        slice-middle [] p9 (drop 38 dst) 0 38 refl (omega lens),
        store p9 dst 4 (crc.crc32c p9) 38 42 (omega lens) refl (omega arith),
      )
      (let e : p9 ≡ body h = simp append_assoc in rw e)

-- `update_crc` on a header whose covered bytes were rewritten leaves the encoding of the header
-- that those bytes stand for, whatever checksum was stored before.
pub update_crc_lem :
    ⦃crc : Crc32c⦄
    → {E : Type 0} (h : PacketHeader) (stale rest : List ℕ) → length stale ≡ 4
    → update_crc {E = E} (body h ++ (stale ++ rest)) ≡ ok (wire h ++ rest)
unfolding update_crc
update_crc_lem ⦃crc⦄ h stale rest four =
    let whole : length (body h ++ (stale ++ rest)) ≡ 42 + length rest =
      omega (lens, four, length-body h) in
    rw (
      le→ltb_false (length (body h ++ (stale ++ rest))) 42 (omega arith),
      slice-middle [] (body h) (stale ++ rest) 0 38 refl (omega (arith, length-body h)),
      copy_at-block (body h) stale rest (to_be_bytes 4 (crc.crc32c (body h))) 38 (length-body h)
          (omega (lens, four)),
      append_assoc (body h) (to_be_bytes 4 (crc.crc32c (body h))) rest,
    )

-- `encode_into` writes, over the front of a slice of 42 bytes or more, the bytes that `encode`
-- appends to a buffer, leaves the rest of the slice, and returns 42.
pub encode_into-encode :
    ⦃crc : Crc32c⦄
    → ⦃buf : ByteBuf⦄ → {E : Type 0} (h : PacketHeader) (dst : List ℕ) → h.version < 256
    → 42 ≤ length dst
    → encode_into {E = E} h dst ≡ (encode h [] >>= λ bytes. ok (bytes ++ drop 42 dst, 42))
encode_into-encode {E = E} h dst v fits =
    encode_into_lem {E = E} h dst v fits ∙ rw (encode_lem {E = E} h [])
