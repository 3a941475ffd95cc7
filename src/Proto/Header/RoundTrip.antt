-- ===== src/Proto/Header/RoundTrip.antt =====
-- The encoders of the header followed by its decoders (crates/ahp-proto/src/header.rs).
use native.Mathlib.Nat.{mod-eq_of_lt}
use favonius.Base.{
  ℕ, ◌^◌, ◌<◌, ◌≤◌, ◌≡◌, refl, List, [], ◌++◌, ◌==◌, true, length, slice-middle, le→ltb_false,
  append_assoc, arith, ==_refl, ap, sym, ◌∙◌,
}
use favonius.Base.{Outcome, ok, ◌>>=◌}
use favonius.Bytes.Endian.{to_be_bytes, lens, IsBytes}
use favonius.Bytes.Buf.{ByteBuf, Crc32c, BitFlags}
use favonius.Bytes.Cursor.{reads, Total-ok}
use favonius.Proto.Header.Sound.{Accepted, decode-Total}
use favonius.Proto.Errors.{ProtoError}
use favonius.Proto.PacketType.{to_u8-lt, try_from-to_u8}
use favonius.Proto.Flags.{PacketFlags, from_bits_truncate, from_bits_truncate_known}
use favonius.Proto.Header.{PacketHeader, FitsTypes, header_size, protocol_version, body, wire}
use favonius.Proto.Header.Encode.{encode, encode_lem, length-body, length-wire}
use favonius.Proto.Header.Decode.{decode, decode_unchecked}

-- What a sender of this version puts in a header.
pub record IsSendable (h : PacketHeader) : Type 0 where
  pub fits : FitsTypes h
  pub current : h.version ≡ protocol_version
  pub long_enough : header_size ≤ h.header_length

current_version : (h : PacketHeader) → IsSendable h → (h.version == protocol_version) ≡ true
current_version h v = ground arith

module _ ⦃buf : ByteBuf⦄ ⦃crc : Crc32c⦄ ⦃bf : BitFlags⦄ where
  -- What the decoders make of a header on the wire: they drop the flags that they do not know.
  abbrev pub received : PacketHeader → ℕ → PacketHeader
  received h sum = record h { flags = from_bits_truncate h.flags.bits; header_crc = sum }

  pub decode-wire :
      (h : PacketHeader) (rest : List ℕ)
      → IsSendable h
      → decode (wire h ++ rest) ≡ (ok (received h (crc.crc32c (body h))), rest)
  unfolding decode
  decode-wire h rest v =
      rw
        (
          le→ltb_false (length (wire h ++ rest)) 42 (omega (lens, length-wire h)),
          append_assoc (body h) (to_be_bytes 4 (crc.crc32c (body h))) rest,
          slice-middle [] (body h) (to_be_bytes 4 (crc.crc32c (body h)) ++ rest) 0 38 refl
              (omega (arith, length-body h)),
        )
        (simp reads (
          rw (
            mod-eq_of_lt (crc.crc32c_lt (body h)),
            ==_refl (crc.crc32c (body h)),
            mod-eq_of_lt v.fits.version_u8,
            current_version h v,
            mod-eq_of_lt (to_u8-lt h.packet_type),
            try_from-to_u8 h.packet_type,
            mod-eq_of_lt v.fits.header_length_u16,
            le→ltb_false h.header_length 42 v.long_enough,
            mod-eq_of_lt v.fits.flags_u16,
            mod-eq_of_lt v.fits.connection_id_u64,
            mod-eq_of_lt v.fits.stream_id_u32,
            mod-eq_of_lt v.fits.packet_number_u64,
            mod-eq_of_lt v.fits.timestamp_u64,
            mod-eq_of_lt v.fits.payload_length_u32,
          )))

  -- The unchecked decoder does not look at the four bytes of the checksum.
  pub decode_unchecked-body :
      (h : PacketHeader) (sum : ℕ) (rest : List ℕ)
      → IsSendable h
      → decode_unchecked (body h ++ (to_be_bytes 4 sum ++ rest)) ≡ (ok (received h 0), rest)
  unfolding decode_unchecked
  decode_unchecked-body h sum rest v =
      rw
        (le→ltb_false (length (body h ++ (to_be_bytes 4 sum ++ rest))) 42
          (omega (lens, length-body h)))
        (simp reads (
          rw (mod-eq_of_lt v.fits.version_u8, current_version h v)
            (simp reads (
              rw (
                mod-eq_of_lt (to_u8-lt h.packet_type),
                try_from-to_u8 h.packet_type,
                mod-eq_of_lt v.fits.header_length_u16,
                le→ltb_false h.header_length 42 v.long_enough,
                mod-eq_of_lt v.fits.flags_u16,
                mod-eq_of_lt v.fits.connection_id_u64,
                mod-eq_of_lt v.fits.stream_id_u32,
                mod-eq_of_lt v.fits.packet_number_u64,
                mod-eq_of_lt v.fits.timestamp_u64,
                mod-eq_of_lt v.fits.payload_length_u32,
              )))))

  -- A header of this version with known flags only, appended by `encode` to an empty buffer and
  -- followed by any bytes, is decoded to the same header with its checksum filled in, and the
  -- cursor stands at the bytes that follow.
  pub decode-encode :
      (h : PacketHeader) (rest : List ℕ)
      → IsSendable h
      → h.flags.bits < 2 ^ 10
      → (encode {E = ProtoError} h [] >>= λ bytes. ok (decode (bytes ++ rest)))
        ≡ ok (ok (record h { header_crc = crc.crc32c (body h) }), rest)
  decode-encode h rest v known =
      rw (encode_lem h [], decode-wire h rest v, from_bits_truncate_known h.flags known)

  -- Where the checked decoder accepts a header, the unchecked one gives the same header but for
  -- the checksum, which it leaves 0, and the same rest.
  pub decode_unchecked-decode :
      (src rest : List ℕ) (h : PacketHeader)
      → IsBytes src
      → decode src ≡ (ok h, rest)
      → decode_unchecked src ≡ (ok (record h { header_crc = 0 }), rest)
  decode_unchecked-decode src rest h hb e =
      let a = Total-ok (Accepted src) (decode-Total src hb) e in
      let g : PacketHeader = record h { flags = a.raw_flags } in
      let v : IsSendable g = record {
        fits = a.raw_fits;
        current = a.current;
        long_enough = a.long_enough;
      } in
      rw (a.bytes, append_assoc (body g) (to_be_bytes 4 (crc.crc32c (body g))) rest)
        (decode_unchecked-body g (crc.crc32c (body g)) rest v
          ∙ ap
              (λ (f : PacketFlags).
                let r : Outcome ProtoError PacketHeader × List ℕ =
                  (ok (record h { flags = f; header_crc = 0 }), rest) in
                r)
              (sym a.truncated))
