-- ===== src/Proto/Codec/Checked/RoundTrip.antt =====
-- `encode_packet_auto` followed by `decode_packet` (crates/ahp-proto/src/codec.rs).
use native.Mathlib.Nat.{mod-eq_of_lt}
use favonius.Base.{
  ℕ, ◌+◌, ◌-◌, ◌^◌, ◌<◌, ◌≡◌, refl, sym, List, [], ◌++◌, some, le→ltb_false, length, slice_back,
  slice-middle, length-append, append_assoc, All, arith,
}
use favonius.Base.{ok, ◌>>=◌}
use favonius.Bytes.Buf.{ByteBuf, Crc32c, BitFlags}
use favonius.Bytes.Endian.{lens}
use favonius.Bytes.Many.{wires}
use favonius.Proto.Errors.{ProtoError}
use favonius.Proto.Flags.{from_bits_truncate_known}
use favonius.Proto.Header.{FitsTypes, header_size, protocol_version, body, wire}
use favonius.Proto.Header.RoundTrip.{IsSendable, decode-wire, received}
use favonius.Proto.Extensions.Laws.{
  Fits, framing, decode_extensions-encode_extensions, encode_extensions-wires,
}
use favonius.Proto.Codec.{Packet, encode_packet_auto, extensions_size}
use favonius.Proto.Codec.Encode.{packet_bytes, encode_packet_lem, length-wires}
use favonius.Proto.Codec.Checked.{decode_packet}

-- Lengths in the header that are those of the parts.
pub record IsConsistent (p : Packet) : Type 0 where
  pub sendable : IsSendable p.header
  pub extensions_fit : All Fits p.extensions
  pub header_length : p.header.header_length ≡ header_size + extensions_size p.extensions
  pub payload_length : p.header.payload_length ≡ length p.payload

module _ ⦃buf : ByteBuf⦄ ⦃bf : BitFlags⦄ ⦃crc : Crc32c⦄ where
  decode_packet-bytes :
      (p : Packet) (rest : List ℕ)
      → IsConsistent p
      → decode_packet (packet_bytes p ++ rest)
        ≡ some (ok (record p { header = received p.header (crc.crc32c (body p.header)) }))
  unfolding decode_packet
  decode_packet-bytes p rest v =
      let es : List ℕ = wires framing p.extensions in
      let e : p.header.header_length - 42 ≡ length es =
        omega (arith, v.header_length, length-wires p.extensions) in
      rw (
        append_assoc (wire p.header) (es ++ p.payload) rest,
        decode-wire p.header ((es ++ p.payload) ++ rest) v.sendable,
        append_assoc es p.payload rest,
        e,
        le→ltb_false (length (es ++ (p.payload ++ rest))) (length es) (omega (lens)),
        slice-middle [] es (p.payload ++ rest) 0 (length es) refl (omega arith),
        sym (encode_extensions-wires p.extensions v.extensions_fit),
        decode_extensions-encode_extensions p.extensions v.extensions_fit,
        encode_extensions-wires p.extensions v.extensions_fit,
        slice_back es (p.payload ++ rest) (length es) refl,
        le→ltb_false (length (p.payload ++ rest)) p.header.payload_length
            (omega (arith, v.payload_length, length-append p.payload rest)),
        slice-middle [] p.payload rest 0 p.header.payload_length refl
            (omega (arith, v.payload_length)),
      )

-- What a sender hands to `encode_packet_auto`: the two lengths are not its concern.
pub record IsSendablePacket (p : Packet) : Type 0 where
  pub fits : FitsTypes p.header
  pub current : p.header.version ≡ protocol_version
  pub known_flags : p.header.flags.bits < 2 ^ 10
  pub extensions_fit : All Fits p.extensions
  pub header_fits : header_size + extensions_size p.extensions < 2 ^ 16
  pub payload_fits : length p.payload < 2 ^ 32

-- The packet as it arrives: lengths and checksum filled in.
module _ ⦃buf : ByteBuf⦄ ⦃bf : BitFlags⦄ ⦃crc : Crc32c⦄ where
  abbrev pub with_lengths : Packet → Packet
  with_lengths p = record p {
    header = record (p.header) {
      header_length = header_size + extensions_size p.extensions;
      payload_length = length p.payload;
    };
  }

  with_lengths-IsConsistent : (p : Packet) → IsSendablePacket p → IsConsistent (with_lengths p)
  with_lengths-IsConsistent p v = record {
    sendable = record {
      fits = record {
        version_u8 = v.fits.version_u8;
        flags_u16 = v.fits.flags_u16;
        header_length_u16 = v.header_fits;
        connection_id_u64 = v.fits.connection_id_u64;
        stream_id_u32 = v.fits.stream_id_u32;
        packet_number_u64 = v.fits.packet_number_u64;
        timestamp_u64 = v.fits.timestamp_u64;
        payload_length_u32 = v.payload_fits;
      };
      current = v.current;
      long_enough = omega arith;
    };
    extensions_fit = v.extensions_fit;
    header_length = refl;
    payload_length = refl;
  }

  encode_packet_auto_lem :
      {E : Type 0} (p : Packet)
      → IsSendablePacket p
      → encode_packet_auto {E = E} p ≡ ok (with_lengths p, packet_bytes (with_lengths p))
  unfolding encode_packet_auto
  encode_packet_auto_lem {E = E} p v = rw (
    mod-eq_of_lt v.header_fits,
    mod-eq_of_lt v.payload_fits,
    encode_packet_lem {E = E} (with_lengths p) v.extensions_fit,
  )

  -- What `encode_packet_auto` writes for a packet of this version with known flags, extensions that
  -- fit and lengths that fit in their fields, followed by any bytes, is decoded by `decode_packet` to
  -- the same packet with its two lengths and its checksum filled in.
  pub decode_packet-encode_packet_auto :
      (p : Packet) (rest : List ℕ)
      → IsSendablePacket p
      → (encode_packet_auto {E = ProtoError} p >>= λ r. ok (decode_packet (r.1 ++ rest)))
        ≡ ok (
            some (
              ok (record p {
                header = record ((with_lengths p).header) {
                  header_crc = crc.crc32c (body ((with_lengths p).header));
                };
              })))
  decode_packet-encode_packet_auto p rest v = rw (
    encode_packet_auto_lem {E = ProtoError} p v,
    decode_packet-bytes (with_lengths p) rest (with_lengths-IsConsistent p v),
    from_bits_truncate_known p.header.flags v.known_flags,
  )
