-- ===== src/Proto/Codec/Encode.antt =====
-- What `encode_packet` and `encode_packet_auto` write.
use favonius.Base.{
  ℕ, ◌≡◌, refl, sym, ◌∙◌, List, [], ◌∷◌, ◌++◌, length, length-append, append_assoc, append-nil, All,
  arith, if◌then◌else◌,
}
use favonius.Base.{ok}
use favonius.Bytes.Buf.{ByteBuf, Crc32c}
use favonius.Bytes.Many.{wires}
use favonius.Proto.Header.{wire}
use favonius.Proto.Header.Encode.{encode_lem}
use favonius.Proto.Extensions
use favonius.Proto.Extensions.{Extension, wire_size}
use favonius.Proto.Extensions.Laws.{Fits, framing, foldl-encode, length-wire}
use favonius.Proto.Codec.{Packet, encode_packet, extensions_size, is_empty}

module _ ⦃buf : ByteBuf⦄ ⦃crc : Crc32c⦄ where
  -- Header, extensions and payload, one after the other.
  abbrev pub packet_bytes : Packet → List ℕ
  packet_bytes p = wire p.header ++ (wires framing p.extensions ++ p.payload)

  put_payload :
      (out payload : List ℕ)
      → (if is_empty payload then out else buf.put_slice out payload) ≡ out ++ payload
  put_payload out [] = sym (append-nil out)
  put_payload out (b ∷ bs) = buf.put_slice_appends out (b ∷ bs)

  pub encode_packet_lem :
      {E : Type 0} (p : Packet)
      → All Fits p.extensions
      → encode_packet {E = E} p ≡ ok (packet_bytes p)
  unfolding encode_packet
  encode_packet_lem {E = E} p h = rw (
    encode_lem {E = E} p.header [],
    foldl-encode p.extensions (wire p.header) h,
    put_payload (wire p.header ++ wires framing p.extensions) p.payload,
    append_assoc (wire p.header) (wires framing p.extensions) p.payload,
  )

  pub length-wires : (es : List Extension) → length (wires framing es) ≡ extensions_size es
  unfolding extensions_size
  length-wires [] = refl
  length-wires (e ∷ es) =
      length-append (Extensions.Laws.wire e) (wires framing es)
      ∙ omega (arith, length-wire e, length-wires es)
