-- ===== src/Proto/Codec.antt =====
-- crates/ahp-proto/src/codec.rs: whole packets, and the encoders and the decoder of the hot path.
-- Time is an argument. `debug_assert!` is not modelled: where it fails, the stores after it panic.
pub mod Encode
pub mod Checked
pub mod Fast
use mathlib.Core.List.{foldl}
use favonius.Base.{
  ℕ, ◌+◌, ◌%◌, ◌^◌, Bool, not, List, [], ◌∷◌, ◌++◌, Option, none, some, ltb, ◌==◌, if◌then◌else◌,
  length, take, drop, slice, index, copy_at, fail_if,
}
use favonius.Base.{Outcome, ok, err, panic, ◌>>=◌, ◌>>◌}
use favonius.Bytes.Endian.{to_be_bytes, from_be_bytes}
use favonius.Bytes.Buf.{ByteBuf, Crc32c, BitFlags}
use favonius.Bytes.Cursor.{Read}
use favonius.Proto.Errors.{ProtoError, buffer_too_short, payload_overflow}
use favonius.Proto.PacketType.{PacketType, data_packet, ack_bitmap}
use favonius.Proto.Flags.{ack_eliciting, empty}
use favonius.Proto.Header.{PacketHeader, header_size, protocol_version}
use favonius.Proto.Header.Encode.{encode, encode_into}
use favonius.Proto.Header.Decode.{decode_unchecked}
use favonius.Proto.Extensions
use favonius.Proto.Extensions.{Extension}
use favonius.Proto.Data.{data_payload_header_size, ack_bitmap_header_size}

pub record Packet : Type 0 where
  pub header : PacketHeader
  pub extensions : List Extension
  pub payload : List ℕ

abbrev pub is_empty {ℓ} : {A : Type ℓ} → List A → Bool
is_empty [] = Bool.true
is_empty (x ∷ xs) = Bool.false

-- `packet.extensions.iter().map(|e| e.wire_size()).sum()`
unfoldable pub extensions_size : List Extension → ℕ
extensions_size [] = 0
extensions_size (e ∷ es) = Extensions.wire_size e + extensions_size es

module _ ⦃buf : ByteBuf⦄ ⦃crc : Crc32c⦄ where
  unfoldable pub encode_packet : {E : Type 0} → Packet → Outcome E (List ℕ)
  unfolding encode
  encode_packet packet = do
    out ← encode packet.header []
    let out = foldl (λ dst ext. Extensions.encode ext dst) out packet.extensions
    ok (if is_empty packet.payload then out else buf.put_slice out packet.payload)

  -- The packet with its two lengths filled in, and its encoding.
  unfoldable pub encode_packet_auto : {E : Type 0} → Packet → Outcome E (Packet × List ℕ)
  unfolding encode_packet
  encode_packet_auto packet =
      let header = record (packet.header) {
        header_length = (header_size + extensions_size packet.extensions) % 2 ^ 16;
        payload_length = length packet.payload % 2 ^ 32;
      } in
      let packet' = record packet { header = header } in
      do out ← encode_packet packet'; ok (packet', out)

-- A decoder run on a buffer of its own: its value and the cursor that it leaves.
abbrev pub run : {E A : Type 0} → Read E A → List ℕ → Outcome E (A × List ℕ)
run m s = pairing (m s)
  where
    pairing : {E A : Type 0} → Outcome E A × List ℕ → Outcome E (A × List ℕ)
    pairing (ok a, s') = ok (a, s')
    pairing (err e, s') = err e
    pairing (panic, s') = panic

-- Code that writes to `&mut dst[lo..hi]`.
abbrev pub on_part :
    {E : Type 0} → List ℕ → ℕ → ℕ → (List ℕ → Outcome E (List ℕ)) → Outcome E (List ℕ)
on_part dst lo hi write = do
  part ← slice dst lo hi
  part' ← write part
  ok (take lo dst ++ (part' ++ drop hi dst))
