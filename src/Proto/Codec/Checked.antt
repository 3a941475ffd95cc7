-- ===== src/Proto/Codec/Checked.antt =====
-- `decode_packet` of crates/ahp-proto/src/codec.rs.
pub mod RoundTrip
pub mod Sound
use favonius.Base.{ℕ, ◌+◌, ◌-◌, List, [], Option, ltb, length, slice}
use favonius.Base.{Outcome}
use favonius.Bytes.Buf.{ByteBuf, Crc32c, BitFlags}
use favonius.Bytes.Fueled.{Fueled, ◌>>=◌, ◌>>◌, lift, fail_when, pure}
use favonius.Proto.Errors.{ProtoError, buffer_too_short, payload_overflow}
use favonius.Proto.Header.{PacketHeader, header_size}
use favonius.Proto.Header.Decode.{decode}
use favonius.Proto.Extensions.{decode_extensions}
use favonius.Proto.Codec.{Packet, run}

unfoldable pub decode_packet :
    ⦃buf : ByteBuf⦄ → ⦃bf : BitFlags⦄ → ⦃crc : Crc32c⦄ → List ℕ → Fueled ProtoError Packet
decode_packet ⦃buf⦄ ⦃bf⦄ ⦃crc⦄ bytes = do
  (header, cursor) ← lift (run decode bytes)
  let header_len = header.header_length
  let ext_region_size = header_len - header_size
  fail_when (ltb (length cursor) ext_region_size)
      (buffer_too_short header_len (header_size + length cursor))
  ext_slice ← lift (slice cursor 0 ext_region_size)
  extensions ← decode_extensions ext_slice
  cursor ← lift (slice cursor ext_region_size (length cursor))
  let payload_len = header.payload_length
  fail_when (ltb (length cursor) payload_len) (payload_overflow payload_len (length cursor))
  payload ← lift (slice cursor 0 payload_len)
  pure (record { header = header; extensions = extensions; payload = payload })
