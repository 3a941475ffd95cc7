-- ===== src/Proto/Header/Decode.antt =====
-- `decode` and `decode_unchecked` of crates/ahp-proto/src/header.rs.
use favonius.Base.{◌-◌, not, ltb, ◌==◌}
use favonius.Bytes.Buf.{ByteBuf, Crc32c, BitFlags, w8, w16, w32, w64}
use favonius.Bytes.Cursor.{Read, pure, ◌>>=◌, ◌>>◌, lift, fail_when, remaining, front, get}
use favonius.Proto.Errors.{
  ProtoError, buffer_too_short, crc_mismatch, unsupported_version, invalid_header_length,
}
use favonius.Proto.PacketType.{try_from}
use favonius.Proto.Flags.{from_bits_truncate}
use favonius.Proto.Header.{PacketHeader, header_size, protocol_version}

module _ ⦃buf : ByteBuf⦄ ⦃bf : BitFlags⦄ where
  unfoldable pub decode_unchecked : Read ProtoError PacketHeader
  decode_unchecked = do
    len ← remaining
    fail_when (ltb len header_size) (buffer_too_short header_size len)
    version ← get w8
    packet_type_raw ← get w8
    flags_raw ← get w16
    header_length ← get w16
    connection_id ← get w64
    fail_when (not (version == protocol_version)) (unsupported_version version)
    stream_id ← get w32
    packet_number ← get w64
    timestamp ← get w64
    payload_length ← get w32
    _stored_crc ← get w32
    packet_type ← lift (try_from packet_type_raw)
    let flags = from_bits_truncate flags_raw
    fail_when (ltb header_length header_size) (invalid_header_length header_length header_size)
    pure (record {
      version = version;
      packet_type = packet_type;
      flags = flags;
      header_length = header_length;
      connection_id = connection_id;
      stream_id = stream_id;
      packet_number = packet_number;
      timestamp = timestamp;
      payload_length = payload_length;
      header_crc = 0;
    })

  unfoldable pub decode : ⦃crc : Crc32c⦄ → Read ProtoError PacketHeader
  decode ⦃crc⦄ = do
    len ← remaining
    fail_when (ltb len header_size) (buffer_too_short header_size len)
    covered ← front (header_size - 4)
    let computed_crc = crc.crc32c covered
    version ← get w8
    packet_type_raw ← get w8
    flags_raw ← get w16
    header_length ← get w16
    connection_id ← get w64
    stream_id ← get w32
    packet_number ← get w64
    timestamp ← get w64
    payload_length ← get w32
    stored_crc ← get w32
    fail_when (not (stored_crc == computed_crc)) (crc_mismatch stored_crc computed_crc)
    fail_when (not (version == protocol_version)) (unsupported_version version)
    packet_type ← lift (try_from packet_type_raw)
    let flags = from_bits_truncate flags_raw
    fail_when (ltb header_length header_size) (invalid_header_length header_length header_size)
    pure (record {
      version = version;
      packet_type = packet_type;
      flags = flags;
      header_length = header_length;
      connection_id = connection_id;
      stream_id = stream_id;
      packet_number = packet_number;
      timestamp = timestamp;
      payload_length = payload_length;
      header_crc = stored_crc;
    })
