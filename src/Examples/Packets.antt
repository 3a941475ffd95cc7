-- ===== src/Examples/Packets.antt =====
-- Headers, whole packets and the hot path, run.
use favonius.Base.{ℕ, ◌≡◌, refl, List, [], ◌∷◌, ◌++◌, some, replicate, drop, arith}
use favonius.Base.{ok, err, ◌>>=◌}
use favonius.Bytes.Plain.{plain_buf, sum_crc, mask_flags}
use favonius.Bytes.Endian.{IsBytes, to_be_bytes}
use favonius.Proto.Errors.{ProtoError, unsupported_version}
use favonius.Proto.PacketType.{to_u8, data_packet}
use favonius.Proto.Header.{PacketHeader, FitsTypes, body, wire}
use favonius.Proto.Header.Decode.{decode}
use favonius.Proto.Header.RoundTrip.{IsSendable, received, decode-wire}
use favonius.Proto.Extensions.{wire_size}
use favonius.Proto.Data
use favonius.Proto.Data.{DataPayload, encode_data, encode_ack}
use favonius.Proto.Codec.{Packet, extensions_size, encode_packet, encode_packet_auto}
use favonius.Proto.Codec.Checked.{decode_packet}
use favonius.Proto.Codec.Checked.Sound.{Received, decode_packet-Received}
use favonius.Proto.Codec.Checked.RoundTrip.{
  IsSendablePacket, with_lengths, decode_packet-encode_packet_auto,
}
use favonius.Proto.Codec.Fast.{
  data_header, encode_data_packet_into, decode_packet_unchecked, decode_data_inline,
}
use favonius.Proto.Codec.Fast.Write.{encode_data_packet_into-encode_packet}
use favonius.Proto.Codec.Fast.Inline.{
  decode_data_inline-encode_data_packet_into, decode_data_inline_ignores_version,
}

-- A DATA packet with one extension, as it arrives, and a byte more.
abbrev header_bytes : List ℕ
header_bytes =
    0x01 ∷ 0x20 ∷ 0x00 ∷ 0x01 ∷ 0x00 ∷ 0x30 ∷ 0 ∷ 0 ∷ 0 ∷ 0 ∷ 0 ∷ 0 ∷ 0 ∷ 0x05 ∷ 0 ∷ 0 ∷ 0 ∷ 0x07
    ∷ 0 ∷ 0 ∷ 0 ∷ 0 ∷ 0 ∷ 0 ∷ 0 ∷ 0x09 ∷ 0 ∷ 0 ∷ 0 ∷ 0 ∷ 0 ∷ 0 ∷ 0 ∷ 0x0B ∷ 0 ∷ 0 ∷ 0 ∷ 0x03 ∷ 0x26
    ∷ 0x26 ∷ 0x26 ∷ 0x26 ∷ []

abbrev packet_bytes : List ℕ
packet_bytes =
    header_bytes ++ (0x00 ∷ 0x01 ∷ 0x00 ∷ 0x02 ∷ 0xAA ∷ 0xBB ∷ 0x61 ∷ 0x62 ∷ 0x63 ∷ 0x00 ∷ [])

abbrev sample : PacketHeader
sample = record {
  version = 1;
  packet_type = data_packet;
  flags = record { bits = 1 };
  header_length = 48;
  connection_id = 5;
  stream_id = 7;
  packet_number = 9;
  timestamp = 11;
  payload_length = 3;
  header_crc = 0x26262626;
}

abbrev sample_packet : Packet
sample_packet = record {
  header = sample;
  extensions = record { ext_type = 1; value = 0xAA ∷ 0xBB ∷ [] } ∷ [];
  payload = 0x61 ∷ 0x62 ∷ 0x63 ∷ [];
}

sample-FitsTypes : FitsTypes sample
sample-FitsTypes = omega arith

decode_packet-Received_example : Received packet_bytes (decode_packet packet_bytes)
decode_packet-Received_example = decode_packet-Received packet_bytes (omega arith)

sample-IsSendable : IsSendable sample
sample-IsSendable = record { fits = sample-FitsTypes; current = refl; long_enough = omega arith }

abbrev sample_received : PacketHeader
sample_received = received sample (sum_crc.crc32c (body sample))

sample_decoded : decode (wire sample ++ packet_bytes) ≡ (ok sample_received, packet_bytes)
sample_decoded = decode-wire sample packet_bytes sample-IsSendable

sample-IsBytes : IsBytes (wire sample ++ packet_bytes)
unfolding to_be_bytes to_u8
sample-IsBytes = omega arith

sample-IsSendablePacket : IsSendablePacket sample_packet
unfolding extensions_size wire_size
sample-IsSendablePacket = record {
  fits = sample-FitsTypes;
  current = refl;
  known_flags = omega arith;
  extensions_fit = omega arith;
  header_fits = omega arith;
  payload_fits = omega arith;
}

decode_packet-encode_packet_auto_example :
    (encode_packet_auto {E = ProtoError} sample_packet >>= λ r.
    ok (decode_packet (r.1 ++ (0x00 ∷ []))))
    ≡ ok (
        some (
          ok (record sample_packet {
            header = record ((with_lengths sample_packet).header) {
              header_crc = sum_crc.crc32c (body ((with_lengths sample_packet).header));
            };
          })))
decode_packet-encode_packet_auto_example =
    decode_packet-encode_packet_auto sample_packet (0x00 ∷ []) sample-IsSendablePacket

abbrev chunk : DataPayload
chunk = record { file_id = 1; chunk_index = 2; chunk_offset = 0; content = 0x61 ∷ 0x62 ∷ 0x63 ∷ [] }

-- A send buffer of 80 bytes.
abbrev buffer : List ℕ
buffer = replicate 80 0xFF

encode_data_packet_into-encode_packet_example :
    encode_data_packet_into {E = ProtoError} buffer 5 9 11 7 1 2 0 (0x61 ∷ 0x62 ∷ 0x63 ∷ []) ≡ (
      encode_packet (record {
        header = data_header 5 9 11 7 25;
        extensions = [];
        payload = encode_data chunk [];
      })
      >>= λ bytes. ok (bytes ++ drop 67 buffer, 67))
encode_data_packet_into-encode_packet_example =
    encode_data_packet_into-encode_packet buffer 5 9 11 7 chunk (omega arith) (omega arith)

decode_data_inline-encode_data_packet_into_example :
    (encode_data_packet_into {E = ProtoError} buffer 5 9 11 7 1 2 0 (0x61 ∷ 0x62 ∷ 0x63 ∷ [])
      >>= λ r. decode_data_inline r.0)
    ≡ ok (some (record { stream_id = 7; chunk_index = 2; content = 0x61 ∷ 0x62 ∷ 0x63 ∷ [] }))
decode_data_inline-encode_data_packet_into_example =
    decode_data_inline-encode_data_packet_into buffer 5 9 11 7 chunk (omega arith) (omega arith)
      (omega arith)

abbrev next_version : PacketHeader
next_version = record sample { version = 2 }

decode_data_inline_ignores_version_example :
    (decode_packet_unchecked (wire next_version ++ (Data.Payload.wire chunk ++ []))
      ≡ err (unsupported_version 2))
    × (decode_data_inline {E = ProtoError} (wire next_version ++ (Data.Payload.wire chunk ++ []))
        ≡ ok (some (record { stream_id = 7; chunk_index = 2; content = 0x61 ∷ 0x62 ∷ 0x63 ∷ [] })))
decode_data_inline_ignores_version_example =
    decode_data_inline_ignores_version next_version chunk [] refl (omega arith) (omega arith)
      (omega arith) (omega arith)
