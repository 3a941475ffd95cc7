-- ===== src/Examples/Handshake.antt =====
-- The payloads of the handshake and the frame of the TCP fallback, run.
use favonius.Base.{ℕ, ◌≡◌, ◌≢◌, refl, List, [], ◌∷◌, none, some, replicate, arith}
use favonius.Base.{ok, panic}
use favonius.Proto.Errors.{ProtoError}
use favonius.Proto.Hello.{full_handshake, HelloAckPayload, HelloFull}
use favonius.Proto.Hello.Ack.{decode_hello_ack_payload}
use favonius.Proto.Hello.Ack.RoundTrip.{ack, sent, signed_ack, decode_hello_ack_payload-sent}
use favonius.Proto.Hello.Ack.Total.{decode_hello_ack_payload_total}
use favonius.Bytes.Utf8.{from_utf8_rest, accept, lead}
use favonius.Proto.Fallback.{FallbackHeader, FallbackReply, refused}
use favonius.Proto.Fallback.Frame.{IsSendable}

abbrev key : List ℕ
key = replicate 32 0xA5

abbrev nonce : List ℕ
nonce = replicate 16 0x5A

abbrev identity : List ℕ
identity = replicate 32 0x1D

abbrev signature : List ℕ
signature = replicate 64 0x51

abbrev hello : HelloFull
hello = record {
  ephemeral_pub = key;
  nonce = nonce;
  peer_auth = some (identity, signature);
  grant = some (1 ∷ 2 ∷ []);
}

abbrev answer : HelloAckPayload
answer = ack full_handshake (some 7801) (some (key, nonce)) (some (identity, signature)) none 0x0403

decode_hello_ack_payload-sent_example :
    decode_hello_ack_payload {E = ProtoError} (sent answer) ≡ ok (some answer)
decode_hello_ack_payload-sent_example = decode_hello_ack_payload-sent answer (
    signed_ack 7801 0x0403 key nonce identity signature (omega arith) (omega arith) refl refl refl
      refl)

decode_hello_ack_payload_total_example :
    decode_hello_ack_payload {E = ProtoError} (0x01 ∷ key) ≢ panic
decode_hello_ack_payload_total_example = decode_hello_ack_payload_total (0x01 ∷ key)

abbrev file : FallbackHeader
file = record { path = 0x61 ∷ 0x2F ∷ 0xC3 ∷ 0xA9 ∷ []; size = 1000 }

file-IsSendable : IsSendable file
unfolding from_utf8_rest accept lead
file-IsSendable = record {
  some_path = omega arith;
  path_fits = omega arith;
  size_fits = omega arith;
  utf8 = refl;
}

abbrev refusal : FallbackReply
refusal = refused (0x6E ∷ 0x6F ∷ [])
