-- ===== src/Proto/Hello.antt =====
-- crates/ahp-proto/src/hello.rs: the payloads of HELLO and HELLO_ACK.
pub mod Ports
pub mod Full
pub mod Ack
use favonius.Base.{
  ℕ, ◌+◌, ◌-◌, ◌*◌, ◌/◌, ◌%◌, ◌^◌, min, max, bit_and, bit_or, Bool, true, false, not, ◌&&◌, ◌||◌,
  List, [], ◌∷◌, ◌++◌, Option, none, some, ltb, leb, ◌==◌, if◌then◌else◌, length, take, slice,
  get_range?, get_elem?,
}
use favonius.Base.{Outcome, ok, err, panic, ◌>>=◌, ◌>>◌}
use favonius.Bytes.Endian.{to_be_bytes, from_be_bytes}

pub data HelloAckMode : Type 0 where
  plaintext full_handshake resumed : HelloAckMode

unfoldable pub to_byte : HelloAckMode → ℕ
to_byte plaintext = 0x00
to_byte full_handshake = 0x01
to_byte resumed = 0x02

unfoldable pub from_byte : ℕ → Option HelloAckMode
from_byte b =
    if b == 0x00
    then some plaintext
    else if b == 0x01
    then some full_handshake
    else if b == 0x02
    then some resumed
    else none

-- `Option<([u8; 32], [u8; 16])>` and its kin: an array is a list, and its length is a hypothesis.
abbrev pub Pair : Type 0
Pair = List ℕ × List ℕ

pub record HelloAckPayload : Type 0 where
  pub mode : HelloAckMode
  pub data_port : Option ℕ
  pub dh_material : Option Pair
  pub auth_material : Option Pair
  pub resume_server_nonce : Option (List ℕ)
  pub capabilities : ℕ

abbrev pub capability_magic : List ℕ
capability_magic = 0xCA ∷ 0xB1 ∷ []

abbrev pub cap_none : ℕ
cap_none = 0

abbrev pub cap_per_stream_ports : ℕ
cap_per_stream_ports = 2 ^ 0

abbrev pub cap_peer_auth : ℕ
cap_peer_auth = 2 ^ 1

abbrev pub cap_zero_runs : ℕ
cap_zero_runs = 2 ^ 2

abbrev pub data_port_count_shift : ℕ
data_port_count_shift = 8

abbrev pub data_port_count_mask : ℕ
data_port_count_mask = 0xFF * 2 ^ data_port_count_shift

unfoldable pub per_stream_ports : ℕ → ℕ
per_stream_ports n =
    if leb n 1
    then cap_none
    else bit_or cap_per_stream_ports (min n 255 * 2 ^ data_port_count_shift % 2 ^ 32)

unfoldable pub data_port_count : ℕ → ℕ
data_port_count capabilities =
    if bit_and capabilities cap_per_stream_ports == 0
    then 1
    else max (bit_and capabilities data_port_count_mask / 2 ^ data_port_count_shift) 1

abbrev pub hello_full_dh : ℕ
hello_full_dh = 0x01

abbrev pub hello_full_dh_len : ℕ
hello_full_dh_len = 1 + 32 + 16

abbrev pub peer_auth_len : ℕ
peer_auth_len = 32 + 64

-- What is appended to a buffer for an optional part.
abbrev pub append_some {ℓ} : {A : Type ℓ} → Option A → (A → List ℕ) → List ℕ → List ℕ
append_some none f buf = buf
append_some (some a) f buf = buf ++ f a

abbrev pub grant_bytes : List ℕ → List ℕ
grant_bytes grant = to_be_bytes 2 (length grant % 2 ^ 16) ++ grant

abbrev pub append_auth : Option Pair → Option (List ℕ) → List ℕ → List ℕ
append_auth none grant buf = buf
append_auth (some (identity_pub, signature)) grant buf =
    append_some grant grant_bytes ((buf ++ identity_pub) ++ signature)

unfoldable pub encode_hello_full : List ℕ → List ℕ → Option Pair → Option (List ℕ) → List ℕ
encode_hello_full ephemeral_pub nonce peer_auth grant =
    append_auth peer_auth grant (((hello_full_dh ∷ []) ++ ephemeral_pub) ++ nonce)

pub record HelloFull : Type 0 where
  pub ephemeral_pub : List ℕ
  pub nonce : List ℕ
  pub peer_auth : Option Pair
  pub grant : Option (List ℕ)

-- `if let Some(bytes) = ... { if len > 0 { grant = Some(bytes.to_vec()) } }`
abbrev pub nonempty : ℕ → Option (List ℕ) → Option (List ℕ)
nonempty len none = none
nonempty len (some bytes) = if ltb 0 len then some bytes else none

abbrev pub grant_of : List ℕ → ℕ → Option (List ℕ) → Option (List ℕ)
grant_of payload auth_end none = none
grant_of payload auth_end (some len_bytes) =
    let len = from_be_bytes len_bytes in
    let start = auth_end + 2 in nonempty len (get_range? payload start (start + len))

-- `payload.first() != Some(&HELLO_FULL_DH)`
abbrev pub other_first : Option ℕ → Bool
other_first none = true
other_first (some b) = not (b == hello_full_dh)

unfoldable pub decode_hello_full : {E : Type 0} → List ℕ → Outcome E (Option HelloFull)
decode_hello_full payload =
    if other_first (get_elem? payload 0) || ltb (length payload) hello_full_dh_len
    then ok none
    else do
      ephemeral_pub ← slice payload 1 33
      nonce ← slice payload 33 hello_full_dh_len
      let auth_end = hello_full_dh_len + peer_auth_len
      if not (leb auth_end (length payload))
          then ok (
              some (record {
                ephemeral_pub = ephemeral_pub;
                nonce = nonce;
                peer_auth = none;
                grant = none;
              }))
          else do
            identity_pub ← slice payload hello_full_dh_len (hello_full_dh_len + 32)
            signature ← slice payload (hello_full_dh_len + 32) auth_end
            ok (
                some (record {
                  ephemeral_pub = ephemeral_pub;
                  nonce = nonce;
                  peer_auth = some (identity_pub, signature);
                  grant = grant_of payload auth_end (get_range? payload auth_end (auth_end + 2));
                }))
