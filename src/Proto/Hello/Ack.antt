-- ===== src/Proto/Hello/Ack.antt =====
-- crates/ahp-proto/src/hello.rs: the payload of HELLO_ACK.
pub mod RoundTrip
pub mod Total
use favonius.Base.{
  ℕ, ◌+◌, ◌-◌, Bool, true, false, not, ◌||◌, List, [], ◌∷◌, ◌++◌, Option, none, some, leb, ◌==◌,
  if◌then◌else◌, length, take, drop, slice, get_range?, same_bytes,
}
use favonius.Base.{Outcome, ok, err, panic, ◌>>=◌}
use favonius.Bytes.Endian.{to_be_bytes, from_be_bytes}
use favonius.Proto.Hello.{
  HelloAckMode, plaintext, full_handshake, resumed, to_byte, from_byte, Pair, HelloAckPayload,
  capability_magic, cap_none, append_some,
}

abbrev pub capability_block_len : ℕ
capability_block_len = 2 + 4

abbrev pub dh_material_len : ℕ
dh_material_len = 32 + 16

abbrev pub auth_material_len : ℕ
auth_material_len = 32 + 64

abbrev pub is_some {ℓ} : {A : Type ℓ} → Option A → Bool
is_some none = false
is_some (some a) = true

abbrev pub append_capabilities : List ℕ → Bool → ℕ → List ℕ
append_capabilities buf has_port capabilities =
    if capabilities == cap_none || not has_port
    then buf
    else (buf ++ capability_magic) ++ to_be_bytes 4 capabilities

abbrev pub pair_bytes : Pair → List ℕ
pair_bytes (a, b) = a ++ b

unfoldable pub encode_hello_ack_payload :
    HelloAckMode → Option ℕ → Option Pair → Option Pair → ℕ → List ℕ
encode_hello_ack_payload mode data_port dh_material auth_material capabilities =
    let buf = to_byte mode ∷ [] in
    let buf = append_some dh_material pair_bytes buf in
    let buf = append_some auth_material pair_bytes buf in
    let buf = append_some data_port (to_be_bytes 2) buf in
    append_capabilities buf (is_some data_port) capabilities

unfoldable pub encode_hello_ack_resumed : Option ℕ → List ℕ → ℕ → List ℕ
encode_hello_ack_resumed data_port server_nonce capabilities =
    let buf = (to_byte resumed ∷ []) ++ server_nonce in
    let buf = append_some data_port (to_be_bytes 2) buf in
    append_capabilities buf (is_some data_port) capabilities

-- What the `match` on the mode assigns.
pub record Material : Type 0 where
  pub dh : Option Pair
  pub auth : Option Pair
  pub nonce : Option (List ℕ)
  pub port_at : Option ℕ
  pub port_bytes : Option (List ℕ)

abbrev no_material : Option ℕ → Option (List ℕ) → Material
no_material at bytes = record {
  dh = none;
  auth = none;
  nonce = none;
  port_at = at;
  port_bytes = bytes;
}

-- The last two arms.
abbrev pub tail_port : {E : Type 0} → List ℕ → Outcome E Material
tail_port rest =
    if not (leb 2 (length rest))
    then ok (no_material none none)
    else do bytes ← slice rest (length rest - 2) (length rest); ok (no_material none (some bytes))

unfoldable pub material : {E : Type 0} → HelloAckMode → List ℕ → Outcome E Material
material full_handshake rest =
    if not (leb dh_material_len (length rest)) then tail_port rest else do
      public ← slice rest 0 32
      nonce ← slice rest 32 dh_material_len
      let auth_end = dh_material_len + auth_material_len
      if not (leb auth_end (length rest))
          then ok (record {
            dh = some (public, nonce);
            auth = none;
            nonce = none;
            port_at = some dh_material_len;
            port_bytes = get_range? rest dh_material_len (dh_material_len + 2);
          })
          else do
            identity_pub ← slice rest dh_material_len (dh_material_len + 32)
            signature ← slice rest (dh_material_len + 32) auth_end
            ok (record {
              dh = some (public, nonce);
              auth = some (identity_pub, signature);
              nonce = none;
              port_at = some auth_end;
              port_bytes = get_range? rest auth_end (auth_end + 2);
            })
material resumed rest = if not (leb 16 (length rest)) then tail_port rest else do
  nonce ← slice rest 0 16
  ok (record {
    dh = none;
    auth = none;
    nonce = some nonce;
    port_at = some 16;
    port_bytes = get_range? rest 16 18;
  })
material plaintext rest =
    if leb 2 (length rest) then ok (no_material (some 0) (get_range? rest 0 2)) else tail_port rest

abbrev pub block_capabilities : Option (List ℕ) → ℕ
block_capabilities none = cap_none
block_capabilities (some block) =
    if same_bytes (take 2 block) capability_magic then from_be_bytes (drop 2 block) else cap_none

abbrev pub capabilities_at : List ℕ → Option ℕ → ℕ
capabilities_at rest none = cap_none
capabilities_at rest (some off) =
    let cap_start = off + 2 in
    block_capabilities (get_range? rest cap_start (cap_start + capability_block_len))

abbrev pub port_of : Option (List ℕ) → Option ℕ
port_of none = none
port_of (some b) = some (from_be_bytes b)

abbrev pub with_mode :
    {E : Type 0} → Option HelloAckMode → List ℕ → Outcome E (Option HelloAckPayload)
with_mode none rest = ok none
with_mode (some mode) rest = do
  m ← material mode rest
  ok (
      some (record {
        mode = mode;
        data_port = port_of m.port_bytes;
        dh_material = m.dh;
        auth_material = m.auth;
        resume_server_nonce = m.nonce;
        capabilities = capabilities_at rest m.port_at;
      }))

unfoldable pub decode_hello_ack_payload : {E : Type 0} → List ℕ → Outcome E (Option HelloAckPayload)
decode_hello_ack_payload [] = ok none
decode_hello_ack_payload (mode_byte ∷ rest) = with_mode (from_byte mode_byte) rest
