-- ===== src/Proto/Hello/Ack/RoundTrip.antt =====
-- The payloads of HELLO_ACK that a daemon sends, and their decoder.
use native.Mathlib.Nat.{mod-eq_of_lt}
use favonius.Base.{
  ℕ, ◌+◌, ◌^◌, ◌<◌, ◌≤◌, ◌≡◌, refl, sym, ap, ◌∙◌, true, List, [], ◌∷◌, ◌++◌, Option, none, some,
  le→leb, ◌==◌, inl, inr, if◌then◌else◌, Bool-cases, ==_iff, length, slice, slice-middle,
  get_range?-middle, append_assoc, append-nil, lt→leb_false, get_range?-none, arith,
}
use favonius.Base.{Outcome, ok}
use favonius.Bytes.Endian.{to_be_bytes, from_be_bytes-to_be_bytes, lens}
use favonius.Proto.Hello.{
  HelloAckMode, plaintext, full_handshake, resumed, to_byte, from_byte, Pair, HelloAckPayload,
  capability_magic,
}
use favonius.Proto.Hello.Ack.{
  append_capabilities, capabilities_at, encode_hello_ack_payload, encode_hello_ack_resumed,
  material, decode_hello_ack_payload,
}

-- The block of capabilities, or nothing.
abbrev caps_bytes : ℕ → List ℕ
caps_bytes c = if c == 0 then [] else capability_magic ++ to_be_bytes 4 c

append_capabilities-bytes :
    (buf : List ℕ) (c : ℕ) → append_capabilities buf true c ≡ buf ++ caps_bytes c
append_capabilities-bytes buf c = elim (Bool-cases (c == 0)) [
  | inl z ↦ rw z (sym (append-nil buf))
  | inr n ↦ rw n (append_assoc buf capability_magic (to_be_bytes 4 c))
]

split :
    (front : List ℕ) (port c : ℕ)
    → front ++ (to_be_bytes 2 port ++ (capability_magic ++ to_be_bytes 4 c))
      ≡ (front ++ to_be_bytes 2 port) ++ ((capability_magic ++ to_be_bytes 4 c) ++ [])
split front port c =
    sym (append_assoc front (to_be_bytes 2 port) (capability_magic ++ to_be_bytes 4 c))
    ∙ ap (◌++◌ (front ++ to_be_bytes 2 port))
        (sym (append-nil (capability_magic ++ to_be_bytes 4 c)))

length-caps_bytes : (c : ℕ) → length (caps_bytes c) ≤ 6
length-caps_bytes c = elim (Bool-cases (c == 0)) [
  | inl z ↦ rw z (omega arith)
  | inr n ↦ rw n (omega lens)
]

-- The block is found behind the port, wherever that is.
capabilities_at-bytes :
    (front : List ℕ) (port c off : ℕ)
    → length front ≡ off
    → c < 256 ^ 4
    → capabilities_at (front ++ (to_be_bytes 2 port ++ caps_bytes c)) (some off) ≡ c
capabilities_at-bytes front port c off e h = elim (Bool-cases (c == 0)) [
  | inl z ↦
      rw
        (
          z,
          get_range?-none (front ++ (to_be_bytes 2 port ++ [])) (off + 2) (off + 2 + 6)
              (omega (lens, e)),
        )
        (sym ((==_iff c 0).0 z))
  | inr n ↦
      rw
        (
          n,
          split front port c,
          get_range?-middle (front ++ to_be_bytes 2 port) (capability_magic ++ to_be_bytes 4 c) []
              (off + 2) (off + 2 + 6) (omega (lens, e)) (omega lens),
          from_be_bytes-to_be_bytes 4 c,
        )
        (mod-eq_of_lt h)
]

-- An array of `n` bytes.
abbrev pub IsArray : ℕ → List ℕ → Type 0
IsArray n bytes = length bytes ≡ n

abbrev pub ack :
    HelloAckMode → Option ℕ → Option Pair → Option Pair → Option (List ℕ) → ℕ → HelloAckPayload
ack mode port dh auth nonce caps = record {
  mode = mode;
  data_port = port;
  dh_material = dh;
  auth_material = auth;
  resume_server_nonce = nonce;
  capabilities = caps;
}

-- The acknowledgements that a daemon sends: four with a port, and the bare one that says busy.
pub data IsAck : HelloAckPayload → Type 0 where
  plain_ack :
      (port caps : ℕ)
      → port < 256 ^ 2
      → caps < 256 ^ 4
      → IsAck (ack plaintext (some port) none none none caps)
  full_ack :
      (port caps : ℕ) (public nonce : List ℕ)
      → port < 256 ^ 2
      → caps < 256 ^ 4
      → IsArray 32 public
      → IsArray 16 nonce
      → IsAck (ack full_handshake (some port) (some (public, nonce)) none none caps)
  signed_ack :
      (port caps : ℕ) (public nonce identity signature : List ℕ)
      → port < 256 ^ 2
      → caps < 256 ^ 4
      → IsArray 32 public
      → IsArray 16 nonce
      → IsArray 32 identity
      → IsArray 64 signature
      → IsAck (
          ack full_handshake
            (some port)
            (some (public, nonce))
            (some (identity, signature))
            none
            caps)
  resumed_ack :
      (port caps : ℕ) (nonce : List ℕ)
      → port < 256 ^ 2
      → caps < 256 ^ 4
      → IsArray 16 nonce
      → IsAck (ack resumed (some port) none none (some nonce) caps)
  busy_ack : (mode : HelloAckMode) → IsAck (ack mode none none none none 0)

-- A server nonce goes with `encode_hello_ack_resumed`, all else with `encode_hello_ack_payload`.
abbrev pub sent : HelloAckPayload → List ℕ
sent a = by_nonce a.resume_server_nonce
  where
    by_nonce : Option (List ℕ) → List ℕ
    by_nonce none =
        encode_hello_ack_payload a.mode a.data_port a.dh_material a.auth_material a.capabilities
    by_nonce (some nonce) = encode_hello_ack_resumed a.data_port nonce a.capabilities

module _ {E : Type 0} where
  first_slice : (a b tail : List ℕ) → length a ≡ 32 → slice {E = E} ((a ++ b) ++ tail) 0 32 ≡ ok a
  first_slice a b tail h =
      rw (append_assoc a b tail) (slice-middle [] a (b ++ tail) 0 32 refl (omega (arith, h)))

  second_slice :
      (a b tail : List ℕ)
      → length a ≡ 32
      → length b ≡ 16
      → slice {E = E} ((a ++ b) ++ tail) 32 48 ≡ ok b
  second_slice a b tail ha hb =
      rw (append_assoc a b tail) (slice-middle a b tail 32 48 ha (omega (arith, hb)))

  third_slice :
      (front a b tail : List ℕ) (lo hi : ℕ)
      → length front ≡ lo
      → lo + length a ≡ hi
      → slice {E = E} (front ++ ((a ++ b) ++ tail)) lo hi ≡ ok a
  third_slice front a b tail lo hi p q =
      rw (append_assoc a b tail) (slice-middle front a (b ++ tail) lo hi p q)

  fourth_slice :
      (front a b tail : List ℕ) (lo hi : ℕ)
      → length (front ++ a) ≡ lo
      → lo + length b ≡ hi
      → slice {E = E} (front ++ ((a ++ b) ++ tail)) lo hi ≡ ok b
  fourth_slice front a b tail lo hi p q =
      rw (append_assoc a b tail, ← append_assoc front a (b ++ tail))
        (slice-middle (front ++ a) b tail lo hi p q)

-- Each acknowledgement that a daemon sends is decoded, without a panic, to the mode, port, keys,
-- signature, nonce and capabilities that it was made of.
pub decode_hello_ack_payload-sent :
    {E : Type 0} (a : HelloAckPayload)
    → IsAck a
    → decode_hello_ack_payload {E = E} (sent a) ≡ ok (some a)
unfolding decode_hello_ack_payload encode_hello_ack_payload encode_hello_ack_resumed material
    to_byte from_byte
decode_hello_ack_payload-sent a (plain_ack port caps hp hc) = rw (
  append_capabilities-bytes (0x00 ∷ to_be_bytes 2 port) caps,
  le→leb 2 (length (to_be_bytes 2 port ++ caps_bytes caps)) (omega lens),
  get_range?-middle [] (to_be_bytes 2 port) (caps_bytes caps) 0 2 refl (omega lens),
  from_be_bytes-to_be_bytes 2 port,
  mod-eq_of_lt hp,
  capabilities_at-bytes [] port caps 0 refl hc,
)
decode_hello_ack_payload-sent {E = E} a (full_ack port caps public nonce hp hc h1 h2) =
    let tail : List ℕ = to_be_bytes 2 port ++ caps_bytes caps in
    let rest : List ℕ = (public ++ nonce) ++ tail in
    rw (
      append_capabilities-bytes (0x01 ∷ ((public ++ nonce) ++ to_be_bytes 2 port)) caps,
      append_assoc (public ++ nonce) (to_be_bytes 2 port) (caps_bytes caps),
      le→leb 48 (length rest) (omega (lens, h1, h2)),
      first_slice {E = E} public nonce tail h1,
      second_slice {E = E} public nonce tail h1 h2,
      lt→leb_false 144 (length rest) (omega (lens, h1, h2, length-caps_bytes caps)),
      get_range?-middle (public ++ nonce) (to_be_bytes 2 port) (caps_bytes caps) 48 50
          (omega (lens, h1, h2)) (omega lens),
      from_be_bytes-to_be_bytes 2 port,
      mod-eq_of_lt hp,
      capabilities_at-bytes (public ++ nonce) port caps 48 (omega (lens, h1, h2)) hc,
    )
decode_hello_ack_payload-sent {E = E} a
      (signed_ack port caps public nonce identity signature hp hc h1 h2 h3 h4) =
    let tail : List ℕ = to_be_bytes 2 port ++ caps_bytes caps in
    let front : List ℕ = (public ++ nonce) ++ (identity ++ signature) in
    let rest : List ℕ = front ++ tail in
    let inner : List ℕ = (identity ++ signature) ++ tail in
    let e : rest ≡ (public ++ nonce) ++ inner =
      append_assoc (public ++ nonce) (identity ++ signature) tail in
    let at : ℕ → ℕ → List ℕ → Outcome E (List ℕ) = λ lo hi r. slice r lo hi in
    let s1 : slice {E = E} rest 0 32 ≡ ok public =
      ap (at 0 32) e ∙ first_slice {E = E} public nonce inner h1 in
    let s2 : slice {E = E} rest 32 48 ≡ ok nonce =
      ap (at 32 48) e ∙ second_slice {E = E} public nonce inner h1 h2 in
    let s3 : slice {E = E} rest 48 80 ≡ ok identity =
      ap (at 48 80) e
      ∙ third_slice {E = E} (public ++ nonce) identity signature tail 48 80 (omega (lens, h1, h2))
          (omega (arith, h3)) in
    let s4 : slice {E = E} rest 80 144 ≡ ok signature =
      ap (at 80 144) e
      ∙ fourth_slice {E = E} (public ++ nonce) identity signature tail 80 144
          (omega (lens, h1, h2, h3)) (omega (arith, h4)) in
    rw (
      append_capabilities-bytes (0x01 ∷ (front ++ to_be_bytes 2 port)) caps,
      append_assoc front (to_be_bytes 2 port) (caps_bytes caps),
      le→leb 48 (length rest) (omega (lens, h1, h2)),
      le→leb 144 (length rest) (omega (lens, h1, h2, h3, h4)),
      s1,
      s2,
      s3,
      s4,
      get_range?-middle front (to_be_bytes 2 port) (caps_bytes caps) 144 146
          (omega (lens, h1, h2, h3, h4)) (omega lens),
      from_be_bytes-to_be_bytes 2 port,
      mod-eq_of_lt hp,
      capabilities_at-bytes front port caps 144 (omega (lens, h1, h2, h3, h4)) hc,
    )
decode_hello_ack_payload-sent a (resumed_ack port caps nonce hp hc h) =
    let rest : List ℕ = nonce ++ (to_be_bytes 2 port ++ caps_bytes caps) in
    rw (
      append_capabilities-bytes (0x02 ∷ (nonce ++ to_be_bytes 2 port)) caps,
      append_assoc nonce (to_be_bytes 2 port) (caps_bytes caps),
      le→leb 16 (length rest) (omega (lens, h)),
      slice-middle [] nonce (to_be_bytes 2 port ++ caps_bytes caps) 0 16 refl (omega (arith, h)),
      get_range?-middle nonce (to_be_bytes 2 port) (caps_bytes caps) 16 18 h (omega lens),
      from_be_bytes-to_be_bytes 2 port,
      mod-eq_of_lt hp,
      capabilities_at-bytes nonce port caps 16 h hc,
    )
decode_hello_ack_payload-sent a (busy_ack plaintext) = refl
decode_hello_ack_payload-sent a (busy_ack full_handshake) = refl
decode_hello_ack_payload-sent a (busy_ack resumed) = refl
