-- ===== src/Crypto/Tickets.antt =====
-- crates/ahp-crypto/src/session_ticket.rs: tickets that resume a session, and the cache that refuses a
-- ticket that was used. The clock is an argument, in seconds; the sum of the two authenticated fields
-- wraps as in a release build. The keys that are derived from a ticket are not modelled.
pub mod Issue
pub mod Bytes
pub mod Cache
use favonius.Base.{
  ℕ, ◌+◌, ◌-◌, ◌*◌, ◌%◌, ◌^◌, min, Bool, true, false, not, List, [], ◌∷◌, ◌++◌, Option, none, some,
  ltb, if◌then◌else◌, length, take, drop, same_bytes, Outcome, ok, err, panic, ◌>>=◌, ◌>>◌, fail_if,
  slice,
}
use favonius.Bytes.LittleEndian.{to_le_bytes, from_le_bytes}
use favonius.Crypto.Aead.{Aead}
use favonius.Crypto.Nonce.{nonce_for}

pub record SessionTicket : Type 0 where
  pub encrypted_data : List ℕ
  pub issued_at : ℕ
  pub lifetime : ℕ

pub record TicketKey : Type 0 where
  pub encryption_key : List ℕ
  pub iv : List ℕ
  pub counter : ℕ

-- The errors of ahp-crypto that these functions give.
pub data CryptoError : Type 0 where
  decryption_failed : CryptoError

-- `ahp-session-ticket`
abbrev pub ticket_aad : List ℕ
ticket_aad =
    0x61 ∷ 0x68 ∷ 0x70 ∷ 0x2D ∷ 0x73 ∷ 0x65 ∷ 0x73 ∷ 0x73 ∷ 0x69 ∷ 0x6F ∷ 0x6E ∷ 0x2D ∷ 0x74 ∷ 0x69
    ∷ 0x63 ∷ 0x6B ∷ 0x65 ∷ 0x74 ∷ []

-- `map_err` of what the cipher gives.
abbrev pub or_failed : Option (List ℕ) → Outcome CryptoError (List ℕ)
or_failed none = err decryption_failed
or_failed (some bytes) = ok bytes

abbrev pub ticket_plaintext : List ℕ → ℕ → ℕ → List ℕ
ticket_plaintext resume_secret now ttl =
    resume_secret ++ (to_le_bytes 8 now ++ to_le_bytes 4 (ttl % 2 ^ 32))

module _ (aead : Aead) where
  -- The ticket, and the key with its counter moved on.
  unfoldable pub issue : ℕ → TicketKey → List ℕ → ℕ → Outcome CryptoError SessionTicket × TicketKey
  issue now key resume_secret ttl =
      let nonce = nonce_for key.iv key.counter in
      let encrypted =
        aead.encrypt key.encryption_key nonce ticket_aad (ticket_plaintext resume_secret now ttl) in
      (
        or_failed encrypted >>= λ sealed.
            ok (record {
              encrypted_data = nonce ++ sealed;
              issued_at = now;
              lifetime = ttl % 2 ^ 32;
            }),
        record key { counter = key.counter + 1 },
      )

  unfoldable pub decrypt : ℕ → TicketKey → SessionTicket → Outcome CryptoError (List ℕ)
  decrypt now key ticket = do
    let blob = ticket.encrypted_data
    fail_if (ltb (length blob) (12 + 16)) decryption_failed
    nonce ← slice blob 0 12
    ciphertext ← slice blob 12 (length blob)
    plaintext ← or_failed (aead.decrypt key.encryption_key nonce ticket_aad ciphertext)
    fail_if (ltb (length plaintext) 44) decryption_failed
    issued_at ← slice plaintext 32 40
    lifetime ← slice plaintext 40 44
    fail_if (ltb ((from_le_bytes issued_at + from_le_bytes lifetime) % 2 ^ 64) now)
        decryption_failed
    slice plaintext 0 32

-- Identifiers of used tickets, with the second from which they are forgotten.
abbrev pub UsedTicketCache : Type 0
UsedTicketCache = List (List ℕ × ℕ)

unfoldable pub retain : ℕ → UsedTicketCache → UsedTicketCache
retain now [] = []
retain now ((id, expiry) ∷ used) =
    let rest = retain now used in if ltb now expiry then (id, expiry) ∷ rest else rest

unfoldable pub contains_key : UsedTicketCache → List ℕ → Bool
contains_key [] id = false
contains_key ((k, expiry) ∷ used) id =
    let rest = contains_key used id in if same_bytes k id then true else rest

module _ (sha256 : List ℕ → List ℕ) where
  abbrev pub ticket_id : SessionTicket → List ℕ
  ticket_id ticket = take 16 (sha256 ticket.encrypted_data)

  unfoldable pub check_and_record : ℕ → SessionTicket → UsedTicketCache → Bool × UsedTicketCache
  check_and_record now ticket cache =
      let used = retain now cache in
      let id = ticket_id ticket in
      let lifetime = min ticket.lifetime (24 * 3600) in
      if contains_key used id
      then (false, used)
      else (true, (id, min (now + lifetime) (2 ^ 64 - 1)) ∷ used)

unfoldable pub encode_ticket : SessionTicket → List ℕ
encode_ticket ticket =
    let buf = to_le_bytes 4 (length ticket.encrypted_data % 2 ^ 32) in
    let buf = buf ++ ticket.encrypted_data in
    let buf = buf ++ to_le_bytes 8 ticket.issued_at in buf ++ to_le_bytes 4 ticket.lifetime

-- The outer `err` is `None`.
unfoldable pub decode_ticket : List ℕ → Outcome (Unit {0}) SessionTicket
decode_ticket bytes = do
  fail_if (ltb (length bytes) 16) tt
  data_len ← slice bytes 0 4
  let data_len = from_le_bytes data_len
  fail_if (ltb (length bytes) (4 + data_len + 12)) tt
  encrypted_data ← slice bytes 4 (4 + data_len)
  let off = 4 + data_len
  issued_at ← slice bytes off (off + 8)
  lifetime ← slice bytes (off + 8) (off + 12)
  ok (record {
    encrypted_data = encrypted_data;
    issued_at = from_le_bytes issued_at;
    lifetime = from_le_bytes lifetime;
  })
