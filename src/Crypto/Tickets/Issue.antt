-- ===== src/Crypto/Tickets/Issue.antt =====
-- Tickets from their issue to their use, and their bytes (session_ticket.rs).
use mathlib.Core.Path.{subst}
use native.Mathlib.Nat.{mod-eq_of_lt}
use favonius.Base.{
  ℕ, ◌+◌, ◌%◌, ◌^◌, ◌<◌, ◌≡◌, refl, sym, ap, ap₂, ◌∙◌, Bool, true, false, List, [], ◌++◌,
  append-nil, Option, some, ltb, le→ltb_false, if◌then◌else◌, length, length-append, Outcome, ok,
  err, ◌>>=◌, ◌>>◌, fail_if, slice, slice_back, From, From-slice, ok-bind, pass-guard, arith,
}
use favonius.Bytes.LittleEndian.{
  to_le_bytes, from_le_bytes, length-to_le_bytes, from_le_bytes-to_le_bytes,
}
use favonius.Crypto.Aead.{Aead}
use favonius.Crypto.Nonce.{nonce_for, length-nonce_for}
use favonius.Crypto.Tickets.{
  SessionTicket, TicketKey, CryptoError, decryption_failed, ticket_aad, ticket_plaintext, or_failed,
  issue, decrypt,
}

pub From-all : (s : List ℕ) → From s 0 s
From-all s = record { rests = refl; ends = omega arith }

guard_if :
    (c : Bool) (s : List ℕ)
    → ◌≡◌ {A = Outcome CryptoError (List ℕ)}
        (fail_if c decryption_failed >> ok s)
        (if c then err decryption_failed else ok s)
guard_if true s = refl
guard_if false s = refl

module _ (aead : Aead) where
  abbrev pub ticket_of : ℕ → TicketKey → List ℕ → ℕ → List ℕ → SessionTicket
  ticket_of now key secret ttl sealed = record {
    encrypted_data = nonce_for key.iv key.counter ++ sealed;
    issued_at = now;
    lifetime = ttl % 2 ^ 32;
  }

  -- What the types of the source say of the arguments of `issue`, and that the cipher sealed the ticket.
  pub record Issued (key : TicketKey) (secret : List ℕ) (now ttl : ℕ) (sealed : List ℕ)
      : Type 0 where
    pub iv_size : length key.iv ≡ 12
    pub secret_size : length secret ≡ 32
    pub ttl_fits : ttl < 256 ^ 4
    pub end_fits : now + ttl < 256 ^ 8
    pub seals :
        aead.encrypt key.encryption_key
          (nonce_for key.iv key.counter)
          ticket_aad
          (ticket_plaintext secret now ttl)
        ≡ some sealed

  opened :
      (key : TicketKey) (secret : List ℕ) (now ttl later : ℕ) (sealed : List ℕ)
      → Issued key secret now ttl sealed
      → decrypt aead later key (ticket_of now key secret ttl sealed)
        ≡ (fail_if (ltb (now + ttl) later) decryption_failed >> ok secret)
  unfolding decrypt
  opened key secret now ttl later sealed h =
      pass-guard (ltb (length blob) (12 + 16)) decryption_failed _
        (le→ltb_false _ _ (
          omega (
            arith,
            length-append nonce sealed,
            nonce_size,
            aead.encrypt_size _ _ _ _ (h.seals),
            plain_size,
          )))
        (ok-bind _ nonce_part.0 (
          ok-bind _ (slice_back nonce sealed 12 nonce_size) (
            ok-bind {a = plain} _ (ap or_failed (aead.decrypt-encrypt _ _ _ _ (h.seals))) (
              pass-guard (ltb (length plain) 44) decryption_failed _
                (le→ltb_false _ _ (omega (arith, plain_size)))
                (ok-bind _ issued_part.0 (
                  ok-bind _ lifetime_part.0 (
                    ap₂
                      (λ (n : ℕ) (r : Outcome CryptoError (List ℕ)).
                        fail_if (ltb n later) decryption_failed >> r)
                      ends secret_part.0)))))))
    where
      nonce : List ℕ
      nonce = nonce_for key.iv key.counter

      nonce_size : length nonce ≡ 12
      nonce_size = length-nonce_for key.iv key.counter ∙ h.iv_size

      blob : List ℕ
      blob = nonce ++ sealed

      plain : List ℕ
      plain = ticket_plaintext secret now ttl

      nonce_part : (slice {E = CryptoError} blob 0 12 ≡ ok nonce) × From blob 12 sealed
      nonce_part = From-slice {lo = 0} nonce sealed 12 (omega (arith, nonce_size)) (From-all blob)

      issued : List ℕ
      issued = to_le_bytes 8 now

      lifetime : List ℕ
      lifetime = to_le_bytes 4 (ttl % 2 ^ 32)

      secret_part :
          (slice {E = CryptoError} plain 0 32 ≡ ok secret) × From plain 32 (issued ++ lifetime)
      secret_part =
          From-slice {lo = 0} secret (issued ++ lifetime) 32 (omega (arith, h.secret_size))
            (From-all plain)

      issued_part : (slice {E = CryptoError} plain 32 40 ≡ ok issued) × From plain 40 lifetime
      issued_part =
          From-slice issued lifetime 40 (omega (arith, length-to_le_bytes 8 now)) secret_part.1

      lifetime_part : (slice {E = CryptoError} plain 40 44 ≡ ok lifetime) × From plain 44 []
      lifetime_part =
          From-slice lifetime [] 44 (omega (arith, length-to_le_bytes 4 (ttl % 2 ^ 32)))
            (subst (From plain 40) (sym (append-nil lifetime)) issued_part.1)

      plain_size : length plain ≡ 44
      plain_size = omega (
        arith,
        length-append secret (issued ++ lifetime),
        length-append issued lifetime,
        h.secret_size,
        length-to_le_bytes 8 now,
        length-to_le_bytes 4 (ttl % 2 ^ 32),
      )

      ends : (from_le_bytes issued + from_le_bytes lifetime) % 2 ^ 64 ≡ now + ttl
      ends =
          ap₂ (λ (a b : ℕ). (a + b) % 2 ^ 64)
            (from_le_bytes-to_le_bytes 8 now (omega (arith, h.end_fits)))
            (from_le_bytes-to_le_bytes 4 (ttl % 2 ^ 32) (omega arith) ∙ mod-eq_of_lt (h.ttl_fits))
          ∙ mod-eq_of_lt (h.end_fits)

  counter_free :
      (key : TicketKey) (n later : ℕ) (t : SessionTicket)
      → decrypt aead later (record key { counter = n }) t ≡ decrypt aead later key t
  unfolding decrypt
  counter_free key n later t = refl

  -- A ticket that was issued for a secret opens under the daemon's key, its counter moved on, to that
  -- secret at every second up to the one in which its lifetime ends, and to an error after that.
  pub decrypt-issue :
      (key : TicketKey) (secret : List ℕ) (now ttl later : ℕ) (sealed : List ℕ)
      → Issued key secret now ttl sealed
      → ((issue aead now key secret ttl).0 ≡ ok (ticket_of now key secret ttl sealed))
        × (decrypt aead later
              (issue aead now key secret ttl).1
              (ticket_of now key secret ttl sealed)
            ≡ (if ltb (now + ttl) later then err decryption_failed else ok secret))
  unfolding issue
  decrypt-issue key secret now ttl later sealed h = (
    ap
        (λ (o : Option (List ℕ)). or_failed o >>= (λ (bytes : List ℕ). ok (record {
          encrypted_data = nonce_for key.iv key.counter ++ bytes;
          issued_at = now;
          lifetime = ttl % 2 ^ 32;
        })))
        (h.seals),
    counter_free key (key.counter + 1) later (ticket_of now key secret ttl sealed)
        ∙ opened key secret now ttl later sealed h
        ∙ guard_if (ltb (now + ttl) later) secret,
  )
