-- ===== src/Crypto/Tickets/Bytes.antt =====
-- The bytes of a ticket (encode_ticket, decode_ticket).
use mathlib.Core.Path.{subst}
use native.Mathlib.Nat.{mod-eq_of_lt}
use favonius.Base.{
  ℕ, ◌+◌, ◌%◌, ◌^◌, ◌≤◌, ◌<◌, ◌≡◌, refl, sym, ap, ap₂, ◌∙◌, List, ◌++◌, append_assoc, ltb,
  le→ltb_false, length, Outcome, ok, ◌>>=◌, ◌>>◌, fail_if, slice, From, From-slice, ok-bind,
  pass-guard, arith,
}
use favonius.Bytes.LittleEndian.{
  to_le_bytes, from_le_bytes, length-to_le_bytes, from_le_bytes-to_le_bytes,
}
use favonius.Crypto.Tickets.{SessionTicket, encode_ticket, decode_ticket}
use favonius.Crypto.Tickets.Issue.{From-all}

-- The ranges of a ticket's fields.
pub record FitsTicket (t : SessionTicket) : Type 0 where
  pub data_fits : length t.encrypted_data < 256 ^ 4
  pub issued_at_fits : t.issued_at < 256 ^ 8
  pub lifetime_fits : t.lifetime < 256 ^ 4

-- A ticket whose fields have the ranges of their types, and whose blob is shorter than 4 GiB, is read back
-- from its bytes, whatever follows them.
pub decode_ticket-encode_ticket :
    (t : SessionTicket) (rest : List ℕ)
    → FitsTicket t
    → decode_ticket (encode_ticket t ++ rest) ≡ ok t
unfolding decode_ticket encode_ticket
decode_ticket-encode_ticket t rest h =
    ap decode_ticket flat
    ∙ (pass-guard (ltb (length s) 16) tt _ (le→ltb_false _ _ (omega (arith, all_size))) (
        ok-bind _ size_part.0 (
          subst (λ (n : ℕ). finish n ≡ ok t) (sym size)
            (pass-guard (ltb (length s) (4 + n + 12)) tt _
              (le→ltb_false _ _ (omega (arith, all_size)))
              (ok-bind _ blob_part.0 (
                ok-bind _ issued_part.0 (
                  ok-bind _ lifetime_part.0 (
                    ap₂
                      (λ (a b : ℕ).
                        ok (record {
                          encrypted_data = t.encrypted_data;
                          issued_at = a;
                          lifetime = b;
                        }))
                      (from_le_bytes-to_le_bytes 8 t.issued_at (h.issued_at_fits))
                      (from_le_bytes-to_le_bytes 4 t.lifetime (h.lifetime_fits))))))))))
  where
    n : ℕ
    n = length t.encrypted_data

    size_bytes : List ℕ
    size_bytes = to_le_bytes 4 (n % 2 ^ 32)

    issued : List ℕ
    issued = to_le_bytes 8 t.issued_at

    lifetime : List ℕ
    lifetime = to_le_bytes 4 t.lifetime

    s : List ℕ
    s = size_bytes ++ (t.encrypted_data ++ (issued ++ (lifetime ++ rest)))

    flat : encode_ticket t ++ rest ≡ s
    flat = simp (append_assoc)

    size : from_le_bytes size_bytes ≡ n
    size = from_le_bytes-to_le_bytes 4 (n % 2 ^ 32) (omega arith) ∙ mod-eq_of_lt (h.data_fits)

    finish : ℕ → Outcome (Unit {0}) SessionTicket
    finish k = do
      fail_if (ltb (length s) (4 + k + 12)) tt
      encrypted_data ← slice s 4 (4 + k)
      issued_at ← slice s (4 + k) (4 + k + 8)
      lifetime' ← slice s (4 + k + 8) (4 + k + 12)
      ok (record {
        encrypted_data = encrypted_data;
        issued_at = from_le_bytes issued_at;
        lifetime = from_le_bytes lifetime';
      })

    size_part :
        (slice {E = Unit {0}} s 0 4 ≡ ok size_bytes)
        × From s 4 (t.encrypted_data ++ (issued ++ (lifetime ++ rest)))
    size_part =
        From-slice {lo = 0} size_bytes _ 4 (omega (arith, length-to_le_bytes 4 (n % 2 ^ 32)))
          (From-all s)

    blob_part :
        (slice {E = Unit {0}} s 4 (4 + n) ≡ ok t.encrypted_data)
        × From s (4 + n) (issued ++ (lifetime ++ rest))
    blob_part = From-slice t.encrypted_data _ (4 + n) refl size_part.1

    issued_part :
        (slice {E = Unit {0}} s (4 + n) (4 + n + 8) ≡ ok issued)
        × From s (4 + n + 8) (lifetime ++ rest)
    issued_part =
        From-slice issued _ (4 + n + 8) (omega (arith, length-to_le_bytes 8 t.issued_at))
          blob_part.1

    lifetime_part :
        (slice {E = Unit {0}} s (4 + n + 8) (4 + n + 12) ≡ ok lifetime) × From s (4 + n + 12) rest
    lifetime_part =
        From-slice lifetime rest (4 + n + 12) (omega (arith, length-to_le_bytes 4 t.lifetime))
          issued_part.1

    all_size : 4 + n + 12 ≤ length s
    all_size = omega (arith, (lifetime_part.1).ends)
