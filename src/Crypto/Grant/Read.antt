-- ===== src/Crypto/Grant/Read.antt =====
-- Grants from writing to reading (Grant::sign, Grant::parse).
use mathlib.Core.Path.{subst}
use native.Mathlib.Nat.{mod-eq_of_lt}
use favonius.Base.{
  ℕ, ◌+◌, ◌/◌, ◌%◌, ◌^◌, ◌≤◌, ◌≡◌, refl, sym, ap, ◌∙◌, true, false, not, ◌||◌, List, [], ◌∷◌, ◌++◌,
  append_assoc, append-nil, ltb, ◌==◌, ==_refl, le→ltb_false, length, drop, ok, fail_if, ◌>>=◌,
  ◌>>◌, slice, length-append, From, From-slice, From-index, ok-bind, pass-guard, arith,
}
use favonius.Bytes.Endian.{to_be_bytes, from_be_bytes, from_be_bytes-to_be_bytes, lens}
use favonius.Bytes.Utf8.{from_utf8}
use favonius.Crypto.Grant.{
  Grant, GrantError, malformed, unsupported_version, push_str, signing_bytes, take_str, parse,
  grant_domain, max_field,
}
use favonius.Crypto.Grant.Wire.{Fits, string_bytes, wire_bytes}

both_false : (a b c d : ℕ) → b ≤ a → d ≤ c → (ltb a b || ltb c d) ≡ false
both_false a b c d p q = ground arith

length_read :
    (text : List ℕ)
    → length text ≤ max_field
    → from_be_bytes (to_be_bytes 2 (length text)) ≡ length text
length_read text short = from_be_bytes-to_be_bytes 2 (length text) ∙ mod-eq_of_lt (omega arith)

-- A string is read, and the index is moved behind it.
take_str-string_bytes :
    (s : List ℕ) (at : ℕ) (text rest : List ℕ)
    → length text ≤ max_field
    → from_utf8 text ≡ true
    → From s at (string_bytes text rest)
    → (take_str s at ≡ ok (text, at + 2 + length text)) × From s (at + 2 + length text) rest
unfolding take_str to_be_bytes
take_str-string_bytes s at text rest short valid f = (
  pass-guard (ltb (length s) (at + 2)) malformed _ (le→ltb_false _ _ (omega (arith, f.ends))) (
      ok-bind _ (From-index high _ f).0 (
        ok-bind _ (From-index low _ f1).0 (
          subst
            (λ (n : ℕ).
              (fail_if (ltb max_field n || ltb (length s) (at + 2 + n)) malformed
                >> (slice s (at + 2) (at + 2 + n) >>= (λ t.
                    ◌>>◌ {B = List ℕ × ℕ} (fail_if (not (from_utf8 t)) malformed)
                      (ok (t, at + 2 + n)))))
              ≡ ok (text, at + 2 + length text))
            (sym (length_read text short))
            (pass-guard _ malformed _ (both_false max_field (length text) _ _ short end)
              (ok-bind _ part.0 (pass-guard _ malformed _ (ap not valid) refl)))))),
  part.1,
)
  where
    high : ℕ
    high = length text / 256 ^ 1 % 256

    low : ℕ
    low = length text / 256 ^ 0 % 256

    f1 : From s (at + 1) (low ∷ (text ++ rest))
    f1 = (From-index {E = GrantError} high _ f).1

    f2 : From s (at + 2) (text ++ rest)
    f2 =
        subst (λ (i : ℕ). From s i (text ++ rest)) (omega arith)
          (From-index {E = GrantError} low _ f1).1

    part :
        (slice {E = GrantError} s (at + 2) (at + 2 + length text) ≡ ok text)
        × From s (at + 2 + length text) rest
    part = From-slice text rest (at + 2 + length text) refl f2

    end : at + 2 + length text ≤ length s
    end = omega (arith, f2.ends, length-append text rest)

-- What is written is read as the grant and the signature.
pub parse-wire_bytes :
    (g : Grant) (signature : List ℕ)
    → Fits g
    → length signature ≡ 64
    → parse (wire_bytes g signature) ≡ ok (g, signature)
unfolding parse
parse-wire_bytes g signature h e = pass-guard _ malformed _ (le→ltb_false _ _ long) (
    pass-guard false (unsupported_version 1) _ refl (
      ok-bind _ source.0 (
        ok-bind _ destination.0 (
          ok-bind _ na.0 (
            ok-bind _ run_id.0 (
              ok-bind _ path.0 (
                pass-guard _ malformed _
                  (ap not (subst (λ (n : ℕ). (length s == n) ≡ true) end (==_refl (length s))))
                  (ok-bind _ sig.0
                    (ap (λ (n : ℕ). ok (record g { not_after = n }, signature)) expiry)))))))))
  where
    s : List ℕ
    s = wire_bytes g signature

    after_path : List ℕ
    after_path = string_bytes g.path_prefix signature

    after_na : List ℕ
    after_na = string_bytes g.run_id after_path

    f1 : From s 1 (g.source ++ (g.destination ++ (to_be_bytes 8 g.not_after ++ after_na)))
    f1 = record { rests = refl; ends = omega arith }

    source :
        (slice {E = GrantError} s 1 33 ≡ ok g.source)
        × From s 33 (g.destination ++ (to_be_bytes 8 g.not_after ++ after_na))
    source = From-slice g.source _ 33 (omega (arith, h.source_size)) f1

    destination :
        (slice {E = GrantError} s 33 65 ≡ ok g.destination)
        × From s 65 (to_be_bytes 8 g.not_after ++ after_na)
    destination = From-slice g.destination _ 65 (omega (arith, h.destination_size)) source.1

    na : (slice {E = GrantError} s 65 73 ≡ ok (to_be_bytes 8 g.not_after)) × From s 73 after_na
    na = From-slice (to_be_bytes 8 g.not_after) _ 73 (omega lens) destination.1

    at1 : ℕ
    at1 = 73 + 2 + length g.run_id

    run_id : (take_str s 73 ≡ ok (g.run_id, at1)) × From s at1 after_path
    run_id = take_str-string_bytes s 73 g.run_id after_path (h.run_id_short) (h.run_id_utf8) na.1

    at2 : ℕ
    at2 = at1 + 2 + length g.path_prefix

    path : (take_str s at1 ≡ ok (g.path_prefix, at2)) × From s at2 signature
    path =
        take_str-string_bytes s at1 g.path_prefix signature (h.path_prefix_short)
          (h.path_prefix_utf8) run_id.1

    end : length s ≡ at2 + 64
    end = omega (arith, (path.1).ends)

    long : 141 ≤ length s
    long = omega (arith, end)

    sig : (slice {E = GrantError} s at2 (at2 + 64) ≡ ok signature) × From s (at2 + 64) []
    sig =
        From-slice signature [] (at2 + 64) (omega (arith, e))
          (subst (From s at2) (sym (append-nil signature)) path.1)

    expiry : from_be_bytes (to_be_bytes 8 g.not_after) ≡ g.not_after
    expiry = from_be_bytes-to_be_bytes 8 g.not_after ∙ mod-eq_of_lt (h.not_after_fits)

short_length : (s : List ℕ) → length s ≤ max_field → length s % 2 ^ 16 ≡ length s
short_length s h = mod-eq_of_lt (omega arith)

-- What is signed is the domain tag and what is sent.
pub signing_bytes-wire_bytes :
    (g : Grant) → Fits g → signing_bytes g ≡ grant_domain ++ wire_bytes g []
unfolding signing_bytes push_str
signing_bytes-wire_bytes g h =
    rw (short_length g.run_id (h.run_id_short), short_length g.path_prefix (h.path_prefix_short))
      (simp (append_assoc, append-nil))

pub wire_bytes-append :
    (g : Grant) (signature : List ℕ) → wire_bytes g [] ++ signature ≡ wire_bytes g signature
wire_bytes-append g signature = simp (append_assoc)

-- What follows the tag among the bytes that are signed, and a signature, are the bytes that are sent.
pub sent_bytes :
    (g : Grant) (signature : List ℕ)
    → Fits g
    → drop (length grant_domain) (signing_bytes g) ++ signature ≡ wire_bytes g signature
sent_bytes g signature h =
    ap (λ (b : List ℕ). drop 16 b ++ signature) (signing_bytes-wire_bytes g h)
    ∙ wire_bytes-append g signature
