-- ===== src/Crypto/Signatures/Transcripts.antt =====
-- What the transcripts of crates/ahp-crypto/src/signatures.rs tell apart.
use native.Mathlib.Nat.{mod-eq_of_lt}
use favonius.Base.{
  ℕ, ◌%◌, ◌^◌, ◌<◌, ◌≡◌, ◌≢◌, refl, sym, ap, ◌∙◌, List, [], ◌++◌, append_assoc, append-nil, length,
  take, drop, get_elem?, Option, some, take-append, drop-append, arith,
}
use favonius.Bytes.LittleEndian.{
  to_le_bytes, from_le_bytes, length-to_le_bytes, from_le_bytes-to_le_bytes,
}
use favonius.Crypto.Signatures.{
  handshake_domain, client_offer_domain, build_handshake_transcript, build_client_offer_transcript,
}
use favonius.Crypto.Grant.{Grant, signing_bytes, push_str}

-- Parts of one size are equal when what they begin is.
parts :
    (xs ys : List ℕ) {us vs : List ℕ}
    → length xs ≡ length ys
    → xs ++ us ≡ ys ++ vs
    → (xs ≡ ys) × (us ≡ vs)
parts xs ys {us} {vs} e h = (
  sym (take-append xs us (length xs) refl)
      ∙ ap (take (length xs)) h
      ∙ take-append ys vs (length xs) (sym e),
  sym (drop-append xs us (length xs) refl)
      ∙ ap (drop (length xs)) h
      ∙ drop-append ys vs (length xs) (sym e),
)

-- A nonce with its length before it.
abbrev with_length : List ℕ → List ℕ → List ℕ
with_length nonce rest = to_le_bytes 2 (length nonce % 2 ^ 16) ++ (nonce ++ rest)

length_inj :
    (m n : ℕ)
    → m < 2 ^ 16
    → n < 2 ^ 16
    → to_le_bytes 2 (m % 2 ^ 16) ≡ to_le_bytes 2 (n % 2 ^ 16)
    → m ≡ n
length_inj m n p q e =
    sym (mod-eq_of_lt p)
    ∙ sym (from_le_bytes-to_le_bytes 2 (m % 2 ^ 16) (omega arith))
    ∙ ap from_le_bytes e
    ∙ from_le_bytes-to_le_bytes 2 (n % 2 ^ 16) (omega arith)
    ∙ mod-eq_of_lt q

nonces :
    (m n : List ℕ) {us vs : List ℕ}
    → length m < 2 ^ 16
    → length n < 2 ^ 16
    → with_length m us ≡ with_length n vs
    → (m ≡ n) × (us ≡ vs)
nonces m n p q e =
    let sizes =
      parts (to_le_bytes 2 (length m % 2 ^ 16)) (to_le_bytes 2 (length n % 2 ^ 16)) same e in
    parts m n (length_inj _ _ p q sizes.0) sizes.1
  where
    same : length (to_le_bytes 2 (length m % 2 ^ 16)) ≡ length (to_le_bytes 2 (length n % 2 ^ 16))
    same = length-to_le_bytes 2 _ ∙ sym (length-to_le_bytes 2 _)

flat :
    (a b m n : List ℕ)
    → build_handshake_transcript a b m n
      ≡ handshake_domain ++ (a ++ (b ++ with_length m (with_length n [])))
unfolding build_handshake_transcript
flat a b m n = simp (append_assoc, append-nil)

flat_offer :
    (a m : List ℕ)
    → build_client_offer_transcript a m ≡ client_offer_domain ++ (a ++ with_length m [])
unfolding build_client_offer_transcript
flat_offer a m = simp (append_assoc, append-nil)

-- The keys and nonces of a handshake.
pub record Ends (l r m n : List ℕ) : Type 0 where
  pub local_size : length l ≡ 32
  pub remote_size : length r ≡ 32
  pub local_nonce : length m < 2 ^ 16
  pub remote_nonce : length n < 2 ^ 16

-- For keys of 32 bytes and nonces of less than 65536, the bytes that a handshake signs are the same only
-- for the same two keys and the same two nonces, each in its own place.
pub build_handshake_transcript-injective :
    (l r m n l' r' m' n' : List ℕ)
    → Ends l r m n
    → Ends l' r' m' n'
    → build_handshake_transcript l r m n ≡ build_handshake_transcript l' r' m' n'
    → (l ≡ l') × (r ≡ r') × (m ≡ m') × (n ≡ n')
build_handshake_transcript-injective l r m n l' r' m' n' p q e =
    let e0 =
      parts handshake_domain handshake_domain refl (sym (flat l r m n) ∙ e ∙ flat l' r' m' n') in
    let e1 = parts l l' (p.local_size ∙ sym (q.local_size)) e0.1 in
    let e2 = parts r r' (p.remote_size ∙ sym (q.remote_size)) e1.1 in
    let e3 = nonces m m' (p.local_nonce) (q.local_nonce) e2.1 in
    let e4 = nonces n n' (p.remote_nonce) (q.remote_nonce) e3.1 in (e1.0, e2.0, e3.0, e4.0)

apart : {s t : List ℕ} (a b : ℕ) → get_elem? s 4 ≡ some a → get_elem? t 4 ≡ some b → a ≢ b → s ≢ t
apart {s} {t} a b p q h e = h (some_inj (sym p ∙ ap (λ (r : List ℕ). get_elem? r 4) e ∙ q))
  where
    some_inj : {x y : ℕ} → ◌≡◌ {A = Option ℕ} (some x) (some y) → x ≡ y
    some_inj w = cc

-- The bytes that are signed for a handshake, for a client's offer and for a grant are never the same.
pub domains_separate :
    (l r m n e k : List ℕ) (g : Grant)
    → (build_handshake_transcript l r m n ≢ build_client_offer_transcript e k)
      × (build_handshake_transcript l r m n ≢ signing_bytes g)
      × (build_client_offer_transcript e k ≢ signing_bytes g)
unfolding build_handshake_transcript build_client_offer_transcript signing_bytes push_str
domains_separate l r m n e k g = (
  apart 0x48 0x43 refl refl (omega arith),
  apart 0x48 0x47 refl refl (omega arith),
  apart 0x43 0x47 refl refl (omega arith),
)
