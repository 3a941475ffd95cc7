-- ===== src/Proto/Hello/Full.antt =====
-- The payload of the full-handshake HELLO (crates/ahp-proto/src/hello.rs).
use native.Mathlib.Nat.{mod-eq_of_lt}
use favonius.Base.{
  Bool, true, false, ◌||◌, ltb_false→le, leb, leb→le, inl, inr, Bool-cases, slice-ok, ℕ, ◌+◌, ◌^◌,
  ◌<◌, ◌≤◌, ◌≡◌, ◌≢◌, refl, ap, ◌∙◌, List, [], ◌∷◌, ◌++◌, Option, none, some, get_elem?, ◌%◌, ltb,
  lt→ltb, le→ltb_false, ltb_false→le, leb, le→leb, lt→leb_false, leb→le, inl, inr, Bool-cases,
  length, length-append, slice, slice-ok, slice-middle, get_range?, get_range?-middle,
  get_range?-none, append_assoc, append-nil, arith,
}
use favonius.Base.{Outcome, ok, panic}
use favonius.Bytes.Endian.{to_be_bytes, from_be_bytes-to_be_bytes, lens}
use favonius.Proto.Hello.{
  other_first, HelloFull, Pair, encode_hello_full, decode_hello_full, grant_of,
}

abbrev pub HasAuth : Option Pair → Type 0
HasAuth none = Unit {0}
HasAuth (some (identity_pub, signature)) = (length identity_pub ≡ 32) × (length signature ≡ 64)

abbrev pub HasGrant : Option (List ℕ) → Type 0
HasGrant none = Unit {0}
HasGrant (some grant) = (0 < length grant) × (length grant < 2 ^ 16)

-- A grant goes only behind the material that proves who it is for.
abbrev pub with_auth : Option Pair → Option (List ℕ) → Option (List ℕ)
with_auth none grant = none
with_auth (some auth) grant = grant

abbrev hello : List ℕ → List ℕ → Option Pair → Option (List ℕ) → HelloFull
hello k n auth grant = record { ephemeral_pub = k; nonce = n; peer_auth = auth; grant = grant }

unsigned_hello :
    {E : Type 0} (payload k n : List ℕ)
    → payload ≡ 0x01 ∷ (k ++ n)
    → length k ≡ 32
    → length n ≡ 16
    → decode_hello_full {E = E} payload ≡ ok (some (hello k n none none))
unfolding decode_hello_full
unsigned_hello {E = E} payload k n e hk hn =
    let whole : 0x01 ∷ (k ++ n) ≡ (0x01 ∷ k) ++ (n ++ []) = simp append-nil in
    rw (
      e,
      le→ltb_false (length (0x01 ∷ (k ++ n))) 49 (omega (lens, hk, hn)),
      slice-middle {E = E} (0x01 ∷ []) k n 1 33 refl (omega (arith, hk)),
      ap (λ (s : List ℕ). slice {E = E} s 33 49) whole
          ∙ slice-middle {E = E} (0x01 ∷ k) n [] 33 49 (omega (lens, hk)) (omega (arith, hn)),
      lt→leb_false 145 (length (0x01 ∷ (k ++ n))) (omega (lens, hk, hn)),
    )

signed_hello :
    {E : Type 0} (payload k n i s more : List ℕ)
    → payload ≡ 0x01 ∷ (k ++ (n ++ (i ++ (s ++ more))))
    → length k ≡ 32
    → length n ≡ 16
    → length i ≡ 32
    → length s ≡ 64
    → decode_hello_full {E = E} payload
      ≡ ok (some (hello k n (some (i, s)) (grant_of payload 145 (get_range? payload 145 147))))
unfolding decode_hello_full
signed_hello {E = E} payload k n i s more e hk hn hi hs =
    let first : get_elem? payload 0 ≡ some 0x01 = rw e refl in
    let size : 145 ≤ length payload = omega (lens, ap length e, hk, hn, hi, hs) in
    let at : ℕ → ℕ → List ℕ → Outcome E (List ℕ) = λ lo hi r. slice r lo hi in
    let s1 : slice {E = E} payload 1 33 ≡ ok k =
      ap (at 1 33) e
      ∙ slice-middle {E = E} (0x01 ∷ []) k (n ++ (i ++ (s ++ more))) 1 33 refl
          (omega (arith, hk)) in
    let s2 : slice {E = E} payload 33 49 ≡ ok n =
      ap (at 33 49) e
      ∙ slice-middle {E = E} (0x01 ∷ k) n (i ++ (s ++ more)) 33 49 (omega (lens, hk))
          (omega (arith, hn)) in
    let s3 : slice {E = E} payload 49 81 ≡ ok i =
      ap (at 49 81) (e ∙ simp append_assoc)
      ∙ slice-middle {E = E} (0x01 ∷ (k ++ n)) i (s ++ more) 49 81 (omega (lens, hk, hn))
          (omega (arith, hi)) in
    let s4 : slice {E = E} payload 81 145 ≡ ok s =
      ap (at 81 145) (e ∙ simp append_assoc)
      ∙ slice-middle {E = E} (0x01 ∷ (k ++ (n ++ i))) s more 81 145 (omega (lens, hk, hn, hi))
          (omega (arith, hs)) in
    rw (
      first,
      le→ltb_false (length payload) 49 (omega arith),
      s1,
      s2,
      le→leb 145 (length payload) size,
      s3,
      s4,
    )

no_grant :
    (payload : List ℕ)
    → length payload ≡ 145
    → grant_of payload 145 (get_range? payload 145 147) ≡ none
no_grant payload e = rw (get_range?-none payload 145 147 (omega arith))

some_grant :
    (payload front g : List ℕ)
    → payload ≡ front ++ (to_be_bytes 2 (length g) ++ g)
    → length front ≡ 145
    → 0 < length g
    → length g < 2 ^ 16
    → grant_of payload 145 (get_range? payload 145 147) ≡ some g
some_grant payload front g e h p q =
    let n : ℕ = length g in
    let e' : payload ≡ (front ++ to_be_bytes 2 n) ++ (g ++ []) =
      e ∙ simp (append_assoc, append-nil) in
    let two : get_range? payload 145 147 ≡ some (to_be_bytes 2 n) =
      ap (λ (s : List ℕ). get_range? s 145 147) e
      ∙ get_range?-middle front (to_be_bytes 2 n) g 145 147 h (omega lens) in
    let all : get_range? payload 147 (147 + n) ≡ some g =
      ap (λ (s : List ℕ). get_range? s 147 (147 + n)) e'
      ∙ get_range?-middle (front ++ to_be_bytes 2 n) g [] 147 (147 + n) (omega (lens, h)) refl in
    rw (two, from_be_bytes-to_be_bytes 2 n, mod-eq_of_lt {n = n} {m = 256 ^ 2} q, all, lt→ltb 0 n p)

front_length :
    (k n i s : List ℕ)
    → length k ≡ 32
    → length n ≡ 16
    → length i ≡ 32
    → length s ≡ 64
    → length ((((0x01 ∷ k) ++ n) ++ i) ++ s) ≡ 145
front_length k n i s hk hn hi hs = omega (
  arith,
  length-append (((0x01 ∷ k) ++ n) ++ i) s,
  length-append ((0x01 ∷ k) ++ n) i,
  length-append (0x01 ∷ k) n,
)

-- What `encode_hello_full` writes for keys, nonces and signatures of their sizes, and for a grant of
-- one to 65535 bytes, is decoded to the same parts; a grant without a signature is not sent.
pub decode_hello_full-encode_hello_full :
    {E : Type 0} (ephemeral_pub nonce : List ℕ) (auth : Option Pair) (grant : Option (List ℕ))
    → length ephemeral_pub ≡ 32
    → length nonce ≡ 16
    → HasAuth auth
    → HasGrant grant
    → decode_hello_full {E = E} (encode_hello_full ephemeral_pub nonce auth grant)
      ≡ ok (
          some (record {
            ephemeral_pub = ephemeral_pub;
            nonce = nonce;
            peer_auth = auth;
            grant = with_auth auth grant;
          }))
unfolding encode_hello_full
decode_hello_full-encode_hello_full k n none grant hk hn ha hg = unsigned_hello _ k n refl hk hn
decode_hello_full-encode_hello_full k n (some (i, s)) none hk hn (hi, hs) hg =
    let payload : List ℕ = (((0x01 ∷ k) ++ n) ++ i) ++ s in
    signed_hello payload k n i s [] (simp (append_assoc, append-nil)) hk hn hi hs
    ∙ ap (λ (g : Option (List ℕ)). ok (some (hello k n (some (i, s)) g)))
        (no_grant payload (front_length k n i s hk hn hi hs))
decode_hello_full-encode_hello_full k n (some (i, s)) (some g) hk hn (hi, hs) (h0, h1) =
    let front : List ℕ = (((0x01 ∷ k) ++ n) ++ i) ++ s in
    let payload : List ℕ = front ++ (to_be_bytes 2 (length g % 2 ^ 16) ++ g) in
    signed_hello payload k n i s (to_be_bytes 2 (length g % 2 ^ 16) ++ g) (simp append_assoc) hk hn
      hi hs
    ∙ ap (λ (g : Option (List ℕ)). ok (some (hello k n (some (i, s)) g)))
        (some_grant payload front g (rw (mod-eq_of_lt {n = length g} {m = 2 ^ 16} h1) refl)
          (front_length k n i s hk hn hi hs) h0 h1)

or_false : (a b : Bool) → (a || b) ≡ false → b ≡ false
or_false true b e = cc
or_false false b e = e

-- Whatever a peer sends as HELLO, decoding it does not panic.
pub decode_hello_full_total :
    {E : Type 0} (payload : List ℕ) → decode_hello_full {E = E} payload ≢ panic
unfolding decode_hello_full
decode_hello_full_total {E = E} payload =
    elim (Bool-cases (other_first (get_elem? payload 0) || ltb (length payload) 49)) [
      | inl other ↦ rw other (λ e. cc)
      | inr full ↦
          let h = or_false (other_first (get_elem? payload 0)) (ltb (length payload) 49) full in
          let long = ltb_false→le (length payload) 49 h in
          rw
            (
              full,
              slice-ok {E = E} payload 1 33 (omega arith) (omega arith),
              slice-ok {E = E} payload 33 49 (omega arith) (omega arith),
            )
            (elim (Bool-cases (leb 145 (length payload))) [
              | inr unsigned ↦ rw unsigned (λ e. cc)
              | inl signed ↦
                  let more = leb→le 145 (length payload) signed in
                  rw
                    (
                      signed,
                      slice-ok {E = E} payload 49 81 (omega arith) (omega arith),
                      slice-ok {E = E} payload 81 145 (omega arith) (omega arith),
                    )
                    (λ e. cc)
            ])
    ]
