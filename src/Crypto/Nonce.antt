-- ===== src/Crypto/Nonce.antt =====
-- `NonceGenerator` of crates/ahp-crypto/src/lib.rs: the nonce of a packet is the session's IV with the
-- packet number on its last eight bytes.
use native.Mathlib.Nat.{mod-eq_of_lt}
use favonius.Base.{
  ℕ, ◌^◌, ◌<◌, ◌≡◌, refl, sym, ap, ◌∙◌, List, length, take, drop, length-drop, length-take,
  length-append, length-xor_bytes, drop-append, xor_bytes, xor_bytes-injective, mask_at, arith,
}
use favonius.Bytes.Endian.{
  to_be_bytes, from_be_bytes, length-to_be_bytes, from_be_bytes-to_be_bytes, to_be_bytes-IsBytes,
}

unfoldable pub nonce_for : List ℕ → ℕ → List ℕ
nonce_for iv sequence_number = mask_at iv 4 (to_be_bytes 8 sequence_number)

to_be_bytes-injective :
    (m n : ℕ) → m < 256 ^ 8 → n < 256 ^ 8 → to_be_bytes 8 m ≡ to_be_bytes 8 n → m ≡ n
to_be_bytes-injective m n p q e =
    sym (from_be_bytes-to_be_bytes 8 m ∙ mod-eq_of_lt p)
    ∙ ap from_be_bytes e
    ∙ (from_be_bytes-to_be_bytes 8 n ∙ mod-eq_of_lt q)

-- Under one IV of twelve bytes, two packet numbers of 64 bits have the same nonce only if they are the
-- same number.
pub nonce_for-injective :
    (iv : List ℕ) (m n : ℕ)
    → length iv ≡ 12
    → m < 256 ^ 8
    → n < 256 ^ 8
    → nonce_for iv m ≡ nonce_for iv n
    → m ≡ n
unfolding nonce_for
nonce_for-injective iv m n l p q e = to_be_bytes-injective m n p q (
    xor_bytes-injective (drop 4 iv) (to_be_bytes 8 m) (to_be_bytes 8 n) (size m) (size n)
      (to_be_bytes-IsBytes 8 m) (to_be_bytes-IsBytes 8 n)
      (sym (back m) ∙ ap (drop (length (take 4 iv))) e ∙ back n))
  where
    size : (k : ℕ) → length (to_be_bytes 8 k) ≡ length (drop 4 iv)
    size k = omega (arith, length-to_be_bytes 8 k, length-drop 4 iv, l)

    back :
        (k : ℕ)
        → drop (length (take 4 iv)) (nonce_for iv k) ≡ xor_bytes (drop 4 iv) (to_be_bytes 8 k)
    back k =
        drop-append (take 4 iv) (xor_bytes (drop 4 iv) (to_be_bytes 8 k)) (length (take 4 iv)) refl

pub length-nonce_for : (iv : List ℕ) (n : ℕ) → length (nonce_for iv n) ≡ length iv
unfolding nonce_for
length-nonce_for iv n =
    length-append (take 4 iv) (xor_bytes (drop 4 iv) (to_be_bytes 8 n))
    ∙ omega
        (arith, length-xor_bytes (drop 4 iv) (to_be_bytes 8 n), length-take 4 iv, length-drop 4 iv)
