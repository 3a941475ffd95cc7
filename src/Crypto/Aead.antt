-- ===== src/Crypto/Aead.antt =====
-- What crates/ahp-crypto/src/packet_protection.rs uses of the `aes-gcm` crate: sealing adds a tag of
-- 16 bytes, and what was sealed is opened under the same key, nonce and associated data.
use favonius.Base.{ℕ, ◌+◌, ◌≡◌, List, length, Option, some}

pub record Aead : Type 0 where
  pub encrypt : List ℕ → List ℕ → List ℕ → List ℕ → Option (List ℕ)
  pub decrypt : List ℕ → List ℕ → List ℕ → List ℕ → Option (List ℕ)
  pub encrypt_size :
      (key nonce aad plaintext : List ℕ) {sealed : List ℕ}
      → encrypt key nonce aad plaintext ≡ some sealed
      → length sealed ≡ length plaintext + 16
  pub decrypt-encrypt :
      (key nonce aad plaintext : List ℕ) {sealed : List ℕ}
      → encrypt key nonce aad plaintext ≡ some sealed
      → decrypt key nonce aad sealed ≡ some plaintext
