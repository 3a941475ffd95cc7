-- ===== src/Crypto/Signing.antt =====
-- What crates/ahp-crypto/src/signatures.rs uses of the `ed25519-dalek` crate: a signature of 64 bytes,
-- which the signer's public key of 32 bytes verifies.
use favonius.Base.{ℕ, ◌≡◌, Bool, true, List, length}

pub record Ed25519 : Type 1 where
  pub Identity : Type 0
  pub public_key : Identity → List ℕ
  pub sign : Identity → List ℕ → List ℕ
  -- `VerifyingKey::from_bytes` accepts the key.
  pub is_key : List ℕ → Bool
  -- `verify` by the key, of a message and a signature.
  pub verifies : List ℕ → List ℕ → List ℕ → Bool
  pub sign_size : (i : Identity) (message : List ℕ) → length (sign i message) ≡ 64
  pub public_is_key : (i : Identity) → is_key (public_key i) ≡ true
  pub verifies-sign :
      (i : Identity) (message : List ℕ) → verifies (public_key i) message (sign i message) ≡ true
