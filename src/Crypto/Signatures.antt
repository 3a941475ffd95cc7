-- ===== src/Crypto/Signatures.antt =====
-- crates/ahp-crypto/src/signatures.rs: what the two ends of a handshake sign. A `VerifyingKeyRef` is
-- the bytes of a key that `Ed25519.is_key` accepts; the files of identities are not modelled.
pub mod Transcripts
use favonius.Base.{ℕ, ◌%◌, ◌^◌, Bool, List, [], ◌∷◌, ◌++◌, length}
use favonius.Bytes.LittleEndian.{to_le_bytes}
use favonius.Crypto.Signing.{Ed25519}

-- `AHP-HANDSHAKE-SIG-v1`
abbrev pub handshake_domain : List ℕ
handshake_domain =
    0x41 ∷ 0x48 ∷ 0x50 ∷ 0x2D ∷ 0x48 ∷ 0x41 ∷ 0x4E ∷ 0x44 ∷ 0x53 ∷ 0x48 ∷ 0x41 ∷ 0x4B ∷ 0x45 ∷ 0x2D
    ∷ 0x53 ∷ 0x49 ∷ 0x47 ∷ 0x2D ∷ 0x76 ∷ 0x31 ∷ []

-- `AHP-CLIENT-OFFER-SIG-v1`
abbrev pub client_offer_domain : List ℕ
client_offer_domain =
    0x41 ∷ 0x48 ∷ 0x50 ∷ 0x2D ∷ 0x43 ∷ 0x4C ∷ 0x49 ∷ 0x45 ∷ 0x4E ∷ 0x54 ∷ 0x2D ∷ 0x4F ∷ 0x46 ∷ 0x46
    ∷ 0x45 ∷ 0x52 ∷ 0x2D ∷ 0x53 ∷ 0x49 ∷ 0x47 ∷ 0x2D ∷ 0x76 ∷ 0x31 ∷ []

unfoldable pub build_handshake_transcript : List ℕ → List ℕ → List ℕ → List ℕ → List ℕ
build_handshake_transcript local_ephemeral_pub remote_ephemeral_pub local_nonce remote_nonce =
    let transcript = handshake_domain ++ local_ephemeral_pub in
    let transcript = transcript ++ remote_ephemeral_pub in
    let transcript = transcript ++ to_le_bytes 2 (length local_nonce % 2 ^ 16) in
    let transcript = transcript ++ local_nonce in
    let transcript = transcript ++ to_le_bytes 2 (length remote_nonce % 2 ^ 16) in
    transcript ++ remote_nonce

unfoldable pub build_client_offer_transcript : List ℕ → List ℕ → List ℕ
build_client_offer_transcript ephemeral_pub nonce =
    let transcript = client_offer_domain ++ ephemeral_pub in
    let transcript = transcript ++ to_le_bytes 2 (length nonce % 2 ^ 16) in transcript ++ nonce

module _ (ed : Ed25519) where
  abbrev pub sign_handshake : ed.Identity → List ℕ → List ℕ → List ℕ → List ℕ → List ℕ
  sign_handshake identity local_ephemeral_pub remote_ephemeral_pub local_nonce remote_nonce =
      ed.sign identity (
        build_handshake_transcript local_ephemeral_pub remote_ephemeral_pub local_nonce
          remote_nonce)

  abbrev pub sign_client_offer : ed.Identity → List ℕ → List ℕ → List ℕ
  sign_client_offer identity ephemeral_pub nonce =
      ed.sign identity (build_client_offer_transcript ephemeral_pub nonce)

  abbrev pub verify_client_offer : List ℕ → List ℕ → List ℕ → List ℕ → Bool
  verify_client_offer key ephemeral_pub nonce signature =
      ed.verifies key (build_client_offer_transcript ephemeral_pub nonce) signature

  abbrev pub verify_handshake : List ℕ → List ℕ → List ℕ → List ℕ → List ℕ → List ℕ → Bool
  verify_handshake key peer_ephemeral_pub our_ephemeral_pub peer_nonce our_nonce signature =
      ed.verifies key
        (build_handshake_transcript peer_ephemeral_pub our_ephemeral_pub peer_nonce our_nonce)
        signature
