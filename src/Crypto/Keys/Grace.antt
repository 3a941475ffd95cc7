-- ===== src/Crypto/Keys/Grace.antt =====
-- Control packets across a rotation of the keys (key_update.rs, control.rs).
use native.Mathlib.Nat.{mod-eq_of_lt}
use favonius.Base.{
  ◌++◌, ◌^◌, ◌<◌, Bool, if◌then◌else◌, take, length, take-append, length-append, le→ltb_false,
  arith, ℕ, ◌+◌, ◌≡◌, ◌⊎◌, refl, sym, ap, ◌∙◌, List, ◌∷◌, Option, none, some, inl, inr, Outcome, ok,
  err, panic, ◌>>=◌,
}
use favonius.Bytes.Endian.{
  to_be_bytes, from_be_bytes, length-to_be_bytes, from_be_bytes-to_be_bytes,
}
use favonius.Crypto.Aead.{Aead}
use favonius.Crypto.Nonce.{nonce_for}
use favonius.Crypto.Keys.{
  SessionKeys, KeyError, KeyEpoch, derive_next_keys, rotate, seal_control, unseal_with,
  unseal_control, encode_key_update, decode_key_update, or_else, to_list,
}

ok_inj : {a b : KeyEpoch} → ◌≡◌ {A = Outcome KeyError KeyEpoch} (ok a) (ok b) → a ≡ b
ok_inj e = cc

some_inj : {a b : List ℕ} → ◌≡◌ {A = Option (List ℕ)} (some a) (some b) → a ≡ b
some_inj e = cc

module _ (expand : List ℕ → List ℕ → List ℕ → ℕ → Option (List ℕ)) (aead : Aead) where
  -- The keys of an epoch open the packet.
  abbrev pub Opens : SessionKeys → ℕ → List ℕ → List ℕ → List ℕ → Type 0
  Opens keys packet_number aad ciphertext plaintext =
      aead.decrypt keys.control_key (nonce_for keys.control_iv packet_number) aad ciphertext
      ≡ some plaintext

  rotated :
      (e : KeyEpoch) (next : KeyEpoch)
      → rotate expand e ≡ ok next
      → next.previous_keys ≡ some e.keys
  unfolding rotate
  rotated e next h = from (derive_next_keys expand e.keys) h
    where
      from :
          (m : Outcome KeyError SessionKeys)
          → (m >>= λ k. ok (record {
            epoch = e.epoch + 1;
            packet_count = 0;
            keys = k;
            previous_keys = some e.keys;
          }))
            ≡ ok next
          → next.previous_keys ≡ some e.keys
      from (ok k) p = ap (λ (x : KeyEpoch). x.previous_keys) (sym (ok_inj p))
      from (err x) p = absurd (cc)
      from panic p = absurd (cc)

  -- A control packet that was sealed under the keys of an epoch is opened, with its plaintext, by a
  -- receiver that has rotated once since, unless the new keys open it to something else first.
  pub unseal_control-seal_control :
      (e next : KeyEpoch) (packet_number : ℕ) (aad plaintext sealed : List ℕ)
      → rotate expand e ≡ ok next
      → seal_control aead e.keys packet_number aad plaintext ≡ some sealed
      → aead.decrypt
          (next.keys).control_key
          (nonce_for (next.keys).control_iv packet_number)
          aad
          sealed
        ≡ none
      → unseal_control aead next.keys next.previous_keys packet_number aad sealed ≡ some plaintext
  unfolding seal_control unseal_control unseal_with
  unseal_control-seal_control e next n aad plaintext sealed r s fresh =
      ap (λ (o : Option SessionKeys). unseal_with aead (next.keys ∷ to_list o) n aad sealed)
        (rotated e next r)
      ∙ ap
          (λ (o : Option (List ℕ)). or_else o (
            or_else (aead.decrypt (e.keys).control_key (nonce_for (e.keys).control_iv n) aad sealed)
              none))
          fresh
      ∙ ap (λ (o : Option (List ℕ)). or_else o none) (aead.decrypt-encrypt _ _ _ _ s)

  one_of :
      (m n : Option (List ℕ)) (plaintext : List ℕ)
      → or_else m n ≡ some plaintext
      → (m ≡ some plaintext) ⊎ (n ≡ some plaintext)
  one_of none n plaintext e = inr e
  one_of (some p) n plaintext e = inl e

  -- And nothing is opened by other keys than the current and the previous ones.
  pub unseal_control-Opens :
      (current : SessionKeys) (previous : Option SessionKeys) (packet_number : ℕ)
      (aad ciphertext plaintext : List ℕ)
      → unseal_control aead current previous packet_number aad ciphertext ≡ some plaintext
      → Opens current packet_number aad ciphertext plaintext
        ⊎ ((keys : SessionKeys) × (previous ≡ some keys)
            × Opens keys packet_number aad ciphertext plaintext)
  unfolding unseal_control unseal_with
  unseal_control-Opens current previous n aad ciphertext plaintext e =
      elim (one_of _ _ plaintext e) [ inl p ↦ inl p | inr p ↦ inr (before previous p) ]
    where
      before :
          (o : Option SessionKeys)
          → unseal_with aead (to_list o) n aad ciphertext ≡ some plaintext
          → (keys : SessionKeys) × (o ≡ some keys) × Opens keys n aad ciphertext plaintext
      before none p = absurd (cc)
      before (some keys) p = elim (one_of _ _ plaintext p) [
        | inl q ↦ (keys, refl, q)
        | inr q ↦ absurd (cc)
      ]

-- The epoch of a KEY_UPDATE packet is read back, whatever follows it.
pub decode_key_update-encode_key_update :
    (epoch : ℕ) (rest : List ℕ)
    → epoch < 256 ^ 8
    → decode_key_update (encode_key_update epoch ++ rest) ≡ some epoch
unfolding decode_key_update
decode_key_update-encode_key_update epoch rest h =
    ap
      (λ (b : Bool).
        if b then none else some (from_be_bytes (take 8 (to_be_bytes 8 epoch ++ rest))))
      (le→ltb_false (length (to_be_bytes 8 epoch ++ rest)) 8
        (omega (arith, length-append (to_be_bytes 8 epoch) rest, length-to_be_bytes 8 epoch)))
    ∙ ap some (
        ap from_be_bytes (take-append (to_be_bytes 8 epoch) rest 8 (length-to_be_bytes 8 epoch))
        ∙ from_be_bytes-to_be_bytes 8 epoch
        ∙ mod-eq_of_lt h)
