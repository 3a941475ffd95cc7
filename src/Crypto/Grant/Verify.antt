-- ===== src/Crypto/Grant/Verify.antt =====
-- What a grant that is accepted means.
use favonius.Base.{
  ℕ, ◌-◌, ◌≤◌, ◌≡◌, ◌⊎◌, refl, sym, ap, ◌∙◌, Bool, true, false, not, ◌&&◌, List, [], ◌∷◌, ◌++◌, inl,
  inr, ltb, ltb_false→le, le→ltb_false, length, drop, replicate, Outcome, ok, same_bytes,
  same_bytes_sound, same_bytes_refl, Checked, good, Checked-bind, Checked-guard, ok-bind,
  pass-guard, if◌then◌else◌,
}
use favonius.Bytes.Endian.{IsBytes}
use favonius.Crypto.Signing.{Ed25519}
use favonius.Crypto.Grant.{
  Grant, parse, signing_bytes, sign, signed_by_any, verify, clock_sanity_floor, grant_domain,
  not_signed_by_an_anchor, wrong_destination, wrong_source, no_usable_clock, expired,
}
use favonius.Crypto.Grant.Wire.{Fits, parse_lem, not-false}
use favonius.Crypto.Grant.Read.{parse-wire_bytes, sent_bytes}

-- Membership in a list of keys.
pub data Has (k : List ℕ) : List (List ℕ) → Type 0 where
  here : {ks : List (List ℕ)} → Has k (k ∷ ks)
  there : {a : List ℕ} {ks : List (List ℕ)} → Has k ks → Has k (a ∷ ks)

ok_inj : {E A : Type 0} {a b : A} → ◌≡◌ {A = Outcome E A} (ok a) (ok b) → a ≡ b
ok_inj e = cc

if_true : (c r : Bool) → (if c then true else r) ≡ true → (c ≡ true) ⊎ (r ≡ true)
if_true true r e = inl refl
if_true false r e = inr e

both_true : (a b : Bool) → (a && b) ≡ true → (a ≡ true) × (b ≡ true)
both_true true true e = (refl, refl)
both_true true false e = absurd (cc)
both_true false b e = absurd (cc)

either_true : (c r : Bool) → r ≡ true → (if c then true else r) ≡ true
either_true true r e = refl
either_true false r e = e

module _ (ed : Ed25519) where
  -- Some anchor is a key that verifies the signature.
  abbrev pub AnchorSigned : List (List ℕ) → List ℕ → List ℕ → Type 0
  AnchorSigned anchors signed signature =
      (a : List ℕ) × Has a anchors × (ed.is_key a ≡ true) × (ed.verifies a signed signature ≡ true)

  signed_by_any-AnchorSigned :
      (anchors : List (List ℕ)) (signed signature : List ℕ)
      → signed_by_any ed anchors signed signature ≡ true
      → AnchorSigned anchors signed signature
  unfolding signed_by_any
  signed_by_any-AnchorSigned [] signed signature e = absurd (cc)
  signed_by_any-AnchorSigned (a ∷ anchors) signed signature e =
      elim (if_true (ed.is_key a && ed.verifies a signed signature)
          (signed_by_any ed anchors signed signature) e)
        as (λ _. AnchorSigned (a ∷ anchors) signed signature) [
          | inl p ↦ let b = both_true _ _ p in (a, here, b.0, b.1)
          | inr p ↦
              let found = signed_by_any-AnchorSigned anchors signed signature p in
              (found.0, there (found.1), found.2, found.3)
        ]

  AnchorSigned-signed_by_any :
      {k : List ℕ} (anchors : List (List ℕ)) (signed signature : List ℕ)
      → Has k anchors
      → ed.is_key k ≡ true
      → ed.verifies k signed signature ≡ true
      → signed_by_any ed anchors signed signature ≡ true
  unfolding signed_by_any
  AnchorSigned-signed_by_any [] signed signature m p q = elim m [ ]
  AnchorSigned-signed_by_any (a ∷ anchors) signed signature here p q = rw (p, q) refl
  AnchorSigned-signed_by_any (a ∷ anchors) signed signature (there m) p q =
      either_true (ed.is_key a && ed.verifies a signed signature) _
        (AnchorSigned-signed_by_any anchors signed signature m p q)

  -- What an accepted grant says of the bytes, the keys, the two ends and the time.
  pub record Granted (bytes : List ℕ) (anchors : List (List ℕ)) (destination source : List ℕ)
      (now : ℕ) (g : Grant) : Type 0 where
    pub signature : List ℕ
    pub signature_size : length signature ≡ 64
    pub fits : Fits g
    pub is_sent : bytes ≡ drop (length grant_domain) (signing_bytes g) ++ signature
    pub anchored : AnchorSigned anchors (signing_bytes g) signature
    pub for_destination : g.destination ≡ destination
    pub from_source : g.source ≡ source
    pub clock_set : clock_sanity_floor ≤ now
    pub not_expired : now ≤ g.not_after

  -- For any bytes, the check of a grant does not panic, and a grant that it accepts is exactly what was
  -- sent: the bytes are its fields and a signature of 64 bytes, nothing behind them, one of the configured
  -- anchors verifies that signature over the domain tag and the fields, the grant names this daemon and
  -- this sender, and the clock is set and not past the expiry.
  pub verify_lem :
      (bytes : List ℕ) (anchors : List (List ℕ)) (destination source : List ℕ) (now : ℕ)
      → IsBytes bytes
      → Checked
          (Granted bytes anchors destination source now)
          (verify ed bytes anchors destination source now)
  unfolding verify
  verify_lem bytes anchors destination source now h =
      Checked-bind _ _ (parse_lem bytes h) (λ parsed p.
        let grant : Grant = parsed.0 in
        Checked-guard _ (not (signed_by_any ed anchors (signing_bytes grant) parsed.1))
          not_signed_by_an_anchor _
          (λ signed.
            Checked-guard _ (not (same_bytes grant.destination destination)) wrong_destination _
              (λ d. Checked-guard _ (not (same_bytes grant.source source)) wrong_source _ (λ s.
                Checked-guard _ (ltb now clock_sanity_floor) no_usable_clock _ (λ clock.
                  Checked-guard _ (ltb grant.not_after now) (expired (now - grant.not_after)) _
                    (λ late. good (record {
                      signature = parsed.1;
                      signature_size = p.signature_size;
                      fits = p.fits;
                      is_sent = p.is_wire ∙ sym (sent_bytes grant parsed.1 (p.fits));
                      anchored = signed_by_any-AnchorSigned anchors _ _ (not-false _ signed);
                      for_destination = same_bytes_sound _ _ (not-false _ d);
                      from_source = same_bytes_sound _ _ (not-false _ s);
                      clock_set = ltb_false→le _ _ clock;
                      not_expired = ltb_false→le _ _ late;
                    })))))))

  -- A grant whose fields have the sizes of their types and whose strings are UTF-8 of at most 4096 bytes,
  -- signed by the key of a configured anchor, is accepted by the daemon that it names from the sender
  -- that it names, while the clock is set and not past the expiry, and comes back with all its fields.
  pub verify-sign :
      (g : Grant) (anchor : ed.Identity) (anchors : List (List ℕ)) (now : ℕ)
      → Fits g
      → Has (ed.public_key anchor) anchors
      → clock_sanity_floor ≤ now
      → now ≤ g.not_after
      → verify ed (sign ed g anchor) anchors g.destination g.source now ≡ ok g
  unfolding verify sign
  verify-sign g anchor anchors now h m clock late = ok-bind _ parsed (
      pass-guard _ not_signed_by_an_anchor _ (ap not signed) (
        pass-guard _ wrong_destination _ (ap not (same_bytes_refl g.destination)) (
          pass-guard _ wrong_source _ (ap not (same_bytes_refl g.source)) (
            pass-guard _ no_usable_clock _ (le→ltb_false _ _ clock)
              (pass-guard _ (expired (now - g.not_after)) _ (le→ltb_false _ _ late) refl)))))
    where
      signature : List ℕ
      signature = ed.sign anchor (signing_bytes g)

      parsed : parse (sign ed g anchor) ≡ ok (g, signature)
      parsed =
          ap parse (sent_bytes g signature h)
          ∙ parse-wire_bytes g signature h (ed.sign_size anchor (signing_bytes g))

      signed : signed_by_any ed anchors (signing_bytes g) signature ≡ true
      signed =
          AnchorSigned-signed_by_any anchors (signing_bytes g) signature m (ed.public_is_key anchor)
            (ed.verifies-sign anchor (signing_bytes g))

zeros : List ℕ
zeros = replicate 64 0

-- Two grants whose fields fit have different bytes to sign unless they are the same grant, so that a
-- signature never speaks for another grant.
pub signing_bytes-injective :
    (g h : Grant) → Fits g → Fits h → signing_bytes g ≡ signing_bytes h → g ≡ h
unfolding zeros
signing_bytes-injective g h p q e =
    ap (λ (r : Grant × List ℕ). r.0)
      (ok_inj (
        sym (parse-wire_bytes g zeros p refl)
        ∙ ap parse (
            sym (sent_bytes g zeros p)
            ∙ ap (λ (b : List ℕ). drop (length grant_domain) b ++ zeros) e
            ∙ sent_bytes h zeros q)
        ∙ parse-wire_bytes h zeros q refl))
