-- ===== src/Daemon/PeerAuth/Admit.antt =====
-- An honest sender and the decision about it (PeerPolicy::decide).
use favonius.Base.{
  ℕ, ◌≡◌, ◌≤◌, ◌⊎◌, refl, sym, ap, ◌∙◌, Bool, true, false, not, ◌&&◌, List, [], ◌∷◌, Option, none,
  some, inl, inr, ok, same_bytes, same_bytes_refl, ok-bind, pass-guard, if◌then◌else◌,
}
use favonius.Crypto.Signing.{Ed25519}
use favonius.Crypto.Signatures.{sign_client_offer, verify_client_offer}
use favonius.Crypto.Grant.{Grant, verify, sign, clock_sanity_floor}
use favonius.Crypto.Grant.Wire.{Fits}
use favonius.Crypto.Grant.Verify.{Has, here, there, verify-sign}
use favonius.Daemon.PeerAuth.{
  not_a_key, bad_offer, not_on_allowlist, no_grant, authenticated, PeerPolicy, is_empty, contains,
  checked_grant, decided, grant_to, grant_for, decide_presented, decide,
}

Has-contains : {k : List ℕ} (ks : List (List ℕ)) → Has k ks → contains ks k ≡ true
Has-contains {k} [] m = elim m [ ]
Has-contains {k} (a ∷ ks) here = rw (same_bytes_refl k) refl
Has-contains {k} (a ∷ ks) (there m) = either (same_bytes a k) (contains ks k) (Has-contains ks m)
  where
    either : (c r : Bool) → r ≡ true → (if c then true else r) ≡ true
    either true r e = refl
    either false r e = e

and_false : (b : Bool) → (b && false) ≡ false
and_false true = refl
and_false false = refl

allows :
    (ks : List (List ℕ)) (k : List ℕ)
    → (ks ≡ []) ⊎ Has k ks
    → (not (is_empty ks) && not (contains ks k)) ≡ false
allows ks k (inl e) = rw e refl
allows ks k (inr m) = rw (Has-contains ks m) (and_false (not (is_empty ks)))

module _ (ed : Ed25519) where
  -- The grant of an honest sender is one that an anchor signed for it and for this daemon.
  pub record Honest (p : PeerPolicy) (sender : ed.Identity) (g : Grant) (anchor : ed.Identity)
      (now : ℕ) : Type 0 where
    pub fits : Fits g
    pub anchored : Has (ed.public_key anchor) p.anchors
    pub addressed : p.own_identity ≡ some g.destination
    pub bears : g.source ≡ ed.public_key sender
    pub clock_set : clock_sanity_floor ≤ now
    pub not_expired : now ≤ g.not_after

  not_empty : {k : List ℕ} {ks : List (List ℕ)} → Has k ks → is_empty ks ≡ false
  not_empty {ks = []} m = elim m [ ]
  not_empty {ks = k ∷ ks} m = refl

  grant_for-sign :
      (p : PeerPolicy) (sender : ed.Identity) (g : Grant) (anchor : ed.Identity) (now : ℕ)
      → Honest p sender g anchor now
      → grant_for ed p (ed.public_key sender) (some (sign ed g anchor)) now ≡ ok (some g)
  unfolding grant_for grant_to
  grant_for-sign p sender g anchor now h =
      ap
        (λ (c : Bool).
          if c
          then ok none
          else grant_to ed p.own_identity p.anchors (sign ed g anchor) (ed.public_key sender) now)
        (not_empty (h.anchored))
      ∙ ap
          (λ (o : Option (List ℕ)).
            grant_to ed o p.anchors (sign ed g anchor) (ed.public_key sender) now)
          (h.addressed)
      ∙ ap
          (λ (k : List ℕ).
            checked_grant (verify ed (sign ed g anchor) p.anchors g.destination k now))
          (sym (h.bears))
      ∙ ap checked_grant (
          verify-sign ed g anchor p.anchors now (h.fits) (h.anchored) (h.clock_set) (h.not_expired))

  presented-sign :
      (p : PeerPolicy) (sender : ed.Identity) (g : Grant) (anchor : ed.Identity)
      (ephemeral_pub nonce : List ℕ) (now : ℕ)
      → (p.allowed ≡ []) ⊎ Has (ed.public_key sender) p.allowed
      → Honest p sender g anchor now
      → decide_presented ed p
          (ed.public_key sender)
          (sign_client_offer ed sender ephemeral_pub nonce)
          (some (sign ed g anchor))
          ephemeral_pub
          nonce
          now
        ≡ ok (ed.public_key sender, some g)
  unfolding decide_presented
  presented-sign p sender g anchor ephemeral_pub nonce now l h =
      let who : List ℕ = ed.public_key sender in
      pass-guard (not (ed.is_key who)) not_a_key _ (ap not (ed.public_is_key sender)) (
        pass-guard
          (not (
            verify_client_offer ed who ephemeral_pub nonce
              (sign_client_offer ed sender ephemeral_pub nonce)))
          bad_offer _ (ap not (ed.verifies-sign sender _))
          (pass-guard (not (is_empty p.allowed) && not (contains p.allowed who)) not_on_allowlist _
            (allows p.allowed who l)
            (ok-bind _ (grant_for-sign p sender g anchor now h)
              (pass-guard (p.require_grant && false) no_grant _ (and_false p.require_grant) refl))))

  -- A sender that signs its offer, is on the allowlist or meets an empty one, and presents a grant that a
  -- configured anchor signed for it and this daemon and that is valid now, is authenticated with that grant.
  pub decide-sign :
      (p : PeerPolicy) (sender : ed.Identity) (g : Grant) (anchor : ed.Identity)
      (ephemeral_pub nonce : List ℕ) (now : ℕ)
      → (p.allowed ≡ []) ⊎ Has (ed.public_key sender) p.allowed
      → Honest p sender g anchor now
      → decide ed p
          (some (ed.public_key sender, sign_client_offer ed sender ephemeral_pub nonce))
          (some (sign ed g anchor))
          ephemeral_pub
          nonce
          now
        ≡ some (authenticated (ed.public_key sender) (some g))
  unfolding decide
  decide-sign p sender g anchor ephemeral_pub nonce now l h =
      ap decided (presented-sign p sender g anchor ephemeral_pub nonce now l h)
