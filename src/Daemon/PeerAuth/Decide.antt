-- ===== src/Daemon/PeerAuth/Decide.antt =====
-- What a decision about a sender means (PeerPolicy::decide).
use mathlib.Core.Path.{subst}
use favonius.Base.{
  ℕ, ◌≡◌, ◌⊎◌, refl, sym, Bool, true, false, not, ◌&&◌, List, [], ◌∷◌, Option, none, some, inl, inr,
  Outcome, same_bytes, same_bytes_sound, Bool-cases, Checked, good, bad, Checked-bind,
  Checked-guard, if◌then◌else◌,
}
use favonius.Bytes.Endian.{IsBytes}
use favonius.Crypto.Signing.{Ed25519}
use favonius.Crypto.Signatures.{build_client_offer_transcript, verify_client_offer}
use favonius.Crypto.Grant.{Grant, GrantError}
use favonius.Crypto.Grant.Wire.{not-false}
use favonius.Crypto.Grant.Verify.{Has, here, there, Granted, verify_lem}
use favonius.Daemon.PeerAuth.{
  Refusal, not_a_key, bad_offer, not_on_allowlist, no_grant, not_authenticated, Decision,
  authenticated, anonymous, refused, PeerPolicy, is_empty, contains, is_none, checked_grant,
  decided, grant_to, grant_for, decide_presented, decide,
}

contains-Has : (ks : List (List ℕ)) (k : List ℕ) → contains ks k ≡ true → Has k ks
contains-Has [] k e = absurd (cc)
contains-Has (a ∷ ks) k e = elim (Bool-cases (same_bytes a k)) [
  | inl p ↦ subst (λ (b : List ℕ). Has k (b ∷ ks)) (sym (same_bytes_sound a k p)) here
  | inr p ↦
      there
        (contains-Has ks k (subst (λ (c : Bool). (if c then true else contains ks k) ≡ true) p e))
]

Checked-if :
    {E A : Type 0} {Q : A → Type 0} (c : Bool) {m n : Outcome E A}
    → Checked Q m
    → Checked Q n
    → Checked Q (if c then m else n)
Checked-if true p q = p
Checked-if false p q = q

-- The two tests that refuse.
listed :
    (ks : List (List ℕ)) (k : List ℕ)
    → (not (is_empty ks) && not (contains ks k)) ≡ false
    → (ks ≡ []) ⊎ Has k ks
listed [] k e = inl refl
listed (a ∷ ks) k e = inr (contains-Has (a ∷ ks) k (not-false _ e))

granted :
    (b : Bool) (o : Option Grant) → (b && is_none o) ≡ false → b ≡ true → (g : Grant) × (o ≡ some g)
granted b none e p = absurd (cc (e, p))
granted b (some g) e p = (g, refl)

module _ (ed : Ed25519) where
  -- What is known of a grant that is passed on: it was checked for this daemon and this sender.
  pub data Passed (p : PeerPolicy) (identity : List ℕ) (now : ℕ)
      : Option (List ℕ) → Option Grant → Type 0 where
    without : {bytes : Option (List ℕ)} → Passed p identity now bytes none
    checked :
        {bytes destination : List ℕ} {g : Grant}
        → p.own_identity ≡ some destination
        → Granted ed bytes p.anchors destination identity now g
        → Passed p identity now (some bytes) (some g)

  abbrev pub AreBytes : Option (List ℕ) → Type 0
  AreBytes none = Unit {0}
  AreBytes (some bytes) = IsBytes bytes

  checked_grant-Passed :
      (p : PeerPolicy) (identity : List ℕ) (now : ℕ) (bytes destination : List ℕ)
      → p.own_identity ≡ some destination
      → {m : Outcome GrantError Grant}
      → Checked (Granted ed bytes p.anchors destination identity now) m
      → Checked (Passed p identity now (some bytes)) (checked_grant m)
  checked_grant-Passed p identity now bytes destination e (good q) = good (checked e q)
  checked_grant-Passed p identity now bytes destination e bad = bad

  grant_to_lem :
      (p : PeerPolicy) (identity bytes : List ℕ) (now : ℕ) (own : Option (List ℕ))
      → p.own_identity ≡ own
      → IsBytes bytes
      → Checked (Passed p identity now (some bytes)) (grant_to ed own p.anchors bytes identity now)
  unfolding grant_to
  grant_to_lem p identity bytes now none e h = bad
  grant_to_lem p identity bytes now (some destination) e h =
      checked_grant-Passed p identity now bytes destination e
        (verify_lem ed bytes p.anchors destination identity now h)

  grant_for_lem :
      (p : PeerPolicy) (identity : List ℕ) (bytes : Option (List ℕ)) (now : ℕ)
      → AreBytes bytes
      → Checked (Passed p identity now bytes) (grant_for ed p identity bytes now)
  unfolding grant_for
  grant_for_lem p identity none now h = good without
  grant_for_lem p identity (some bytes) now h =
      Checked-if (is_empty p.anchors) (good without)
        (grant_to_lem p identity bytes now (p.own_identity) refl h)

  -- What an accepted sender has shown.
  pub record Shown (p : PeerPolicy) (identity signature : List ℕ) (bytes : Option (List ℕ))
      (ephemeral_pub nonce : List ℕ) (now : ℕ) (r : List ℕ × Option Grant) : Type 0 where
    pub is_identity : r.0 ≡ identity
    pub is_key : ed.is_key identity ≡ true
    pub offered :
        ed.verifies identity (build_client_offer_transcript ephemeral_pub nonce) signature ≡ true
    pub on_allowlist : (p.allowed ≡ []) ⊎ Has identity p.allowed
    pub passed : Passed p identity now bytes r.1
    pub has_grant : p.require_grant ≡ true → (g : Grant) × (r.1 ≡ some g)

  presented_lem :
      (p : PeerPolicy) (identity signature : List ℕ) (bytes : Option (List ℕ))
      (ephemeral_pub nonce : List ℕ) (now : ℕ)
      → AreBytes bytes
      → Checked
          (Shown p identity signature bytes ephemeral_pub nonce now)
          (decide_presented ed p identity signature bytes ephemeral_pub nonce now)
  unfolding decide_presented
  presented_lem p identity signature bytes ephemeral_pub nonce now h =
      Checked-guard _ (not (ed.is_key identity)) not_a_key _ (λ k.
        Checked-guard _ (not (verify_client_offer ed identity ephemeral_pub nonce signature))
          bad_offer _
          (λ v.
            Checked-guard _ (not (is_empty p.allowed) && not (contains p.allowed identity))
              not_on_allowlist _
              (λ l. Checked-bind _ _ (grant_for_lem p identity bytes now h) (λ grant q.
                Checked-guard _ (p.require_grant && is_none grant) no_grant _ (λ n. good (record {
                  is_identity = refl;
                  is_key = not-false _ k;
                  offered = not-false _ v;
                  on_allowlist = listed p.allowed identity l;
                  passed = q;
                  has_grant = granted p.require_grant grant n;
                }))))))

  -- What each decision means.
  pub data Justified (p : PeerPolicy) (bytes : Option (List ℕ)) (ephemeral_pub nonce : List ℕ)
      (now : ℕ) : Option (List ℕ × List ℕ) → Decision → Type 0 where
    proven :
        {identity signature who : List ℕ} {grant : Option Grant}
        → Shown p identity signature bytes ephemeral_pub nonce now (who, grant)
        → Justified p bytes ephemeral_pub nonce now
            (some (identity, signature))
            (authenticated who grant)
    unproven : p.require ≡ false → Justified p bytes ephemeral_pub nonce now none anonymous
    turned_away :
        {presented : Option (List ℕ × List ℕ)} {r : Refusal}
        → Justified p bytes ephemeral_pub nonce now presented (refused r)

  decided_lem :
      {p : PeerPolicy} {identity signature : List ℕ} {bytes : Option (List ℕ)}
      {ephemeral_pub nonce : List ℕ} {now : ℕ} {m : Outcome Refusal (List ℕ × Option Grant)}
      → Checked (Shown p identity signature bytes ephemeral_pub nonce now) m
      → (d : Decision) × (decided m ≡ some d)
        × Justified p bytes ephemeral_pub nonce now (some (identity, signature)) d
  decided_lem (good q) = (_, refl, proven q)
  decided_lem bad = (_, refl, turned_away)

  anonymous_lem :
      (p : PeerPolicy) (bytes : Option (List ℕ)) (ephemeral_pub nonce : List ℕ) (now : ℕ) (b : Bool)
      → p.require ≡ b
      → Justified p bytes ephemeral_pub nonce now none
          (if b then refused not_authenticated else anonymous)
  anonymous_lem p bytes ephemeral_pub nonce now true e = turned_away
  anonymous_lem p bytes ephemeral_pub nonce now false e = unproven e

  -- A decision about a sender is always made, whatever bytes it presents. One that authenticates it is
  -- for the identity that was presented, a key that verifies the offer signature over this ephemeral key
  -- and nonce; the allowlist is empty or names it; a grant is passed on only if it was checked for this
  -- daemon's identity and this sender, and is there if the policy requires one. An unauthenticated sender is
  -- let in only when the policy does not require authentication.
  pub decide_lem :
      (p : PeerPolicy) (presented : Option (List ℕ × List ℕ)) (bytes : Option (List ℕ))
      (ephemeral_pub nonce : List ℕ) (now : ℕ)
      → AreBytes bytes
      → (d : Decision) × (decide ed p presented bytes ephemeral_pub nonce now ≡ some d)
        × Justified p bytes ephemeral_pub nonce now presented d
  unfolding decide
  decide_lem p none bytes ephemeral_pub nonce now h =
      (_, refl, anonymous_lem p bytes ephemeral_pub nonce now (p.require) refl)
  decide_lem p (some (identity, signature)) bytes ephemeral_pub nonce now h =
      decided_lem (presented_lem p identity signature bytes ephemeral_pub nonce now h)
