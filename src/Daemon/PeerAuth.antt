-- ===== src/Daemon/PeerAuth.antt =====
-- crates/ahp-daemon/src/peer_auth.rs: who may send to the daemon. A reason that the source formats for
-- the log is a constructor, and the set of allowed identities is a list; `none` is a panic.
pub mod Decide
pub mod Admit
use mathlib.Core.Option
use favonius.Base.{
  ℕ, Bool, true, false, not, ◌&&◌, ◌||◌, List, [], ◌∷◌, Option, none, some, if◌then◌else◌,
  same_bytes, length, Outcome, ok, err, panic, ◌>>=◌, ◌>>◌, fail_if,
}
use favonius.Crypto.Signing.{Ed25519}
use favonius.Crypto.Signatures.{verify_client_offer}
use favonius.Crypto.Grant.{Grant, GrantError, verify}

pub data Refusal : Type 0 where
  not_authenticated : Refusal
  not_a_key : Refusal
  bad_offer : Refusal
  not_on_allowlist : Refusal
  no_own_identity : Refusal
  bad_grant : GrantError → Refusal
  no_grant : Refusal

pub data Decision : Type 0 where
  authenticated : List ℕ → Option Grant → Decision
  anonymous : Decision
  refused : Refusal → Decision

abbrev pub is_refused : Decision → Bool
is_refused (authenticated identity grant) = false
is_refused anonymous = false
is_refused (refused r) = true

pub record PeerPolicy : Type 0 where
  pub allowed : List (List ℕ)
  pub require : Bool
  pub anchors : List (List ℕ)
  pub require_grant : Bool
  pub own_identity : Option (List ℕ)

abbrev pub new : List (List ℕ) → Bool → PeerPolicy
new allowed require = record {
  allowed = allowed;
  require = require;
  anchors = [];
  require_grant = false;
  own_identity = none;
}

unfoldable pub with_trust_anchors : PeerPolicy → List (List ℕ) → Bool → Option (List ℕ) → PeerPolicy
with_trust_anchors p anchors require_grant own_identity = record p {
  anchors = anchors;
  require_grant = require_grant;
  own_identity = own_identity;
  require = if require_grant then true else p.require;
}

abbrev pub is_empty : List (List ℕ) → Bool
is_empty [] = true
is_empty (k ∷ ks) = false

abbrev pub is_enforcing : PeerPolicy → Bool
is_enforcing p = p.require || not (is_empty p.allowed) || not (is_empty p.anchors)

abbrev pub contains : List (List ℕ) → List ℕ → Bool
contains [] k = false
contains (a ∷ ks) k = let rest = contains ks k in if same_bytes a k then true else rest

abbrev pub is_none : Option Grant → Bool
is_none none = true
is_none (some g) = false

-- What a grant's check gives, as the decision sees it.
abbrev pub checked_grant : Outcome GrantError Grant → Outcome Refusal (Option Grant)
checked_grant (ok g) = ok (some g)
checked_grant (err e) = err (bad_grant e)
checked_grant panic = panic

-- The early returns are errors here.
abbrev pub decided : Outcome Refusal (List ℕ × Option Grant) → Option Decision
decided (ok r) = some (authenticated r.0 r.1)
decided (err r) = some (refused r)
decided panic = none

module _ (ed : Ed25519) where
  -- The check of a grant that was presented, by the identity that this daemon has.
  unfoldable pub grant_to :
      Option (List ℕ) → List (List ℕ) → List ℕ → List ℕ → ℕ → Outcome Refusal (Option Grant)
  grant_to none anchors bytes identity now = err no_own_identity
  grant_to (some destination) anchors bytes identity now =
      checked_grant (verify ed bytes anchors destination identity now)

  -- The grant, when this daemon deals in them.
  unfoldable pub grant_for :
      PeerPolicy → List ℕ → Option (List ℕ) → ℕ → Outcome Refusal (Option Grant)
  grant_for p identity none now = ok none
  grant_for p identity (some bytes) now =
      if is_empty p.anchors then ok none else grant_to p.own_identity p.anchors bytes identity now

  unfoldable pub decide_presented :
      PeerPolicy
      → List ℕ
      → List ℕ
      → Option (List ℕ)
      → List ℕ
      → List ℕ
      → ℕ
      → Outcome Refusal (List ℕ × Option Grant)
  decide_presented p identity signature grant_bytes ephemeral_pub nonce now = do
    fail_if (not (ed.is_key identity)) not_a_key
    fail_if (not (verify_client_offer ed identity ephemeral_pub nonce signature)) bad_offer
    fail_if (not (is_empty p.allowed) && not (contains p.allowed identity)) not_on_allowlist
    grant ← grant_for p identity grant_bytes now
    fail_if (p.require_grant && is_none grant) no_grant
    ok (identity, grant)

  unfoldable pub decide :
      PeerPolicy
      → Option (List ℕ × List ℕ)
      → Option (List ℕ)
      → List ℕ
      → List ℕ
      → ℕ
      → Option Decision
  decide p none grant_bytes ephemeral_pub nonce now =
      some (if p.require then refused not_authenticated else anonymous)
  decide p (some (identity, signature)) grant_bytes ephemeral_pub nonce now =
      decided (decide_presented p identity signature grant_bytes ephemeral_pub nonce now)
