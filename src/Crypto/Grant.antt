-- ===== src/Crypto/Grant.antt =====
-- crates/ahp-crypto/src/grant.rs: permissions to write, signed by a trust anchor. A string is its
-- bytes, which are well-formed UTF-8.
pub mod Wire
pub mod Read
pub mod Verify
pub mod Paths
use favonius.Base.{
  ℕ, ◌+◌, ◌-◌, ◌%◌, ◌^◌, Bool, true, false, not, ◌&&◌, ◌||◌, List, [], ◌∷◌, ◌++◌, ltb, leb, ◌==◌,
  if◌then◌else◌, length, take, drop, same_bytes, Outcome, ok, err, panic, ◌>>=◌, ◌>>◌, fail_if,
  index, slice,
}
use favonius.Bytes.Endian.{to_be_bytes, from_be_bytes}
use favonius.Bytes.Utf8.{from_utf8}
use favonius.Crypto.Signing.{Ed25519}

-- `AHP-GRANT-SIG-v1`
abbrev pub grant_domain : List ℕ
grant_domain =
    0x41 ∷ 0x48 ∷ 0x50 ∷ 0x2D ∷ 0x47 ∷ 0x52 ∷ 0x41 ∷ 0x4E ∷ 0x54 ∷ 0x2D ∷ 0x53 ∷ 0x49 ∷ 0x47 ∷ 0x2D
    ∷ 0x76 ∷ 0x31 ∷ []

abbrev pub grant_version : ℕ
grant_version = 1

abbrev pub max_field : ℕ
max_field = 4096

pub record Grant : Type 0 where
  pub source : List ℕ
  pub destination : List ℕ
  pub not_after : ℕ
  pub run_id : List ℕ
  pub path_prefix : List ℕ

abbrev pub starts_with : List ℕ → List ℕ → Bool
starts_with path [] = true
starts_with [] (b ∷ bs) = false
starts_with (a ∷ path) (b ∷ bs) = let rest = starts_with path bs in if a == b then rest else false

-- `ends_with('/')`
abbrev pub ends_with_slash : List ℕ → Bool
ends_with_slash [] = false
ends_with_slash (b ∷ []) = b == 0x2F
ends_with_slash (b ∷ c ∷ bs) = ends_with_slash (c ∷ bs)

abbrev pub is_empty : List ℕ → Bool
is_empty [] = true
is_empty (b ∷ bs) = false

unfoldable pub permits_path : Grant → List ℕ → Bool
permits_path grant path =
    let prefix = grant.path_prefix in
    let with_sep = if ends_with_slash prefix then prefix else prefix ++ 0x2F ∷ [] in
    if is_empty prefix
    then false
    else if same_bytes path prefix
    then true
    else starts_with path with_sep

pub data GrantError : Type 0 where
  malformed : GrantError
  unsupported_version : ℕ → GrantError
  not_signed_by_an_anchor : GrantError
  expired : ℕ → GrantError
  wrong_destination : GrantError
  wrong_source : GrantError
  no_usable_clock : GrantError

abbrev pub clock_sanity_floor : ℕ
clock_sanity_floor = 1577836800

unfoldable pub push_str : List ℕ → List ℕ → List ℕ
push_str buf s = buf ++ to_be_bytes 2 (length s % 2 ^ 16) ++ s

unfoldable pub signing_bytes : Grant → List ℕ
unfolding push_str
signing_bytes g =
    let b = grant_domain ++ grant_version ∷ [] in
    let b = b ++ g.source in
    let b = b ++ g.destination in
    let b = b ++ to_be_bytes 8 g.not_after in
    let b = push_str b g.run_id in push_str b g.path_prefix

-- The string at `at`, and the index behind it.
unfoldable pub take_str : List ℕ → ℕ → Outcome GrantError (List ℕ × ℕ)
take_str bytes at = do
  fail_if (ltb (length bytes) (at + 2)) malformed
  high ← index bytes at
  low ← index bytes (at + 1)
  let len = from_be_bytes (high ∷ low ∷ [])
  let at = at + 2
  fail_if (ltb max_field len || ltb (length bytes) (at + len)) malformed
  s ← slice bytes at (at + len)
  fail_if (not (from_utf8 s)) malformed
  ok (s, at + len)

unfoldable pub parse : List ℕ → Outcome GrantError (Grant × List ℕ)
parse bytes = do
  fail_if (ltb (length bytes) (1 + 32 + 32 + 8 + 2 + 2 + 64)) malformed
  version ← index bytes 0
  fail_if (not (version == grant_version)) (unsupported_version version)
  source ← slice bytes 1 33
  destination ← slice bytes 33 65
  na ← slice bytes 65 73
  run_id ← take_str bytes 73
  path_prefix ← take_str bytes run_id.1
  fail_if (not (length bytes == path_prefix.1 + 64)) malformed
  signature ← slice bytes path_prefix.1 (path_prefix.1 + 64)
  ok (
    record {
      source = source;
      destination = destination;
      not_after = from_be_bytes na;
      run_id = run_id.0;
      path_prefix = path_prefix.0;
    },
    signature,
  )

module _ (ed : Ed25519) where
  unfoldable pub sign : Grant → ed.Identity → List ℕ
  sign g anchor =
      let out = signing_bytes g in
      let signature = ed.sign anchor out in drop (length grant_domain) out ++ signature

  -- `anchors.iter().any(..)`
  unfoldable pub signed_by_any : List (List ℕ) → List ℕ → List ℕ → Bool
  signed_by_any [] signed signature = false
  signed_by_any (a ∷ anchors) signed signature =
      let rest = signed_by_any anchors signed signature in
      if ed.is_key a && ed.verifies a signed signature then true else rest

  unfoldable pub verify : List ℕ → List (List ℕ) → List ℕ → List ℕ → ℕ → Outcome GrantError Grant
  verify bytes anchors destination source now = do
    parsed ← parse bytes
    let grant = parsed.0
    fail_if (not (signed_by_any anchors (signing_bytes grant) parsed.1)) not_signed_by_an_anchor
    fail_if (not (same_bytes grant.destination destination)) wrong_destination
    fail_if (not (same_bytes grant.source source)) wrong_source
    fail_if (ltb now clock_sanity_floor) no_usable_clock
    fail_if (ltb grant.not_after now) (expired (now - grant.not_after))
    ok grant
