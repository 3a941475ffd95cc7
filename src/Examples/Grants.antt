-- ===== src/Examples/Grants.antt =====
-- Grants and the decisions about senders, run with signatures that are a checksum.
use favonius.Base.{
  ℕ, ◌+◌, ◌%◌, ◌≡◌, ◌↔◌, refl, Bool, true, false, List, [], ◌∷◌, slice, some, inl, ltb, ltb→lt,
  if◌then◌else◌, replicate, same_bytes, same_bytes_refl, ok, err, Checked, arith,
}
use favonius.Bytes.Endian.{IsBytes}
use favonius.Crypto.Signing.{Ed25519}
use favonius.Crypto.Signatures.{sign_client_offer}
use favonius.Crypto.Signatures.Transcripts.{Ends, build_handshake_transcript-injective}
use favonius.Crypto.Grant.{
  Grant, verify, sign, signing_bytes, permits_path, push_str, parse, take_str, signed_by_any,
  expired,
}
use favonius.Crypto.Grant.Wire.{Fits}
use favonius.Crypto.Grant.Verify.{here, Granted, verify_lem, verify-sign}
use favonius.Crypto.Grant.Paths.{Permitted, permits_path_iff}
use favonius.Daemon.PeerAuth as PeerAuth
use favonius.Daemon.PeerAuth.{
  PeerPolicy, Decision, authenticated, anonymous, refused, decide, with_trust_anchors,
}
use favonius.Daemon.PeerAuth.Decide.{Justified, decide_lem}
use favonius.Daemon.PeerAuth.Admit.{Honest, decide-sign}

abbrev sum : List ℕ → ℕ
sum [] = 0
sum (b ∷ bs) = b + sum bs

abbrev first : List ℕ → ℕ
first [] = 0
first (b ∷ bs) = b

abbrev checksum : ℕ → List ℕ → List ℕ
checksum i message = replicate 64 ((i + sum message) % 256)

abbrev plain_ed : Ed25519
plain_ed = record {
  Identity = ℕ;
  public_key = λ i. replicate 32 i;
  sign = checksum;
  is_key = λ k. true;
  verifies = λ k message signature. same_bytes (checksum (first k) message) signature;
  sign_size = λ i message. refl;
  public_is_key = λ i. refl;
  verifies-sign = λ i message. same_bytes_refl (checksum i message);
}

-- A grant for the sender 7 and the daemon 9, signed by 5.
abbrev nightly : Grant
nightly = record {
  source = replicate 32 7;
  destination = replicate 32 9;
  not_after = 1800000300;
  run_id = 0x72 ∷ 0x31 ∷ [];
  path_prefix = 0x2F ∷ 0x69 ∷ 0x6E ∷ [];
}

nightly-Fits : Fits nightly
unfolding favonius.Bytes.Utf8.from_utf8_rest favonius.Bytes.Utf8.accept favonius.Bytes.Utf8.lead
nightly-Fits = record {
  source_size = refl;
  destination_size = refl;
  not_after_fits = omega arith;
  run_id_short = omega arith;
  path_prefix_short = omega arith;
  run_id_utf8 = refl;
  path_prefix_utf8 = refl;
}

abbrev anchor : List ℕ
anchor = replicate 32 5

abbrev daemon : List ℕ
daemon = replicate 32 9

abbrev sender : List ℕ
sender = replicate 32 7

abbrev now : ℕ
now = 1800000000

verify-sign_example :
    verify plain_ed (sign plain_ed nightly 5) (anchor ∷ []) daemon sender now ≡ ok nightly
verify-sign_example =
    verify-sign plain_ed nightly 5 (anchor ∷ []) now nightly-Fits here (omega arith) (omega arith)

-- The next second after the expiry, and another sender.
late :
    verify plain_ed (sign plain_ed nightly 5) (anchor ∷ []) daemon sender 1800000301
    ≡ err (expired 1)
unfolding verify sign signing_bytes push_str parse take_str signed_by_any
    favonius.Bytes.Endian.to_be_bytes favonius.Bytes.Endian.from_be_bytes slice
    favonius.Bytes.Utf8.from_utf8_rest favonius.Bytes.Utf8.accept favonius.Bytes.Utf8.lead
late = refl

all_bytes : List ℕ → Bool
all_bytes [] = true
all_bytes (b ∷ bs) = let rest = all_bytes bs in if ltb b 256 then rest else false

all_bytes_sound : (bs : List ℕ) → all_bytes bs ≡ true → IsBytes bs
unfolding all_bytes
all_bytes_sound [] e = tt
all_bytes_sound (b ∷ bs) e =
    let parts = both_of (ltb b 256) (all_bytes bs) e in
    (ltb→lt b 256 parts.0, all_bytes_sound bs parts.1)
  where
    both_of : (c r : Bool) → (if c then r else false) ≡ true → (c ≡ true) × (r ≡ true)
    both_of true r p = (refl, p)
    both_of false r p = absurd (cc)

checked : all_bytes (sign plain_ed nightly 5) ≡ true
unfolding sign signing_bytes push_str all_bytes favonius.Bytes.Endian.to_be_bytes
checked = refl

sent-IsBytes : IsBytes (sign plain_ed nightly 5)
sent-IsBytes = all_bytes_sound (sign plain_ed nightly 5) checked

verify_lem_example :
    Checked
      (Granted plain_ed (sign plain_ed nightly 5) (anchor ∷ []) daemon sender now)
      (verify plain_ed (sign plain_ed nightly 5) (anchor ∷ []) daemon sender now)
verify_lem_example =
    verify_lem plain_ed (sign plain_ed nightly 5) (anchor ∷ []) daemon sender now sent-IsBytes

-- `/in/a` is permitted by `/in`, and `/ina` is not.
permits_path_iff_example :
    (permits_path nightly (0x2F ∷ 0x69 ∷ 0x6E ∷ 0x2F ∷ 0x61 ∷ []) ≡ true)
    ↔ Permitted nightly.path_prefix (0x2F ∷ 0x69 ∷ 0x6E ∷ 0x2F ∷ 0x61 ∷ [])
permits_path_iff_example = permits_path_iff nightly (0x2F ∷ 0x69 ∷ 0x6E ∷ 0x2F ∷ 0x61 ∷ [])

beside : permits_path nightly (0x2F ∷ 0x69 ∷ 0x6E ∷ 0x61 ∷ []) ≡ false
unfolding permits_path
beside = refl

abbrev policy : PeerPolicy
policy = record {
  allowed = [];
  require = true;
  anchors = anchor ∷ [];
  require_grant = true;
  own_identity = some daemon;
}

as_configured : with_trust_anchors (PeerAuth.new [] false) (anchor ∷ []) true (some daemon) ≡ policy
unfolding with_trust_anchors
as_configured = refl

abbrev ephemeral : List ℕ
ephemeral = replicate 32 1

abbrev nonce : List ℕ
nonce = replicate 16 2

nightly-Honest : Honest plain_ed policy 7 nightly 5 now
nightly-Honest = record {
  fits = nightly-Fits;
  anchored = here;
  addressed = refl;
  bears = refl;
  clock_set = omega arith;
  not_expired = omega arith;
}

decide-sign_example :
    decide plain_ed policy
      (some (sender, sign_client_offer plain_ed 7 ephemeral nonce))
      (some (sign plain_ed nightly 5))
      ephemeral
      nonce
      now
    ≡ some (authenticated sender (some nightly))
decide-sign_example =
    decide-sign plain_ed policy 7 nightly 5 ephemeral nonce now (inl refl) nightly-Honest

decide_lem_example :
    (d : Decision) × (decide plain_ed policy
        (some (sender, sign_client_offer plain_ed 7 ephemeral nonce))
        (some (sign plain_ed nightly 5))
        ephemeral
        nonce
        now
      ≡ some d)
    × Justified plain_ed policy
        (some (sign plain_ed nightly 5))
        ephemeral
        nonce
        now
        (some (sender, sign_client_offer plain_ed 7 ephemeral nonce))
        d
decide_lem_example =
    decide_lem plain_ed policy (some (sender, sign_client_offer plain_ed 7 ephemeral nonce))
      (some (sign plain_ed nightly 5)) ephemeral nonce now sent-IsBytes

ends : Ends ephemeral daemon nonce nonce
ends = record {
  local_size = refl;
  remote_size = refl;
  local_nonce = omega arith;
  remote_nonce = omega arith;
}

build_handshake_transcript-injective_example :
    (ephemeral ≡ ephemeral) × (daemon ≡ daemon) × (nonce ≡ nonce) × (nonce ≡ nonce)
build_handshake_transcript-injective_example =
    build_handshake_transcript-injective ephemeral daemon nonce nonce ephemeral daemon nonce nonce
      ends ends refl
