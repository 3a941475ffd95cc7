-- ===== src/Examples/Security.antt =====
-- Tickets, nonces, masks, destinations and manifests, run with a cipher that appends zeros.
use favonius.Base.{
  drop, drop-append, same_bytes, same_bytes_refl, ℕ, ◌+◌, ◌-◌, ◌≡◌, refl, sym, ap, ◌∙◌, true, false,
  List, [], ◌∷◌, ◌++◌, Option, none, some, ltb, if◌then◌else◌, length, take, replicate, xor_bytes,
  xor_bits, length-append, take-append, ok, err, Checked, arith,
}
use favonius.Crypto.Aead.{Aead}
use favonius.Crypto.Nonce.{nonce_for-injective}
use favonius.Crypto.HeaderProtection.{protect, unprotect, extract_sample}
use favonius.Crypto.HeaderProtection.Masks.{unprotect-protect}
use favonius.Crypto.Keys as Keys
use favonius.Crypto.Keys.{
  SessionKeys, KeyEpoch, rotate, derive_next_keys, seal_control, unseal_control,
}
use favonius.Crypto.Keys.Grace.{unseal_control-seal_control}
use favonius.Crypto.Tickets.{
  SessionTicket, TicketKey, issue, decrypt, check_and_record, contains_key, retain,
  decryption_failed, ticket_plaintext,
}
use favonius.Crypto.Tickets.Issue.{Issued, ticket_of, decrypt-issue}
use favonius.Crypto.Tickets.Cache.{run, replay_refused, last_second_replay}
use favonius.Daemon.Paths.{
  Components, root_dir, parent_dir, normal, confine_dest_path, confine_dest_path_any,
  lexical_normalize, normalize_from, escapes_root,
}
use favonius.Daemon.Paths.Confine.{
  no_more, name, canonical, no_roots, root_and, UnderAny, confine_dest_path_any_lem,
}
use favonius.Daemon.Manifest.Write.{overlaid, write_chunk_lem}
use favonius.Daemon.Manifest.{
  decode_resume_bitmap, wrong_size, write_chunk, FileManifest, bitmap, validate_manifest,
  inconsistent,
}
use favonius.Daemon.Manifest.Accept.{Sound, validate_manifest_lem}

abbrev tag : List ℕ
tag = replicate 16 0

some_inj : (a b : List ℕ) → ◌≡◌ {A = Option (List ℕ)} (some a) (some b) → a ≡ b
some_inj a b e = cc

sealed_size :
    (p s : List ℕ) → ◌≡◌ {A = Option (List ℕ)} (some (p ++ tag)) (some s) → length s ≡ length p + 16
sealed_size p s e = ap length (sym (some_inj (p ++ tag) s e)) ∙ length-append p tag

sealed_opens :
    (p s : List ℕ)
    → ◌≡◌ {A = Option (List ℕ)} (some (p ++ tag)) (some s)
    → ◌≡◌ {A = Option (List ℕ)} (some (take (length s - 16) s)) (some p)
sealed_opens p s e =
    ap (λ (t : List ℕ). some (take (length t - 16) t)) (sym (some_inj (p ++ tag) s e))
    ∙ ap some (take-append p tag (length (p ++ tag) - 16) (omega (arith, length-append p tag)))

abbrev plain_aead : Aead
plain_aead = record {
  encrypt = λ key nonce aad plaintext. some (plaintext ++ replicate 16 0);
  decrypt = λ key nonce aad sealed. some (take (length sealed - 16) sealed);
  encrypt_size = λ key nonce aad plaintext {sealed} e. sealed_size plaintext sealed e;
  decrypt-encrypt = λ key nonce aad plaintext {sealed} e. sealed_opens plaintext sealed e;
}

abbrev key : TicketKey
key = record { encryption_key = replicate 32 3; iv = replicate 12 4; counter = 5 }

abbrev secret : List ℕ
secret = replicate 32 6

abbrev sealed : List ℕ
sealed = ticket_plaintext secret 1000 60 ++ replicate 16 0

issued : Issued plain_aead key secret 1000 60 sealed
issued = record {
  iv_size = refl;
  secret_size = refl;
  ttl_fits = omega arith;
  end_fits = omega arith;
  seals = refl;
}

abbrev ticket : SessionTicket
ticket = ticket_of plain_aead 1000 key secret 60 sealed

decrypt-issue_example :
    ((issue plain_aead 1000 key secret 60).0 ≡ ok ticket)
    × (decrypt plain_aead 1060 (issue plain_aead 1000 key secret 60).1 ticket
        ≡ (if ltb (1000 + 60) 1060 then err decryption_failed else ok secret))
decrypt-issue_example = decrypt-issue plain_aead key secret 1000 60 1060 sealed issued

-- A digest that tells the tickets of these runs apart.
abbrev digest : List ℕ → List ℕ
digest bytes = take 16 bytes

first_use : (check_and_record digest 1000 ticket []).0 ≡ true
unfolding check_and_record retain contains_key
first_use = refl

replay_refused_example :
    (check_and_record digest 1059 ticket
      (run digest ((1030, ticket) ∷ []) (check_and_record digest 1000 ticket []).1)).0
    ≡ false
replay_refused_example =
    replay_refused digest 1000 1059 ticket [] ((1030, ticket) ∷ []) first_use (omega arith)
      (omega arith)

unseen : contains_key [] (take 16 (digest ticket.encrypted_data)) ≡ false
unfolding contains_key
unseen = refl

last_second_replay_example :
    ((check_and_record digest 1000 ticket []).0 ≡ true)
    × ((check_and_record digest (1000 + 60) ticket (check_and_record digest 1000 ticket []).1).0
        ≡ true)
    × (decrypt plain_aead (1000 + 60) (issue plain_aead 1000 key secret 60).1 ticket ≡ ok secret)
last_second_replay_example =
    last_second_replay digest plain_aead key secret 1000 60 sealed [] issued unseen

nonce_for-injective_example : ◌≡◌ {A = ℕ} 77 77
nonce_for-injective_example = nonce_for-injective key.iv 77 77 refl (omega arith) (omega arith) refl

-- A header of 42 bytes and a payload of two.
abbrev packet : List ℕ
packet = replicate 44 0x5A

abbrev block : List ℕ → List ℕ
block sample = replicate 16 0xC3

unprotect-protect_example : unprotect block (protect block packet 42) 42 ≡ packet
unprotect-protect_example =
    unprotect-protect block (λ s. refl) packet 42 (omega arith) (omega arith)

masked :
    take 8 (protect block packet 42) ≡ 0x5A ∷ 0x5A ∷ 0x5A ∷ 0x5A ∷ 0x5A ∷ 0x5A ∷ 0x99 ∷ 0x99 ∷ []
unfolding protect extract_sample xor_bytes xor_bits
masked = refl

-- `/srv`
abbrev srv : Components
srv = root_dir ∷ normal (0x73 ∷ 0x72 ∷ 0x76 ∷ []) ∷ []

-- `in/../a` and `../etc`
abbrev inside : Components
inside = normal (0x69 ∷ 0x6E ∷ []) ∷ parent_dir ∷ normal (0x61 ∷ []) ∷ []

abbrev outside : Components
outside = parent_dir ∷ normal (0x65 ∷ 0x74 ∷ 0x63 ∷ []) ∷ []

confine_dest_path_any_lem_example :
    Checked (UnderAny (srv ∷ [])) (confine_dest_path_any (srv ∷ []) inside)
confine_dest_path_any_lem_example =
    confine_dest_path_any_lem (srv ∷ []) inside (root_and (canonical (name no_more)) no_roots)

went_in : confine_dest_path_any (srv ∷ []) inside ≡ ok (srv ++ normal (0x61 ∷ []) ∷ [])
unfolding confine_dest_path_any confine_dest_path lexical_normalize normalize_from
went_in = refl

kept_out : confine_dest_path_any (srv ∷ []) outside ≡ err escapes_root
unfolding confine_dest_path_any confine_dest_path lexical_normalize normalize_from
kept_out = refl

abbrev manifest : FileManifest
manifest = record {
  file_name = 0x61 ∷ [];
  file_size = 2500;
  dest_path = 0x61 ∷ [];
  payload_size = 1000;
  total_chunks = 3;
  ack_mode = bitmap;
  num_streams = 4;
  compressed = false;
  header_protected = true;
  resume_mode = [];
  file_hash = none;
  merkle_root = none;
  features = [];
  zero_runs = (1, 1) ∷ [];
}

validate_manifest_lem_example :
    Checked (λ _. Sound manifest (some 4096)) (validate_manifest manifest (some 4096))
validate_manifest_lem_example = validate_manifest_lem manifest (some 4096)

accepted : validate_manifest manifest (some 4096) ≡ ok tt
unfolding validate_manifest favonius.Proto.ZeroRuns.validate favonius.Proto.ZeroRuns.validate_from
    favonius.Proto.ZeroRuns.div_ceil
accepted = refl

-- A chunk too many.
refused : validate_manifest (record manifest { total_chunks = 4 }) (some 4096) ≡ err inconsistent
unfolding validate_manifest favonius.Proto.ZeroRuns.div_ceil
refused = refl

abbrev first : List ℕ → ℕ
first [] = 0
first (b ∷ bs) = b

-- A cipher whose tag is the key.
abbrev key_tag : List ℕ → List ℕ
key_tag k = replicate 16 (first k)

abbrev opened : List ℕ → List ℕ → Option (List ℕ)
opened k s =
    if same_bytes (drop (length s - 16) s) (key_tag k) then some (take (length s - 16) s) else none

keyed_opens :
    (k p s : List ℕ)
    → ◌≡◌ {A = Option (List ℕ)} (some (p ++ key_tag k)) (some s)
    → opened k s ≡ some p
keyed_opens k p s e = ap (opened k) (sym (some_inj (p ++ key_tag k) s e)) ∙ whole
  where
    size : length p ≡ length (p ++ key_tag k) - 16
    size = omega (arith, length-append p (key_tag k))

    whole : opened k (p ++ key_tag k) ≡ some p
    whole =
        rw
          (
            drop-append p (key_tag k) (length (p ++ key_tag k) - 16) size,
            same_bytes_refl (key_tag k),
            take-append p (key_tag k) (length (p ++ key_tag k) - 16) size,
          )
          refl

keyed_size :
    (k p s : List ℕ)
    → ◌≡◌ {A = Option (List ℕ)} (some (p ++ key_tag k)) (some s)
    → length s ≡ length p + 16
keyed_size k p s e = ap length (sym (some_inj (p ++ key_tag k) s e)) ∙ length-append p (key_tag k)

abbrev keyed_aead : Aead
keyed_aead = record {
  encrypt = λ k nonce aad plaintext. some (plaintext ++ key_tag k);
  decrypt = λ k nonce aad sealed. opened k sealed;
  encrypt_size = λ k nonce aad plaintext {sealed} e. keyed_size k plaintext sealed e;
  decrypt-encrypt = λ k nonce aad plaintext {sealed} e. keyed_opens k plaintext sealed e;
}

abbrev plain_expand : List ℕ → List ℕ → List ℕ → ℕ → Option (List ℕ)
plain_expand salt ikm info size = some (replicate size (first ikm + 1))

abbrev keys_of : ℕ → SessionKeys
keys_of k = record {
  control_key = replicate 32 k;
  data_key = replicate 32 k;
  sync_key = replicate 32 k;
  header_protection_key = replicate 16 k;
  rekey_secret = replicate 32 k;
  resume_secret = replicate 32 k;
  data_iv = replicate 12 k;
  control_iv = replicate 12 k;
}

abbrev before : KeyEpoch
before = Keys.new (keys_of 1)

abbrev after : KeyEpoch
after = record { epoch = 1; packet_count = 0; keys = keys_of 2; previous_keys = some (keys_of 1) }

has_rotated : rotate plain_expand before ≡ ok after
unfolding rotate derive_next_keys
has_rotated = refl

abbrev finish : List ℕ
finish = (1 ∷ 2 ∷ []) ++ key_tag (replicate 32 1)

finish_sealed : seal_control keyed_aead (keys_of 1) 9 [] (1 ∷ 2 ∷ []) ≡ some finish
unfolding seal_control
finish_sealed = refl

unseal_control-seal_control_example :
    unseal_control keyed_aead (keys_of 2) (some (keys_of 1)) 9 [] finish ≡ some (1 ∷ 2 ∷ [])
unseal_control-seal_control_example =
    unseal_control-seal_control plain_expand keyed_aead before after 9 [] (1 ∷ 2 ∷ []) finish
      has_rotated finish_sealed refl

write_chunk_lem_example :
    write_chunk (1 ∷ 2 ∷ 3 ∷ 4 ∷ []) 3 (8 ∷ 9 ∷ [])
    ≡ ok (overlaid (1 ∷ 2 ∷ 3 ∷ 4 ∷ []) 3 (8 ∷ 9 ∷ []))
write_chunk_lem_example = write_chunk_lem (1 ∷ 2 ∷ 3 ∷ 4 ∷ []) 3 (8 ∷ 9 ∷ []) (omega arith)

last_byte : overlaid (1 ∷ 2 ∷ 3 ∷ 4 ∷ []) 3 (8 ∷ 9 ∷ []) ≡ 1 ∷ 2 ∷ 3 ∷ 8 ∷ []
unfolding overlaid
last_byte = refl

-- Ten chunks need two bytes.
bitmap_taken : decode_resume_bitmap (λ payload. none) (0xFF ∷ 0x03 ∷ []) 10 ≡ ok (0xFF ∷ 0x03 ∷ [])
unfolding decode_resume_bitmap favonius.Proto.ZeroRuns.div_ceil
bitmap_taken = refl

bitmap_refused : decode_resume_bitmap (λ payload. none) (0xFF ∷ []) 10 ≡ err (wrong_size 1)
unfolding decode_resume_bitmap favonius.Proto.ZeroRuns.div_ceil
bitmap_refused = refl
