-- ===== src/Crypto/Keys.antt =====
-- crates/ahp-crypto/src/key_update.rs and control.rs: the epochs of a session's keys, and the control
-- packets that are sealed under them. The HKDF of the `hkdf` crate is a parameter: salt, input key,
-- info and the size of what is asked for; `none` is its error.
pub mod Grace
use favonius.Base.{
  ℕ, ◌+◌, ◌^◌, Bool, true, false, List, [], ◌∷◌, Option, none, some, leb, length, take, Outcome, ok,
  err, panic, ◌>>=◌, ltb, if◌then◌else◌, get_elem?,
}
use favonius.Bytes.Endian.{to_be_bytes, from_be_bytes}
use favonius.Crypto.Aead.{Aead}
use favonius.Crypto.Nonce.{nonce_for}

pub record SessionKeys : Type 0 where
  pub control_key : List ℕ
  pub data_key : List ℕ
  pub sync_key : List ℕ
  pub header_protection_key : List ℕ
  pub rekey_secret : List ℕ
  pub resume_secret : List ℕ
  pub data_iv : List ℕ
  pub control_iv : List ℕ

-- `derive_next_keys` fails only as `Hkdf::expand` does.
pub data KeyError : Type 0 where
  key_derivation_failed : KeyError

abbrev pub or_key_error : Option (List ℕ) → Outcome KeyError (List ℕ)
or_key_error none = err key_derivation_failed
or_key_error (some okm) = ok okm

-- `ahp-key-update`
abbrev pub update_salt : List ℕ
update_salt =
    0x61 ∷ 0x68 ∷ 0x70 ∷ 0x2D ∷ 0x6B ∷ 0x65 ∷ 0x79 ∷ 0x2D ∷ 0x75 ∷ 0x70 ∷ 0x64 ∷ 0x61 ∷ 0x74 ∷ 0x65
    ∷ []

-- `ahp-control-key-next`
abbrev pub info_control_key : List ℕ
info_control_key =
    0x61 ∷ 0x68 ∷ 0x70 ∷ 0x2D ∷ 0x63 ∷ 0x6F ∷ 0x6E ∷ 0x74 ∷ 0x72 ∷ 0x6F ∷ 0x6C ∷ 0x2D ∷ 0x6B ∷ 0x65
    ∷ 0x79 ∷ 0x2D ∷ 0x6E ∷ 0x65 ∷ 0x78 ∷ 0x74 ∷ []

-- `ahp-data-key-next`
abbrev pub info_data_key : List ℕ
info_data_key =
    0x61 ∷ 0x68 ∷ 0x70 ∷ 0x2D ∷ 0x64 ∷ 0x61 ∷ 0x74 ∷ 0x61 ∷ 0x2D ∷ 0x6B ∷ 0x65 ∷ 0x79 ∷ 0x2D ∷ 0x6E
    ∷ 0x65 ∷ 0x78 ∷ 0x74 ∷ []

-- `ahp-sync-key-next`
abbrev pub info_sync_key : List ℕ
info_sync_key =
    0x61 ∷ 0x68 ∷ 0x70 ∷ 0x2D ∷ 0x73 ∷ 0x79 ∷ 0x6E ∷ 0x63 ∷ 0x2D ∷ 0x6B ∷ 0x65 ∷ 0x79 ∷ 0x2D ∷ 0x6E
    ∷ 0x65 ∷ 0x78 ∷ 0x74 ∷ []

-- `ahp-header-protect-next`
abbrev pub info_header_protection_key : List ℕ
info_header_protection_key =
    0x61 ∷ 0x68 ∷ 0x70 ∷ 0x2D ∷ 0x68 ∷ 0x65 ∷ 0x61 ∷ 0x64 ∷ 0x65 ∷ 0x72 ∷ 0x2D ∷ 0x70 ∷ 0x72 ∷ 0x6F
    ∷ 0x74 ∷ 0x65 ∷ 0x63 ∷ 0x74 ∷ 0x2D ∷ 0x6E ∷ 0x65 ∷ 0x78 ∷ 0x74 ∷ []

-- `ahp-rekey-next`
abbrev pub info_rekey_secret : List ℕ
info_rekey_secret =
    0x61 ∷ 0x68 ∷ 0x70 ∷ 0x2D ∷ 0x72 ∷ 0x65 ∷ 0x6B ∷ 0x65 ∷ 0x79 ∷ 0x2D ∷ 0x6E ∷ 0x65 ∷ 0x78 ∷ 0x74
    ∷ []

-- `ahp-resume-next`
abbrev pub info_resume_secret : List ℕ
info_resume_secret =
    0x61 ∷ 0x68 ∷ 0x70 ∷ 0x2D ∷ 0x72 ∷ 0x65 ∷ 0x73 ∷ 0x75 ∷ 0x6D ∷ 0x65 ∷ 0x2D ∷ 0x6E ∷ 0x65 ∷ 0x78
    ∷ 0x74 ∷ []

-- `ahp-data-iv-next`
abbrev pub info_data_iv : List ℕ
info_data_iv =
    0x61 ∷ 0x68 ∷ 0x70 ∷ 0x2D ∷ 0x64 ∷ 0x61 ∷ 0x74 ∷ 0x61 ∷ 0x2D ∷ 0x69 ∷ 0x76 ∷ 0x2D ∷ 0x6E ∷ 0x65
    ∷ 0x78 ∷ 0x74 ∷ []

-- `ahp-control-iv-next`
abbrev pub info_control_iv : List ℕ
info_control_iv =
    0x61 ∷ 0x68 ∷ 0x70 ∷ 0x2D ∷ 0x63 ∷ 0x6F ∷ 0x6E ∷ 0x74 ∷ 0x72 ∷ 0x6F ∷ 0x6C ∷ 0x2D ∷ 0x69 ∷ 0x76
    ∷ 0x2D ∷ 0x6E ∷ 0x65 ∷ 0x78 ∷ 0x74 ∷ []

abbrev pub max_packets_per_key : ℕ
max_packets_per_key = 2 ^ 30

pub record KeyEpoch : Type 0 where
  pub epoch : ℕ
  pub packet_count : ℕ
  pub keys : SessionKeys
  pub previous_keys : Option SessionKeys

abbrev pub new : SessionKeys → KeyEpoch
new keys = record { epoch = 0; packet_count = 0; keys = keys; previous_keys = none }

-- The state, and whether the keys are due to be rotated.
unfoldable pub on_packet_encrypted : KeyEpoch → KeyEpoch × Bool
on_packet_encrypted e =
    (record e { packet_count = e.packet_count + 1 }, leb max_packets_per_key (e.packet_count + 1))

module _ (expand : List ℕ → List ℕ → List ℕ → ℕ → Option (List ℕ)) where
  unfoldable pub derive_next_keys : SessionKeys → Outcome KeyError SessionKeys
  derive_next_keys current = do
    control_key ← or_key_error (expand update_salt current.rekey_secret info_control_key 32)
    data_key ← or_key_error (expand update_salt current.rekey_secret info_data_key 32)
    sync_key ← or_key_error (expand update_salt current.rekey_secret info_sync_key 32)
    header_protection_key ←
        or_key_error (expand update_salt current.rekey_secret info_header_protection_key 16)
    rekey_secret ← or_key_error (expand update_salt current.rekey_secret info_rekey_secret 32)
    resume_secret ← or_key_error (expand update_salt current.rekey_secret info_resume_secret 32)
    data_iv ← or_key_error (expand update_salt current.rekey_secret info_data_iv 12)
    control_iv ← or_key_error (expand update_salt current.rekey_secret info_control_iv 12)
    ok (record {
      control_key = control_key;
      data_key = data_key;
      sync_key = sync_key;
      header_protection_key = header_protection_key;
      rekey_secret = rekey_secret;
      resume_secret = resume_secret;
      data_iv = data_iv;
      control_iv = control_iv;
    })

  unfoldable pub rotate : KeyEpoch → Outcome KeyError KeyEpoch
  rotate e = do
    new_keys ← derive_next_keys e.keys
    ok (record {
      epoch = e.epoch + 1;
      packet_count = 0;
      keys = new_keys;
      previous_keys = some e.keys;
    })

abbrev pub encode_key_update : ℕ → List ℕ
encode_key_update new_epoch = to_be_bytes 8 new_epoch

unfoldable pub decode_key_update : List ℕ → Option ℕ
decode_key_update payload =
    if ltb (length payload) 8 then none else some (from_be_bytes (take 8 payload))

abbrev pub or_else : Option (List ℕ) → Option (List ℕ) → Option (List ℕ)
or_else none rest = rest
or_else (some plaintext) rest = some plaintext

-- `[Some(current), previous].into_iter().flatten()`
abbrev pub to_list : Option SessionKeys → List SessionKeys
to_list none = []
to_list (some keys) = keys ∷ []

module _ (aead : Aead) where
  unfoldable pub seal_control : SessionKeys → ℕ → List ℕ → List ℕ → Option (List ℕ)
  seal_control keys packet_number aad plaintext =
      aead.encrypt keys.control_key (nonce_for keys.control_iv packet_number) aad plaintext

  -- The body of the loop, and the loop over the key sets.
  unfoldable pub unseal_with : List SessionKeys → ℕ → List ℕ → List ℕ → Option (List ℕ)
  unseal_with [] packet_number aad ciphertext = none
  unseal_with (keys ∷ others) packet_number aad ciphertext =
      or_else
        (aead.decrypt keys.control_key (nonce_for keys.control_iv packet_number) aad ciphertext)
        (unseal_with others packet_number aad ciphertext)

  unfoldable pub unseal_control :
      SessionKeys → Option SessionKeys → ℕ → List ℕ → List ℕ → Option (List ℕ)
  unseal_control current previous = unseal_with (current ∷ to_list previous)
