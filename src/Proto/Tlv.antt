-- ===== src/Proto/Tlv.antt =====
-- crates/ahp-proto/src/tlv.rs: TLV records and their types.
pub mod Laws
use mathlib.Core.List.{foldl}
use favonius.Base.{
  ℕ, ◌+◌, ◌%◌, ◌^◌, ◌<◌, ◌≡◌, refl, ◌↔◌, Bool, true, false, not, List, [], ◌∷◌, ◌++◌, Option, none,
  some, ltb, leb, length, bit_and, arith, All,
}
use favonius.Base.{Outcome, ok, err, panic}
use favonius.Bytes.Buf.{ByteBuf, w16}
use favonius.Bytes.Cursor.{Read, pure, ◌>>=◌, ◌>>◌, fail_when, remaining, front, get, skip}
use favonius.Bytes.Many.{drain}
use favonius.Proto.Codes.{match_code, match_code_sound, high_bit}
use favonius.Proto.Errors.{
  ProtoError, invalid_tlv, unknown_tlv_type, tlv_header_short, tlv_value_short,
}

abbrev pub tlv_header_size : ℕ
tlv_header_size = 4

pub data TlvType : Type 0 where
  endpoint_name protocol_version_list supported_cipher_suites supported_compression_profiles
        congestion_control_profiles max_udp_payload max_streams authentication_method token nonce
        public_key signature manifest_hash checkpoint_id chunk_size region_size file_id file_path
        file_size watermark_offset timestamp error_code error_detail resume_ticket path_token
        fairness_profile feature_bitmap :
      TlvType

-- The numeric code of a variant, `self as u16`.
unfoldable pub to_u16 : TlvType → ℕ
to_u16 endpoint_name = 0x0001
to_u16 protocol_version_list = 0x0002
to_u16 supported_cipher_suites = 0x0003
to_u16 supported_compression_profiles = 0x0004
to_u16 congestion_control_profiles = 0x0005
to_u16 max_udp_payload = 0x0006
to_u16 max_streams = 0x0007
to_u16 authentication_method = 0x0008
to_u16 token = 0x0009
to_u16 nonce = 0x000a
to_u16 public_key = 0x000b
to_u16 signature = 0x000c
to_u16 manifest_hash = 0x000d
to_u16 checkpoint_id = 0x000e
to_u16 chunk_size = 0x000f
to_u16 region_size = 0x0010
to_u16 file_id = 0x0011
to_u16 file_path = 0x0012
to_u16 file_size = 0x0013
to_u16 watermark_offset = 0x0014
to_u16 timestamp = 0x0015
to_u16 error_code = 0x0016
to_u16 error_detail = 0x0017
to_u16 resume_ticket = 0x0018
to_u16 path_token = 0x0019
to_u16 fairness_profile = 0x001a
to_u16 feature_bitmap = 0x001b

-- The arms of `try_from`, in the order of the source.
abbrev arms : List (ℕ × TlvType)
arms =
    (0x0001, endpoint_name)
    ∷ (0x0002, protocol_version_list)
    ∷ (0x0003, supported_cipher_suites)
    ∷ (0x0004, supported_compression_profiles)
    ∷ (0x0005, congestion_control_profiles)
    ∷ (0x0006, max_udp_payload)
    ∷ (0x0007, max_streams)
    ∷ (0x0008, authentication_method)
    ∷ (0x0009, token)
    ∷ (0x000a, nonce)
    ∷ (0x000b, public_key)
    ∷ (0x000c, signature)
    ∷ (0x000d, manifest_hash)
    ∷ (0x000e, checkpoint_id)
    ∷ (0x000f, chunk_size)
    ∷ (0x0010, region_size)
    ∷ (0x0011, file_id)
    ∷ (0x0012, file_path)
    ∷ (0x0013, file_size)
    ∷ (0x0014, watermark_offset)
    ∷ (0x0015, timestamp)
    ∷ (0x0016, error_code)
    ∷ (0x0017, error_detail)
    ∷ (0x0018, resume_ticket)
    ∷ (0x0019, path_token)
    ∷ (0x001a, fairness_profile)
    ∷ (0x001b, feature_bitmap)
    ∷ []

unfoldable pub type_try_from : ℕ → Outcome ProtoError TlvType
unfolding match_code
type_try_from value = match_code value arms (invalid_tlv (unknown_tlv_type value))

-- `(self as u16) & 0x8000 != 0`
pub type_is_critical : TlvType → Bool
unfolding to_u16
type_is_critical t = high_bit (to_u16 t)

try_from-to_u16 : (t : TlvType) → type_try_from (to_u16 t) ≡ ok t
unfolding type_try_from to_u16
try_from-to_u16 endpoint_name = refl
try_from-to_u16 _ = refl

arms_sound : All (λ (arm : ℕ × TlvType). to_u16 arm.1 ≡ arm.0) arms
unfolding to_u16
arms_sound = omega arith

-- A number is read as a TLV type exactly when it is the code of that type.
pub type_try_from_iff : (v : ℕ) (t : TlvType) → (type_try_from v ≡ ok t) ↔ (to_u16 t ≡ v)
unfolding type_try_from
type_try_from_iff v t = (
  match_code_sound to_u16 v arms (invalid_tlv (unknown_tlv_type v)) t arms_sound,
  λ e. rw (← e) (try_from-to_u16 t),
)

-- No standard TLV type is critical.
pub type_is_critical_standard : (t : TlvType) → type_is_critical t ≡ false
unfolding type_is_critical
type_is_critical_standard endpoint_name = refl
type_is_critical_standard _ = refl

pub record Tlv : Type 0 where
  pub tlv_type : ℕ
  pub value : List ℕ

pub wire_size : Tlv → ℕ
wire_size t = tlv_header_size + length t.value

pub is_critical : Tlv → Bool
is_critical t = high_bit t.tlv_type

module _ ⦃buf : ByteBuf⦄ where
  -- `self.value.len() as u16` keeps the low 16 bits of the length.
  unfoldable pub encode : Tlv → List ℕ → List ℕ
  encode t dst =
      let dst = buf.put_uint w16 dst t.tlv_type in
      let dst = buf.put_uint w16 dst (length t.value % 2 ^ 16) in buf.put_slice dst t.value

  unfoldable pub decode : Read ProtoError Tlv
  decode = do
    have ← remaining
    fail_when (ltb have tlv_header_size) (invalid_tlv (tlv_header_short have))
    tlv_type ← get w16
    length ← get w16
    left ← remaining
    fail_when (ltb left length) (invalid_tlv (tlv_value_short tlv_type length left))
    value ← front length
    skip length
    pure (record { tlv_type = tlv_type; value = value })

  -- Each record is appended to the buffer, first to last.
  unfoldable pub encode_tlvs : List Tlv → List ℕ
  unfolding encode
  encode_tlvs tlvs = foldl (λ dst t. encode t dst) [] tlvs

  -- A round takes four bytes at least, so the length of the input is fuel enough.
  unfoldable pub decode_tlvs : List ℕ → Option (Outcome ProtoError (List Tlv))
  unfolding drain
  decode_tlvs src = drain decode (length src) src []

  -- `TlvIterator::next`: the item, and the bytes that remain.
  unfoldable pub next : List ℕ → Option (Outcome ProtoError Tlv) × List ℕ
  next [] = (none, [])
  next (b ∷ s) = let (item, s') = decode (b ∷ s) in (some item, s')
