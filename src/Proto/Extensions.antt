-- ===== src/Proto/Extensions.antt =====
-- crates/ahp-proto/src/extensions.rs: header extensions and their types.
pub mod Laws
use mathlib.Core.List.{foldl}
use favonius.Base.{
  ℕ, ◌+◌, ◌%◌, ◌^◌, ◌<◌, ◌≡◌, refl, ◌↔◌, Bool, true, false, not, List, [], ◌∷◌, ◌++◌, Option, none,
  some, ltb, leb, length, bit_and, arith, All,
}
use favonius.Base.{Outcome, ok, err, panic}
use favonius.Bytes.Buf.{ByteBuf, w16}
use favonius.Bytes.Cursor.{Read, pure, ◌>>=◌, ◌>>◌, fail_when, remaining, front, get, skip}
use favonius.Bytes.Many.{drain}
use favonius.Proto.Codes.{match_code, match_code_sound, high_bit}
use favonius.Proto.Errors.{
  ProtoError, invalid_extension, unknown_extension_type, extension_header_short,
  extension_value_short,
}

abbrev pub extension_header_size : ℕ
extension_header_size = 4

pub data ExtensionType : Type 0 where
  path_id key_phase ack_delay_hint compression_profile_id chunk_id region_id file_id
        watermark_offset relay_path_tag :
      ExtensionType

-- The numeric code of a variant, `self as u16`.
unfoldable pub to_u16 : ExtensionType → ℕ
to_u16 path_id = 0x0001
to_u16 key_phase = 0x0002
to_u16 ack_delay_hint = 0x0003
to_u16 compression_profile_id = 0x0004
to_u16 chunk_id = 0x0005
to_u16 region_id = 0x0006
to_u16 file_id = 0x0007
to_u16 watermark_offset = 0x0008
to_u16 relay_path_tag = 0x0009

-- The arms of `try_from`, in the order of the source.
abbrev arms : List (ℕ × ExtensionType)
arms =
    (0x0001, path_id)
    ∷ (0x0002, key_phase)
    ∷ (0x0003, ack_delay_hint)
    ∷ (0x0004, compression_profile_id)
    ∷ (0x0005, chunk_id)
    ∷ (0x0006, region_id)
    ∷ (0x0007, file_id)
    ∷ (0x0008, watermark_offset)
    ∷ (0x0009, relay_path_tag)
    ∷ []

unfoldable pub type_try_from : ℕ → Outcome ProtoError ExtensionType
unfolding match_code
type_try_from value = match_code value arms (invalid_extension (unknown_extension_type value))

-- `(self as u16) & 0x8000 != 0`
pub type_is_critical : ExtensionType → Bool
unfolding to_u16
type_is_critical t = high_bit (to_u16 t)

try_from-to_u16 : (t : ExtensionType) → type_try_from (to_u16 t) ≡ ok t
unfolding type_try_from to_u16
try_from-to_u16 path_id = refl
try_from-to_u16 _ = refl

arms_sound : All (λ (arm : ℕ × ExtensionType). to_u16 arm.1 ≡ arm.0) arms
unfolding to_u16
arms_sound = omega arith

-- A number is read as a extension type exactly when it is the code of that type.
pub type_try_from_iff : (v : ℕ) (t : ExtensionType) → (type_try_from v ≡ ok t) ↔ (to_u16 t ≡ v)
unfolding type_try_from
type_try_from_iff v t = (
  match_code_sound to_u16 v arms (invalid_extension (unknown_extension_type v)) t arms_sound,
  λ e. rw (← e) (try_from-to_u16 t),
)

-- No standard extension type is critical.
pub type_is_critical_standard : (t : ExtensionType) → type_is_critical t ≡ false
unfolding type_is_critical
type_is_critical_standard path_id = refl
type_is_critical_standard _ = refl

pub record Extension : Type 0 where
  pub ext_type : ℕ
  pub value : List ℕ

unfoldable pub wire_size : Extension → ℕ
wire_size t = extension_header_size + length t.value

pub is_critical : Extension → Bool
is_critical t = high_bit t.ext_type

module _ ⦃buf : ByteBuf⦄ where
  -- `self.value.len() as u16` keeps the low 16 bits of the length.
  unfoldable pub encode : Extension → List ℕ → List ℕ
  encode t dst =
      let dst = buf.put_uint w16 dst t.ext_type in
      let dst = buf.put_uint w16 dst (length t.value % 2 ^ 16) in buf.put_slice dst t.value

  unfoldable pub decode : Read ProtoError Extension
  decode = do
    have ← remaining
    fail_when (ltb have extension_header_size) (invalid_extension (extension_header_short have))
    ext_type ← get w16
    length ← get w16
    left ← remaining
    fail_when (ltb left length) (invalid_extension (extension_value_short ext_type length left))
    value ← front length
    skip length
    pure (record { ext_type = ext_type; value = value })

  -- Each extension is appended to the buffer, first to last.
  unfoldable pub encode_extensions : List Extension → List ℕ
  unfolding encode
  encode_extensions exts = foldl (λ dst e. encode e dst) [] exts

  -- A round takes four bytes at least, so the length of the input is fuel enough.
  unfoldable pub decode_extensions : List ℕ → Option (Outcome ProtoError (List Extension))
  unfolding drain
  decode_extensions src = drain decode (length src) src []
