-- ===== src/Proto/ErrorCode.antt =====
-- crates/ahp-proto/src/error.rs, `ErrorCode`: the codes of ERROR packets.
use favonius.Base.{ℕ, ◌≡◌, refl, List, [], ◌∷◌, ◌↔◌, All, arith}
use favonius.Base.{Outcome, ok}
use favonius.Proto.Codes.{match_code, match_code_sound}
use favonius.Proto.Errors.{ProtoError, unknown_error_code}

pub data ErrorCode : Type 0 where
  unsupported_version : ErrorCode
  unsupported_feature : ErrorCode
  auth_failed : ErrorCode
  permission_denied : ErrorCode
  bad_manifest : ErrorCode
  checkpoint_invalid : ErrorCode
  packet_decrypt_failed : ErrorCode
  flow_control : ErrorCode
  protocol_violation : ErrorCode
  path_failure : ErrorCode
  storage_failure : ErrorCode
  conflict : ErrorCode
  relay_unavailable : ErrorCode

unfoldable pub as_u16 : ErrorCode → ℕ
as_u16 unsupported_version = 0x0001
as_u16 unsupported_feature = 0x0002
as_u16 auth_failed = 0x0003
as_u16 permission_denied = 0x0004
as_u16 bad_manifest = 0x0005
as_u16 checkpoint_invalid = 0x0006
as_u16 packet_decrypt_failed = 0x0007
as_u16 flow_control = 0x0008
as_u16 protocol_violation = 0x0009
as_u16 path_failure = 0x000A
as_u16 storage_failure = 0x000B
as_u16 conflict = 0x000C
as_u16 relay_unavailable = 0x000D

abbrev arms : List (ℕ × ErrorCode)
arms =
    (0x0001, unsupported_version)
    ∷ (0x0002, unsupported_feature)
    ∷ (0x0003, auth_failed)
    ∷ (0x0004, permission_denied)
    ∷ (0x0005, bad_manifest)
    ∷ (0x0006, checkpoint_invalid)
    ∷ (0x0007, packet_decrypt_failed)
    ∷ (0x0008, flow_control)
    ∷ (0x0009, protocol_violation)
    ∷ (0x000A, path_failure)
    ∷ (0x000B, storage_failure)
    ∷ (0x000C, conflict)
    ∷ (0x000D, relay_unavailable)
    ∷ []

unfoldable pub error_code_try_from : ℕ → Outcome ProtoError ErrorCode
error_code_try_from value = match_code value arms (unknown_error_code value)

pub error_code_try_from-as_u16 : (c : ErrorCode) → error_code_try_from (as_u16 c) ≡ ok c
unfolding error_code_try_from as_u16 match_code
error_code_try_from-as_u16 unsupported_version = refl
error_code_try_from-as_u16 _ = refl

arms_sound : All (λ (arm : ℕ × ErrorCode). as_u16 arm.1 ≡ arm.0) arms
unfolding as_u16
arms_sound = omega arith

-- A number is read as an error code exactly when it is the code's value.
pub error_code_try_from_iff :
    (v : ℕ) (c : ErrorCode) → (error_code_try_from v ≡ ok c) ↔ (as_u16 c ≡ v)
unfolding error_code_try_from
error_code_try_from_iff v c = (
  match_code_sound as_u16 v arms (unknown_error_code v) c arms_sound,
  λ e. rw (← e) (error_code_try_from-as_u16 c),
)
