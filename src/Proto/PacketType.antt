-- ===== src/Proto/PacketType.antt =====
-- crates/ahp-proto/src/packet_type.rs
use favonius.Base.{
  ℕ, ◌≡◌, ◌<◌, refl, List, [], ◌∷◌, Bool, ◌&&◌, leb, if◌then◌else◌, ◌↔◌, ◌⊎◌, ◌+◌, All, arith,
}
use favonius.Base.{Outcome, ok, err}
use favonius.Proto.Codes.{match_code, match_code_sound, match_code_cases}
use favonius.Proto.Errors.{ProtoError, invalid_packet_type}

pub data PacketType : Type 0 where
  hello hello_ack caps auth auth_ack path_probe path_probe_ack manifest checkpoint resume_req
        resume_ack finish error keepalive key_update data_packet ack_bitmap nack_range rate_hint
        window_update chunk_commit chunk_repair sync_announce region_map delta_map conflict
        watermark live_commit rendezvous relay_assign relay_forward relay_heartbeat :
      PacketType

-- The numeric code of a variant, `self as u8`.
unfoldable pub to_u8 : PacketType → ℕ
to_u8 hello = 0x01
to_u8 hello_ack = 0x02
to_u8 caps = 0x03
to_u8 auth = 0x04
to_u8 auth_ack = 0x05
to_u8 path_probe = 0x06
to_u8 path_probe_ack = 0x07
to_u8 manifest = 0x08
to_u8 checkpoint = 0x09
to_u8 resume_req = 0x0a
to_u8 resume_ack = 0x0b
to_u8 finish = 0x0c
to_u8 error = 0x0d
to_u8 keepalive = 0x0e
to_u8 key_update = 0x0f
to_u8 data_packet = 0x20
to_u8 ack_bitmap = 0x21
to_u8 nack_range = 0x22
to_u8 rate_hint = 0x23
to_u8 window_update = 0x24
to_u8 chunk_commit = 0x25
to_u8 chunk_repair = 0x26
to_u8 sync_announce = 0x40
to_u8 region_map = 0x41
to_u8 delta_map = 0x42
to_u8 conflict = 0x43
to_u8 watermark = 0x44
to_u8 live_commit = 0x45
to_u8 rendezvous = 0x60
to_u8 relay_assign = 0x61
to_u8 relay_forward = 0x62
to_u8 relay_heartbeat = 0x63

-- The arms of `try_from`, in the order of the source.
abbrev arms : List (ℕ × PacketType)
arms =
    (0x01, hello)
    ∷ (0x02, hello_ack)
    ∷ (0x03, caps)
    ∷ (0x04, auth)
    ∷ (0x05, auth_ack)
    ∷ (0x06, path_probe)
    ∷ (0x07, path_probe_ack)
    ∷ (0x08, manifest)
    ∷ (0x09, checkpoint)
    ∷ (0x0a, resume_req)
    ∷ (0x0b, resume_ack)
    ∷ (0x0c, finish)
    ∷ (0x0d, error)
    ∷ (0x0e, keepalive)
    ∷ (0x0f, key_update)
    ∷ (0x20, data_packet)
    ∷ (0x21, ack_bitmap)
    ∷ (0x22, nack_range)
    ∷ (0x23, rate_hint)
    ∷ (0x24, window_update)
    ∷ (0x25, chunk_commit)
    ∷ (0x26, chunk_repair)
    ∷ (0x40, sync_announce)
    ∷ (0x41, region_map)
    ∷ (0x42, delta_map)
    ∷ (0x43, conflict)
    ∷ (0x44, watermark)
    ∷ (0x45, live_commit)
    ∷ (0x60, rendezvous)
    ∷ (0x61, relay_assign)
    ∷ (0x62, relay_forward)
    ∷ (0x63, relay_heartbeat)
    ∷ []

unfoldable pub try_from : ℕ → Outcome ProtoError PacketType
unfolding match_code
try_from value = match_code value arms (invalid_packet_type value)

-- `(lo..=hi).contains(&(self as u8))`
abbrev within : ℕ → ℕ → PacketType → Bool
within lo hi t = leb lo (to_u8 t) && leb (to_u8 t) hi

pub is_control : PacketType → Bool
unfolding to_u8
is_control = within 0x01 0x0f

pub is_data : PacketType → Bool
unfolding to_u8
is_data = within 0x20 0x26

pub is_sync : PacketType → Bool
unfolding to_u8
is_sync = within 0x40 0x45

pub is_relay : PacketType → Bool
unfolding to_u8
is_relay = within 0x60 0x63

pub try_from-to_u8 : (t : PacketType) → try_from (to_u8 t) ≡ ok t
unfolding try_from to_u8
try_from-to_u8 hello = refl
try_from-to_u8 _ = refl

pub to_u8-lt : (t : PacketType) → to_u8 t < 256
unfolding to_u8
to_u8-lt hello = omega arith
to_u8-lt _ = omega arith

arms_sound : All (λ (arm : ℕ × PacketType). to_u8 arm.1 ≡ arm.0) arms
unfolding to_u8
arms_sound = omega arith

-- A byte is read as a packet type exactly when it is the code of that type.
pub try_from_iff : (v : ℕ) (t : PacketType) → (try_from v ≡ ok t) ↔ (to_u8 t ≡ v)
unfolding try_from
try_from_iff v t = (
  match_code_sound to_u8 v arms (invalid_packet_type v) t arms_sound,
  λ e. rw (← e) (try_from-to_u8 t),
)

pub try_from_cases :
    (v : ℕ) → ((t : PacketType) × (try_from v ≡ ok t)) ⊎ (try_from v ≡ err (invalid_packet_type v))
unfolding try_from
try_from_cases v = match_code_cases v arms (invalid_packet_type v)

abbrev pub count : Bool → ℕ
count b = if b then 1 else 0

-- Every packet type lies in exactly one of the four families.
pub one_family :
    (t : PacketType)
    → count (is_control t) + count (is_data t) + count (is_sync t) + count (is_relay t) ≡ 1
unfolding is_control is_data is_sync is_relay
one_family hello = refl
one_family _ = refl
