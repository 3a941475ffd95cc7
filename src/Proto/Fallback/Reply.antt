-- ===== src/Proto/Fallback/Reply.antt =====
-- The reply of the daemon: `encode_reply` and `decode_reply`.
use native.Mathlib.Nat.{mod-eq_of_lt}
use favonius.Base.{
  ℕ, ◌+◌, ◌-◌, ◌^◌, ◌<◌, ◌≡◌, refl, true, min, List, ◌∷◌, ◌++◌, some, length, take, take-all,
  get_range?-middle, arith,
}
use favonius.Bytes.Endian.{to_be_bytes, from_be_bytes-to_be_bytes}
use favonius.Bytes.Utf8.{from_utf8, from_utf8_lossy_lem}
use favonius.Proto.Fallback.{FallbackReply, accepted, refused, encode_reply, decode_reply}

-- The reason is a string, and its length fits in two bytes.
abbrev pub Fits : FallbackReply → Type 0
Fits accepted = Unit {0}
Fits (refused reason) = (from_utf8 reason ≡ true) × (length reason < 2 ^ 16)

-- A reply whose reason has fewer than 65536 bytes is read back, whatever bytes follow.
pub decode_reply-encode_reply :
    (r : FallbackReply) (rest : List ℕ) → Fits r → decode_reply (encode_reply r ++ rest) ≡ some r
unfolding decode_reply encode_reply to_be_bytes
decode_reply-encode_reply accepted rest h = refl
decode_reply-encode_reply (refused reason) rest (utf8, short) =
    let n : ℕ = length reason in
    let len : min n (2 ^ 16 - 1) ≡ n = omega arith in
    rw
      (
        len,
        mod-eq_of_lt {n = n} {m = 2 ^ 16} short,
        take-all reason n (omega arith),
        from_be_bytes-to_be_bytes 2 n,
      )
      (rw (
        mod-eq_of_lt {n = n} {m = 256 ^ 2} (omega arith),
        get_range?-middle (take 3 (0x02 ∷ (to_be_bytes 2 n ++ reason))) reason rest 3 (3 + n) refl
            refl,
        from_utf8_lossy_lem reason utf8,
      ))
