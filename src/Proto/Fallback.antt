-- ===== src/Proto/Fallback.antt =====
-- crates/ahp-proto/src/fallback.rs: the frame of the TCP fallback. A `String` is its bytes, which
-- are well-formed UTF-8. Where the source formats a message, the value here is what it prints.
pub mod Frame
pub mod Reply
use favonius.Base.{
  ℕ, ◌+◌, ◌-◌, ◌*◌, ◌%◌, ◌^◌, Bool, true, false, not, min, List, [], ◌∷◌, ◌++◌, Option, none, some,
  ltb, ◌==◌, if◌then◌else◌, length, take, same_bytes, slice, get_range?, get_elem?, index, fail_if,
}
use favonius.Base.{Outcome, ok, err, panic, ◌>>=◌, ◌>>◌}
use favonius.Bytes.Endian.{to_be_bytes, from_be_bytes}
use favonius.Bytes.Utf8.{from_utf8, from_utf8_lossy}

-- b"FVNFALL1"
abbrev pub magic : List ℕ
magic = 0x46 ∷ 0x56 ∷ 0x4E ∷ 0x46 ∷ 0x41 ∷ 0x4C ∷ 0x4C ∷ 0x31 ∷ []

abbrev pub version : ℕ
version = 1

abbrev pub header_len : ℕ
header_len = 8 + 1 + 1 + 2 + 8

abbrev pub max_path : ℕ
max_path = 4096

abbrev pub max_size : ℕ
max_size = 1024 * 1024 * 1024 * 1024

pub record FallbackHeader : Type 0 where
  pub path : List ℕ
  pub size : ℕ

pub data FallbackError : Type 0 where
  bad_magic : FallbackError
  bad_version : ℕ → FallbackError
  reserved_flags : ℕ → FallbackError
  path_too_long : ℕ → FallbackError
  empty_path : FallbackError
  too_large : ℕ → FallbackError
  bad_utf8 : FallbackError
  truncated : ℕ → ℕ → FallbackError

unfoldable pub encode_header : FallbackHeader → Outcome FallbackError (List ℕ)
encode_header h = do
  let path = h.path
  fail_if (length path == 0) empty_path
  fail_if (ltb max_path (length path)) (path_too_long (length path))
  fail_if (ltb max_size h.size) (too_large h.size)
  let out = magic ++ (version ∷ [])
  let out = out ++ (0 ∷ [])
  let out = out ++ to_be_bytes 2 (length path % 2 ^ 16)
  let out = out ++ to_be_bytes 8 h.size
  ok (out ++ path)

unfoldable pub decode_head : List ℕ → Outcome FallbackError (ℕ × ℕ)
decode_head buf = do
  fail_if (ltb (length buf) header_len) (truncated header_len (length buf))
  start ← slice buf 0 8
  fail_if (not (same_bytes start magic)) bad_magic
  v ← index buf 8
  fail_if (not (v == version)) (bad_version v)
  flags ← index buf 9
  fail_if (not (flags == 0)) (reserved_flags flags)
  b10 ← index buf 10
  b11 ← index buf 11
  let path_len = from_be_bytes (b10 ∷ b11 ∷ [])
  fail_if (path_len == 0) empty_path
  fail_if (ltb max_path path_len) (path_too_long path_len)
  size_bytes ← slice buf 12 20
  let size = from_be_bytes size_bytes
  fail_if (ltb max_size size) (too_large size)
  ok (path_len, size)

unfoldable pub from_parts : List ℕ → ℕ → Outcome FallbackError FallbackHeader
from_parts path_bytes size = do
  fail_if (not (from_utf8 path_bytes)) bad_utf8
  ok (record { path = path_bytes; size = size })

pub data FallbackReply : Type 0 where
  accepted : FallbackReply
  refused : List ℕ → FallbackReply

unfoldable pub encode_reply : FallbackReply → List ℕ
encode_reply accepted = 0x01 ∷ []
encode_reply (refused reason) =
    let len = min (length reason) (2 ^ 16 - 1) in
    (0x02 ∷ []) ++ (to_be_bytes 2 (len % 2 ^ 16) ++ take len reason)

-- The `?` operator on an `Option`.
infixl 5 ◌>>=?◌
abbrev pub ◌>>=?◌ : {A B : Type 0} → Option A → (A → Option B) → Option B
none >>=? f = none
some a >>=? f = f a

abbrev decode_refused : List ℕ → Option FallbackReply
decode_refused buf = get_elem? buf 1 >>=? λ b1. get_elem? buf 2 >>=? λ b2.
    let len = from_be_bytes (b1 ∷ b2 ∷ []) in
    get_range? buf 3 (3 + len) >>=? λ bytes. some (refused (from_utf8_lossy bytes))

unfoldable pub decode_reply : List ℕ → Option FallbackReply
decode_reply buf = get_elem? buf 0 >>=? λ tag.
    if tag == 0x01 then some accepted else if tag == 0x02 then decode_refused buf else none
