-- ===== src/Proto/Fallback/Frame.antt =====
-- The head of a frame: `encode_header`, `decode_head` and `from_parts`.
use native.Mathlib.Nat.{mod-eq_of_lt}
use favonius.Base.{
  ℕ, ◌+◌, ◌^◌, ◌<◌, ◌≤◌, ◌≡◌, refl, true, List, [], ◌∷◌, ◌++◌, nonzero, le→ltb_false, length, take,
  drop, slice, slice-middle, append_assoc, arith,
}
use favonius.Base.{ok, ◌>>=◌}
use favonius.Bytes.Endian.{to_be_bytes, from_be_bytes-to_be_bytes, lens}
use favonius.Bytes.Utf8.{from_utf8}
use favonius.Proto.Fallback.{
  FallbackHeader, FallbackError, magic, version, header_len, max_path, max_size, encode_header,
  decode_head, from_parts,
}

-- The layout of the module's documentation.
abbrev pub head : ℕ → ℕ → List ℕ
head path_len size = magic ++ (version ∷ 0 ∷ (to_be_bytes 2 path_len ++ to_be_bytes 8 size))

-- What a sender may announce.
pub record IsSendable (h : FallbackHeader) : Type 0 where
  pub some_path : 0 < length h.path
  pub path_fits : length h.path ≤ max_path
  pub size_fits : h.size ≤ max_size
  pub utf8 : from_utf8 h.path ≡ true

encode_header_lem :
    (h : FallbackHeader)
    → IsSendable h
    → encode_header h ≡ ok (head (length h.path) h.size ++ h.path)
unfolding encode_header
encode_header_lem h v =
    rw
      (
        nonzero (length h.path) v.some_path,
        le→ltb_false max_path (length h.path) v.path_fits,
        le→ltb_false max_size h.size v.size_fits,
        mod-eq_of_lt {n = length h.path} {m = 2 ^ 16} (omega (arith, v.path_fits)),
      )
      (simp append_assoc)

decode_head-bytes :
    (path_len size : ℕ) (rest : List ℕ)
    → 0 < path_len
    → path_len ≤ max_path
    → size ≤ max_size
    → decode_head (head path_len size ++ rest) ≡ ok (path_len, size)
unfolding decode_head to_be_bytes
decode_head-bytes path_len size rest p q r =
    let two : List ℕ = to_be_bytes 2 path_len in
    let buf : List ℕ = head path_len size ++ rest in
    rw
      (
        le→ltb_false (length buf) 20 (omega lens),
        slice-middle {E = FallbackError} [] magic (drop 8 buf) 0 8 refl refl,
        from_be_bytes-to_be_bytes 2 path_len,
        slice-middle {E = FallbackError} (take 12 buf) (to_be_bytes 8 size) rest 12 20 refl
            (omega lens),
      )
      (rw (
        mod-eq_of_lt {n = path_len} {m = 2 ^ 16} (omega arith),
        nonzero path_len p,
        le→ltb_false max_path path_len q,
        from_be_bytes-to_be_bytes 8 size,
        mod-eq_of_lt {n = size} {m = 256 ^ 8} (omega arith),
        le→ltb_false max_size size r,
      ))

-- A receiver that reads the head of what a sender wrote, then as many bytes as the head announces,
-- has the sender's path and size, whatever follows on the connection.
pub from_parts-decode_head-encode_header :
    (h : FallbackHeader) (rest : List ℕ)
    → IsSendable h
    → (do
      bytes ← encode_header h
      let stream = bytes ++ rest
      (path_len, size) ← decode_head stream
      path_bytes ← slice stream header_len (header_len + path_len)
      from_parts path_bytes size)
      ≡ ok h
unfolding from_parts
from_parts-decode_head-encode_header h rest v =
    let front : List ℕ = head (length h.path) h.size in
    let whole : (front ++ h.path) ++ rest ≡ front ++ (h.path ++ rest) =
      append_assoc front h.path rest in
    rw (
      encode_header_lem h v,
      whole,
      decode_head-bytes (length h.path) h.size (h.path ++ rest) v.some_path v.path_fits v.size_fits,
      slice-middle {E = FallbackError} front h.path rest 20 (20 + length h.path) (omega lens) refl,
      v.utf8,
    )
