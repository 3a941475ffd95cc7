-- ===== src/Bytes/Buf.antt =====
-- What the sources use of the `bytes`, `crc32c` and `bitflags` crates, as documented by them.
use favonius.Base.{ℕ, ◌^◌, ◌≤◌, ◌<◌, ◌≡◌, List, ◌++◌, Option, some, length, take, drop, bit_and}
use favonius.Bytes.Endian.{to_be_bytes, from_be_bytes}

pub data Width : Type 0 where
  w8 w16 w32 w64 : Width

abbrev pub size : Width → ℕ
size w8 = 1
size w16 = 2
size w32 = 4
size w64 = 8

-- `put_uint w16` is `BufMut::put_u16` and `get_uint w16` is `Buf::get_u16`; a buffer is its bytes.
-- A read or an advance past the end panics, here `none`.
pub record ByteBuf : Type 0 where
  pub put_uint : Width → List ℕ → ℕ → List ℕ
  pub put_slice : List ℕ → List ℕ → List ℕ
  pub get_uint : Width → List ℕ → Option (ℕ × List ℕ)
  pub advance : ℕ → List ℕ → Option (List ℕ)
  pub put_uint_appends :
      (w : Width) (dst : List ℕ) (n : ℕ) → put_uint w dst n ≡ dst ++ to_be_bytes (size w) n
  pub put_slice_appends : (dst src : List ℕ) → put_slice dst src ≡ dst ++ src
  pub get_uint_reads :
      (w : Width) (src : List ℕ)
      → size w ≤ length src
      → get_uint w src ≡ some (from_be_bytes (take (size w) src), drop (size w) src)
  pub advance_drops : (n : ℕ) (src : List ℕ) → n ≤ length src → advance n src ≡ some (drop n src)

-- `crc32c::crc32c` returns a u32.
pub record Crc32c : Type 0 where
  pub crc32c : List ℕ → ℕ
  pub crc32c_lt : (bs : List ℕ) → crc32c bs < 256 ^ 4

-- `from_bits_truncate` of a type that `bitflags!` makes: it unsets the bits that no flag names.
pub record BitFlags : Type 0 where
  pub from_bits_truncate : ℕ → ℕ → ℕ
  pub from_bits_truncate_masks :
      (known bits : ℕ) → from_bits_truncate known bits ≡ bit_and bits known
