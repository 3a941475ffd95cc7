-- ===== src/Bytes/Plain.antt =====
-- Functions that behave as the crates document, to run the definitions with.
use favonius.Base.{
  ◌*◌, ◌%◌, ◌^◌, refl, ◌++◌, none, some, leb, le→leb, if◌then◌else◌, length, take, drop, bit_and,
  arith,
}
use favonius.Bytes.Endian.{to_be_bytes, from_be_bytes}
use favonius.Bytes.Buf.{ByteBuf, Crc32c, BitFlags, size}

-- A buffer that behaves as documented.
instance abbrev pub plain_buf : ByteBuf
plain_buf = record {
  put_uint = λ w dst n. dst ++ to_be_bytes (size w) n;
  put_slice = λ dst src. dst ++ src;
  get_uint = λ w src.
      if leb (size w) (length src)
      then some (from_be_bytes (take (size w) src), drop (size w) src)
      else none;
  advance = λ n src. if leb n (length src) then some (drop n src) else none;
  put_uint_appends = λ w dst n. refl;
  put_slice_appends = λ dst src. refl;
  get_uint_reads = λ w src h. rw (le→leb (size w) (length src) h);
  advance_drops = λ n src h. rw (le→leb n (length src) h);
}

-- A checksum that is not the CRC, and is as good to run the definitions with.
instance abbrev pub sum_crc : Crc32c
sum_crc = record { crc32c = λ bs. length bs * 0x01010101 % 256 ^ 4; crc32c_lt = λ bs. omega arith }

instance abbrev pub mask_flags : BitFlags
mask_flags = record {
  from_bits_truncate = λ known bits. bit_and bits known;
  from_bits_truncate_masks = λ known bits. refl;
}
