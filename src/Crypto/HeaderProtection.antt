-- ===== src/Crypto/HeaderProtection.antt =====
-- crates/ahp-crypto/src/header_protection.rs: the mask over the connection id and the packet number of
-- a header. The block cipher of the `aes` crate under the protector's key is a parameter.
pub mod Masks
use favonius.Base.{
  ℕ, zero, suc, ◌-◌, ◌≤◌, ◌≡◌, sym, ap, ap₂, ◌∙◌, min, Bool, true, List, [], ◌∷◌, ◌++◌,
  append_assoc, ltb, ltb_false→le, le→ltb_false, if◌then◌else◌, length, take, drop, length-append,
  length-take, length-drop, drop-slice, replicate, xor_bytes, mask_at, mask_at-middle,
  length-xor_bytes, xor_bytes-xor_bytes, Bool-cases, inl, inr, arith,
}

abbrev pub conn_id_offset : ℕ
conn_id_offset = 6

abbrev pub conn_id_len : ℕ
conn_id_len = 8

abbrev pub pkt_num_offset : ℕ
pkt_num_offset = 18

unfoldable pub extract_sample : List ℕ → ℕ → List ℕ
extract_sample buf payload_start =
    let available = length buf - payload_start in
    let n = min available 16 in
    if ltb 0 n then take n (drop payload_start buf) ++ replicate (16 - n) 0 else replicate 16 0

module _ (encrypt_block : List ℕ → List ℕ) where
  unfoldable pub protect : List ℕ → ℕ → List ℕ
  protect buf payload_start =
      if ltb (length buf) 42
      then buf
      else let mask = encrypt_block (extract_sample buf payload_start) in
        mask_at (mask_at buf conn_id_offset (take conn_id_len mask)) pkt_num_offset
          (drop conn_id_len mask)

  unfoldable pub unprotect : List ℕ → ℕ → List ℕ
  unprotect buf payload_start = protect buf payload_start
