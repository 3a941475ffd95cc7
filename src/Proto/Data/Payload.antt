-- ===== src/Proto/Data/Payload.antt =====
-- crates/ahp-proto/src/data.rs: round trip and soundness of `DataPayload`.
use native.Mathlib.Nat.{mod-eq_of_lt}
use favonius.Base.{
  ℕ, ◌^◌, ◌<◌, ◌≡◌, refl, inl, inr, List, [], ◌∷◌, ◌++◌, ltb, le→ltb_false, ltb_false→le,
  Bool-cases, length, take, drop, length-take, take-append-drop, drop-append, slice_front,
  slice-middle, append_assoc, arith,
}
use favonius.Base.{ok}
use favonius.Bytes.Endian.{to_be_bytes, lens, IsBytes}
use favonius.Bytes.Buf.{ByteBuf}
use favonius.Bytes.Cursor.{Total, done, failed, reads, skip-append, skip_drops}
use favonius.Bytes.Fields.{Numbers, written, parsed}
use favonius.Proto.Errors.{ProtoError}
use favonius.Proto.Data.{DataPayload, encode_data, decode_data, data_wire_size}

-- The table of the type's documentation.
abbrev pub wire : DataPayload → List ℕ
wire p =
    to_be_bytes 8 p.file_id
    ++ (to_be_bytes 8 p.chunk_index
        ++ (to_be_bytes 4 p.chunk_offset ++ (to_be_bytes 2 (length p.content) ++ p.content)))

-- The ranges of the fields, and a length that fits its two bytes.
abbrev pub Fits : DataPayload → Type 0
Fits p =
    (p.file_id < 256 ^ 8)
    × (p.chunk_index < 256 ^ 8)
    × (p.chunk_offset < 256 ^ 4)
    × (length p.content < 256 ^ 2)

-- `wire_size` is the length of the encoding.
pub length-wire : (p : DataPayload) → length (wire p) ≡ data_wire_size p
unfolding data_wire_size
length-wire p = omega lens

abbrev widths : List ℕ
widths = 8 ∷ 8 ∷ 4 ∷ 2 ∷ []

module _ ⦃buf : ByteBuf⦄ where
  pub encode-wire : (p : DataPayload) (dst : List ℕ) → Fits p → encode_data p dst ≡ dst ++ wire p
  unfolding encode_data
  encode-wire p dst h =
      simp (buf.put_uint_appends, buf.put_slice_appends, append_assoc) (rw (mod-eq_of_lt h.3))

  pub decode-wire :
      (p : DataPayload) (rest : List ℕ) → Fits p → decode_data (wire p ++ rest) ≡ (ok p, rest)
  unfolding decode_data
  decode-wire p rest h = rw (le→ltb_false (length (wire p ++ rest)) 22 (omega lens)) (
      simp reads (
        rw (
          mod-eq_of_lt h.0,
          mod-eq_of_lt h.1,
          mod-eq_of_lt h.2,
          mod-eq_of_lt h.3,
          le→ltb_false (length (p.content ++ rest)) (length p.content) (omega lens),
          slice-middle [] p.content rest 0 (length p.content) refl (omega arith),
          skip-append p.content rest (length p.content) refl,
        )))

  -- What `encode` appends to any buffer for a DATA payload whose fields fit is decoded to the same
  -- payload, and the cursor stands behind it.
  pub decode_data-encode_data :
      (p : DataPayload) (dst rest : List ℕ)
      → Fits p
      → decode_data (drop (length dst) (encode_data p dst) ++ rest) ≡ (ok p, rest)
  decode_data-encode_data p dst rest h =
      rw (encode-wire p dst h, drop-append dst (wire p) (length dst) refl) (decode-wire p rest h)

  decode-Numbers :
      (ns : Numbers widths) (rest : List ℕ)
      → IsBytes rest
      → Total
          (λ p s'. (written widths ns rest ≡ wire p ++ s') × Fits p)
          (decode_data (written widths ns rest))
  unfolding decode_data
  decode-Numbers (x0, h0, (x1, h1, (x2, h2, (n, hn, u)))) rest hb =
      rw
        (le→ltb_false (length (written widths (x0, h0, (x1, h1, (x2, h2, (n, hn, u)))) rest)) 22
          (omega lens))
        (simp reads (
          rw (mod-eq_of_lt h0, mod-eq_of_lt h1, mod-eq_of_lt h2, mod-eq_of_lt hn)
            (elim (Bool-cases (ltb (length rest) n)) [
              | inl short ↦ rw short failed
              | inr long ↦
                  let h = ltb_false→le (length rest) n long in
                  let cut : length (take n rest) ≡ n = omega (arith, length-take n rest) in
                  rw
                    (
                      long,
                      slice_front {E = ProtoError} rest n h,
                      skip_drops {E = ProtoError} n rest h,
                    )
                    (done (rw (cut, take-append-drop n rest), (h0, h1, h2, omega (arith, cut))))
            ])))

  -- On any bytes the decoder of a DATA payload does not panic, and it succeeds only on the
  -- encoding of what it returns, followed by what it leaves.
  pub decode_data-Total :
      (s : List ℕ) → IsBytes s → Total (λ p s'. (s ≡ wire p ++ s') × Fits p) (decode_data s)
  decode_data-Total s hb = elim (Bool-cases (ltb (length s) 22)) [
    | inl short ↦ unfold decode_data in rw short failed
    | inr long ↦
        let p = parsed widths s hb (ltb_false→le (length s) 22 long) in
        rw p.bytes (decode-Numbers p.numbers p.rest p.rest_bytes)
  ]
