-- ===== src/Proto/Data/Ack.antt =====
-- crates/ahp-proto/src/data.rs: round trip and soundness of `AckBitmap`.
use native.Mathlib.Nat.{mod-eq_of_lt}
use favonius.Base.{
  ℕ, ◌^◌, ◌<◌, ◌≡◌, refl, inl, inr, List, [], ◌∷◌, ◌++◌, ltb, le→ltb_false, ltb_false→le,
  Bool-cases, length, take, drop, length-take, take-append-drop, drop-append, slice_front,
  slice-middle, append_assoc, arith,
}
use favonius.Base.{ok}
use favonius.Bytes.Endian.{to_be_bytes, lens, IsBytes}
use favonius.Bytes.Buf.{ByteBuf}
use favonius.Bytes.Cursor.{Total, done, failed, reads, skip-append, skip_drops}
use favonius.Bytes.Fields.{Numbers, written, parsed}
use favonius.Proto.Errors.{ProtoError}
use favonius.Proto.Data.{AckBitmap, encode_ack, decode_ack, ack_wire_size}

-- The table of the type's documentation.
abbrev pub wire : AckBitmap → List ℕ
wire p =
    to_be_bytes 4 p.stream_id
    ++ (to_be_bytes 8 p.base_packet_number
        ++ (to_be_bytes 8 p.highest_contiguous
            ++ (to_be_bytes 4 p.ack_delay_micros ++ (to_be_bytes 2 (length p.bitmap) ++ p.bitmap))))

-- The ranges of the fields, and a length that fits its two bytes.
abbrev pub Fits : AckBitmap → Type 0
Fits p =
    (p.stream_id < 256 ^ 4)
    × (p.base_packet_number < 256 ^ 8)
    × (p.highest_contiguous < 256 ^ 8)
    × (p.ack_delay_micros < 256 ^ 4)
    × (length p.bitmap < 256 ^ 2)

-- `wire_size` is the length of the encoding.
pub length-wire : (p : AckBitmap) → length (wire p) ≡ ack_wire_size p
unfolding ack_wire_size
length-wire p = omega lens

abbrev widths : List ℕ
widths = 4 ∷ 8 ∷ 8 ∷ 4 ∷ 2 ∷ []

module _ ⦃buf : ByteBuf⦄ where
  pub encode-wire : (p : AckBitmap) (dst : List ℕ) → Fits p → encode_ack p dst ≡ dst ++ wire p
  unfolding encode_ack
  encode-wire p dst h =
      simp (buf.put_uint_appends, buf.put_slice_appends, append_assoc) (rw (mod-eq_of_lt h.4))

  pub decode-wire :
      (p : AckBitmap) (rest : List ℕ) → Fits p → decode_ack (wire p ++ rest) ≡ (ok p, rest)
  unfolding decode_ack
  decode-wire p rest h = rw (le→ltb_false (length (wire p ++ rest)) 26 (omega lens)) (
      simp reads (
        rw (
          mod-eq_of_lt h.0,
          mod-eq_of_lt h.1,
          mod-eq_of_lt h.2,
          mod-eq_of_lt h.3,
          mod-eq_of_lt h.4,
          le→ltb_false (length (p.bitmap ++ rest)) (length p.bitmap) (omega lens),
          slice-middle [] p.bitmap rest 0 (length p.bitmap) refl (omega arith),
          skip-append p.bitmap rest (length p.bitmap) refl,
        )))

  -- What `encode` appends to any buffer for a ACK_BITMAP payload whose fields fit is decoded to the same
  -- payload, and the cursor stands behind it.
  pub decode_ack-encode_ack :
      (p : AckBitmap) (dst rest : List ℕ)
      → Fits p
      → decode_ack (drop (length dst) (encode_ack p dst) ++ rest) ≡ (ok p, rest)
  decode_ack-encode_ack p dst rest h =
      rw (encode-wire p dst h, drop-append dst (wire p) (length dst) refl) (decode-wire p rest h)

  decode-Numbers :
      (ns : Numbers widths) (rest : List ℕ)
      → IsBytes rest
      → Total
          (λ p s'. (written widths ns rest ≡ wire p ++ s') × Fits p)
          (decode_ack (written widths ns rest))
  unfolding decode_ack
  decode-Numbers (x0, h0, (x1, h1, (x2, h2, (x3, h3, (n, hn, u))))) rest hb =
      rw
        (le→ltb_false
          (length (written widths (x0, h0, (x1, h1, (x2, h2, (x3, h3, (n, hn, u))))) rest)) 26
          (omega lens))
        (simp reads (
          rw (mod-eq_of_lt h0, mod-eq_of_lt h1, mod-eq_of_lt h2, mod-eq_of_lt h3, mod-eq_of_lt hn)
            (elim (Bool-cases (ltb (length rest) n)) [
              | inl short ↦ rw short failed
              | inr long ↦
                  let h = ltb_false→le (length rest) n long in
                  let cut : length (take n rest) ≡ n = omega (arith, length-take n rest) in
                  rw
                    (
                      long,
                      slice_front {E = ProtoError} rest n h,
                      skip_drops {E = ProtoError} n rest h,
                    )
                    (done (rw (cut, take-append-drop n rest), (h0, h1, h2, h3, omega (arith, cut))))
            ])))

  -- On any bytes the decoder of a ACK_BITMAP payload does not panic, and it succeeds only on the
  -- encoding of what it returns, followed by what it leaves.
  pub decode_ack-Total :
      (s : List ℕ) → IsBytes s → Total (λ p s'. (s ≡ wire p ++ s') × Fits p) (decode_ack s)
  decode_ack-Total s hb = elim (Bool-cases (ltb (length s) 26)) [
    | inl short ↦ unfold decode_ack in rw short failed
    | inr long ↦
        let p = parsed widths s hb (ltb_false→le (length s) 26 long) in
        rw p.bytes (decode-Numbers p.numbers p.rest p.rest_bytes)
  ]
