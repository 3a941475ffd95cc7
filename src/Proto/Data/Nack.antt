-- ===== src/Proto/Data/Nack.antt =====
-- crates/ahp-proto/src/data.rs: round trip and soundness of `NackRange`.
use native.Mathlib.Nat.{mod-eq_of_lt}
use mathlib.Core.List.{foldl}
use favonius.Base.{
  ℕ, zero, suc, ◌*◌, ◌^◌, ◌<◌, ◌≤◌, ◌≡◌, refl, sym, ap, ◌∙◌, inl, inr, List, [], ◌∷◌, ◌++◌, ltb,
  le→ltb_false, ltb_false→le, Bool-cases, length, drop, drop-append, append_assoc, append-nil, All,
  arith,
}
use favonius.Base.{Outcome, ok}
use favonius.Bytes.Endian.{to_be_bytes, lens, IsBytes}
use favonius.Bytes.Buf.{ByteBuf}
use favonius.Bytes.Cursor.{continue, pure, Total, done, failed, reads}
use favonius.Bytes.Fields.{Numbers, written, parsed}
use favonius.Proto.Errors.{ProtoError}
use favonius.Proto.Data.{NackRange, encode_nack, decode_nack, nack_wire_size, get_ranges, put_range}

abbrev pub range_bytes : List (ℕ × ℕ) → List ℕ
range_bytes [] = []
range_bytes ((start, end) ∷ rs) = to_be_bytes 8 start ++ (to_be_bytes 8 end ++ range_bytes rs)

-- The table of the type's documentation.
abbrev pub wire : NackRange → List ℕ
wire p = to_be_bytes 4 p.stream_id ++ (to_be_bytes 2 (length p.ranges) ++ range_bytes p.ranges)

abbrev pub InRange : ℕ × ℕ → Type 0
InRange (start, end) = (start < 256 ^ 8) × (end < 256 ^ 8)

-- The ranges of the fields, and a count that fits its two bytes.
abbrev pub Fits : NackRange → Type 0
Fits p = (p.stream_id < 256 ^ 4) × (length p.ranges < 256 ^ 2) × All InRange p.ranges

length-range_bytes : (rs : List (ℕ × ℕ)) → length (range_bytes rs) ≡ length rs * 16
length-range_bytes [] = omega arith
length-range_bytes ((a, b) ∷ rs) = omega (lens, length-range_bytes rs)

-- `wire_size` is the length of the encoding.
pub length-wire : (p : NackRange) → length (wire p) ≡ nack_wire_size p
unfolding nack_wire_size
length-wire p = omega (lens, length-range_bytes p.ranges)

module _ ⦃buf : ByteBuf⦄ where
  foldl-put_range :
      (rs : List (ℕ × ℕ)) (dst : List ℕ) → foldl put_range dst rs ≡ dst ++ range_bytes rs
  foldl-put_range [] dst = sym (append-nil dst)
  foldl-put_range ((a, b) ∷ rs) dst =
      foldl-put_range rs (put_range dst (a, b)) ∙ simp (buf.put_uint_appends, append_assoc)

  pub encode-wire : (p : NackRange) (dst : List ℕ) → Fits p → encode_nack p dst ≡ dst ++ wire p
  unfolding encode_nack
  encode-wire p dst h =
      foldl-put_range p.ranges _ ∙ simp (buf.put_uint_appends, append_assoc) (rw (mod-eq_of_lt h.1))

  get_ranges-bytes :
      (rs out : List (ℕ × ℕ)) (rest : List ℕ)
      → All InRange rs
      → get_ranges (length rs) out (range_bytes rs ++ rest) ≡ (ok (out ++ rs), rest)
  unfolding get_ranges
  get_ranges-bytes [] out rest h = rw append-nil
  get_ranges-bytes ((a, b) ∷ rs) out rest (h, hs) = simp reads (
      rw (mod-eq_of_lt h.0, mod-eq_of_lt h.1, get_ranges-bytes rs (out ++ ((a, b) ∷ [])) rest hs)
        (simp append_assoc))

  pub decode-wire :
      (p : NackRange) (rest : List ℕ) → Fits p → decode_nack (wire p ++ rest) ≡ (ok p, rest)
  unfolding decode_nack
  decode-wire p rest h = rw (le→ltb_false (length (wire p ++ rest)) 6 (omega lens)) (
      simp reads (
        rw (
          mod-eq_of_lt h.0,
          mod-eq_of_lt h.1,
          le→ltb_false (length (range_bytes p.ranges ++ rest)) (length p.ranges * 16)
              (omega (lens, length-range_bytes p.ranges)),
          get_ranges-bytes p.ranges [] rest h.2,
        )))

  -- What `encode` appends to any buffer for a NACK_RANGE payload whose fields fit is decoded to the same
  -- payload, and the cursor stands behind it.
  pub decode_nack-encode_nack :
      (p : NackRange) (dst rest : List ℕ)
      → Fits p
      → decode_nack (drop (length dst) (encode_nack p dst) ++ rest) ≡ (ok p, rest)
  decode_nack-encode_nack p dst rest h =
      rw (encode-wire p dst h, drop-append dst (wire p) (length dst) refl) (decode-wire p rest h)

  -- `n` ranges read off the front of `s`.
  record GotRanges (n : ℕ) (out : List (ℕ × ℕ)) (s : List ℕ) (ys : List (ℕ × ℕ)) (s' : List ℕ)
      : Type 0 where
    got : List (ℕ × ℕ)
    appended : ys ≡ out ++ got
    counted : length got ≡ n
    in_range : All InRange got
    bytes : s ≡ range_bytes got ++ s'

  extend :
      (a b n : ℕ) (out : List (ℕ × ℕ)) (s : List ℕ) {r : Outcome ProtoError (List (ℕ × ℕ)) × List ℕ}
      → a < 256 ^ 8
      → b < 256 ^ 8
      → Total (GotRanges n (out ++ ((a, b) ∷ [])) s) r
      → Total (GotRanges (suc n) out (to_be_bytes 8 a ++ (to_be_bytes 8 b ++ s))) r
  extend a b n out s ha hb (done g) = done (record {
    got = (a, b) ∷ g.got;
    appended = g.appended ∙ append_assoc out ((a, b) ∷ []) g.got;
    counted = ap suc g.counted;
    in_range = ((ha, hb), g.in_range);
    bytes =
        ap (λ (t : List ℕ). to_be_bytes 8 a ++ (to_be_bytes 8 b ++ t)) g.bytes ∙ simp append_assoc;
  })
  extend a b n out s ha hb failed = failed

  one_range :
      (ns : Numbers (8 ∷ 8 ∷ [])) (rest : List ℕ) (n : ℕ) (out : List (ℕ × ℕ))
      → ((out' : List (ℕ × ℕ)) → Total (GotRanges n out' rest) (get_ranges n out' rest))
      → Total
          (GotRanges (suc n) out (written (8 ∷ 8 ∷ []) ns rest))
          (get_ranges (suc n) out (written (8 ∷ 8 ∷ []) ns rest))
  unfolding get_ranges
  one_range (a, ha, (b, hb, u)) rest n out ih = simp reads (
      rw (mod-eq_of_lt ha, mod-eq_of_lt hb)
        (extend a b n out rest ha hb (ih (out ++ ((a, b) ∷ [])))))

  get_ranges-Total :
      (n : ℕ) (out : List (ℕ × ℕ)) (s : List ℕ)
      → IsBytes s
      → n * 16 ≤ length s
      → Total (GotRanges n out s) (get_ranges n out s)
  unfolding get_ranges
  get_ranges-Total zero out s hb h = done (record {
    got = [];
    appended = sym (append-nil out);
    counted = refl;
    in_range = tt;
    bytes = refl;
  })
  get_ranges-Total (suc n) out s hb h =
      let p = parsed (8 ∷ 8 ∷ []) s hb (omega arith) in
      rw p.bytes (
        one_range p.numbers p.rest n out
          (λ out'. get_ranges-Total n out' p.rest p.rest_bytes (omega (arith, p.shorter))))

  finish :
      (sid n : ℕ) (s : List ℕ) {r : Outcome ProtoError (List (ℕ × ℕ)) × List ℕ}
      → sid < 256 ^ 4
      → n < 256 ^ 2
      → Total (GotRanges n [] s) r
      → Total
          (λ p s'.
            (to_be_bytes 4 sid ++ (to_be_bytes 2 n ++ s)
              ≡ to_be_bytes 4 p.stream_id
                ++ (to_be_bytes 2 (length p.ranges) ++ (range_bytes p.ranges ++ s')))
            × Fits p)
          (continue r (λ ranges. pure (record { stream_id = sid; ranges = ranges })))
  finish sid n s h0 h1 (done {a = ys} {s = s'} g) =
      done (rw (g.appended, ← g.counted, g.bytes), rw g.appended (h0, rw g.counted h1, g.in_range))
  finish sid n s h0 h1 failed = failed

  decode-Numbers :
      (ns : Numbers (4 ∷ 2 ∷ [])) (rest : List ℕ)
      → IsBytes rest
      → Total
          (λ p s'. (written (4 ∷ 2 ∷ []) ns rest ≡ wire p ++ s') × Fits p)
          (decode_nack (written (4 ∷ 2 ∷ []) ns rest))
  unfolding decode_nack
  decode-Numbers (sid, h0, (n, h1, u)) rest hb =
      rw (le→ltb_false (length (written (4 ∷ 2 ∷ []) (sid, h0, (n, h1, u)) rest)) 6 (omega lens)) (
        simp reads (
          rw (mod-eq_of_lt h0, mod-eq_of_lt h1)
            (elim (Bool-cases (ltb (length rest) (n * 16))) [
              | inl short ↦ rw short failed
              | inr long ↦ rw long (
                  finish sid n rest h0 h1
                    (get_ranges-Total n [] rest hb (ltb_false→le (length rest) (n * 16) long)))
            ])))

  -- On any bytes the decoder of a NACK_RANGE payload does not panic, and it succeeds only on the
  -- encoding of what it returns, followed by what it leaves.
  pub decode_nack-Total :
      (s : List ℕ) → IsBytes s → Total (λ p s'. (s ≡ wire p ++ s') × Fits p) (decode_nack s)
  decode_nack-Total s hb = elim (Bool-cases (ltb (length s) 6)) [
    | inl short ↦ unfold decode_nack in rw short failed
    | inr long ↦
        let p = parsed (4 ∷ 2 ∷ []) s hb (ltb_false→le (length s) 6 long) in
        rw p.bytes (decode-Numbers p.numbers p.rest p.rest_bytes)
  ]
