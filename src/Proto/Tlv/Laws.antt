-- ===== src/Proto/Tlv/Laws.antt =====
-- Round trip and soundness of TLV records (crates/ahp-proto/src/tlv.rs).
use native.Mathlib.Nat.{mod-eq_of_lt}
use mathlib.Core.List.{foldl}
use favonius.Base.{
  ℕ, ◌^◌, ◌<◌, ◌≡◌, ◌≢◌, lt→ltb, zero, suc, refl, sym, ap, ◌∙◌, inl, inr, List, [], ◌∷◌, ◌++◌, some,
  ltb, le→ltb_false, ltb_false→le, Bool-cases, length, take, length-take, take-append-drop,
  slice_front, slice-middle, append_assoc, append-nil, All, arith,
}
use favonius.Base.{Outcome, ok, err, panic}
use favonius.Bytes.Endian.{to_be_bytes, lens, IsBytes}
use favonius.Bytes.Buf.{ByteBuf}
use favonius.Bytes.Cursor.{Total, done, failed, reads, skip-append, skip_drops, IsBytes-drop}
use favonius.Bytes.Fields.{Numbers, written, parsed}
use favonius.Bytes.Many.{
  Framing, wires, drain-wires, Drained, drain-Drained, Drained-total, Drained-ok,
}
use favonius.Proto.Errors.{ProtoError, invalid_tlv, tlv_header_short}
use favonius.Proto.Tlv.{Tlv, encode, decode, encode_tlvs, decode_tlvs, next, wire_size}

-- Type, length and value.
abbrev pub wire : Tlv → List ℕ
wire t = to_be_bytes 2 t.tlv_type ++ (to_be_bytes 2 (length t.value) ++ t.value)

-- The type is a u16, and the length of the value fits in one.
abbrev pub Fits : Tlv → Type 0
Fits t = (t.tlv_type < 256 ^ 2) × (length t.value < 256 ^ 2)

pub length-wire : (t : Tlv) → length (wire t) ≡ wire_size t
unfolding wire_size
length-wire t = omega lens

pub wire_pos : (t : Tlv) → 0 < length (wire t)
wire_pos t = omega lens

module _ ⦃buf : ByteBuf⦄ where
  pub decode-wire : (t : Tlv) (rest : List ℕ) → Fits t → decode (wire t ++ rest) ≡ (ok t, rest)
  unfolding decode
  decode-wire t rest (ht, hl) = rw (le→ltb_false (length (wire t ++ rest)) 4 (omega lens)) (
      simp reads (
        rw (
          mod-eq_of_lt ht,
          mod-eq_of_lt hl,
          le→ltb_false (length (t.value ++ rest)) (length t.value) (omega lens),
          slice-middle [] t.value rest 0 (length t.value) refl (omega arith),
          skip-append t.value rest (length t.value) refl,
        )))

  decode-Numbers :
      (ns : Numbers (2 ∷ 2 ∷ [])) (rest : List ℕ)
      → IsBytes rest
      → Total
          (λ t s'. (written (2 ∷ 2 ∷ []) ns rest ≡ wire t ++ s') × Fits t × IsBytes s')
          (decode (written (2 ∷ 2 ∷ []) ns rest))
  unfolding decode
  decode-Numbers (t, ht, (n, hn, u)) rest hb =
      rw (le→ltb_false (length (written (2 ∷ 2 ∷ []) (t, ht, (n, hn, u)) rest)) 4 (omega lens)) (
        simp reads (
          rw (mod-eq_of_lt ht, mod-eq_of_lt hn)
            (elim (Bool-cases (ltb (length rest) n)) [
              | inl short ↦ rw short failed
              | inr long ↦
                  let h = ltb_false→le (length rest) n long in
                  let cut : length (take n rest) ≡ n = omega (arith, length-take n rest) in
                  rw
                    (
                      long,
                      slice_front {E = ProtoError} rest n h,
                      skip_drops {E = ProtoError} n rest h,
                    )
                    (done (
                      rw (cut, take-append-drop n rest),
                      (ht, omega (arith, cut)),
                      IsBytes-drop n rest hb,
                    ))
            ])))

  pub decode-Total :
      (s : List ℕ) → IsBytes s → Total (λ t s'. (s ≡ wire t ++ s') × Fits t × IsBytes s') (decode s)
  decode-Total s hb = elim (Bool-cases (ltb (length s) 4)) [
    | inl short ↦ unfold decode in rw short failed
    | inr long ↦
        let p = parsed (2 ∷ 2 ∷ []) s hb (ltb_false→le (length s) 4 long) in
        rw p.bytes (decode-Numbers p.numbers p.rest p.rest_bytes)
  ]

  abbrev pub framing : Framing ProtoError Tlv
  framing = record {
    one = decode;
    wire = wire;
    Fits = Fits;
    wire_pos = wire_pos;
    one_reads = decode-wire;
    one_sound = decode-Total;
  }

  pub encode-wire : (t : Tlv) (dst : List ℕ) → Fits t → encode t dst ≡ dst ++ wire t
  unfolding encode
  encode-wire t dst h =
      simp (buf.put_uint_appends, buf.put_slice_appends, append_assoc) (rw (mod-eq_of_lt h.1))

  pub foldl-encode :
      (ts : List Tlv) (dst : List ℕ)
      → All Fits ts
      → foldl (λ d t. encode t d) dst ts ≡ dst ++ wires framing ts
  foldl-encode [] dst h = sym (append-nil dst)
  foldl-encode (t ∷ ts) dst (h, hs) =
      ap (λ (d : List ℕ). foldl (λ d t. encode t d) d ts) (encode-wire t dst h)
      ∙ foldl-encode ts (dst ++ wire t) hs
      ∙ append_assoc dst (wire t) (wires framing ts)

  pub encode_tlvs-wires : (ts : List Tlv) → All Fits ts → encode_tlvs ts ≡ wires framing ts
  unfolding encode_tlvs
  encode_tlvs-wires ts h = foldl-encode ts [] h

  -- Records whose types and lengths fit their two bytes are read back from their encoding, in order.
  pub decode_tlvs-encode_tlvs :
      (ts : List Tlv) → All Fits ts → decode_tlvs (encode_tlvs ts) ≡ some (ok ts)
  unfolding decode_tlvs
  decode_tlvs-encode_tlvs ts h =
      rw (encode_tlvs-wires ts h)
        (drain-wires framing ts (length (wires framing ts)) [] h (omega arith))

  decode_tlvs-Drained : (src : List ℕ) → IsBytes src → Drained framing src [] (decode_tlvs src)
  unfolding decode_tlvs
  decode_tlvs-Drained src hb = drain-Drained framing (length src) src [] hb (omega arith)

  -- On any bytes the loop of `decode_tlvs` ends within its fuel, and it does not panic.
  pub decode_tlvs_total :
      (src : List ℕ)
      → IsBytes src
      → (o : Outcome ProtoError (List Tlv)) × (decode_tlvs src ≡ some o) × (o ≢ panic)
  decode_tlvs_total src hb = Drained-total framing (decode_tlvs-Drained src hb)

  -- Where `decode_tlvs` succeeds, the input is the encoding of what it returns, byte for byte.
  pub encode_tlvs-decode_tlvs :
      (src : List ℕ) (ts : List Tlv)
      → IsBytes src
      → decode_tlvs src ≡ some (ok ts)
      → encode_tlvs ts ≡ src
  encode_tlvs-decode_tlvs src ts hb e =
      let (whole, fit) = Drained-ok framing (decode_tlvs-Drained src hb) e in
      encode_tlvs-wires ts fit ∙ sym whole

  -- With one to three bytes left, the iterator yields an error and keeps those bytes.
  pub next_stutters :
      (s : List ℕ)
      → 0 < length s
      → length s < 4
      → next s ≡ (some (err (invalid_tlv (tlv_header_short (length s)))), s)
  unfolding next decode
  next_stutters [] p q = absurd (omega arith)
  next_stutters (b ∷ s) p q = rw (lt→ltb (length (b ∷ s)) 4 q)

  -- The bytes that remain after `k` calls of `next`.
  abbrev pub after_calls : ℕ → List ℕ → List ℕ
  after_calls zero s = s
  after_calls (suc k) s = after_calls k (next s).1

  -- With one to three bytes left, no number of calls makes the iterator end: each of them yields the
  -- same error again.
  pub next_never_ends :
      (k : ℕ) (s : List ℕ)
      → 0 < length s
      → length s < 4
      → (next (after_calls k s)).0 ≡ some (err (invalid_tlv (tlv_header_short (length s))))
  next_never_ends zero s p q = rw (next_stutters s p q)
  next_never_ends (suc k) s p q = rw (next_stutters s p q) (next_never_ends k s p q)
