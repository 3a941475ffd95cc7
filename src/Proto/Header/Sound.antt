-- ===== src/Proto/Header/Sound.antt =====
-- What the decoders of the header accept, on any bytes.
use native.Mathlib.Nat.{mod-eq_of_lt}
use favonius.Base.{
  ℕ, ◌^◌, ◌<◌, ◌≤◌, ◌≡◌, refl, inl, inr, not, List, [], ◌∷◌, ◌++◌, ltb, ltb_false→le, le→ltb_false,
  ◌==◌, ==_iff, Bool-cases, false, length, slice-middle, append_assoc, arith,
}
use favonius.Bytes.Endian.{to_be_bytes, lens, IsBytes}
use favonius.Bytes.Buf.{ByteBuf, Crc32c, BitFlags}
use favonius.Bytes.Cursor.{Total, done, failed, reads}
use favonius.Bytes.Fields.{Numbers, written, parsed}
use favonius.Proto.PacketType.{PacketType, to_u8, try_from_iff, try_from_cases}
use favonius.Proto.Flags.{PacketFlags, from_bits_truncate}
use favonius.Proto.Header.{PacketHeader, FitsTypes, header_size, protocol_version, body, wire}
use favonius.Proto.Header.Decode.{decode}

abbrev widths : List ℕ
widths = 1 ∷ 1 ∷ 2 ∷ 2 ∷ 8 ∷ 4 ∷ 8 ∷ 8 ∷ 4 ∷ 4 ∷ []

not_eq_false : (a b : ℕ) → not (a == b) ≡ false → a ≡ b
not_eq_false a b h = ground arith

abbrev covered_bytes : ℕ → ℕ → ℕ → ℕ → ℕ → ℕ → ℕ → ℕ → ℕ → List ℕ
covered_bytes v t f l c i n m p =
    to_be_bytes 1 v
    ++ (to_be_bytes 1 t
        ++ (to_be_bytes 2 f
            ++ (to_be_bytes 2 l
                ++ (to_be_bytes 8 c
                    ++ (to_be_bytes 4 i
                        ++ (to_be_bytes 8 n ++ (to_be_bytes 8 m ++ to_be_bytes 4 p)))))))

regroup :
    (v t f l c i n m p : ℕ) (tail : List ℕ)
    → to_be_bytes 1 v
        ++ (to_be_bytes 1 t
            ++ (to_be_bytes 2 f
                ++ (to_be_bytes 2 l
                    ++ (to_be_bytes 8 c
                        ++ (to_be_bytes 4 i
                            ++ (to_be_bytes 8 n
                                ++ (to_be_bytes 8 m ++ (to_be_bytes 4 p ++ tail))))))))
      ≡ covered_bytes v t f l c i n m p ++ tail
regroup v t f l c i n m p tail = simp append_assoc

module _ ⦃buf : ByteBuf⦄ ⦃crc : Crc32c⦄ ⦃bf : BitFlags⦄ where
  -- `src` is the encoding of `h` but for the reserved flags, which `h` has lost, and of `rest`.
  pub record Accepted (src : List ℕ) (h : PacketHeader) (rest : List ℕ) : Type 0 where
    pub raw_flags : PacketFlags
    pub bytes : src ≡ wire (record h { flags = raw_flags }) ++ rest
    pub truncated : h.flags ≡ from_bits_truncate raw_flags.bits
    pub checksum : h.header_crc ≡ crc.crc32c (body (record h { flags = raw_flags }))
    pub raw_fits : FitsTypes (record h { flags = raw_flags })
    pub current : h.version ≡ protocol_version
    pub long_enough : header_size ≤ h.header_length

  accept :
      (v : ℕ) (ty : PacketType) (f l c i n m p t k : ℕ) (rest : List ℕ)
      → (v < 256 ^ 1)
        × (f < 256 ^ 2)
        × (l < 256 ^ 2)
        × (c < 256 ^ 8)
        × (i < 256 ^ 4)
        × (n < 256 ^ 8)
        × (m < 256 ^ 8)
        × (p < 256 ^ 4)
      → to_u8 ty ≡ t
      → k ≡ crc.crc32c (covered_bytes v t f l c i n m p)
      → v ≡ 1
      → 42 ≤ l
      → Accepted
          (to_be_bytes 1 v
            ++ (to_be_bytes 1 t
                ++ (to_be_bytes 2 f
                    ++ (to_be_bytes 2 l
                        ++ (to_be_bytes 8 c
                            ++ (to_be_bytes 4 i
                                ++ (to_be_bytes 8 n
                                    ++ (to_be_bytes 8 m
                                        ++ (to_be_bytes 4 p ++ (to_be_bytes 4 k ++ rest))))))))))
          (record {
            version = v;
            packet_type = ty;
            flags = from_bits_truncate f;
            header_length = l;
            connection_id = c;
            stream_id = i;
            packet_number = n;
            timestamp = m;
            payload_length = p;
            header_crc = k;
          })
          rest
  accept v ty f l c i n m p t k rest r type_code sum ver long = record {
    raw_flags = record { bits = f };
    bytes = rw (sum, ← type_code) (simp append_assoc);
    truncated = refl;
    checksum = rw type_code sum;
    raw_fits = omega arith;
    current = ver;
    long_enough = long;
  }

  decode-Numbers :
      (ns : Numbers widths) (rest : List ℕ)
      → Total (Accepted (written widths ns rest)) (decode (written widths ns rest))
  unfolding decode
  decode-Numbers
        (v, hv, (t, ht, (f, hf, (l, hl, (c, hc, (i, hi, (n, hn, (m, hm, (p, hp, (k, hk, e))))))))))
        rest =
      let b : List ℕ = covered_bytes v t f l c i n m p in
      rw
        (
          regroup v t f l c i n m p (to_be_bytes 4 k ++ rest),
          le→ltb_false (length (b ++ (to_be_bytes 4 k ++ rest))) 42 (omega lens),
          slice-middle [] b (to_be_bytes 4 k ++ rest) 0 38 refl (omega lens),
        )
        (simp reads (
          rw
            (
              mod-eq_of_lt hv,
              mod-eq_of_lt ht,
              mod-eq_of_lt hf,
              mod-eq_of_lt hl,
              mod-eq_of_lt hc,
              mod-eq_of_lt hi,
              mod-eq_of_lt hn,
              mod-eq_of_lt hm,
              mod-eq_of_lt hp,
              mod-eq_of_lt hk,
            )
            (elim (Bool-cases (k == crc.crc32c b)) [
              | inr bad ↦ rw bad failed
              | inl good ↦ rw good (elim (Bool-cases (v == protocol_version)) [
                | inr old ↦ rw old failed
                | inl new ↦ rw new (elim (try_from_cases t) [
                  | inr unknown ↦ rw unknown failed
                  | inl (ty, known) ↦ rw known (elim (Bool-cases (ltb l header_size)) [
                    | inl short ↦ rw short failed
                    | inr long ↦ rw long (
                        done (
                          accept v ty f l c i n m p t k rest (hv, hf, hl, hc, hi, hn, hm, hp)
                            ((try_from_iff t ty).0 known) ((==_iff k (crc.crc32c b)).0 good)
                            ((==_iff v 1).0 new) (ltb_false→le l 42 long)))
                  ])
                ])
              ])
            ])))

  -- On any bytes `decode` does not panic, and it succeeds only on the encoding of the header that
  -- it returns (but for reserved flags, which are dropped): the checksum is that of the 38 bytes
  -- before it, the version is 1, and the declared header length is at least 42.
  pub decode-Total : (src : List ℕ) → IsBytes src → Total (Accepted src) (decode src)
  decode-Total src hb = elim (Bool-cases (ltb (length src) 42)) [
    | inl short ↦ unfold decode in rw short failed
    | inr long ↦
        let q = parsed widths src hb (ltb_false→le (length src) 42 long) in
        rw q.bytes (decode-Numbers q.numbers q.rest)
  ]
