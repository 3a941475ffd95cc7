-- ===== src/Daemon/Streams/Acks.antt =====
-- The acknowledgement of one stream.
use mathlib.Core.Option
use favonius.Base.{
  ℕ, zero, suc, ◌+◌, ◌-◌, ◌*◌, ◌≤◌, ◌<◌, min, ◌≡◌, refl, ap, ◌∙◌, Bool, true, false, ◌&&◌, ◌||◌,
  List, [], ◌∷◌, Option, some, inl, inr, ltb, leb, ◌==◌, ==_iff, ==_false→ne, ◌≢◌, All, Bool-cases,
  length, drop, replicate, length-replicate, marked, marked-drop, bit, bit-replicate,
  store_bit-Stored, leb→le, leb_false→lt, arith,
}
use favonius.Proto.ZeroRuns.{div_ceil}
use favonius.Daemon.Streams.{
  StreamRecvState, fill_bitmap, bind, max_ack_bitmap_bytes, highest_contiguous,
  build_stream_ack_bitmap,
}

abbrev AllBytes : List ℕ → Type 0
AllBytes bs = All (λ b. b < 256) bs

-- What the loop leaves: the bits that were there, and those of the marks from `i` on.
record Filled (rs : List Bool) (i : ℕ) (bitmap : List ℕ) (result : Option (List ℕ)) : Type 0 where
  pub bytes : List ℕ
  pub done : result ≡ some bytes
  pub size : length bytes ≡ length bitmap
  pub small : AllBytes bytes
  pub bits : (j : ℕ) → bit bytes j ≡ bit bitmap j || (leb i j && (ltb j 8192 && marked rs (j - i)))

-- At `i` the loop looks at the first mark, and later at the others.
at_mark :
    (r : Bool) (rs : List Bool) (i j : ℕ)
    → i < 8192
    → (leb i j && (ltb j 8192 && marked (r ∷ rs) (j - i)))
      ≡ (r && (j == i)) || (leb (i + 1) j && (ltb j 8192 && marked rs (j - (i + 1))))
at_mark r rs i j h = elim (Bool-cases (leb i j)) [
  | inr before ↦ ground (arith, leb_false→lt i j before)
  | inl from ↦ elim (Bool-cases (j == i)) [
    | inl here ↦
        rw (ap (marked (r ∷ rs)) (first (leb→le i j from) ((==_iff j i).0 here)))
          (ground (arith, (==_iff j i).0 here))
    | inr later ↦
        rw (ap (marked (r ∷ rs)) (next (leb→le i j from) (==_false→ne j i later)))
          (ground (arith, leb→le i j from))
  ]
]
  where
    first : i ≤ j → j ≡ i → j - i ≡ 0
    first p q = omega arith

    next : i ≤ j → j ≢ i → j - i ≡ suc (j - (i + 1))
    next p q = ground arith

fill_capped :
    (rs : List Bool) (i : ℕ) (bitmap : List ℕ)
    → AllBytes bitmap
    → 8192 ≤ i
    → Filled rs i bitmap (some bitmap)
fill_capped rs i bitmap small h = record {
  bytes = bitmap;
  done = refl;
  size = refl;
  small = small;
  bits = λ j. ground arith;
}

fill_bitmap_lem :
    (rs : List Bool) (i : ℕ) (bitmap : List ℕ)
    → AllBytes bitmap
    → min (i + length rs) 8192 ≤ length bitmap * 8
    → Filled rs i bitmap (fill_bitmap rs i bitmap)
unfolding fill_bitmap
fill_bitmap_lem [] i bitmap small room = record {
  bytes = bitmap;
  done = refl;
  size = refl;
  small = small;
  bits = λ j. ground arith;
}
fill_bitmap_lem (false ∷ rs) i bitmap small room = elim (Bool-cases (leb 8192 i)) [
  | inl capped ↦ rw capped (fill_capped (false ∷ rs) i bitmap small (leb→le 8192 i capped))
  | inr more ↦
      let f = fill_bitmap_lem rs (i + 1) bitmap small (omega arith) in
      rw more (record {
        bytes = f.bytes;
        done = f.done;
        size = f.size;
        small = f.small;
        bits = λ j. ground (arith, f.bits j, at_mark false rs i j (leb_false→lt 8192 i more));
      })
]
fill_bitmap_lem (true ∷ rs) i bitmap small room = elim (Bool-cases (leb 8192 i)) [
  | inl capped ↦ rw capped (fill_capped (true ∷ rs) i bitmap small (leb→le 8192 i capped))
  | inr more ↦
      let below = leb_false→lt 8192 i more in
      let w = store_bit-Stored bitmap i (omega arith) small in
      let f = fill_bitmap_lem rs (i + 1) w.bytes w.small (omega (arith, w.size)) in
      rw more (record {
        bytes = f.bytes;
        done = ap (λ (o : Option (List ℕ)). bind o (fill_bitmap rs (i + 1))) w.stored ∙ f.done;
        size = f.size ∙ w.size;
        small = f.small;
        bits = λ j. ground (arith, f.bits j, w.bits j, at_mark true rs i j below);
      })
]

-- The bytes of an acknowledgement, and what they say: the chunks behind the contiguous prefix.
pub record Acked (s : StreamRecvState) : Type 0 where
  pub bitmap : List ℕ
  pub built : build_stream_ack_bitmap s ≡ some (highest_contiguous s, bitmap)
  pub size : length bitmap ≤ max_ack_bitmap_bytes
  pub small : AllBytes bitmap
  pub bits : (j : ℕ) → bit bitmap j ≡ (ltb j 8192 && marked s.received (s.contig_prefix + j))

zeros : (n : ℕ) → AllBytes (replicate n 0)
zeros zero = tt
zeros (suc n) = (omega arith, zeros n)

-- Building an acknowledgement does not panic; its bitmap has at most 1024 bytes, and its bits are the
-- marks of the 8192 chunks behind the contiguous prefix.
pub build_stream_ack_bitmap_lem : (s : StreamRecvState) → Acked s
unfolding build_stream_ack_bitmap div_ceil
build_stream_ack_bitmap_lem s =
    let rest = drop s.contig_prefix s.received in
    let n = min (div_ceil (length rest) 8) max_ack_bitmap_bytes in
    let f = fill_bitmap_lem rest 0 (replicate n 0) (zeros n) (room rest) in
    record {
      bitmap = f.bytes;
      built = ap (Option.map (λ (b : List ℕ). (highest_contiguous s, b))) f.done;
      size = omega (arith, f.size, length-replicate {A = ℕ} n 0);
      small = f.small;
      bits = λ j.
          f.bits j
          ∙ rw
              (
                bit-replicate n j,
                ap (marked rest) (minus_zero j),
                marked-drop s.received s.contig_prefix j,
              )
              (ground arith);
    }
  where
    minus_zero : (j : ℕ) → j - 0 ≡ j
    minus_zero j = omega arith

    room :
        (rest : List Bool)
        → min (0 + length rest) 8192
          ≤ length (replicate {A = ℕ} (min (div_ceil (length rest) 8) max_ack_bitmap_bytes) 0) * 8
    room rest =
        rw (length-replicate {A = ℕ} (min (div_ceil (length rest) 8) max_ack_bitmap_bytes) 0)
          (ground arith)
