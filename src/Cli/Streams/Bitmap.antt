-- ===== src/Cli/Streams/Bitmap.antt =====
-- Which chunks the bits of an acknowledgement name, and what the acknowledgement changes by that.
use favonius.Base.{
  ℕ, zero, suc, ◌+◌, ◌-◌, ◌*◌, ◌%◌, ◌^◌, ◌≤◌, ◌<◌, ◌≡◌, refl, ap, ◌∙◌, Bool, true, false, ◌&&◌,
  ◌||◌, List, [], ◌∷◌, inl, inr, ltb, leb, ◌==◌, ==_iff, Bool-cases, length, ltb→lt, test_bit, bit,
  bit-lt-length, ltb_false→le, leb→le, arith,
}
use favonius.Proto.Data.{AckBitmap}
use favonius.Cli.Streams.{
  StreamState, Progress, process_stream, wrapping_add, byte_packets, bitmap_packets,
}
use favonius.Cli.Streams.Acks.{IsValid}
use favonius.Cli.Streams.Packets.{local_of, named, named-append, byte_then, test_bit_zero}
use favonius.Cli.Streams.Process.{
  Processes, in_prefix, in_bitmap, applied_after, process_stream-Processes,
}

-- The bitmap begins with the packet `first`, and the chunk `j` has the packet of its bit `at`.
module _ (base first j at : ℕ) (base_small : base < 2 ^ 64) (j_small : j < 2 ^ 64)
    (first_small : first < 2 ^ 64) (place : at ≡ (base + j + (2 ^ 64 - first)) % 2 ^ 64) where
  same_chunk : (k : ℕ) → k < 2 ^ 64 → (j == local_of base (wrapping_add 64 first k)) ≡ (at == k)
  same_chunk k h = ground arith

  byte_names :
      (bi byte rounds k : ℕ)
      → rounds + k ≡ 8
      → bi * 8 + 8 ≤ 2 ^ 64
      → named base (byte_packets rounds byte k bi first) j
        ≡ (leb (bi * 8 + k) at && (ltb at (bi * 8 + 8) && test_bit byte (at - bi * 8)))
  unfolding byte_packets
  byte_names bi byte zero k e h = ground arith
  byte_names bi byte (suc rounds) k e h =
      let ih = byte_names bi byte rounds (k + 1) (omega arith) h in
      let this = same_chunk (bi * 8 + k) (omega arith) in
      elim (Bool-cases (at == bi * 8 + k)) [
        | inl found ↦
            let bit_place : at - bi * 8 ≡ k = ground arith in
            elim (Bool-cases (test_bit byte k)) [
              | inl one ↦
                  rw (one, this, ih, ap (test_bit byte) bit_place ∙ one) (ground (arith, found))
              | inr zero_bit ↦
                  rw (zero_bit, ih, ap (test_bit byte) bit_place ∙ zero_bit) (ground (arith, found))
            ]
        | inr other ↦ elim (Bool-cases (test_bit byte k)) [
          | inl one ↦ rw (one, this, ih) (ground (arith, other))
          | inr zero_bit ↦ rw (zero_bit, ih) (ground (arith, other))
        ]
      ]

  bitmap_names :
      (bytes : List ℕ) (bi : ℕ)
      → bi * 8 + length bytes * 8 ≤ 2 ^ 64
      → named base (bitmap_packets bytes bi first) j ≡ (leb (bi * 8) at && bit bytes (at - bi * 8))
  unfolding bitmap_packets
  bitmap_names [] bi h = unfold bit in ground arith
  bitmap_names (byte ∷ bytes) bi h =
      let ih = bitmap_names bytes (bi + 1) (omega arith) in
      let byte_bits = byte_names bi byte 8 0 refl (omega arith) in
      let rest = byte_then bytes byte (bi * 8) at in
      let next = moved in
      elim (Bool-cases (byte == 0)) [
        | inl empty ↦ rw empty (ground (arith, ih, rest, next, off (at - bi * 8) empty))
        | inr full ↦ rw full (
            named-append base (byte_packets 8 byte 0 bi first) (bitmap_packets bytes (bi + 1) first)
              j
            ∙ ground (arith, ih, byte_bits, rest, next))
      ]
    where
      moved : bit bytes (at - (bi + 1) * 8) ≡ bit bytes (at - (bi * 8 + 8))
      moved = ap (bit bytes) (omega arith)

      off : (k : ℕ) → (byte == 0) ≡ true → test_bit byte k ≡ false
      off k e = ap (λ (b : ℕ). test_bit b k) ((==_iff byte 0).0 e) ∙ test_bit_zero k

-- A chunk that has no number of 64 bits has no packet.
named_past : (base : ℕ) (pns : List ℕ) (j : ℕ) → 2 ^ 64 ≤ j → named base pns j ≡ false
named_past base [] j h = refl
named_past base (pn ∷ pns) j h = ground (arith, named_past base pns j h)

bit_past : (bytes : List ℕ) (k : ℕ) → length bytes * 8 ≤ k → bit bytes k ≡ false
bit_past bytes k h = elim (Bool-cases (bit bytes k)) [
  | inl one ↦ absurd (omega (arith, bit-lt-length bytes k one))
  | inr zero_bit ↦ zero_bit
]

-- The bits of a bitmap that begins with the chunk `start` are for the chunks from there on.
pub named-bitmap_packets :
    (base start : ℕ) (bytes : List ℕ) (j : ℕ)
    → base + start + length bytes * 8 < 2 ^ 64
    → named base (bitmap_packets bytes 0 (base + start)) j ≡ (leb start j && bit bytes (j - start))
named-bitmap_packets base start bytes j h = elim (Bool-cases (ltb j (2 ^ 64))) [
  | inr past ↦
      let far = ltb_false→le j (2 ^ 64) past in
      named_past base (bitmap_packets bytes 0 (base + start)) j far
      ∙ ground (arith, bit_past bytes (j - start) (omega arith))
  | inl small ↦
      let at = (base + j + (2 ^ 64 - (base + start))) % 2 ^ 64 in
      let j_small = ltb→lt j (2 ^ 64) small in
      bitmap_names base (base + start) j at (omega arith) j_small (omega arith) refl bytes 0
        (omega arith)
      ∙ elim (Bool-cases (leb start j)) [
        | inl behind ↦
            let place : at - 0 * 8 ≡ j - start = omega (arith, leb→le start j behind) in
            rw behind (ground (arith, ap (bit bytes) place))
        | inr before ↦ rw before (ground (arith, bit_past bytes (at - 0 * 8) (ground arith)))
      ]
]

-- The acknowledgement has a bit for the chunk `j`: bit `k` of its bitmap, the lowest of each byte first,
-- is for the packet `highest_contiguous + 1 + k`, of 64 bits.
abbrev pub bit_names : AckBitmap → StreamState → ℕ → Bool
bit_names ack s j =
    bit ack.bitmap ((s.chunk_base + j + (2 ^ 64 - 1 - ack.highest_contiguous)) % 2 ^ 64)

bit_names-in_bitmap :
    (ack : AckBitmap) (s : StreamState) (j : ℕ)
    → s.chunk_base + s.chunk_count ≤ 2 ^ 64
    → ack.highest_contiguous < 2 ^ 64
    → length ack.bitmap < 2 ^ 16
    → j < s.chunk_count
    → in_bitmap ack s j ≡ bit_names ack s j
bit_names-in_bitmap ack s j fits h short within =
    let first = wrapping_add 64 ack.highest_contiguous 1 in
    let at = (s.chunk_base + j + (2 ^ 64 - 1 - ack.highest_contiguous)) % 2 ^ 64 in
    let from_start : bit ack.bitmap (at - 0 * 8) ≡ bit ack.bitmap at =
      ap (bit ack.bitmap) (omega arith) in
    bitmap_names s.chunk_base first j at (omega arith) (omega arith) (omega arith) (omega arith)
      ack.bitmap 0 (omega arith)
    ∙ ground (arith, from_start)

-- Whatever an acknowledgement says, whose numbers are a `u64` and whose bitmap is shorter than 65536
-- bytes, applying it to a valid stream whose chunks have numbers of 64 bits does not panic and leaves
-- a valid stream of the same chunks. A chunk is acknowledged afterwards exactly when it was, or it
-- lies in the new part of the prefix, where this ends in the stream, or the bit for its packet is set. As many chunks are reported
-- as are newly acknowledged, and the window is released by as many packets.
pub process_stream_lem :
    (ack : AckBitmap) (now_us wire_size : ℕ) (p : Progress)
    → IsValid p.stream
    → p.stream.chunk_base + p.stream.chunk_count ≤ 2 ^ 64
    → ack.highest_contiguous < 2 ^ 64
    → length ack.bitmap < 2 ^ 16
    → Processes wire_size
        (λ j. in_prefix ack p.stream j || bit_names ack p.stream j)
        (applied_after ack p.stream)
        p
        (process_stream ack now_us wire_size p)
process_stream_lem ack now_us wire_size p v fits h short =
    let (q, n, done, a) = process_stream-Processes ack now_us wire_size p v h in
    (
      q,
      n,
      done,
      record {
        valid = a.valid;
        same_base = a.same_base;
        same_count = a.same_count;
        applied = a.applied;
        counted = a.counted;
        reported = a.reported;
        released = a.released;
        marks = λ j. elim (Bool-cases (ltb j p.stream.chunk_count)) [
          | inl within ↦
              let here = bit_names-in_bitmap ack p.stream j fits h short (ltb→lt j _ within) in
              rw (a.marks j, here) refl
          | inr past ↦ rw (a.marks j, past) (ground arith)
        ];
      },
    )
