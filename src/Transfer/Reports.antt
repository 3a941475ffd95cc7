-- ===== src/Transfer/Reports.antt =====
-- What an acknowledgement says of the chunks of a stream, and what the sender reads in it.
use favonius.Base.{
  ℕ, ◌+◌, ◌-◌, ◌%◌, ◌^◌, ◌≤◌, ◌<◌, max, ◌≡◌, refl, ap, ap₂, ◌∙◌, Bool, true, ◌&&◌, ◌||◌, List, inl,
  inr, ltb, leb, if◌then◌else◌, Bool-cases, length, marked, marked_in_run, run_length-le-length,
  ltb→lt, ltb_false→le, bit, arith,
}
use favonius.Proto.Data.{AckBitmap}
use favonius.Daemon.Streams.{StreamRecvState, highest_contiguous}
use favonius.Daemon.Streams.Marks.{IsValid}
use favonius.Daemon.Streams.Acks.{build_stream_ack_bitmap_lem}
use favonius.Cli.Streams.{StreamState, bitmap_packets, wrapping_add}
use favonius.Cli.Streams.Packets.{named}
use favonius.Cli.Streams.Bitmap.{named-bitmap_packets}
use favonius.Cli.Streams.Process.{in_prefix, in_bitmap, applied_after}

-- Every packet number of the stream, and every number that a bitmap can name, fits in 64 bits.
abbrev pub InRange : ℕ → ℕ → Type 0
InRange base count = base + count + 8192 < 2 ^ 64

-- The acknowledgement that is sent of a stream, with the bitmap that was built.
unfoldable pub stream_ack : ℕ → StreamRecvState → List ℕ → AckBitmap
stream_ack stream_id s bitmap = record {
  stream_id = stream_id;
  base_packet_number = s.chunk_base;
  highest_contiguous = highest_contiguous s;
  ack_delay_micros = 0;
  bitmap = bitmap;
}

-- The packet number for a prefix of `p` chunks.
abbrev pub prefix_end : ℕ → ℕ → ℕ
prefix_end base p = if ltb 0 p then base + p - 1 else (base + 2 ^ 64 - 1) % 2 ^ 64

-- The acknowledgement reports a prefix of `prefix` chunks, and of the others no more than `has`.
pub record Reports (base count : ℕ) (has : ℕ → Bool) (ack : AckBitmap) : Type 0 where
  pub prefix : ℕ
  pub short : prefix ≤ count
  pub starts : ack.base_packet_number ≡ base
  pub ends : ack.highest_contiguous ≡ prefix_end base prefix
  pub small : length ack.bitmap ≤ 1024
  pub front : (j : ℕ) → j < prefix → has j ≡ true
  pub behind : (j : ℕ) → bit ack.bitmap j ≡ true → has (prefix + j) ≡ true

prefix_end-lt : (base p count : ℕ) → InRange base count → p ≤ count → prefix_end base p < 2 ^ 64
prefix_end-lt base p count h k = ground arith

next_packet :
    (base p count : ℕ)
    → InRange base count
    → p ≤ count
    → wrapping_add 64 (prefix_end base p) 1 ≡ base + p
next_packet base p count h k = elim (Bool-cases (ltb 0 p)) [
  | inl some_chunk ↦ rw some_chunk (ground arith)
  | inr no_chunk ↦ rw no_chunk (ground arith)
]

module _ {base count : ℕ} {has : ℕ → Bool} {ack : AckBitmap} (r : Reports base count has ack)
    (range : InRange base count) where
  pub highest-lt : ack.highest_contiguous < 2 ^ 64
  highest-lt = rw r.ends (prefix_end-lt base r.prefix count range r.short)

  -- The prefix that the sender reads is the one that was reported.
  pub in_prefix_iff :
      (s : StreamState) (j : ℕ)
      → s.chunk_base ≡ base
      → s.chunk_count ≡ count
      → in_prefix ack s j ≡ (leb s.hc_applied j && ltb j r.prefix)
  in_prefix_iff s j e f =
      rw (r.starts, r.ends, e, f)
        (elim (Bool-cases (ltb 0 r.prefix)) [
          | inl some_chunk ↦ rw some_chunk (ground (arith, r.short))
          | inr no_chunk ↦ rw no_chunk (ground (arith, r.short))
        ])

  pub in_bitmap_iff :
      (s : StreamState) (j : ℕ)
      → s.chunk_base ≡ base
      → in_bitmap ack s j ≡ (leb r.prefix j && bit ack.bitmap (j - r.prefix))
  in_bitmap_iff s j e =
      ap₂ (λ (b first : ℕ). named b (bitmap_packets ack.bitmap 0 first) j) e
        (ap (λ (n : ℕ). wrapping_add 64 n 1) r.ends ∙ next_packet base r.prefix count range r.short)
      ∙ named-bitmap_packets base r.prefix ack.bitmap j (omega (arith, r.small, r.short))

  -- What the sender reads is so.
  pub named_has :
      (s : StreamState) (j : ℕ)
      → s.chunk_base ≡ base
      → s.chunk_count ≡ count
      → (in_prefix ack s j || in_bitmap ack s j) ≡ true
      → has j ≡ true
  named_has s j e f q = elim (Bool-cases (ltb j r.prefix)) [
    | inl before ↦ r.front j (ltb→lt j r.prefix before)
    | inr after ↦
        let from = ltb_false→le j r.prefix after in
        ap has (back from)
        ∙ r.behind (j - r.prefix) (ground (arith, in_prefix_iff s j e f, in_bitmap_iff s j e))
  ]
    where
      back : r.prefix ≤ j → j ≡ r.prefix + (j - r.prefix)
      back h = omega arith

  -- The prefix that counts as applied afterwards.
  pub applied_after_lem :
      (s : StreamState)
      → s.chunk_base ≡ base
      → s.chunk_count ≡ count
      → applied_after ack s ≡ max s.hc_applied r.prefix
  applied_after_lem s e f =
      rw (r.starts, r.ends, e, f)
        (elim (Bool-cases (ltb 0 r.prefix)) [
          | inl some_chunk ↦ rw some_chunk (ground (arith, r.short))
          | inr no_chunk ↦ rw no_chunk (ground (arith, r.short))
        ])

-- An acknowledgement stays true when the stream has more.
pub Reports-mono :
    {base count : ℕ} {has more : ℕ → Bool} {ack : AckBitmap}
    → Reports base count has ack
    → ((j : ℕ) → has j ≡ true → more j ≡ true)
    → Reports base count more ack
Reports-mono r h = record {
  prefix = r.prefix;
  short = r.short;
  starts = r.starts;
  ends = r.ends;
  small = r.small;
  front = λ j p. h j (r.front j p);
  behind = λ j p. h (r.prefix + j) (r.behind j p);
}

-- The acknowledgement that is built reports what the stream has: its prefix is the stream's.
pub stream_ack-Reports :
    (stream_id : ℕ) (s : StreamRecvState)
    → IsValid s
    → (r : Reports s.chunk_base s.chunk_count
        (marked s.received)
        (stream_ack stream_id s (build_stream_ack_bitmap_lem s).bitmap))
      × (r.prefix ≡ s.contig_prefix)
unfolding stream_ack
stream_ack-Reports stream_id s v =
    let a = build_stream_ack_bitmap_lem s in
    (
      record {
        prefix = s.contig_prefix;
        short = omega (arith, v.frontier, v.size, run_length-le-length s.received);
        starts = refl;
        ends = refl;
        small = a.size;
        front = λ j h. marked_in_run s.received j (omega (arith, v.frontier));
        behind = λ j h. ground (arith, a.bits j);
      },
      refl,
    )
