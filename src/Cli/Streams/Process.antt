-- ===== src/Cli/Streams/Process.antt =====
-- What an acknowledgement changes of the stream that it is for.
use mathlib.Core.Option
use favonius.Base.{
  ℕ, ◌+◌, ◌-◌, ◌*◌, ◌^◌, ◌<◌, max, ◌≡◌, refl, ap, ◌∙◌, Bool, false, ◌&&◌, ◌||◌, Option, some, inl,
  inr, ltb, leb, if◌then◌else◌, Bool-cases, length, marked, leb→le, arith,
}
use favonius.Proto.Data.{AckBitmap}
use favonius.Cli.Streams.{
  StreamState, Progress, ack_packets, set_hc_applied, wrapping_add, bind, range_from,
  bitmap_packets, apply_prefix, process_stream,
}
use favonius.Cli.Streams.Acks.{IsValid, Goes}
use favonius.Cli.Streams.Packets.{named, ack_packets_lem, named-range_from}

-- `n` chunks are newly acknowledged: those of `names` that were not. As many are reported, and the
-- window is released by as many packets.
pub record Processed (wire_size : ℕ) (names : ℕ → Bool) (hc : ℕ) (p p' : Progress) (n : ℕ)
    : Type 0 where
  pub valid : IsValid p'.stream
  pub same_base : p'.stream.chunk_base ≡ p.stream.chunk_base
  pub same_count : p'.stream.chunk_count ≡ p.stream.chunk_count
  pub applied : p'.stream.hc_applied ≡ hc
  pub counted : p'.stream.n_acked ≡ p.stream.n_acked + n
  pub reported : length p'.newly_acked ≡ length p.newly_acked + n
  pub released : p'.in_flight ≡ p.in_flight - wire_size * n
  pub marks :
      (j : ℕ)
      → marked p'.stream.acked j
        ≡ marked p.stream.acked j || (names j && ltb j p.stream.chunk_count)

abbrev pub Processes : ℕ → (ℕ → Bool) → ℕ → Progress → Option Progress → Type 0
Processes wire_size names applied p result =
    (p' : Progress) × (n : ℕ) × (result ≡ some p') × Processed wire_size names applied p p' n

-- The first packet number of the prefix that is not applied yet.
abbrev pub prefix_start : AckBitmap → StreamState → ℕ
prefix_start ack s = max (max ack.base_packet_number s.chunk_base) (s.chunk_base + s.hc_applied)

-- The prefix of the acknowledgement ends in the stream, at or behind its start.
abbrev pub has_prefix : AckBitmap → StreamState → Bool
has_prefix ack s =
    (leb ack.base_packet_number ack.highest_contiguous
      && ltb ack.highest_contiguous (s.chunk_base + s.chunk_count))
    && leb (prefix_start ack s) ack.highest_contiguous

abbrev pub in_prefix : AckBitmap → StreamState → ℕ → Bool
in_prefix ack s j =
    has_prefix ack s
    && (leb (prefix_start ack s) (s.chunk_base + j)
        && leb (s.chunk_base + j) ack.highest_contiguous)

abbrev pub applied_after : AckBitmap → StreamState → ℕ
applied_after ack s =
    if has_prefix ack s then ack.highest_contiguous - s.chunk_base + 1 else s.hc_applied

with_applied :
    (wire_size : ℕ) (names more : ℕ → Bool) (hc : ℕ) (p : Progress) (result : Option Progress)
    → Goes wire_size names p result
    → ((j : ℕ) → j < p.stream.chunk_count → more j ≡ names j)
    → Processes wire_size more
        (hc - p.stream.chunk_base + 1)
        p
        (Option.map (set_hc_applied hc) result)
with_applied wire_size names more hc p result (q, n, done, a) e = (
  set_hc_applied hc q,
  n,
  ap (Option.map (set_hc_applied hc)) done,
  record {
    valid = record {
      size = a.valid.size;
      sent_size = a.valid.sent_size;
      flags_size = a.valid.flags_size;
      counted = a.valid.counted;
      cursor = a.valid.cursor;
    };
    same_base = a.same_base;
    same_count = a.same_count;
    applied = ap (λ (b : ℕ). hc - b + 1) a.same_base;
    counted = a.counted;
    reported = a.reported;
    released = a.released;
    marks = λ j. ground (arith, a.marks j, e j);
  },
)

untouched :
    (wire_size : ℕ) (names : ℕ → Bool) (p : Progress)
    → IsValid p.stream
    → ((j : ℕ) → names j ≡ false)
    → Processes wire_size names p.stream.hc_applied p (some p)
untouched wire_size names p v e = (
  p,
  0,
  refl,
  record {
    valid = v;
    same_base = refl;
    same_count = refl;
    applied = refl;
    counted = omega arith;
    reported = omega arith;
    released = omega arith;
    marks = λ j. ground (arith, e j);
  },
)

apply_prefix_lem :
    (ack : AckBitmap) (now_us wire_size : ℕ) (p : Progress)
    → IsValid p.stream
    → ack.highest_contiguous < 2 ^ 64
    → Processes wire_size
        (in_prefix ack p.stream)
        (applied_after ack p.stream)
        p
        (apply_prefix ack now_us wire_size p)
unfolding apply_prefix
apply_prefix_lem ack now_us wire_size p v h =
    let s = p.stream in
    let hc = ack.highest_contiguous in
    let lo = prefix_start ack s in
    elim (Bool-cases (leb ack.base_packet_number hc && ltb hc (s.chunk_base + s.chunk_count))) [
      | inr outside ↦ rw outside (untouched wire_size (in_prefix ack s) p v (λ j. rw outside refl))
      | inl inside ↦ elim (Bool-cases (leb lo hc)) [
        | inr past ↦
            rw (inside, past)
              (untouched wire_size (in_prefix ack s) p v (λ j. rw (inside, past) refl))
        | inl from ↦
            rw (inside, from)
              (with_applied wire_size (named s.chunk_base (range_from lo (hc + 1 - lo)))
                (in_prefix ack s) hc p
                (ack_packets now_us wire_size (range_from lo (hc + 1 - lo)) p)
                (ack_packets_lem now_us wire_size (range_from lo (hc + 1 - lo)) p v)
                (λ j below.
                  rw (inside, from)
                    (ground (
                      arith,
                      leb→le lo hc from,
                      named-range_from s.chunk_base lo (hc + 1 - lo) j (omega arith)
                          (omega (arith, leb→le lo hc from)),
                    ))))
      ]
    ]

-- The chunks whose packets the loop over the bitmap finds.
abbrev pub in_bitmap : AckBitmap → StreamState → ℕ → Bool
in_bitmap ack s j =
    named s.chunk_base (bitmap_packets ack.bitmap 0 (wrapping_add 64 ack.highest_contiguous 1)) j

-- Whatever an acknowledgement says, applying it to a valid stream does not panic and leaves a valid
-- stream of the same chunks. A chunk is acknowledged afterwards exactly when it was, or it lies in the
-- new part of the prefix, or the loop over the bitmap finds its packet. As many chunks are reported as
-- are newly acknowledged, and the window is released by as many packets.
pub process_stream-Processes :
    (ack : AckBitmap) (now_us wire_size : ℕ) (p : Progress)
    → IsValid p.stream
    → ack.highest_contiguous < 2 ^ 64
    → Processes wire_size
        (λ j. in_prefix ack p.stream j || in_bitmap ack p.stream j)
        (applied_after ack p.stream)
        p
        (process_stream ack now_us wire_size p)
unfolding process_stream
process_stream-Processes ack now_us wire_size p v h =
    let pns = bitmap_packets ack.bitmap 0 (wrapping_add 64 ack.highest_contiguous 1) in
    let (q, n, done, a) = apply_prefix_lem ack now_us wire_size p v h in
    let (r, m, done', b) = ack_packets_lem now_us wire_size pns q a.valid in
    (
      r,
      n + m,
      ap (λ (o : Option Progress). bind o (ack_packets now_us wire_size pns)) done ∙ done',
      record {
        valid = b.valid;
        same_base = b.same_base ∙ a.same_base;
        same_count = b.same_count ∙ a.same_count;
        applied = b.same_applied ∙ a.applied;
        counted = omega (arith, a.counted, b.counted);
        reported = omega (arith, a.reported, b.reported);
        released = grind (arith, a.released, b.released);
        marks = λ j. ground (
          arith,
          a.marks j,
          b.marks j,
          a.same_count,
          ap (λ (base : ℕ). named base pns j) a.same_base,
        );
      },
    )
