-- ===== src/Daemon/Streams.antt =====
-- crates/ahp-daemon/src/net_receiver.rs: which chunks of each stream are in, and the acknowledgement
-- of them. Where a function gives an `Option` that its source does not, `none` is a panic. An
-- `Instant` is a number, and the set `nacked_ranges` a list.
pub mod Marks
pub mod Runs
pub mod Acks
use mathlib.Core.Option
use favonius.Base.{
  ℕ, zero, suc, ◌+◌, ◌-◌, ◌*◌, ◌/◌, ◌%◌, ◌^◌, min, Bool, true, false, List, [], ◌∷◌, Option, none,
  some, ltb, leb, ◌==◌, if◌then◌else◌, length, drop, get_elem?, replicate, set, marked, advance,
  bit, store_bit, Outcome, ok, err, ◌>>=◌, ◌>>◌, fail_if,
}
use favonius.Streams.Split.{split_from, holds}
use favonius.Proto.ZeroRuns.{ZeroRun, div_ceil, validate, RunError, u64_max}

pub record StreamRecvState : Type 0 where
  pub chunk_base : ℕ
  pub chunk_count : ℕ
  pub received : List Bool
  pub n_received : ℕ
  pub contig_prefix : ℕ
  pub since_ack : ℕ
  pub expected_next_local : ℕ
  pub gap_counter : ℕ
  pub gap_start_local : Option ℕ
  pub gap_first_seen : Option ℕ
  pub nacked_ranges : List ℕ

abbrev pub new : ℕ → ℕ → StreamRecvState
new chunk_base chunk_count = record {
  chunk_base = chunk_base;
  chunk_count = chunk_count;
  received = replicate chunk_count false;
  n_received = 0;
  contig_prefix = 0;
  since_ack = 0;
  expected_next_local = 0;
  gap_counter = 0;
  gap_start_local = none;
  gap_first_seen = none;
  nacked_ranges = [];
}

unfoldable pub mark_received : StreamRecvState → ℕ → Option StreamRecvState
mark_received s local_ci =
    if ltb local_ci (length s.received)
    then some (record s {
      received = set s.received local_ci true;
      n_received = s.n_received + 1;
      contig_prefix = advance (drop s.contig_prefix (set s.received local_ci true)) s.contig_prefix;
    })
    else none

-- Without a stream the division panics.
unfoldable pub build_recv_streams : ℕ → ℕ → Option (List StreamRecvState)
build_recv_streams total_chunks num_streams =
    if num_streams == 0
    then none
    else some (
        split_from (λ i. new) (total_chunks / num_streams) (total_chunks % num_streams) num_streams
          0 0)

-- The loop over one stream's chunks, from the chunk `global_ci` on: the marks, and how many chunks the
-- bitmap names.
unfoldable pub mark_bits : List Bool → ℕ → List ℕ → List Bool × ℕ
mark_bits [] global_ci bitmap = ([], 0)
mark_bits (r ∷ rs) global_ci bitmap =
    let (rest, n) = mark_bits rs (global_ci + 1) bitmap in
    if bit bitmap global_ci then (true ∷ rest, n + 1) else (r ∷ rest, n)

unfoldable pub resume_stream : StreamRecvState → List ℕ → StreamRecvState × ℕ
resume_stream s bitmap =
    let (received, n) = mark_bits s.received s.chunk_base bitmap in
    (
      record s {
        received = received;
        n_received = s.n_received + n;
        contig_prefix = advance (drop s.contig_prefix received) s.contig_prefix;
      },
      n,
    )

unfoldable pub apply_resume_bitmap : List StreamRecvState → List ℕ → List StreamRecvState × ℕ
apply_resume_bitmap [] bitmap = ([], 0)
apply_resume_bitmap (s ∷ streams) bitmap =
    let (s', n) = resume_stream s bitmap in
    let (rest, total) = apply_resume_bitmap streams bitmap in (s' ∷ rest, n + total)

-- `if !stream.received[local]`, with what the index gives.
unfoldable pub mark_unless : Option Bool → StreamRecvState → ℕ → Option (StreamRecvState × ℕ)
mark_unless none s local = none
mark_unless (some true) s local = some (s, 0)
mark_unless (some false) s local = Option.map (λ s'. (s', 1)) (mark_received s local)

-- The body of the inner loop of `apply_zero_runs` for the stream that is found: the stream, and how
-- many chunks it newly has.
unfoldable pub mark_once : StreamRecvState → ℕ → Option (StreamRecvState × ℕ)
unfolding mark_unless
mark_once s local = mark_unless (get_elem? s.received local) s local

-- `streams.iter_mut().find(..)`, and what is done with the stream that is found, if one is.
unfoldable pub mark_global : List StreamRecvState → ℕ → Option (List StreamRecvState × ℕ)
mark_global [] global = some ([], 0)
mark_global (s ∷ streams) global =
    let rest = Option.map (λ r. (s ∷ r.0, r.1)) (mark_global streams global) in
    if holds s.chunk_base s.chunk_count global
    then Option.map (λ r. (r.0 ∷ streams, r.1)) (mark_once s (global - s.chunk_base))
    else rest

-- One step and then the others; the newly marked chunks of both are counted.
abbrev pub and_then :
    Option (List StreamRecvState × ℕ)
    → (List StreamRecvState → Option (List StreamRecvState × ℕ))
    → Option (List StreamRecvState × ℕ)
and_then none rest = none
and_then (some (streams, n)) rest = Option.map (λ r. (r.0, n + r.1)) (rest streams)

-- `for global in first..first + count`, by the count of its rounds.
unfoldable pub mark_from : List StreamRecvState → ℕ → ℕ → Option (List StreamRecvState × ℕ)
mark_from streams first zero = some (streams, 0)
mark_from streams first (suc rounds) =
    and_then (mark_global streams first) (λ streams'. mark_from streams' (first + 1) rounds)

-- The end of the range is a sum of two `u64`: it wraps around, as in a release build.
unfoldable pub mark_run : List StreamRecvState → ℕ → ℕ → Option (List StreamRecvState × ℕ)
mark_run streams first count = mark_from streams first ((first + count) % 2 ^ 64 - first)

unfoldable pub apply_zero_runs :
    List StreamRecvState → List ZeroRun → Option (List StreamRecvState × ℕ)
apply_zero_runs streams [] = some (streams, 0)
apply_zero_runs streams ((first, count) ∷ runs) =
    and_then (mark_run streams first count) (λ streams'. apply_zero_runs streams' runs)

unfoldable pub local_chunk_index : StreamRecvState → ℕ → Option ℕ
local_chunk_index s ci =
    if leb s.chunk_base ci
    then if ltb (ci - s.chunk_base) s.chunk_count then some (ci - s.chunk_base) else none
    else none

abbrev pub max_ack_bitmap_bytes : ℕ
max_ack_bitmap_bytes = 1024

abbrev pub bind {ℓ κ} : {A : Type ℓ} {B : Type κ} → Option A → (A → Option B) → Option B
bind none k = none
bind (some a) k = k a

-- The loop over `remaining`, with the index `i` of its first element.
unfoldable pub fill_bitmap : List Bool → ℕ → List ℕ → Option (List ℕ)
fill_bitmap [] i bitmap = some bitmap
fill_bitmap (r ∷ remaining) i bitmap =
    let unmarked = fill_bitmap remaining (i + 1) bitmap in
    let marked = bind (store_bit bitmap i) (fill_bitmap remaining (i + 1)) in
    if leb (max_ack_bitmap_bytes * 8) i then some bitmap else if r then marked else unmarked

-- The highest chunk of the contiguous prefix, where one before the first chunk stands for none.
abbrev pub highest_contiguous : StreamRecvState → ℕ
highest_contiguous s =
    if ltb 0 s.contig_prefix
    then s.chunk_base + s.contig_prefix - 1
    else (s.chunk_base + 2 ^ 64 - 1) % 2 ^ 64

unfoldable pub build_stream_ack_bitmap : StreamRecvState → Option (ℕ × List ℕ)
build_stream_ack_bitmap s =
    let remaining = drop s.contig_prefix s.received in
    let bitmap_len = min (div_ceil (length remaining) 8) max_ack_bitmap_bytes in
    Option.map (λ bitmap. (highest_contiguous s, bitmap))
      (fill_bitmap remaining 0 (replicate bitmap_len 0))
