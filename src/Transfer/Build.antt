-- ===== src/Transfer/Build.antt =====
-- Both sides build their streams alike: `build_streams` and `build_recv_streams`.
use native.Mathlib.Nat.{div-add-mod'}
use favonius.Base.{
  ℕ, zero, suc, ◌+◌, ◌*◌, ◌/◌, ◌%◌, ◌^◌, ◌≤◌, ◌<◌, max, ◌≡◌, refl, List, [], ◌∷◌, some, ltb,
  if◌then◌else◌, nonzero, marked-replicate, arith,
}
use favonius.Streams.Split.{split_from, holders, holders-split}
use favonius.Daemon.Streams as DaemonStreams
use favonius.Daemon.Streams.{StreamRecvState, build_recv_streams}
use favonius.Daemon.Streams.Marks
use favonius.Cli.Streams as CliStreams
use favonius.Cli.Streams.{StreamState, build_streams}
use favonius.Cli.Streams.Acks
use favonius.Transfer.Link.{Starts}

-- Stream by stream, both sides can start.
abbrev pub AllStart : List StreamState → List StreamRecvState → Type 0
AllStart [] [] = Unit {0}
AllStart [] (r ∷ rs) = ⊥
AllStart (s ∷ ss) [] = ⊥
AllStart (s ∷ ss) (r ∷ rs) = Starts s r × AllStart ss rs

new-Starts :
    (i base count : ℕ)
    → base + count + 8192 < 2 ^ 64
    → Starts (CliStreams.new i base count) (DaemonStreams.new base count)
new-Starts i base count h = record {
  sender_valid = Acks.new-IsValid i base count;
  receiver_valid = Marks.new-IsValid base count;
  same_base = refl;
  same_count = refl;
  none_applied = refl;
  range = h;
  skipped = λ j e. absurd (cc (e, marked-replicate count j));
}

split-AllStart :
    (per_stream remainder rounds i base : ℕ)
    → base + rounds * (per_stream + 1) + 8192 < 2 ^ 64
    → AllStart
        (split_from CliStreams.new per_stream remainder rounds i base)
        (split_from (λ i. DaemonStreams.new) per_stream remainder rounds i base)
unfolding split_from
split-AllStart p r zero i base h = tt
split-AllStart p r (suc rounds) i base h =
    let count = p + (if ltb i r then 1 else 0) in
    let small : count ≤ p + 1 = ground arith in
    (
      new-Starts i base count (grind arith),
      split-AllStart p r rounds (i + 1) (base + count) (grind arith),
    )

-- The streams that the daemon builds, and what holds of them beside the sender's.
pub record BuiltAlike (total_chunks num_streams : ℕ) : Type 0 where
  pub receivers : List StreamRecvState
  pub built : build_recv_streams total_chunks num_streams ≡ some receivers
  pub start : AllStart (build_streams total_chunks num_streams) receivers
  pub sent_once :
      (g : ℕ)
      → holders (λ s. s.chunk_base) (λ s. s.chunk_count) (build_streams total_chunks num_streams) g
        ≡ (if ltb g total_chunks then 1 else 0)
  pub received_once :
      (g : ℕ)
      → holders (λ r. r.chunk_base) (λ r. r.chunk_count) receivers g
        ≡ (if ltb g total_chunks then 1 else 0)

-- For one stream or more, and numbers that fit, both sides build as many streams, pair by pair of the
-- same chunks and with none received or acknowledged; every chunk of the file is in exactly one
-- stream, and no other number is in any.
pub build_streams-build_recv_streams :
    (total_chunks num_streams : ℕ)
    → 0 < num_streams
    → total_chunks + num_streams + 8192 < 2 ^ 64
    → BuiltAlike total_chunks num_streams
unfolding build_streams build_recv_streams
build_streams-build_recv_streams total n h k = record {
  receivers = split_from (λ i. DaemonStreams.new) (total / n) (total % n) n 0 0;
  built = rw (nonzero n h) refl;
  start =
      rw same_count
        (split-AllStart (total / n) (total % n) n 0 0 (grind (arith, div-add-mod' total n)));
  sent_once = λ g. rw same_count (
      holders-split CliStreams.new (λ s. s.chunk_base) (λ s. s.chunk_count) (λ i b c. refl)
        (λ i b c. refl) total n g h);
  received_once = λ g.
      holders-split (λ i. DaemonStreams.new) (λ r. r.chunk_base) (λ r. r.chunk_count)
        (λ i b c. refl) (λ i b c. refl) total n g h;
}
  where
    same_count : max n 1 ≡ n
    same_count = omega arith
