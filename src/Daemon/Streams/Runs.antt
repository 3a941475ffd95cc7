-- ===== src/Daemon/Streams/Runs.antt =====
-- What all streams have, by the numbers of the chunks in the file: resumed chunks and zero runs.
use mathlib.Core.Option
use favonius.Base.{
  ℕ, zero, suc, ◌+◌, ◌-◌, ◌%◌, ◌^◌, ◌≤◌, ◌<◌, ◌≡◌, refl, ap, ◌∙◌, Bool, true, false, ◌&&◌, ◌||◌,
  List, [], ◌∷◌, Option, some, inl, inr, ok, ltb, leb, ◌==◌, All, Bool-cases, marked, bit, arith,
}
use favonius.Streams.Split.{holds}
use favonius.Proto.ZeroRuns.{ZeroRun, u64_max, validate}
use favonius.Proto.ZeroRuns.Valid.{InOrder, validate_iff}
use favonius.Daemon.Streams.{
  StreamRecvState, mark_global, mark_from, mark_run, apply_zero_runs, and_then, apply_resume_bitmap,
}
use favonius.Daemon.Streams.Marks.{
  IsValid, Follows, mark_once-marked, mark_once-unmarked, resume_stream_lem, none_marked,
}

-- Some stream holds the chunk.
abbrev pub held : List StreamRecvState → ℕ → Bool
held [] g = false
held (s ∷ ss) g = holds s.chunk_base s.chunk_count g || held ss g

-- Some stream holds the chunk and has it.
abbrev pub has : List StreamRecvState → ℕ → Bool
has [] g = false
has (s ∷ ss) g =
    (holds s.chunk_base s.chunk_count g && marked s.received (g - s.chunk_base)) || has ss g

abbrev pub total_received : List StreamRecvState → ℕ
total_received [] = 0
total_received (s ∷ ss) = s.n_received + total_received ss

-- The same streams with `n` more chunks: those of `names` that a stream holds.
pub record Grown (streams : List StreamRecvState) (names : ℕ → Bool) (after : List StreamRecvState)
    (n : ℕ) : Type 0 where
  pub valid : All IsValid after
  pub same : (g : ℕ) → held after g ≡ held streams g
  pub grown : total_received after ≡ total_received streams + n
  pub marks : (g : ℕ) → has after g ≡ has streams g || (names g && held streams g)

abbrev pub Marks : List StreamRecvState → (ℕ → Bool) → Option (List StreamRecvState × ℕ) → Type 0
Marks streams names result =
    (after : List StreamRecvState) × (n : ℕ) × (result ≡ some (after, n))
    × Grown streams names after n

one_stream :
    (s s' : StreamRecvState) (ss : List StreamRecvState) (g0 n : ℕ)
    → All IsValid ss
    → holds s.chunk_base s.chunk_count g0 ≡ true
    → Follows s s' n
    → ((j : ℕ) → marked s'.received j ≡ marked s.received j || (j == g0 - s.chunk_base))
    → Grown (s ∷ ss) (λ g. g == g0) (s' ∷ ss) n
one_stream s s' ss g0 n vs h f marks = record {
  valid = (f.valid, vs);
  same = λ g. rw (f.same_base, f.same_count) refl;
  grown = omega (arith, f.grown);
  marks = λ g. rw (f.same_base, f.same_count, marks (g - s.chunk_base)) (ground arith);
}

another_stream :
    (s : StreamRecvState) (ss : List StreamRecvState) (g0 : ℕ)
    → IsValid s
    → holds s.chunk_base s.chunk_count g0 ≡ false
    → (result : Option (List StreamRecvState × ℕ)) → Marks ss (λ g. g == g0) result
    → Marks (s ∷ ss) (λ g. g == g0) (Option.map (λ r. (s ∷ r.0, r.1)) result)
another_stream s ss g0 v h result (after, n, done, grown) = (
  s ∷ after,
  n,
  ap (Option.map (λ (r : List StreamRecvState × ℕ). (s ∷ r.0, r.1))) done,
  record {
    valid = (v, grown.valid);
    same = λ g. ap (λ (b : Bool). holds s.chunk_base s.chunk_count g || b) (grown.same g);
    grown = omega (arith, grown.grown);
    marks = λ g. ground (arith, grown.marks g);
  },
)

mark_global_lem :
    (streams : List StreamRecvState) (g : ℕ)
    → All IsValid streams
    → Marks streams (λ k. k == g) (mark_global streams g)
unfolding mark_global
mark_global_lem [] g v =
    ([], 0, refl, record { valid = tt; same = λ k. refl; grown = refl; marks = λ k. ground arith })
mark_global_lem (s ∷ ss) g v = elim (Bool-cases (holds s.chunk_base s.chunk_count g)) [
  | inl here ↦ rw here (elim (Bool-cases (marked s.received (g - s.chunk_base))) [
    | inl old ↦
        let m = mark_once-marked s (g - s.chunk_base) v.0 (ground arith) old in
        (
          m.after ∷ ss,
          0,
          ap (Option.map (λ (r : StreamRecvState × ℕ). (r.0 ∷ ss, r.1))) m.done,
          one_stream s m.after ss g 0 v.1 here m.follows m.marks,
        )
    | inr fresh ↦
        let m = mark_once-unmarked s (g - s.chunk_base) v.0 (ground arith) fresh in
        (
          m.after ∷ ss,
          1,
          ap (Option.map (λ (r : StreamRecvState × ℕ). (r.0 ∷ ss, r.1))) m.done,
          one_stream s m.after ss g 1 v.1 here m.follows m.marks,
        )
  ])
  | inr elsewhere ↦
      rw elsewhere
        (another_stream s ss g v.0 elsewhere (mark_global ss g) (mark_global_lem ss g v.1))
]

-- Two rounds of marks are one of what both name.
both :
    (streams : List StreamRecvState) (p q r : ℕ → Bool) (first : Option (List StreamRecvState × ℕ))
    (rest : List StreamRecvState → Option (List StreamRecvState × ℕ))
    → Marks streams p first
    → ((after : List StreamRecvState) → All IsValid after → Marks after q (rest after))
    → ((g : ℕ) → r g ≡ p g || q g)
    → Marks streams r (and_then first rest)
both streams p q r first rest (mid, n, done, a) more e =
    let (after, m, done', b) = more mid a.valid in
    (
      after,
      n + m,
      ap (λ (o : Option (List StreamRecvState × ℕ)). and_then o rest) done
          ∙ ap (Option.map (λ (t : List StreamRecvState × ℕ). (t.0, n + t.1))) done',
      record {
        valid = b.valid;
        same = λ g. b.same g ∙ a.same g;
        grown = omega (arith, a.grown, b.grown);
        marks = λ g. ground (arith, a.marks g, b.marks g, a.same g, e g);
      },
    )

nothing :
    (streams : List StreamRecvState) (p : ℕ → Bool)
    → All IsValid streams
    → ((g : ℕ) → p g ≡ false)
    → Marks streams p (some (streams, 0))
nothing streams p v e = (
  streams,
  0,
  refl,
  record { valid = v; same = λ g. refl; grown = omega arith; marks = λ g. ground (arith, e g) },
)

abbrev pub in_run : ℕ → ℕ → ℕ → Bool
in_run first count g = leb first g && ltb g (first + count)

mark_from_lem :
    (streams : List StreamRecvState) (first count : ℕ)
    → All IsValid streams
    → Marks streams (in_run first count) (mark_from streams first count)
unfolding mark_from
mark_from_lem streams first zero v = nothing streams (in_run first 0) v (λ g. ground arith)
mark_from_lem streams first (suc count) v =
    both streams (λ g. g == first) (in_run (first + 1) count) (in_run first (suc count))
      (mark_global streams first) (λ s. mark_from s (first + 1) count)
      (mark_global_lem streams first v) (λ after w. mark_from_lem after (first + 1) count w)
      (λ g. ground arith)

-- A run whose end is a `u64` takes as many rounds as it has chunks.
mark_run_lem :
    (streams : List StreamRecvState) (first count : ℕ)
    → All IsValid streams
    → first + count < 2 ^ 64
    → Marks streams (in_run first count) (mark_run streams first count)
unfolding mark_run
mark_run_lem streams first count v h =
    let rounds : (first + count) % 2 ^ 64 - first ≡ count = omega arith in
    rw rounds (mark_from_lem streams first count v)

abbrev pub in_runs : List ZeroRun → ℕ → Bool
in_runs [] g = false
in_runs ((first, count) ∷ runs) g = in_run first count g || in_runs runs g

in_order_lem :
    (streams : List StreamRecvState) (runs : List ZeroRun) (from total : ℕ)
    → All IsValid streams
    → total ≤ u64_max
    → InOrder from total runs
    → Marks streams (in_runs runs) (apply_zero_runs streams runs)
unfolding apply_zero_runs
in_order_lem streams [] from total v small h = nothing streams (in_runs []) v (λ g. refl)
in_order_lem streams ((first, count) ∷ runs) from total v small (some_chunks, later, within, h) =
    both streams (in_run first count) (in_runs runs) (in_runs ((first, count) ∷ runs))
      (mark_run streams first count) (λ s. apply_zero_runs s runs)
      (mark_run_lem streams first count v (omega arith))
      (λ after w. in_order_lem after runs (first + count) total w small h) (λ g. refl)

-- Marking runs that `validate` accepts for a file of `total` chunks, a `u64`, does not panic; a chunk is
-- in afterwards exactly when it was or a run names it and a stream holds it; the streams stay valid,
-- and the number returned is that of the chunks that were not in before.
pub apply_zero_runs_lem :
    (streams : List StreamRecvState) (runs : List ZeroRun) (total n : ℕ)
    → All IsValid streams
    → total ≤ u64_max
    → validate runs total ≡ ok n
    → Marks streams (in_runs runs) (apply_zero_runs streams runs)
apply_zero_runs_lem streams runs total n v small accepted =
    in_order_lem streams runs 0 total v small ((validate_iff total small runs n).0 accepted).1

-- Over streams that have nothing yet, a resumed transfer has the chunks that the bitmap names and a
-- stream holds, the streams stay valid, and the number returned is that of these chunks.
pub apply_resume_bitmap_lem :
    (streams : List StreamRecvState) (bitmap : List ℕ)
    → All IsValid streams
    → total_received streams ≡ 0
    → Grown streams
        (bit bitmap)
        (apply_resume_bitmap streams bitmap).0
        (apply_resume_bitmap streams bitmap).1
unfolding apply_resume_bitmap
apply_resume_bitmap_lem [] bitmap v e = record {
  valid = tt;
  same = λ g. refl;
  grown = refl;
  marks = λ g. ground arith;
}
apply_resume_bitmap_lem (s ∷ ss) bitmap v e =
    let r = resume_stream_lem s bitmap v.0 (omega arith) in
    let rest = apply_resume_bitmap_lem ss bitmap v.1 (omega arith) in
    record {
      valid = (r.follows.valid, rest.valid);
      same = λ g.
          rw (r.follows.same_base, r.follows.same_count)
            (ap (λ (b : Bool). holds s.chunk_base s.chunk_count g || b) (rest.same g));
      grown = omega (arith, r.follows.grown, rest.grown);
      marks = λ g.
          rw (r.follows.same_base, r.follows.same_count, r.marks (g - s.chunk_base))
            (joined s ss bitmap g (bit bitmap (s.chunk_base + (g - s.chunk_base))) (e_of s bitmap g)
              (none_marked s.received (omega (arith, v.0.counted)) (g - s.chunk_base))
              (has (apply_resume_bitmap ss bitmap).0 g) (rest.marks g));
    }
  where
    e_of :
        (s : StreamRecvState) (bitmap : List ℕ) (g : ℕ)
        → s.chunk_base ≤ g
        → bit bitmap (s.chunk_base + (g - s.chunk_base)) ≡ bit bitmap g
    e_of s bitmap g h = ap (bit bitmap) (omega arith)

    joined :
        (s : StreamRecvState) (ss : List StreamRecvState) (bitmap : List ℕ) (g : ℕ) (b : Bool)
        → (s.chunk_base ≤ g → b ≡ bit bitmap g)
        → marked s.received (g - s.chunk_base) ≡ false
        → (rest : Bool) → rest ≡ has ss g || (bit bitmap g && held ss g)
        → (holds s.chunk_base s.chunk_count g && (b && ltb (g - s.chunk_base) s.chunk_count))
            || rest
          ≡ has (s ∷ ss) g || (bit bitmap g && held (s ∷ ss) g)
    joined s ss bitmap g b same fresh rest q = ground arith
