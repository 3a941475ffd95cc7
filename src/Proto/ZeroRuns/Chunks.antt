-- ===== src/Proto/ZeroRuns/Chunks.antt =====
-- Which chunks `runs_in_holes` names.
use favonius.Base.{
  ℕ, ◌+◌, ◌-◌, ◌*◌, ◌/◌, ◌<◌, ◌≤◌, ◌↔◌, ◌⊎◌, inl, inr, min, List, [], ◌∷◌, ◌==◌, nonzero,
  if◌then◌else◌, ==_iff, ==_false→ne, ltb, leb, leb→le, ltb_false→le, Bool-cases, arith,
}
use favonius.Proto.ZeroRuns.{
  ZeroRun, u64_max, saturating_add, div_ceil, push_run, add_hole, add_holes, runs_in_holes,
}
use favonius.Proto.ZeroRuns.Arith.{div_ceil-le, lt-div, lt-div_ceil}

-- Chunk `c` is one of the run's.
abbrev pub IsIn : ℕ → ZeroRun → Type 0
IsIn c (first, count) = (first ≤ c) × (c < first + count)

abbrev pub Covers : List ZeroRun → ℕ → Type 0
Covers [] c = ⊥
Covers (r ∷ rs) c = IsIn c r ⊎ Covers rs c

-- Every byte of chunk `c` that the file has lies in the hole.
abbrev pub IsInHole : ℕ → ℕ → ℕ → ℕ × ℕ → Type 0
IsInHole file_size payload_size c (off, len) =
    (off ≤ c * payload_size) × (min (c * payload_size + payload_size) file_size ≤ off + len)

-- So for one of the holes, and the chunk is one of the file's.
abbrev pub IsInHoles : ℕ → ℕ → ℕ → List (ℕ × ℕ) → Type 0
IsInHoles file_size payload_size c [] = ⊥
IsInHoles file_size payload_size c (h ∷ hs) =
    ((c * payload_size < file_size) × IsInHole file_size payload_size c h)
    ⊎ IsInHoles file_size payload_size c hs

push_run-Covers :
    (rs : List ZeroRun) (first count c : ℕ)
    → Covers (push_run rs first count) c ↔ (Covers rs c ⊎ IsIn c (first, count))
unfolding push_run
push_run-Covers [] first count c = ground arith
push_run-Covers (r ∷ []) first count c = ground arith
push_run-Covers (r ∷ r' ∷ rs) first count c =
    let ih = push_run-Covers (r' ∷ rs) first count c in ground arith

module _ (file_size payload_size : ℕ) (small : file_size ≤ u64_max)
    (some_bytes : 0 < payload_size) where
  abbrev hole_end : ℕ → ℕ → ℕ
  hole_end off len = min (saturating_add off len) file_size

  abbrev hole_last : ℕ → ℕ
  hole_last end = if end == file_size then div_ceil file_size payload_size else end / payload_size

  no_chunk :
      (off len c : ℕ)
      → hole_end off len ≤ off
      → c * payload_size < file_size
      → IsInHole file_size payload_size c (off, len)
      → ⊥
  no_chunk off len c e p (q, r) = absurd (omega arith)

  chunks_of_hole :
      (off len c : ℕ)
      → (IsIn c
          (div_ceil off payload_size, hole_last (hole_end off len) - div_ceil off payload_size))
        ↔ ((c * payload_size < file_size) × IsInHole file_size payload_size c (off, len))
  chunks_of_hole off len c =
      let first = div_ceil-le off c payload_size some_bytes in
      let last = lt-div (hole_end off len) c payload_size some_bytes in
      let in_file = lt-div_ceil file_size c payload_size some_bytes in
      elim (Bool-cases (hole_end off len == file_size)) [
        | inl whole ↦ rw whole (
          λ p. omega (
            arith,
            (==_iff (hole_end off len) file_size).0 whole,
            first.0 p.0,
            in_file.0 (omega arith),
          ),
          λ p. omega (arith, first.1 p.1.0, in_file.1 p.0),
        )
        | inr part ↦ rw part (
          λ p. omega (arith, first.0 p.0, last.0 (omega arith)),
          λ p. omega (
            arith,
            first.1 p.1.0,
            last.1 (omega (arith, ==_false→ne (hole_end off len) file_size part)),
          ),
        )
      ]

  add_hole-Covers :
      (runs : List ZeroRun) (h : ℕ × ℕ) (c : ℕ)
      → Covers (add_hole file_size payload_size runs h) c
        ↔ (Covers runs c ⊎ ((c * payload_size < file_size) × IsInHole file_size payload_size c h))
  unfolding add_hole
  add_hole-Covers runs (off, len) c =
      let chunks = chunks_of_hole off len c in
      elim (Bool-cases (leb (hole_end off len) off)) [
        | inl empty ↦
            let none = no_chunk off len c (leb→le (hole_end off len) off empty) in
            rw empty (λ p. inl p, λ p. elim p [ inl q ↦ q | inr (q, r) ↦ absurd (none q r) ])
        | inr some ↦
            rw some
              (elim (Bool-cases (ltb (div_ceil off payload_size) (hole_last (hole_end off len)))) [
                | inl more ↦
                    let pushed =
                      push_run-Covers runs (div_ceil off payload_size)
                        (hole_last (hole_end off len) - div_ceil off payload_size) c in
                    rw more (ground (arith, chunks, pushed))
                | inr nothing ↦
                    let le =
                      ltb_false→le (div_ceil off payload_size) (hole_last (hole_end off len))
                        nothing in
                    rw nothing (
                      λ p. inl p,
                      λ p. elim p [ inl q ↦ q | inr q ↦ absurd (omega (arith, le, chunks.1 q)) ],
                    )
              ])
      ]

  add_holes-Covers :
      (holes : List (ℕ × ℕ)) (runs : List ZeroRun) (c : ℕ)
      → Covers (add_holes holes file_size payload_size runs) c
        ↔ (Covers runs c ⊎ IsInHoles file_size payload_size c holes)
  add_holes-Covers [] runs c = ground arith
  add_holes-Covers (h ∷ hs) runs c =
      let ih = add_holes-Covers hs (add_hole file_size payload_size runs h) c in
      let one = add_hole-Covers runs h c in ground arith

  -- For chunks of at least one byte, a chunk is named by a run of `runs_in_holes` exactly when it is
  -- one of the file's and all the bytes that the file has of it lie in one of the holes. The order of
  -- the holes does not matter, nor do overlaps.
  pub runs_in_holes_iff :
      (holes : List (ℕ × ℕ)) (c : ℕ)
      → Covers (runs_in_holes holes file_size payload_size) c
        ↔ IsInHoles file_size payload_size c holes
  unfolding runs_in_holes
  runs_in_holes_iff holes c =
      let r = add_holes-Covers holes [] c in rw (nonzero payload_size some_bytes) (ground arith)
