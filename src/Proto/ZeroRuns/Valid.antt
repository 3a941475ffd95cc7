-- ===== src/Proto/ZeroRuns/Valid.antt =====
-- What `validate` accepts.
use favonius.Base.{
  nonzero, ℕ, ◌+◌, ◌<◌, ◌≤◌, ◌≡◌, ◌↔◌, ap, ◌∙◌, inl, inr, List, [], ◌∷◌, ltb, le→ltb_false, ltb→lt,
  ltb_false→le, Bool-cases, length, arith,
}
use favonius.Base.{ok}
use favonius.Proto.ZeroRuns.{ZeroRun, max_zero_runs, u64_max, validate_from, validate}

-- Nonempty runs, one after the other from chunk `from` on, that end by chunk `total`.
abbrev pub InOrder : ℕ → ℕ → List ZeroRun → Type 0
InOrder from total [] = Unit {0}
InOrder from total ((first, count) ∷ rs) =
    (0 < count) × (from ≤ first) × (first + count ≤ total) × InOrder (first + count) total rs

abbrev pub chunk_count : List ZeroRun → ℕ
chunk_count [] = 0
chunk_count ((first, count) ∷ rs) = count + chunk_count rs

pub chunk_count-le :
    (runs : List ZeroRun) (from total : ℕ)
    → from ≤ total
    → InOrder from total runs
    → from + chunk_count runs ≤ total
chunk_count-le [] from total p h = omega arith
chunk_count-le ((first, count) ∷ rs) from total p (h1, h2, h3, hs) =
    omega (arith, chunk_count-le rs (first + count) total h3 hs)

module _ (total : ℕ) (small : total ≤ u64_max) where
  validate_from_ok :
      (runs : List ZeroRun) (from covered : ℕ)
      → InOrder from total runs
      → validate_from runs total from covered ≡ ok (covered + chunk_count runs)
  unfolding validate_from
  validate_from_ok [] from covered h = ap ok (omega arith)
  validate_from_ok ((first, count) ∷ rs) from covered (h1, h2, h3, hs) =
      rw
        (
          le→ltb_false u64_max (first + count) (omega arith),
          nonzero count h1,
          le→ltb_false first from h2,
          le→ltb_false total (first + count) h3,
        )
        (validate_from_ok rs (first + count) (covered + count) hs ∙ ap ok (omega arith))

  in_order :
      (runs : List ZeroRun) (from covered n : ℕ)
      → validate_from runs total from covered ≡ ok n
      → InOrder from total runs
  unfolding validate_from
  in_order [] from covered n e = tt
  in_order ((first, count) ∷ rs) from covered n e =
      ground (arith, in_order rs (first + count) (covered + count) n)

  -- `validate` accepts a list of runs, with the count `n`, exactly when it has at most 4096 of them,
  -- each is nonempty, starts where the one before it ends or later and ends within the file, and `n`
  -- is the number of chunks in them.
  pub validate_iff :
      (runs : List ZeroRun) (n : ℕ)
      → (validate runs total ≡ ok n)
        ↔ ((length runs ≤ max_zero_runs) × InOrder 0 total runs × (n ≡ chunk_count runs))
  unfolding validate
  validate_iff runs n = elim (Bool-cases (ltb max_zero_runs (length runs))) [
    | inl long ↦
        rw long (λ p. cc, λ p. absurd (omega (arith, ltb→lt max_zero_runs (length runs) long)))
    | inr short ↦ rw short (
      λ p.
          let h = in_order runs 0 0 n p in
          (
            ltb_false→le max_zero_runs (length runs) short,
            h,
            let same : n ≡ 0 + chunk_count runs = cc (p, validate_from_ok runs 0 0 h) in
                omega (arith, same),
          ),
      λ p. validate_from_ok runs 0 0 p.1 ∙ ap ok (omega (arith, p.2)),
    )
  ]
