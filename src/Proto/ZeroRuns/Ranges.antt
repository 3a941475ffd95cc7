-- ===== src/Proto/ZeroRuns/Ranges.antt =====
-- Which bytes `byte_ranges` gives.
use native.Mathlib.Nat.{le-div_iff_mul-le, div-lt_iff_lt-mul, div-le_self}
use favonius.Base.{
  ℕ, ◌+◌, ◌-◌, ◌*◌, ◌/◌, ◌<◌, ◌≤◌, ◌≡◌, ◌↔◌, inl, inr, min, List, [], ◌∷◌, ltb, ◌∙◌, ap, leb,
  leb→le, leb_false→lt, ltb_false→le, Bool-cases, arith,
}
use favonius.Proto.ZeroRuns.{ZeroRun, u64_max, saturating_add, saturating_mul, byte_ranges}
use favonius.Proto.ZeroRuns.Arith.{mul-le_iff}
use favonius.Proto.ZeroRuns.Chunks.{Covers, IsIn}

module _ (file_size payload_size : ℕ) (small : file_size ≤ u64_max)
    (some_bytes : 0 < payload_size) where
  abbrev range_start : ℕ → ℕ
  range_start first = min (saturating_mul first payload_size) file_size

  abbrev range_end : ℕ → ℕ → ℕ
  range_end first count = min (saturating_mul (saturating_add first count) payload_size) file_size

  range_end_lem :
      (first count b : ℕ)
      → (b < range_end first count) ↔ ((b < file_size) × (b / payload_size < first + count))
  range_end_lem first count b = elim (Bool-cases (leb (first + count) u64_max)) [
    | inl exact ↦
        let e : saturating_add first count ≡ first + count =
          omega (arith, leb→le (first + count) u64_max exact) in
        let below =
          div-lt_iff_lt-mul {k = payload_size} {x = b} {y = saturating_add first count}
            some_bytes in
        (
          λ p. (omega arith, omega (arith, e, below.1 (omega arith))),
          λ p. omega (arith, below.0 (omega (arith, e, p.1))),
        )
    | inr capped ↦
        let over = leb_false→lt (first + count) u64_max capped in
        let grows = (mul-le_iff 1 payload_size u64_max (omega arith)).0 some_bytes in
        let e : saturating_add first count * payload_size ≡ payload_size * u64_max =
          let capped_at : saturating_add first count ≡ u64_max = omega (arith, over) in
          ap (λ (s : ℕ). s * payload_size) capped_at ∙ omega arith in
        (
          λ p. (omega arith, omega (arith, over, div-le_self b payload_size)),
          λ p. omega (arith, e, grows),
        )
  ]

  one_range :
      (first count b : ℕ)
      → IsIn b (range_start first, range_end first count - range_start first)
        ↔ ((b < file_size) × IsIn (b / payload_size) (first, count))
  one_range first count b =
      let above = le-div_iff_mul-le {k = payload_size} {x = first} {y = b} some_bytes in
      let end = range_end_lem first count b in
      (
        λ p. (omega arith, (above.1 (omega arith), (end.0 (omega arith)).1)),
        λ p. (omega (arith, above.0 p.1.0), omega (arith, end.1 (p.0, p.1.1))),
      )

  -- For chunks of at least one byte, a byte is in one of the ranges exactly when the file has it and
  -- its chunk is in one of the runs.
  pub byte_ranges_iff :
      (runs : List ZeroRun) (b : ℕ)
      → Covers (byte_ranges runs file_size payload_size) b
        ↔ ((b < file_size) × Covers runs (b / payload_size))
  unfolding byte_ranges
  byte_ranges_iff [] b = ground arith
  byte_ranges_iff ((first, count) ∷ rs) b =
      let ih = byte_ranges_iff rs b in
      let one = one_range first count b in
      elim (Bool-cases (ltb 0 (range_end first count - range_start first))) [
        | inl some ↦ rw some (ground (arith, ih, one))
        | inr none ↦
            let z = ltb_false→le 0 (range_end first count - range_start first) none in
            rw none (ground (arith, ih, one, z))
      ]
