-- ===== src/Examples/Runs.antt =====
-- Zero runs, run.
use favonius.Base.{ℕ, ◌≡◌, ◌↔◌, refl, List, [], ◌∷◌, arith}
use favonius.Base.{ok, err}
use favonius.Proto.ZeroRuns.{
  ZeroRun, out_of_order, runs_in_holes, validate, validate_from, byte_ranges, add_hole, push_run,
  div_ceil,
}
use favonius.Proto.ZeroRuns.Chunks.{Covers, IsInHoles, runs_in_holes_iff}
use favonius.Proto.ZeroRuns.Valid.{validate_iff}

-- Ten chunks of 100 bytes, and a hole that ends with the file.
abbrev holes : List (ℕ × ℕ)
holes = (150, 300) ∷ (890, 60) ∷ []

holes_named : runs_in_holes holes 950 100 ≡ (2, 2) ∷ (9, 1) ∷ []
unfolding runs_in_holes add_hole push_run div_ceil
holes_named = refl

runs_in_holes_iff_example : Covers (runs_in_holes holes 950 100) 9 ↔ IsInHoles 950 100 9 holes
runs_in_holes_iff_example = runs_in_holes_iff 950 100 (omega arith) (omega arith) holes 9

abbrev runs : List ZeroRun
runs = (2, 2) ∷ (9, 1) ∷ []

runs_accepted : validate runs 10 ≡ ok 3
runs_accepted = (validate_iff 10 (omega arith) runs 3).1 (omega arith, omega arith, refl)

runs_refused : validate ((9, 1) ∷ (2, 2) ∷ []) 10 ≡ err (out_of_order 2)
unfolding validate validate_from
runs_refused = refl

ranges_of_runs : byte_ranges runs 950 100 ≡ (200, 200) ∷ (900, 50) ∷ []
unfolding byte_ranges
ranges_of_runs = refl
