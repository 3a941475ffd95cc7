-- ===== src/Proto/ZeroRuns.antt =====
-- crates/ahp-proto/src/zero_runs.rs: runs of chunks that lie wholly inside the holes of a file.
-- `fit` is not modelled: it orders the runs by the standard library's sort and prices them by the
-- length of their decimal digits.
pub mod Arith
pub mod Chunks
pub mod Valid
pub mod Ranges
use favonius.Base.{
  ℕ, ◌+◌, ◌-◌, ◌*◌, ◌/◌, ◌%◌, ◌^◌, min, Bool, true, false, List, [], ◌∷◌, ltb, leb, ◌==◌,
  if◌then◌else◌, length, fail_if,
}
use favonius.Base.{Outcome, ok, err, ◌>>=◌, ◌>>◌}

-- `[first_chunk, chunk_count]`
abbrev pub ZeroRun : Type 0
ZeroRun = ℕ × ℕ

abbrev pub max_zero_runs : ℕ
max_zero_runs = 4096

-- The largest u64.
abbrev pub u64_max : ℕ
u64_max = 2 ^ 64 - 1

abbrev pub saturating_add : ℕ → ℕ → ℕ
saturating_add a b = min (a + b) u64_max

abbrev pub saturating_mul : ℕ → ℕ → ℕ
saturating_mul a b = min (a * b) u64_max

unfoldable pub div_ceil : ℕ → ℕ → ℕ
div_ceil n d = if n % d == 0 then n / d else n / d + 1

-- The body's `match runs.last_mut()`: chunks that follow the last run extend it.
unfoldable pub push_run : List ZeroRun → ℕ → ℕ → List ZeroRun
push_run [] first count = (first, count) ∷ []
push_run (r ∷ []) first count =
    if r.0 + r.1 == first then (r.0, r.1 + count) ∷ [] else r ∷ (first, count) ∷ []
push_run (r ∷ r' ∷ rs) first count = r ∷ push_run (r' ∷ rs) first count

-- One turn of the loop over the holes.
unfoldable pub add_hole : ℕ → ℕ → List ZeroRun → ℕ × ℕ → List ZeroRun
add_hole file_size payload_size runs (off, len) =
    let total = div_ceil file_size payload_size in
    let end = min (saturating_add off len) file_size in
    let first = div_ceil off payload_size in
    let last_exclusive = if end == file_size then total else end / payload_size in
    if leb end off
    then runs
    else if ltb first last_exclusive
    then push_run runs first (last_exclusive - first)
    else runs

abbrev pub add_holes : List (ℕ × ℕ) → ℕ → ℕ → List ZeroRun → List ZeroRun
add_holes [] file_size payload_size runs = runs
add_holes (h ∷ hs) file_size payload_size runs =
    add_holes hs file_size payload_size (add_hole file_size payload_size runs h)

unfoldable pub runs_in_holes : List (ℕ × ℕ) → ℕ → ℕ → List ZeroRun
runs_in_holes holes file_size payload_size =
    if payload_size == 0 then [] else add_holes holes file_size payload_size []

-- The message of an error is what it prints.
pub data RunError : Type 0 where
  too_many : ℕ → RunError
  overflows : RunError
  empty_run : ℕ → RunError
  out_of_order : ℕ → RunError
  past_end : ℕ → ℕ → ℕ → RunError

-- The loop of `validate`, with its two variables.
unfoldable pub validate_from : List ZeroRun → ℕ → ℕ → ℕ → Outcome RunError ℕ
validate_from [] total next_free covered = ok covered
validate_from ((first, count) ∷ rs) total next_free covered =
    let rest = validate_from rs total (first + count) (covered + count) in
    do
      fail_if (ltb u64_max (first + count)) overflows
      fail_if (count == 0) (empty_run first)
      fail_if (ltb first next_free) (out_of_order first)
      fail_if (ltb total (first + count)) (past_end first count total)
      rest

unfoldable pub validate : List ZeroRun → ℕ → Outcome RunError ℕ
validate runs total =
    if ltb max_zero_runs (length runs)
    then err (too_many (length runs))
    else validate_from runs total 0 0

-- `filter(|&(_, len)| len > 0)`
unfoldable pub byte_ranges : List ZeroRun → ℕ → ℕ → List (ℕ × ℕ)
byte_ranges [] file_size payload_size = []
byte_ranges ((first, count) ∷ rs) file_size payload_size =
    let start = min (saturating_mul first payload_size) file_size in
    let end = min (saturating_mul (saturating_add first count) payload_size) file_size in
    let rest = byte_ranges rs file_size payload_size in
    if ltb 0 (end - start) then (start, end - start) ∷ rest else rest
