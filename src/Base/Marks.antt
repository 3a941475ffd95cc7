-- ===== src/Base/Marks.antt =====
-- Lists of marks, one for each chunk: `Vec<bool>` with its stores, counts and runs from the front.
use Prim.Native.Nat.{ℕ, zero, suc, ◌+◌, ◌≤◌, ◌<◌}
use mathlib.Core.Path.{◌≡◌, refl, ap}
use mathlib.Core.Bool.{Bool, true, false, ◌||◌}
use mathlib.Core.List.{List, [], ◌∷◌}
use native.Mathlib.Omega.{arith}
use favonius.Base.Tests.{◌==◌}
use favonius.Base.Lists.{length, drop, replicate}

abbrev pub set {ℓ} : {A : Type ℓ} → List A → ℕ → A → List A
set [] i v = []
set (x ∷ xs) zero v = v ∷ xs
set (x ∷ xs) (suc i) v = x ∷ set xs i v

-- A mark that is not there is not set.
abbrev pub marked : List Bool → ℕ → Bool
marked [] i = false
marked (x ∷ xs) zero = x
marked (x ∷ xs) (suc i) = marked xs i

abbrev pub count_marked : List Bool → ℕ
count_marked [] = 0
count_marked (true ∷ xs) = suc (count_marked xs)
count_marked (false ∷ xs) = count_marked xs

-- `while p < xs.len() && xs[p] { p += 1 }`, over what the list has from `p` on.
abbrev pub advance : List Bool → ℕ → ℕ
advance [] p = p
advance (true ∷ xs) p = advance xs (p + 1)
advance (false ∷ xs) p = p

-- How many marks are set before the first that is not.
abbrev pub run_length : List Bool → ℕ
run_length [] = 0
run_length (true ∷ xs) = suc (run_length xs)
run_length (false ∷ xs) = 0

pub length-set {ℓ} : {A : Type ℓ} (xs : List A) (i : ℕ) (v : A) → length (set xs i v) ≡ length xs
length-set [] i v = refl
length-set (x ∷ xs) zero v = refl
length-set (x ∷ xs) (suc i) v = ap suc (length-set xs i v)

pub marked-set :
    (xs : List Bool) (i j : ℕ) → i < length xs → marked (set xs i true) j ≡ marked xs j || (j == i)
marked-set [] i j h = elim h [ ]
marked-set (true ∷ xs) zero zero h = refl
marked-set (false ∷ xs) zero zero h = refl
marked-set (x ∷ xs) zero (suc j) h = ground arith
marked-set (x ∷ xs) (suc i) zero h = ground arith
marked-set (x ∷ xs) (suc i) (suc j) h = ground (arith, marked-set xs i j)

pub marked-lt-length : (xs : List Bool) (i : ℕ) → marked xs i ≡ true → i < length xs
marked-lt-length [] i e = cc
marked-lt-length (x ∷ xs) zero e = omega arith
marked-lt-length (x ∷ xs) (suc i) e = omega (arith, marked-lt-length xs i e)

pub marked-replicate : (n i : ℕ) → marked (replicate n false) i ≡ false
marked-replicate zero i = refl
marked-replicate (suc n) zero = refl
marked-replicate (suc n) (suc i) = marked-replicate n i

pub marked-drop : (xs : List Bool) (n i : ℕ) → marked (drop n xs) i ≡ marked xs (n + i)
marked-drop xs zero i = ap (marked xs) (omega arith)
marked-drop [] (suc n) i = refl
marked-drop (x ∷ xs) (suc n) i = ground (arith, marked-drop xs n i)

pub count_marked-set :
    (xs : List Bool) (i : ℕ)
    → i < length xs
    → marked xs i ≡ false
    → count_marked (set xs i true) ≡ count_marked xs + 1
count_marked-set [] i h e = elim h [ ]
count_marked-set (true ∷ xs) zero h e = absurd (cc)
count_marked-set (false ∷ xs) zero h e = omega arith
count_marked-set (true ∷ xs) (suc i) h e = omega (arith, count_marked-set xs i (omega arith) e)
count_marked-set (false ∷ xs) (suc i) h e = count_marked-set xs i (omega arith) e

pub count_marked-le-length : (xs : List Bool) → count_marked xs ≤ length xs
count_marked-le-length [] = omega arith
count_marked-le-length (true ∷ xs) = omega (arith, count_marked-le-length xs)
count_marked-le-length (false ∷ xs) = omega (arith, count_marked-le-length xs)

pub count_marked-replicate : (n : ℕ) → count_marked (replicate n false) ≡ 0
count_marked-replicate zero = refl
count_marked-replicate (suc n) = count_marked-replicate n

-- All are set when as many are set as there are.
pub count_marked-full :
    (xs : List Bool) → length xs ≤ count_marked xs → (i : ℕ) → i < length xs → marked xs i ≡ true
count_marked-full [] h i p = elim p [ ]
count_marked-full (true ∷ xs) h zero p = refl
count_marked-full (true ∷ xs) h (suc i) p = count_marked-full xs (omega arith) i (omega arith)
count_marked-full (false ∷ xs) h i p = absurd (omega (arith, count_marked-le-length xs))

pub count_marked-all :
    (xs : List Bool) → ((i : ℕ) → i < length xs → marked xs i ≡ true) → count_marked xs ≡ length xs
count_marked-all [] h = refl
count_marked-all (true ∷ xs) h = ap suc (count_marked-all xs (λ i p. h (suc i) (omega arith)))
count_marked-all (false ∷ xs) h = absurd (cc (h zero (omega arith)))

pub run_length-le-length : (xs : List Bool) → run_length xs ≤ length xs
run_length-le-length [] = omega arith
run_length-le-length (true ∷ xs) = omega (arith, run_length-le-length xs)
run_length-le-length (false ∷ xs) = omega arith

pub run_length-replicate : (n : ℕ) → run_length (replicate n false) ≡ 0
run_length-replicate zero = refl
run_length-replicate (suc n) = refl

pub marked_in_run : (xs : List Bool) (i : ℕ) → i < run_length xs → marked xs i ≡ true
marked_in_run [] i h = elim h [ ]
marked_in_run (true ∷ xs) zero h = refl
marked_in_run (true ∷ xs) (suc i) h = marked_in_run xs i (omega arith)
marked_in_run (false ∷ xs) i h = elim h [ ]

pub run_length_of_all :
    (xs : List Bool) → ((i : ℕ) → i < length xs → marked xs i ≡ true) → run_length xs ≡ length xs
run_length_of_all [] h = refl
run_length_of_all (true ∷ xs) h = ap suc (run_length_of_all xs (λ i p. h (suc i) (omega arith)))
run_length_of_all (false ∷ xs) h = absurd (cc (h zero (omega arith)))

advance-add : (xs : List Bool) (p : ℕ) → advance xs p ≡ p + run_length xs
advance-add [] p = omega arith
advance-add (true ∷ xs) p = omega (arith, advance-add xs (p + 1))
advance-add (false ∷ xs) p = omega arith

run_length-drop :
    (xs : List Bool) (p : ℕ) → p ≤ run_length xs → p + run_length (drop p xs) ≡ run_length xs
run_length-drop xs zero h = omega arith
run_length-drop [] (suc p) h = elim h [ ]
run_length-drop (true ∷ xs) (suc p) h = omega (arith, run_length-drop xs p (omega arith))
run_length-drop (false ∷ xs) (suc p) h = elim h [ ]

-- The loop goes on from any place in the run to its end.
pub advance_resumes :
    (xs : List Bool) (p : ℕ) → p ≤ run_length xs → advance (drop p xs) p ≡ run_length xs
advance_resumes xs p h = omega (arith, advance-add (drop p xs) p, run_length-drop xs p h)

pub run_length-set : (xs : List Bool) (i : ℕ) → run_length xs ≤ run_length (set xs i true)
run_length-set [] i = omega arith
run_length-set (true ∷ xs) zero = omega arith
run_length-set (true ∷ xs) (suc i) = omega (arith, run_length-set xs i)
run_length-set (false ∷ xs) zero = omega arith
run_length-set (false ∷ xs) (suc i) = omega arith
