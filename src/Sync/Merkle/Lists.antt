-- ===== src/Sync/Merkle/Lists.antt =====
-- Pairs of a list, and lists made even by repeating the last element.
use favonius.Base.{
  ℕ, zero, suc, ◌+◌, ◌/◌, ◌%◌, ◌<◌, ◌≡◌, refl, List, [], ◌∷◌, ◌++◌, some, ◌==◌, ==_iff, ==_false→ne,
  Bool-cases, inl, inr, length, get_elem?, length-append, arith,
}
use favonius.Sync.Merkle.{Blake3, last, padded, hash_pair, hash_pairs}

-- The first index of the pair that `j` is in.
abbrev pub double : ℕ → ℕ
double zero = zero
double (suc j) = suc (suc (double j))

pub double_lem : (j : ℕ) → double j ≡ j + j
double_lem zero = omega arith
double_lem (suc j) = omega (arith, double_lem j)

pub get_elem?-lt {ℓ} :
    {A : Type ℓ} (xs : List A) (i : ℕ) (x : A) → get_elem? xs i ≡ some x → i < length xs
get_elem?-lt [] i x e = cc
get_elem?-lt (y ∷ ys) zero x e = omega arith
get_elem?-lt (y ∷ ys) (suc i) x e = omega (arith, get_elem?-lt ys i x e)

pub get_elem?-some {ℓ} :
    {A : Type ℓ} (xs : List A) (i : ℕ) → i < length xs → (x : A) × (get_elem? xs i ≡ some x)
get_elem?-some [] i h = absurd (omega arith)
get_elem?-some (y ∷ ys) zero h = (y, refl)
get_elem?-some (y ∷ ys) (suc i) h = get_elem?-some ys i (omega arith)

pub get_elem?-append {ℓ} :
    {A : Type ℓ} (xs ys : List A) (i : ℕ) (x : A)
    → get_elem? xs i ≡ some x
    → get_elem? (xs ++ ys) i ≡ some x
get_elem?-append [] ys i x e = cc
get_elem?-append (z ∷ zs) ys zero x e = e
get_elem?-append (z ∷ zs) ys (suc i) x e = get_elem?-append zs ys i x e

pub last-some {ℓ} : {A : Type ℓ} (xs : List A) → 0 < length xs → (x : A) × (last xs ≡ some x)
last-some [] h = absurd (omega arith)
last-some (x ∷ []) h = (x, refl)
last-some (x ∷ y ∷ xs) h = last-some (y ∷ xs) (omega arith)

module _ {ℓ} {A : Type ℓ} where
  pub padded-get :
      (xs : List A) (i : ℕ) (x : A) → get_elem? xs i ≡ some x → get_elem? (padded xs) i ≡ some x
  unfolding padded
  padded-get xs i x e = elim (Bool-cases (length xs % 2 == 0)) [
    | inl even ↦ rw even e
    | inr odd ↦
        let (y, q) = last-some xs (omega (arith, get_elem?-lt xs i x e)) in
        rw (odd, q) (get_elem?-append xs (y ∷ []) i x e)
  ]

  -- Half of the length, rounded up, twice.
  pub length-padded : (xs : List A) → length (padded xs) ≡ (length xs + 1) / 2 + (length xs + 1) / 2
  unfolding padded
  length-padded xs = elim (Bool-cases (length xs % 2 == 0)) [
    | inl even ↦ rw even (omega (arith, (==_iff (length xs % 2) 0).0 even))
    | inr odd ↦
        let n = ==_false→ne (length xs % 2) 0 odd in
        let (y, q) = last-some xs (omega (arith, n)) in
        rw (odd, q) (omega (arith, n, length-append xs (y ∷ [])))
  ]

module _ ⦃blake3 : Blake3⦄ where
  pub hash_pairs-get :
      (ys : List (List ℕ)) (j : ℕ) (a b : List ℕ)
      → get_elem? ys (double j) ≡ some a
      → get_elem? ys (suc (double j)) ≡ some b
      → get_elem? (hash_pairs ys) j ≡ some (hash_pair a b)
  hash_pairs-get [] j a b p q = cc
  hash_pairs-get (x ∷ []) zero a b p q = cc
  hash_pairs-get (x ∷ []) (suc j) a b p q = cc
  hash_pairs-get (x ∷ y ∷ ys) zero a b p q = cc
  hash_pairs-get (x ∷ y ∷ ys) (suc j) a b p q = hash_pairs-get ys j a b p q

  pub length-hash_pairs :
      (ys : List (List ℕ)) (k : ℕ) → length ys ≡ k + k → length (hash_pairs ys) ≡ k
  length-hash_pairs [] k e = omega arith
  length-hash_pairs (x ∷ []) k e = absurd (omega arith)
  length-hash_pairs (x ∷ y ∷ ys) zero e = absurd (omega arith)
  length-hash_pairs (x ∷ y ∷ ys) (suc k) e = omega (arith, length-hash_pairs ys k (omega arith))
