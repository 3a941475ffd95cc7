-- ===== src/Base/Results.antt =====
-- What a Rust call gives: a value, an error value, or a panic (an index, a slice or a read past
-- the end of a buffer). Slices and indices of the standard library, with their panics.
use Prim.Native.Nat.{ℕ, zero, suc, ◌+◌, ◌-◌, ◌≤◌, ◌<◌}
use mathlib.Core.Path.{◌≡◌, refl, sym, ap, ◌∙◌}
use mathlib.Core.Logic.{◌≢◌, ◌⊎◌, inl, inr}
use mathlib.Core.Bool.{Bool, true, false, ◌&&◌}
use mathlib.Core.List.{List, [], ◌∷◌, ◌++◌, append_assoc}
use mathlib.Core.Option.{Option, none, some}
use native.Mathlib.Omega.{arith}
use favonius.Base.Tests.{◌==◌, ==_refl, leb, le→leb, if◌then◌else◌}
use favonius.Base.Lists.{
  length, take, drop, get_elem?, length-append, length-drop, take-append, take-all, drop-append,
}

pub data Outcome {ℓ κ} (E : Type κ) (A : Type ℓ) : Type (ℓ ⊔ κ) where
  ok : A → Outcome E A
  err : E → Outcome E A
  panic : Outcome E A

-- The `?` operator, on errors and on panics.
infixl 5 ◌>>=◌ ◌>>◌
abbrev pub ◌>>=◌ {ℓ μ κ} :
    {E : Type κ} {A : Type ℓ} {B : Type μ} → Outcome E A → (A → Outcome E B) → Outcome E B
ok a >>= f = f a
err e >>= f = err e
panic >>= f = panic

abbrev pub ◌>>◌ {μ κ} : {E : Type κ} {B : Type μ} → Outcome E (Unit {0}) → Outcome E B → Outcome E B
m >> k = m >>= λ _. k

-- `if c { return Err(e) }`
abbrev pub fail_if {κ} : {E : Type κ} → Bool → E → Outcome E (Unit {0})
fail_if true e = err e
fail_if false e = ok tt

-- `o?` in a function that returns a result, the error given.
abbrev pub or_panic {ℓ κ} : {E : Type κ} {A : Type ℓ} → Option A → Outcome E A
or_panic none = panic
or_panic (some a) = ok a

-- `&s[lo..hi]`
unfoldable pub slice {ℓ κ} : {E : Type κ} {A : Type ℓ} → List A → ℕ → ℕ → Outcome E (List A)
slice s lo hi = if leb lo hi && leb hi (length s) then ok (take (hi - lo) (drop lo s)) else panic

-- `s.get(lo..hi)`
unfoldable pub get_range? {ℓ} : {A : Type ℓ} → List A → ℕ → ℕ → Option (List A)
get_range? s lo hi =
    if leb lo hi && leb hi (length s) then some (take (hi - lo) (drop lo s)) else none

-- `a == b` on byte slices
abbrev pub same_bytes : List ℕ → List ℕ → Bool
same_bytes [] [] = true
same_bytes [] (b ∷ bs) = false
same_bytes (a ∷ xs) [] = false
same_bytes (a ∷ xs) (b ∷ bs) = let rest = same_bytes xs bs in if a == b then rest else false

-- `s[i]`
abbrev pub index {ℓ κ} : {E : Type κ} {A : Type ℓ} → List A → ℕ → Outcome E A
index s i = or_panic (get_elem? s i)

-- `dst[at..at + src.len()].copy_from_slice(src)`
unfoldable pub copy_at {ℓ κ} : {E : Type κ} {A : Type ℓ} → List A → ℕ → List A → Outcome E (List A)
copy_at dst at src =
    if leb (at + length src) (length dst)
    then ok (take at dst ++ (src ++ drop (at + length src) dst))
    else panic

pub drop-drop {ℓ} :
    {A : Type ℓ} (m n k : ℕ) (xs : List A) → m + n ≡ k → drop n (drop m xs) ≡ drop k xs
drop-drop zero n k xs e = ap (λ (i : ℕ). drop i xs) (omega arith)
drop-drop (suc m) zero zero [] e = refl
drop-drop (suc m) zero (suc k) [] e = refl
drop-drop (suc m) (suc n) zero [] e = refl
drop-drop (suc m) (suc n) (suc k) [] e = refl
drop-drop (suc m) n zero (x ∷ xs) e = absurd (omega arith)
drop-drop (suc m) n (suc k) (x ∷ xs) e = drop-drop m n k xs (omega arith)

drop_past {ℓ} :
    {A : Type ℓ} (pre dst : List A) (at n to : ℕ)
    → length pre ≡ at
    → at + n ≡ to
    → drop to (pre ++ drop at dst) ≡ drop to dst
drop_past pre dst at n to p q =
    sym (drop-drop at n to (pre ++ drop at dst) q)
    ∙ ap (drop n) (drop-append pre (drop at dst) at p)
    ∙ drop-drop at n to dst q

module _ {ℓ κ} {E : Type κ} {A : Type ℓ} where
  pub slice-ok :
      (s : List A) (lo hi : ℕ)
      → lo ≤ hi
      → hi ≤ length s
      → slice {E = E} s lo hi ≡ ok (take (hi - lo) (drop lo s))
  unfolding slice
  slice-ok s lo hi p q = rw (le→leb lo hi p, le→leb hi (length s) q)

  pub slice_front : (s : List A) (n : ℕ) → n ≤ length s → slice {E = E} s 0 n ≡ ok (take n s)
  slice_front s n h = slice-ok s 0 n (omega arith) h ∙ ap (λ (k : ℕ). ok (take k s)) (omega arith)

  pub slice_back :
      (xs ys : List A) (n : ℕ)
      → length xs ≡ n
      → slice {E = E} (xs ++ ys) n (length (xs ++ ys)) ≡ ok ys
  slice_back xs ys n e =
      slice-ok (xs ++ ys) n (length (xs ++ ys)) (omega (arith, length-append xs ys)) (omega arith)
      ∙ ap ok (
          ap (take (length (xs ++ ys) - n)) (drop-append xs ys n e)
          ∙ take-all ys (length (xs ++ ys) - n) (omega (arith, length-append xs ys)))

  pub slice_rest :
      (s : List A) (n : ℕ) → n ≤ length s → slice {E = E} s n (length s) ≡ ok (drop n s)
  slice_rest s n h =
      slice-ok s n (length s) h (omega arith)
      ∙ ap ok (take-all (drop n s) (length s - n) (omega (arith, length-drop n s)))

  -- The middle of three parts, wherever they meet.
  pub slice-middle :
      (xs ys zs : List A) (lo hi : ℕ)
      → length xs ≡ lo
      → lo + length ys ≡ hi
      → slice {E = E} (xs ++ (ys ++ zs)) lo hi ≡ ok ys
  slice-middle xs ys zs lo hi p q =
      slice-ok (xs ++ (ys ++ zs)) lo hi (omega arith)
        (omega (arith, length-append xs (ys ++ zs), length-append ys zs))
      ∙ ap ok (
          ap (take (hi - lo)) (drop-append xs (ys ++ zs) lo p)
          ∙ take-append ys zs (hi - lo) (omega arith))

  -- A block stored over bytes of its own length.
  pub copy_at-block :
      (xs old zs src : List A) (at : ℕ)
      → length xs ≡ at
      → length old ≡ length src
      → copy_at {E = E} (xs ++ (old ++ zs)) at src ≡ ok (xs ++ (src ++ zs))
  unfolding copy_at
  copy_at-block xs old zs src at p q = rw (
    le→leb (at + length src) (length (xs ++ (old ++ zs)))
        (omega (arith, length-append xs (old ++ zs), length-append old zs)),
    take-append xs (old ++ zs) at p,
    ← append_assoc xs old zs,
    drop-append (xs ++ old) zs (at + length src) (omega (arith, length-append xs old)),
  )

  -- A block stored behind what is written already, over the old bytes of the buffer.
  pub copy_at-next :
      (pre dst src : List A) (at to : ℕ)
      → length pre ≡ at
      → at + length src ≡ to
      → to ≤ length dst
      → copy_at {E = E} (pre ++ drop at dst) at src ≡ ok ((pre ++ src) ++ drop to dst)
  unfolding copy_at
  copy_at-next pre dst src at to p q h = rw (
    le→leb (at + length src) (length (pre ++ drop at dst))
        (omega (arith, length-append pre (drop at dst), length-drop at dst)),
    take-append pre (drop at dst) at p,
    q,
    append_assoc pre src (drop to dst),
    drop_past pre dst at (length src) to p q,
  )

module _ {A : Type 0} where
  pub get_range?-some :
      (s : List A) (lo hi : ℕ)
      → lo ≤ hi
      → hi ≤ length s
      → get_range? s lo hi ≡ some (take (hi - lo) (drop lo s))
  unfolding get_range?
  get_range?-some s lo hi p q = rw (le→leb lo hi p, le→leb hi (length s) q)

  pub get_range?-middle :
      (xs ys zs : List A) (lo hi : ℕ)
      → length xs ≡ lo
      → lo + length ys ≡ hi
      → get_range? (xs ++ (ys ++ zs)) lo hi ≡ some ys
  get_range?-middle xs ys zs lo hi p q =
      get_range?-some (xs ++ (ys ++ zs)) lo hi (omega arith)
        (omega (arith, length-append xs (ys ++ zs), length-append ys zs))
      ∙ ap some (
          ap (take (hi - lo)) (drop-append xs (ys ++ zs) lo p)
          ∙ take-append ys zs (hi - lo) (omega arith))

  pub get_range?-none : (s : List A) (lo hi : ℕ) → length s < hi → get_range? s lo hi ≡ none
  unfolding get_range?
  get_range?-none s lo hi p = ground arith

pub Outcome-cases {ℓ κ} :
    {E : Type κ} {A : Type ℓ} (m : Outcome E A)
    → ((a : A) × (m ≡ ok a)) ⊎ ((e : E) × (m ≡ err e)) ⊎ (m ≡ panic)
Outcome-cases (ok a) = inl (a, refl)
Outcome-cases (err e) = inr (inl (e, refl))
Outcome-cases panic = inr (inr refl)

pub same_bytes_refl : (xs : List ℕ) → same_bytes xs xs ≡ true
same_bytes_refl [] = refl
same_bytes_refl (x ∷ xs) = rw (same_bytes_refl xs, ==_refl x)

pub same_bytes_sound : (xs ys : List ℕ) → same_bytes xs ys ≡ true → xs ≡ ys
same_bytes_sound [] [] e = refl
same_bytes_sound [] (y ∷ ys) e = cc
same_bytes_sound (x ∷ xs) [] e = cc
same_bytes_sound (x ∷ xs) (y ∷ ys) e = ground (arith, same_bytes_sound xs ys)

pub same_bytes_different : (xs ys : List ℕ) → same_bytes xs ys ≡ false → xs ≢ ys
same_bytes_different xs ys e p = absurd (cc (e, p, same_bytes_refl xs))
