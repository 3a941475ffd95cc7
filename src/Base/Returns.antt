-- ===== src/Base/Returns.antt =====
-- What holds of a result when there is one, where a panic is excluded.
use Prim.Native.Nat.{ℕ, zero, suc, ◌+◌, ◌-◌, ◌≤◌, ◌<◌}
use mathlib.Core.Path.{◌≡◌, refl, sym, ap, ◌∙◌, subst}
use mathlib.Core.Logic.{◌≢◌}
use mathlib.Core.Bool.{Bool, true, false}
use mathlib.Core.List.{List, [], ◌∷◌, ◌++◌}
use native.Mathlib.Omega.{arith}
use favonius.Base.Lists.{
  length, take, drop, length-take, get_elem?, take-append, drop-append, length-append, length-drop,
  take-append-drop,
}
use favonius.Base.Results.{
  Outcome, ok, err, panic, ◌>>=◌, ◌>>◌, fail_if, slice, slice-ok, index, or_panic,
}
use mathlib.Core.Option.{Option, some}

pub data Checked {E A : Type 0} (Q : A → Type 0) : Outcome E A → Type 0 where
  good : {a : A} → Q a → Checked Q (ok a)
  bad : {e : E} → Checked Q (err e)

pub Checked-bind :
    {E A B : Type 0} {P : A → Type 0} (Q : B → Type 0) {m : Outcome E A} (k : A → Outcome E B)
    → Checked P m
    → ((a : A) → P a → Checked Q (k a))
    → Checked Q (m >>= k)
Checked-bind Q k (good {a} p) h = h a p
Checked-bind Q k bad h = bad

pub Checked-map :
    {E A : Type 0} {P Q : A → Type 0} {m : Outcome E A}
    → ((a : A) → P a → Q a)
    → Checked P m
    → Checked Q m
Checked-map f (good {a} p) = good (f a p)
Checked-map f bad = bad

pub Checked-guard :
    {E B : Type 0} (Q : B → Type 0) (b : Bool) (e : E) (k : Outcome E B)
    → (b ≡ false → Checked Q k)
    → Checked Q (fail_if b e >> k)
Checked-guard Q true e k h = bad
Checked-guard Q false e k h = h refl

pub Checked-ne-panic : {E A : Type 0} {Q : A → Type 0} {m : Outcome E A} → Checked Q m → m ≢ panic
Checked-ne-panic (good q) e = cc
Checked-ne-panic bad e = cc

ok_inj : {E A : Type 0} {a b : A} → ◌≡◌ {A = Outcome E A} (ok a) (ok b) → a ≡ b
ok_inj e = cc

-- What was checked of a result holds of the value that it is.
pub Checked-ok :
    {E A : Type 0} (Q : A → Type 0) {m : Outcome E A} {b : A} → Checked Q m → m ≡ ok b → Q b
Checked-ok Q (good q) e = subst Q (ok_inj e) q
Checked-ok Q bad e = absurd (cc)

drop-nil {ℓ} : {A : Type ℓ} (k : ℕ) → drop {A = A} k [] ≡ []
drop-nil zero = refl
drop-nil (suc k) = refl

drop-drop {ℓ} : {A : Type ℓ} (xs : List A) (m n : ℕ) → drop n (drop m xs) ≡ drop (m + n) xs
drop-drop xs zero n = ap (λ (k : ℕ). drop k xs) (omega arith)
drop-drop [] (suc m) n = drop-nil n ∙ sym (drop-nil (suc m + n))
drop-drop (x ∷ xs) (suc m) n =
    drop-drop xs m n ∙ ap (λ (k : ℕ). drop k (x ∷ xs)) {x = suc (m + n)} (omega arith)

pub drop-slice {ℓ} :
    {A : Type ℓ} (xs : List A) (lo n : ℕ) → drop lo xs ≡ take n (drop lo xs) ++ drop (lo + n) xs
drop-slice xs zero n =
    sym (take-append-drop n xs) ∙ ap (λ (k : ℕ). take n xs ++ drop k xs) (omega arith)
drop-slice [] (suc lo) zero = sym (drop-nil (suc lo + 0))
drop-slice [] (suc lo) (suc n) = sym (drop-nil (suc lo + suc n))
drop-slice (x ∷ xs) (suc lo) n =
    drop-slice xs lo n
    ∙ ap (λ (k : ℕ). take n (drop lo xs) ++ drop k (x ∷ xs)) {x = suc (lo + n)} (omega arith)

-- What a slice or an index gives, and how the rest follows on it.
pub record Cut {A : Type 0} (s : List A) (lo hi : ℕ) (part : List A) : Type 0 where
  pub follows : drop lo s ≡ part ++ drop hi s
  pub size : lo + length part ≡ hi
  pub in_range : hi ≤ length s

pub slice-Checked :
    {E A : Type 0} (s : List A) (lo hi : ℕ)
    → lo ≤ hi
    → hi ≤ length s
    → Checked {E = E} (Cut s lo hi) (slice s lo hi)
slice-Checked {E} s lo hi e h = subst (Checked (Cut s lo hi)) (sym (slice-ok s lo hi e h)) (
    good (record {
      follows =
          drop-slice s lo (hi - lo)
          ∙ ap (λ (k : ℕ). take (hi - lo) (drop lo s) ++ drop k s) (omega arith);
      size = omega (arith, length-take (hi - lo) (drop lo s), length-drop lo s);
      in_range = h;
    }))

element_at {ℓ} :
    {A : Type ℓ} (s : List A) (i : ℕ)
    → i < length s
    → (a : A) × (get_elem? s i ≡ some a) × (drop i s ≡ a ∷ drop (suc i) s)
element_at [] i h = absurd (omega arith)
element_at (x ∷ xs) zero h = (x, refl, refl)
element_at (x ∷ xs) (suc i) h = element_at xs i (omega arith)

pub index-Checked :
    {E A : Type 0} (s : List A) (i : ℕ)
    → i < length s
    → Checked {E = E} (λ a. Cut s i (i + 1) (a ∷ [])) (index s i)
index-Checked {E} {A} s i h =
    subst (λ (o : Option A). Checked {E = E} (λ a. Cut s i (i + 1) (a ∷ [])) (or_panic o))
      (sym found)
      (good (record {
        follows = here ∙ ap (λ (k : ℕ). a ∷ drop k s) {x = suc i} (omega arith);
        size = refl;
        in_range = omega arith;
      }))
  where
    a : A
    a = (element_at s i h).0

    found : get_elem? s i ≡ some a
    found = (element_at s i h).1

    here : drop i s ≡ a ∷ drop (suc i) s
    here = (element_at s i h).2

-- The parts of a sequence that is known from an index on.
pub record From {A : Type 0} (s : List A) (lo : ℕ) (rest : List A) : Type 0 where
  pub rests : drop lo s ≡ rest
  pub ends : lo + length rest ≡ length s

pub From-slice :
    {E A : Type 0} {s : List A} {lo : ℕ} (part rest : List A) (hi : ℕ)
    → lo + length part ≡ hi
    → From s lo (part ++ rest)
    → (slice {E = E} s lo hi ≡ ok part) × From s hi rest
From-slice {s = s} {lo} part rest hi e f = (
  slice-ok s lo hi (omega arith) (omega (arith, f.ends, length-append part rest))
      ∙ ap (λ (xs : List _). ok (take (hi - lo) xs)) (f.rests)
      ∙ ap ok (take-append part rest (hi - lo) (omega arith)),
  record {
    rests =
        ap (λ (k : ℕ). drop k s) (sym e)
        ∙ sym (drop-drop s lo (length part))
        ∙ ap (drop (length part)) (f.rests)
        ∙ drop-append part rest (length part) refl;
    ends = omega (arith, f.ends, length-append part rest);
  },
)

pub From-index :
    {E A : Type 0} {s : List A} {lo : ℕ} (a : A) (rest : List A)
    → From s lo (a ∷ rest)
    → (index {E = E} s lo ≡ ok a) × From s (lo + 1) rest
From-index {E} {s = s} {lo} a rest f =
    (ap or_panic (found s lo (f.rests)), (From-slice {E = E} (a ∷ []) rest (lo + 1) refl f).1)
  where
    found : (xs : List _) (i : ℕ) → drop i xs ≡ a ∷ rest → get_elem? xs i ≡ some a
    found [] zero e = cc
    found [] (suc i) e = cc
    found (x ∷ xs) zero e = cc
    found (x ∷ xs) (suc i) e = found xs i e

-- One step of a chain that succeeds.
pub ok-bind :
    {E A B : Type 0} {m : Outcome E A} {a : A} (k : A → Outcome E B) {r : Outcome E B}
    → m ≡ ok a
    → k a ≡ r
    → (m >>= k) ≡ r
ok-bind k {r} e h = subst (λ (n : Outcome _ _). (n >>= k) ≡ r) (sym e) h

pub pass-guard :
    {E B : Type 0} (b : Bool) (e : E) (k : Outcome E B) {r : Outcome E B}
    → b ≡ false
    → k ≡ r
    → (fail_if b e >> k) ≡ r
pass-guard b e k {r} p h = subst (λ (c : Bool). (fail_if c e >> k) ≡ r) (sym p) h
