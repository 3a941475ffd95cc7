-- ===== src/Base/Bits.antt =====
-- Bits of bytes and of bitmaps: `b & (1 << k) != 0`, `b |= 1 << k` and `b &= !(1 << k)`, for a bit
-- number `k` below 8.
use Prim.Native.Nat.{ℕ, zero, suc, ◌+◌, ◌-◌, ◌*◌, ◌/◌, ◌%◌, ◌^◌, ◌≤◌, ◌<◌}
use mathlib.Core.Path.{◌≡◌, refl, ap, ap₂, ◌∙◌}
use mathlib.Core.Bool.{Bool, true, false, ◌||◌}
use mathlib.Core.List.{List, [], ◌∷◌}
use mathlib.Core.Option
use mathlib.Core.Option.{Option, none, some}
use native.Mathlib.Omega.{arith}
use mathlib.Core.Logic.{inl, inr}
use favonius.Base.Tests.{
  ◌==◌, ltb, if◌then◌else◌, every, every_sound, Bool-cases, ltb→lt, ltb_false→le,
}
use favonius.Base.Lists.{length, All, replicate}

unfoldable pub test_bit : ℕ → ℕ → Bool
test_bit b k = b / 2 ^ k % 2 == 1

unfoldable pub set_bit : ℕ → ℕ → ℕ
unfolding test_bit
set_bit b k = if test_bit b k then b else b + 2 ^ k

unfoldable pub clear_bit : ℕ → ℕ → ℕ
unfolding test_bit
clear_bit b k = if test_bit b k then b - 2 ^ k else b

-- Bit `j` of a bitmap, the lowest bit of a byte first; past the end it is not set.
unfoldable pub bit : List ℕ → ℕ → Bool
unfolding test_bit
bit [] j = false
bit (b ∷ bs) j = let rest = bit bs (j - 8) in if ltb j 8 then test_bit b j else rest

abbrev same : Bool → Bool → Bool
same true b = b
same false true = false
same false false = true

same_sound : (a b : Bool) → same a b ≡ true → a ≡ b
same_sound true true e = refl
same_sound true false e = cc
same_sound false true e = cc
same_sound false false e = refl

set_table :
    every 256 (λ b.
      every 8 (λ k. every 8 (λ j. same (test_bit (set_bit b k) j) (test_bit b j || (j == k)))))
    ≡ true
unfolding every set_bit
set_table = refl

pub test_bit-set_bit :
    (b k j : ℕ) → b < 256 → k < 8 → j < 8 → test_bit (set_bit b k) j ≡ test_bit b j || (j == k)
test_bit-set_bit b k j hb hk hj = same_sound _ _ (
    every_sound 8 (λ j. same (test_bit (set_bit b k) j) (test_bit b j || (j == k))) j
      (every_sound 8
        (λ k. every 8 (λ j. same (test_bit (set_bit b k) j) (test_bit b j || (j == k)))) k
        (every_sound 256
          (λ b.
            every 8
              (λ k. every 8 (λ j. same (test_bit (set_bit b k) j) (test_bit b j || (j == k)))))
          b set_table hb)
        hk)
      hj)

small_table : every 256 (λ b. every 8 (λ k. ltb (set_bit b k) 256)) ≡ true
unfolding every set_bit
small_table = refl

pub set_bit-lt : (b k : ℕ) → b < 256 → k < 8 → set_bit b k < 256
set_bit-lt b k hb hk =
    let row =
      every_sound 8 (λ k. ltb (set_bit b k) 256) k
        (every_sound 256 (λ b. every 8 (λ k. ltb (set_bit b k) 256)) b small_table hb) hk in
    ground arith

-- `bitmap[i] |= 1 << k`
unfoldable pub store_in : List ℕ → ℕ → ℕ → Option (List ℕ)
store_in [] i k = none
store_in (b ∷ bs) zero k = some (set_bit b k ∷ bs)
store_in (b ∷ bs) (suc i) k = Option.map (◌∷◌ b) (store_in bs i k)

-- `bitmap[j / 8] |= 1 << (j % 8)`; `none` is a panic.
unfoldable pub store_bit : List ℕ → ℕ → Option (List ℕ)
unfolding store_in
store_bit bs j = store_in bs (j / 8) (j % 8)

-- What a store of bit `j` leaves.
pub record Stored (bs : List ℕ) (j : ℕ) : Type 0 where
  pub bytes : List ℕ
  pub stored : store_bit bs j ≡ some bytes
  pub size : length bytes ≡ length bs
  pub small : All (λ b. b < 256) bytes
  pub bits : (i : ℕ) → bit bytes i ≡ bit bs i || (i == j)

store_here : (b : ℕ) (bs : List ℕ) (j : ℕ) → j < 8 → All (λ b. b < 256) (b ∷ bs) → Stored (b ∷ bs) j
unfolding store_bit bit
store_here b bs j h small = record {
  bytes = set_bit b j ∷ bs;
  stored = ap₂ (store_in (b ∷ bs)) quotient remainder;
  size = refl;
  small = (set_bit-lt b j small.0 h, small.1);
  bits = λ i. elim (Bool-cases (ltb i 8)) [
    | inl first ↦ rw first (test_bit-set_bit b j i small.0 h (ltb→lt i 8 first))
    | inr later ↦ rw later (ground (arith, ltb_false→le i 8 later))
  ];
}
  where
    quotient : j / 8 ≡ 0
    quotient = omega arith

    remainder : j % 8 ≡ j
    remainder = omega arith

store_later :
    (b : ℕ) (bs : List ℕ) (j : ℕ) → 8 ≤ j → b < 256 → Stored bs (j - 8) → Stored (b ∷ bs) j
unfolding store_bit bit
store_later b bs j h small s = record {
  bytes = b ∷ s.bytes;
  stored = stored_later;
  size = ap suc s.size;
  small = (small, s.small);
  bits = λ i. elim (Bool-cases (ltb i 8)) [
    | inl first ↦ rw first (ground (arith, ltb→lt i 8 first))
    | inr later ↦ rw (later, s.bits (i - 8)) (ground (arith, ltb_false→le i 8 later))
  ];
}
  where
    quotient : j / 8 ≡ suc ((j - 8) / 8)
    quotient = omega arith

    remainder : j % 8 ≡ (j - 8) % 8
    remainder = omega arith

    stored_later : store_bit (b ∷ bs) j ≡ some (b ∷ s.bytes)
    stored_later = ap₂ (store_in (b ∷ bs)) quotient remainder ∙ ap (Option.map (◌∷◌ b)) s.stored

pub store_bit-Stored :
    (bs : List ℕ) (j : ℕ) → j < length bs * 8 → All (λ b. b < 256) bs → Stored bs j
store_bit-Stored [] j h small = absurd (omega arith)
store_bit-Stored (b ∷ bs) j h small = elim (Bool-cases (ltb j 8)) [
  | inl first ↦ store_here b bs j (ltb→lt j 8 first) small
  | inr later ↦
      let far = ltb_false→le j 8 later in
      store_later b bs j far small.0 (store_bit-Stored bs (j - 8) (omega arith) small.1)
]

pub bit-lt-length : (bs : List ℕ) (j : ℕ) → bit bs j ≡ true → j < length bs * 8
unfolding bit
bit-lt-length [] j e = cc
bit-lt-length (b ∷ bs) j e = elim (Bool-cases (ltb j 8)) [
  | inl first ↦ omega (arith, ltb→lt j 8 first)
  | inr later ↦ omega (arith, bit-lt-length bs (j - 8) (rw later at e), ltb_false→le j 8 later)
]

zero_table : every 8 (λ j. same (test_bit 0 j) false) ≡ true
unfolding every test_bit
zero_table = refl

zero_byte : (j : ℕ) → j < 8 → test_bit 0 j ≡ false
zero_byte j h = same_sound _ _ (every_sound 8 (λ j. same (test_bit 0 j) false) j zero_table h)

pub bit-replicate : (n j : ℕ) → bit (replicate n 0) j ≡ false
unfolding bit
bit-replicate zero j = refl
bit-replicate (suc n) j = elim (Bool-cases (ltb j 8)) [
  | inl first ↦ rw first (zero_byte j (ltb→lt j 8 first))
  | inr later ↦ rw later (bit-replicate n (j - 8))
]
