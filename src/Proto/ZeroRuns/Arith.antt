-- ===== src/Proto/ZeroRuns/Arith.antt =====
-- Rounding up and down to whole chunks.
use native.Mathlib.Nat.{
  le-div_iff_mul-le, div-lt_iff_lt-mul, div-add-mod', mul-mod_left, mul-div_cancel,
}
use favonius.Base.{
  ◌≢◌, Bool, ℕ, ◌+◌, ◌*◌, ◌/◌, ◌%◌, ◌<◌, ◌≤◌, ◌≡◌, ◌↔◌, ap, inl, inr, ◌==◌, ==_iff, Bool-cases, ltb,
  ltb→lt, ltb_false→le, arith,
}
use favonius.Proto.ZeroRuns.{div_ceil}

pub mul-le_iff : (a b d : ℕ) → 0 < d → (a ≤ b) ↔ (a * d ≤ b * d)
mul-le_iff a b d h =
    let cancel : b * d / d ≡ b = mul-div_cancel b h in
    let r = le-div_iff_mul-le {k = d} {x = a} {y = b * d} h in
    (λ p. r.0 (omega (arith, cancel)), λ p. omega (arith, cancel, r.1 p))

not_multiple : (n c d : ℕ) → (n % d == 0) ≡ Bool.false → n ≢ c * d
not_multiple n c d e p = absurd (ground (arith, mul-mod_left c d, ap (λ (k : ℕ). k % d) p))

-- A chunk starts at or after `n` exactly when it is at or after the rounded-up quotient.
pub div_ceil-le : (n c d : ℕ) → 0 < d → (div_ceil n d ≤ c) ↔ (n ≤ c * d)
unfolding div_ceil
div_ceil-le n c d h =
    let whole : n / d * d + n % d ≡ n = div-add-mod' n d in
    elim (Bool-cases (n % d == 0)) [
      | inl even ↦
          let z : n % d ≡ 0 = (==_iff (n % d) 0).0 even in
          let m = mul-le_iff (n / d) c d h in
          rw even (λ p. omega (arith, m.0 p, whole), λ p. m.1 (omega (arith, whole, z)))
      | inr odd ↦
          let below = div-lt_iff_lt-mul {k = d} {x = n} {y = c} h in
          rw odd (
            λ p. omega (arith, below.0 (omega arith)),
            λ p. omega (arith, below.1 (omega (arith, not_multiple n c d odd))),
          )
    ]

-- A chunk ends at or before `n` exactly when it is before the rounded-down quotient.
pub lt-div : (n c d : ℕ) → 0 < d → (c < n / d) ↔ (c * d + d ≤ n)
lt-div n c d h =
    let r = le-div_iff_mul-le {k = d} {x = c + 1} {y = n} h in
    (λ p. omega (arith, r.0 (omega arith)), λ p. omega (arith, r.1 (omega arith)))

-- A chunk is one of the file exactly when it starts before the end.
pub lt-div_ceil : (n c d : ℕ) → 0 < d → (c < div_ceil n d) ↔ (c * d < n)
lt-div_ceil n c d h =
    let r = div_ceil-le n c d h in
    elim (Bool-cases (ltb (c * d) n)) [
      | inl below ↦
          let b = ltb→lt (c * d) n below in
          (
            λ p. b,
            λ p. elim (Bool-cases (ltb c (div_ceil n d))) [
              | inl q ↦ ltb→lt c (div_ceil n d) q
              | inr q ↦ absurd (omega (arith, b, r.0 (ltb_false→le c (div_ceil n d) q)))
            ],
          )
      | inr above ↦
          let a = ltb_false→le (c * d) n above in
          (λ p. absurd (omega (arith, r.1 a)), λ p. absurd (omega (arith, a)))
    ]
