-- ===== src/Proto/Codes.antt =====
-- A `match` on a number with one arm for each code, as the `try_from` of the enumerations has it.
use favonius.Base.{
  ℕ, ◌^◌, ◌<◌, bit_and, Bool, true, false, not, leb, every, every_sound, ◌≡◌, refl, List, [], ◌∷◌,
  ◌==◌, if◌then◌else◌, All, Bool-cases, inl, inr, ◌⊎◌, arith,
}
use favonius.Base.{Outcome, ok, err}

module _ {A E : Type 0} where
  -- The first arm whose code is `v`, or the error of the last arm.
  unfoldable pub match_code : ℕ → List (ℕ × A) → E → Outcome E A
  match_code v [] other = err other
  match_code v ((c, a) ∷ arms) other = if v == c then ok a else match_code v arms other

  -- What an arm gives has the code that was matched.
  pub match_code_sound :
      (code : A → ℕ) (v : ℕ) (arms : List (ℕ × A)) (other : E) (a : A)
      → All (λ (arm : ℕ × A). code arm.1 ≡ arm.0) arms
      → match_code v arms other ≡ ok a
      → code a ≡ v
  unfolding match_code
  match_code_sound code v [] other a h e = cc
  match_code_sound code v ((c, b) ∷ arms) other a (hc, hs) e =
      ground (arith, match_code_sound code v arms other a hs)

  pub match_code_cases :
      (v : ℕ) (arms : List (ℕ × A)) (other : E)
      → ((a : A) × (match_code v arms other ≡ ok a)) ⊎ (match_code v arms other ≡ err other)
  unfolding match_code
  match_code_cases v [] other = inr refl
  match_code_cases v ((c, a) ∷ arms) other = elim (Bool-cases (v == c)) [
    | inl hit ↦ inl (a, rw hit)
    | inr miss ↦ rw miss (match_code_cases v arms other)
  ]

-- `code & 0x8000 != 0`
abbrev pub high_bit : ℕ → Bool
high_bit code = not (bit_and code 0x8000 == 0)

abbrev agrees : ℕ → Bool
agrees b = if leb 0x8000 b then high_bit b else not (high_bit b)

agrees_table : every (2 ^ 16) agrees ≡ true
unfolding every
agrees_table = refl

-- The mask test of a u16 compares it with 0x8000.
pub high_bit_lem : (b : ℕ) → b < 2 ^ 16 → high_bit b ≡ leb 0x8000 b
high_bit_lem b h = split (leb 0x8000 b) (high_bit b) (every_sound (2 ^ 16) agrees b agrees_table h)
  where
    split : (x y : Bool) → (if x then y else not y) ≡ true → y ≡ x
    split true y e = e
    split false true e = cc
    split false false e = refl
