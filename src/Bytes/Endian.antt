-- ===== src/Bytes/Endian.antt =====
-- `uN::to_be_bytes` and `uN::from_be_bytes` of the standard library. A byte is a number below 256.
use native.Mathlib.Nat.{
  pow-suc, mod-lt, mod-eq_of_lt, div-add-mod', one-le-pow, mul-add-mod_self_right,
  mul-add-div_right, div-eq_of_lt,
}
use favonius.Base.{
  ℕ, zero, suc, ◌+◌, ◌*◌, ◌/◌, ◌%◌, ◌^◌, ◌≤◌, ◌<◌, ◌≡◌, refl, ap, sym, ◌∙◌, List, [], ◌∷◌, ◌++◌,
  length-append, arith, length, All,
}

abbrev pub IsByte : ℕ → Type 0
IsByte b = b < 256

abbrev pub IsBytes : List ℕ → Type 0
IsBytes bs = All IsByte bs

-- The `w` low bytes of `n`, the highest first.
unfoldable pub to_be_bytes : ℕ → ℕ → List ℕ
to_be_bytes zero n = []
to_be_bytes (suc w) n = (n / 256 ^ w % 256) ∷ to_be_bytes w n

unfoldable pub from_be_bytes : List ℕ → ℕ
from_be_bytes [] = 0
from_be_bytes (b ∷ bs) = b * 256 ^ length bs + from_be_bytes bs

pub length-to_be_bytes : (w n : ℕ) → length (to_be_bytes w n) ≡ w
unfolding to_be_bytes
length-to_be_bytes zero n = refl
length-to_be_bytes (suc w) n = ap suc (length-to_be_bytes w n)

pub length-append_bytes : (xs ys : List ℕ) → length (xs ++ ys) ≡ length xs + length ys
length-append_bytes xs ys = length-append xs ys

-- The lengths of encodings, for `omega`.
pub ruleset lens = (arith, length-append_bytes, length-to_be_bytes)

pub to_be_bytes-IsBytes : (w n : ℕ) → IsBytes (to_be_bytes w n)
unfolding to_be_bytes
to_be_bytes-IsBytes zero n = tt
to_be_bytes-IsBytes (suc w) n = (omega arith, to_be_bytes-IsBytes w n)

power_pos : (w : ℕ) → 1 ≤ 256 ^ w
power_pos w = one-le-pow w 256 (omega arith)

below : (r v p : ℕ) → r < 256 → v < p → r * p + v < p * 256
below r v p h k = grind arith

-- The digits above and below a place.
split_place : (n p : ℕ) → 1 ≤ p → n / p % 256 * p + n % p ≡ n % (p * 256)
split_place n p h = sym (
    ap (λ (t : ℕ). t % (p * 256)) regroup
    ∙ mul-add-mod_self_right (n / p / 256) (p * 256) (n / p % 256 * p + n % p)
    ∙ mod-eq_of_lt (below (n / p % 256) (n % p) p (omega arith) (mod-lt n h)))
  where
    regroup : n ≡ n / p / 256 * (p * 256) + (n / p % 256 * p + n % p)
    regroup = omega (arith, div-add-mod' n p, ap (λ (t : ℕ). t * p) (div-add-mod' (n / p) 256))

pub from_be_bytes-to_be_bytes : (w n : ℕ) → from_be_bytes (to_be_bytes w n) ≡ n % 256 ^ w
unfolding to_be_bytes from_be_bytes
from_be_bytes-to_be_bytes zero n = omega arith
from_be_bytes-to_be_bytes (suc w) n =
    rw (length-to_be_bytes w n, from_be_bytes-to_be_bytes w n, pow-suc 256 w)
      (split_place n (256 ^ w) (power_pos w))

pub from_be_bytes-lt : (bs : List ℕ) → IsBytes bs → from_be_bytes bs < 256 ^ length bs
unfolding from_be_bytes
from_be_bytes-lt [] h = omega arith
from_be_bytes-lt (b ∷ bs) (hb, hbs) =
    rw (pow-suc 256 (length bs)) (below b _ (256 ^ length bs) hb (from_be_bytes-lt bs hbs))

-- Bytes above the `w` low ones are not written.
high_dropped : (w a v : ℕ) → to_be_bytes w (a * 256 ^ w + v) ≡ to_be_bytes w v
unfolding to_be_bytes
high_dropped zero a v = refl
high_dropped (suc w) a v =
    rw (regroup, mul-add-div_right (power_pos w) (a * 256) v, high_dropped w (a * 256) v)
      (ap (λ (d : ℕ). d ∷ to_be_bytes w v) (omega arith))
  where
    regroup : a * 256 ^ suc w ≡ a * 256 * 256 ^ w
    regroup = rw (pow-suc 256 w) (omega arith)

pub to_be_bytes-from_be_bytes :
    (bs : List ℕ) → IsBytes bs → to_be_bytes (length bs) (from_be_bytes bs) ≡ bs
unfolding to_be_bytes from_be_bytes
to_be_bytes-from_be_bytes [] h = refl
to_be_bytes-from_be_bytes (b ∷ bs) (hb, hbs) =
    rw
      (
        mul-add-div_right (power_pos (length bs)) b (from_be_bytes bs),
        div-eq_of_lt (from_be_bytes-lt bs hbs),
        high_dropped (length bs) b (from_be_bytes bs),
        to_be_bytes-from_be_bytes bs hbs,
      )
      (ap (λ (d : ℕ). d ∷ bs) (omega arith))

pub to_be_bytes_one : (n : ℕ) → n < 256 → to_be_bytes 1 n ≡ n ∷ []
unfolding to_be_bytes
to_be_bytes_one n h = ap (λ (d : ℕ). d ∷ []) (omega arith)
