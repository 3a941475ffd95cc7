-- ===== src/Base/Xor.antt =====
-- `a ^ b` on bytes.
use Prim.Native.Nat.{ℕ, zero, suc, ◌+◌, ◌*◌, ◌/◌, ◌%◌, ◌^◌, ◌<◌}
use mathlib.Core.Path.{◌≡◌, refl, ap, ap₂}
use mathlib.Core.List.{List, [], ◌∷◌, ◌++◌}
use native.Mathlib.Omega.{arith}
use native.Mathlib.Nat.{pow-suc}
use favonius.Base.Lists.{length, take, drop, take-append, drop-append, All}

-- The `w` low bits.
unfoldable pub xor_bits : ℕ → ℕ → ℕ → ℕ
xor_bits zero a b = 0
xor_bits (suc w) a b = (a + b) % 2 + 2 * xor_bits w (a / 2) (b / 2)

abbrev pub xor : ℕ → ℕ → ℕ
xor a b = xor_bits 8 a b

pub xor_bits-lt : (w a b : ℕ) → xor_bits w a b < 2 ^ w
unfolding xor_bits
xor_bits-lt zero a b = omega arith
xor_bits-lt (suc w) a b = omega (arith, xor_bits-lt w (a / 2) (b / 2), pow-suc 2 w)

half : (r x : ℕ) → r < 2 → (r + 2 * x) / 2 ≡ x
half r x h = omega arith

-- The same mask twice takes itself away.
pub xor_bits-xor_bits : (w a b : ℕ) → a < 2 ^ w → xor_bits w (xor_bits w a b) b ≡ a
unfolding xor_bits
xor_bits-xor_bits zero a b h = omega arith
xor_bits-xor_bits (suc w) a b h =
    rw
      (
        half ((a + b) % 2) (xor_bits w (a / 2) (b / 2)) (omega arith),
        xor_bits-xor_bits w (a / 2) (b / 2) (omega (arith, pow-suc 2 w)),
      )
      (omega arith)

-- A mask tells apart what it covers.
pub xor_bits-injective :
    (w a b c : ℕ) → b < 2 ^ w → c < 2 ^ w → xor_bits w a b ≡ xor_bits w a c → b ≡ c
unfolding xor_bits
xor_bits-injective zero a b c p q e = omega arith
xor_bits-injective (suc w) a b c p q e =
    let lower : b / 2 ≡ c / 2 =
      xor_bits-injective w (a / 2) (b / 2) (c / 2) (omega (arith, pow-suc 2 w))
        (omega (arith, pow-suc 2 w)) (omega arith) in
    let bit : b % 2 ≡ c % 2 = omega arith in omega arith

-- The masked bytes; the mask is no longer than they are.
unfoldable pub xor_bytes : List ℕ → List ℕ → List ℕ
xor_bytes [] mask = []
xor_bytes (b ∷ bs) [] = b ∷ bs
xor_bytes (b ∷ bs) (m ∷ mask) = xor b m ∷ xor_bytes bs mask

-- `for i in 0..mask.len() { buf[at + i] ^= mask[i]; }`, where that is in range.
abbrev pub mask_at : List ℕ → ℕ → List ℕ → List ℕ
mask_at buf at mask = take at buf ++ xor_bytes (drop at buf) mask

pub length-xor_bytes : (bs mask : List ℕ) → length (xor_bytes bs mask) ≡ length bs
unfolding xor_bytes
length-xor_bytes [] mask = refl
length-xor_bytes (b ∷ bs) [] = refl
length-xor_bytes (b ∷ bs) (m ∷ mask) = ap suc (length-xor_bytes bs mask)

pub xor_bytes-append :
    (bs rest mask : List ℕ)
    → length bs ≡ length mask
    → xor_bytes (bs ++ rest) mask ≡ xor_bytes bs mask ++ rest
unfolding xor_bytes
xor_bytes-append [] [] [] e = refl
xor_bytes-append [] (r ∷ rest) [] e = refl
xor_bytes-append [] rest (m ∷ mask) e = absurd (omega arith)
xor_bytes-append (b ∷ bs) rest [] e = absurd (omega arith)
xor_bytes-append (b ∷ bs) rest (m ∷ mask) e =
    ap (◌∷◌ (xor b m)) (xor_bytes-append bs rest mask (omega arith))

pub mask_at-middle :
    (front bs rest mask : List ℕ) (at : ℕ)
    → length front ≡ at
    → length bs ≡ length mask
    → mask_at (front ++ (bs ++ rest)) at mask ≡ front ++ (xor_bytes bs mask ++ rest)
mask_at-middle front bs rest mask at p q =
    rw (take-append front (bs ++ rest) at p, drop-append front (bs ++ rest) at p)
      (ap (λ (r : List ℕ). front ++ r) (xor_bytes-append bs rest mask q))

pub xor_bytes-xor_bytes :
    (bs mask : List ℕ) → All (λ (b : ℕ). b < 256) bs → xor_bytes (xor_bytes bs mask) mask ≡ bs
unfolding xor_bytes
xor_bytes-xor_bytes [] mask h = refl
xor_bytes-xor_bytes (b ∷ bs) [] h = refl
xor_bytes-xor_bytes (b ∷ bs) (m ∷ mask) (hb, h) =
    ap₂ (λ (c : ℕ) (cs : List ℕ). c ∷ cs) (xor_bits-xor_bits 8 b m hb)
      (xor_bytes-xor_bytes bs mask h)

pub xor_bytes-injective :
    (bs m n : List ℕ)
    → length m ≡ length bs
    → length n ≡ length bs
    → All (λ (b : ℕ). b < 256) m
    → All (λ (b : ℕ). b < 256) n
    → xor_bytes bs m ≡ xor_bytes bs n
    → m ≡ n
unfolding xor_bytes
xor_bytes-injective [] [] [] p q h k e = refl
xor_bytes-injective [] (a ∷ m) n p q h k e = absurd (omega arith)
xor_bytes-injective [] [] (b ∷ n) p q h k e = absurd (omega arith)
xor_bytes-injective (c ∷ bs) [] n p q h k e = absurd (omega arith)
xor_bytes-injective (c ∷ bs) (a ∷ m) [] p q h k e = absurd (omega arith)
xor_bytes-injective (c ∷ bs) (a ∷ m) (b ∷ n) p q (ha, h) (hb, k) e =
    ap₂ (λ (x : ℕ) (xs : List ℕ). x ∷ xs) (xor_bits-injective 8 c a b ha hb (heads e))
      (xor_bytes-injective bs m n (omega arith) (omega arith) h k (tails e))
  where
    heads : {x y : ℕ} {xs ys : List ℕ} → x ∷ xs ≡ y ∷ ys → x ≡ y
    heads w = cc

    tails : {x y : ℕ} {xs ys : List ℕ} → x ∷ xs ≡ y ∷ ys → xs ≡ ys
    tails w = cc
