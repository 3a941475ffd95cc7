-- ===== src/Daemon/Manifest/Write.antt =====
-- A reference for the write of a chunk (write_chunk).
use favonius.Base.{
  ℕ, zero, suc, ◌+◌, ◌-◌, ◌≤◌, ◌<◌, ◌≡◌, refl, sym, ap, ◌∙◌, min, List, [], ◌∷◌, ◌++◌, inl, inr,
  leb, leb→le, le→leb, lt→leb_false, leb_false→lt, Bool-cases, length, take, drop, length-take, ok,
  slice_front, copy_at, ok-bind, arith,
}
use favonius.Proto.ZeroRuns.{u64_max, saturating_add}
use favonius.Daemon.Manifest.{write_chunk}

-- The file where the chunk does not stand, and the chunk where it does.
unfoldable pub overlaid : List ℕ → ℕ → List ℕ → List ℕ
overlaid [] offset bytes = []
overlaid (b ∷ mmap) zero [] = b ∷ mmap
overlaid (b ∷ mmap) zero (c ∷ bytes) = c ∷ overlaid mmap zero bytes
overlaid (b ∷ mmap) (suc offset) bytes = b ∷ overlaid mmap offset bytes

pieces :
    (mmap : List ℕ) (offset : ℕ) (bytes : List ℕ) (n : ℕ)
    → n ≡ min (length bytes) (length mmap - offset)
    → offset ≤ length mmap
    → take offset mmap ++ (take n bytes ++ drop (offset + n) mmap) ≡ overlaid mmap offset bytes
unfolding overlaid
pieces [] zero bytes zero e h = refl
pieces [] zero bytes (suc n) e h = absurd (omega arith)
pieces [] (suc offset) bytes n e h = absurd (omega arith)
pieces (b ∷ mmap) zero [] zero e h = refl
pieces (b ∷ mmap) zero [] (suc n) e h = absurd (omega arith)
pieces (b ∷ mmap) zero (c ∷ bytes) zero e h = absurd (omega arith)
pieces (b ∷ mmap) zero (c ∷ bytes) (suc n) e h = ap (◌∷◌ c) (
    ap (λ (k : ℕ). take n bytes ++ drop k (b ∷ mmap)) {x = 0 + suc n} {y = suc (0 + n)}
      (omega arith)
    ∙ pieces mmap zero bytes n (omega arith) (omega arith))
pieces (b ∷ mmap) (suc offset) bytes n e h = ap (◌∷◌ b) (
    ap (λ (k : ℕ). take offset mmap ++ (take n bytes ++ drop k (b ∷ mmap))) {x = suc offset + n}
      {y = suc (offset + n)} (omega arith)
    ∙ pieces mmap offset bytes n (omega arith) (omega arith))

overlaid_past :
    (mmap : List ℕ) (offset : ℕ) (bytes : List ℕ)
    → length mmap ≤ offset
    → overlaid mmap offset bytes ≡ mmap
unfolding overlaid
overlaid_past [] offset bytes h = refl
overlaid_past (b ∷ mmap) zero bytes h = absurd (omega arith)
overlaid_past (b ∷ mmap) (suc offset) bytes h =
    ap (◌∷◌ b) (overlaid_past mmap offset bytes (omega arith))

inside :
    (mmap : List ℕ) (offset : ℕ) (bytes : List ℕ)
    → length mmap ≤ u64_max
    → offset < length mmap
    → write_chunk mmap offset bytes ≡ ok (overlaid mmap offset bytes)
unfolding write_chunk copy_at
inside mmap offset bytes small h = rw (lt→leb_false (length mmap) offset h) (
    ok-bind _ (slice_front bytes n (omega arith)) (
      rw (le→leb (offset + length (take n bytes)) (length mmap) (omega (arith, size))) (
        ap ok (
          ap (λ (k : ℕ). take offset mmap ++ (take n bytes ++ drop (offset + k) mmap)) size
          ∙ pieces mmap offset bytes n (omega arith) (omega arith)))))
  where
    n : ℕ
    n = min (saturating_add offset (length bytes)) (length mmap) - offset

    size : length (take n bytes) ≡ n
    size = omega (arith, length-take n bytes)

-- A chunk is written without a panic wherever it is to stand: each byte of the file that it reaches is the
-- chunk's and every other one is as it was, and what would stand behind the end is dropped.
pub write_chunk_lem :
    (mmap : List ℕ) (offset : ℕ) (bytes : List ℕ)
    → length mmap ≤ u64_max
    → write_chunk mmap offset bytes ≡ ok (overlaid mmap offset bytes)
unfolding write_chunk
write_chunk_lem mmap offset bytes small = elim (Bool-cases (leb (length mmap) offset)) [
  | inl past ↦ rw past (ap ok (sym (overlaid_past mmap offset bytes (leb→le _ _ past))))
  | inr reached ↦ inside mmap offset bytes small (leb_false→lt _ _ reached)
]
