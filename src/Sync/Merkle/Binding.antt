-- ===== src/Sync/Merkle/Binding.antt =====
-- Two leaves with one proof and one root.
use mathlib.Core.List.{foldl}
use favonius.Base.{
  same_bytes_sound, same_bytes_different, ℕ, ◌≡◌, refl, sym, ap, ◌∙◌, Bool, true, false, List, [],
  ◌∷◌, ◌++◌, Bool-cases, inl, inr, length, take, same_bytes, arith,
}
use favonius.Base.{length-append, take-append, ◌≢◌, ◌⊎◌}
use favonius.Sync.Merkle.{Blake3, hash_pair, climb, verify_proof}

cancel_left : (s a b : List ℕ) → s ++ a ≡ s ++ b → a ≡ b
cancel_left [] a b e = e
cancel_left (x ∷ s) a b e = cancel_left s a b (cc)

cancel_right : (s a b : List ℕ) → a ++ s ≡ b ++ s → a ≡ b
cancel_right s a b e =
    let same : length a ≡ length b =
      omega (arith, ap length e, length-append a s, length-append b s) in
    sym (take-append a s (length a) refl)
    ∙ ap (take (length a)) e
    ∙ take-append b s (length a) (sym same)

module _ ⦃blake3 : Blake3⦄ where
  -- Two inputs of BLAKE3 with one hash.
  pub record Collision : Type 0 where
    pub one : List ℕ
    pub other : List ℕ
    pub differ : one ≢ other
    pub same_hash : blake3.hash one ≡ blake3.hash other

  parents_meet :
      (a b x y : List ℕ) → (x ≡ y → a ≡ b) → blake3.hash x ≡ blake3.hash y → (a ≡ b) ⊎ Collision
  parents_meet a b x y f same = elim (Bool-cases (same_bytes x y)) [
    | inl equal ↦ inl (f (same_bytes_sound x y equal))
    | inr unequal ↦ inr (record {
      one = x;
      other = y;
      differ = λ e. same_bytes_different x y unequal e;
      same_hash = same;
    })
  ]

  paths_meet :
      (p : List (Bool × List ℕ)) (a b : List ℕ)
      → foldl climb a p ≡ foldl climb b p
      → (a ≡ b) ⊎ Collision
  paths_meet [] a b e = inl e
  paths_meet ((true, s) ∷ p) a b e = elim (paths_meet p (hash_pair a s) (hash_pair b s) e) [
    | inr c ↦ inr c
    | inl same ↦ parents_meet a b (a ++ s) (b ++ s) (cancel_right s a b) same
  ]
  paths_meet ((false, s) ∷ p) a b e = elim (paths_meet p (hash_pair s a) (hash_pair s b) e) [
    | inr c ↦ inr c
    | inl same ↦ parents_meet a b (s ++ a) (s ++ b) (cancel_left s a b) same
  ]

  -- Where one proof is accepted for one root and two leaves, the leaves are equal, or two different
  -- inputs with one hash are found.
  pub verify_proof_binds :
      (r a b : List ℕ) (p : List (Bool × List ℕ))
      → verify_proof r a p ≡ true
      → verify_proof r b p ≡ true
      → (a ≡ b) ⊎ Collision
  unfolding verify_proof
  verify_proof_binds r a b p ha hb =
      paths_meet p a b
        (same_bytes_sound (foldl climb a p) r ha ∙ sym (same_bytes_sound (foldl climb b p) r hb))
