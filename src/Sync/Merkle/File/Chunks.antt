-- ===== src/Sync/Merkle/File/Chunks.antt =====
-- A file cut into full chunks and a last one, and the hashes of its chunks.
use native.Mathlib.Nat.{add-mul-div_right, add-mul-mod_self_right, div-eq_of_lt, mod-eq_of_lt}
use favonius.Base.{
  ℕ, suc, ◌+◌, ◌*◌, ◌/◌, ◌%◌, ◌<◌, ◌≡◌, refl, sym, ap, ◌∙◌, min, List, [], ◌∷◌, ◌++◌, map, ◌==◌,
  nonzero, All, length, length-append, slice, slice-middle, append_assoc, append-nil, if◌then◌else◌,
  arith,
}
use favonius.Base.{ok}
use favonius.Sync.Merkle.{Blake3}
use favonius.Sync.Merkle.File.{SyncError, FileMerkleBuilder, div_ceil, hash_chunks}

abbrev pub joined : List (List ℕ) → List ℕ
joined [] = []
joined (c ∷ cs) = c ++ joined cs

abbrev pub Sized : ℕ → List (List ℕ) → Type 0
Sized ps = All (λ (c : List ℕ). length c ≡ ps)

pub joined-append : (cs ds : List (List ℕ)) → joined (cs ++ ds) ≡ joined cs ++ joined ds
joined-append [] ds = refl
joined-append (c ∷ cs) ds =
    ap (◌++◌ c) (joined-append cs ds) ∙ sym (append_assoc c (joined cs) (joined ds))

pub map-append :
    (f : List ℕ → List ℕ) (cs ds : List (List ℕ)) → map f (cs ++ ds) ≡ map f cs ++ map f ds
map-append f [] ds = refl
map-append f (c ∷ cs) ds = ap (◌∷◌ (f c)) (map-append f cs ds)

pub length-joined :
    (ps : ℕ) (cs : List (List ℕ)) → Sized ps cs → length (joined cs) ≡ length cs * ps
length-joined ps [] h = omega arith
length-joined ps (c ∷ cs) (h, hs) =
    omega (arith, length-append c (joined cs), length-joined ps cs hs)

abbrev pub builder : ℕ → List (List ℕ) → List ℕ → FileMerkleBuilder
builder ps leaves partial = record { payload_size = ps; leaves = leaves; partial = partial }

-- The chunk that is not full is the last, where there is one.
abbrev pub tail : List ℕ → List (List ℕ)
tail [] = []
tail (b ∷ bs) = (b ∷ bs) ∷ []

pub tail_count :
    (fulls : List (List ℕ)) (partial : List ℕ)
    → length (fulls ++ tail partial)
      ≡ (if length partial == 0 then 0 + length fulls else 0 + length fulls + 1)
tail_count fulls [] = omega (arith, length-append fulls (tail []))
tail_count fulls (b ∷ bs) =
    rw (nonzero (suc (length bs)) (omega arith))
      (omega (arith, length-append fulls (tail (b ∷ bs))))

pub div_ceil-chunks :
    (ps : ℕ) (fulls : List (List ℕ)) (partial : List ℕ)
    → Sized ps fulls
    → length partial < ps
    → div_ceil (length (joined fulls ++ partial)) ps ≡ length (fulls ++ tail partial)
unfolding div_ceil
div_ceil-chunks ps fulls partial h short =
    let n : ℕ = length fulls in
    let r : ℕ = length partial in
    let e : length (joined fulls ++ partial) ≡ r + n * ps =
      omega (arith, length-append (joined fulls) partial, length-joined ps fulls h) in
    let q : (r + n * ps) / ps ≡ r / ps + n = add-mul-div_right r n (omega arith) in
    let m : (r + n * ps) % ps ≡ r % ps = add-mul-mod_self_right r n ps in
    rw (e, q, m, mod-eq_of_lt short, div-eq_of_lt short) (sym (tail_count fulls partial))

module _ ⦃blake3 : Blake3⦄ where
  pub hash_chunks_lem :
      (ps ci : ℕ) (pre : List ℕ) (fulls : List (List ℕ)) (partial : List ℕ)
      → length pre ≡ ci * ps
      → Sized ps fulls
      → length partial < ps
      → hash_chunks (pre ++ (joined fulls ++ partial)) ps ci (length (fulls ++ tail partial))
        ≡ ok (map blake3.hash (fulls ++ tail partial))
  unfolding hash_chunks
  hash_chunks_lem ps ci pre [] [] e h short = refl
  hash_chunks_lem ps ci pre [] (b ∷ bs) e h short =
      let piece : List ℕ = b ∷ bs in
      let end : min (ci * ps + ps) (length (pre ++ piece)) ≡ ci * ps + length piece =
        omega (arith, length-append pre piece) in
      let whole : pre ++ piece ≡ pre ++ (piece ++ []) = ap (◌++◌ pre) (sym (append-nil piece)) in
      let s : slice {E = SyncError} (pre ++ piece) (ci * ps) (ci * ps + length piece) ≡ ok piece =
        ap (λ (r : List ℕ). slice {E = SyncError} r (ci * ps) (ci * ps + length piece)) whole
        ∙ slice-middle pre piece [] (ci * ps) (ci * ps + length piece) e refl in
      rw (end, s)
  hash_chunks_lem ps ci pre (c ∷ cs) partial e (h, hs) short =
      let after : List ℕ = joined cs ++ partial in
      let file : List ℕ = pre ++ ((c ++ joined cs) ++ partial) in
      let split : file ≡ pre ++ (c ++ after) = ap (◌++◌ pre) (append_assoc c (joined cs) partial) in
      let ih =
        hash_chunks_lem ps (suc ci) (pre ++ c) cs partial (omega (arith, length-append pre c)) hs
          short in
      let moved : (pre ++ c) ++ after ≡ file = append_assoc pre c after ∙ sym split in
      let ih' =
        ap (λ (r : List ℕ). hash_chunks r ps (suc ci) (length (cs ++ tail partial))) (sym moved)
        ∙ ih in
      let end : min (ci * ps + ps) (length file) ≡ ci * ps + length c =
        omega (arith, ap length split, length-append pre (c ++ after), length-append c after) in
      let s : slice {E = SyncError} file (ci * ps) (ci * ps + length c) ≡ ok c =
        ap (λ (r : List ℕ). slice {E = SyncError} r (ci * ps) (ci * ps + length c)) split
        ∙ slice-middle pre c after (ci * ps) (ci * ps + length c) e refl in
      rw (end, s, ih')
