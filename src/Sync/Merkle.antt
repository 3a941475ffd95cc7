-- ===== src/Sync/Merkle.antt =====
-- crates/ahp-sync/src/merkle.rs: Merkle trees, their proofs, and trees of files. A hash is the list of
-- its 32 bytes; BLAKE3 is a parameter. `diff_leaves`, `strategic_level`, `expand_diffs_to_leaves` and
-- the serialisation are not modelled.
pub mod Lists
pub mod Proofs
pub mod Binding
pub mod File
use mathlib.Core.List.{foldl}
use favonius.Base.{
  ℕ, zero, suc, ◌+◌, ◌-◌, ◌/◌, ◌%◌, Bool, true, false, List, [], ◌∷◌, ◌++◌, Option, none, some, ltb,
  leb, ◌==◌, if◌then◌else◌, length, take, replicate, get_elem?, index, same_bytes,
}
use favonius.Base.{Outcome, ok, err, panic, ◌>>=◌}

-- `blake3::hash(bytes).as_bytes()`
pub record Blake3 : Type 0 where
  pub hash : List ℕ → List ℕ

-- From the leaves to the root.
pub record MerkleTree : Type 0 where
  pub levels : List (List (List ℕ))

abbrev pub last {ℓ} : {A : Type ℓ} → List A → Option A
last [] = none
last (x ∷ []) = some x
last (x ∷ y ∷ xs) = last (y ∷ xs)

abbrev pub append_last {ℓ} : {A : Type ℓ} → List A → Option A → List A
append_last xs none = xs
append_last xs (some x) = xs ++ (x ∷ [])

-- `if len % 2 != 0 { push(*last().unwrap()) }`; a list of odd length has a last element.
unfoldable pub padded {ℓ} : {A : Type ℓ} → List A → List A
padded xs = if length xs % 2 == 0 then xs else append_last xs (last xs)

abbrev pub leaf_count : MerkleTree → ℕ
leaf_count t = by_levels t.levels
  where
    by_levels : List (List (List ℕ)) → ℕ
    by_levels [] = 0
    by_levels (level ∷ levels) = length level

abbrev pub first_or_zero : Option (List (List ℕ)) → List ℕ
first_or_zero (some (h ∷ hs)) = h
first_or_zero (some []) = replicate 32 0
first_or_zero none = replicate 32 0

abbrev pub root : MerkleTree → List ℕ
root t = first_or_zero (last t.levels)

-- The loop of `proof` over all levels but the last.
unfoldable pub proof_from :
    {E : Type 0} → List (List (List ℕ)) → ℕ → Outcome E (List (Bool × List ℕ))
proof_from [] idx = ok []
proof_from (level ∷ levels) idx =
    let rest = proof_from levels (idx / 2) in
    let level_with_dup = padded level in
    if idx % 2 == 0
    then (if ltb (idx + 1) (length level_with_dup)
        then (do
          sibling ← index level_with_dup (idx + 1)
          proof ← rest
          ok ((true, sibling) ∷ proof))
        else rest)
    else do sibling ← index level_with_dup (idx - 1); proof ← rest; ok ((false, sibling) ∷ proof)

unfoldable pub proof : {E : Type 0} → MerkleTree → ℕ → Outcome E (List (Bool × List ℕ))
proof t leaf_index =
    if leb (leaf_count t) 1
    then ok []
    else proof_from (take (length t.levels - 1) t.levels) leaf_index

module _ ⦃blake3 : Blake3⦄ where
  abbrev pub hash_pair : List ℕ → List ℕ → List ℕ
  hash_pair left right = blake3.hash (left ++ right)

  -- `current.chunks(2)` of a list of even length, each pair hashed.
  abbrev pub hash_pairs : List (List ℕ) → List (List ℕ)
  hash_pairs [] = []
  hash_pairs (a ∷ []) = []
  hash_pairs (a ∷ b ∷ rest) = hash_pair a b ∷ hash_pairs rest

  abbrev pub add_level :
      List (List ℕ) → Option (List (List (List ℕ))) → Option (List (List (List ℕ)))
  add_level level none = none
  add_level level (some levels) = some (level ∷ levels)

  -- The levels above `current`: the `while` loop, on fuel.
  unfoldable pub levels_above : ℕ → List (List ℕ) → Option (List (List (List ℕ)))
  levels_above zero current = none
  levels_above (suc fuel) current =
      let next_level = hash_pairs (padded current) in
      let above = levels_above fuel next_level in
      if ltb 1 (length current) then add_level next_level above else some []

  abbrev pub tree_of : Option (List (List (List ℕ))) → Option MerkleTree
  tree_of none = none
  tree_of (some levels) = some (record { levels = levels })

  unfoldable pub from_leaves : List (List ℕ) → Option MerkleTree
  from_leaves [] = some (record { levels = [] ∷ [] })
  from_leaves (leaf ∷ leaves) =
      let all = leaf ∷ leaves in tree_of (add_level all (levels_above (length all) all))

  abbrev pub climb : List ℕ → Bool × List ℕ → List ℕ
  climb current (true, sibling) = hash_pair current sibling
  climb current (false, sibling) = hash_pair sibling current

  unfoldable pub verify_proof : List ℕ → List ℕ → List (Bool × List ℕ) → Bool
  verify_proof root leaf proof = same_bytes (foldl climb leaf proof) root
