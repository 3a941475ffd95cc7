-- ===== src/Examples/Trees.antt =====
-- Merkle trees, run with a function in place of BLAKE3.
use favonius.Base.{ℕ, ◌≡◌, ◌⊎◌, refl, true, Bool, List, [], ◌∷◌, some, arith, ok}
use favonius.Sync.Merkle.{Blake3, MerkleTree, from_leaves, proof, root, verify_proof, hash_pair}
use favonius.Sync.Merkle.Proofs.{verify_proof-proof}
use favonius.Sync.Merkle.Binding.{Collision, verify_proof_binds}
use favonius.Sync.Merkle.File.{SyncError, try_build_file_merkle}
use favonius.Sync.Merkle.File.Chunks.{joined}
use favonius.Sync.Merkle.File.Slices.{tree_of_slices, tree_of_slices-try_build_file_merkle}

-- A hash of one byte more than its input: no two inputs collide.
instance abbrev tagged_hash : Blake3
tagged_hash = record { hash = λ bytes. 0x1F ∷ bytes }

abbrev leaves : List (List ℕ)
leaves = (1 ∷ []) ∷ (2 ∷ []) ∷ (3 ∷ []) ∷ []

verify_proof-proof_example :
    (t : MerkleTree) × (from_leaves leaves ≡ some t)
    × (p : List (Bool × List ℕ)) × (proof {E = SyncError} t 2 ≡ ok p)
    × (verify_proof (root t) (3 ∷ []) p ≡ true)
verify_proof-proof_example = verify_proof-proof leaves 2 (3 ∷ []) refl

abbrev leaf : List ℕ
leaf = 1 ∷ []

abbrev path : List (Bool × List ℕ)
path = (true, 2 ∷ []) ∷ []

verify_proof_binds_example : (leaf ≡ leaf) ⊎ Collision
unfolding verify_proof
verify_proof_binds_example = verify_proof_binds (hash_pair leaf (2 ∷ [])) leaf leaf path refl refl

abbrev slices : List (List ℕ)
slices = (1 ∷ 2 ∷ 3 ∷ []) ∷ [] ∷ (4 ∷ []) ∷ (5 ∷ 6 ∷ 7 ∷ 8 ∷ 9 ∷ []) ∷ []

tree_of_slices-try_build_file_merkle_example :
    (t : MerkleTree) × (tree_of_slices 4 slices ≡ ok (some t))
    × (try_build_file_merkle (joined slices) 4 ≡ ok (some t))
tree_of_slices-try_build_file_merkle_example =
    tree_of_slices-try_build_file_merkle 4 slices (omega arith)
