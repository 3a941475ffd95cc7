-- ===== src/Sync/Merkle/File.antt =====
-- crates/ahp-sync/src/merkle.rs: the tree of a file, from the whole of it and from slices of it.
pub mod Chunks
pub mod Slices
use favonius.Base.{
  ℕ, zero, suc, ◌+◌, ◌-◌, ◌*◌, ◌/◌, ◌%◌, min, Bool, true, false, List, [], ◌∷◌, ◌++◌, Option, none,
  some, ltb, leb, ◌==◌, if◌then◌else◌, length, take, drop, slice,
}
use favonius.Base.{Outcome, ok, err, panic, ◌>>=◌}
use favonius.Sync.Merkle.{Blake3, MerkleTree, from_leaves}

pub data SyncError : Type 0 where
  invalid_payload_size : ℕ → SyncError

-- `n.div_ceil(d)`
unfoldable pub div_ceil : ℕ → ℕ → ℕ
div_ceil n d = if n % d == 0 then n / d else n / d + 1

pub record FileMerkleBuilder : Type 0 where
  pub payload_size : ℕ
  pub leaves : List (List ℕ)
  pub partial : List ℕ

unfoldable pub new : ℕ → Outcome SyncError FileMerkleBuilder
new payload_size =
    if payload_size == 0
    then err (invalid_payload_size payload_size)
    else ok (record { payload_size = payload_size; leaves = []; partial = [] })

module _ ⦃blake3 : Blake3⦄ where
  -- The hashes of `count` chunks from chunk `ci` on.
  unfoldable pub hash_chunks : List ℕ → ℕ → ℕ → ℕ → Outcome SyncError (List (List ℕ))
  hash_chunks file_data payload_size ci zero = ok []
  hash_chunks file_data payload_size ci (suc count) =
      let rest = hash_chunks file_data payload_size (suc ci) count in
      let offset = ci * payload_size in
      let end = min (offset + payload_size) (length file_data) in
      do chunk ← slice file_data offset end; leaves ← rest; ok (blake3.hash chunk ∷ leaves)

  unfoldable pub try_build_file_merkle : List ℕ → ℕ → Outcome SyncError (Option MerkleTree)
  try_build_file_merkle file_data payload_size =
      if payload_size == 0 then err (invalid_payload_size payload_size) else do
        leaves ← hash_chunks file_data payload_size 0 (div_ceil (length file_data) payload_size)
        ok (from_leaves leaves)

  -- The carried chunk completed as far as the data goes, and the data that is left.
  unfoldable pub complete_partial : FileMerkleBuilder → List ℕ → FileMerkleBuilder × List ℕ
  complete_partial b data_in =
      let n = min (b.payload_size - length b.partial) (length data_in) in
      let partial = b.partial ++ take n data_in in
      let rest = drop n data_in in
      if length b.partial == 0
      then (b, data_in)
      else if length partial == b.payload_size
      then (record b { leaves = b.leaves ++ (blake3.hash partial ∷ []); partial = [] }, rest)
      else (record b { partial = partial }, rest)

  -- The `while` loop, on fuel: the leaves, and the data that is left.
  unfoldable pub hash_full : ℕ → ℕ → List (List ℕ) → List ℕ → Option (List (List ℕ) × List ℕ)
  hash_full zero payload_size leaves data_in =
      if leb payload_size (length data_in) then none else some (leaves, data_in)
  hash_full (suc fuel) payload_size leaves data_in =
      let rest =
        hash_full fuel payload_size (leaves ++ (blake3.hash (take payload_size data_in) ∷ []))
          (drop payload_size data_in) in
      if leb payload_size (length data_in) then rest else some (leaves, data_in)

  abbrev pub keep_rest :
      FileMerkleBuilder → Option (List (List ℕ) × List ℕ) → Option FileMerkleBuilder
  keep_rest b none = none
  keep_rest b (some (leaves, rest)) =
      some (record b { leaves = leaves; partial = b.partial ++ rest })

  unfoldable pub update : FileMerkleBuilder → List ℕ → Option FileMerkleBuilder
  update b data_in =
      let r = complete_partial b data_in in
      keep_rest r.0 (hash_full (length r.1) r.0.payload_size r.0.leaves r.1)

  unfoldable pub finish : FileMerkleBuilder → Option MerkleTree
  finish b =
      from_leaves
        (if length b.partial == 0 then b.leaves else b.leaves ++ (blake3.hash b.partial ∷ []))
