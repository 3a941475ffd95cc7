-- ===== src/Cli/SyncPlan.antt =====
-- crates/ahp-cli/src/sync_plan.rs: which files to send and which to delete, from two listings. A
-- string is the list of its bytes. `SyncMode::parse` is not modelled.
pub mod Accounts
use favonius.Base.{
  ℕ, zero, suc, ◌+◌, Bool, true, false, ◌&&◌, List, [], ◌∷◌, ◌++◌, Option, none, some, ◌==◌,
  if◌then◌else◌, ltb, get_elem?, same_bytes,
}

-- i64
pub data ℤ : Type 0 where
  pos : ℕ → ℤ
  negsuc : ℕ → ℤ

pub record TreeEntry : Type 0 where
  pub abs : List ℕ
  pub rel : List ℕ
  pub size : ℕ
  pub mtime : ℤ

pub record FsEntry : Type 0 where
  pub path : List ℕ
  pub size : ℕ
  pub mtime : ℤ
  pub hash : Option (List ℕ)

pub data SyncMode : Type 0 where
  one_way mirror append_only : SyncMode

pub data Compare : Type 0 where
  by_size checksum : Compare

pub data Action : Type 0 where
  create update : Action

pub record PlannedTransfer : Type 0 where
  pub entry : TreeEntry
  pub action : Action

pub record Plan : Type 0 where
  pub transfers : List PlannedTransfer
  pub deletes : List (List ℕ)
  pub unchanged : ℕ
  pub protected : ℕ

abbrev pub empty_plan : Plan
empty_plan = record { transfers = []; deletes = []; unchanged = 0; protected = 0 }

abbrev pub is_append_only : SyncMode → Bool
is_append_only append_only = true
is_append_only one_way = false
is_append_only mirror = false

abbrev pub is_mirror : SyncMode → Bool
is_mirror mirror = true
is_mirror one_way = false
is_mirror append_only = false

abbrev pub or_else {ℓ} : {A : Type ℓ} → Option A → Option A → Option A
or_else none b = b
or_else (some a) b = some a

-- `remote_by_path.get(path)`: of two entries with one path the map keeps the later.
unfoldable pub remote_by_path : List FsEntry → List ℕ → Option FsEntry
remote_by_path [] path = none
remote_by_path (r ∷ rs) path =
    or_else (remote_by_path rs path) (if same_bytes r.path path then some r else none)

abbrev pub flatten {ℓ} : {A : Type ℓ} → Option (Option A) → Option A
flatten none = none
flatten (some a) = a

-- A hash that is missing on either side is read as different.
abbrev pub same_hash : Option (List ℕ) → Option (List ℕ) → Bool
same_hash none b = false
same_hash (some a) none = false
same_hash (some a) (some b) = same_bytes a b

unfoldable pub is_same : Compare → Option (List ℕ) → TreeEntry → FsEntry → Bool
is_same by_size local_hash entry r = entry.size == r.size
is_same checksum local_hash entry r = same_hash local_hash r.hash

abbrev pub push_transfer : Plan → TreeEntry → Action → Plan
push_transfer out entry action = record out {
  transfers = out.transfers ++ (record { entry = entry; action = action } ∷ []);
}

-- One turn of the loop over the local files.
unfoldable pub add_entry :
    SyncMode → Compare → Option (List ℕ) → TreeEntry → Option FsEntry → Plan → Plan
add_entry mode compare local_hash entry none out = push_transfer out entry create
add_entry mode compare local_hash entry (some r) out =
    if is_append_only mode
    then record out { protected = out.protected + 1 }
    else if is_same compare local_hash entry r
    then record out { unchanged = out.unchanged + 1 }
    else push_transfer out entry update

unfoldable pub add_entries :
    List FsEntry → SyncMode → Compare → List (Option (List ℕ)) → ℕ → List TreeEntry → Plan → Plan
add_entries remote mode compare local_hashes i [] out = out
add_entries remote mode compare local_hashes i (entry ∷ local) out =
    add_entries remote mode compare local_hashes (suc i) local (
      add_entry mode compare (flatten (get_elem? local_hashes i)) entry
        (remote_by_path remote entry.rel) out)

-- `local_paths.contains(path)`
unfoldable pub has_path : List TreeEntry → List ℕ → Bool
has_path [] path = false
has_path (e ∷ es) path = let rest = has_path es path in if same_bytes e.rel path then true else rest

-- The order of strings: byte by byte.
abbrev pub before : List ℕ → List ℕ → Bool
before [] ys = true
before (x ∷ xs) [] = false
before (x ∷ xs) (y ∷ ys) = let rest = before xs ys in if x == y then rest else ltb x y

abbrev pub insert : List ℕ → List (List ℕ) → List (List ℕ)
insert x [] = x ∷ []
insert x (y ∷ ys) = let rest = insert x ys in if before x y then x ∷ y ∷ ys else y ∷ rest

-- `sort()`
abbrev pub sort : List (List ℕ) → List (List ℕ)
sort [] = []
sort (x ∷ xs) = insert x (sort xs)

unfoldable pub absent_paths : List TreeEntry → List FsEntry → List (List ℕ)
absent_paths local [] = []
absent_paths local (r ∷ remote) =
    let rest = absent_paths local remote in if has_path local r.path then rest else r.path ∷ rest

unfoldable pub plan :
    List TreeEntry → List FsEntry → SyncMode → Compare → List (Option (List ℕ)) → Plan
plan local remote mode compare local_hashes =
    let out = add_entries remote mode compare local_hashes 0 local empty_plan in
    if is_mirror mode
    then record out { deletes = sort (out.deletes ++ absent_paths local remote) }
    else out
