-- ===== src/Examples/Plans.antt =====
-- Sync plans, run.
use favonius.Base.{◌≡◌, ◌↔◌, refl, List, [], ◌∷◌, none}
use favonius.Cli.SyncPlan.{
  pos, TreeEntry, FsEntry, mirror, by_size, plan, add_entries, add_entry, remote_by_path, is_same,
  has_path, absent_paths,
}
use favonius.Cli.SyncPlan.Accounts.{IsAmong, IsRemote, IsLocal, plan-deletes}

abbrev local : List TreeEntry
local =
    record { abs = 0x2F ∷ 0x61 ∷ []; rel = 0x61 ∷ []; size = 10; mtime = pos 5 }
    ∷ record { abs = 0x2F ∷ 0x62 ∷ []; rel = 0x62 ∷ []; size = 20; mtime = pos 5 }
    ∷ []

abbrev remote : List FsEntry
remote =
    record { path = 0x7A ∷ []; size = 1; mtime = pos 5; hash = none }
    ∷ record { path = 0x61 ∷ []; size = 10; mtime = pos 9; hash = none }
    ∷ record { path = 0x63 ∷ []; size = 1; mtime = pos 5; hash = none }
    ∷ []

plan-deletes_example :
    IsAmong (0x63 ∷ []) (plan local remote mirror by_size []).deletes
    ↔ ((mirror ≡ mirror) × IsRemote (0x63 ∷ []) remote × (IsLocal (0x63 ∷ []) local → ⊥))
plan-deletes_example = plan-deletes local remote mirror by_size [] (0x63 ∷ [])

deletes_in_order : (plan local remote mirror by_size []).deletes ≡ (0x63 ∷ []) ∷ (0x7A ∷ []) ∷ []
unfolding plan add_entries add_entry remote_by_path is_same has_path absent_paths
deletes_in_order = refl
