-- ===== src/Cli/SyncPlan/Accounts.antt =====
-- Lemmas on the plan of crates/ahp-cli/src/sync_plan.rs: what it counts, and what it deletes.
use mathlib.Core.Path.{subst}
use favonius.Base.{
  ℕ, suc, ◌+◌, ◌≡◌, ◌↔◌, ◌⊎◌, refl, sym, ◌∙◌, true, false, List, [], ◌∷◌, Option, none, some, inl,
  inr, Bool-cases, get_elem?, length, length-append, same_bytes, same_bytes_sound,
  same_bytes_different, arith,
}
use favonius.Cli.SyncPlan.{
  flatten, create, update, TreeEntry, FsEntry, SyncMode, mirror, one_way, append_only, Compare,
  Plan, empty_plan, add_entry, add_entries, is_append_only, is_mirror, is_same, remote_by_path,
  has_path, before, insert, sort, absent_paths, plan,
}

abbrev pub accounted : Plan → ℕ
accounted p = length p.transfers + (p.unchanged + p.protected)

add_entry-accounted :
    (mode : SyncMode) (compare : Compare) (h : Option (List ℕ)) (entry : TreeEntry)
    (r : Option FsEntry) (out : Plan)
    → accounted (add_entry mode compare h entry r out) ≡ accounted out + 1
unfolding add_entry
add_entry-accounted mode compare h entry none out =
    omega (arith, length-append out.transfers (record { entry = entry; action = create } ∷ []))
add_entry-accounted mode compare h entry (some r) out = elim (Bool-cases (is_append_only mode)) [
  | inl left_alone ↦ rw left_alone (omega arith)
  | inr writes ↦ rw writes (elim (Bool-cases (is_same compare h entry r)) [
    | inl same ↦ rw same (omega arith)
    | inr changed ↦ rw changed (
        omega (arith, length-append out.transfers (record { entry = entry; action = update } ∷ [])))
  ])
]

add_entries-accounted :
    (remote : List FsEntry) (mode : SyncMode) (compare : Compare) (hashes : List (Option (List ℕ)))
    (i : ℕ) (local : List TreeEntry) (out : Plan)
    → accounted (add_entries remote mode compare hashes i local out) ≡ accounted out + length local
unfolding add_entries
add_entries-accounted remote mode compare hashes i [] out = omega arith
add_entries-accounted remote mode compare hashes i (e ∷ local) out =
    let h = flatten (get_elem? hashes i) in
    let r = remote_by_path remote e.rel in
    add_entries-accounted remote mode compare hashes (suc i) local
      (add_entry mode compare h e r out)
    ∙ omega (arith, add_entry-accounted mode compare h e r out)

-- Every local file is transferred, unchanged or protected, and no file is more than one of these.
pub plan-accounted :
    (local : List TreeEntry) (remote : List FsEntry) (mode : SyncMode) (compare : Compare)
    (hashes : List (Option (List ℕ)))
    → accounted (plan local remote mode compare hashes) ≡ length local
unfolding plan
plan-accounted local remote mode compare hashes =
    let all = add_entries-accounted remote mode compare hashes 0 local empty_plan in
    elim (Bool-cases (is_mirror mode)) [
      | inl m ↦ rw m (omega (arith, all))
      | inr other ↦ rw other (omega (arith, all))
    ]

abbrev pub IsAmong : List ℕ → List (List ℕ) → Type 0
IsAmong p [] = ⊥
IsAmong p (q ∷ qs) = (p ≡ q) ⊎ IsAmong p qs

insert-IsAmong :
    (p x : List ℕ) (ys : List (List ℕ)) → IsAmong p (insert x ys) ↔ ((p ≡ x) ⊎ IsAmong p ys)
insert-IsAmong p x [] = ground arith
insert-IsAmong p x (y ∷ ys) =
    let ih = insert-IsAmong p x ys in
    elim (Bool-cases (before x y)) [
      | inl first ↦ rw first (ground arith)
      | inr later ↦ rw later (ground (arith, ih))
    ]

sort-IsAmong : (p : List ℕ) (xs : List (List ℕ)) → IsAmong p (sort xs) ↔ IsAmong p xs
sort-IsAmong p [] = ground arith
sort-IsAmong p (x ∷ xs) =
    let ih = sort-IsAmong p xs in let one = insert-IsAmong p x (sort xs) in ground (arith, ih, one)

-- The path is one of the destination's, or one of the source's.
abbrev pub IsRemote : List ℕ → List FsEntry → Type 0
IsRemote p [] = ⊥
IsRemote p (r ∷ rs) = (p ≡ r.path) ⊎ IsRemote p rs

abbrev pub IsLocal : List ℕ → List TreeEntry → Type 0
IsLocal p [] = ⊥
IsLocal p (e ∷ es) = (p ≡ e.rel) ⊎ IsLocal p es

has_path-true : (es : List TreeEntry) (p : List ℕ) → has_path es p ≡ true → IsLocal p es
unfolding has_path
has_path-true [] p e = cc
has_path-true (x ∷ es) p e = elim (Bool-cases (same_bytes x.rel p)) [
  | inl here ↦ inl (sym (same_bytes_sound x.rel p here))
  | inr elsewhere ↦ inr (has_path-true es p (rw elsewhere at e))
]

has_path-false : (es : List TreeEntry) (p : List ℕ) → has_path es p ≡ false → IsLocal p es → ⊥
unfolding has_path
has_path-false [] p e q = q
has_path-false (x ∷ es) p e q = elim (Bool-cases (same_bytes x.rel p)) [
  | inl here ↦ absurd (cc (rw here at e))
  | inr elsewhere ↦ elim q [
    | inl same ↦ same_bytes_different x.rel p elsewhere (sym same)
    | inr more ↦ has_path-false es p (rw elsewhere at e) more
  ]
]

absent_paths-IsAmong :
    (local : List TreeEntry) (remote : List FsEntry) (p : List ℕ)
    → IsAmong p (absent_paths local remote) ↔ (IsRemote p remote × (IsLocal p local → ⊥))
unfolding absent_paths
absent_paths-IsAmong local [] p = (λ q. absurd q, λ q. q.0)
absent_paths-IsAmong local (r ∷ rs) p =
    let ih = absent_paths-IsAmong local rs p in
    elim (Bool-cases (has_path local r.path)) [
      | inl kept ↦ rw kept (
        λ q. (inr (ih.0 q).0, (ih.0 q).1),
        λ q. elim q.0 [
          | inl same ↦ absurd (
              q.1 (
                subst (λ (z : List ℕ). IsLocal z local) (sym same)
                  (has_path-true local r.path kept)))
          | inr more ↦ ih.1 (more, q.1)
        ],
      )
      | inr gone ↦ rw gone (
        λ q. elim q [
          | inl same ↦ (
            inl same,
            λ here.
                has_path-false local r.path gone
                  (subst (λ (z : List ℕ). IsLocal z local) same here),
          )
          | inr more ↦ (inr (ih.0 more).0, (ih.0 more).1)
        ],
        λ q. elim q.0 [ inl same ↦ inl same | inr more ↦ inr (ih.1 (more, q.1)) ],
      )
    ]

add_entry-deletes :
    (mode : SyncMode) (compare : Compare) (h : Option (List ℕ)) (entry : TreeEntry)
    (r : Option FsEntry) (out : Plan)
    → (add_entry mode compare h entry r out).deletes ≡ out.deletes
unfolding add_entry
add_entry-deletes mode compare h entry none out = refl
add_entry-deletes mode compare h entry (some r) out = elim (Bool-cases (is_append_only mode)) [
  | inl left_alone ↦ rw left_alone refl
  | inr writes ↦ rw writes (elim (Bool-cases (is_same compare h entry r)) [
    | inl same ↦ rw same refl
    | inr changed ↦ rw changed refl
  ])
]

add_entries-deletes :
    (remote : List FsEntry) (mode : SyncMode) (compare : Compare) (hashes : List (Option (List ℕ)))
    (i : ℕ) (local : List TreeEntry) (out : Plan)
    → (add_entries remote mode compare hashes i local out).deletes ≡ out.deletes
unfolding add_entries
add_entries-deletes remote mode compare hashes i [] out = refl
add_entries-deletes remote mode compare hashes i (e ∷ local) out =
    let h = flatten (get_elem? hashes i) in
    let r = remote_by_path remote e.rel in
    add_entries-deletes remote mode compare hashes (suc i) local (add_entry mode compare h e r out)
    ∙ add_entry-deletes mode compare h e r out

-- A path is to be deleted exactly when the mode is mirror, the destination lists it, and the source
-- has no file of that path: one-way and append-only delete nothing.
pub plan-deletes :
    (local : List TreeEntry) (remote : List FsEntry) (mode : SyncMode) (compare : Compare)
    (hashes : List (Option (List ℕ))) (p : List ℕ)
    → IsAmong p (plan local remote mode compare hashes).deletes
      ↔ ((mode ≡ mirror) × IsRemote p remote × (IsLocal p local → ⊥))
unfolding plan
plan-deletes local remote one_way compare hashes p =
    rw (add_entries-deletes remote one_way compare hashes 0 local empty_plan)
      (λ q. absurd q, λ q. absurd (cc (q.0)))
plan-deletes local remote append_only compare hashes p =
    rw (add_entries-deletes remote append_only compare hashes 0 local empty_plan)
      (λ q. absurd q, λ q. absurd (cc (q.0)))
plan-deletes local remote mirror compare hashes p =
    let sorted = sort-IsAmong p (absent_paths local remote) in
    let absent = absent_paths-IsAmong local remote p in
    rw (add_entries-deletes remote mirror compare hashes 0 local empty_plan) (
      λ q. (refl, (absent.0 (sorted.0 q)).0, (absent.0 (sorted.0 q)).1),
      λ q. sorted.1 (absent.1 (q.1, q.2)),
    )
