-- ===== src/Sync/Merkle/Proofs.antt =====
-- The proofs of the leaves of a tree, and their verification.
use mathlib.Core.List.{foldl}
use favonius.Base.{
  lt→leb_false, ℕ, zero, suc, ◌+◌, ◌-◌, ◌/◌, ◌%◌, ◌<◌, ◌≤◌, ◌≡◌, refl, sym, ap, ◌∙◌, Bool, true,
  false, List, [], ◌∷◌, Option, some, ◌==◌, ==_iff, ==_false→ne, ltb, lt→ltb, ltb→lt, ltb_false→le,
  Bool-cases, inl, inr, length, take, get_elem?, same_bytes_refl, arith,
}
use favonius.Base.{ok}
use favonius.Sync.Merkle.{
  Blake3, MerkleTree, padded, hash_pairs, levels_above, from_leaves, last, first_or_zero, root,
  proof_from, proof, climb, verify_proof, add_level, tree_of,
}
use favonius.Sync.Merkle.Lists.{
  double, double_lem, get_elem?-lt, get_elem?-some, padded-get, length-padded, hash_pairs-get,
  length-hash_pairs,
}

one_less : (n : ℕ) → suc n - 1 ≡ n
one_less n = omega arith

only :
    (current : List (List ℕ)) (i : ℕ) (h : List ℕ)
    → length current ≤ 1
    → get_elem? current i ≡ some h
    → h ≡ first_or_zero (some current)
only [] i h p e = cc
only (x ∷ []) zero h p e = cc
only (x ∷ []) (suc i) h p e = cc
only (x ∷ y ∷ xs) i h p e = absurd (omega arith)

module _ ⦃blake3 : Blake3⦄ where
  length-next :
      (current : List (List ℕ)) → length (hash_pairs (padded current)) ≡ (length current + 1) / 2
  length-next current =
      length-hash_pairs (padded current) ((length current + 1) / 2) (length-padded current)

module _ (E : Type 0) ⦃blake3 : Blake3⦄ where
  -- The levels above `current`, and a path from its element `i` up to the root.
  record PathUp (fuel : ℕ) (current : List (List ℕ)) (i : ℕ) (h : List ℕ) : Type 0 where
    above : List (List (List ℕ))
    built : levels_above fuel current ≡ some above
    steps : List (Bool × List ℕ)
    proved : proof_from {E = E} (take (length above) (current ∷ above)) i ≡ ok steps
    climbs : foldl climb h steps ≡ first_or_zero (last (current ∷ above))

  -- The step to the next level, from either side of a pair.
  record Step (current : List (List ℕ)) (i : ℕ) (h : List ℕ) : Type 0 where
    step : Bool × List ℕ
    parent : get_elem? (hash_pairs (padded current)) (i / 2) ≡ some (climb h step)
    taken :
        (levels : List (List (List ℕ))) (rest : List (Bool × List ℕ))
        → proof_from {E = E} levels (i / 2) ≡ ok rest
        → proof_from {E = E} (current ∷ levels) i ≡ ok (step ∷ rest)

  climb_one :
      (current : List (List ℕ)) (i : ℕ) (h : List ℕ)
      → 1 < length current
      → get_elem? current i ≡ some h
      → Step current i h
  unfolding proof_from
  climb_one current i h more e = elim (Bool-cases (i % 2 == 0)) [
    | inl left ↦
        let at : i ≡ double (i / 2) =
          omega (arith, double_lem (i / 2), (==_iff (i % 2) 0).0 left) in
        let room : i + 1 < length (padded current) =
          omega
            (arith, length-padded current, get_elem?-lt current i h e, (==_iff (i % 2) 0).0 left) in
        let (s, q) = get_elem?-some (padded current) (i + 1) room in
        record {
          step = (true, s);
          parent =
              hash_pairs-get (padded current) (i / 2) h s
                (ap (get_elem? (padded current)) (sym at) ∙ padded-get current i h e)
                (ap (get_elem? (padded current)) (omega (arith, at)) ∙ q);
          taken = λ levels rest r. rw (left, lt→ltb (i + 1) (length (padded current)) room, q, r);
        }
    | inr right ↦
        let odd = ==_false→ne (i % 2) 0 right in
        let at : i ≡ suc (double (i / 2)) = omega (arith, double_lem (i / 2), odd) in
        let room : i - 1 < length (padded current) =
          omega (arith, length-padded current, get_elem?-lt current i h e) in
        let (s, q) = get_elem?-some (padded current) (i - 1) room in
        record {
          step = (false, s);
          parent =
              hash_pairs-get (padded current) (i / 2) s h
                (ap (get_elem? (padded current)) (omega (arith, at)) ∙ q)
                (ap (get_elem? (padded current)) (sym at) ∙ padded-get current i h e);
          taken = λ levels rest r. rw (right, q, r);
        }
  ]

  path_up :
      (fuel : ℕ) (current : List (List ℕ)) (i : ℕ) (h : List ℕ)
      → length current ≤ fuel
      → get_elem? current i ≡ some h
      → PathUp fuel current i h
  unfolding levels_above
  path_up zero current i h p e = absurd (omega (arith, get_elem?-lt current i h e))
  path_up (suc fuel) current i h p e = elim (Bool-cases (ltb 1 (length current))) [
    | inl more ↦
        let s = climb_one current i h (ltb→lt 1 (length current) more) e in
        let next : List (List ℕ) = hash_pairs (padded current) in
        let up =
          path_up fuel next (i / 2) (climb h s.step)
            (omega (arith, length-next current, ltb→lt 1 (length current) more)) s.parent in
        record {
          above = next ∷ up.above;
          built = rw (more, up.built);
          steps = s.step ∷ up.steps;
          proved = s.taken (take (length up.above) (next ∷ up.above)) up.steps up.proved;
          climbs = up.climbs;
        }
    | inr root_only ↦
        let one = ltb_false→le 1 (length current) root_only in
        record {
          above = [];
          built = rw root_only refl;
          steps = [];
          proved = unfold proof_from in refl;
          climbs = only current i h one e;
        }
  ]

module _ ⦃blake3 : Blake3⦄ where
  abbrev of_levels : List (List (List ℕ)) → MerkleTree
  of_levels levels = record { levels = levels }

  -- A tree is built from any leaves (the loop ends within its fuel); for each leaf that they have, the
  -- proof of its index is found without a panic, and it is accepted for the leaf and the root.
  pub verify_proof-proof :
      {E : Type 0} (leaves : List (List ℕ)) (i : ℕ) (leaf : List ℕ)
      → get_elem? leaves i ≡ some leaf
      → (t : MerkleTree) × (from_leaves leaves ≡ some t)
        × (p : List (Bool × List ℕ)) × (proof {E = E} t i ≡ ok p)
        × (verify_proof (root t) leaf p ≡ true)
  unfolding from_leaves proof verify_proof levels_above
  verify_proof-proof [] i leaf e = absurd (cc)
  verify_proof-proof (x ∷ []) i leaf e = (
    of_levels ((x ∷ []) ∷ []),
    refl,
    [],
    refl,
    rw (only (x ∷ []) i leaf (omega arith) e) (same_bytes_refl x),
  )
  verify_proof-proof {E = E} (x ∷ y ∷ xs) i leaf e =
      let leaves : List (List ℕ) = x ∷ y ∷ xs in
      let up = path_up E (length leaves) leaves i leaf (omega arith) e in
      (
        of_levels (leaves ∷ up.above),
        ap (λ (r : Option (List (List (List ℕ)))). tree_of (add_level leaves r)) up.built,
        up.steps,
        rw (lt→leb_false (length leaves) 1 (omega arith), one_less (length up.above)) up.proved,
        rw up.climbs (same_bytes_refl (root (of_levels (leaves ∷ up.above)))),
      )

-- The loop of `from_leaves` ends within its fuel.
pub from_leaves_total :
    ⦃blake3 : Blake3⦄ → (leaves : List (List ℕ)) → (t : MerkleTree) × (from_leaves leaves ≡ some t)
unfolding from_leaves
from_leaves_total [] = (record { levels = [] ∷ [] }, refl)
from_leaves_total (x ∷ xs) =
    let r = verify_proof-proof {E = Unit {0}} (x ∷ xs) 0 x refl in (r.0, r.1)
