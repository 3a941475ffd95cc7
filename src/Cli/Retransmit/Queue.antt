-- ===== src/Cli/Retransmit/Queue.antt =====
-- The queue of a stream and the flags of its chunks.
use favonius.Base.{
  ℕ, zero, suc, ◌+◌, ◌≤◌, ◌<◌, ◌≡◌, refl, ap, ◌∙◌, Bool, true, false, ◌&&◌, ◌||◌, List, [], ◌∷◌,
  ◌++◌, some, inl, inr, ltb, ◌==◌, ==_iff, if◌then◌else◌, Bool-cases, length, get_elem?, set,
  replicate, marked, test_bit, set_bit, clear_bit, All, every, every_sound, test_bit-set_bit,
  set_bit-lt, arith,
}
use favonius.Cli.Streams.{StreamState, new, in_retx, retransmitted}
use favonius.Cli.Retransmit.{requeued}

abbrev pub times : ℕ → List ℕ → ℕ
times j [] = 0
times j (k ∷ ks) = (if j == k then 1 else 0) + times j ks

pub times-append : (j : ℕ) (xs ys : List ℕ) → times j (xs ++ ys) ≡ times j xs + times j ys
times-append j [] ys = omega arith
times-append j (x ∷ xs) ys = omega (arith, times-append j xs ys)

-- The entry of a chunk, where past the end there is 0.
abbrev pub entry : List ℕ → ℕ → ℕ
entry [] j = 0
entry (x ∷ xs) zero = x
entry (x ∷ xs) (suc j) = entry xs j

pub get_elem?-entry : (xs : List ℕ) (j : ℕ) → j < length xs → get_elem? xs j ≡ some (entry xs j)
get_elem?-entry [] j h = elim h [ ]
get_elem?-entry (x ∷ xs) zero h = refl
get_elem?-entry (x ∷ xs) (suc j) h = get_elem?-entry xs j (omega arith)

pub get_elem?-marked :
    (xs : List Bool) (j : ℕ) → j < length xs → get_elem? xs j ≡ some (marked xs j)
get_elem?-marked [] j h = elim h [ ]
get_elem?-marked (x ∷ xs) zero h = refl
get_elem?-marked (x ∷ xs) (suc j) h = get_elem?-marked xs j (omega arith)

pub entry-set :
    (xs : List ℕ) (i v j : ℕ)
    → i < length xs
    → entry (set xs i v) j ≡ (if j == i then v else entry xs j)
entry-set [] i v j h = elim h [ ]
entry-set (x ∷ xs) zero v zero h = refl
entry-set (x ∷ xs) zero v (suc j) h = ground arith
entry-set (x ∷ xs) (suc i) v zero h = ground arith
entry-set (x ∷ xs) (suc i) v (suc j) h = ground (arith, entry-set xs i v j)

pub entry_past : (xs : List ℕ) (j : ℕ) → length xs ≤ j → entry xs j ≡ 0
entry_past [] j h = refl
entry_past (x ∷ xs) zero h = absurd (omega arith)
entry_past (x ∷ xs) (suc j) h = entry_past xs j (omega arith)

pub entry-lt : (xs : List ℕ) (j : ℕ) → All (λ b. b < 256) xs → entry xs j < 256
entry-lt [] j h = omega arith
entry-lt (x ∷ xs) zero h = h.0
entry-lt (x ∷ xs) (suc j) h = entry-lt xs j h.1

pub set-lt :
    (xs : List ℕ) (i v : ℕ) → All (λ b. b < 256) xs → v < 256 → All (λ b. b < 256) (set xs i v)
set-lt [] i v h k = tt
set-lt (x ∷ xs) zero v h k = (k, h.1)
set-lt (x ∷ xs) (suc i) v h k = (h.0, set-lt xs i v h.1 k)

-- A chunk is in the queue once if its flag says so, and otherwise not at all. A chunk that is in the
-- queue counts as retransmitted.
pub record IsQueued (s : StreamState) : Type 0 where
  pub small : All (λ b. b < 256) s.flags
  pub queued :
      (j : ℕ) → times j s.retx_queue ≡ (if test_bit (entry s.flags j) in_retx then 1 else 0)
  pub ambiguous :
      (j : ℕ)
      → test_bit (entry s.flags j) in_retx ≡ true
      → test_bit (entry s.flags j) retransmitted ≡ true

pub queued_iff : (f : ℕ) → f < 256 → test_bit (requeued f) in_retx ≡ true
queued_iff f h =
    test_bit-set_bit (set_bit f 0) 1 0 (set_bit-lt f 0 h (omega arith)) (omega arith) (omega arith)
    ∙ ap (λ (b : Bool). b || false) (test_bit-set_bit f 0 0 h (omega arith) (omega arith))
    ∙ last (test_bit f 0)
  where
    last : (b : Bool) → (b || true) || false ≡ true
    last true = refl
    last false = refl

pub never_sampled : (f : ℕ) → f < 256 → test_bit (requeued f) retransmitted ≡ true
never_sampled f h =
    test_bit-set_bit (set_bit f 0) 1 1 (set_bit-lt f 0 h (omega arith)) (omega arith) (omega arith)
    ∙ last (test_bit (set_bit f 0) 1)
  where
    last : (b : Bool) → b || true ≡ true
    last true = refl
    last false = refl

pub requeued-lt : (f : ℕ) → f < 256 → requeued f < 256
requeued-lt f h = set_bit-lt (set_bit f 0) 1 (set_bit-lt f 0 h (omega arith)) (omega arith)

cleared_table :
    every 256 (λ b. ltb (clear_bit b 0) 256 && (if test_bit (clear_bit b 0) 0 then false else true))
    ≡ true
unfolding every clear_bit
cleared_table = refl

pub cleared :
    (f : ℕ)
    → f < 256
    → (clear_bit f in_retx < 256) × (test_bit (clear_bit f in_retx) in_retx ≡ false)
cleared f h =
    let row =
      every_sound 256
        (λ b. ltb (clear_bit b 0) 256 && (if test_bit (clear_bit b 0) 0 then false else true)) f
        cleared_table h in
    (ground arith, ground arith)

pub zero_flag : test_bit 0 0 ≡ false
unfolding test_bit
zero_flag = refl

no_flags : (n j : ℕ) → entry (replicate n 0) j ≡ 0
no_flags zero j = refl
no_flags (suc n) zero = refl
no_flags (suc n) (suc j) = no_flags n j

zeros : (n : ℕ) → All (λ b. b < 256) (replicate n 0)
zeros zero = tt
zeros (suc n) = (omega arith, zeros n)

pub new-IsQueued : (id base count : ℕ) → IsQueued (new id base count)
new-IsQueued id base count = record {
  small = zeros count;
  queued = λ j. rw (no_flags count j, zero_flag) refl;
  ambiguous = λ j e. absurd (cc (zero_flag, rw (no_flags count j) at e));
}

-- A chunk that is queued is not queued again, whichever end of the queue it goes to.
pub requeue-IsQueued :
    (s : StreamState) (li : ℕ) (queue : List ℕ)
    → IsQueued s
    → li < length s.flags
    → test_bit (entry s.flags li) in_retx ≡ false
    → ((j : ℕ) → times j queue ≡ (if j == li then 1 else 0) + times j s.retx_queue)
    → IsQueued
        (record s { retx_queue = queue; flags = set s.flags li (requeued (entry s.flags li)) })
requeue-IsQueued s li queue q h e once = record {
  small = set-lt s.flags li (requeued f) q.small (requeued-lt f small);
  queued = λ j.
      once j
      ∙ rw (entry-set s.flags li (requeued f) j h, q.queued j)
          (elim (Bool-cases (j == li)) [
            | inl same ↦ rw (same, queued_iff f small, (==_iff j li).0 same, e) refl
            | inr other ↦ rw other (omega arith)
          ]);
  ambiguous = λ j p. elim (Bool-cases (j == li)) [
    | inl same ↦ rw (entry-set s.flags li (requeued f) j h, same) (never_sampled f small)
    | inr other ↦
        rw (entry-set s.flags li (requeued f) j h, other)
          (q.ambiguous j (rw (entry-set s.flags li (requeued f) j h, other) at p))
  ];
}
  where
    f : ℕ
    f = entry s.flags li

    small : f < 256
    small = entry-lt s.flags li q.small
