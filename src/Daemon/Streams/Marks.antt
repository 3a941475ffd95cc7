-- ===== src/Daemon/Streams/Marks.antt =====
-- The marks of one stream: `mark_received`, and what a resumed transfer marks.
use mathlib.Core.Option
use favonius.Base.{
  ℕ, zero, suc, ◌+◌, ◌<◌, ◌≡◌, refl, sym, ap, ◌∙◌, Bool, true, false, ◌&&◌, ◌||◌, List, [], ◌∷◌,
  Option, some, inl, inr, ltb, ◌==◌, ==_iff, lt→ltb, Bool-cases, length, drop, get_elem?, set,
  marked, count_marked, run_length, advance, length-set, marked-set, count_marked-set,
  count_marked-replicate, run_length-set, run_length-replicate, advance_resumes, length-replicate,
  bit, arith,
}
use favonius.Daemon.Streams.{
  StreamRecvState, new, mark_received, mark_once, mark_unless, mark_bits, resume_stream,
}

-- The count and the contiguous prefix are those of the marks.
pub record IsValid (s : StreamRecvState) : Type 0 where
  pub size : length s.received ≡ s.chunk_count
  pub counted : s.n_received ≡ count_marked s.received
  pub frontier : s.contig_prefix ≡ run_length s.received

pub new-IsValid : (base count : ℕ) → IsValid (new base count)
new-IsValid base count = record {
  size = length-replicate count false;
  counted = sym (count_marked-replicate count);
  frontier = sym (run_length-replicate count);
}

-- A stream of the same chunks, with `n` more marks.
pub record Follows (s s' : StreamRecvState) (n : ℕ) : Type 0 where
  pub valid : IsValid s'
  pub same_base : s'.chunk_base ≡ s.chunk_base
  pub same_count : s'.chunk_count ≡ s.chunk_count
  pub grown : s'.n_received ≡ s.n_received + n

pub record Marked (s : StreamRecvState) (local n : ℕ) (result : Option (StreamRecvState × ℕ))
    : Type 0 where
  pub after : StreamRecvState
  pub done : result ≡ some (after, n)
  pub follows : Follows s after n
  pub marks : (j : ℕ) → marked after.received j ≡ marked s.received j || (j == local)

pub record Received (s : StreamRecvState) (local : ℕ) : Type 0 where
  pub after : StreamRecvState
  pub done : mark_received s local ≡ some after
  pub follows : Follows s after 1
  pub marks : (j : ℕ) → marked after.received j ≡ marked s.received j || (j == local)

-- Marking a chunk that the stream has and that is not marked yet does not panic, keeps the count and
-- the contiguous prefix those of the marks, counts one chunk more and marks no other.
pub mark_received_lem :
    (s : StreamRecvState) (local : ℕ)
    → IsValid s
    → local < s.chunk_count
    → marked s.received local ≡ false
    → Received s local
unfolding mark_received
mark_received_lem s local v h e = record {
  after = record s {
    received = set s.received local true;
    n_received = s.n_received + 1;
    contig_prefix = advance (drop s.contig_prefix (set s.received local true)) s.contig_prefix;
  };
  done = rw (lt→ltb local (length s.received) within);
  follows = record {
    valid = record {
      size = length-set s.received local true ∙ v.size;
      counted = omega (arith, v.counted, count_marked-set s.received local within e);
      frontier =
          advance_resumes (set s.received local true) s.contig_prefix
            (omega (arith, v.frontier, run_length-set s.received local));
    };
    same_base = refl;
    same_count = refl;
    grown = refl;
  };
  marks = λ j. marked-set s.received local j within;
}
  where
    within : local < length s.received
    within = omega (arith, v.size, h)

get_elem?-marked : (xs : List Bool) (i : ℕ) → i < length xs → get_elem? xs i ≡ some (marked xs i)
get_elem?-marked [] i h = elim h [ ]
get_elem?-marked (x ∷ xs) zero h = refl
get_elem?-marked (x ∷ xs) (suc i) h = get_elem?-marked xs i (omega arith)

already :
    (xs : List Bool) (j local : ℕ)
    → marked xs local ≡ true
    → marked xs j ≡ marked xs j || (j == local)
already xs j local e = elim (Bool-cases (j == local)) [
  | inl same ↦ ground (arith, ap (marked xs) ((==_iff j local).0 same))
  | inr other ↦ rw other (ground arith)
]

-- A chunk that is marked already is not counted again.
pub mark_once-marked :
    (s : StreamRecvState) (local : ℕ)
    → IsValid s
    → local < s.chunk_count
    → marked s.received local ≡ true
    → Marked s local 0 (mark_once s local)
unfolding mark_once
mark_once-marked s local v h e = record {
  after = s;
  done =
      ap (λ (m : Option Bool). mark_unless m s local)
        (get_elem?-marked s.received local (omega (arith, v.size)) ∙ ap some e);
  follows = record { valid = v; same_base = refl; same_count = refl; grown = omega arith };
  marks = λ j. already s.received j local e;
}

pub mark_once-unmarked :
    (s : StreamRecvState) (local : ℕ)
    → IsValid s
    → local < s.chunk_count
    → marked s.received local ≡ false
    → Marked s local 1 (mark_once s local)
mark_once-unmarked s local v h e =
    let r = mark_received_lem s local v h e in
    record {
      after = r.after;
      done =
          unfold mark_once in
          ap (λ (m : Option Bool). mark_unless m s local)
            (get_elem?-marked s.received local (omega (arith, v.size)) ∙ ap some e)
          ∙ ap (Option.map (λ (t : StreamRecvState). (t, 1))) r.done;
      follows = r.follows;
      marks = r.marks;
    }

-- A bitmap over a stream that has nothing yet: the marks are its bits.
mark_bits_lem :
    (rs : List Bool) (global : ℕ) (bitmap : List ℕ) (j : ℕ)
    → marked (mark_bits rs global bitmap).0 j
      ≡ marked rs j || (bit bitmap (global + j) && ltb j (length rs))
unfolding mark_bits
mark_bits_lem [] global bitmap j = ground arith
mark_bits_lem (r ∷ rs) global bitmap zero = elim (Bool-cases (bit bitmap global)) [
  | inl named ↦ rw (named, ap (bit bitmap) (plus_zero global) ∙ named) (ground arith)
  | inr other ↦ rw (other, ap (bit bitmap) (plus_zero global) ∙ other) (ground arith)
]
  where
    plus_zero : (n : ℕ) → n + 0 ≡ n
    plus_zero n = omega arith
mark_bits_lem (r ∷ rs) global bitmap (suc j) =
    let ih = mark_bits_lem rs (global + 1) bitmap j in
    elim (Bool-cases (bit bitmap global)) [
      | inl named ↦ rw named (ih ∙ ground (arith, moved))
      | inr other ↦ rw other (ih ∙ ground (arith, moved))
    ]
  where
    moved : bit bitmap (global + 1 + j) ≡ bit bitmap (global + suc j)
    moved = ap (bit bitmap) (omega arith)

mark_bits_count :
    (rs : List Bool) (global : ℕ) (bitmap : List ℕ)
    → count_marked rs ≡ 0
    → count_marked (mark_bits rs global bitmap).0 ≡ (mark_bits rs global bitmap).1
unfolding mark_bits
mark_bits_count [] global bitmap e = refl
mark_bits_count (true ∷ rs) global bitmap e = absurd (omega arith)
mark_bits_count (false ∷ rs) global bitmap e =
    let ih = mark_bits_count rs (global + 1) bitmap e in
    elim (Bool-cases (bit bitmap global)) [
      | inl named ↦ rw named (omega (arith, ih))
      | inr other ↦ rw other ih
    ]

length-mark_bits :
    (rs : List Bool) (global : ℕ) (bitmap : List ℕ)
    → length (mark_bits rs global bitmap).0 ≡ length rs
unfolding mark_bits
length-mark_bits [] global bitmap = refl
length-mark_bits (r ∷ rs) global bitmap =
    let ih = length-mark_bits rs (global + 1) bitmap in
    elim (Bool-cases (bit bitmap global)) [
      | inl named ↦ rw named (ap suc ih)
      | inr other ↦ rw other (ap suc ih)
    ]

run_of_none : (rs : List Bool) → count_marked rs ≡ 0 → run_length rs ≡ 0
run_of_none [] e = refl
run_of_none (true ∷ rs) e = absurd (omega arith)
run_of_none (false ∷ rs) e = refl

pub record Resumed (s : StreamRecvState) (bitmap : List ℕ) : Type 0 where
  pub follows : Follows s (resume_stream s bitmap).0 (resume_stream s bitmap).1
  pub marks :
      (j : ℕ)
      → marked (resume_stream s bitmap).0.received j
        ≡ (bit bitmap (s.chunk_base + j) && ltb j s.chunk_count)

pub none_marked : (rs : List Bool) → count_marked rs ≡ 0 → (j : ℕ) → marked rs j ≡ false
none_marked [] e j = refl
none_marked (true ∷ rs) e j = absurd (omega arith)
none_marked (false ∷ rs) e zero = refl
none_marked (false ∷ rs) e (suc j) = none_marked rs e j

-- A resumed transfer marks, of a stream that has nothing yet, the chunks that the bitmap names by their
-- numbers in the file, and its count and contiguous prefix are those of the marks.
pub resume_stream_lem :
    (s : StreamRecvState) (bitmap : List ℕ) → IsValid s → s.n_received ≡ 0 → Resumed s bitmap
unfolding resume_stream
resume_stream_lem s bitmap v e = record {
  follows = record {
    valid = record {
      size = length-mark_bits s.received s.chunk_base bitmap ∙ v.size;
      counted = omega (arith, mark_bits_count s.received s.chunk_base bitmap fresh);
      frontier =
          advance_resumes (mark_bits s.received s.chunk_base bitmap).0 s.contig_prefix
            (omega (arith, v.frontier, run_of_none s.received fresh));
    };
    same_base = refl;
    same_count = refl;
    grown = refl;
  };
  marks = λ j.
      mark_bits_lem s.received s.chunk_base bitmap j ∙ rw (none_marked s.received fresh j, v.size);
}
  where
    fresh : count_marked s.received ≡ 0
    fresh = omega (arith, v.counted)
