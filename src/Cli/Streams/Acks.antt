-- ===== src/Cli/Streams/Acks.antt =====
-- What the loops over packet numbers change of a stream.
use favonius.Base.{
  ℕ, zero, suc, ◌+◌, ◌-◌, ◌*◌, ◌<◌, max, ◌≡◌, refl, sym, ap, ◌∙◌, Bool, true, false, ◌&&◌, ◌||◌,
  List, [], ◌∷◌, Option, none, some, inl, inr, ltb, Bool-cases, length, drop, get_elem?, set,
  marked, count_marked, run_length, advance, length-set, count_marked-set, run_length-set,
  advance_resumes, test_bit, length-replicate, count_marked-replicate, run_length-replicate, arith,
}
use favonius.Cli.Streams.{StreamState, new, Progress, rtt_sample, wrapping_sub, bind, retransmitted}

-- The vectors have an entry for each chunk, the count is that of the marks, and the scan starts at the
-- first chunk that is not acknowledged.
pub record IsValid (s : StreamState) : Type 0 where
  pub size : length s.acked ≡ s.chunk_count
  pub sent_size : length s.sent_us ≡ s.chunk_count
  pub flags_size : length s.flags ≡ s.chunk_count
  pub counted : s.n_acked ≡ count_marked s.acked
  pub cursor : s.scan_cursor ≡ run_length s.acked

pub new-IsValid : (id base count : ℕ) → IsValid (new id base count)
new-IsValid id base count = record {
  size = length-replicate count false;
  sent_size = length-replicate {A = ℕ} count 0;
  flags_size = length-replicate {A = ℕ} count 0;
  counted = sym (count_marked-replicate count);
  cursor = sym (run_length-replicate count);
}

-- `n` chunks are newly acknowledged, the ones of `names` among them.
pub record Advances (wire_size : ℕ) (names : ℕ → Bool) (p p' : Progress) (n : ℕ) : Type 0 where
  pub valid : IsValid p'.stream
  pub same_base : p'.stream.chunk_base ≡ p.stream.chunk_base
  pub same_count : p'.stream.chunk_count ≡ p.stream.chunk_count
  pub same_applied : p'.stream.hc_applied ≡ p.stream.hc_applied
  pub counted : p'.stream.n_acked ≡ p.stream.n_acked + n
  pub reported : length p'.newly_acked ≡ length p.newly_acked + n
  pub released : p'.in_flight ≡ p.in_flight - wire_size * n
  pub marks :
      (j : ℕ)
      → marked p'.stream.acked j
        ≡ marked p.stream.acked j || (names j && ltb j p.stream.chunk_count)

abbrev pub Goes : ℕ → (ℕ → Bool) → Progress → Option Progress → Type 0
Goes wire_size names p result =
    (p' : Progress) × (n : ℕ) × (result ≡ some p') × Advances wire_size names p p' n

pub stays :
    (wire_size : ℕ) (names : ℕ → Bool) (p : Progress)
    → IsValid p.stream
    → ((j : ℕ) → names j ≡ true → j < p.stream.chunk_count → marked p.stream.acked j ≡ true)
    → Goes wire_size names p (some p)
stays wire_size names p v h = (
  p,
  0,
  refl,
  record {
    valid = v;
    same_base = refl;
    same_count = refl;
    same_applied = refl;
    counted = omega arith;
    reported = omega arith;
    released = omega arith;
    marks = λ j. ground (arith, h j);
  },
)

pub follows :
    (wire_size : ℕ) (names more all : ℕ → Bool) (p : Progress) (first : Option Progress)
    (rest : Progress → Option Progress)
    → Goes wire_size names p first
    → ((q : Progress)
        → IsValid q.stream
        → q.stream.chunk_base ≡ p.stream.chunk_base
        → q.stream.chunk_count ≡ p.stream.chunk_count
        → Goes wire_size more q (rest q))
    → ((j : ℕ) → j < p.stream.chunk_count → all j ≡ names j || more j)
    → Goes wire_size all p (bind first rest)
follows wire_size names more all p first rest (q, n, done, a) next e =
    let (r, m, done', b) = next q a.valid a.same_base a.same_count in
    (
      r,
      n + m,
      ap (λ (o : Option Progress). bind o rest) done ∙ done',
      record {
        valid = b.valid;
        same_base = b.same_base ∙ a.same_base;
        same_count = b.same_count ∙ a.same_count;
        same_applied = b.same_applied ∙ a.same_applied;
        counted = omega (arith, a.counted, b.counted);
        reported = omega (arith, a.reported, b.reported);
        released = grind (arith, a.released, b.released);
        marks = λ j. ground (arith, a.marks j, b.marks j, a.same_count, e j);
      },
    )

get_elem?-some {ℓ} :
    {A : Type ℓ} (xs : List A) (i : ℕ) → i < length xs → (a : A) × (get_elem? xs i ≡ some a)
get_elem?-some [] i h = elim h [ ]
get_elem?-some (x ∷ xs) zero h = (x, refl)
get_elem?-some (x ∷ xs) (suc i) h = get_elem?-some xs i (omega arith)

-- A sample is taken of any chunk that the stream has.
pub rtt_sample_lem :
    (s : StreamState) (local now_us : ℕ)
    → IsValid s
    → local < s.chunk_count
    → (rtt : Option ℕ) × (rtt_sample s local now_us ≡ some rtt)
unfolding rtt_sample
rtt_sample_lem s local now_us v h =
    let (f, pf) = get_elem?-some s.flags local (omega (arith, v.flags_size)) in
    let (t, pt) = get_elem?-some s.sent_us local (omega (arith, v.sent_size)) in
    rw (pf, pt)
      (elim (Bool-cases (test_bit f retransmitted)) [
        | inl again ↦ (none, rw again refl)
        | inr once ↦ (some (max (wrapping_sub 32 now_us t) 1), rw once refl)
      ])

-- The state after a chunk is newly acknowledged.
pub mark_acked-IsValid :
    (s : StreamState) (local : ℕ)
    → IsValid s
    → local < s.chunk_count
    → marked s.acked local ≡ false
    → IsValid (record s {
      acked = set s.acked local true;
      n_acked = s.n_acked + 1;
      scan_cursor = advance (drop s.scan_cursor (set s.acked local true)) s.scan_cursor;
    })
mark_acked-IsValid s local v h e = record {
  size = length-set s.acked local true ∙ v.size;
  sent_size = v.sent_size;
  flags_size = v.flags_size;
  counted =
      omega (arith, v.counted, v.size, count_marked-set s.acked local (omega (arith, v.size)) e);
  cursor =
      advance_resumes (set s.acked local true) s.scan_cursor
        (omega (arith, v.cursor, run_length-set s.acked local));
}
