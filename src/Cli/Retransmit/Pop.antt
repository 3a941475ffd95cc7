-- ===== src/Cli/Retransmit/Pop.antt =====
-- The first chunk of the queue is taken off it.
use favonius.Base.{
  ℕ, ◌+◌, ◌<◌, ◌≡◌, refl, ap, ◌∙◌, true, false, List, [], ◌∷◌, inl, inr, ltb, ◌==◌, ==_iff,
  if◌then◌else◌, Bool-cases, length, set, length-set, marked, test_bit, clear_bit, ltb→lt,
  ltb_false→le, arith,
}
use favonius.Cli.Streams.{StreamState, in_retx}
use favonius.Cli.Streams.Acks.{IsValid}
use favonius.Cli.Retransmit.Queue.{
  times, entry, entry-set, entry-lt, set-lt, entry_past, zero_flag, IsQueued, cleared,
}
use favonius.Cli.Retransmit.Turns.{turns, PassesOver}

-- A chunk in the queue is one of the stream's.
in_queue-lt : (s : StreamState) (j : ℕ) → IsQueued s → 0 < times j s.retx_queue → j < length s.flags
in_queue-lt s j q h = elim (Bool-cases (ltb j (length s.flags))) [
  | inl within ↦ ltb→lt j (length s.flags) within
  | inr past ↦
      let none_set =
        ap (λ (f : ℕ). test_bit f in_retx)
          (entry_past s.flags j (ltb_false→le j (length s.flags) past))
        ∙ zero_flag in
      absurd (ground (arith, q.queued j))
]

-- The state when the first chunk of the queue is taken off it.
abbrev pub popped : StreamState → ℕ → List ℕ → StreamState
popped s retx queue = record s {
  retx_queue = queue;
  flags = set s.flags retx (clear_bit (entry s.flags retx) in_retx);
}

pub popped-IsValid :
    (s : StreamState) (retx : ℕ) (queue : List ℕ) → IsValid s → IsValid (popped s retx queue)
popped-IsValid s retx queue v = record {
  size = v.size;
  sent_size = v.sent_size;
  flags_size = length-set s.flags retx (clear_bit (entry s.flags retx) in_retx) ∙ v.flags_size;
  counted = v.counted;
  cursor = v.cursor;
}

module _ (s : StreamState) (retx : ℕ) (queue : List ℕ) (e : s.retx_queue ≡ retx ∷ queue)
    (q : IsQueued s) where
  pub count : (j : ℕ) → times j s.retx_queue ≡ (if j == retx then 1 else 0) + times j queue
  count j = ap (times j) e

  pub pop_within : retx < length s.flags
  pop_within = in_queue-lt s retx q (ground (arith, count retx))

  pub popped-IsQueued : IsQueued (popped s retx queue)
  popped-IsQueued =
      let off = cleared (entry s.flags retx) (entry-lt s.flags retx q.small) in
      record {
        small = set-lt s.flags retx (clear_bit (entry s.flags retx) in_retx) q.small off.0;
        queued = λ j.
            rw (entry-set s.flags retx (clear_bit (entry s.flags retx) in_retx) j pop_within)
              (elim (Bool-cases (j == retx)) [
                | inl same ↦ rw (same, off.1) (ground (arith, count j, q.queued j))
                | inr other ↦ rw other (omega (arith, count_other j other, q.queued j))
              ]);
        ambiguous = λ j p. elim (Bool-cases (j == retx)) [
          | inl same ↦ absurd (
              cc (
                off.1,
                rw
                    (
                      entry-set s.flags retx (clear_bit (entry s.flags retx) in_retx) j pop_within,
                      same,
                    )
                    at p,
              ))
          | inr other ↦
              rw
                (
                  entry-set s.flags retx (clear_bit (entry s.flags retx) in_retx) j pop_within,
                  other,
                )
                (q.ambiguous j (
                  rw
                    (
                      entry-set s.flags retx (clear_bit (entry s.flags retx) in_retx) j pop_within,
                      other,
                    )
                    at p))
        ];
      }
    where
      count_other : (j : ℕ) → (j == retx) ≡ false → times j s.retx_queue ≡ times j queue
      count_other j other = ground (arith, count j)

  pub taken_once : times retx queue ≡ 0
  taken_once = ground (arith, count retx, q.queued retx)

  pub popped-turns :
      (j : ℕ) → turns s j ≡ turns (popped s retx queue) j + (if j == retx then 1 else 0)
  popped-turns j = omega (arith, count j)

  pub popped-PassesOver : marked s.acked retx ≡ true → PassesOver s (popped s retx queue)
  popped-PassesOver acked = record {
    same_acked = refl;
    same_count = refl;
    fewer = λ j. ground (arith, count j);
    onwards = omega arith;
    queue_first = λ j h. refl;
    same_turns = λ j o. elim (Bool-cases (j == retx)) [
      | inl same ↦ absurd (cc (acked, o.1, ap (marked s.acked) ((==_iff j retx).0 same)))
      | inr other ↦ ground (arith, count j)
    ];
  }

pub cleared_queue-IsValid : (s : StreamState) → IsValid s → IsValid (record s { retx_queue = [] })
cleared_queue-IsValid s v = record {
  size = v.size;
  sent_size = v.sent_size;
  flags_size = v.flags_size;
  counted = v.counted;
  cursor = v.cursor;
}
