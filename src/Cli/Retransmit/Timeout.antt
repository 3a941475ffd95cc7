-- ===== src/Cli/Retransmit/Timeout.antt =====
-- Which chunks a timeout queues.
use mathlib.Core.Path.{subst}
use favonius.Base.{
  ℕ, zero, suc, ◌+◌, ◌-◌, ◌≤◌, ◌<◌, min, ◌≡◌, refl, sym, ap, ap₂, ◌∙◌, Bool, false, not, ◌&&◌, List,
  [], ◌∷◌, ◌++◌, append-nil, append_assoc, map, Option, some, inl, inr, ltb, ◌==◌, if◌then◌else◌,
  Bool-cases, length, set, length-set, marked, run_length, marked_in_run, test_bit, arith,
}
use favonius.Cli.Streams.{StreamState, in_retx, wrapping_sub}
use favonius.Cli.Streams.Acks.{IsValid}
use favonius.Cli.Retransmit.{
  Losses, requeued, push_back, time_out, time_out_all, queue_timed_out, to_global,
}
use favonius.Cli.Retransmit.Queue.{
  times-append, entry, entry-set, get_elem?-entry, get_elem?-marked, IsQueued, requeue-IsQueued,
}

-- A chunk that is not acknowledged, not queued, and was sent more than the timeout ago.
abbrev pub is_due : StreamState → ℕ → ℕ → ℕ → Bool
is_due s now_us retx_timeout_us li =
    not (marked s.acked li)
    && (not (test_bit (entry s.flags li) in_retx)
        && ltb retx_timeout_us (wrapping_sub 32 now_us (entry s.sent_us li)))

-- The chunks that are due, of `rounds` from `li` on, in order.
abbrev pub due : StreamState → ℕ → ℕ → ℕ → ℕ → List ℕ
due s now_us retx_timeout_us zero li = []
due s now_us retx_timeout_us (suc rounds) li =
    let rest = due s now_us retx_timeout_us rounds (li + 1) in
    if is_due s now_us retx_timeout_us li then li ∷ rest else rest

time_out-due :
    (now_us retx_timeout_us li : ℕ) (s : StreamState) (lost : List ℕ)
    → IsValid s
    → li < s.chunk_count
    → time_out now_us retx_timeout_us li (s, lost)
      ≡ some (
          if is_due s now_us retx_timeout_us li
          then push_back li (entry s.flags li) (s, lost)
          else (s, lost))
unfolding time_out
time_out-due now_us retx_timeout_us li s lost v h =
    rw
      (
        get_elem?-marked s.acked li (omega (arith, v.size)),
        get_elem?-entry s.flags li (omega (arith, v.flags_size)),
        get_elem?-entry s.sent_us li (omega (arith, v.sent_size)),
      )
      (elim (Bool-cases (marked s.acked li)) [
        | inl acked ↦ rw acked refl
        | inr open_chunk ↦ rw open_chunk (elim (Bool-cases (test_bit (entry s.flags li) in_retx)) [
          | inl waiting ↦ rw waiting refl
          | inr idle ↦
              rw idle
                (elim (Bool-cases
                  (ltb retx_timeout_us (wrapping_sub 32 now_us (entry s.sent_us li)))) [
                    | inl old ↦ rw old refl
                    | inr young ↦ rw young refl
                  ])
        ])
      ])

-- Queueing a chunk leaves those behind it as they were.
due_later :
    (s : StreamState) (now_us retx_timeout_us li v rounds from : ℕ) (queue : List ℕ)
    → li < from
    → li < length s.flags
    → due
        (record s { retx_queue = queue; flags = set s.flags li v })
        now_us
        retx_timeout_us
        rounds
        from
      ≡ due s now_us retx_timeout_us rounds from
due_later s now_us retx_timeout_us li v zero from queue h k = refl
due_later s now_us retx_timeout_us li v (suc rounds) from queue h k =
    rw
      (
        due_later s now_us retx_timeout_us li v rounds (from + 1) queue (omega arith) k,
        entry-set s.flags li v from k ∙ other (entry s.flags from) (different h),
      )
      refl
  where
    different : li < from → (from == li) ≡ false
    different p = ground arith

    other : (e : ℕ) → (from == li) ≡ false → (if from == li then v else e) ≡ e
    other e p = rw p refl

pub record TimedOut (s : StreamState) (lost found : List ℕ) (result : Option Losses) : Type 0 where
  pub after : StreamState
  pub done : result ≡ some (after, lost ++ map (to_global s) found)
  pub valid : IsValid after
  pub queued : IsQueued after
  pub queue : after.retx_queue ≡ s.retx_queue ++ found
  pub same_acked : after.acked ≡ s.acked
  pub same_sent : after.next_local ≡ s.next_local

push_back-IsValid :
    (s : StreamState) (li v : ℕ) (queue : List ℕ)
    → IsValid s
    → IsValid (record s { retx_queue = queue; flags = set s.flags li v })
push_back-IsValid s li v queue w = record {
  size = w.size;
  sent_size = w.sent_size;
  flags_size = length-set s.flags li v ∙ w.flags_size;
  counted = w.counted;
  cursor = w.cursor;
}

after_push :
    (s : StreamState) (li v : ℕ) (lost found' found : List ℕ)
    → found' ≡ found
    → (result : Option Losses)
    → TimedOut
        (record s { retx_queue = s.retx_queue ++ li ∷ []; flags = set s.flags li v })
        (lost ++ to_global s li ∷ [])
        found'
        result
    → TimedOut s lost (li ∷ found) result
after_push s li v lost found' found e result t = record {
  after = t.after;
  done =
      t.done
      ∙ ap (λ (l : List ℕ). some (t.after, l))
          (append_assoc lost (to_global s li ∷ []) (map (to_global s) found')
            ∙ ap (λ (l : List ℕ). lost ++ to_global s li ∷ map (to_global s) l) e);
  valid = t.valid;
  queued = t.queued;
  queue =
      t.queue
      ∙ append_assoc s.retx_queue (li ∷ []) found'
      ∙ ap (λ (l : List ℕ). s.retx_queue ++ li ∷ l) e;
  same_acked = t.same_acked;
  same_sent = t.same_sent;
}

time_out_all_lem :
    (now_us retx_timeout_us rounds li : ℕ) (s : StreamState) (lost : List ℕ)
    → IsValid s
    → IsQueued s
    → li + rounds ≤ s.chunk_count
    → TimedOut s lost
        (due s now_us retx_timeout_us rounds li)
        (time_out_all now_us retx_timeout_us rounds li (s, lost))
unfolding time_out_all
time_out_all_lem now_us retx_timeout_us zero li s lost v q h = record {
  after = s;
  done = ap (λ (l : List ℕ). some (s, l)) (sym (append-nil lost));
  valid = v;
  queued = q;
  queue = sym (append-nil s.retx_queue);
  same_acked = refl;
  same_sent = refl;
}
time_out_all_lem now_us retx_timeout_us (suc rounds) li s lost v q h =
    let within : li < length s.flags = omega (arith, v.flags_size) in
    let f = entry s.flags li in
    let queue = s.retx_queue ++ li ∷ [] in
    let pushed : StreamState = record s {
      retx_queue = queue;
      flags = set s.flags li (requeued f);
    } in
    let step = time_out-due now_us retx_timeout_us li s lost v (omega arith) in
    rw step (elim (Bool-cases (is_due s now_us retx_timeout_us li)) [
      | inr early ↦
          rw early
            (time_out_all_lem now_us retx_timeout_us rounds (li + 1) s lost v q (omega arith))
      | inl late ↦ rw late (
          let idle : test_bit f in_retx ≡ false = ground arith in
          let rest =
            time_out_all_lem now_us retx_timeout_us rounds (li + 1) pushed
              (lost ++ to_global s li ∷ []) (push_back-IsValid s li (requeued f) queue v)
              (requeue-IsQueued s li queue q within idle
                (λ j. omega (arith, times-append j s.retx_queue (li ∷ []))))
              (omega arith) in
          let same =
            due_later s now_us retx_timeout_us li (requeued f) rounds (li + 1) queue (omega arith)
              within in
          after_push s li (requeued f) lost (due pushed now_us retx_timeout_us rounds (li + 1))
            (due s now_us retx_timeout_us rounds (li + 1)) same
            (time_out_all now_us retx_timeout_us rounds (li + 1)
              (pushed, lost ++ to_global s li ∷ []))
            rest)
    ])

-- The chunks that `queue_timed_out` looks at: those that were sent, from the scan's start.
abbrev timed_out : StreamState → ℕ → ℕ → List ℕ
timed_out s now_us retx_timeout_us =
    let sent_count = min s.next_local s.chunk_count in
    let from = min s.scan_cursor sent_count in due s now_us retx_timeout_us (sent_count - from) from

due_skips :
    (s : StreamState) (now_us retx_timeout_us k rounds li : ℕ)
    → li + k ≤ run_length s.acked
    → due s now_us retx_timeout_us (k + rounds) li ≡ due s now_us retx_timeout_us rounds (li + k)
due_skips s now_us retx_timeout_us zero rounds li h =
    ap₂ (due s now_us retx_timeout_us) (omega arith) (omega arith)
due_skips s now_us retx_timeout_us (suc k) rounds li h =
    ap (λ (n : ℕ). due s now_us retx_timeout_us n li) more
    ∙ rw (marked_in_run s.acked li (omega arith)) (
        due_skips s now_us retx_timeout_us k rounds (li + 1) (omega arith)
        ∙ ap (due s now_us retx_timeout_us rounds) (omega arith))
  where
    more : suc k + rounds ≡ suc (k + rounds)
    more = omega arith

-- The scan starts at the first chunk that is not acknowledged.
timed_out-sweep :
    (s : StreamState) (now_us retx_timeout_us : ℕ)
    → IsValid s
    → timed_out s now_us retx_timeout_us
      ≡ due s now_us retx_timeout_us (min s.next_local s.chunk_count) 0
timed_out-sweep s now_us retx_timeout_us v =
    let sent_count = min s.next_local s.chunk_count in
    let from = min s.scan_cursor sent_count in
    sym (
      ap (λ (n : ℕ). due s now_us retx_timeout_us n 0) (parts from sent_count (omega arith))
      ∙ due_skips s now_us retx_timeout_us from (sent_count - from) 0 (omega (arith, v.cursor))
      ∙ ap (due s now_us retx_timeout_us (sent_count - from)) (omega arith))
  where
    parts : (a b : ℕ) → a ≤ b → b ≡ a + (b - a)
    parts a b h = omega arith

-- `queue_timed_out` does not panic; it queues, behind what is queued already and in order, the sent
-- chunks that are not acknowledged, are not queued and were sent more than the timeout ago, and
-- reports these as lost: a sweep of all sent chunks would find no others. No chunk is in the queue
-- twice, and each in it counts as retransmitted.
pub queue_timed_out_lem :
    (s : StreamState) (now_us retx_timeout_us : ℕ)
    → IsValid s
    → IsQueued s
    → TimedOut s []
        (due s now_us retx_timeout_us (min s.next_local s.chunk_count) 0)
        (queue_timed_out s now_us retx_timeout_us)
unfolding queue_timed_out
queue_timed_out_lem s now_us retx_timeout_us v q =
    let sent_count = min s.next_local s.chunk_count in
    let from = min s.scan_cursor sent_count in
    subst
      (λ (found : List ℕ).
        TimedOut s [] found (time_out_all now_us retx_timeout_us (sent_count - from) from (s, [])))
      (timed_out-sweep s now_us retx_timeout_us v)
      (time_out_all_lem now_us retx_timeout_us (sent_count - from) from s [] v q (omega arith))
