-- ===== src/Cli/Retransmit/Next.antt =====
-- Which chunk the send loop takes from a stream.
use favonius.Base.{
  ℕ, zero, suc, ◌+◌, ◌-◌, ◌≡◌, refl, sym, ap, ◌∙◌, true, false, List, [], ◌∷◌, none, some, inl, inr,
  Bool-cases, marked, arith,
}
use favonius.Cli.Streams.{StreamState}
use favonius.Cli.Streams.Acks.{IsValid}
use favonius.Cli.Retransmit.{take_unsent, take_queued, take_chunk}
use favonius.Cli.Retransmit.Queue.{times, get_elem?-entry, get_elem?-marked, IsQueued}
use favonius.Cli.Retransmit.Turns.{Takes, sent-IsValid, sent-IsQueued, still-turns, IsTaken-of}
use favonius.Cli.Retransmit.Pop.{
  popped, popped-IsValid, count, pop_within, popped-IsQueued, taken_once, popped-turns,
  popped-PassesOver, cleared_queue-IsValid,
}

take_unsent_lem :
    (rounds : ℕ) (s : StreamState)
    → rounds ≡ s.chunk_count - s.next_local
    → s.retx_queue ≡ []
    → IsValid s
    → IsQueued s
    → Takes s (take_unsent rounds s)
unfolding take_unsent
take_unsent_lem zero s r empty v q = record {
  taken = record { stream = s; chunk = none; resent = false };
  done = refl;
  valid = v;
  queued = q;
  same_acked = refl;
  same_count = refl;
  found = (empty, omega arith, λ j o. ground (arith, ap (times j) empty, o.0));
}
take_unsent_lem (suc rounds) s r empty v q =
    let s' : StreamState = record s { next_local = s.next_local + 1 } in
    let read = get_elem?-marked s.acked s.next_local (omega (arith, v.size)) in
    rw read (elim (Bool-cases (marked s.acked s.next_local)) [
      | inl acked ↦ rw acked (
          let rest =
            take_unsent_lem rounds s' (omega arith) empty (sent-IsValid s v) (sent-IsQueued s q) in
          record {
            taken = rest.taken;
            done = rest.done;
            valid = rest.valid;
            queued = rest.queued;
            same_acked = rest.same_acked;
            same_count = rest.same_count;
            found =
                IsTaken-of s s' rest.taken.stream rest.taken.resent rest.taken.chunk
                  (record {
                    same_acked = refl;
                    same_count = refl;
                    fewer = λ j. omega arith;
                    onwards = omega arith;
                    queue_first = λ j h. absurd (omega (arith, ap (times j) empty));
                    same_turns = λ j o. still-turns s j acked o;
                  })
                  rest.found;
          })
      | inr open_chunk ↦ rw open_chunk (record {
        taken = record { stream = s'; chunk = some s.next_local; resent = false };
        done = refl;
        valid = sent-IsValid s v;
        queued = sent-IsQueued s q;
        same_acked = refl;
        same_count = refl;
        found = (
          (omega arith, open_chunk),
          ap (times s.next_local) empty,
          (empty, omega arith, refl),
          λ j o. ground arith,
        );
      })
    ])

take_queued_lem :
    (queue : List ℕ) (s : StreamState)
    → s.retx_queue ≡ queue
    → IsValid s
    → IsQueued s
    → Takes s (take_queued queue s)
unfolding take_queued
take_queued_lem [] s e v q =
    let s' : StreamState = record s { retx_queue = [] } in
    let q' : IsQueued s' = record {
      small = q.small;
      queued = λ j. sym (ap (times j) e) ∙ q.queued j;
      ambiguous = q.ambiguous;
    } in
    let rest =
      take_unsent_lem (s.chunk_count - s.next_local) s' refl refl (cleared_queue-IsValid s v) q' in
    record {
      taken = rest.taken;
      done = rest.done;
      valid = rest.valid;
      queued = rest.queued;
      same_acked = rest.same_acked;
      same_count = rest.same_count;
      found =
          IsTaken-of s s' rest.taken.stream rest.taken.resent rest.taken.chunk
            (record {
              same_acked = refl;
              same_count = refl;
              fewer = λ j. omega arith;
              onwards = omega arith;
              queue_first = λ j h. refl;
              same_turns = λ j o. omega (arith, ap (times j) e);
            })
            rest.found;
    }
take_queued_lem (retx ∷ queue) s e v q =
    let s' = popped s retx queue in
    let within = pop_within s retx queue e q in
    rw
      (
        get_elem?-entry s.flags retx within,
        get_elem?-marked s.acked retx (omega (arith, v.size, v.flags_size)),
      )
      (elim (Bool-cases (marked s.acked retx)) [
        | inl acked ↦ rw acked (
            let rest =
              take_queued_lem queue s' refl (popped-IsValid s retx queue v)
                (popped-IsQueued s retx queue e q) in
            record {
              taken = rest.taken;
              done = rest.done;
              valid = rest.valid;
              queued = rest.queued;
              same_acked = rest.same_acked;
              same_count = rest.same_count;
              found =
                  IsTaken-of s s' rest.taken.stream rest.taken.resent rest.taken.chunk
                    (popped-PassesOver s retx queue e q acked) rest.found;
            })
        | inr open_chunk ↦ rw open_chunk (record {
          taken = record { stream = s'; chunk = some retx; resent = true };
          done = refl;
          valid = popped-IsValid s retx queue v;
          queued = popped-IsQueued s retx queue e q;
          same_acked = refl;
          same_count = refl;
          found = (
            (omega (arith, v.flags_size), open_chunk),
            taken_once s retx queue e q,
            (ground (arith, count s retx queue e q retx), refl),
            λ j o. popped-turns s retx queue e q j,
          );
        })
      ])

-- Taking a chunk does not panic and keeps the queue and its flags in step. The chunk taken is one of the
-- stream's, not acknowledged, and no longer queued; it was in the queue, or it is where the loop over
-- the unsent chunks got to, which then goes on behind it. One turn of that chunk to be sent is over,
-- and every other chunk that is not acknowledged keeps its turns. If none is taken, the queue is
-- empty, the loop is at the end, and no chunk that is not acknowledged had a turn to come.
pub take_chunk_lem : (s : StreamState) → IsValid s → IsQueued s → Takes s (take_chunk s)
unfolding take_chunk
take_chunk_lem s v q = take_queued_lem s.retx_queue s refl v q
