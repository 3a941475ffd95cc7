-- ===== src/Cli/Retransmit/Turns.antt =====
-- The turns of chunks to be sent, and what it is to take a chunk from a stream.
use favonius.Base.{
  ℕ, ◌+◌, ◌≤◌, ◌<◌, ◌≡◌, sym, ap, ◌∙◌, Bool, true, false, [], Option, none, some, inl, inr, leb,
  ◌==◌, ==_iff, if◌then◌else◌, Bool-cases, marked, arith,
}
use favonius.Cli.Streams.{StreamState}
use favonius.Cli.Streams.Acks.{IsValid}
use favonius.Cli.Retransmit.{Taken}
use favonius.Cli.Retransmit.Queue.{times, IsQueued}

-- How often the chunk's turn to be sent is still to come: once for each time that it is in the queue, and
-- once if the send loop did not get to it yet.
abbrev pub turns : StreamState → ℕ → ℕ
turns s j = times j s.retx_queue + (if leb s.next_local j then 1 else 0)

abbrev pub IsOpen : StreamState → ℕ → Type 0
IsOpen s j = (j < s.chunk_count) × (marked s.acked j ≡ false)

-- Where the chunk `c` was taken: off the queue, or else it is the chunk that the loop got to, and the
-- loop goes on behind it.
abbrev pub ComesFrom : StreamState → StreamState → ℕ → Bool → Type 0
ComesFrom s s' c true = (0 < times c s.retx_queue) × (s'.next_local ≡ s.next_local)
ComesFrom s s' c false = (s'.retx_queue ≡ []) × (s.next_local ≤ c) × (s'.next_local ≡ c + 1)

-- One turn of the chunk that was taken is over. Where none was taken, none is to come.
abbrev pub IsTaken : StreamState → StreamState → Bool → Option ℕ → Type 0
IsTaken s s' resent none =
    (s'.retx_queue ≡ []) × (s'.chunk_count ≤ s'.next_local) × ((j : ℕ) → IsOpen s j → turns s j ≡ 0)
IsTaken s s' resent (some c) =
    IsOpen s c
    × (times c s'.retx_queue ≡ 0)
    × ComesFrom s s' c resent
    × ((j : ℕ) → IsOpen s j → turns s j ≡ turns s' j + (if j == c then 1 else 0))

pub record Takes (s : StreamState) (result : Option Taken) : Type 0 where
  pub taken : Taken
  pub done : result ≡ some taken
  pub valid : IsValid (taken.stream)
  pub queued : IsQueued (taken.stream)
  pub same_acked : (taken.stream).acked ≡ s.acked
  pub same_count : (taken.stream).chunk_count ≡ s.chunk_count
  pub found : IsTaken s taken.stream taken.resent taken.chunk

pub sent-IsValid :
    (s : StreamState) → IsValid s → IsValid (record s { next_local = s.next_local + 1 })
sent-IsValid s v = record {
  size = v.size;
  sent_size = v.sent_size;
  flags_size = v.flags_size;
  counted = v.counted;
  cursor = v.cursor;
}

pub sent-IsQueued :
    (s : StreamState) → IsQueued s → IsQueued (record s { next_local = s.next_local + 1 })
sent-IsQueued s q = record { small = q.small; queued = q.queued; ambiguous = q.ambiguous }

-- An open chunk is not the acknowledged one that is passed over.
pub still-turns :
    (s : StreamState) (j : ℕ)
    → marked s.acked s.next_local ≡ true
    → IsOpen s j
    → turns (record s { next_local = s.next_local + 1 }) j ≡ turns s j
still-turns s j acked o = elim (Bool-cases (j == s.next_local)) [
  | inl same ↦ absurd (cc (acked, o.1, ap (marked s.acked) ((==_iff j s.next_local).0 same)))
  | inr other ↦ ground arith
]

-- The stream `t` is `s` with acknowledged chunks passed over.
pub record PassesOver (s t : StreamState) : Type 0 where
  pub same_acked : t.acked ≡ s.acked
  pub same_count : t.chunk_count ≡ s.chunk_count
  pub fewer : (j : ℕ) → times j t.retx_queue ≤ times j s.retx_queue
  pub onwards : s.next_local ≤ t.next_local
  pub queue_first : (j : ℕ) → 0 < times j t.retx_queue → t.next_local ≡ s.next_local
  pub same_turns : (j : ℕ) → IsOpen s j → turns t j ≡ turns s j

-- What is taken of `t` is taken of `s`.
ComesFrom-of :
    (s t s' : StreamState) (c : ℕ) (resent : Bool)
    → PassesOver s t
    → ComesFrom t s' c resent
    → ComesFrom s s' c resent
ComesFrom-of s t s' c true h (waited, same) =
    (omega (arith, h.fewer c), same ∙ h.queue_first c waited)
ComesFrom-of s t s' c false h (empty, from, next) = (empty, omega (arith, h.onwards), next)

pub IsTaken-of :
    (s t s' : StreamState) (resent : Bool) (c : Option ℕ)
    → PassesOver s t
    → IsTaken t s' resent c
    → IsTaken s s' resent c
IsTaken-of s t s' resent none h k =
    (k.0, k.1, λ j o. sym (h.same_turns j o) ∙ k.2 j (rw (h.same_acked, h.same_count) o))
IsTaken-of s t s' resent (some c) h k = (
  rw (h.same_acked, h.same_count) at (k.0),
  k.1,
  ComesFrom-of s t s' c resent h k.2,
  λ j o. sym (h.same_turns j o) ∙ k.3 j (rw (h.same_acked, h.same_count) o),
)
