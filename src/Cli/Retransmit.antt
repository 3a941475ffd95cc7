-- ===== src/Cli/Retransmit.antt =====
-- crates/ahp-cli/src/net_sender.rs: which chunks are queued for retransmission, by a timeout or by a
-- NACK_RANGE packet, and which chunk is sent next. As in Streams, `none` is a panic where the source
-- gives no option.
pub mod Queue
pub mod Timeout
pub mod Losses
pub mod Nack
pub mod Turns
pub mod Pop
pub mod Next
use mathlib.Core.Option
use favonius.Base.{
  ℕ, zero, suc, ◌+◌, ◌-◌, ◌*◌, min, max, Bool, true, false, not, ◌&&◌, ◌||◌, List, [], ◌∷◌, ◌++◌,
  Option, none, some, ltb, leb, ◌==◌, if◌then◌else◌, length, get_elem?, set, marked, test_bit,
  set_bit, clear_bit, Outcome, ok, err, panic,
}
use favonius.Bytes.Buf.{ByteBuf}
use favonius.Proto.Errors.{ProtoError}
use favonius.Proto.Data.{NackRange, decode_nack}
use favonius.Cli.Streams.{StreamState, wrapping_sub, in_retx, retransmitted, bind}

abbrev pub to_global : StreamState → ℕ → ℕ
to_global s local_ci = s.chunk_base + local_ci

-- `flags[i] |= CHUNK_IN_RETX | CHUNK_RETRANSMITTED`, of a byte.
abbrev pub requeued : ℕ → ℕ
requeued f = set_bit (set_bit f in_retx) retransmitted

-- The state and the packet numbers that are lost.
abbrev pub Losses : Type 0
Losses = StreamState × List ℕ

-- What a timeout does with a chunk that is due; `f` is its flags.
abbrev pub push_back : ℕ → ℕ → Losses → Losses
push_back li f (s, lost) = (
  record s { retx_queue = s.retx_queue ++ li ∷ []; flags = set s.flags li (requeued f) },
  lost ++ to_global s li ∷ [],
)

-- The body of the loop of `queue_timed_out`.
unfoldable pub time_out : ℕ → ℕ → ℕ → Losses → Option Losses
time_out now_us retx_timeout_us li l = bind (get_elem? (l.0).acked li) (λ acked.
    if acked
    then some l
    else bind (get_elem? (l.0).flags li) (λ f.
      if test_bit f in_retx
      then some l
      else bind (get_elem? (l.0).sent_us li) (λ sent.
        if ltb retx_timeout_us (wrapping_sub 32 now_us sent)
        then some (push_back li f l)
        else some l)))

-- `for li in li..li + rounds`
unfoldable pub time_out_all : ℕ → ℕ → ℕ → ℕ → Losses → Option Losses
time_out_all now_us retx_timeout_us zero li l = some l
time_out_all now_us retx_timeout_us (suc rounds) li l =
    bind (time_out now_us retx_timeout_us li l)
      (time_out_all now_us retx_timeout_us rounds (li + 1))

unfoldable pub queue_timed_out : StreamState → ℕ → ℕ → Option Losses
queue_timed_out s now_us retx_timeout_us =
    let sent_count = min s.next_local s.chunk_count in
    let from = min s.scan_cursor sent_count in
    time_out_all now_us retx_timeout_us (sent_count - from) from (s, [])

-- What a loss report does with a chunk that is queued.
abbrev pub push_front : ℕ → ℕ → ℕ → Losses → Losses
push_front pn local_ci f (s, lost) = (
  record s { retx_queue = local_ci ∷ s.retx_queue; flags = set s.flags local_ci (requeued f) },
  lost ++ pn ∷ [],
)

abbrev pub recently : ℕ
recently = 50000

abbrev pub recently_sent : ℕ → Option ℕ → Bool
recently_sent now_us none = false
recently_sent now_us (some sent) = ltb (wrapping_sub 32 now_us sent) recently

-- The body of the inner loop of `process_nack`.
unfoldable pub nack_packet : ℕ → ℕ → Losses → Option Losses
nack_packet now_us pn l =
    let local_ci = wrapping_sub 64 pn (l.0).chunk_base in
    if ltb local_ci (length (l.0).acked) && not (marked (l.0).acked local_ci)
    then bind (get_elem? (l.0).flags local_ci) (λ f.
      if test_bit f in_retx
      then some l
      else if recently_sent now_us (get_elem? (l.0).sent_us local_ci)
      then some l
      else some (push_front pn local_ci f l))
    else some l

-- `for pn in pn..pn + rounds`
unfoldable pub nack_packets : ℕ → ℕ → ℕ → Losses → Option Losses
nack_packets now_us zero pn l = some l
nack_packets now_us (suc rounds) pn l =
    bind (nack_packet now_us pn l) (nack_packets now_us rounds (pn + 1))

unfoldable pub nack_ranges : ℕ → List (ℕ × ℕ) → Losses → Option Losses
nack_ranges now_us [] l = some l
nack_ranges now_us ((start_pn, end_pn) ∷ ranges) l =
    let lo = max start_pn (l.0).chunk_base in
    let hi = min end_pn ((l.0).chunk_base + (l.0).chunk_count - 1) in
    let clamped = bind (nack_packets now_us (hi + 1 - lo) lo l) (nack_ranges now_us ranges) in
    let skipped = nack_ranges now_us ranges l in if ltb hi lo then skipped else clamped

-- The streams, and what the congestion controller is told is lost.
unfoldable pub nack_stream :
    NackRange → Option StreamState → List StreamState → ℕ → Option (List StreamState × List ℕ)
nack_stream nack none streams now_us = some (streams, [])
nack_stream nack (some s) streams now_us =
    Option.map (λ l. (set streams nack.stream_id l.0, l.1)) (nack_ranges now_us nack.ranges (s, []))

unfoldable pub nack_decoded :
    Outcome ProtoError NackRange → List StreamState → ℕ → Option (List StreamState × List ℕ)
nack_decoded (ok nack) streams now_us =
    nack_stream nack (get_elem? streams nack.stream_id) streams now_us
nack_decoded (err e) streams now_us = some (streams, [])
nack_decoded panic streams now_us = none

module _ ⦃buf : ByteBuf⦄ where
  unfoldable pub process_nack : List ℕ → List StreamState → ℕ → Option (List StreamState × List ℕ)
  process_nack payload = nack_decoded (decode_nack payload).0

-- What the send loop takes from the stream: the chunk, if there is one, and whether it was queued.
pub record Taken : Type 0 where
  pub stream : StreamState
  pub chunk : Option ℕ
  pub resent : Bool

-- The loop's other case, when the queue is empty, for as many rounds as there are unsent chunks.
unfoldable pub take_unsent : ℕ → StreamState → Option Taken
take_unsent zero s = some (record { stream = s; chunk = none; resent = false })
take_unsent (suc rounds) s =
    let s' = record s { next_local = s.next_local + 1 } in
    let rest = take_unsent rounds s' in
    bind (get_elem? s.acked s.next_local) (λ acked.
      if acked
      then rest
      else some (record { stream = s'; chunk = some s.next_local; resent = false }))

-- The loop that pops queued chunks, skipping those that were acknowledged while they waited.
unfoldable pub take_queued : List ℕ → StreamState → Option Taken
take_queued [] s = take_unsent (s.chunk_count - s.next_local) (record s { retx_queue = [] })
take_queued (retx ∷ queue) s = bind (get_elem? s.flags retx) (λ f.
    let s' = record s { retx_queue = queue; flags = set s.flags retx (clear_bit f in_retx) } in
    let rest = take_queued queue s' in
    bind (get_elem? s.acked retx) (λ acked.
      if acked then rest else some (record { stream = s'; chunk = some retx; resent = true })))

unfoldable pub take_chunk : StreamState → Option Taken
take_chunk s = take_queued s.retx_queue s
