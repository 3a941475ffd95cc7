-- ===== src/Examples/Transfers.antt =====
-- Streams of both sides, acknowledgements and retransmissions, run.
use favonius.Base.{
  ℕ, zero, suc, ◌-◌, ◌^◌, ◌<◌, ◌≡◌, refl, true, false, ◌||◌, List, [], ◌∷◌, some, inl, set, marked,
  replicate, test_bit, set_bit, clear_bit, ok, store_bit, bit, arith,
}
use favonius.Bytes.Plain.{plain_buf}
use favonius.Proto.Data.{AckBitmap}
use favonius.Proto.ZeroRuns.{div_ceil, validate, validate_from}
use favonius.Daemon.Streams.{
  StreamRecvState, mark_received, build_stream_ack_bitmap, fill_bitmap, apply_zero_runs,
  mark_global, mark_from, mark_run, mark_once, mark_unless, apply_resume_bitmap,
}
use favonius.Daemon.Streams as DaemonStreams
use favonius.Daemon.Streams.Marks
use favonius.Daemon.Streams.Marks.{mark_received_lem}
use favonius.Daemon.Streams.Runs.{Marks, in_runs, apply_zero_runs_lem}
use favonius.Daemon.Streams.Acks.{Acked, build_stream_ack_bitmap_lem}
use favonius.Cli.Streams as CliStreams
use favonius.Cli.Streams.{
  StreamState, Progress, process_stream, apply_prefix, ack_packets, ack_packet, range_from,
  bitmap_packets, byte_packets, rtt_sample, mark_acked, process_ack_bitmap,
}
use favonius.Cli.Streams.Acks
use favonius.Cli.Streams.Process.{Processes, in_prefix, applied_after}
use favonius.Cli.Streams.Bitmap.{bit_names, process_stream_lem}
use favonius.Cli.Streams.Payload.{Feeds, process_ack_bitmap_lem}
use favonius.Cli.Retransmit.{
  queue_timed_out, nack_ranges, nack_packets, nack_packet, take_chunk, take_queued, requeued,
  time_out, time_out_all,
}
use favonius.Cli.Retransmit.Queue.{IsQueued, new-IsQueued, requeue-IsQueued, zero_flag}
use favonius.Cli.Retransmit.Timeout.{TimedOut, due, queue_timed_out_lem}
use favonius.Cli.Retransmit.Turns.{Takes}
use favonius.Cli.Retransmit.Next.{take_chunk_lem}
use favonius.Transfer.Reports.{stream_ack}
use favonius.Transfer.Link.{
  Link, Starts, chunk_arrives, ack_sent, ack_arrives, Reach, here, next, begin,
}
use favonius.Transfer.Safety.{acked_is_received, complete_is_received, informed, Informed}
use favonius.Transfer.Build.{BuiltAlike, build_streams-build_recv_streams}

-- Chunks 5 and 6 of a file.
abbrev sender : StreamState
sender = CliStreams.new 0 5 2

abbrev receiver : StreamRecvState
receiver = DaemonStreams.new 5 2

abbrev first_in : StreamRecvState
first_in = record receiver { received = true ∷ false ∷ []; n_received = 1; contig_prefix = 1 }

abbrev both_in : StreamRecvState
both_in = record receiver { received = true ∷ true ∷ []; n_received = 2; contig_prefix = 2 }

abbrev both_acked : StreamState
both_acked = record sender {
  acked = true ∷ true ∷ [];
  n_acked = 2;
  scan_cursor = 2;
  hc_applied = 2;
}

both_start : Starts sender receiver
both_start = record {
  sender_valid = Acks.new-IsValid 0 5 2;
  receiver_valid = Marks.new-IsValid 5 2;
  same_base = refl;
  same_count = refl;
  none_applied = refl;
  range = omega arith;
  skipped = λ j e. absurd (nothing j e);
}
  where
    nothing : (j : ℕ) → marked (replicate 2 false) j ≡ true → ⊥
    nothing zero e = cc
    nothing (suc zero) e = cc
    nothing (suc (suc j)) e = cc

first_marked : mark_received receiver 0 ≡ some first_in
unfolding mark_received
first_marked = refl

second_marked : mark_received first_in 1 ≡ some both_in
unfolding mark_received
second_marked = refl

both_reported : build_stream_ack_bitmap both_in ≡ some (6, [])
unfolding build_stream_ack_bitmap fill_bitmap div_ceil
both_reported = refl

abbrev last_ack : AckBitmap
last_ack = record {
  stream_id = 0;
  base_packet_number = 5;
  highest_contiguous = 6;
  ack_delay_micros = 0;
  bitmap = [];
}

abbrev done : Progress
done = record { stream = both_acked; in_flight = 0; newly_acked = (5, some 9) ∷ (6, some 9) ∷ [] }

both_read :
    process_stream last_ack 9 1000 (record { stream = sender; in_flight = 2000; newly_acked = [] })
    ≡ some done
unfolding process_stream apply_prefix ack_packets ack_packet range_from bitmap_packets rtt_sample
    mark_acked test_bit
both_read = refl

abbrev last_link : Link
last_link = record { sender = both_acked; receiver = both_in; acks = last_ack ∷ [] }

reached : Reach (begin sender receiver) last_link
unfolding stream_ack
reached =
    next
      (next
        (next
          (next here
            (chunk_arrives (begin sender receiver) 0 first_in (omega arith) refl first_marked))
          (chunk_arrives (record { sender = sender; receiver = first_in; acks = [] }) 1 both_in
            (omega arith) refl second_marked))
        (ack_sent (record { sender = sender; receiver = both_in; acks = [] }) 0 6 [] both_reported))
      (ack_arrives (record { sender = sender; receiver = both_in; acks = last_ack ∷ [] }) last_ack
        2000 9 1000 done (inl refl) both_read)

acked_is_received_example : marked both_in.received 1 ≡ true
acked_is_received_example = acked_is_received sender receiver both_start last_link reached 1 refl

complete_is_received_example :
    ((j : ℕ) → j < 2 → marked both_in.received j ≡ true) × (both_in.n_received ≡ 2)
complete_is_received_example =
    complete_is_received sender receiver both_start last_link reached refl

informed_example : Informed last_link 0 0 1000 20
informed_example = informed sender receiver last_link both_start reached 0 0 1000 20

build_streams-build_recv_streams_example : BuiltAlike 10 3
build_streams-build_recv_streams_example =
    build_streams-build_recv_streams 10 3 (omega arith) (omega arith)

mark_received_lem_example : Marks.Received first_in 1
mark_received_lem_example =
    mark_received_lem first_in 1 (record { size = refl; counted = refl; frontier = refl })
      (omega arith) refl

-- A chunk behind a gap is reported by a bit.
abbrev gap : StreamRecvState
gap = record (DaemonStreams.new 0 20) {
  received = set (set (replicate 20 false) 0 true) 11 true;
  n_received = 2;
  contig_prefix = 1;
}

gap_reported : build_stream_ack_bitmap gap ≡ some (0, 0 ∷ 4 ∷ 0 ∷ [])
unfolding build_stream_ack_bitmap fill_bitmap store_bit set_bit test_bit div_ceil
gap_reported = refl

-- Before the first chunk the daemon reports one less than the base, or the largest number.
none_reported : build_stream_ack_bitmap (DaemonStreams.new 0 3) ≡ some (2 ^ 64 - 1, 0 ∷ [])
unfolding build_stream_ack_bitmap fill_bitmap div_ceil
none_reported = refl

build_stream_ack_bitmap_lem_example : Acked gap
build_stream_ack_bitmap_lem_example = build_stream_ack_bitmap_lem gap

abbrev two_streams : List StreamRecvState
two_streams = DaemonStreams.new 0 3 ∷ DaemonStreams.new 3 2 ∷ []

two_runs_accepted : validate ((0, 1) ∷ (2, 2) ∷ []) 5 ≡ ok 3
unfolding validate validate_from
two_runs_accepted = refl

apply_zero_runs_lem_example :
    Marks two_streams
      (in_runs ((0, 1) ∷ (2, 2) ∷ []))
      (apply_zero_runs two_streams ((0, 1) ∷ (2, 2) ∷ []))
apply_zero_runs_lem_example =
    apply_zero_runs_lem two_streams ((0, 1) ∷ (2, 2) ∷ []) 5 3
      (Marks.new-IsValid 0 3, (Marks.new-IsValid 3 2, tt)) (omega arith) two_runs_accepted

-- A run whose end is past a `u64` marks nothing.
past_the_end : apply_zero_runs two_streams ((2, 2 ^ 64 - 1) ∷ []) ≡ some (two_streams, 0)
unfolding apply_zero_runs mark_run mark_from
past_the_end = refl

-- Chunks 0 and 3 are in, one of each stream.
abbrev resumed_streams : List StreamRecvState
resumed_streams =
    record (DaemonStreams.new 0 3) {
      received = true ∷ false ∷ false ∷ [];
      n_received = 1;
      contig_prefix = 1;
    }
    ∷ record (DaemonStreams.new 3 2) {
      received = true ∷ false ∷ [];
      n_received = 1;
      contig_prefix = 1;
    }
    ∷ []

resumed : apply_resume_bitmap two_streams (0x09 ∷ []) ≡ (resumed_streams, 2)
unfolding apply_resume_bitmap DaemonStreams.resume_stream DaemonStreams.mark_bits bit test_bit
resumed = refl

-- A report for another part of the file, from no honest daemon.
abbrev stray : AckBitmap
stray = record {
  stream_id = 0;
  base_packet_number = 0;
  highest_contiguous = 2 ^ 64 - 1;
  ack_delay_micros = 0;
  bitmap = 0xFF ∷ [];
}

abbrev waiting : Progress
waiting = record { stream = sender; in_flight = 2000; newly_acked = [] }

-- Its bits are for the packets 0 to 7, as the number of the packet before them wraps around.
stray_read :
    process_stream stray 9 1000 waiting
    ≡ some (record {
      stream = record both_acked { hc_applied = 0 };
      in_flight = 0;
      newly_acked = (5, some 9) ∷ (6, some 9) ∷ [];
    })
unfolding process_stream apply_prefix ack_packets ack_packet bitmap_packets byte_packets rtt_sample
    mark_acked test_bit
stray_read = refl

process_stream_lem_example :
    Processes 1000
      (λ j. in_prefix stray sender j || bit_names stray sender j)
      (applied_after stray sender)
      waiting
      (process_stream stray 9 1000 waiting)
process_stream_lem_example =
    process_stream_lem stray 9 1000 waiting (Acks.new-IsValid 0 5 2) (omega arith) (omega arith)
      (omega arith)

-- Stream 0: all up to chunk 5, and by its bit chunk 6.
abbrev ack_payload : List ℕ
ack_payload =
    0 ∷ 0 ∷ 0 ∷ 0 ∷ 0 ∷ 0 ∷ 0 ∷ 0 ∷ 0 ∷ 0 ∷ 0 ∷ 5 ∷ 0 ∷ 0 ∷ 0 ∷ 0 ∷ 0 ∷ 0 ∷ 0 ∷ 5 ∷ 0 ∷ 0 ∷ 0 ∷ 0
    ∷ 0 ∷ 1 ∷ 0x01 ∷ []

process_ack_bitmap_lem_example :
    Feeds 1000 (sender ∷ []) 2000 (process_ack_bitmap ack_payload (sender ∷ []) 2000 1000 9)
process_ack_bitmap_lem_example =
    process_ack_bitmap_lem ack_payload (sender ∷ []) 2000 1000 9 (omega arith)
      (Acks.new-IsValid 0 5 2, tt)

-- Both chunks were sent, the second a moment ago.
abbrev sent : StreamState
sent = record sender { next_local = 2; sent_us = 100 ∷ 90000 ∷ [] }

sent-IsValid : Acks.IsValid sent
sent-IsValid = record {
  size = refl;
  sent_size = refl;
  flags_size = refl;
  counted = refl;
  cursor = refl;
}

sent-IsQueued : IsQueued sent
sent-IsQueued =
    let q = new-IsQueued 0 5 2 in
    record { small = q.small; queued = q.queued; ambiguous = q.ambiguous }

abbrev first_late : StreamState
first_late = record sent { flags = 3 ∷ 0 ∷ []; retx_queue = 0 ∷ [] }

first_times_out : queue_timed_out sent 100000 20000 ≡ some (first_late, 5 ∷ [])
unfolding queue_timed_out time_out time_out_all set_bit test_bit
first_times_out = refl

queue_timed_out_lem_example :
    TimedOut sent [] (due sent 100000 20000 2 0) (queue_timed_out sent 100000 20000)
queue_timed_out_lem_example = queue_timed_out_lem sent 100000 20000 sent-IsValid sent-IsQueued

-- The second chunk is reported too, but was sent too short a time ago.
first_is_lost : nack_ranges 100000 ((0, 2 ^ 64 - 1) ∷ []) (sent, []) ≡ some (first_late, 5 ∷ [])
unfolding nack_ranges nack_packets nack_packet set_bit test_bit
first_is_lost = refl

-- The first chunk waits in the queue, the second was not sent yet.
abbrev one_of_each : StreamState
one_of_each = record sender {
  next_local = 1;
  retx_queue = 0 ∷ [];
  flags = set (0 ∷ 0 ∷ []) 0 (requeued 0);
}

one_of_each-IsValid : Acks.IsValid one_of_each
one_of_each-IsValid = record {
  size = refl;
  sent_size = refl;
  flags_size = refl;
  counted = refl;
  cursor = refl;
}

one_of_each-IsQueued : IsQueued one_of_each
one_of_each-IsQueued =
    let q =
      requeue-IsQueued sender 0 (0 ∷ []) (new-IsQueued 0 5 2) (omega arith) zero_flag (λ j. refl) in
    record { small = q.small; queued = q.queued; ambiguous = q.ambiguous }

first_is_taken :
    take_chunk one_of_each
    ≡ some (record {
      stream = record one_of_each { retx_queue = []; flags = 2 ∷ 0 ∷ [] };
      chunk = some 0;
      resent = true;
    })
unfolding take_chunk take_queued set_bit clear_bit test_bit
first_is_taken = refl

take_chunk_lem_example : Takes one_of_each (take_chunk one_of_each)
take_chunk_lem_example = take_chunk_lem one_of_each one_of_each-IsValid one_of_each-IsQueued
