-- ===== src/Transfer/Safety.antt =====
-- What the sender may conclude, in every reachable state.
use favonius.Base.{
  ℕ, ◌+◌, ◌≤◌, ◌<◌, ◌≡◌, refl, ap, ap₂, ◌∙◌, true, ◌&&◌, ◌||◌, some, inl, inr, List, ltb, leb,
  Bool-cases, marked, count_marked-full, count_marked-all, run_length_of_all, marked_in_run, bit,
  marked-lt-length, ◌-◌, ltb→lt, ltb_false→le, arith,
}
use favonius.Daemon.Streams.{StreamRecvState, build_stream_ack_bitmap, highest_contiguous}
use favonius.Daemon.Streams.Acks.{build_stream_ack_bitmap_lem}
use favonius.Cli.Streams.{StreamState, Progress, process_stream}
use favonius.Cli.Streams.Process.{process_stream-Processes}
use favonius.Transfer.Reports.{
  stream_ack, stream_ack-Reports, highest-lt, in_prefix_iff, in_bitmap_iff,
}
use favonius.Transfer.Link.{Link, Starts, Reach, Reach-Inv, Inv, Read, begin, about}

module _ (s : StreamState) (r : StreamRecvState) (starts : Starts s r) (l : Link)
    (reach : Reach (begin s r) l) where
  -- Whatever acknowledgements were lost, repeated, late or out of order, the sender counts no chunk as
  -- acknowledged that the daemon has not received.
  pub acked_is_received :
      (j : ℕ) → marked l.sender.acked j ≡ true → marked l.receiver.received j ≡ true
  acked_is_received = (Reach-Inv s r starts reach).acked_is_received

  -- When the sender counts all the chunks of a stream as acknowledged, the daemon has every one of them,
  -- and its count says so too.
  pub complete_is_received :
      l.sender.n_acked ≡ l.sender.chunk_count
      → ((j : ℕ) → j < l.receiver.chunk_count → marked l.receiver.received j ≡ true)
        × (l.receiver.n_received ≡ l.receiver.chunk_count)
  complete_is_received done = (
    all,
    inv.receiver_valid.counted
        ∙ count_marked-all l.receiver.received
            (λ j h. all j (omega (arith, inv.receiver_valid.size)))
        ∙ inv.receiver_valid.size,
  )
    where
      inv : Inv l
      inv = Reach-Inv s r starts reach

      all : (j : ℕ) → j < l.receiver.chunk_count → marked l.receiver.received j ≡ true
      all j h = inv.acked_is_received j (
          count_marked-full l.sender.acked
            (omega (arith, inv.sender_valid.counted, inv.sender_valid.size)) j
            (omega (arith, inv.sender_valid.size, inv.same_count)))

-- What an acknowledgement that is built and read at once makes the sender know.
pub record Informed (l : Link) (stream_id in_flight wire_size now_us : ℕ) : Type 0 where
  pub bitmap : List ℕ
  pub after : Progress
  pub built : build_stream_ack_bitmap l.receiver ≡ some (highest_contiguous l.receiver, bitmap)
  pub done :
      process_stream (stream_ack stream_id l.receiver bitmap) now_us wire_size (about l in_flight)
      ≡ some after
  pub marks :
      (j : ℕ)
      → marked after.stream.acked j
        ≡ marked l.sender.acked j
          || (marked l.receiver.received j && ltb j (l.receiver.contig_prefix + 8192))
  pub complete :
      l.receiver.n_received ≡ l.receiver.chunk_count
      → after.stream.n_acked ≡ after.stream.chunk_count

stream_ack_bitmap :
    (stream_id : ℕ) (r : StreamRecvState) (bitmap : List ℕ)
    → (stream_ack stream_id r bitmap).bitmap ≡ bitmap
unfolding stream_ack
stream_ack_bitmap stream_id r bitmap = refl

informed_marks :
    (l : Link) (wire_size in_flight n : ℕ) (p : Progress)
    → Inv l
    → (stream_id : ℕ)
    → Read wire_size
        (stream_ack stream_id l.receiver (build_stream_ack_bitmap_lem l.receiver).bitmap)
        l
        in_flight
        p
        n
    → (j : ℕ)
    → marked p.stream.acked j
      ≡ marked l.sender.acked j
        || (marked l.receiver.received j && ltb j (l.receiver.contig_prefix + 8192))
informed_marks l wire_size in_flight n p inv stream_id d j =
    let v = inv.receiver_valid in
    let (r, prefix) = stream_ack-Reports stream_id l.receiver v in
    let bitmap = (build_stream_ack_bitmap_lem l.receiver).bitmap in
    let same = stream_ack_bitmap stream_id l.receiver bitmap in
    let front =
      in_prefix_iff r inv.range l.sender j inv.same_base inv.same_count
      ∙ ap (λ (n : ℕ). leb l.sender.hc_applied j && ltb j n) prefix in
    let behind =
      in_bitmap_iff r inv.range l.sender j inv.same_base
      ∙ ap₂ (λ (n : ℕ) (b : List ℕ). leb n j && bit b (j - n)) prefix same in
    let bits = (build_stream_ack_bitmap_lem l.receiver).bits (j - l.receiver.contig_prefix) in
    elim (Bool-cases (ltb j l.receiver.contig_prefix)) [
      | inl before ↦
          let got : marked l.receiver.received j ≡ true =
            marked_in_run l.receiver.received j (omega (arith, v.frontier, ltb→lt j _ before)) in
          let here = marked-lt-length l.receiver.received j got in
          elim (Bool-cases (ltb j l.sender.hc_applied)) [
            | inl old ↦
                let q = inv.applied_is_acked j (ltb→lt j l.sender.hc_applied old) in
                ground (arith, d.marks j)
            | inr fresh ↦ ground (arith, d.marks j, v.size, inv.same_count)
          ]
      | inr after ↦
          let from = ltb_false→le j l.receiver.contig_prefix after in
          let place = ap (marked l.receiver.received) (back j l.receiver.contig_prefix from) in
          elim (Bool-cases (marked l.receiver.received j)) [
            | inl got ↦
                let here = marked-lt-length l.receiver.received j got in
                ground (arith, d.marks j, v.size, inv.same_count)
            | inr lacking ↦ ground (arith, d.marks j)
          ]
    ]
  where
    back : (j p : ℕ) → p ≤ j → p + (j - p) ≡ j
    back j p h = omega arith

-- In every reachable state, an acknowledgement that the daemon builds and the sender reads at once
-- panics on neither side, and makes the sender's chunks those that it knew and those that the daemon
-- has, up to 8192 behind the daemon's contiguous prefix. If the daemon has all, so does the sender.
pub informed :
    (s : StreamState) (r : StreamRecvState) (l : Link)
    → Starts s r
    → Reach (begin s r) l
    → (stream_id in_flight wire_size now_us : ℕ) → Informed l stream_id in_flight wire_size now_us
informed s r l starts reach stream_id in_flight wire_size now_us =
    let inv = Reach-Inv s r starts reach in
    let a = build_stream_ack_bitmap_lem l.receiver in
    let reports = (stream_ack-Reports stream_id l.receiver inv.receiver_valid).0 in
    let (p, n, done, d) =
      process_stream-Processes (stream_ack stream_id l.receiver a.bitmap) now_us wire_size
        (about l in_flight) inv.sender_valid (highest-lt reports inv.range) in
    let marks = informed_marks l wire_size in_flight n p inv stream_id d in
    record {
      bitmap = a.bitmap;
      after = p;
      built = a.built;
      done = done;
      marks = marks;
      complete = λ full.
          d.valid.counted
          ∙ count_marked-all p.stream.acked (λ j h. ground (
            arith,
            marks j,
            count_marked-full l.receiver.received
                (omega (arith, inv.receiver_valid.counted, inv.receiver_valid.size)) j
                (omega
                  (arith, d.valid.size, d.same_count, inv.same_count, inv.receiver_valid.size)),
            run_all l inv full,
          ))
          ∙ d.valid.size;
    }
  where
    run_all :
        (l : Link)
        → Inv l
        → l.receiver.n_received ≡ l.receiver.chunk_count
        → l.receiver.contig_prefix ≡ l.receiver.chunk_count
    run_all l inv full =
        inv.receiver_valid.frontier
        ∙ run_length_of_all l.receiver.received (
            count_marked-full l.receiver.received
              (omega (arith, inv.receiver_valid.counted, inv.receiver_valid.size)))
        ∙ inv.receiver_valid.size
