-- ===== src/Cli/Streams.antt =====
-- crates/ahp-cli/src/net_sender.rs: what the sender knows of each stream, and what an acknowledgement
-- or a loss report changes of it. Where a function gives an `Option` that its source does not, `none`
-- is a panic. Times are microseconds since the transfer began; `done_at` is a float that nothing here
-- reads, and is left out.
pub mod Acks
pub mod Packets
pub mod Process
pub mod Payload
pub mod Bitmap
use mathlib.Core.Option
use favonius.Base.{
  ℕ, zero, suc, ◌+◌, ◌-◌, ◌*◌, ◌/◌, ◌%◌, ◌^◌, min, max, Bool, true, false, not, ◌&&◌, ◌||◌, List,
  [], ◌∷◌, ◌++◌, Option, none, some, ltb, leb, ◌==◌, if◌then◌else◌, length, drop, get_elem?,
  replicate, set, marked, advance, test_bit, set_bit, clear_bit,
}
use favonius.Streams.Split.{split_from, holds}
use favonius.Base.{Outcome, ok, err, panic}
use favonius.Bytes.Buf.{ByteBuf}
use favonius.Proto.Errors.{ProtoError}
use favonius.Proto.Data.{AckBitmap, NackRange, decode_ack}

pub record StreamState : Type 0 where
  pub id : ℕ
  pub chunk_base : ℕ
  pub chunk_count : ℕ
  pub next_local : ℕ
  pub acked : List Bool
  pub n_acked : ℕ
  pub sent_us : List ℕ
  pub flags : List ℕ
  pub scan_cursor : ℕ
  pub hc_applied : ℕ
  pub retx_queue : List ℕ

abbrev pub new : ℕ → ℕ → ℕ → StreamState
new id chunk_base chunk_count = record {
  id = id;
  chunk_base = chunk_base;
  chunk_count = chunk_count;
  next_local = 0;
  acked = replicate chunk_count false;
  n_acked = 0;
  sent_us = replicate chunk_count 0;
  flags = replicate chunk_count 0;
  scan_cursor = 0;
  hc_applied = 0;
  retx_queue = [];
}

unfoldable pub build_streams : ℕ → ℕ → List StreamState
build_streams total_chunks num_streams =
    let ns = max num_streams 1 in
    split_from new (total_chunks / ns) (total_chunks % ns) num_streams 0 0

abbrev pub is_empty {ℓ} : {A : Type ℓ} → List A → Bool
is_empty [] = true
is_empty (x ∷ xs) = false

unfoldable pub has_work : StreamState → Bool
has_work s = not (is_empty s.retx_queue) || ltb s.next_local s.chunk_count

-- The state and whether the chunk is newly acknowledged.
unfoldable pub mark_acked : StreamState → ℕ → StreamState × Bool
mark_acked s local_ci =
    if leb (length s.acked) local_ci || marked s.acked local_ci then (s, false) else (
      record s {
        acked = set s.acked local_ci true;
        n_acked = s.n_acked + 1;
        scan_cursor = advance (drop s.scan_cursor (set s.acked local_ci true)) s.scan_cursor;
      },
      true,
    )

-- `a.wrapping_sub(b)` and `a.wrapping_add(b)` on integers of `w` bits.
abbrev pub wrapping_sub : ℕ → ℕ → ℕ → ℕ
wrapping_sub w a b = (a + 2 ^ w - b) % 2 ^ w

abbrev pub wrapping_add : ℕ → ℕ → ℕ → ℕ
wrapping_add w a b = (a + b) % 2 ^ w

-- The numbers of the bits CHUNK_IN_RETX and CHUNK_RETRANSMITTED.
abbrev pub in_retx : ℕ
in_retx = 0

abbrev pub retransmitted : ℕ
retransmitted = 1

abbrev pub bind {ℓ κ} : {A : Type ℓ} {B : Type κ} → Option A → (A → Option B) → Option B
bind none k = none
bind (some a) k = k a

-- The outer option is a panic, the inner one the result; microseconds.
unfoldable pub rtt_sample : StreamState → ℕ → ℕ → Option (Option ℕ)
rtt_sample s local_ci now_us = bind (get_elem? s.flags local_ci) (λ flags.
    if test_bit flags retransmitted
    then some none
    else Option.map (λ sent. some (max (wrapping_sub 32 now_us sent) 1))
        (get_elem? s.sent_us local_ci))

-- What the loops of `process_ack_bitmap` change.
pub record Progress : Type 0 where
  pub stream : StreamState
  pub in_flight : ℕ
  pub newly_acked : List (ℕ × Option ℕ)

-- The body that both loops share, for the packet number `pn`.
unfoldable pub ack_packet : ℕ → ℕ → ℕ → Progress → Option Progress
unfolding mark_acked
ack_packet now_us wire_size pn p =
    let local_ci = wrapping_sub 64 pn p.stream.chunk_base in
    if ltb local_ci (length p.stream.acked) && not (marked p.stream.acked local_ci)
    then Option.map
        (λ rtt. record {
          stream = (mark_acked p.stream local_ci).0;
          in_flight = p.in_flight - wire_size;
          newly_acked = p.newly_acked ++ (pn, rtt) ∷ [];
        })
        (rtt_sample p.stream local_ci now_us)
    else some p

unfoldable pub ack_packets : ℕ → ℕ → List ℕ → Progress → Option Progress
ack_packets now_us wire_size [] p = some p
ack_packets now_us wire_size (pn ∷ pns) p =
    bind (ack_packet now_us wire_size pn p) (ack_packets now_us wire_size pns)

-- `lo..=hi`, by the count of its numbers.
unfoldable pub range_from : ℕ → ℕ → List ℕ
range_from lo zero = []
range_from lo (suc n) = lo ∷ range_from (lo + 1) n

-- `for bit in 0..8`, from `bit` on: the packet numbers of the bits that are set.
unfoldable pub byte_packets : ℕ → ℕ → ℕ → ℕ → ℕ → List ℕ
byte_packets zero byte bit bi bitmap_base = []
byte_packets (suc rounds) byte bit bi bitmap_base =
    let rest = byte_packets rounds byte (bit + 1) bi bitmap_base in
    if test_bit byte bit then wrapping_add 64 bitmap_base (bi * 8 + bit) ∷ rest else rest

-- `for (bi, &byte) in ack.bitmap.iter().enumerate()`
unfoldable pub bitmap_packets : List ℕ → ℕ → ℕ → List ℕ
bitmap_packets [] bi bitmap_base = []
bitmap_packets (byte ∷ bytes) bi bitmap_base =
    let rest = bitmap_packets bytes (bi + 1) bitmap_base in
    if byte == 0 then rest else byte_packets 8 byte 0 bi bitmap_base ++ rest

abbrev pub set_hc_applied : ℕ → Progress → Progress
set_hc_applied hc p = record p {
  stream = record (p.stream) { hc_applied = hc - p.stream.chunk_base + 1 };
}

-- The contiguous prefix: `lo..=ack.highest_contiguous`.
unfoldable pub apply_prefix : AckBitmap → ℕ → ℕ → Progress → Option Progress
apply_prefix ack now_us wire_size p =
    let s = p.stream in
    let hc = ack.highest_contiguous in
    let lo = max (max ack.base_packet_number s.chunk_base) (s.chunk_base + s.hc_applied) in
    if leb ack.base_packet_number hc && ltb hc (s.chunk_base + s.chunk_count)
    then if leb lo hc
      then Option.map (set_hc_applied hc)
          (ack_packets now_us wire_size (range_from lo (hc + 1 - lo)) p)
      else some p
    else some p

unfoldable pub process_stream : AckBitmap → ℕ → ℕ → Progress → Option Progress
process_stream ack now_us wire_size p = bind (apply_prefix ack now_us wire_size p) (
    ack_packets now_us wire_size
      (bitmap_packets ack.bitmap 0 (wrapping_add 64 ack.highest_contiguous 1)))

-- What a feedback packet changes, for all streams.
pub record Feedback : Type 0 where
  pub streams : List StreamState
  pub in_flight : ℕ
  pub newly_acked : List (ℕ × Option ℕ)

abbrev pub feedback : List StreamState → ℕ → Progress → Feedback
feedback streams sid p = record {
  streams = set streams sid p.stream;
  in_flight = p.in_flight;
  newly_acked = p.newly_acked;
}

unfoldable pub ack_stream :
    AckBitmap → Option StreamState → List StreamState → ℕ → ℕ → ℕ → Option Feedback
ack_stream ack none streams in_flight wire_size now_us =
    some (record { streams = streams; in_flight = in_flight; newly_acked = [] })
ack_stream ack (some s) streams in_flight wire_size now_us =
    Option.map (feedback streams ack.stream_id) (
      process_stream ack now_us wire_size
        (record { stream = s; in_flight = in_flight; newly_acked = [] }))

unfoldable pub ack_decoded :
    Outcome ProtoError AckBitmap → List StreamState → ℕ → ℕ → ℕ → Option Feedback
ack_decoded (ok ack) streams in_flight wire_size now_us =
    ack_stream ack (get_elem? streams ack.stream_id) streams in_flight wire_size now_us
ack_decoded (err e) streams in_flight wire_size now_us =
    some (record { streams = streams; in_flight = in_flight; newly_acked = [] })
ack_decoded panic streams in_flight wire_size now_us = none

module _ ⦃buf : ByteBuf⦄ where
  -- The payload of an ACK_BITMAP packet.
  unfoldable pub process_ack_bitmap : List ℕ → List StreamState → ℕ → ℕ → ℕ → Option Feedback
  process_ack_bitmap payload = ack_decoded (decode_ack payload).0
