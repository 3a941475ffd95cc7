-- ===== src/Transfer/Link.antt =====
-- One stream of a transfer: chunks come in at the daemon in any order, it acknowledges when it likes,
-- and the network delivers acknowledgements late, repeatedly, out of order or not at all.
use mathlib.Core.Path.{subst}
use favonius.Base.{
  ℕ, ◌≤◌, ◌<◌, ◌≡◌, sym, ap, ◌∙◌, true, false, ◌||◌, ◌⊎◌, ltb→lt, ltb_false→le, List, [], ◌∷◌,
  Option, some, inl, inr, ltb, Bool-cases, marked, arith,
}
use favonius.Proto.Data.{AckBitmap}
use favonius.Daemon.Streams.{StreamRecvState, mark_received, build_stream_ack_bitmap}
use favonius.Daemon.Streams.Marks
use favonius.Daemon.Streams.Marks.{mark_received_lem}
use favonius.Daemon.Streams.Acks.{build_stream_ack_bitmap_lem}
use favonius.Cli.Streams.{StreamState, Progress, process_stream}
use favonius.Cli.Streams.Acks
use favonius.Cli.Streams.Process.{
  in_prefix, in_bitmap, Processed, process_stream-Processes, applied_after,
}
use favonius.Transfer.Reports.{
  InRange, Reports, Reports-mono, stream_ack, stream_ack-Reports, highest-lt, in_prefix_iff,
  named_has, applied_after_lem,
}

-- The acknowledgements under way are all that were ever sent: one that is lost is never delivered.
pub record Link : Type 0 where
  pub sender : StreamState
  pub receiver : StreamRecvState
  pub acks : List AckBitmap

-- How both sides start: with the same chunks, and the sender skips no chunk that the receiver lacks.
pub record Starts (s : StreamState) (r : StreamRecvState) : Type 0 where
  pub sender_valid : Acks.IsValid s
  pub receiver_valid : Marks.IsValid r
  pub same_base : s.chunk_base ≡ r.chunk_base
  pub same_count : s.chunk_count ≡ r.chunk_count
  pub none_applied : s.hc_applied ≡ 0
  pub range : InRange r.chunk_base r.chunk_count
  pub skipped : (j : ℕ) → marked s.acked j ≡ true → marked r.received j ≡ true

abbrev pub IsOneOf : AckBitmap → List AckBitmap → Type 0
IsOneOf ack [] = ⊥
IsOneOf ack (a ∷ as') = (ack ≡ a) ⊎ IsOneOf ack as'

pub data Step : Link → Link → Type 0 where
  -- A chunk that is not in yet comes in.
  chunk_arrives :
      (l : Link) (local : ℕ) (r : StreamRecvState)
      → local < l.receiver.chunk_count
      → marked l.receiver.received local ≡ false
      → mark_received l.receiver local ≡ some r
      → Step l (record l { receiver = r })
  -- The receiver reports what it has.
  ack_sent :
      (l : Link) (stream_id hc : ℕ) (bitmap : List ℕ)
      → build_stream_ack_bitmap l.receiver ≡ some (hc, bitmap)
      → Step l (record l { acks = stream_ack stream_id l.receiver bitmap ∷ l.acks })
  -- A report that was sent at any time reaches the sender.
  ack_arrives :
      (l : Link) (ack : AckBitmap) (in_flight now_us wire_size : ℕ) (p : Progress)
      → IsOneOf ack l.acks
      → process_stream ack now_us wire_size
          (record { stream = l.sender; in_flight = in_flight; newly_acked = [] })
        ≡ some p
      → Step l (record l { sender = p.stream })

pub data Reach (start : Link) : Link → Type 0 where
  here : Reach start start
  next : {l m : Link} → Reach start l → Step l m → Reach start m

-- What holds of every reachable state.
pub record Inv (l : Link) : Type 0 where
  pub sender_valid : Acks.IsValid l.sender
  pub receiver_valid : Marks.IsValid l.receiver
  pub same_base : l.sender.chunk_base ≡ l.receiver.chunk_base
  pub same_count : l.sender.chunk_count ≡ l.receiver.chunk_count
  pub range : InRange l.receiver.chunk_base l.receiver.chunk_count
  pub acked_is_received :
      (j : ℕ) → marked l.sender.acked j ≡ true → marked l.receiver.received j ≡ true
  pub applied_is_acked : (j : ℕ) → j < l.sender.hc_applied → marked l.sender.acked j ≡ true
  pub truthful :
      (ack : AckBitmap)
      → IsOneOf ack l.acks
      → Reports l.receiver.chunk_base l.receiver.chunk_count (marked l.receiver.received) ack

start-Inv :
    (s : StreamState) (r : StreamRecvState)
    → Starts s r
    → Inv (record { sender = s; receiver = r; acks = [] })
start-Inv s r h = record {
  sender_valid = h.sender_valid;
  receiver_valid = h.receiver_valid;
  same_base = h.same_base;
  same_count = h.same_count;
  range = h.range;
  acked_is_received = h.skipped;
  applied_is_acked = λ j p. absurd (omega (arith, h.none_applied));
  truthful = λ ack q. absurd q;
}

-- The same result, so the same state.
same_result : {A : Type 0} {m : Option A} {a b : A} → m ≡ some a → m ≡ some b → a ≡ b
same_result p q = cc

chunk_arrives-Inv :
    (l : Link) (local : ℕ)
    → Inv l
    → local < l.receiver.chunk_count
    → (e : marked l.receiver.received local ≡ false) → (m : Marks.Received l.receiver local)
    → Inv (record l { receiver = m.after })
chunk_arrives-Inv l local inv h e m = record {
  sender_valid = inv.sender_valid;
  receiver_valid = m.follows.valid;
  same_base = inv.same_base ∙ sym m.follows.same_base;
  same_count = inv.same_count ∙ sym m.follows.same_count;
  range = rw (m.follows.same_base, m.follows.same_count) inv.range;
  acked_is_received = λ j q. stays j (inv.acked_is_received j q);
  applied_is_acked = inv.applied_is_acked;
  truthful = λ ack q.
      rw (m.follows.same_base, m.follows.same_count) (Reports-mono (inv.truthful ack q) stays);
}
  where
    stays : (j : ℕ) → marked l.receiver.received j ≡ true → marked m.after.received j ≡ true
    stays j q = ground (arith, m.marks j)

abbrev pub about : Link → ℕ → Progress
about l in_flight = record { stream = l.sender; in_flight = in_flight; newly_acked = [] }

abbrev pub Read : ℕ → AckBitmap → Link → ℕ → Progress → ℕ → Type 0
Read wire_size ack l in_flight p n =
    Processed wire_size (λ j. in_prefix ack l.sender j || in_bitmap ack l.sender j)
      (applied_after ack l.sender) (about l in_flight) p n

module _ (l : Link) (ack : AckBitmap) (wire_size in_flight n : ℕ) (p : Progress) (inv : Inv l)
    (r : Reports l.receiver.chunk_base l.receiver.chunk_count (marked l.receiver.received) ack)
    (d : Read wire_size ack l in_flight p n) where
  -- The prefix that was applied before, and the one that is applied now.
  covered :
      (j : ℕ)
      → j < p.stream.hc_applied
      → (j < l.sender.hc_applied) ⊎ ((l.sender.hc_applied ≤ j) × (j < r.prefix))
  covered j h = elim (Bool-cases (ltb j l.sender.hc_applied)) [
    | inl old ↦ inl (ltb→lt j l.sender.hc_applied old)
    | inr new_part ↦ inr (
      ltb_false→le j l.sender.hc_applied new_part,
      omega (
        arith,
        d.applied,
        applied_after_lem r inv.range l.sender inv.same_base inv.same_count,
        ltb_false→le j l.sender.hc_applied new_part,
      ),
    )
  ]

  ack_arrives-Inv : Inv (record l { sender = p.stream })
  ack_arrives-Inv = record {
    sender_valid = d.valid;
    receiver_valid = inv.receiver_valid;
    same_base = d.same_base ∙ inv.same_base;
    same_count = d.same_count ∙ inv.same_count;
    range = inv.range;
    acked_is_received = λ j q. elim (Bool-cases (marked l.sender.acked j)) [
      | inl old ↦ inv.acked_is_received j old
      | inr fresh ↦
          named_has r inv.range l.sender j inv.same_base inv.same_count (ground (arith, d.marks j))
    ];
    applied_is_acked = λ j h. elim (covered j h) [
      | inl old ↦ ground (arith, d.marks j, inv.applied_is_acked j old)
      | inr (from, below) ↦ ground (
        arith,
        d.marks j,
        r.short,
        inv.same_count,
        in_prefix_iff r inv.range l.sender j inv.same_base inv.same_count,
      )
    ];
    truthful = inv.truthful;
  }

abbrev Says : Link → AckBitmap → Type 0
Says l ack = Reports l.receiver.chunk_base l.receiver.chunk_count (marked l.receiver.received) ack

Step-Inv : {l m : Link} → Step l m → Inv l → Inv m
Step-Inv (chunk_arrives l local r h e done) inv =
    let m = mark_received_lem l.receiver local inv.receiver_valid h e in
    subst (λ (s : StreamRecvState). Inv (record l { receiver = s })) (same_result m.done done)
      (chunk_arrives-Inv l local inv h e m)
Step-Inv (ack_sent l stream_id hc bitmap done) inv =
    let a = build_stream_ack_bitmap_lem l.receiver in
    let same : a.bitmap ≡ bitmap = ap (λ (t : ℕ × List ℕ). t.1) (same_result a.built done) in
    let now = (stream_ack-Reports stream_id l.receiver inv.receiver_valid).0 in
    record {
      sender_valid = inv.sender_valid;
      receiver_valid = inv.receiver_valid;
      same_base = inv.same_base;
      same_count = inv.same_count;
      range = inv.range;
      acked_is_received = inv.acked_is_received;
      applied_is_acked = inv.applied_is_acked;
      truthful = λ ack q. elim q [
        | inl this ↦ subst (Says l) (ap (stream_ack stream_id l.receiver) same ∙ sym this) now
        | inr old ↦ inv.truthful ack old
      ];
    }
Step-Inv (ack_arrives l ack in_flight now_us wire_size p q done) inv =
    let r = inv.truthful ack q in
    let (p', n, done', d) =
      process_stream-Processes ack now_us wire_size (about l in_flight) inv.sender_valid
        (highest-lt r inv.range) in
    subst (λ (t : Progress). Inv (record l { sender = t.stream })) (same_result done' done)
      (ack_arrives-Inv l ack wire_size in_flight n p' inv r d)

abbrev pub begin : StreamState → StreamRecvState → Link
begin s r = record { sender = s; receiver = r; acks = [] }

pub Reach-Inv :
    (s : StreamState) (r : StreamRecvState) {l : Link} → Starts s r → Reach (begin s r) l → Inv l
Reach-Inv s r h here = start-Inv s r h
Reach-Inv s r h (next reach step) = Step-Inv step (Reach-Inv s r h reach)
