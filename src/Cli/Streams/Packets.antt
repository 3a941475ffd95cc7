-- ===== src/Cli/Streams/Packets.antt =====
-- Which chunks the loops of `process_ack_bitmap` name.
use mathlib.Core.Path.{subst}
use native.Mathlib.Nat.{zero-div}
use favonius.Base.{
  ℕ, zero, suc, ◌+◌, ◌-◌, ◌^◌, ◌≤◌, ◌<◌, ◌≡◌, refl, ap, ◌∙◌, Bool, true, false, ◌&&◌, ◌||◌, List,
  [], ◌∷◌, ◌++◌, Option, some, inl, inr, ltb, leb, ◌==◌, ==_iff, Bool-cases, length, drop, set,
  marked, advance, length-append, marked-set, ltb→lt, ltb_false→le, lt→leb_false, test_bit, bit,
  arith,
}
use favonius.Cli.Streams.{
  StreamState, Progress, mark_acked, rtt_sample, ack_packet, ack_packets, wrapping_sub, range_from,
}
use favonius.Cli.Streams.Acks.{IsValid, Goes, stays, follows, rtt_sample_lem, mark_acked-IsValid}

-- The chunk that a packet number stands for, in a stream from `base` on.
abbrev pub local_of : ℕ → ℕ → ℕ
local_of base pn = wrapping_sub 64 pn base

-- One of the packets stands for the chunk `j`.
abbrev pub named : ℕ → List ℕ → ℕ → Bool
named base [] j = false
named base (pn ∷ pns) j = (j == local_of base pn) || named base pns j

pub named-append :
    (base : ℕ) (xs ys : List ℕ) (j : ℕ)
    → named base (xs ++ ys) j ≡ named base xs j || named base ys j
named-append base [] ys j = refl
named-append base (x ∷ xs) ys j = ground (arith, named-append base xs ys j)

-- What the body does with a chunk that is not acknowledged yet.
newly_acked_to :
    (now_us wire_size pn : ℕ) (p : Progress) (rtt : Option ℕ)
    → ltb (local_of p.stream.chunk_base pn) (length p.stream.acked) ≡ true
    → marked p.stream.acked (local_of p.stream.chunk_base pn) ≡ false
    → rtt_sample p.stream (local_of p.stream.chunk_base pn) now_us ≡ some rtt
    → ack_packet now_us wire_size pn p
      ≡ some (record {
        stream = (mark_acked p.stream (local_of p.stream.chunk_base pn)).0;
        in_flight = p.in_flight - wire_size;
        newly_acked = p.newly_acked ++ (pn, rtt) ∷ [];
      })
unfolding ack_packet
newly_acked_to now_us wire_size pn p rtt h e r = rw (h, e, r) refl

mark_acked-unmarked :
    (s : StreamState) (local : ℕ)
    → local < length s.acked
    → marked s.acked local ≡ false
    → (mark_acked s local).0 ≡ record s {
      acked = set s.acked local true;
      n_acked = s.n_acked + 1;
      scan_cursor = advance (drop s.scan_cursor (set s.acked local true)) s.scan_cursor;
    }
unfolding mark_acked
mark_acked-unmarked s local h e = rw (lt→leb_false (length s.acked) local h, e) refl

newly :
    (now_us wire_size pn : ℕ) (p : Progress)
    → IsValid p.stream
    → ltb (local_of p.stream.chunk_base pn) (length p.stream.acked) ≡ true
    → marked p.stream.acked (local_of p.stream.chunk_base pn) ≡ false
    → Goes wire_size
        (λ j. j == local_of p.stream.chunk_base pn)
        p
        (ack_packet now_us wire_size pn p)
newly now_us wire_size pn p v h e =
    let local = local_of p.stream.chunk_base pn in
    let within : local < length p.stream.acked = ltb→lt local (length p.stream.acked) h in
    let short : local < p.stream.chunk_count = omega (arith, v.size) in
    let (rtt, sampled) = rtt_sample_lem p.stream local now_us v short in
    (
      record {
        stream = record (p.stream) {
          acked = set p.stream.acked local true;
          n_acked = p.stream.n_acked + 1;
          scan_cursor =
              advance (drop p.stream.scan_cursor (set p.stream.acked local true))
                p.stream.scan_cursor;
        };
        in_flight = p.in_flight - wire_size;
        newly_acked = p.newly_acked ++ (pn, rtt) ∷ [];
      },
      1,
      newly_acked_to now_us wire_size pn p rtt h e sampled
          ∙ ap
              (λ (t : StreamState).
                let q : Progress = record {
                  stream = t;
                  in_flight = p.in_flight - wire_size;
                  newly_acked = p.newly_acked ++ (pn, rtt) ∷ [];
                } in
                some q)
              (mark_acked-unmarked p.stream local within e),
      record {
        valid = mark_acked-IsValid p.stream local v short e;
        same_base = refl;
        same_count = refl;
        same_applied = refl;
        counted = refl;
        reported = length-append p.newly_acked ((pn, rtt) ∷ []);
        released = omega arith;
        marks = λ j. marked-set p.stream.acked local j within ∙ ground (arith, short);
      },
    )

-- One round of either loop acknowledges the chunk that the number stands for, if the stream has it.
ack_packet_lem :
    (now_us wire_size pn : ℕ) (p : Progress)
    → IsValid p.stream
    → Goes wire_size
        (λ j. j == local_of p.stream.chunk_base pn)
        p
        (ack_packet now_us wire_size pn p)
ack_packet_lem now_us wire_size pn p v =
    let local = local_of p.stream.chunk_base pn in
    elim (Bool-cases (ltb local (length p.stream.acked))) [
      | inr out ↦
          unfold ack_packet in
          rw out (
            stays wire_size (λ j. j == local) p v
              (λ j e. ground (arith, v.size, ltb_false→le local (length p.stream.acked) out)))
      | inl within ↦ elim (Bool-cases (marked p.stream.acked local)) [
        | inr fresh ↦ newly now_us wire_size pn p v within fresh
        | inl old ↦
            unfold ack_packet in
            rw (within, old)
              (stays wire_size (λ j. j == local) p v
                (λ j e. ground (arith, old, ap (marked p.stream.acked) ((==_iff j local).0 e))))
      ]
    ]

pub ack_packets_lem :
    (now_us wire_size : ℕ) (pns : List ℕ) (p : Progress)
    → IsValid p.stream
    → Goes wire_size (named p.stream.chunk_base pns) p (ack_packets now_us wire_size pns p)
unfolding ack_packets
ack_packets_lem now_us wire_size [] p v = stays wire_size (λ j. false) p v (λ j e. cc)
ack_packets_lem now_us wire_size (pn ∷ pns) p v =
    follows wire_size (λ j. j == local_of p.stream.chunk_base pn) (named p.stream.chunk_base pns)
      (named p.stream.chunk_base (pn ∷ pns)) p (ack_packet now_us wire_size pn p)
      (ack_packets now_us wire_size pns) (ack_packet_lem now_us wire_size pn p v)
      (λ q w base count.
        subst (λ (b : ℕ). Goes wire_size (named b pns) q (ack_packets now_us wire_size pns q)) base
          (ack_packets_lem now_us wire_size pns q w))
      (λ j h. refl)

-- The numbers of a range stand for the chunks from the first to the last.
pub named-range_from :
    (base lo n j : ℕ)
    → base ≤ lo
    → lo + n ≤ 2 ^ 64
    → named base (range_from lo n) j ≡ (leb lo (base + j) && ltb (base + j) (lo + n))
unfolding range_from
named-range_from base lo zero j h k = ground arith
named-range_from base lo (suc n) j h k =
    let ih = named-range_from base (lo + 1) n j (omega arith) (omega arith) in
    let first : local_of base lo ≡ lo - base = omega arith in rw (first, ih) (ground arith)

pub test_bit_zero : (k : ℕ) → test_bit 0 k ≡ false
unfolding test_bit
test_bit_zero k = rw zero-div refl

-- Past the eight bits of one byte come those of the others.
pub byte_then :
    (bytes : List ℕ) (byte from j : ℕ)
    → (leb from j && bit (byte ∷ bytes) (j - from))
      ≡ (leb from j && (ltb j (from + 8) && test_bit byte (j - from)))
        || (leb (from + 8) j && bit bytes (j - (from + 8)))
unfolding bit
byte_then bytes byte from j = elim (Bool-cases (ltb (j - from) 8)) [
  | inl first ↦ rw first (ground (arith, ltb→lt (j - from) 8 first))
  | inr later ↦
      rw (later, ap (bit bytes) (less 8)) (ground (arith, ltb_false→le (j - from) 8 later))
]
  where
    less : (n : ℕ) → j - from - n ≡ j - (from + n)
    less n = omega arith
