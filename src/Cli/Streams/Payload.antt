-- ===== src/Cli/Streams/Payload.antt =====
-- The payload of an ACK_BITMAP packet, for all streams of the sender.
use mathlib.Core.Option
use mathlib.Core.Path.{subst}
use favonius.Base.{
  ℕ, zero, suc, ◌+◌, ◌-◌, ◌*◌, ◌^◌, ◌<◌, ◌≡◌, refl, ap, List, [], ◌∷◌, Option, none, some, All,
  Outcome, length, length-set, get_elem?, set, arith,
}
use favonius.Bytes.Buf.{ByteBuf}
use favonius.Bytes.Endian.{IsBytes}
use favonius.Bytes.Cursor.{Total, done, failed}
use favonius.Proto.Errors.{ProtoError}
use favonius.Proto.Data.{AckBitmap, decode_ack}
use favonius.Proto.Data.Ack.{Fits, decode_ack-Total}
use favonius.Cli.Streams.{
  StreamState, Feedback, ack_stream, ack_decoded, process_ack_bitmap, feedback,
}
use favonius.Cli.Streams.Acks.{IsValid}
use favonius.Cli.Streams.Process.{process_stream-Processes}

abbrev pub total_acked : List StreamState → ℕ
total_acked [] = 0
total_acked (s ∷ ss) = s.n_acked + total_acked ss

-- `n` chunks are newly acknowledged: so many are reported, the streams count so many more, and the
-- window is released by as many packets.
pub record Fed (wire_size : ℕ) (streams : List StreamState) (in_flight : ℕ) (f : Feedback) (n : ℕ)
    : Type 0 where
  pub valid : All IsValid f.streams
  pub size : length f.streams ≡ length streams
  pub reported : length f.newly_acked ≡ n
  pub counted : total_acked f.streams ≡ total_acked streams + n
  pub released : f.in_flight ≡ in_flight - wire_size * n

abbrev pub Feeds : ℕ → List StreamState → ℕ → Option Feedback → Type 0
Feeds wire_size streams in_flight result =
    (f : Feedback) × (n : ℕ) × (result ≡ some f) × Fed wire_size streams in_flight f n

unfed :
    (wire_size : ℕ) (streams : List StreamState) (in_flight : ℕ)
    → All IsValid streams
    → Feeds wire_size streams in_flight
        (some (record { streams = streams; in_flight = in_flight; newly_acked = [] }))
unfed wire_size streams in_flight v = (
  record { streams = streams; in_flight = in_flight; newly_acked = [] },
  0,
  refl,
  record { valid = v; size = refl; reported = refl; counted = omega arith; released = omega arith },
)

some_inj {ℓ} : {A : Type ℓ} {a b : A} → some a ≡ some b → a ≡ b
some_inj e = cc

IsValid-at :
    (streams : List StreamState) (i : ℕ) {s : StreamState}
    → All IsValid streams
    → get_elem? streams i ≡ some s
    → IsValid s
IsValid-at [] i v e = absurd (cc)
IsValid-at (t ∷ ts) zero v e = subst IsValid (some_inj e) v.0
IsValid-at (t ∷ ts) (suc i) v e = IsValid-at ts i v.1 e

set-IsValid :
    (streams : List StreamState) (i : ℕ) (s : StreamState)
    → All IsValid streams
    → IsValid s
    → All IsValid (set streams i s)
set-IsValid [] i s v w = tt
set-IsValid (t ∷ ts) zero s v w = (w, v.1)
set-IsValid (t ∷ ts) (suc i) s v w = (v.0, set-IsValid ts i s v.1 w)

total_acked-set :
    (streams : List StreamState) (i n : ℕ) (s s' : StreamState)
    → get_elem? streams i ≡ some s
    → s'.n_acked ≡ s.n_acked + n
    → total_acked (set streams i s') ≡ total_acked streams + n
total_acked-set [] i n s s' e h = absurd (cc)
total_acked-set (t ∷ ts) zero n s s' e h =
    omega (arith, ap (λ (s : StreamState). s.n_acked) (some_inj e))
total_acked-set (t ∷ ts) (suc i) n s s' e h = omega (arith, total_acked-set ts i n s s' e h)

ack_stream_lem :
    (ack : AckBitmap) (o : Option StreamState) (streams : List StreamState)
    (in_flight wire_size now_us : ℕ)
    → get_elem? streams ack.stream_id ≡ o
    → All IsValid streams
    → ack.highest_contiguous < 2 ^ 64
    → Feeds wire_size streams in_flight (ack_stream ack o streams in_flight wire_size now_us)
unfolding ack_stream
ack_stream_lem ack none streams in_flight wire_size now_us e v h =
    unfed wire_size streams in_flight v
ack_stream_lem ack (some s) streams in_flight wire_size now_us e v h =
    let (p, n, finished, d) =
      process_stream-Processes ack now_us wire_size
        (record { stream = s; in_flight = in_flight; newly_acked = [] })
        (IsValid-at streams ack.stream_id v e) h in
    (
      record {
        streams = set streams ack.stream_id p.stream;
        in_flight = p.in_flight;
        newly_acked = p.newly_acked;
      },
      n,
      ap (Option.map (feedback streams ack.stream_id)) finished,
      record {
        valid = set-IsValid streams ack.stream_id p.stream v d.valid;
        size = length-set streams ack.stream_id p.stream;
        reported = omega (arith, d.reported);
        counted = total_acked-set streams ack.stream_id n s p.stream e d.counted;
        released = d.released;
      },
    )

decoded_lem :
    (r : Outcome ProtoError AckBitmap × List ℕ) (streams : List StreamState)
    (in_flight wire_size now_us : ℕ) {Q : AckBitmap → List ℕ → Type 0}
    → Total (λ p s'. Q p s' × Fits p) r
    → All IsValid streams
    → Feeds wire_size streams in_flight (ack_decoded r.0 streams in_flight wire_size now_us)
unfolding ack_decoded
decoded_lem r streams in_flight wire_size now_us (done {a} q) v =
    ack_stream_lem a (get_elem? streams a.stream_id) streams in_flight wire_size now_us refl v
      (omega (arith, q.1.2))
decoded_lem r streams in_flight wire_size now_us failed v = unfed wire_size streams in_flight v

module _ ⦃buf : ByteBuf⦄ where
  -- Whatever bytes an ACK_BITMAP packet has for its payload, reading it does not panic and leaves the
  -- streams valid. The chunks that are reported are as many as the streams newly count, and the window
  -- is released by as many packets.
  pub process_ack_bitmap_lem :
      (payload : List ℕ) (streams : List StreamState) (in_flight wire_size now_us : ℕ)
      → IsBytes payload
      → All IsValid streams
      → Feeds wire_size streams in_flight
          (process_ack_bitmap payload streams in_flight wire_size now_us)
  unfolding process_ack_bitmap
  process_ack_bitmap_lem payload streams in_flight wire_size now_us h v =
      decoded_lem (decode_ack payload) streams in_flight wire_size now_us
        (decode_ack-Total payload h) v
