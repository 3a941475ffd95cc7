-- ===== src/Cli/Retransmit/Losses.antt =====
-- What a NACK_RANGE packet does to a stream: the loss of the chunks that some set of names has, and how
-- such losses add up.
use favonius.Base.{
  ℕ, ◌+◌, ◌-◌, ◌%◌, ◌^◌, ◌≤◌, ◌<◌, ◌≡◌, refl, sym, ap, ap₂, ◌∙◌, Bool, true, false, not, ◌&&◌, ◌||◌,
  List, [], ◌∷◌, ◌++◌, append-nil, append_assoc, Option, some, ltb, leb, if◌then◌else◌, All, marked,
  test_bit, arith,
}
use favonius.Cli.Streams.{StreamState, in_retx, bind}
use favonius.Cli.Streams.Acks.{IsValid}
use favonius.Cli.Retransmit.{Losses}
use favonius.Cli.Retransmit.Queue.{times, times-append, entry, IsQueued}

-- Some range has the packet number.
abbrev pub reported : List (ℕ × ℕ) → ℕ → Bool
reported [] pn = false
reported ((start_pn, end_pn) ∷ ranges) pn = (leb start_pn pn && leb pn end_pn) || reported ranges pn

-- The chunk may be queued for a loss report: it is one of the stream's, neither acknowledged nor queued,
-- and was sent 50 milliseconds ago or earlier, by a clock of 32 bits.
abbrev pub can_be_lost : ℕ → StreamState → ℕ → Bool
can_be_lost now_us s j =
    (ltb j s.chunk_count && not (marked s.acked j))
    && (not (test_bit (entry s.flags j) in_retx)
        && leb 50000 ((now_us + 2 ^ 32 - entry s.sent_us j) % 2 ^ 32))

-- The packet number is one of the stream's chunks.
abbrev pub Within : StreamState → ℕ → Type 0
Within s pn = (s.chunk_base ≤ pn) × (pn < s.chunk_base + s.chunk_count)

-- Of the chunks that `names` has, those that can be lost are queued, ahead of what is queued already,
-- and their packet numbers, `new_losses`, reported, once each; after that they cannot be lost any
-- more. The other chunks stand in the queue as before.
pub record Nacked (now_us : ℕ) (s : StreamState) (names : ℕ → Bool) (lost : List ℕ)
    (result : Option Losses) : Type 0 where
  pub after : StreamState
  pub new_losses : List ℕ
  pub done : result ≡ some (after, lost ++ new_losses)
  pub valid : IsValid after
  pub queued : IsQueued after
  pub same_acked : after.acked ≡ s.acked
  pub same_base : after.chunk_base ≡ s.chunk_base
  pub same_count : after.chunk_count ≡ s.chunk_count
  pub counts :
      (j : ℕ)
      → times j after.retx_queue ≡ times j s.retx_queue + times (s.chunk_base + j) new_losses
  pub exactly :
      (j : ℕ)
      → times (s.chunk_base + j) new_losses ≡ (if names j && can_be_lost now_us s j then 1 else 0)
  pub left : (j : ℕ) → can_be_lost now_us after j ≡ can_be_lost now_us s j && not (names j)
  pub in_stream : All (Within s) new_losses
  pub ahead : List ℕ
  pub in_front : after.retx_queue ≡ ahead ++ s.retx_queue

pub unchanged :
    (now_us : ℕ) (s : StreamState) (names : ℕ → Bool) (lost : List ℕ)
    → IsValid s
    → IsQueued s
    → ((j : ℕ) → names j && can_be_lost now_us s j ≡ false)
    → Nacked now_us s names lost (some (s, lost))
unchanged now_us s names lost v q none_lost = record {
  after = s;
  new_losses = [];
  done = ap (λ (l : List ℕ). some (s, l)) (sym (append-nil lost));
  valid = v;
  queued = q;
  same_acked = refl;
  same_base = refl;
  same_count = refl;
  counts = λ j. omega arith;
  exactly = λ j. rw (none_lost j) refl;
  left = λ j. stays (names j) (can_be_lost now_us s j) (none_lost j);
  in_stream = tt;
  ahead = [];
  in_front = refl;
}
  where
    stays : (n c : Bool) → n && c ≡ false → c ≡ c && not n
    stays true true e = absurd (cc)
    stays true false e = refl
    stays false true e = refl
    stays false false e = refl

-- What is said of one set of names holds for another, if they differ on no chunk that can be lost.
pub renamed :
    (now_us : ℕ) (s : StreamState) (names names' : ℕ → Bool) (lost : List ℕ)
    (result : Option Losses)
    → Nacked now_us s names lost result
    → ((j : ℕ) → can_be_lost now_us s j ≡ true → names j ≡ names' j)
    → Nacked now_us s names' lost result
renamed now_us s names names' lost result a e = record {
  after = a.after;
  new_losses = a.new_losses;
  done = a.done;
  valid = a.valid;
  queued = a.queued;
  same_acked = a.same_acked;
  same_base = a.same_base;
  same_count = a.same_count;
  counts = a.counts;
  exactly = λ j.
      a.exactly j
      ∙ ap (λ (b : Bool). if b then 1 else 0)
          (met (names j) (names' j) (can_be_lost now_us s j) (e j));
  left = λ j. a.left j ∙ apart (names j) (names' j) (can_be_lost now_us s j) (e j);
  in_stream = a.in_stream;
  ahead = a.ahead;
  in_front = a.in_front;
}
  where
    met : (n n' c : Bool) → (c ≡ true → n ≡ n') → n && c ≡ n' && c
    met n n' true h = ap (λ (b : Bool). b && true) (h refl)
    met true true false h = refl
    met true false false h = refl
    met false true false h = refl
    met false false false h = refl

    apart : (n n' c : Bool) → (c ≡ true → n ≡ n') → c && not n ≡ c && not n'
    apart n n' true h = ap not (h refl)
    apart n n' false h = refl

All-append :
    (base count base' count' : ℕ) (xs ys : List ℕ)
    → base' ≡ base
    → count' ≡ count
    → All (λ pn. (base ≤ pn) × (pn < base + count)) xs
    → All (λ pn. (base' ≤ pn) × (pn < base' + count')) ys
    → All (λ pn. (base ≤ pn) × (pn < base + count)) (xs ++ ys)
All-append base count base' count' [] [] e f h k = tt
All-append base count base' count' [] (y ∷ ys) e f h k = (
  (omega (arith, k.0.0), omega (arith, k.0.1)),
  All-append base count base' count' [] ys e f h k.1,
)
All-append base count base' count' (x ∷ xs) ys e f h k =
    (h.0, All-append base count base' count' xs ys e f h.1 k)

-- One loss after another is the loss of what both name.
pub and_then :
    (now_us : ℕ) (s : StreamState) (names names' : ℕ → Bool) (lost : List ℕ) (first : Option Losses)
    (rest : Losses → Option Losses)
    → Nacked now_us s names lost first
    → ((t : StreamState) (l : List ℕ)
        → IsValid t
        → IsQueued t
        → t.chunk_base ≡ s.chunk_base
        → t.chunk_count ≡ s.chunk_count
        → Nacked now_us t names' l (rest (t, l)))
    → Nacked now_us s (λ j. names j || names' j) lost (bind first rest)
and_then now_us s names names' lost first rest a more =
    let b = more a.after (lost ++ a.new_losses) a.valid a.queued a.same_base a.same_count in
    record {
      after = b.after;
      new_losses = a.new_losses ++ b.new_losses;
      done =
          ap (λ (o : Option Losses). bind o rest) a.done
          ∙ b.done
          ∙ ap (λ (l : List ℕ). some (b.after, l)) (append_assoc lost a.new_losses b.new_losses);
      valid = b.valid;
      queued = b.queued;
      same_acked = b.same_acked ∙ a.same_acked;
      same_base = b.same_base ∙ a.same_base;
      same_count = b.same_count ∙ a.same_count;
      counts = λ j. omega (
        arith,
        a.counts j,
        b.counts j,
        times-append (s.chunk_base + j) a.new_losses b.new_losses,
        ap (λ (base : ℕ). times (base + j) b.new_losses) a.same_base,
      );
      exactly = λ j.
          times-append (s.chunk_base + j) a.new_losses b.new_losses
          ∙ ap₂ (◌+◌) (a.exactly j)
              (sym (ap (λ (base : ℕ). times (base + j) b.new_losses) a.same_base) ∙ b.exactly j)
          ∙ together (names j) (names' j) (can_be_lost now_us s j) (can_be_lost now_us a.after j)
              (a.left j);
      left = λ j.
          b.left j
          ∙ ap (λ (c : Bool). c && not (names' j)) (a.left j)
          ∙ neither (names j) (names' j) (can_be_lost now_us s j);
      in_stream =
          All-append s.chunk_base s.chunk_count (a.after).chunk_base (a.after).chunk_count
            a.new_losses b.new_losses a.same_base a.same_count a.in_stream b.in_stream;
      ahead = b.ahead ++ a.ahead;
      in_front =
          b.in_front
          ∙ ap (◌++◌ b.ahead) a.in_front
          ∙ sym (append_assoc b.ahead a.ahead s.retx_queue);
    }
  where
    together :
        (n n' c d : Bool)
        → d ≡ c && not n
        → (if n && c then 1 else 0) + (if n' && d then 1 else 0) ≡ (if (n || n') && c then 1 else 0)
    together n n' c d e = ground arith

    neither : (n n' c : Bool) → (c && not n) && not n' ≡ c && not (n || n')
    neither true n' true = refl
    neither false n' true = refl
    neither n n' false = refl
