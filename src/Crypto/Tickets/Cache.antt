-- ===== src/Crypto/Tickets/Cache.antt =====
-- The cache of used tickets, over the checks that follow (UsedTicketCache).
use native.Mathlib.Nat.{mod-eq_of_lt}
use favonius.Base.{
  ℕ, ◌+◌, ◌-◌, ◌*◌, ◌^◌, ◌≤◌, ◌<◌, ◌≡◌, refl, ap, ◌∙◌, min, Bool, true, false, List, [], ◌∷◌, ltb,
  lt→ltb, le→ltb_false, if◌then◌else◌, All, same_bytes, same_bytes_refl, arith, ok, err,
}
use favonius.Crypto.Aead.{Aead}
use favonius.Crypto.Tickets.{
  SessionTicket, TicketKey, UsedTicketCache, retain, contains_key, ticket_id, check_and_record,
  issue, decrypt, decryption_failed,
}
use favonius.Crypto.Tickets.Issue.{Issued, ticket_of, decrypt-issue}

-- The cache has an entry for the identifier up to `expiry`.
pub data Remembers (id : List ℕ) (expiry : ℕ) : UsedTicketCache → Type 0 where
  first : {used : UsedTicketCache} → Remembers id expiry ((id, expiry) ∷ used)
  later :
      {e : List ℕ × ℕ} {used : UsedTicketCache}
      → Remembers id expiry used
      → Remembers id expiry (e ∷ used)

kept :
    (c : Bool) (id : List ℕ) (expiry : ℕ) (e : List ℕ × ℕ) (rest : UsedTicketCache)
    → Remembers id expiry rest
    → Remembers id expiry (if c then e ∷ rest else rest)
kept true id expiry e rest m = later m
kept false id expiry e rest m = m

retain-Remembers :
    {id : List ℕ} {expiry : ℕ} (now : ℕ) (used : UsedTicketCache)
    → now < expiry
    → Remembers id expiry used
    → Remembers id expiry (retain now used)
unfolding retain
retain-Remembers now [] h m = elim m [ ]
retain-Remembers {id} {expiry} now ((k, e) ∷ used) h first = rw (lt→ltb now expiry h) first
retain-Remembers {id} {expiry} now ((k, e) ∷ used) h (later m) =
    kept (ltb now e) id expiry (k, e) (retain now used) (retain-Remembers now used h m)

-- What a check gives, by whether the identifier is there.
abbrev answer : Bool → List ℕ × ℕ → UsedTicketCache → Bool × UsedTicketCache
answer c e used = if c then (false, used) else (true, e ∷ used)

either : (c r : Bool) → r ≡ true → (if c then true else r) ≡ true
either true r e = refl
either false r e = e

contains_key-Remembers :
    {id : List ℕ} {expiry : ℕ} (used : UsedTicketCache)
    → Remembers id expiry used
    → contains_key used id ≡ true
unfolding contains_key
contains_key-Remembers [] m = elim m [ ]
contains_key-Remembers {id} ((k, e) ∷ used) first = rw (same_bytes_refl id) refl
contains_key-Remembers {id} ((k, e) ∷ used) (later m) =
    either (same_bytes k id) (contains_key used id) (contains_key-Remembers used m)

neither : (b r : Bool) → (if b then true else r) ≡ false → (b ≡ false) × (r ≡ false)
neither true r e = absurd (cc)
neither false r e = (refl, e)

forgets :
    (c : Bool) (k : List ℕ) (e : ℕ) (id : List ℕ) (rest : UsedTicketCache)
    → same_bytes k id ≡ false
    → contains_key rest id ≡ false
    → contains_key (if c then (k, e) ∷ rest else rest) id ≡ false
unfolding contains_key
forgets true k e id rest p h = rw p h
forgets false k e id rest p h = h

module _ (sha256 : List ℕ → List ℕ) where
  -- Until when a ticket that is recorded now is remembered.
  abbrev pub remembered_until : ℕ → SessionTicket → ℕ
  remembered_until now t = min (now + min t.lifetime (24 * 3600)) (2 ^ 64 - 1)

  -- The checks of the tickets that come in, one after the other.
  pub run : List (ℕ × SessionTicket) → UsedTicketCache → UsedTicketCache
  run [] cache = cache
  run ((now, t) ∷ checks) cache = run checks (check_and_record sha256 now t cache).1

  added :
      (c : Bool) (id : List ℕ) (expiry : ℕ) (e : List ℕ × ℕ) (used : UsedTicketCache)
      → Remembers id expiry used
      → Remembers id expiry (answer c e used).1
  added true id expiry e used m = m
  added false id expiry e used m = later m

  check-Remembers :
      {id : List ℕ} {expiry : ℕ} (now : ℕ) (t : SessionTicket) (cache : UsedTicketCache)
      → now < expiry
      → Remembers id expiry cache
      → Remembers id expiry (check_and_record sha256 now t cache).1
  unfolding check_and_record
  check-Remembers {id} {expiry} now t cache h m =
      added _ id expiry _ (retain now cache) (retain-Remembers now cache h m)

  run-Remembers :
      {id : List ℕ} {expiry : ℕ} (checks : List (ℕ × SessionTicket)) (cache : UsedTicketCache)
      → All (λ c. c.0 < expiry) checks
      → Remembers id expiry cache
      → Remembers id expiry (run checks cache)
  unfolding run
  run-Remembers [] cache h m = m
  run-Remembers ((now, t) ∷ checks) cache (h, hs) m =
      run-Remembers checks _ hs (check-Remembers now t cache h m)

  recorded :
      (c : Bool) (id : List ℕ) (expiry : ℕ) (used : UsedTicketCache)
      → (answer c (id, expiry) used).0 ≡ true
      → Remembers id expiry (answer c (id, expiry) used).1
  recorded true id expiry used e = absurd (cc)
  recorded false id expiry used e = first

  accepted-Remembers :
      (now : ℕ) (t : SessionTicket) (cache : UsedTicketCache)
      → (check_and_record sha256 now t cache).0 ≡ true
      → Remembers
          (ticket_id sha256 t)
          (remembered_until now t)
          (check_and_record sha256 now t cache).1
  unfolding check_and_record
  accepted-Remembers now t cache e = recorded _ _ _ (retain now cache) e

  refused-Remembers :
      (now expiry : ℕ) (t : SessionTicket) (cache : UsedTicketCache)
      → now < expiry
      → Remembers (ticket_id sha256 t) expiry cache
      → (check_and_record sha256 now t cache).0 ≡ false
  unfolding check_and_record
  refused-Remembers now expiry t cache h m =
      rw (contains_key-Remembers (retain now cache) (retain-Remembers now cache h m)) refl

  -- A ticket that was accepted is refused whenever it is presented again before the second in which its
  -- lifetime, or a day, has passed, whichever tickets are checked in between and at whatever times before
  -- that second.
  pub replay_refused :
      (now again : ℕ) (t : SessionTicket) (cache : UsedTicketCache)
      (checks : List (ℕ × SessionTicket))
      → (check_and_record sha256 now t cache).0 ≡ true
      → All (λ c. c.0 < remembered_until now t) checks
      → again < remembered_until now t
      → (check_and_record sha256 again t (run checks (check_and_record sha256 now t cache).1)).0
        ≡ false
  replay_refused now again t cache checks e h k =
      refused-Remembers again (remembered_until now t) t _ k
        (run-Remembers checks _ h (accepted-Remembers now t cache e))

  retain-absent :
      (now : ℕ) (used : UsedTicketCache) (id : List ℕ)
      → contains_key used id ≡ false
      → contains_key (retain now used) id ≡ false
  unfolding retain contains_key
  retain-absent now [] id h = refl
  retain-absent now ((k, e) ∷ used) id h =
      let parts = neither (same_bytes k id) (contains_key used id) h in
      forgets (ltb now e) k e id (retain now used) parts.0 (retain-absent now used id parts.1)

  forgotten :
      (now expiry : ℕ) (id : List ℕ) (used : UsedTicketCache)
      → expiry ≤ now
      → contains_key used id ≡ false
      → contains_key (retain now ((id, expiry) ∷ used)) id ≡ false
  unfolding retain
  forgotten now expiry id used h k = rw (le→ltb_false now expiry h) (retain-absent now used id k)

  twice_accepted :
      (now lifetime : ℕ) (t : SessionTicket) (used : UsedTicketCache)
      → t.lifetime ≡ lifetime
      → contains_key used (ticket_id sha256 t) ≡ false
      → ((check_and_record sha256 now t used).0 ≡ true)
        × ((check_and_record sha256 (now + lifetime) t (check_and_record sha256 now t used).1).0
            ≡ true)
  unfolding check_and_record
  twice_accepted now lifetime t used e h = rw (retain-absent now used (ticket_id sha256 t) h) (
    refl,
    ap
        (λ (c : Bool).
          (answer c (ticket_id sha256 t, remembered_until (now + lifetime) t)
            (retain (now + lifetime)
              ((ticket_id sha256 t, remembered_until now t) ∷ retain now used))).0)
        (forgotten (now + lifetime) (remembered_until now t) (ticket_id sha256 t) (retain now used)
          (omega arith) (retain-absent now used (ticket_id sha256 t) h)),
  )

  -- A ticket that is not yet in the cache and is first used in the second in which it was issued is used a
  -- second time in the last second of its lifetime: the cache accepts it both times, and it still opens.
  pub last_second_replay :
      (aead : Aead) (key : TicketKey) (secret : List ℕ) (now ttl : ℕ) (sealed : List ℕ)
      (used : UsedTicketCache)
      → Issued aead key secret now ttl sealed
      → contains_key used (ticket_id sha256 (ticket_of aead now key secret ttl sealed)) ≡ false
      → ((check_and_record sha256 now (ticket_of aead now key secret ttl sealed) used).0 ≡ true)
        × ((check_and_record sha256
              (now + ttl)
              (ticket_of aead now key secret ttl sealed)
              (check_and_record sha256 now (ticket_of aead now key secret ttl sealed) used).1).0
            ≡ true)
        × (decrypt aead
              (now + ttl)
              (issue aead now key secret ttl).1
              (ticket_of aead now key secret ttl sealed)
            ≡ ok secret)
  last_second_replay aead key secret now ttl sealed used h k =
      let both =
        twice_accepted now ttl (ticket_of aead now key secret ttl sealed) used
          (mod-eq_of_lt (h.ttl_fits)) k in
      (
        both.0,
        both.1,
        (decrypt-issue aead key secret now ttl (now + ttl) sealed h).1
            ∙ ap (λ (c : Bool). if c then err decryption_failed else ok secret)
                (le→ltb_false (now + ttl) (now + ttl) (omega arith)),
      )
