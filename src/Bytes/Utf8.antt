-- ===== src/Bytes/Utf8.antt =====
-- UTF-8 as the standard library of Rust has it: a string is the bytes of well-formed UTF-8,
-- `from_utf8` checks that, and `from_utf8_lossy` puts U+FFFD for each maximal ill-formed part.
use favonius.Base.{
  ℕ, zero, suc, ◌≡◌, refl, Bool, true, false, ◌&&◌, List, [], ◌∷◌, ◌++◌, append_assoc, leb, ltb,
  Bool-cases, inl, inr, ◌==◌, if◌then◌else◌,
}

-- How many bytes are to follow, and the bounds of the next of them.
pub record Pending : Type 0 where
  pub count : ℕ
  pub lo : ℕ
  pub hi : ℕ

abbrev within : ℕ → ℕ → ℕ → Bool
within lo hi b = leb lo b && leb b hi

abbrev pub ready : Pending
ready = record { count = 0; lo = 0x80; hi = 0xBF }

abbrev pending : ℕ → ℕ → ℕ → Pending
pending count lo hi = record { count = count; lo = lo; hi = hi }

-- The table of well-formed sequences, by the first byte; `false` for none.
unfoldable pub lead : ℕ → Bool × Pending
lead b =
    if ltb b 0x80
    then (true, ready)
    else if within 0xC2 0xDF b
    then (true, pending 1 0x80 0xBF)
    else if b == 0xE0
    then (true, pending 2 0xA0 0xBF)
    else if b == 0xED
    then (true, pending 2 0x80 0x9F)
    else if within 0xE1 0xEF b
    then (true, pending 2 0x80 0xBF)
    else if b == 0xF0
    then (true, pending 3 0x90 0xBF)
    else if within 0xF1 0xF3 b
    then (true, pending 3 0x80 0xBF)
    else if b == 0xF4
    then (true, pending 3 0x80 0x8F)
    else (false, ready)

abbrev after : ℕ → Pending
after k = pending k 0x80 0xBF

-- Whether the byte may come next, and what is to follow it.
unfoldable pub accept : Pending → ℕ → Bool × Pending
accept p b = by_count p.count
  where
    by_count : ℕ → Bool × Pending
    by_count zero = lead b
    by_count (suc k) = (within p.lo p.hi b, after k)

unfoldable pub from_utf8_rest : Pending → List ℕ → Bool
from_utf8_rest p [] = p.count == 0
from_utf8_rest p (b ∷ bs) = let r = accept p b in r.0 && from_utf8_rest r.1 bs

-- `std::str::from_utf8(bytes).is_ok()`
abbrev pub from_utf8 : List ℕ → Bool
from_utf8 bytes = from_utf8_rest ready bytes

abbrev pub replacement : List ℕ
replacement = 0xEF ∷ 0xBF ∷ 0xBD ∷ []

-- A byte that may come next joins the bytes that are held, which go out with the last of them.
abbrev hold : List ℕ → ℕ → Pending → List ℕ × List ℕ × Pending
hold held b next =
    if next.count == 0 then (held ++ (b ∷ []), [], next) else ([], held ++ (b ∷ []), next)

-- The output of one byte, the bytes held, and what is to follow.
unfoldable pub lossy_step : List ℕ → Pending → ℕ → List ℕ × List ℕ × Pending
lossy_step held p b =
    let now = accept p b in
    let fresh = lead b in
    if now.0
    then hold held b now.1
    else if p.count == 0
    then (replacement, [], ready)
    else if fresh.0
    then restart (hold [] b fresh.1)
    else (replacement ++ replacement, [], ready)
  where
    restart : List ℕ × List ℕ × Pending → List ℕ × List ℕ × Pending
    restart (out, held, next) = (replacement ++ out, held, next)

unfoldable pub lossy_from : List ℕ → Pending → List ℕ → List ℕ
lossy_from held p [] = if p.count == 0 then [] else replacement
lossy_from held p (b ∷ bs) = let r = lossy_step held p b in r.0 ++ lossy_from r.1 r.2 bs

-- `String::from_utf8_lossy(bytes).into_owned()`
abbrev pub from_utf8_lossy : List ℕ → List ℕ
from_utf8_lossy bytes = lossy_from [] ready bytes

and_true : (a b : Bool) → (a && b) ≡ true → (a ≡ true) × (b ≡ true)
and_true true b e = (refl, e)
and_true false b e = (e, cc)

-- A byte that may come next is held or goes out.
lossy_step-accepted :
    (held : List ℕ) (p : Pending) (b : ℕ)
    → (accept p b).0 ≡ true
    → lossy_step held p b ≡ hold held b (accept p b).1
unfolding lossy_step
lossy_step-accepted held p b e = rw e

lossy_from-held :
    (held : List ℕ) (p : Pending) (bs : List ℕ)
    → ((p.count == 0) ≡ true → held ≡ [])
    → from_utf8_rest p bs ≡ true
    → lossy_from held p bs ≡ held ++ bs
unfolding from_utf8_rest lossy_from
lossy_from-held held p [] h e = rw (e, h e)
lossy_from-held held p (b ∷ bs) h e =
    let both = and_true (accept p b).0 (from_utf8_rest (accept p b).1 bs) e in
    let ih = λ (held' : List ℕ) (h' : ((accept p b).1.count == 0) ≡ true → held' ≡ []).
      lossy_from-held held' (accept p b).1 bs h' both.1 in
    rw (lossy_step-accepted held p b both.0) (elim (Bool-cases ((accept p b).1.count == 0)) [
      | inl last ↦ rw (last, ih [] (λ q. refl)) (append_assoc held (b ∷ []) bs)
      | inr more ↦ rw (more, ih (held ++ (b ∷ [])) (λ q. cc)) (append_assoc held (b ∷ []) bs)
    ])

-- On well-formed bytes nothing is replaced.
pub from_utf8_lossy_lem : (bytes : List ℕ) → from_utf8 bytes ≡ true → from_utf8_lossy bytes ≡ bytes
from_utf8_lossy_lem bytes e = lossy_from-held [] ready bytes (λ p. refl) e
