-- ===== src/Bytes/Cursor.antt =====
-- Decoders over a cursor, `src: &mut &[u8]`: each step returns its outcome and the cursor that it
-- leaves, on an error too.
use favonius.Base.{
  ℕ, zero, suc, ◌+◌, ◌%◌, ◌^◌, ◌≤◌, ◌<◌, ◌≡◌, refl, sym, ap, ◌∙◌, ◌≢◌, List, [], ◌∷◌, ◌++◌, Option,
  none, some, Bool, true, false, length, take, drop, length-append, length-take, length-drop,
  take-append, drop-append, append_assoc, take-append-drop, slice, arith,
}
use mathlib.Core.Path.{subst}
use favonius.Base.{Outcome, ok, err, panic, fail_if}
use favonius.Bytes.Endian.{
  to_be_bytes, from_be_bytes, IsBytes, length-to_be_bytes, from_be_bytes-to_be_bytes,
  from_be_bytes-lt, to_be_bytes-from_be_bytes,
}
use favonius.Bytes.Buf.{ByteBuf, Width, w8, w16, w32, w64, size}

abbrev pub Read : Type 0 → Type 0 → Type 0
Read E A = List ℕ → Outcome E A × List ℕ

abbrev pub pure : {E A : Type 0} → A → Read E A
pure a s = (ok a, s)

abbrev pub continue :
    {E A B : Type 0} → Outcome E A × List ℕ → (A → Read E B) → Outcome E B × List ℕ
continue (ok a, s) f = f a s
continue (err e, s) f = (err e, s)
continue (panic, s) f = (panic, s)

infixl 5 ◌>>=◌ ◌>>◌
abbrev pub ◌>>=◌ : {E A B : Type 0} → Read E A → (A → Read E B) → Read E B
◌>>=◌ m f s = continue (m s) f

abbrev pub ◌>>◌ : {E B : Type 0} → Read E (Unit {0}) → Read E B → Read E B
m >> k = m >>= λ _. k

-- A step that does not move the cursor.
abbrev pub lift : {E A : Type 0} → Outcome E A → Read E A
lift m s = (m, s)

abbrev pub fail_when : {E : Type 0} → Bool → E → Read E (Unit {0})
fail_when b e = lift (fail_if b e)

-- `src.len()`
abbrev pub remaining : {E : Type 0} → Read E ℕ
remaining s = (ok (length s), s)

-- `&src[..n]`
abbrev pub front : {E : Type 0} → ℕ → Read E (List ℕ)
front n s = (slice s 0 n, s)

abbrev moved : {E A : Type 0} → Option (A × List ℕ) → List ℕ → Outcome E A × List ℕ
moved none s = (panic, s)
moved (some (a, s')) s = (ok a, s')

abbrev skipped : {E : Type 0} → Option (List ℕ) → List ℕ → Outcome E (Unit {0}) × List ℕ
skipped none s = (panic, s)
skipped (some s') s = (ok tt, s')

module _ ⦃buf : ByteBuf⦄ where
  pub get : {E : Type 0} → Width → Read E ℕ
  get w s = moved (buf.get_uint w s) s

  pub skip : {E : Type 0} → ℕ → Read E (Unit {0})
  skip n s = skipped (buf.advance n s) s

  pub get-append :
      {E : Type 0} (w : Width) (n : ℕ) (rest : List ℕ)
      → get {E = E} w (to_be_bytes (size w) n ++ rest) ≡ (ok (n % 256 ^ size w), rest)
  unfolding get
  get-append w n rest = rw (
    buf.get_uint_reads w (to_be_bytes (size w) n ++ rest)
        (omega (arith, length-append (to_be_bytes (size w) n) rest, length-to_be_bytes (size w) n)),
    take-append (to_be_bytes (size w) n) rest (size w) (length-to_be_bytes (size w) n),
    drop-append (to_be_bytes (size w) n) rest (size w) (length-to_be_bytes (size w) n),
    from_be_bytes-to_be_bytes (size w) n,
  )

  pub skip_drops :
      {E : Type 0} (n : ℕ) (s : List ℕ) → n ≤ length s → skip {E = E} n s ≡ (ok tt, drop n s)
  unfolding skip
  skip_drops n s h = rw (buf.advance_drops n s h)

  pub skip-append :
      {E : Type 0} (xs rest : List ℕ) (n : ℕ)
      → length xs ≡ n
      → skip {E = E} n (xs ++ rest) ≡ (ok tt, rest)
  unfolding skip
  skip-append xs rest n h = rw (
    buf.advance_drops n (xs ++ rest) (omega (arith, length-append xs rest)),
    drop-append xs rest n h,
  )

  pub get-append_u8 :
      {E : Type 0} (n : ℕ) (rest : List ℕ)
      → get {E = E} w8 (to_be_bytes 1 n ++ rest) ≡ (ok (n % 256 ^ 1), rest)
  get-append_u8 = get-append w8

  pub get-append_u16 :
      {E : Type 0} (n : ℕ) (rest : List ℕ)
      → get {E = E} w16 (to_be_bytes 2 n ++ rest) ≡ (ok (n % 256 ^ 2), rest)
  get-append_u16 = get-append w16

  pub get-append_u32 :
      {E : Type 0} (n : ℕ) (rest : List ℕ)
      → get {E = E} w32 (to_be_bytes 4 n ++ rest) ≡ (ok (n % 256 ^ 4), rest)
  get-append_u32 = get-append w32

  pub get-append_u64 :
      {E : Type 0} (n : ℕ) (rest : List ℕ)
      → get {E = E} w64 (to_be_bytes 8 n ++ rest) ≡ (ok (n % 256 ^ 8), rest)
  get-append_u64 = get-append w64

pub ruleset reads = (append_assoc, get-append_u8, get-append_u16, get-append_u32, get-append_u64)

-- No panic, and `Q` of the value and the cursor of every success.
pub data Total {E A : Type 0} (Q : A → List ℕ → Type 0) : Outcome E A × List ℕ → Type 0 where
  done : {a : A} {s : List ℕ} → Q a s → Total Q (ok a, s)
  failed : {e : E} {s : List ℕ} → Total Q (err e, s)

pub Total-ne-panic :
    {E A : Type 0} {Q : A → List ℕ → Type 0} {r : Outcome E A × List ℕ} → Total Q r → r.0 ≢ panic
Total-ne-panic (done p) e = cc
Total-ne-panic failed e = cc

abbrev WhenOk : {E A : Type 0} → (A → List ℕ → Type 0) → Outcome E A × List ℕ → Type 0
WhenOk Q (ok a, s) = Q a s
WhenOk Q (err e, s) = Unit {0}
WhenOk Q (panic, s) = Unit {0}

-- What a success gives.
pub Total-ok :
    {E A : Type 0} (Q : A → List ℕ → Type 0) {r : Outcome E A × List ℕ} {a : A} {s : List ℕ}
    → Total Q r
    → r ≡ (ok a, s)
    → Q a s
Total-ok Q (done q) e = subst (WhenOk Q) e q
Total-ok Q failed e = cc

-- A number read off the front: the bytes that it stands for, its range, and what is left.
pub record Took (w : ℕ) (s : List ℕ) : Type 0 where
  pub value : ℕ
  pub tail : List ℕ
  pub bytes : s ≡ to_be_bytes w value ++ tail
  pub fits : value < 256 ^ w
  pub tail_bytes : IsBytes tail
  pub shorter : w + length tail ≡ length s

pub IsBytes-take : (n : ℕ) (s : List ℕ) → IsBytes s → IsBytes (take n s)
IsBytes-take zero s h = tt
IsBytes-take (suc n) [] h = tt
IsBytes-take (suc n) (b ∷ s) (hb, hs) = (hb, IsBytes-take n s hs)

pub IsBytes-drop : (n : ℕ) (s : List ℕ) → IsBytes s → IsBytes (drop n s)
IsBytes-drop zero s h = h
IsBytes-drop (suc n) [] h = tt
IsBytes-drop (suc n) (b ∷ s) (hb, hs) = IsBytes-drop n s hs

pub took : (w : ℕ) (s : List ℕ) → IsBytes s → w ≤ length s → Took w s
took w s h k = record {
  value = from_be_bytes (take w s);
  tail = drop w s;
  bytes = sym (
      ap (λ (xs : List ℕ). xs ++ drop w s)
        (ap (λ (v : ℕ). to_be_bytes v (from_be_bytes (take w s))) (sym whole)
          ∙ to_be_bytes-from_be_bytes (take w s) (IsBytes-take w s h))
      ∙ take-append-drop w s);
  fits = rw whole at (from_be_bytes-lt (take w s) (IsBytes-take w s h));
  tail_bytes = IsBytes-drop w s h;
  shorter = omega (arith, length-drop w s);
}
  where
    whole : length (take w s) ≡ w
    whole = omega (arith, length-take w s)
