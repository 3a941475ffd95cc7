-- ===== src/Crypto/HeaderProtection/Masks.antt =====
-- Masking a header twice (crates/ahp-crypto/src/header_protection.rs).
use favonius.Base.{
  ℕ, zero, suc, ◌-◌, ◌≤◌, ◌≡◌, sym, ap, ap₂, ◌∙◌, min, Bool, true, List, [], ◌∷◌, ◌++◌,
  append_assoc, ltb, ltb_false→le, le→ltb_false, if◌then◌else◌, length, take, drop, length-append,
  length-take, length-drop, drop-slice, replicate, xor_bytes, mask_at, mask_at-middle,
  length-xor_bytes, xor_bytes-xor_bytes, Bool-cases, inl, inr, arith,
}
use favonius.Bytes.Endian.{IsBytes}
use favonius.Bytes.Cursor.{IsBytes-take, IsBytes-drop}
use favonius.Crypto.HeaderProtection.{extract_sample, protect, unprotect}

drop_past :
    (front rest : List ℕ) (n : ℕ)
    → length front ≤ n
    → drop n (front ++ rest) ≡ drop (n - length front) rest
drop_past [] rest n h = ap (λ (k : ℕ). drop k rest) (omega arith)
drop_past (b ∷ front) rest zero h = absurd (omega arith)
drop_past (b ∷ front) rest (suc n) h =
    drop_past front rest n (omega arith)
    ∙ ap (λ (k : ℕ). drop k rest) {x = n - length front} (omega arith)

-- The sample is taken from what stands behind the fields.
sample_same :
    (front front' rest : List ℕ) (start : ℕ)
    → length front ≡ length front'
    → length front ≤ start
    → extract_sample (front ++ rest) start ≡ extract_sample (front' ++ rest) start
unfolding extract_sample
sample_same front front' rest start e h =
    ap₂
      (λ (l : ℕ) (d : List ℕ).
        if ltb 0 (min (l - start) 16)
        then take (min (l - start) 16) d ++ replicate (16 - min (l - start) 16) 0
        else replicate 16 0)
      lengths
      (drop_past front rest start h
        ∙ ap (λ (k : ℕ). drop (start - k) rest) e
        ∙ sym (drop_past front' rest start (omega arith)))
  where
    lengths : length (front ++ rest) ≡ length (front' ++ rest)
    lengths = omega (arith, length-append front rest, length-append front' rest, e)

-- The fields of a header, and what stands between and behind them.
record Pieces : Type 0 where
  head : List ℕ
  conn_id : List ℕ
  between : List ℕ
  packet_number : List ℕ
  behind : List ℕ

abbrev joined : Pieces → List ℕ
joined b = b.head ++ (b.conn_id ++ (b.between ++ (b.packet_number ++ b.behind)))

record Sized (b : Pieces) : Type 0 where
  head_size : length b.head ≡ 6
  conn_id_size : length b.conn_id ≡ 8
  between_size : length b.between ≡ 4
  packet_number_size : length b.packet_number ≡ 8
  long : 16 ≤ length b.behind

abbrev masked : Pieces → List ℕ → Pieces
masked b mask = record b {
  conn_id = xor_bytes b.conn_id (take 8 mask);
  packet_number = xor_bytes b.packet_number (drop 8 mask);
}

regroup : (p c q x : List ℕ) → p ++ (c ++ (q ++ x)) ≡ (p ++ (c ++ q)) ++ x
regroup p c q x = simp (append_assoc)

masked-Sized : (b : Pieces) (m : List ℕ) → Sized b → Sized (masked b m)
masked-Sized b m h = record {
  head_size = h.head_size;
  conn_id_size = length-xor_bytes b.conn_id (take 8 m) ∙ h.conn_id_size;
  between_size = h.between_size;
  packet_number_size = length-xor_bytes b.packet_number (drop 8 m) ∙ h.packet_number_size;
  long = h.long;
}

abbrev fields_of : Pieces → List ℕ
fields_of b = b.head ++ (b.conn_id ++ (b.between ++ b.packet_number))

fields : (b : Pieces) → joined b ≡ fields_of b ++ b.behind
fields b = simp (append_assoc)

front : (b : Pieces) → Sized b → length (fields_of b) ≡ 26
front b h = omega (
  arith,
  length-append b.head (b.conn_id ++ (b.between ++ b.packet_number)),
  length-append b.conn_id (b.between ++ b.packet_number),
  length-append b.between b.packet_number,
  h.head_size,
  h.conn_id_size,
  h.between_size,
  h.packet_number_size,
)

long : (b : Pieces) → Sized b → 42 ≤ length (joined b)
long b h = rw (fields b) (omega (arith, length-append (fields_of b) b.behind, front b h, h.long))

abbrev split : List ℕ → Pieces
split buf = record {
  head = take 6 buf;
  conn_id = take 8 (drop 6 buf);
  between = take 4 (drop 14 buf);
  packet_number = take 8 (drop 18 buf);
  behind = drop 26 buf;
}

split-joined : (buf : List ℕ) → joined (split buf) ≡ buf
split-joined buf = sym (
    drop-slice buf 0 6
    ∙ ap (λ (r : List ℕ). take 6 buf ++ r)
        (drop-slice buf 6 8
          ∙ ap (λ (r : List ℕ). take 8 (drop 6 buf) ++ r)
              (drop-slice buf 14 4
                ∙ ap (λ (r : List ℕ). take 4 (drop 14 buf) ++ r) (drop-slice buf 18 8))))

split-Sized : (buf : List ℕ) → 42 ≤ length buf → Sized (split buf)
split-Sized buf h = record {
  head_size = omega (arith, length-take 6 buf);
  conn_id_size = omega (arith, length-take 8 (drop 6 buf), length-drop 6 buf);
  between_size = omega (arith, length-take 4 (drop 14 buf), length-drop 14 buf);
  packet_number_size = omega (arith, length-take 8 (drop 18 buf), length-drop 18 buf);
  long = omega (arith, length-drop 26 buf);
}

module _ (encrypt_block : List ℕ → List ℕ)
    (blocks : (s : List ℕ) → length (encrypt_block s) ≡ 16) where
  abbrev mask_of : Pieces → ℕ → List ℕ
  mask_of b start = encrypt_block (extract_sample (joined b) start)

  protect_pieces :
      (b : Pieces) (start : ℕ)
      → Sized b
      → protect encrypt_block (joined b) start ≡ joined (masked b (mask_of b start))
  unfolding protect
  protect_pieces b start h =
      ap
        (λ (c : Bool).
          if c then joined b else mask_at (mask_at (joined b) 6 (take 8 mask)) 18 (drop 8 mask))
        (le→ltb_false _ _ (long b h))
      ∙ ap (λ (x : List ℕ). mask_at x 18 (drop 8 mask))
          (mask_at-middle b.head b.conn_id (b.between ++ (b.packet_number ++ b.behind))
              (take 8 mask) 6 (h.head_size)
              (omega (arith, h.conn_id_size, length-take 8 mask, size))
            ∙ regroup b.head conn' b.between (b.packet_number ++ b.behind))
      ∙ mask_at-middle (b.head ++ (conn' ++ b.between)) b.packet_number b.behind (drop 8 mask) 18
          front (omega (arith, h.packet_number_size, length-drop 8 mask, size))
      ∙ sym (regroup b.head conn' b.between (xor_bytes b.packet_number (drop 8 mask) ++ b.behind))
    where
      mask : List ℕ
      mask = mask_of b start

      size : length mask ≡ 16
      size = blocks _

      conn' : List ℕ
      conn' = xor_bytes b.conn_id (take 8 mask)

      front : length (b.head ++ (conn' ++ b.between)) ≡ 18
      front = omega (
        arith,
        length-append b.head (conn' ++ b.between),
        length-append conn' b.between,
        length-xor_bytes b.conn_id (take 8 mask),
        h.head_size,
        h.conn_id_size,
        h.between_size,
      )

  -- The masked header has the sample of the header.
  mask_same :
      (b : Pieces) (start : ℕ) (m : List ℕ)
      → Sized b
      → 26 ≤ start
      → mask_of (masked b m) start ≡ mask_of b start
  mask_same b start m h far = ap encrypt_block (
      ap (λ (x : List ℕ). extract_sample x start) (fields (masked b m))
      ∙ sample_same _ _ b.behind start
          (omega (arith, front b h, front (masked b m) (masked-Sized b m h)))
          (omega (arith, front (masked b m) (masked-Sized b m h)))
      ∙ ap (λ (x : List ℕ). extract_sample x start) (sym (fields b)))

  pieces_back :
      (b : Pieces) (start : ℕ)
      → Sized b
      → IsBytes b.conn_id
      → IsBytes b.packet_number
      → 26 ≤ start
      → protect encrypt_block (protect encrypt_block (joined b) start) start ≡ joined b
  pieces_back b start h hc hn far =
      ap (λ (x : List ℕ). protect encrypt_block x start) (protect_pieces b start h)
      ∙ protect_pieces (masked b m) start (masked-Sized b m h)
      ∙ ap (λ (k : List ℕ). joined (masked (masked b m) k)) (mask_same b start m h far)
      ∙ ap₂ (λ (c n : List ℕ). b.head ++ (c ++ (b.between ++ (n ++ b.behind))))
          (xor_bytes-xor_bytes b.conn_id (take 8 m) hc)
          (xor_bytes-xor_bytes b.packet_number (drop 8 m) hn)
    where
      m : List ℕ
      m = mask_of b start

  stays :
      (buf : List ℕ) (start : ℕ)
      → ltb (length buf) 42 ≡ true
      → protect encrypt_block buf start ≡ buf
  unfolding protect
  stays buf start e =
      ap
        (λ (c : Bool).
          if c
          then buf
          else let mask = encrypt_block (extract_sample buf start) in
            mask_at (mask_at buf 6 (take 8 mask)) 18 (drop 8 mask))
        e

  -- When the payload starts behind the packet number, the second mask takes the first away: whatever the
  -- block cipher, a buffer of bytes comes back from `unprotect` as it was before `protect`.
  pub unprotect-protect :
      (buf : List ℕ) (payload_start : ℕ)
      → IsBytes buf
      → 26 ≤ payload_start
      → unprotect encrypt_block (protect encrypt_block buf payload_start) payload_start ≡ buf
  unfolding unprotect
  unprotect-protect buf start h far =
      elim (Bool-cases (ltb (length buf) 42))
        as (λ _. protect encrypt_block (protect encrypt_block buf start) start ≡ buf) [
          | inl short ↦
              ap (λ (x : List ℕ). protect encrypt_block x start) (stays buf start short)
              ∙ stays buf start short
          | inr long ↦
              ap (λ (x : List ℕ). protect encrypt_block (protect encrypt_block x start) start)
                (sym (split-joined buf))
              ∙ pieces_back (split buf) start (split-Sized buf (ltb_false→le _ _ long))
                  (IsBytes-take 8 (drop 6 buf) (IsBytes-drop 6 buf h))
                  (IsBytes-take 8 (drop 18 buf) (IsBytes-drop 18 buf h)) far
              ∙ split-joined buf
        ]
