-- ===== src/Bytes/Fields.antt =====
-- A run of big-endian numbers of given widths at the front of a buffer.
use favonius.Base.{ℕ, ◌+◌, ◌^◌, ◌<◌, ◌≤◌, ◌≡◌, refl, ap, ◌∙◌, List, [], ◌∷◌, ◌++◌, length, arith}
use favonius.Bytes.Endian.{to_be_bytes, IsBytes}
use favonius.Bytes.Cursor.{took}

-- One number in range for each width.
abbrev pub Numbers : List ℕ → Type 0
Numbers [] = Unit {0}
Numbers (w ∷ ws) = (n : ℕ) × (n < 256 ^ w) × Numbers ws

abbrev pub written : (ws : List ℕ) → Numbers ws → List ℕ → List ℕ
written [] ns rest = rest
written (w ∷ ws) (n, h, ns) rest = to_be_bytes w n ++ written ws ns rest

abbrev pub total : List ℕ → ℕ
total [] = 0
total (w ∷ ws) = w + total ws

pub record Parsed (ws : List ℕ) (s : List ℕ) : Type 0 where
  pub numbers : Numbers ws
  pub rest : List ℕ
  pub bytes : s ≡ written ws numbers rest
  pub rest_bytes : IsBytes rest
  pub shorter : total ws + length rest ≡ length s

pub parsed : (ws : List ℕ) (s : List ℕ) → IsBytes s → total ws ≤ length s → Parsed ws s
parsed [] s hb h = record {
  numbers = tt;
  rest = s;
  bytes = refl;
  rest_bytes = hb;
  shorter = omega arith;
}
parsed (w ∷ ws) s hb h =
    let x = took w s hb (omega arith) in
    let p = parsed ws x.tail x.tail_bytes (omega (arith, x.shorter)) in
    record {
      numbers = (x.value, x.fits, p.numbers);
      rest = p.rest;
      bytes = x.bytes ∙ ap (◌++◌ (to_be_bytes w x.value)) p.bytes;
      rest_bytes = p.rest_bytes;
      shorter = omega (arith, x.shorter, p.shorter);
    }
