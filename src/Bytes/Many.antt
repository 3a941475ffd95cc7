-- ===== src/Bytes/Many.antt =====
-- Frames one after the other: `while !src.is_empty() { out.push(decode(&mut src)?) }`.
use favonius.Base.{
  ℕ, zero, suc, ◌≤◌, ◌<◌, ◌≡◌, ◌≢◌, refl, sym, ap, ◌∙◌, List, [], ◌∷◌, ◌++◌, Option, none, some,
  length, All, length-append, append_assoc, append-nil, arith,
}
use mathlib.Core.Path.{subst}
use favonius.Base.{Outcome, ok, err, panic}
use favonius.Bytes.Endian.{IsBytes}
use favonius.Bytes.Cursor.{Read, Total, done, failed}

module _ {E A : Type 0} where
  abbrev next :
      (List ℕ → List A → Option (Outcome E (List A)))
      → Outcome E A × List ℕ
      → List A
      → Option (Outcome E (List A))
  next more (ok a, s) out = more s (out ++ (a ∷ []))
  next more (err e, s) out = some (err e)
  next more (panic, s) out = some panic

  -- `none` if the fuel runs out.
  unfoldable pub drain : Read E A → ℕ → List ℕ → List A → Option (Outcome E (List A))
  drain one fuel [] out = some (ok out)
  drain one zero (b ∷ s) out = none
  drain one (suc fuel) (b ∷ s) out = next (drain one fuel) (one (b ∷ s)) out

-- A decoder of one frame, the bytes of each frame, and what the two have to do with one another.
pub record Framing (E A : Type 0) : Type 1 where
  pub one : Read E A
  pub wire : A → List ℕ
  pub Fits : A → Type 0
  pub wire_pos : (a : A) → 0 < length (wire a)
  pub one_reads : (a : A) (rest : List ℕ) → Fits a → one (wire a ++ rest) ≡ (ok a, rest)
  pub one_sound :
      (s : List ℕ) → IsBytes s → Total (λ a s'. (s ≡ wire a ++ s') × Fits a × IsBytes s') (one s)

module _ {E A : Type 0} (f : Framing E A) where
  abbrev pub wires : List A → List ℕ
  wires [] = []
  wires (a ∷ as') = f.wire a ++ wires as'

  drain_step :
      (a : A) (rest : List ℕ) (fuel : ℕ) (out : List A)
      → f.Fits a
      → drain f.one (suc fuel) (f.wire a ++ rest) out ≡ drain f.one fuel rest (out ++ (a ∷ []))
  drain_step a rest fuel out h =
      go (f.wire a ++ rest) (f.one_reads a rest h)
        (omega (arith, length-append (f.wire a) rest, f.wire_pos a))
    where
      go :
          (s : List ℕ)
          → f.one s ≡ (ok a, rest)
          → 0 < length s
          → drain f.one (suc fuel) s out ≡ drain f.one fuel rest (out ++ (a ∷ []))
      go [] e p = absurd (omega arith)
      go (b ∷ s) e p = unfold drain in rw e

  -- Frames that fit are read back, in order.
  pub drain-wires :
      (xs : List A) (fuel : ℕ) (out : List A)
      → All f.Fits xs
      → length (wires xs) ≤ fuel
      → drain f.one fuel (wires xs) out ≡ some (ok (out ++ xs))
  drain-wires [] fuel out h p = unfold drain in rw append-nil
  drain-wires (x ∷ xs) zero out h p =
      absurd (omega (arith, length-append (f.wire x) (wires xs), f.wire_pos x))
  drain-wires (x ∷ xs) (suc fuel) out (hx, hxs) p =
      drain_step x (wires xs) fuel out hx
      ∙ drain-wires xs fuel (out ++ (x ∷ [])) hxs
          (omega (arith, length-append (f.wire x) (wires xs), f.wire_pos x))
      ∙ ap (λ (ys : List A). some (ok ys)) (append_assoc out (x ∷ []) xs)

  -- The loop ends, does not panic, and succeeds only on the bytes of the frames that it returns.
  pub data Drained (s : List ℕ) (out : List A) : Option (Outcome E (List A)) → Type 0 where
    read_all :
        (xs ys : List A)
        → s ≡ wires xs
        → All f.Fits xs
        → ys ≡ out ++ xs
        → Drained s out (some (ok ys))
    stopped : (e : E) → Drained s out (some (err e))

  extend :
      {s' s : List ℕ} {out : List A} {r : Option (Outcome E (List A))} (a : A)
      → s ≡ f.wire a ++ s'
      → f.Fits a
      → Drained s' (out ++ (a ∷ [])) r
      → Drained s out r
  extend {out = out} a e h (read_all xs ys e' hs q) =
      read_all (a ∷ xs) ys (e ∙ ap (◌++◌ (f.wire a)) e') (h, hs) (q ∙ append_assoc out (a ∷ []) xs)
  extend a e h (stopped x) = stopped x

  one_more :
      (fuel : ℕ) (s : List ℕ) (out : List A)
      → length s ≤ suc fuel
      → ((s' : List ℕ) (out' : List A)
          → IsBytes s'
          → length s' ≤ fuel
          → Drained s' out' (drain f.one fuel s' out'))
      → {r : Outcome E A × List ℕ} → Total (λ a s'. (s ≡ f.wire a ++ s') × f.Fits a × IsBytes s') r
      → Drained s out (next (drain f.one fuel) r out)
  one_more fuel s out p ih (done {a = a} {s = s'} (e, h, hb)) = extend a e h (
      ih s' (out ++ (a ∷ [])) hb
        (omega (arith, ap length e, length-append (f.wire a) s', f.wire_pos a)))
  one_more fuel s out p ih (failed {e = x}) = stopped x

  pub drain-Drained :
      (fuel : ℕ) (s : List ℕ) (out : List A)
      → IsBytes s
      → length s ≤ fuel
      → Drained s out (drain f.one fuel s out)
  unfolding drain
  drain-Drained fuel [] out hb p = read_all [] out refl tt (sym (append-nil out))
  drain-Drained zero (b ∷ s) out hb p = absurd (omega arith)
  drain-Drained (suc fuel) (b ∷ s) out hb p =
      one_more fuel (b ∷ s) out p (drain-Drained fuel) (f.one_sound (b ∷ s) hb)

  -- The fuel is enough, and nothing panics.
  pub Drained-total :
      {s : List ℕ} {out : List A} {r : Option (Outcome E (List A))}
      → Drained s out r
      → (o : Outcome E (List A)) × (r ≡ some o) × (o ≢ panic)
  Drained-total (read_all xs ys e h q) = (ok ys, refl, λ p. cc)
  Drained-total (stopped x) = (err x, refl, λ p. cc)

  pub Drained-ok :
      {s : List ℕ} {r : Option (Outcome E (List A))} {xs : List A}
      → Drained s [] r
      → r ≡ some (ok xs)
      → (s ≡ wires xs) × All f.Fits xs
  Drained-ok {xs = zs} (read_all xs ys e h q) p =
      let same : xs ≡ zs = cc in (e ∙ ap wires same, subst (All f.Fits) same h)
  Drained-ok (stopped x) p = (cc, absurd (cc))
