-- ===== src/Crypto/Grant/Wire.antt =====
-- The bytes of a grant, and what the parser makes of any bytes (Grant::parse).
use mathlib.Core.Path.{subst}
use favonius.Base.{
  ℕ, ◌+◌, ◌^◌, ◌≤◌, ◌<◌, ◌≡◌, refl, sym, ap, ap₂, ◌∙◌, Bool, true, false, not, ◌||◌, List, [], ◌∷◌,
  ◌++◌, ltb, ◌==◌, ==_iff, ltb_false→le, length, drop, drop-all, append-nil, Checked, good,
  Checked-bind, Checked-guard, slice-Checked, index-Checked, Cut, arith,
}
use favonius.Bytes.Endian.{
  to_be_bytes, from_be_bytes, to_be_bytes-from_be_bytes, from_be_bytes-lt, IsBytes,
}
use favonius.Bytes.Cursor.{IsBytes-drop}
use favonius.Bytes.Utf8.{from_utf8}
use favonius.Crypto.Grant.{
  Grant, malformed, unsupported_version, take_str, parse, grant_version, max_field,
}

-- What the source's types say of a grant, and that its strings are short enough to be read.
pub record Fits (g : Grant) : Type 0 where
  pub source_size : length g.source ≡ 32
  pub destination_size : length g.destination ≡ 32
  pub not_after_fits : g.not_after < 256 ^ 8
  pub run_id_short : length g.run_id ≤ max_field
  pub path_prefix_short : length g.path_prefix ≤ max_field
  pub run_id_utf8 : from_utf8 g.run_id ≡ true
  pub path_prefix_utf8 : from_utf8 g.path_prefix ≡ true

-- A string with its length before it, and what follows.
abbrev pub string_bytes : List ℕ → List ℕ → List ℕ
string_bytes s rest = to_be_bytes 2 (length s) ++ (s ++ rest)

-- The bytes that are sent, up to the signature.
abbrev pub wire_bytes : Grant → List ℕ → List ℕ
wire_bytes g signature =
    1 ∷ g.source
    ++ (g.destination
        ++ (to_be_bytes 8 g.not_after
            ++ string_bytes g.run_id (string_bytes g.path_prefix signature)))

-- The prefix of bytes is made of bytes.
IsBytes-front : (xs ys : List ℕ) → IsBytes (xs ++ ys) → IsBytes xs
IsBytes-front [] ys h = tt
IsBytes-front (x ∷ xs) ys (hx, h) = (hx, IsBytes-front xs ys h)

Cut-IsBytes : {s : List ℕ} {lo hi : ℕ} {part : List ℕ} → Cut s lo hi part → IsBytes s → IsBytes part
Cut-IsBytes {s} {lo} {hi} {part} c h =
    IsBytes-front part (drop hi s) (subst IsBytes (c.follows) (IsBytes-drop lo s h))

number_bytes :
    (w : ℕ) (bs : List ℕ) → length bs ≡ w → IsBytes bs → to_be_bytes w (from_be_bytes bs) ≡ bs
number_bytes w bs e h =
    ap (λ (k : ℕ). to_be_bytes k (from_be_bytes bs)) (sym e) ∙ to_be_bytes-from_be_bytes bs h

-- What a string is that was read, and the index behind it.
pub record TookString (s : List ℕ) (at : ℕ) (r : List ℕ × ℕ) : Type 0 where
  pub string_follows : drop at s ≡ string_bytes r.0 (drop r.1 s)
  pub in_range : r.1 ≤ length s
  pub short : length r.0 ≤ max_field
  pub utf8 : from_utf8 r.0 ≡ true

two_bounds : (a b c d : ℕ) → (ltb a b || ltb c d) ≡ false → (b ≤ a) × (d ≤ c)
two_bounds a b c d e = ground arith

pub not-false : (b : Bool) → not b ≡ false → b ≡ true
not-false true e = refl
not-false false e = sym e

two_bytes :
    (s : List ℕ) (at high low : ℕ)
    → IsBytes s
    → Cut s at (at + 1) (high ∷ [])
    → Cut s (at + 1) (at + 1 + 1) (low ∷ [])
    → drop at s ≡ to_be_bytes 2 (from_be_bytes (high ∷ low ∷ [])) ++ drop (at + 2) s
two_bytes s at high low h ch cl =
    ch.follows
    ∙ ap (◌∷◌ high) (cl.follows ∙ ap (λ (k : ℕ). low ∷ drop k s) {x = at + 1 + 1} (omega arith))
    ∙ ap (λ (n : List ℕ). n ++ drop (at + 2) s)
        (sym (number_bytes 2 (high ∷ low ∷ []) refl ((Cut-IsBytes ch h).0, (Cut-IsBytes cl h))))

pub take_str_lem : (s : List ℕ) (at : ℕ) → IsBytes s → Checked (TookString s at) (take_str s at)
unfolding take_str
take_str_lem s at h = Checked-guard _ (ltb (length s) (at + 2)) malformed _ (λ long.
    let room : at + 2 ≤ length s = ltb_false→le _ _ long in
    Checked-bind _ _ (index-Checked s at (omega arith)) (λ high ch.
      Checked-bind _ _ (index-Checked s (at + 1) (omega arith)) (λ low cl.
        let len : ℕ = from_be_bytes (high ∷ low ∷ []) in
        Checked-guard _ (ltb max_field len || ltb (length s) (at + 2 + len)) malformed _ (λ fits.
          let bounds = two_bounds max_field len (length s) (at + 2 + len) fits in
          Checked-bind _ _ (slice-Checked s (at + 2) (at + 2 + len) (omega arith) bounds.1)
            (λ text ct. Checked-guard _ (not (from_utf8 text)) malformed _ (λ valid. good (record {
              string_follows =
                  two_bytes s at high low h ch cl
                  ∙ ap₂ (λ (n : ℕ) (r : List ℕ). to_be_bytes 2 n ++ r) {x = len} {y = length text}
                      (omega arith) (ct.follows);
              in_range = bounds.1;
              short = omega arith;
              utf8 = not-false _ valid;
            })))))))

number_fits : (w : ℕ) (bs : List ℕ) → length bs ≡ w → IsBytes bs → from_be_bytes bs < 256 ^ w
number_fits w bs e h = subst (λ (k : ℕ). from_be_bytes bs < 256 ^ k) e (from_be_bytes-lt bs h)

nothing_behind :
    (s : List ℕ) (at : ℕ) (sig : List ℕ) → length s ≡ at + 64 → sig ++ drop (at + 64) s ≡ sig
nothing_behind s at sig e =
    ap (λ (r : List ℕ). sig ++ r) (drop-all s (at + 64) (omega arith)) ∙ append-nil sig

-- The bytes are those of the grant and its signature, and nothing behind them.
pub record Parsed (s : List ℕ) (r : Grant × List ℕ) : Type 0 where
  pub fits : Fits r.0
  pub signature_size : length r.1 ≡ 64
  pub is_wire : s ≡ wire_bytes r.0 r.1

-- `parse` does not panic, and what it accepts is exactly the bytes of a grant and a signature.
pub parse_lem : (s : List ℕ) → IsBytes s → Checked (Parsed s) (parse s)
unfolding parse
parse_lem s h = Checked-guard _ (ltb (length s) (1 + 32 + 32 + 8 + 2 + 2 + 64)) malformed _ (λ long.
    let room : 141 ≤ length s = ltb_false→le _ _ long in
    Checked-bind _ _ (index-Checked s 0 (omega arith)) (λ version c0.
      Checked-guard _ (not (version == grant_version)) (unsupported_version version) _ (λ is1.
        Checked-bind _ _ (slice-Checked s 1 33 (omega arith) (omega arith)) (λ source c1.
          Checked-bind _ _ (slice-Checked s 33 65 (omega arith) (omega arith)) (λ dest c2.
            Checked-bind _ _ (slice-Checked s 65 73 (omega arith) (omega arith)) (λ na c3.
              Checked-bind _ _ (take_str_lem s 73 h) (λ run t1.
                Checked-bind _ _ (take_str_lem s run.1 h) (λ path t2.
                  Checked-guard _ (not (length s == path.1 + 64)) malformed _ (λ all.
                    let end : length s ≡ path.1 + 64 = (==_iff _ _).0 (not-false _ all) in
                    Checked-bind _ _
                      (slice-Checked s path.1 (path.1 + 64) (omega arith) (omega arith))
                      (λ sig c4. good (record {
                        fits = record {
                          source_size = omega (arith, c1.size);
                          destination_size = omega (arith, c2.size);
                          not_after_fits =
                              number_fits 8 na (omega (arith, c3.size)) (Cut-IsBytes c3 h);
                          run_id_short = t1.short;
                          path_prefix_short = t2.short;
                          run_id_utf8 = t1.utf8;
                          path_prefix_utf8 = t2.utf8;
                        };
                        signature_size = omega (arith, c4.size);
                        is_wire = cc (
                          c0.follows,
                          (==_iff version 1).0 (not-false _ is1),
                          c1.follows,
                          c2.follows,
                          c3.follows,
                          number_bytes 8 na (omega (arith, c3.size)) (Cut-IsBytes c3 h),
                          t1.string_follows,
                          t2.string_follows,
                          c4.follows,
                          nothing_behind s path.1 sig end,
                        );
                      })))))))))))
