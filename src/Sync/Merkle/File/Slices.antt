-- ===== src/Sync/Merkle/File/Slices.antt =====
-- A file fed to the builder in slices, and the file as a whole.
use mathlib.Core.Path.{subst}
use mathlib.Core.List.{foldl}
use favonius.Base.{
  ℕ, zero, suc, ◌+◌, ◌-◌, ◌<◌, ◌≤◌, ◌≡◌, refl, sym, ap, ◌∙◌, min, false, List, [], ◌∷◌, ◌++◌, map,
  Option, none, some, leb, leb→le, lt→leb_false, leb_false→lt, ◌==◌, ==_iff, ==_false→ne, nonzero,
  Bool-cases, inl, inr, All-append, length, length-append, length-take, length-drop, take, drop,
  take-all, drop-all, take-append-drop, append_assoc, append-nil, arith,
}
use favonius.Base.{Outcome, ok, ◌>>=◌}
use favonius.Sync.Merkle.{Blake3, MerkleTree, from_leaves}
use favonius.Sync.Merkle.Proofs.{from_leaves_total}
use favonius.Sync.Merkle.File.{
  SyncError, FileMerkleBuilder, new, try_build_file_merkle, complete_partial, hash_full, keep_rest,
  update, finish,
}
use favonius.Sync.Merkle.File.Chunks.{
  joined, Sized, joined-append, map-append, tail, builder, div_ceil-chunks, hash_chunks_lem,
}

module _ ⦃blake3 : Blake3⦄ where
  -- What the builder holds once it has seen `seen`.
  record Fed (ps : ℕ) (leaves : List (List ℕ)) (partial seen : List ℕ) : Type 0 where
    fulls : List (List ℕ)
    sized : Sized ps fulls
    hashed : leaves ≡ map blake3.hash fulls
    whole : seen ≡ joined fulls ++ partial
    short : length partial < ps

  -- What the loop over full chunks leaves.
  record Cut (ps fuel : ℕ) (leaves : List (List ℕ)) (data_in : List ℕ) : Type 0 where
    more : List (List ℕ)
    rest : List ℕ
    sized : Sized ps more
    result : hash_full fuel ps leaves data_in ≡ some (leaves ++ map blake3.hash more, rest)
    whole : data_in ≡ joined more ++ rest
    short : length rest < ps

  stop :
      (ps fuel : ℕ) (leaves : List (List ℕ)) (data_in : List ℕ)
      → leb ps (length data_in) ≡ false
      → Cut ps fuel leaves data_in
  unfolding hash_full
  stop ps fuel leaves data_in e = record {
    more = [];
    rest = data_in;
    sized = tt;
    result = at fuel;
    whole = refl;
    short = leb_false→lt ps (length data_in) e;
  }
    where
      at : (fuel : ℕ) → hash_full fuel ps leaves data_in ≡ some (leaves ++ [], data_in)
      at zero = rw (e, append-nil leaves)
      at (suc fuel) = rw (e, append-nil leaves)

  cut :
      (ps fuel : ℕ) (leaves : List (List ℕ)) (data_in : List ℕ)
      → 0 < ps
      → length data_in ≤ fuel
      → Cut ps fuel leaves data_in
  unfolding hash_full
  cut ps zero leaves data_in pos p =
      stop ps zero leaves data_in (lt→leb_false ps (length data_in) (omega arith))
  cut ps (suc fuel) leaves data_in pos p = elim (Bool-cases (leb ps (length data_in))) [
    | inr short ↦ stop ps (suc fuel) leaves data_in short
    | inl long ↦
        let chunk : List ℕ = take ps data_in in
        let h = leb→le ps (length data_in) long in
        let c =
          cut ps fuel (leaves ++ (blake3.hash chunk ∷ [])) (drop ps data_in) pos
            (omega (arith, length-drop ps data_in)) in
        record {
          more = chunk ∷ c.more;
          rest = c.rest;
          sized = (omega (arith, length-take ps data_in), c.sized);
          result =
              rw (long, c.result)
                (ap
                  (λ (l : List (List ℕ)).
                    let r : Option (List (List ℕ) × List ℕ) = some (l, c.rest) in r)
                  (append_assoc leaves (blake3.hash chunk ∷ []) (map blake3.hash c.more)));
          whole =
              sym (take-append-drop ps data_in)
              ∙ ap (◌++◌ chunk) c.whole
              ∙ sym (append_assoc chunk (joined c.more) c.rest);
          short = c.short;
        }
  ]

  record Updated (ps : ℕ) (r : Option FileMerkleBuilder) (seen : List ℕ) : Type 0 where
    leaves : List (List ℕ)
    partial : List ℕ
    result : r ≡ some (builder ps leaves partial)
    fed : Fed ps leaves partial seen

  from_boundary :
      (ps : ℕ) (leaves : List (List ℕ)) (seen data_in : List ℕ)
      → 0 < ps
      → Fed ps leaves [] seen
      → Updated ps
          (keep_rest (builder ps leaves []) (hash_full (length data_in) ps leaves data_in))
          (seen ++ data_in)
  from_boundary ps leaves seen data_in pos f =
      let c = cut ps (length data_in) leaves data_in pos (omega arith) in
      record {
        leaves = leaves ++ map blake3.hash c.more;
        partial = c.rest;
        result = rw c.result refl;
        fed = record {
          fulls = f.fulls ++ c.more;
          sized = All-append (λ (c : List ℕ). length c ≡ ps) f.fulls c.more f.sized c.sized;
          hashed =
              ap (λ (l : List (List ℕ)). l ++ map blake3.hash c.more) f.hashed
              ∙ sym (map-append blake3.hash f.fulls c.more);
          whole =
              ap (λ (s : List ℕ). s ++ data_in) (f.whole ∙ append-nil (joined f.fulls))
              ∙ ap (◌++◌ (joined f.fulls)) c.whole
              ∙ sym (append_assoc (joined f.fulls) (joined c.more) c.rest)
              ∙ ap (λ (s : List ℕ). s ++ c.rest) (sym (joined-append f.fulls c.more));
          short = c.short;
        };
      }

  completed :
      (ps : ℕ) (leaves : List (List ℕ)) (partial seen front : List ℕ)
      → 0 < ps
      → Fed ps leaves partial seen
      → length (partial ++ front) ≡ ps
      → Fed ps (leaves ++ (blake3.hash (partial ++ front) ∷ [])) [] (seen ++ front)
  completed ps leaves partial seen front pos f full = record {
    fulls = f.fulls ++ ((partial ++ front) ∷ []);
    sized =
        All-append (λ (c : List ℕ). length c ≡ ps) f.fulls ((partial ++ front) ∷ []) f.sized
          (full, tt);
    hashed =
        ap (λ (l : List (List ℕ)). l ++ (blake3.hash (partial ++ front) ∷ [])) f.hashed
        ∙ sym (map-append blake3.hash f.fulls ((partial ++ front) ∷ []));
    whole =
        ap (λ (s : List ℕ). s ++ front) f.whole
        ∙ append_assoc (joined f.fulls) partial front
        ∙ ap (◌++◌ (joined f.fulls)) (sym (append-nil (partial ++ front)))
        ∙ sym (joined-append f.fulls ((partial ++ front) ∷ []))
        ∙ sym (append-nil (joined (f.fulls ++ ((partial ++ front) ∷ []))));
    short = pos;
  }

  hash_full-nil :
      (ps : ℕ) (leaves : List (List ℕ)) → 0 < ps → hash_full 0 ps leaves [] ≡ some (leaves, [])
  unfolding hash_full
  hash_full-nil ps leaves pos = rw (lt→leb_false ps 0 pos)

  seen_as :
      {ps : ℕ} {r : Option FileMerkleBuilder} {s s' : List ℕ}
      → s ≡ s'
      → Updated ps r s
      → Updated ps r s'
  seen_as {ps = ps} {r = r} e u = subst (Updated ps r) e u

  update-Fed :
      (ps : ℕ) (leaves : List (List ℕ)) (partial seen data_in : List ℕ)
      → 0 < ps
      → Fed ps leaves partial seen
      → Updated ps (update (builder ps leaves partial) data_in) (seen ++ data_in)
  unfolding update complete_partial
  update-Fed ps leaves [] seen data_in pos f = from_boundary ps leaves seen data_in pos f
  update-Fed ps leaves (x ∷ xs) seen data_in pos f =
      let partial : List ℕ = x ∷ xs in
      let n : ℕ = min (ps - length partial) (length data_in) in
      let front : List ℕ = take n data_in in
      let rest : List ℕ = drop n data_in in
      let size : length (partial ++ front) ≡ length partial + n =
        omega (arith, length-append partial front, length-take n data_in) in
      elim (Bool-cases (length (partial ++ front) == ps)) [
        | inl full ↦
            let c =
              completed ps leaves partial seen front pos f
                ((==_iff (length (partial ++ front)) ps).0 full) in
            rw (nonzero (suc (length xs)) (omega arith), full)
              (seen_as (append_assoc seen front rest ∙ ap (◌++◌ seen) (take-append-drop n data_in))
                (from_boundary ps (leaves ++ (blake3.hash (partial ++ front) ∷ [])) (seen ++ front)
                  rest pos c))
        | inr not_full ↦
            let ne = ==_false→ne (length (partial ++ front)) ps not_full in
            let all : n ≡ length data_in = omega (arith, ne, size, f.short) in
            let none_left : drop n data_in ≡ [] = drop-all data_in n (omega (arith, all)) in
            let held : List ℕ = (partial ++ front) ++ [] in
            let same : held ≡ partial ++ data_in =
              append-nil (partial ++ front)
              ∙ ap (◌++◌ partial) (take-all data_in n (omega (arith, all))) in
            rw
              (
                nonzero (suc (length xs)) (omega arith),
                not_full,
                none_left,
                hash_full-nil ps leaves pos,
              )
              (record {
                leaves = leaves;
                partial = held;
                result = refl;
                fed = record {
                  fulls = f.fulls;
                  sized = f.sized;
                  hashed = f.hashed;
                  whole =
                      ap (λ (s : List ℕ). s ++ data_in) f.whole
                      ∙ append_assoc (joined f.fulls) partial data_in
                      ∙ ap (◌++◌ (joined f.fulls)) (sym same);
                  short = omega (arith, ne, size, f.short, length-append (partial ++ front) []);
                };
              })
      ]

  -- A call of `update` on what the calls before it left.
  abbrev pub feed : Option FileMerkleBuilder → List ℕ → Option FileMerkleBuilder
  feed none data_in = none
  feed (some b) data_in = update b data_in

  abbrev pub finish_some : Option FileMerkleBuilder → Option MerkleTree
  finish_some none = none
  finish_some (some b) = finish b

  -- The tree that a caller gets who feeds the builder slice by slice.
  abbrev pub tree_of_slices : ℕ → List (List ℕ) → Outcome SyncError (Option MerkleTree)
  tree_of_slices payload_size slices = do
    b ← new payload_size
    ok (finish_some (foldl feed (some b) slices))

  feed_all-Fed :
      (ps : ℕ) (leaves : List (List ℕ)) (partial seen : List ℕ) (slices : List (List ℕ))
      → 0 < ps
      → Fed ps leaves partial seen
      → Updated ps (foldl feed (some (builder ps leaves partial)) slices) (seen ++ joined slices)
  feed_all-Fed ps leaves partial seen [] pos f =
      seen_as (sym (append-nil seen))
        (record { leaves = leaves; partial = partial; result = refl; fed = f })
  feed_all-Fed ps leaves partial seen (x ∷ slices) pos f =
      let u = update-Fed ps leaves partial seen x pos f in
      let v = feed_all-Fed ps u.leaves u.partial (seen ++ x) slices pos u.fed in
      seen_as (append_assoc seen x (joined slices)) (record {
        leaves = v.leaves;
        partial = v.partial;
        result = ap (λ (b : Option FileMerkleBuilder). foldl feed b slices) u.result ∙ v.result;
        fed = v.fed;
      })

  finish-Fed :
      (ps : ℕ) (leaves : List (List ℕ)) (partial seen : List ℕ) (f : Fed ps leaves partial seen)
      → finish (builder ps leaves partial) ≡ from_leaves (map blake3.hash (f.fulls ++ tail partial))
  unfolding finish
  finish-Fed ps leaves [] seen f =
      ap from_leaves (f.hashed ∙ ap (map blake3.hash) (sym (append-nil f.fulls)))
  finish-Fed ps leaves (x ∷ xs) seen f = rw (nonzero (suc (length xs)) (omega arith)) (
      ap from_leaves (
        ap (λ (l : List (List ℕ)). l ++ (blake3.hash (x ∷ xs) ∷ [])) f.hashed
        ∙ sym (map-append blake3.hash f.fulls ((x ∷ xs) ∷ []))))

  whole_file :
      (ps : ℕ) (leaves : List (List ℕ)) (partial seen : List ℕ) (f : Fed ps leaves partial seen)
      → 0 < ps
      → try_build_file_merkle seen ps ≡ ok (from_leaves (map blake3.hash (f.fulls ++ tail partial)))
  unfolding try_build_file_merkle
  whole_file ps leaves partial seen f pos = rw (
    nonzero ps pos,
    f.whole,
    div_ceil-chunks ps f.fulls partial f.sized f.short,
    hash_chunks_lem ps 0 [] f.fulls partial (omega arith) f.sized f.short,
  )

  -- For chunks of at least one byte, feeding a file to the builder in any slices and finishing it
  -- gives a tree, and it is the tree that `try_build_file_merkle` builds from the whole file.
  pub tree_of_slices-try_build_file_merkle :
      (payload_size : ℕ) (slices : List (List ℕ))
      → 0 < payload_size
      → (t : MerkleTree) × (tree_of_slices payload_size slices ≡ ok (some t))
        × (try_build_file_merkle (joined slices) payload_size ≡ ok (some t))
  unfolding new
  tree_of_slices-try_build_file_merkle ps slices pos =
      let start : Fed ps [] [] [] = record {
        fulls = [];
        sized = tt;
        hashed = refl;
        whole = refl;
        short = pos;
      } in
      let u = feed_all-Fed ps [] [] [] slices pos start in
      let leaves : List (List ℕ) = map blake3.hash (u.fed.fulls ++ tail u.partial) in
      let (t, e) = from_leaves_total leaves in
      (
        t,
        rw (nonzero ps pos, u.result, finish-Fed ps u.leaves u.partial (joined slices) u.fed, e),
        whole_file ps u.leaves u.partial (joined slices) u.fed pos
            ∙ ap (λ (r : Option MerkleTree). ok r) e,
      )
