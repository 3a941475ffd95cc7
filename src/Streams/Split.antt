-- ===== src/Streams/Split.antt =====
-- The loop of `build_recv_streams` (crates/ahp-daemon/src/net_receiver.rs) and of `build_streams`
-- (crates/ahp-cli/src/net_sender.rs), for whatever a stream is made by.
use native.Mathlib.Nat.{div-add-mod'}
use favonius.Base.{
  ℕ, zero, suc, ◌+◌, ◌-◌, ◌*◌, ◌/◌, ◌%◌, ◌<◌, min, ◌≡◌, refl, ap, ◌∙◌, Bool, ◌&&◌, List, [], ◌∷◌,
  ltb, leb, if◌then◌else◌, length, arith,
}

module _ {S : Type 0} (new : ℕ → ℕ → ℕ → S) (per_stream remainder : ℕ) where
  -- `for i in i..i + rounds`
  unfoldable pub split_from : ℕ → ℕ → ℕ → List S
  split_from zero i base = []
  split_from (suc rounds) i base =
      let count = per_stream + (if ltb i remainder then 1 else 0) in
      new i base count ∷ split_from rounds (i + 1) (base + count)

  pub length-split_from : (rounds i base : ℕ) → length (split_from rounds i base) ≡ rounds
  unfolding split_from
  length-split_from zero i base = refl
  length-split_from (suc rounds) i base =
      ap suc (
        length-split_from rounds (i + 1) (base + (per_stream + (if ltb i remainder then 1 else 0))))

-- Whether a chunk, by its number in the file, is one of `count` from `base`.
abbrev pub holds : ℕ → ℕ → ℕ → Bool
holds base count g = leb base g && ltb g (base + count)

module _ {S : Type 0} (base_of count_of : S → ℕ) where
  -- How many of the streams hold a chunk.
  abbrev pub holders : List S → ℕ → ℕ
  holders [] g = 0
  holders (s ∷ ss) g = (if holds (base_of s) (count_of s) g then 1 else 0) + holders ss g

module _ {S : Type 0} (new : ℕ → ℕ → ℕ → S) (base_of count_of : S → ℕ)
    (base-new : (i base count : ℕ) → base_of (new i base count) ≡ base)
    (count-new : (i base count : ℕ) → count_of (new i base count) ≡ count) where
  -- The chunks of the streams from number `i` on.
  abbrev span : ℕ → ℕ → ℕ → ℕ → ℕ
  span per_stream remainder rounds i =
      rounds * per_stream + (min remainder (i + rounds) - min remainder i)

  holders_from :
      (per_stream remainder rounds i base g : ℕ)
      → holders base_of count_of (split_from new per_stream remainder rounds i base) g
        ≡ (if holds base (span per_stream remainder rounds i) g then 1 else 0)
  unfolding split_from
  holders_from p r zero i base g = ground arith
  holders_from p r (suc rounds) i base g =
      let count = p + (if ltb i r then 1 else 0) in
      rw
        (
          base-new i base count,
          count-new i base count,
          holders_from p r rounds (i + 1) (base + count) g,
        )
        (ground (arith, sum))
    where
      sum : span p r (suc rounds) i ≡ (p + (if ltb i r then 1 else 0)) + span p r rounds (i + 1)
      sum = ground arith

  -- Every chunk of the file is held by one stream, and no other chunk by any.
  pub holders-split :
      (total streams g : ℕ)
      → 0 < streams
      → holders base_of count_of (split_from new (total / streams) (total % streams) streams 0 0) g
        ≡ (if ltb g total then 1 else 0)
  holders-split total streams g h =
      holders_from (total / streams) (total % streams) streams 0 0 g ∙ ground (arith, whole)
    where
      whole : span (total / streams) (total % streams) streams 0 ≡ total
      whole = grind (arith, div-add-mod' total streams)
