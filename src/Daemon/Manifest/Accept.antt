-- ===== src/Daemon/Manifest/Accept.antt =====
-- What a manifest is that is accepted (validate_manifest).
use favonius.Base.{
  ℕ, ◌+◌, ◌≤◌, ◌<◌, ◌≡◌, ◌≢◌, refl, ap, Bool, true, false, not, ◌||◌, List, [], ◌∷◌, Option, none,
  some, ltb, ◌==◌, ==_iff, ltb_false→le, le→ltb_false, length, Outcome, ok, err, panic, Checked,
  good, bad, Checked-map, Checked-guard, pass-guard, arith, ==_false→ne, nonzero,
}
use favonius.Crypto.Grant.Wire.{not-false}
use favonius.Proto.ZeroRuns.{ZeroRun, RunError, validate, validate_from, div_ceil, max_zero_runs}
use favonius.Proto.ZeroRuns.Valid.{InOrder, validate_iff, chunk_count}
use favonius.Daemon.Manifest.{
  FileManifest, too_large, bad_payload_size, too_many_streams, too_many_chunks, inconsistent,
  exceeds, checked_runs, validate_manifest, max_packet, max_num_streams, max_total_chunks,
}

abbrev pub Within : ℕ → Option ℕ → Type 0
Within n none = Unit {0}
Within n (some limit) = n ≤ limit

-- The geometry that a transfer relies on.
pub record Sound (m : FileManifest) (limit : Option ℕ) : Type 0 where
  pub size_within : Within m.file_size limit
  pub payload_positive : 0 < m.payload_size
  pub payload_bounded : m.payload_size ≤ max_packet
  pub streams_bounded : m.num_streams ≤ max_num_streams
  pub chunks_bounded : m.total_chunks ≤ max_total_chunks
  pub chunks_cover : m.total_chunks ≡ div_ceil m.file_size m.payload_size
  pub few_runs : length m.zero_runs ≤ max_zero_runs
  pub runs_in_order : InOrder 0 m.total_chunks m.zero_runs

exceeds-false : (n : ℕ) (limit : Option ℕ) → exceeds n limit ≡ false → Within n limit
exceeds-false n none e = tt
exceeds-false n (some limit) e = ltb_false→le limit n e

Within-exceeds : (n : ℕ) (limit : Option ℕ) → Within n limit → exceeds n limit ≡ false
Within-exceeds n none h = refl
Within-exceeds n (some limit) h = le→ltb_false limit n h

positive : (n : ℕ) → n ≢ 0 → 0 < n
positive n h = omega arith

checked_runs_lem :
    (runs : List ZeroRun) (total : ℕ) (r : Outcome RunError ℕ)
    → ((n : ℕ) → r ≡ ok n → (length runs ≤ max_zero_runs) × InOrder 0 total runs)
    → r ≢ panic
    → Checked (λ _. (length runs ≤ max_zero_runs) × InOrder 0 total runs) (checked_runs r)
checked_runs_lem runs total (ok n) h p = good (h n refl)
checked_runs_lem runs total (err e) h p = bad
checked_runs_lem runs total panic h p = absurd (p refl)

no_panic :
    (runs : List ZeroRun) (total from covered : ℕ) → validate_from runs total from covered ≢ panic
unfolding validate_from
no_panic [] total from covered e = cc
no_panic ((first, count) ∷ rs) total from covered e =
    ground (arith, no_panic rs total (first + count) (covered + count))

validate-ne-panic : (runs : List ZeroRun) (total : ℕ) → validate runs total ≢ panic
unfolding validate
validate-ne-panic runs total e = ground (arith, no_panic runs total 0 0)

checked_runs_ok : (r : Outcome RunError ℕ) (n : ℕ) → r ≡ ok n → checked_runs r ≡ ok tt
checked_runs_ok r n e = ap checked_runs e

neither : (a b : Bool) → (a || b) ≡ false → (a ≡ false) × (b ≡ false)
neither true b e = absurd (cc)
neither false b e = (refl, e)

-- A manifest, whatever its fields, is accepted or refused, never a panic, and one that is accepted has a
-- payload of 1 to 1500 bytes, at most 64 streams and 2^26 chunks, the chunks that its file size gives, and
-- zero runs that are in order within them; the file is not larger than the limit, if there is one.
pub validate_manifest_lem :
    (m : FileManifest) (limit : Option ℕ) → Checked (λ _. Sound m limit) (validate_manifest m limit)
unfolding validate_manifest
validate_manifest_lem m limit = Checked-guard _ (exceeds m.file_size limit) too_large _ (λ e1.
    Checked-guard _ (m.payload_size == 0 || ltb max_packet m.payload_size) bad_payload_size _ (λ e2.
      Checked-guard _ (ltb max_num_streams m.num_streams) too_many_streams _ (λ e3.
        Checked-guard _ (ltb max_total_chunks m.total_chunks) too_many_chunks _ (λ e4.
          Checked-guard _ (not (m.total_chunks == div_ceil m.file_size m.payload_size)) inconsistent
            _
            (λ e5.
              let small : m.total_chunks ≤ max_total_chunks = ltb_false→le _ _ e4 in
              let sizes = neither (m.payload_size == 0) (ltb max_packet m.payload_size) e2 in
              Checked-map
                (λ _ runs. record {
                  size_within = exceeds-false m.file_size limit e1;
                  payload_positive = positive m.payload_size (==_false→ne _ _ sizes.0);
                  payload_bounded = ltb_false→le _ _ sizes.1;
                  streams_bounded = ltb_false→le _ _ e3;
                  chunks_bounded = small;
                  chunks_cover = (==_iff _ _).0 (not-false _ e5);
                  few_runs = runs.0;
                  runs_in_order = runs.1;
                })
                (checked_runs_lem m.zero_runs m.total_chunks (validate m.zero_runs m.total_chunks)
                  (λ n e.
                    let r = (validate_iff m.total_chunks (omega arith) m.zero_runs n).0 e in
                    (r.0, r.1))
                  (validate-ne-panic m.zero_runs m.total_chunks)))))))

-- And every manifest with that geometry is accepted.
pub Sound-validate_manifest :
    (m : FileManifest) (limit : Option ℕ) → Sound m limit → validate_manifest m limit ≡ ok tt
unfolding validate_manifest
Sound-validate_manifest m limit h =
    pass-guard (exceeds m.file_size limit) too_large _
      (Within-exceeds m.file_size limit (h.size_within))
      (pass-guard (m.payload_size == 0 || ltb max_packet m.payload_size) bad_payload_size _ sizes (
        pass-guard (ltb max_num_streams m.num_streams) too_many_streams _
          (le→ltb_false _ _ (h.streams_bounded))
          (pass-guard (ltb max_total_chunks m.total_chunks) too_many_chunks _
            (le→ltb_false _ _ (h.chunks_bounded))
            (pass-guard (not (m.total_chunks == div_ceil m.file_size m.payload_size)) inconsistent _
              (ap not ((==_iff _ _).1 (h.chunks_cover)))
              (checked_runs_ok _ (chunk_count m.zero_runs) (
                (validate_iff m.total_chunks (omega (arith, h.chunks_bounded)) m.zero_runs
                    (chunk_count m.zero_runs)).1
                  (h.few_runs, h.runs_in_order, refl)))))))
  where
    sizes : (m.payload_size == 0 || ltb max_packet m.payload_size) ≡ false
    sizes =
        rw
          (
            nonzero m.payload_size (h.payload_positive),
            le→ltb_false max_packet m.payload_size (h.payload_bounded),
          )
          refl
