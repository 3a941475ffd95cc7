-- ===== src/Daemon/Manifest.antt =====
-- crates/ahp-daemon/src/net_receiver.rs: the manifest that a sender opens a transfer with, and the write
-- of a chunk into the mapped file. A string is its bytes; a message for the log is a constructor.
pub mod Accept
pub mod Write
use favonius.Base.{
  ℕ, ◌+◌, ◌-◌, ◌^◌, min, Bool, true, false, not, ◌||◌, List, Option, none, some, ltb, leb, ◌==◌,
  if◌then◌else◌, length, Outcome, ok, err, panic, ◌>>=◌, ◌>>◌, fail_if, slice, copy_at,
}
use favonius.Proto.ZeroRuns.{ZeroRun, RunError, validate, div_ceil, u64_max, saturating_add}

abbrev pub max_packet : ℕ
max_packet = 1500

abbrev pub max_num_streams : ℕ
max_num_streams = 64

abbrev pub max_total_chunks : ℕ
max_total_chunks = 2 ^ 26

pub data AckMode : Type 0 where
  bitmap nack : AckMode

pub record FileManifest : Type 0 where
  pub file_name : List ℕ
  pub file_size : ℕ
  pub dest_path : List ℕ
  pub payload_size : ℕ
  pub total_chunks : ℕ
  pub ack_mode : AckMode
  pub num_streams : ℕ
  pub compressed : Bool
  pub header_protected : Bool
  pub resume_mode : List ℕ
  pub file_hash : Option (List ℕ)
  pub merkle_root : Option (List ℕ)
  pub features : List (List ℕ)
  pub zero_runs : List ZeroRun

pub data ManifestError : Type 0 where
  too_large : ManifestError
  bad_payload_size : ManifestError
  too_many_streams : ManifestError
  too_many_chunks : ManifestError
  inconsistent : ManifestError
  bad_zero_runs : RunError → ManifestError

abbrev pub exceeds : ℕ → Option ℕ → Bool
exceeds file_size none = false
exceeds file_size (some max_size) = ltb max_size file_size

abbrev pub checked_runs : Outcome RunError ℕ → Outcome ManifestError (Unit {0})
checked_runs (ok n) = ok tt
checked_runs (err e) = err (bad_zero_runs e)
checked_runs panic = panic

unfoldable pub validate_manifest : FileManifest → Option ℕ → Outcome ManifestError (Unit {0})
validate_manifest m max_file_size = do
  fail_if (exceeds m.file_size max_file_size) too_large
  fail_if (m.payload_size == 0 || ltb max_packet m.payload_size) bad_payload_size
  fail_if (ltb max_num_streams m.num_streams) too_many_streams
  fail_if (ltb max_total_chunks m.total_chunks) too_many_chunks
  fail_if (not (m.total_chunks == div_ceil m.file_size m.payload_size)) inconsistent
  checked_runs (validate m.zero_runs m.total_chunks)

-- The mapped file with the bytes that fit.
unfoldable pub write_chunk : List ℕ → ℕ → List ℕ → Outcome (Unit {0}) (List ℕ)
write_chunk mmap offset bytes =
    if leb (length mmap) offset
    then ok mmap
    else let end = min (saturating_add offset (length bytes)) (length mmap) in
      slice bytes 0 (end - offset) >>= λ part. copy_at mmap offset part

pub data BitmapError : Type 0 where
  wrong_size : ℕ → BitmapError

abbrev pub unwrap_or : Option (List ℕ) → List ℕ → List ℕ
unwrap_or none payload = payload
unwrap_or (some bits) payload = bits

-- `decode_all` is that of the `zstd` crate.
unfoldable pub decode_resume_bitmap :
    (List ℕ → Option (List ℕ)) → List ℕ → ℕ → Outcome BitmapError (List ℕ)
decode_resume_bitmap decode_all payload total_chunks = do
  let bits = unwrap_or (decode_all payload) payload
  fail_if (not (length bits == div_ceil total_chunks 8)) (wrong_size (length bits))
  ok bits
