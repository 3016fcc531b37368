-- ===== src/Evidence/Manifest.antt =====
-- evidence/evidence_validator.py: the validation of an entry of the scoped manifest and of the hash of
-- an artifact. `digest` is the hexadecimal digest of SHA-256, `read_bytes` the file system.
pub mod Bound
use synapx_harness.Prelude.{
  ℕ, String, str_eq, length, Bool, true, false, not, ◌≡◌, Option, none, some, ℤ, pos, negsuc,
  int_eq,
}
use synapx_harness.Prelude.Results.{Result, ok, err, ◌>>=◌, ◌>>◌, raise_if}
use synapx_harness.Values.{Value, null, bool, int, str, list, dict, Fields, get}
use synapx_harness.Evidence.Checks.{number, is_natural}
use synapx_harness.Evidence.Hash.{validate_hash_format, check_placeholder_hash}
use synapx_harness.Mutation.Bytes.{Bytes}

-- The violation with which an entry is refused; there is one at most.
pub data EntryViolation : Type 0 where
  path_missing sha256_missing sha256_placeholder sha256_invalid size_invalid : EntryViolation
  sha256_mismatch size_mismatch : EntryViolation

-- `isinstance(v, str) and v`, as the text.
abbrev pub filled_text : Value → EntryViolation → Result EntryViolation String
filled_text (str s) e = raise_if (str_eq s "") e >> ok s
filled_text _ e = err e

-- `isinstance(v, int) and v >= 0`, as the number.
abbrev pub natural_number : Option ℤ → Result EntryViolation ℕ
natural_number (some (pos n)) = ok n
natural_number _ = err size_invalid

module _ (digest : Bytes → String) where
  abbrev pub compare_content : Option Bytes → String → ℕ → Result EntryViolation (Unit {0})
  compare_content none sha256 size_bytes = ok tt
  compare_content (some content) sha256 size_bytes = do
    raise_if (not (str_eq (digest content) sha256)) sha256_mismatch
    raise_if (not (int_eq (pos (length content)) (pos size_bytes))) size_mismatch
    ok tt

  -- The tests in their order; an entry that passes gives `True, []`.
  unfoldable pub validate_scoped_manifest_entry :
      Fields → Option Bytes → Result EntryViolation (Unit {0})
  validate_scoped_manifest_entry entry actual_content = do
    path ← filled_text (get "path" entry) path_missing
    sha256 ← filled_text (get "sha256" entry) sha256_missing
    raise_if (check_placeholder_hash sha256) sha256_placeholder
    raise_if (not (validate_hash_format sha256)) sha256_invalid
    size_bytes ← natural_number (number (get "size_bytes" entry))
    compare_content actual_content sha256 size_bytes

pub data HashViolation : Type 0 where
  file_not_found expected_invalid hash_mismatch : HashViolation

module _ (digest : Bytes → String) (read_bytes : String → Option Bytes) where
  unfoldable pub validate_artifact_hash_matches : String → String → Result HashViolation (Unit {0})
  validate_artifact_hash_matches path expected_sha256 = elim (read_bytes path) [
    | none ↦ err file_not_found
    | some content ↦
        raise_if (not (validate_hash_format expected_sha256)) expected_invalid
        >> (raise_if (not (str_eq (digest content) expected_sha256)) hash_mismatch >> ok tt)
  ]
