-- ===== src/Evidence/Receipt.antt =====
-- evidence/command_receipt.py: the validation of a command receipt. The source writes the tests of an
-- artifact out twice, for the two streams; here both are `artifact_violations`.
pub mod Accepted
use synapx_harness.Prelude.{
  String, str_eq, count_chars, ◌==◌, Bool, true, false, ◌&&◌, ◌||◌, not, if◌then◌else◌, List, [],
  ◌∷◌, ◌++◌, map, ℤ,
}
use synapx_harness.Values.{Value, null, bool, int, str, list, dict, Fields, get, is_text}
use synapx_harness.Evidence.Checks.{is_filled, is_str, number, holds, is_natural, unless, verdict}
use synapx_harness.Evidence.Hash.{placeholder_hash, is_lower_hex}

pub data ArtifactViolation : Type 0 where
  artifact_required path_required sha256_required sha256_placeholder : ArtifactViolation
  sha256_length sha256_not_hex size_invalid : ArtifactViolation

pub data ReceiptViolation : Type 0 where
  command_id_required sanitized_command_required working_directory_required : ReceiptViolation
  started_at_required finished_at_required exit_code_required gate_invalid : ReceiptViolation
  stdout_violation stderr_violation : ArtifactViolation → ReceiptViolation

-- The tests on `sha256`, of which the first that fails counts.
unfoldable pub sha256_violations : Value → List ArtifactViolation
sha256_violations (str s) =
    if str_eq s ""
    then sha256_required ∷ []
    else if str_eq s placeholder_hash
    then sha256_placeholder ∷ []
    else if not (count_chars s == 64)
    then sha256_length ∷ []
    else if not (is_lower_hex s)
    then sha256_not_hex ∷ []
    else []
sha256_violations _ = sha256_required ∷ []

unfoldable pub artifact_violations : Value → List ArtifactViolation
artifact_violations (dict a) =
    unless (is_filled (get "path" a)) path_required
    ++ (sha256_violations (get "sha256" a)
        ++ unless (holds is_natural (number (get "size_bytes" a))) size_invalid)
artifact_violations _ = artifact_required ∷ []

-- `v in ("PASS", "FAIL")`
abbrev pub is_gate : Value → Bool
is_gate v = is_text v "PASS" || is_text v "FAIL"

abbrev pub field_violations : Fields → List ReceiptViolation
field_violations d =
    unless (is_filled (get "command_id" d)) command_id_required
    ++ (unless (is_filled (get "sanitized_command" d)) sanitized_command_required
        ++ (unless (is_str (get "working_directory" d)) working_directory_required
            ++ (unless (is_str (get "started_at" d)) started_at_required
                ++ (unless (is_str (get "finished_at" d)) finished_at_required
                    ++ unless (holds (λ _. true) (number (get "exit_code" d)))
                        exit_code_required))))

abbrev pub receipt_violations : Fields → List ReceiptViolation
receipt_violations d =
    field_violations d
    ++ (map stdout_violation (artifact_violations (get "stdout_artifact" d))
        ++ (map stderr_violation (artifact_violations (get "stderr_artifact" d))
            ++ unless (is_gate (get "gate" d)) gate_invalid))

unfoldable pub validate_command_receipt : Fields → Bool × List ReceiptViolation
validate_command_receipt d = verdict (receipt_violations d)
