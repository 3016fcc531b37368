-- ===== src/Evidence/Pytest.antt =====
-- evidence/pytest_result_parser.py: the kind of a failed run, the validation of a summary, and the
-- two tests of consistency. `read_bytes` stands for the file system: the bytes of a file, or none
-- where the path is no file. `digest` is the hexadecimal digest of SHA-256.
pub mod Kinds
pub mod Clean
use synapx_harness.Prelude.{
  ℕ, String, str_eq, ◌==◌, Bool, true, false, ◌&&◌, ◌||◌, not, if◌then◌else◌, Option, none, some,
  List, [], ◌∷◌, ◌++◌, filter, ℤ, pos, negsuc, int_eq, is_positive, ◌+ℤ◌,
}
use synapx_harness.Values.{Value, null, bool, int, str, list, dict, Fields, get, is_text}
use synapx_harness.Evidence.Checks.{number, holds, is_natural, unless, none_left, verdict}
use synapx_harness.Evidence.Receipt.{is_gate}
use synapx_harness.Mutation.Bytes.{Bytes}

-- `[i for i in ids if isinstance(i, str) and i]`
abbrev pub filled : List String → List String
filled = filter (λ i. not (str_eq i ""))

-- `exit_code in (3, 4, 5) or exit_code < 0`
abbrev pub is_infrastructure : ℤ → Bool
is_infrastructure (pos n) = (n == 3) || ((n == 4) || (n == 5))
is_infrastructure (negsuc n) = true

unfoldable pub classify_pytest_failure_kind : ℤ → List String → List String → String
classify_pytest_failure_kind exit_code failed_test_ids error_test_ids =
    let failed = filled failed_test_ids in
    let errors = filled error_test_ids in
    if int_eq exit_code (pos 1) && (not (none_left failed) && none_left errors)
    then "TEST_FAILURE"
    else if int_eq exit_code (pos 2)
    then "COLLECTION_ERROR"
    else if is_infrastructure exit_code
    then "INFRASTRUCTURE_ERROR"
    else if not (none_left errors)
    then "COLLECTION_ERROR"
    else "UNKNOWN"

pub data SummaryViolation : Type 0 where
  log_path_not_text log_missing log_hash_mismatch : SummaryViolation
  collected_not_positive executed_not_natural passed_not_int failed_not_int : SummaryViolation
  errors_not_int skipped_not_int total_mismatch executed_mismatch : SummaryViolation
  some_failed some_errors some_skipped gate_invalid : SummaryViolation

-- `x if isinstance(x, int) else 0`
abbrev pub or_zero : Option ℤ → ℤ
or_zero none = pos 0
or_zero (some z) = z

-- `isinstance(x, int) and x != z` does not hold.
abbrev pub agrees : ℤ → Option ℤ → Bool
agrees z none = true
agrees z (some y) = int_eq y z

-- The same for two numbers that may be missing.
abbrev pub agree : Option ℤ → Option ℤ → Bool
agree none c = true
agree (some e) none = true
agree (some e) (some c) = int_eq e c

abbrev pub total : Option ℤ → Option ℤ → Option ℤ → Option ℤ → ℤ
total passed failed errors skipped =
    or_zero passed +ℤ or_zero failed +ℤ or_zero errors +ℤ or_zero skipped

-- The tests on the six counts.
unfoldable pub count_violations :
    Option ℤ → Option ℤ → Option ℤ → Option ℤ → Option ℤ → Option ℤ → List SummaryViolation
count_violations collected executed passed failed errors skipped =
    unless (holds is_positive collected) collected_not_positive
    ++ (unless (holds is_natural executed) executed_not_natural
        ++ (unless (holds (λ _. true) passed) passed_not_int
            ++ (unless (holds (λ _. true) failed) failed_not_int
                ++ (unless (holds (λ _. true) errors) errors_not_int
                    ++ (unless (holds (λ _. true) skipped) skipped_not_int
                        ++ (unless (int_eq (total passed failed errors skipped) (or_zero collected))
                              total_mismatch
                            ++ (unless (agree executed collected) executed_mismatch
                                ++ (unless (agrees (pos 0) failed) some_failed
                                    ++ (unless (agrees (pos 0) errors) some_errors
                                        ++ unless (agrees (pos 0) skipped) some_skipped)))))))))

-- `gate_status in ("PASS", "FAIL")` and the like stand on `is_text`.
abbrev is_evidence_status : Value → Bool
is_evidence_status v = is_text v "VALID" || (is_text v "INVALID" || is_text v "PENDING")

unfoldable pub is_semantic_result_consistent : Value → Value → Bool
is_semantic_result_consistent verification evidence =
    if is_text verification "PASS"
    then is_text evidence "VALID"
    else if is_text verification "FAIL"
    then is_evidence_status evidence
    else is_text verification "PENDING" && is_evidence_status evidence

unfoldable pub is_exit_code_consistent : Value → Bool
is_exit_code_consistent v = holds (λ z. int_eq z (pos 0) || int_eq z (pos 1)) (number v)

module _ (digest : Bytes → String) (read_bytes : String → Option Bytes) where
  -- The hash is compared only where it is a text.
  abbrev pub hash_violations : Value → Bytes → List SummaryViolation
  hash_violations (str expected_sha) content =
      unless (str_eq (digest content) expected_sha) log_hash_mismatch
  hash_violations _ content = []

  unfoldable pub log_violations : Fields → List SummaryViolation
  log_violations d = elim (get "pytest_log_path" d) [
    | str path ↦ elim (read_bytes path) [
      | none ↦ log_missing ∷ []
      | some content ↦ hash_violations (get "pytest_log_sha256" d) content
    ]
    | _ ↦ log_path_not_text ∷ []
  ]

  unfoldable pub is_valid_verification_summary : Fields → Bool × List SummaryViolation
  is_valid_verification_summary d = verdict (
      log_violations d
      ++ (count_violations (number (get "collected" d)) (number (get "executed" d))
            (number (get "passed" d)) (number (get "failed" d)) (number (get "errors" d))
            (number (get "skipped" d))
          ++ unless (is_gate (get "gate" d)) gate_invalid))
