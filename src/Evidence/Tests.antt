-- ===== src/Evidence/Tests.antt =====
-- Concrete evidence: a receipt, a summary, an entry of the manifest and an envelope.
use synapx_harness.Prelude.{
  ℕ, String, str_eq, true, false, ◌&&◌, Option, some, [], ◌∷◌, pos, int_eq, length, is_member, ◌≡◌,
  refl, ◌↔◌,
}
use synapx_harness.Prelude.Results.{ok, err}
use synapx_harness.Values.{Value, int, str, dict, Fields, end, field, lookup, get, is_text}
use synapx_harness.Kernel.Red.{failure_kinds}
use synapx_harness.Kernel.Terminal.{is_sealed}
use synapx_harness.Evidence.Checks.{is_filled, is_str, number, holds, none_left}
use synapx_harness.Evidence.Hash.{check_placeholder_hash}
use synapx_harness.Evidence.Receipt.{validate_command_receipt, is_gate}
use synapx_harness.Evidence.Receipt.Accepted.{is_artifact, validate_command_receipt-accepted}
use synapx_harness.Evidence.Pytest.{filled, is_infrastructure, classify_pytest_failure_kind}
use synapx_harness.Evidence.Pytest.Kinds.{classify_pytest_failure_kind-kind}
use synapx_harness.Evidence.Pytest.Clean.{
  AllPassed, BoundLog, is_valid_verification_summary-AllPassed,
}
use synapx_harness.Evidence.Manifest.{validate_artifact_hash_matches}
use synapx_harness.Evidence.Manifest.Bound.{validate_scoped_manifest_entry-bound}
use synapx_harness.Evidence.Seal.{seal_evidence, not_admitted, core_evidence_sealer}
use synapx_harness.Evidence.Seal.Sealed.{seal_evidence-Sealed}
use synapx_harness.Mutation.Bytes.{Bytes}

abbrev some_hash : String
some_hash = "0123456789abcdef0123456789abcdef0123456789abcdef0123456789abcdef"

-- A digest that is the same for every content.
abbrev some_digest : Bytes → String
some_digest content = some_hash

abbrev one_file : String → Option Bytes
one_file name = some []

abbrev some_artifact : Value
some_artifact = dict (
    field "path" (str "out.txt")
      (field "sha256" (str some_hash) (field "size_bytes" (int (pos 0)) end)))

abbrev some_receipt : Fields
some_receipt = field "command_id" (str "pytest") (
    field "sanitized_command" (str "pytest -q") (
      field "working_directory" (str "") (
        field "started_at" (str "") (
          field "finished_at" (str "") (
            field "exit_code" (int (pos 0)) (
              field "stdout_artifact" some_artifact
                (field "stderr_artifact" some_artifact (field "gate" (str "PASS") end))))))))

validate_command_receipt-accepted_example : (validate_command_receipt some_receipt).0 ≡ (
    (is_filled (get "command_id" some_receipt)
      && (is_filled (get "sanitized_command" some_receipt)
          && (is_str (get "working_directory" some_receipt)
              && (is_str (get "started_at" some_receipt)
                  && (is_str (get "finished_at" some_receipt)
                      && holds (λ _. true) (number (get "exit_code" some_receipt)))))))
    && (is_artifact (get "stdout_artifact" some_receipt)
        && (is_artifact (get "stderr_artifact" some_receipt) && is_gate (get "gate" some_receipt))))
validate_command_receipt-accepted_example = validate_command_receipt-accepted some_receipt

abbrev some_summary : Fields
some_summary = field "pytest_log_path" (str "pytest.log") (
    field "pytest_log_sha256" (str some_hash) (
      field "collected" (int (pos 3)) (
        field "executed" (int (pos 3)) (
          field "passed" (int (pos 3)) (
            field "failed" (int (pos 0)) (
              field "errors" (int (pos 0))
                (field "skipped" (int (pos 0)) (field "gate" (str "PASS") end))))))))

is_valid_verification_summary-AllPassed_example :
    BoundLog some_digest one_file some_summary
    × AllPassed
        (number (get "collected" some_summary))
        (number (get "executed" some_summary))
        (number (get "passed" some_summary))
        (number (get "failed" some_summary))
        (number (get "errors" some_summary))
        (number (get "skipped" some_summary))
    × (is_gate (get "gate" some_summary) ≡ true)
unfolding synapx_harness.Evidence.Pytest.is_valid_verification_summary
    synapx_harness.Evidence.Pytest.log_violations lookup
    synapx_harness.Evidence.Pytest.count_violations
is_valid_verification_summary-AllPassed_example =
    is_valid_verification_summary-AllPassed some_digest one_file some_summary refl

classify_pytest_failure_kind-kind_example :
    (is_member (classify_pytest_failure_kind (pos 1) ("t::a" ∷ []) []) failure_kinds ≡ true)
    × ((classify_pytest_failure_kind (pos 1) ("t::a" ∷ []) [] ≡ "TEST_FAILURE") ↔ (
        (int_eq (pos 1) (pos 1) ≡ true)
        × (none_left (filled ("t::a" ∷ [])) ≡ false)
        × (none_left (filled []) ≡ true)))
    × ((classify_pytest_failure_kind (pos 1) ("t::a" ∷ []) [] ≡ "INFRASTRUCTURE_ERROR")
        ↔ (is_infrastructure (pos 1) ≡ true))
classify_pytest_failure_kind-kind_example =
    classify_pytest_failure_kind-kind (pos 1) ("t::a" ∷ []) []

abbrev some_entry : Fields
some_entry =
    field "path" (str "out.txt")
      (field "sha256" (str some_hash) (field "size_bytes" (int (pos 0)) end))

validate_scoped_manifest_entry-bound_example :
    (path : String) × (get "path" some_entry ≡ str path)
    × (str_eq path "" ≡ false)
    × (get "sha256" some_entry ≡ str (some_digest []))
    × (number (get "size_bytes" some_entry) ≡ some (pos (length {A = ℕ} [])))
    × (check_placeholder_hash (some_digest []) ≡ false)
    × (validate_artifact_hash_matches some_digest one_file "out.txt" (some_digest []) ≡ ok tt)
unfolding synapx_harness.Evidence.Manifest.validate_scoped_manifest_entry lookup
    check_placeholder_hash synapx_harness.Evidence.Hash.validate_hash_format
    synapx_harness.Evidence.Hash.is_lower_hex
validate_scoped_manifest_entry-bound_example =
    validate_scoped_manifest_entry-bound some_digest some_entry [] "out.txt" one_file refl refl

abbrev some_envelope : Fields
some_envelope = field "evidence_id" (str "EV-1") (field "integrity_status" (str "ADMITTED") end)

abbrev some_sealed : Fields
some_sealed = field "evidence_id" (str "EV-1") (
    field "integrity_status" (str "SEALED")
      (field "sealed_by" (str "CORE_EVIDENCE_SEALER") (field "sealed_at" (str "now") end)))

seal_evidence-Sealed_example :
    (d : Fields) × (dict some_envelope ≡ dict d)
    × (is_text (get "integrity_status" d) "ADMITTED" ≡ true)
    × (str core_evidence_sealer ≡ str core_evidence_sealer)
    × (true ≡ true)
    × (is_sealed (dict some_sealed) ≡ true)
    × (lookup "evidence_id" some_sealed ≡ lookup "evidence_id" d)
    × (seal_evidence (dict some_sealed) (str core_evidence_sealer) true "now" ≡ err not_admitted)
unfolding seal_evidence lookup synapx_harness.Evidence.Seal.sealed_envelope
    synapx_harness.Evidence.Seal.set_field
seal_evidence-Sealed_example =
    seal_evidence-Sealed (dict some_envelope) (str core_evidence_sealer) true "now" some_sealed
      "evidence_id" refl refl
