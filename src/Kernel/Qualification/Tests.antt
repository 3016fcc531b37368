-- ===== src/Kernel/Qualification/Tests.antt =====
-- Concrete runs of the port.
use synapx_harness.Prelude.{
  String, Option, none, some, ◌≡◌, refl, true, false, pos, str_eq, if◌then◌else◌, ◌↔◌, All, any,
  List,
}
use synapx_harness.Prelude.Results.{ok}
use synapx_harness.Values.{
  Value, null, bool, int, str, list, dict, Items, nil, cons, Fields, end, field,
}
use synapx_harness.Values.Equality.{value_eq}
use synapx_harness.Kernel.Contracts.{
  VerificationResult, TerminalDecisionRecord, Decision, completed, blocked, pass, fail, valid,
  invalid,
}
use synapx_harness.Kernel.Terminal.{finalize}
use synapx_harness.Kernel.Qualification.{
  ResultIdentity, verify, write_ok, set_of, is_empty, authorized_value, actual_value,
}
use synapx_harness.Kernel.Qualification.Criteria.{AllSix, verify-finalize}
use synapx_harness.Kernel.Qualification.Ledger.{write_ok-ledger}

abbrev no_repr : Value → String
no_repr v = ""

abbrev some_identity : ResultIdentity
some_identity = record { job_id = "JOB-1"; task_id = "TASK-1"; attempt_id = "ATTEMPT-1" }

abbrev some_contract : Fields
some_contract = field "work_contract_id" (str "WC-1") (
    field "execution_identity"
      (dict (
        field "job_id" (str "JOB-1")
          (field "task_id" (str "TASK-1") (field "attempt_id" (str "ATTEMPT-1") end))))
      end)

-- Artifacts of a run that qualifies.
abbrev some_artifacts : String → Option Value
some_artifacts path =
    if str_eq path "red/result.json"
    then some (
        dict (
          field "exit_code" (int (pos 1))
            (field "failure_reason_matches_intended_defect" (bool true) end)))
    else if str_eq path "green/result.json"
    then some (dict (field "exit_code" (int (pos 0)) end))
    else if str_eq path "regression/differential.json"
    then some (dict (field "differential" (dict (field "new_failed" (list nil) end)) end))
    else if str_eq path "execution/write_ledger.json"
    then some (
        dict (
          field "authorized_paths" (list (cons (str "tests/test_a.py") nil))
            (field "applied_paths" (list (cons (str "tests/test_a.py") nil)) end)))
    else none

abbrev qualified : VerificationResult
qualified = record {
  work_contract_id = "WC-1";
  verification_status = pass;
  evidence_status = valid;
  active_blocker_count = 0;
}

verify-finalize_example :
    (d : TerminalDecisionRecord) × (finalize qualified ≡ ok d)
    × (d.work_contract_id ≡ "WC-1")
    × ((d.decision ≡ completed) ↔ AllSix no_repr some_artifacts some_contract "DONE" some_identity)
unfolding verify synapx_harness.Kernel.Qualification.red_ok
    synapx_harness.Kernel.Qualification.green_ok synapx_harness.Kernel.Qualification.regression_ok
    synapx_harness.Values.lookup write_ok synapx_harness.Kernel.Qualification.result_of
    synapx_harness.Kernel.Qualification.identity_ok synapx_harness.Values.Equality.value_eq
    synapx_harness.Kernel.Contracts.build_verification_result
verify-finalize_example =
    verify-finalize no_repr some_artifacts some_contract "DONE" some_identity qualified refl

write_ok-ledger_example :
    (ledger : Fields) × (authorized actual : List Value) × (some_artifacts
        "execution/write_ledger.json"
      ≡ some (dict ledger))
    × (set_of (authorized_value ledger) ≡ ok authorized)
    × (set_of (actual_value ledger) ≡ ok actual)
    × (is_empty actual ≡ false)
    × All (λ v. any (λ w. value_eq v w) authorized ≡ true) actual
unfolding write_ok synapx_harness.Values.lookup synapx_harness.Values.Equality.value_eq
write_ok-ledger_example = write_ok-ledger some_artifacts refl
