-- ===== src/Kernel/Lineage/Tests.antt =====
-- An envelope of one execution.
use synapx_harness.Prelude.{◌↔◌, [], ◌≡◌, refl}
use synapx_harness.Values.{Value, str, dict, Fields, end, field, get}
use synapx_harness.Values.Equality.{value_eq}
use synapx_harness.Kernel.Lineage.{slots, is_bound_if_any, assert_lineage_consistency}
use synapx_harness.Kernel.Lineage.Consistent.{IsConsistent, assert_lineage_consistency-IsConsistent}

abbrev some_identity : Fields
some_identity = field "job_id" (str "JOB-1") (
    field "root_task_id" (str "ROOT-1")
      (field "task_id" (str "TASK-1") (field "attempt_id" (str "ATTEMPT-1") end)))

abbrev some_contract : Fields
some_contract =
    field "work_contract_id" (str "WC-1") (field "execution_identity" (dict some_identity) end)

abbrev some_lineage : Fields
some_lineage = field "execution_identity" (dict some_identity) (
    field "work_contract" (dict some_contract) (
      field "agent_request" (dict (field "work_contract_id" (str "WC-1") end)) (
        field "admission_receipt" (dict end)
          (field "terminal_decision" (dict (field "work_contract_id" (str "WC-1") end)) end))))

assert_lineage_consistency-IsConsistent_example :
    (assert_lineage_consistency some_lineage "WC-1" ≡ []) ↔ IsConsistent some_lineage "WC-1"
assert_lineage_consistency-IsConsistent_example =
    assert_lineage_consistency-IsConsistent some_lineage "WC-1"

-- The envelope has no failures.
some_lineage-no_failures : assert_lineage_consistency some_lineage "WC-1" ≡ []
unfolding assert_lineage_consistency synapx_harness.Values.lookup
    synapx_harness.Values.Equality.value_eq synapx_harness.Kernel.Lineage.slot_failures
    synapx_harness.Kernel.Lineage.slot_differences
some_lineage-no_failures = refl
