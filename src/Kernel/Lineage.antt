-- ===== src/Kernel/Lineage.antt =====
-- kernel/c3_r1_lineage.py: the assertions on the lineage envelope of an execution. The envelope is a
-- dictionary; the functions that build it copy the fields of an execution's result.
pub mod Consistent
mod Tests
use synapx_harness.Prelude.{String, str_eq, Bool, true, false, ◌||◌, not, List, [], ◌∷◌, ◌++◌}
use synapx_harness.Values.{
  Value, null, bool, int, str, list, dict, Fields, end, get, is_text, truthy,
}
use synapx_harness.Values.Equality.{value_eq}
use synapx_harness.Evidence.Checks.{is_filled, unless}

pub data LineageFailure : Type 0 where
  identity_missing contract_missing request_missing admission_missing : LineageFailure
  terminal_missing identity_mismatch contract_mismatch request_mismatch : LineageFailure
  admission_mismatch terminal_mismatch : LineageFailure
  slot_missing slot_differs : String → LineageFailure

-- The slots of an execution identity that both loops go through.
abbrev pub slots : List String
slots = "job_id" ∷ "root_task_id" ∷ "task_id" ∷ "attempt_id" ∷ []

-- `isinstance(v, dict)`
abbrev pub is_dict : Value → Bool
is_dict (dict d) = true
is_dict _ = false

abbrev pub fields_of : Value → Fields
fields_of (dict d) = d
fields_of _ = end

-- The id of a part that is a dictionary has to be the expected one.
abbrev pub is_bound : Value → String → Bool
is_bound (dict d) expected = is_text (get "work_contract_id" d) expected
is_bound _ expected = true

-- The same, but only where the part has an id that is true.
abbrev pub is_bound_if_any : Value → String → Bool
is_bound_if_any (dict d) expected =
    not (truthy (get "work_contract_id" d)) || is_text (get "work_contract_id" d) expected
is_bound_if_any _ expected = true

unfoldable pub slot_failures : List String → Fields → List LineageFailure
slot_failures [] eid = []
slot_failures (slot ∷ rest) eid =
    unless (is_filled (get slot eid)) (slot_missing slot) ++ slot_failures rest eid

unfoldable pub slot_differences : List String → Fields → Fields → List LineageFailure
slot_differences [] inner eid = []
slot_differences (slot ∷ rest) inner eid =
    unless (value_eq (get slot inner) (get slot eid)) (slot_differs slot)
    ++ slot_differences rest inner eid

-- The identity inside of the work contract is compared where it is a dictionary.
abbrev pub inner_failures : Value → Fields → List LineageFailure
inner_failures (dict inner) eid = slot_differences slots inner eid
inner_failures _ eid = []

abbrev pub failures_with : Fields → Fields → String → List LineageFailure
failures_with lineage eid expected =
    let contract = get "work_contract" lineage in
    let request = get "agent_request" lineage in
    let admission = get "admission_receipt" lineage in
    let terminal = get "terminal_decision" lineage in
    unless (is_dict contract) contract_missing
    ++ (unless (is_dict request) request_missing
        ++ (unless (is_dict admission) admission_missing
            ++ (unless (is_dict terminal) terminal_missing
                ++ (slot_failures slots eid
                    ++ (unless (is_bound_if_any (dict eid) expected) identity_mismatch
                        ++ (unless (is_bound contract expected) contract_mismatch
                            ++ (unless (is_bound request expected) request_mismatch
                                ++ (unless (is_bound_if_any admission expected) admission_mismatch
                                    ++ (unless (is_bound_if_any terminal expected) terminal_mismatch
                                        ++ inner_failures
                                            (get "execution_identity" (fields_of contract))
                                            eid)))))))))

unfoldable pub assert_lineage_consistency : Fields → String → List LineageFailure
assert_lineage_consistency lineage expected = elim (get "execution_identity" lineage) [
  | dict eid ↦ failures_with lineage eid expected
  | _ ↦ identity_missing ∷ []
]
