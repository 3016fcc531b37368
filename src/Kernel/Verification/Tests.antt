-- ===== src/Kernel/Verification/Tests.antt =====
-- The theorems on admissions at sample inputs.
use synapx_harness.Prelude.{ℕ, ◌+◌, ◌*◌, ◌≤◌, String, str_eq, ◌≡◌, ◌≢◌, refl, true}
use synapx_harness.Prelude.{Option, none, some, List, [], ◌∷◌, length, All, pos, if◌then◌else◌}
use synapx_harness.Prelude.Results.{ok}
use synapx_harness.Values.{
  Value, null, str, int, list, dict, Items, nil, cons, Fields, end, field, get, lookup,
}
use synapx_harness.Values.Equality.{value_eq}
use synapx_harness.Kernel.Verification.{
  Moment, freshness_threshold_seconds, required_check_ids, items, as_dict, admission_receipt,
  admit_dicts, admit_verification_result, check_completeness, is_stale,
}
use synapx_harness.Kernel.Verification.Checks.{count_of}
use synapx_harness.Kernel.Verification.Bindings.{
  Agree, SameRevision, IsCanonical, NamesOneOf, HasOutcome, admit_verification_result-bindings,
}
use synapx_harness.Kernel.Verification.Admission.{
  admit_verification_result-fresh, admit_verification_result-each_check_once,
}

abbrev shown : Value → String
shown v = "?"

abbrev clock : String → Option Moment
clock s =
    if str_eq s "noon"
    then some (record { instant = 43200000000; is_aware = true })
    else if str_eq s "morning"
    then some (record { instant = 28800000000; is_aware = true })
    else none

-- `list(range(first, first + count))`
abbrev numbers : List ℕ → Items
numbers [] = nil
numbers (n ∷ ns) = cons (int (pos n)) (numbers ns)

abbrev contract : Fields
contract = field "task_type" (str "BUG_FIX") (
    field "admission_receipt" (dict (field "red_receipt_ref" (str "red-1") end))
      (field "attempt_index" (int (pos 1)) (field "work_contract_id" (str "wc-1") end)))

abbrev result : Fields
result = field "attempt_index" (int (pos 1)) (
    field "work_contract_id" (str "wc-1") (
      field "evidence_timestamp" (str "morning") (
        field "schema_version" (str "0.2.0") (
          field "requested_checks" (list (numbers required_check_ids))
            (field "verification_status" (str "PASS") end)))))

abbrev receipt : Value
receipt = admission_receipt "noon" contract result

admitted : admit_verification_result clock "noon" (dict contract) (dict result) ≡ ok receipt
unfolding admit_verification_result admit_dicts check_completeness is_stale lookup value_eq
admitted = refl

admit_verification_result-bindings_example :
    (r : Fields) × (receipt ≡ dict r)
    × Agree (get "attempt_index" contract) (get "attempt_index" result)
    × SameRevision
        (get "source_revision_ref" contract)
        (get "source_revision" (as_dict (get "source_binding" result)))
    × Agree
        (get "source_snapshot_id" contract)
        (get "source_snapshot_id" (as_dict (get "source_binding" result)))
    × Agree (get "work_contract_id" contract) (get "work_contract_id" result)
    × IsCanonical (get "schema_version" result)
    × (get "schema_version" r ≡ str "0.2.0")
    × (get "attempt_index" r ≡ get "attempt_index" result)
    × NamesOneOf r contract result
    × HasOutcome r result
admit_verification_result-bindings_example =
    admit_verification_result-bindings clock "noon" contract result receipt admitted

admit_verification_result-fresh_example :
    (evidence reference : Moment) × (clock "morning" ≡ some evidence)
    × (clock "noon" ≡ some reference)
    × (evidence.is_aware ≡ true)
    × (reference.instant ≤ evidence.instant + freshness_threshold_seconds * 1000000)
unfolding lookup
admit_verification_result-fresh_example =
    admit_verification_result-fresh clock "noon" contract result receipt "morning" admitted refl

checks_requested : get "requested_checks" result ≢ null
unfolding lookup
checks_requested h = cc

admit_verification_result-each_check_once_example :
    (checks : Items) × (get "requested_checks" result ≡ list checks)
    × (length (items checks) ≡ 18)
    × All (λ k. count_of (items checks) k ≡ 1) required_check_ids
admit_verification_result-each_check_once_example =
    admit_verification_result-each_check_once clock "noon" contract result receipt admitted
      checks_requested

abbrev sealed : Value
sealed = dict (field "integrity_status" (str "SEALED") end)

-- An input that proposes FAILED, with the receipt as it was issued.
abbrev input : Fields
input = field "execution_identity" (dict end) (
    field "work_contract_id" (str "wc-1") (
      field "verification_admission_receipt" receipt (
        field "sealed_evidence" sealed (
          field "source_revision_ref" (dict end) (
            field "active_blocker_count" (int (pos 0))
              (field "proposed_outcome" (str "FAILED") end))))))

-- A result with neither checks nor status.
abbrev bare_contract : Fields
bare_contract = field "task_type" (str "DOC_FIX") (field "work_contract_id" (str "wc-2") end)

abbrev bare_result : Fields
bare_result = field "work_contract_id" (str "wc-2") end
