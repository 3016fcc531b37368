-- ===== src/Kernel/Tests.antt =====
-- The theorems on terminal decisions, verification admissions and risk classes at sample inputs.
use synapx_harness.Prelude.{String, ◌≡◌, refl, true}
use synapx_harness.Prelude.{pos}
use synapx_harness.Prelude.Results.{ok}
use synapx_harness.Prelude.{◌<>◌, [], ◌∷◌}
use synapx_harness.Values.{Value, null, str, int, dict, Fields, end, field, lookup}
use synapx_harness.Kernel.Contracts.{
  pass, valid, completed, VerificationResult, TerminalDecisionRecord, build_terminal_decision,
}
use synapx_harness.Kernel.Terminal.{is_sealed, finalize_terminal_chain, IssuedDecision}
use synapx_harness.Kernel.Terminal.Completion.{may_complete, finalize_terminal_chain-completed}
use synapx_harness.Kernel.States.{last_part, owners, resolve_state_reference, has_dot}
use synapx_harness.Kernel.States.Owner.{resolve_state_reference-owner}

abbrev shown : Value → String
shown v = "?"

abbrev sealed : Value
sealed = dict (field "integrity_status" (str "SEALED") end)

abbrev passing_receipt : Value
passing_receipt =
    dict (field "verification_status" (str "PASS") (field "evidence_status" (str "VALID") end))

abbrev input_with : Value → Fields
input_with receipt = field "execution_identity" (dict end) (
    field "work_contract_id" (str "wc-1") (
      field "verification_admission_receipt" receipt (
        field "sealed_evidence" sealed (
          field "source_revision_ref" (dict end) (
            field "active_blocker_count" (int (pos 0))
              (field "proposed_outcome" (str "COMPLETED") end))))))

abbrev input : Fields
input = input_with passing_receipt

abbrev record_of : String → TerminalDecisionRecord
record_of reason = record { work_contract_id = "wc-1"; decision = completed; reason = reason }

abbrev verified : VerificationResult
verified = record {
  work_contract_id = "wc-1";
  verification_status = pass;
  evidence_status = valid;
  active_blocker_count = 0;
}

finalize_terminal_chain-completed_example :
    (is_sealed sealed ≡ true)
    × (may_complete shown (dict input) ≡ true)
    × ((record_of "terminal chain finalized").work_contract_id ≡ "wc-1")
unfolding finalize_terminal_chain build_terminal_decision lookup
finalize_terminal_chain-completed_example =
    finalize_terminal_chain-completed shown "wc-1" sealed (dict input)
      (record_of "terminal chain finalized") refl refl

abbrev claim : Value
claim = dict (field "claim_type" (str "AGENT_DONE_CLAIM") (field "state" (str "DONE") end))

abbrev advanced : Value
advanced = dict (field "claim_type" (str "AGENT_DONE_CLAIM") (field "state" (str "VERIFYING") end))

abbrev issued : IssuedDecision
issued = record {
  decision_record = record_of "issued by terminal finalizer";
  issued_by = "TERMINAL_FINALIZER";
  terminalization_input_ref = null;
}

-- A receipt that says FAIL.
abbrev failed_input : Fields
failed_input = input_with (dict (field "verification_status" (str "FAIL") end))

-- An infrastructure fix that declares itself free of risk.
abbrev payload : Fields
payload = field "task_type" (str "INFRA_FIX") (field "risk_class" (str "R0") end)

resolve_state_reference-owner_example :
    (owners (last_part "COMPLETED") ≡ "terminal.decision" ∷ [])
    × ("terminal.decision.COMPLETED" ≡ "terminal.decision" <> ("." <> last_part "COMPLETED"))
    × (resolve_state_reference (str "terminal.decision.COMPLETED") (str "terminal.decision")
        ≡ ok "terminal.decision.COMPLETED")
unfolding resolve_state_reference last_part has_dot owners
resolve_state_reference-owner_example =
    resolve_state_reference-owner "COMPLETED" "terminal.decision" "terminal.decision.COMPLETED" refl
