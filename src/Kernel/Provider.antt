-- ===== src/Kernel/Provider.antt =====
-- kernel/governed_runtime_provider.py: the identity check on an agent's result, and the last stage of
-- `invoke`, from the verification result to the terminal decision. `now` is the time of the seal.
pub mod Decision
mod Tests
use synapx_harness.Prelude.{
  ℕ, String, ◌<>◌, str_eq, ltb, Bool, true, false, ◌&&◌, not, if◌then◌else◌, pos,
}
use synapx_harness.Prelude.Results.{Result, ok, err, ◌>>=◌, ◌>>◌, raise_if}
use synapx_harness.Values.{Value, null, int, str, dict, Fields, end, field, lookup, get, or_else}
use synapx_harness.Values.{has_key}
use synapx_harness.Kernel.Contracts.{VerificationResult, TerminalDecisionRecord}
use synapx_harness.Kernel.Terminal.{
  TerminalError, status_text, evidence_text, finalize_terminal_chain,
}
use synapx_harness.Kernel.Qualification.{ResultIdentity, get_or}
use synapx_harness.Evidence.Seal.{SealError, set_field, seal_evidence, core_evidence_sealer}

pub data IdentityError : Type 0 where
  job_differs task_differs attempt_differs : IdentityError

unfoldable pub verify_agent_result_identity :
    ResultIdentity → ResultIdentity → Result IdentityError (Unit {0})
verify_agent_result_identity expected actual = do
  raise_if (not (str_eq actual.job_id expected.job_id)) job_differs
  raise_if (not (str_eq actual.task_id expected.task_id)) task_differs
  raise_if (not (str_eq actual.attempt_id expected.attempt_id)) attempt_differs
  ok tt

unfoldable pub derive_proposed_outcome : String → String → ℕ → String
derive_proposed_outcome verification_status evidence_status active_blocker_count =
    if ltb 0 active_blocker_count
    then "BLOCKED"
    else if str_eq verification_status "PASS" && str_eq evidence_status "VALID"
    then "COMPLETED"
    else "FAILED"

-- What the stage has at hand beside the verification result: the identities and the source revision
-- are dictionaries, as `model_dump` gives them.
pub record Stage : Type 0 where
  pub work_contract_id : String
  pub identity : Fields
  pub verification_admission : Fields
  pub result_status : String
  pub result_identity : Fields
  pub context_sha256 : String
  pub source_ref : Fields

-- The three assignments to the copy of the admission.
unfoldable pub enriched_receipt : Fields → VerificationResult → Fields
enriched_receipt admission r = set_field "active_blocker_count" (int (pos r.active_blocker_count)) (
    set_field "evidence_status" (str (evidence_text r.evidence_status))
      (set_field "verification_status" (str (status_text r.verification_status)) admission))

unfoldable pub envelope_of : Stage → Fields
envelope_of s = field "contract_type" (str "CUSTOMOS_EVIDENCE_ENVELOPE") (
    field "schema_version" (str "0.1.0") (
      field "work_contract_id" (str s.work_contract_id) (
        field "integrity_status" (str "ADMITTED") (
          field "verification_admission_ref"
            (get_or "contract_type" (str "UNKNOWN") s.verification_admission)
            (field "agent_result_status" (str s.result_status) (
              field "agent_result_identity" (dict s.result_identity) (
                field "context_sha256" (str s.context_sha256) (
                  field "source_revision_ref" (dict s.source_ref)
                    (field "sealed_by" null (field "sealed_at" null end))))))))))

unfoldable pub build_sealed_evidence : Stage → String → Result SealError Fields
build_sealed_evidence s now =
    seal_evidence (dict (envelope_of s)) (str core_evidence_sealer) true now

unfoldable pub terminalization_input : Stage → VerificationResult → Fields → Fields
terminalization_input s r sealed = field "execution_identity" (dict s.identity) (
    field "work_contract_id" (str s.work_contract_id) (
      field "verification_admission_receipt" (dict (enriched_receipt s.verification_admission r)) (
        field "sealed_evidence" (dict sealed) (
          field "source_revision_ref" (dict s.source_ref) (
            field "active_blocker_count" (int (pos r.active_blocker_count)) (
              field "proposed_outcome"
                (str (
                  derive_proposed_outcome (status_text r.verification_status)
                    (evidence_text r.evidence_status) r.active_blocker_count))
                (field "reason" (str ("verification=" <> status_text r.verification_status))
                  (field "input_ref" (str ("input/" <> s.work_contract_id)) end))))))))

pub data ProviderError : Type 0 where
  seal_failed : SealError → ProviderError
  terminal_failed : TerminalError → ProviderError

abbrev pub sealed_or {ℓ} : {A : Type ℓ} → Result SealError A → Result ProviderError A
sealed_or (ok a) = ok a
sealed_or (err e) = err (seal_failed e)

abbrev pub decided_or {ℓ} : {A : Type ℓ} → Result TerminalError A → Result ProviderError A
decided_or (ok a) = ok a
decided_or (err e) = err (terminal_failed e)

module _ (repr : Value → String) where
  -- Steps 8 and 9 of `invoke`.
  unfoldable pub terminal_stage :
      Stage → VerificationResult → String → Result ProviderError TerminalDecisionRecord
  terminal_stage s r now = do
    sealed ← sealed_or (build_sealed_evidence s now)
    decided_or (
        finalize_terminal_chain repr s.work_contract_id (dict sealed)
          (dict (terminalization_input s r sealed)))
