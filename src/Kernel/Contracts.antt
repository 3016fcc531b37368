-- ===== src/Kernel/Contracts.antt =====
-- contracts/runtime_models.py: the records of a verification and of a terminal decision, with the
-- checks that Pydantic makes when one is built.
use synapx_harness.Prelude.{ℕ, String, str_eq, Option, none, some, if◌then◌else◌}
use synapx_harness.Prelude.{ℤ, pos, negsuc}
use synapx_harness.Prelude.Results.{Result, ok, err, ◌>>=◌}

pub data VerificationStatus : Type 0 where
  pass fail pending : VerificationStatus

pub data EvidenceStatus : Type 0 where
  valid invalid pending : EvidenceStatus

pub data Decision : Type 0 where
  completed failed blocked : Decision

pub record VerificationResult : Type 0 where
  pub work_contract_id : String
  pub verification_status : VerificationStatus
  pub evidence_status : EvidenceStatus
  pub active_blocker_count : ℕ

pub record TerminalDecisionRecord : Type 0 where
  pub work_contract_id : String
  pub decision : Decision
  pub reason : String

-- A `pydantic.ValidationError`, by the field that is refused.
pub data ValidationError : Type 0 where
  bad_decision empty_reason empty_contract_id bad_verification_status : ValidationError
  bad_evidence_status negative_blocker_count : ValidationError

unfoldable pub decision_of : String → Option Decision
decision_of s =
    if str_eq s "COMPLETED"
    then some completed
    else if str_eq s "FAILED"
    then some failed
    else if str_eq s "BLOCKED"
    then some blocked
    else none

unfoldable pub build_terminal_decision :
    String → String → String → Result ValidationError TerminalDecisionRecord
unfolding decision_of
build_terminal_decision work_contract_id decision reason = elim (decision_of decision) [
  | none ↦ err bad_decision
  | some d ↦
      if str_eq work_contract_id ""
      then err empty_contract_id
      else if str_eq reason ""
      then err empty_reason
      else ok (record { work_contract_id = work_contract_id; decision = d; reason = reason })
]

verification_status_of : String → Option VerificationStatus
verification_status_of s =
    if str_eq s "PASS"
    then some pass
    else if str_eq s "FAIL"
    then some fail
    else if str_eq s "PENDING"
    then some VerificationStatus.pending
    else none

evidence_status_of : String → Option EvidenceStatus
evidence_status_of s =
    if str_eq s "VALID"
    then some valid
    else if str_eq s "INVALID"
    then some invalid
    else if str_eq s "PENDING"
    then some EvidenceStatus.pending
    else none

required {ℓ} : {A : Type ℓ} → Option A → ValidationError → Result ValidationError A
required none e = err e
required (some a) e = ok a

not_negative : ℤ → Result ValidationError ℕ
not_negative (pos n) = ok n
not_negative (negsuc _) = err negative_blocker_count

-- `checks` is passed on and read by nothing here.
unfoldable pub build_verification_result :
    String → String → String → ℤ → Result ValidationError VerificationResult
unfolding verification_status_of evidence_status_of required not_negative
build_verification_result work_contract_id verification evidence blockers =
    if str_eq work_contract_id "" then err empty_contract_id else do
      v ← required (verification_status_of verification) bad_verification_status
      e ← required (evidence_status_of evidence) bad_evidence_status
      n ← not_negative blockers
      ok (record {
        work_contract_id = work_contract_id;
        verification_status = v;
        evidence_status = e;
        active_blocker_count = n;
      })
