-- ===== src/Kernel/Terminal.antt =====
-- kernel/terminal_finalizer.py: the only issuer of terminal decisions. Each `ValueError` is a
-- constructor of `TerminalError`; the test of an unhashable outcome against a set raises a
-- `TypeError`. `repr` is Python's `str` on values that are no texts.
pub mod Completion
pub mod Issuing
use synapx_harness.Prelude.{
  ℕ, suc, String, ◌<>◌, str_eq, is_member, decimal, Bool, true, false, ltb,
}
use synapx_harness.Prelude.{
  ◌&&◌, ◌||◌, not, Option, none, some, if◌then◌else◌, List, [], ◌∷◌, filter,
}
use synapx_harness.Prelude.{is_positive}
use synapx_harness.Prelude.Results.{Result, ok, err, ◌>>=◌, ◌>>◌, raise_if}
use synapx_harness.Values.{
  Value, null, bool, int, str, list, dict, Fields, end, field, get, has_key, or_else, is_text,
  is_null, to_text,
}
use synapx_harness.Kernel.Contracts.{
  VerificationStatus, pass, fail, EvidenceStatus, valid, invalid, VerificationResult,
  ValidationError, TerminalDecisionRecord, build_terminal_decision,
}

pub data TerminalError : Type 0 where
  input_required input_not_dict : TerminalError
  input_incomplete : List String → TerminalError
  evidence_not_sealed outcome_unhashable outcome_not_terminal : TerminalError
  no_verification_admission : TerminalError
  verification_forbids_completed evidence_forbids_completed : String → TerminalError
  blockers_forbid_completed : Value → TerminalError
  agent_done_not_finalizable not_an_agent_claim only_verifying_allowed : TerminalError
  issuer_forbidden issuer_not_finalizer decision_not_terminal : TerminalError
  invalid_record : ValidationError → TerminalError

abbrev pub terminal_outcomes : List String
terminal_outcomes = "COMPLETED" ∷ "FAILED" ∷ "BLOCKED" ∷ []

abbrev pub forbidden_terminal_issuers : List String
forbidden_terminal_issuers =
    "Verifier" ∷ "Evidence Sealer" ∷ "Agent" ∷ "Provider" ∷ "Scheduler" ∷ "Registry" ∷ []

abbrev required_fields : List String
required_fields =
    "execution_identity" ∷ "work_contract_id" ∷ "verification_admission_receipt" ∷ "sealed_evidence"
    ∷ "source_revision_ref" ∷ "active_blocker_count" ∷ "proposed_outcome" ∷ []

-- A record that Pydantic refuses ends the call with its error.
abbrev checked {ℓ} : {A : Type ℓ} → Result ValidationError A → Result TerminalError A
checked (ok a) = ok a
checked (err e) = err (invalid_record e)

unfoldable pub status_text : VerificationStatus → String
status_text pass = "PASS"
status_text fail = "FAIL"
status_text VerificationStatus.pending = "PENDING"

unfoldable pub evidence_text : EvidenceStatus → String
evidence_text valid = "VALID"
evidence_text invalid = "INVALID"
evidence_text EvidenceStatus.pending = "PENDING"

abbrev is_pass : VerificationStatus → Bool
is_pass pass = true
is_pass _ = false

abbrev is_valid : EvidenceStatus → Bool
is_valid valid = true
is_valid _ = false

unfoldable pub finalize : VerificationResult → Result TerminalError TerminalDecisionRecord
unfolding status_text evidence_text
finalize r =
    if ltb 0 r.active_blocker_count
    then checked (
        build_terminal_decision r.work_contract_id "BLOCKED"
          ("active_blocker_count=" <> decimal r.active_blocker_count))
    else if not (is_pass r.verification_status)
    then checked (
        build_terminal_decision r.work_contract_id "FAILED"
          ("verification_status=" <> status_text r.verification_status))
    else if not (is_valid r.evidence_status)
    then checked (
        build_terminal_decision r.work_contract_id "FAILED"
          ("evidence_status=" <> evidence_text r.evidence_status))
    else checked (build_terminal_decision r.work_contract_id "COMPLETED" "all invariants satisfied")

-- The required fields that a dictionary lacks.
unfoldable pub missing_fields : Fields → List String
missing_fields d = filter (λ name. not (has_key name d)) required_fields

abbrev is_empty : List String → Bool
is_empty [] = true
is_empty (_ ∷ _) = false

-- `_require_terminalization_input`
unfoldable pub require_terminalization_input : Value → Result TerminalError Fields
unfolding missing_fields
require_terminalization_input null = err input_required
require_terminalization_input (dict d) =
    if is_empty (missing_fields d) then ok d else err (input_incomplete (missing_fields d))
require_terminalization_input _ = err input_not_dict

-- `proposed not in TerminalDecisionSet`, with the hash that the test takes first.
unfoldable pub check_outcome : Value → Result TerminalError String
check_outcome (list _) = err outcome_unhashable
check_outcome (dict _) = err outcome_unhashable
check_outcome (str s) = if is_member s terminal_outcomes then ok s else err outcome_not_terminal
check_outcome _ = err outcome_not_terminal

-- `not isinstance(v, int) or v > 0`; a truth value is an `int`.
abbrev pub blocks : Value → Bool
blocks (int z) = is_positive z
blocks (bool b) = b
blocks _ = true

-- `isinstance(v, dict) and v.get("integrity_status") == "SEALED"`
abbrev pub is_sealed : Value → Bool
is_sealed (dict d) = is_text (get "integrity_status" d) "SEALED"
is_sealed _ = false

module _ (repr : Value → String) where
  -- The tests of `_enforce_verification_invariants_for_completion` on an admission receipt.
  enforce_receipt : Fields → Value → Result TerminalError (Unit {0})
  enforce_receipt receipt blocker_count =
      let verification = to_text repr (or_else (get "verification_status" receipt) (str "")) in
      let evidence = to_text repr (or_else (get "evidence_status" receipt) (str "")) in
      do
        raise_if (not (str_eq verification "PASS")) (verification_forbids_completed verification)
        raise_if (not (str_eq evidence "VALID")) (evidence_forbids_completed evidence)
        raise_if (blocks blocker_count) (blockers_forbid_completed blocker_count)
        ok tt

  enforce_completed : Value → Value → Result TerminalError (Unit {0})
  enforce_completed (dict receipt) blocker_count = enforce_receipt receipt blocker_count
  enforce_completed _ blocker_count = err no_verification_admission

  -- `_enforce_verification_invariants_for_completion`; only the error text depends on the tag.
  unfoldable pub enforce_invariants : Fields → Result TerminalError (Unit {0})
  unfolding enforce_completed enforce_receipt
  enforce_invariants d =
      if is_text (get "proposed_outcome" d) "COMPLETED"
      then enforce_completed (get "verification_admission_receipt" d) (get "active_blocker_count" d)
      else ok tt

  -- `str(d.get("reason") or default)`
  abbrev pub reason_of : Fields → String → String
  reason_of d default = to_text repr (or_else (get "reason" d) (str default))

  unfoldable pub finalize_terminal_chain :
      String → Value → Value → Result TerminalError TerminalDecisionRecord
  unfolding check_outcome enforce_invariants require_terminalization_input
  finalize_terminal_chain work_contract_id sealed_evidence input = do
    raise_if (is_null input) input_required
    raise_if (not (is_sealed sealed_evidence)) evidence_not_sealed
    d ← require_terminalization_input input
    proposed ← check_outcome (get "proposed_outcome" d)
    enforce_invariants d
    checked
        (build_terminal_decision work_contract_id proposed (reason_of d "terminal chain finalized"))

  unfoldable pub finalize_from_sealed_evidence :
      Value → Value → Result TerminalError TerminalDecisionRecord
  unfolding check_outcome enforce_invariants require_terminalization_input
  finalize_from_sealed_evidence sealed_evidence input = do
    raise_if (is_null input) input_required
    raise_if (not (is_sealed sealed_evidence)) evidence_not_sealed
    d ← require_terminalization_input input
    proposed ← check_outcome (get "proposed_outcome" d)
    enforce_invariants d
    checked (
        build_terminal_decision (to_text repr (or_else (get "work_contract_id" d) (str "unknown")))
          proposed (reason_of d "finalized from sealed evidence"))

-- `finalize_from_agent_done`: always an error.
unfoldable pub finalize_from_agent_done :
    String → Value → Result TerminalError TerminalDecisionRecord
finalize_from_agent_done work_contract_id claim = err agent_done_not_finalizable

-- `isinstance(claim, dict) and claim.get("claim_type") == "AGENT_DONE_CLAIM"`
abbrev pub is_agent_claim : Value → Bool
is_agent_claim (dict d) = is_text (get "claim_type" d) "AGENT_DONE_CLAIM"
is_agent_claim _ = false

unfoldable pub advance_agent_claim : Value → String → Result TerminalError Value
advance_agent_claim claim target_state = do
  raise_if (not (is_agent_claim claim)) not_an_agent_claim
  raise_if (not (str_eq target_state "VERIFYING")) only_verifying_allowed
  ok (dict (field "claim_type" (str "AGENT_DONE_CLAIM") (field "state" (str "VERIFYING") end)))

-- The dictionary that `issue_terminal_decision` returns, less its time stamp.
pub record IssuedDecision : Type 0 where
  pub decision_record : TerminalDecisionRecord
  pub issued_by : String
  pub terminalization_input_ref : Value

module _ (repr : Value → String) where
  unfoldable pub issue_terminal_decision :
      String → String → Value → Value → Result TerminalError IssuedDecision
  unfolding require_terminalization_input
  issue_terminal_decision work_contract_id decision (str issued_by) input = do
    raise_if (is_member issued_by forbidden_terminal_issuers) issuer_forbidden
    raise_if (not (str_eq issued_by "TERMINAL_FINALIZER")) issuer_not_finalizer
    raise_if (not (is_member decision terminal_outcomes)) decision_not_terminal
    d ← require_terminalization_input input
    r ← checked (
        build_terminal_decision work_contract_id decision
          (reason_of repr d "issued by terminal finalizer"))
    ok (record {
      decision_record = r;
      issued_by = issued_by;
      terminalization_input_ref = get "input_ref" d;
    })
  issue_terminal_decision work_contract_id decision issued_by input = err issuer_forbidden
