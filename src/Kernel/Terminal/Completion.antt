-- ===== src/Kernel/Terminal/Completion.antt =====
-- When a decision is COMPLETED.
use synapx_harness.Prelude.{
  String, is_member, some, ◌<>◌, str_eq, Bool, true, false, ltb, decimal, ◌&&◌, not,
}
use synapx_harness.Prelude.{◌≡◌, refl, arith, if◌then◌else◌, eq_iff}
use synapx_harness.Prelude.Nonempty.{append-nonempty}
use synapx_harness.Prelude.Results.{Result, ok, ◌>>=◌, ◌>>◌}
use synapx_harness.Values.{Value, str, dict, Fields, get, or_else, is_text, to_text}
use synapx_harness.Kernel.Contracts.{
  Decision, completed, failed, blocked, VerificationResult, TerminalDecisionRecord,
  build_terminal_decision, decision_of,
}
use synapx_harness.Kernel.Terminal.{
  TerminalError, enforce_completed, enforce_receipt, check_outcome, is_empty, checked, reason_of,
  is_pass, is_valid, status_text, evidence_text, finalize, missing_fields, blocks, is_sealed,
  finalize_terminal_chain, finalize_from_sealed_evidence, terminal_outcomes,
}

-- The decision that the three invariants give.
abbrev pub expected_decision : VerificationResult → Decision
expected_decision r =
    if ltb 0 r.active_blocker_count
    then blocked
    else if is_pass r.verification_status && is_valid r.evidence_status
    then completed
    else failed

finalize_reason : VerificationResult → String
finalize_reason r =
    if ltb 0 r.active_blocker_count
    then "active_blocker_count=" <> decimal r.active_blocker_count
    else if not (is_pass r.verification_status)
    then "verification_status=" <> status_text r.verification_status
    else if not (is_valid r.evidence_status)
    then "evidence_status=" <> evidence_text r.evidence_status
    else "all invariants satisfied"

-- `finalize` raises on no result whose work contract's id is not empty: its record has that id and
-- the decision that blockers, verification and evidence give, in that order.
pub finalize_total :
    (r : VerificationResult)
    → str_eq r.work_contract_id "" ≡ false
    → (d : TerminalDecisionRecord) × (finalize r ≡ ok d)
      × (d.work_contract_id ≡ r.work_contract_id)
      × (d.decision ≡ expected_decision r)
unfolding finalize build_terminal_decision finalize_reason
finalize_total r filled = (
  record {
    work_contract_id = r.work_contract_id;
    decision = expected_decision r;
    reason = finalize_reason r;
  },
  ground (
    arith,
    append-nonempty "active_blocker_count=" (decimal r.active_blocker_count) refl,
    append-nonempty "verification_status=" (status_text r.verification_status) refl,
    append-nonempty "evidence_status=" (evidence_text r.evidence_status) refl,
  ),
  refl,
  refl,
)

-- The conditions under which a terminalization input may be COMPLETED: a dictionary with every
-- required field, a receipt of a verification admission that says PASS and VALID, and a blocker
-- count that is a number and not positive.
module _ (repr : Value → String) where
  abbrev says : String → Fields → String → Bool
  says name receipt text = str_eq (to_text repr (or_else (get name receipt) (str ""))) text

  abbrev pub receipt_passes : Value → Bool
  receipt_passes (dict receipt) =
      says "verification_status" receipt "PASS" && says "evidence_status" receipt "VALID"
  receipt_passes _ = false

  abbrev pub may_complete : Value → Bool
  may_complete (dict d) =
      is_empty (missing_fields d)
      && receipt_passes (get "verification_admission_receipt" d)
      && not (blocks (get "active_blocker_count" d))
  may_complete _ = false

  pub may_complete-receipt :
      (input : Fields)
      → may_complete (dict input) ≡ true
      → receipt_passes (get "verification_admission_receipt" input) ≡ true
  may_complete-receipt input h =
      middle (is_empty (missing_fields input))
        (receipt_passes (get "verification_admission_receipt" input))
        (not (blocks (get "active_blocker_count" input))) h
    where
      middle : (a b c : Bool) → ◌≡◌ {0} {A = Bool} (a && b && c) true → ◌≡◌ {0} {A = Bool} b true
      middle a b c e = ground arith

  enforce_completed-passes :
      (receipt blocker_count : Value)
      → enforce_completed repr receipt blocker_count ≡ ok tt
      → (receipt_passes receipt && not (blocks blocker_count)) ≡ true
  unfolding enforce_completed enforce_receipt
  enforce_completed-passes (dict receipt) count h = ground arith
  enforce_completed-passes _ count h = cc

  -- What both chains do with a dictionary once its fields are there.
  abbrev settle :
      Value → Value → Value → String → String → Result TerminalError TerminalDecisionRecord
  settle proposed receipt count wid reason = do
    outcome ← check_outcome proposed
    (if is_text proposed "COMPLETED" then enforce_completed repr receipt count else ok tt)
    checked (build_terminal_decision wid outcome reason)

  settle-completed :
      (proposed receipt count : Value) (wid reason : String) (r : TerminalDecisionRecord)
      → settle proposed receipt count wid reason ≡ ok r
      → r.decision ≡ completed
      → (receipt_passes receipt && not (blocks count) ≡ true) × (r.work_contract_id ≡ wid)
  unfolding build_terminal_decision check_outcome
  settle-completed (str s) receipt count wid reason r h c =
      ground (arith, enforce_completed-passes receipt count)
  settle-completed _ receipt count wid reason r h c = cc

  -- A terminal chain that ends in COMPLETED had sealed evidence, an input that is a dictionary
  -- with every required field, a verification receipt that says PASS and VALID, and no positive
  -- count of blockers; its record is about the work contract that was given.
  pub finalize_terminal_chain-completed :
      (work_contract_id : String) (sealed input : Value) (r : TerminalDecisionRecord)
      → finalize_terminal_chain repr work_contract_id sealed input ≡ ok r
      → r.decision ≡ completed
      → (is_sealed sealed ≡ true)
        × (may_complete input ≡ true)
        × (r.work_contract_id ≡ work_contract_id)
  unfolding finalize_terminal_chain
  finalize_terminal_chain-completed wid sealed (dict d) r h c = ground (
    arith,
    settle-completed (get "proposed_outcome" d) (get "verification_admission_receipt" d)
        (get "active_blocker_count" d) wid (reason_of repr d "terminal chain finalized") r,
  )
  finalize_terminal_chain-completed wid sealed _ r h c = ground arith

  -- A COMPLETED decision that was made from the sealed evidence had evidence that is sealed and an
  -- input that may be COMPLETED: a dictionary with every required field, a verification receipt
  -- that says PASS and VALID, and no positive count of blockers.
  pub finalize_from_sealed_evidence-completed :
      (sealed input : Value) (r : TerminalDecisionRecord)
      → finalize_from_sealed_evidence repr sealed input ≡ ok r
      → r.decision ≡ completed
      → (is_sealed sealed ≡ true) × (may_complete input ≡ true)
  unfolding finalize_from_sealed_evidence
  finalize_from_sealed_evidence-completed sealed (dict d) r h c = ground (
    arith,
    settle-completed (get "proposed_outcome" d) (get "verification_admission_receipt" d)
        (get "active_blocker_count" d)
        (to_text repr (or_else (get "work_contract_id" d) (str "unknown")))
        (reason_of repr d "finalized from sealed evidence") r,
  )
  finalize_from_sealed_evidence-completed sealed _ r h c = ground arith

  enforce_completed-accepts :
      (receipt count : Value)
      → (receipt_passes receipt && not (blocks count)) ≡ true
      → enforce_completed repr receipt count ≡ ok tt
  unfolding enforce_completed enforce_receipt
  enforce_completed-accepts (dict receipt) count h = ground arith
  enforce_completed-accepts _ count h = cc

  settle-accepts :
      (proposed receipt count : Value) (wid reason : String)
      → is_text proposed "COMPLETED" ≡ true
      → (receipt_passes receipt && not (blocks count)) ≡ true
      → str_eq wid "" ≡ false
      → str_eq reason "" ≡ false
      → settle proposed receipt count wid reason
        ≡ ok (record { work_contract_id = wid; decision = completed; reason = reason })
  unfolding build_terminal_decision check_outcome
  settle-accepts (str s) receipt count wid reason p q filled n =
      rw ((eq_iff s "COMPLETED").0 p) (ground (arith, enforce_completed-accepts receipt count))
  settle-accepts _ receipt count wid reason p q filled n = cc

  -- With sealed evidence and an input that may be COMPLETED and proposes it, with a reason whose
  -- text is not empty, the terminal chain returns a COMPLETED record of the work contract that was
  -- given, where its id is not empty.
  pub finalize_terminal_chain-completes :
      (work_contract_id : String) (sealed : Value) (d : Fields)
      → is_sealed sealed ≡ true
      → may_complete (dict d) ≡ true
      → is_text (get "proposed_outcome" d) "COMPLETED" ≡ true
      → str_eq work_contract_id "" ≡ false
      → str_eq (reason_of repr d "terminal chain finalized") "" ≡ false
      → finalize_terminal_chain repr work_contract_id sealed (dict d)
        ≡ ok (record {
          work_contract_id = work_contract_id;
          decision = completed;
          reason = reason_of repr d "terminal chain finalized";
        })
  unfolding finalize_terminal_chain
  finalize_terminal_chain-completes wid sealed d seal may proposed filled reason = ground (
    arith,
    settle-accepts (get "proposed_outcome" d) (get "verification_admission_receipt" d)
        (get "active_blocker_count" d) wid (reason_of repr d "terminal chain finalized"),
  )

  settle-undone :
      (t : String) (decision : Decision) (receipt count : Value) (wid reason : String)
      → is_member t terminal_outcomes ≡ true
      → decision_of t ≡ some decision
      → str_eq t "COMPLETED" ≡ false
      → str_eq wid "" ≡ false
      → str_eq reason "" ≡ false
      → settle (str t) receipt count wid reason
        ≡ ok (record { work_contract_id = wid; decision = decision; reason = reason })
  unfolding build_terminal_decision check_outcome
  settle-undone t decision receipt count wid reason m c q filled n = ground arith

  -- With sealed evidence and an input that has every required field and proposes another terminal
  -- outcome than COMPLETED, the terminal chain returns a record with that outcome.
  pub finalize_terminal_chain-undone :
      (work_contract_id : String) (sealed : Value) (d : Fields) (t : String) (decision : Decision)
      → is_sealed sealed ≡ true
      → is_empty (missing_fields d) ≡ true
      → get "proposed_outcome" d ≡ str t
      → is_member t terminal_outcomes ≡ true
      → decision_of t ≡ some decision
      → str_eq t "COMPLETED" ≡ false
      → str_eq work_contract_id "" ≡ false
      → str_eq (reason_of repr d "terminal chain finalized") "" ≡ false
      → finalize_terminal_chain repr work_contract_id sealed (dict d)
        ≡ ok (record {
          work_contract_id = work_contract_id;
          decision = decision;
          reason = reason_of repr d "terminal chain finalized";
        })
  unfolding finalize_terminal_chain
  finalize_terminal_chain-undone wid sealed d t decision seal full proposed m c q filled n =
      ground (
        arith,
        settle-undone t decision (get "verification_admission_receipt" d)
            (get "active_blocker_count" d) wid (reason_of repr d "terminal chain finalized") m c q
            filled n,
      )
