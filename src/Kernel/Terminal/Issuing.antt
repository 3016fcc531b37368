-- ===== src/Kernel/Terminal/Issuing.antt =====
-- Who may issue a decision, and what an agent's claim may become.
use synapx_harness.Prelude.{
  String, str_eq, is_member, eq_iff, Bool, true, false, not, [], ◌≡◌, refl, arith,
}
use synapx_harness.Prelude.Results.{Result, ok, err, ◌>>=◌, ◌>>◌, raise_if}
use synapx_harness.Values.{Value, null, str, dict, Fields, get, lookup}
use synapx_harness.Kernel.Contracts.{
  completed, TerminalDecisionRecord, ValidationError, build_terminal_decision,
}
use synapx_harness.Kernel.Terminal.{
  TerminalError, issuer_forbidden, issuer_not_finalizer, decision_not_terminal, missing_fields,
  require_terminalization_input, reason_of, checked, forbidden_terminal_issuers, terminal_outcomes,
  is_agent_claim, advance_agent_claim, IssuedDecision, issue_terminal_decision,
}
use mathlib.Core.Path.{ap, ◌∙◌}

-- `claim["state"]`
abbrev pub state_of_claim : Value → Value
state_of_claim (dict d) = get "state" d
state_of_claim _ = null

-- An agent's claim advances only if it is an AGENT_DONE_CLAIM and the target is VERIFYING. What it
-- becomes is again such a claim, with the state VERIFYING, and advancing that changes it no more.
pub advance_agent_claim-verifying :
    (claim : Value) (target : String) (v : Value)
    → advance_agent_claim claim target ≡ ok v
    → (is_agent_claim claim ≡ true)
      × (target ≡ "VERIFYING")
      × (is_agent_claim v ≡ true)
      × (state_of_claim v ≡ str "VERIFYING")
      × (advance_agent_claim v target ≡ ok v)
unfolding advance_agent_claim lookup
advance_agent_claim-verifying claim target v h = ground (arith, eq_iff target "VERIFYING")

work_contract_id-build :
    (wid decision reason : String) (r : TerminalDecisionRecord)
    → build_terminal_decision wid decision reason ≡ ok r
    → r.work_contract_id ≡ wid
unfolding build_terminal_decision
work_contract_id-build wid decision reason r h = ground arith

-- Three guards that raised nothing.
guards-passed :
    {A : Type 0} {a : A} (x y z : TerminalError) (forbidden known terminal : Bool)
    (rest : Result TerminalError A)
    → (do raise_if forbidden x; raise_if (not known) y; raise_if (not terminal) z; rest) ≡ ok a
    → (known ≡ true) × (rest ≡ ok a)
guards-passed forbidden known terminal rest h = ground arith

-- A decision is issued only when the terminal finalizer is named as its issuer; it says so itself,
-- and it is about the work contract that was given.
pub issue_terminal_decision-issuer :
    (repr : Value → String) (wid decision : String) (issuer input : Value) (i : IssuedDecision)
    → issue_terminal_decision repr wid decision issuer input ≡ ok i
    → (issuer ≡ str "TERMINAL_FINALIZER")
      × (i.issued_by ≡ "TERMINAL_FINALIZER")
      × (i.decision_record.work_contract_id ≡ wid)
unfolding issue_terminal_decision
issue_terminal_decision-issuer repr wid decision (str s) input i h =
    let (issued, same_id) = of_fields (require_terminalization_input input) passed.1 in
    (ap str issuer, issued ∙ issuer, same_id)
  where
    of_build :
        Fields → Result TerminalError TerminalDecisionRecord → Result TerminalError IssuedDecision
    of_build d b = b >>= λ r. ok (record {
      decision_record = r;
      issued_by = s;
      terminalization_input_ref = get "input_ref" d;
    })

    rest : Result TerminalError Fields → Result TerminalError IssuedDecision
    rest m = m >>= λ d. of_build d (
        checked
          (build_terminal_decision wid decision (reason_of repr d "issued by terminal finalizer")))

    passed :
        (str_eq s "TERMINAL_FINALIZER" ≡ true) × (rest (require_terminalization_input input) ≡ ok i)
    passed =
        guards-passed issuer_forbidden issuer_not_finalizer decision_not_terminal
          (is_member s forbidden_terminal_issuers) (str_eq s "TERMINAL_FINALIZER")
          (is_member decision terminal_outcomes) (rest (require_terminalization_input input)) h

    issuer : s ≡ "TERMINAL_FINALIZER"
    issuer = (eq_iff s "TERMINAL_FINALIZER").0 passed.0

    of_record :
        (d : Fields) (b : Result ValidationError TerminalDecisionRecord)
        → ((r : TerminalDecisionRecord) → b ≡ ok r → r.work_contract_id ≡ wid)
        → of_build d (checked b) ≡ ok i
        → (i.issued_by ≡ s) × (i.decision_record.work_contract_id ≡ wid)
    of_record d (ok r) same e = ground (arith, same r refl)
    of_record d (err x) same e = ground arith

    of_fields :
        (m : Result TerminalError Fields)
        → rest m ≡ ok i
        → (i.issued_by ≡ s) × (i.decision_record.work_contract_id ≡ wid)
    of_fields (ok d) e =
        of_record d _
          (work_contract_id-build wid decision (reason_of repr d "issued by terminal finalizer")) e
    of_fields (err x) e = ground arith
issue_terminal_decision-issuer repr wid decision _ input i h = ground arith

-- The finalizer's own issuing function does not look at the verification: whatever the receipt
-- says and whatever the count of blockers, an input with every required field, a reason whose text
-- is not empty and a work contract's id that is not empty give a COMPLETED decision.
pub issue_terminal_decision-unchecked :
    (repr : Value → String) (wid : String) (d : Fields)
    → missing_fields d ≡ []
    → str_eq wid "" ≡ false
    → str_eq (reason_of repr d "issued by terminal finalizer") "" ≡ false
    → (i : IssuedDecision) × (issue_terminal_decision repr wid "COMPLETED"
          (str "TERMINAL_FINALIZER")
          (dict d)
        ≡ ok i)
      × (i.decision_record.decision ≡ completed)
unfolding issue_terminal_decision build_terminal_decision
issue_terminal_decision-unchecked repr wid d complete filled reason = (
  record {
    decision_record = record {
      work_contract_id = wid;
      decision = completed;
      reason = reason_of repr d "issued by terminal finalizer";
    };
    issued_by = "TERMINAL_FINALIZER";
    terminalization_input_ref = get "input_ref" d;
  },
  rw complete (rw filled (rw reason refl)),
  refl,
)
