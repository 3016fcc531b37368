-- ===== src/Kernel/Provider/Decision.antt =====
-- The stage and the finalizer's own reading of a verification result.
use synapx_harness.Prelude.{
  is_member, Option, ℕ, zero, String, ◌<>◌, str_eq, ltb, Bool, true, false, ◌&&◌, none, some, ◌≡◌,
  refl, ap, sym, ◌∙◌, arith,
}
use mathlib.Core.Path.{subst}
use synapx_harness.Prelude.Results.{Result, ok, ◌>>=◌}
use synapx_harness.Values.{Value, null, str, dict, Fields, lookup, or_else, to_text}
use synapx_harness.Kernel.Contracts.{
  VerificationStatus, EvidenceStatus, pass, fail, valid, invalid, VerificationResult,
  TerminalDecisionRecord, Decision, failed, blocked, decision_of,
}
use synapx_harness.Kernel.Terminal.{
  finalize, status_text, evidence_text, finalize_terminal_chain, missing_fields, is_sealed,
  terminal_outcomes,
}
use synapx_harness.Kernel.Terminal.Completion.{
  finalize_total, expected_decision, finalize_terminal_chain-completes,
  finalize_terminal_chain-undone, may_complete, receipt_passes,
}
use synapx_harness.Evidence.Seal.{
  SealError, set_field, sealed_envelope, seal_evidence, core_evidence_sealer,
}
use synapx_harness.Evidence.Seal.Sealed.{
  lookup-set_field, lookup-set_field_other, is_text-status, sealed_envelope-status,
}
use synapx_harness.Kernel.Provider.{
  Stage, derive_proposed_outcome, enriched_receipt, envelope_of, build_sealed_evidence,
  terminalization_input, terminal_stage, sealed_or, decided_or,
}

enriched_receipt-verification :
    (admission : Fields) (r : VerificationResult)
    → lookup "verification_status" (enriched_receipt admission r)
      ≡ some (str (status_text r.verification_status))
unfolding enriched_receipt
enriched_receipt-verification admission r =
    lookup-set_field_other "verification_status" "active_blocker_count" _
      (set_field "evidence_status" (str (evidence_text r.evidence_status))
        (set_field "verification_status" (str (status_text r.verification_status)) admission))
      refl
    ∙ (lookup-set_field_other "verification_status" "evidence_status" _
          (set_field "verification_status" (str (status_text r.verification_status)) admission) refl
        ∙ lookup-set_field "verification_status" (str (status_text r.verification_status))
            admission)

enriched_receipt-evidence :
    (admission : Fields) (r : VerificationResult)
    → lookup "evidence_status" (enriched_receipt admission r)
      ≡ some (str (evidence_text r.evidence_status))
unfolding enriched_receipt
enriched_receipt-evidence admission r =
    lookup-set_field_other "evidence_status" "active_blocker_count" _
      (set_field "evidence_status" (str (evidence_text r.evidence_status))
        (set_field "verification_status" (str (status_text r.verification_status)) admission))
      refl
    ∙ lookup-set_field "evidence_status" (str (evidence_text r.evidence_status))
        (set_field "verification_status" (str (status_text r.verification_status)) admission)

sealed_stage :
    (s : Stage) (now : String)
    → build_sealed_evidence s now ≡ ok (sealed_envelope (envelope_of s) core_evidence_sealer now)
unfolding build_sealed_evidence seal_evidence envelope_of lookup
sealed_stage s now = refl

module _ (repr : Value → String) (s : Stage) (filled : str_eq s.work_contract_id "" ≡ false) where
  -- The chain ends in the decision for the stage's contract.
  abbrev Decides : VerificationResult → Fields → Decision → Type 0
  Decides r sealed decision =
      (d : TerminalDecisionRecord) × (finalize_terminal_chain repr s.work_contract_id (dict sealed)
          (dict (terminalization_input s r sealed))
        ≡ ok d)
      × (d.work_contract_id ≡ s.work_contract_id)
      × (d.decision ≡ decision)

  abbrev result_of : VerificationStatus → EvidenceStatus → ℕ → VerificationResult
  result_of v e n = record {
    work_contract_id = s.work_contract_id;
    verification_status = v;
    evidence_status = e;
    active_blocker_count = n;
  }

  -- What the receipt says under a key whose text is known.
  receipt_passes-says :
      (d : Fields)
      → lookup "verification_status" d ≡ some (str "PASS")
      → lookup "evidence_status" d ≡ some (str "VALID")
      → receipt_passes repr (dict d) ≡ true
  receipt_passes-says d h k =
      ap (λ o. said o "PASS" && said (lookup "evidence_status" d) "VALID") h
      ∙ ap (λ o. said (some (str "PASS")) "PASS" && said o "VALID") k
    where
      said : Option Value → String → Bool
      said o t = str_eq (to_text repr (or_else (elim o [ none ↦ null | some v ↦ v ]) (str ""))) t

  may_complete-stage :
      (sealed : Fields)
      → may_complete repr (dict (terminalization_input s (result_of pass valid zero) sealed)) ≡ true
  unfolding terminalization_input lookup missing_fields status_text evidence_text
  may_complete-stage sealed =
      both
        (receipt_passes repr
          (dict (enriched_receipt s.verification_admission (result_of pass valid zero))))
        (receipt_passes-says (enriched_receipt s.verification_admission (result_of pass valid zero))
          (enriched_receipt-verification s.verification_admission (result_of pass valid zero))
          (enriched_receipt-evidence s.verification_admission (result_of pass valid zero)))
    where
      both : (a : Bool) → a ≡ true → (true && a && true) ≡ true
      both a h = ground arith

  -- The stage with a proposed outcome other than COMPLETED.
  chain-undone :
      (v : VerificationStatus) (e : EvidenceStatus) (n : ℕ) (sealed : Fields) (t : String)
      (decision : Decision)
      → is_sealed (dict sealed) ≡ true
      → derive_proposed_outcome (status_text v) (evidence_text e) n ≡ t
      → is_member t terminal_outcomes ≡ true
      → decision_of t ≡ some decision
      → str_eq t "COMPLETED" ≡ false
      → Decides (result_of v e n) sealed decision
  unfolding terminalization_input lookup missing_fields status_text
  chain-undone v e n sealed t decision h outcome m c q = (
    _,
    finalize_terminal_chain-undone repr s.work_contract_id (dict sealed)
        (terminalization_input s (result_of v e n) sealed) t decision h refl (ap str outcome) m c q
        filled (reason v),
    refl,
    refl,
  )
    where
      reason :
          (v : VerificationStatus)
          → str_eq
              (to_text repr
                (or_else (str ("verification=" <> status_text v)) (str "terminal chain finalized")))
              ""
            ≡ false
      reason pass = refl
      reason fail = refl
      reason VerificationStatus.pending = refl

  -- With blockers, whatever the statuses are.
  chain-blockers :
      (v : VerificationStatus) (e : EvidenceStatus) (n : ℕ) (sealed : Fields)
      → is_sealed (dict sealed) ≡ true
      → ltb 0 n ≡ true
      → Decides (result_of v e n) sealed (expected_decision (result_of v e n))
  unfolding derive_proposed_outcome decision_of
  chain-blockers v e n sealed h positive =
      rw (positive)
        (chain-undone v e n sealed "BLOCKED" blocked h (rw (positive) refl) refl refl refl)

  -- Without blockers.
  chain-unblocked :
      (v : VerificationStatus) (e : EvidenceStatus) (sealed : Fields)
      → is_sealed (dict sealed) ≡ true
      → Decides (result_of v e zero) sealed (expected_decision (result_of v e zero))
  unfolding derive_proposed_outcome decision_of status_text evidence_text terminalization_input
      lookup
  chain-unblocked pass valid sealed h = (
    _,
    finalize_terminal_chain-completes repr s.work_contract_id (dict sealed)
        (terminalization_input s (result_of pass valid zero) sealed) h (may_complete-stage sealed)
        refl filled refl,
    refl,
    refl,
  )
  chain-unblocked pass invalid sealed h =
      chain-undone pass invalid zero sealed "FAILED" failed h refl refl refl refl
  chain-unblocked pass EvidenceStatus.pending sealed h =
      chain-undone pass EvidenceStatus.pending zero sealed "FAILED" failed h refl refl refl refl
  chain-unblocked fail e sealed h =
      chain-undone fail e zero sealed "FAILED" failed h refl refl refl refl
  chain-unblocked VerificationStatus.pending e sealed h =
      chain-undone VerificationStatus.pending e zero sealed "FAILED" failed h refl refl refl refl

  -- For every verification result, the last stage of the provider seals the evidence and ends in a
  -- terminal decision on its work contract, where the contract's id is not empty; the decision is the
  -- one that `finalize` takes from the verification result alone.
  pub terminal_stage-finalize :
      (r : VerificationResult) (now : String)
      → str_eq r.work_contract_id "" ≡ false
      → (d f : TerminalDecisionRecord) × (terminal_stage repr s r now ≡ ok d)
        × (finalize r ≡ ok f)
        × (d.work_contract_id ≡ s.work_contract_id)
        × (d.decision ≡ f.decision)
  unfolding terminal_stage terminalization_input enriched_receipt
  terminal_stage-finalize r now named =
      let sealed = sealed_envelope (envelope_of s) core_evidence_sealer now in
      let seal =
        is_text-status sealed "SEALED"
          (sealed_envelope-status (envelope_of s) core_evidence_sealer now) in
      let (f, finalized, same, decided) = finalize_total r named in
      let (d, ended, contract, decision) =
        by_blockers r.verification_status r.evidence_status r.active_blocker_count sealed seal
          (ltb 0 r.active_blocker_count) refl in
      (
        d,
        f,
        ends sealed (build_sealed_evidence s now) (sealed_stage s now) d ended,
        finalized,
        contract,
        decision ∙ sym decided,
      )
    where
      zero_of : (n : ℕ) → ltb 0 n ≡ false → n ≡ zero
      zero_of n h = ground arith

      by_blockers :
          (v : VerificationStatus) (e : EvidenceStatus) (n : ℕ) (sealed : Fields)
          → is_sealed (dict sealed) ≡ true
          → (b : Bool) → ltb 0 n ≡ b
          → Decides (result_of v e n) sealed (expected_decision (result_of v e n))
      by_blockers v e n sealed h true q = chain-blockers v e n sealed h q
      by_blockers v e n sealed h false q =
          subst (λ k. Decides (result_of v e k) sealed (expected_decision (result_of v e k)))
            (sym (zero_of n q)) (chain-unblocked v e sealed h)

      ends :
          (sealed : Fields) (x : Result SealError Fields)
          → x ≡ ok sealed
          → (d : TerminalDecisionRecord)
          → finalize_terminal_chain repr s.work_contract_id
              (dict sealed)
              (dict (terminalization_input s r sealed))
            ≡ ok d
          → (sealed_or x >>= λ t. decided_or (
              finalize_terminal_chain repr s.work_contract_id
                (dict t)
                (dict (terminalization_input s r t))))
            ≡ ok d
      ends sealed x p d q =
          ap
            (λ y. sealed_or y >>= λ t. decided_or (
              finalize_terminal_chain repr s.work_contract_id (dict t)
                (dict (terminalization_input s r t))))
            p
          ∙ ap decided_or q
