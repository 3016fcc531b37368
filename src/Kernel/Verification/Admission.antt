-- ===== src/Kernel/Verification/Admission.antt =====
-- What an admitted verification result has passed, and what its receipt allows.
use synapx_harness.Prelude.{String, str_eq, Bool, true, false, ◌||◌, not, if◌then◌else◌}
use synapx_harness.Prelude.{
  ◌≡◌, refl, ◌↔◌, sym, ◌∙◌, ap, arith, ◌+◌, ◌*◌, ◌≤◌, Option, none, some, ltb, ◌≢◌, length, All,
}
use synapx_harness.Prelude.Results.{ok}
use synapx_harness.Values.{Value, null, str, list, dict, Fields, get, lookup, is_text, Items}
use synapx_harness.Kernel.Contracts.{completed, TerminalDecisionRecord}
use synapx_harness.Kernel.Terminal.{finalize_terminal_chain}
use synapx_harness.Kernel.Terminal.Completion.{
  finalize_terminal_chain-completed, may_complete-receipt, receipt_passes,
}
use synapx_harness.Kernel.Verification.{
  Moment, conflict, revision_conflict, is_other_schema, as_dict, is_active, is_blank,
  classify_outcome, check_red_proof, red_proof, check_freshness, stale_evidence, check_completeness,
  is_stale, freshness_threshold_seconds, evidence_time, admission_receipt, admit_dicts,
  admit_verification_result, required_check_ids, items,
}
use synapx_harness.Kernel.Verification.Checks.{check_completeness-once, count_of}
use synapx_harness.Kernel.Verification.Chain.{
  chain-passed, raised-false, under_test, red_proof-text, all_clear, refuted,
}

module _ (fromisoformat : String → Option Moment) (now : String) where
  not_stale :
      (e n : Option Moment)
      → (elim e [
        | none ↦ true
        | some evidence ↦ elim n [
          | none ↦ true
          | some reference ↦
              if not (evidence.is_aware) || not (reference.is_aware)
              then true
              else ltb (evidence.instant + freshness_threshold_seconds * 1000000) reference.instant
        ]
      ])
        ≡ false
      → (evidence reference : Moment) × (e ≡ some evidence)
        × (n ≡ some reference)
        × (evidence.is_aware ≡ true)
        × (reference.instant ≤ evidence.instant + freshness_threshold_seconds * 1000000)
  not_stale (some evidence) (some reference) h =
      (evidence, reference, refl, refl, ground arith, ground arith)
  not_stale none n h = cc
  not_stale (some evidence) none h = cc

  -- Every check of an admitted result has passed.
  pub passed :
      (c d : Fields) (v : Value)
      → admit_verification_result fromisoformat now (dict c) (dict d) ≡ ok v
      → (check_red_proof c ≡ ok tt)
        × (check_freshness fromisoformat now (evidence_time d) ≡ ok tt)
        × (check_completeness (get "requested_checks" d) ≡ ok tt)
        × (conflict (get "attempt_index" c) (get "attempt_index" d) ≡ false)
        × (revision_conflict
              (get "source_revision_ref" c)
              (get "source_revision" (as_dict (get "source_binding" d)))
            ≡ false)
        × (conflict
              (get "source_snapshot_id" c)
              (get "source_snapshot_id" (as_dict (get "source_binding" d)))
            ≡ false)
        × (conflict (get "work_contract_id" c) (get "work_contract_id" d) ≡ false)
        × (is_other_schema (get "schema_version" d) ≡ false)
        × (admission_receipt now c d ≡ v)
  unfolding admit_verification_result admit_dicts
  passed c d v h =
      chain-passed (check_red_proof c) (check_freshness fromisoformat now (evidence_time d))
        (check_completeness (get "requested_checks" d))
        (conflict (get "attempt_index" c) (get "attempt_index" d))
        (revision_conflict (get "source_revision_ref" c)
          (get "source_revision" (as_dict (get "source_binding" d))))
        (conflict (get "source_snapshot_id" c)
          (get "source_snapshot_id" (as_dict (get "source_binding" d))))
        (conflict (get "work_contract_id" c) (get "work_contract_id" d))
        (is_other_schema (get "schema_version" d)) (admission_receipt now c d) v h

  -- A text that an admitted result gives as its evidence time is a date with an offset, and the
  -- time of the admission is at most the threshold after it.
  pub admit_verification_result-fresh :
      (c d : Fields) (v : Value) (stamp : String)
      → admit_verification_result fromisoformat now (dict c) (dict d) ≡ ok v
      → evidence_time d ≡ str stamp
      → (evidence reference : Moment) × (fromisoformat stamp ≡ some evidence)
        × (fromisoformat now ≡ some reference)
        × (evidence.is_aware ≡ true)
        × (reference.instant ≤ evidence.instant + freshness_threshold_seconds * 1000000)
  unfolding check_freshness is_stale
  admit_verification_result-fresh c d v stamp h e =
      let (red, fresh, checks, attempt, revision, snapshot, identity, schema, same) =
        passed c d v h in
      not_stale (fromisoformat stamp) (fromisoformat now) (
        raised-false (is_stale fromisoformat now stamp now freshness_threshold_seconds)
          stale_evidence (sym (ap (check_freshness fromisoformat now) e) ∙ fresh))

  -- A BUG_FIX is admitted only with an admission receipt whose RED reference is a text that is not
  -- blank.
  admit_verification_result-red_proof :
      (c d : Fields) (v : Value)
      → admit_verification_result fromisoformat now (dict c) (dict d) ≡ ok v
      → is_text (get "task_type" c) "BUG_FIX" ≡ true
      → (adm : Fields) × (ref : String) × (get "admission_receipt" c ≡ dict adm)
        × (get "red_receipt_ref" adm ≡ str ref)
        × (is_blank ref ≡ false)
  unfolding check_red_proof red_proof
  admit_verification_result-red_proof c d v h bug =
      let (red, fresh, checks, attempt, revision, snapshot, identity, schema, same) =
        passed c d v h in
      red_proof-text (get "admission_receipt" c) (
        under_test (is_text (get "task_type" c) "BUG_FIX") (red_proof (get "admission_receipt" c))
          red bug)

  -- Checks that an admitted result asks for are the numbers 1 to 18, each exactly once.
  pub admit_verification_result-each_check_once :
      (c d : Fields) (v : Value)
      → admit_verification_result fromisoformat now (dict c) (dict d) ≡ ok v
      → get "requested_checks" d ≢ null
      → (checks : Items) × (get "requested_checks" d ≡ list checks)
        × (length (items checks) ≡ 18)
        × All (λ k. count_of (items checks) k ≡ 1) required_check_ids
  admit_verification_result-each_check_once c d v h given =
      let (red, fresh, checks, attempt, revision, snapshot, identity, schema, same) =
        passed c d v h in
      check_completeness-once (get "requested_checks" d) checks given

  -- An admission receipt has no verification status of its own, so a terminal chain that is given
  -- it as its verification receipt never ends in COMPLETED.
  admit_verification_result-never_completes :
      (repr : Value → String) (c d : Fields) (v : Value) (work_contract_id : String)
      (sealed : Value) (input : Fields) (r : TerminalDecisionRecord)
      → admit_verification_result fromisoformat now (dict c) (dict d) ≡ ok v
      → get "verification_admission_receipt" input ≡ v
      → finalize_terminal_chain repr work_contract_id sealed (dict input) ≡ ok r
      → r.decision ≢ completed
  unfolding lookup
  admit_verification_result-never_completes repr c d v wid sealed input r h e f done =
      let (red, fresh, checks, attempt, revision, snapshot, identity, schema, same) =
        passed c d v h in
      let (seal, may, same_id) =
        finalize_terminal_chain-completed repr wid sealed (dict input) r f done in
      refuted (sym (ap (receipt_passes repr) (e ∙ sym same)) ∙ may_complete-receipt repr input may)

  -- A work contract that is no BUG_FIX and a result without time stamp, whose bindings do not
  -- conflict with it, whose schema version is no other text and which asks for no checks, is
  -- admitted, whatever its verification and its evidence say.
  pub admit_verification_result-accepts :
      (c d : Fields)
      → is_text (get "task_type" c) "BUG_FIX" ≡ false
      → evidence_time d ≡ null
      → get "requested_checks" d ≡ null
      → conflict (get "attempt_index" c) (get "attempt_index" d) ≡ false
      → revision_conflict
          (get "source_revision_ref" c)
          (get "source_revision" (as_dict (get "source_binding" d)))
        ≡ false
      → conflict
          (get "source_snapshot_id" c)
          (get "source_snapshot_id" (as_dict (get "source_binding" d)))
        ≡ false
      → conflict (get "work_contract_id" c) (get "work_contract_id" d) ≡ false
      → is_other_schema (get "schema_version" d) ≡ false
      → admit_verification_result fromisoformat now (dict c) (dict d)
        ≡ ok (admission_receipt now c d)
  unfolding admit_verification_result admit_dicts check_red_proof check_freshness check_completeness
  admit_verification_result-accepts c d bug time checks attempt revision snapshot identity schema =
      all_clear (is_text (get "task_type" c) "BUG_FIX") (red_proof (get "admission_receipt" c))
        (check_freshness fromisoformat now (evidence_time d))
        (check_completeness (get "requested_checks" d))
        (conflict (get "attempt_index" c) (get "attempt_index" d))
        (revision_conflict (get "source_revision_ref" c)
          (get "source_revision" (as_dict (get "source_binding" d))))
        (conflict (get "source_snapshot_id" c)
          (get "source_snapshot_id" (as_dict (get "source_binding" d))))
        (conflict (get "work_contract_id" c) (get "work_contract_id" d))
        (is_other_schema (get "schema_version" d)) (admission_receipt now c d) bug
        (ap (check_freshness fromisoformat now) time) (ap check_completeness checks) attempt
        revision snapshot identity schema

-- A verification is classified ADMITTED_PASS exactly when its status is PASS and its count of
-- blockers is not a positive number; the evidence status has no part in it.
pub classify_outcome-pass :
    (verification evidence blockers : Value)
    → (classify_outcome verification evidence blockers ≡ "ADMITTED_PASS")
      ↔ ((is_text verification "PASS" ≡ true) × (is_active blockers ≡ false))
unfolding classify_outcome
classify_outcome-pass verification evidence blockers =
    choice (is_active blockers) (is_text verification "PASS") (is_text verification "FAIL")
  where
    choice :
        (a p f : Bool)
        → ◌≡◌ {0} {A = String}
            (if a
              then "BLOCKED_ACTIVE_BLOCKER"
              else if p
              then "ADMITTED_PASS"
              else if f
              then "ADMITTED_FAIL"
              else "BLOCKED_UNKNOWN")
            "ADMITTED_PASS"
          ↔ (◌≡◌ {0} {A = Bool} p true × ◌≡◌ {0} {A = Bool} a false)
    choice true p f = (
      λ h. elim (refuted (ap (λ s. str_eq s "ADMITTED_PASS") h)) [ ],
      λ h. elim (refuted (sym (h.1))) [ ],
    )
    choice false true f = (λ h. (refl, refl), λ h. refl)
    choice false false true = (
      λ h. elim (refuted (ap (λ s. str_eq s "ADMITTED_PASS") h)) [ ],
      λ h. elim (refuted (h.0)) [ ],
    )
    choice false false false = (
      λ h. elim (refuted (ap (λ s. str_eq s "ADMITTED_PASS") h)) [ ],
      λ h. elim (refuted (h.0)) [ ],
    )
