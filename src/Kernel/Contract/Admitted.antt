-- ===== src/Kernel/Contract/Admitted.antt =====
-- What a work contract that was built has passed.
use synapx_harness.Prelude.{String, Bool, true, false}
use synapx_harness.Prelude.{Option, some, if◌then◌else◌, []}
use synapx_harness.Prelude.{◌≡◌, refl, sym, ap, ◌∙◌, arith}
use synapx_harness.Prelude.Results.{Result, ok, err, ◌>>=◌, ◌>>◌, raise_if}
use synapx_harness.Values.{Value, Fields, get}
use synapx_harness.Kernel.Risk.{is_admissible}
use synapx_harness.Kernel.Validation.{
  BuildError, bad_contract, coerce_source_revision_ref, validate_revision, is_separated,
}
use synapx_harness.Kernel.Contract.{
  Request, WorkContract, core_admission, normalize_receipt_refs, is_admission_path,
  missing_receipts, is_core, is_red_reference, require_admission, identity_of, validate_contract,
  legacy_contract, admitted_contract, build_admitted, build,
}
use synapx_harness.Kernel.Contract.Gates.{
  in_first_slice, three_gates, kwargs-passed, admissible-passed, slice-passed, red-passed,
  bug_fix-passed, identity-separated,
}

-- The path that `build` takes, with any results of its parts.
on_admission_path :
    (b : Bool) (gate : Result BuildError (Unit {0})) (coerced : Result BuildError (Option Fields))
    (admitted legacy : Option Fields → Result BuildError WorkContract) (c : WorkContract)
    → (do
      (if b then gate else ok tt)
      revision ← coerced
      (if b then admitted revision else legacy revision))
      ≡ ok c
    → b ≡ true
    → (revision : Option Fields) × (gate ≡ ok tt) × (admitted revision ≡ ok c)
on_admission_path true (ok _) (ok revision) admitted legacy c h e = (revision, refl, h)
on_admission_path true (ok _) (err x) admitted legacy c h e = cc
on_admission_path true (err x) coerced admitted legacy c h e = cc
on_admission_path false gate coerced admitted legacy c h e = cc

on_legacy_path :
    (b : Bool) (gate : Result BuildError (Unit {0})) (coerced : Result BuildError (Option Fields))
    (admitted legacy : Option Fields → Result BuildError WorkContract) (c : WorkContract)
    → (do
      (if b then gate else ok tt)
      revision ← coerced
      (if b then admitted revision else legacy revision))
      ≡ ok c
    → b ≡ false
    → (revision : Option Fields) × (legacy revision ≡ ok c)
on_legacy_path false gate (ok revision) admitted legacy c h e = (revision, h)
on_legacy_path false gate (err x) admitted legacy c h e = cc
on_legacy_path true gate coerced admitted legacy c h e = cc

validated : (x c : WorkContract) → validate_contract x ≡ ok c → x ≡ c
unfolding validate_contract
validated x c h = kept _ h
  where
    kept : (b : Bool) → (raise_if b bad_contract >> ok x) ≡ ok c → x ≡ c
    kept b e = ground arith

identified :
    (found : Result BuildError (Option Fields)) (revised : Result BuildError (Unit {0}))
    (contract : Option Fields → WorkContract) (c : WorkContract)
    → (do identity ← found; revised; validate_contract (contract identity)) ≡ ok c
    → (identity : Option Fields) × (found ≡ ok identity) × (contract identity ≡ c)
identified (ok identity) (ok _) contract c h = (identity, refl, validated _ c h)
identified (ok identity) (err x) contract c h = cc
identified (err x) revised contract c h = cc

module _ (repr : Value → String) where
  built :
      (r : Request) (c : WorkContract)
      → build repr r ≡ ok c
      → is_admission_path r ≡ true
      → (identity revision : Option Fields) × (require_admission r ≡ ok tt)
        × (identity_of r.execution_identity ≡ ok identity)
        × (admitted_contract repr r identity revision ≡ c)
  unfolding build build_admitted
  built r c h admission =
      let (revision, gate, made) =
        on_admission_path (is_admission_path r) (require_admission r)
          (coerce_source_revision_ref r.source_revision_ref) (build_admitted repr r)
          (λ _. validate_contract (legacy_contract r)) c h admission in
      let (identity, found, same) =
        identified (identity_of r.execution_identity) (validate_revision revision)
          (λ i. admitted_contract repr r i revision) c made in
      (identity, revision, gate, found, same)

module _ (repr : Value → String) where
  -- A contract that is built on the admission path is issued by the harness's core admission, was
  -- asked for under that issuer with all three receipt references, has a risk class that is
  -- admissible, and its task type, where it has one, is of the first slice.
  pub build-admitted :
      (r : Request) (c : WorkContract)
      → build repr r ≡ ok c
      → is_admission_path r ≡ true
      → (c.issuer ≡ some core_admission)
        × (is_core r.issuer ≡ true)
        × (missing_receipts (normalize_receipt_refs r) ≡ [])
        × (is_admissible c.risk_class ≡ ok true)
        × (in_first_slice c.task_type ≡ true)
        × (c.work_contract_id ≡ r.work_contract_id)
  unfolding require_admission
  build-admitted r c h admission =
      let (identity, revision, gate, found, same) = built repr r c h admission in
      let (kwargs, admissible, slice) = three_gates _ _ _ gate in
      let (core, complete) =
        kwargs-passed r.issuer r.admission_receipt (normalize_receipt_refs r) kwargs in
      (
        sym (ap (λ (x : WorkContract). x.issuer) same),
        core,
        complete,
        ap (λ (x : WorkContract). is_admissible x.risk_class) (sym same)
            ∙ admissible-passed r.risk_class admissible,
        ap (λ (x : WorkContract). in_first_slice x.task_type) (sym same)
            ∙ slice-passed r.task_type r.admission_receipt slice,
        sym (ap (λ (x : WorkContract). x.work_contract_id) same),
      )

  -- A contract that is built without any argument of an admission carries none: neither issuer,
  -- receipt, task type nor receipt reference, and the schema version is the old one.
  pub build-unadmitted :
      (r : Request) (c : WorkContract)
      → build repr r ≡ ok c
      → is_admission_path r ≡ false
      → c ≡ legacy_contract r
  unfolding build
  build-unadmitted r c h legacy =
      let (revision, made) =
        on_legacy_path (is_admission_path r) (require_admission r)
          (coerce_source_revision_ref r.source_revision_ref) (build_admitted repr r)
          (λ _. validate_contract (legacy_contract r)) c h legacy in
      sym (validated (legacy_contract r) c made)

  -- A BUG_FIX that is built on the admission path carries an admission receipt whose RED reference
  -- is a text that is not blank.
  pub build-red_proof :
      (r : Request) (c : WorkContract)
      → build repr r ≡ ok c
      → is_admission_path r ≡ true
      → c.task_type ≡ some "BUG_FIX"
      → (receipt : Fields) × (c.admission_receipt ≡ some receipt)
        × (is_red_reference (get "red_receipt_ref" receipt) ≡ true)
  unfolding require_admission
  build-red_proof r c h admission bug =
      let (identity, revision, gate, found, same) = built repr r c h admission in
      let (kwargs, admissible, slice) = three_gates _ _ _ gate in
      let (receipt, kept, reference) = red-passed r.admission_receipt (
        bug_fix-passed r.task_type r.admission_receipt
          (ap (λ (x : WorkContract). x.task_type) same ∙ bug) slice) in
      (receipt, ap (λ (x : WorkContract). x.admission_receipt) (sym same) ∙ kept, reference)

  -- The execution identity of a contract that was built on the admission path has an attempt that
  -- is not its task and a tool call, where it has one that is set, that is not its attempt.
  pub build-separated :
      (r : Request) (c : WorkContract) (d : Fields)
      → build repr r ≡ ok c
      → is_admission_path r ≡ true
      → c.execution_identity ≡ some d
      → is_separated d ≡ true
  build-separated r c d h admission e =
      let (identity, revision, gate, found, same) = built repr r c h admission in
      identity-separated r.execution_identity d
        (found ∙ ap ok (ap (λ (x : WorkContract). x.execution_identity) same ∙ e))
