-- ===== src/Kernel/Contract/Gates.antt =====
-- What each gate of the admission path has checked where it lets a request pass.
use synapx_harness.Prelude.{String, is_member, Bool, true, false, ◌&&◌, not}
use synapx_harness.Prelude.{Option, none, some, List, [], ◌∷◌}
use synapx_harness.Prelude.{◌≡◌, refl, sym, ap, ◌∙◌, arith}
use synapx_harness.Prelude.Results.{Result, ok, err, ◌>>◌, raise_if}
use synapx_harness.Values.{Fields, end, field, get, lookup}
use synapx_harness.Kernel.Risk.{RiskError, is_admissible}
use synapx_harness.Kernel.Validation.{
  BuildError, missing_receipt_refs, wrong_issuer, risk_blocked, bad_risk_class, bad_identity,
  no_red_proof, task_type_blocked, is_empty, is_separated, has_identity_fields, validate_identity,
}
use synapx_harness.Kernel.Contract.{
  first_slice_task_types, missing_receipts, is_core, require_admission_kwargs, is_red_reference,
  require_red_proof, require_admissible, require_first_slice, identity_of, filled_receipt,
}

empty-nil : (xs : List String) → is_empty xs ≡ true → xs ≡ []
empty-nil [] h = refl
empty-nil (x ∷ xs) h = cc

-- The three gates of the admission path.
pub three_gates :
    (a b c : Result BuildError (Unit {0}))
    → (do a; b; c) ≡ ok tt
    → (a ≡ ok tt) × (b ≡ ok tt) × (c ≡ ok tt)
three_gates (ok _) (ok _) c h = (refl, refl, h)
three_gates (ok _) (err x) c h = cc
three_gates (err x) b c h = cc

abbrev two_gates : BuildError → BuildError → Bool → Bool → Result BuildError (Unit {0})
two_gates x y e i = do raise_if (not e) x; raise_if (not i) y; ok tt

both_passed : (x y : BuildError) (e i : Bool) → two_gates x y e i ≡ ok tt → (i ≡ true) × (e ≡ true)
both_passed x y e i k = ground arith

pub kwargs-passed :
    (issuer : Option String) (receipt : Option Fields) (refs : Fields)
    → require_admission_kwargs issuer receipt refs ≡ ok tt
    → (is_core issuer ≡ true) × (missing_receipts refs ≡ [])
unfolding require_admission_kwargs
kwargs-passed issuer (some receipt) refs h =
    let (core, complete) =
      both_passed (missing_receipt_refs (missing_receipts refs)) wrong_issuer
        (is_empty (missing_receipts refs)) (is_core issuer) h in
    (core, empty-nil (missing_receipts refs) complete)
kwargs-passed issuer none refs h = cc

pub admissible-passed :
    (risk_class : String)
    → require_admissible risk_class ≡ ok tt
    → is_admissible risk_class ≡ ok true
unfolding require_admissible
admissible-passed risk_class h = cases (is_admissible risk_class) h
  where
    cases :
        (m : Result RiskError Bool)
        → elim m as (λ _. Result BuildError (Unit {0})) [
          | err _ ↦ err bad_risk_class
          | ok admissible ↦ raise_if (not admissible) risk_blocked
        ]
          ≡ ok tt
        → m ≡ ok true
    cases (ok true) k = refl
    cases (ok false) k = cc
    cases (err x) k = cc

abbrev pub in_first_slice : Option String → Bool
in_first_slice none = true
in_first_slice (some task_type) = is_member task_type first_slice_task_types

pub slice-passed :
    (task_type : Option String) (receipt : Option Fields)
    → require_first_slice task_type receipt ≡ ok tt
    → in_first_slice task_type ≡ true
unfolding require_first_slice
slice-passed none receipt h = refl
slice-passed (some t) receipt h = first (is_member t first_slice_task_types) _ h
  where
    first :
        (b : Bool) (rest : Result BuildError (Unit {0}))
        → (raise_if (not b) task_type_blocked >> rest) ≡ ok tt
        → b ≡ true
    first b rest k = ground arith

pub red-passed :
    (receipt : Option Fields)
    → require_red_proof receipt ≡ ok tt
    → (d : Fields) × (filled_receipt receipt ≡ some d)
      × (is_red_reference (get "red_receipt_ref" d) ≡ true)
unfolding require_red_proof lookup
red-passed (some (field k v rest)) h = (field k v rest, refl, proved _ h)
  where
    proved : (b : Bool) → raise_if (not b) no_red_proof ≡ ok tt → b ≡ true
    proved b e = ground arith
red-passed (some end) h = cc
red-passed none h = cc

pub bug_fix-passed :
    (task_type : Option String) (receipt : Option Fields)
    → task_type ≡ some "BUG_FIX"
    → require_first_slice task_type receipt ≡ ok tt
    → require_red_proof receipt ≡ ok tt
unfolding require_first_slice
bug_fix-passed task_type receipt bug h = ap (λ t. require_first_slice t receipt) (sym bug) ∙ h

kept-validated :
    (m : Result BuildError (Unit {0})) (given d : Fields)
    → (m >> ok (some given)) ≡ ok (some d)
    → (given ≡ d) × (m ≡ ok tt)
kept-validated m given d h = ground arith

last-passed : (a s : Bool) → raise_if (not (a && s)) bad_identity ≡ ok tt → s ≡ true
last-passed a s h = ground arith

validated-separated : (d : Fields) → validate_identity d ≡ ok tt → is_separated d ≡ true
unfolding validate_identity
validated-separated d h = last-passed (has_identity_fields d) (is_separated d) h

pub identity-separated :
    (given : Option Fields) (d : Fields) → identity_of given ≡ ok (some d) → is_separated d ≡ true
unfolding identity_of
identity-separated (some (field k v rest)) d h =
    let (same, valid) = kept-validated (validate_identity (field k v rest)) (field k v rest) d h in
    ap is_separated (sym same) ∙ validated-separated (field k v rest) valid
identity-separated (some end) d h = cc
identity-separated none d h = cc
