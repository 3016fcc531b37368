-- ===== src/Kernel/Contract/Gate.antt =====
-- The RED gate of the builder against the one of the verification admission.
use synapx_harness.Prelude.{String, Bool, true, false, Option, none, some, if◌then◌else◌}
use synapx_harness.Prelude.{◌≡◌, refl, sym, ap, ◌∙◌, arith, eq_iff}
use synapx_harness.Prelude.Results.{Result, ok, err, raise_if}
use synapx_harness.Values.{Value, null, str, dict, Fields, get, is_text}
use synapx_harness.Kernel.Verification.{
  AdmissionError, no_red_receipt, is_blank, red_proof, check_red_proof,
}
use synapx_harness.Kernel.Contract.{
  Request, WorkContract, is_admission_path, is_red_reference, build,
}
use synapx_harness.Kernel.Contract.Admitted.{build-red_proof}

-- An optional text and an optional dictionary as JSON values.
abbrev pub text_value : Option String → Value
text_value none = null
text_value (some s) = str s

abbrev pub dict_value : Option Fields → Value
dict_value none = null
dict_value (some d) = dict d

text_value-named : (o : Option String) (s : String) → is_text (text_value o) s ≡ true → o ≡ some s
text_value-named (some t) s h = ap some ((eq_iff t s).0 h)
text_value-named none s h = cc

reference-accepted :
    (ref : Value)
    → is_red_reference ref ≡ true
    → elim ref as (λ _. Result AdmissionError (Unit {0})) [
      | str s ↦ raise_if (is_blank s) no_red_receipt
      | _ ↦ err no_red_receipt
    ]
      ≡ ok tt
reference-accepted (str s) h = ground arith
reference-accepted _ h = cc

red_proof-accepts :
    (receipt : Fields)
    → is_red_reference (get "red_receipt_ref" receipt) ≡ true
    → red_proof (dict receipt) ≡ ok tt
unfolding red_proof
red_proof-accepts receipt h = reference-accepted (get "red_receipt_ref" receipt) h

under_test :
    (b : Bool) (m : Result AdmissionError (Unit {0}))
    → (b ≡ true → m ≡ ok tt)
    → if◌then◌else◌ {A = Result AdmissionError (Unit {0})} b m (ok tt) ≡ ok tt
under_test true m h = h refl
under_test false m h = refl

-- A dictionary with the task type and the admission receipt of a contract that was built on the
-- admission path passes the RED gate of the verification admission, whatever else it holds.
pub build-check_red_proof :
    (repr : Value → String) (r : Request) (c : WorkContract) (d : Fields)
    → build repr r ≡ ok c
    → is_admission_path r ≡ true
    → get "task_type" d ≡ text_value c.task_type
    → get "admission_receipt" d ≡ dict_value c.admission_receipt
    → check_red_proof d ≡ ok tt
unfolding check_red_proof
build-check_red_proof repr r c d h admission task receipt =
    under_test (is_text (get "task_type" d) "BUG_FIX") (red_proof (get "admission_receipt" d))
      passes
  where
    passes :
        is_text (get "task_type" d) "BUG_FIX" ≡ true → red_proof (get "admission_receipt" d) ≡ ok tt
    passes bug =
        let (found, kept, reference) = build-red_proof repr r c h admission (
          text_value-named c.task_type "BUG_FIX"
            (ap (λ v. is_text v "BUG_FIX") (sym task) ∙ bug)) in
        ap red_proof (receipt ∙ ap dict_value kept) ∙ red_proof-accepts found reference
