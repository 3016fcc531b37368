-- ===== src/Kernel/Verification/Chain.antt =====
-- The chain of checks of an admission: what has held where a receipt comes out, and when one does.
use synapx_harness.Prelude.{String, Bool, true, false, if◌then◌else◌}
use synapx_harness.Prelude.{◌≡◌, refl, arith}
use synapx_harness.Prelude.Results.{Result, ok, err, ◌>>◌, raise_if}
use synapx_harness.Values.{Value, str, dict, Fields, get}
use synapx_harness.Kernel.Verification.{
  AdmissionError, attempt_mismatch, revision_mismatch, snapshot_mismatch, identity_mismatch,
  schema_not_canonical, is_blank, red_proof, no_red_receipt,
}

-- The chain of checks with any results: a value comes out only when each has passed.
pub chain-passed :
    (m₁ m₂ m₃ : Result AdmissionError (Unit {0})) (b₁ b₂ b₃ b₄ b₅ : Bool) (receipt v : Value)
    → (do
      m₁
      raise_if b₁ attempt_mismatch
      raise_if b₂ revision_mismatch
      raise_if b₃ snapshot_mismatch
      m₂
      raise_if b₄ identity_mismatch
      raise_if b₅ schema_not_canonical
      m₃
      ok receipt)
      ≡ ok v
    → (m₁ ≡ ok tt)
      × (m₂ ≡ ok tt)
      × (m₃ ≡ ok tt)
      × (b₁ ≡ false)
      × (b₂ ≡ false)
      × (b₃ ≡ false)
      × (b₄ ≡ false)
      × (b₅ ≡ false)
      × (receipt ≡ v)
chain-passed m₁ m₂ m₃ b₁ b₂ b₃ b₄ b₅ receipt v h = ground arith

pub raised-false : (b : Bool) (e : AdmissionError) → raise_if b e ≡ ok tt → b ≡ false
raised-false b e h = ground arith

pub under_test :
    (b : Bool) (m : Result AdmissionError (Unit {0}))
    → if◌then◌else◌ {A = Result AdmissionError (Unit {0})} b m (ok tt) ≡ ok tt
    → b ≡ true
    → m ≡ ok tt
under_test b m h t = ground arith

pub red_reference :
    (ref : Value)
    → elim ref as (λ _. Result AdmissionError (Unit {0})) [
      | str s ↦ raise_if (is_blank s) no_red_receipt
      | _ ↦ err no_red_receipt
    ]
      ≡ ok tt
    → (s : String) × (ref ≡ str s) × (is_blank s ≡ false)
red_reference (str s) h = (s, refl, raised-false (is_blank s) no_red_receipt h)
red_reference _ h = cc

pub red_proof-text :
    (receipt : Value)
    → red_proof receipt ≡ ok tt
    → (adm : Fields) × (ref : String) × (receipt ≡ dict adm)
      × (get "red_receipt_ref" adm ≡ str ref)
      × (is_blank ref ≡ false)
unfolding red_proof
red_proof-text (dict adm) h =
    let (ref, text, blank) = red_reference (get "red_receipt_ref" adm) h in
    (adm, ref, refl, text, blank)
red_proof-text _ h = cc

-- The chain ends in its receipt when no check objects.
pub all_clear :
    (bug : Bool) (red fresh checks : Result AdmissionError (Unit {0})) (b₁ b₂ b₃ b₄ b₅ : Bool)
    (receipt : Value)
    → bug ≡ false
    → fresh ≡ ok tt
    → checks ≡ ok tt
    → b₁ ≡ false
    → b₂ ≡ false
    → b₃ ≡ false
    → b₄ ≡ false
    → b₅ ≡ false
    → (do
      if◌then◌else◌ {A = Result AdmissionError (Unit {0})} bug red (ok tt)
      raise_if b₁ attempt_mismatch
      raise_if b₂ revision_mismatch
      raise_if b₃ snapshot_mismatch
      fresh
      raise_if b₄ identity_mismatch
      raise_if b₅ schema_not_canonical
      checks
      ok receipt)
      ≡ ok receipt
all_clear bug red fresh checks b₁ b₂ b₃ b₄ b₅ receipt h₁ h₂ h₃ h₄ h₅ h₆ h₇ h₈ = ground arith

pub refuted : false ≡ true → ⊥
refuted h = cc
