-- ===== src/Kernel/Contract/Tests.antt =====
-- The theorems on work contracts at sample requests.
use synapx_harness.Prelude.{String, ◌≡◌, refl, true, none, some, [], ◌∷◌}
use synapx_harness.Prelude.Results.{ok}
use synapx_harness.Values.{Value, str, dict, Fields, end, field, lookup}
use synapx_harness.Kernel.Risk.{is_admissible, pilot_from_str}
use synapx_harness.Kernel.Validation.{coerce_source_revision_ref, has_only}
use synapx_harness.Kernel.Contract.{
  Request, WorkContract, core_admission, normalize_receipt_refs, is_admission_path,
  missing_receipts, is_core, require_admission, require_admission_kwargs, require_admissible,
  require_first_slice, require_red_proof, identity_of, build,
}
use synapx_harness.Kernel.Verification.{check_red_proof}
use synapx_harness.Kernel.Contract.Gate.{build-check_red_proof}
use synapx_harness.Kernel.Contract.Gates.{in_first_slice}
use synapx_harness.Kernel.Contract.Admitted.{build-admitted}

abbrev shown : Value → String
shown v = "?"

abbrev receipt : Fields
receipt = field "red_receipt_ref" (str "red-1") end

abbrev identity : Fields
identity =
    field "job_id" (str "j") (
      field "task_id" (str "t") (field "root_task_id" (str "t") (field "attempt_id" (str "a") end)))

abbrev request : Request
request = record {
  work_contract_id = "wc-1";
  phase = "build";
  risk_class = "R2";
  objective = "repair";
  scope = "src" ∷ [];
  success_criteria = [];
  issuer = some "HARNESS_CORE_ADMISSION";
  admission_receipt = some receipt;
  receipt_refs = some (field "permission_receipt_ref" (str "p") end);
  permission_receipt_ref = none;
  eligibility_receipt_ref = some "e";
  execution_receipt_ref = some "x";
  source_revision_ref = none;
  task_type = some "BUG_FIX";
  execution_identity = some identity;
}

abbrev contract : WorkContract
contract = record {
  schema_version = "0.2.0";
  work_contract_id = "wc-1";
  phase = "build";
  risk_class = "R2";
  objective = "repair";
  scope = "src" ∷ [];
  success_criteria = [];
  task_type = some "BUG_FIX";
  execution_identity = some identity;
  source_revision_ref = none;
  issuer = some "HARNESS_CORE_ADMISSION";
  admission_receipt = some receipt;
  permission_receipt_ref = some "p";
  eligibility_receipt_ref = some "e";
  execution_receipt_ref = some "x";
}

is_admitted : is_admission_path request ≡ true
unfolding is_admission_path
is_admitted = refl

is_built : build shown request ≡ ok contract
unfolding build is_admission_path normalize_receipt_refs require_admission require_admission_kwargs
    require_admissible require_first_slice require_red_proof missing_receipts is_admissible
    pilot_from_str coerce_source_revision_ref lookup has_only identity_of
is_built = refl

build-admitted_example :
    (contract.issuer ≡ some core_admission)
    × (is_core request.issuer ≡ true)
    × (missing_receipts (normalize_receipt_refs request) ≡ [])
    × (is_admissible contract.risk_class ≡ ok true)
    × (in_first_slice contract.task_type ≡ true)
    × (contract.work_contract_id ≡ request.work_contract_id)
build-admitted_example = build-admitted shown request contract is_built is_admitted

-- The same piece of work without any argument of an admission, at a blocked risk.
abbrev bare_request : Request
bare_request = record request {
  risk_class = "R4";
  issuer = none;
  admission_receipt = none;
  receipt_refs = none;
  eligibility_receipt_ref = none;
  execution_receipt_ref = none;
}

abbrev bare_contract : WorkContract
bare_contract = record {
  schema_version = "0.1.0";
  work_contract_id = "wc-1";
  phase = "build";
  risk_class = "R4";
  objective = "repair";
  scope = "src" ∷ [];
  success_criteria = [];
  task_type = none;
  execution_identity = none;
  source_revision_ref = none;
  issuer = none;
  admission_receipt = none;
  permission_receipt_ref = none;
  eligibility_receipt_ref = none;
  execution_receipt_ref = none;
}

abbrev as_dict : Fields
as_dict = field "task_type" (str "BUG_FIX") (field "admission_receipt" (dict receipt) end)

build-check_red_proof_example : check_red_proof as_dict ≡ ok tt
unfolding lookup
build-check_red_proof_example =
    build-check_red_proof shown request contract as_dict is_built is_admitted refl refl
