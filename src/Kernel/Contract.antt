-- ===== src/Kernel/Contract.antt =====
-- kernel/work_contract_builder.py: the building of a work contract, with and without admission, and
-- the parts of contracts/runtime_models.py that it validates. A dictionary argument that may be
-- `None` is an `Option`; `success_criteria` is the empty list where it is `None`.
pub mod Gates
pub mod Admitted
pub mod Gate
mod Tests
use synapx_harness.Prelude.{String, str_eq, is_member, Bool, true, false, ◌&&◌, ◌||◌, not}
use synapx_harness.Prelude.{Option, none, some, if◌then◌else◌, List, [], ◌∷◌, filter}
use synapx_harness.Prelude.Results.{Result, ok, err, ◌>>=◌, ◌>>◌, raise_if}
use synapx_harness.Values.{
  Value, null, str, dict, Fields, end, field, get, has_key, is_text, is_null, truthy, to_text,
}
use synapx_harness.Kernel.Risk.{is_admissible, default_risks, risk_in, pilot_from_str}
use synapx_harness.Kernel.Verification.{is_blank}
use synapx_harness.Kernel.Validation.{
  BuildError, no_admission_receipt, wrong_issuer, risk_blocked, task_type_blocked, no_red_proof,
  missing_receipt_refs, bad_risk_class, bad_contract, bad_identity, is_empty,
  coerce_source_revision_ref, validate_revision, validate_identity, is_separated,
  has_identity_fields, has_only,
}

-- The arguments of `build`.
pub record Request : Type 0 where
  pub work_contract_id : String
  pub phase : String
  pub risk_class : String
  pub objective : String
  pub scope : List String
  pub success_criteria : List String
  pub issuer : Option String
  pub admission_receipt : Option Fields
  pub receipt_refs : Option Fields
  pub permission_receipt_ref : Option String
  pub eligibility_receipt_ref : Option String
  pub execution_receipt_ref : Option String
  pub source_revision_ref : Option Fields
  pub task_type : Option String
  pub execution_identity : Option Fields

-- A `WorkContract`. `build` leaves `red_policy` and `red_expectation` at their defaults.
pub record WorkContract : Type 0 where
  pub schema_version : String
  pub work_contract_id : String
  pub phase : String
  pub risk_class : String
  pub objective : String
  pub scope : List String
  pub success_criteria : List String
  pub task_type : Option String
  pub execution_identity : Option Fields
  pub source_revision_ref : Option Fields
  pub issuer : Option String
  pub admission_receipt : Option Fields
  pub permission_receipt_ref : Option String
  pub eligibility_receipt_ref : Option String
  pub execution_receipt_ref : Option String

abbrev pub core_admission : String
core_admission = "HARNESS_CORE_ADMISSION"

abbrev pub required_receipt_refs : List String
required_receipt_refs =
    "permission_receipt_ref" ∷ "eligibility_receipt_ref" ∷ "execution_receipt_ref" ∷ []

abbrev pub first_slice_task_types : List String
first_slice_task_types = "BUG_FIX" ∷ "TEST_REPAIR" ∷ []

abbrev is_given : Option String → Bool
is_given none = false
is_given (some _) = true

abbrev is_given_dict : Option Fields → Bool
is_given_dict none = false
is_given_dict (some _) = true

-- `collected[key] = value`
pub put : String → Value → Fields → Fields
put key v end = field key v end
put key v (field k w rest) =
    let rest' = put key v rest in if str_eq key k then field k v rest else field k w rest'

abbrev put_given : String → Option String → Fields → Fields
put_given key none d = d
put_given key (some s) d = put key (str s) d

abbrev or_empty : Option Fields → Fields
or_empty none = end
or_empty (some d) = d

-- `_normalize_receipt_refs`
pub normalize_receipt_refs : Request → Fields
unfolding put
normalize_receipt_refs r = put_given "execution_receipt_ref" r.execution_receipt_ref (
    put_given "eligibility_receipt_ref" r.eligibility_receipt_ref
      (put_given "permission_receipt_ref" r.permission_receipt_ref (or_empty r.receipt_refs)))

-- `_is_admission_path`, on the normalized references.
pub is_admission_path : Request → Bool
is_admission_path r =
    is_given r.issuer
    || is_given_dict r.admission_receipt
    || truthy (dict (normalize_receipt_refs r))

-- The required references that are missing or empty.
pub missing_receipts : Fields → List String
missing_receipts refs = filter (λ name. not (truthy (get name refs))) required_receipt_refs

abbrev pub is_core : Option String → Bool
is_core none = false
is_core (some s) = str_eq s core_admission

-- `_require_admission_kwargs`
pub require_admission_kwargs : Option String → Option Fields → Fields → Result BuildError (Unit {0})
require_admission_kwargs issuer none refs = err no_admission_receipt
require_admission_kwargs issuer (some receipt) refs = do
  raise_if (not (is_empty (missing_receipts refs))) (missing_receipt_refs (missing_receipts refs))
  raise_if (not (is_core issuer)) wrong_issuer
  ok tt

-- `not isinstance(ref, str) or not ref.strip()`, negated
abbrev pub is_red_reference : Value → Bool
is_red_reference (str s) = not (is_blank s)
is_red_reference _ = false

-- `_require_red_proof`
pub require_red_proof : Option Fields → Result BuildError (Unit {0})
require_red_proof none = err no_red_proof
require_red_proof (some receipt) =
    raise_if (not (is_red_reference (get "red_receipt_ref" receipt))) no_red_proof

-- `is_admissible`, whose `ValueError` ends the build.
pub require_admissible : String → Result BuildError (Unit {0})
require_admissible risk_class = elim (is_admissible risk_class) [
  | err _ ↦ err bad_risk_class
  | ok admissible ↦ raise_if (not admissible) risk_blocked
]

-- The gate on the task type, and the RED proof of a BUG_FIX.
pub require_first_slice : Option String → Option Fields → Result BuildError (Unit {0})
require_first_slice none receipt = ok tt
require_first_slice (some task_type) receipt = do
  raise_if (not (is_member task_type first_slice_task_types)) task_type_blocked
  (if str_eq task_type "BUG_FIX" then require_red_proof receipt else ok tt)

-- The checks of the admission path, in the code's order.
pub require_admission : Request → Result BuildError (Unit {0})
require_admission r = do
  require_admission_kwargs r.issuer r.admission_receipt (normalize_receipt_refs r)
  require_admissible r.risk_class
  require_first_slice r.task_type r.admission_receipt

-- The identity of a request; an empty dictionary is none.
pub identity_of : Option Fields → Result BuildError (Option Fields)
unfolding validate_identity
identity_of none = ok none
identity_of (some end) = ok none
identity_of (some (field k v rest)) = do
  validate_identity (field k v rest)
  ok (some (field k v rest))

abbrev is_known_risk : String → Bool
is_known_risk s = elim (pilot_from_str s) [ ok _ ↦ true | err _ ↦ false ]

abbrev is_known_task_type : Option String → Bool
is_known_task_type none = true
is_known_task_type (some s) = elim (risk_in s default_risks) [ none ↦ false | some _ ↦ true ]

-- The field checks of `WorkContract`.
pub validate_contract : WorkContract → Result BuildError WorkContract
validate_contract c = do
  raise_if
      (str_eq c.work_contract_id ""
        || str_eq c.phase ""
        || not (is_known_risk c.risk_class)
        || str_eq c.objective ""
        || is_empty c.scope
        || not (is_known_task_type c.task_type))
      bad_contract
  ok c

-- `build_work_contract`: the contract of a call without admission.
abbrev legacy_contract : Request → WorkContract
legacy_contract r = record {
  schema_version = "0.1.0";
  work_contract_id = r.work_contract_id;
  phase = r.phase;
  risk_class = r.risk_class;
  objective = r.objective;
  scope = r.scope;
  success_criteria = r.success_criteria;
  task_type = none;
  execution_identity = none;
  source_revision_ref = none;
  issuer = none;
  admission_receipt = none;
  permission_receipt_ref = none;
  eligibility_receipt_ref = none;
  execution_receipt_ref = none;
}

-- `dict(receipt) if receipt else None`
abbrev filled_receipt : Option Fields → Option Fields
filled_receipt none = none
filled_receipt (some end) = none
filled_receipt (some (field k v rest)) = some (field k v rest)

module _ (repr : Value → String) where
  -- `str(v) if v is not None else None`
  abbrev ref_text : Value → Option String
  ref_text v = if is_null v then none else some (to_text repr v)

  abbrev pub admitted_contract : Request → Option Fields → Option Fields → WorkContract
  admitted_contract r identity revision =
      let refs = normalize_receipt_refs r in
      record {
        schema_version = "0.2.0";
        work_contract_id = r.work_contract_id;
        phase = r.phase;
        risk_class = r.risk_class;
        objective = r.objective;
        scope = r.scope;
        success_criteria = r.success_criteria;
        task_type = r.task_type;
        execution_identity = identity;
        source_revision_ref = revision;
        issuer = some core_admission;
        admission_receipt = filled_receipt r.admission_receipt;
        permission_receipt_ref = ref_text (get "permission_receipt_ref" refs);
        eligibility_receipt_ref = ref_text (get "eligibility_receipt_ref" refs);
        execution_receipt_ref = ref_text (get "execution_receipt_ref" refs);
      }

  -- The end of `build` on the admission path.
  build_admitted : Request → Option Fields → Result BuildError WorkContract
  unfolding identity_of validate_revision validate_contract
  build_admitted r revision = do
    identity ← identity_of r.execution_identity
    validate_revision revision
    validate_contract (admitted_contract r identity revision)

  pub build : Request → Result BuildError WorkContract
  unfolding build_admitted validate_contract
  build r = do
    (if is_admission_path r then require_admission r else ok tt)
    revision ← coerce_source_revision_ref r.source_revision_ref
    (if is_admission_path r
        then build_admitted r revision
        else validate_contract (legacy_contract r))

  -- `admit_work_contract`: the receipt references come in one dictionary.
  admit_work_contract : Request → Result BuildError WorkContract
  admit_work_contract r = build (record r {
    permission_receipt_ref = none;
    eligibility_receipt_ref = none;
    execution_receipt_ref = none;
  })
