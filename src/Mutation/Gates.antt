-- ===== src/Mutation/Gates.antt =====
-- kernel/mutation_authority.py: the RED flag from its evidence, `MutationAdmissionGate` and
-- `ExactPathMutationGate`. Receipts stand less their time stamps.
pub mod Decisions
use synapx_harness.Prelude.{String, ◌<>◌, str_eq, is_member, filter}
use synapx_harness.Prelude.{Bool, true, false, ◌&&◌, ◌||◌, not, if◌then◌else◌, pos, int_eq}
use synapx_harness.Prelude.{Option, none, some, List, [], ◌∷◌}
use synapx_harness.Prelude.Results.{Result, ok, err, ◌>>=◌}
use synapx_harness.Values.{Value, bool, int, str, dict, Fields, lookup}
use synapx_harness.Mutation.Text.{is_blank}
use synapx_harness.Mutation.Proposal.{PatchProposal}

-- `RedQualificationDerivationError`
pub data RedError : Type 0 where
  reference_not_text artifact_missing artifact_unreadable artifact_not_object : RedError
  field_missing : String → RedError
  exit_code_not_int matches_not_bool : RedError

-- What stands at a path: no file, a file that is no JSON text, or the value that it holds.
pub data Artifact : Type 0 where
  missing unreadable : Artifact
  parsed : Value → Artifact

abbrev required : String → Fields → Result RedError Value
required key d = elim (lookup key d) [ none ↦ err (field_missing key) | some v ↦ ok v ]

-- `exit_code == 1`, of an `int`, which a truth value is.
abbrev exit_is_one : Value → Result RedError Bool
exit_is_one (int z) = ok (int_eq z (pos 1))
exit_is_one (bool b) = ok b
exit_is_one _ = err exit_code_not_int

abbrev matches_flag : Value → Result RedError Bool
matches_flag (bool b) = ok b
matches_flag _ = err matches_not_bool

abbrev artifact_fields : Artifact → Result RedError Fields
artifact_fields missing = err artifact_missing
artifact_fields unreadable = err artifact_unreadable
artifact_fields (parsed (dict d)) = ok d
artifact_fields (parsed _) = err artifact_not_object

abbrev reference_text : Value → Result RedError String
reference_text (str s) = if is_blank s then err reference_not_text else ok s
reference_text _ = err reference_not_text

-- `load` stands for the file system and `json.loads`.
unfoldable pub derive_red_qualification_from_evidence :
    (String → Artifact) → Value → Result RedError Bool
derive_red_qualification_from_evidence load red_qualification_ref = do
  path ← reference_text red_qualification_ref
  payload ← artifact_fields (load path)
  exit_code ← required "exit_code" payload
  matches ← required "failure_reason_matches_intended_defect" payload
  is_one ← exit_is_one exit_code
  matched ← matches_flag matches
  ok (is_one && matched)

pub data Decision : Type 0 where
  allow deny : Decision

pub record AdmissionReceipt : Type 0 where
  pub receipt_id : String
  pub admission_decision : Decision
  pub work_contract_id : String
  pub red_qualified : Bool
  pub red_qualification_ref : String
  pub source_revision : String
  pub execution_identity : Fields
  pub allowed_write_paths : List String
  pub denied_reason : Option String

-- `bool(reason)`
abbrev pub has_reason : Option String → Bool
has_reason none = false
has_reason (some s) = not (str_eq s "")

abbrev pub default_reason : String
default_reason = "RED qualification not satisfied (red_qualified=False)"

-- A denial without a reason gets the default one.
abbrev pub stated_reason : Decision → Option String → Option String
stated_reason deny none = some default_reason
stated_reason _ reason = reason

unfoldable pub admit :
    String → Bool → String → String → Fields → List String → Option String → AdmissionReceipt
admit work_contract_id red_qualified red_qualification_ref source_revision execution_identity
      allowed_write_paths denied_reason =
    let decision = if red_qualified && not (has_reason denied_reason) then allow else deny in
    record {
      receipt_id = "rct/" <> work_contract_id;
      admission_decision = decision;
      work_contract_id = work_contract_id;
      red_qualified = red_qualified;
      red_qualification_ref = red_qualification_ref;
      source_revision = source_revision;
      execution_identity = execution_identity;
      allowed_write_paths = allowed_write_paths;
      denied_reason = stated_reason decision denied_reason;
    }

pub data ApplyAuthority : Type 0 where
  issued not_issued : ApplyAuthority

-- `reason` holds the paths that its text names, in the order of the proposal.
pub record PathGateReceipt : Type 0 where
  pub gate_decision : Decision
  pub apply_authority : ApplyAuthority
  pub proposal_sha256 : String
  pub canonical_patch_sha256 : String
  pub authorized_paths : List String
  pub proposal_paths : List String
  pub source_revision : String
  pub admission_receipt_id : String
  pub reason : Option (List String)

-- `proposal_set - allowed_set`
unfoldable pub unauthorized : List String → List String → List String
unauthorized paths allowed = filter (λ p. not (is_member p allowed)) paths

abbrev pub is_empty : List String → Bool
is_empty [] = true
is_empty (_ ∷ _) = false

unfoldable pub check : PatchProposal → List String → String → String → PathGateReceipt
check proposal allowed_write_paths source_revision admission_receipt_id =
    let authorized =
      not (is_empty proposal.paths) && is_empty (unauthorized proposal.paths allowed_write_paths) in
    record {
      gate_decision = if authorized then allow else deny;
      apply_authority = if authorized then issued else not_issued;
      proposal_sha256 = proposal.sha256;
      canonical_patch_sha256 = proposal.canonical_patch_sha256;
      authorized_paths = allowed_write_paths;
      proposal_paths = proposal.paths;
      source_revision = source_revision;
      admission_receipt_id = admission_receipt_id;
      reason = if authorized then none else some (unauthorized proposal.paths allowed_write_paths);
    }
