-- ===== src/Mutation/Execute.antt =====
-- kernel/mutation_authority.py: `GovernedMutationExecutor.execute`, the chain from the agent's text to
-- the write.
pub mod Outcomes
pub mod Frame
pub mod Proper
pub mod Success
use synapx_harness.Prelude.{String, Bool, true, false, not, if◌then◌else◌, ◌==◌}
use synapx_harness.Prelude.{Option, none, some, List, [], ◌∷◌}
use synapx_harness.Values.{Fields}
use synapx_harness.Mutation.Bytes.{Bytes}
use synapx_harness.Mutation.Proposal.{PatchProposal, ParseError, parse_structured}
use synapx_harness.Mutation.Files.{Store}
use synapx_harness.Mutation.Validation.{Blocker, validate_mutation_proposal}
use synapx_harness.Mutation.Gates.{AdmissionReceipt, admit, PathGateReceipt, check}
use synapx_harness.Mutation.Apply.{ApplyReceipt, Denial, apply, is_allow}

pub data ExecutionError : Type 0 where
  proposal_invalid : Option ParseError → ExecutionError
  validation_failed : List Blocker → ExecutionError
  admission_denied : Option String → ExecutionError
  path_gate_denied : Option (List String) → ExecutionError
  apply_failed : Option Denial → ExecutionError

pub record MutationExecutionResult : Type 0 where
  pub success : Bool
  pub work_contract_id : String
  pub admission_receipt : Option AdmissionReceipt
  pub path_gate_receipt : Option PathGateReceipt
  pub apply_receipt : Option ApplyReceipt
  pub proposal : PatchProposal
  pub validation_blockers : List Blocker
  pub error : Option ExecutionError
  pub proposal_parsing_attempted : Bool
  pub mutation_attempted : Bool

-- The arguments of `execute`; `expected` is `expected_before_sha256_by_path`.
pub record ExecutionRequest : Type 0 where
  pub work_contract_id : String
  pub red_qualified : Bool
  pub red_qualification_ref : String
  pub source_revision : String
  pub execution_identity : Fields
  pub allowed_write_paths : List String
  pub expected : String → Option String
  pub current_source_revision_at_apply : String
  pub agent_stdout : String
  pub admission_denied_reason : Option String

-- A result of a chain that ends before the applicator.
abbrev pub stopped :
    ExecutionRequest
    → PatchProposal
    → Option AdmissionReceipt
    → Option PathGateReceipt
    → List Blocker
    → ExecutionError
    → MutationExecutionResult
stopped r proposal admission gate blockers e = record {
  success = false;
  work_contract_id = r.work_contract_id;
  admission_receipt = admission;
  path_gate_receipt = gate;
  apply_receipt = none;
  proposal = proposal;
  validation_blockers = blockers;
  error = some e;
  proposal_parsing_attempted = true;
  mutation_attempted = false;
}

-- A result of a chain that has called the applicator.
abbrev pub attempted :
    ExecutionRequest
    → PatchProposal
    → AdmissionReceipt
    → PathGateReceipt
    → ApplyReceipt
    → MutationExecutionResult
attempted r proposal admission gate receipt =
    let failed = receipt.write_count == 0 in
    record {
      success = not failed;
      work_contract_id = r.work_contract_id;
      admission_receipt = some admission;
      path_gate_receipt = some gate;
      apply_receipt = some receipt;
      proposal = proposal;
      validation_blockers = [];
      error = if failed then some (apply_failed receipt.denied_reason) else none;
      proposal_parsing_attempted = true;
      mutation_attempted = true;
    }

abbrev pub admission_of : ExecutionRequest → AdmissionReceipt
admission_of r =
    admit r.work_contract_id r.red_qualified r.red_qualification_ref r.source_revision
      r.execution_identity r.allowed_write_paths r.admission_denied_reason

abbrev pub gate_of : ExecutionRequest → PatchProposal → PathGateReceipt
gate_of r proposal =
    check proposal r.allowed_write_paths r.source_revision (admission_of r).receipt_id

module _ (digest : Bytes → String) (resolve : String → Option String) where
  -- The last step.
  unfoldable pub apply_step :
      ExecutionRequest
      → Store
      → PatchProposal
      → AdmissionReceipt
      → PathGateReceipt
      → MutationExecutionResult × Store
  apply_step r store proposal admission gate =
      let (receipt, store') =
        apply digest resolve proposal gate admission r.expected r.current_source_revision_at_apply
          true store in
      (attempted r proposal admission gate receipt, store')

  -- The gates, for a proposal without blockers.
  unfoldable pub gate_step :
      ExecutionRequest
      → Store
      → PatchProposal
      → AdmissionReceipt
      → PathGateReceipt
      → MutationExecutionResult × Store
  gate_step r store proposal admission gate =
      if not (is_allow admission.admission_decision)
      then (
        stopped r proposal (some admission) none [] (admission_denied admission.denied_reason),
        store,
      )
      else if not (is_allow gate.gate_decision)
      then (
        stopped r proposal (some admission) (some gate) [] (path_gate_denied gate.reason),
        store,
      )
      else apply_step r store proposal admission gate

  unfoldable pub validated_step :
      ExecutionRequest → Store → PatchProposal → List Blocker → MutationExecutionResult × Store
  validated_step r store proposal [] =
      gate_step r store proposal (admission_of r) (gate_of r proposal)
  validated_step r store proposal (b ∷ bs) =
      (stopped r proposal none none (b ∷ bs) (validation_failed (b ∷ bs)), store)

  unfoldable pub parsed_step :
      ExecutionRequest → Store → PatchProposal → MutationExecutionResult × Store
  parsed_step r store proposal =
      if not (proposal.valid)
      then (stopped r proposal none none [] (proposal_invalid proposal.parse_error), store)
      else validated_step r store proposal (
          validate_mutation_proposal digest resolve proposal store r.allowed_write_paths r.expected)

  unfoldable pub execute : ExecutionRequest → Store → MutationExecutionResult × Store
  execute r store = parsed_step r store (parse_structured digest r.agent_stdout)
