-- ===== src/Mutation/Execute/Success.antt =====
-- That the chain goes through where all it asks for holds.
use synapx_harness.Prelude.{String, str_eq, true, false, not, Option, ◌==◌, ◌≡◌, ◌∙◌, ap}
use synapx_harness.Prelude.Results.{Result, ok}
use synapx_harness.Mutation.Bytes.{Bytes, encode, replace, normalize_line_endings}
use synapx_harness.Mutation.Proposal.{PatchProposal}
use synapx_harness.Mutation.Files.{Store, write_file}
use synapx_harness.Mutation.Apply.{plan, carry_out, apply, Denial, Plan, ApplyReceipt}
use synapx_harness.Mutation.Execute.{ExecutionRequest, execute, apply_step, admission_of, gate_of}
use synapx_harness.Mutation.Execute.Outcomes.{Granted-applied}
use synapx_harness.Mutation.Execute.Proper.{
  IsProper, one_hunk, proper-Granted, proper-plan, proper-proposal,
}

module _ (digest : Bytes → String) (resolve : String → Option String) where
  -- A proper request always goes through: where the agent's text decodes to one hunk for a path in
  -- normal form that is allowed and stands for a file, whose bytes have the bound digest and hold the
  -- OLD text once, RED is qualified without a reason to deny and the source revision is the current
  -- one, the run succeeds and the file holds the NEW text in the OLD text's place, in normal line
  -- endings. No digest is the empty text.
  pub execute-success :
      (r : ExecutionRequest) (store : Store) (path old_text new_text target : String)
      (raw_bytes : Bytes)
      → ((b : Bytes) → str_eq (digest b) "" ≡ false)
      → IsProper digest resolve r store path old_text new_text target raw_bytes
      → ((execute digest resolve r store).0.success ≡ true)
        × ((execute digest resolve r store).1
            ≡ write_file target
                (normalize_line_endings
                  (replace (encode old_text) (encode new_text) (normalize_line_endings raw_bytes)))
                store)
  unfolding apply_step apply carry_out
  execute-success r store path old_text new_text target raw_bytes nonempty proper = (
    ap (λ out. out.0.success) run ∙ ap (λ m. not ((carried m).0.write_count == 0)) planned,
    ap (λ out. out.1) run ∙ ap (λ m. (carried m).1) planned,
  )
    where
      the_proposal : PatchProposal
      the_proposal = one_hunk digest resolve r path old_text new_text

      carried : Result Denial Plan → ApplyReceipt × Store
      carried m = carry_out digest the_proposal (gate_of r the_proposal) (admission_of r) store m

      planned :
          plan digest resolve the_proposal
            (gate_of r the_proposal)
            (admission_of r)
            r.expected
            r.current_source_revision_at_apply
            true
            store
          ≡ ok (record {
            path = path;
            target = target;
            before_sha = digest (normalize_line_endings raw_bytes);
            after_bytes =
                normalize_line_endings
                  (replace (encode old_text) (encode new_text) (normalize_line_endings raw_bytes));
          })
      planned = proper-plan digest resolve r store path old_text new_text target raw_bytes proper

      run :
          execute digest resolve r store
          ≡ apply_step digest resolve r store the_proposal (admission_of r) (gate_of r the_proposal)
      run =
          Granted-applied digest resolve r store (
            proper-Granted digest resolve r store path old_text new_text target raw_bytes nonempty
              proper)
          ∙ ap (λ p. apply_step digest resolve r store p (admission_of r) (gate_of r p))
              (proper-proposal digest resolve r path old_text new_text (proper.0))
