-- ===== src/Mutation/Execute/Outcomes.antt =====
-- The outcomes of the chain: it stops before the applicator, or it reaches it with everything granted.
use synapx_harness.Prelude.{
  String, Bool, true, false, not, if◌then◌else◌, Option, none, some, List, [], ◌∷◌, ◌==◌, ◌≡◌, refl,
  sym, ◌∙◌, ap, ◌⊎◌, inl, inr,
}
use mathlib.Core.Path.{subst}
use synapx_harness.Mutation.Bytes.{Bytes}
use synapx_harness.Mutation.Proposal.{PatchProposal, parse_structured}
use synapx_harness.Mutation.Files.{Store, write_file}
use synapx_harness.Mutation.Validation.{Blocker, validate_mutation_proposal}
use synapx_harness.Mutation.Gates.{AdmissionReceipt, PathGateReceipt, Decision, allow, deny}
use synapx_harness.Mutation.Apply.{Plan, written_receipt}
use synapx_harness.Mutation.Apply.Written.{IsPlan, apply-all_or_nothing}
use synapx_harness.Mutation.Execute.{
  MutationExecutionResult, ExecutionRequest, stopped, admission_of, gate_of, apply_step, gate_step,
  validated_step, parsed_step, execute, proposal_invalid,
}

module _ (digest : Bytes → String) (resolve : String → Option String) where
  abbrev pub parsed_proposal : ExecutionRequest → PatchProposal
  parsed_proposal r = parse_structured digest r.agent_stdout

  abbrev pub blockers_of : ExecutionRequest → Store → List Blocker
  blockers_of r store =
      validate_mutation_proposal digest resolve (parsed_proposal r) store r.allowed_write_paths
        r.expected

  -- The chain has ended before the applicator: no success, no attempt, no receipt of a write and no
  -- change.
  abbrev pub Stopped : Store → MutationExecutionResult × Store → Type 0
  Stopped store (result, store') =
      (result.success ≡ false)
      × (result.mutation_attempted ≡ false)
      × (result.apply_receipt ≡ none)
      × (store' ≡ store)

  -- The chain has reached the applicator: a valid proposal without blockers and two gates that allow.
  abbrev pub Granted : ExecutionRequest → Store → Type 0
  Granted r store =
      ((parsed_proposal r).valid ≡ true)
      × (blockers_of r store ≡ [])
      × ((admission_of r).admission_decision ≡ allow)
      × ((gate_of r (parsed_proposal r)).gate_decision ≡ allow)

  abbrev pub applied : ExecutionRequest → Store → MutationExecutionResult × Store
  applied r store =
      apply_step digest resolve r store (parsed_proposal r) (admission_of r)
        (gate_of r (parsed_proposal r))

  gate_step-allowed :
      (r : ExecutionRequest) (store : Store) (proposal : PatchProposal)
      (admission : AdmissionReceipt) (gate : PathGateReceipt)
      → admission.admission_decision ≡ allow
      → gate.gate_decision ≡ allow
      → gate_step digest resolve r store proposal admission gate
        ≡ apply_step digest resolve r store proposal admission gate
  unfolding gate_step
  gate_step-allowed r store proposal admission gate e f = rw (e, f) refl

  gate_step-outcome :
      (r : ExecutionRequest) (store : Store) (proposal : PatchProposal)
      (admission : AdmissionReceipt) (gate : PathGateReceipt) (a g : Decision)
      → admission.admission_decision ≡ a
      → gate.gate_decision ≡ g
      → Stopped store (gate_step digest resolve r store proposal admission gate)
        ⊎ ((admission.admission_decision ≡ allow)
            × (gate.gate_decision ≡ allow)
            × (gate_step digest resolve r store proposal admission gate
                ≡ apply_step digest resolve r store proposal admission gate))
  unfolding gate_step
  gate_step-outcome r store proposal admission gate deny g e f = inl (rw e (refl, refl, refl, refl))
  gate_step-outcome r store proposal admission gate allow deny e f =
      inl (rw (e, f) (refl, refl, refl, refl))
  gate_step-outcome r store proposal admission gate allow allow e f =
      inr (e, f, gate_step-allowed r store proposal admission gate e f)

  validated_step-outcome :
      (r : ExecutionRequest) (store : Store) (proposal : PatchProposal) (blockers : List Blocker)
      → Stopped store (validated_step digest resolve r store proposal blockers)
        ⊎ ((blockers ≡ [])
            × ((admission_of r).admission_decision ≡ allow)
            × ((gate_of r proposal).gate_decision ≡ allow)
            × (validated_step digest resolve r store proposal blockers
                ≡ apply_step digest resolve r store proposal (admission_of r) (gate_of r proposal)))
  unfolding validated_step
  validated_step-outcome r store proposal [] =
      elim (gate_step-outcome r store proposal (admission_of r) (gate_of r proposal) _ _ refl
        refl) [ inl h ↦ inl h | inr (a, g, same) ↦ inr (refl, a, g, same) ]
  validated_step-outcome r store proposal (b ∷ bs) = inl (refl, refl, refl, refl)

  -- Every run of the executor stops before the applicator, with nothing changed, or is granted all
  -- along the chain and ends with what the applicator does.
  pub execute-outcome :
      (r : ExecutionRequest) (store : Store)
      → Stopped store (execute digest resolve r store)
        ⊎ (Granted r store × (execute digest resolve r store ≡ applied r store))
  unfolding execute parsed_step
  execute-outcome r store = decided ((parsed_proposal r).valid) refl
    where
      refused : MutationExecutionResult × Store
      refused = (
        stopped r (parsed_proposal r) none none []
            (proposal_invalid (parsed_proposal r).parse_error),
        store,
      )

      decided :
          (b : Bool)
          → (parsed_proposal r).valid ≡ b
          → Stopped store (
              if not b
              then refused
              else validated_step digest resolve r store (parsed_proposal r) (blockers_of r store))
            ⊎ (Granted r store
                × ((if not b
                      then refused
                      else validated_step digest resolve r store
                          (parsed_proposal r)
                          (blockers_of r store))
                    ≡ applied r store))
      decided false e = inl (refl, refl, refl, refl)
      decided true e =
          elim (validated_step-outcome r store (parsed_proposal r) (blockers_of r store)) [
            | inl h ↦ inl h
            | inr (none_left, a, g, same) ↦ inr ((e, none_left, a, g), same)
          ]

  -- With everything granted the run is what the applicator does.
  pub Granted-applied :
      (r : ExecutionRequest) (store : Store)
      → Granted r store
      → execute digest resolve r store ≡ applied r store
  unfolding execute parsed_step validated_step
  Granted-applied r store (valid, none_left, a, g) =
      ap
        (λ b.
          if not b
          then (
            stopped r (parsed_proposal r) none none []
                (proposal_invalid (parsed_proposal r).parse_error),
            store,
          )
          else validated_step digest resolve r store (parsed_proposal r) (blockers_of r store))
        valid
      ∙ (ap (validated_step digest resolve r store (parsed_proposal r)) none_left
          ∙ gate_step-allowed r store (parsed_proposal r) (admission_of r)
              (gate_of r (parsed_proposal r)) a g)

  -- What a run that succeeds has done: the receipt and the store of the plan `p`.
  abbrev pub PlanOf : ExecutionRequest → Store → Plan → Type 0
  PlanOf r store p =
      IsPlan digest resolve (parsed_proposal r) (gate_of r (parsed_proposal r)) (admission_of r)
        r.expected r.current_source_revision_at_apply true store p

  abbrev pub Wrote : ExecutionRequest → Store → Plan → MutationExecutionResult × Store → Type 0
  Wrote r store p (result, store') =
      PlanOf r store p
      × (result.apply_receipt
          ≡ some (
              written_receipt digest (parsed_proposal r) (gate_of r (parsed_proposal r))
                (admission_of r) p))
      × (store' ≡ write_file p.target p.after_bytes store)

  abbrev Ends : ExecutionRequest → Store → MutationExecutionResult × Store → Type 0
  Ends r store out =
      ((out.0.success ≡ false) × (out.1 ≡ store))
      ⊎ ((out.0.success ≡ true) × ((p : Plan) × Wrote r store p out))

  applied-Ends : (r : ExecutionRequest) (store : Store) → Ends r store (applied r store)
  unfolding apply_step
  applied-Ends r store =
      elim (apply-all_or_nothing digest resolve (parsed_proposal r) (gate_of r (parsed_proposal r))
        (admission_of r) r.expected r.current_source_revision_at_apply true store) [
          | inl (denial, empty, same) ↦ inl (ap (λ a. not (a.write_count == 0)) empty, same)
          | inr (p, is_plan, (receipt, store')) ↦
              inr (
                ap (λ a. not (a.write_count == 0)) receipt,
                (p, (is_plan, ap some receipt, store')),
              )
        ]

  execute-Ends :
      (r : ExecutionRequest) (store : Store) → Ends r store (execute digest resolve r store)
  execute-Ends r store = elim (execute-outcome r store) [
    | inl (failed, _, _, same) ↦ inl (failed, same)
    | inr (granted, same) ↦ subst (Ends r store) (sym same) (applied-Ends r store)
  ]

  -- A run that does not succeed leaves every file as it is.
  pub execute-unchanged :
      (r : ExecutionRequest) (store : Store)
      → (execute digest resolve r store).0.success ≡ false
      → (execute digest resolve r store).1 ≡ store
  execute-unchanged r store failed = elim (execute-Ends r store) [
    | inl (_, same) ↦ same
    | inr (done, _) ↦ cc
  ]

  -- A run that succeeds has a valid proposal without blockers, a RED gate and a path gate that allow,
  -- and a plan of the applicator all of whose tests have passed; the store is the one with the
  -- plan's bytes at its target, and the result carries the receipt of that one write.
  pub execute-Granted :
      (r : ExecutionRequest) (store : Store)
      → (execute digest resolve r store).0.success ≡ true
      → Granted r store × ((p : Plan) × Wrote r store p (execute digest resolve r store))
  execute-Granted r store done = (granted, wrote)
    where
      granted : Granted r store
      granted = elim (execute-outcome r store) [ inl (failed, _, _, _) ↦ cc | inr (g, _) ↦ g ]

      wrote : (p : Plan) × Wrote r store p (execute digest resolve r store)
      wrote = elim (execute-Ends r store) [ inl (failed, _) ↦ cc | inr (_, w) ↦ w ]
