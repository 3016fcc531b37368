-- ===== src/Mutation/Execute/Frame.antt =====
-- What a run of the executor can change, and what its result says of it.
use synapx_harness.Prelude.{
  String, str_eq, true, false, Option, some, [], ◌∷◌, ◌≡◌, ◌∙◌, ap, ◌⊎◌, inl, inr, ◌↔◌, Bool-cases,
}
use synapx_harness.Mutation.Bytes.{Bytes}
use synapx_harness.Mutation.Files.{Store, write_file, read_file, read_file-other, read_file-written}
use synapx_harness.Mutation.Apply.{Plan}
use synapx_harness.Mutation.Execute.{ExecutionRequest, execute, apply_step}
use synapx_harness.Mutation.Execute.Outcomes.{
  parsed_proposal, Granted, PlanOf, execute-outcome, execute-unchanged, execute-Granted,
  Granted-applied,
}

module _ (digest : Bytes → String) (resolve : String → Option String) where
  -- One file of the store has new bytes, the one that the only path of the proposal stands for.
  abbrev pub OneFileChanged : ExecutionRequest → Store → Store → Type 0
  OneFileChanged r store store' =
      (path target : String) × (old new : Bytes) × ((parsed_proposal digest resolve r).paths
        ≡ path ∷ [])
      × (resolve path ≡ some target)
      × (read_file target store ≡ some old)
      × (read_file target store' ≡ some new)
      × ((name : String)
          → str_eq target name ≡ false
          → read_file name store' ≡ read_file name store)

  -- A run changes at most one file: whatever its outcome, the store is the old one, or the only path
  -- of the proposal stands for a file of the old one that now has new bytes, and every other file
  -- reads as before.
  pub execute-OneFileChanged :
      (r : ExecutionRequest) (store : Store)
      → ((execute digest resolve r store).1 ≡ store)
        ⊎ OneFileChanged r store ((execute digest resolve r store).1)
  execute-OneFileChanged r store = elim (Bool-cases ((execute digest resolve r store).0.success)) [
    | inr failed ↦ inl (execute-unchanged digest resolve r store failed)
    | inl done ↦
        let (_, (p, wrote)) = execute-Granted digest resolve r store done in
        inr (changed p ((execute digest resolve r store).1) (wrote.0) (wrote.2))
  ]
    where
      changed :
          (p : Plan) (store' : Store)
          → PlanOf digest resolve r store p
          → store' ≡ write_file p.target p.after_bytes store
          → OneFileChanged r store store'
      changed p store' (old, _, _, _, _, authorized, inside, here, _, _, _, _, _) e = (
        p.path,
        p.target,
        old,
        p.after_bytes,
        authorized.3,
        inside,
        here,
        ap (read_file p.target) e ∙ read_file-written p.target old p.after_bytes store here,
        λ name other.
            ap (read_file name) e ∙ read_file-other p.target name p.after_bytes store other,
      )

  -- The result tells the truth about the attempt: `mutation_attempted` holds exactly where the
  -- proposal is valid and without blockers and both gates allow.
  execute-attempted :
      (r : ExecutionRequest) (store : Store)
      → ((execute digest resolve r store).0.mutation_attempted ≡ true)
        ↔ Granted digest resolve r store
  unfolding apply_step
  execute-attempted r store = (
    λ yes. elim (execute-outcome digest resolve r store) [
      | inl (_, unattempted, _, _) ↦ cc
      | inr (granted, _) ↦ granted
    ],
    λ granted.
        ap (λ out. out.0.mutation_attempted) (Granted-applied digest resolve r store granted),
  )
