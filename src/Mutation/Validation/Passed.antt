-- ===== src/Mutation/Validation/Passed.antt =====
-- What the validation of a proposal has tested where it finds no blocker.
use synapx_harness.Prelude.{
  String, str_eq, is_member, Bool, true, false, ◌&&◌, not, if◌then◌else◌, Option, List, [], ◌∷◌,
  ◌++◌, All, ◌≡◌, refl, eq_iff,
}
use synapx_harness.Prelude.Results.{Result, ok, err}
use synapx_harness.Mutation.Bytes.{Bytes}
use synapx_harness.Mutation.Paths.{PathError}
use synapx_harness.Mutation.Proposal.{PatchProposal}
use synapx_harness.Mutation.Files.{Store}
use synapx_harness.Mutation.Validation.{
  Blocker, normalize_repo_relative, is_empty, has_repeat, target_blockers, path_blockers,
  all_path_blockers, canonical_blockers, validate_mutation_proposal, invalid_path,
  outside_write_set, recomputed, proposal_invalid, no_write_set, no_paths, duplicate_paths,
  no_canonical_sha, proposal_hash_mismatch, sha_disagreement,
}
use synapx_harness.Mutation.Validation.Bound.{
  both_empty, unless-empty, TargetBound, target_blockers-TargetBound,
}

allowed-path :
    (a m : Bool) (e : Blocker) (bs : List Blocker)
    → a ≡ false
    → (if not a && not m then e ∷ [] else bs) ≡ []
    → (m ≡ true) × (bs ≡ [])
allowed-path true m e bs f h = cc
allowed-path false true e bs f h = (refl, h)
allowed-path false false e bs f h = cc

canonical-passed :
    (b c d : Bool)
    → (if b
        then no_canonical_sha ∷ []
        else (if c then [] else proposal_hash_mismatch ∷ [])
          ++ (if d then sha_disagreement ∷ [] else []))
      ≡ []
    → (b ≡ false) × (c ≡ true)
canonical-passed true c d h = cc
canonical-passed false true d h = (refl, refl)
canonical-passed false false d h = cc

-- The digest of a proposal is that of its canonical bytes.
canonical_blockers-digest :
    (digest : Bytes → String) (p : PatchProposal)
    → canonical_blockers digest p ≡ []
    → recomputed digest p ≡ p.canonical_patch_sha256
unfolding canonical_blockers
canonical_blockers-digest digest p h = (eq_iff (recomputed digest p) p.canonical_patch_sha256).0 (
    (canonical-passed (str_eq p.canonical_patch_sha256 "")
      (str_eq (recomputed digest p) p.canonical_patch_sha256)
      (not (str_eq p.sha256 "") && not (str_eq p.sha256 p.canonical_patch_sha256)) h).1)

module _ (digest : Bytes → String) (resolve : String → Option String) where
  -- A path with a normal form that is allowed, bound as the normal form is.
  abbrev pub PathBound :
      PatchProposal → Store → List String → (String → Option String) → String → Type 0
  PathBound proposal store allowed expected raw_path =
      (rel_path : String) × (normalize_repo_relative raw_path ≡ ok rel_path)
      × (is_member rel_path allowed ≡ true)
      × TargetBound digest resolve proposal store expected raw_path rel_path

  path_blockers-PathBound :
      (proposal : PatchProposal) (store : Store) (allowed : List String)
      (expected : String → Option String) (raw_path : String)
      → is_empty allowed ≡ false
      → path_blockers digest resolve proposal store allowed expected raw_path ≡ []
      → PathBound proposal store allowed expected raw_path
  unfolding path_blockers
  path_blockers-PathBound proposal store allowed expected raw_path some_path h =
      normalized (normalize_repo_relative raw_path) refl h
    where
      normalized :
          (n : Result PathError String)
          → normalize_repo_relative raw_path ≡ n
          → (elim n [
            | err e ↦ invalid_path e ∷ []
            | ok rel_path ↦
                if not (is_empty allowed) && not (is_member rel_path allowed)
                then outside_write_set rel_path ∷ []
                else target_blockers digest resolve proposal store expected raw_path rel_path
          ])
            ≡ []
          → PathBound proposal store allowed expected raw_path
      normalized (err e) f q = cc
      normalized (ok rel_path) f q =
          let (member, rest) =
            allowed-path (is_empty allowed) (is_member rel_path allowed)
              (outside_write_set rel_path) _ some_path q in
          (
            rel_path,
            f,
            member,
            target_blockers-TargetBound digest resolve proposal store expected raw_path rel_path
                rest,
          )

  all_path_blockers-PathBound :
      (proposal : PatchProposal) (store : Store) (allowed : List String)
      (expected : String → Option String) (paths : List String)
      → is_empty allowed ≡ false
      → all_path_blockers digest resolve proposal store allowed expected paths ≡ []
      → All (PathBound proposal store allowed expected) paths
  all_path_blockers-PathBound proposal store allowed expected [] some_path h = tt
  all_path_blockers-PathBound proposal store allowed expected (p ∷ ps) some_path h =
      let (first, rest) =
        both_empty (path_blockers digest resolve proposal store allowed expected p) _ h in
      (
        path_blockers-PathBound proposal store allowed expected p some_path first,
        all_path_blockers-PathBound proposal store allowed expected ps some_path rest,
      )

  -- A proposal without blockers is valid, names at least one path and none twice, its canonical digest
  -- is the digest of its canonical bytes, and each of its paths has an allowed normal form that
  -- stands for a file inside the root whose bytes have the digest that the harness has bound to it
  -- and hold the path's OLD text exactly once.
  pub validate_mutation_proposal-PathBound :
      (proposal : PatchProposal) (store : Store) (allowed : List String)
      (expected : String → Option String)
      → validate_mutation_proposal digest resolve proposal store allowed expected ≡ []
      → (proposal.valid ≡ true)
        × (is_empty proposal.paths ≡ false)
        × (has_repeat proposal.paths ≡ false)
        × (recomputed digest proposal ≡ proposal.canonical_patch_sha256)
        × All (PathBound proposal store allowed expected) proposal.paths
  unfolding validate_mutation_proposal
  validate_mutation_proposal-PathBound proposal store allowed expected h =
      tested (proposal.valid) (is_empty allowed) (is_empty proposal.paths) refl refl refl h
    where
      tested :
          (v a e : Bool)
          → proposal.valid ≡ v
          → is_empty allowed ≡ a
          → is_empty proposal.paths ≡ e
          → (if not v
              then proposal_invalid proposal.parse_error ∷ []
              else (if a then no_write_set ∷ [] else [])
                ++ (if e
                    then no_paths ∷ []
                    else (if has_repeat proposal.paths then duplicate_paths ∷ [] else [])
                      ++ (all_path_blockers digest resolve proposal store allowed expected
                            proposal.paths
                          ++ canonical_blockers digest proposal)))
            ≡ []
          → (proposal.valid ≡ true)
            × (is_empty proposal.paths ≡ false)
            × (has_repeat proposal.paths ≡ false)
            × (recomputed digest proposal ≡ proposal.canonical_patch_sha256)
            × All (PathBound proposal store allowed expected) proposal.paths
      tested false a e ev ea ee q = cc
      tested true true e ev ea ee q = cc
      tested true false true ev ea ee q = cc
      tested true false false ev ea ee q =
          let (repeat, q₁) =
            both_empty (if has_repeat proposal.paths then duplicate_paths ∷ [] else []) _ q in
          let (paths, canonical) =
            both_empty
              (all_path_blockers digest resolve proposal store allowed expected proposal.paths) _
              q₁ in
          (
            ev,
            ee,
            unless-empty (has_repeat proposal.paths) duplicate_paths repeat,
            canonical_blockers-digest digest proposal canonical,
            all_path_blockers-PathBound proposal store allowed expected proposal.paths ea paths,
          )
