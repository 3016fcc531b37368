-- ===== src/Mutation/Execute/Proper.antt =====
-- A request that asks for one change of one file as the contract demands it, and that every test of the
-- chain lets it through.
use synapx_harness.Prelude.{
  String, str_eq, is_member, Bool, true, false, ◌&&◌, not, if◌then◌else◌, Option, none, some, List,
  [], ◌∷◌, ◌++◌, ◌≡◌, refl, sym, ap, eq_iff, eq_refl,
}
use mathlib.Core.Path.{subst}
use synapx_harness.Prelude.Results.{ok}
use synapx_harness.Mutation.Bytes.{
  Bytes, encode, same_bytes, count, replace, normalize_line_endings,
}
use synapx_harness.Mutation.Bytes.Encoding.{encode-differ, encode-nonempty}
use synapx_harness.Mutation.Proposal.{
  PatchProposal, ParseError, PatchHunk, hunk, decode, parse_structured, canonical_patch_bytes,
}
use synapx_harness.Mutation.Files.{Store, read_file}
use synapx_harness.Mutation.Validation.{
  normalize_repo_relative, lf_text, validate_mutation_proposal, path_blockers, target_blockers,
  text_blockers, hunk_for, canonical_blockers, has_repeat, is_empty, no_canonical_sha,
  proposal_hash_mismatch, sha_disagreement,
}
use synapx_harness.Mutation.Gates.{allow, admit, check, has_reason, unauthorized}
use synapx_harness.Mutation.Apply.{plan, authorized_path, replaced, line_endings}
use synapx_harness.Mutation.Execute.{ExecutionRequest, admission_of, gate_of}
use synapx_harness.Mutation.Execute.Outcomes.{parsed_proposal, Granted}

and_false : (b : Bool) → b && false ≡ false
and_false true = refl
and_false false = refl

member-nonempty : (p : String) (ps : List String) → is_member p ps ≡ true → is_empty ps ≡ false
member-nonempty p [] h = cc
member-nonempty p (q ∷ ps) h = refl

module _ (digest : Bytes → String) (resolve : String → Option String) where
  -- A request that asks for one change of one file, as the contract demands it.
  abbrev pub IsProper :
      ExecutionRequest → Store → String → String → String → String → Bytes → Type 0
  IsProper r store path old_text new_text target raw_bytes =
      (decode r.agent_stdout ≡ ok (hunk path old_text new_text ∷ []))
      × (str_eq old_text "" ≡ false)
      × (str_eq new_text "" ≡ false)
      × (same_bytes (encode old_text) (encode new_text) ≡ false)
      × (normalize_repo_relative path ≡ ok path)
      × (is_member path r.allowed_write_paths ≡ true)
      × (resolve path ≡ some target)
      × (read_file target store ≡ some raw_bytes)
      × (r.expected path ≡ some (digest (normalize_line_endings raw_bytes)))
      × (lf_text old_text ≡ old_text)
      × (count (encode old_text) (normalize_line_endings raw_bytes) ≡ 1)
      × (r.red_qualified ≡ true)
      × (has_reason r.admission_denied_reason ≡ false)
      × (r.source_revision ≡ r.current_source_revision_at_apply)

  abbrev pub one_hunk : ExecutionRequest → String → String → String → PatchProposal
  one_hunk r path old_text new_text = record {
    valid = true;
    paths = path ∷ [];
    hunks = hunk path old_text new_text ∷ [];
    old_lines = old_text ∷ [];
    new_lines = new_text ∷ [];
    sha256 = digest (canonical_patch_bytes (path ∷ []) (old_text ∷ []) (new_text ∷ []));
    raw_input_sha256 = digest (encode r.agent_stdout);
    canonical_patch_sha256 =
        digest (canonical_patch_bytes (path ∷ []) (old_text ∷ []) (new_text ∷ []));
    parse_error = none;
  }

  pub proper-proposal :
      (r : ExecutionRequest) (path old_text new_text : String)
      → decode r.agent_stdout ≡ ok (hunk path old_text new_text ∷ [])
      → parsed_proposal digest resolve r ≡ one_hunk r path old_text new_text
  unfolding parse_structured synapx_harness.Mutation.Proposal.proposal_of
  proper-proposal r path old_text new_text h =
      ap (synapx_harness.Mutation.Proposal.proposal_of digest r.agent_stdout) h

  -- The blockers of the only path.
  proper-path :
      (r : ExecutionRequest) (store : Store) (path old_text new_text target : String)
      (raw_bytes : Bytes)
      → IsProper r store path old_text new_text target raw_bytes
      → path_blockers digest resolve
          (one_hunk r path old_text new_text)
          store
          r.allowed_write_paths
          r.expected
          path
        ≡ []
  unfolding path_blockers target_blockers text_blockers hunk_for
  proper-path r store path old_text new_text target raw_bytes
        (_, has_old, has_new, differ, normal, member, inside, read, bound, lf, one, _, _, _) =
      rw
        (
          normal,
          member,
          and_false (not (is_empty r.allowed_write_paths)),
          inside,
          read,
          bound,
          eq_refl (digest (normalize_line_endings raw_bytes)),
          eq_refl path,
          has_old,
          has_new,
          encode-differ old_text new_text differ,
          lf,
          one,
          path_blockers,
          target_blockers,
        )
        refl

  -- A digest that is not empty is the canonical one of the proposal.
  proper-canonical :
      (r : ExecutionRequest) (path old_text new_text : String)
      → ((b : Bytes) → str_eq (digest b) "" ≡ false)
      → canonical_blockers digest (one_hunk r path old_text new_text) ≡ []
  unfolding canonical_blockers
  proper-canonical r path old_text new_text nonempty =
      agreed
        (str_eq (digest (canonical_patch_bytes (path ∷ []) (old_text ∷ []) (new_text ∷ []))) "")
        (str_eq (digest (canonical_patch_bytes (path ∷ []) (old_text ∷ []) (new_text ∷ [])))
          (digest (canonical_patch_bytes (path ∷ []) (old_text ∷ []) (new_text ∷ []))))
        (nonempty (canonical_patch_bytes (path ∷ []) (old_text ∷ []) (new_text ∷ [])))
        (eq_refl (digest (canonical_patch_bytes (path ∷ []) (old_text ∷ []) (new_text ∷ []))))
    where
      agreed :
          (e same : Bool)
          → e ≡ false
          → same ≡ true
          → (if e
              then no_canonical_sha ∷ []
              else (if same then [] else proposal_hash_mismatch ∷ [])
                ++ (if not e && not same then sha_disagreement ∷ [] else []))
            ≡ []
      agreed true same he hs = cc
      agreed false true he hs = refl
      agreed false false he hs = cc

  proper-blockers :
      (r : ExecutionRequest) (store : Store) (path old_text new_text target : String)
      (raw_bytes : Bytes)
      → ((b : Bytes) → str_eq (digest b) "" ≡ false)
      → IsProper r store path old_text new_text target raw_bytes
      → validate_mutation_proposal digest resolve
          (one_hunk r path old_text new_text)
          store
          r.allowed_write_paths
          r.expected
        ≡ []
  unfolding validate_mutation_proposal has_repeat
  proper-blockers r store path old_text new_text target raw_bytes nonempty proper =
      rw
        (
          member-nonempty path r.allowed_write_paths (proper.5),
          proper-path r store path old_text new_text target raw_bytes proper,
          proper-canonical r path old_text new_text nonempty,
        )
        refl

  pub proper-Granted :
      (r : ExecutionRequest) (store : Store) (path old_text new_text target : String)
      (raw_bytes : Bytes)
      → ((b : Bytes) → str_eq (digest b) "" ≡ false)
      → IsProper r store path old_text new_text target raw_bytes
      → Granted digest resolve r store
  unfolding admit check unauthorized
  proper-Granted r store path old_text new_text target raw_bytes nonempty proper =
      subst
        (λ p.
          (p.valid ≡ true)
          × (validate_mutation_proposal digest resolve p store r.allowed_write_paths r.expected
              ≡ [])
          × ((admission_of r).admission_decision ≡ allow)
          × ((gate_of r p).gate_decision ≡ allow))
        (sym (proper-proposal r path old_text new_text (proper.0)))
        (
          refl,
          proper-blockers r store path old_text new_text target raw_bytes nonempty proper,
          rw (proper.11, proper.12) refl,
          rw (proper.5) refl,
        )

  pub proper-plan :
      (r : ExecutionRequest) (store : Store) (path old_text new_text target : String)
      (raw_bytes : Bytes)
      → IsProper r store path old_text new_text target raw_bytes
      → plan digest resolve
          (one_hunk r path old_text new_text)
          (gate_of r (one_hunk r path old_text new_text))
          (admission_of r)
          r.expected
          r.current_source_revision_at_apply
          true
          store
        ≡ ok (record {
          path = path;
          target = target;
          before_sha = digest (normalize_line_endings raw_bytes);
          after_bytes =
              normalize_line_endings
                (replace (encode old_text) (encode new_text) (normalize_line_endings raw_bytes));
        })
  unfolding plan authorized_path replaced line_endings admit check unauthorized
  proper-plan r store path old_text new_text target raw_bytes
        (
          _, has_old, has_new, differ, normal, member, inside, read, bound, lf, one, red, reason,
          revision,
        ) =
      rw
        (
          red,
          reason,
          member,
          plan,
          authorized_path,
          eq_refl (digest (canonical_patch_bytes (path ∷ []) (old_text ∷ []) (new_text ∷ []))),
          eq_refl (r.source_revision),
          (eq_iff (r.source_revision) (r.current_source_revision_at_apply)).1 revision,
          inside,
          read,
          bound,
          eq_refl (digest (normalize_line_endings raw_bytes)),
          encode-nonempty old_text has_old,
          encode-nonempty new_text has_new,
          differ,
          one,
        )
        refl
