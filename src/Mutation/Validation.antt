-- ===== src/Mutation/Validation.antt =====
-- kernel/mutation_proposal_contract.py: the validation of a proposal before its admission. `resolve`
-- gives the name of the file that a path stands for, or `none` where that is outside the repository's
-- root; `expected` is the map of the digests that the harness has bound to paths.
pub mod Bound
pub mod Passed
use synapx_harness.Prelude.{ℕ, String, str_eq, starts_with, is_member, ◌==◌, length}
use synapx_harness.Prelude.{Bool, true, false, ◌&&◌, ◌||◌, not, if◌then◌else◌}
use synapx_harness.Prelude.{Option, none, some, List, [], ◌∷◌, ◌++◌}
use synapx_harness.Prelude.Results.{Result, ok, err}
use Prim.Native.Char.{Char, code}
use synapx_harness.Mutation.Text.{strip}
use synapx_harness.Mutation.Bytes.{Bytes, encode, count, normalize_line_endings}
use synapx_harness.Mutation.Paths.{PathError, normalize_write_token_path}
use synapx_harness.Mutation.Proposal.{
  PatchHunk, PatchProposal, ParseError, canonical_patch_bytes, first_line,
}
use synapx_harness.Mutation.Files.{Store, read_file}

pub data Blocker : Type 0 where
  proposal_invalid : Option ParseError → Blocker
  no_write_set no_paths duplicate_paths : Blocker
  invalid_path : PathError → Blocker
  outside_write_set not_a_file no_before_hash before_hash_mismatch : String → Blocker
  escapes_root no_hunk empty_old empty_new old_equals_new : String → Blocker
  old_not_once : String → ℕ → Blocker
  no_canonical_sha proposal_hash_mismatch sha_disagreement : Blocker

-- `_normalize_repo_relative`
abbrev pub normalize_repo_relative : String → Result PathError String
normalize_repo_relative raw = normalize_write_token_path (strip raw)

-- `text.replace("\r\n", "\n")`: a carriage return before a line feed is left out.
unfoldable pub lf_text : String → String
lf_text String.[] = ""
lf_text (String.◌∷◌ c s) =
    let rest = lf_text s in if code c == 13 && starts_with s "\n" then rest else String.◌∷◌ c rest

-- `_hunk_for`
unfoldable pub hunk_for : List PatchHunk → String → Option PatchHunk
hunk_for [] path = none
hunk_for (h ∷ hs) path = if str_eq h.file_path path then some h else hunk_for hs path

abbrev pub is_empty : List String → Bool
is_empty [] = true
is_empty (_ ∷ _) = false

-- `len(paths) != len(set(paths))`
unfoldable pub has_repeat : List String → Bool
has_repeat [] = false
has_repeat (p ∷ ps) = is_member p ps || has_repeat ps

-- The blockers on the two texts of a hunk, for the bytes of the file.
unfoldable pub text_blockers : String → String → String → Bytes → List Blocker
text_blockers rel_path old_text new_text normalized =
    if str_eq old_text ""
    then empty_old rel_path ∷ []
    else if str_eq new_text ""
    then empty_new rel_path ∷ []
    else if str_eq old_text new_text
    then old_equals_new rel_path ∷ []
    else if count (encode (lf_text old_text)) normalized == 1
    then []
    else old_not_once rel_path (count (encode (lf_text old_text)) normalized) ∷ []

abbrev pub hunk_blockers : String → Option PatchHunk → Bytes → List Blocker
hunk_blockers rel_path none normalized = no_hunk rel_path ∷ []
hunk_blockers rel_path (some h) normalized =
    text_blockers rel_path (first_line h.old_lines) (first_line h.new_lines) normalized

abbrev pub hash_blockers : String → Option String → String → List Blocker
hash_blockers rel_path none actual = no_before_hash rel_path ∷ []
hash_blockers rel_path (some expected_sha) actual =
    if str_eq actual expected_sha then [] else before_hash_mismatch rel_path ∷ []

module _ (digest : Bytes → String) where
  abbrev pub recomputed : PatchProposal → String
  recomputed p = digest (canonical_patch_bytes p.paths p.old_lines p.new_lines)

  unfoldable pub canonical_blockers : PatchProposal → List Blocker
  canonical_blockers p =
      if str_eq p.canonical_patch_sha256 ""
      then no_canonical_sha ∷ []
      else (if str_eq (recomputed p) p.canonical_patch_sha256
          then []
          else proposal_hash_mismatch ∷ [])
        ++ (if not (str_eq p.sha256 "") && not (str_eq p.sha256 p.canonical_patch_sha256)
            then sha_disagreement ∷ []
            else [])

module _ (digest : Bytes → String) (resolve : String → Option String) where
  -- The blockers of one path, once it is in normal form.
  unfoldable pub target_blockers :
      PatchProposal → Store → (String → Option String) → String → String → List Blocker
  target_blockers proposal store expected raw_path rel_path = elim (resolve rel_path) [
    | none ↦ escapes_root raw_path ∷ []
    | some target ↦ elim (read_file target store) [
      | none ↦ not_a_file rel_path ∷ []
      | some raw_bytes ↦
          let normalized = normalize_line_endings raw_bytes in
          hash_blockers rel_path (expected rel_path) (digest normalized)
          ++ hunk_blockers rel_path (hunk_for proposal.hunks raw_path) normalized
    ]
  ]

  unfoldable pub path_blockers :
      PatchProposal → Store → List String → (String → Option String) → String → List Blocker
  path_blockers proposal store allowed expected raw_path = elim (normalize_repo_relative raw_path) [
    | err e ↦ invalid_path e ∷ []
    | ok rel_path ↦
        if not (is_empty allowed) && not (is_member rel_path allowed)
        then outside_write_set rel_path ∷ []
        else target_blockers proposal store expected raw_path rel_path
  ]

  abbrev pub all_path_blockers :
      PatchProposal → Store → List String → (String → Option String) → List String → List Blocker
  all_path_blockers proposal store allowed expected [] = []
  all_path_blockers proposal store allowed expected (p ∷ ps) =
      path_blockers proposal store allowed expected p
      ++ all_path_blockers proposal store allowed expected ps

  unfoldable pub validate_mutation_proposal :
      PatchProposal → Store → List String → (String → Option String) → List Blocker
  validate_mutation_proposal proposal store allowed expected =
      if not (proposal.valid)
      then proposal_invalid proposal.parse_error ∷ []
      else (if is_empty allowed then no_write_set ∷ [] else [])
        ++ (if is_empty proposal.paths
            then no_paths ∷ []
            else (if has_repeat proposal.paths then duplicate_paths ∷ [] else [])
              ++ (all_path_blockers proposal store allowed expected proposal.paths
                  ++ canonical_blockers digest proposal))
