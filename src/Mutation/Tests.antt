-- ===== src/Mutation/Tests.antt =====
-- The theorems on the executor and the decoder at a sample request.
use synapx_harness.Prelude.{
  ◌≡◌, refl, true, false, List, [], ◌∷◌, ◌⊎◌, inl, inr, Bool-cases, All, map, String, String,
}
use synapx_harness.Prelude.Results.{ok}
use synapx_harness.Mutation.Text.{strip, splitlines}
use synapx_harness.Mutation.Bytes.{
  encode, utf8, count, count_from, replace, replace_from, normalize_line_endings,
}
use synapx_harness.Mutation.Paths.{normalize_write_token_path}
use synapx_harness.Mutation.Proposal.{
  decode, hunk, frame, decode_lines, decode_stripped, add_line, open_file, close_hunk, begin_old,
  end_old, begin_new, end_new, finish, checked_hunk, has_none, file_path_of,
}
use synapx_harness.Mutation.Proposal.Decoded.{IsHunk, NoRepeat}
use synapx_harness.Mutation.Proposal.Accepted.{decode-IsHunk}
use synapx_harness.Mutation.Proposal.Rendered.{Section, section_hunk}
use synapx_harness.Mutation.Proposal.Rendered.RoundTrip.{decode-render}
use synapx_harness.Mutation.Files.{read_file, write_file}
use synapx_harness.Mutation.Validation.{lf_text, is_empty, has_repeat, recomputed}
use synapx_harness.Mutation.Validation.Passed.{PathBound, validate_mutation_proposal-PathBound}
use synapx_harness.Mutation.Apply.{Plan}
use synapx_harness.Mutation.Gates.{admit, allow, deny}
use synapx_harness.Mutation.Execute.{execute}
use synapx_harness.Mutation.Execute.Outcomes.{
  parsed_proposal, Granted, Wrote, execute-Granted, execute-unchanged,
}
use synapx_harness.Mutation.Execute.Frame.{OneFileChanged, execute-OneFileChanged}
use synapx_harness.Mutation.Execute.Proper.{IsProper}
use synapx_harness.Mutation.Execute.Success.{execute-success}
use synapx_harness.Mutation.Samples.{
  digest, digest-nonempty, resolve, expected, store, request, stdout, unqualified, old_bytes,
}

decoded : decode stdout ≡ ok (hunk "a.py" "x = 1" "x = 22" ∷ [])
unfolding decode frame strip decode_lines splitlines decode_stripped add_line open_file close_hunk
    begin_old end_old begin_new end_new finish checked_hunk
decoded = refl

proper : IsProper digest resolve request store "a.py" "x = 1" "x = 22" "/r/a.py" old_bytes
unfolding encode utf8 count count_from normalize_line_endings replace replace_from lf_text read_file
    normalize_write_token_path strip
proper = (decoded, refl, refl, refl, refl, refl, refl, refl, refl, refl, refl, refl, refl, refl)

execute-success_example :
    ((execute digest resolve request store).0.success ≡ true)
    × ((execute digest resolve request store).1
        ≡ write_file "/r/a.py"
            (normalize_line_endings
              (replace (encode "x = 1") (encode "x = 22") (normalize_line_endings old_bytes)))
            store)
execute-success_example =
    execute-success digest resolve request store "a.py" "x = 1" "x = 22" "/r/a.py" old_bytes
      digest-nonempty proper

succeeds : (execute digest resolve request store).0.success ≡ true
succeeds = execute-success_example.0

execute-Granted_example :
    Granted digest resolve request store
    × ((p : Plan) × Wrote digest resolve request store p (execute digest resolve request store))
execute-Granted_example = execute-Granted digest resolve request store succeeds

execute-OneFileChanged_example :
    ((execute digest resolve request store).1 ≡ store)
    ⊎ OneFileChanged digest resolve request store ((execute digest resolve request store).1)
execute-OneFileChanged_example = execute-OneFileChanged digest resolve request store

-- Without RED the same request is refused at its admission.
refused : (execute digest resolve unqualified store).0.success ≡ false
unfolding admit
refused = elim (Bool-cases ((execute digest resolve unqualified store).0.success)) [
  | inl done ↦ denied ((execute-Granted digest resolve unqualified store done).0.2)
  | inr failed ↦ failed
]
  where
    denied : deny ≡ allow → (execute digest resolve unqualified store).0.success ≡ false
    denied h = cc

execute-unchanged_example : (execute digest resolve unqualified store).1 ≡ store
execute-unchanged_example = execute-unchanged digest resolve unqualified store refused

decode-IsHunk_example :
    (has_none (hunk "a.py" "x = 1" "x = 22" ∷ []) ≡ false)
    × All IsHunk (hunk "a.py" "x = 1" "x = 22" ∷ [])
    × NoRepeat (map file_path_of (hunk "a.py" "x = 1" "x = 22" ∷ []))
decode-IsHunk_example = decode-IsHunk stdout (hunk "a.py" "x = 1" "x = 22" ∷ []) decoded

-- The proposal of the sample and a second section with two lines, as sections.
abbrev sections : List Section
sections =
    record { path = "a.py"; old_lines = "x = 1" ∷ []; new_lines = "x = 22" ∷ [] }
    ∷ record { path = "b c.py"; old_lines = "  y" ∷ "" ∷ []; new_lines = "FILE" ∷ "z" ∷ [] }
    ∷ []

abbrev two_files : String
two_files =
    "--- BEGIN SYNAPX MUTATION PROPOSAL ---\nFILE: a.py\n<<<< OLD\nx = 1\n>>>> OLD\n<<<< NEW\nx = 22\n>>>> NEW\nFILE: b c.py\n<<<< OLD\n  y\n\n>>>> OLD\n<<<< NEW\nFILE\nz\n>>>> NEW\n--- END SYNAPX MUTATION PROPOSAL ---"

abbrev two_bodies : String
two_bodies =
    "\nFILE: a.py\n<<<< OLD\nx = 1\n>>>> OLD\n<<<< NEW\nx = 22\n>>>> NEW\nFILE: b c.py\n<<<< OLD\n  y\n\n>>>> OLD\n<<<< NEW\nFILE\nz\n>>>> NEW\n"

decode-render_example : decode two_files ≡ ok (map section_hunk sections)
unfolding frame strip splitlines
decode-render_example =
    decode-render two_files two_bodies sections refl refl refl
      (
        (
          refl,
          refl,
          ((refl, refl, refl, refl, refl, refl), tt),
          ((refl, refl, refl, refl, refl, refl), tt),
          refl,
          refl,
          refl,
        ),
        (
          (
            refl,
            refl,
            ((refl, refl, refl, refl, refl, refl), ((refl, refl, refl, refl, refl, refl), tt)),
            ((refl, refl, refl, refl, refl, refl), ((refl, refl, refl, refl, refl, refl), tt)),
            refl,
            refl,
            refl,
          ),
          tt,
        ),
      )
      (refl, (refl, tt))

validate_mutation_proposal-PathBound_example :
    ((parsed_proposal digest resolve request).valid ≡ true)
    × (is_empty ((parsed_proposal digest resolve request).paths) ≡ false)
    × (has_repeat ((parsed_proposal digest resolve request).paths) ≡ false)
    × (recomputed digest (parsed_proposal digest resolve request)
        ≡ (parsed_proposal digest resolve request).canonical_patch_sha256)
    × All
        (PathBound digest resolve
          (parsed_proposal digest resolve request)
          store
          ("a.py" ∷ [])
          expected)
        ((parsed_proposal digest resolve request).paths)
validate_mutation_proposal-PathBound_example =
    validate_mutation_proposal-PathBound digest resolve (parsed_proposal digest resolve request)
      store ("a.py" ∷ []) expected (execute-Granted_example.0.1)
