-- ===== src/Mutation/Proposal/Rendered.antt =====
-- The wire encoding of a proposal, written from the form that `build_proposal_instruction` shows to
-- the agent, and that the strict decoder reads back what it says.
pub mod Reading
pub mod RoundTrip
use synapx_harness.Prelude.{
  String, ◌<>◌, str_eq, starts_with, Bool, true, false, ◌||◌, List, [], ◌∷◌, ◌++◌, All, ◌≡◌,
}
use synapx_harness.Mutation.Text.{strip, is_blank, join}
use synapx_harness.Mutation.Proposal.{PatchHunk, hunk}

-- One `FILE:` section.
pub record Section : Type 0 where
  pub path : String
  pub old_lines : List String
  pub new_lines : List String

abbrev pub section_lines : Section → List String
section_lines s =
    ("FILE: " <> s.path) ∷ "<<<< OLD" ∷ s.old_lines
    ++ (">>>> OLD" ∷ "<<<< NEW" ∷ s.new_lines ++ ">>>> NEW" ∷ [])

abbrev pub section_hunk : Section → PatchHunk
section_hunk s = hunk s.path (join "\n" s.old_lines) (join "\n" s.new_lines)

abbrev pub path_of : Section → String
path_of s = s.path

abbrev pub render : List Section → List String
render [] = []
render (s ∷ ss) = section_lines s ++ render ss

-- A line that the decoder takes for no marker.
abbrev pub IsPlain : String → Type 0
IsPlain line =
    (starts_with (strip line) "FILE:" ≡ false)
    × (str_eq (strip line) "<<<< OLD" ≡ false)
    × (str_eq (strip line) ">>>> OLD" ≡ false)
    × (str_eq (strip line) "<<<< NEW" ≡ false)
    × (str_eq (strip line) ">>>> NEW" ≡ false)
    × ((str_eq (strip line) "<<<<<<<<" || str_eq (strip line) ">>>>>>>>") ≡ false)

-- A section that the encoding can express: a path without white space round it, texts of plain
-- lines that are not blank and differ.
abbrev pub IsSection : Section → Type 0
IsSection s =
    (strip s.path ≡ s.path)
    × (str_eq s.path "" ≡ false)
    × All IsPlain s.old_lines
    × All IsPlain s.new_lines
    × (is_blank (join "\n" s.old_lines) ≡ false)
    × (is_blank (join "\n" s.new_lines) ≡ false)
    × (str_eq (join "\n" s.old_lines) (join "\n" s.new_lines) ≡ false)
