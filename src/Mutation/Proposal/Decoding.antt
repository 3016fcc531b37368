-- ===== src/Mutation/Proposal/Decoding.antt =====
-- kernel/mutation_authority.py: the strict decoder of `PatchProposalParser.parse_structured`, from the
-- agent's text to its hunks.
use synapx_harness.Prelude.{String, str_eq, starts_with, is_member, has_part}
use synapx_harness.Prelude.{Bool, true, false, ◌||◌, not, if◌then◌else◌}
use synapx_harness.Prelude.{Option, none, some, List, [], ◌∷◌, ◌++◌}
use synapx_harness.Prelude.Results.{Result, ok, err, ◌>>=◌, ◌>>◌, raise_if}
use synapx_harness.Mutation.Text.{
  strip, is_blank, drop_start, drop_first, find_part, splitlines, join,
}

-- A hunk, less its context lines, which the strict decoder leaves empty.
pub record PatchHunk : Type 0 where
  pub file_path : String
  pub old_lines : List String
  pub new_lines : List String

pub data ParseError : Type 0 where
  empty_stdout missing_begin multiple_begin missing_end multiple_end : ParseError
  leading_prose trailing_prose file_inside_block empty_file_path : ParseError
  duplicate_file empty_old empty_new old_equals_new : String → ParseError
  old_before_file new_before_file nested_block unmatched_old unmatched_new : ParseError
  new_before_old conflict_marker unrecognized_line : String → ParseError
  unterminated_block no_files : ParseError

abbrev pub proposal_begin : String
proposal_begin = "--- BEGIN SYNAPX MUTATION PROPOSAL ---"

abbrev pub proposal_end : String
proposal_end = "--- END SYNAPX MUTATION PROPOSAL ---"

-- The text between the markers.
unfoldable pub frame : String → Result ParseError String
frame stdout =
    if is_blank stdout then err empty_stdout else elim (find_part proposal_begin (strip stdout)) [
      | none ↦ err missing_begin
      | some (prefix, from_begin) ↦
          if has_part proposal_begin (drop_first from_begin)
          then err multiple_begin
          else elim (find_part proposal_end (drop_start proposal_begin from_begin)) [
            | none ↦ err missing_end
            | some (body, from_end) ↦ do
              raise_if (has_part proposal_end (drop_start proposal_end from_end)) multiple_end
              raise_if (not (is_blank prefix)) leading_prose
              raise_if (not (is_blank (drop_start proposal_end from_end))) trailing_prose
              ok body
          ]
    ]

pub data Block : Type 0 where
  outside_block in_old in_new : Block

-- The variables of the loop over the lines.
pub record Decoder : Type 0 where
  pub closed : List PatchHunk
  pub seen_paths : List String
  pub current_path : Option String
  pub old_lines : List String
  pub new_lines : List String
  pub state : Block

abbrev pub is_outside : Block → Bool
is_outside outside_block = true
is_outside _ = false

abbrev pub is_in_old : Block → Bool
is_in_old in_old = true
is_in_old _ = false

abbrev pub is_in_new : Block → Bool
is_in_new in_new = true
is_in_new _ = false

abbrev pub hunk : String → String → String → PatchHunk
hunk path old_text new_text = record {
  file_path = path;
  old_lines = old_text ∷ [];
  new_lines = new_text ∷ [];
}

-- The tests of `close_hunk` on the two texts.
unfoldable pub checked_hunk : String → String → String → Result ParseError PatchHunk
checked_hunk path old_text new_text = do
  raise_if (is_blank old_text) (empty_old path)
  raise_if (is_blank new_text) (empty_new path)
  raise_if (str_eq old_text new_text) (old_equals_new path)
  ok (hunk path old_text new_text)

-- The hunks after `close_hunk`.
unfoldable pub close_hunk :
    Option String → List PatchHunk → List String → List String → Result ParseError (List PatchHunk)
close_hunk none closed old_lines new_lines = ok closed
close_hunk (some path) closed old_lines new_lines =
    checked_hunk path (join "\n" old_lines) (join "\n" new_lines) >>= λ h. ok (closed ++ h ∷ [])

-- A line `FILE: path`
unfoldable pub open_file : Decoder → String → Result ParseError Decoder
open_file d path = do
  raise_if (not (is_outside d.state)) file_inside_block
  closed ← close_hunk d.current_path d.closed d.old_lines d.new_lines
  raise_if (str_eq path "") empty_file_path
  raise_if (is_member path d.seen_paths) (duplicate_file path)
  ok (record {
    closed = closed;
    seen_paths = d.seen_paths ++ path ∷ [];
    current_path = some path;
    old_lines = [];
    new_lines = [];
    state = outside_block;
  })

abbrev pub with_state : Decoder → Block → Decoder
with_state d b = record {
  closed = d.closed;
  seen_paths = d.seen_paths;
  current_path = d.current_path;
  old_lines = d.old_lines;
  new_lines = d.new_lines;
  state = b;
}

abbrev pub is_none : Option String → Bool
is_none none = true
is_none (some _) = false

abbrev pub is_empty : List String → Bool
is_empty [] = true
is_empty (_ ∷ _) = false

-- `current_path` in an error text
abbrev pub path_text : Option String → String
path_text none = "None"
path_text (some p) = p

-- `<<<< OLD`
unfoldable pub begin_old : Decoder → Result ParseError Decoder
begin_old d = do
  raise_if (is_none d.current_path) old_before_file
  raise_if (not (is_outside d.state)) nested_block
  ok (with_state d in_old)

-- `>>>> OLD`
unfoldable pub end_old : Decoder → Result ParseError Decoder
end_old d = do raise_if (not (is_in_old d.state)) unmatched_old; ok (with_state d outside_block)

-- `<<<< NEW`
unfoldable pub begin_new : Decoder → Result ParseError Decoder
begin_new d = do
  raise_if (is_none d.current_path) new_before_file
  raise_if (not (is_outside d.state)) nested_block
  raise_if (is_empty d.old_lines) (new_before_old (path_text d.current_path))
  ok (with_state d in_new)

-- `>>>> NEW`
unfoldable pub end_new : Decoder → Result ParseError Decoder
end_new d = do raise_if (not (is_in_new d.state)) unmatched_new; ok (with_state d outside_block)

-- A line that is no marker; `stripped` is the line without the white space round it.
unfoldable pub add_line : Block → Decoder → String → String → Result ParseError Decoder
add_line in_old d line stripped = ok (record {
  closed = d.closed;
  seen_paths = d.seen_paths;
  current_path = d.current_path;
  old_lines = d.old_lines ++ line ∷ [];
  new_lines = d.new_lines;
  state = d.state;
})
add_line in_new d line stripped = ok (record {
  closed = d.closed;
  seen_paths = d.seen_paths;
  current_path = d.current_path;
  old_lines = d.old_lines;
  new_lines = d.new_lines ++ line ∷ [];
  state = d.state;
})
add_line outside_block d line stripped =
    if str_eq stripped "" then ok d else err (unrecognized_line stripped)

-- One turn of the loop
unfoldable pub decode_stripped : Decoder → String → String → Result ParseError Decoder
decode_stripped d line stripped =
    if starts_with stripped "FILE:"
    then open_file d (strip (drop_start "FILE:" stripped))
    else if str_eq stripped "<<<< OLD"
    then begin_old d
    else if str_eq stripped ">>>> OLD"
    then end_old d
    else if str_eq stripped "<<<< NEW"
    then begin_new d
    else if str_eq stripped ">>>> NEW"
    then end_new d
    else if str_eq stripped "<<<<<<<<" || str_eq stripped ">>>>>>>>"
    then err (conflict_marker stripped)
    else add_line d.state d line stripped

abbrev pub decode_line : Decoder → String → Result ParseError Decoder
decode_line d line = decode_stripped d line (strip line)

unfoldable pub decode_lines : Decoder → List String → Result ParseError Decoder
decode_lines d [] = ok d
decode_lines d (line ∷ lines) = decode_line d line >>= λ d'. decode_lines d' lines

abbrev pub start : Decoder
start = record {
  closed = [];
  seen_paths = [];
  current_path = none;
  old_lines = [];
  new_lines = [];
  state = outside_block;
}

abbrev pub has_none : List PatchHunk → Bool
has_none [] = true
has_none (_ ∷ _) = false

-- What follows the loop.
unfoldable pub finish : Decoder → Result ParseError (List PatchHunk)
finish d = do
  raise_if (not (is_outside d.state)) unterminated_block
  closed ← close_hunk d.current_path d.closed d.old_lines d.new_lines
  raise_if (has_none closed) no_files
  ok closed

unfoldable pub decode : String → Result ParseError (List PatchHunk)
decode stdout = do body ← frame stdout; d ← decode_lines start (splitlines body); finish d
