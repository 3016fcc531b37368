-- ===== src/Mutation/Proposal.antt =====
-- kernel/mutation_authority.py: the patch proposal and `PatchProposalParser.parse_structured`, the
-- strict decoder of the governed path. `digest` stands for `hashlib.sha256(data).hexdigest()`.
mod Decoding
pub mod Decoded
pub mod Accepted
mod FileLine
pub mod Rendered
unfoldable pub use Decoding.*
use synapx_harness.Prelude.{String, ◌<>◌, str_eq, starts_with, is_member, has_part, map}
use synapx_harness.Prelude.{Bool, true, false, ◌&&◌, ◌||◌, not, if◌then◌else◌}
use synapx_harness.Prelude.{Option, none, some, List, [], ◌∷◌, ◌++◌}
use synapx_harness.Prelude.Results.{Result, ok, err, ◌>>=◌, ◌>>◌, raise_if}
use synapx_harness.Mutation.Text.{
  strip, is_blank, drop_start, drop_first, find_part, splitlines, join,
}
use synapx_harness.Mutation.Bytes.{Bytes, encode}

pub record PatchProposal : Type 0 where
  pub valid : Bool
  pub paths : List String
  pub hunks : List PatchHunk
  pub old_lines : List String
  pub new_lines : List String
  pub sha256 : String
  pub raw_input_sha256 : String
  pub canonical_patch_sha256 : String
  pub parse_error : Option ParseError

-- `_canonical_patch_bytes`
unfoldable pub canonical_patch_bytes : List String → List String → List String → Bytes
canonical_patch_bytes paths old_blocks new_blocks =
    encode (join ":" paths <> ("|" <> (join ":" old_blocks <> ("|" <> join ":" new_blocks))))

-- `lines[0] if lines else ""`
abbrev pub first_line : List String → String
first_line [] = ""
first_line (l ∷ ls) = l

abbrev pub file_path_of : PatchHunk → String
file_path_of h = h.file_path

abbrev pub old_of : PatchHunk → String
old_of h = first_line h.old_lines

abbrev pub new_of : PatchHunk → String
new_of h = first_line h.new_lines

module _ (digest : Bytes → String) where
  abbrev canonical_sha : List PatchHunk → String
  canonical_sha hs =
      digest (canonical_patch_bytes (map file_path_of hs) (map old_of hs) (map new_of hs))

  unfoldable pub proposal_of : String → Result ParseError (List PatchHunk) → PatchProposal
  proposal_of stdout (ok hs) = record {
    valid = true;
    paths = map file_path_of hs;
    hunks = hs;
    old_lines = map old_of hs;
    new_lines = map new_of hs;
    sha256 = canonical_sha hs;
    raw_input_sha256 = digest (encode stdout);
    canonical_patch_sha256 = canonical_sha hs;
    parse_error = none;
  }
  proposal_of stdout (err e) = record {
    valid = false;
    paths = [];
    hunks = [];
    old_lines = [];
    new_lines = [];
    sha256 = "";
    raw_input_sha256 = digest (encode stdout);
    canonical_patch_sha256 = "";
    parse_error = some e;
  }

  unfoldable pub parse_structured : String → PatchProposal
  parse_structured stdout = proposal_of stdout (decode stdout)
