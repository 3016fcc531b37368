-- ===== src/Storage/Census.antt =====
-- storage/census.py and `compute_run_size` of storage/catalog.py: what the harness sees of `_runs`.
-- A directory is the list of what `rglob("*")` yields below it; a `stat` may fail, a walk does not.
-- Names come with their lower-case form, which `str.lower` gives in the code.
pub mod Detection
use synapx_harness.Prelude.{ℕ, ◌+◌, String, str_eq, has_part, ends_with, starts_with, is_member}
use synapx_harness.Prelude.{Bool, true, false, ◌&&◌, ◌||◌, not, Option, none, some, if◌then◌else◌}
use synapx_harness.Prelude.{List, [], ◌∷◌, ◌++◌, map, length, filter, any, ltb, leb, text_lt, ◌*◌}
use synapx_harness.Prelude.Sorting
use synapx_harness.Storage.Catalog.{
  RunStatus, active, running, incomplete, complete, ReferenceState, referenced, unreferenced,
  RunPath, RunMetadata, StorageCatalog,
}

pub record FileEntry : Type 0 where
  pub name : String
  pub name_lower : String
  pub is_file : Bool
  pub size : Option ℕ

-- An entry of `_runs`. `times` are the texts of its `st_ctime` and `st_mtime`, or nothing where
-- `stat` fails; the two markers say whether `.pinned` and `.protected` exist in it.
pub record RunDir : Type 0 where
  pub name : String
  pub is_dir : Bool
  pub entries : List FileEntry
  pub pinned_marker : Bool
  pub protected_marker : Bool
  pub times : Option (String × String)

-- A file under `_tracks`, `review` or `evidence`: `size` and `content` are nothing where `stat` and
-- the read fail.
pub record ReferenceFile : Type 0 where
  pub is_file : Bool
  pub suffix_lower : String
  pub size : Option ℕ
  pub content : Option String

-- The project root: whether it is a directory, and its three required directories with the files
-- below them, each nothing where it is missing.
pub record Project : Type 0 where
  pub is_dir : Bool
  pub tracks : Option (List ReferenceFile)
  pub review : Option (List ReferenceFile)
  pub evidence : Option (List ReferenceFile)

-- The file system: `_runs`, where it is a directory.
pub record World : Type 0 where
  pub runs_path : String
  pub runs_root : Option (List RunDir)
  pub project : Option Project

pub data CensusError : Type 0 where
  reference_scan_incomplete : CensusError
  stat_failed : RunPath → CensusError

pub record CensusResult : Type 0 where
  pub catalog : StorageCatalog
  pub errors : List CensusError

abbrev pub census_complete : CensusResult → Bool
census_complete c = elim c.errors [ [] ↦ true | _ ∷ _ ↦ false ]

-- `compute_run_size`
pub compute_run_size : RunDir → ℕ
compute_run_size d = if d.is_dir then total d.entries else 0
  where
    total : List FileEntry → ℕ
    total [] = 0
    total (e ∷ es) = elim e.size [
      | none ↦ total es
      | some n ↦ if e.is_file then n + total es else total es
    ]

-- The lower-case names of the files below a directory.
abbrev signals : RunDir → List String
signals d = map (λ (e : FileEntry). e.name_lower) (filter (λ (e : FileEntry). e.is_file) d.entries)

abbrev pub is_active_signal : String → Bool
is_active_signal s = has_part "active" s && has_part "marker" s

abbrev pub is_terminal_signal : String → Bool
is_terminal_signal s =
    (has_part "final_seal" s || has_part "final_close" s || has_part "close_seal" s)
    && ends_with s ".json"

-- `_detect_status`. A worker report and any other file both give INCOMPLETE.
status_of_signals : List String → RunStatus
status_of_signals names =
    if any is_active_signal names || any (has_part "running") names
    then if any is_active_signal names then active else running
    else if any is_terminal_signal names
    then complete
    else if any (has_part "worker_report") names
    then incomplete
    else if any (λ s. true) names
    then incomplete
    else RunStatus.unknown

unfoldable pub detect_status : RunDir → RunStatus
unfolding status_of_signals
detect_status d = if d.is_dir then status_of_signals (signals d) else RunStatus.unknown

abbrev pub is_seal_name : String → Bool
is_seal_name s = (has_part "seal" s && ends_with s ".json") || ends_with s "_seal_receipt.json"

unfoldable pub detect_sealed_evidence : RunDir → Bool
detect_sealed_evidence d = any (λ e. e.is_file && is_seal_name e.name_lower) d.entries

-- The pattern `*.zip` goes by the name as it is written, and also yields directories.
unfoldable pub detect_review_package : RunDir → Bool
detect_review_package d =
    any
      (λ e.
        ends_with e.name ".zip"
        && (has_part "review" e.name_lower || has_part "package" e.name_lower))
      d.entries

unfoldable pub detect_authority_reference : RunDir → Bool
detect_authority_reference d =
    any
      (λ e.
        e.is_file
        && ((has_part "authority" e.name_lower && ends_with e.name_lower ".json")
            || (has_part "work_order" e.name_lower && ends_with e.name_lower ".json")))
      d.entries

unfoldable pub detect_pinned : RunDir → Bool
detect_pinned d = d.pinned_marker

unfoldable pub detect_protected : RunDir → Bool
detect_protected d = d.protected_marker
