-- ===== src/Storage/BuildCatalog.antt =====
-- `build_catalog` of storage/census.py: the metadata of every visible directory of `_runs`.
-- `now_text` is the text of `datetime.now`, which stands in for the times of a run whose `stat`
-- fails. Paths are ordered by their names, as POSIX paths of one directory are.
pub mod Facts
use synapx_harness.Prelude.{String, starts_with, text_lt, Bool, true, false, ◌&&◌, not}
use synapx_harness.Prelude.{Option, none, some, if◌then◌else◌, List, [], ◌∷◌, ◌++◌, map, filter}
use synapx_harness.Prelude.Sorting.{sort}
use synapx_harness.Storage.Catalog.{
  ReferenceState, unreferenced, RunPath, RunMetadata, StorageCatalog,
}
use synapx_harness.Storage.Census.{
  RunDir, Project, World, CensusError, reference_scan_incomplete, stat_failed, CensusResult,
  compute_run_size, detect_status, detect_sealed_evidence, detect_review_package,
  detect_authority_reference, detect_pinned, detect_protected,
}
use synapx_harness.Storage.References.{References, scan_all_external_references, state_of}

abbrev pub name_lt : RunDir → RunDir → Bool
name_lt d e = text_lt d.name e.name

abbrev pub is_visible : RunDir → Bool
is_visible d = d.is_dir && not (starts_with d.name ".")

-- The directories in the order of their paths, hidden ones left out.
unfoldable pub visible_entries : List RunDir → List RunDir
visible_entries dirs = filter is_visible (sort name_lt dirs)

-- The scan where a project root is given.
abbrev pub scan : Option Project → List RunDir → References × Bool
scan none entries = ([], true)
scan (some p) entries = scan_all_external_references p (map (λ (d : RunDir). d.name) entries)

abbrev or_unreferenced : Option ReferenceState → ReferenceState
or_unreferenced none = unreferenced
or_unreferenced (some state) = state

abbrev pub reference_state_of : Option Project → References × Bool → String → ReferenceState
reference_state_of none found name = ReferenceState.unknown
reference_state_of (some p) (states, complete) name =
    if complete then or_unreferenced (state_of name states) else ReferenceState.unknown

abbrev pub path_of : World → String → RunPath
path_of w name = record { parent = w.runs_path; name = name }

module _ (now_text : String) (w : World) where
  abbrev times_of : Option (String × String) → String × String
  times_of none = (now_text, now_text)
  times_of (some times) = times

  -- One round of the loop over the entries.
  unfoldable pub metadata : References × Bool → RunDir → RunMetadata
  metadata found d = record {
    run_id = d.name;
    path = path_of w d.name;
    size_bytes = compute_run_size d;
    status = detect_status d;
    created_at = (times_of d.times).0;
    last_known_activity_at = (times_of d.times).1;
    pinned = detect_pinned d;
    protected = detect_protected d;
    reference_state = reference_state_of w.project found d.name;
    has_sealed_evidence = detect_sealed_evidence d;
    has_review_package = detect_review_package d;
    has_authority_reference = detect_authority_reference d;
  }

  abbrev pub scan_errors : Option Project → Bool → List CensusError
  scan_errors none complete = []
  scan_errors (some p) complete = if complete then [] else reference_scan_incomplete ∷ []

  unfoldable pub stat_errors : List RunDir → List CensusError
  stat_errors [] = []
  stat_errors (d ∷ ds) = elim d.times [
    | none ↦ stat_failed (path_of w d.name) ∷ stat_errors ds
    | some _ ↦ stat_errors ds
  ]

  unfoldable pub catalog_of : List RunDir → CensusResult
  catalog_of entries =
      let found = scan w.project entries in
      record {
        catalog = record { runs = map (metadata found) entries };
        errors = scan_errors w.project found.1 ++ stat_errors entries;
      }

  unfoldable pub catalog_of_root : Option (List RunDir) → CensusResult
  catalog_of_root none = record { catalog = record { runs = [] }; errors = [] }
  catalog_of_root (some dirs) = catalog_of (visible_entries dirs)

  unfoldable pub build_catalog : CensusResult
  unfolding catalog_of_root catalog_of stat_errors
  build_catalog = catalog_of_root w.runs_root
