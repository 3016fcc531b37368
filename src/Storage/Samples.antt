-- ===== src/Storage/Samples.antt =====
-- Sample runs, directories and times for the tests.
use synapx_harness.Prelude.{
  ℕ, ◌*◌, String, str_eq, Bool, true, false, Option, none, some, [], ◌∷◌, if◌then◌else◌,
}
use synapx_harness.Storage.Catalog.{
  complete, unreferenced, RunMetadata, StorageCatalog, RetentionPolicy,
}
use synapx_harness.Storage.Classifier.{day}
use synapx_harness.Storage.Census.{FileEntry, RunDir, ReferenceFile, Project, World}

-- A clock that reads two dates.
abbrev pub clock : String → Option ℕ
clock s =
    if str_eq s "2026-01-01"
    then some 0
    else if str_eq s "2026-03-01"
    then some (59 * day)
    else none

abbrev pub today : ℕ
today = 60 * day

-- `rmtree` that succeeds.
abbrev pub removes : RunDir → Option RunDir
removes d = none

abbrev pub roomy : RetentionPolicy
roomy = record { ttl_days = 30; max_total_bytes = 1000 }

abbrev pub tight : RetentionPolicy
tight = record { ttl_days = 30; max_total_bytes = 100 }

abbrev pub run : String → ℕ → String → Bool → RunMetadata
run id bytes last pin = record {
  run_id = id;
  path = record { parent = "_runs"; name = id };
  size_bytes = bytes;
  status = complete;
  created_at = last;
  last_known_activity_at = last;
  pinned = pin;
  protected = false;
  reference_state = unreferenced;
  has_sealed_evidence = false;
  has_review_package = false;
  has_authority_reference = false;
}

abbrev pub catalog : StorageCatalog
catalog = record {
  runs =
      run "a" 100 "2026-01-01" false
      ∷ run "b" 60 "2026-03-01" false
      ∷ run "c" 5 "2026-01-01" true
      ∷ [];
}

abbrev pub file : String → ℕ → FileEntry
file name bytes = record { name = name; name_lower = name; is_file = true; size = some bytes }

abbrev pub dir : String → String → Bool → RunDir
dir name last pin = record {
  name = name;
  is_dir = true;
  entries = file "final_close.json" 90 ∷ file "log.txt" 10 ∷ [];
  pinned_marker = pin;
  protected_marker = false;
  times = some (last, last);
}

abbrev pub note : String → ReferenceFile
note content = record {
  is_file = true;
  suffix_lower = ".md";
  size = some 4;
  content = some content;
}

abbrev pub project : Project
project = record {
  is_dir = true;
  tracks = some (note "b1" ∷ []);
  review = some [];
  evidence = some [];
}

-- An old run, an old run that is pinned, and an old run that the tracks mention.
abbrev pub old_dir : RunDir
old_dir = dir "a1" "2026-01-01" false

abbrev pub pinned_dir : RunDir
pinned_dir = dir "p1" "2026-01-01" true

abbrev pub mentioned_dir : RunDir
mentioned_dir = dir "b1" "2026-01-01" false

abbrev pub world : World
world = record {
  runs_path = "_runs";
  runs_root = some (old_dir ∷ pinned_dir ∷ mentioned_dir ∷ []);
  project = some project;
}

-- A world whose project lacks two of its directories.
abbrev pub bare_world : World
bare_world = record world { project = some (record project { review = none; evidence = none }) }
