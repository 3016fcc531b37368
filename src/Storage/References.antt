-- ===== src/Storage/References.antt =====
-- `_scan_all_external_references` of storage/census.py: which runs the project's records mention.
pub mod Mentions
pub mod Known
use synapx_harness.Prelude.{ℕ, ◌+◌, ◌*◌, String, str_eq, has_part, is_member, Bool, true, false}
use synapx_harness.Prelude.{◌&&◌, not, Option, none, some, if◌then◌else◌, List, [], ◌∷◌, map, ltb}
use synapx_harness.Storage.Catalog.{ReferenceState, referenced, unreferenced}
use synapx_harness.Storage.Classifier.{is_unreferenced}
use synapx_harness.Storage.Census.{ReferenceFile, Project}

-- The `dict` of the states by run id.
abbrev pub References : Type 0
References = List (String × ReferenceState)

-- The states and the number of failed accesses.
pub record Scan : Type 0 where
  pub states : References
  pub scan_errors : ℕ

abbrev text_extensions : List String
text_extensions = ".json" ∷ ".md" ∷ ".txt" ∷ ".yaml" ∷ ".yml" ∷ ".py" ∷ ".csv" ∷ []

abbrev pub size_limit : ℕ
size_limit = 5 * 1024 * 1024

unfoldable pub is_text : ReferenceFile → Bool
is_text f = f.is_file && is_member f.suffix_lower text_extensions

-- The inner loop over the run ids, for one file's content.
abbrev pub mark : String → References → References
mark content [] = []
mark content ((rid, state) ∷ rest) =
    (rid, if is_unreferenced state && has_part rid content then referenced else state)
    ∷ mark content rest

abbrev fail : Scan → Scan
fail s = record s { scan_errors = s.scan_errors + 1 }

-- One round of the loop over the files.
unfoldable pub visit : ReferenceFile → Scan → Scan
visit f s = if not (is_text f) then s else elim f.size [
  | none ↦ fail s
  | some n ↦ if ltb size_limit n then s else elim f.content [
    | none ↦ fail s
    | some content ↦ record s { states = mark content s.states }
  ]
]

unfoldable pub visit_all : List ReferenceFile → Scan → Scan
visit_all [] s = s
visit_all (f ∷ fs) s = visit_all fs (visit f s)

abbrev pub all_states : ReferenceState → List String → References
all_states state ids = map (λ rid. (rid, state)) ids

-- The end of the scan.
abbrev conclude : List String → Scan → References × Bool
conclude ids s =
    if ltb 0 s.scan_errors then (all_states ReferenceState.unknown ids, false) else (s.states, true)

-- With the three required directories at hand. The code goes through them in the order of a set,
-- which does not change the outcome.
abbrev scan_directories :
    List ReferenceFile → List ReferenceFile → List ReferenceFile → List String → References × Bool
scan_directories tracks review evidence ids =
    let start : Scan = record { states = all_states unreferenced ids; scan_errors = 0 } in
    conclude ids (visit_all evidence (visit_all review (visit_all tracks start)))

incomplete_scan : List String → References × Bool
incomplete_scan ids = (all_states ReferenceState.unknown ids, false)

required_directories :
    Option (List ReferenceFile)
    → Option (List ReferenceFile)
    → Option (List ReferenceFile)
    → List String
    → References × Bool
required_directories (some tracks) (some review) (some evidence) ids =
    scan_directories tracks review evidence ids
required_directories _ _ _ ids = incomplete_scan ids

unfoldable pub scan_all_external_references : Project → List String → References × Bool
unfolding incomplete_scan required_directories visit_all visit is_text
scan_all_external_references p ids =
    if p.is_dir then required_directories p.tracks p.review p.evidence ids else incomplete_scan ids

-- `states.get(rid)`
unfoldable pub state_of : String → References → Option ReferenceState
state_of rid [] = none
state_of rid ((j, state) ∷ rest) = if str_eq rid j then some state else state_of rid rest
