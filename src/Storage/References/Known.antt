-- ===== src/Storage/References/Known.antt =====
-- The scan has a state for each run that it is asked about.
use mathlib.Core.List.{Memᴰ}
use synapx_harness.Prelude.{String, eq_iff, Bool, true, false, ◌≡◌, refl, ◌∙◌, Option, none, some}
use synapx_harness.Prelude.{List, [], ◌∷◌, arith, if◌then◌else◌, Option-cases, inl, inr}
use synapx_harness.Storage.Catalog.{ReferenceState, unreferenced}
use synapx_harness.Storage.Census.{ReferenceFile, Project}
use synapx_harness.Storage.References.{
  References, Scan, mark, visit, visit_all, all_states, conclude, scan_directories,
  required_directories, incomplete_scan, scan_all_external_references, state_of,
}

abbrev pub has_state : String → References → Bool
has_state rid states = elim (state_of rid states) [ none ↦ false | some _ ↦ true ]

has_state-mark :
    (rid content : String) (states : References)
    → has_state rid (mark content states) ≡ has_state rid states
unfolding state_of
has_state-mark rid content [] = refl
has_state-mark rid content ((j, state) ∷ rest) = ground (arith, has_state-mark rid content rest)

has_state-visit :
    (rid : String) (f : ReferenceFile) (s : Scan)
    → has_state rid (visit f s).states ≡ has_state rid s.states
unfolding visit
has_state-visit rid f s = elim (Option-cases f.content) [
  | inl unreadable ↦ ground arith
  | inr (content, read) ↦ ground (arith, has_state-mark rid content s.states)
]

has_state-visit_all :
    (rid : String) (fs : List ReferenceFile) (s : Scan)
    → has_state rid (visit_all fs s).states ≡ has_state rid s.states
unfolding visit_all
has_state-visit_all rid [] s = refl
has_state-visit_all rid (f ∷ fs) s =
    has_state-visit_all rid fs (visit f s) ∙ has_state-visit rid f s

has_state-all_states :
    (state : ReferenceState) {rid : String} (ids : List String)
    → Memᴰ rid ids
    → has_state rid (all_states state ids) ≡ true
unfolding state_of
has_state-all_states state [] m = elim m [ ]
has_state-all_states state {rid} (j ∷ ids) (Memᴰ.head e) = ground (arith, eq_iff rid j)
has_state-all_states state {rid} (j ∷ ids) (Memᴰ.tail m) =
    ground (arith, has_state-all_states state ids m)

has_state-conclude :
    {rid : String} (ids : List String) (s : Scan)
    → Memᴰ rid ids
    → has_state rid s.states ≡ true
    → has_state rid (conclude ids s).0 ≡ true
has_state-conclude ids s m h = ground (arith, has_state-all_states ReferenceState.unknown ids m)

has_state-scan_directories :
    (tracks review evidence : List ReferenceFile) {rid : String} (ids : List String)
    → Memᴰ rid ids
    → has_state rid (scan_directories tracks review evidence ids).0 ≡ true
has_state-scan_directories tracks review evidence {rid} ids m =
    let start : Scan = record { states = all_states unreferenced ids; scan_errors = 0 } in
    let after_tracks = visit_all tracks start in
    let after_review = visit_all review after_tracks in
    has_state-conclude ids (visit_all evidence after_review) m (
      has_state-visit_all rid evidence after_review
      ∙ (has_state-visit_all rid review after_tracks
          ∙ (has_state-visit_all rid tracks start ∙ has_state-all_states unreferenced ids m)))

pub has_state-scan :
    (p : Project) {rid : String} (ids : List String)
    → Memᴰ rid ids
    → has_state rid (scan_all_external_references p ids).0 ≡ true
unfolding scan_all_external_references
has_state-scan p {rid} ids m = directories p.is_dir p.tracks p.review p.evidence
  where
    unknown : has_state rid (all_states ReferenceState.unknown ids) ≡ true
    unknown = has_state-all_states ReferenceState.unknown ids m

    directories :
        (there : Bool) (tracks review evidence : Option (List ReferenceFile))
        → has_state rid
            (if◌then◌else◌ {A = References × Bool} there
              (required_directories tracks review evidence ids)
              (incomplete_scan ids)).0
          ≡ true
    directories true (some a) (some b) (some c) = has_state-scan_directories a b c ids m
    directories true (some a) (some b) none = unknown
    directories true (some a) none c = unknown
    directories true none b c = unknown
    directories false a b c = unknown
