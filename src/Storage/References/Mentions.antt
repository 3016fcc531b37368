-- ===== src/Storage/References/Mentions.antt =====
-- A run that a complete scan calls unreferenced is mentioned in no file that the scan reads.
use synapx_harness.Prelude.{ℕ, String, has_part, eq_iff, Bool, true, false, ◌≡◌}
use synapx_harness.Prelude.{◌&&◌, not, Option, none, some, if◌then◌else◌, List, [], ◌∷◌, ltb}
use synapx_harness.Prelude.{All, arith, Option-cases, inl, inr, ◌≢◌}
use synapx_harness.Storage.Catalog.{ReferenceState, unreferenced}
use synapx_harness.Storage.Census.{ReferenceFile, Project}
use synapx_harness.Storage.References.{
  References, Scan, size_limit, is_text, mark, visit, visit_all, scan_all_external_references,
  state_of, all_states, conclude, scan_directories, required_directories, incomplete_scan,
}

-- The file is a text file of at most the size limit, and its content has the id.
abbrev pub mentions : String → ReferenceFile → Bool
mentions rid f = is_text f && within f.size && in_content f.content
  where
    within : Option ℕ → Bool
    within none = false
    within (some n) = not (ltb size_limit n)

    in_content : Option String → Bool
    in_content none = false
    in_content (some content) = has_part rid content

state_of-mark :
    (rid content : String) (states : References)
    → state_of rid (mark content states) ≡ some unreferenced
    → (has_part rid content ≡ false) × (state_of rid states ≡ some unreferenced)
unfolding state_of
state_of-mark rid content [] h = cc
state_of-mark rid content ((j, state) ∷ rest) h =
    ground (arith, eq_iff rid j, state_of-mark rid content rest)

state_of-visit :
    (rid : String) (f : ReferenceFile) (s : Scan)
    → (visit f s).scan_errors ≡ 0
    → state_of rid (visit f s).states ≡ some unreferenced
    → (mentions rid f ≡ false) × (s.scan_errors ≡ 0) × (state_of rid s.states ≡ some unreferenced)
unfolding visit
state_of-visit rid f s e h = elim (Option-cases f.content) [
  | inl unreadable ↦ ground arith
  | inr (content, read) ↦ ground (arith, state_of-mark rid content s.states)
]

state_of-visit_all :
    (rid : String) (fs : List ReferenceFile) (s : Scan)
    → (visit_all fs s).scan_errors ≡ 0
    → state_of rid (visit_all fs s).states ≡ some unreferenced
    → All (λ f. mentions rid f ≡ false) fs
      × (s.scan_errors ≡ 0)
      × (state_of rid s.states ≡ some unreferenced)
unfolding visit_all
state_of-visit_all rid [] s e h = (tt, e, h)
state_of-visit_all rid (f ∷ fs) s e h =
    let (later, none_failed, still) = state_of-visit_all rid fs (visit f s) e h in
    let (now, earlier, before) = state_of-visit rid f s none_failed still in
    ((now, later), earlier, before)

-- The directory, where it is there, has no file that mentions the run.
abbrev pub Unmentioned : String → Option (List ReferenceFile) → Type 0
Unmentioned rid none = ⊥
Unmentioned rid (some files) = All (λ f. mentions rid f ≡ false) files

state_of-all_unknown :
    (rid : String) (ids : List String)
    → state_of rid (all_states ReferenceState.unknown ids) ≢ some unreferenced
unfolding state_of
state_of-all_unknown rid [] h = cc
state_of-all_unknown rid (j ∷ ids) h = ground (arith, state_of-all_unknown rid ids)

scan_directories_clean :
    (rid : String) (done : Scan) (ids : List String)
    → state_of rid (conclude ids done).0 ≡ some unreferenced
    → (done.scan_errors ≡ 0) × (state_of rid done.states ≡ some unreferenced)
scan_directories_clean rid done ids h = ground (arith, state_of-all_unknown rid ids)

scan_directories-Unmentioned :
    (rid : String) (tracks review evidence : List ReferenceFile) (ids : List String)
    → state_of rid (scan_directories tracks review evidence ids).0 ≡ some unreferenced
    → All (λ f. mentions rid f ≡ false) tracks
      × All (λ f. mentions rid f ≡ false) review
      × All (λ f. mentions rid f ≡ false) evidence
scan_directories-Unmentioned rid tracks review evidence ids h =
    let start : Scan = record { states = all_states unreferenced ids; scan_errors = 0 } in
    let after_tracks = visit_all tracks start in
    let after_review = visit_all review after_tracks in
    let (clean, free) = scan_directories_clean rid (visit_all evidence after_review) ids h in
    let (in_evidence, clean', free') = state_of-visit_all rid evidence after_review clean free in
    let (in_review, clean'', free'') = state_of-visit_all rid review after_tracks clean' free' in
    let (in_tracks, _, _) = state_of-visit_all rid tracks start clean'' free'' in
    (in_tracks, in_review, in_evidence)

-- Where the scan says that a run is unreferenced, the project has the three required directories,
-- and none of their text files of at most 5 MiB has the run's id in its content.
pub unreferenced-Unmentioned :
    (p : Project) (ids : List String) (rid : String)
    → state_of rid (scan_all_external_references p ids).0 ≡ some unreferenced
    → Unmentioned rid p.tracks × Unmentioned rid p.review × Unmentioned rid p.evidence
unfolding scan_all_external_references
unreferenced-Unmentioned p ids rid h = directories p.is_dir p.tracks p.review p.evidence h
  where
    directories :
        (there : Bool) (tracks review evidence : Option (List ReferenceFile))
        → state_of rid
            (if there
              then required_directories tracks review evidence ids
              else incomplete_scan ids).0
          ≡ some unreferenced
        → Unmentioned rid tracks × Unmentioned rid review × Unmentioned rid evidence
    directories true (some a) (some b) (some c) h = scan_directories-Unmentioned rid a b c ids h
    directories true (some a) (some b) none h = absurd (state_of-all_unknown rid ids h)
    directories true (some a) none c h = absurd (state_of-all_unknown rid ids h)
    directories true none b c h = absurd (state_of-all_unknown rid ids h)
    directories false a b c h = absurd (state_of-all_unknown rid ids h)
