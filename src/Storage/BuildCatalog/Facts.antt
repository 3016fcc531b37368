-- ===== src/Storage/BuildCatalog/Facts.antt =====
-- What the catalog says of the directories that it was built from.
use mathlib.Core.List.{Memᴰ}
use synapx_harness.Prelude.{String, ◌≡◌, ap, Bool, true, false, arith}
use synapx_harness.Prelude.{Option, none, some, List, [], ◌∷◌, map}
use synapx_harness.Prelude.Members.{All-at, All-of_members, Memᴰ-filter_inv}
use synapx_harness.Prelude.Sorting.{sort, All-sort}
use synapx_harness.Storage.Catalog.{complete}
use synapx_harness.Storage.Classifier.{is_unreferenced}
use synapx_harness.Storage.Classifier.Eligibility.{is_safe}
use synapx_harness.Storage.Census.{
  RunDir, Project, World, detect_status, detect_sealed_evidence, detect_review_package,
  detect_authority_reference, detect_pinned, detect_protected,
}
use synapx_harness.Storage.References.{References}
use synapx_harness.Storage.References.Known.{has_state-scan}
use synapx_harness.Storage.References.Mentions.{Unmentioned, unreferenced-Unmentioned}
use synapx_harness.Storage.BuildCatalog.{
  name_lt, is_visible, visible_entries, scan, reference_state_of, metadata,
}

-- No file that the scan reads mentions the run, in a project that is there.
abbrev pub UnmentionedIn : Option Project → String → Type 0
UnmentionedIn none name = ⊥
UnmentionedIn (some p) name =
    Unmentioned name p.tracks × Unmentioned name p.review × Unmentioned name p.evidence

-- A directory that is finished and carries none of the marks.
abbrev pub IsClear : RunDir → Type 0
IsClear d =
    (detect_status d ≡ complete)
    × (detect_sealed_evidence d ≡ false)
    × (detect_authority_reference d ≡ false)
    × (detect_review_package d ≡ false)
    × (detect_pinned d ≡ false)
    × (detect_protected d ≡ false)

pub visible-inside :
    (dirs : List RunDir) {d : RunDir}
    → Memᴰ d (visible_entries dirs)
    → Memᴰ d dirs × (is_visible d ≡ true)
unfolding visible_entries
visible-inside dirs {d} m =
    let (in_sorted, visible) = Memᴰ-filter_inv is_visible (sort name_lt dirs) m in
    (
      All-at (λ e. Memᴰ e dirs) (sort name_lt dirs)
          (All-sort name_lt (λ e. Memᴰ e dirs) dirs
            (All-of_members (λ e. Memᴰ e dirs) dirs (λ e n. n)))
          in_sorted,
      visible,
    )

Memᴰ-map_name :
    (entries : List RunDir) {d : RunDir}
    → Memᴰ d entries
    → Memᴰ d.name (map (λ (e : RunDir). e.name) entries)
Memᴰ-map_name [] m = elim m [ ]
Memᴰ-map_name (e ∷ es) (Memᴰ.head p) = Memᴰ.head (ap (λ (x : RunDir). x.name) p)
Memᴰ-map_name (e ∷ es) (Memᴰ.tail m) = Memᴰ.tail (Memᴰ-map_name es m)

-- A reference state of UNREFERENCED comes from a complete scan that did not find the run, or the
-- run was no part of the scan.
pub unreferenced-scanned :
    (p : Option Project) (entries : List RunDir) {d : RunDir}
    → Memᴰ d entries
    → is_unreferenced (reference_state_of p (scan p entries) d.name) ≡ true
    → UnmentionedIn p d.name
unreferenced-scanned none entries m h = cc
unreferenced-scanned (some p) entries {d} m h =
    unreferenced-Unmentioned p (map (λ (e : RunDir). e.name) entries) d.name (
      ground
        (arith, has_state-scan p (map (λ (e : RunDir). e.name) entries) (Memᴰ-map_name entries m)))

pub metadata-IsClear :
    (now_text : String) (w : World) (found : References × Bool) (d : RunDir)
    → is_safe (metadata now_text w found d) ≡ true
    → IsClear d × (is_unreferenced (reference_state_of w.project found d.name) ≡ true)
unfolding metadata
metadata-IsClear now_text w found d h = ground arith
