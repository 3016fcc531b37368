-- ===== src/Storage/Collect/Candidates.antt =====
-- From the candidates of a plan back to the directories of the world.
use mathlib.Core.List.{Memᴰ}
use mathlib.Core.Path.{subst}
use synapx_harness.Prelude.{
  ℕ, String, ◌≡◌, refl, ap, ◌∙◌, true, Option, none, some, List, [], map, All,
}
use synapx_harness.Prelude.Members.{All-at, All-of_members, Memᴰ-map_inv}
use synapx_harness.Storage.Catalog.{RunPath, RunMetadata, RetentionPolicy}
use synapx_harness.Storage.Classifier.Eligibility.{is_safe}
use synapx_harness.Storage.Census.{RunDir, World, census_complete}
use synapx_harness.Storage.BuildCatalog.{
  is_visible, visible_entries, scan, metadata, catalog_of_root, build_catalog,
}
use synapx_harness.Storage.BuildCatalog.Facts.{
  IsClear, UnmentionedIn, visible-inside, unreferenced-scanned, metadata-IsClear,
}
use synapx_harness.Storage.Plan.Safety.{FromSafe, candidates-FromSafe}
use synapx_harness.Storage.Collect.{dirs_of, fresh_plan}

-- A visible directory of the world that is finished, carries no mark, and is mentioned nowhere.
abbrev pub IsDeletable : World → String → RunDir → Type 0
IsDeletable w name d =
    Memᴰ d (dirs_of w)
    × (is_visible d ≡ true)
    × (name ≡ d.name)
    × IsClear d
    × UnmentionedIn w.project d.name

module _ (now_text : String) (w : World) where
  entry_of_run :
      (dirs : List RunDir) {r : RunMetadata}
      → Memᴰ r
          (map (metadata now_text w (scan w.project (visible_entries dirs))) (visible_entries dirs))
      → is_safe r ≡ true
      → (d : RunDir) × Memᴰ d dirs
        × (is_visible d ≡ true)
        × (r.path.name ≡ d.name)
        × IsClear d
        × UnmentionedIn w.project d.name
  entry_of_run dirs {r} m safe =
      let found = scan w.project (visible_entries dirs) in
      let (d, entry, e) = Memᴰ-map_inv (metadata now_text w found) (visible_entries dirs) m in
      let (clear, free) =
        metadata-IsClear now_text w found d (subst (λ x. is_safe x ≡ true) e safe) in
      let (inside, visible) = visible-inside dirs entry in
      (
        d,
        inside,
        visible,
        name_of r d e,
        clear,
        unreferenced-scanned w.project (visible_entries dirs) entry free,
      )
    where
      name_of :
          (r : RunMetadata) (d : RunDir)
          → r ≡ metadata now_text w (scan w.project (visible_entries dirs)) d
          → r.path.name ≡ d.name
      name_of r d e = ap (λ (x : RunMetadata). x.path.name) e ∙ (unfold metadata in refl)

  run_of_catalog :
      {r : RunMetadata}
      → Memᴰ r (build_catalog now_text w).catalog.runs
      → is_safe r ≡ true
      → (d : RunDir) × IsDeletable w r.path.name d
  unfolding build_catalog
  run_of_catalog {r} m safe = in_root w.runs_root m
    where
      in_root :
          (root : Option (List RunDir))
          → Memᴰ r (catalog_of_root now_text w root).catalog.runs
          → (d : RunDir) × (Memᴰ d (elim root [ none ↦ [] | some dirs ↦ dirs ])
              × (is_visible d ≡ true)
              × (r.path.name ≡ d.name)
              × IsClear d
              × UnmentionedIn w.project d.name)
      in_root none n = elim n [ ]
      in_root (some dirs) n =
          let (d, inside, visible, named, clear, free) = entry_of_run dirs n safe in
          (d, (inside, visible, named, clear, free))

  -- Every candidate of the plan that a collection follows names a visible directory of `_runs` that
  -- is complete, holds no sealed evidence, authority reference or review package, is neither pinned
  -- nor protected, and whose name is in no text file of at most 5 MiB of the three directories of a
  -- project that is there.
  pub candidates-IsDeletable :
      (fromisoformat : String → Option ℕ) (policy : RetentionPolicy) (now : ℕ)
      → All
          (λ c. (d : RunDir) × IsDeletable w c.path.name d)
          (fresh_plan fromisoformat now_text w policy now).candidates
  candidates-IsDeletable fromisoformat policy now =
      let candidates = (fresh_plan fromisoformat now_text w policy now).candidates in
      let runs = (build_catalog now_text w).catalog.runs in
      All-of_members (λ c. (d : RunDir) × IsDeletable w c.path.name d) candidates
        λ c m.
          let (r, inside, safe, names) =
            All-at (FromSafe runs) candidates
              (candidates-FromSafe fromisoformat policy now (build_catalog now_text w).catalog
                (census_complete (build_catalog now_text w)))
              m in
          let (d, facts) = run_of_catalog inside safe in
          (d, (facts.0, facts.1, ap (λ (p : RunPath). p.name) names.1 ∙ facts.2, facts.3, facts.4))
