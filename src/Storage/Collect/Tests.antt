-- ===== src/Storage/Collect/Tests.antt =====
-- The theorems on collections at a sample world.
use mathlib.Core.List.{Memᴰ}
use synapx_harness.Prelude.{
  ◌+◌, ◌≡◌, refl, sym, ◌≤◌, String, str_eq, Bool-cases, inl, inr, eq_iff, arith, false,
}
use synapx_harness.Prelude.{length, count_if, All}
use synapx_harness.Storage.Census.{
  RunDir, detect_pinned, detect_status, detect_sealed_evidence, detect_authority_reference,
  detect_review_package,
}
use synapx_harness.Storage.BuildCatalog.{build_catalog, visible_entries, metadata}
use synapx_harness.Storage.Catalog.{RunMetadata}
use synapx_harness.Storage.Plan.Counting.{occurrences}
use synapx_harness.Prelude.Sorting.{sort}
use mathlib.Core.Path.{subst}
use synapx_harness.Storage.Plan.Accounting.{HasDistinctIds}
use synapx_harness.Storage.Collect.{dirs_of, is_guarded, fresh_plan, execute_gc}
use synapx_harness.Storage.Collect.Candidates.{IsDeletable, candidates-IsDeletable}
use synapx_harness.Storage.Collect.Guarded.{execute_gc-keeps_blocked}
use synapx_harness.Storage.Collect.Receipts.{is_deleted, execute_gc-deletions}
use synapx_harness.Storage.Samples.{clock, today, roomy, removes, pinned_dir, world}

execute_gc-keeps_blocked_example :
    Memᴰ pinned_dir (dirs_of (execute_gc clock "2026-03-01" removes world roomy false today).0)
unfolding is_guarded detect_pinned detect_status detect_sealed_evidence detect_authority_reference
    detect_review_package
execute_gc-keeps_blocked_example =
    execute_gc-keeps_blocked clock "2026-03-01" removes roomy today world false pinned_dir refl
      (Memᴰ.tail (Memᴰ.head refl))

candidates-IsDeletable_example :
    All
      (λ c. (d : RunDir) × IsDeletable world c.path.name d)
      (fresh_plan clock "2026-03-01" world roomy today).candidates
candidates-IsDeletable_example = candidates-IsDeletable "2026-03-01" world clock roomy today

execute_gc-deletions_example :
    length (dirs_of (execute_gc clock "2026-03-01" removes world roomy false today).0)
      + count_if is_deleted
          (execute_gc clock "2026-03-01" removes world roomy false today).1.receipts
    ≡ 3
execute_gc-deletions_example =
    execute_gc-deletions clock "2026-03-01" removes world roomy today false

abbrev AtMostOnce : String → Type 0
AtMostOnce s =
    occurrences (λ (r : RunMetadata). r.run_id) s (build_catalog "2026-03-01" world).catalog.runs
    ≤ 1

world-HasDistinctIds : HasDistinctIds (build_catalog "2026-03-01" world).catalog
unfolding build_catalog visible_entries sort metadata
world-HasDistinctIds s = elim (Bool-cases (str_eq s "a1")) [
  | inl e ↦ subst AtMostOnce (sym ((eq_iff s "a1").0 e)) (omega arith)
  | inr not_a ↦ elim (Bool-cases (str_eq s "b1")) [
    | inl e ↦ subst AtMostOnce (sym ((eq_iff s "b1").0 e)) (omega arith)
    | inr not_b ↦ ground arith
  ]
]
