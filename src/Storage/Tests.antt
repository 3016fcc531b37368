-- ===== src/Storage/Tests.antt =====
-- The theorems on classification, planning, detection and the reference scan at sample runs.
use synapx_harness.Prelude.{
  ◌+◌, ◌-◌, ◌≤◌, ◌<◌, ◌≡◌, refl, sym, String, str_eq, Bool-cases, inl, inr, ◌⊎◌, eq_iff, arith,
  true, false,
}
use synapx_harness.Prelude.{List, [], ◌∷◌, ◌++◌, map, sum_by}
use synapx_harness.Prelude.Sorting.{IsSorted}
use synapx_harness.Storage.Catalog.{RunMetadata}
use synapx_harness.Storage.Classifier.{
  ClassificationResult, gc_candidate, classify_run, parse_iso, replace_z,
}
use synapx_harness.Storage.Classifier.Eligibility.{classification-classify_run}
use synapx_harness.Storage.References.{scan_all_external_references, state_of}
use synapx_harness.Storage.References.Mentions.{Unmentioned, unreferenced-Unmentioned}
use synapx_harness.Storage.Order.{key_lt}
use synapx_harness.Storage.Plan.{promote_for_quota, get_quota_eligible, size}
use mathlib.Core.Path.{subst}
use synapx_harness.Storage.Plan.Counting.{occurrences}
use synapx_harness.Storage.Plan.Accounting.{HasDistinctIds}
use synapx_harness.Storage.Plan.Quota.{all_but_last}
use synapx_harness.Storage.Plan.Totals.{
  plan, classes, bytes-build_dry_run, candidates-build_dry_run_over_quota,
}
use synapx_harness.Storage.Samples.{clock, today, roomy, tight, run, catalog, project}

classification-classify_run_example :
    (classify_run clock (run "a" 100 "2026-01-01" false) roomy today).classification ≡ gc_candidate
unfolding parse_iso replace_z
classification-classify_run_example =
    classification-classify_run clock (run "a" 100 "2026-01-01" false) roomy today

abbrev AtMostOnce : String → Type 0
AtMostOnce s = occurrences (λ (r : RunMetadata). r.run_id) s catalog.runs ≤ 1

catalog-HasDistinctIds : HasDistinctIds catalog
catalog-HasDistinctIds s = elim (Bool-cases (str_eq s "a")) [
  | inl e ↦ subst AtMostOnce (sym ((eq_iff s "a").0 e)) (omega arith)
  | inr not_a ↦ elim (Bool-cases (str_eq s "b")) [
    | inl e ↦ subst AtMostOnce (sym ((eq_iff s "b").0 e)) (omega arith)
    | inr not_b ↦ ground arith
  ]
]

bytes-build_dry_run_example :
    ((plan clock catalog tight today true).planned_delete_bytes
        + (plan clock catalog tight today true).projected_total_after
      ≡ 165)
    × ((plan clock catalog tight today true).quota_unresolved_bytes
        ≡ (plan clock catalog tight today true).projected_total_after - 100)
    × ((plan clock catalog tight today true).planned_delete_bytes
        ≡ sum_by size (plan clock catalog tight today true).candidates)
bytes-build_dry_run_example = bytes-build_dry_run clock catalog tight today true

candidates-build_dry_run_over_quota_example :
    (taken left : List ClassificationResult) × ((plan clock catalog tight today true).candidates
      ≡ map promote_for_quota taken)
    × (taken ++ left ≡ get_quota_eligible (classes clock catalog tight today))
    × IsSorted key_lt (taken ++ left)
    × (((plan clock catalog tight today true).projected_total_after ≤ 100) ⊎ (left ≡ []))
    × (100 < 165 - sum_by size (all_but_last taken))
candidates-build_dry_run_over_quota_example =
    candidates-build_dry_run_over_quota clock catalog tight today (omega arith)

unreferenced-Unmentioned_example :
    Unmentioned "a1" project.tracks
    × Unmentioned "a1" project.review
    × Unmentioned "a1" project.evidence
unfolding scan_all_external_references state_of
unreferenced-Unmentioned_example = unreferenced-Unmentioned project ("a1" ∷ "b1" ∷ []) "a1" refl
