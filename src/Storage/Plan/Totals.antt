-- ===== src/Storage/Plan/Totals.antt =====
-- The totals that `build_dry_run` reports.
use synapx_harness.Prelude.{
  ℕ, ◌+◌, ◌-◌, ◌≤◌, ◌<◌, String, ◌≡◌, refl, ◌⊎◌, ◌&&◌, not, Bool, true, false,
}
use synapx_harness.Prelude.{
  List, [], ◌++◌, map, length, sum_by, filter, count_if, is_member, arith, Option,
}
use synapx_harness.Prelude.{sum_by-filter_le, str_eq, if◌then◌else◌}
use synapx_harness.Storage.Catalog.{StorageCatalog, total_size_bytes, run_count, RetentionPolicy}
use synapx_harness.Storage.Classifier.{ClassificationResult, classify_runs}
use synapx_harness.Prelude.Sorting.{IsSorted, sort-IsSorted, sum_by-sort}
use synapx_harness.Storage.Order.{key_lt, key_lt_asymm}
use synapx_harness.Storage.Plan.{
  GcPlan, size, is_protected, is_candidate, is_unknown_left, is_retained_left, run_ids,
  promote_for_quota, sort_candidates, get_quota_eligible, select_loop, select_quota_candidates,
  select, build_dry_run,
}
use synapx_harness.Storage.Plan.Counting.{occurrences, count_if-unselected, count_if-all_selected}
use synapx_harness.Storage.Plan.Accounting.{
  HasDistinctIds, class_id, unprotected, is_unselected_candidate, sum_by-promote, sum_by-select_le,
  sum_by_size-classify_runs, length-classify_runs, occurrences-classify_runs,
  safe_among_unprotected, candidates_among_unprotected, counts-plan_of,
}
use synapx_harness.Storage.Plan.Quota.{
  leftover, all_but_last, select_loop-append-leftover, select-within_quota, select_loop-enough,
  select_loop-minimal,
}

module _ (fromisoformat : String → Option ℕ) (catalog : StorageCatalog) (policy : RetentionPolicy)
    (now : ℕ) where
  abbrev pub plan : Bool → GcPlan
  plan complete = build_dry_run fromisoformat catalog policy now complete

  abbrev pub classes : List ClassificationResult
  classes = classify_runs fromisoformat catalog.runs policy now

  abbrev chosen : List ClassificationResult
  chosen = select classes (total_size_bytes catalog) policy.max_total_bytes

  abbrev excess : ℕ
  excess = total_size_bytes catalog - policy.max_total_bytes

  -- The candidates of the census that the plan neither selects nor counts as kept.
  abbrev pub uncounted : Bool → ℕ
  uncounted complete =
      count_if (is_unselected_candidate (run_ids (plan complete).candidates)) classes

  planned_le_total : sum_by size chosen ≤ total_size_bytes catalog
  planned_le_total =
      sum_by-select_le size (λ c. refl) classes (total_size_bytes catalog) policy.max_total_bytes
        (total_size_bytes catalog)
        (omega (
          arith,
          sum_by-filter_le size (λ (c : ClassificationResult). c.safe_eligible) classes,
          sum_by_size-classify_runs fromisoformat policy now catalog.runs,
        ))
        (omega (
          arith,
          sum_by-filter_le size is_candidate classes,
          sum_by_size-classify_runs fromisoformat policy now catalog.runs,
        ))

  -- The bytes that a plan deletes and the bytes that it leaves make up all bytes of the catalog, and
  -- what stays over the quota is exactly what it leaves beyond the limit.
  pub bytes-build_dry_run :
      (complete : Bool)
      → ((plan complete).planned_delete_bytes + (plan complete).projected_total_after
          ≡ total_size_bytes catalog)
        × ((plan complete).quota_unresolved_bytes
            ≡ (plan complete).projected_total_after - policy.max_total_bytes)
        × ((plan complete).planned_delete_bytes ≡ sum_by size (plan complete).candidates)
  unfolding build_dry_run
  bytes-build_dry_run true = (omega (arith, planned_le_total), refl, refl)
  bytes-build_dry_run false = (omega arith, refl, refl)

  unique_classes : HasDistinctIds catalog → (s : String) → occurrences class_id s classes ≤ 1
  unique_classes distinct s =
      omega (arith, distinct s, occurrences-classify_runs fromisoformat policy now s catalog.runs)

  chosen_among_unprotected :
      (s : String)
      → occurrences class_id s chosen ≤ occurrences class_id s (filter unprotected classes)
  chosen_among_unprotected s =
      sum_by-select_le (λ c. if str_eq s c.run_id then 1 else 0) (λ c. refl) classes
        (total_size_bytes catalog) policy.max_total_bytes _
        (safe_among_unprotected fromisoformat policy now s catalog.runs)
        (candidates_among_unprotected s classes)

  -- Where no two runs share an id, no protected run has the id of a candidate.
  pub protected-unselected :
      (complete : Bool)
      → HasDistinctIds catalog
      → count_if
          (λ c. not (unprotected c) && is_member c.run_id (run_ids (plan complete).candidates))
          classes
        ≡ 0
  unfolding build_dry_run
  protected-unselected true distinct =
      count_if-unselected class_id unprotected classes chosen classes (unique_classes distinct)
        chosen_among_unprotected (λ s. omega arith)
  protected-unselected false distinct =
      count_if-unselected class_id unprotected classes [] classes (unique_classes distinct)
        (λ s. omega arith) (λ s. omega arith)

  -- Where no two runs share an id, the counts of a plan and the candidates that it leaves out make
  -- up all runs.
  counts-build_dry_run :
      (complete : Bool)
      → HasDistinctIds catalog
      → (plan complete).protected_runs
          + (plan complete).unknown_runs
          + (plan complete).retained_runs
          + (plan complete).gc_candidates
          + uncounted complete
        ≡ (plan complete).total_runs
  unfolding build_dry_run
  counts-build_dry_run true distinct = omega (
    arith,
    length-classify_runs fromisoformat policy now catalog.runs,
    counts-plan_of classes chosen (unique_classes distinct) chosen_among_unprotected,
  )
  counts-build_dry_run false distinct = omega (
    arith,
    length-classify_runs fromisoformat policy now catalog.runs,
    counts-plan_of classes [] (unique_classes distinct) (λ s. omega arith),
  )

  -- The same, with the counts written out.
  pub counts-classes :
      (complete : Bool)
      → HasDistinctIds catalog
      → let chosen_ids = run_ids (plan complete).candidates in
        count_if is_protected classes
          + count_if (is_unknown_left chosen_ids) classes
          + count_if (is_retained_left chosen_ids) classes
          + length (plan complete).candidates
          + uncounted complete
        ≡ run_count catalog
  unfolding build_dry_run
  counts-classes true distinct = counts-build_dry_run true distinct
  counts-classes false distinct = counts-build_dry_run false distinct

  uncounted_within_quota : total_size_bytes catalog ≤ policy.max_total_bytes → uncounted true ≡ 0
  unfolding build_dry_run sort_candidates
  uncounted_within_quota within = rw (select-within_quota classes _ _ within) (
      count_if-all_selected class_id is_candidate (sort_candidates classes) classes (λ s. omega (
        arith,
        sum_by-sort key_lt (λ c. if str_eq s c.run_id then 1 else 0) (filter is_candidate classes),
      )))

  -- With a complete census and the total within the quota no candidate is left out: the four counts
  -- alone make up all runs.
  pub counts-build_dry_run_within_quota :
      HasDistinctIds catalog
      → total_size_bytes catalog ≤ policy.max_total_bytes
      → (plan true).protected_runs
          + (plan true).unknown_runs
          + (plan true).retained_runs
          + (plan true).gc_candidates
        ≡ (plan true).total_runs
  counts-build_dry_run_within_quota distinct within =
      omega (arith, counts-build_dry_run true distinct, uncounted_within_quota within)

  eligible-IsSorted : IsSorted key_lt (get_quota_eligible classes)
  unfolding get_quota_eligible
  eligible-IsSorted = sort-IsSorted key_lt key_lt_asymm (filter (λ c. c.safe_eligible) classes)

  -- With a complete census and the total over the quota, the candidates are the promoted `taken`,
  -- where `taken` and `left` make up the eligible runs in ascending order of last activity and id;
  -- the projected total is within the limit or nothing is left; and without the last run of
  -- `taken` the total would stay over it.
  pub candidates-build_dry_run_over_quota :
      policy.max_total_bytes < total_size_bytes catalog
      → (taken left : List ClassificationResult) × ((plan true).candidates
          ≡ map promote_for_quota taken)
        × (taken ++ left ≡ get_quota_eligible classes)
        × IsSorted key_lt (taken ++ left)
        × (((plan true).projected_total_after ≤ policy.max_total_bytes) ⊎ (left ≡ []))
        × (policy.max_total_bytes < total_size_bytes catalog - sum_by size (all_but_last taken))
  unfolding build_dry_run select select_quota_candidates
  candidates-build_dry_run_over_quota over = (
    select_loop excess 0 (get_quota_eligible classes),
    leftover excess 0 (get_quota_eligible classes),
    ground arith,
    select_loop-append-leftover excess 0 (get_quota_eligible classes),
    rw (select_loop-append-leftover excess 0 (get_quota_eligible classes)) eligible-IsSorted,
    ground (
      arith,
      select_loop-enough excess 0 (get_quota_eligible classes),
      sum_by-promote size (λ c. refl) (select_loop excess 0 (get_quota_eligible classes)),
    ),
    omega (arith, select_loop-minimal excess 0 (get_quota_eligible classes) (omega arith)),
  )
