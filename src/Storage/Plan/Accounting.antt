-- ===== src/Storage/Plan/Accounting.antt =====
-- What the numbers of a plan add up to.
use synapx_harness.Prelude.{ℕ, ◌+◌, ◌-◌, ◌≤◌, String, ◌≡◌, refl, Bool, true, false, ◌&&◌, not}
use synapx_harness.Prelude.{List, [], ◌∷◌, map, length, sum_by, filter, count_if, is_member}
use synapx_harness.Prelude.{arith, Option}
use synapx_harness.Storage.Catalog.{RunMetadata, StorageCatalog, RetentionPolicy}
use synapx_harness.Storage.Classifier.{ClassificationResult, classify_run}
use synapx_harness.Storage.Classifier.Eligibility.{
  safe_eligible-classify_run, classification-classify_run, size_bytes-classify_run,
  run_id-classify_run,
}
use synapx_harness.Storage.Order.{sort}
use synapx_harness.Prelude.Sorting.{sum_by-sort}
use synapx_harness.Storage.Order.{key_lt}
use synapx_harness.Storage.Plan.{
  size, is_protected, is_candidate, is_unknown_left, is_retained_left, promote_for_quota, run_ids,
  sort_candidates, get_quota_eligible, select_loop, select_quota_candidates, select,
}
use synapx_harness.Storage.Plan.Counting.{
  occurrences, occurrences-filter_le, count_if-member, count_if-unselected,
}

-- No two runs of the catalog share an id: the ids are the names of one directory's entries.
abbrev pub HasDistinctIds : StorageCatalog → Type 0
HasDistinctIds catalog =
    (s : String) → occurrences (λ (r : RunMetadata). r.run_id) s catalog.runs ≤ 1

abbrev pub class_id : ClassificationResult → String
class_id c = c.run_id

abbrev pub unprotected : ClassificationResult → Bool
unprotected c = not (is_protected c)

-- A sum over what `select` picks is at most the sum over the classifications, where promotion does
-- not change what is summed.
module _ (f : ClassificationResult → ℕ)
    (same : (c : ClassificationResult) → f (promote_for_quota c) ≡ f c) where
  pub sum_by-promote :
      (cs : List ClassificationResult) → sum_by f (map promote_for_quota cs) ≡ sum_by f cs
  sum_by-promote [] = refl
  sum_by-promote (c ∷ cs) = omega (arith, same c, sum_by-promote cs)

  sum_by-select_loop_le :
      (over_by freed : ℕ) (cs : List ClassificationResult)
      → sum_by f (select_loop over_by freed cs) ≤ sum_by f cs
  unfolding select_loop
  sum_by-select_loop_le over_by freed [] = omega arith
  sum_by-select_loop_le over_by freed (c ∷ cs) =
      ground (arith, sum_by-select_loop_le over_by (freed + c.size_bytes) cs)

  sum_by-select_quota_le :
      (cs : List ClassificationResult) (total max : ℕ)
      → sum_by f (select_quota_candidates cs total max) ≤ sum_by f cs
  unfolding select_quota_candidates
  sum_by-select_quota_le cs total max = ground (arith, sum_by-select_loop_le (total - max) 0 cs)

  -- Bounds on the two kinds of selection carry over to `select`.
  pub sum_by-select_le :
      (cs : List ClassificationResult) (total max bound : ℕ)
      → sum_by f (filter (λ c. c.safe_eligible) cs) ≤ bound
      → sum_by f (filter is_candidate cs) ≤ bound
      → sum_by f (select cs total max) ≤ bound
  unfolding select get_quota_eligible sort_candidates
  sum_by-select_le cs total max bound hs hc = ground (
    arith,
    sum_by-promote (select_quota_candidates (sort (filter (λ c. c.safe_eligible) cs)) total max),
    sum_by-select_quota_le (sort (filter (λ c. c.safe_eligible) cs)) total max,
    sum_by-sort key_lt f (filter (λ c. c.safe_eligible) cs),
    sum_by-sort key_lt f (filter is_candidate cs),
  )

module _ (fromisoformat : String → Option ℕ) (policy : RetentionPolicy) (now : ℕ) where
  abbrev pub classify : RunMetadata → ClassificationResult
  classify run = classify_run fromisoformat run policy now

  pub sum_by_size-classify_runs :
      (runs : List RunMetadata) → sum_by size (map classify runs) ≡ sum_by (λ r. r.size_bytes) runs
  sum_by_size-classify_runs [] = refl
  sum_by_size-classify_runs (r ∷ rs) =
      omega
        (arith, size_bytes-classify_run fromisoformat r policy now, sum_by_size-classify_runs rs)

  pub length-classify_runs : (runs : List RunMetadata) → length (map classify runs) ≡ length runs
  length-classify_runs [] = refl
  length-classify_runs (r ∷ rs) = omega (arith, length-classify_runs rs)

  pub occurrences-classify_runs :
      (s : String) (runs : List RunMetadata)
      → occurrences class_id s (map classify runs)
        ≡ occurrences (λ (r : RunMetadata). r.run_id) s runs
  occurrences-classify_runs s [] = refl
  occurrences-classify_runs s (r ∷ rs) =
      rw (run_id-classify_run fromisoformat r policy now)
        (omega (arith, occurrences-classify_runs s rs))

  -- A safe run is not protected, so the safe ones are among the unprotected ones.
  safe-unprotected :
      (r : RunMetadata) → (classify r).safe_eligible ≡ true → is_protected (classify r) ≡ false
  safe-unprotected r h = ground (
    arith,
    safe_eligible-classify_run fromisoformat r policy now,
    classification-classify_run fromisoformat r policy now,
  )

  pub safe_among_unprotected :
      (s : String) (runs : List RunMetadata)
      → occurrences class_id s (filter (λ c. c.safe_eligible) (map classify runs))
        ≤ occurrences class_id s (filter unprotected (map classify runs))
  safe_among_unprotected s [] = omega arith
  safe_among_unprotected s (r ∷ rs) =
      ground (arith, safe-unprotected r, safe_among_unprotected s rs)

pub candidates_among_unprotected :
    (s : String) (cs : List ClassificationResult)
    → occurrences class_id s (filter is_candidate cs)
      ≤ occurrences class_id s (filter unprotected cs)
candidates_among_unprotected s [] = omega arith
candidates_among_unprotected s (c ∷ cs) = ground (arith, candidates_among_unprotected s cs)

-- The candidates that a selection leaves out.
abbrev pub is_unselected_candidate : List String → ClassificationResult → Bool
is_unselected_candidate selected c = is_candidate c && not (is_member c.run_id selected)

-- Each classification is in exactly one of the counts, or is protected and selected.
classes_partition :
    (chosen : List String) (cs : List ClassificationResult)
    → count_if is_protected cs
        + count_if (is_unknown_left chosen) cs
        + count_if (is_retained_left chosen) cs
        + count_if (is_unselected_candidate chosen) cs
        + count_if (λ c. is_member c.run_id chosen) cs
      ≡ length cs + count_if (λ c. not (unprotected c) && is_member c.run_id chosen) cs
classes_partition chosen [] = refl
classes_partition chosen (c ∷ cs) = ground (arith, classes_partition chosen cs)

-- The counts of a plan whose selection takes no run twice and no protected run.
pub counts-plan_of :
    (cs selected : List ClassificationResult)
    → ((s : String) → occurrences class_id s cs ≤ 1)
    → ((s : String)
        → occurrences class_id s selected ≤ occurrences class_id s (filter unprotected cs))
    → count_if is_protected cs
        + count_if (is_unknown_left (run_ids selected)) cs
        + count_if (is_retained_left (run_ids selected)) cs
        + length selected
        + count_if (is_unselected_candidate (run_ids selected)) cs
      ≡ length cs
counts-plan_of cs selected unique sub = omega (
  arith,
  classes_partition (run_ids selected) cs,
  count_if-unselected class_id unprotected cs selected cs unique sub (λ s. omega arith),
  count_if-member class_id selected cs
      (λ s. omega (arith, sub s, occurrences-filter_le class_id s unprotected cs)) unique,
)
