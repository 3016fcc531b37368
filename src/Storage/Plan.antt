-- ===== src/Storage/Plan.antt =====
-- The planning half of storage/gc.py: which runs a collection would delete. Sizes are not negative
-- (they come from `stat`), so natural numbers stand for them.
pub mod Counting
pub mod Quota
pub mod Accounting
pub mod Totals
pub mod Safety
use synapx_harness.Prelude.{ℕ, ◌+◌, ◌-◌, String, Bool, true, false, ◌&&◌, not}
use synapx_harness.Prelude.{List, [], ◌∷◌, map, length, sum_by, filter, count_if, is_member}
use synapx_harness.Prelude.{ltb, leb, if◌then◌else◌, Option}
use synapx_harness.Storage.Catalog.{StorageCatalog, total_size_bytes, run_count, RetentionPolicy}
use synapx_harness.Storage.Classifier.{
  DeletionClass, protected, keep, gc_candidate, DeletionTrigger, quota, ttl_and_quota,
  ClassificationResult, is_unknown, classify_runs,
}
use synapx_harness.Storage.Order.{sort}

abbrev pub is_protected : ClassificationResult → Bool
is_protected c = elim c.classification [ protected ↦ true | _ ↦ false ]

abbrev pub is_kept : ClassificationResult → Bool
is_kept c = elim c.classification [ keep ↦ true | _ ↦ false ]

abbrev pub is_candidate : ClassificationResult → Bool
is_candidate c = elim c.classification [ gc_candidate ↦ true | _ ↦ false ]

abbrev pub size : ClassificationResult → ℕ
size c = c.size_bytes

-- `_promote_for_quota`
abbrev pub promote_for_quota : ClassificationResult → ClassificationResult
promote_for_quota c = record c {
  classification = gc_candidate;
  deletion_trigger = if c.ttl_expired then ttl_and_quota else quota;
}

pub record GcPlan : Type 0 where
  pub mode : String
  pub total_runs : ℕ
  pub protected_runs : ℕ
  pub unknown_runs : ℕ
  pub retained_runs : ℕ
  pub gc_candidates : ℕ
  pub planned_delete_bytes : ℕ
  pub projected_total_after : ℕ
  pub quota_pressure : Bool
  pub quota_unresolved_bytes : ℕ
  pub candidates : List ClassificationResult

-- `_sort_candidates`
unfoldable pub sort_candidates : List ClassificationResult → List ClassificationResult
sort_candidates cs = sort (filter is_candidate cs)

-- `_get_quota_eligible`
unfoldable pub get_quota_eligible : List ClassificationResult → List ClassificationResult
get_quota_eligible cs = sort (filter (λ c. c.safe_eligible) cs)

-- The loop of `_select_quota_candidates`: it stops once `freed` has reached `over_by`.
unfoldable pub select_loop : ℕ → ℕ → List ClassificationResult → List ClassificationResult
select_loop over_by freed [] = []
select_loop over_by freed (c ∷ cs) =
    let rest = select_loop over_by (freed + c.size_bytes) cs in
    if leb over_by freed then [] else c ∷ rest

-- `_select_quota_candidates`
unfoldable pub select_quota_candidates :
    List ClassificationResult → ℕ → ℕ → List ClassificationResult
unfolding select_loop
select_quota_candidates sorted_candidates total_size max_total_bytes =
    if leb total_size max_total_bytes
    then []
    else select_loop (total_size - max_total_bytes) 0 sorted_candidates

abbrev pub run_ids : List ClassificationResult → List String
run_ids cs = map (λ c. c.run_id) cs

-- The kept runs that are not selected: those of unknown reference state, and the others.
abbrev pub is_unknown_left : List String → ClassificationResult → Bool
is_unknown_left selected c =
    is_kept c && is_unknown c.reference_state && not (is_member c.run_id selected)

abbrev pub is_retained_left : List String → ClassificationResult → Bool
is_retained_left selected c =
    is_kept c && not (is_unknown c.reference_state) && not (is_member c.run_id selected)

-- The selection in the middle of `build_dry_run`.
unfoldable pub select : List ClassificationResult → ℕ → ℕ → List ClassificationResult
select classifications total_size max_total_bytes =
    if ltb max_total_bytes total_size
    then map promote_for_quota
        (select_quota_candidates (get_quota_eligible classifications) total_size max_total_bytes)
    else sort_candidates classifications

-- The plan for given classifications and a given selection. The code writes this record twice: with
-- an empty selection where the census is incomplete, and with `select` where it is complete.
abbrev pub plan_of :
    StorageCatalog
    → RetentionPolicy
    → List ClassificationResult
    → List ClassificationResult
    → GcPlan
plan_of catalog policy classifications selected = record {
  mode = "dry-run";
  total_runs = run_count catalog;
  protected_runs = count_if is_protected classifications;
  unknown_runs = count_if (is_unknown_left (run_ids selected)) classifications;
  retained_runs = count_if (is_retained_left (run_ids selected)) classifications;
  gc_candidates = length selected;
  planned_delete_bytes = sum_by size selected;
  projected_total_after = total_size_bytes catalog - sum_by size selected;
  quota_pressure = ltb policy.max_total_bytes (total_size_bytes catalog);
  quota_unresolved_bytes = total_size_bytes catalog - sum_by size selected - policy.max_total_bytes;
  candidates = selected;
}

module _ (fromisoformat : String → Option ℕ) where
  unfoldable pub build_dry_run : StorageCatalog → RetentionPolicy → ℕ → Bool → GcPlan
  build_dry_run catalog policy now false =
      plan_of catalog policy (classify_runs fromisoformat catalog.runs policy now) []
  build_dry_run catalog policy now true =
      let classifications = classify_runs fromisoformat catalog.runs policy now in
      plan_of catalog policy classifications
        (select classifications (total_size_bytes catalog) policy.max_total_bytes)
