-- ===== src/Storage/Collect.antt =====
-- The executing half of storage/gc.py: `_revalidate_candidate` and `execute_gc`. The world is
-- passed from one candidate to the next. `leftover` stands for `shutil.rmtree`: what it leaves of a
-- directory when it raises `OSError`, or nothing when it removes the whole. A directory that is
-- gone is one with no entries, as `rglob` and `exists` see it. `deleted_at` is not modelled.
pub mod Candidates
pub mod Guarded
pub mod Receipts
mod Tests
use synapx_harness.Prelude.{ℕ, String, str_eq, is_member, Bool, true, false, ◌&&◌, ◌||◌, not}
use synapx_harness.Prelude.{Option, none, some, if◌then◌else◌, List, [], ◌∷◌, ◌++◌, map, any}
use synapx_harness.Storage.Catalog.{
  RunPath, RunMetadata, RetentionPolicy, referenced, ReferenceState,
}
use synapx_harness.Storage.Classifier.{
  DeletionClass, protected, keep, gc_candidate, DeletionTrigger, untriggered, Reason,
  revalidation_failed, Protection, ClassificationResult, is_nonterminal, is_unreferenced,
  is_unknown, classify_runs,
}
use synapx_harness.Storage.Census.{
  RunDir, Project, World, census_complete, detect_status, detect_sealed_evidence,
  detect_review_package, detect_authority_reference, detect_pinned, detect_protected,
}
use synapx_harness.Storage.References.{scan_all_external_references, state_of}
use synapx_harness.Storage.BuildCatalog.{build_catalog}
use synapx_harness.Storage.Plan.{GcPlan, run_ids, build_dry_run}

pub data DeleteResult : Type 0 where
  dry_run deleted delete_failed skipped_revalidation_changed : DeleteResult
  skipped_protected skipped_referenced skipped_retained skipped_unknown : DeleteResult

pub record DeletionReceipt : Type 0 where
  pub run_id : String
  pub path : RunPath
  pub size_bytes_before : ℕ
  pub classification : DeletionClass
  pub reason : List Reason
  pub policy : RetentionPolicy
  pub delete_result : DeleteResult
  pub deletion_trigger : DeletionTrigger

abbrev make_receipt :
    RetentionPolicy
    → ClassificationResult
    → List Reason
    → DeletionTrigger
    → DeleteResult
    → DeletionReceipt
make_receipt policy c reason trigger result = record {
  run_id = c.run_id;
  path = c.path;
  size_bytes_before = c.size_bytes;
  classification = c.classification;
  reason = reason;
  policy = policy;
  delete_result = result;
  deletion_trigger = trigger;
}

-- The receipt of a candidate.
abbrev pub candidate_receipt :
    RetentionPolicy → ClassificationResult → DeleteResult → DeletionReceipt
candidate_receipt policy c result = make_receipt policy c c.reason c.deletion_trigger result

abbrev missing_dir : String → RunDir
missing_dir name = record {
  name = name;
  is_dir = false;
  entries = [];
  pinned_marker = false;
  protected_marker = false;
  times = none;
}

unfoldable pub find_dir : String → List RunDir → Option RunDir
find_dir name [] = none
find_dir name (d ∷ ds) = if str_eq name d.name then some d else find_dir name ds

abbrev pub dirs_of : World → List RunDir
dirs_of w = elim w.runs_root [ none ↦ [] | some dirs ↦ dirs ]

abbrev or_missing : String → Option RunDir → RunDir
or_missing name none = missing_dir name
or_missing name (some d) = d

-- The directory at a path, as the detections see it.
abbrev pub dir_at : World → String → RunDir
dir_at w name = or_missing name (find_dir name (dirs_of w))

-- The marks for which a directory is never deleted, read afresh.
unfoldable pub is_guarded : RunDir → Bool
is_guarded d =
    is_nonterminal (detect_status d)
    || detect_sealed_evidence d
    || detect_authority_reference d
    || detect_review_package d
    || detect_pinned d
    || detect_protected d

abbrev found_unreferenced : Option ReferenceState → Bool
found_unreferenced none = false
found_unreferenced (some state) = is_unreferenced state

-- The fresh scan for one run: it must be complete and find no reference.
unfoldable pub is_still_unreferenced : Option Project → String → Bool
is_still_unreferenced none name = true
is_still_unreferenced (some p) name =
    let (states, complete) = scan_all_external_references p (name ∷ []) in
    complete && found_unreferenced (state_of name states)

abbrev outcome : Option RunDir → DeleteResult
outcome none = deleted
outcome (some _) = delete_failed

module _ (leftover : RunDir → Option RunDir) where
  -- `_runs` after `rmtree` of the directory of that name.
  pub remove_dir : String → List RunDir → List RunDir
  remove_dir name [] = []
  remove_dir name (d ∷ ds) =
      let rest = remove_dir name ds in
      if str_eq name d.name then elim (leftover d) [ none ↦ ds | some d' ↦ d' ∷ ds ] else d ∷ rest

  abbrev pub removed : World → String → World
  removed w name = record w { runs_root = some (remove_dir name (dirs_of w)) }

  -- The `try` of the loop: `rmtree` where the path is a directory.
  pub delete_run : World → String → Option RunDir → World × DeleteResult
  delete_run w name none = (w, delete_failed)
  delete_run w name (some d) =
      if d.is_dir then (removed w name, outcome (leftover d)) else (w, delete_failed)

abbrev is_nonterminal_token : Protection → Bool
is_nonterminal_token (Protection.status s) = is_nonterminal s
is_nonterminal_token _ = false

-- The reason for which a kept run was passed over.
unfoldable pub skip_result : List String → ClassificationResult → DeleteResult
skip_result selected c =
    if any is_nonterminal_token c.protection_state
    then skipped_protected
    else elim c.reference_state [
      | referenced ↦ skipped_referenced
      | _ ↦
          if c.safe_eligible && not c.ttl_expired && not (is_member c.run_id selected)
          then skipped_retained
          else skipped_unknown
    ]

-- The second loop of `execute_gc`, over all classifications.
unfoldable pub skip_receipts :
    RetentionPolicy → List String → List String → List ClassificationResult → List DeletionReceipt
unfolding skip_result
skip_receipts policy handled selected [] = []
skip_receipts policy handled selected (c ∷ cs) =
    let rest = skip_receipts policy handled selected cs in
    if is_member c.run_id handled then rest else elim c.classification [
      | protected ↦ make_receipt policy c c.reason untriggered skipped_protected ∷ rest
      | keep ↦ make_receipt policy c c.reason untriggered (skip_result selected c) ∷ rest
      | gc_candidate ↦ rest
    ]

pub record GcResult : Type 0 where
  pub plan : GcPlan
  pub receipts : List DeletionReceipt

module _ (fromisoformat : String → Option ℕ) (now_text : String) where
  abbrev pub fresh_plan : World → RetentionPolicy → ℕ → GcPlan
  fresh_plan w policy now =
      let census = build_catalog now_text w in
      build_dry_run fromisoformat census.catalog policy now (census_complete census)

  -- `_revalidate_candidate`, with the policy and the time that `execute_gc` passes.
  unfoldable pub revalidate_candidate : World → String → RetentionPolicy → ℕ → Bool
  revalidate_candidate w name policy now =
      not (is_guarded (dir_at w name))
      && is_still_unreferenced w.project name
      && is_member name (run_ids (fresh_plan w policy now).candidates)

  module _ (leftover : RunDir → Option RunDir) (policy : RetentionPolicy) (now : ℕ) where
    -- One candidate, when this is no dry run.
    unfoldable pub collect_candidate : World → ClassificationResult → World × DeletionReceipt
    unfolding delete_run remove_dir
    collect_candidate w c =
        if revalidate_candidate w c.path.name policy now
        then (let (w', result) =
              delete_run leftover w c.path.name (find_dir c.path.name (dirs_of w)) in
            (w', candidate_receipt policy c result))
        else (
          w,
          make_receipt policy c (revalidation_failed ∷ []) c.deletion_trigger
              skipped_revalidation_changed,
        )

    -- The loop over the candidates of the plan.
    unfoldable pub collect : Bool → World → List ClassificationResult → World × List DeletionReceipt
    collect dry w [] = (w, [])
    collect true w (c ∷ cs) =
        let (w', receipts) = collect true w cs in
        (w', candidate_receipt policy c dry_run ∷ receipts)
    collect false w (c ∷ cs) =
        let (w', receipt) = collect_candidate w c in
        let (w'', receipts) = collect false w' cs in (w'', receipt ∷ receipts)

  unfoldable pub execute_gc :
      (RunDir → Option RunDir) → World → RetentionPolicy → Bool → ℕ → World × GcResult
  execute_gc leftover w policy dry now =
      let plan = fresh_plan w policy now in
      let (w', receipts) = collect leftover policy now dry w plan.candidates in
      let handled = map (λ (r : DeletionReceipt). r.run_id) receipts in
      let classes =
        classify_runs fromisoformat (build_catalog now_text w).catalog.runs policy now in
      (
        w',
        record {
          plan = plan;
          receipts = receipts ++ skip_receipts policy handled (run_ids plan.candidates) classes;
        },
      )
