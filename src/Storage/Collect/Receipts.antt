-- ===== src/Storage/Collect/Receipts.antt =====
-- What the receipts of a collection say, and that they agree with the plan and with the world.
use synapx_harness.Prelude.{ℕ, ◌+◌, String, ◌≡◌, refl, ap, Bool, true, false, ◌&&◌, not}
use synapx_harness.Prelude.{Option, none, some, if◌then◌else◌, List, [], ◌∷◌, map, arith}
use synapx_harness.Prelude.{
  length, take, length-map, take-length_append, count_if, sum_by-append, length-append, is_member,
}
use synapx_harness.Storage.Catalog.{StorageCatalog, RetentionPolicy, run_count}
use synapx_harness.Storage.Classifier.{ClassificationResult, classify_runs}
use synapx_harness.Storage.Census.{RunDir, World, CensusResult, census_complete}
use synapx_harness.Storage.BuildCatalog.{build_catalog}
use synapx_harness.Storage.Plan.{
  GcPlan, is_protected, is_unknown_left, is_retained_left, run_ids, build_dry_run,
}
use synapx_harness.Storage.Plan.Accounting.{HasDistinctIds, unprotected}
use synapx_harness.Storage.Plan.Totals.{protected-unselected, counts-classes, uncounted}
use synapx_harness.Storage.Collect.{
  DeleteResult, deleted, dry_run, GcResult, DeletionReceipt, candidate_receipt, find_dir, dirs_of,
  fresh_plan, remove_dir, delete_run, collect_candidate, collect, skip_receipts, execute_gc,
}

abbrev is_removal : DeleteResult → Bool
is_removal deleted = true
is_removal _ = false

abbrev pub is_deleted : DeletionReceipt → Bool
is_deleted r = is_removal r.delete_result

abbrev pub is_dry_run : DeletionReceipt → Bool
is_dry_run r = elim r.delete_result [ dry_run ↦ true | _ ↦ false ]

abbrev pub receipt_ids : List DeletionReceipt → List String
receipt_ids rs = map (λ (r : DeletionReceipt). r.run_id) rs

module _ (leftover : RunDir → Option RunDir) where
  length-remove_dir :
      (name : String) (dirs : List RunDir) (d : RunDir)
      → find_dir name dirs ≡ some d
      → length (remove_dir leftover name dirs) + (elim (leftover d) [ none ↦ 1 | some _ ↦ 0 ])
        ≡ length dirs
  unfolding find_dir remove_dir
  length-remove_dir name [] d h = cc
  length-remove_dir name (e ∷ es) d h = ground (arith, length-remove_dir name es d)

  length-delete_run :
      (w : World) (name : String) (o : Option RunDir)
      → find_dir name (dirs_of w) ≡ o
      → length (dirs_of (delete_run leftover w name o).0)
          + (if is_removal (delete_run leftover w name o).1 then 1 else 0)
        ≡ length (dirs_of w)
  unfolding delete_run
  length-delete_run w name none e = omega arith
  length-delete_run w name (some d) e = ground (arith, length-remove_dir name (dirs_of w) d e)

module _ (fromisoformat : String → Option ℕ) (now_text : String) (leftover : RunDir → Option RunDir)
    (policy : RetentionPolicy) (now : ℕ) where
  length-collect_candidate :
      (w : World) (c : ClassificationResult)
      → let (w', r) = collect_candidate fromisoformat now_text leftover policy now w c in
        length (dirs_of w') + (if is_deleted r then 1 else 0) ≡ length (dirs_of w)
  unfolding collect_candidate
  length-collect_candidate w c =
      ground
        (arith, length-delete_run leftover w c.path.name (find_dir c.path.name (dirs_of w)) refl)

  run_id-collect_candidate :
      (w : World) (c : ClassificationResult)
      → (collect_candidate fromisoformat now_text leftover policy now w c).1.run_id ≡ c.run_id
  unfolding collect_candidate
  run_id-collect_candidate w c = ground arith

  collect_dry :
      (w : World) (cs : List ClassificationResult)
      → collect fromisoformat now_text leftover policy now true w cs
        ≡ (w, map (λ c. candidate_receipt policy c dry_run) cs)
  unfolding collect
  collect_dry w [] = refl
  collect_dry w (c ∷ cs) = rw (collect_dry w cs)

  length-collect :
      (dry : Bool) (w : World) (cs : List ClassificationResult)
      → let (w', receipts) = collect fromisoformat now_text leftover policy now dry w cs in
        (length (dirs_of w') + count_if is_deleted receipts ≡ length (dirs_of w))
        × (receipt_ids receipts ≡ run_ids cs)
  unfolding collect
  length-collect dry w [] = (omega arith, refl)
  length-collect true w (c ∷ cs) =
      (ground (arith, length-collect true w cs), ground (arith, length-collect true w cs))
  length-collect false w (c ∷ cs) =
      let (w', r) = collect_candidate fromisoformat now_text leftover policy now w c in
      let (later, ids) = length-collect false w' cs in
      (
        omega (arith, later, length-collect_candidate w c),
        ground (arith, run_id-collect_candidate w c, ids),
      )

-- The second loop deletes nothing, and writes one receipt for each run that is not a candidate
-- and has none yet.
count_if-skip_receipts :
    (policy : RetentionPolicy) (handled selected : List String) (cs : List ClassificationResult)
    → count_if is_deleted (skip_receipts policy handled selected cs) ≡ 0
unfolding skip_receipts
count_if-skip_receipts policy handled selected [] = refl
count_if-skip_receipts policy handled selected (c ∷ cs) =
    ground (arith, count_if-skip_receipts policy handled selected cs)

length-skip_receipts :
    (policy : RetentionPolicy) (handled selected : List String) (cs : List ClassificationResult)
    → length (skip_receipts policy handled selected cs)
        + count_if (λ c. not (unprotected c) && is_member c.run_id handled) cs
      ≡ count_if is_protected cs
        + count_if (is_unknown_left handled) cs
        + count_if (is_retained_left handled) cs
unfolding skip_receipts
length-skip_receipts policy handled selected [] = refl
length-skip_receipts policy handled selected (c ∷ cs) =
    ground (arith, length-skip_receipts policy handled selected cs)

candidates-incomplete :
    (fromisoformat : String → Option ℕ) (catalog : StorageCatalog) (policy : RetentionPolicy)
    (now : ℕ) {complete : Bool}
    → complete ≡ false
    → (build_dry_run fromisoformat catalog policy now complete).candidates ≡ []
unfolding build_dry_run
candidates-incomplete fromisoformat catalog policy now {complete} h = rw h

module _ (fromisoformat : String → Option ℕ) (now_text : String) (leftover : RunDir → Option RunDir)
    (w : World) (policy : RetentionPolicy) (now : ℕ) where
  abbrev pub result : Bool → World × GcResult
  result dry = execute_gc fromisoformat now_text leftover w policy dry now

  abbrev pub census : CensusResult
  census = build_catalog now_text w

  abbrev plan : GcPlan
  plan = fresh_plan fromisoformat now_text w policy now

  abbrev collected : Bool → World × List DeletionReceipt
  collected dry = collect fromisoformat now_text leftover policy now dry w plan.candidates

  abbrev skipped : Bool → List DeletionReceipt
  skipped dry =
      skip_receipts policy (receipt_ids (collected dry).1) (run_ids plan.candidates)
        (classify_runs fromisoformat census.catalog.runs policy now)

  -- The directories that are left and the DELETED receipts make up the directories that were there.
  pub execute_gc-deletions :
      (dry : Bool)
      → length (dirs_of (result dry).0) + count_if is_deleted (result dry).1.receipts
        ≡ length (dirs_of w)
  unfolding execute_gc
  execute_gc-deletions dry = omega (
    arith,
    sum_by-append (λ r. if is_deleted r then 1 else 0) (collected dry).1 (skipped dry),
    length-collect fromisoformat now_text leftover policy now dry w plan.candidates,
    count_if-skip_receipts policy (receipt_ids (collected dry).1) (run_ids plan.candidates)
        (classify_runs fromisoformat census.catalog.runs policy now),
  )

  -- A dry run changes nothing, deletes nothing, and gives each candidate a DRY_RUN receipt first.
  pub execute_gc-dry :
      ((result true).0 ≡ w)
      × (take (length plan.candidates) (result true).1.receipts
          ≡ map (λ c. candidate_receipt policy c dry_run) plan.candidates)
      × (count_if is_deleted (result true).1.receipts ≡ 0)
  unfolding execute_gc
  execute_gc-dry = (
    ap (λ p. p.0) (collect_dry fromisoformat now_text leftover policy now w plan.candidates),
    rw collect_dry (take-length_append (λ c. candidate_receipt policy c dry_run) plan.candidates _),
    omega (
      arith,
      execute_gc-deletions true,
      ap (λ (p : World × List DeletionReceipt). length (dirs_of p.0))
          (collect_dry fromisoformat now_text leftover policy now w plan.candidates),
    ),
  )

  -- With an incomplete census a collection changes nothing, dry or not.
  pub execute_gc-incomplete : (dry : Bool) → census_complete census ≡ false → (result dry).0 ≡ w
  unfolding execute_gc
  execute_gc-incomplete dry incomplete =
      rw (candidates-incomplete fromisoformat census.catalog policy now incomplete)
        (unfold collect in refl)

  length-skip_receipts_of_plan :
      HasDistinctIds census.catalog
      → (handled : List String) → handled ≡ run_ids plan.candidates
      → length (
            skip_receipts policy handled
              (run_ids plan.candidates)
              (classify_runs fromisoformat census.catalog.runs policy now))
          + length plan.candidates
          + uncounted fromisoformat census.catalog policy now (census_complete census)
        ≡ run_count census.catalog
  length-skip_receipts_of_plan distinct handled ids = rw ids (
      omega (
        arith,
        length-skip_receipts policy (run_ids plan.candidates) (run_ids plan.candidates)
            (classify_runs fromisoformat census.catalog.runs policy now),
        protected-unselected fromisoformat census.catalog policy now (census_complete census)
            distinct,
        counts-classes fromisoformat census.catalog policy now (census_complete census) distinct,
      ))

  -- Where no two runs share an id, there is one receipt for each run, except for the candidates of
  -- the retention time that the plan left out.
  length-receipts :
      (dry : Bool)
      → HasDistinctIds census.catalog
      → length (result dry).1.receipts
          + uncounted fromisoformat census.catalog policy now (census_complete census)
        ≡ run_count census.catalog
  unfolding execute_gc
  length-receipts dry distinct =
      let (_, ids) =
        length-collect fromisoformat now_text leftover policy now dry w plan.candidates in
      omega (
        arith,
        length-append (collected dry).1 (skipped dry),
        length-map (λ (r : DeletionReceipt). r.run_id) (collected dry).1,
        length-map (λ (c : ClassificationResult). c.run_id) plan.candidates,
        ap length ids,
        length-skip_receipts_of_plan distinct (receipt_ids (collected dry).1) ids,
      )
