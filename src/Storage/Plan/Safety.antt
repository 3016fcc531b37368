-- ===== src/Storage/Plan/Safety.antt =====
-- Every candidate of a plan is a run that is safe to delete.
use mathlib.Core.List.{Memᴰ}
use synapx_harness.Prelude.{ℕ, ◌+◌, ◌-◌, ◌≤◌, ◌≡◌, refl, String, Bool, true, false, Option}
use synapx_harness.Prelude.{List, [], ◌∷◌, map, filter, All, arith, leb, if◌then◌else◌}
use synapx_harness.Prelude.{ltb}
use synapx_harness.Storage.Catalog.{RunMetadata, StorageCatalog, total_size_bytes, RetentionPolicy}
use synapx_harness.Storage.Classifier.{ClassificationResult, parse_iso, classify_run, classify_runs}
use synapx_harness.Storage.Classifier.Eligibility.{
  is_safe, expired_at, safe_eligible-classify_run, classification-classify_run,
  size_bytes-classify_run, run_id-classify_run, path-classify_run,
}
use synapx_harness.Storage.Order.{key_lt, sort}
use synapx_harness.Prelude.Sorting.{All-sort}
use synapx_harness.Storage.Plan.{
  is_candidate, promote_for_quota, sort_candidates, get_quota_eligible, select_loop,
  select_quota_candidates, select, build_dry_run,
}
use synapx_harness.Storage.Plan.Quota.{select-within_quota}

-- The run that a candidate stands for.
abbrev pub Names : RunMetadata → ClassificationResult → Type 0
Names r c = (c.run_id ≡ r.run_id) × (c.path ≡ r.path) × (c.size_bytes ≡ r.size_bytes)

-- A candidate that stands for a run of the list which is complete, unreferenced and unmarked.
abbrev pub FromSafe : List RunMetadata → ClassificationResult → Type 0
FromSafe runs c = (r : RunMetadata) × Memᴰ r runs × (is_safe r ≡ true) × Names r c

All-select_loop :
    (P : ClassificationResult → Type 0) (over_by freed : ℕ) (cs : List ClassificationResult)
    → All P cs
    → All P (select_loop over_by freed cs)
unfolding select_loop
All-select_loop P over_by freed [] h = tt
All-select_loop P over_by freed (c ∷ cs) h =
    stop (leb over_by freed) (All-select_loop P over_by (freed + c.size_bytes) cs h.1)
  where
    stop :
        (b : Bool)
        → All P (select_loop over_by (freed + c.size_bytes) cs)
        → All P (if b then [] else c ∷ select_loop over_by (freed + c.size_bytes) cs)
    stop true t = tt
    stop false t = (h.0, t)

All-promote :
    (P : ClassificationResult → Type 0) (cs : List ClassificationResult)
    → ((c : ClassificationResult) → P c → P (promote_for_quota c))
    → All P cs
    → All P (map promote_for_quota cs)
All-promote P [] keep h = tt
All-promote P (c ∷ cs) keep h = (keep c h.0, All-promote P cs keep h.1)

-- What holds of the eligible runs and of the candidates holds of what `select` picks.
All-select :
    (P : ClassificationResult → Type 0) (cs : List ClassificationResult) (total max : ℕ)
    → ((c : ClassificationResult) → P c → P (promote_for_quota c))
    → All P (filter (λ c. c.safe_eligible) cs)
    → All P (filter is_candidate cs)
    → All P (select cs total max)
unfolding select get_quota_eligible sort_candidates select_quota_candidates
All-select P cs total max keep hs hc = branch (ltb max total) (leb total max)
  where
    eligible : List ClassificationResult
    eligible = sort (filter (λ c. c.safe_eligible) cs)

    picked : (b : Bool) → All P (if b then [] else select_loop (total - max) 0 eligible)
    picked true = tt
    picked false = All-select_loop P (total - max) 0 eligible (All-sort key_lt P _ hs)

    branch :
        (b d : Bool)
        → All P (
            if b
            then map promote_for_quota (if d then [] else select_loop (total - max) 0 eligible)
            else sort (filter is_candidate cs))
    branch true d = All-promote P _ keep (picked d)
    branch false d = All-sort key_lt P _ hc

module _ (fromisoformat : String → Option ℕ) (policy : RetentionPolicy) (now : ℕ) where
  abbrev classify : RunMetadata → ClassificationResult
  classify run = classify_run fromisoformat run policy now

  Names-classify : (r : RunMetadata) → Names r (classify r)
  Names-classify r = (
    run_id-classify_run fromisoformat r policy now,
    path-classify_run fromisoformat r policy now,
    size_bytes-classify_run fromisoformat r policy now,
  )

  eligible_is_safe : (r : RunMetadata) → (classify r).safe_eligible ≡ true → is_safe r ≡ true
  eligible_is_safe r h = ground (arith, safe_eligible-classify_run fromisoformat r policy now)

  candidate_is_safe :
      (r : RunMetadata)
      → is_candidate (classify r) ≡ true
      → (is_safe r ≡ true)
        × (expired_at now policy (parse_iso fromisoformat r.last_known_activity_at) ≡ true)
  candidate_is_safe r h = ground (arith, classification-classify_run fromisoformat r policy now)

  All-filter-classify :
      (q : ClassificationResult → Bool) (P : ClassificationResult → Type 0)
      (runs rs : List RunMetadata)
      → ((r : RunMetadata) → Memᴰ r rs → Memᴰ r runs)
      → ((r : RunMetadata) → Memᴰ r runs → q (classify r) ≡ true → P (classify r))
      → All P (filter q (map classify rs))
  All-filter-classify q P runs [] inside h = tt
  All-filter-classify q P runs (r ∷ rs) inside h =
      keep (q (classify r)) refl (All-filter-classify q P runs rs (λ x m. inside x (Memᴰ.tail m)) h)
    where
      keep :
          (b : Bool)
          → q (classify r) ≡ b
          → All P (filter q (map classify rs))
          → All P
              (if b then classify r ∷ filter q (map classify rs) else filter q (map classify rs))
      keep true e t = (h r (inside r (Memᴰ.head refl)) e, t)
      keep false e t = t

  -- Every candidate of a plan stands for a run of the catalog that is complete, referenced by
  -- nothing, neither pinned nor protected, and holds no sealed evidence, authority reference or
  -- review package.
  pub candidates-FromSafe :
      (catalog : StorageCatalog) (complete : Bool)
      → All
          (FromSafe catalog.runs)
          (build_dry_run fromisoformat catalog policy now complete).candidates
  unfolding build_dry_run
  candidates-FromSafe catalog false = tt
  candidates-FromSafe catalog true =
      All-select (FromSafe catalog.runs) _ (total_size_bytes catalog) policy.max_total_bytes
        (λ c h. h)
        (All-filter-classify (λ c. c.safe_eligible) (FromSafe catalog.runs) catalog.runs
          catalog.runs (λ r m. m) (λ r m e. (r, m, eligible_is_safe r e, Names-classify r)))
        (All-filter-classify is_candidate (FromSafe catalog.runs) catalog.runs catalog.runs
          (λ r m. m) (λ r m e. (r, m, (candidate_is_safe r e).0, Names-classify r)))

  -- A candidate that stands for a safe run whose retention time has passed.
  abbrev pub FromExpired : List RunMetadata → ClassificationResult → Type 0
  FromExpired runs c =
      (r : RunMetadata) × Memᴰ r runs
      × (is_safe r ≡ true)
      × (expired_at now policy (parse_iso fromisoformat r.last_known_activity_at) ≡ true)
      × Names r c

  -- With a complete census and the total within the quota, every candidate stands for a run of the
  -- catalog that is complete, unreferenced and unmarked and whose retention time has passed.
  pub candidates-FromExpired :
      (catalog : StorageCatalog)
      → total_size_bytes catalog ≤ policy.max_total_bytes
      → All
          (FromExpired catalog.runs)
          (build_dry_run fromisoformat catalog policy now true).candidates
  unfolding build_dry_run
  candidates-FromExpired catalog within =
      rw (select-within_quota (classify_runs fromisoformat catalog.runs policy now) _ _ within) (
        unfold sort_candidates in
        All-sort key_lt (FromExpired catalog.runs) _ (
          All-filter-classify is_candidate (FromExpired catalog.runs) catalog.runs catalog.runs
            (λ r m. m)
            (λ r m e.
              let (safe, expired) = candidate_is_safe r e in
              (r, m, safe, expired, Names-classify r))))
