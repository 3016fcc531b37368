-- ===== src/Storage/Classifier/Eligibility.antt =====
-- What `classify_run` decides: when a run is safe to delete, and its class on every branch.
use synapx_harness.Prelude.{ℕ, ◌+◌, ◌*◌, String, ◌≡◌, Bool, true, false, ◌&&◌, ◌||◌, not}
use synapx_harness.Prelude.{Option, none, some, arith, leb, if◌then◌else◌, at_least}
use synapx_harness.Storage.Catalog.{RunMetadata, RetentionPolicy}
use synapx_harness.Storage.Classifier.{
  DeletionClass, protected, keep, gc_candidate, is_nonterminal, is_complete, is_unreferenced, day,
  age_days, parse_iso, classify_run,
}

-- Any of the marks that the harness never deletes over.
abbrev pub is_marked : RunMetadata → Bool
is_marked run =
    run.has_sealed_evidence || run.has_authority_reference || run.has_review_package || run.pinned
    || run.protected

-- Finished, referenced by nothing, and with no mark.
abbrev pub is_safe : RunMetadata → Bool
is_safe run = is_complete run.status && is_unreferenced run.reference_state && not (is_marked run)

-- An age in days reaches the limit exactly when that many whole days have passed.
age_days-reaches :
    (now last limit : ℕ) → at_least limit (age_days now last) ≡ leb (last + limit * day) now
unfolding age_days
age_days-reaches now last limit = ground arith

abbrev pub expired_at : ℕ → RetentionPolicy → Option ℕ → Bool
expired_at now policy none = false
expired_at now policy (some last) = leb (last + policy.ttl_days * day) now

abbrev pub readable : Option ℕ → Bool
readable none = false
readable (some _) = true

-- The class that the retention rules give, from the run's facts alone.
abbrev pub expected_class : RunMetadata → Bool → DeletionClass
expected_class run expired =
    if is_nonterminal run.status
    then keep
    else if is_marked run
    then protected
    else if is_safe run && expired
    then gc_candidate
    else keep

module _ (fromisoformat : String → Option ℕ) (run : RunMetadata) (policy : RetentionPolicy)
    (now : ℕ) where
  -- A run is offered for deletion exactly when it is complete, unreferenced and unmarked, and its
  -- last activity can be read as a time.
  pub safe_eligible-classify_run :
      (classify_run fromisoformat run policy now).safe_eligible
      ≡ (is_safe run && readable (parse_iso fromisoformat run.last_known_activity_at))
  unfolding classify_run
  safe_eligible-classify_run = ground arith

  -- A run that is active, running or incomplete is kept; any other with a mark is protected; a
  -- complete, unreferenced run whose retention time has passed is a candidate; the rest is kept.
  pub classification-classify_run :
      (classify_run fromisoformat run policy now).classification
      ≡ expected_class run
          (expired_at now policy (parse_iso fromisoformat run.last_known_activity_at))
  unfolding classify_run
  classification-classify_run = grind (arith, age_days-reaches)

  -- A result says that the retention time has passed exactly for a complete, unreferenced and
  -- unmarked run whose last activity can be read and lies at least that many whole days back.
  pub ttl_expired-classify_run :
      (classify_run fromisoformat run policy now).ttl_expired
      ≡ (is_safe run && expired_at now policy (parse_iso fromisoformat run.last_known_activity_at))
  unfolding classify_run
  ttl_expired-classify_run = grind (arith, age_days-reaches)

  pub size_bytes-classify_run :
      (classify_run fromisoformat run policy now).size_bytes ≡ run.size_bytes
  unfolding classify_run
  size_bytes-classify_run = ground arith

  pub run_id-classify_run : (classify_run fromisoformat run policy now).run_id ≡ run.run_id
  unfolding classify_run
  run_id-classify_run = ground arith

  pub path-classify_run : (classify_run fromisoformat run policy now).path ≡ run.path
  unfolding classify_run
  path-classify_run = ground arith
