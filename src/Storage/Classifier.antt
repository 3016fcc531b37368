-- ===== src/Storage/Classifier.antt =====
-- storage/classifier.py: which runs may be deleted, and why.
-- `fromisoformat` stands for `datetime.fromisoformat`: the instant that a text names, in
-- microseconds, read as UTC where it has no offset (`_parse_iso` sets UTC there), or nothing where
-- it raises. Reasons and protections are lists of their parts; the code joins them with "; ".
pub mod Eligibility
use synapx_harness.Prelude.{ℕ, ◌+◌, ◌-◌, ◌*◌, ◌/◌, String, ◌<>◌, str_eq}
use synapx_harness.Prelude.{Bool, true, false, Option, none, some, List, [], ◌∷◌, ◌++◌, map}
use synapx_harness.Prelude.{not, leb, if◌then◌else◌, ℤ, pos, negsuc, at_least}
use synapx_harness.Storage.Catalog.{
  RunStatus, active, running, incomplete, complete, ReferenceState, referenced, unreferenced,
  RunPath, RunMetadata, RetentionPolicy,
}

pub data DeletionClass : Type 0 where
  protected keep gc_candidate : DeletionClass

-- `NONE`, `TTL`, `QUOTA`, `TTL_AND_QUOTA`
pub data DeletionTrigger : Type 0 where
  untriggered ttl quota ttl_and_quota : DeletionTrigger

pub data Reason : Type 0 where
  status_is status_not_terminal : RunStatus → Reason
  sealed_evidence_present authority_reference_present review_package_present : Reason
  pinned_true protected_true : Reason
  reference_state_is : ReferenceState → Reason
  activity_unparseable : Reason
  age_reaches_ttl age_below_ttl : ℤ → ℕ → Reason
  revalidation_failed : Reason

pub data Protection : Type 0 where
  pinned protected sealed_evidence authority_reference review_package : Protection
  status : RunStatus → Protection

pub record ClassificationResult : Type 0 where
  pub run_id : String
  pub path : RunPath
  pub size_bytes : ℕ
  pub classification : DeletionClass
  pub reason : List Reason
  pub retention_basis : ℕ
  pub reference_state : ReferenceState
  pub protection_state : List Protection
  pub eligible_timestamp : String
  pub ttl_expired : Bool
  pub safe_eligible : Bool
  pub deletion_trigger : DeletionTrigger

-- `status in (ACTIVE, RUNNING, INCOMPLETE)`
abbrev pub is_nonterminal : RunStatus → Bool
is_nonterminal active = true
is_nonterminal running = true
is_nonterminal incomplete = true
is_nonterminal _ = false

abbrev pub is_complete : RunStatus → Bool
is_complete complete = true
is_complete _ = false

abbrev pub is_unreferenced : ReferenceState → Bool
is_unreferenced unreferenced = true
is_unreferenced _ = false

abbrev pub is_unknown : ReferenceState → Bool
is_unknown ReferenceState.unknown = true
is_unknown _ = false

abbrev when_true : Bool → Protection → List Protection
when_true b p = if b then p ∷ [] else []

abbrev protection_parts : RunMetadata → List Protection
protection_parts run =
    when_true run.pinned Protection.pinned
    ++ (when_true run.protected Protection.protected
        ++ (when_true run.has_sealed_evidence sealed_evidence
            ++ (when_true run.has_authority_reference authority_reference
                ++ (when_true run.has_review_package review_package
                    ++ when_true (is_nonterminal run.status) (status run.status)))))

-- `_make_result`, with `eligible_timestamp` as every call of it passes it.
make_result :
    RunMetadata
    → DeletionClass
    → List Reason
    → RetentionPolicy
    → Bool
    → Bool
    → DeletionTrigger
    → ClassificationResult
make_result run classification reason policy expired safe trigger = record {
  run_id = run.run_id;
  path = run.path;
  size_bytes = run.size_bytes;
  classification = classification;
  reason = reason;
  retention_basis = policy.ttl_days;
  reference_state = run.reference_state;
  protection_state = protection_parts run;
  eligible_timestamp = run.last_known_activity_at;
  ttl_expired = expired;
  safe_eligible = safe;
  deletion_trigger = trigger;
}

-- A result with the defaults of `_make_result`.
abbrev refused : RunMetadata → DeletionClass → List Reason → RetentionPolicy → ClassificationResult
refused run classification reason policy =
    make_result run classification reason policy false false untriggered

-- `s.replace("Z", "+00:00")`
unfoldable pub replace_z : String → String
replace_z String.[] = ""
replace_z (String.◌∷◌ c s) =
    let rest = replace_z s in
    if str_eq (String.◌∷◌ c "") "Z" then "+00:00" <> rest else String.◌∷◌ c rest

abbrev pub day : ℕ
day = 86400 * 1000000

-- `(now - last).days`, which rounds down.
unfoldable pub age_days : ℕ → ℕ → ℤ
age_days now last =
    if leb last now then pos ((now - last) / day) else negsuc ((last - now - 1) / day)

module _ (fromisoformat : String → Option ℕ) where
  unfoldable pub parse_iso : String → Option ℕ
  parse_iso s = fromisoformat (replace_z s)

  -- The end of `classify_run`, for a run that is complete, unreferenced and not protected.
  classify_age : RunMetadata → RetentionPolicy → ℕ → ClassificationResult
  classify_age run policy now = elim (parse_iso run.last_known_activity_at) [
    | none ↦ refused run keep (activity_unparseable ∷ []) policy
    | some last ↦
        let age = age_days now last in
        if at_least policy.ttl_days age
        then make_result run gc_candidate
            (status_is complete
              ∷ reference_state_is unreferenced
              ∷ age_reaches_ttl age policy.ttl_days
              ∷ [])
            policy true true ttl
        else make_result run keep (age_below_ttl age policy.ttl_days ∷ []) policy false true
            untriggered
  ]

  pub classify_run : RunMetadata → RetentionPolicy → ℕ → ClassificationResult
  unfolding make_result classify_age
  classify_run run policy now =
      if is_nonterminal run.status
      then refused run keep (status_is run.status ∷ []) policy
      else if run.has_sealed_evidence
      then refused run protected (sealed_evidence_present ∷ []) policy
      else if run.has_authority_reference
      then refused run protected (authority_reference_present ∷ []) policy
      else if run.has_review_package
      then refused run protected (review_package_present ∷ []) policy
      else if run.pinned
      then refused run protected (pinned_true ∷ []) policy
      else if run.protected
      then refused run protected (protected_true ∷ []) policy
      else if is_unknown run.reference_state
      then refused run keep (reference_state_is ReferenceState.unknown ∷ []) policy
      else if not (is_complete run.status)
      then refused run keep (status_not_terminal run.status ∷ []) policy
      else if not (is_unreferenced run.reference_state)
      then refused run keep (reference_state_is referenced ∷ []) policy
      else classify_age run policy now

  abbrev pub classify_runs : List RunMetadata → RetentionPolicy → ℕ → List ClassificationResult
  classify_runs runs policy now = map (λ run. classify_run run policy now) runs
