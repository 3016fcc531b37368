-- ===== src/Storage/Catalog.antt =====
-- storage/catalog.py and storage/policy.py: the metadata of a run, the catalog of all runs, and the
-- retention policy.
use synapx_harness.Prelude.{ℕ, String, Bool, List, length, sum_by, ℤ, pos, negsuc}
use synapx_harness.Prelude.Results.{Result, ok, err}

pub data RunStatus : Type 0 where
  active running incomplete complete unknown : RunStatus

pub data ReferenceState : Type 0 where
  referenced unreferenced unknown : ReferenceState

-- The directory of a run: `_runs`, and the name of the run in it.
pub record RunPath : Type 0 where
  pub parent : String
  pub name : String

pub record RunMetadata : Type 0 where
  pub run_id : String
  pub path : RunPath
  pub size_bytes : ℕ
  pub status : RunStatus
  pub created_at : String
  pub last_known_activity_at : String
  pub pinned : Bool
  pub protected : Bool
  pub reference_state : ReferenceState
  pub has_sealed_evidence : Bool
  pub has_review_package : Bool
  pub has_authority_reference : Bool

pub record StorageCatalog : Type 0 where
  pub runs : List RunMetadata

abbrev pub total_size_bytes : StorageCatalog → ℕ
total_size_bytes c = sum_by (λ r. r.size_bytes) c.runs

abbrev pub run_count : StorageCatalog → ℕ
run_count c = length c.runs

pub record RetentionPolicy : Type 0 where
  pub ttl_days : ℕ
  pub max_total_bytes : ℕ

pub data PolicyError : Type 0 where
  negative_ttl_days negative_max_total_bytes : PolicyError

-- The constructor with the checks of `__post_init__`.
pub retention_policy : ℤ → ℤ → Result PolicyError RetentionPolicy
retention_policy (negsuc _) _ = err negative_ttl_days
retention_policy (pos ttl) (negsuc _) = err negative_max_total_bytes
retention_policy (pos ttl) (pos max) = ok (record { ttl_days = ttl; max_total_bytes = max })
