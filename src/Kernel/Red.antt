-- ===== src/Kernel/Red.antt =====
-- kernel/red_qualification.py: the expectation of a RED run, the observation of one, and the comparator
-- that alone says whether the failure is the intended defect. `digest` stands for
-- `hashlib.sha256(data).hexdigest()`.
pub mod Match
pub mod Loading
mod Tests
use synapx_harness.Prelude.{ℕ, zero, suc, String, ◌<>◌, str_eq, is_member, text_lt}
use synapx_harness.Prelude.{Bool, true, false, ◌&&◌, ◌||◌, not, if◌then◌else◌}
use synapx_harness.Prelude.{Option, none, some, List, [], ◌∷◌, ℤ, pos, int_eq}
use synapx_harness.Prelude.Results.{Result, ok, err, ◌>>=◌, ◌>>◌, raise_if}
use synapx_harness.Prelude.Sorting.{sort}
use synapx_harness.Mutation.Bytes.{Bytes, encode}
use Prim.Native.Char.{char}

abbrev pub supported_match_rules : List String
supported_match_rules = "EXACT_FAILED_TEST_IDS" ∷ []

abbrev pub authoritative_source_types : List String
authoritative_source_types =
    "BENCHMARK_FIXTURE" ∷ "USER_DECLARED" ∷ "OPERATOR_DECLARED" ∷ "REPOSITORY_EVIDENCE" ∷ []

abbrev pub failure_kinds : List String
failure_kinds = "TEST_FAILURE" ∷ "COLLECTION_ERROR" ∷ "INFRASTRUCTURE_ERROR" ∷ "UNKNOWN" ∷ []

pub record QualifiedRedExpectation : Type 0 where
  pub expectation_id : String
  pub expectation_version : ℤ
  pub status : String
  pub source_type : String
  pub source_revision : String
  pub command_fingerprint : String
  pub expected_exit_code : ℤ
  pub match_rule : String
  pub required_failed_test_ids : List String
  pub provenance_source_ref : String
  pub provenance_source_sha256 : String

-- An observation, less the references to its logs and their sizes, which no check reads.
pub record RedObservation : Type 0 where
  pub observation_id : String
  pub source_revision : String
  pub command_fingerprint : String
  pub exit_code : ℤ
  pub failure_kind : String
  pub failed_test_ids : List String
  pub job_id : String
  pub task_id : String
  pub attempt_id : String

pub data ObservationError : Type 0 where
  unknown_failure_kind : ObservationError

-- The constructor with `__post_init__`.
unfoldable pub red_observation : RedObservation → Result ObservationError RedObservation
red_observation o = do
  raise_if (not (is_member o.failure_kind failure_kinds)) unknown_failure_kind
  ok o

-- The reasons of a mismatch, in the order of the checks.
pub data Mismatch : Type 0 where
  unsupported_match_rule revision_mismatch fingerprint_mismatch expected_exit_not_one : Mismatch
  exit_code_differs not_a_test_failure no_required_ids failed_ids_differ : Mismatch

-- The evidence, less its time stamp.
pub record RedQualificationEvidence : Type 0 where
  pub qualification_id : String
  pub expectation_id : String
  pub expectation_version : ℤ
  pub observation_id : String
  pub source_revision : String
  pub command_fingerprint : String
  pub comparator_version : String
  pub expected_exit_code : ℤ
  pub observed_exit_code : ℤ
  pub expected_failed_test_ids : List String
  pub observed_failed_test_ids : List String
  pub match_result : Bool
  pub failure_reason_matches_intended_defect : Bool
  pub reason : Option Mismatch
  pub work_contract_id : String
  pub work_contract_schema_version : String
  pub job_id : String
  pub task_id : String
  pub attempt_id : String
  pub expectation_source_type : String
  pub expectation_provenance_ref : String
  pub expectation_provenance_sha256 : String
  pub command_receipt_id : String

abbrev comparator_version_text : String
comparator_version_text = "1"

-- The character that joins the parts of an id.
abbrev separator : String
separator = String.◌∷◌ (char 0 tt) ""

-- `text[:n]`
abbrev pub prefix : ℕ → String → String
prefix n String.[] = ""
prefix zero (String.◌∷◌ c s) = ""
prefix (suc n) (String.◌∷◌ c s) = String.◌∷◌ c (prefix n s)

-- `_qualification_id`
unfoldable pub qualification_id_of : (Bytes → String) → String → String → String
qualification_id_of digest expectation_id observation_id = prefix 32 (
    digest (
      encode (
        expectation_id
        <> (separator <> (observation_id <> (separator <> comparator_version_text))))))

-- Every text of the first list stands in the second.
abbrev pub within : List String → List String → Bool
within [] ys = true
within (x ∷ xs) ys = is_member x ys && within xs ys

-- `set(xs) == set(ys)`
abbrev pub same_set : List String → List String → Bool
same_set xs ys = within xs ys && within ys xs

abbrev pub is_empty : List String → Bool
is_empty [] = true
is_empty (_ ∷ _) = false

-- The first check that fails, where one does.
unfoldable pub mismatch : QualifiedRedExpectation → RedObservation → Option Mismatch
mismatch e o =
    if not (is_member e.match_rule supported_match_rules)
    then some unsupported_match_rule
    else if not (str_eq o.source_revision e.source_revision)
    then some revision_mismatch
    else if not (str_eq o.command_fingerprint e.command_fingerprint)
    then some fingerprint_mismatch
    else if not (int_eq e.expected_exit_code (pos 1))
    then some expected_exit_not_one
    else if not (int_eq o.exit_code e.expected_exit_code)
    then some exit_code_differs
    else if not (str_eq o.failure_kind "TEST_FAILURE")
    then some not_a_test_failure
    else if is_empty (sort text_lt e.required_failed_test_ids)
    then some no_required_ids
    else if not
        (same_set (sort text_lt o.failed_test_ids) (sort text_lt e.required_failed_test_ids))
    then some failed_ids_differ
    else none

abbrev is_none : Option Mismatch → Bool
is_none none = true
is_none (some _) = false

module _ (digest : Bytes → String) where
  -- The evidence that both returns of the comparator build.
  abbrev pub evidence_of :
      QualifiedRedExpectation
      → RedObservation
      → String
      → String
      → String
      → Option Mismatch
      → RedQualificationEvidence
  evidence_of e o work_contract_id schema_version command_receipt_id reason = record {
    qualification_id = qualification_id_of digest e.expectation_id o.observation_id;
    expectation_id = e.expectation_id;
    expectation_version = e.expectation_version;
    observation_id = o.observation_id;
    source_revision = o.source_revision;
    command_fingerprint = o.command_fingerprint;
    comparator_version = comparator_version_text;
    expected_exit_code = e.expected_exit_code;
    observed_exit_code = o.exit_code;
    expected_failed_test_ids = sort text_lt e.required_failed_test_ids;
    observed_failed_test_ids = sort text_lt o.failed_test_ids;
    match_result = is_none reason;
    failure_reason_matches_intended_defect = is_none reason;
    reason = reason;
    work_contract_id = work_contract_id;
    work_contract_schema_version = schema_version;
    job_id = o.job_id;
    task_id = o.task_id;
    attempt_id = o.attempt_id;
    expectation_source_type = e.source_type;
    expectation_provenance_ref = e.provenance_source_ref;
    expectation_provenance_sha256 = e.provenance_source_sha256;
    command_receipt_id = command_receipt_id;
  }

  unfoldable pub compare_red_qualification :
      QualifiedRedExpectation → RedObservation → String → String → String → RedQualificationEvidence
  compare_red_qualification e o work_contract_id schema_version command_receipt_id =
      evidence_of e o work_contract_id schema_version command_receipt_id (mismatch e o)
