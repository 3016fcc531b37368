-- ===== src/Kernel/Verification.antt =====
-- kernel/verification_planner.py: the admission of a verification result, its classification, the
-- comparison of two views of one result. `fromisoformat` stands for
-- `datetime.fromisoformat`, in microseconds, with whether the text has an offset; `now` is the text
-- that `datetime.now(UTC).isoformat()` gives in the call.
pub mod Checks
pub mod Chain
pub mod Admission
pub mod Bindings
mod Tests
use synapx_harness.Prelude.{ℕ, zero, suc, ◌+◌, ◌*◌, String, ◌<>◌, str_eq, is_member, ltb, ◌==◌}
use Prim.Native.Char.{Char}
use synapx_harness.Prelude.{Bool, true, false, ◌&&◌, ◌||◌, not, if◌then◌else◌, Option, none, some}
use synapx_harness.Prelude.{List, [], ◌∷◌, length, filter, any, pos, is_positive, is_space, map}
use synapx_harness.Prelude.Results.{Result, ok, err, ◌>>◌, raise_if}
use synapx_harness.Values.{
  Value, null, bool, int, str, list, dict, Items, nil, cons, Fields, end, field, get, or_else,
  is_text, is_null,
}
use synapx_harness.Values.Equality.{value_eq}

pub data AdmissionError : Type 0 where
  contract_not_dict result_not_dict no_admission_receipt no_red_receipt : AdmissionError
  attempt_mismatch revision_mismatch snapshot_mismatch stale_evidence : AdmissionError
  identity_mismatch schema_not_canonical : AdmissionError
  checks_duplicate checks_missing checks_unhashable : AdmissionError

abbrev pub canonical_schema_version : String
canonical_schema_version = "0.2.0"

-- `range(first, first + count)`
abbrev pub range : ℕ → ℕ → List ℕ
range first zero = []
range first (suc count) = first ∷ range (suc first) count

abbrev pub required_check_ids : List ℕ
required_check_ids = range 1 18

abbrev pub freshness_threshold_seconds : ℕ
freshness_threshold_seconds = 7 * 24 * 60 * 60

-- `isinstance(v, int) and v > 0`; a truth value is an `int`.
abbrev pub is_active : Value → Bool
is_active (int z) = is_positive z
is_active (bool b) = b
is_active _ = false

-- `_classify_outcome`
unfoldable pub classify_outcome : Value → Value → Value → String
classify_outcome verification_status evidence_status active_blocker_count =
    if is_active active_blocker_count
    then "BLOCKED_ACTIVE_BLOCKER"
    else if is_text verification_status "PASS"
    then "ADMITTED_PASS"
    else if is_text verification_status "FAIL"
    then "ADMITTED_FAIL"
    else "BLOCKED_UNKNOWN"

pub data PassForbidden : Type 0 where
  direct_pass : PassForbidden

unfoldable pub classify_admission_outcome : Value → Value → Value → Result PassForbidden Fields
classify_admission_outcome verification_status evidence_status active_blocker_count = do
  raise_if (is_text verification_status "PASS") direct_pass
  ok (
      field "outcome"
        (str (classify_outcome verification_status evidence_status active_blocker_count))
        (field "verification_status" verification_status (
          field "evidence_status" evidence_status
            (field "active_blocker_count" active_blocker_count end))))

pub data ViewError : Type 0 where
  canonical_required views_conflict : ViewError

-- `legacy_view` may be missing; an empty one answers `None` to every key, as a missing one does.
unfoldable pub validate_dual_view_consistency :
    Option Fields → Option Fields → Result ViewError Bool
validate_dual_view_consistency legacy_view none = err canonical_required
validate_dual_view_consistency none (some canonical) = ok true
validate_dual_view_consistency (some legacy) (some canonical) =
    let legacy_status = get "verification_status" legacy in
    let canonical_status = get "verification_status" canonical in
    let same_blockers =
      value_eq (get "active_blocker_count" legacy) (get "active_blocker_count" canonical) in
    do
      raise_if
          (not (is_null legacy_status)
            && not (is_null canonical_status)
            && (not (value_eq legacy_status canonical_status) || not same_blockers))
          views_conflict
      ok true

-- A `datetime`: its instant, and whether it has an offset.
pub record Moment : Type 0 where
  pub instant : ℕ
  pub is_aware : Bool

-- `not text.strip()`
abbrev pub is_blank : String → Bool
is_blank String.[] = true
is_blank (String.◌∷◌ c s) = is_space c && is_blank s

-- `a is not None and b is not None and a != b`
abbrev pub conflict : Value → Value → Bool
conflict a b = not (is_null a) && not (is_null b) && not (value_eq a b)

abbrev pub as_dict : Value → Fields
as_dict (dict d) = d
as_dict _ = end

abbrev pub is_dict : Value → Bool
is_dict (dict _) = true
is_dict _ = false

-- A BUG_FIX needs the reference to a RED receipt in its admission receipt.
unfoldable pub red_proof : Value → Result AdmissionError (Unit {0})
red_proof (dict adm) = elim (get "red_receipt_ref" adm) [
  | str ref ↦ raise_if (is_blank ref) no_red_receipt
  | _ ↦ err no_red_receipt
]
red_proof _ = err no_admission_receipt

unfoldable pub check_red_proof : Fields → Result AdmissionError (Unit {0})
unfolding red_proof
check_red_proof contract =
    if is_text (get "task_type" contract) "BUG_FIX"
    then red_proof (get "admission_receipt" contract)
    else ok tt

-- Two revisions conflict when both have a kind and their kinds or their values differ.
abbrev pub revision_conflict : Value → Value → Bool
revision_conflict (dict a) (dict b) =
    not (is_null (get "revision_kind" a))
    && not (is_null (get "revision_kind" b))
    && (not (value_eq (get "revision_kind" a) (get "revision_kind" b))
        || not (value_eq (get "revision_value" a) (get "revision_value" b)))
revision_conflict _ _ = false

-- A text that is not the canonical version.
abbrev pub is_other_schema : Value → Bool
is_other_schema (str s) = not (str_eq s canonical_schema_version)
is_other_schema _ = false

abbrev pub items : Items → List Value
items nil = []
items (cons v rest) = v ∷ items rest

-- Whether a set can hold a value.
abbrev pub is_hashable : Value → Bool
is_hashable (list _) = false
is_hashable (dict _) = false
is_hashable _ = true

abbrev pub is_id : ℕ → Value → Bool
is_id k v = value_eq v (int (pos k))

-- `set(checks) == set(REQUIRED_CHECK_IDS)`
abbrev pub is_complete_set : List Value → Bool
is_complete_set checks =
    not (any (λ k. not (any (is_id k) checks)) required_check_ids)
    && not (any (λ v. not (any (λ k. is_id k v) required_check_ids)) checks)

-- `len(checks) != len(set(checks))`
abbrev pub has_duplicate : List Value → Bool
has_duplicate [] = false
has_duplicate (v ∷ vs) = any (value_eq v) vs || has_duplicate vs

-- Check 15. A list with an item that no set holds raises a `TypeError`.
unfoldable pub check_completeness : Value → Result AdmissionError (Unit {0})
check_completeness null = ok tt
check_completeness (list checks) =
    if any (λ v. not (is_hashable v)) (items checks)
    then err checks_unhashable
    else if (length (items checks) == 18) && is_complete_set (items checks)
    then ok tt
    else if has_duplicate (items checks)
    then err checks_duplicate
    else err checks_missing
check_completeness _ = err checks_missing

-- `evidence_timestamp or verified_at`
abbrev pub evidence_time : Fields → Value
evidence_time result = or_else (get "evidence_timestamp" result) (get "verified_at" result)

-- The receipt that `admit_verification_result` returns at the time `now`.
abbrev pub admission_receipt : String → Fields → Fields → Value
admission_receipt now contract result = dict (
    field "contract_type" (str "CUSTOMOS_VERIFICATION_ADMISSION_RECEIPT") (
      field "schema_version" (str canonical_schema_version) (
        field "work_contract_id"
          (or_else (get "work_contract_id" result) (get "work_contract_id" contract))
          (field "attempt_index" (get "attempt_index" result) (
            field "outcome"
              (str (
                classify_outcome (get "verification_status" result) (get "evidence_status" result)
                  (get "active_blocker_count" result)))
              (field "checks_verified" (int (pos 18))
                (field "primary_failure_check_id" null (field "admitted_at" (str now) end))))))))

module _ (fromisoformat : String → Option Moment) (now : String) where
  -- `_is_stale`
  unfoldable pub is_stale : String → String → ℕ → Bool
  is_stale evidence_timestamp reference_now threshold_seconds =
      elim (fromisoformat evidence_timestamp) [
        | none ↦ true
        | some evidence ↦ elim (fromisoformat reference_now) [
          | none ↦ true
          | some reference ↦
              if not (evidence.is_aware) || not (reference.is_aware)
              then true
              else ltb (evidence.instant + threshold_seconds * 1000000) reference.instant
        ]
      ]

  -- Check 12, on `evidence_timestamp or verified_at`.
  pub check_freshness : Value → Result AdmissionError (Unit {0})
  check_freshness (str s) = raise_if (is_stale s now freshness_threshold_seconds) stale_evidence
  check_freshness _ = ok tt

  -- The checks on two dictionaries, in the code's order.
  unfoldable pub admit_dicts : Fields → Fields → Result AdmissionError Value
  unfolding check_red_proof check_freshness
  admit_dicts contract result = do
    check_red_proof contract
    raise_if (conflict (get "attempt_index" contract) (get "attempt_index" result)) attempt_mismatch
    let source = as_dict (get "source_binding" result)
    raise_if (revision_conflict (get "source_revision_ref" contract) (get "source_revision" source))
        revision_mismatch
    raise_if (conflict (get "source_snapshot_id" contract) (get "source_snapshot_id" source))
        snapshot_mismatch
    check_freshness (evidence_time result)
    raise_if (conflict (get "work_contract_id" contract) (get "work_contract_id" result))
        identity_mismatch
    raise_if (is_other_schema (get "schema_version" result)) schema_not_canonical
    check_completeness (get "requested_checks" result)
    ok (admission_receipt now contract result)

  unfoldable pub admit_verification_result : Value → Value → Result AdmissionError Value
  admit_verification_result (dict contract) (dict result) = admit_dicts contract result
  admit_verification_result (dict _) _ = err result_not_dict
  admit_verification_result _ _ = err contract_not_dict
