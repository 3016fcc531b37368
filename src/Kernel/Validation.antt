-- ===== src/Kernel/Validation.antt =====
-- The validation of a source revision and of an execution identity in contracts/runtime_models.py,
-- and the errors of a build. A `ValidationError` of Pydantic is one constructor per model.
use synapx_harness.Prelude.{String, str_eq, is_member, Bool, true, false, ◌&&◌, ◌||◌, not}
use synapx_harness.Prelude.{Option, none, some, List, [], ◌∷◌, filter}
use synapx_harness.Prelude.Results.{Result, ok, ◌>>◌, raise_if}
use synapx_harness.Values.{Value, null, str, Fields, end, field, get, is_text, is_null}

pub data BuildError : Type 0 where
  no_admission_receipt wrong_issuer risk_blocked task_type_blocked no_red_proof : BuildError
  missing_receipt_refs missing_revision_fields : List String → BuildError
  bad_risk_class bad_revision_kind bad_revision bad_identity bad_contract : BuildError

abbrev pub is_empty : List String → Bool
is_empty [] = true
is_empty (_ ∷ _) = false

abbrev revision_kinds : List String
revision_kinds = "GIT_COMMIT" ∷ "CONTENT_TREE_HASH" ∷ "SNAPSHOT_ID" ∷ "EXTERNAL_REVISION" ∷ []

-- `payload.get(name) in (None, "")`
abbrev pub is_unset : Value → Bool
is_unset v = is_null v || is_text v ""

abbrev missing_revision : Fields → List String
missing_revision d =
    filter (λ name. is_unset (get name d))
      ("repository_id" ∷ "revision_kind" ∷ "revision_value" ∷ [])

abbrev pub is_revision_kind : Value → Bool
is_revision_kind (str s) = is_member s revision_kinds
is_revision_kind _ = false

-- `coerce_source_revision_ref`, as `build` calls it, without `supported_kinds`.
unfoldable pub coerce_source_revision_ref : Option Fields → Result BuildError (Option Fields)
coerce_source_revision_ref none = ok none
coerce_source_revision_ref (some payload) = do
  raise_if (not (is_empty (missing_revision payload)))
      (missing_revision_fields (missing_revision payload))
  raise_if (not (is_revision_kind (get "revision_kind" payload))) bad_revision_kind
  ok (some payload)

-- A text of at least one character, as `Field(min_length=1)` wants it.
abbrev pub is_filled : Value → Bool
is_filled (str s) = not (str_eq s "")
is_filled _ = false

abbrev pub is_text_or_none : Value → Bool
is_text_or_none null = true
is_text_or_none (str _) = true
is_text_or_none _ = false

-- `extra="forbid"`
unfoldable pub has_only : List String → Fields → Bool
has_only names end = true
has_only names (field k _ rest) = is_member k names && has_only names rest

-- `SourceRevisionRef.model_validate`
unfoldable pub validate_revision : Option Fields → Result BuildError (Unit {0})
validate_revision none = ok tt
validate_revision (some d) =
    raise_if
      (not (
        has_only ("repository_id" ∷ "revision_kind" ∷ "revision_value" ∷ "working_delta_id" ∷ []) d
        && is_filled (get "repository_id" d)
        && is_revision_kind (get "revision_kind" d)
        && is_filled (get "revision_value" d)
        && is_text_or_none (get "working_delta_id" d)))
      bad_revision

-- `a == b` for two texts
abbrev pub same_text : Value → Value → Bool
same_text (str s) (str t) = str_eq s t
same_text _ _ = false

-- The attempt differs from the task, and the tool call from the attempt.
unfoldable pub is_separated : Fields → Bool
is_separated d =
    not (same_text (get "attempt_id" d) (get "task_id" d))
    && (is_null (get "tool_call_id" d)
        || is_text (get "tool_call_id" d) "__unset__"
        || not (same_text (get "tool_call_id" d) (get "attempt_id" d)))

-- The fields of an `ExecutionIdentity`, each on its own.
unfoldable pub has_identity_fields : Fields → Bool
has_identity_fields d =
    has_only ("job_id" ∷ "task_id" ∷ "root_task_id" ∷ "attempt_id" ∷ "tool_call_id" ∷ []) d
    && is_filled (get "job_id" d)
    && is_filled (get "task_id" d)
    && is_filled (get "root_task_id" d)
    && is_filled (get "attempt_id" d)
    && is_text_or_none (get "tool_call_id" d)

-- `ExecutionIdentity.model_validate`
unfoldable pub validate_identity : Fields → Result BuildError (Unit {0})
unfolding has_identity_fields is_separated
validate_identity d = raise_if (not (has_identity_fields d && is_separated d)) bad_identity
