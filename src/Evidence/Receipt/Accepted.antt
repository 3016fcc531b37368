-- ===== src/Evidence/Receipt/Accepted.antt =====
-- Which command receipts are accepted.
use synapx_harness.Prelude.{
  str_eq, count_chars, ◌==◌, Bool, true, false, ◌&&◌, not, List, [], ◌∷◌, ◌++◌, map, ◌≡◌, refl,
  eq_iff, if◌then◌else◌,
}
use synapx_harness.Values.{Value, str, dict, Fields, get}
use synapx_harness.Evidence.Checks.{
  is_filled, is_str, number, holds, is_natural, unless, none_left, none_left-++, none_left-unless,
}
use synapx_harness.Evidence.Hash.{
  placeholder_hash, is_lower_hex, validate_hash_format, check_placeholder_hash,
}
use synapx_harness.Evidence.Receipt.{
  ArtifactViolation, sha256_violations, artifact_violations, validate_command_receipt, is_gate,
}

-- A hash that the validator of evidence takes for one.
abbrev pub is_real_hash : Value → Bool
is_real_hash (str s) = validate_hash_format s && not (check_placeholder_hash s)
is_real_hash _ = false

-- The description of a text artifact: where it is, its hash and its size.
abbrev pub is_artifact : Value → Bool
is_artifact (dict a) =
    is_filled (get "path" a)
    && (is_real_hash (get "sha256" a) && holds is_natural (number (get "size_bytes" a)))
is_artifact _ = false

sha256_violations-hash : (v : Value) → none_left (sha256_violations v) ≡ is_real_hash v
unfolding sha256_violations validate_hash_format check_placeholder_hash
sha256_violations-hash (str s) = by_empty (str_eq s "") refl
  where
    tests :
        (p l h : Bool)
        → none_left (
            if p
            then ArtifactViolation.sha256_placeholder ∷ []
            else if not l
            then ArtifactViolation.sha256_length ∷ []
            else if not h
            then ArtifactViolation.sha256_not_hex ∷ []
            else [])
          ≡ ((l && h) && not p)
    tests true true true = refl
    tests true true false = refl
    tests true false h = refl
    tests false true true = refl
    tests false true false = refl
    tests false false h = refl

    by_empty :
        (e : Bool)
        → str_eq s "" ≡ e
        → none_left (
            if e
            then ArtifactViolation.sha256_required ∷ []
            else if str_eq s placeholder_hash
            then ArtifactViolation.sha256_placeholder ∷ []
            else if not (count_chars s == 64)
            then ArtifactViolation.sha256_length ∷ []
            else if not (is_lower_hex s)
            then ArtifactViolation.sha256_not_hex ∷ []
            else [])
          ≡ is_real_hash (str s)
    by_empty true q = rw ((eq_iff s "").0 q) refl
    by_empty false q = tests (str_eq s placeholder_hash) (count_chars s == 64) (is_lower_hex s)
sha256_violations-hash _ = refl

artifact_violations-artifact : (v : Value) → none_left (artifact_violations v) ≡ is_artifact v
unfolding artifact_violations
artifact_violations-artifact (dict a) =
    rw
      (
        none_left-++ (unless (is_filled (get "path" a)) ArtifactViolation.path_required) (
            sha256_violations (get "sha256" a)
            ++ unless (holds is_natural (number (get "size_bytes" a)))
                ArtifactViolation.size_invalid),
        none_left-++ (sha256_violations (get "sha256" a)) (
            unless (holds is_natural (number (get "size_bytes" a))) ArtifactViolation.size_invalid),
        none_left-unless (is_filled (get "path" a)) ArtifactViolation.path_required,
        none_left-unless (holds is_natural (number (get "size_bytes" a)))
            ArtifactViolation.size_invalid,
        sha256_violations-hash (get "sha256" a),
      )
      refl
artifact_violations-artifact _ = refl

none_left-map : {A B : Type 0} (f : A → B) (xs : List A) → none_left (map f xs) ≡ none_left xs
none_left-map f [] = refl
none_left-map f (x ∷ xs) = refl

-- A command receipt is accepted exactly where its command has an id and a text, its directory and
-- its two times are texts, its exit code is a number, both artifacts have a path, a hash that the
-- validator of evidence takes for one and that is not the placeholder, and a size that is not
-- negative, and its gate is PASS or FAIL.
pub validate_command_receipt-accepted :
    (d : Fields)
    → (validate_command_receipt d).0 ≡ (
        (is_filled (get "command_id" d)
          && (is_filled (get "sanitized_command" d)
              && (is_str (get "working_directory" d)
                  && (is_str (get "started_at" d)
                      && (is_str (get "finished_at" d)
                          && holds (λ _. true) (number (get "exit_code" d)))))))
        && (is_artifact (get "stdout_artifact" d)
            && (is_artifact (get "stderr_artifact" d) && is_gate (get "gate" d))))
unfolding validate_command_receipt
validate_command_receipt-accepted d =
    simp (none_left-++, none_left-unless, none_left-map, artifact_violations-artifact)
