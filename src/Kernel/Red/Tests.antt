-- ===== src/Kernel/Red/Tests.antt =====
-- The theorems on RED qualification at sample inputs.
use synapx_harness.Prelude.{
  String, is_member, Bool, true, false, Option, none, some, List, [], ◌∷◌, All, pos, ◌≡◌, refl, ◌↔◌,
  length,
}
use synapx_harness.Prelude.Results.{ok}
use synapx_harness.Values.{Value, int, str, list, dict, nil, cons, Fields, end, field, lookup}
use synapx_harness.Values.Equality.{value_eq}
use synapx_harness.Mutation.Bytes.{Bytes}
use synapx_harness.Mutation.Samples.{digest}
use synapx_harness.Kernel.Red.{QualifiedRedExpectation, RedObservation, compare_red_qualification}
use synapx_harness.Kernel.Red.Match.{IsIntended, compare_red_qualification-IsIntended}
use synapx_harness.Kernel.Red.Loading.{
  from_dict, require_nonempty_str, require_str_tuple, require_items,
  verify_workcontract_expectation_binding,
}
use synapx_harness.Kernel.Red.Loading.Qualified.{IsQualified, from_dict-IsQualified}
use synapx_harness.Kernel.Red.Loading.Bound.{
  IsBound, verify_workcontract_expectation_binding-IsBound,
}

abbrev staged : Fields
staged = field "status" (str "QUALIFIED") (
    field "source_type" (str "USER_DECLARED") (
      field "match_rule" (str "EXACT_FAILED_TEST_IDS") (
        field "expected_exit_code" (int (pos 1)) (
          field "provenance"
            (dict (field "source_ref" (str "issue/7") (field "source_sha256" (str "ab") end)))
            (field "expectation_version" (int (pos 2)) (
              field "expectation_id" (str "exp-1") (
                field "seeded_source_revision" (str "r1") (
                  field "verification_command_fingerprint" (str "cmd") (
                    field "required_failed_test_ids"
                      (list (cons (str "t::b") (cons (str "t::a") nil))) end)))))))))

abbrev expectation : QualifiedRedExpectation
expectation = record {
  expectation_id = "exp-1";
  expectation_version = pos 2;
  status = "QUALIFIED";
  source_type = "USER_DECLARED";
  source_revision = "r1";
  command_fingerprint = "cmd";
  expected_exit_code = pos 1;
  match_rule = "EXACT_FAILED_TEST_IDS";
  required_failed_test_ids = "t::b" ∷ "t::a" ∷ [];
  provenance_source_ref = "issue/7";
  provenance_source_sha256 = "ab";
}

loaded : from_dict (dict staged) ≡ ok expectation
unfolding from_dict lookup require_nonempty_str require_str_tuple require_items
loaded = refl

from_dict-IsQualified_example : IsQualified expectation
from_dict-IsQualified_example = from_dict-IsQualified (dict staged) expectation loaded

abbrev observation : RedObservation
observation = record {
  observation_id = "obs-1";
  source_revision = "r1";
  command_fingerprint = "cmd";
  exit_code = pos 1;
  failure_kind = "TEST_FAILURE";
  failed_test_ids = "t::a" ∷ "t::b" ∷ [];
  job_id = "j";
  task_id = "t";
  attempt_id = "a";
}

compare_red_qualification-IsIntended_example :
    (((compare_red_qualification digest expectation observation "wc-1" "0.2.0"
          "rct").failure_reason_matches_intended_defect
        ≡ true)
      ↔ IsIntended expectation observation)
    × (((compare_red_qualification digest expectation observation "wc-1" "0.2.0" "rct").match_result
          ≡ true)
        ↔ ((compare_red_qualification digest expectation observation "wc-1" "0.2.0" "rct").reason
            ≡ none))
compare_red_qualification-IsIntended_example =
    compare_red_qualification-IsIntended digest expectation observation "wc-1" "0.2.0" "rct"

abbrev loads : Bytes → Option Value
loads b = some (dict staged)

abbrev bound : Fields
bound = field "expectation_id" (str "exp-1") (
    field "expectation_version" (int (pos 2)) (
      field "expectation_ref" (str ".synapx_red_expectation.json")
        (field "expectation_sha256" (str (digest (1 ∷ 2 ∷ []))) end)))

verified :
    verify_workcontract_expectation_binding digest loads
      (dict bound)
      (1 ∷ 2 ∷ [])
      ".synapx_red_expectation.json"
    ≡ ok staged
unfolding verify_workcontract_expectation_binding lookup value_eq synapx_harness.Prelude.decimal
verified = refl

verify_workcontract_expectation_binding-IsBound_example :
    IsBound digest loads (dict bound) (1 ∷ 2 ∷ []) ".synapx_red_expectation.json" staged
verify_workcontract_expectation_binding-IsBound_example =
    verify_workcontract_expectation_binding-IsBound digest loads (dict bound) (1 ∷ 2 ∷ [])
      ".synapx_red_expectation.json" staged verified
