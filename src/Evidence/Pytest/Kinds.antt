-- ===== src/Evidence/Pytest/Kinds.antt =====
-- The kinds of failed runs that the comparator of RED knows.
use synapx_harness.Prelude.{
  String, str_eq, is_member, Bool, true, false, ◌&&◌, not, List, ℤ, pos, negsuc, int_eq, ◌≡◌, refl,
  ap, sym, ◌∙◌, eq_iff, ◌↔◌, arith, if◌then◌else◌,
}
use synapx_harness.Evidence.Checks.{none_left}
use synapx_harness.Evidence.Pytest.{filled, is_infrastructure, classify_pytest_failure_kind}
use synapx_harness.Kernel.Red.{failure_kinds}

-- An infrastructure error has an exit code other than 1 and 2.
apart :
    (z : ℤ) → (is_infrastructure z ≡ true) → (int_eq z (pos 1) ≡ false) × (int_eq z (pos 2) ≡ false)
apart (pos n) h = ground arith
apart (negsuc n) h = (refl, refl)

-- The kind by the five tests.
abbrev kind_of : Bool → Bool → Bool → Bool → Bool → String
kind_of one two infra no_failed no_error =
    if one && (not no_failed && no_error)
    then "TEST_FAILURE"
    else if two
    then "COLLECTION_ERROR"
    else if infra
    then "INFRASTRUCTURE_ERROR"
    else if not no_error
    then "COLLECTION_ERROR"
    else "UNKNOWN"

-- A kind that is neither of the two.
other :
    (s : String) (one infra no_failed no_error : Bool)
    → is_member s failure_kinds ≡ true
    → str_eq s "TEST_FAILURE" ≡ false
    → str_eq s "INFRASTRUCTURE_ERROR" ≡ false
    → infra ≡ false
    → (one && (not no_failed && no_error)) ≡ false
    → (is_member s failure_kinds ≡ true)
      × ((s ≡ "TEST_FAILURE") ↔ ((one ≡ true) × (no_failed ≡ false) × (no_error ≡ true)))
      × ((s ≡ "INFRASTRUCTURE_ERROR") ↔ (infra ≡ true))
other s one infra no_failed no_error known a b i c = (
  known,
  (
    λ q. let w = sym a ∙ (eq_iff s "TEST_FAILURE").1 q in (cc, cc, cc),
    λ (x, y, z). clash one no_failed no_error x y z c,
  ),
  (λ q. let w = sym b ∙ (eq_iff s "INFRASTRUCTURE_ERROR").1 q in cc, λ q. cc),
)
  where
    clash :
        (x y z : Bool)
        → x ≡ true
        → y ≡ false
        → z ≡ true
        → (x && (not y && z)) ≡ false
        → s ≡ "TEST_FAILURE"
    clash x y z p q r e = ground arith

kinds :
    (one two infra no_failed no_error : Bool)
    → ((infra ≡ true) → (one ≡ false) × (two ≡ false))
    → (is_member (kind_of one two infra no_failed no_error) failure_kinds ≡ true)
      × ((kind_of one two infra no_failed no_error ≡ "TEST_FAILURE")
          ↔ ((one ≡ true) × (no_failed ≡ false) × (no_error ≡ true)))
      × ((kind_of one two infra no_failed no_error ≡ "INFRASTRUCTURE_ERROR") ↔ (infra ≡ true))
kinds true two true no_failed no_error h = let w = (h refl).0 in cc
kinds false true true no_failed no_error h = let w = (h refl).1 in cc
kinds true two false false true h = (refl, (λ q. (refl, refl, refl), λ q. refl), (λ q. cc, λ q. cc))
kinds true true false true no_error h =
    other "COLLECTION_ERROR" true false true no_error refl refl refl refl refl
kinds true true false false false h =
    other "COLLECTION_ERROR" true false false false refl refl refl refl refl
kinds true false false true true h = other "UNKNOWN" true false true true refl refl refl refl refl
kinds true false false true false h =
    other "COLLECTION_ERROR" true false true false refl refl refl refl refl
kinds true false false false false h =
    other "COLLECTION_ERROR" true false false false refl refl refl refl refl
kinds false true false no_failed no_error h =
    other "COLLECTION_ERROR" false false no_failed no_error refl refl refl refl refl
kinds false false true no_failed no_error h = (
  refl,
  (λ q. let w = ap (λ t. str_eq t "TEST_FAILURE") q in (w, cc, cc), λ q. cc),
  (λ q. refl, λ q. refl),
)
kinds false false false no_failed true h =
    other "UNKNOWN" false false no_failed true refl refl refl refl refl
kinds false false false no_failed false h =
    other "COLLECTION_ERROR" false false no_failed false refl refl refl refl refl

-- The kind of a run is one of those that the RED qualification knows. It is TEST_FAILURE exactly for an exit
-- code 1 with a failed test and without a test in error, and INFRASTRUCTURE_ERROR exactly for an exit
-- code that is 3, 4, 5 or negative, whatever the tests are.
pub classify_pytest_failure_kind-kind :
    (exit_code : ℤ) (failed errors : List String)
    → (is_member (classify_pytest_failure_kind exit_code failed errors) failure_kinds ≡ true)
      × ((classify_pytest_failure_kind exit_code failed errors ≡ "TEST_FAILURE") ↔ (
          (int_eq exit_code (pos 1) ≡ true)
          × (none_left (filled failed) ≡ false)
          × (none_left (filled errors) ≡ true)))
      × ((classify_pytest_failure_kind exit_code failed errors ≡ "INFRASTRUCTURE_ERROR")
          ↔ (is_infrastructure exit_code ≡ true))
unfolding classify_pytest_failure_kind
classify_pytest_failure_kind-kind exit_code failed errors =
    kinds (int_eq exit_code (pos 1)) (int_eq exit_code (pos 2)) (is_infrastructure exit_code)
      (none_left (filled failed)) (none_left (filled errors)) (apart exit_code)
