-- ===== src/Kernel/Red/Match.antt =====
-- When the comparator finds the intended defect.
use synapx_harness.Prelude.{
  String, str_eq, is_member, text_lt, Bool, true, false, ◌&&◌, ◌||◌, not, if◌then◌else◌, Option,
  none, some, List, [], ◌∷◌, pos, int_eq, ℤ, negsuc, ◌==◌, ◌≡◌, refl, sym, ◌∙◌, ap, arith, eq_iff,
  ◌↔◌,
}
use synapx_harness.Prelude.Sorting.{sort, insert}
use synapx_harness.Mutation.Bytes.{Bytes}
use synapx_harness.Kernel.Red.{
  QualifiedRedExpectation, RedObservation, Mismatch, mismatch, is_none, within, same_set, is_empty,
  supported_match_rules, compare_red_qualification, unsupported_match_rule, revision_mismatch,
  fingerprint_mismatch, expected_exit_not_one, exit_code_differs, not_a_test_failure,
  no_required_ids, failed_ids_differ,
}

-- A run that shows the intended defect: the rule is supported, revision and command are the expected
-- ones, the run and the expectation have exit code 1, the failure is one of tests, tests are named,
-- and those that failed are the named ones, as sets.
abbrev pub IsIntended : QualifiedRedExpectation → RedObservation → Type 0
IsIntended e o =
    (is_member e.match_rule supported_match_rules ≡ true)
    × (o.source_revision ≡ e.source_revision)
    × (o.command_fingerprint ≡ e.command_fingerprint)
    × (e.expected_exit_code ≡ pos 1)
    × (o.exit_code ≡ pos 1)
    × (o.failure_kind ≡ "TEST_FAILURE")
    × (is_empty e.required_failed_test_ids ≡ false)
    × (same_set o.failed_test_ids e.required_failed_test_ids ≡ true)

int_eq-path : (a b : ℤ) → int_eq a b ≡ true → a ≡ b
int_eq-path (pos m) (pos n) h = ap pos (same m n h)
  where
    same : (k l : Prim.Native.Nat.ℕ) → k == l ≡ true → k ≡ l
    same k l q = ground arith
int_eq-path (negsuc m) (negsuc n) h = ap negsuc (same m n h)
  where
    same : (k l : Prim.Native.Nat.ℕ) → k == l ≡ true → k ≡ l
    same k l q = ground arith
int_eq-path (pos m) (negsuc n) h = cc
int_eq-path (negsuc m) (pos n) h = cc

int_eq_refl : (a : ℤ) → int_eq a a ≡ true
int_eq_refl (pos n) = ground arith
int_eq_refl (negsuc n) = ground arith

is_empty-insert : (x : String) (ys : List String) → is_empty (insert text_lt x ys) ≡ false
unfolding insert
is_empty-insert x [] = refl
is_empty-insert x (y ∷ ys) = either (text_lt y x)
  where
    either : (b : Bool) → is_empty (if b then y ∷ insert text_lt x ys else x ∷ y ∷ ys) ≡ false
    either true = refl
    either false = refl

is_empty-sort : (xs : List String) → is_empty (sort text_lt xs) ≡ is_empty xs
unfolding sort
is_empty-sort [] = refl
is_empty-sort (x ∷ xs) = is_empty-insert x (sort text_lt xs)

or_swap : (a b c : Bool) → a || (b || c) ≡ b || (a || c)
or_swap a b c = ground arith

and_swap : (a b c : Bool) → a && (b && c) ≡ b && (a && c)
and_swap a b c = ground arith

is_member-insert :
    (s x : String) (ys : List String)
    → is_member s (insert text_lt x ys) ≡ str_eq s x || is_member s ys
unfolding insert
is_member-insert s x [] = refl
is_member-insert s x (y ∷ ys) = either (text_lt y x) (is_member-insert s x ys)
  where
    either :
        (b : Bool)
        → is_member s (insert text_lt x ys) ≡ str_eq s x || is_member s ys
        → is_member s (if b then y ∷ insert text_lt x ys else x ∷ y ∷ ys)
          ≡ str_eq s x || (str_eq s y || is_member s ys)
    either true rec =
        ap (λ t. str_eq s y || t) rec ∙ or_swap (str_eq s y) (str_eq s x) (is_member s ys)
    either false rec = refl

is_member-sort : (s : String) (xs : List String) → is_member s (sort text_lt xs) ≡ is_member s xs
unfolding sort
is_member-sort s [] = refl
is_member-sort s (x ∷ xs) =
    is_member-insert s x (sort text_lt xs) ∙ ap (λ t. str_eq s x || t) (is_member-sort s xs)

within-insert :
    (x : String) (ys zs : List String)
    → within (insert text_lt x ys) zs ≡ is_member x zs && within ys zs
unfolding insert
within-insert x [] zs = refl
within-insert x (y ∷ ys) zs = either (text_lt y x) (within-insert x ys zs)
  where
    either :
        (b : Bool)
        → within (insert text_lt x ys) zs ≡ is_member x zs && within ys zs
        → within (if b then y ∷ insert text_lt x ys else x ∷ y ∷ ys) zs
          ≡ is_member x zs && (is_member y zs && within ys zs)
    either true rec =
        ap (λ t. is_member y zs && t) rec
        ∙ and_swap (is_member y zs) (is_member x zs) (within ys zs)
    either false rec = refl

within-sort : (xs ys : List String) → within (sort text_lt xs) ys ≡ within xs ys
unfolding sort
within-sort [] ys = refl
within-sort (x ∷ xs) ys =
    within-insert x (sort text_lt xs) ys ∙ ap (λ t. is_member x ys && t) (within-sort xs ys)

within-of_sort : (xs ys : List String) → within xs (sort text_lt ys) ≡ within xs ys
within-of_sort [] ys = refl
within-of_sort (x ∷ xs) ys =
    ap (λ t. t && within xs (sort text_lt ys)) (is_member-sort x ys)
    ∙ ap (λ t. is_member x ys && t) (within-of_sort xs ys)

-- Sorting does not change what a list is as a set.
same_set-sort :
    (xs ys : List String) → same_set (sort text_lt xs) (sort text_lt ys) ≡ same_set xs ys
same_set-sort xs ys =
    ap (λ t. t && within (sort text_lt ys) (sort text_lt xs))
      (within-sort xs (sort text_lt ys) ∙ within-of_sort xs ys)
    ∙ ap (λ t. within xs ys && t) (within-sort ys (sort text_lt xs) ∙ within-of_sort ys xs)

-- The eight checks as truth values.
checks-passed :
    (a b c d e f g h : Bool)
    → (if not a
        then some unsupported_match_rule
        else if not b
        then some revision_mismatch
        else if not c
        then some fingerprint_mismatch
        else if not d
        then some expected_exit_not_one
        else if not e
        then some exit_code_differs
        else if not f
        then some not_a_test_failure
        else if g
        then some no_required_ids
        else if not h
        then some failed_ids_differ
        else none)
      ≡ none
    → (a ≡ true)
      × (b ≡ true)
      × (c ≡ true)
      × (d ≡ true)
      × (e ≡ true)
      × (f ≡ true)
      × (g ≡ false)
      × (h ≡ true)
checks-passed a b c d e f g h q = ground arith

mismatch-IsIntended :
    (e : QualifiedRedExpectation) (o : RedObservation) → mismatch e o ≡ none → IsIntended e o
unfolding mismatch
mismatch-IsIntended e o h =
    let (rule, revision, command, expected, observed, kind, named, ids) =
      checks-passed (is_member e.match_rule supported_match_rules)
        (str_eq o.source_revision e.source_revision)
        (str_eq o.command_fingerprint e.command_fingerprint) (int_eq e.expected_exit_code (pos 1))
        (int_eq o.exit_code e.expected_exit_code) (str_eq o.failure_kind "TEST_FAILURE")
        (is_empty (sort text_lt e.required_failed_test_ids))
        (same_set (sort text_lt o.failed_test_ids) (sort text_lt e.required_failed_test_ids)) h in
    (
      rule,
      (eq_iff o.source_revision e.source_revision).0 revision,
      (eq_iff o.command_fingerprint e.command_fingerprint).0 command,
      int_eq-path e.expected_exit_code (pos 1) expected,
      int_eq-path o.exit_code e.expected_exit_code observed
          ∙ int_eq-path e.expected_exit_code (pos 1) expected,
      (eq_iff o.failure_kind "TEST_FAILURE").0 kind,
      sym (is_empty-sort e.required_failed_test_ids) ∙ named,
      sym (same_set-sort o.failed_test_ids e.required_failed_test_ids) ∙ ids,
    )

IsIntended-mismatch :
    (e : QualifiedRedExpectation) (o : RedObservation) → IsIntended e o → mismatch e o ≡ none
unfolding mismatch
IsIntended-mismatch e o (rule, revision, command, expected, observed, kind, named, ids) =
    rw
      (
        rule,
        (eq_iff o.source_revision e.source_revision).1 revision,
        (eq_iff o.command_fingerprint e.command_fingerprint).1 command,
        expected,
        observed,
        (eq_iff o.failure_kind "TEST_FAILURE").1 kind,
        is_empty-sort e.required_failed_test_ids ∙ named,
        same_set-sort o.failed_test_ids e.required_failed_test_ids ∙ ids,
      )
      refl

none_iff : (o : Option Mismatch) → (is_none o ≡ true) ↔ (o ≡ none)
none_iff none = (λ h. refl, λ h. refl)
none_iff (some m) = (λ h. cc, λ h. cc)

-- The comparator says that the failure is the intended defect exactly for a run that shows it, and it
-- then gives no reason; its two flags agree.
pub compare_red_qualification-IsIntended :
    (digest : Bytes → String) (e : QualifiedRedExpectation) (o : RedObservation)
    (work_contract_id schema_version command_receipt_id : String)
    → (((compare_red_qualification digest e o work_contract_id schema_version
            command_receipt_id).failure_reason_matches_intended_defect
          ≡ true)
        ↔ IsIntended e o)
      × (((compare_red_qualification digest e o work_contract_id schema_version
              command_receipt_id).match_result
            ≡ true)
          ↔ ((compare_red_qualification digest e o work_contract_id schema_version
                command_receipt_id).reason
              ≡ none))
unfolding compare_red_qualification
compare_red_qualification-IsIntended digest e o wid schema receipt = (
  (
    λ h. mismatch-IsIntended e o ((none_iff (mismatch e o)).0 h),
    λ h. (none_iff (mismatch e o)).1 (IsIntended-mismatch e o h),
  ),
  none_iff (mismatch e o),
)
