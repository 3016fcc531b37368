-- ===== src/Kernel/Verification/Checks.antt =====
-- What the completeness test accepts: each required check exactly once.
use synapx_harness.Prelude.{ℕ, zero, suc, ◌+◌, ◌≤◌, ◌<◌, ◌==◌, Bool, true, false, ◌&&◌, not}
use synapx_harness.Prelude.{List, [], ◌∷◌, length, sum_by, count_if, any, All, if◌then◌else◌}
use synapx_harness.Prelude.{pos, negsuc, ◌≡◌, ◌≢◌, refl, arith}
use synapx_harness.Prelude.Results.{Result, ok, err}
use synapx_harness.Values.{Value, null, bool, int, str, list, dict, Items}
use synapx_harness.Values.Equality.{value_eq}
use synapx_harness.Kernel.Verification.{
  range, required_check_ids, is_id, items, is_hashable, is_complete_set, check_completeness,
  checks_unhashable, checks_duplicate, checks_missing, has_duplicate, AdmissionError,
}

-- How many items of a list are the check's number.
abbrev pub count_of : List Value → ℕ → ℕ
count_of checks k = count_if (is_id k) checks

hits : (ℕ → Bool) → List ℕ → ℕ
hits p ids = count_if p ids

range-misses : (n first count : ℕ) → n < first → hits (λ k. n == k) (range first count) ≡ 0
unfolding hits
range-misses n first zero h = refl
range-misses n first (suc count) h = ground (arith, range-misses n (suc first) count)

range-hits_once : (n first count : ℕ) → hits (λ k. n == k) (range first count) ≤ 1
unfolding hits
range-hits_once n first zero = omega arith
range-hits_once n first (suc count) =
    ground (arith, range-misses n (suc first) count, range-hits_once n (suc first) count)

never-hits : (ids : List ℕ) → hits (λ _. false) ids ≡ 0
unfolding hits
never-hits [] = refl
never-hits (k ∷ ids) = omega (arith, never-hits ids)

-- A value is at most one of the required numbers.
value-hits_once : (v : Value) → hits (λ k. is_id k v) required_check_ids ≤ 1
unfolding value_eq
value-hits_once (int (pos n)) = range-hits_once n 1 18
value-hits_once (bool true) = range-hits_once 1 1 18
value-hits_once (bool false) = range-hits_once 0 1 18
value-hits_once (int (negsuc n)) = omega (arith, never-hits required_check_ids)
value-hits_once null = omega (arith, never-hits required_check_ids)
value-hits_once (str s) = omega (arith, never-hits required_check_ids)
value-hits_once (list xs) = omega (arith, never-hits required_check_ids)
value-hits_once (dict d) = omega (arith, never-hits required_check_ids)

sum-by_columns :
    (v : Value) (vs : List Value) (ids : List ℕ)
    → sum_by (count_of (v ∷ vs)) ids ≡ hits (λ k. is_id k v) ids + sum_by (count_of vs) ids
unfolding hits
sum-by_columns v vs [] = refl
sum-by_columns v vs (k ∷ ids) = omega (arith, sum-by_columns v vs ids)

sum-zero : (ids : List ℕ) → sum_by (count_of []) ids ≡ 0
sum-zero [] = refl
sum-zero (k ∷ ids) = omega (arith, sum-zero ids)

-- The occurrences of all required numbers together are at most the items.
total-le-length : (vs : List Value) → sum_by (count_of vs) required_check_ids ≤ length vs
total-le-length [] = omega arith
total-le-length (v ∷ vs) =
    omega (arith, sum-by_columns v vs required_check_ids, value-hits_once v, total-le-length vs)

sum-ge-length : (f : ℕ → ℕ) (ids : List ℕ) → All (λ k. 1 ≤ f k) ids → length ids ≤ sum_by f ids
sum-ge-length f [] h = omega arith
sum-ge-length f (k ∷ ids) h = omega (arith, h.0, sum-ge-length f ids h.1)

-- When every summand is at least one and the sum is at most their number, each is one.
sum-tight :
    (f : ℕ → ℕ) (ids : List ℕ)
    → All (λ k. 1 ≤ f k) ids
    → sum_by f ids ≤ length ids
    → All (λ k. f k ≡ 1) ids
sum-tight f [] h le = tt
sum-tight f (k ∷ ids) h le =
    (omega (arith, h.0, sum-ge-length f ids h.1), sum-tight f ids h.1 (omega (arith, h.0)))

any-count : {A : Type 0} (p : A → Bool) (xs : List A) → any p xs ≡ true → 1 ≤ count_if p xs
any-count p [] h = cc
any-count p (x ∷ xs) h = ground (arith, any-count p xs)

not-any-All :
    (p : ℕ → Bool) (f : ℕ → ℕ) (ids : List ℕ)
    → ((k : ℕ) → p k ≡ true → 1 ≤ f k)
    → not (any (λ k. not (p k)) ids) ≡ true
    → All (λ k. 1 ≤ f k) ids
not-any-All p f [] at h = tt
not-any-All p f (k ∷ ids) at h = ground (arith, at k, not-any-All p f ids at)

and-left : (a b : Bool) → (a && b) ≡ true → a ≡ true
and-left true b h = refl
and-left false b h = h

complete-once :
    (vs : List Value)
    → length vs ≡ 18
    → is_complete_set vs ≡ true
    → All (λ k. count_of vs k ≡ 1) required_check_ids
complete-once vs len h =
    sum-tight (count_of vs) required_check_ids
      (not-any-All (λ k. any (is_id k) vs) (count_of vs) required_check_ids
        (λ k found. any-count (is_id k) vs found) (and-left _ _ h))
      (omega (arith, len, total-le-length vs))

checks-passed :
    (u n c d : Bool)
    → if◌then◌else◌ {A = Result AdmissionError (Unit {0})} u
        (err checks_unhashable)
        (if n && c then ok tt else if d then err checks_duplicate else err checks_missing)
      ≡ ok tt
    → (n ≡ true) × (c ≡ true)
checks-passed u n c d e = ground arith

-- Requested checks are accepted only when they are missing or a list of 18 items in which each of
-- the numbers 1 to 18 stands exactly once.
pub check_completeness-once :
    (requested : Value)
    → check_completeness requested ≡ ok tt
    → requested ≢ null
    → (checks : Items) × (requested ≡ list checks)
      × (length (items checks) ≡ 18)
      × All (λ k. count_of (items checks) k ≡ 1) required_check_ids
unfolding check_completeness
check_completeness-once (list checks) h given =
    (checks, refl, accepted.0, complete-once (items checks) accepted.0 accepted.1)
  where
    accepted : (length (items checks) ≡ 18) × (is_complete_set (items checks) ≡ true)
    accepted =
        let (n, c) =
          checks-passed (any (λ v. not (is_hashable v)) (items checks))
            (length (items checks) == 18) (is_complete_set (items checks))
            (has_duplicate (items checks)) h in
        (ground arith, c)
check_completeness-once null h given = elim (given refl) [ ]
check_completeness-once _ h given = cc
