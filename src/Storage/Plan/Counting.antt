-- ===== src/Storage/Plan/Counting.antt =====
-- Counting by `run_id`: where no two runs share one, a selection of runs is counted exactly by
-- testing which runs have a selected id.
use synapx_harness.Prelude.{ℕ, ◌+◌, ◌≤◌, String, ◌≡◌, refl, Bool, true, false, ◌&&◌, not, arith}
use synapx_harness.Prelude.{List, [], ◌∷◌, map, length, sum_by, filter, count_if, is_member}
use synapx_harness.Prelude.{str_eq, eq_iff, eq_refl}

module _ {A : Type 0} (id : A → String) where
  -- How many of the elements have the id `s`.
  abbrev pub occurrences : String → List A → ℕ
  occurrences s xs = count_if (λ x. str_eq s (id x)) xs

  abbrev pub ids : List A → List String
  ids xs = map id xs

  is_member-false_of_occurrences :
      (s : String) (xs : List A) → occurrences s xs ≡ 0 → is_member s (ids xs) ≡ false
  is_member-false_of_occurrences s [] h = refl
  is_member-false_of_occurrences s (x ∷ xs) h = ground (arith, is_member-false_of_occurrences s xs)

  pub occurrences-filter_le :
      (s : String) (p : A → Bool) (xs : List A) → occurrences s (filter p xs) ≤ occurrences s xs
  occurrences-filter_le s p [] = omega arith
  occurrences-filter_le s p (x ∷ xs) = ground (arith, occurrences-filter_le s p xs)

  occurrences-filter-split :
      (s : String) (p : A → Bool) (xs : List A)
      → occurrences s (filter p xs) + occurrences s (filter (λ x. not (p x)) xs) ≡ occurrences s xs
  occurrences-filter-split s p [] = refl
  occurrences-filter-split s p (x ∷ xs) = ground (arith, occurrences-filter-split s p xs)

  sum_by_const_zero : (xs : List A) → sum_by (λ (x : A). 0) xs ≡ 0
  sum_by_const_zero [] = refl
  sum_by_const_zero (x ∷ xs) = omega (arith, sum_by_const_zero xs)

  is_member-true_of_occurrences :
      (s : String) (xs : List A) → 1 ≤ occurrences s xs → is_member s (ids xs) ≡ true
  is_member-true_of_occurrences s [] h = elim h [ ]
  is_member-true_of_occurrences s (x ∷ xs) h = ground (arith, is_member-true_of_occurrences s xs)

  -- One more selected id adds the elements that have it.
  count_if-member_cons :
      (x : A) (xs cls : List A)
      → is_member (id x) (ids xs) ≡ false
      → count_if (λ c. is_member (id c) (ids (x ∷ xs))) cls
        ≡ occurrences (id x) cls + count_if (λ c. is_member (id c) (ids xs)) cls
  count_if-member_cons x xs [] h = refl
  count_if-member_cons x xs (c ∷ cls) h =
      ground (arith, eq_iff (id x) (id c), eq_iff (id c) (id x), count_if-member_cons x xs cls h)

  pub count_if-member :
      (xs cls : List A)
      → ((s : String) → occurrences s xs ≤ occurrences s cls)
      → ((s : String) → occurrences s cls ≤ 1)
      → count_if (λ c. is_member (id c) (ids xs)) cls ≡ length xs
  count_if-member [] cls sub unique = sum_by_const_zero cls
  count_if-member (x ∷ xs) cls sub unique = ground (
    arith,
    sub (id x),
    unique (id x),
    eq_refl (id x),
    is_member-false_of_occurrences (id x) xs,
    count_if-member_cons x xs cls,
    count_if-member xs cls (λ s. omega (arith, sub s)) unique,
  )

  filter_tail_le :
      (s : String) (p : A → Bool) (x : A) (xs cls : List A)
      → occurrences s (filter (λ y. not (p y)) (x ∷ xs))
        ≤ occurrences s (filter (λ y. not (p y)) cls)
      → occurrences s (filter (λ y. not (p y)) xs) ≤ occurrences s (filter (λ y. not (p y)) cls)
  filter_tail_le s p x xs cls h = ground arith

  -- No element that fails the test shares an id with one that passes it.
  pub count_if-unselected :
      (p : A → Bool) (cls sel xs : List A)
      → ((s : String) → occurrences s cls ≤ 1)
      → ((s : String) → occurrences s sel ≤ occurrences s (filter p cls))
      → ((s : String)
          → occurrences s (filter (λ x. not (p x)) xs)
            ≤ occurrences s (filter (λ x. not (p x)) cls))
      → count_if (λ x. not (p x) && is_member (id x) (ids sel)) xs ≡ 0
  count_if-unselected p cls sel [] unique sub part = refl
  count_if-unselected p cls sel (x ∷ xs) unique sub part = ground (
    arith,
    unique (id x),
    sub (id x),
    part (id x),
    eq_refl (id x),
    occurrences-filter-split (id x) p cls,
    is_member-false_of_occurrences (id x) sel,
    count_if-unselected p cls sel xs unique sub (λ s. filter_tail_le s p x xs cls (part s)),
  )

  occurrences_tail_le :
      (s : String) (p : A → Bool) (x : A) (xs : List A) {n : ℕ}
      → occurrences s (filter p (x ∷ xs)) ≤ n
      → occurrences s (filter p xs) ≤ n
  occurrences_tail_le s p x xs h = ground arith

  -- Every element that passes the test is selected, where the selection has as many of each id.
  pub count_if-all_selected :
      (p : A → Bool) (sel xs : List A)
      → ((s : String) → occurrences s (filter p xs) ≤ occurrences s sel)
      → count_if (λ x. p x && not (is_member (id x) (ids sel))) xs ≡ 0
  count_if-all_selected p sel [] sub = refl
  count_if-all_selected p sel (x ∷ xs) sub = ground (
    arith,
    sub (id x),
    eq_refl (id x),
    is_member-true_of_occurrences (id x) sel,
    count_if-all_selected p sel xs (λ s. occurrences_tail_le s p x xs (sub s)),
  )
