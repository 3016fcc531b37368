-- ===== src/Prelude/Sorting.antt =====
-- `sorted(xs, key=...)`: Python sorts stably by the test `key(a) < key(b)`. An insertion sort with
-- the same test stands for it.
use mathlib.Core.List.{List, [], ◌∷◌}
use Prim.Native.Nat.{ℕ, ◌+◌}
use mathlib.Core.Path.{◌≡◌, refl}
use mathlib.Core.Bool.{Bool, true, false}
use native.Mathlib.Omega.{arith}
use synapx_harness.Prelude.Tests.{if◌then◌else◌}
use synapx_harness.Prelude.Lists.{sum_by, All}

module _ {A : Type 0} (lt : A → A → Bool) where
  -- An element goes before the first one that is not smaller.
  unfoldable pub insert : A → List A → List A
  insert a [] = a ∷ []
  insert a (b ∷ bs) = let rest = insert a bs in if lt b a then b ∷ rest else a ∷ b ∷ bs

  unfoldable pub sort : List A → List A
  unfolding insert
  sort [] = []
  sort (a ∷ as') = insert a (sort as')

  -- No element is smaller than the one before it.
  abbrev pub IsSorted : List A → Type 0
  IsSorted [] = Unit
  IsSorted (a ∷ []) = Unit
  IsSorted (a ∷ b ∷ bs) = (lt b a ≡ false) × IsSorted (b ∷ bs)

  module _ (asymm : (a b : A) → lt a b ≡ true → lt b a ≡ false) where
    insert-IsSorted : (a : A) (bs : List A) → IsSorted bs → IsSorted (insert a bs)
    unfolding insert
    insert-IsSorted a [] h = tt
    insert-IsSorted a (b ∷ []) h = ground (arith, asymm b a)
    insert-IsSorted a (b ∷ c ∷ cs) h = ground (arith, asymm b a, insert-IsSorted a (c ∷ cs) h.1)

    pub sort-IsSorted : (xs : List A) → IsSorted (sort xs)
    unfolding sort
    sort-IsSorted [] = tt
    sort-IsSorted (a ∷ xs) = insert-IsSorted a (sort xs) (sort-IsSorted xs)

  sum_by-insert : (f : A → ℕ) (a : A) (bs : List A) → sum_by f (insert a bs) ≡ f a + sum_by f bs
  unfolding insert
  sum_by-insert f a [] = refl
  sum_by-insert f a (b ∷ bs) = ground (arith, sum_by-insert f a bs)

  -- A sum over the elements, a count among them, does not depend on their order.
  pub sum_by-sort : (f : A → ℕ) (xs : List A) → sum_by f (sort xs) ≡ sum_by f xs
  unfolding sort
  sum_by-sort f [] = refl
  sum_by-sort f (a ∷ xs) = omega (arith, sum_by-insert f a (sort xs), sum_by-sort f xs)

  All-insert : (P : A → Type 0) (a : A) (bs : List A) → P a → All P bs → All P (insert a bs)
  unfolding insert
  All-insert P a [] h hs = (h, tt)
  All-insert P a (b ∷ bs) h hs = choose (lt b a) (All-insert P a bs h hs.1)
    where
      choose : (t : Bool) → All P (insert a bs) → All P (if t then b ∷ insert a bs else a ∷ b ∷ bs)
      choose true rest = (hs.0, rest)
      choose false rest = (h, hs)

  pub All-sort : (P : A → Type 0) (xs : List A) → All P xs → All P (sort xs)
  unfolding sort
  All-sort P [] h = tt
  All-sort P (a ∷ xs) h = All-insert P a (sort xs) h.0 (All-sort P xs h.1)
