-- ===== src/Prelude/Lists.antt =====
-- Python lists: lengths and sums over the native numbers, comprehensions with a test, and the
-- predicates by recursion that the proofs use.
use Prim.Native.Nat.{ℕ, zero, suc, ◌+◌, ◌≤◌}
use mathlib.Core.Path.{◌≡◌, refl, ap}
use mathlib.Core.Bool.{Bool, true, false, ◌||◌}
use mathlib.Core.List.{List, [], ◌∷◌, ◌++◌, map}
use native.Mathlib.Omega.{arith}
use synapx_harness.Prelude.Tests.{if◌then◌else◌}

module _ {ℓ} {A : Type ℓ} where
  abbrev pub length : List A → ℕ
  length [] = 0
  length (x ∷ xs) = suc (length xs)

  -- `sum(f(x) for x in xs)`
  abbrev pub sum_by : (A → ℕ) → List A → ℕ
  sum_by f [] = 0
  sum_by f (x ∷ xs) = f x + sum_by f xs

  -- `[x for x in xs if p(x)]`
  abbrev pub filter : (A → Bool) → List A → List A
  filter p [] = []
  filter p (x ∷ xs) = let rest = filter p xs in if p x then x ∷ rest else rest

  -- `sum(1 for x in xs if p(x))`
  abbrev pub count_if : (A → Bool) → List A → ℕ
  count_if p = sum_by (λ x. if p x then 1 else 0)

  -- `any(p(x) for x in xs)`
  abbrev pub any : (A → Bool) → List A → Bool
  any p [] = false
  any p (x ∷ xs) = p x || any p xs

  abbrev pub take : ℕ → List A → List A
  take zero xs = []
  take (suc n) [] = []
  take (suc n) (x ∷ xs) = x ∷ take n xs

  pub length-append : (xs ys : List A) → length (xs ++ ys) ≡ length xs + length ys
  length-append [] ys = omega arith
  length-append (x ∷ xs) ys = omega (arith, length-append xs ys)

  pub sum_by-append : (f : A → ℕ) (xs ys : List A) → sum_by f (xs ++ ys) ≡ sum_by f xs + sum_by f ys
  sum_by-append f [] ys = omega arith
  sum_by-append f (x ∷ xs) ys = omega (arith, sum_by-append f xs ys)

  pub length-eq-sum_by : (xs : List A) → length xs ≡ sum_by (λ _. 1) xs
  length-eq-sum_by [] = refl
  length-eq-sum_by (x ∷ xs) = omega (arith, length-eq-sum_by xs)

  pub sum_by-congr : (f g : A → ℕ) (xs : List A) → ((x : A) → f x ≡ g x) → sum_by f xs ≡ sum_by g xs
  sum_by-congr f g [] h = refl
  sum_by-congr f g (x ∷ xs) h = omega (arith, h x, sum_by-congr f g xs h)

  pub sum_by-filter_le :
      (f : A → ℕ) (p : A → Bool) (xs : List A) → sum_by f (filter p xs) ≤ sum_by f xs
  sum_by-filter_le f p [] = omega arith
  sum_by-filter_le f p (x ∷ xs) = ground (arith, sum_by-filter_le f p xs)

module _ {ℓ κ} {A : Type ℓ} where
  abbrev pub All : (A → Type κ) → List A → Type κ
  All P [] = Unit
  All P (x ∷ xs) = P x × All P xs

  pub All-filter : (P : A → Type κ) (p : A → Bool) (xs : List A) → All P xs → All P (filter p xs)
  All-filter P p [] h = tt
  All-filter P p (x ∷ xs) (hx, hxs) = keep (p x) (All-filter P p xs hxs)
    where
      keep : (b : Bool) → All P (filter p xs) → All P (if b then x ∷ filter p xs else filter p xs)
      keep true t = (hx, t)
      keep false t = t

module _ {ℓ κ} {A : Type ℓ} {B : Type κ} (f : A → B) where
  pub length-map : (xs : List A) → length (map f xs) ≡ length xs
  length-map [] = refl
  length-map (x ∷ xs) = omega (arith, length-map xs)

  pub take-length_append :
      (xs : List A) (ys : List B) → take (length xs) (map f xs ++ ys) ≡ map f xs
  take-length_append [] ys = refl
  take-length_append (x ∷ xs) ys = ap (λ zs. f x ∷ zs) (take-length_append xs ys)
