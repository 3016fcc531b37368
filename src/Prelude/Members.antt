-- ===== src/Prelude/Members.antt =====
-- Membership, and what holds of all elements.
use mathlib.Core.List.{List, [], ◌∷◌, map, Memᴰ}
use mathlib.Core.Path.{◌≡◌, refl, sym, subst}
use mathlib.Core.Logic.{inl, inr}
use native.Mathlib.Omega.{arith}
use mathlib.Core.Bool.{Bool, true, false}
use synapx_harness.Prelude.Tests.{if◌then◌else◌, Bool-cases}
use synapx_harness.Prelude.Lists.{All, filter, any}

module _ {A : Type 0} where
  pub All-at : (P : A → Type 0) {x : A} (xs : List A) → All P xs → Memᴰ x xs → P x
  All-at P [] h m = elim m [ ]
  All-at P (y ∷ ys) h (Memᴰ.head e) = subst P (sym e) h.0
  All-at P (y ∷ ys) h (Memᴰ.tail m) = All-at P ys h.1 m

  pub All-of_members : (P : A → Type 0) (xs : List A) → ((x : A) → Memᴰ x xs → P x) → All P xs
  All-of_members P [] h = tt
  All-of_members P (x ∷ xs) h =
      (h x (Memᴰ.head refl), All-of_members P xs (λ y m. h y (Memᴰ.tail m)))

  -- An element that a comprehension keeps stands in the list and passes the test.
  pub All-filter-passed :
      (p : A → Bool) (xs ys : List A)
      → ((x : A) → Memᴰ x xs → Memᴰ x ys)
      → All (λ x. Memᴰ x ys × (p x ≡ true)) (filter p xs)
  All-filter-passed p [] ys inside = tt
  All-filter-passed p (x ∷ xs) ys inside =
      keep (p x) refl (All-filter-passed p xs ys (λ y m. inside y (Memᴰ.tail m)))
    where
      keep :
          (b : Bool)
          → p x ≡ b
          → All (λ y. Memᴰ y ys × (p y ≡ true)) (filter p xs)
          → All (λ y. Memᴰ y ys × (p y ≡ true)) (if b then x ∷ filter p xs else filter p xs)
      keep true e t = ((inside x (Memᴰ.head refl), e), t)
      keep false e t = t

module _ {A B : Type 0} (f : A → B) where
  pub Memᴰ-map_inv : {y : B} (xs : List A) → Memᴰ y (map f xs) → (x : A) × Memᴰ x xs × (y ≡ f x)
  Memᴰ-map_inv [] m = elim m [ ]
  Memᴰ-map_inv (x ∷ xs) (Memᴰ.head e) = (x, Memᴰ.head refl, e)
  Memᴰ-map_inv (x ∷ xs) (Memᴰ.tail m) = let (z, n, e) = Memᴰ-map_inv xs m in (z, Memᴰ.tail n, e)

module _ {A : Type 0} (p : A → Bool) where
  pub any-false_at : {x : A} (xs : List A) → any p xs ≡ false → Memᴰ x xs → p x ≡ false
  any-false_at [] h m = elim m [ ]
  any-false_at (y ∷ ys) h (Memᴰ.head e) = subst (λ z. p z ≡ false) (sym e) (ground arith)
  any-false_at (y ∷ ys) h (Memᴰ.tail m) = any-false_at ys (ground arith) m

  pub any-witness : (xs : List A) → any p xs ≡ true → (x : A) × Memᴰ x xs × (p x ≡ true)
  any-witness [] h = cc
  any-witness (y ∷ ys) h = elim (Bool-cases (p y)) [
    | inl e ↦ (y, Memᴰ.head refl, e)
    | inr e ↦ let (x, m, q) = any-witness ys (ground arith) in (x, Memᴰ.tail m, q)
  ]

  pub Memᴰ-filter_inv : {x : A} (xs : List A) → Memᴰ x (filter p xs) → Memᴰ x xs × (p x ≡ true)
  Memᴰ-filter_inv {x} xs m =
      All-at (λ y. Memᴰ y xs × (p y ≡ true)) (filter p xs) (All-filter-passed p xs xs (λ y n. n)) m
