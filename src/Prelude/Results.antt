-- ===== src/Prelude/Results.antt =====
-- Code that may raise: a value or the exception that ends it.
use mathlib.Core.Bool.{Bool, true, false}
use mathlib.Core.Path.{◌≡◌, refl}

pub data Result {ℓ κ} (E : Type ℓ) (A : Type κ) : Type (ℓ ⊔ κ) where
  ok : A → Result E A
  err : E → Result E A

infixl 5 ◌>>=◌ ◌>>◌
abbrev pub ◌>>=◌ {ℓ κ μ} :
    {E : Type ℓ} {A : Type κ} {B : Type μ} → Result E A → (A → Result E B) → Result E B
ok a >>= f = f a
err e >>= f = err e

abbrev pub ◌>>◌ {ℓ κ} : {E : Type ℓ} {B : Type κ} → Result E (Unit {0}) → Result E B → Result E B
m >> k = m >>= λ _. k

-- `if b: raise e`
abbrev pub raise_if {ℓ} : {E : Type ℓ} → Bool → E → Result E (Unit {0})
raise_if true e = err e
raise_if false e = ok tt

pub ok-inj : {E A : Type 0} {a b : A} → ◌≡◌ {0} {A = Result E A} (ok a) (ok b) → a ≡ b
ok-inj h = cc

module _ {E A B : Type 0} where
  -- Where a chain gives a value, its first step has given one.
  pub bind-ok :
      (m : Result E A) (f : A → Result E B) (b : B)
      → (m >>= f) ≡ ok b
      → (a : A) × (m ≡ ok a) × (f a ≡ ok b)
  bind-ok (ok a) f b h = (a, refl, h)
  bind-ok (err e) f b h = cc

module _ {E B : Type 0} where
  pub raise_if-ok :
      (t : Bool) (e : E) (k : Result E B) (b : B)
      → (raise_if t e >> k) ≡ ok b
      → (t ≡ false) × (k ≡ ok b)
  raise_if-ok true e k b h = cc
  raise_if-ok false e k b h = (refl, h)
