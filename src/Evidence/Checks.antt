-- ===== src/Evidence/Checks.antt =====
-- The tests on JSON values that the validators of the package evidence share: `isinstance` and
-- what goes with it, and the list of violations that each of them gathers.
use synapx_harness.Prelude.{str_eq, Bool, true, false, ◌&&◌, not, List, [], ◌∷◌, ◌++◌}
use synapx_harness.Prelude.{Option, none, some, ℤ, pos, negsuc, ◌≡◌, refl}
use synapx_harness.Values.{Value, bool, int, str}

-- `isinstance(v, str) and v`
abbrev pub is_filled : Value → Bool
is_filled (str s) = not (str_eq s "")
is_filled _ = false

-- `isinstance(v, str)`
abbrev pub is_str : Value → Bool
is_str (str s) = true
is_str _ = false

-- The number that an `int` is; a truth value is one.
abbrev pub number : Value → Option ℤ
number (int z) = some z
number (bool true) = some (pos 1)
number (bool false) = some (pos 0)
number _ = none

-- `isinstance(v, int)`, and a test on the number
abbrev pub holds : (ℤ → Bool) → Option ℤ → Bool
holds test none = false
holds test (some z) = test z

-- `z >= 0`
abbrev pub is_natural : ℤ → Bool
is_natural (pos n) = true
is_natural (negsuc n) = false

-- One violation where a test fails.
abbrev pub unless {ℓ} : {A : Type ℓ} → Bool → A → List A
unless true v = []
unless false v = v ∷ []

abbrev pub none_left {ℓ} : {A : Type ℓ} → List A → Bool
none_left [] = true
none_left (v ∷ vs) = false

-- `len(violations) == 0, violations`
abbrev pub verdict {ℓ} : {A : Type ℓ} → List A → Bool × List A
verdict vs = (none_left vs, vs)

pub none_left-++ {ℓ} :
    {A : Type ℓ} (xs ys : List A) → none_left (xs ++ ys) ≡ (none_left xs && none_left ys)
none_left-++ [] ys = refl
none_left-++ (x ∷ xs) ys = refl

pub none_left-unless {ℓ} : {A : Type ℓ} (b : Bool) (v : A) → none_left (unless b v) ≡ b
none_left-unless true v = refl
none_left-unless false v = refl
