-- ===== src/Prelude/TextOrder.antt =====
-- The order of texts is asymmetric: what a sort needs of it.
use Prim.Native.Nat.{ℕ, compare as compare_ℕ, Ordering}
use Prim.Native.Char.{code}
use Prim.Native.String.{String, [], ◌∷◌, then, compare}
use Prim.Native.String.compare
use mathlib.Core.Path.{◌≡◌, refl, sym, ◌∙◌, ap, ap₂}
use mathlib.Core.Bool.{true, false}
use text.Mathlib.TextPositions.{compare_refl}
use native.Mathlib.Omega.{arith}
use synapx_harness.Prelude.Text.{text_lt}

abbrev swap : Ordering → Ordering
swap Ordering.lt = Ordering.gt
swap Ordering.eq = Ordering.eq
swap Ordering.gt = Ordering.lt

compare_ℕ-swap : (m n : ℕ) → compare_ℕ m n ≡ swap (compare_ℕ n m)
compare_ℕ-swap m n = ground arith

then-swap : (o p : Ordering) → swap (then o p) ≡ then (swap o) (swap p)
then-swap Ordering.lt p = refl
then-swap Ordering.eq p = refl
then-swap Ordering.gt p = refl

compare-swap : (s t : String) → compare s t ≡ swap (compare t s)
compare-swap [] [] = refl
compare-swap [] (d ∷ t) = compare.nil-cons d t ∙ sym (ap swap (compare.cons-nil d t))
compare-swap (c ∷ s) [] = compare.cons-nil c s ∙ sym (ap swap (compare.nil-cons c s))
compare-swap (c ∷ s) (d ∷ t) =
    compare.cons-cons c d s t
    ∙ (ap₂ then (compare_ℕ-swap (code c) (code d)) (compare-swap s t)
        ∙ (sym (then-swap (compare_ℕ (code d) (code c)) (compare t s))
            ∙ sym (ap swap (compare.cons-cons d c t s))))

pub text_lt_asymm : (s t : String) → text_lt s t ≡ true → text_lt t s ≡ false
text_lt_asymm s t h = ground (arith, compare-swap s t)

pub text_lt_irrefl : (s : String) → text_lt s s ≡ false
text_lt_irrefl s = ground (arith, compare_refl s)
