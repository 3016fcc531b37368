-- ===== src/Prelude/Nonempty.antt =====
-- A text that begins with a text that is not empty is not empty.
use Prim.Native.String.{String, ◌++◌}
use mathlib.Core.Path.{◌≡◌}
use mathlib.Core.Bool.{false}
use native.Mathlib.Omega.{arith}
use text.Mathlib.Text.{◌==◌ as str_eq}
use text.Mathlib.TextEquality.{eq_iff}
use text.Mathlib.TextLemmas.{append-eq-nil_iff}

pub append-nonempty : (s t : String) → str_eq s "" ≡ false → str_eq (s ++ t) "" ≡ false
append-nonempty s t h =
    ground (arith, eq_iff (s ++ t) "", eq_iff s "", λ (p : s ++ t ≡ ""). (append-eq-nil_iff.0 p).0)
