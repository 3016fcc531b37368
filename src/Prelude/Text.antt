-- ===== src/Prelude/Text.antt =====
-- The operations on `str` that the program uses, over the native texts.
use Prim.Native.Nat.{ℕ, zero, suc, ◌/◌, ◌%◌, Ordering}
use Prim.Native.String.{String, ◌++◌, compare}
use mathlib.Core.Bool.{Bool, true, false, ◌&&◌, ◌||◌}
use mathlib.Core.List.{List, [], ◌∷◌}
use text.Mathlib.Text.{◌==◌ as str_eq, starts_with}
use Prim.Native.Char.{Char, code}
use synapx_harness.Prelude.Tests.{if◌then◌else◌, leb, ◌==◌}

-- `part in text`
abbrev pub has_part : String → String → Bool
has_part part String.[] = str_eq part ""
has_part part (String.◌∷◌ c s) =
    let rest = has_part part s in if starts_with (String.◌∷◌ c s) part then true else rest

-- `text.endswith(part)`
abbrev pub ends_with : String → String → Bool
ends_with String.[] part = str_eq part ""
ends_with (String.◌∷◌ c s) part =
    let rest = ends_with s part in if str_eq (String.◌∷◌ c s) part then true else rest

-- `len(text)`
abbrev pub count_chars : String → ℕ
count_chars String.[] = 0
count_chars (String.◌∷◌ c s) = suc (count_chars s)

-- `text in texts`, of a list, a tuple or a set
abbrev pub is_member : String → List String → Bool
is_member s [] = false
is_member s (t ∷ ts) = str_eq s t || is_member s ts

-- `s < t`, by code points
abbrev pub text_lt : String → String → Bool
text_lt s t = elim (compare s t) [ Ordering.lt ↦ true | _ ↦ false ]

digit : ℕ → String
digit n =
    if leb n 0
    then "0"
    else if leb n 1
    then "1"
    else if leb n 2
    then "2"
    else if leb n 3
    then "3"
    else if leb n 4
    then "4"
    else if leb n 5
    then "5"
    else if leb n 6
    then "6"
    else if leb n 7
    then "7"
    else if leb n 8
    then "8"
    else "9"

-- `fuel` bounds the digits; `n` has at most `n` digits beyond its first.
decimal_fuel : ℕ → ℕ → String
decimal_fuel zero n = digit n
decimal_fuel (suc f) n =
    let front = decimal_fuel f (n / 10) in if leb n 9 then digit n else front ++ digit (n % 10)

-- `str(n)`
unfoldable pub decimal : ℕ → String
unfolding digit decimal_fuel
decimal n = decimal_fuel n n

-- `c.isspace()`
abbrev pub is_space : Char → Bool
is_space c =
    let n = code c in
    (leb 9 n && leb n 13)
    || (leb 28 n && leb n 32)
    || n == 133
    || n == 160
    || n == 5760
    || (leb 8192 n && leb n 8202)
    || n == 8232
    || n == 8233
    || n == 8239
    || n == 8287
    || n == 12288
