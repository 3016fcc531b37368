-- ===== src/Mutation/Bytes.antt =====
-- The operations on `bytes` that the mutation authority uses: UTF-8, `count` and `replace`. The
-- callers pass no empty `old`.
pub mod Unique
pub mod Encoding
use synapx_harness.Prelude.{ℕ, zero, suc, ◌+◌, ◌/◌, ◌%◌, String, Bool, true, false, ◌&&◌}
use synapx_harness.Prelude.{List, [], ◌∷◌, ◌++◌, if◌then◌else◌, ltb, ◌==◌, length}
use Prim.Native.Char.{Char, code}

abbrev pub Bytes : Type 0
Bytes = List ℕ

-- The bytes of one code point.
unfoldable pub utf8 : ℕ → Bytes
utf8 n =
    if ltb n 128
    then n ∷ []
    else if ltb n 2048
    then (192 + n / 64) ∷ (128 + n % 64) ∷ []
    else if ltb n 65536
    then (224 + n / 4096) ∷ (128 + (n / 64) % 64) ∷ (128 + n % 64) ∷ []
    else (240 + n / 262144) ∷ (128 + (n / 4096) % 64) ∷ (128 + (n / 64) % 64) ∷ (128 + n % 64) ∷ []

-- `text.encode("utf-8")`
unfoldable pub encode : String → Bytes
unfolding utf8
encode String.[] = []
encode (String.◌∷◌ c s) = utf8 (code c) ++ encode s

-- `xs.startswith(old)`
abbrev pub begins : Bytes → Bytes → Bool
begins [] xs = true
begins (o ∷ os) [] = false
begins (o ∷ os) (x ∷ xs) = o == x && begins os xs

-- The bytes of a match that follow its first one are passed over.
abbrev pub skipped : Bool → Bytes → ℕ
skipped false old = 0
skipped true [] = 0
skipped true (o ∷ os) = length os

-- `skip` is what is left of a match that was counted.
unfoldable pub count_from : ℕ → Bytes → Bytes → ℕ
count_from (suc skip) old [] = 0
count_from (suc skip) old (x ∷ xs) = count_from skip old xs
count_from zero old [] = 0
count_from zero old (x ∷ xs) =
    let found = begins old (x ∷ xs) in
    let rest = count_from (skipped found old) old xs in if found then suc rest else rest

-- `xs.count(old)`
unfoldable pub count : Bytes → Bytes → ℕ
count old xs = count_from 0 old xs

unfoldable pub replace_from : ℕ → Bytes → Bytes → Bytes → Bytes
replace_from (suc skip) old new [] = []
replace_from (suc skip) old new (x ∷ xs) = replace_from skip old new xs
replace_from zero old new [] = []
replace_from zero old new (x ∷ xs) =
    let found = begins old (x ∷ xs) in
    let rest = replace_from (skipped found old) old new xs in
    if found then new ++ rest else x ∷ rest

-- `xs.replace(old, new)`
unfoldable pub replace : Bytes → Bytes → Bytes → Bytes
replace old new xs = replace_from 0 old new xs

abbrev crlf : Bytes
crlf = 13 ∷ 10 ∷ []

-- `_normalize_line_endings_for_binding`, and the same step of the applicator
unfoldable pub normalize_line_endings : Bytes → Bytes
normalize_line_endings data_bytes = replace crlf (10 ∷ []) data_bytes

-- `not data`
abbrev pub is_no_bytes : Bytes → Bool
is_no_bytes [] = true
is_no_bytes (_ ∷ _) = false

-- `a == b`
abbrev pub same_bytes : Bytes → Bytes → Bool
same_bytes [] [] = true
same_bytes (x ∷ xs) (y ∷ ys) = x == y && same_bytes xs ys
same_bytes _ _ = false
