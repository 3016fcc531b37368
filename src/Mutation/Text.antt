-- ===== src/Mutation/Text.antt =====
-- The methods of `str` that the mutation authority uses.
use synapx_harness.Prelude.{String, ◌<>◌, str_eq, starts_with, is_space, ◌==◌, leb}
use synapx_harness.Prelude.{Bool, false, ◌&&◌, ◌||◌, if◌then◌else◌}
use synapx_harness.Prelude.{Option, none, some, List, [], ◌∷◌}
use Prim.Native.Char.{Char, code}

-- `text.lstrip()`
abbrev pub lstrip : String → String
lstrip String.[] = ""
lstrip (String.◌∷◌ c s) = let rest = lstrip s in if is_space c then rest else String.◌∷◌ c s

-- `text.rstrip()`
abbrev pub rstrip : String → String
rstrip String.[] = ""
rstrip (String.◌∷◌ c s) =
    let rest = rstrip s in if is_space c && str_eq rest "" then "" else String.◌∷◌ c rest

-- `text.strip()`
unfoldable pub strip : String → String
strip s = rstrip (lstrip s)

-- `not text.strip()`
abbrev pub is_blank : String → Bool
is_blank s = str_eq (strip s) ""

-- `text[len(part):]` of a text that starts with `part`
abbrev pub drop_start : String → String → String
drop_start String.[] s = s
drop_start (String.◌∷◌ p ps) String.[] = ""
drop_start (String.◌∷◌ p ps) (String.◌∷◌ c s) = drop_start ps s

-- `text[1:]`
abbrev pub drop_first : String → String
drop_first String.[] = ""
drop_first (String.◌∷◌ c s) = s

-- The text before the first occurrence of `part` and the text from there on; `none` where
-- `text.find(part) < 0`. The callers pass no empty `part`.
abbrev pub find_part : String → String → Option (String × String)
find_part part String.[] = none
find_part part (String.◌∷◌ c s) =
    let rest = find_part part s in
    if starts_with (String.◌∷◌ c s) part
    then some ("", String.◌∷◌ c s)
    else elim rest [ none ↦ none | some (before, from) ↦ some (String.◌∷◌ c before, from) ]

-- One more character at the front of the first line.
abbrev pub push : Char → List String → List String
push c [] = String.◌∷◌ c "" ∷ []
push c (l ∷ ls) = String.◌∷◌ c l ∷ ls

-- The characters that end a line.
abbrev pub is_break : Char → Bool
is_break c =
    let n = code c in
    (leb 10 n && leb n 13) || (leb 28 n && leb n 30) || n == 133 || n == 8232 || n == 8233

-- The lines and what follows the last end of line; `after_cr` tells that a carriage return was just
-- read, with which a line feed is one end of line.
abbrev pub cut_lines : Bool → String → List String
cut_lines after_cr String.[] = "" ∷ []
cut_lines after_cr (String.◌∷◌ c s) =
    let rest = cut_lines (code c == 13) s in
    if after_cr && code c == 10 then rest else if is_break c then "" ∷ rest else push c rest

-- The last one is no line when it is empty.
abbrev pub drop_empty_last : List String → List String
drop_empty_last [] = []
drop_empty_last (l ∷ []) = if str_eq l "" then [] else l ∷ []
drop_empty_last (l ∷ m ∷ ls) = l ∷ drop_empty_last (m ∷ ls)

-- `text.splitlines()`
unfoldable pub splitlines : String → List String
splitlines s = drop_empty_last (cut_lines false s)

-- `sep.join(texts)`
abbrev pub join : String → List String → String
join sep [] = ""
join sep (t ∷ []) = t
join sep (t ∷ u ∷ ts) = t <> (sep <> join sep (u ∷ ts))
