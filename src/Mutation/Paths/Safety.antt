-- ===== src/Mutation/Paths/Safety.antt =====
-- The normal form of a write path: what it excludes, and that it is the normal form of itself.
use synapx_harness.Prelude.{
  String, str_eq, Bool, true, false, ◌||◌, if◌then◌else◌, ◌≡◌, refl, sym, ◌∙◌, ap, arith, ◌==◌,
  ◌&&◌,
}
use synapx_harness.Prelude.Results.{Result, ok, ◌>>◌, raise_if}
use synapx_harness.Mutation.Text.{drop_first}
use synapx_harness.Mutation.Paths.{
  PathError, empty_token, absolute_path, parent_traversal, empty_path, normalize_write_token_path,
  fold_slashes, strip_dots, has_parent, is_absolute,
}
use Prim.Native.Char.{Char, char, code}

-- The four guards, and what passes them all.
guarded : Bool → Bool → Bool → Bool → String → Result PathError String
guarded a b c d s = do
  raise_if a empty_token
  raise_if b absolute_path
  raise_if c parent_traversal
  raise_if d empty_path
  ok s

guarded-passed :
    (a b c d : Bool) (s p : String)
    → guarded a b c d s ≡ ok p
    → (b ≡ false) × (c ≡ false) × (d ≡ false) × (s ≡ p)
unfolding guarded
guarded-passed a b c d s p h = ground arith

guarded-passes :
    (a b c d : Bool) (s p : String)
    → a ≡ false
    → b ≡ false
    → c ≡ false
    → d ≡ false
    → s ≡ p
    → guarded a b c d s ≡ ok p
unfolding guarded
guarded-passes a b c d s p ha hb hc hd e = ground arith

fold_slashes_idem : (s : String) → fold_slashes (fold_slashes s) ≡ fold_slashes s
fold_slashes_idem String.[] = refl
fold_slashes_idem (String.◌∷◌ c s) = folded (code c == 92) refl (fold_slashes_idem s)
  where
    folded :
        (b : Bool)
        → code c == 92 ≡ b
        → fold_slashes (fold_slashes s) ≡ fold_slashes s
        → fold_slashes
            (if b then String.◌∷◌ (char 47 tt) (fold_slashes s) else String.◌∷◌ c (fold_slashes s))
          ≡ (if b then String.◌∷◌ (char 47 tt) (fold_slashes s) else String.◌∷◌ c (fold_slashes s))
    folded true e rec = ap (String.◌∷◌ (char 47 tt)) rec
    folded false e rec = rw (e, rec) refl

strip_dots_idem : (s : String) → strip_dots (strip_dots s) ≡ strip_dots s
strip_dots_idem String.[] = refl
strip_dots_idem (String.◌∷◌ c String.[]) = refl
strip_dots_idem (String.◌∷◌ c (String.◌∷◌ d s)) =
    stripped (code c == 46 && code d == 47) refl (strip_dots_idem s)
  where
    stripped :
        (b : Bool)
        → code c == 46 && code d == 47 ≡ b
        → strip_dots (strip_dots s) ≡ strip_dots s
        → strip_dots (if b then strip_dots s else String.◌∷◌ c (String.◌∷◌ d s))
          ≡ (if b then strip_dots s else String.◌∷◌ c (String.◌∷◌ d s))
    stripped true e rec = rec
    stripped false e rec = rw e refl

fold_slashes-tail :
    (c : Char) (s : String) → fold_slashes (String.◌∷◌ c s) ≡ String.◌∷◌ c s → fold_slashes s ≡ s
fold_slashes-tail c s h = rest (code c == 92) h
  where
    rest :
        (b : Bool)
        → (if b then String.◌∷◌ (char 47 tt) (fold_slashes s) else String.◌∷◌ c (fold_slashes s))
          ≡ String.◌∷◌ c s
        → fold_slashes s ≡ s
    rest true e = ap drop_first e
    rest false e = ap drop_first e

fold_slashes-strip_dots :
    (s : String) → fold_slashes s ≡ s → fold_slashes (strip_dots s) ≡ strip_dots s
fold_slashes-strip_dots String.[] h = refl
fold_slashes-strip_dots (String.◌∷◌ c String.[]) h = h
fold_slashes-strip_dots (String.◌∷◌ c (String.◌∷◌ d s)) h =
    either (code c == 46 && code d == 47)
      (fold_slashes-strip_dots s (fold_slashes-tail d s (fold_slashes-tail c (String.◌∷◌ d s) h)))
  where
    either :
        (b : Bool)
        → fold_slashes (strip_dots s) ≡ strip_dots s
        → fold_slashes (if b then strip_dots s else String.◌∷◌ c (String.◌∷◌ d s))
          ≡ (if b then strip_dots s else String.◌∷◌ c (String.◌∷◌ d s))
    either true rec = rec
    either false rec = h

normalize_write_token_path-passed :
    (raw p : String)
    → normalize_write_token_path raw ≡ ok p
    → (is_absolute (fold_slashes raw) ≡ false)
      × (has_parent (strip_dots (fold_slashes raw)) ≡ false)
      × ((str_eq (strip_dots (fold_slashes raw)) "" || str_eq (strip_dots (fold_slashes raw)) ".")
          ≡ false)
      × (strip_dots (fold_slashes raw) ≡ p)
unfolding normalize_write_token_path guarded
normalize_write_token_path-passed raw p h =
    guarded-passed (str_eq raw "") (is_absolute (fold_slashes raw))
      (has_parent (strip_dots (fold_slashes raw)))
      (str_eq (strip_dots (fold_slashes raw)) "" || str_eq (strip_dots (fold_slashes raw)) ".")
      (strip_dots (fold_slashes raw)) p h

-- A path in normal form: no step to a parent directory, neither empty nor the directory itself, no
-- backslash and no leading `./` that is left to take away.
abbrev pub IsNormal : String → Type 0
IsNormal p =
    (has_parent p ≡ false)
    × (str_eq p "" ≡ false)
    × (str_eq p "." ≡ false)
    × (fold_slashes p ≡ p)
    × (strip_dots p ≡ p)

-- Every path that the normalizer returns is in normal form: it has no `..` segment, it is neither
-- empty nor `.`, and there is neither a backslash nor a leading `./` in it. It is not absolute
-- where the folded text has no leading `./`.
pub normalize_write_token_path-IsNormal :
    (raw p : String)
    → normalize_write_token_path raw ≡ ok p
    → IsNormal p × (strip_dots (fold_slashes raw) ≡ fold_slashes raw → is_absolute p ≡ false)
normalize_write_token_path-IsNormal raw p h =
    let (rooted, parent, blank, e) = normalize_write_token_path-passed raw p h in
    let folded = fold_slashes-strip_dots (fold_slashes raw) (fold_slashes_idem raw) in
    (
      (
        ap has_parent (sym e) ∙ parent,
        ap (λ s. str_eq s "") (sym e) ∙ ground arith,
        ap (λ s. str_eq s ".") (sym e) ∙ ground arith,
        ap fold_slashes (sym e) ∙ (folded ∙ e),
        ap strip_dots (sym e) ∙ (strip_dots_idem (fold_slashes raw) ∙ e),
      ),
      λ undotted. ap is_absolute (sym e ∙ undotted) ∙ rooted,
    )

-- A path that the normalizer returns and that is not absolute is the normal form of itself.
pub normalize_write_token_path_idem :
    (raw p : String)
    → normalize_write_token_path raw ≡ ok p
    → is_absolute p ≡ false
    → normalize_write_token_path p ≡ ok p
unfolding normalize_write_token_path guarded
normalize_write_token_path_idem raw p h rooted =
    let ((parent, blank, dot, folded, stripped), _) = normalize_write_token_path-IsNormal raw p h in
    let whole = ap strip_dots folded ∙ stripped in
    guarded-passes (str_eq p "") (is_absolute (fold_slashes p))
      (has_parent (strip_dots (fold_slashes p)))
      (str_eq (strip_dots (fold_slashes p)) "" || str_eq (strip_dots (fold_slashes p)) ".")
      (strip_dots (fold_slashes p)) p blank (ap is_absolute folded ∙ rooted)
      (ap has_parent whole ∙ parent) (ap (λ s. str_eq s "" || str_eq s ".") whole ∙ ground arith)
      whole
