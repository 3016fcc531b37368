-- ===== src/Mutation/Proposal/FileLine.antt =====
-- A line `FILE: path`: the white space round it, its marker and its path.
use synapx_harness.Prelude.{
  String, ◌<>◌, str_eq, starts_with, Bool, true, false, ◌&&◌, if◌then◌else◌, is_space, Bool-cases,
  inl, inr, ◌≡◌, refl, sym, ◌∙◌, ap, eq_iff,
}
use text.Mathlib.TextLemmas.{cons-append, nil-append, append_assoc, cons-ne-nil}
use text.Mathlib.TextPositions.{starts_with-append}
use Prim.Native.Char.{Char, char}
use synapx_harness.Mutation.Text.{strip, lstrip, rstrip, drop_start}

rstrip_idem : (s : String) → rstrip (rstrip s) ≡ rstrip s
rstrip_idem String.[] = refl
rstrip_idem (String.◌∷◌ c s) = kept (is_space c && str_eq (rstrip s) "") refl (rstrip_idem s)
  where
    kept :
        (b : Bool)
        → is_space c && str_eq (rstrip s) "" ≡ b
        → rstrip (rstrip s) ≡ rstrip s
        → rstrip (if b then "" else String.◌∷◌ c (rstrip s))
          ≡ (if b then "" else String.◌∷◌ c (rstrip s))
    kept true e rec = refl
    kept false e rec = rw (rec, e) refl

-- A path without white space round it ends as it does.
rstrip-path : (p : String) → strip p ≡ p → rstrip p ≡ p
unfolding strip
rstrip-path p h = ap rstrip (sym h) ∙ (rstrip_idem (lstrip p) ∙ h)

if_and_false : {A : Type 0} (b : Bool) (x y : A) → (if b && false then x else y) ≡ y
if_and_false true x y = refl
if_and_false false x y = refl

rstrip-cons :
    (c : Char) (s : String)
    → rstrip s ≡ s
    → str_eq s "" ≡ false
    → rstrip (String.◌∷◌ c s) ≡ String.◌∷◌ c s
rstrip-cons c s h e = rw (h, e) (if_and_false (is_space c) "" (String.◌∷◌ c s))

cons-nonempty : (c : Char) (s : String) → str_eq (String.◌∷◌ c s) "" ≡ false
cons-nonempty c s = elim (Bool-cases (str_eq (String.◌∷◌ c s) "")) [
  | inl e ↦ elim (cons-ne-nil c s ((eq_iff (String.◌∷◌ c s) "").0 e)) [ ]
  | inr e ↦ e
]

-- `FILE:` and what follows, by characters.
abbrev file_marker : String → String
file_marker t = String.◌∷◌ (char 70 tt) (
    String.◌∷◌ (char 73 tt)
      (String.◌∷◌ (char 76 tt) (String.◌∷◌ (char 69 tt) (String.◌∷◌ (char 58 tt) t))))

append-file_marker : (t : String) → "FILE:" <> t ≡ file_marker t
append-file_marker t =
    cons-append (char 70 tt) "ILE:" t
    ∙ ap (String.◌∷◌ (char 70 tt)) (
        cons-append (char 73 tt) "LE:" t
        ∙ ap (String.◌∷◌ (char 73 tt)) (
            cons-append (char 76 tt) "E:" t
            ∙ ap (String.◌∷◌ (char 76 tt)) (
                cons-append (char 69 tt) ":" t
                ∙ ap (String.◌∷◌ (char 69 tt))
                    (cons-append (char 58 tt) "" t ∙ ap (String.◌∷◌ (char 58 tt)) (nil-append t)))))

abbrev spaced : String → String
spaced p = String.◌∷◌ (char 32 tt) p

file_line : (p : String) → "FILE: " <> p ≡ file_marker (spaced p)
file_line p =
    append_assoc "FILE:" " " p
    ∙ (append-file_marker (" " <> p)
        ∙ ap file_marker (cons-append (char 32 tt) "" p ∙ ap spaced (nil-append p)))

rstrip-file_marker :
    (t : String) → rstrip t ≡ t → str_eq t "" ≡ false → rstrip (file_marker t) ≡ file_marker t
rstrip-file_marker t h e = longer (char 70 tt) (
    longer (char 73 tt)
      (longer (char 76 tt) (longer (char 69 tt) (rstrip-cons (char 58 tt) t h e))))
  where
    longer :
        (c : Char) {d : Char} {s : String}
        → rstrip (String.◌∷◌ d s) ≡ String.◌∷◌ d s
        → rstrip (String.◌∷◌ c (String.◌∷◌ d s)) ≡ String.◌∷◌ c (String.◌∷◌ d s)
    longer c {d} {s} q = rstrip-cons c (String.◌∷◌ d s) q (cons-nonempty d s)

-- White space is neither before the marker nor after the path.
pub strip-file_line :
    (p : String) → strip p ≡ p → str_eq p "" ≡ false → strip ("FILE: " <> p) ≡ "FILE: " <> p
unfolding strip
strip-file_line p h e =
    ap strip (file_line p)
    ∙ (rstrip-file_marker (spaced p) (rstrip-cons (char 32 tt) p (rstrip-path p h) e)
          (cons-nonempty (char 32 tt) p)
        ∙ sym (file_line p))

pub starts_with-file_line : (p : String) → starts_with ("FILE: " <> p) "FILE:" ≡ true
starts_with-file_line p =
    ap (λ t. starts_with t "FILE:") (append_assoc "FILE:" " " p)
    ∙ starts_with-append "FILE:" (" " <> p)

pub path-file_line : (p : String) → strip p ≡ p → strip (drop_start "FILE:" ("FILE: " <> p)) ≡ p
unfolding strip
path-file_line p h = ap (λ t. strip (drop_start "FILE:" t)) (file_line p) ∙ h
