-- ===== src/Prelude/Parts.antt =====
-- `part in text` as a decomposition of the text.
use Prim.Native.String.{String, [], ◌∷◌, ◌++◌}
use mathlib.Core.Path.{◌≡◌, refl, sym, ap, ◌∙◌}
use mathlib.Core.Logic.{inl, inr}
use mathlib.Core.Bool.{Bool, true, false}
use text.Mathlib.Text.{starts_with}
use text.Mathlib.TextEquality.{eq_iff, starts_with_iff}
use text.Mathlib.TextPositions.{starts_with-append}
use text.Mathlib.TextLemmas.{append_assoc, nil-append, append-nil, cons-append, append-eq-nil_iff}
use synapx_harness.Prelude.Tests.{Bool-cases, if◌then◌else◌}
use synapx_harness.Prelude.Text.{has_part}

has_part-split :
    (part s : String)
    → has_part part s ≡ true
    → (before after : String) × (s ≡ before ++ (part ++ after))
has_part-split part [] h =
    ([], [], sym (nil-append (part ++ []) ∙ (append-nil part ∙ (eq_iff part "").0 h)))
has_part-split part (c ∷ s) h = elim (Bool-cases (starts_with (c ∷ s) part)) [
  | inl e ↦
      let (rest, p) = (starts_with_iff (c ∷ s) part).0 e in
      ([], rest, sym (nil-append (part ++ rest) ∙ p))
  | inr e ↦
      let (before, after, p) = has_part-split part s (rw e at h) in
      (c ∷ before, after, ap (λ t. c ∷ t) p ∙ sym (cons-append c before (part ++ after)))
]

has_part_of_start : (part s : String) → starts_with s part ≡ true → has_part part s ≡ true
has_part_of_start part [] h =
    let (rest, p) = (starts_with_iff [] part).0 h in (eq_iff part "").1 (append-eq-nil_iff.0 p).0
has_part_of_start part (c ∷ s) h = rw h

has_part-later :
    (part : String) (s : String) (before : String)
    → has_part part s ≡ true
    → has_part part (before ++ s) ≡ true
has_part-later part s [] h = rw nil-append h
has_part-later part s (c ∷ before) h =
    rw cons-append (longer (starts_with (c ∷ (before ++ s)) part) (has_part-later part s before h))
  where
    longer :
        (b : Bool)
        → has_part part (before ++ s) ≡ true
        → (if b then true else has_part part (before ++ s)) ≡ true
    longer true t = refl
    longer false t = t

-- What has a text as a part has every part of that text.
pub has_part_trans :
    (outer inner left right s : String)
    → outer ≡ left ++ (inner ++ right)
    → has_part outer s ≡ true
    → has_part inner s ≡ true
has_part_trans outer inner left right s whole h =
    let (before, after, p) = has_part-split outer s h in
    rw p (
      has_part-later inner (outer ++ after) before (
        rw (whole, append_assoc, append_assoc)
          (has_part-later inner (inner ++ (right ++ after)) left (
            has_part_of_start inner (inner ++ (right ++ after))
              (starts_with-append inner (right ++ after))))))
