-- ===== src/Mutation/Proposal/Decoded.antt =====
-- What a proposal that the strict decoder accepts is made of.
use synapx_harness.Prelude.{
  String, str_eq, is_member, false, Option, none, some, List, [], ◌∷◌, ◌++◌, All, map, ◌≡◌, refl,
  sym, ◌∙◌, ap, arith, eq_iff,
}
use mathlib.Core.Path.{subst}
use synapx_harness.Prelude.Results.{ok, ok-inj, bind-ok, raise_if-ok}
use synapx_harness.Mutation.Text.{is_blank, join}
use synapx_harness.Mutation.Proposal.{PatchHunk, hunk, checked_hunk, close_hunk, file_path_of}

-- A hunk with one text that is not blank for another that is not blank, in a file that is named.
abbrev pub IsHunk : PatchHunk → Type 0
IsHunk h =
    (path old_text new_text : String) × (h ≡ hunk path old_text new_text)
    × (str_eq path "" ≡ false)
    × (is_blank old_text ≡ false)
    × (is_blank new_text ≡ false)
    × (str_eq old_text new_text ≡ false)

-- No text stands twice in a list.
abbrev pub NoRepeat : List String → Type 0
NoRepeat [] = Unit
NoRepeat (p ∷ ps) = (is_member p ps ≡ false) × NoRepeat ps

pub str_eq_sym : (s t : String) → str_eq s t ≡ false → str_eq t s ≡ false
str_eq_sym s t h = ground (arith, eq_iff s t, eq_iff t s, λ (p : t ≡ s). sym p)

pub is_member-append_one :
    (p q : String) (ps : List String)
    → is_member p ps ≡ false
    → str_eq p q ≡ false
    → is_member p (ps ++ q ∷ []) ≡ false
is_member-append_one p q [] h e = ground arith
is_member-append_one p q (r ∷ ps) h e = ground (arith, is_member-append_one p q ps)

pub NoRepeat-append_one :
    (q : String) (ps : List String) → NoRepeat ps → is_member q ps ≡ false → NoRepeat (ps ++ q ∷ [])
NoRepeat-append_one q [] h e = (refl, tt)
NoRepeat-append_one q (p ∷ ps) (h, hs) e = (
  is_member-append_one p q ps h (str_eq_sym q p (ground arith)),
  NoRepeat-append_one q ps hs (ground arith),
)

-- The path of the section that is open.
abbrev current : Option String → List String
current none = []
current (some p) = p ∷ []

abbrev IsNamed : Option String → Type 0
IsNamed none = Unit
IsNamed (some p) = str_eq p "" ≡ false

-- The closed hunks are hunks, and they and the open section are the files that were seen, each
-- once.
unfoldable pub WellFormed : List PatchHunk → List String → Option String → Type 0
WellFormed closed seen path =
    All IsHunk closed
    × NoRepeat seen
    × (map file_path_of closed ++ current path ≡ seen)
    × IsNamed path

All-append_one :
    (hs : List PatchHunk) (h : PatchHunk) → All IsHunk hs → IsHunk h → All IsHunk (hs ++ h ∷ [])
All-append_one [] h t p = (p, tt)
All-append_one (g ∷ hs) h (q, t) p = (q, All-append_one hs h t p)

paths-append_one :
    (hs : List PatchHunk) (h : PatchHunk)
    → map file_path_of (hs ++ h ∷ []) ≡ map file_path_of hs ++ file_path_of h ∷ []
paths-append_one [] h = refl
paths-append_one (g ∷ hs) h = ap (λ t. file_path_of g ∷ t) (paths-append_one hs h)

paths-append_none : (ps : List String) → ps ++ [] ≡ ps
paths-append_none [] = refl
paths-append_none (p ∷ ps) = ap (λ t. p ∷ t) (paths-append_none ps)

checked_hunk-IsHunk :
    (path old_text new_text : String) (h : PatchHunk)
    → checked_hunk path old_text new_text ≡ ok h
    → str_eq path "" ≡ false
    → IsHunk h × (file_path_of h ≡ path)
unfolding checked_hunk
checked_hunk-IsHunk path old_text new_text h e name =
    let (has_old, e₁) = raise_if-ok (is_blank old_text) _ _ h e in
    let (has_new, e₂) = raise_if-ok (is_blank new_text) _ _ h e₁ in
    let (differ, e₃) = raise_if-ok (str_eq old_text new_text) _ _ h e₂ in
    (
      (path, old_text, new_text, sym (ok-inj e₃), name, has_old, has_new, differ),
      ap file_path_of (sym (ok-inj e₃)),
    )

-- Closing the open section gives one hunk for each file that was seen.
pub close_hunk-closed :
    (path : Option String) (closed hs : List PatchHunk) (old_lines new_lines seen : List String)
    → close_hunk path closed old_lines new_lines ≡ ok hs
    → WellFormed closed seen path
    → All IsHunk hs × (map file_path_of hs ≡ seen)
unfolding close_hunk WellFormed
close_hunk-closed none closed hs old_lines new_lines seen e (h, once, all, _) = (
  subst (All IsHunk) (ok-inj e) h,
  ap (map file_path_of) (sym (ok-inj e))
      ∙ (sym (paths-append_none (map file_path_of closed)) ∙ all),
)
close_hunk-closed (some path) closed hs old_lines new_lines seen e (h, once, all, name) =
    let (one, checked, last) =
      bind-ok (checked_hunk path (join "\n" old_lines) (join "\n" new_lines)) _ hs e in
    let (is_hunk, same) =
      checked_hunk-IsHunk path (join "\n" old_lines) (join "\n" new_lines) one checked name in
    (
      subst (All IsHunk) (ok-inj last) (All-append_one closed one h is_hunk),
      ap (map file_path_of) (sym (ok-inj last))
          ∙ (paths-append_one closed one
              ∙ (ap (λ p. map file_path_of closed ++ p ∷ []) same ∙ all)),
    )
