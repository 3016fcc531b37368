-- ===== src/Mutation/Proposal/Accepted.antt =====
-- The loop of the strict decoder keeps its sections well formed, so what it accepts is a list of
-- hunks in files that differ.
use synapx_harness.Prelude.{
  String, str_eq, starts_with, is_member, Bool, true, false, ◌||◌, not, if◌then◌else◌, List, [],
  ◌∷◌, ◌++◌, All, map, ◌≡◌, refl, sym, ap,
}
use mathlib.Core.Path.{subst}
use synapx_harness.Prelude.Results.{ok, err, ok-inj, bind-ok, raise_if-ok}
use synapx_harness.Mutation.Text.{strip, drop_start, splitlines}
use synapx_harness.Mutation.Proposal.{
  PatchHunk, ParseError, Block, outside_block, in_old, in_new, Decoder, close_hunk, open_file,
  with_state, begin_old, end_old, begin_new, end_new, add_line, decode_stripped, decode_lines,
  start, finish, decode, frame, has_none, file_path_of, is_none, is_outside, is_in_old, is_in_new,
  is_empty, conflict_marker,
}
use synapx_harness.Mutation.Proposal.Decoded.{
  IsHunk, NoRepeat, WellFormed, NoRepeat-append_one, close_hunk-closed,
}

Holds : Decoder → Type 0
Holds d = WellFormed d.closed d.seen_paths d.current_path

open_file-Holds : (d d' : Decoder) (path : String) → open_file d path ≡ ok d' → Holds d → Holds d'
unfolding open_file Holds WellFormed
open_file-Holds d d' path e h =
    let (_, e₁) = raise_if-ok (not (is_outside d.state)) _ _ d' e in
    let (closed, closing, e₂) =
      bind-ok (close_hunk d.current_path d.closed d.old_lines d.new_lines) _ d' e₁ in
    let (name, e₃) = raise_if-ok (str_eq path "") _ _ d' e₂ in
    let (fresh, e₄) = raise_if-ok (is_member path d.seen_paths) _ _ d' e₃ in
    let (all, paths) =
      close_hunk-closed d.current_path d.closed closed d.old_lines d.new_lines d.seen_paths closing
        h in
    subst Holds (ok-inj e₄) (
      all,
      NoRepeat-append_one path d.seen_paths (h.1) fresh,
      ap (λ ps. ps ++ path ∷ []) paths,
      name,
    )

begin_old-Holds : (d d' : Decoder) → begin_old d ≡ ok d' → Holds d → Holds d'
unfolding begin_old Holds
begin_old-Holds d d' e h =
    let (_, e₁) = raise_if-ok (is_none d.current_path) _ _ d' e in
    let (_, e₂) = raise_if-ok (not (is_outside d.state)) _ _ d' e₁ in subst Holds (ok-inj e₂) h

end_old-Holds : (d d' : Decoder) → end_old d ≡ ok d' → Holds d → Holds d'
unfolding end_old Holds
end_old-Holds d d' e h =
    let (_, e₁) = raise_if-ok (not (is_in_old d.state)) _ _ d' e in subst Holds (ok-inj e₁) h

begin_new-Holds : (d d' : Decoder) → begin_new d ≡ ok d' → Holds d → Holds d'
unfolding begin_new Holds
begin_new-Holds d d' e h =
    let (_, e₁) = raise_if-ok (is_none d.current_path) _ _ d' e in
    let (_, e₂) = raise_if-ok (not (is_outside d.state)) _ _ d' e₁ in
    let (_, e₃) = raise_if-ok (is_empty d.old_lines) _ _ d' e₂ in subst Holds (ok-inj e₃) h

end_new-Holds : (d d' : Decoder) → end_new d ≡ ok d' → Holds d → Holds d'
unfolding end_new Holds
end_new-Holds d d' e h =
    let (_, e₁) = raise_if-ok (not (is_in_new d.state)) _ _ d' e in subst Holds (ok-inj e₁) h

add_line-Holds :
    (b : Block) (d d' : Decoder) (line stripped : String)
    → add_line b d line stripped ≡ ok d'
    → Holds d
    → Holds d'
unfolding add_line Holds
add_line-Holds in_old d d' line stripped e h = subst Holds (ok-inj e) h
add_line-Holds in_new d d' line stripped e h = subst Holds (ok-inj e) h
add_line-Holds outside_block d d' line stripped e h = kept (str_eq stripped "") e
  where
    kept :
        (t : Bool)
        → (if t then ok d else err (synapx_harness.Mutation.Proposal.unrecognized_line stripped))
          ≡ ok d'
        → Holds d'
    kept true q = subst Holds (ok-inj q) h
    kept false q = cc

decode_stripped-Holds :
    (d d' : Decoder) (line stripped : String)
    → decode_stripped d line stripped ≡ ok d'
    → Holds d
    → Holds d'
unfolding decode_stripped
decode_stripped-Holds d d' line stripped e h =
    turn (starts_with stripped "FILE:") (str_eq stripped "<<<< OLD") (str_eq stripped ">>>> OLD")
      (str_eq stripped "<<<< NEW") (str_eq stripped ">>>> NEW")
      (str_eq stripped "<<<<<<<<" || str_eq stripped ">>>>>>>>") e
  where
    turn :
        (file old old_end new new_end conflict : Bool)
        → (if file
            then open_file d (strip (drop_start "FILE:" stripped))
            else if old
            then begin_old d
            else if old_end
            then end_old d
            else if new
            then begin_new d
            else if new_end
            then end_new d
            else if conflict
            then err (conflict_marker stripped)
            else add_line d.state d line stripped)
          ≡ ok d'
        → Holds d'
    turn true _ _ _ _ _ q = open_file-Holds d d' (strip (drop_start "FILE:" stripped)) q h
    turn false true _ _ _ _ q = begin_old-Holds d d' q h
    turn false false true _ _ _ q = end_old-Holds d d' q h
    turn false false false true _ _ q = begin_new-Holds d d' q h
    turn false false false false true _ q = end_new-Holds d d' q h
    turn false false false false false true q = cc
    turn false false false false false false q = add_line-Holds d.state d d' line stripped q h

decode_lines-Holds :
    (lines : List String) (d d' : Decoder) → decode_lines d lines ≡ ok d' → Holds d → Holds d'
unfolding decode_lines
decode_lines-Holds [] d d' e h = subst Holds (ok-inj e) h
decode_lines-Holds (line ∷ lines) d d' e h =
    let (d'', first, rest) = bind-ok (decode_stripped d line (strip line)) _ d' e in
    decode_lines-Holds lines d'' d' rest (decode_stripped-Holds d d'' line (strip line) first h)

-- What the strict decoder accepts has at least one hunk; each hunk replaces one text that is not
-- blank by another, different one that is not blank, in a file with a name; no file stands twice.
pub decode-IsHunk :
    (stdout : String) (hs : List PatchHunk)
    → decode stdout ≡ ok hs
    → (has_none hs ≡ false) × All IsHunk hs × NoRepeat (map file_path_of hs)
unfolding decode finish Holds WellFormed
decode-IsHunk stdout hs e =
    let (body, framed, e₁) = bind-ok (frame stdout) _ hs e in
    let (d, read, e₂) = bind-ok (decode_lines start (splitlines body)) _ hs e₁ in
    let (_, e₃) = raise_if-ok (not (is_outside d.state)) _ _ hs e₂ in
    let (closed, closing, e₄) =
      bind-ok (close_hunk d.current_path d.closed d.old_lines d.new_lines) _ hs e₃ in
    let (some_file, e₅) = raise_if-ok (has_none closed) _ _ hs e₄ in
    let held = decode_lines-Holds (splitlines body) start d read (tt, tt, refl, tt) in
    let (all, paths) =
      close_hunk-closed d.current_path d.closed closed d.old_lines d.new_lines d.seen_paths closing
        held in
    subst (λ xs. (has_none xs ≡ false) × All IsHunk xs × NoRepeat (map file_path_of xs)) (ok-inj e₅)
      (some_file, all, subst NoRepeat (sym paths) (held.1))
