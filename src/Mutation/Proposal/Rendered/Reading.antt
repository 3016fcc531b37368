-- ===== src/Mutation/Proposal/Rendered/Reading.antt =====
-- The loop of the strict decoder on the lines of rendered sections.
use synapx_harness.Prelude.{
  String, ◌<>◌, is_member, false, Option, some, List, [], ◌∷◌, ◌++◌, All, map, ◌≡◌, refl, sym, ◌∙◌,
  ap, arith,
}
use synapx_harness.Prelude.Results.{ok, ◌>>=◌}
use synapx_harness.Mutation.Text.{strip, is_blank, join}
use synapx_harness.Mutation.Proposal.{
  PatchHunk, Block, outside_block, in_old, in_new, Decoder, checked_hunk, close_hunk, open_file,
  begin_old, end_old, begin_new, end_new, add_line, decode_stripped, decode_line, decode_lines,
  is_empty,
}
use synapx_harness.Mutation.Proposal.Decoded.{NoRepeat, is_member-append_one, str_eq_sym}
use synapx_harness.Mutation.Proposal.FileLine.{
  strip-file_line, starts_with-file_line, path-file_line,
}
use synapx_harness.Mutation.Proposal.Rendered.{
  Section, section_lines, section_hunk, path_of, render, IsPlain, IsSection,
}

append_assoc : {A : Type 0} (xs ys zs : List A) → (xs ++ ys) ++ zs ≡ xs ++ (ys ++ zs)
append_assoc [] ys zs = refl
append_assoc (x ∷ xs) ys zs = ap (λ t. x ∷ t) (append_assoc xs ys zs)

append_nil : {A : Type 0} (xs : List A) → xs ++ [] ≡ xs
append_nil [] = refl
append_nil (x ∷ xs) = ap (λ t. x ∷ t) (append_nil xs)

-- After a step that gives `d'`, the loop goes on from `d'`.
then_lines :
    (d d' : Decoder) (line : String) (lines : List String)
    → decode_line d line ≡ ok d'
    → decode_lines d (line ∷ lines) ≡ decode_lines d' lines
unfolding decode_lines
then_lines d d' line lines h = ap (λ r. r >>= λ e. decode_lines e lines) h

abbrev decoder :
    List PatchHunk → List String → Option String → List String → List String → Block → Decoder
decoder closed seen path old_lines new_lines state = record {
  closed = closed;
  seen_paths = seen;
  current_path = path;
  old_lines = old_lines;
  new_lines = new_lines;
  state = state;
}

plain_line :
    (d : Decoder) (line : String)
    → IsPlain line
    → decode_line d line ≡ add_line d.state d line (strip line)
unfolding decode_stripped
plain_line d line (file, old, old_end, new, new_end, conflict) =
    rw (file, old, old_end, new, new_end, conflict) refl

module _ (closed : List PatchHunk) (seen : List String) (path : Option String) where
  old_read :
      (old lines more : List String)
      → All IsPlain lines
      → decode_lines (decoder closed seen path old [] in_old) (lines ++ more)
        ≡ decode_lines (decoder closed seen path (old ++ lines) [] in_old) more
  unfolding add_line
  old_read old [] more plain =
      ap (λ o. decode_lines (decoder closed seen path o [] in_old) more) (sym (append_nil old))
  old_read old (line ∷ lines) more (p, plain) =
      then_lines (decoder closed seen path old [] in_old)
        (decoder closed seen path (old ++ line ∷ []) [] in_old) line (lines ++ more)
        (plain_line (decoder closed seen path old [] in_old) line p)
      ∙ (old_read (old ++ line ∷ []) lines more plain
          ∙ ap (λ o. decode_lines (decoder closed seen path o [] in_old) more)
              (append_assoc old (line ∷ []) lines))

  new_read :
      (old new lines more : List String)
      → All IsPlain lines
      → decode_lines (decoder closed seen path old new in_new) (lines ++ more)
        ≡ decode_lines (decoder closed seen path old (new ++ lines) in_new) more
  unfolding add_line
  new_read old new [] more plain =
      ap (λ n. decode_lines (decoder closed seen path old n in_new) more) (sym (append_nil new))
  new_read old new (line ∷ lines) more (p, plain) =
      then_lines (decoder closed seen path old new in_new)
        (decoder closed seen path old (new ++ line ∷ []) in_new) line (lines ++ more)
        (plain_line (decoder closed seen path old new in_new) line p)
      ∙ (new_read old (new ++ line ∷ []) lines more plain
          ∙ ap (λ n. decode_lines (decoder closed seen path old n in_new) more)
              (append_assoc new (line ∷ []) lines))

abbrev opened : List PatchHunk → List String → String → Decoder
opened closed seen path = decoder closed (seen ++ path ∷ []) (some path) [] [] outside_block

abbrev complete : List PatchHunk → List String → Section → Decoder
complete closed seen s =
    decoder closed (seen ++ s.path ∷ []) (some s.path) s.old_lines s.new_lines outside_block

-- A list of lines whose text is not blank has a line.
nonblank_lines : (lines : List String) → is_blank (join "\n" lines) ≡ false → is_empty lines ≡ false
unfolding strip
nonblank_lines [] h = cc
nonblank_lines (l ∷ ls) h = refl

body_read :
    (closed : List PatchHunk) (seen : List String) (s : Section) (more : List String)
    → IsSection s
    → decode_lines
        (opened closed seen s.path)
        ("<<<< OLD" ∷ s.old_lines ++ (">>>> OLD" ∷ "<<<< NEW" ∷ s.new_lines ++ (">>>> NEW" ∷ more)))
      ≡ decode_lines (complete closed seen s) more
unfolding decode_stripped begin_old end_old begin_new end_new strip
body_read closed seen s more (_, _, old, new, has_old, _, _) =
    then_lines (opened closed seen s.path) (at [] [] in_old) "<<<< OLD" _ old_starts
    ∙ (old_read closed (seen ++ s.path ∷ []) (some s.path) [] s.old_lines _ old
        ∙ (then_lines (at s.old_lines [] in_old) (at s.old_lines [] outside_block) ">>>> OLD" _
              old_ends
            ∙ (then_lines (at s.old_lines [] outside_block) (at s.old_lines [] in_new) "<<<< NEW" _
                  new_starts
                ∙ (new_read closed (seen ++ s.path ∷ []) (some s.path) s.old_lines [] s.new_lines _
                      new
                    ∙ then_lines (at s.old_lines s.new_lines in_new) (complete closed seen s)
                        ">>>> NEW" more new_ends))))
  where
    at : List String → List String → Block → Decoder
    at o n b = decoder closed (seen ++ s.path ∷ []) (some s.path) o n b

    old_starts : decode_line (opened closed seen s.path) "<<<< OLD" ≡ ok (at [] [] in_old)
    old_starts = refl

    old_ends :
        decode_line (at s.old_lines [] in_old) ">>>> OLD" ≡ ok (at s.old_lines [] outside_block)
    old_ends = refl

    new_starts :
        decode_line (at s.old_lines [] outside_block) "<<<< NEW" ≡ ok (at s.old_lines [] in_new)
    new_starts = rw (nonblank_lines s.old_lines has_old) refl

    new_ends :
        decode_line (at s.old_lines s.new_lines in_new) ">>>> NEW" ≡ ok (complete closed seen s)
    new_ends = refl

-- The line that names a file, where what was open before gives the hunks `closed`.
file_read :
    (d : Decoder) (closed : List PatchHunk) (s : Section)
    → d.state ≡ outside_block
    → close_hunk d.current_path d.closed d.old_lines d.new_lines ≡ ok closed
    → is_member s.path d.seen_paths ≡ false
    → IsSection s
    → decode_line d ("FILE: " <> s.path) ≡ ok (opened closed d.seen_paths s.path)
unfolding decode_stripped open_file
file_read d closed s here closing fresh (path, name, _, _, _, _, _) =
    rw
      (
        strip-file_line s.path path name,
        starts_with-file_line s.path,
        path-file_line s.path path,
        here,
        closing,
        name,
        fresh,
      )
      refl

section_read :
    (d : Decoder) (closed : List PatchHunk) (s : Section) (more : List String)
    → d.state ≡ outside_block
    → close_hunk d.current_path d.closed d.old_lines d.new_lines ≡ ok closed
    → is_member s.path d.seen_paths ≡ false
    → IsSection s
    → decode_lines d (section_lines s ++ more) ≡ decode_lines (complete closed d.seen_paths s) more
section_read d closed s more here closing fresh section =
    then_lines d (opened closed d.seen_paths s.path) ("FILE: " <> s.path) _
      (file_read d closed s here closing fresh section)
    ∙ (ap (λ t. decode_lines (opened closed d.seen_paths s.path) ("<<<< OLD" ∷ t))
          (append_assoc s.old_lines (">>>> OLD" ∷ "<<<< NEW" ∷ s.new_lines ++ ">>>> NEW" ∷ []) more
            ∙ ap (λ t. s.old_lines ++ (">>>> OLD" ∷ "<<<< NEW" ∷ t))
                (append_assoc s.new_lines (">>>> NEW" ∷ []) more))
        ∙ body_read closed d.seen_paths s more section)

complete_closes :
    (closed : List PatchHunk) (s : Section)
    → IsSection s
    → close_hunk (some s.path) closed s.old_lines s.new_lines ≡ ok (closed ++ section_hunk s ∷ [])
unfolding close_hunk checked_hunk
complete_closes closed s (_, _, _, _, has_old, has_new, differ) = rw (has_old, has_new, differ) refl

-- Each path is new where its section begins.
unfoldable pub Fresh : List String → List Section → Type 0
Fresh seen [] = Unit
Fresh seen (s ∷ ss) = (is_member s.path seen ≡ false) × Fresh (seen ++ s.path ∷ []) ss

pub sections_read :
    (sections : List Section) (d : Decoder) (closed : List PatchHunk)
    → d.state ≡ outside_block
    → close_hunk d.current_path d.closed d.old_lines d.new_lines ≡ ok closed
    → Fresh d.seen_paths sections
    → All IsSection sections
    → (d' : Decoder) × (decode_lines d (render sections) ≡ ok d')
      × (d'.state ≡ outside_block)
      × (close_hunk d'.current_path d'.closed d'.old_lines d'.new_lines
          ≡ ok (closed ++ map section_hunk sections))
unfolding decode_lines Fresh
sections_read [] d closed here closing fresh all =
    (d, refl, here, closing ∙ ap ok (sym (append_nil closed)))
sections_read (s ∷ ss) d closed here closing (new, fresh) (section, all) =
    let (d', read, there, closed') =
      sections_read ss (complete closed d.seen_paths s) (closed ++ section_hunk s ∷ []) refl
        (complete_closes closed s section) fresh all in
    (
      d',
      section_read d closed s (render ss) here closing new section ∙ read,
      there,
      closed' ∙ ap ok (append_assoc closed (section_hunk s ∷ []) (map section_hunk ss)),
    )

-- Paths that differ from each other and from those that were seen are new where they come.
pub distinct-Fresh :
    (seen : List String) (sections : List Section)
    → All (λ s. is_member (path_of s) seen ≡ false) sections
    → NoRepeat (map path_of sections)
    → Fresh seen sections
unfolding Fresh
distinct-Fresh seen [] new once = tt
distinct-Fresh seen (s ∷ ss) (h, new) (first, once) =
    (h, distinct-Fresh (seen ++ s.path ∷ []) ss (further ss new first) once)
  where
    further :
        (rest : List Section)
        → All (λ t. is_member (path_of t) seen ≡ false) rest
        → is_member s.path (map path_of rest) ≡ false
        → All (λ t. is_member (path_of t) (seen ++ s.path ∷ []) ≡ false) rest
    further [] hs m = tt
    further (t ∷ ts) (h', hs) m = (
      is_member-append_one t.path s.path seen h' (str_eq_sym s.path t.path (ground arith)),
      further ts hs (ground arith),
    )
