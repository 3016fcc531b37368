-- ===== src/Mutation/Proposal/Rendered/RoundTrip.antt =====
-- The strict decoder reads a rendered proposal back.
use synapx_harness.Prelude.{
  String, is_member, Bool, true, false, List, [], ◌∷◌, All, map, ◌≡◌, refl, ap, ◌∙◌,
}
use synapx_harness.Prelude.Results.{ok, ◌>>=◌}
use synapx_harness.Mutation.Text.{strip, splitlines}
use synapx_harness.Mutation.Proposal.{
  PatchHunk, outside_block, Decoder, decode_lines, start, finish, decode, frame, has_none,
  close_hunk, decode_stripped, add_line,
}
use synapx_harness.Mutation.Proposal.Decoded.{NoRepeat}
use synapx_harness.Mutation.Proposal.Rendered.{Section, section_hunk, path_of, render, IsSection}
use synapx_harness.Mutation.Proposal.Rendered.Reading.{sections_read, distinct-Fresh}

abbrev pub is_nil : List Section → Bool
is_nil [] = true
is_nil (_ ∷ _) = false

has_none-map : (ss : List Section) → is_nil ss ≡ false → has_none (map section_hunk ss) ≡ false
has_none-map [] h = h
has_none-map (s ∷ ss) h = refl

unseen : (ss : List Section) → All (λ s. is_member (path_of s) [] ≡ false) ss
unseen [] = tt
unseen (s ∷ ss) = (refl, unseen ss)

finished :
    (d : Decoder) (hs : List PatchHunk)
    → d.state ≡ outside_block
    → close_hunk d.current_path d.closed d.old_lines d.new_lines ≡ ok hs
    → has_none hs ≡ false
    → finish d ≡ ok hs
unfolding finish
finished d hs here closing some_file = rw (here, closing, some_file) refl

first_blank : (ls : List String) → decode_lines start ("" ∷ ls) ≡ decode_lines start ls
unfolding decode_lines decode_stripped add_line strip
first_blank ls = refl

-- Where the text has one frame whose lines are the rendered sections, after the line that the begin
-- marker ends, and there is a section, the sections can be expressed and their paths differ, the
-- decoder gives exactly the hunks of the sections, in their order.
pub decode-render :
    (stdout body : String) (sections : List Section)
    → frame stdout ≡ ok body
    → splitlines body ≡ "" ∷ render sections
    → is_nil sections ≡ false
    → All IsSection sections
    → NoRepeat (map path_of sections)
    → decode stdout ≡ ok (map section_hunk sections)
unfolding decode close_hunk
decode-render stdout body sections framed lines some_section all once =
    let (d, read, there, closed) =
      sections_read sections start [] refl refl (distinct-Fresh [] sections (unseen sections) once)
        all in
    ap (λ r. r >>= λ b. decode_lines start (splitlines b) >>= λ e. finish e) framed
    ∙ (ap (λ ls. decode_lines start ls >>= λ e. finish e) lines
        ∙ (ap (λ r. r >>= λ e. finish e) (first_blank (render sections) ∙ read)
            ∙ finished d (map section_hunk sections) there closed
                (has_none-map sections some_section)))
