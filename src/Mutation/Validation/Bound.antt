-- ===== src/Mutation/Validation/Bound.antt =====
-- What a proposal without blockers is bound to.
use synapx_harness.Prelude.{
  ℕ, String, str_eq, ◌==◌, Bool, true, false, if◌then◌else◌, Option, none, some, List, [], ◌∷◌,
  ◌++◌, ◌≡◌, refl, sym, ap, arith, eq_iff,
}
use synapx_harness.Mutation.Bytes.{Bytes, encode, count, normalize_line_endings}
use synapx_harness.Mutation.Proposal.{PatchHunk, PatchProposal, first_line}
use synapx_harness.Mutation.Files.{Store, read_file}
use synapx_harness.Mutation.Validation.{
  Blocker, lf_text, hunk_for, text_blockers, hunk_blockers, hash_blockers, target_blockers,
  escapes_root, not_a_file, empty_old, empty_new, old_equals_new, old_not_once,
}

pub both_empty : (xs ys : List Blocker) → xs ++ ys ≡ [] → (xs ≡ []) × (ys ≡ [])
both_empty [] ys h = (refl, h)
both_empty (x ∷ xs) ys h = cc

pub unless-empty : (b : Bool) (e : Blocker) → (if b then e ∷ [] else []) ≡ [] → b ≡ false
unless-empty true e h = cc
unless-empty false e h = refl

pub if-empty : (b : Bool) (e : Blocker) → (if b then [] else e ∷ []) ≡ [] → b ≡ true
if-empty true e h = refl
if-empty false e h = cc

-- The texts of a hunk without blockers: neither is empty, they differ, and the first one, with its
-- line endings normalized, stands once in the bytes.
abbrev pub TextsBound : String → String → Bytes → Type 0
TextsBound old_text new_text normalized =
    (str_eq old_text "" ≡ false)
    × (str_eq new_text "" ≡ false)
    × (str_eq old_text new_text ≡ false)
    × (count (encode (lf_text old_text)) normalized ≡ 1)

text_blockers-TextsBound :
    (rel_path old_text new_text : String) (normalized : Bytes)
    → text_blockers rel_path old_text new_text normalized ≡ []
    → TextsBound old_text new_text normalized
unfolding text_blockers
text_blockers-TextsBound rel_path old_text new_text normalized h =
    split (str_eq old_text "") (str_eq new_text "") (str_eq old_text new_text)
      (count (encode (lf_text old_text)) normalized) h
  where
    split :
        (a b c : Bool) (n : ℕ)
        → (if a
            then empty_old rel_path ∷ []
            else if b
            then empty_new rel_path ∷ []
            else if c
            then old_equals_new rel_path ∷ []
            else if n == 1
            then []
            else old_not_once rel_path n ∷ [])
          ≡ []
        → (a ≡ false) × (b ≡ false) × (c ≡ false) × (n ≡ 1)
    split true b c n q = cc
    split false true c n q = cc
    split false false true n q = cc
    split false false false n q =
        (refl, refl, refl, one (if-empty (n == 1) (old_not_once rel_path n) q))
      where
        one : n == 1 ≡ true → n ≡ 1
        one t = ground arith

hash_blockers-bound :
    (rel_path : String) (expected : Option String) (actual : String)
    → hash_blockers rel_path expected actual ≡ []
    → expected ≡ some actual
hash_blockers-bound rel_path none actual h = cc
hash_blockers-bound rel_path (some e) actual h =
    ap some (sym ((eq_iff actual e).0 (if-empty (str_eq actual e) _ h)))

hunk_blockers-bound :
    (rel_path : String) (o : Option PatchHunk) (normalized : Bytes)
    → hunk_blockers rel_path o normalized ≡ []
    → (h : PatchHunk) × (o ≡ some h)
      × TextsBound (first_line h.old_lines) (first_line h.new_lines) normalized
hunk_blockers-bound rel_path none normalized q = cc
hunk_blockers-bound rel_path (some h) normalized q = (
  h,
  refl,
  text_blockers-TextsBound rel_path (first_line h.old_lines) (first_line h.new_lines) normalized q,
)

module _ (digest : Bytes → String) (resolve : String → Option String) where
  -- The bindings of a path that has the normal form `rel_path`.
  abbrev pub TargetBound :
      PatchProposal → Store → (String → Option String) → String → String → Type 0
  TargetBound proposal store expected raw_path rel_path =
      (target : String) × (raw_bytes : Bytes) × (h : PatchHunk) × (resolve rel_path ≡ some target)
      × (read_file target store ≡ some raw_bytes)
      × (expected rel_path ≡ some (digest (normalize_line_endings raw_bytes)))
      × (hunk_for proposal.hunks raw_path ≡ some h)
      × TextsBound (first_line h.old_lines) (first_line h.new_lines)
          (normalize_line_endings raw_bytes)

  pub target_blockers-TargetBound :
      (proposal : PatchProposal) (store : Store) (expected : String → Option String)
      (raw_path rel_path : String)
      → target_blockers digest resolve proposal store expected raw_path rel_path ≡ []
      → TargetBound proposal store expected raw_path rel_path
  unfolding target_blockers
  target_blockers-TargetBound proposal store expected raw_path rel_path h =
      resolved (resolve rel_path) refl h
    where
      bound :
          (target : String) (raw_bytes : Bytes)
          → resolve rel_path ≡ some target
          → read_file target store ≡ some raw_bytes
          → hash_blockers rel_path (expected rel_path) (digest (normalize_line_endings raw_bytes))
              ++ hunk_blockers rel_path
                  (hunk_for proposal.hunks raw_path)
                  (normalize_line_endings raw_bytes)
            ≡ []
          → TargetBound proposal store expected raw_path rel_path
      bound target raw_bytes e f q =
          let (hash, texts) =
            both_empty
              (hash_blockers rel_path (expected rel_path)
                (digest (normalize_line_endings raw_bytes)))
              _ q in
          let (hk, found, ts) =
            hunk_blockers-bound rel_path (hunk_for proposal.hunks raw_path)
              (normalize_line_endings raw_bytes) texts in
          (
            target,
            raw_bytes,
            hk,
            e,
            f,
            hash_blockers-bound rel_path (expected rel_path)
                (digest (normalize_line_endings raw_bytes)) hash,
            found,
            ts,
          )

      stored :
          (target : String) (o : Option Bytes)
          → resolve rel_path ≡ some target
          → read_file target store ≡ o
          → (elim o [
            | none ↦ not_a_file rel_path ∷ []
            | some raw_bytes ↦
                hash_blockers rel_path
                  (expected rel_path)
                  (digest (normalize_line_endings raw_bytes))
                ++ hunk_blockers rel_path
                    (hunk_for proposal.hunks raw_path)
                    (normalize_line_endings raw_bytes)
          ])
            ≡ []
          → TargetBound proposal store expected raw_path rel_path
      stored target none e f q = cc
      stored target (some raw_bytes) e f q = bound target raw_bytes e f q

      resolved :
          (o : Option String)
          → resolve rel_path ≡ o
          → (elim o [
            | none ↦ escapes_root raw_path ∷ []
            | some target ↦ elim (read_file target store) [
              | none ↦ not_a_file rel_path ∷ []
              | some raw_bytes ↦
                  hash_blockers rel_path
                    (expected rel_path)
                    (digest (normalize_line_endings raw_bytes))
                  ++ hunk_blockers rel_path
                      (hunk_for proposal.hunks raw_path)
                      (normalize_line_endings raw_bytes)
            ]
          ])
            ≡ []
          → TargetBound proposal store expected raw_path rel_path
      resolved none e q = cc
      resolved (some target) e q = stored target (read_file target store) e refl q
