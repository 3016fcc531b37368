-- ===== src/Mutation/Files.antt =====
-- The files under the repository's root, by their resolved names, as kernel/mutation_authority.py reads
-- and writes them. An `OSError` of `read_bytes` or `write_bytes`, which nothing catches and which ends the
-- run with the exception, is not modelled: a read gives the whole content and a write is carried out
-- whole. A write that fails midway leaves other bytes in the same file.
use synapx_harness.Prelude.{
  String, str_eq, Bool, true, false, if◌then◌else◌, Option, none, some, List, [], ◌∷◌, ◌≡◌, refl,
  sym, ◌∙◌, ap, Bool-cases, inl, inr, eq_iff,
}
use synapx_harness.Mutation.Bytes.{Bytes}

pub record StoredFile : Type 0 where
  pub name : String
  pub content : Bytes

abbrev pub Store : Type 0
Store = List StoredFile

-- `path.read_bytes()`; `none` where `path.is_file()` does not hold.
unfoldable pub read_file : String → Store → Option Bytes
read_file name [] = none
read_file name (f ∷ fs) = if str_eq name f.name then some f.content else read_file name fs

-- `path.write_bytes(content)`, of an existing file, where it raises no `OSError`
unfoldable pub write_file : String → Bytes → Store → Store
write_file name content [] = []
write_file name content (f ∷ fs) =
    let rest = write_file name content fs in
    if str_eq name f.name then record { name = f.name; content = content } ∷ fs else f ∷ rest

pub read_file-written :
    (name : String) (old content : Bytes) (fs : Store)
    → read_file name fs ≡ some old
    → read_file name (write_file name content fs) ≡ some content
unfolding read_file write_file
read_file-written name old content [] h = cc
read_file-written name old content (f ∷ fs) h =
    choose (str_eq name f.name) refl (read_file-written name old content fs) h
  where
    choose :
        (b : Bool)
        → str_eq name f.name ≡ b
        → (read_file name fs ≡ some old
            → read_file name (write_file name content fs) ≡ some content)
        → (if b then some f.content else read_file name fs) ≡ some old
        → read_file name (
            if b
            then record { name = f.name; content = content } ∷ fs
            else f ∷ write_file name content fs)
          ≡ some content
    choose true e rec q = rw e refl
    choose false e rec q = rw e (rec q)

clash : {A : Type 0} (b : Bool) → b ≡ false → b ≡ true → A
clash b h t = cc

-- What differs from one of two equal texts differs from the other.
differs_too : (s t u : String) → str_eq s t ≡ false → s ≡ u → str_eq t u ≡ false
differs_too s t u h e = elim (Bool-cases (str_eq t u)) [
  | inl q ↦ clash (str_eq s t) h ((eq_iff s t).1 (e ∙ sym ((eq_iff t u).0 q)))
  | inr q ↦ q
]

pub read_file-other :
    (name other : String) (content : Bytes) (fs : Store)
    → str_eq name other ≡ false
    → read_file other (write_file name content fs) ≡ read_file other fs
unfolding read_file write_file
read_file-other name other content [] h = refl
read_file-other name other content (f ∷ fs) h =
    choose (str_eq name f.name) refl (read_file-other name other content fs h)
  where
    named_other : str_eq name f.name ≡ true → str_eq other f.name ≡ false
    named_other e = differs_too name other f.name h ((eq_iff name f.name).0 e)

    choose :
        (b : Bool)
        → str_eq name f.name ≡ b
        → read_file other (write_file name content fs) ≡ read_file other fs
        → read_file other (
            if b
            then record { name = f.name; content = content } ∷ fs
            else f ∷ write_file name content fs)
          ≡ (if str_eq other f.name then some f.content else read_file other fs)
    choose true e rec = rw (named_other e) refl
    choose false e rec = ap (λ r. if str_eq other f.name then some f.content else r) rec
