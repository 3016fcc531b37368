-- ===== src/Evidence/Manifest/Bound.antt =====
-- What an entry of the manifest is bound to, and how the two validators agree.
use synapx_harness.Prelude.{
  ℕ, String, str_eq, length, Bool, true, false, not, Option, some, ℤ, pos, int_eq, ◌≡◌, refl, ap,
  sym, ◌∙◌, arith, eq_iff,
}
use synapx_harness.Prelude.Results.{ok, ok-inj, bind-ok, raise_if-ok}
use synapx_harness.Values.{Value, str, Fields, get}
use synapx_harness.Evidence.Checks.{number}
use synapx_harness.Evidence.Hash.{validate_hash_format, check_placeholder_hash}
use synapx_harness.Evidence.Manifest.{
  EntryViolation, filled_text, natural_number, compare_content, validate_scoped_manifest_entry,
  validate_artifact_hash_matches,
}
use synapx_harness.Mutation.Bytes.{Bytes}

not-true : (b : Bool) → not b ≡ false → b ≡ true
not-true b h = ground arith

filled_text-ok :
    (v : Value) (e : EntryViolation) (s : String)
    → filled_text v e ≡ ok s
    → (v ≡ str s) × (str_eq s "" ≡ false)
filled_text-ok (str t) e s h =
    let (full, h₁) = raise_if-ok (str_eq t "") e _ s h in
    let same = ok-inj h₁ in (ap str same, sym (ap (λ u. str_eq u "") same) ∙ full)
filled_text-ok _ e s h = cc

natural_number-ok : (o : Option ℤ) (n : ℕ) → natural_number o ≡ ok n → o ≡ some (pos n)
natural_number-ok (some (pos m)) n h = ap (λ k. some (pos k)) (ok-inj h)
natural_number-ok _ n h = cc

module _ (digest : Bytes → String) where
  compare_content-ok :
      (content : Bytes) (sha256 : String) (n : ℕ)
      → compare_content digest (some content) sha256 n ≡ ok tt
      → (digest content ≡ sha256) × (length content ≡ n)
  compare_content-ok content sha256 n h =
      let (same, h₁) =
        raise_if-ok (not (str_eq (digest content) sha256)) EntryViolation.sha256_mismatch _ tt h in
      let (sized, h₂) =
        raise_if-ok (not (int_eq (pos (length content)) (pos n))) EntryViolation.size_mismatch _ tt
          h₁ in
      (
        (eq_iff (digest content) sha256).0 (not-true (str_eq (digest content) sha256) same),
        ground arith,
      )

  -- A file is accepted with the digest of its content where that is well formed.
  matches :
      (name : String) (content : Bytes) (read_bytes : String → Option Bytes)
      → read_bytes name ≡ some content
      → validate_hash_format (digest content) ≡ true
      → validate_artifact_hash_matches digest read_bytes name (digest content) ≡ ok tt
  unfolding validate_artifact_hash_matches
  matches name content read_bytes found formed =
      rw
        (
          validate_artifact_hash_matches,
          found,
          formed,
          (eq_iff (digest content) (digest content)).1 refl,
        )
        refl

  -- An entry of the manifest that is accepted with a content has a path, and its hash and its size
  -- are those of that content; the hash is well formed and not the placeholder. A file with this content
  -- then passes the test of its artifact hash against the hash of the entry.
  pub validate_scoped_manifest_entry-bound :
      (entry : Fields) (content : Bytes) (name : String) (read_bytes : String → Option Bytes)
      → validate_scoped_manifest_entry digest entry (some content) ≡ ok tt
      → read_bytes name ≡ some content
      → (path : String) × (get "path" entry ≡ str path)
        × (str_eq path "" ≡ false)
        × (get "sha256" entry ≡ str (digest content))
        × (number (get "size_bytes" entry) ≡ some (pos (length content)))
        × (check_placeholder_hash (digest content) ≡ false)
        × (validate_artifact_hash_matches digest read_bytes name (digest content) ≡ ok tt)
  unfolding validate_scoped_manifest_entry
  validate_scoped_manifest_entry-bound entry content name read_bytes h found =
      let (path, h_path, h₁) =
        bind-ok (filled_text (get "path" entry) EntryViolation.path_missing) _ tt h in
      let (sha256, h_sha, h₂) =
        bind-ok (filled_text (get "sha256" entry) EntryViolation.sha256_missing) _ tt h₁ in
      let (real, h₃) = raise_if-ok (check_placeholder_hash sha256) _ _ tt h₂ in
      let (formed, h₄) = raise_if-ok (not (validate_hash_format sha256)) _ _ tt h₃ in
      let (size, h_size, h₅) = bind-ok (natural_number (number (get "size_bytes" entry))) _ tt h₄ in
      let (same, sized) = compare_content-ok content sha256 size h₅ in
      let (is_path, filled) = filled_text-ok (get "path" entry) _ path h_path in
      let (is_sha, _) = filled_text-ok (get "sha256" entry) _ sha256 h_sha in
      (
        path,
        is_path,
        filled,
        is_sha ∙ ap str (sym same),
        natural_number-ok (number (get "size_bytes" entry)) size h_size
            ∙ ap (λ n. some (pos n)) (sym sized),
        ap check_placeholder_hash same ∙ real,
        matches name content read_bytes found
            (ap validate_hash_format same ∙ not-true (validate_hash_format sha256) formed),
      )
