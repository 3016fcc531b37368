-- ===== src/Mutation/Apply/Written.antt =====
-- What the applicator has tested when it writes, what it writes, and what it leaves.
use synapx_harness.Prelude.{
  ℕ, String, str_eq, is_member, ◌==◌, Bool, true, false, not, Option, none, some, List, [], ◌∷◌,
  ◌≡◌, refl, sym, ◌∙◌, ap, arith, eq_iff, ◌⊎◌, inl, inr,
}
use mathlib.Core.Path.{subst}
use synapx_harness.Prelude.Results.{Result, ok, err, ok-inj, bind-ok, raise_if-ok}
use synapx_harness.Mutation.Bytes.{Bytes, encode, count, replace}
use synapx_harness.Mutation.Bytes.Unique.{Swapped, replace-Swapped}
use synapx_harness.Mutation.Proposal.{PatchProposal}
use synapx_harness.Mutation.Files.{Store, read_file, write_file}
use synapx_harness.Mutation.Gates.{
  Decision, allow, deny, AdmissionReceipt, ApplyAuthority, issued, not_issued, PathGateReceipt,
}
use synapx_harness.Mutation.Apply.{
  Denial, Plan, ApplyReceipt, is_allow, is_issued, single_path, or_denied, first_block, is_no_bytes,
  same_bytes, line_endings, replaced, authorized_path, plan, carry_out, apply, empty_receipt,
  written_receipt,
}

unnegated : (b : Bool) → not b ≡ false → b ≡ true
unnegated b h = ground arith

equal_texts : (s t : String) → not (str_eq s t) ≡ false → s ≡ t
equal_texts s t h = (eq_iff s t).0 (unnegated (str_eq s t) h)

once : (n : ℕ) → not (n == 1) ≡ false → n ≡ 1
once n h = ground arith

single_path-ok : (ps : List String) (p : String) → single_path ps ≡ ok p → ps ≡ p ∷ []
single_path-ok [] p h = cc
single_path-ok (q ∷ []) p h = ap (λ t. t ∷ []) (ok-inj h)
single_path-ok (q ∷ r ∷ ps) p h = cc

or_denied-ok : {A : Type 0} (e : Denial) (o : Option A) (a : A) → or_denied e o ≡ ok a → o ≡ some a
or_denied-ok e none a h = cc
or_denied-ok e (some b) a h = ap some (ok-inj h)

first_block-ok :
    (e : Denial) (ls : List String) (l : String)
    → first_block e ls ≡ ok l
    → (rest : List String) × (ls ≡ l ∷ rest)
first_block-ok e [] l h = cc
first_block-ok e (m ∷ ls) l h = (ls, ap (λ t. t ∷ ls) (ok-inj h))

-- `new` for the only `old`, and the line endings of the whole.
abbrev pub Rewritten : Bool → Bytes → Bytes → Bytes → Bytes → Type 0
Rewritten normalize old new before after =
    (changed : Bytes) × (count old before ≡ 1)
    × Swapped old new before changed
    × (after ≡ line_endings normalize changed)

replaced-ok :
    (normalize : Bool) (before old new after : Bytes)
    → replaced normalize before old new ≡ ok after
    → (same_bytes old new ≡ false) × Rewritten normalize old new before after
unfolding replaced
replaced-ok normalize before [] new after h = cc
replaced-ok normalize before (o ∷ os) new after h =
    let (_, h₁) = raise_if-ok (is_no_bytes new) _ _ after h in
    let (differ, h₂) = raise_if-ok (same_bytes (o ∷ os) new) _ _ after h₁ in
    let (one, h₃) = raise_if-ok (not (count (o ∷ os) before == 1)) _ _ after h₂ in
    (
      differ,
      (
        replace (o ∷ os) new before,
        once (count (o ∷ os) before) one,
        replace-Swapped o os new before (once (count (o ∷ os) before) one),
        sym (ok-inj h₃),
      ),
    )

-- The authority chain for `path`: both receipts allow, the one path of the proposal is authorized, the
-- digests are those of the path gate and all three source revisions are one.
abbrev pub Authorized :
    PatchProposal → PathGateReceipt → AdmissionReceipt → String → String → Type 0
Authorized proposal gate admission current_revision path =
    (admission.admission_decision ≡ allow)
    × (gate.gate_decision ≡ allow)
    × (gate.apply_authority ≡ issued)
    × (proposal.paths ≡ path ∷ [])
    × (is_member path gate.authorized_paths ≡ true)
    × (proposal.sha256 ≡ gate.proposal_sha256)
    × (proposal.canonical_patch_sha256 ≡ gate.canonical_patch_sha256)
    × (admission.source_revision ≡ gate.source_revision)
    × (admission.source_revision ≡ current_revision)

is_allow-inv : (d : Decision) → not (is_allow d) ≡ false → d ≡ allow
is_allow-inv allow h = refl
is_allow-inv deny h = cc

is_issued-inv : (a : ApplyAuthority) → not (is_issued a) ≡ false → a ≡ issued
is_issued-inv issued h = refl
is_issued-inv not_issued h = cc

authorized_path-Authorized :
    (proposal : PatchProposal) (gate : PathGateReceipt) (admission : AdmissionReceipt)
    (current_revision path : String)
    → authorized_path proposal gate admission current_revision ≡ ok path
    → Authorized proposal gate admission current_revision path
unfolding authorized_path
authorized_path-Authorized proposal gate admission current_revision path h =
    let (a, h₁) = raise_if-ok (not (is_allow admission.admission_decision)) _ _ path h in
    let (g, h₂) = raise_if-ok (not (is_allow gate.gate_decision)) _ _ path h₁ in
    let (i, h₃) = raise_if-ok (not (is_issued gate.apply_authority)) _ _ path h₂ in
    let (p, single, h₄) = bind-ok (single_path proposal.paths) _ path h₃ in
    let (m, h₅) = raise_if-ok (not (is_member p gate.authorized_paths)) _ _ path h₄ in
    let (s, h₆) = raise_if-ok (not (str_eq proposal.sha256 gate.proposal_sha256)) _ _ path h₅ in
    let (c, h₇) =
      raise_if-ok (not (str_eq proposal.canonical_patch_sha256 gate.canonical_patch_sha256)) _ _
        path h₆ in
    let (r, h₈) =
      raise_if-ok (not (str_eq admission.source_revision gate.source_revision)) _ _ path h₇ in
    let (u, h₉) =
      raise_if-ok (not (str_eq admission.source_revision current_revision)) _ _ path h₈ in
    subst (Authorized proposal gate admission current_revision) (ok-inj h₉) (
      is_allow-inv admission.admission_decision a,
      is_allow-inv gate.gate_decision g,
      is_issued-inv gate.apply_authority i,
      single_path-ok proposal.paths p single,
      unnegated (is_member p gate.authorized_paths) m,
      equal_texts _ _ s,
      equal_texts _ _ c,
      equal_texts _ _ r,
      equal_texts _ _ u,
    )

module _ (digest : Bytes → String) (resolve : String → Option String) where
  -- A plan: the authority chain for its path, the file that the path stands for with the bytes that
  -- the harness has bound to the path, and those bytes with the only OLD text replaced.
  abbrev pub IsPlan :
      PatchProposal
      → PathGateReceipt
      → AdmissionReceipt
      → (String → Option String)
      → String
      → Bool
      → Store
      → Plan
      → Type 0
  IsPlan proposal gate admission expected current_revision normalize store p =
      (raw_bytes : Bytes) × (old_text new_text : String) × (old_rest new_rest : List String)
      × Authorized proposal gate admission current_revision p.path
      × (resolve p.path ≡ some p.target)
      × (read_file p.target store ≡ some raw_bytes)
      × (digest (line_endings normalize raw_bytes) ≡ p.before_sha)
      × (expected p.path ≡ some p.before_sha)
      × (proposal.old_lines ≡ old_text ∷ old_rest)
      × (proposal.new_lines ≡ new_text ∷ new_rest)
      × Rewritten normalize (encode old_text) (encode new_text) (line_endings normalize raw_bytes)
          p.after_bytes

  pub plan-IsPlan :
      (proposal : PatchProposal) (gate : PathGateReceipt) (admission : AdmissionReceipt)
      (expected : String → Option String) (current_revision : String) (normalize : Bool)
      (store : Store) (p : Plan)
      → plan digest resolve proposal gate admission expected current_revision normalize store ≡ ok p
      → IsPlan proposal gate admission expected current_revision normalize store p
  unfolding plan
  plan-IsPlan proposal gate admission expected current_revision normalize store p h =
      let (path, chain, h₁) =
        bind-ok (authorized_path proposal gate admission current_revision) _ p h in
      let (target, inside, h₂) = bind-ok (or_denied _ (resolve path)) _ p h₁ in
      let (raw_bytes, read, h₃) = bind-ok (or_denied _ (read_file target store)) _ p h₂ in
      let (bound, known, h₄) = bind-ok (or_denied _ (expected path)) _ p h₃ in
      let (same, h₅) =
        raise_if-ok (not (str_eq (digest (line_endings normalize raw_bytes)) bound)) _ _ p h₄ in
      let (old_text, first_old, h₆) = bind-ok (first_block _ proposal.old_lines) _ p h₅ in
      let (new_text, first_new, h₇) = bind-ok (first_block _ proposal.new_lines) _ p h₆ in
      let (after, made, h₈) =
        bind-ok
          (replaced normalize (line_endings normalize raw_bytes) (encode old_text)
            (encode new_text))
          _ p h₇ in
      let (old_rest, olds) = first_block-ok _ proposal.old_lines old_text first_old in
      let (new_rest, news) = first_block-ok _ proposal.new_lines new_text first_new in
      let (_, rewritten) =
        replaced-ok normalize (line_endings normalize raw_bytes) (encode old_text) (encode new_text)
          after made in
      subst (IsPlan proposal gate admission expected current_revision normalize store) (ok-inj h₈) (
        raw_bytes,
        old_text,
        new_text,
        old_rest,
        new_rest,
        authorized_path-Authorized proposal gate admission current_revision path chain,
        or_denied-ok _ (resolve path) target inside,
        or_denied-ok _ (read_file target store) raw_bytes read,
        refl,
        or_denied-ok _ (expected path) bound known ∙ ap some (sym (equal_texts _ _ same)),
        olds,
        news,
        rewritten,
      )

  abbrev pub IsDenied : PathGateReceipt → AdmissionReceipt → Store → ApplyReceipt × Store → Type 0
  IsDenied gate admission store (receipt, store') =
      (denial : Denial) × (receipt ≡ empty_receipt gate admission denial) × (store' ≡ store)

  abbrev pub IsWritten :
      PatchProposal
      → PathGateReceipt
      → AdmissionReceipt
      → Store
      → Plan
      → ApplyReceipt × Store
      → Type 0
  IsWritten proposal gate admission store p (receipt, store') =
      (receipt ≡ written_receipt digest proposal gate admission p)
      × (store' ≡ write_file p.target p.after_bytes store)

  pub apply-all_or_nothing :
      (proposal : PatchProposal) (gate : PathGateReceipt) (admission : AdmissionReceipt)
      (expected : String → Option String) (current_revision : String) (normalize : Bool)
      (store : Store)
      → IsDenied gate admission store
          (apply digest resolve proposal gate admission expected current_revision normalize store)
        ⊎ ((p : Plan) × IsPlan proposal gate admission expected current_revision normalize store p
            × IsWritten proposal gate admission store p (
                apply digest resolve proposal gate admission expected current_revision normalize
                  store))
  unfolding apply carry_out
  apply-all_or_nothing proposal gate admission expected current_revision normalize store =
      carried
        (plan digest resolve proposal gate admission expected current_revision normalize store)
        (plan-IsPlan proposal gate admission expected current_revision normalize store)
    where
      carried :
          (m : Result Denial Plan)
          → ((p : Plan)
              → m ≡ ok p
              → IsPlan proposal gate admission expected current_revision normalize store p)
          → IsDenied gate admission store (carry_out digest proposal gate admission store m)
            ⊎ ((p : Plan) × IsPlan proposal gate admission expected current_revision normalize store
                  p
                × IsWritten proposal gate admission store p
                    (carry_out digest proposal gate admission store m))
      carried (err e) facts = inl (e, refl, refl)
      carried (ok p) facts = inr (p, facts p refl, (refl, refl))
