-- ===== src/Kernel/Verification/Bindings.antt =====
-- What binds an admitted verification result to its work contract, and what its receipt says.
use synapx_harness.Prelude.{
  ℕ, zero, suc, String, str_eq, eq_iff, Bool, true, false, ◌&&◌, ◌||◌, not, if◌then◌else◌, Option,
  pos, ◌≡◌, ◌↔◌, ◌⊎◌, inl, inr, refl, ap, sym, ◌∙◌, arith, is_positive,
}
use synapx_harness.Values.{
  Value, null, bool, int, str, list, dict, Fields, get, is_text, is_null, truthy, or_else, lookup,
}
use synapx_harness.Values.Equality.{value_eq}
use synapx_harness.Kernel.Verification.{
  Moment, conflict, revision_conflict, is_other_schema, as_dict, is_active, classify_outcome,
  admission_receipt, admit_verification_result,
}
use synapx_harness.Kernel.Verification.Chain.{refuted}
use synapx_harness.Kernel.Verification.Admission.{passed}
use synapx_harness.Prelude.Results.{ok}
use mathlib.Core.Logic.{◌≢◌}

-- Two values agree: one is missing, or they are equal.
abbrev pub Agree : Value → Value → Type 0
Agree a b = (a ≡ null) ⊎ ((b ≡ null) ⊎ (value_eq a b ≡ true))

-- Two revisions agree: one has no kind, or both their kinds and their values are equal.
abbrev pub SameRevision : Value → Value → Type 0
SameRevision (dict a) (dict b) =
    (get "revision_kind" a ≡ null)
    ⊎ ((get "revision_kind" b ≡ null)
        ⊎ ((value_eq (get "revision_kind" a) (get "revision_kind" b) ≡ true)
            × (value_eq (get "revision_value" a) (get "revision_value" b) ≡ true)))
SameRevision _ _ = Unit

-- A schema version that is a text is the canonical one.
abbrev pub IsCanonical : Value → Type 0
IsCanonical (str s) = s ≡ "0.2.0"
IsCanonical _ = Unit

-- A count of blockers that is a positive number; `True` is one.
abbrev pub HasBlockers : Value → Type 0
HasBlockers v = ((n : ℕ) × (v ≡ int (pos (suc n)))) ⊎ (v ≡ bool true)

-- The outcome of a receipt follows from the status and the blockers of the result.
abbrev pub HasOutcome : Fields → Fields → Type 0
HasOutcome receipt result =
    ((get "outcome" receipt ≡ str "BLOCKED_ACTIVE_BLOCKER")
      ↔ HasBlockers (get "active_blocker_count" result))
    × ((get "outcome" receipt ≡ str "ADMITTED_PASS") ↔ (
        (get "verification_status" result ≡ str "PASS")
        × ¬ HasBlockers (get "active_blocker_count" result)))
    × ((get "outcome" receipt ≡ str "ADMITTED_FAIL") ↔ (
        (get "verification_status" result ≡ str "FAIL")
        × ¬ HasBlockers (get "active_blocker_count" result)))

-- The receipt names the work contract of the result, or that of the contract where the result names none.
abbrev pub NamesOneOf : Fields → Fields → Fields → Type 0
NamesOneOf receipt contract result =
    ((truthy (get "work_contract_id" result) ≡ true)
      × (get "work_contract_id" receipt ≡ get "work_contract_id" result))
    ⊎ ((truthy (get "work_contract_id" result) ≡ false)
        × (get "work_contract_id" receipt ≡ get "work_contract_id" contract))

null_of : (v : Value) → is_null v ≡ true → v ≡ null
null_of null h = refl
null_of (bool b) h = cc
null_of (int z) h = cc
null_of (str s) h = cc
null_of (list vs) h = cc
null_of (dict d) h = cc

conflict-Agree : (a b : Value) → conflict a b ≡ false → Agree a b
conflict-Agree a b h = either (is_null a) (is_null b) (value_eq a b) refl refl refl h
  where
    either :
        (x y z : Bool)
        → is_null a ≡ x
        → is_null b ≡ y
        → value_eq a b ≡ z
        → (not x && not y && not z) ≡ false
        → Agree a b
    either true y z p q r k = inl (null_of a p)
    either false true z p q r k = inr (inl (null_of b q))
    either false false true p q r k = inr (inr r)
    either false false false p q r k = cc

revision_conflict-Same : (a b : Value) → revision_conflict a b ≡ false → SameRevision a b
revision_conflict-Same (dict a) (dict b) h =
    either (is_null (get "revision_kind" a)) (is_null (get "revision_kind" b))
      (value_eq (get "revision_kind" a) (get "revision_kind" b))
      (value_eq (get "revision_value" a) (get "revision_value" b)) refl refl refl refl h
  where
    either :
        (x y z w : Bool)
        → is_null (get "revision_kind" a) ≡ x
        → is_null (get "revision_kind" b) ≡ y
        → value_eq (get "revision_kind" a) (get "revision_kind" b) ≡ z
        → value_eq (get "revision_value" a) (get "revision_value" b) ≡ w
        → (not x && not y && (not z || not w)) ≡ false
        → SameRevision (dict a) (dict b)
    either true y z w p q r s k = inl (null_of (get "revision_kind" a) p)
    either false true z w p q r s k = inr (inl (null_of (get "revision_kind" b) q))
    either false false true true p q r s k = inr (inr (r, s))
    either false false true false p q r s k = cc
    either false false false w p q r s k = cc
revision_conflict-Same (dict a) null h = tt
revision_conflict-Same (dict a) (bool b) h = tt
revision_conflict-Same (dict a) (int z) h = tt
revision_conflict-Same (dict a) (str s) h = tt
revision_conflict-Same (dict a) (list vs) h = tt
revision_conflict-Same null b h = tt
revision_conflict-Same (bool _) b h = tt
revision_conflict-Same (int _) b h = tt
revision_conflict-Same (str _) b h = tt
revision_conflict-Same (list _) b h = tt

is_other_schema-IsCanonical : (v : Value) → is_other_schema v ≡ false → IsCanonical v
is_other_schema-IsCanonical (str s) h = (eq_iff s "0.2.0").0 (ground arith)
is_other_schema-IsCanonical _ h = tt

HasBlockers-active : (v : Value) → is_active v ≡ true → HasBlockers v
HasBlockers-active (int (pos zero)) h = cc
HasBlockers-active (int (pos (suc n))) h = inl (n, refl)
HasBlockers-active (bool true) h = inr refl
HasBlockers-active (bool false) h = cc
HasBlockers-active _ h = cc

active : (v : Value) → HasBlockers v → is_active v ≡ true
active v (inl (n, e)) = ap is_active e ∙ positive n
  where
    positive : (n : ℕ) → is_positive (pos (suc n)) ≡ true
    positive n = ground arith
active v (inr e) = ap is_active e

is_text-str : (v : Value) (t : String) → is_text v t ≡ true → v ≡ str t
is_text-str (str s) t h = ap str ((eq_iff s t).0 h)
is_text-str _ t h = cc

named : (v : Value) (t : String) → v ≡ str t → is_text v t ≡ true
named v t h = ap (λ w. is_text w t) h ∙ (eq_iff t t).1 refl

-- Two texts that differ are no equal values.
differ : (s t : String) → str_eq s t ≡ false → str s ≢ str t
differ s t h e = refuted (sym h ∙ named (str s) t e)

module _ (status blockers : Value) where
  -- The three outcomes, of the text of a receipt.
  abbrev Follows : String → Type 0
  Follows outcome =
      ((str outcome ≡ str "BLOCKED_ACTIVE_BLOCKER") ↔ HasBlockers blockers)
      × ((str outcome ≡ str "ADMITTED_PASS") ↔ ((status ≡ str "PASS") × ¬ HasBlockers blockers))
      × ((str outcome ≡ str "ADMITTED_FAIL") ↔ ((status ≡ str "FAIL") × ¬ HasBlockers blockers))

  follows :
      (a p f : Bool)
      → is_active blockers ≡ a
      → is_text status "PASS" ≡ p
      → is_text status "FAIL" ≡ f
      → Follows (
          if a
          then "BLOCKED_ACTIVE_BLOCKER"
          else if p
          then "ADMITTED_PASS"
          else if f
          then "ADMITTED_FAIL"
          else "BLOCKED_UNKNOWN")
  follows true p f ha hp hf =
      let blocked = HasBlockers-active blockers ha in
      (
        (λ q. blocked, λ q. refl),
        (
          λ q. elim (differ "BLOCKED_ACTIVE_BLOCKER" "ADMITTED_PASS" refl q) [ ],
          λ (s, n). elim (n blocked) [ ],
        ),
        (
          λ q. elim (differ "BLOCKED_ACTIVE_BLOCKER" "ADMITTED_FAIL" refl q) [ ],
          λ (s, n). elim (n blocked) [ ],
        ),
      )
  follows false true f ha hp hf = (
    (
      λ q. elim (differ "ADMITTED_PASS" "BLOCKED_ACTIVE_BLOCKER" refl q) [ ],
      λ b. elim (refuted (sym ha ∙ active blockers b)) [ ],
    ),
    (λ q. (is_text-str status "PASS" hp, λ b. refuted (sym ha ∙ active blockers b)), λ q. refl),
    (
      λ q. elim (differ "ADMITTED_PASS" "ADMITTED_FAIL" refl q) [ ],
      λ (s, n). elim (differ "PASS" "FAIL" refl (sym (is_text-str status "PASS" hp) ∙ s)) [ ],
    ),
  )
  follows false false true ha hp hf = (
    (
      λ q. elim (differ "ADMITTED_FAIL" "BLOCKED_ACTIVE_BLOCKER" refl q) [ ],
      λ b. elim (refuted (sym ha ∙ active blockers b)) [ ],
    ),
    (
      λ q. elim (differ "ADMITTED_FAIL" "ADMITTED_PASS" refl q) [ ],
      λ (s, n). elim (refuted (sym hp ∙ named status "PASS" s)) [ ],
    ),
    (λ q. (is_text-str status "FAIL" hf, λ b. refuted (sym ha ∙ active blockers b)), λ q. refl),
  )
  follows false false false ha hp hf = (
    (
      λ q. elim (differ "BLOCKED_UNKNOWN" "BLOCKED_ACTIVE_BLOCKER" refl q) [ ],
      λ b. elim (refuted (sym ha ∙ active blockers b)) [ ],
    ),
    (
      λ q. elim (differ "BLOCKED_UNKNOWN" "ADMITTED_PASS" refl q) [ ],
      λ (s, n). elim (refuted (sym hp ∙ named status "PASS" s)) [ ],
    ),
    (
      λ q. elim (differ "BLOCKED_UNKNOWN" "ADMITTED_FAIL" refl q) [ ],
      λ (s, n). elim (refuted (sym hf ∙ named status "FAIL" s)) [ ],
    ),
  )

chosen :
    (a b : Value)
    → ((truthy a ≡ true) × (or_else a b ≡ a)) ⊎ ((truthy a ≡ false) × (or_else a b ≡ b))
chosen a b = either (truthy a) refl
  where
    either :
        (t : Bool)
        → truthy a ≡ t
        → ((truthy a ≡ true) × (or_else a b ≡ a)) ⊎ ((truthy a ≡ false) × (or_else a b ≡ b))
    either true h = inl (h, rw h refl)
    either false h = inr (h, rw h refl)

module _ (fromisoformat : String → Option Moment) (now : String) where
  -- An admitted result is bound to its work contract: their attempts, source snapshots and work
  -- contract ids agree where both are given, their source revisions agree in kind and value where both
  -- have a kind, and a schema version that is a text is 0.2.0. The receipt has the attempt of the
  -- result, names the work contract of the result or else that of the contract, and states the outcome
  -- that follows: blocked exactly with a positive count of blockers, a pass or a failure exactly with
  -- the status PASS or FAIL and no such count.
  pub admit_verification_result-bindings :
      (c d : Fields) (v : Value)
      → admit_verification_result fromisoformat now (dict c) (dict d) ≡ ok v
      → (receipt : Fields) × (v ≡ dict receipt)
        × Agree (get "attempt_index" c) (get "attempt_index" d)
        × SameRevision
            (get "source_revision_ref" c)
            (get "source_revision" (as_dict (get "source_binding" d)))
        × Agree
            (get "source_snapshot_id" c)
            (get "source_snapshot_id" (as_dict (get "source_binding" d)))
        × Agree (get "work_contract_id" c) (get "work_contract_id" d)
        × IsCanonical (get "schema_version" d)
        × (get "schema_version" receipt ≡ str "0.2.0")
        × (get "attempt_index" receipt ≡ get "attempt_index" d)
        × NamesOneOf receipt c d
        × HasOutcome receipt d
  unfolding lookup classify_outcome
  admit_verification_result-bindings c d v h =
      let (red, fresh, checks, attempt, revision, snapshot, identity, schema, same) =
        passed fromisoformat now c d v h in
      (
        as_dict (admission_receipt now c d),
        sym same,
        conflict-Agree (get "attempt_index" c) (get "attempt_index" d) attempt,
        revision_conflict-Same (get "source_revision_ref" c)
            (get "source_revision" (as_dict (get "source_binding" d))) revision,
        conflict-Agree (get "source_snapshot_id" c)
            (get "source_snapshot_id" (as_dict (get "source_binding" d))) snapshot,
        conflict-Agree (get "work_contract_id" c) (get "work_contract_id" d) identity,
        is_other_schema-IsCanonical (get "schema_version" d) schema,
        refl,
        refl,
        chosen (get "work_contract_id" d) (get "work_contract_id" c),
        follows (get "verification_status" d) (get "active_blocker_count" d)
            (is_active (get "active_blocker_count" d))
            (is_text (get "verification_status" d) "PASS")
            (is_text (get "verification_status" d) "FAIL") refl refl refl,
      )
