-- ===== src/Kernel/Lineage/Consistent.antt =====
-- What an envelope without failures is bound to.
use synapx_harness.Prelude.{
  String, Bool, true, false, List, [], ◌∷◌, ◌++◌, All, ◌≡◌, ◌↔◌, ◌⊎◌, inl, inr, refl, ap, sym, ◌∙◌,
  eq_iff, not, ◌||◌, arith,
}
use mathlib.Core.Path.{subst}
use synapx_harness.Values.{Value, str, dict, Fields, get, is_text, truthy}
use synapx_harness.Values.Equality.{value_eq}
use synapx_harness.Evidence.Checks.{is_filled, unless, none_left}
use synapx_harness.Kernel.Lineage.{
  LineageFailure, slot_missing, slot_differs, slots, is_dict, fields_of, is_bound, is_bound_if_any,
  slot_failures, slot_differences, inner_failures, failures_with, assert_lineage_consistency,
  identity_missing,
}

-- Two lists of failures are both empty.
both :
    (xs ys : List LineageFailure)
    → none_left (xs ++ ys) ≡ true
    → (none_left xs ≡ true) × (none_left ys ≡ true)
both [] ys h = (refl, h)
both (x ∷ xs) ys h = cc

holds_first :
    (b : Bool) (v : LineageFailure) (ys : List LineageFailure)
    → none_left (unless b v ++ ys) ≡ true
    → (b ≡ true) × (none_left ys ≡ true)
holds_first true v ys h = (refl, h)
holds_first false v ys h = cc

slot_failures-All :
    (names : List String) (eid : Fields)
    → none_left (slot_failures names eid) ≡ true
    → All (λ slot. is_filled (get slot eid) ≡ true) names
unfolding slot_failures
slot_failures-All [] eid h = tt
slot_failures-All (slot ∷ rest) eid h =
    let (first, later) =
      holds_first (is_filled (get slot eid)) (slot_missing slot) (slot_failures rest eid) h in
    (first, slot_failures-All rest eid later)

slot_differences-All :
    (names : List String) (inner eid : Fields)
    → none_left (slot_differences names inner eid) ≡ true
    → All (λ slot. value_eq (get slot inner) (get slot eid) ≡ true) names
unfolding slot_differences
slot_differences-All [] inner eid h = tt
slot_differences-All (slot ∷ rest) inner eid h =
    let (first, later) =
      holds_first (value_eq (get slot inner) (get slot eid)) (slot_differs slot)
        (slot_differences rest inner eid) h in
    (first, slot_differences-All rest inner eid later)

slot_failures-none :
    (names : List String) (eid : Fields)
    → All (λ slot. is_filled (get slot eid) ≡ true) names
    → slot_failures names eid ≡ []
unfolding slot_failures
slot_failures-none [] eid h = refl
slot_failures-none (slot ∷ rest) eid (first, later) =
    rw (first, slot_failures-none rest eid later) refl

slot_differences-none :
    (names : List String) (inner eid : Fields)
    → All (λ slot. value_eq (get slot inner) (get slot eid) ≡ true) names
    → slot_differences names inner eid ≡ []
unfolding slot_differences
slot_differences-none [] inner eid h = refl
slot_differences-none (slot ∷ rest) inner eid (first, later) =
    rw (first, slot_differences-none rest inner eid later) refl

-- A dictionary that names the expected work contract.
abbrev pub Names : Fields → String → Type 0
Names d expected = get "work_contract_id" d ≡ str expected

-- A dictionary that names no other work contract: its id counts as false, or is the expected one.
abbrev pub NamesNoOther : Fields → String → Type 0
NamesNoOther d expected = (truthy (get "work_contract_id" d) ≡ false) ⊎ Names d expected

-- The identity inside of the work contract, where it is a dictionary, has the slots of the
-- execution identity.
abbrev pub HasSameSlots : Value → Fields → Type 0
HasSameSlots (dict inner) eid = All (λ slot. value_eq (get slot inner) (get slot eid) ≡ true) slots
HasSameSlots _ eid = Unit

-- An envelope of one execution: five dictionaries, of which the execution identity has its slots and
-- none names another work contract than the expected one.
abbrev pub IsConsistent : Fields → String → Type 0
IsConsistent lineage expected =
    (eid contract request admission terminal : Fields) × (get "execution_identity" lineage
      ≡ dict eid)
    × (get "work_contract" lineage ≡ dict contract)
    × (get "agent_request" lineage ≡ dict request)
    × (get "admission_receipt" lineage ≡ dict admission)
    × (get "terminal_decision" lineage ≡ dict terminal)
    × All (λ slot. is_filled (get slot eid) ≡ true) slots
    × NamesNoOther eid expected
    × Names contract expected
    × Names request expected
    × NamesNoOther admission expected
    × NamesNoOther terminal expected
    × HasSameSlots (get "execution_identity" contract) eid

is_text-str : (v : Value) (t : String) → is_text v t ≡ true → v ≡ str t
is_text-str (str s) t h = ap str ((eq_iff s t).0 h)
is_text-str _ t h = cc

named : (v : Value) (t : String) → v ≡ str t → is_text v t ≡ true
named v t h = ap (λ w. is_text w t) h ∙ (eq_iff t t).1 refl

dict_of : (v : Value) → is_dict v ≡ true → (d : Fields) × (v ≡ dict d)
dict_of (dict d) h = (d, refl)
dict_of _ h = cc

Names-bound :
    (v : Value) (d : Fields) (expected : String)
    → v ≡ dict d
    → is_bound v expected ≡ true
    → Names d expected
Names-bound v d expected e h =
    is_text-str (get "work_contract_id" d) expected (ap (λ w. is_bound w expected) (sym e) ∙ h)

NamesNoOther-bound :
    (v : Value) (d : Fields) (expected : String)
    → v ≡ dict d
    → is_bound_if_any v expected ≡ true
    → NamesNoOther d expected
NamesNoOther-bound v d expected e h =
    either (truthy (get "work_contract_id" d)) refl
      (ap (λ w. is_bound_if_any w expected) (sym e) ∙ h)
  where
    either :
        (b : Bool)
        → truthy (get "work_contract_id" d) ≡ b
        → (not b || is_text (get "work_contract_id" d) expected) ≡ true
        → NamesNoOther d expected
    either false q k = inl q
    either true q k = inr (is_text-str (get "work_contract_id" d) expected k)

bound :
    (v : Value) (d : Fields) (expected : String)
    → v ≡ dict d
    → Names d expected
    → is_bound v expected ≡ true
bound v d expected e h =
    ap (λ w. is_bound w expected) e ∙ named (get "work_contract_id" d) expected h

bound_if_any :
    (v : Value) (d : Fields) (expected : String)
    → v ≡ dict d
    → NamesNoOther d expected
    → is_bound_if_any v expected ≡ true
bound_if_any v d expected e h = ap (λ w. is_bound_if_any w expected) e ∙ either h
  where
    last : (a b : Bool) → b ≡ true → (not a || b) ≡ true
    last a b k = ground arith

    either : NamesNoOther d expected → is_bound_if_any (dict d) expected ≡ true
    either (inl q) = rw q refl
    either (inr q) =
        last (truthy (get "work_contract_id" d)) (is_text (get "work_contract_id" d) expected)
          (named (get "work_contract_id" d) expected q)

inner_failures-none : (v : Value) (eid : Fields) → HasSameSlots v eid → inner_failures v eid ≡ []
inner_failures-none (dict inner) eid h = slot_differences-none slots inner eid h
inner_failures-none _ eid h = refl

HasSameSlots-inner :
    (v : Value) (eid : Fields) → none_left (inner_failures v eid) ≡ true → HasSameSlots v eid
HasSameSlots-inner (dict inner) eid h = slot_differences-All slots inner eid h
HasSameSlots-inner _ eid h = tt

module _ (lineage : Fields) (expected : String) where
  from_failures :
      (eid : Fields)
      → get "execution_identity" lineage ≡ dict eid
      → none_left (failures_with lineage eid expected) ≡ true
      → IsConsistent lineage expected
  from_failures eid is_eid q =
      let (c, q₁) = holds_first (is_dict (get "work_contract" lineage)) _ _ q in
      let (r, q₂) = holds_first (is_dict (get "agent_request" lineage)) _ _ q₁ in
      let (a, q₃) = holds_first (is_dict (get "admission_receipt" lineage)) _ _ q₂ in
      let (t, q₄) = holds_first (is_dict (get "terminal_decision" lineage)) _ _ q₃ in
      let (s, q₅) = both (slot_failures slots eid) _ q₄ in
      let (e, q₆) = holds_first (is_bound_if_any (dict eid) expected) _ _ q₅ in
      let (cb, q₇) = holds_first (is_bound (get "work_contract" lineage) expected) _ _ q₆ in
      let (rb, q₈) = holds_first (is_bound (get "agent_request" lineage) expected) _ _ q₇ in
      let (ab, q₉) =
        holds_first (is_bound_if_any (get "admission_receipt" lineage) expected) _ _ q₈ in
      let (tb, q₁₀) =
        holds_first (is_bound_if_any (get "terminal_decision" lineage) expected) _ _ q₉ in
      let (contract, is_contract) = dict_of (get "work_contract" lineage) c in
      let (request, is_request) = dict_of (get "agent_request" lineage) r in
      let (admission, is_admission) = dict_of (get "admission_receipt" lineage) a in
      let (terminal, is_terminal) = dict_of (get "terminal_decision" lineage) t in
      (
        eid,
        contract,
        request,
        admission,
        terminal,
        is_eid,
        is_contract,
        is_request,
        is_admission,
        is_terminal,
        slot_failures-All slots eid s,
        NamesNoOther-bound (dict eid) eid expected refl e,
        Names-bound (get "work_contract" lineage) contract expected is_contract cb,
        Names-bound (get "agent_request" lineage) request expected is_request rb,
        NamesNoOther-bound (get "admission_receipt" lineage) admission expected is_admission ab,
        NamesNoOther-bound (get "terminal_decision" lineage) terminal expected is_terminal tb,
        HasSameSlots-inner (get "execution_identity" contract) eid (
            sym (
              ap (λ v. none_left (inner_failures (get "execution_identity" (fields_of v)) eid))
                is_contract)
            ∙ q₁₀),
      )

  by_identity :
      (v : Value)
      → get "execution_identity" lineage ≡ v
      → none_left
          (elim v [ dict eid ↦ failures_with lineage eid expected | _ ↦ identity_missing ∷ [] ])
        ≡ true
      → IsConsistent lineage expected
  by_identity (dict eid) p q = from_failures eid p q
  by_identity _ p q = cc

  to_failures :
      (eid : Fields)
      → IsConsistent lineage expected
      → get "execution_identity" lineage ≡ dict eid
      → failures_with lineage eid expected ≡ []
  to_failures eid
        (
          eid', contract, request, admission, terminal, e, c, r, a, t, filled, en, cn, rn, an, tn,
          inner,
        )
        is_eid =
      let same : eid' ≡ eid = ap fields_of (sym e ∙ is_eid) in
      rw
        (
          ap is_dict c,
          ap is_dict r,
          ap is_dict a,
          ap is_dict t,
          slot_failures-none slots eid
              (subst (λ d. All (λ slot. is_filled (get slot d) ≡ true) slots) same filled),
          bound_if_any (dict eid) eid expected refl (subst (λ d. NamesNoOther d expected) same en),
          bound (get "work_contract" lineage) contract expected c cn,
          bound (get "agent_request" lineage) request expected r rn,
          bound_if_any (get "admission_receipt" lineage) admission expected a an,
          bound_if_any (get "terminal_decision" lineage) terminal expected t tn,
          inner_failures-none (get "execution_identity" (fields_of (get "work_contract" lineage)))
              eid
              (subst (λ v. HasSameSlots (get "execution_identity" (fields_of v)) eid) (sym c)
                (subst (HasSameSlots (get "execution_identity" contract)) same inner)),
        )
        refl

-- The assertions find no failure exactly in a consistent envelope. Its execution identity, work
-- contract, agent request, admission receipt and terminal decision are dictionaries; the identity's
-- four slots are texts that are not empty; the work contract and the agent request name the expected
-- work contract; an id in the identity, the admission receipt or the terminal decision is the expected
-- one or counts as false; and the identity inside of the work contract, where it is a dictionary, has
-- the same four slots.
pub assert_lineage_consistency-IsConsistent :
    (lineage : Fields) (expected : String)
    → (assert_lineage_consistency lineage expected ≡ []) ↔ IsConsistent lineage expected
unfolding assert_lineage_consistency
assert_lineage_consistency-IsConsistent lineage expected = (
  λ h. by_identity lineage expected (get "execution_identity" lineage) refl (ap none_left h),
  λ consistent.
      let eid = consistent.0 in
      let is_eid = consistent.5 in
      ap (λ v. elim v [ dict eid ↦ failures_with lineage eid expected | _ ↦ identity_missing ∷ [] ])
        is_eid
      ∙ to_failures lineage expected eid consistent is_eid,
)
