-- ===== src/Kernel/Risk/Policy.antt =====
-- How the risk class of a task, its policy and its admissibility hang together.
use synapx_harness.Prelude.{String, str_eq, is_member, Bool, true, false, not, if◌then◌else◌}
use synapx_harness.Prelude.{
  Option, none, some, List, [], ◌∷◌, All, ◌≡◌, refl, sym, ap, ◌∙◌, ◌++◌, ◌⊎◌, arith, eq_iff,
  Bool-cases, inl, inr,
}
use synapx_harness.Prelude.Results.{Result, ok, err, ◌>>=◌}
use mathlib.Core.Path.{subst}
use synapx_harness.Values.{Value, str, Fields, get}
use synapx_harness.Kernel.Risk.{
  PilotRisk, r0, r1, r2, r3, r4, RiskError, classify, is_blocked_in_pilot, pilot_from_str,
  classify_str, is_admissible, default_risks, risk_in, admissible_risks, blocked_risks,
  not_a_risk_class, task_type_of, risk_class_of, classify_task,
}

abbrev name : PilotRisk → String
name r0 = "R0"
name r1 = "R1"
name r2 = "R2"
name r3 = "R3"
name r4 = "R4"

name-or-refused :
    (s : String)
    → ((risk : PilotRisk) × (s ≡ name risk))
      ⊎ ((e : RiskError) × (pilot_from_str s ≡ err e)
          × (is_member s (admissible_risks ++ blocked_risks) ≡ false))
unfolding pilot_from_str
name-or-refused s = elim (Bool-cases (str_eq s "R0")) [
  | inl e ↦ inl (r0, (eq_iff s "R0").0 e)
  | inr n0 ↦ elim (Bool-cases (str_eq s "R1")) [
    | inl e ↦ inl (r1, (eq_iff s "R1").0 e)
    | inr n1 ↦ elim (Bool-cases (str_eq s "R2")) [
      | inl e ↦ inl (r2, (eq_iff s "R2").0 e)
      | inr n2 ↦ elim (Bool-cases (str_eq s "R3")) [
        | inl e ↦ inl (r3, (eq_iff s "R3").0 e)
        | inr n3 ↦ elim (Bool-cases (str_eq s "R4")) [
          | inl e ↦ inl (r4, (eq_iff s "R4").0 e)
          | inr n4 ↦ inr (
            not_a_risk_class s,
            rw n0 (rw n1 (rw n2 (rw n3 (rw n4 refl)))),
            rw n0 (rw n1 (rw n2 (rw n3 (rw n4 refl)))),
          )
        ]
      ]
    ]
  ]
]

refuted : false ≡ true → ⊥
refuted h = cc

refused-raises :
    {A : Type 0} (a b : A) (m : Result RiskError PilotRisk) (e : RiskError)
    → m ≡ err e
    → (m >>= λ _. ok a) ≡ ok b
    → ⊥
refused-raises a b m e h k = ground arith

-- The admissibility `b` of a text, its class and its policy agree.
abbrev pub Agrees : String → Bool → Type 0
Agrees risk_class b =
    (risk : PilotRisk) × (pilot_from_str risk_class ≡ ok risk)
    × (classify_str risk_class ≡ ok (classify risk))
    × (b ≡ not (is_blocked_in_pilot risk))
    × (str_eq (classify risk) "BLOCKED" ≡ is_blocked_in_pilot risk)

-- A text whose admissibility is answered names a risk class and has that class's policy. The answer
-- is that the class is not blocked in the pilot, which is that its policy is not BLOCKED.
is_admissible-policy :
    (risk_class : String) (b : Bool)
    → is_admissible risk_class ≡ ok b
    → (risk : PilotRisk) × (pilot_from_str risk_class ≡ ok risk)
      × (classify_str risk_class ≡ ok (classify risk))
      × (b ≡ not (is_blocked_in_pilot risk))
      × (str_eq (classify risk) "BLOCKED" ≡ is_blocked_in_pilot risk)
unfolding is_admissible classify_str classify is_blocked_in_pilot pilot_from_str
is_admissible-policy s b h = elim (name-or-refused s) [
  | inl (risk, e) ↦
      subst (λ t. Agrees t b) (sym e) (of_name risk b (subst (λ t. is_admissible t ≡ ok b) e h))
  | inr (e, refused, unknown) ↦
      elim (refused-raises (is_member s admissible_risks) b (pilot_from_str s) e refused h) [ ]
]
  where
    of_name :
        (risk : PilotRisk) (b : Bool) → is_admissible (name risk) ≡ ok b → Agrees (name risk) b
    of_name r0 b h = (r0, refl, refl, ground arith, refl)
    of_name r1 b h = (r1, refl, refl, ground arith, refl)
    of_name r2 b h = (r2, refl, refl, ground arith, refl)
    of_name r3 b h = (r3, refl, refl, ground arith, refl)
    of_name r4 b h = (r4, refl, refl, ground arith, refl)

abbrev IsKnown : String → Type 0
IsKnown risk = is_member risk (admissible_risks ++ blocked_risks) ≡ true

found-IsKnown :
    (s : String) (table : List (String × String))
    → All (λ entry. IsKnown (entry.1)) table
    → (risk_in s table ≡ none) ⊎ ((risk : String) × (risk_in s table ≡ some risk) × IsKnown risk)
found-IsKnown s [] h = inl refl
found-IsKnown s ((t, risk) ∷ rest) h = at (str_eq s t) (found-IsKnown s rest h.1)
  where
    at :
        (b : Bool)
        → (risk_in s rest ≡ none) ⊎ ((r : String) × (risk_in s rest ≡ some r) × IsKnown r)
        → (if◌then◌else◌ {A = Option String} b (some risk) (risk_in s rest) ≡ none)
          ⊎ ((r : String) × (if◌then◌else◌ {A = Option String} b (some risk) (risk_in s rest)
                ≡ some r)
              × IsKnown r)
    at true rec = inr (risk, refl, h.0)
    at false rec = rec

abbrev Typed : String → Type 0
Typed task_type = (risk : String) × (risk_in task_type default_risks ≡ some risk) × IsKnown risk

-- The table has the type that a task is given, with a known risk class.
typed-known : (v : Value) → Typed (task_type_of v)
typed-known (str s) = elim (found-IsKnown s default_risks all_known) [
  | inl missing ↦ subst Typed (sym (ap chosen missing)) ("R2", refl, refl)
  | inr (risk, e, known) ↦ subst Typed (sym (ap chosen e)) (risk, e, known)
]
  where
    chosen : Option String → String
    chosen o = elim o [ none ↦ "BUG_FIX" | some _ ↦ s ]

    all_known : All (λ entry. IsKnown (entry.1)) default_risks
    all_known = (
      refl,
      (
        refl,
        (
          refl,
          (
            refl,
            (
              refl,
              (refl, (refl, (refl, (refl, (refl, (refl, (refl, (refl, (refl, (refl, tt)))))))))),
            ),
          ),
        ),
      ),
    )
typed-known _ = ("R2", refl, refl)

known-cases :
    (risk : String) → IsKnown risk → (class : PilotRisk) × (pilot_from_str risk ≡ ok class)
unfolding pilot_from_str
known-cases risk h = elim (name-or-refused risk) [
  | inl (class, e) ↦
      subst (λ t. (k : PilotRisk) × (pilot_from_str t ≡ ok k)) (sym e) (of_class class)
  | inr (e, refused, unknown) ↦ elim (refuted (sym unknown ∙ h)) [ ]
]
  where
    of_class : (class : PilotRisk) → (k : PilotRisk) × (pilot_from_str (name class) ≡ ok k)
    of_class r0 = (r0, refl)
    of_class r1 = (r1, refl)
    of_class r2 = (r2, refl)
    of_class r3 = (r3, refl)
    of_class r4 = (r4, refl)

known-chosen :
    (o : Option String) (risk default_risk : String)
    → o ≡ some risk
    → IsKnown risk
    → risk_class_of o default_risk ≡ risk
known-chosen o risk default_risk e known = ap (λ x. risk_class_of x default_risk) e ∙ kept _ known
  where
    kept :
        (b : Bool)
        → ◌≡◌ {0} {A = Bool} b true
        → ◌≡◌ {0} {A = String} (if b then risk else default_risk) risk
    kept b h = ground arith

classified :
    (v : Value) (default_risk : String)
    → risk_class_of (risk_in (task_type_of v) default_risks) default_risk ≡ (typed-known v).0
classified v default_risk =
    let (risk, e, known) = typed-known v in known-chosen _ risk default_risk e known

-- The class of a task comes from its task type alone: two payloads with one task type get the same
-- pair whatever else they declare and whatever the default, and the class is one that has a policy.
pub classify_task-rederived :
    (p q : Fields) (default_risk other_default : String)
    → get "task_type" p ≡ get "task_type" q
    → (classify_task (some p) default_risk ≡ classify_task (some q) other_default)
      × ((class : PilotRisk) × (pilot_from_str ((classify_task (some p) default_risk).1)
            ≡ ok class))
unfolding classify_task
classify_task-rederived p q default_risk other_default same = (
  ap (λ r. (task_type_of (get "task_type" p), r)) (classified (get "task_type" p) default_risk)
      ∙ (ap (λ v. (task_type_of v, (typed-known v).0)) same
          ∙ sym (
              ap (λ r. (task_type_of (get "task_type" q), r))
                (classified (get "task_type" q) other_default))),
  subst (λ r. (class : PilotRisk) × (pilot_from_str r ≡ ok class))
      (sym (classified (get "task_type" p) default_risk))
      (known-cases ((typed-known (get "task_type" p)).0) ((typed-known (get "task_type" p)).2)),
)
