-- ===== src/Kernel/Risk.antt =====
-- kernel/risk_classifier.py: the policy of a risk class, and the risk class of a task.
pub mod Policy
use synapx_harness.Prelude.{String, str_eq, is_member, Bool, true, false, if◌then◌else◌, not}
use synapx_harness.Prelude.{Option, none, some, List, [], ◌∷◌, ◌++◌}
use synapx_harness.Prelude.Results.{Result, ok, err, ◌>>=◌}
use synapx_harness.Values.{Value, str, Fields, end, get}

-- `PilotRisk`
pub data PilotRisk : Type 0 where
  r0 r1 r2 r3 r4 : PilotRisk

-- `classify`: the policy token in `_RISK_POLICY`.
unfoldable pub classify : PilotRisk → String
classify r0 = "AUTO_ADMIT"
classify r1 = "DOCUMENT_OR_TEST_SCOPE"
classify r2 = "EXPLICIT_MUTATION_POLICY_AND_HITL"
classify r3 = "BLOCKED"
classify r4 = "BLOCKED"

unfoldable pub is_blocked_in_pilot : PilotRisk → Bool
is_blocked_in_pilot r3 = true
is_blocked_in_pilot r4 = true
is_blocked_in_pilot _ = false

abbrev pub admissible_risks : List String
admissible_risks = "R0" ∷ "R1" ∷ "R2" ∷ []

abbrev pub blocked_risks : List String
blocked_risks = "R3" ∷ "R4" ∷ []

pub data RiskError : Type 0 where
  not_a_risk_class : String → RiskError

unfoldable pub pilot_from_str : String → Result RiskError PilotRisk
pilot_from_str risk_class =
    if str_eq risk_class "R0"
    then ok r0
    else if str_eq risk_class "R1"
    then ok r1
    else if str_eq risk_class "R2"
    then ok r2
    else if str_eq risk_class "R3"
    then ok r3
    else if str_eq risk_class "R4"
    then ok r4
    else err (not_a_risk_class risk_class)

unfoldable pub classify_str : String → Result RiskError String
classify_str risk_class = do risk ← pilot_from_str risk_class; ok (classify risk)

unfoldable pub is_admissible : String → Result RiskError Bool
is_admissible risk_class = do
  _ ← pilot_from_str risk_class
  ok (is_member risk_class admissible_risks)

-- `TASK_TYPE_TO_DEFAULT_RISK`
abbrev pub default_risks : List (String × String)
default_risks =
    ("BUG_FIX", "R2")
    ∷ ("TEST_REPAIR", "R1")
    ∷ ("DOC_FIX", "R1")
    ∷ ("REVIEW_FIX", "R1")
    ∷ ("WORK_ADMISSION", "R0")
    ∷ ("SCHEMA_REVISION", "R2")
    ∷ ("ADAPTER_FIX", "R2")
    ∷ ("INFRA_FIX", "R3")
    ∷ ("LOG_FIX", "R1")
    ∷ ("NAMESPACE_REPAIR", "R2")
    ∷ ("GOVERNANCE_FIX", "R2")
    ∷ ("REVISION_BINDING", "R0")
    ∷ ("SOURCE_BINDING", "R0")
    ∷ ("GUARDRAIL_TRIM", "R1")
    ∷ ("DOCS_TRIM", "R1")
    ∷ []

abbrev pub risk_in : String → List (String × String) → Option String
risk_in task_type [] = none
risk_in task_type ((t, risk) ∷ rest) =
    if str_eq task_type t then some risk else risk_in task_type rest

-- A task type that the table does not have is a BUG_FIX.
abbrev pub task_type_of : Value → String
task_type_of (str s) = elim (risk_in s default_risks) [ none ↦ "BUG_FIX" | some _ ↦ s ]
task_type_of _ = "BUG_FIX"

-- The risk class that the table gives, or the default.
abbrev pub risk_class_of : Option String → String → String
risk_class_of none default_risk = default_risk
risk_class_of (some risk) default_risk =
    if is_member risk (admissible_risks ++ blocked_risks) then risk else default_risk

unfoldable pub classify_task : Option Fields → String → String × String
classify_task none default_risk =
    let task_type = task_type_of (get "task_type" end) in
    (task_type, risk_class_of (risk_in task_type default_risks) default_risk)
classify_task (some payload) default_risk =
    let task_type = task_type_of (get "task_type" payload) in
    (task_type, risk_class_of (risk_in task_type default_risks) default_risk)
