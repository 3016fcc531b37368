-- ===== src/Kernel/Qualification.antt =====
-- kernel/mutation_qualification_port.py: the verification of a mutation by six criteria. `read_json`
-- stands for the evidence root and `json.loads`: `none` where an artifact is missing or unreadable. The
-- result stands less its list of checks, which repeats the criteria.
pub mod Criteria
pub mod Ledger
mod Tests
use synapx_harness.Prelude.{ℕ, zero, suc, String, str_eq, ◌==◌, length, map, count_chars}
use synapx_harness.Prelude.{Bool, true, false, ◌&&◌, ◌||◌, not, if◌then◌else◌, any}
use synapx_harness.Prelude.{Option, none, some, List, [], ◌∷◌, ◌++◌, pos}
use synapx_harness.Prelude.Results.{Result, ok, err, ◌>>=◌, ◌>>◌, raise_if}
use synapx_harness.Values.{
  Value, null, bool, int, str, list, dict, Items, nil, cons, Fields, end, field, lookup, get,
  is_text, to_text,
}
use synapx_harness.Values.Equality.{value_eq, count_fields}
use synapx_harness.Kernel.Contracts.{VerificationResult, ValidationError, build_verification_result}
use synapx_harness.Kernel.Verification.{is_hashable, items}
use Prim.Native.Char.{Char}

-- What the call may raise: an attribute or a length that a value lacks, an element that a set cannot
-- hold, or a record that Pydantic refuses.
pub data PortError : Type 0 where
  no_attribute no_length unhashable not_iterable : PortError
  invalid_record : ValidationError → PortError

-- The identity of a result, as the port reads it.
pub record ResultIdentity : Type 0 where
  pub job_id : String
  pub task_id : String
  pub attempt_id : String

-- `_read_json`; the JSON `null` is `None`, too.
abbrev pub artifact : Option Value → Result PortError (Option Fields)
artifact none = ok none
artifact (some null) = ok none
artifact (some (dict d)) = ok (some d)
artifact (some _) = err no_attribute

-- `v is True`
abbrev pub is_true : Value → Bool
is_true (bool b) = b
is_true _ = false

-- `d.get(key, default)`
abbrev pub get_or : String → Value → Fields → Value
get_or key default d = elim (lookup key d) [ none ↦ default | some v ↦ v ]

-- `len(v)`
abbrev pub size_of : Value → Result PortError ℕ
size_of (list vs) = ok (length (items vs))
size_of (dict d) = ok (count_fields d)
size_of (str s) = ok (count_chars s)
size_of _ = err no_length

-- The characters of a text, as texts.
abbrev chars : String → List Value
chars String.[] = []
chars (String.◌∷◌ c s) = str (String.◌∷◌ c "") ∷ chars s

abbrev keys : Fields → List Value
keys end = []
keys (field k v rest) = str k ∷ keys rest

-- `set(v)`
abbrev pub set_of : Value → Result PortError (List Value)
set_of (list vs) =
    if any (λ v. not (is_hashable v)) (items vs) then err unhashable else ok (items vs)
set_of (dict d) = ok (keys d)
set_of (str s) = ok (chars s)
set_of _ = err not_iterable

-- `a.issubset(b)`
abbrev pub subset : List Value → List Value → Bool
subset [] ws = true
subset (v ∷ vs) ws = any (λ w. value_eq v w) ws && subset vs ws

abbrev pub is_empty : List Value → Bool
is_empty [] = true
is_empty (_ ∷ _) = false

abbrev as_dict : Value → Fields
as_dict (dict d) = d
as_dict _ = end

-- The identity of the work contract is that of the result.
unfoldable pub identity_ok : Fields → ResultIdentity → Bool
identity_ok work_contract identity =
    let bound = as_dict (get "execution_identity" work_contract) in
    is_text (get "job_id" bound) identity.job_id
    && is_text (get "task_id" bound) identity.task_id
    && is_text (get "attempt_id" bound) identity.attempt_id

abbrev red_fields : Option Fields → Bool
red_fields none = false
red_fields (some red) =
    value_eq (get "exit_code" red) (int (pos 1))
    && is_true (get "failure_reason_matches_intended_defect" red)

unfoldable pub red_ok : (String → Option Value) → Result PortError Bool
red_ok read_json = artifact (read_json "red/result.json") >>= λ red. ok (red_fields red)

abbrev green_fields : Option Fields → Bool
green_fields none = false
green_fields (some green) = value_eq (get "exit_code" green) (int (pos 0))

unfoldable pub green_ok : (String → Option Value) → Result PortError Bool
green_ok read_json = artifact (read_json "green/result.json") >>= λ green. ok (green_fields green)

-- `differential.get("differential", {})`, which has to have a `get` of its own.
abbrev diff_fields : Value → Result PortError Fields
diff_fields (dict d) = ok d
diff_fields _ = err no_attribute

-- The second length is taken only where the first is zero.
abbrev pub no_new : Fields → Result PortError Bool
no_new diff = size_of (get_or "new_failed" (list nil) diff) >>= λ failed. elim (failed == 0) [
  | false ↦ ok false
  | true ↦ size_of (get_or "new_errors" (list nil) diff) >>= λ errors. ok (errors == 0)
]

abbrev pub differential_fields : Option Fields → Result PortError Bool
differential_fields none = ok false
differential_fields (some d) =
    diff_fields (get_or "differential" (dict end) d) >>= λ diff. no_new diff

unfoldable pub regression_ok : (String → Option Value) → Result PortError Bool
regression_ok read_json =
    artifact (read_json "regression/differential.json") >>= λ d. differential_fields d

-- The paths under either of two names.
abbrev pub authorized_value : Fields → Value
authorized_value ledger =
    get_or "authorized_paths" (get_or "allowed_write_paths" (list nil) ledger) ledger

abbrev pub actual_value : Fields → Value
actual_value ledger =
    get_or "actual_changed_paths" (get_or "applied_paths" (list nil) ledger) ledger

abbrev pub ledger_fields : Option Fields → Result PortError Bool
ledger_fields none = ok false
ledger_fields (some ledger) = do
  authorized ← set_of (authorized_value ledger)
  actual ← set_of (actual_value ledger)
  ok (subset actual authorized && not (is_empty actual))

unfoldable pub write_ok : (String → Option Value) → Result PortError Bool
write_ok read_json =
    artifact (read_json "execution/write_ledger.json") >>= λ ledger. ledger_fields ledger

pub data Blocker : Type 0 where
  status_not_done identity_differs red_not_qualified : Blocker
  green_not_qualified new_failures write_boundary : Blocker

-- One blocker where a criterion fails.
abbrev pub unless_ok : Bool → Blocker → List Blocker
unless_ok true b = []
unless_ok false b = b ∷ []

abbrev pub blockers_of : Bool → Bool → Bool → Bool → Bool → Bool → List Blocker
blockers_of status identity red green regression write =
    unless_ok status status_not_done
    ++ (unless_ok identity identity_differs
        ++ (unless_ok red red_not_qualified
            ++ (unless_ok green green_not_qualified
                ++ (unless_ok regression new_failures ++ unless_ok write write_boundary))))

abbrev pub checked {ℓ} : {A : Type ℓ} → Result ValidationError A → Result PortError A
checked (ok a) = ok a
checked (err e) = err (invalid_record e)

-- The result for the blockers that were found.
unfoldable pub result_of : String → List Blocker → Result PortError VerificationResult
result_of work_contract_id [] =
    checked (build_verification_result work_contract_id "PASS" "VALID" (pos 0))
result_of work_contract_id (b ∷ bs) =
    checked (build_verification_result work_contract_id "FAIL" "INVALID" (pos (length (b ∷ bs))))

module _ (repr : Value → String) (read_json : String → Option Value) where
  -- `str(work_contract.get("work_contract_id", "unknown"))`
  abbrev pub contract_id : Fields → String
  contract_id work_contract = to_text repr (get_or "work_contract_id" (str "unknown") work_contract)

  unfoldable pub verify : Fields → String → ResultIdentity → Result PortError VerificationResult
  verify work_contract status identity = do
    red ← red_ok read_json
    green ← green_ok read_json
    regression ← regression_ok read_json
    write ← write_ok read_json
    result_of (contract_id work_contract) (
        blockers_of (str_eq status "DONE") (identity_ok work_contract identity) red green regression
          write)
