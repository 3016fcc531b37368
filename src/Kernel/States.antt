-- ===== src/Kernel/States.antt =====
-- The state references of kernel/verification_planner.py: the states of each namespace, and the
-- resolution of a name.
pub mod Owner
use synapx_harness.Prelude.{ℕ, zero, suc, ◌+◌, ◌*◌, String, ◌<>◌, str_eq, is_member, ltb, ◌==◌}
use Prim.Native.Char.{Char}
use synapx_harness.Prelude.{Bool, true, false, ◌&&◌, ◌||◌, not, if◌then◌else◌, Option, none, some}
use synapx_harness.Prelude.{List, [], ◌∷◌, length, filter, any, pos, is_positive, is_space, map}
use synapx_harness.Prelude.Results.{Result, ok, err, ◌>>◌, raise_if}
use synapx_harness.Values.{
  Value, null, bool, int, str, list, dict, Items, nil, cons, Fields, end, field, get, or_else,
  is_text, is_null,
}
use synapx_harness.Values.Equality.{value_eq}

pub data StateError : Type 0 where
  no_state_name no_namespace unknown_state : StateError
  ambiguous_state : List String → StateError
  other_namespace : String → StateError

-- `_STATE_NAMESPACE_REGISTRY`: each namespace with its states.
abbrev pub states_of : List (String × List String)
states_of =
    (
      "evidence.envelope",
      "CREATED" ∷ "VALIDATED" ∷ "QUALIFIED" ∷ "ADMITTED" ∷ "SEALED" ∷ "REJECTED" ∷ "SUPERSEDED"
          ∷ [],
    )
    ∷ ("terminal.decision", "COMPLETED" ∷ "FAILED" ∷ "BLOCKED" ∷ "BLOCKED_UNKNOWN" ∷ [])
    ∷ ("extension.lifecycle", "ENABLED" ∷ "ACTIVE_FOR_JOB" ∷ [])
    ∷ ("flattened", "SEALED" ∷ "SUPERSEDED" ∷ "BLOCKED_UNKNOWN" ∷ [])
    ∷ []

abbrev pub is_dot : Char → Bool
is_dot c = str_eq (String.◌∷◌ c "") "."

-- `"." in text`
unfoldable pub has_dot : String → Bool
has_dot String.[] = false
has_dot (String.◌∷◌ c s) = is_dot c || has_dot s

-- `name.split(".")[-1]`
unfoldable pub last_part : String → String
unfolding has_dot
last_part String.[] = ""
last_part (String.◌∷◌ c s) =
    let rest = last_part s in if is_dot c || has_dot s then rest else String.◌∷◌ c s

-- The namespaces that have a state of this name.
unfoldable pub owners : String → List String
owners name = map (λ entry. entry.0) (filter (λ entry. is_member name entry.1) states_of)

resolve : String → String → List String → Result StateError String
resolve name namespace [] = err unknown_state
resolve name namespace (owner ∷ []) =
    if str_eq namespace owner then ok (namespace <> ("." <> name)) else err (other_namespace owner)
resolve name namespace more = err (ambiguous_state more)

-- `allow_ambiguous` is read by nothing.
unfoldable pub resolve_state_reference : Value → Value → Result StateError String
unfolding resolve
resolve_state_reference (str state) (str namespace) = do
  raise_if (str_eq state "") no_state_name
  raise_if (str_eq namespace "") no_namespace
  resolve (last_part state) namespace (owners (last_part state))
resolve_state_reference (str state) namespace = do
  raise_if (str_eq state "") no_state_name
  err no_namespace
resolve_state_reference _ namespace = err no_state_name

-- A state with the namespace it is read in.
pub record StateRef : Type 0 where
  pub state : String
  pub namespace : Value

-- `StateRef(state, namespace)`
unfoldable pub state_ref : Value → Value → Result StateError StateRef
state_ref state null = err no_namespace
state_ref (str state) namespace = do
  raise_if (str_eq state "") no_state_name
  ok (record { state = state; namespace = namespace })
state_ref _ namespace = err no_state_name
