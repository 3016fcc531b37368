-- ===== src/Mutation/Paths.antt =====
-- evidence/command_runner.py: the normal form of write paths, the write set that a work contract
-- declares, and the check of the paths that a run has changed.
pub mod Safety
pub mod Declared
use synapx_harness.Prelude.{String, str_eq, starts_with, is_member, ◌==◌, leb, map}
use synapx_harness.Prelude.{Bool, true, false, ◌&&◌, ◌||◌, not, if◌then◌else◌, any, filter}
use synapx_harness.Prelude.{Option, none, some, List, [], ◌∷◌, ◌++◌}
use synapx_harness.Prelude.Results.{Result, ok, err, ◌>>=◌, ◌>>◌, raise_if}
use synapx_harness.Values.{Value, str, list, dict, Items, nil, cons, Fields, get, truthy}
use synapx_harness.Mutation.Text.{push, drop_start}
use Prim.Native.Char.{Char, char, code}

pub data PathError : Type 0 where
  empty_token absolute_path parent_traversal empty_path path_not_text : PathError

abbrev is_slash : Char → Bool
is_slash c = code c == 47

-- `raw.replace("\\", "/")`
abbrev pub fold_slashes : String → String
fold_slashes String.[] = ""
fold_slashes (String.◌∷◌ c s) =
    let rest = fold_slashes s in
    if code c == 92 then String.◌∷◌ (char 47 tt) rest else String.◌∷◌ c rest

-- `[A-Za-z]`
abbrev is_letter : Char → Bool
is_letter c = let n = code c in (leb 65 n && leb n 90) || (leb 97 n && leb n 122)

-- `_ABSOLUTE_WINDOWS`
abbrev is_drive : String → Bool
is_drive (String.◌∷◌ c (String.◌∷◌ d s)) = is_letter c && code d == 58
is_drive _ = false

abbrev pub is_absolute : String → Bool
is_absolute s = starts_with s "/" || is_drive s

-- `while s.startswith("./"): s = s[2:]`
abbrev pub strip_dots : String → String
strip_dots String.[] = ""
strip_dots (String.◌∷◌ c String.[]) = String.◌∷◌ c ""
strip_dots (String.◌∷◌ c (String.◌∷◌ d s)) =
    let rest = strip_dots s in
    if code c == 46 && is_slash d then rest else String.◌∷◌ c (String.◌∷◌ d s)

-- `s.split("/")`
abbrev pub segments : String → List String
segments String.[] = "" ∷ []
segments (String.◌∷◌ c s) = let rest = segments s in if is_slash c then "" ∷ rest else push c rest

-- `any(p == ".." for p in parts)`
abbrev pub has_parent : String → Bool
has_parent s = any (λ p. str_eq p "..") (segments s)

unfoldable pub normalize_write_token_path : String → Result PathError String
normalize_write_token_path raw =
    let s = strip_dots (fold_slashes raw) in
    do
      raise_if (str_eq raw "") empty_token
      raise_if (is_absolute (fold_slashes raw)) absolute_path
      raise_if (has_parent s) parent_traversal
      raise_if (str_eq s "" || str_eq s ".") empty_path
      ok s

-- The part of a token after its `write:`.
abbrev pub write_token : String → Option String
write_token token =
    if starts_with token "write:"
    then some (drop_start "write:" token)
    else if starts_with token "WRITE:"
    then some (drop_start "WRITE:" token)
    else none

-- One more path where it is new.
abbrev pub add_new : String → List String → List String
add_new p seen = if is_member p seen then seen else seen ++ p ∷ []

unfoldable pub extract_from : List String → List String → Result PathError (List String)
extract_from seen [] = ok seen
extract_from seen (token ∷ tokens) = elim (write_token token) [
  | none ↦ extract_from seen tokens
  | some raw ↦ normalize_write_token_path raw >>= λ p. extract_from (add_new p seen) tokens
]

-- `_extract_scope_writes`
unfoldable pub extract_scope_writes : List String → Result PathError (List String)
unfolding extract_from
extract_scope_writes scope = extract_from [] scope

pub data MutationPathError : Type 0 where
  no_work_contract no_work_contract_id no_scope : MutationPathError
  no_write_token no_mutation_paths : MutationPathError
  invalid_path : PathError → MutationPathError
  write_set_violation : List String → MutationPathError

abbrev pub lift_path {ℓ} : {A : Type ℓ} → Result PathError A → Result MutationPathError A
lift_path (ok a) = ok a
lift_path (err e) = err (invalid_path e)

-- `[str(s) for s in scope if isinstance(s, str)]`
abbrev pub texts : Items → List String
texts nil = []
texts (cons (str s) vs) = s ∷ texts vs
texts (cons _ vs) = texts vs

-- `_verify_write_token_path`, of a value
abbrev verify_write_token_path : Value → Result PathError String
verify_write_token_path (str s) = normalize_write_token_path s
verify_write_token_path _ = err path_not_text

unfoldable pub observe : Items → Result PathError (List String)
observe nil = ok []
observe (cons v vs) = verify_write_token_path v >>= λ p. observe vs >>= λ ps. ok (p ∷ ps)

-- What a passed check returns, less its constant fields.
pub record AllowedPaths : Type 0 where
  pub declared_write_set : List String
  pub observed_mutation_paths : List String

abbrev pub is_empty : List String → Bool
is_empty [] = true
is_empty (_ ∷ _) = false

abbrev pub outside : List String → List String → List String
outside declared observed = filter (λ p. not (is_member p declared)) observed

-- `_require` of a list that is not empty
abbrev pub scope_items : Value → Result MutationPathError Items
scope_items (list nil) = err no_scope
scope_items (list (cons v vs)) = ok (cons v vs)
scope_items _ = err no_scope

abbrev pub path_items : Value → Result MutationPathError Items
path_items (list nil) = err no_mutation_paths
path_items (list (cons v vs)) = ok (cons v vs)
path_items _ = err no_mutation_paths

abbrev pub contract_fields : Option Fields → Result MutationPathError Fields
contract_fields none = err no_work_contract
contract_fields (some payload) = ok payload

-- `work_contract` is the dictionary, or what `model_dump` gives of the model.
unfoldable pub assert_mutation_paths_allowed :
    Option Fields → Value → Result MutationPathError AllowedPaths
assert_mutation_paths_allowed work_contract mutation_paths = do
  payload ← contract_fields work_contract
  raise_if (not (truthy (get "work_contract_id" payload))) no_work_contract_id
  scope ← scope_items (get "scope" payload)
  declared ← lift_path (extract_scope_writes (texts scope))
  raise_if (is_empty declared) no_write_token
  paths ← path_items mutation_paths
  observed ← lift_path (observe paths)
  raise_if (not (is_empty (outside declared observed)))
      (write_set_violation (outside declared observed))
  ok (record { declared_write_set = declared; observed_mutation_paths = observed })
