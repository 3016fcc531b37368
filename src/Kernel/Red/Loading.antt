-- ===== src/Kernel/Red/Loading.antt =====
-- kernel/red_qualification.py: the loading of a staged expectation, its binding to a work contract, and
-- the fingerprint of a command. `loads` stands for the decoding of UTF-8 and `json.loads`, `dumps` for
-- the minimal JSON text of a list of texts.
pub mod Qualified
pub mod Bound
use synapx_harness.Prelude.{
  String, str_eq, is_member, Bool, true, false, ◌&&◌, ◌||◌, not, if◌then◌else◌,
}
use synapx_harness.Prelude.{Option, none, some, List, [], ◌∷◌, ℤ}
use synapx_harness.Prelude.Results.{Result, ok, err, ◌>>=◌, ◌>>◌, raise_if}
use synapx_harness.Values.{
  Value, null, bool, int, str, list, dict, Items, nil, cons, Fields, end, field, lookup, get,
  is_text,
}
use synapx_harness.Values.Equality.{value_eq}
use synapx_harness.Kernel.Verification.{is_blank}
use synapx_harness.Mutation.Bytes.{Bytes, encode}
use synapx_harness.Kernel.Red.{
  QualifiedRedExpectation, supported_match_rules, authoritative_source_types,
}

pub data ExpectationError : Type 0 where
  not_an_object not_qualified not_authoritative unsupported_rule : ExpectationError
  exit_code_not_int provenance_not_object version_not_int : ExpectationError
  field_missing text_required list_required blank_item : String → ExpectationError

-- `data[key]`
abbrev required : String → Fields → Result ExpectationError Value
required key d = elim (lookup key d) [ none ↦ err (field_missing key) | some v ↦ ok v ]

-- `_require_nonempty_str`
unfoldable pub require_nonempty_str : Value → String → Result ExpectationError String
require_nonempty_str (str s) name = if is_blank s then err (text_required name) else ok s
require_nonempty_str _ name = err (text_required name)

unfoldable pub require_items : Items → String → Result ExpectationError (List String)
require_items nil name = ok []
require_items (cons (str s) vs) name =
    let rest = require_items vs name in
    if is_blank s then err (blank_item name) else rest >>= λ ss. ok (s ∷ ss)
require_items (cons _ vs) name = err (blank_item name)

-- `_require_str_tuple`
unfoldable pub require_str_tuple : Value → String → Result ExpectationError (List String)
unfolding require_items
require_str_tuple (list vs) name = require_items vs name
require_str_tuple _ name = err (list_required name)

-- `value in texts`
abbrev pub is_one_of : Value → List String → Bool
is_one_of (str s) texts = is_member s texts
is_one_of _ texts = false

-- An `int` that is no truth value.
abbrev pub require_int : Value → ExpectationError → Result ExpectationError ℤ
require_int (int z) e = ok z
require_int _ e = err e

-- The text of a value that one of the tests before has found to be one.
abbrev text_of : Value → String
text_of (str s) = s
text_of _ = ""

abbrev pub as_object : Value → ExpectationError → Result ExpectationError Fields
as_object (dict d) e = ok d
as_object _ e = err e

-- `data.get("source_revision", data.get("seeded_source_revision"))`
abbrev pub revision_value : Fields → Value
revision_value d = elim (lookup "source_revision" d) [
  | none ↦ get "seeded_source_revision" d
  | some v ↦ v
]

-- `data.get("required_failed_test_ids", [])`
abbrev ids_value : Fields → Value
ids_value d = elim (lookup "required_failed_test_ids" d) [ none ↦ list nil | some v ↦ v ]

-- `QualifiedRedExpectation.from_dict`
unfoldable pub from_dict : Value → Result ExpectationError QualifiedRedExpectation
from_dict data_value = do
  d ← as_object data_value not_an_object
  status ← required "status" d
  source_type ← required "source_type" d
  match_rule ← required "match_rule" d
  exit_value ← required "expected_exit_code" d
  provenance_value ← required "provenance" d
  raise_if (not (is_text status "QUALIFIED")) not_qualified
  raise_if (not (is_one_of source_type authoritative_source_types)) not_authoritative
  raise_if (not (is_one_of match_rule supported_match_rules)) unsupported_rule
  exit_code ← require_int exit_value exit_code_not_int
  provenance ← as_object provenance_value provenance_not_object
  version ← require_int (get "expectation_version" d) version_not_int
  id ← require_nonempty_str (get "expectation_id" d) "expectation_id"
  revision ← require_nonempty_str (revision_value d) "source_revision"
  fingerprint ←
      require_nonempty_str (get "verification_command_fingerprint" d)
        "verification_command_fingerprint"
  ids ← require_str_tuple (ids_value d) "required_failed_test_ids"
  ref ← require_nonempty_str (get "source_ref" provenance) "provenance.source_ref"
  sha ← require_nonempty_str (get "source_sha256" provenance) "provenance.source_sha256"
  ok (record {
    expectation_id = id;
    expectation_version = version;
    status = text_of status;
    source_type = text_of source_type;
    source_revision = revision;
    command_fingerprint = fingerprint;
    expected_exit_code = exit_code;
    match_rule = text_of match_rule;
    required_failed_test_ids = ids;
    provenance_source_ref = ref;
    provenance_source_sha256 = sha;
  })

pub data FingerprintError : Type 0 where
  command_required empty_entry : FingerprintError

argv : Items → Result FingerprintError (List String)
argv nil = ok []
argv (cons (str s) vs) =
    let rest = argv vs in if str_eq s "" then err empty_entry else rest >>= λ ss. ok (s ∷ ss)
argv (cons _ vs) = err empty_entry

-- `verification_command_fingerprint`
unfoldable pub verification_command_fingerprint :
    (Bytes → String) → (List String → String) → Value → Result FingerprintError String
unfolding argv
verification_command_fingerprint digest dumps (list (cons v vs)) =
    argv (cons v vs) >>= λ command. ok (digest (encode (dumps command)))
verification_command_fingerprint digest dumps _ = err command_required

-- The causes that `verify_workcontract_expectation_binding` names.
pub data BindingError : Type 0 where
  not_bound binding_incomplete binding_malformed sha_mismatch ref_mismatch : BindingError
  payload_malformed payload_not_object id_mismatch version_mismatch : BindingError

abbrev bound_dict : Value → Result BindingError Fields
bound_dict (dict (field k v rest)) = ok (field k v rest)
bound_dict _ = err not_bound

abbrev bound_field : String → Fields → Result BindingError Value
bound_field key d = elim (lookup key d) [ none ↦ err binding_incomplete | some v ↦ ok v ]

abbrev bound_text : Value → Result BindingError String
bound_text (str s) = if str_eq s "" then err binding_malformed else ok s
bound_text _ = err binding_malformed

abbrev bound_int : Value → Result BindingError ℤ
bound_int (int z) = ok z
bound_int _ = err binding_malformed

abbrev payload_value : Option Value → Result BindingError Fields
payload_value none = err payload_malformed
payload_value (some (dict d)) = ok d
payload_value (some _) = err payload_not_object

unfoldable pub verify_workcontract_expectation_binding :
    (Bytes → String) → (Bytes → Option Value) → Value → Bytes → String → Result BindingError Fields
verify_workcontract_expectation_binding digest loads bound loaded_bytes loaded_path = do
  b ← bound_dict bound
  id_value ← bound_field "expectation_id" b
  version_value ← bound_field "expectation_version" b
  ref_value ← bound_field "expectation_ref" b
  sha_value ← bound_field "expectation_sha256" b
  bound_id ← bound_text id_value
  bound_ref ← bound_text ref_value
  bound_sha ← bound_text sha_value
  bound_version ← bound_int version_value
  raise_if (not (str_eq (digest loaded_bytes) bound_sha)) sha_mismatch
  raise_if (not (str_eq loaded_path bound_ref)) ref_mismatch
  payload ← payload_value (loads loaded_bytes)
  raise_if (not (is_text (get "expectation_id" payload) bound_id)) id_mismatch
  raise_if (not (value_eq (get "expectation_version" payload) (int bound_version))) version_mismatch
  ok payload
