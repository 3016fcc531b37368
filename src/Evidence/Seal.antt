-- ===== src/Evidence/Seal.antt =====
-- evidence/evidence_validator.py: the sealing of an evidence envelope, and the freshness of evidence.
-- `now` is the time of the call. `fromisoformat` is `datetime.fromisoformat`: none where the text is no
-- time, and otherwise its instant in microseconds, with the test for a time zone.
pub mod Sealed
use synapx_harness.Prelude.{
  ℕ, ◌*◌, ◌-◌, String, str_eq, Bool, true, false, not, if◌then◌else◌, Option, none, some, ltb, ◌≤◌,
}
use synapx_harness.Prelude.Results.{Result, ok, err, ◌>>=◌, ◌>>◌, raise_if}
use synapx_harness.Values.{
  Value, null, bool, int, str, list, dict, Fields, end, field, get, is_text,
}

pub data SealError : Type 0 where
  envelope_not_dict not_admitted not_the_sealer not_redacted : SealError

abbrev pub core_evidence_sealer : String
core_evidence_sealer = "CORE_EVIDENCE_SEALER"

-- `d[key] = v`: the value of the key in its place, or a new field at the end.
unfoldable pub set_field : String → Value → Fields → Fields
set_field key v end = field key v end
set_field key v (field k w rest) =
    let later = set_field key v rest in if str_eq key k then field k v rest else field k w later

-- The three assignments to the copy.
unfoldable pub sealed_envelope : Fields → String → String → Fields
sealed_envelope envelope sealer now =
    set_field "sealed_at" (str now)
      (set_field "sealed_by" (str sealer) (set_field "integrity_status" (str "SEALED") envelope))

-- `redaction_applied` is the truth of the argument.
unfoldable pub seal_evidence : Value → Value → Bool → String → Result SealError Fields
seal_evidence (dict envelope) (str sealer) redaction_applied now = do
  raise_if (not (is_text (get "integrity_status" envelope) "ADMITTED")) not_admitted
  raise_if (not (str_eq sealer core_evidence_sealer)) not_the_sealer
  raise_if (not redaction_applied) not_redacted
  ok (sealed_envelope envelope sealer now)
seal_evidence (dict envelope) _ redaction_applied now = do
  raise_if (not (is_text (get "integrity_status" envelope) "ADMITTED")) not_admitted
  err not_the_sealer
seal_evidence _ sealer redaction_applied now = err envelope_not_dict
