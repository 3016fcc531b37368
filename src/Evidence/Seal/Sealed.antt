-- ===== src/Evidence/Seal/Sealed.antt =====
-- What sealing does to an envelope, and what the terminal finalizer makes of it.
use synapx_harness.Prelude.{
  String, str_eq, is_member, Bool, true, false, not, none, some, List, [], ◌∷◌, ◌≡◌, refl, ap, sym,
  ◌∙◌, arith, eq_iff, eq_refl, if◌then◌else◌,
}
use synapx_harness.Prelude.Results.{ok, err, ok-inj, raise_if-ok}
use synapx_harness.Values.{Value, null, str, dict, Fields, end, field, lookup, get, is_text}
use synapx_harness.Kernel.Terminal.{is_sealed}
use synapx_harness.Evidence.Seal.{
  not_admitted, core_evidence_sealer, set_field, sealed_envelope, seal_evidence,
}

pub lookup-set_field :
    (key : String) (v : Value) (d : Fields) → lookup key (set_field key v d) ≡ some v
unfolding lookup set_field
lookup-set_field key v end = rw (eq_refl key) refl
lookup-set_field key v (field k w rest) = at (str_eq key k) refl (lookup-set_field key v rest)
  where
    at :
        (t : Bool)
        → str_eq key k ≡ t
        → lookup key (set_field key v rest) ≡ some v
        → lookup key (if t then field k v rest else field k w (set_field key v rest)) ≡ some v
    at true h later = rw (h) refl
    at false h later = rw (h) later

pub lookup-set_field_other :
    (k key : String) (v : Value) (d : Fields)
    → str_eq k key ≡ false
    → lookup k (set_field key v d) ≡ lookup k d
unfolding lookup set_field
lookup-set_field_other k key v end h = rw (h) refl
lookup-set_field_other k key v (field k' w rest) h =
    at (str_eq key k') refl (lookup-set_field_other k key v rest h)
  where
    at :
        (t : Bool)
        → str_eq key k' ≡ t
        → lookup k (set_field key v rest) ≡ lookup k rest
        → lookup k (if t then field k' v rest else field k' w (set_field key v rest))
          ≡ (if str_eq k k' then some w else lookup k rest)
    at true q later = rw (sym ((eq_iff key k').0 q), h) refl
    at false q later = rw (later) refl

-- The keys that sealing sets.
abbrev pub sealed_keys : List String
sealed_keys = "integrity_status" ∷ "sealed_by" ∷ "sealed_at" ∷ []

sealed_envelope-other :
    (k : String) (envelope : Fields) (sealer now : String)
    → is_member k sealed_keys ≡ false
    → lookup k (sealed_envelope envelope sealer now) ≡ lookup k envelope
unfolding sealed_envelope
sealed_envelope-other k envelope sealer now h =
    rw
      (
        lookup-set_field_other k "sealed_at" (str now)
            (set_field "sealed_by" (str sealer)
              (set_field "integrity_status" (str "SEALED") envelope))
            (ground arith),
        lookup-set_field_other k "sealed_by" (str sealer)
            (set_field "integrity_status" (str "SEALED") envelope) (ground arith),
        lookup-set_field_other k "integrity_status" (str "SEALED") envelope (ground arith),
      )
      refl

pub sealed_envelope-status :
    (envelope : Fields) (sealer now : String)
    → lookup "integrity_status" (sealed_envelope envelope sealer now) ≡ some (str "SEALED")
unfolding sealed_envelope
sealed_envelope-status envelope sealer now =
    lookup-set_field_other "integrity_status" "sealed_at" (str now)
      (set_field "sealed_by" (str sealer) (set_field "integrity_status" (str "SEALED") envelope))
      refl
    ∙ (lookup-set_field_other "integrity_status" "sealed_by" (str sealer)
          (set_field "integrity_status" (str "SEALED") envelope) refl
        ∙ lookup-set_field "integrity_status" (str "SEALED") envelope)

pub is_text-status :
    (d : Fields) (t : String)
    → lookup "integrity_status" d ≡ some (str "SEALED")
    → is_text (get "integrity_status" d) t ≡ str_eq "SEALED" t
is_text-status d t h = ap (λ o. is_text (elim o [ none ↦ null | some v ↦ v ]) t) h

-- The conditions of a seal.
seal_evidence-ok :
    (envelope sealer : Value) (redaction : Bool) (now : String) (sealed : Fields)
    → seal_evidence envelope sealer redaction now ≡ ok sealed
    → (d : Fields) × (envelope ≡ dict d)
      × (is_text (get "integrity_status" d) "ADMITTED" ≡ true)
      × (sealer ≡ str core_evidence_sealer)
      × (redaction ≡ true)
      × (sealed ≡ sealed_envelope d core_evidence_sealer now)
unfolding seal_evidence
seal_evidence-ok (dict d) (str s) redaction now sealed h =
    let (admitted, h₁) =
      raise_if-ok (not (is_text (get "integrity_status" d) "ADMITTED")) _ _ sealed h in
    let (same, h₂) = raise_if-ok (not (str_eq s core_evidence_sealer)) _ _ sealed h₁ in
    let (redacted, h₃) = raise_if-ok (not redaction) _ _ sealed h₂ in
    let core = (eq_iff s core_evidence_sealer).0 (ground arith) in
    (
      d,
      refl,
      ground arith,
      ap str core,
      ground arith,
      sym (ok-inj h₃) ∙ ap (λ t. sealed_envelope d t now) core,
    )
seal_evidence-ok (dict d) _ redaction now sealed h =
    let (admitted, h₁) =
      raise_if-ok (not (is_text (get "integrity_status" d) "ADMITTED")) _ _ sealed h in
    cc
seal_evidence-ok _ sealer redaction now sealed h = cc

-- A seal is given only to an ADMITTED envelope, by the core sealer and after redaction. The sealed
-- envelope is one that the terminal finalizer takes for sealed, it has every other field of the
-- envelope as it was, and it cannot be sealed again.
pub seal_evidence-Sealed :
    (envelope sealer : Value) (redaction : Bool) (now : String) (sealed : Fields) (key : String)
    → seal_evidence envelope sealer redaction now ≡ ok sealed
    → is_member key sealed_keys ≡ false
    → (d : Fields) × (envelope ≡ dict d)
      × (is_text (get "integrity_status" d) "ADMITTED" ≡ true)
      × (sealer ≡ str core_evidence_sealer)
      × (redaction ≡ true)
      × (is_sealed (dict sealed) ≡ true)
      × (lookup key sealed ≡ lookup key d)
      × (seal_evidence (dict sealed) sealer redaction now ≡ err not_admitted)
unfolding seal_evidence
seal_evidence-Sealed envelope sealer redaction now sealed key h other =
    let (d, is_dict, admitted, core, redacted, same) =
      seal_evidence-ok envelope sealer redaction now sealed h in
    let status =
      ap (lookup "integrity_status") same ∙ sealed_envelope-status d core_evidence_sealer now in
    (
      d,
      is_dict,
      admitted,
      core,
      redacted,
      is_text-status sealed "SEALED" status,
      ap (lookup key) same ∙ sealed_envelope-other key d core_evidence_sealer now other,
      again sealer core (is_text-status sealed "ADMITTED" status),
    )
  where
    again :
        (s : Value)
        → s ≡ str core_evidence_sealer
        → is_text (get "integrity_status" sealed) "ADMITTED" ≡ false
        → seal_evidence (dict sealed) s redaction now ≡ err not_admitted
    again s p q = rw (p, q) refl
