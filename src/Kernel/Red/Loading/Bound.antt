-- ===== src/Kernel/Red/Loading/Bound.antt =====
-- What the binding of a staged expectation to its work contract has compared.
use synapx_harness.Prelude.{
  String, str_eq, Bool, true, false, not, if◌then◌else◌, Option, none, some, ℤ, ◌≡◌, sym, ◌∙◌, ap,
  arith, eq_iff,
}
use mathlib.Core.Path.{subst}
use synapx_harness.Prelude.Results.{Result, ok, err, ok-inj, bind-ok, raise_if-ok}
use synapx_harness.Values.{Value, int, str, dict, Fields, field, end, lookup, get, is_text}
use synapx_harness.Values.Equality.{value_eq}
use synapx_harness.Mutation.Bytes.{Bytes}
use synapx_harness.Kernel.Red.Loading.{
  BindingError, bound_dict, bound_field, bound_text, bound_int, payload_value, binding_incomplete,
  binding_malformed, verify_workcontract_expectation_binding,
}

unnegated : (b : Bool) → not b ≡ false → b ≡ true
unnegated b h = ground arith

bound_dict-ok : (v : Value) (d : Fields) → bound_dict v ≡ ok d → v ≡ dict d
bound_dict-ok (dict (field k v rest)) d h = ap dict (ok-inj h)
bound_dict-ok (dict end) d h = cc
bound_dict-ok _ d h = cc

bound_field-ok :
    (key : String) (d : Fields) (v : Value) → bound_field key d ≡ ok v → lookup key d ≡ some v
bound_field-ok key d v h = found (lookup key d) h
  where
    found :
        (o : Option Value)
        → (elim o as (λ _. Result BindingError Value) [
          | none ↦ err binding_incomplete
          | some w ↦ ok w
        ])
          ≡ ok v
        → o ≡ some v
    found none q = cc
    found (some w) q = ap some (ok-inj q)

bound_text-ok : (v : Value) (s : String) → bound_text v ≡ ok s → v ≡ str s
bound_text-ok (str t) s h = kept (str_eq t "") h
  where
    kept :
        (b : Bool)
        → (if◌then◌else◌ {A = Result BindingError String} b (err binding_malformed) (ok t)) ≡ ok s
        → str t ≡ str s
    kept true q = cc
    kept false q = ap str (ok-inj q)
bound_text-ok _ s h = cc

bound_int-ok : (v : Value) (z : ℤ) → bound_int v ≡ ok z → v ≡ int z
bound_int-ok (int y) z h = ap int (ok-inj h)
bound_int-ok _ z h = cc

payload_value-ok : (o : Option Value) (d : Fields) → payload_value o ≡ ok d → o ≡ some (dict d)
payload_value-ok none d h = cc
payload_value-ok (some (dict e)) d h = ap (λ t. some (dict t)) (ok-inj h)
payload_value-ok (some _) d h = cc

is_text-str : (v : Value) (s : String) → is_text v s ≡ true → v ≡ str s
is_text-str (str t) s h = ap str ((eq_iff t s).0 h)
is_text-str _ s h = cc

module _ (digest : Bytes → String) (loads : Bytes → Option Value) where
  -- The staged bytes and their path are what the binding names: the digest of exactly these bytes, this
  -- path, and in the decoded object the id and a version that equals the bound one.
  abbrev pub IsBound : Value → Bytes → String → Fields → Type 0
  IsBound bound loaded_bytes loaded_path payload =
      (b : Fields) × (id : String) × (version : ℤ) × (bound ≡ dict b)
      × (lookup "expectation_id" b ≡ some (str id))
      × (lookup "expectation_version" b ≡ some (int version))
      × (lookup "expectation_ref" b ≡ some (str loaded_path))
      × (lookup "expectation_sha256" b ≡ some (str (digest loaded_bytes)))
      × (loads loaded_bytes ≡ some (dict payload))
      × (get "expectation_id" payload ≡ str id)
      × (value_eq (get "expectation_version" payload) (int version) ≡ true)

  -- A payload that the binding lets through is bound: the work contract names the digest of the
  -- staged bytes, their path, the id and the version.
  pub verify_workcontract_expectation_binding-IsBound :
      (bound : Value) (loaded_bytes : Bytes) (loaded_path : String) (payload : Fields)
      → verify_workcontract_expectation_binding digest loads bound loaded_bytes loaded_path
        ≡ ok payload
      → IsBound bound loaded_bytes loaded_path payload
  unfolding verify_workcontract_expectation_binding
  verify_workcontract_expectation_binding-IsBound bound loaded_bytes loaded_path payload h =
      let (b, h_b, h₁) = bind-ok (bound_dict bound) _ payload h in
      let (id_value, f_id, h₂) = bind-ok (bound_field "expectation_id" b) _ payload h₁ in
      let (version_value, f_version, h₃) =
        bind-ok (bound_field "expectation_version" b) _ payload h₂ in
      let (ref_value, f_ref, h₄) = bind-ok (bound_field "expectation_ref" b) _ payload h₃ in
      let (sha_value, f_sha, h₅) = bind-ok (bound_field "expectation_sha256" b) _ payload h₄ in
      let (id, t_id, h₆) = bind-ok (bound_text id_value) _ payload h₅ in
      let (ref, t_ref, h₇) = bind-ok (bound_text ref_value) _ payload h₆ in
      let (sha, t_sha, h₈) = bind-ok (bound_text sha_value) _ payload h₇ in
      let (version, t_version, h₉) = bind-ok (bound_int version_value) _ payload h₈ in
      let (same_sha, i₁) = raise_if-ok (not (str_eq (digest loaded_bytes) sha)) _ _ payload h₉ in
      let (same_ref, i₂) = raise_if-ok (not (str_eq loaded_path ref)) _ _ payload i₁ in
      let (d, decoded, i₃) = bind-ok (payload_value (loads loaded_bytes)) _ payload i₂ in
      let (same_id, i₄) = raise_if-ok (not (is_text (get "expectation_id" d) id)) _ _ payload i₃ in
      let (same_version, i₅) =
        raise_if-ok (not (value_eq (get "expectation_version" d) (int version))) _ _ payload i₄ in
      subst (IsBound bound loaded_bytes loaded_path) (ok-inj i₅) (
        b,
        id,
        version,
        bound_dict-ok bound b h_b,
        bound_field-ok "expectation_id" b id_value f_id ∙ ap some (bound_text-ok id_value id t_id),
        bound_field-ok "expectation_version" b version_value f_version
            ∙ ap some (bound_int-ok version_value version t_version),
        bound_field-ok "expectation_ref" b ref_value f_ref
            ∙ ap some (
                bound_text-ok ref_value ref t_ref
                ∙ ap str (sym ((eq_iff loaded_path ref).0 (unnegated _ same_ref)))),
        bound_field-ok "expectation_sha256" b sha_value f_sha
            ∙ ap some (
                bound_text-ok sha_value sha t_sha
                ∙ ap str (sym ((eq_iff (digest loaded_bytes) sha).0 (unnegated _ same_sha)))),
        payload_value-ok (loads loaded_bytes) d decoded,
        is_text-str (get "expectation_id" d) id (unnegated _ same_id),
        unnegated _ same_version,
      )
