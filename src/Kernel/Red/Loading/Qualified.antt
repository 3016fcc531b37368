-- ===== src/Kernel/Red/Loading/Qualified.antt =====
-- What an expectation that loads has.
use synapx_harness.Prelude.{
  String, is_member, Bool, true, false, not, if◌then◌else◌, List, ◌∷◌, All, ◌≡◌, refl, sym, ◌∙◌, ap,
  arith, eq_iff,
}
use mathlib.Core.Path.{subst}
use synapx_harness.Prelude.Results.{Result, ok, err, ◌>>=◌, ok-inj, bind-ok, raise_if-ok}
use synapx_harness.Values.{Value, str, list, Items, nil, cons, get, is_text}
use synapx_harness.Kernel.Verification.{is_blank}
use synapx_harness.Kernel.Red.{
  QualifiedRedExpectation, supported_match_rules, authoritative_source_types,
}
use synapx_harness.Kernel.Red.Loading.{
  ExpectationError, required, require_nonempty_str, require_items, require_str_tuple, is_one_of,
  require_int, text_of, as_object, revision_value, ids_value, from_dict, text_required, blank_item,
  not_an_object,
}

unnegated : (b : Bool) → not b ≡ false → b ≡ true
unnegated b h = ground arith

require_nonempty_str-visible :
    (v : Value) (name s : String) → require_nonempty_str v name ≡ ok s → is_blank s ≡ false
unfolding require_nonempty_str
require_nonempty_str-visible (str t) name s h = visible (is_blank t) refl h
  where
    visible :
        (b : Bool)
        → is_blank t ≡ b
        → (if◌then◌else◌ {A = Result ExpectationError String} b (err (text_required name)) (ok t))
          ≡ ok s
        → is_blank s ≡ false
    visible true e q = cc
    visible false e q = sym (ap is_blank (ok-inj q)) ∙ e
require_nonempty_str-visible _ name s h = cc

require_items-visible :
    (vs : Items) (name : String) (ss : List String)
    → require_items vs name ≡ ok ss
    → All (λ s. is_blank s ≡ false) ss
unfolding require_items
require_items-visible nil name ss h = subst (All (λ s. is_blank s ≡ false)) (ok-inj h) tt
require_items-visible (cons (str t) vs) name ss h =
    visible (is_blank t) refl h (require_items-visible vs name)
  where
    visible :
        (b : Bool)
        → is_blank t ≡ b
        → (if◌then◌else◌ {A = Result ExpectationError (List String)} b
            (err (blank_item name))
            (require_items vs name >>= λ us. ok (t ∷ us)))
          ≡ ok ss
        → ((us : List String) → require_items vs name ≡ ok us → All (λ s. is_blank s ≡ false) us)
        → All (λ s. is_blank s ≡ false) ss
    visible true e q rec = cc
    visible false e q rec =
        let (us, rest, last) = bind-ok (require_items vs name) _ ss q in
        subst (All (λ s. is_blank s ≡ false)) (ok-inj last) (e, rec us rest)
require_items-visible (cons _ vs) name ss h = cc

require_str_tuple-visible :
    (v : Value) (name : String) (ss : List String)
    → require_str_tuple v name ≡ ok ss
    → All (λ s. is_blank s ≡ false) ss
unfolding require_str_tuple
require_str_tuple-visible (list vs) name ss h = require_items-visible vs name ss h
require_str_tuple-visible _ name ss h = cc

is_one_of-text :
    (v : Value) (ts : List String) → is_one_of v ts ≡ true → is_member (text_of v) ts ≡ true
is_one_of-text (str s) ts h = h
is_one_of-text _ ts h = cc

is_text-text : (v : Value) (s : String) → is_text v s ≡ true → text_of v ≡ s
is_text-text (str t) s h = (eq_iff t s).0 h
is_text-text _ s h = cc

-- An expectation that authorizes: it is qualified, its source is authoritative and its rule is
-- supported, and neither its texts nor its test ids are blank.
abbrev pub IsQualified : QualifiedRedExpectation → Type 0
IsQualified e =
    (e.status ≡ "QUALIFIED")
    × (is_member e.source_type authoritative_source_types ≡ true)
    × (is_member e.match_rule supported_match_rules ≡ true)
    × (is_blank e.expectation_id ≡ false)
    × (is_blank e.source_revision ≡ false)
    × (is_blank e.command_fingerprint ≡ false)
    × All (λ s. is_blank s ≡ false) e.required_failed_test_ids
    × (is_blank e.provenance_source_ref ≡ false)
    × (is_blank e.provenance_source_sha256 ≡ false)

-- Only qualified expectations load: whatever the staged value is, an expectation that comes out has the
-- status QUALIFIED, an authoritative source, a supported rule, and no blank text or test id.
pub from_dict-IsQualified :
    (v : Value) (e : QualifiedRedExpectation) → from_dict v ≡ ok e → IsQualified e
unfolding from_dict
from_dict-IsQualified v e h =
    let (d, _, h₁) = bind-ok (as_object v not_an_object) _ e h in
    let (status, _, h₂) = bind-ok (required "status" d) _ e h₁ in
    let (source_type, _, h₃) = bind-ok (required "source_type" d) _ e h₂ in
    let (match_rule, _, h₄) = bind-ok (required "match_rule" d) _ e h₃ in
    let (exit_value, _, h₅) = bind-ok (required "expected_exit_code" d) _ e h₄ in
    let (provenance_value, _, h₆) = bind-ok (required "provenance" d) _ e h₅ in
    let (qualified, h₇) = raise_if-ok (not (is_text status "QUALIFIED")) _ _ e h₆ in
    let (source, h₈) =
      raise_if-ok (not (is_one_of source_type authoritative_source_types)) _ _ e h₇ in
    let (rule, h₉) = raise_if-ok (not (is_one_of match_rule supported_match_rules)) _ _ e h₈ in
    let (exit_code, _, i₁) = bind-ok (require_int exit_value _) _ e h₉ in
    let (provenance, _, i₂) = bind-ok (as_object provenance_value _) _ e i₁ in
    let (version, _, i₃) = bind-ok (require_int (get "expectation_version" d) _) _ e i₂ in
    let (id, h_id, i₄) = bind-ok (require_nonempty_str (get "expectation_id" d) _) _ e i₃ in
    let (revision, h_revision, i₅) = bind-ok (require_nonempty_str (revision_value d) _) _ e i₄ in
    let (fingerprint, h_fingerprint, i₆) =
      bind-ok (require_nonempty_str (get "verification_command_fingerprint" d) _) _ e i₅ in
    let (ids, h_ids, i₇) = bind-ok (require_str_tuple (ids_value d) _) _ e i₆ in
    let (ref, h_ref, i₈) = bind-ok (require_nonempty_str (get "source_ref" provenance) _) _ e i₇ in
    let (sha, h_sha, i₉) =
      bind-ok (require_nonempty_str (get "source_sha256" provenance) _) _ e i₈ in
    subst IsQualified (ok-inj i₉) (
      is_text-text status "QUALIFIED" (unnegated (is_text status "QUALIFIED") qualified),
      is_one_of-text source_type authoritative_source_types (unnegated _ source),
      is_one_of-text match_rule supported_match_rules (unnegated _ rule),
      require_nonempty_str-visible (get "expectation_id" d) _ id h_id,
      require_nonempty_str-visible (revision_value d) _ revision h_revision,
      require_nonempty_str-visible (get "verification_command_fingerprint" d) _ fingerprint
          h_fingerprint,
      require_str_tuple-visible (ids_value d) _ ids h_ids,
      require_nonempty_str-visible (get "source_ref" provenance) _ ref h_ref,
      require_nonempty_str-visible (get "source_sha256" provenance) _ sha h_sha,
    )
