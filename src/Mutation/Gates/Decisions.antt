-- ===== src/Mutation/Gates/Decisions.antt =====
-- When the gates allow, and what the RED flag rests on.
use synapx_harness.Prelude.{
  String, is_member, Bool, true, false, ◌&&◌, not, if◌then◌else◌, Option, none, some, List, [], ◌∷◌,
  All, pos, negsuc, ◌==◌, ◌≡◌, refl, sym, ◌∙◌, ap, arith, ◌⊎◌, inl, inr, ◌↔◌,
}
use synapx_harness.Prelude.Results.{Result, ok, err, ok-inj, bind-ok}
use synapx_harness.Values.{Value, bool, int, str, dict, Fields, lookup}
use synapx_harness.Mutation.Text.{is_blank}
use synapx_harness.Mutation.Proposal.{PatchProposal}
use synapx_harness.Mutation.Gates.{
  RedError, field_missing, reference_not_text, Artifact, missing, unreadable, parsed,
  reference_text, artifact_fields, required, exit_is_one, matches_flag,
  derive_red_qualification_from_evidence, Decision, allow, deny, admit, has_reason, stated_reason,
  default_reason, check, unauthorized, is_empty, issued, not_issued, ApplyAuthority,
}

-- The admission allows exactly where RED is qualified and no reason to deny is given, and a denial
-- always states a reason.
admit-decision :
    (work_contract_id : String) (red_qualified : Bool) (ref revision : String) (identity : Fields)
    (paths : List String) (reason : Option String)
    → (((admit work_contract_id red_qualified ref revision identity paths reason).admission_decision
          ≡ allow)
        ↔ ((red_qualified ≡ true) × (has_reason reason ≡ false)))
      × ((admit work_contract_id red_qualified ref revision identity paths
              reason).admission_decision
            ≡ deny
          → (s : String) × ((admit work_contract_id red_qualified ref revision identity paths
                reason).denied_reason
              ≡ some s))
unfolding admit
admit-decision work_contract_id red_qualified ref revision identity paths reason = (
  decides red_qualified (has_reason reason),
  states (if red_qualified && not (has_reason reason) then allow else deny) reason,
)
  where
    decides :
        (q d : Bool)
        → (◌≡◌ {0} {A = Decision} (if q && not d then allow else deny) allow)
          ↔ ((◌≡◌ {0} {A = Bool} q true) × (◌≡◌ {0} {A = Bool} d false))
    decides true true = (λ h. cc, λ h. cc)
    decides true false = (λ h. (refl, refl), λ h. refl)
    decides false d = (λ h. cc, λ h. cc)

    states :
        (d : Decision) (o : Option String) → d ≡ deny → (s : String) × (stated_reason d o ≡ some s)
    states allow o h = cc
    states deny none h = (default_reason, refl)
    states deny (some s) h = (s, refl)

unauthorized-All :
    (allowed paths : List String)
    → is_empty (unauthorized paths allowed) ≡ true
    → All (λ p. is_member p allowed ≡ true) paths
unfolding unauthorized
unauthorized-All allowed [] h = tt
unauthorized-All allowed (p ∷ ps) h =
    step (is_member p allowed) refl h (unauthorized-All allowed ps)
  where
    step :
        (b : Bool)
        → is_member p allowed ≡ b
        → is_empty (if not b then p ∷ unauthorized ps allowed else unauthorized ps allowed) ≡ true
        → (is_empty (unauthorized ps allowed) ≡ true → All (λ q. is_member q allowed ≡ true) ps)
        → (is_member p allowed ≡ true) × All (λ q. is_member q allowed ≡ true) ps
    step true e q rec = (e, rec q)
    step false e q rec = cc

All-unauthorized :
    (allowed paths : List String)
    → All (λ p. is_member p allowed ≡ true) paths
    → is_empty (unauthorized paths allowed) ≡ true
unfolding unauthorized
All-unauthorized allowed [] h = refl
All-unauthorized allowed (p ∷ ps) (h, hs) = rw h (All-unauthorized allowed ps hs)

-- The path gate issues its authority exactly where the proposal names a path and all of its paths
-- are allowed; it decides ALLOW exactly where it issues the authority, and gives a reason exactly
-- where it does not.
check-issued :
    (proposal : PatchProposal) (allowed : List String) (revision receipt : String)
    → (((check proposal allowed revision receipt).apply_authority ≡ issued) ↔ (
        (is_empty proposal.paths ≡ false) × All (λ p. is_member p allowed ≡ true) proposal.paths))
      × (((check proposal allowed revision receipt).apply_authority ≡ issued)
          ↔ ((check proposal allowed revision receipt).gate_decision ≡ allow))
      × (((check proposal allowed revision receipt).apply_authority ≡ issued)
          ↔ ((check proposal allowed revision receipt).reason ≡ none))
unfolding check
check-issued proposal allowed revision receipt =
    let (both, gate, reason) =
      gates (is_empty proposal.paths) (is_empty (unauthorized proposal.paths allowed))
        (unauthorized proposal.paths allowed) in
    (
      (
        λ h. ((both.0 h).0, unauthorized-All allowed proposal.paths ((both.0 h).1)),
        λ h. both.1 (h.0, All-unauthorized allowed proposal.paths (h.1)),
      ),
      gate,
      reason,
    )
  where
    gates :
        (e u : Bool) (named : List String)
        → ((◌≡◌ {0} {A = ApplyAuthority} (if not e && u then issued else not_issued) issued)
            ↔ ((◌≡◌ {0} {A = Bool} e false) × (◌≡◌ {0} {A = Bool} u true)))
          × ((◌≡◌ {0} {A = ApplyAuthority} (if not e && u then issued else not_issued) issued)
              ↔ (◌≡◌ {0} {A = Decision} (if not e && u then allow else deny) allow))
          × ((◌≡◌ {0} {A = ApplyAuthority} (if not e && u then issued else not_issued) issued)
              ↔ (◌≡◌ {0} {A = Option (List String)} (if not e && u then none else some named) none))
    gates true u named = ((λ h. cc, λ h. cc), (λ h. cc, λ h. cc), (λ h. cc, λ h. cc))
    gates false true named =
        ((λ h. (refl, refl), λ h. refl), (λ h. refl, λ h. refl), (λ h. refl, λ h. refl))
    gates false false named = ((λ h. cc, λ h. cc), (λ h. cc, λ h. cc), (λ h. cc, λ h. cc))

-- The value that counts as the exit code 1: the number, or the truth value that equals it.
abbrev pub IsExitOne : Value → Type 0
IsExitOne v = (v ≡ int (pos 1)) ⊎ (v ≡ bool true)

required-lookup :
    (key : String) (d : Fields) (v : Value) → required key d ≡ ok v → lookup key d ≡ some v
required-lookup key d v h = found (lookup key d) h
  where
    found :
        (o : Option Value)
        → (elim o as (λ _. Result RedError Value) [
          | none ↦ err (field_missing key)
          | some w ↦ ok w
        ])
          ≡ ok v
        → o ≡ some v
    found none q = cc
    found (some w) q = ap some (ok-inj q)

exit_is_one-IsExitOne : (v : Value) → exit_is_one v ≡ ok true → IsExitOne v
exit_is_one-IsExitOne (int (pos n)) h = inl (ap (λ m. int (pos m)) (one (n == 1) refl (ok-inj h)))
  where
    one : (b : Bool) → n == 1 ≡ b → b ≡ true → n ≡ 1
    one b e t = ground arith
exit_is_one-IsExitOne (int (negsuc n)) h = cc
exit_is_one-IsExitOne (bool b) h = inr (ap bool (ok-inj h))
exit_is_one-IsExitOne _ h = cc

-- The RED flag is true only on evidence: the reference is a text that is not blank, what stands there
-- is a JSON object, its exit code is 1 (or the truth value that equals 1) and its flag for the
-- intended defect is `true` itself.
derive_red_qualification_from_evidence-IsExitOne :
    (load : String → Artifact) (ref : Value)
    → derive_red_qualification_from_evidence load ref ≡ ok true
    → (path : String) × (payload : Fields) × (code : Value) × (ref ≡ str path)
      × (is_blank path ≡ false)
      × (load path ≡ parsed (dict payload))
      × (lookup "exit_code" payload ≡ some code)
      × IsExitOne code
      × (lookup "failure_reason_matches_intended_defect" payload ≡ some (bool true))
unfolding derive_red_qualification_from_evidence
derive_red_qualification_from_evidence-IsExitOne load ref h =
    let (path, h_ref, h₁) = bind-ok (reference_text ref) _ true h in
    let (payload, h_load, h₂) = bind-ok (artifact_fields (load path)) _ true h₁ in
    let (code, h_code, h₃) = bind-ok (required "exit_code" payload) _ true h₂ in
    let (flag, h_flag, h₄) =
      bind-ok (required "failure_reason_matches_intended_defect" payload) _ true h₃ in
    let (is_one, h_one, h₅) = bind-ok (exit_is_one code) _ true h₄ in
    let (matched, h_matched, h₆) = bind-ok (matches_flag flag) _ true h₅ in
    let (one, match) = both is_one matched (ok-inj h₆) in
    let (same, visible) = reference ref path h_ref in
    (
      path,
      payload,
      code,
      same,
      visible,
      loaded (load path) payload h_load,
      required-lookup "exit_code" payload code h_code,
      exit_is_one-IsExitOne code (h_one ∙ ap ok one),
      required-lookup "failure_reason_matches_intended_defect" payload flag h_flag
          ∙ ap some (flagged flag (h_matched ∙ ap ok match)),
    )
  where
    both : (a b : Bool) → a && b ≡ true → (a ≡ true) × (b ≡ true)
    both true b e = (refl, e)
    both false b e = cc

    visible_text :
        (s p : String) (b : Bool)
        → is_blank s ≡ b
        → (if◌then◌else◌ {A = Result RedError String} b (err reference_not_text) (ok s)) ≡ ok p
        → (str s ≡ str p) × (is_blank p ≡ false)
    visible_text s p true f e = cc
    visible_text s p false f e = (ap str (ok-inj e), sym (ap is_blank (ok-inj e)) ∙ f)

    reference :
        (v : Value) (p : String) → reference_text v ≡ ok p → (v ≡ str p) × (is_blank p ≡ false)
    reference (str s) p e = visible_text s p (is_blank s) refl e
    reference _ p e = cc

    loaded : (a : Artifact) (d : Fields) → artifact_fields a ≡ ok d → a ≡ parsed (dict d)
    loaded missing d e = cc
    loaded unreadable d e = cc
    loaded (parsed (dict f)) d e = ap (λ t. parsed (dict t)) (ok-inj e)
    loaded (parsed _) d e = cc

    flagged : (v : Value) → matches_flag v ≡ ok true → v ≡ bool true
    flagged (bool b) e = ap bool (ok-inj e)
    flagged _ e = cc
