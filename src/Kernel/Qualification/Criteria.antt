-- ===== src/Kernel/Qualification/Criteria.antt =====
-- The six criteria and the terminal decision that follows from them.
use synapx_harness.Prelude.{
  String, str_eq, Bool, true, false, if◌then◌else◌, Option, List, [], ◌∷◌, length, ◌≡◌, refl, sym,
  ◌∙◌, ap, eq_iff, ◌↔◌, ltb,
}
use synapx_harness.Prelude.Results.{Result, ok, err, ok-inj, bind-ok}
use synapx_harness.Values.{Value, Fields}
use synapx_harness.Kernel.Contracts.{
  VerificationResult, ValidationError, build_verification_result, TerminalDecisionRecord,
  empty_contract_id, completed, failed, blocked, pass, fail, valid, invalid,
}
use synapx_harness.Kernel.Terminal.{finalize}
use synapx_harness.Kernel.Terminal.Completion.{finalize_total, expected_decision}
use synapx_harness.Kernel.Qualification.{
  ResultIdentity, Blocker, red_ok, green_ok, regression_ok, write_ok, identity_ok, blockers_of,
  checked, result_of, contract_id, verify,
}

-- A record whose id has been tested is the one that is built.
kept :
    (b : Bool) (x r : VerificationResult)
    → str_eq x.work_contract_id "" ≡ b
    → checked (
        if◌then◌else◌ {A = Result ValidationError VerificationResult} b
          (err empty_contract_id)
          (ok x))
      ≡ ok r
    → (str_eq r.work_contract_id "" ≡ false) × (x ≡ r)
kept true x r e h = cc
kept false x r e h = (sym (ap (λ y. str_eq (y.work_contract_id) "") (ok-inj h)) ∙ e, ok-inj h)

-- What `result_of` builds: a decision COMPLETED follows exactly where nothing blocks.
result_of-ok :
    (id : String) (bs : List Blocker) (r : VerificationResult)
    → result_of id bs ≡ ok r
    → (str_eq r.work_contract_id "" ≡ false) × ((expected_decision r ≡ completed) ↔ (bs ≡ []))
unfolding result_of build_verification_result
result_of-ok id [] r h =
    let (filled, same) =
      kept (str_eq id "")
        (record {
          work_contract_id = id;
          verification_status = pass;
          evidence_status = valid;
          active_blocker_count = 0;
        })
        r refl h in
    (filled, (λ q. refl, λ q. ap expected_decision (sym same)))
result_of-ok id (b ∷ bs) r h =
    let (filled, same) =
      kept (str_eq id "")
        (record {
          work_contract_id = id;
          verification_status = fail;
          evidence_status = invalid;
          active_blocker_count = length (b ∷ bs);
        })
        r refl h in
    (
      filled,
      (λ q. elim (undone (ltb 0 (length (b ∷ bs))) (ap expected_decision same ∙ q)) [ ], λ q. cc),
    )
  where
    undone : (t : Bool) → (if t then blocked else failed) ≡ completed → ⊥
    undone true e = cc
    undone false e = cc

none_blocks :
    (a b c d e f : Bool)
    → (blockers_of a b c d e f ≡ [])
      ↔ ((a ≡ true) × (b ≡ true) × (c ≡ true) × (d ≡ true) × (e ≡ true) × (f ≡ true))
none_blocks a b c d e f =
    (λ h. all a b c d e f h, λ (ha, hb, hc, hd, he, hf). rw (ha, hb, hc, hd, he, hf) refl)
  where
    all :
        (a b c d e f : Bool)
        → blockers_of a b c d e f ≡ []
        → (a ≡ true) × (b ≡ true) × (c ≡ true) × (d ≡ true) × (e ≡ true) × (f ≡ true)
    all true true true true true true h = (refl, refl, refl, refl, refl, refl)
    all true true true true true false h = cc
    all true true true true false f h = cc
    all true true true false e f h = cc
    all true true false d e f h = cc
    all true false c d e f h = cc
    all false b c d e f h = cc

module _ (repr : Value → String) (read_json : String → Option Value) where
  -- The six criteria: the agent's status, the identity, RED, GREEN, the regression and the write path.
  abbrev pub AllSix : Fields → String → ResultIdentity → Type 0
  AllSix work_contract status identity =
      (status ≡ "DONE")
      × (identity_ok work_contract identity ≡ true)
      × (red_ok read_json ≡ ok true)
      × (green_ok read_json ≡ ok true)
      × (regression_ok read_json ≡ ok true)
      × (write_ok read_json ≡ ok true)

  -- A verification of the port is finalized as COMPLETED exactly where all six criteria hold: for every
  -- result that `verify` returns, `finalize` returns a decision on the same work contract, and the
  -- decision is COMPLETED if and only if the status is DONE, the identities agree, RED, GREEN and
  -- the regression qualify and the write path is exact.
  pub verify-finalize :
      (work_contract : Fields) (status : String) (identity : ResultIdentity)
      (r : VerificationResult)
      → verify repr read_json work_contract status identity ≡ ok r
      → (d : TerminalDecisionRecord) × (finalize r ≡ ok d)
        × (d.work_contract_id ≡ r.work_contract_id)
        × ((d.decision ≡ completed) ↔ AllSix work_contract status identity)
  unfolding verify
  verify-finalize work_contract status identity r h =
      let (red, h_red, h₁) = bind-ok (red_ok read_json) _ r h in
      let (green, h_green, h₂) = bind-ok (green_ok read_json) _ r h₁ in
      let (regression, h_regression, h₃) = bind-ok (regression_ok read_json) _ r h₂ in
      let (write, h_write, h₄) = bind-ok (write_ok read_json) _ r h₃ in
      let (filled, decides) =
        result_of-ok (contract_id repr read_json work_contract)
          (blockers_of (str_eq status "DONE") (identity_ok work_contract identity) red green
            regression write)
          r h₄ in
      let (d, finalized, same_id, expected) = finalize_total r filled in
      let blocks =
        none_blocks (str_eq status "DONE") (identity_ok work_contract identity) red green regression
          write in
      (
        d,
        finalized,
        same_id,
        (
          λ done.
              let (s, i, a, b, c, e) = blocks.0 (decides.0 (sym expected ∙ done)) in
              (
                (eq_iff status "DONE").0 s,
                i,
                h_red ∙ ap ok a,
                h_green ∙ ap ok b,
                h_regression ∙ ap ok c,
                h_write ∙ ap ok e,
              ),
          λ (s, i, a, b, c, e).
              expected
              ∙ decides.1 (
                  blocks.1 (
                    (eq_iff status "DONE").1 s,
                    i,
                    ok-inj (sym h_red ∙ a),
                    ok-inj (sym h_green ∙ b),
                    ok-inj (sym h_regression ∙ c),
                    ok-inj (sym h_write ∙ e),
                  )),
        ),
      )
