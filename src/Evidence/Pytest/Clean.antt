-- ===== src/Evidence/Pytest/Clean.antt =====
-- What a valid summary says of its run.
use synapx_harness.Prelude.{
  ℕ, suc, String, Bool, true, ◌&&◌, Option, none, some, [], ◌∷◌, ◌++◌, ℤ, pos, negsuc, int_eq,
  is_positive, ◌+ℤ◌, ◌≡◌, refl, ap, sym, ◌∙◌, arith,
}
use synapx_harness.Values.{Value, str, Fields, get}
use synapx_harness.Evidence.Checks.{
  number, holds, is_natural, unless, none_left, none_left-++, none_left-unless,
}
use synapx_harness.Evidence.Receipt.{is_gate}
use synapx_harness.Evidence.Pytest.{
  SummaryViolation, or_zero, agrees, agree, total, count_violations, log_violations,
  hash_violations, is_valid_verification_summary, gate_invalid,
}
use synapx_harness.Mutation.Bytes.{Bytes}

-- The tests on the counts, as one.
abbrev counts_ok : Option ℤ → Option ℤ → Option ℤ → Option ℤ → Option ℤ → Option ℤ → Bool
counts_ok c x p f e s =
    holds is_positive c
    && (holds is_natural x
        && (holds (λ _. true) p
            && (holds (λ _. true) f
                && (holds (λ _. true) e
                    && (holds (λ _. true) s
                        && (int_eq (total p f e s) (or_zero c)
                            && (agree x c
                                && (agrees (pos 0) f
                                    && (agrees (pos 0) e && agrees (pos 0) s)))))))))

count_violations-ok :
    (c x p f e s : Option ℤ) → none_left (count_violations c x p f e s) ≡ counts_ok c x p f e s
unfolding count_violations
count_violations-ok c x p f e s = simp (none_left-++, none_left-unless)

-- The counts of a run in which every collected test has passed.
abbrev pub AllPassed : Option ℤ → Option ℤ → Option ℤ → Option ℤ → Option ℤ → Option ℤ → Type 0
AllPassed c x p f e s =
    (n : ℕ) × (c ≡ some (pos (suc n)))
    × (x ≡ some (pos (suc n)))
    × (p ≡ some (pos (suc n)))
    × (f ≡ some (pos 0))
    × (e ≡ some (pos 0))
    × (s ≡ some (pos 0))

and_true : (a b : Bool) → (a && b) ≡ true → (a ≡ true) × (b ≡ true)
and_true a b h = ground arith

int_eq-true : (y z : ℤ) → int_eq y z ≡ true → y ≡ z
int_eq-true (pos a) (pos b) h = ap pos (ground arith)
int_eq-true (negsuc a) (negsuc b) h = ap negsuc (ground arith)
int_eq-true (pos a) (negsuc b) h = cc
int_eq-true (negsuc a) (pos b) h = cc

plus_zero : (z : ℤ) → z +ℤ pos 0 ≡ z
plus_zero (pos a) = ap pos (omega arith)
plus_zero (negsuc a) = ground arith

zero_of : (o : Option ℤ) → holds (λ _. true) o ≡ true → agrees (pos 0) o ≡ true → o ≡ some (pos 0)
zero_of none h k = cc
zero_of (some z) h k = ap some (int_eq-true z (pos 0) k)

positive_of : (o : Option ℤ) → holds is_positive o ≡ true → (n : ℕ) × (o ≡ some (pos (suc n)))
positive_of none h = cc
positive_of (some (pos ℕ.zero)) h = cc
positive_of (some (pos (suc n))) h = (n, refl)
positive_of (some (negsuc n)) h = cc

total-zero : (z : ℤ) → total (some z) (some (pos 0)) (some (pos 0)) (some (pos 0)) ≡ z
total-zero z = rw (plus_zero z, plus_zero z, plus_zero z) refl

passed_of :
    (p : Option ℤ) (y : ℤ)
    → holds (λ _. true) p ≡ true
    → int_eq (total p (some (pos 0)) (some (pos 0)) (some (pos 0))) y ≡ true
    → p ≡ some y
passed_of none y h k = cc
passed_of (some z) y h k = ap some (
    sym (total-zero z)
    ∙ int_eq-true (total (some z) (some (pos 0)) (some (pos 0)) (some (pos 0))) y k)

executed_of :
    (x : Option ℤ) (y : ℤ) → holds is_natural x ≡ true → agree x (some y) ≡ true → x ≡ some y
executed_of none y h k = cc
executed_of (some z) y h k = ap some (int_eq-true z y k)

counts_ok-AllPassed :
    (c x p f e s : Option ℤ) → counts_ok c x p f e s ≡ true → AllPassed c x p f e s
counts_ok-AllPassed c x p f e s h =
    let (hc, h₁) = and_true (holds is_positive c) _ h in
    let (hx, h₂) = and_true (holds is_natural x) _ h₁ in
    let (hp, h₃) = and_true (holds (λ _. true) p) _ h₂ in
    let (hf, h₄) = and_true (holds (λ _. true) f) _ h₃ in
    let (he, h₅) = and_true (holds (λ _. true) e) _ h₄ in
    let (hs, h₆) = and_true (holds (λ _. true) s) _ h₅ in
    let (ht, h₇) = and_true (int_eq (total p f e s) (or_zero c)) _ h₆ in
    let (ha, h₈) = and_true (agree x c) _ h₇ in
    let (zf, h₉) = and_true (agrees (pos 0) f) _ h₈ in
    let (ze, zs) = and_true (agrees (pos 0) e) (agrees (pos 0) s) h₉ in
    let (n, nc) = positive_of c hc in
    let f₀ = zero_of f hf zf in
    let e₀ = zero_of e he ze in
    let s₀ = zero_of s hs zs in
    (
      n,
      nc,
      executed_of x (pos (suc n)) hx (sym (ap (agree x) nc) ∙ ha),
      passed_of p (pos (suc n)) hp (sums c f e s nc f₀ e₀ s₀ ht),
      f₀,
      e₀,
      s₀,
    )
  where
    sums :
        (c f e s : Option ℤ) {n : ℕ}
        → c ≡ some (pos (suc n))
        → f ≡ some (pos 0)
        → e ≡ some (pos 0)
        → s ≡ some (pos 0)
        → int_eq (total p f e s) (or_zero c) ≡ true
        → int_eq (total p (some (pos 0)) (some (pos 0)) (some (pos 0))) (pos (suc n)) ≡ true
    sums c f e s {n} qc qf qe qs t =
        sym (ap (λ o. int_eq (total p o (some (pos 0)) (some (pos 0))) (pos (suc n))) qf)
        ∙ (sym (ap (λ o. int_eq (total p f o (some (pos 0))) (pos (suc n))) qe)
            ∙ (sym (ap (λ o. int_eq (total p f e o) (pos (suc n))) qs)
                ∙ (sym (ap (λ o. int_eq (total p f e s) (or_zero o)) qc) ∙ t)))

module _ (digest : Bytes → String) (read_bytes : String → Option Bytes) where
  -- A log that passes: a path, a file there and, where a hash is stated, that of the file's content.
  abbrev pub BoundLog : Fields → Type 0
  BoundLog d =
      (path : String) × (content : Bytes) × (get "pytest_log_path" d ≡ str path)
      × (read_bytes path ≡ some content)
      × (none_left (hash_violations digest read_bytes (get "pytest_log_sha256" d) content) ≡ true)

  log_violations-BoundLog :
      (d : Fields) → none_left (log_violations digest read_bytes d) ≡ true → BoundLog d
  unfolding log_violations
  log_violations-BoundLog d h = by_path (get "pytest_log_path" d) refl h
    where
      by_content :
          (path : String) (o : Option Bytes)
          → get "pytest_log_path" d ≡ str path
          → read_bytes path ≡ o
          → none_left (elim o [
            | none ↦ SummaryViolation.log_missing ∷ []
            | some content ↦ hash_violations digest read_bytes (get "pytest_log_sha256" d) content
          ])
            ≡ true
          → BoundLog d
      by_content path none p q k = cc
      by_content path (some content) p q k = (path, content, p, q, k)

      by_path :
          (v : Value)
          → get "pytest_log_path" d ≡ v
          → none_left (elim v [
            | str path ↦ elim (read_bytes path) [
              | none ↦ SummaryViolation.log_missing ∷ []
              | some content ↦ hash_violations digest read_bytes (get "pytest_log_sha256" d) content
            ]
            | _ ↦ SummaryViolation.log_path_not_text ∷ []
          ])
            ≡ true
          → BoundLog d
      by_path (str path) p k = by_content path (read_bytes path) p refl k
      by_path _ p k = cc

  -- A summary without a violation is about a log file that exists and has the stated hash, where a hash
  -- is stated; at least one test was collected, each collected test was executed and passed, none
  -- failed, was in error or was skipped, and the gate is PASS or FAIL.
  pub is_valid_verification_summary-AllPassed :
      (d : Fields)
      → (is_valid_verification_summary digest read_bytes d).0 ≡ true
      → BoundLog d
        × AllPassed
            (number (get "collected" d))
            (number (get "executed" d))
            (number (get "passed" d))
            (number (get "failed" d))
            (number (get "errors" d))
            (number (get "skipped" d))
        × (is_gate (get "gate" d) ≡ true)
  unfolding is_valid_verification_summary
  is_valid_verification_summary-AllPassed d h =
      let counts =
        count_violations (number (get "collected" d)) (number (get "executed" d))
          (number (get "passed" d)) (number (get "failed" d)) (number (get "errors" d))
          (number (get "skipped" d)) in
      let gate = unless (is_gate (get "gate" d)) gate_invalid in
      let (log, rest) =
        and_true (none_left (log_violations digest read_bytes d)) (none_left (counts ++ gate))
          (sym (none_left-++ (log_violations digest read_bytes d) (counts ++ gate)) ∙ h) in
      let (fine, gated) =
        and_true (none_left counts) (none_left gate) (sym (none_left-++ counts gate) ∙ rest) in
      (
        log_violations-BoundLog d log,
        counts_ok-AllPassed (number (get "collected" d)) (number (get "executed" d))
            (number (get "passed" d)) (number (get "failed" d)) (number (get "errors" d))
            (number (get "skipped" d))
            (sym (
                count_violations-ok (number (get "collected" d)) (number (get "executed" d))
                  (number (get "passed" d)) (number (get "failed" d)) (number (get "errors" d))
                  (number (get "skipped" d)))
              ∙ fine),
        sym (none_left-unless (is_gate (get "gate" d)) gate_invalid) ∙ gated,
      )
