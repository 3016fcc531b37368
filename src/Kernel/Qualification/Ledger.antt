-- ===== src/Kernel/Qualification/Ledger.antt =====
-- What the criterion on the write path has compared.
use synapx_harness.Prelude.{
  Bool, true, false, ◌&&◌, not, Option, none, some, List, [], ◌∷◌, All, any, ◌≡◌, ap, arith, String,
}
use synapx_harness.Prelude.Results.{ok, ok-inj, bind-ok}
use synapx_harness.Values.{Value, null, dict, Fields}
use synapx_harness.Values.Equality.{value_eq}
use synapx_harness.Kernel.Qualification.{
  artifact, set_of, subset, is_empty, authorized_value, actual_value, ledger_fields, write_ok,
}

artifact-some : (o : Option Value) (d : Fields) → artifact o ≡ ok (some d) → o ≡ some (dict d)
artifact-some none d h = cc
artifact-some (some null) d h = cc
artifact-some (some (dict e)) d h = ap (λ t. some (dict t)) (inner (ok-inj h))
  where
    inner : {a b : Fields} → ◌≡◌ {0} {A = Option Fields} (some a) (some b) → a ≡ b
    inner q = cc
artifact-some (some _) d h = cc

subset-All :
    (vs ws : List Value) → subset vs ws ≡ true → All (λ v. any (λ w. value_eq v w) ws ≡ true) vs
subset-All [] ws h = tt
subset-All (v ∷ vs) ws h = (ground arith, subset-All vs ws (ground arith))

-- The write path qualifies only with a ledger: an object whose changed paths are not none and each of
-- which equals one of its authorized paths.
pub write_ok-ledger :
    (read_json : String → Option Value)
    → write_ok read_json ≡ ok true
    → (ledger : Fields) × (authorized actual : List Value) × (read_json
          "execution/write_ledger.json"
        ≡ some (dict ledger))
      × (set_of (authorized_value ledger) ≡ ok authorized)
      × (set_of (actual_value ledger) ≡ ok actual)
      × (is_empty actual ≡ false)
      × All (λ v. any (λ w. value_eq v w) authorized ≡ true) actual
unfolding write_ok
write_ok-ledger read_json h =
    let (o, read, h₁) = bind-ok (artifact (read_json "execution/write_ledger.json")) _ true h in
    from o read h₁
  where
    both : (a b : Bool) → a && not b ≡ true → (a ≡ true) × (b ≡ false)
    both a b q = ground arith

    from :
        (o : Option Fields)
        → artifact (read_json "execution/write_ledger.json") ≡ ok o
        → ledger_fields o ≡ ok true
        → (ledger : Fields) × (authorized actual : List Value) × (read_json
              "execution/write_ledger.json"
            ≡ some (dict ledger))
          × (set_of (authorized_value ledger) ≡ ok authorized)
          × (set_of (actual_value ledger) ≡ ok actual)
          × (is_empty actual ≡ false)
          × All (λ v. any (λ w. value_eq v w) authorized ≡ true) actual
    from none read q = cc
    from (some ledger) read q =
        let (authorized, h_authorized, q₁) = bind-ok (set_of (authorized_value ledger)) _ true q in
        let (actual, h_actual, q₂) = bind-ok (set_of (actual_value ledger)) _ true q₁ in
        let (inside, some_path) = both (subset actual authorized) (is_empty actual) (ok-inj q₂) in
        (
          ledger,
          authorized,
          actual,
          artifact-some (read_json "execution/write_ledger.json") ledger read,
          h_authorized,
          h_actual,
          some_path,
          subset-All actual authorized inside,
        )
