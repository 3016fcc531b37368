-- ===== src/Context/Chronology/Ordered.antt =====
-- What it means that there is no inversion.
use synapx_harness.Prelude.{
  ℕ, String, Bool, true, false, not, ltb, ◌≤◌, Option, List, [], ◌∷◌, ◌++◌, All, ◌≡◌, ◌↔◌, refl,
  arith,
}
use synapx_harness.Prelude.Results.{ok, ok-inj, bind-ok}
use synapx_harness.Evidence.Checks.{unless}
use synapx_harness.Context.Chronology.{
  Record, Stamped, Inversion, inversions, parse_all, find_chronology_inversions,
}

-- No record is earlier than any record before it.
abbrev pub Ordered : List Stamped → Type 0
Ordered [] = Unit
Ordered (x ∷ xs) = All (λ y. x.instant ≤ y.instant) xs × Ordered xs

All-later :
    (n m : ℕ) (xs : List Stamped)
    → n ≤ m
    → All (λ y. m ≤ y.instant) xs
    → All (λ y. n ≤ y.instant) xs
All-later n m [] h k = tt
All-later n m (x ∷ xs) h (first, later) = (omega arith, All-later n m xs h later)

step :
    (b : Bool) (v : Inversion) (vs : List Inversion)
    → unless b v ++ vs ≡ []
    → (b ≡ true) × (vs ≡ [])
step true v vs h = (refl, h)
step false v vs h = cc

inversions-Ordered : (xs : List Stamped) → inversions xs ≡ [] → Ordered xs
unfolding inversions
inversions-Ordered [] h = tt
inversions-Ordered (x ∷ []) h = (tt, tt)
inversions-Ordered (x ∷ y ∷ rest) h =
    let (kept, later) = step (not (ltb y.instant x.instant)) _ (inversions (y ∷ rest)) h in
    let (after, ordered) = inversions-Ordered (y ∷ rest) later in
    let le = at_most x.instant y.instant kept in
    ((le, All-later x.instant y.instant rest le after), (after, ordered))
  where
    at_most : (n m : ℕ) → not (ltb m n) ≡ true → n ≤ m
    at_most n m q = ground arith

Ordered-inversions : (xs : List Stamped) → Ordered xs → inversions xs ≡ []
unfolding inversions
Ordered-inversions [] h = refl
Ordered-inversions (x ∷ []) h = refl
Ordered-inversions (x ∷ y ∷ rest) ((le, _), ordered) =
    rw (kept x.instant y.instant le, Ordered-inversions (y ∷ rest) ordered) refl
  where
    kept : (n m : ℕ) → n ≤ m → ltb m n ≡ false
    kept n m q = ground arith

module _ (fromisoformat : String → Option (Bool × ℕ)) where
  -- Neighbouring records are enough: no inversion is found exactly where every time stamp is read and
  -- no record is earlier than any of the records before it.
  pub find_chronology_inversions-Ordered :
      (records : List Record)
      → (find_chronology_inversions fromisoformat records ≡ ok [])
        ↔ ((parsed : List Stamped) × (parse_all fromisoformat records ≡ ok parsed) × Ordered parsed)
  unfolding find_chronology_inversions
  find_chronology_inversions-Ordered records = (
    λ h.
        let (parsed, read, q) = bind-ok (parse_all fromisoformat records) _ [] h in
        (parsed, read, inversions-Ordered parsed (ok-inj q)),
    λ (parsed, read, ordered). rw (read, Ordered-inversions parsed ordered) refl,
  )
