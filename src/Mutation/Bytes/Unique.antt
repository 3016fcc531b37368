-- ===== src/Mutation/Bytes/Unique.antt =====
-- A text that occurs once: where it stands, and what `replace` makes of it.
use synapx_harness.Prelude.{ℕ, suc, Bool, true, false, [], ◌∷◌, ◌++◌}
use synapx_harness.Prelude.{if◌then◌else◌, ◌≡◌, refl, sym, ◌∙◌, ap, arith, length}
use synapx_harness.Mutation.Bytes.{Bytes, begins, skipped, count_from, count, replace_from, replace}

begins-split : (old xs : Bytes) → begins old xs ≡ true → (rest : Bytes) × (xs ≡ old ++ rest)
begins-split [] xs h = (xs, refl)
begins-split (o ∷ os) [] h = cc
begins-split (o ∷ os) (x ∷ xs) h =
    let (rest, e) = begins-split os xs (ground arith) in (rest, joined rest (ground arith) e)
  where
    joined : (rest : Bytes) → x ≡ o → xs ≡ os ++ rest → x ∷ xs ≡ o ∷ (os ++ rest)
    joined rest p e = cc

count_from-skip : (old p xs : Bytes) → count_from (length p) old (p ++ xs) ≡ count_from 0 old xs
unfolding count_from
count_from-skip old [] xs = refl
count_from-skip old (x ∷ p) xs = count_from-skip old p xs

replace_from-skip :
    (old new p xs : Bytes) → replace_from (length p) old new (p ++ xs) ≡ replace_from 0 old new xs
unfolding replace_from
replace_from-skip old new [] xs = refl
replace_from-skip old new (x ∷ p) xs = replace_from-skip old new p xs

absent-replace_from :
    (old new xs : Bytes) → count_from 0 old xs ≡ 0 → replace_from 0 old new xs ≡ xs
unfolding count_from replace_from
absent-replace_from old new [] h = refl
absent-replace_from old new (x ∷ xs) h =
    kept (begins old (x ∷ xs)) (absent-replace_from old new xs) h
  where
    kept :
        (b : Bool)
        → (count_from 0 old xs ≡ 0 → replace_from 0 old new xs ≡ xs)
        → (if b then suc (count_from (skipped b old) old xs) else count_from (skipped b old) old xs)
          ≡ 0
        → (if b
            then new ++ replace_from (skipped b old) old new xs
            else x ∷ replace_from (skipped b old) old new xs)
          ≡ x ∷ xs
    kept true rec e = cc
    kept false rec e = ap (λ t. x ∷ t) (rec e)

after_match :
    (o : ℕ) (os new : Bytes) (xs rest : Bytes)
    → xs ≡ os ++ rest
    → count_from (length os) (o ∷ os) xs ≡ 0
    → replace_from (length os) (o ∷ os) new xs ≡ rest
after_match o os new xs rest p e =
    ap (replace_from (length os) (o ∷ os) new) p
    ∙ (replace_from-skip (o ∷ os) new os rest
        ∙ absent-replace_from (o ∷ os) new rest (
            sym (count_from-skip (o ∷ os) os rest)
            ∙ (ap (count_from (length os) (o ∷ os)) (sym p) ∙ e)))

-- `old` stands in `xs` between a part before it and a part after it, and `replace` puts `new` in
-- its place.
abbrev pub Swapped : Bytes → Bytes → Bytes → Bytes → Type 0
Swapped old new xs changed =
    (before after : Bytes) × (xs ≡ before ++ (old ++ after)) × (changed ≡ before ++ (new ++ after))

-- A text that is not empty and that `count` finds once is the one that `replace` puts the other
-- text in the place of: all bytes before it and after it stay.
pub replace-Swapped :
    (o : ℕ) (os new xs : Bytes)
    → count (o ∷ os) xs ≡ 1
    → Swapped (o ∷ os) new xs (replace (o ∷ os) new xs)
unfolding count replace count_from replace_from
replace-Swapped o os new [] h = cc
replace-Swapped o os new (x ∷ xs) h =
    split (begins (o ∷ os) (x ∷ xs)) refl (replace-Swapped o os new xs) h
  where
    matched : (rest : Bytes) → xs ≡ os ++ rest → x ≡ o → x ∷ xs ≡ o ∷ (os ++ rest)
    matched rest p q = cc

    split :
        (b : Bool)
        → begins (o ∷ os) (x ∷ xs) ≡ b
        → (count_from 0 (o ∷ os) xs ≡ 1 → Swapped (o ∷ os) new xs (replace_from 0 (o ∷ os) new xs))
        → (if b
            then suc (count_from (skipped b (o ∷ os)) (o ∷ os) xs)
            else count_from (skipped b (o ∷ os)) (o ∷ os) xs)
          ≡ 1
        → Swapped (o ∷ os) new (x ∷ xs) (
            if b
            then new ++ replace_from (skipped b (o ∷ os)) (o ∷ os) new xs
            else x ∷ replace_from (skipped b (o ∷ os)) (o ∷ os) new xs)
    split true found rec e =
        let (rest, p) = begins-split os xs (ground arith) in
        (
          [],
          rest,
          matched rest p (ground arith),
          ap (λ t. new ++ t) (after_match o os new xs rest p (ground arith)),
        )
    split false found rec e =
        let (before, after, p, q) = rec e in
        (x ∷ before, after, ap (λ t. x ∷ t) p, ap (λ t. x ∷ t) q)
