-- ===== src/Mutation/Paths/Declared.antt =====
-- The write set of a work contract, and the mutation paths that it allows.
use synapx_harness.Prelude.{
  String, is_member, Bool, true, false, not, if◌then◌else◌, Option, none, some, List, [], ◌∷◌, ◌++◌,
  All, ◌≡◌, ◌↔◌, ◌⊎◌, ◌||◌, inl, inr, sym, str_eq, eq_iff, refl, ◌∙◌, ap, arith,
}
use mathlib.Core.List.{Memᴰ}
use mathlib.Core.Path.{subst}
use synapx_harness.Prelude.Results.{Result, ok, err, ◌>>=◌, ok-inj, bind-ok, raise_if-ok}
use synapx_harness.Values.{Value, Items, Fields, get, truthy}
use synapx_harness.Mutation.Paths.{
  PathError, normalize_write_token_path, write_token, add_new, extract_from, extract_scope_writes,
  lift_path, texts, observe, AllowedPaths, is_empty, outside, scope_items, path_items,
  assert_mutation_paths_allowed,
}

-- A `write:` token of the scope whose path has the normal form `p`.
abbrev pub DeclaredIn : List String → String → Type 0
DeclaredIn scope p =
    (token raw : String) × Memᴰ token scope
    × (write_token token ≡ some raw)
    × (normalize_write_token_path raw ≡ ok p)

All-append : (P : String → Type 0) (xs ys : List String) → All P xs → All P ys → All P (xs ++ ys)
All-append P [] ys hx hy = hy
All-append P (x ∷ xs) ys (h, hx) hy = (h, All-append P xs ys hx hy)

add_new-All :
    (P : String → Type 0) (p : String) (seen : List String)
    → P p
    → All P seen
    → All P (add_new p seen)
add_new-All P p seen h hs = either (is_member p seen)
  where
    either : (b : Bool) → All P (if b then seen else seen ++ p ∷ [])
    either true = hs
    either false = All-append P seen (p ∷ []) hs (h, tt)

extract_from-DeclaredIn :
    (scope seen tokens declared : List String)
    → ((token : String) → Memᴰ token tokens → Memᴰ token scope)
    → All (DeclaredIn scope) seen
    → extract_from seen tokens ≡ ok declared
    → All (DeclaredIn scope) declared
unfolding extract_from
extract_from-DeclaredIn scope seen [] declared inside hs h =
    subst (All (DeclaredIn scope)) (ok-inj h) hs
extract_from-DeclaredIn scope seen (token ∷ tokens) declared inside hs h =
    step (write_token token) refl h
      (λ seen'. extract_from-DeclaredIn scope seen' tokens declared (λ t m. inside t (Memᴰ.tail m)))
  where
    step :
        (o : Option String)
        → write_token token ≡ o
        → (elim o [
          | none ↦ extract_from seen tokens
          | some raw ↦ normalize_write_token_path raw >>= λ p. extract_from (add_new p seen) tokens
        ])
          ≡ ok declared
        → ((seen' : List String)
            → All (DeclaredIn scope) seen'
            → extract_from seen' tokens ≡ ok declared
            → All (DeclaredIn scope) declared)
        → All (DeclaredIn scope) declared
    step none e q rec = rec seen hs q
    step (some raw) e q rec =
        let (p, normal, rest) = bind-ok (normalize_write_token_path raw) _ declared q in
        rec (add_new p seen)
          (add_new-All (DeclaredIn scope) p seen
            (token, raw, inside token (Memᴰ.head refl), e, normal) hs)
          rest

-- Every path of the write set that a scope gives is the normal form of the path of a `write:` token
-- that stands in the scope.
pub extract_scope_writes-DeclaredIn :
    (scope declared : List String)
    → extract_scope_writes scope ≡ ok declared
    → All (DeclaredIn scope) declared
unfolding extract_scope_writes
extract_scope_writes-DeclaredIn scope declared h =
    extract_from-DeclaredIn scope [] scope declared (λ t m. m) tt h

is_member-split :
    (p q : String) (qs : List String)
    → is_member p (q ∷ qs) ≡ true
    → (p ≡ q) ⊎ (is_member p qs ≡ true)
is_member-split p q qs h = either (str_eq p q) refl h
  where
    either :
        (b : Bool)
        → str_eq p q ≡ b
        → (b || is_member p qs) ≡ true
        → (p ≡ q) ⊎ (is_member p qs ≡ true)
    either true e k = inl ((eq_iff p q).0 e)
    either false e k = inr k

All-is_member :
    (P : String → Type 0) (p : String) (xs : List String) → All P xs → is_member p xs ≡ true → P p
All-is_member P p [] hs m = cc
All-is_member P p (x ∷ xs) (h, hs) m = elim (is_member-split p x xs m) [
  | inl e ↦ subst P (sym e) h
  | inr k ↦ All-is_member P p xs hs k
]

is_member-append :
    (p q : String) (xs : List String)
    → (is_member p xs ≡ true) ⊎ (p ≡ q)
    → is_member p (xs ++ q ∷ []) ≡ true
is_member-append p q [] (inl h) = cc
is_member-append p q [] (inr e) = rw ((eq_iff p q).1 e) refl
is_member-append p q (x ∷ xs) h = either (str_eq p x) refl h (is_member-append p q xs)
  where
    either :
        (b : Bool)
        → str_eq p x ≡ b
        → ((str_eq p x || is_member p xs) ≡ true) ⊎ (p ≡ q)
        → ((is_member p xs ≡ true) ⊎ (p ≡ q) → is_member p (xs ++ q ∷ []) ≡ true)
        → (str_eq p x || is_member p (xs ++ q ∷ [])) ≡ true
    either true e k rec = rw e refl
    either false e (inl k) rec = rw e (rec (inl (sym (ap (λ b. b || is_member p xs) e) ∙ k)))
    either false e (inr k) rec = rw e (rec (inr k))

-- `add_new` keeps every path and has the new one.
add_new-is_member :
    (p q : String) (seen : List String)
    → (is_member p seen ≡ true) ⊎ (p ≡ q)
    → is_member p (add_new q seen) ≡ true
add_new-is_member p q seen h = either (is_member q seen) refl h
  where
    either :
        (b : Bool)
        → is_member q seen ≡ b
        → (is_member p seen ≡ true) ⊎ (p ≡ q)
        → is_member p (if b then seen else seen ++ q ∷ []) ≡ true
    either true e (inl k) = k
    either true e (inr k) = ap (λ t. is_member t seen) k ∙ e
    either false e k = is_member-append p q seen k

some-inj : {a b : String} → ◌≡◌ {0} {A = Option String} (some a) (some b) → a ≡ b
some-inj h = cc

extract_from-is_member :
    (p : String) (seen tokens declared : List String)
    → extract_from seen tokens ≡ ok declared
    → (is_member p seen ≡ true) ⊎ DeclaredIn tokens p
    → is_member p declared ≡ true
unfolding extract_from
extract_from-is_member p seen [] declared h (inl m) = ap (is_member p) (sym (ok-inj h)) ∙ m
extract_from-is_member p seen [] declared h (inr (token, raw, m, w, n)) = elim m [ ]
extract_from-is_member p seen (token ∷ tokens) declared h m =
    step (write_token token) refl h m (λ seen'. extract_from-is_member p seen' tokens declared)
  where
    -- The first token declares what it declares, and the others what they do.
    here :
        (o : Option String)
        → write_token token ≡ o
        → DeclaredIn (token ∷ tokens) p
        → ((raw : String) × (o ≡ some raw) × (normalize_write_token_path raw ≡ ok p))
          ⊎ DeclaredIn tokens p
    here o e (t, raw, Memᴰ.head q, w, n) = inl (raw, sym e ∙ (ap write_token (sym q) ∙ w), n)
    here o e (t, raw, Memᴰ.tail k, w, n) = inr (t, raw, k, w, n)

    step :
        (o : Option String)
        → write_token token ≡ o
        → (elim o [
          | none ↦ extract_from seen tokens
          | some raw ↦ normalize_write_token_path raw >>= λ p. extract_from (add_new p seen) tokens
        ])
          ≡ ok declared
        → (is_member p seen ≡ true) ⊎ DeclaredIn (token ∷ tokens) p
        → ((seen' : List String)
            → extract_from seen' tokens ≡ ok declared
            → (is_member p seen' ≡ true) ⊎ DeclaredIn tokens p
            → is_member p declared ≡ true)
        → is_member p declared ≡ true
    step none e q (inl k) rec = rec seen q (inl k)
    step none e q (inr d) rec = elim (here none e d) [
      | inl (raw, absent, _) ↦ cc
      | inr later ↦ rec seen q (inr later)
    ]
    step (some raw) e q (inl k) rec =
        let (r, normal, rest) = bind-ok (normalize_write_token_path raw) _ declared q in
        rec (add_new r seen) rest (inl (add_new-is_member p r seen (inl k)))
    step (some raw) e q (inr d) rec =
        let (r, normal, rest) = bind-ok (normalize_write_token_path raw) _ declared q in
        elim (here (some raw) e d) [
          | inl (raw', same, n) ↦ rec (add_new r seen) rest (
              inl (
                add_new-is_member p r seen (
                  inr (
                    ok-inj
                      (sym n ∙ (ap normalize_write_token_path (sym (some-inj same)) ∙ normal))))))
          | inr later ↦ rec (add_new r seen) rest (inr later)
        ]

-- The write set of a scope has exactly the normal forms of the paths of its `write:` tokens.
pub extract_scope_writes_iff :
    (scope declared : List String) (p : String)
    → extract_scope_writes scope ≡ ok declared
    → (is_member p declared ≡ true) ↔ DeclaredIn scope p
unfolding extract_scope_writes
extract_scope_writes_iff scope declared p h = (
  All-is_member (DeclaredIn scope) p declared (extract_scope_writes-DeclaredIn scope declared h),
  λ d. extract_from-is_member p [] scope declared h (inr d),
)

-- `lift_path` keeps a value.
lift_path-ok : {A : Type 0} (m : Result PathError A) (a : A) → lift_path m ≡ ok a → m ≡ ok a
lift_path-ok (ok b) a h = ap ok (ok-inj h)
lift_path-ok (err e) a h = cc

outside-All :
    (declared observed : List String)
    → is_empty (outside declared observed) ≡ true
    → All (λ p. is_member p declared ≡ true) observed
outside-All declared [] h = tt
outside-All declared (p ∷ ps) h = step (is_member p declared) refl h (outside-All declared ps)
  where
    step :
        (b : Bool)
        → is_member p declared ≡ b
        → is_empty (if not b then p ∷ outside declared ps else outside declared ps) ≡ true
        → (is_empty (outside declared ps) ≡ true → All (λ q. is_member q declared ≡ true) ps)
        → (is_member p declared ≡ true) × All (λ q. is_member q declared ≡ true) ps
    step true e q rec = (e, rec q)
    step false e q rec = cc

negated : (b : Bool) → not b ≡ false → b ≡ true
negated b h = ground arith

-- A check that passes has a work contract with an id and a scope. The write set that it returns is
-- not empty, and a path is a member of it exactly where it is the normal form of the path of a
-- `write:` token of the scope. The observed paths are the normal forms of the mutation paths, each a
-- member of the write set.
pub assert_mutation_paths_allowed-declared :
    (work_contract : Option Fields) (mutation_paths : Value) (r : AllowedPaths) (path : String)
    → assert_mutation_paths_allowed work_contract mutation_paths ≡ ok r
    → (payload : Fields) × (scope paths : Items) × (work_contract ≡ some payload)
      × (truthy (get "work_contract_id" payload) ≡ true)
      × (scope_items (get "scope" payload) ≡ ok scope)
      × (path_items mutation_paths ≡ ok paths)
      × (observe paths ≡ ok r.observed_mutation_paths)
      × (is_empty r.declared_write_set ≡ false)
      × ((is_member path r.declared_write_set ≡ true) ↔ DeclaredIn (texts scope) path)
      × All (λ p. is_member p r.declared_write_set ≡ true) r.observed_mutation_paths
unfolding assert_mutation_paths_allowed
assert_mutation_paths_allowed-declared none mutation_paths r path h = cc
assert_mutation_paths_allowed-declared (some payload) mutation_paths r path h =
    let (has_id, h₁) = raise_if-ok (not (truthy (get "work_contract_id" payload))) _ _ r h in
    let (scope, hs, h₂) = bind-ok (scope_items (get "scope" payload)) _ r h₁ in
    let (declared, hd, h₃) = bind-ok (lift_path (extract_scope_writes (texts scope))) _ r h₂ in
    let (nonempty, h₄) = raise_if-ok (is_empty declared) _ _ r h₃ in
    let (paths, hp, h₅) = bind-ok (path_items mutation_paths) _ r h₄ in
    let (observed, ho, h₆) = bind-ok (lift_path (observe paths)) _ r h₅ in
    let (none_outside, h₇) = raise_if-ok (not (is_empty (outside declared observed))) _ _ r h₆ in
    let q = ok-inj h₇ in
    (
      payload,
      scope,
      paths,
      refl,
      negated (truthy (get "work_contract_id" payload)) has_id,
      hs,
      hp,
      lift_path-ok (observe paths) observed ho ∙ ap (λ a. ok (a.observed_mutation_paths)) q,
      subst (λ a. is_empty (a.declared_write_set) ≡ false) q nonempty,
      subst (λ a. (is_member path (a.declared_write_set) ≡ true) ↔ DeclaredIn (texts scope) path) q
          (extract_scope_writes_iff (texts scope) declared path
            (lift_path-ok (extract_scope_writes (texts scope)) declared hd)),
      subst (λ a. All (λ p. is_member p (a.declared_write_set) ≡ true) (a.observed_mutation_paths))
          q
          (outside-All declared observed
            (negated (is_empty (outside declared observed)) none_outside)),
    )
