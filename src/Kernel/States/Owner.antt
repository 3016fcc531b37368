-- ===== src/Kernel/States/Owner.antt =====
-- References to states under a namespace.
use synapx_harness.Prelude.{
  String, ◌<>◌, str_eq, Bool, true, false, ◌||◌, List, [], ◌∷◌, if◌then◌else◌,
}
use synapx_harness.Prelude.{◌≡◌, refl, sym, ap, ◌∙◌, arith, eq_iff, Bool-cases, inl, inr}
use synapx_harness.Prelude.Nonempty.{append-nonempty}
use synapx_harness.Prelude.Results.{Result, ok, ◌>>◌, raise_if}
use Prim.Native.Char.{char}
use text.Mathlib.TextLemmas.{nil-append, cons-append}
use synapx_harness.Values.{str}
use synapx_harness.Kernel.States.{
  StateError, no_state_name, no_namespace, is_dot, has_dot, last_part, owners, resolve,
  resolve_state_reference,
}

-- A last part has no dot, and a text without a dot is its own last part.
last_part-no_dot : (s : String) → has_dot (last_part s) ≡ false
unfolding last_part has_dot
last_part-no_dot String.[] = refl
last_part-no_dot (String.◌∷◌ c s) = part (is_dot c || has_dot s) (last_part-no_dot s) refl
  where
    part :
        (b : Bool)
        → has_dot (last_part s) ≡ false
        → (is_dot c || has_dot s) ≡ b
        → has_dot (if b then last_part s else String.◌∷◌ c s) ≡ false
    part true h e = h
    part false h e = e

last_part-fixed : (s : String) → has_dot s ≡ false → last_part s ≡ s
unfolding last_part has_dot
last_part-fixed String.[] h = refl
last_part-fixed (String.◌∷◌ c s) h = rw h refl

dot-append : (t : String) → "." <> t ≡ String.◌∷◌ (char 46 tt) t
dot-append t = cons-append (char 46 tt) "" t ∙ ap (String.◌∷◌ (char 46 tt)) (nil-append t)

or-right : (a : Bool) {b : Bool} → b ≡ true → (a || b) ≡ true
or-right a h = ground arith

keep-rest : {A : Type 0} {b : Bool} (x y : A) → b ≡ true → (if b then x else y) ≡ x
keep-rest x y h = ground arith

has_dot-append : (s t : String) → has_dot (s <> ("." <> t)) ≡ true
unfolding has_dot
has_dot-append String.[] t = ap has_dot (nil-append ("." <> t) ∙ dot-append t)
has_dot-append (String.◌∷◌ c s) t =
    ap has_dot (cons-append c s ("." <> t)) ∙ or-right (is_dot c) (has_dot-append s t)

last_part-append : (s t : String) → last_part (s <> ("." <> t)) ≡ last_part t
unfolding last_part
last_part-append String.[] t = ap last_part (nil-append ("." <> t) ∙ dot-append t)
last_part-append (String.◌∷◌ c s) t =
    ap last_part (cons-append c s ("." <> t))
    ∙ (keep-rest _ (String.◌∷◌ c (s <> ("." <> t))) (or-right (is_dot c) (has_dot-append s t))
        ∙ last_part-append s t)

resolve-owner :
    (name namespace : String) (found : List String) (r : String)
    → resolve name namespace found ≡ ok r
    → (found ≡ namespace ∷ []) × (r ≡ namespace <> ("." <> name))
unfolding resolve
resolve-owner name namespace [] r h = cc
resolve-owner name namespace (owner ∷ []) r h = elim (Bool-cases (str_eq namespace owner)) [
  | inl e ↦ let same = (eq_iff namespace owner).0 e in (ap (λ z. z ∷ []) (sym same), ground arith)
  | inr e ↦ ground arith
]
resolve-owner name namespace (owner ∷ other ∷ more) r h = cc

named :
    (a b : Bool) {r : String} (m : Result StateError String)
    → (do raise_if a no_state_name; raise_if b no_namespace; m) ≡ ok r
    → (a ≡ false) × (b ≡ false) × (m ≡ ok r)
named a b m h = ground arith

unnamed :
    (a b : Bool) (m : Result StateError String)
    → a ≡ false
    → b ≡ false
    → (do raise_if a no_state_name; raise_if b no_namespace; m) ≡ m
unnamed a b m h k = ground arith

-- A reference resolves only in the one namespace that has its last part as a state, and to that
-- namespace, a dot and the last part. Resolving the outcome there again gives the same.
pub resolve_state_reference-owner :
    (state namespace r : String)
    → resolve_state_reference (str state) (str namespace) ≡ ok r
    → (owners (last_part state) ≡ namespace ∷ [])
      × (r ≡ namespace <> ("." <> last_part state))
      × (resolve_state_reference (str r) (str namespace) ≡ ok r)
unfolding resolve_state_reference
resolve_state_reference-owner state namespace r h =
    let (no_state, no_space, found) =
      named (str_eq state "") (str_eq namespace "")
        (resolve (last_part state) namespace (owners (last_part state))) h in
    let (owned, text) =
      resolve-owner (last_part state) namespace (owners (last_part state)) r found in
    (
      owned,
      text,
      unnamed (str_eq r "") (str_eq namespace "")
            (resolve (last_part r) namespace (owners (last_part r)))
            (ap (λ z. str_eq z "") text
              ∙ append-nonempty namespace ("." <> last_part state) no_space)
            no_space
          ∙ (ap (λ name. resolve name namespace (owners name))
                (ap last_part text
                  ∙ (last_part-append namespace (last_part state)
                      ∙ last_part-fixed (last_part state) (last_part-no_dot state)))
              ∙ found),
    )
