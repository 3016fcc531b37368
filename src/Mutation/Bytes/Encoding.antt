-- ===== src/Mutation/Bytes/Encoding.antt =====
-- Texts and their bytes: what is empty and what differs.
use synapx_harness.Prelude.{
  String, str_eq, Bool, true, false, if◌then◌else◌, [], ◌∷◌, ◌++◌, ltb, ◌+◌, ◌/◌, ◌%◌, Bool-cases,
  inl, inr, ◌≡◌, refl, ◌∙◌, ap, arith, eq_iff,
}
use Prim.Native.Char.{code}
use synapx_harness.Mutation.Bytes.{Bytes, encode, utf8, same_bytes, is_no_bytes}

same_bytes_refl : (xs : Bytes) → same_bytes xs xs ≡ true
same_bytes_refl [] = refl
same_bytes_refl (x ∷ xs) = ground (arith, same_bytes_refl xs)

-- Texts whose bytes differ are different.
pub encode-differ : (s t : String) → same_bytes (encode s) (encode t) ≡ false → str_eq s t ≡ false
encode-differ s t h = elim (Bool-cases (str_eq s t)) [
  | inl e ↦
      clash (same_bytes_refl (encode s))
        (ap (λ u. same_bytes (encode s) (encode u)) ((eq_iff s t).0 e) ∙ h)
  | inr e ↦ e
]
  where
    clash : {b : Bool} → b ≡ true → b ≡ false → str_eq s t ≡ false
    clash t f = cc

-- A text that is not empty has bytes.
pub encode-nonempty : (s : String) → str_eq s "" ≡ false → is_no_bytes (encode s) ≡ false
unfolding encode utf8
encode-nonempty String.[] h = cc
encode-nonempty (String.◌∷◌ c s) h =
    first (ltb (code c) 128) (ltb (code c) 2048) (ltb (code c) 65536)
  where
    first :
        (a b d : Bool)
        → is_no_bytes (
            (if a
              then code c ∷ []
              else if b
              then (192 + code c / 64) ∷ (128 + code c % 64) ∷ []
              else if d
              then (224 + code c / 4096) ∷ (128 + (code c / 64) % 64) ∷ (128 + code c % 64) ∷ []
              else (240 + code c / 262144)
                ∷ (128 + (code c / 4096) % 64)
                ∷ (128 + (code c / 64) % 64)
                ∷ (128 + code c % 64)
                ∷ [])
            ++ encode s)
          ≡ false
    first true b d = refl
    first false true d = refl
    first false false true = refl
    first false false false = refl
