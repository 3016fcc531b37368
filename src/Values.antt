-- ===== src/Values.antt =====
-- The values that the kernel's dictionaries hold: what JSON can hold, less the floats, which the
-- modelled code never computes with. `repr` stands for Python's `str` on what is no text.
pub mod Equality
use synapx_harness.Prelude.{ℕ, zero, suc, String, str_eq, Bool, true, false, ◌&&◌, ◌||◌, not}
use synapx_harness.Prelude.{Option, none, some, if◌then◌else◌, ℤ, pos, negsuc, int_eq, ltb, ◌==◌}

mutual
  pub data Value : Type 0 where
    null : Value
    bool : Bool → Value
    int : ℤ → Value
    str : String → Value
    list : Items → Value
    dict : Fields → Value

  pub data Items : Type 0 where
    nil : Items
    cons : Value → Items → Items

  pub data Fields : Type 0 where
    end : Fields
    field : String → Value → Fields → Fields

-- `d.get(key)`, where a missing key and a `None` stay apart.
unfoldable pub lookup : String → Fields → Option Value
lookup key end = none
lookup key (field k v rest) = if str_eq key k then some v else lookup key rest

-- `d.get(key)`
abbrev pub get : String → Fields → Value
get key d = elim (lookup key d) [ none ↦ null | some v ↦ v ]

-- `key in d`
abbrev pub has_key : String → Fields → Bool
has_key key d = elim (lookup key d) [ none ↦ false | some _ ↦ true ]

-- `bool(v)`
abbrev pub truthy : Value → Bool
truthy null = false
truthy (bool b) = b
truthy (int z) = not (int_eq z (pos 0))
truthy (str s) = not (str_eq s "")
truthy (list nil) = false
truthy (list (cons _ _)) = true
truthy (dict end) = false
truthy (dict (field _ _ _)) = true

-- `a or b`
abbrev pub or_else : Value → Value → Value
or_else a b = if truthy a then a else b

-- `v == s` for a text `s`
abbrev pub is_text : Value → String → Bool
is_text (str s) t = str_eq s t
is_text _ t = false

-- `v is None`
abbrev pub is_null : Value → Bool
is_null null = true
is_null _ = false

module _ (repr : Value → String) where
  -- `str(v)`
  abbrev pub to_text : Value → String
  to_text (str s) = s
  to_text v = repr v
