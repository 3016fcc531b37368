-- ===== src/Values/Equality.antt =====
-- `==` on values: `True` is 1, lists are compared item by item, and dictionaries by their keys,
-- whatever the order.
use synapx_harness.Prelude.{ℕ, suc, str_eq, Bool, true, false, ◌&&◌, ℤ, pos, int_eq}
use synapx_harness.Prelude.{none, some, ◌==◌}
use synapx_harness.Values.{
  Value, null, bool, int, str, list, dict, Items, nil, cons, Fields, end, field, lookup,
}

abbrev pub count_fields : Fields → ℕ
count_fields end = 0
count_fields (field _ _ rest) = suc (count_fields rest)

-- A number's value, where a truth value counts as one.
abbrev bit : Bool → ℤ
bit true = pos 1
bit false = pos 0

unfoldable mutual
  pub value_eq : Value → Value → Bool
  value_eq null null = true
  value_eq (bool a) (bool b) = int_eq (bit a) (bit b)
  value_eq (bool a) (int z) = int_eq (bit a) z
  value_eq (int z) (bool b) = int_eq z (bit b)
  value_eq (int y) (int z) = int_eq y z
  value_eq (str s) (str t) = str_eq s t
  value_eq (list xs) (list ys) = items_eq xs ys
  value_eq (dict d) (dict e) = (count_fields d == count_fields e) && fields_within d e
  value_eq _ _ = false

  pub items_eq : Items → Items → Bool
  items_eq nil nil = true
  items_eq (cons x xs) (cons y ys) = value_eq x y && items_eq xs ys
  items_eq _ _ = false

  -- Each field stands in the other dictionary, with an equal value.
  pub fields_within : Fields → Fields → Bool
  fields_within end e = true
  fields_within (field k v rest) e =
      (elim (lookup k e) [ none ↦ false | some w ↦ value_eq v w ]) && fields_within rest e
