-- ===== src/Storage/Order.antt =====
-- The order in which runs are considered for deletion: the key `(c.eligible_timestamp, c.run_id)`
-- of the two sorts of storage/gc.py, which Python compares as tuples.
use synapx_harness.Prelude.{Bool, true, false, List, ◌&&◌, ◌||◌, str_eq, ◌≡◌, arith, eq_iff}
use synapx_harness.Prelude.{text_lt, text_lt_asymm, text_lt_irrefl}
use synapx_harness.Prelude.Sorting
use synapx_harness.Storage.Classifier.{ClassificationResult}

unfoldable pub key_lt : ClassificationResult → ClassificationResult → Bool
key_lt a b =
    text_lt a.eligible_timestamp b.eligible_timestamp
    || (str_eq a.eligible_timestamp b.eligible_timestamp && text_lt a.run_id b.run_id)

abbrev pub sort : List ClassificationResult → List ClassificationResult
sort = Sorting.sort key_lt

pub key_lt_asymm : (a b : ClassificationResult) → key_lt a b ≡ true → key_lt b a ≡ false
unfolding key_lt
key_lt_asymm a b h = ground (
  arith,
  eq_iff a.eligible_timestamp b.eligible_timestamp,
  eq_iff b.eligible_timestamp a.eligible_timestamp,
  text_lt_asymm a.eligible_timestamp b.eligible_timestamp,
  text_lt_irrefl a.eligible_timestamp,
  text_lt_asymm a.run_id b.run_id,
)
