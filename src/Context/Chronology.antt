-- ===== src/Context/Chronology.antt =====
-- context/evidence_meta.py: time stamps of evidence and their order. `fromisoformat` is
-- `datetime.fromisoformat`: none where the text is no time, and otherwise whether it has a time zone and
-- its instant, in microseconds of UTC.
pub mod Ordered
mod Tests
use synapx_harness.Prelude.{
  ℕ, String, Bool, true, false, not, any, has_part, ltb, leb, ◌+◌, Option, none, some, List, [],
  ◌∷◌, ◌++◌,
}
use synapx_harness.Prelude.Results.{Result, ok, err, ◌>>=◌, ◌>>◌, raise_if}
use synapx_harness.Evidence.Checks.{unless}
use synapx_harness.Kernel.Verification.{is_blank}

pub data TimestampError : Type 0 where
  empty_timestamp unparseable naive : TimestampError

-- One record of evidence: its name and its time stamp.
pub record Record : Type 0 where
  pub name : String
  pub timestamp : String

pub record Stamped : Type 0 where
  pub name : String
  pub instant : ℕ

-- A record and the one before it, which is later.
pub record Inversion : Type 0 where
  pub record_name : String
  pub previous_name : String

-- Five seconds.
abbrev pub future_slack : ℕ
future_slack = 5000000

abbrev pub placeholder_markers : List String
placeholder_markers =
    "YYYY-MM-DD" ∷ "TBD" ∷ "TODO" ∷ "REPLACE" ∷ "PLACEHOLDER" ∷ "__RECORDED_AT__" ∷ []

unfoldable pub has_placeholder : String → Bool
has_placeholder value = any (λ marker. has_part marker value) placeholder_markers

unfoldable pub inversions : List Stamped → List Inversion
inversions [] = []
inversions (x ∷ []) = []
inversions (x ∷ y ∷ rest) =
    unless (not (ltb y.instant x.instant)) (record { record_name = y.name; previous_name = x.name })
    ++ inversions (y ∷ rest)

module _ (fromisoformat : String → Option (Bool × ℕ)) where
  -- `parsed.tzinfo is None`, and the instant
  abbrev pub aware : Option (Bool × ℕ) → Result TimestampError ℕ
  aware none = err unparseable
  aware (some (false, instant)) = err naive
  aware (some (true, instant)) = ok instant

  unfoldable pub parse_timestamp : String → Result TimestampError ℕ
  parse_timestamp value = raise_if (is_blank value) empty_timestamp >> aware (fromisoformat value)

  unfoldable pub is_future_timestamp : String → ℕ → Result TimestampError Bool
  is_future_timestamp value reference =
      parse_timestamp value >>= λ instant. ok (ltb (reference + future_slack) instant)

  unfoldable pub parse_all : List Record → Result TimestampError (List Stamped)
  parse_all [] = ok []
  parse_all (r ∷ records) = do
    instant ← parse_timestamp r.timestamp
    later ← parse_all records
    ok (record { name = r.name; instant = instant } ∷ later)

  unfoldable pub find_chronology_inversions : List Record → Result TimestampError (List Inversion)
  find_chronology_inversions records = parse_all records >>= λ parsed. ok (inversions parsed)
