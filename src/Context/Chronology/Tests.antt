-- ===== src/Context/Chronology/Tests.antt =====
-- Two records in their order.
use synapx_harness.Prelude.{
  ℕ, String, str_eq, Bool, true, Option, none, some, List, [], ◌∷◌, ◌≡◌, ◌↔◌, if◌then◌else◌,
}
use synapx_harness.Prelude.Results.{ok}
use synapx_harness.Context.Chronology.{Record, Stamped, parse_all, find_chronology_inversions}
use synapx_harness.Context.Chronology.Ordered.{Ordered, find_chronology_inversions-Ordered}

-- Two of the texts are times.
abbrev two_times : String → Option (Bool × ℕ)
two_times value =
    if str_eq value "red"
    then some (true, 1)
    else if str_eq value "green"
    then some (true, 2)
    else none

abbrev some_records : List Record
some_records =
    record { name = "RED"; timestamp = "red" } ∷ record { name = "GREEN"; timestamp = "green" } ∷ []

find_chronology_inversions-Ordered_example :
    (find_chronology_inversions two_times some_records ≡ ok [])
    ↔ ((parsed : List Stamped) × (parse_all two_times some_records ≡ ok parsed) × Ordered parsed)
find_chronology_inversions-Ordered_example =
    find_chronology_inversions-Ordered two_times some_records
