-- ===== src/Storage/Plan/Quota.antt =====
-- The selection under quota pressure: the shortest prefix, oldest first, that frees enough.
use synapx_harness.Prelude.{ℕ, ◌+◌, ◌≤◌, ◌<◌, ◌≡◌, refl, ◌⊎◌, inr}
use synapx_harness.Prelude.{List, [], ◌∷◌, ◌++◌, sum_by, arith, leb, if◌then◌else◌}
use synapx_harness.Storage.Classifier.{ClassificationResult}
use synapx_harness.Storage.Plan.{size, select_loop, sort_candidates, select}

-- The rest that the loop leaves.
pub leftover : ℕ → ℕ → List ClassificationResult → List ClassificationResult
leftover over_by freed [] = []
leftover over_by freed (c ∷ cs) =
    let rest = leftover over_by (freed + c.size_bytes) cs in
    if leb over_by freed then c ∷ cs else rest

pub select_loop-append-leftover :
    (over_by freed : ℕ) (cs : List ClassificationResult)
    → select_loop over_by freed cs ++ leftover over_by freed cs ≡ cs
unfolding select_loop leftover
select_loop-append-leftover over_by freed [] = refl
select_loop-append-leftover over_by freed (c ∷ cs) =
    ground (arith, select_loop-append-leftover over_by (freed + c.size_bytes) cs)

-- Enough is freed, or nothing is left over.
pub select_loop-enough :
    (over_by freed : ℕ) (cs : List ClassificationResult)
    → (over_by ≤ freed + sum_by size (select_loop over_by freed cs))
      ⊎ (leftover over_by freed cs ≡ [])
unfolding select_loop leftover
select_loop-enough over_by freed [] = inr refl
select_loop-enough over_by freed (c ∷ cs) =
    ground (arith, select_loop-enough over_by (freed + c.size_bytes) cs)

select_loop_at_limit :
    (over_by freed : ℕ) (cs : List ClassificationResult)
    → over_by ≤ freed
    → select_loop over_by freed cs ≡ []
unfolding select_loop
select_loop_at_limit over_by freed [] h = refl
select_loop_at_limit over_by freed (c ∷ cs) h = ground arith

abbrev pub all_but_last : List ClassificationResult → List ClassificationResult
all_but_last [] = []
all_but_last (c ∷ []) = []
all_but_last (c ∷ d ∷ ds) = c ∷ all_but_last (d ∷ ds)

sum_by-all_but_last_cons :
    (c : ClassificationResult) (ds : List ClassificationResult) (bound freed : ℕ)
    → freed < bound
    → (ds ≡ []) ⊎ (freed + c.size_bytes + sum_by size (all_but_last ds) < bound)
    → freed + sum_by size (all_but_last (c ∷ ds)) < bound
sum_by-all_but_last_cons c [] bound freed h split = omega arith
sum_by-all_but_last_cons c (d ∷ ds) bound freed h split = ground arith

-- Without the last run that is selected too little would be freed.
pub select_loop-minimal :
    (over_by freed : ℕ) (cs : List ClassificationResult)
    → freed < over_by
    → freed + sum_by size (all_but_last (select_loop over_by freed cs)) < over_by
unfolding select_loop
select_loop-minimal over_by freed [] h = omega arith
select_loop-minimal over_by freed (c ∷ cs) h = ground (
  arith,
  sum_by-all_but_last_cons c (select_loop over_by (freed + c.size_bytes) cs) over_by freed h,
  select_loop_at_limit over_by (freed + c.size_bytes) cs,
  select_loop-minimal over_by (freed + c.size_bytes) cs,
)

-- Within the quota the selection is that of the retention time.
pub select-within_quota :
    (cs : List ClassificationResult) (total max : ℕ)
    → total ≤ max
    → select cs total max ≡ sort_candidates cs
unfolding select
select-within_quota cs total max within = ground arith
