-- ===== src/Storage/Collect/Guarded.antt =====
-- What a collection never deletes.
use mathlib.Core.List.{Memᴰ}
use synapx_harness.Prelude.{ℕ, String, str_eq, eq_iff, ◌≡◌, refl, sym, ap, ◌⊎◌, inl, inr}
use synapx_harness.Prelude.{Bool, true, false, ◌||◌, not, Option, none, some, if◌then◌else◌}
use synapx_harness.Prelude.{List, [], ◌∷◌, arith, Bool-cases}
use synapx_harness.Storage.Catalog.{RetentionPolicy}
use synapx_harness.Storage.Classifier.{ClassificationResult}
use synapx_harness.Storage.Census.{RunDir, Project, World}
use synapx_harness.Storage.Collect.{
  DeleteResult, delete_failed, outcome, find_dir, dirs_of, is_guarded, is_still_unreferenced,
  fresh_plan, revalidate_candidate, remove_dir, removed, delete_run, collect_candidate, collect,
  execute_gc,
}

-- The directory is active, running or incomplete, holds sealed evidence, an authority reference or
-- a review package, is pinned or protected, or a fresh scan does not clear it of references.
abbrev pub is_blocked : Option Project → RunDir → Bool
is_blocked p d = is_guarded d || not (is_still_unreferenced p d.name)

find_dir-name :
    (name : String) (dirs : List RunDir) (d : RunDir) → find_dir name dirs ≡ some d → name ≡ d.name
unfolding find_dir
find_dir-name name [] d h = cc
find_dir-name name (e ∷ es) d h = ground (arith, eq_iff name e.name, find_dir-name name es d)

module _ (leftover : RunDir → Option RunDir) where
  -- A directory is the one that the path names, or it is kept.
  remove_dir_keeps :
      (name : String) (d : RunDir) (dirs : List RunDir)
      → Memᴰ d dirs
      → (find_dir name dirs ≡ some d) ⊎ Memᴰ d (remove_dir leftover name dirs)
  unfolding find_dir remove_dir
  remove_dir_keeps name d [] m = elim m [ ]
  remove_dir_keeps name d (e ∷ es) (Memᴰ.head p) = elim (Bool-cases (str_eq name e.name)) [
    | inl same ↦ inl (rw same (ap some (sym p)))
    | inr differ ↦ inr (rw differ (Memᴰ.head p))
  ]
  remove_dir_keeps name d (e ∷ es) (Memᴰ.tail m) = elim (Bool-cases (str_eq name e.name)) [
    | inl same ↦ inr (rw same (kept_tail (leftover e)))
    | inr differ ↦ rw differ (later (remove_dir_keeps name d es m))
  ]
    where
      kept_tail : (o : Option RunDir) → Memᴰ d (elim o [ none ↦ es | some e' ↦ e' ∷ es ])
      kept_tail none = m
      kept_tail (some e') = Memᴰ.tail m

      later :
          (find_dir name es ≡ some d) ⊎ Memᴰ d (remove_dir leftover name es)
          → (find_dir name es ≡ some d) ⊎ Memᴰ d (e ∷ remove_dir leftover name es)
      later (inl found) = inl found
      later (inr kept) = inr (Memᴰ.tail kept)

  delete_run_keeps :
      (w : World) (name : String) (d : RunDir)
      → Memᴰ d (dirs_of w)
      → (find_dir name (dirs_of w) ≡ some d)
        ⊎ Memᴰ d (dirs_of (delete_run leftover w name (find_dir name (dirs_of w))).0)
  unfolding delete_run
  delete_run_keeps w name d m = cases (find_dir name (dirs_of w)) refl
    where
      branch :
          (f : RunDir) (b : Bool)
          → find_dir name (dirs_of w) ≡ some f
          → (some f ≡ some d)
            ⊎ Memᴰ d (
                dirs_of
                  (if◌then◌else◌ {A = World × DeleteResult} b
                    (removed leftover w name, outcome (leftover f))
                    (w, delete_failed)).0)
      branch f true e = rw e at (remove_dir_keeps name d (dirs_of w) m)
      branch f false e = inr m

      cases :
          (o : Option RunDir)
          → find_dir name (dirs_of w) ≡ o
          → (o ≡ some d) ⊎ Memᴰ d (dirs_of (delete_run leftover w name o).0)
      cases none e = inr m
      cases (some f) e = branch f f.is_dir e

  project-delete_run :
      (w : World) (name : String) (o : Option RunDir)
      → (delete_run leftover w name o).0.project ≡ w.project
  unfolding delete_run
  project-delete_run w name none = refl
  project-delete_run w name (some d) = ground arith

module _ (fromisoformat : String → Option ℕ) (now_text : String) where
  -- What a passed revalidation says of the directory at the path.
  revalidate-unblocked :
      (w : World) (name : String) (policy : RetentionPolicy) (now : ℕ) (d : RunDir)
      → revalidate_candidate fromisoformat now_text w name policy now ≡ true
      → find_dir name (dirs_of w) ≡ some d
      → is_blocked w.project d ≡ false
  unfolding revalidate_candidate
  revalidate-unblocked w name policy now d valid found =
      let e = find_dir-name name (dirs_of w) d found in ground arith

module _ (fromisoformat : String → Option ℕ) (now_text : String) (leftover : RunDir → Option RunDir)
    (policy : RetentionPolicy) (now : ℕ) where
  collect_candidate_keeps :
      (w : World) (c : ClassificationResult) (d : RunDir)
      → is_blocked w.project d ≡ true
      → Memᴰ d (dirs_of w)
      → Memᴰ d (dirs_of (collect_candidate fromisoformat now_text leftover policy now w c).0)
  unfolding collect_candidate
  collect_candidate_keeps w c d blocked m =
      elim (Bool-cases (revalidate_candidate fromisoformat now_text w c.path.name policy now)) [
        | inl valid ↦ elim (delete_run_keeps leftover w c.path.name d m) [
          | inl found ↦
              cc
                (revalidate-unblocked fromisoformat now_text w c.path.name policy now d valid found)
          | inr kept ↦ rw valid kept
        ]
        | inr stale ↦ rw stale m
      ]

  project-collect_candidate :
      (w : World) (c : ClassificationResult)
      → (collect_candidate fromisoformat now_text leftover policy now w c).0.project ≡ w.project
  unfolding collect_candidate
  project-collect_candidate w c =
      ground (arith, project-delete_run leftover w c.path.name (find_dir c.path.name (dirs_of w)))

  collect_keeps :
      (dry : Bool) (w : World) (cs : List ClassificationResult) (d : RunDir)
      → is_blocked w.project d ≡ true
      → Memᴰ d (dirs_of w)
      → Memᴰ d (dirs_of (collect fromisoformat now_text leftover policy now dry w cs).0)
  unfolding collect
  collect_keeps dry w [] d blocked m = m
  collect_keeps true w (c ∷ cs) d blocked m = collect_keeps true w cs d blocked m
  collect_keeps false w (c ∷ cs) d blocked m =
      collect_keeps false (collect_candidate fromisoformat now_text leftover policy now w c).0 cs d
        (rw (project-collect_candidate w c) blocked) (collect_candidate_keeps w c d blocked m)

  -- A directory that is active, running or incomplete, that holds sealed evidence, an authority
  -- reference or a review package, that is pinned or protected, or that a fresh scan of the project
  -- does not clear of references, is still there, unchanged, after a collection, dry or not,
  -- whatever the plan was and whether or not `rmtree` fails.
  pub execute_gc-keeps_blocked :
      (w : World) (dry : Bool) (d : RunDir)
      → is_blocked w.project d ≡ true
      → Memᴰ d (dirs_of w)
      → Memᴰ d (dirs_of (execute_gc fromisoformat now_text leftover w policy dry now).0)
  unfolding execute_gc
  execute_gc-keeps_blocked w dry d blocked m =
      collect_keeps dry w (fresh_plan fromisoformat now_text w policy now).candidates d blocked m
