-- ===== src/Mutation/GateTests.antt =====
-- The theorems on paths, gates and bytes at sample inputs.
use synapx_harness.Prelude.{
  ◌↔◌, String, is_member, true, false, Option, some, [], ◌∷◌, All, pos, ◌≡◌, refl,
}
use synapx_harness.Prelude.Results.{ok, err}
use synapx_harness.Values.{
  bool, int, str, list, dict, Items, nil, cons, Fields, end, field, lookup, get, truthy,
}
use synapx_harness.Mutation.Text.{strip}
use synapx_harness.Mutation.Paths.{
  normalize_write_token_path, absolute_path, is_absolute, strip_dots, fold_slashes,
  extract_scope_writes, extract_from, assert_mutation_paths_allowed, observe, scope_items,
  path_items, is_empty, texts, write_set_violation,
}
use synapx_harness.Mutation.Paths.Safety.{
  IsNormal, normalize_write_token_path-IsNormal, normalize_write_token_path_idem,
}
use synapx_harness.Mutation.Paths.Declared.{DeclaredIn, assert_mutation_paths_allowed-declared}
use synapx_harness.Mutation.Proposal.{PatchProposal}
use synapx_harness.Mutation.Gates.{parsed, Artifact, derive_red_qualification_from_evidence}
use synapx_harness.Mutation.Execute.Outcomes.{parsed_proposal}
use synapx_harness.Mutation.Samples.{digest, resolve, request}

normalized : normalize_write_token_path ".\\a\\b/./c.py" ≡ ok "a/b/./c.py"
unfolding normalize_write_token_path
normalized = refl

normalize_write_token_path-IsNormal_example :
    IsNormal "a/b/./c.py"
    × (strip_dots (fold_slashes ".\\a\\b/./c.py") ≡ fold_slashes ".\\a\\b/./c.py"
        → is_absolute "a/b/./c.py" ≡ false)
normalize_write_token_path-IsNormal_example =
    normalize_write_token_path-IsNormal ".\\a\\b/./c.py" "a/b/./c.py" normalized

normalize_write_token_path_idem_example : normalize_write_token_path "a/b/./c.py" ≡ ok "a/b/./c.py"
normalize_write_token_path_idem_example =
    normalize_write_token_path_idem ".\\a\\b/./c.py" "a/b/./c.py" normalized refl

-- An absolute path comes out where a `./` stands before it, and it has no normal form of its own.
absolute_after_dots : normalize_write_token_path ".//etc/passwd" ≡ ok "/etc/passwd"
unfolding normalize_write_token_path
absolute_after_dots = refl

absolute_alone : normalize_write_token_path "/etc/passwd" ≡ err absolute_path
unfolding normalize_write_token_path
absolute_alone = refl

abbrev contract : Fields
contract = field "work_contract_id" (str "wc-1") (
    field "scope"
      (list (cons (str "tool:pytest") (cons (str "write:./src/a.py") (cons (int (pos 3)) nil))))
      end)

abbrev scope : Items
scope = cons (str "tool:pytest") (cons (str "write:./src/a.py") (cons (int (pos 3)) nil))

abbrev mutation_paths : Items
mutation_paths = cons (str "src\\a.py") nil

paths_allowed :
    assert_mutation_paths_allowed (some contract) (list mutation_paths)
    ≡ ok
        (record { declared_write_set = "src/a.py" ∷ []; observed_mutation_paths = "src/a.py" ∷ [] })
unfolding assert_mutation_paths_allowed extract_scope_writes extract_from normalize_write_token_path
    observe lookup
paths_allowed = refl

other_path :
    assert_mutation_paths_allowed (some contract) (list (cons (str "src/b.py") nil))
    ≡ err (write_set_violation ("src/b.py" ∷ []))
unfolding assert_mutation_paths_allowed extract_scope_writes extract_from normalize_write_token_path
    observe lookup
other_path = refl

assert_mutation_paths_allowed-declared_example :
    (payload : Fields) × (s paths : Items) × (◌≡◌ {0} {A = Option Fields}
      (some contract)
      (some payload))
    × (truthy (get "work_contract_id" payload) ≡ true)
    × (scope_items (get "scope" payload) ≡ ok s)
    × (path_items (list mutation_paths) ≡ ok paths)
    × (observe paths ≡ ok ("src/a.py" ∷ []))
    × (is_empty ("src/a.py" ∷ []) ≡ false)
    × ((is_member "src/a.py" ("src/a.py" ∷ []) ≡ true) ↔ DeclaredIn (texts s) "src/a.py")
    × All (λ p. is_member p ("src/a.py" ∷ []) ≡ true) ("src/a.py" ∷ [])
assert_mutation_paths_allowed-declared_example =
    assert_mutation_paths_allowed-declared (some contract) (list mutation_paths)
      (record { declared_write_set = "src/a.py" ∷ []; observed_mutation_paths = "src/a.py" ∷ [] })
      "src/a.py" paths_allowed

abbrev proposal : PatchProposal
proposal = parsed_proposal digest resolve request

abbrev red_payload : Fields
red_payload =
    field "exit_code" (int (pos 1)) (field "failure_reason_matches_intended_defect" (bool true) end)

abbrev load : String → Artifact
load p = parsed (dict red_payload)

red_derived : derive_red_qualification_from_evidence load (str "red/result.json") ≡ ok true
unfolding derive_red_qualification_from_evidence lookup strip
red_derived = refl
