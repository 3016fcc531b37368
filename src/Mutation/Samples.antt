-- ===== src/Mutation/Samples.antt =====
-- A proposal, its file and its request, for the tests.
use synapx_harness.Prelude.{
  String, ◌<>◌, str_eq, decimal, sum_by, Bool, true, false, Option, none, some, [], ◌∷◌,
  if◌then◌else◌, ◌≡◌, refl,
}
use synapx_harness.Prelude.Nonempty.{append-nonempty}
use synapx_harness.Values.{end}
use synapx_harness.Mutation.Bytes.{Bytes, encode, normalize_line_endings}
use synapx_harness.Mutation.Files.{Store}
use synapx_harness.Mutation.Execute.{ExecutionRequest}

-- A digest for the tests, that is never empty.
abbrev pub digest : Bytes → String
digest b = "d" <> decimal (sum_by (λ n. n) b)

pub digest-nonempty : (b : Bytes) → str_eq (digest b) "" ≡ false
digest-nonempty b = append-nonempty "d" (decimal (sum_by (λ n. n) b)) refl

-- Two files under the root; every other path leaves it.
abbrev pub resolve : String → Option String
resolve p =
    if str_eq p "a.py" then some "/r/a.py" else if str_eq p "b.py" then some "/r/b.py" else none

abbrev pub old_bytes : Bytes
old_bytes = encode "x = 1\r\ny = 3\n"

abbrev pub store : Store
store =
    record { name = "/r/b.py"; content = encode "z\n" }
    ∷ record { name = "/r/a.py"; content = old_bytes }
    ∷ []

abbrev pub body : String
body = "\nFILE: a.py\n<<<< OLD\nx = 1\n>>>> OLD\n<<<< NEW\nx = 22\n>>>> NEW\n"

abbrev pub stdout : String
stdout =
    "--- BEGIN SYNAPX MUTATION PROPOSAL ---\nFILE: a.py\n<<<< OLD\nx = 1\n>>>> OLD\n<<<< NEW\nx = 22\n>>>> NEW\n--- END SYNAPX MUTATION PROPOSAL ---\n"

-- The digest that the harness has bound to the path.
abbrev pub expected : String → Option String
expected p = if str_eq p "a.py" then some (digest (normalize_line_endings old_bytes)) else none

abbrev request_of : Bool → ExecutionRequest
request_of red = record {
  work_contract_id = "wc-1";
  red_qualified = red;
  red_qualification_ref = "red/result.json";
  source_revision = "r1";
  execution_identity = end;
  allowed_write_paths = "a.py" ∷ [];
  expected = expected;
  current_source_revision_at_apply = "r1";
  agent_stdout = stdout;
  admission_denied_reason = none;
}

abbrev pub request : ExecutionRequest
request = request_of true

-- The same request without RED.
abbrev pub unqualified : ExecutionRequest
unqualified = request_of false
