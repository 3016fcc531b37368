-- ===== src/Lib.antt =====
-- A verification library for synapx-harness: the retention of finished runs, the decisions of the
-- kernel about a piece of work, and the governed mutation of source files.
--
-- The parts of the program, and where they are modelled; each path below src/synapx_harness/ is named
-- from there:
--
-- - Storage/Catalog: storage/catalog.py and policy.py. `RunMetadata`,
--   `StorageCatalog` and `RetentionPolicy`; `retention_policy` is the constructor with its checks.
-- - Storage/Classifier: storage/classifier.py. `classify_run` with its helper `_make_result`;
--   `classify_age` is its last part, from the reading of the time on.
-- - Storage/Census, Storage/References and Storage/BuildCatalog: storage/census.py. The detections
--   on one directory, the scan of the project's records, and `build_catalog`. The file system is a
--   value, `World`: `_runs` as a list of directories, and the project root with its three required
--   directories.
-- - Storage/Plan and Storage/Collect: storage/gc.py and receipts.py. `build_dry_run` plans a
--   collection; `execute_gc` follows the plan and passes the world from one candidate to the next,
--   with `_revalidate_candidate` before each deletion.
-- - Kernel/Contracts: the records of contracts/runtime_models.py that the kernel builds, with the
--   checks that Pydantic makes.
-- - Kernel/Terminal: kernel/terminal_finalizer.py, which alone issues terminal decisions.
-- - Kernel/Risk: kernel/risk_classifier.py, the policy of a risk class and the class of a task.
-- - Kernel/Verification: kernel/verification_planner.py, the admission of a verification result,
--   whose receipt the terminal finalizer reads; Kernel/States has the same file's state references.
-- - Kernel/Contract: kernel/work_contract_builder.py, the building of a work contract, whose gates
--   use the risk classes and whose RED gate is the one of the verification admission;
--   Kernel/Validation has the checks of contracts/runtime_models.py that it relies on.
-- - Kernel/Red: kernel/red_qualification.py. `mismatch` and `compare_red_qualification` compare a run
--   with its expectation; Kernel/Red/Loading has `from_dict` and the binding to the work contract.
-- - Kernel/Qualification: kernel/mutation_qualification_port.py, `verify` with its six criteria, whose
--   result Kernel/Terminal finalizes.
-- - Kernel/Lineage: `assert_lineage_consistency` of kernel/c3_r1_lineage.py, on the envelope of an
--   execution.
-- - Kernel/Provider: kernel/governed_runtime_provider.py, `verify_agent_result_identity` and, as
--   `terminal_stage`, the steps of `invoke` from the verification result to the terminal decision.
-- - Context/Chronology: context/evidence_meta.py, the order of time stamps.
-- - Mutation/Proposal: `parse_structured` of kernel/mutation_authority.py; its child Decoding has the
--   automaton over lines, with a function for each marker. Mutation/Text and Mutation/Bytes have the
--   texts and bytes it relies on (`strip`, `splitlines`, UTF-8, `count`, `replace`).
-- - Mutation/Validation: `validate_mutation_proposal` of kernel/mutation_proposal_contract.py, with a
--   function for each stretch of its blockers.
-- - Mutation/Gates: the derivation of the RED flag, `MutationAdmissionGate.admit` and
--   `ExactPathMutationGate.check` of kernel/mutation_authority.py.
-- - Mutation/Apply: `ControlledPatchApplicator.apply`, whose `plan` is everything before the write;
--   Mutation/Files has the files it reads and writes.
-- - Mutation/Execute: `GovernedMutationExecutor.execute`, which chains the decoder, the validation, both
--   gates and the applicator, and passes the files through.
-- - Mutation/Paths: evidence/command_runner.py, the normal form of write paths, the write set of a scope
--   and the check of the paths of a mutation against it.
-- - Evidence: evidence/command_receipt.py, evidence_validator.py and pytest_result_parser.py. Receipt,
--   Pytest and Manifest have the validators, each with its list of violations, Hash the tests on the text
--   of a hash, and Seal `seal_evidence`, whose envelope Kernel/Terminal reads.
-- - Values: the JSON values that the kernel's dictionaries hold, with `get`, truth and `==`.
-- - Prelude: lists, texts, numbers and the result type that the components share.
--
-- Parameters. `fromisoformat` is `datetime.fromisoformat`, in microseconds; `now` and `now_text` are
-- the time of a call; `leftover` is what `shutil.rmtree` leaves of a directory; `repr` is Python's
-- `str` on what is no text. `digest` is the hexadecimal digest of SHA-256; `resolve` takes a path to the
-- name of the file that it stands for inside the root, or to none; `load` and `read_json` are the
-- artifacts of an evidence root, `read_bytes` the bytes of a file, `loads` and `dumps` the reading and
-- the canonical writing of JSON; and `expected` is the captured digest of a path.
--
-- Every function is total: lists and texts are gone through by structural recursion, so there is no
-- fuel but that of `decimal`, whose number of digits the number bounds.
--
-- Sizes and times are natural numbers, which they are where they come from `stat`; a difference that
-- the source floors at zero is the subtraction that stops there. An age in days is an integer.
--
-- Not modelled: the `to_dict` projections, the time stamps of receipts and decisions, floats as JSON
-- values, and the parts of the program that are input and output around library calls (adapters,
-- cli, review packages, commands and pytest logs, the mutation session). Of the
-- mutation authority, the legacy parsers of free text are left out, which are off the governed path,
-- and so are the texts of prompts; and an `OSError` of a read or a write, which nothing there catches
-- and which ends the run with the exception: its reads and writes are total.
-- Of the governed execution and its provider the rest is not modelled: it calls the parts above around
-- input, output and an agent's process.
pub mod Prelude
pub mod Storage
pub mod Values
pub mod Context
pub mod Evidence
pub mod Kernel
pub mod Mutation
