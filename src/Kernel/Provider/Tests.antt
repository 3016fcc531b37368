-- ===== src/Kernel/Provider/Tests.antt =====
-- A stage of the provider.
use synapx_harness.Prelude.{String, ◌≡◌, refl}
use synapx_harness.Prelude.Results.{ok}
use synapx_harness.Values.{Value, end}
use synapx_harness.Kernel.Contracts.{VerificationResult, TerminalDecisionRecord, pass, valid}
use synapx_harness.Kernel.Terminal.{finalize}
use synapx_harness.Kernel.Provider.{Stage, terminal_stage}
use synapx_harness.Kernel.Provider.Decision.{terminal_stage-finalize}

abbrev no_repr : Value → String
no_repr v = "?"

abbrev some_stage : Stage
some_stage = record {
  work_contract_id = "WC-1";
  identity = end;
  verification_admission = end;
  result_status = "DONE";
  result_identity = end;
  context_sha256 = "";
  source_ref = end;
}

abbrev some_result : VerificationResult
some_result = record {
  work_contract_id = "WC-1";
  verification_status = pass;
  evidence_status = valid;
  active_blocker_count = 1;
}

terminal_stage-finalize_example :
    (d f : TerminalDecisionRecord) × (terminal_stage no_repr some_stage some_result "now" ≡ ok d)
    × (finalize some_result ≡ ok f)
    × (d.work_contract_id ≡ "WC-1")
    × (d.decision ≡ f.decision)
terminal_stage-finalize_example =
    terminal_stage-finalize no_repr some_stage refl some_result "now" refl
