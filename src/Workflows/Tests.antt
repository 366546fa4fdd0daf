-- ===== src/Workflows/Tests.antt =====
-- The gates of an experiment on concrete calls.
mod Run
use instruct_eval.Common.{none, false, String, ◌≡◌, refl, true, List, [], ◌∷◌}
use instruct_eval.Coordination.Checks.{is_digest}
use instruct_eval.Workflows.Json.{Payload, text, flag, get, value_beq, is_within, same_payload}
use instruct_eval.Workflows.Experiment.{
  g0, g1, g2, canceled, authorized, GateResult, ExperimentInput, InstructionExperimentWorkflow, new,
  matches_authorization, claim_authorization, advance_gate,
}
use instruct_eval.Workflows.Experiment.Pending.{
  returned, failed, gives, execute_gate, execute_gate_retry, execute_gate_concludes,
  failure_payload,
}
use instruct_eval.Workflows.Experiment.Gates.{
  Step, claiming, advancing, ending, staging, step, run, InOrder, Ended, run-InOrder,
  terminal_is_final,
}

abbrev hash : String
hash = "3333333333333333333333333333333333333333333333333333333333333333"

abbrev authorization : Payload
authorization =
    ("authorized", flag true)
    ∷ ("experiment_id", text "experiment")
    ∷ ("campaign_id", text "campaign")
    ∷ ("claim_sha256", text hash)
    ∷ ("coverage_sha256", text hash)
    ∷ ("fingerprint_sha256", text hash)
    ∷ []

abbrev input : ExperimentInput
input = record {
  campaign_id = "campaign";
  experiment_id = "experiment";
  claim_sha256 = hash;
  claim = [];
  coverage_sha256 = hash;
  model_identity = "model";
  runtime_identity = "runtime";
  public_input = [];
  authorization = authorization;
}

abbrev result_of : Payload → GateResult
result_of payload = record { payload = payload; artifact_sha256 = hash }

abbrev calls : List Step
calls =
    claiming (result_of authorization)
    ∷ advancing g1 (result_of [])
    ∷ advancing g0 (result_of [])
    ∷ staging hash
    ∷ advancing g1 (result_of (("design_sha256", text hash) ∷ []))
    ∷ advancing g2 (result_of [])
    ∷ []

-- G1 is refused before G0, and G2 without the staged design.
run-artifacts : (run (new input) calls).gate_artifacts ≡ (g0, hash) ∷ (g1, hash) ∷ []
unfolding run step claim_authorization advance_gate matches_authorization is_digest value_beq
run-artifacts = refl

run-InOrder_example : InOrder (run (new input) calls).gate_artifacts
run-InOrder_example = run-InOrder (new input) calls tt

abbrev ended : InstructionExperimentWorkflow
ended = record (new input) { terminal_committed = true; gate = canceled }

terminal_is_final_example : Ended ended (
    run ended
      (advancing g0 (result_of []) ∷ ending authorized ∷ claiming (result_of authorization) ∷ []))
terminal_is_final_example =
    terminal_is_final ended
      (advancing g0 (result_of []) ∷ ending authorized ∷ claiming (result_of authorization) ∷ [])
      refl refl

execute_gate_retry_example :
    execute_gate
      (gives (returned (result_of authorization)))
      "instruct_eval.analysis"
      "AnalysisRequest"
      authorization
      none
      (execute_gate
        (gives (failed true))
        "instruct_eval.analysis"
        "AnalysisRequest"
        authorization
        none
        (new input)).1
    ≡ execute_gate
        (gives (returned (result_of authorization)))
        "instruct_eval.analysis"
        "AnalysisRequest"
        authorization
        none
        (new input)
unfolding is_within value_beq
execute_gate_retry_example =
    execute_gate_retry "instruct_eval.analysis" "AnalysisRequest" authorization none
      (result_of authorization) true (new input) refl refl

execute_gate_concludes_example :
    (returned (result_of authorization) ≡ returned (result_of authorization))
    × (same_payload authorization failure_payload ≡ false)
    × ((execute_gate
          (gives (returned (result_of authorization)))
          "instruct_eval.analysis"
          "AnalysisRequest"
          []
          none
          (new input)).1.pending_gate
        ≡ none)
    × ((execute_gate
          (gives (returned (result_of authorization)))
          "instruct_eval.analysis"
          "AnalysisRequest"
          []
          none
          (new input)).1.next_ordinal
        ≡ 1)
unfolding execute_gate is_within value_beq
execute_gate_concludes_example =
    execute_gate_concludes "instruct_eval.analysis" "AnalysisRequest" [] none
      (returned (result_of authorization)) (new input) refl
