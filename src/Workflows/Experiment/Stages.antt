-- ===== src/Workflows/Experiment/Stages.antt =====
-- The stages of `InstructionExperimentWorkflow`, from the claim of the authorization to G6.
use instruct_eval.Common.{
  String, Bool, true, false, not, Option, none, some, List, [], ◌∷◌, nat_eq, string_eq, option_eq,
  if◌then◌else◌,
}
use instruct_eval.Exec.{pure, raise, modify, gets, or_raise, ◌>>=◌, ◌>>◌}
use instruct_eval.Workflows.Json.{
  Value, Payload, text, flag, other, mapping, items, get, is_flag, nonempty_text,
}
use instruct_eval.Workflows.Experiment.{
  ExperimentGate, g0, g6, design_rejected, authorized, completed_not_authorized, scoring_rejected,
  protocol_failure, canceled, GateResult, Workflow, same_gate, advance_gate, commit_terminal,
  claim_authorization, check_artifact, malformed_result, malformed_activity, activity_error,
  cancelled, release_incomplete, fingerprint_missing,
}
use instruct_eval.Workflows.Experiment.Pending.{
  Outcome, returned, activity_result, malformed, interrupted, failed, execute_gate,
}
use instruct_eval.Workflows.Experiment.Decisions.{World, plain, at_gate, execute}

-- `ExperimentResult`; its `status` and its `terminal_gate` are the gate of the workflow.
pub record ExperimentResult : Type 0 where
  pub experiment_id : String
  pub claim_sha256 : String
  pub status : ExperimentGate
  pub artifact_sha256 : Option String

-- What a stage returns: the result of the experiment, or what the next stage takes.
pub data Next (A : Type 0) : Type 0 where
  finished : ExperimentResult → Next A
  continued : A → Next A

unfoldable pub artifact_of : ExperimentGate → List (ExperimentGate × String) → Option String
artifact_of gate [] = none
artifact_of gate (entry ∷ entries) =
    if same_gate entry.0 gate then some entry.1 else artifact_of gate entries

-- `_result`
unfoldable pub experiment_result : Workflow ExperimentResult
unfolding artifact_of
experiment_result = gets (λ w. record {
  experiment_id = w.input.experiment_id;
  claim_sha256 = w.input.claim_sha256;
  status = w.gate;
  artifact_sha256 = artifact_of g6 w.gate_artifacts;
})

-- the value of a text that may be missing
abbrev pub optional_text : Option String → Value
optional_text none = other "null"
optional_text (some t) = text t

-- what follows an activity whose result must be an `ActivityResult`
unfoldable pub conclude_activity : Outcome → Workflow GateResult
conclude_activity (activity_result found) = pure found
conclude_activity (returned _) = raise malformed_result
conclude_activity malformed = raise malformed_activity
conclude_activity interrupted = raise cancelled
conclude_activity (failed semantic) = raise (activity_error semantic)

-- `gate.value` of a terminal gate
abbrev gate_text : ExperimentGate → String
gate_text design_rejected = "DESIGN_REJECTED"
gate_text authorized = "AUTHORIZED"
gate_text completed_not_authorized = "COMPLETED_NOT_AUTHORIZED"
gate_text scoring_rejected = "SCORING_REJECTED"
gate_text protocol_failure = "PROTOCOL_FAILURE"
gate_text canceled = "CANCELED"
gate_text _ = ""

module _ ⦃world : World⦄ where
  unfoldable pub execute_activity : String → Payload → Workflow GateResult
  unfolding conclude_activity
  execute_activity name payload = do
    outcome ← execute name (plain payload)
    conclude_activity outcome

  -- `_execute_gate`, on the activities of the world
  unfoldable pub commit_gate : String → String → Payload → Option String → Workflow GateResult
  commit_gate name request_type payload id =
      execute_gate (λ n request. execute n (at_gate request)) name request_type payload id

  -- `_activity_payload`
  abbrev pub with_input : Payload → Payload → Payload
  with_input public_input extra = ("input", mapping (items public_input)) ∷ extra

  -- `_terminal_result`
  unfoldable pub terminal_result : ExperimentGate → String → Workflow ExperimentResult
  unfolding commit_gate experiment_result
  terminal_result state reason = do
    public_input ← gets (λ w. w.input.public_input)
    prior ← gets (λ w. w.prior_sha256)
    committed ←
        commit_gate "instruct_eval.terminal_commit" "GateRequest"
          (with_input public_input (
            ("terminal_gate", text (gate_text state))
            ∷ ("reason", text reason)
            ∷ ("prior_sha256", text prior)
            ∷ []))
          none
    commit_terminal state
    experiment_result

  -- a gate that is recorded and then ends the experiment
  unfoldable pub reject_at :
      {A : Type 0} → ExperimentGate → GateResult → ExperimentGate → String → Workflow (Next A)
  unfolding terminal_result
  reject_at gate found state reason = do
    advance_gate gate found
    end ← terminal_result state reason
    pure (finished end)

  -- the end of `_finish_released`, by the `authorized` of G6
  unfoldable pub conclude_g6 : Option Value → Workflow ExperimentResult
  unfolding terminal_result
  conclude_g6 (some (flag true)) = terminal_result authorized "G6 authorized"
  conclude_g6 (some (flag false)) =
      terminal_result completed_not_authorized "G6 completed without authorization"
  conclude_g6 _ = terminal_result protocol_failure "G6 authorization result is invalid"

  -- `_finish_released`
  unfoldable pub finish_released : Workflow ExperimentResult
  unfolding commit_gate conclude_g6 get
  finish_released = do
    release ← gets (λ w. w.release_payload)
    packet ← or_raise release release_incomplete
    staged ← gets (λ w. w.frozen_design_sha256)
    design ← or_raise staged release_incomplete
    found ←
        commit_gate "instruct_eval.analysis" "AnalysisRequest"
          (("gate", text "G6")
            ∷ ("design_sha256", text design)
            ∷ ("release_sha256", optional_text (nonempty_text (get "release_sha256" packet)))
            ∷ [])
          none
    advance_gate g6 found
    conclude_g6 (get "authorized" found.payload)

  -- the end of `_claim_and_commit_g0`, once G0 is committed
  unfoldable pub conclude_g0 : GateResult → Workflow (Next (Unit {0}))
  unfolding reject_at get
  conclude_g0 found =
      if not (is_flag true (get "accepted" found.payload))
      then reject_at g0 found design_rejected "G0 rejected"
      else do
        advance_gate g0 found
        modify (λ w. record w {
          decision_revision_sha256 = found.artifact_sha256;
          outstanding_action = some "submit_design";
          outstanding_sequence = some 1;
        })
        pure (continued tt)

  -- `_claim_and_commit_g0` with a claimed authorization
  unfoldable pub commit_g0 : Workflow (Next (Unit {0}))
  unfolding execute_activity commit_gate conclude_g0 get
  commit_g0 = do
    claim ← gets (λ w. w.input.claim)
    eligibility ←
        execute_activity "instruct_eval.eligibility" (("claim", mapping (items claim)) ∷ [])
    found ←
        commit_gate "instruct_eval.g0_commit" "GateRequest"
          (("gate", text "G0")
            ∷ ("eligibility", mapping (items eligibility.payload))
            ∷ ("accepted", flag (is_flag true (get "eligible" eligibility.payload)))
            ∷ [])
          none
    conclude_g0 found

  -- `_claim_and_commit_g0` after `_claim_authorization`
  unfoldable pub claimed_or_rejected : Bool → Workflow (Next (Unit {0}))
  unfolding terminal_result commit_g0
  claimed_or_rejected true = commit_g0
  claimed_or_rejected false = do
    end ← terminal_result design_rejected "authorization rejected or preempted"
    pure (finished end)

  -- the text that the fingerprint of an authorization is
  abbrev fingerprint_of : Option Value → Option String
  fingerprint_of (some (text t)) = some t
  fingerprint_of _ = none

  -- `_claim_and_commit_g0`
  unfoldable pub claim_and_commit_g0 : Workflow (Next (Unit {0}))
  unfolding execute_activity claimed_or_rejected get
  claim_and_commit_g0 = do
    input ← gets (λ w. w.input)
    fingerprint ←
        or_raise (fingerprint_of (get "fingerprint_sha256" input.authorization)) fingerprint_missing
    check_artifact fingerprint
    found ← execute_activity "instruct_eval.child_authorization_claim" (
        ("claim_sha256", text input.claim_sha256)
        ∷ ("coverage_sha256", text input.coverage_sha256)
        ∷ ("fingerprint_sha256", text fingerprint)
        ∷ [])
    claimed ← claim_authorization found
    claimed_or_rejected claimed
