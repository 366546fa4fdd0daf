-- ===== src/Workflows/Experiment/Decisions.antt =====
-- What happens while `InstructionExperimentWorkflow` waits: the signed decisions that come as
-- updates, and the activities that it executes.
use instruct_eval.Common.{
  ℕ, ◌+◌, String, Bool, true, not, ◌&&◌, Option, none, some, List, [], ◌∷◌, ◌==◌, string_eq,
  option_eq, if◌then◌else◌,
}
use instruct_eval.Exec.{ok, pure, raise, raise_if, modify, gets, ◌>>=◌, ◌>>◌}
use instruct_eval.Workflows.Json.{
  Value, Payload, text, number, get, option_value_beq, nonempty_text, is_flag,
}
use instruct_eval.Workflows.Experiment.{
  ExperimentGate, g0, g2, ExperimentInput, GateRequest, InstructionExperimentWorkflow, Workflow,
  not_accepting, invalid_wire, not_outstanding, revalidation_failed, unbound_submission,
  malformed_activity, activity_error, cancelled, invalid_input, check_artifact,
}
use instruct_eval.Workflows.Experiment.Pending.{
  Outcome, returned, activity_result, malformed, interrupted, failed,
}

-- `DecisionWire`: its payload, its hash and its JSON
pub record Wire : Type 0 where
  pub target_kind : String
  pub target_id : String
  pub action : String
  pub proposal_hash : String
  pub expected_revision_hash : String
  pub sequence : ℕ
  pub hash : String
  pub json : Value

-- What an activity gets: the payload of a plain request, or the request of a gate.
pub data Request : Type 0 where
  plain : Payload → Request
  at_gate : GateRequest → Request

-- What the workflow takes from Temporal, from the libraries and from signing.py: the outcome of the
-- activity at each await, the updates that come in during it, the ids of the run, the hash of
-- canonical JSON, whether a wire is valid for an input and a revision, and `str.lower`.
pub record World : Type 0 where
  pub activity : ℕ → String → Request → Outcome
  pub updates : ℕ → List Wire
  pub workflow_id : String
  pub run_id : String
  pub canonical_hash : Payload → String
  pub valid_wire : ExperimentInput → String → Wire → Bool
  pub lower : String → String

-- the number of this await
unfoldable pub next_await : Workflow ℕ
next_await w = (ok w.awaits, record w { awaits = w.awaits + 1 })

-- `_execute` once the activity has ended, for an `ActivityResult` or a `GateResult`
unfoldable pub reply : Outcome → Workflow Outcome
reply (returned result) = pure (returned result)
reply (activity_result result) = pure (activity_result result)
reply malformed = raise malformed_activity
reply interrupted = raise cancelled
reply (failed semantic) = raise (activity_error semantic)

-- the action that a decision must have in the state of the workflow
abbrev expected_action : ExperimentGate → Option String
expected_action g0 = some "submit_design"
expected_action g2 = some "approve_freeze"
expected_action _ = none

-- the result that `_validate_published_decision` takes, when it is an `ActivityResult`
abbrev decision_result : Outcome → Option Payload
decision_result (activity_result result) = some result.payload
decision_result _ = none

-- the checks of `_validate_published_decision` on the published hash
unfoldable pub published_digest : Option Value → Wire → Workflow (Unit {0})
published_digest (some (text hash)) wire = do
  check_artifact hash
  raise_if (not (hash == wire.hash)) revalidation_failed
published_digest _ wire = raise revalidation_failed

-- `_validate_published_decision`
unfoldable pub validate_published_decision : Payload → Wire → Workflow (Unit {0})
unfolding get published_digest
validate_published_decision payload wire = do
  raise_if (not (is_flag true (get "accepted" payload))) revalidation_failed
  raise_if (not (option_value_beq (get "decision_sha256" payload) (some (text wire.hash))))
      revalidation_failed
  published_digest (get "decision_artifact_sha256" payload) wire
  raise_if (nonempty_text (get "decision_artifact_path" payload) == none) revalidation_failed

unfoldable pub stage_design : Option Value → Workflow (Unit {0})
stage_design (some (text design)) = do
  check_artifact design
  modify (λ w. record w { frozen_design_sha256 = some design })
stage_design _ = raise unbound_submission

-- what `decision` does with the staged design of a `submit_design`
unfoldable pub submit_design : Payload → Wire → Workflow (Unit {0})
unfolding get stage_design
submit_design payload wire = do
  raise_if (not (option_value_beq (get "proposal_sha256" payload) (some (text wire.proposal_hash))))
      unbound_submission
  stage_design (get "design_sha256" payload)

-- what `decision` does with the outcome of its activity
unfoldable pub conclude_decision : Wire → Option Payload → Workflow (Unit {0})
unfolding validate_published_decision submit_design
conclude_decision wire none = raise revalidation_failed
conclude_decision wire (some payload) = do
  validate_published_decision payload wire
  if wire.action == "submit_design" then submit_design payload wire else pure tt
  modify (λ w. record w {
    decision_revision_sha256 = wire.hash;
    prior_decision_sha256 = wire.hash;
    outstanding_action = none;
    outstanding_sequence = none;
    outstanding_proposal_sha256 = some wire.proposal_hash;
  })

-- the `operator_public_key` of `_proposal_decision_payload`, where it is a nonempty text
public_key : ExperimentInput → Option String
unfolding get
public_key input = nonempty_text (get "operator_public_key" input.public_input)

module _ ⦃world : World⦄ where
  -- `_validate_decision`
  unfoldable pub validate_decision : Wire → Workflow (Unit {0})
  validate_decision wire = do
    accepting ← gets (λ w. w.initialized && not w.terminal_committed)
    raise_if (not accepting) not_accepting
    valid ← gets (λ w. world.valid_wire w.input w.decision_revision_sha256 wire)
    raise_if (not valid) invalid_wire
    expected ← gets (λ w. expected_action w.gate)
    raise_if (not (some wire.action == expected)) not_outstanding

  -- `_proposal_decision_payload`
  proposal_decision_payload : Wire → String → String → Payload
  proposal_decision_payload wire prior key =
      ("wire", wire.json)
      ∷ ("workflow_id", text world.workflow_id)
      ∷ ("run_id", text world.run_id)
      ∷ ("prior_decision_sha256", text prior)
      ∷ ("target_kind", text wire.target_kind)
      ∷ ("target_id", text wire.target_id)
      ∷ ("action", text wire.action)
      ∷ ("proposal_hash", text wire.proposal_hash)
      ∷ ("expected_revision_sha256", text wire.expected_revision_hash)
      ∷ ("sequence", number wire.sequence)
      ∷ ("owner_public_key", text key)
      ∷ []

  -- the activity of `decision`, which no other update overtakes
  unfoldable pub execute_decision : Wire → Option String → Workflow Outcome
  unfolding next_await reply proposal_decision_payload
  execute_decision wire none = raise invalid_input
  execute_decision wire (some key) = do
    prior ← gets (λ w. w.prior_decision_sha256)
    n ← next_await
    reply (
        world.activity n "instruct_eval.proposal_decision"
          (plain (proposal_decision_payload wire prior key)))

  -- the update `decision`
  unfoldable pub decision : Wire → Workflow (Unit {0})
  unfolding validate_decision execute_decision conclude_decision public_key
  decision wire = do
    validate_decision wire
    key ← gets (λ w. public_key w.input)
    outcome ← execute_decision wire key
    conclude_decision wire (decision_result outcome)

  -- the updates of an await, one after the other; one that raises fails alone
  unfoldable pub deliver : List Wire → Workflow (Unit {0})
  deliver [] w = (ok tt, w)
  deliver (wire ∷ wires) w = deliver wires (decision wire w).1

  -- `_execute` in the coroutine of the run, with the updates that come in meanwhile
  unfoldable pub execute : String → Request → Workflow Outcome
  unfolding next_await
  execute name request = do
    n ← next_await
    deliver (world.updates n)
    pure (world.activity n name request)

  -- `wait_condition`: the updates come in, and the condition holds after them, or a cancellation
  -- ends the wait.
  unfoldable pub wait_condition : (InstructionExperimentWorkflow → Bool) → Workflow (Unit {0})
  unfolding next_await
  wait_condition condition = do
    n ← next_await
    deliver (world.updates n)
    met ← gets condition
    raise_if (not met) cancelled
