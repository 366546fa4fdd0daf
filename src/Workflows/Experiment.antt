-- ===== src/Workflows/Experiment.antt =====
-- The gates of `InstructionExperimentWorkflow` of workflows.py: how it claims its authorization,
-- advances from gate to gate, and commits its terminal state.
pub mod Gates
pub mod Pending
pub mod Decisions
pub mod Packets
pub mod Results
pub mod Trials
pub mod Stages
pub mod Design
pub mod Completion
pub mod Run
pub mod Quiet
pub mod Sound
pub mod Ends
pub mod Ending
use instruct_eval.Common.{
  ℕ, zero, suc, String, Bool, true, false, not, ◌&&◌, ◌||◌, Option, none, some, List, [], ◌∷◌, ◌++◌,
  ◌==◌, nat_eq, string_eq, option_eq, if◌then◌else◌, length, map, Eq, ◌≡◌, ◌↔◌, arith,
}
use instruct_eval.Exec.{
  Exec, Result, ok, err, pure, raise, raise_if, modify, gets, or_raise, ◌>>=◌, ◌>>◌,
}
use instruct_eval.Coordination.Checks.{is_digest}
use instruct_eval.Workflows.Json.{
  Value, text, flag, Payload, get, option_value_beq, is_flag, is_within, same_payload, has_key,
  keys_within, has_keys, has_exactly,
}

pub data ExperimentGate : Type 0 where
  initializing g0 g1 g2 frozen g3 g4 releasing g5 g6 : ExperimentGate
  design_rejected authorized completed_not_authorized scoring_rejected : ExperimentGate
  protocol_failure canceled : ExperimentGate

-- `gate.value` of the gates in `_GATE_NAMES`, and the number of the others in the enum
abbrev pub gate_number : ExperimentGate → ℕ
gate_number g0 = 0
gate_number g1 = 1
gate_number g2 = 2
gate_number g3 = 3
gate_number g4 = 4
gate_number g5 = 5
gate_number g6 = 6
gate_number initializing = 7
gate_number frozen = 8
gate_number releasing = 9
gate_number design_rejected = 10
gate_number authorized = 11
gate_number completed_not_authorized = 12
gate_number scoring_rejected = 13
gate_number protocol_failure = 14
gate_number canceled = 15

abbrev pub same_gate : ExperimentGate → ExperimentGate → Bool
same_gate a b = gate_number a == gate_number b

-- `_GATE_NAMES`
abbrev pub gate_names : List ExperimentGate
gate_names = g0 ∷ g1 ∷ g2 ∷ g3 ∷ g4 ∷ g5 ∷ g6 ∷ []

abbrev pub authorization_fields : List String
authorization_fields =
    "authorized" ∷ "experiment_id" ∷ "campaign_id" ∷ "claim_sha256" ∷ "coverage_sha256"
    ∷ "fingerprint_sha256" ∷ []

pub record ExperimentInput : Type 0 where
  pub campaign_id : String
  pub experiment_id : String
  pub claim_sha256 : String
  pub claim : Payload
  pub coverage_sha256 : String
  pub model_identity : String
  pub runtime_identity : String
  pub public_input : Payload
  pub authorization : Payload

-- `ActivityResult` or `GateResult`: the payload, and the hash of the artifact or of the result
pub record GateResult : Type 0 where
  pub payload : Payload
  pub artifact_sha256 : String

-- `GateRequest` of activities.py with its class: the fields that differ between the requests of one
-- workflow, `payload` standing for its hash too.
pub record GateRequest : Type 0 where
  pub request_type : String
  pub payload : Payload
  pub ordinal : ℕ
  pub prior_sha256 : String

-- `_pending_gate`: the name of the activity, its request and its id
pub record PendingGate : Type 0 where
  pub activity_name : String
  pub request : GateRequest
  pub activity_id : Option String

pub record InstructionExperimentWorkflow : Type 0 where
  pub input : ExperimentInput
  pub gate : ExperimentGate
  pub authorization_claimed : Bool
  pub terminal_committed : Bool
  pub gate_artifacts : List (ExperimentGate × String)
  pub prior_sha256 : String
  pub frozen_design_sha256 : Option String
  pub next_ordinal : ℕ
  pub pending_gate : Option PendingGate
  pub initialized : Bool
  pub decision_revision_sha256 : String
  pub prior_decision_sha256 : String
  pub outstanding_action : Option String
  pub outstanding_sequence : Option ℕ
  pub outstanding_proposal_sha256 : Option String
  pub release_payload : Option Payload
  pub release_blind_ids : List String
  pub trial_tokens : List String
  pub map_ref : Option String
  pub map_commitment : Option String
  pub pre_map_input_hash : Option String
  pub authorization_rule_sha256 : Option String
  -- how many activities and waits there have been
  pub awaits : ℕ

-- One constructor for each message of `WorkflowProtocolError`; the last ones are other exceptions:
-- Python's own, `ActivityError`, which says whether its cause is one of the two semantic errors, and
-- `CancelledError`.
pub data WorkflowError : Type 0 where
  terminal_cannot_advance not_claimed unexpected_gate unbound_design not_a_digest : WorkflowError
  invalid_terminal immutable_terminal pending_mismatch gate_committed_failure : WorkflowError
  malformed_activity gate_not_durable invalid_input not_accepting invalid_wire : WorkflowError
  not_outstanding revalidation_failed unbound_submission fingerprint_missing : WorkflowError
  malformed_result proposal_unavailable malformed_map incomplete_outcomes : WorkflowError
  invalid_scores invalid_release release_incomplete : WorkflowError
  index_error key_error type_error assertion_error cancelled : WorkflowError
  activity_error : Bool → WorkflowError

-- whether an error is a `WorkflowProtocolError`
abbrev pub is_protocol_error : WorkflowError → Bool
is_protocol_error index_error = false
is_protocol_error key_error = false
is_protocol_error type_error = false
is_protocol_error assertion_error = false
is_protocol_error cancelled = false
is_protocol_error (activity_error _) = false
is_protocol_error _ = true

abbrev pub Workflow : Type 0 → Type 0
Workflow A = Exec WorkflowError InstructionExperimentWorkflow A

-- `"0" * 64`
abbrev zeros : String
zeros = "0000000000000000000000000000000000000000000000000000000000000000"

-- the state that `__init__` leaves; `_input` is set when `initialized` is.
abbrev pub new : ExperimentInput → InstructionExperimentWorkflow
new input = record {
  input = input;
  gate = initializing;
  authorization_claimed = false;
  terminal_committed = false;
  gate_artifacts = [];
  prior_sha256 = zeros;
  frozen_design_sha256 = none;
  next_ordinal = 0;
  pending_gate = none;
  initialized = false;
  decision_revision_sha256 = zeros;
  prior_decision_sha256 = zeros;
  outstanding_action = none;
  outstanding_sequence = none;
  outstanding_proposal_sha256 = none;
  release_payload = none;
  release_blind_ids = [];
  trial_tokens = [];
  map_ref = none;
  map_commitment = none;
  pre_map_input_hash = none;
  authorization_rule_sha256 = none;
  awaits = 0;
}

-- the condition of `_claim_authorization`: whether the result is the authorization of this input
unfoldable pub matches_authorization : ExperimentInput → Payload → Bool
unfolding get is_within has_key keys_within has_keys
matches_authorization input payload =
    has_exactly authorization_fields payload
    && same_payload payload input.authorization
    && option_value_beq (get "authorized" payload) (some (flag true))
    && option_value_beq (get "campaign_id" payload) (some (text input.campaign_id))
    && option_value_beq (get "experiment_id" payload) (some (text input.experiment_id))
    && option_value_beq (get "claim_sha256" payload) (some (text input.claim_sha256))
    && option_value_beq (get "coverage_sha256" payload) (some (text input.coverage_sha256))
    && option_value_beq (get "fingerprint_sha256" payload)
        (get "fingerprint_sha256" input.authorization)

unfoldable pub claim_authorization : GateResult → Workflow Bool
claim_authorization result w =
    if w.authorization_claimed
    then (ok true, w)
    else if matches_authorization w.input result.payload
    then (ok true, record w { authorization_claimed = true })
    else (ok false, w)

-- `_GATE_NAMES[index]`
unfoldable pub name_at : ℕ → List ExperimentGate → Option ExperimentGate
name_at index [] = none
name_at zero (name ∷ names) = some name
name_at (suc index) (name ∷ names) = name_at index names

-- `self._gate_artifacts[gate.value] = hash`
unfoldable pub set_artifact :
    ExperimentGate → String → List (ExperimentGate × String) → List (ExperimentGate × String)
set_artifact gate hash [] = (gate, hash) ∷ []
set_artifact gate hash (item ∷ items) =
    if same_gate item.0 gate then (item.0, hash) ∷ items else item ∷ set_artifact gate hash items

-- whether a gate has to bind the staged design and does not
abbrev is_unbound : ExperimentGate → Option String → Payload → Bool
is_unbound gate design payload = (same_gate gate g1 || same_gate gate g2) && elim design [
  | none ↦ true
  | some hash ↦ not (option_value_beq (get "design_sha256" payload) (some (text hash)))
]

-- `_digest`, on the hash of an artifact
abbrev pub check_artifact : String → Workflow (Unit {0})
check_artifact hash = raise_if (not (is_digest hash)) not_a_digest

-- `_advance_gate`
unfoldable pub advance_gate : ExperimentGate → GateResult → Workflow (Unit {0})
unfolding name_at set_artifact
advance_gate gate result = do
  terminal ← gets (λ w. w.terminal_committed)
  raise_if terminal terminal_cannot_advance
  claimed ← gets (λ w. w.authorization_claimed)
  raise_if (not claimed) not_claimed
  name ← gets (λ w. name_at (length w.gate_artifacts) gate_names)
  expected ← or_raise name index_error
  raise_if (not (same_gate gate expected)) unexpected_gate
  design ← gets (λ w. w.frozen_design_sha256)
  raise_if (is_unbound gate design result.payload) unbound_design
  check_artifact result.artifact_sha256
  modify (λ w. record w {
    gate_artifacts = set_artifact gate result.artifact_sha256 w.gate_artifacts;
    prior_sha256 = result.artifact_sha256;
    gate = gate;
  })

-- `terminal in (...)`
abbrev pub is_terminal_gate : ExperimentGate → Bool
is_terminal_gate design_rejected = true
is_terminal_gate authorized = true
is_terminal_gate completed_not_authorized = true
is_terminal_gate scoring_rejected = true
is_terminal_gate protocol_failure = true
is_terminal_gate canceled = true
is_terminal_gate _ = false

-- `_commit_terminal`
unfoldable pub commit_terminal : ExperimentGate → Workflow (Unit {0})
commit_terminal terminal w =
    if not (is_terminal_gate terminal)
    then (err invalid_terminal, w)
    else if w.terminal_committed
    then (if same_gate w.gate terminal then (ok tt, w) else (err immutable_terminal, w))
    else (ok tt, record w { terminal_committed = true; gate = terminal })
