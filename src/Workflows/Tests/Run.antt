-- ===== src/Workflows/Tests/Run.antt =====
-- A whole experiment, from its authorization to G6, and the ends of others.
use instruct_eval.Workflows.Json.{
  items, elements, values, value_beq, all_texts, all_mappings, has_key, entries_of, is_within,
  Value, Payload, text, flag, sequence, mapping, get,
}
use instruct_eval.Coordination.Checks.{is_digest}
use instruct_eval.Workflows.Experiment.{
  claim_authorization, matches_authorization, advance_gate, commit_terminal,
  InstructionExperimentWorkflow, is_terminal_gate, activity_error, g0, g1, g2, g3, g4, g5, g6,
  authorized, same_gate, releasing, canceled, completed_not_authorized, protocol_failure,
  ExperimentInput, GateResult, new, gate_names,
}
use instruct_eval.Workflows.Experiment.Pending.{
  execute_gate, failed, Outcome, returned, activity_result, malformed,
}
use instruct_eval.Workflows.Experiment.Packets.{are_public_items, initialize}
use instruct_eval.Workflows.Experiment.Decisions.{
  execute, deliver, wait_condition, decision, World, Wire,
}
use instruct_eval.Workflows.Experiment.Results.{
  record_map_lifecycle, g5_release, deidentified_outcomes, blind_scores, field_texts,
  authorization_rule,
}
use instruct_eval.Workflows.Experiment.Trials.{
  TrialRun, collect_trials, collect_rounds, collect_round, drain_trials, record_all,
  first_completed, done_tasks, dispatch_trials, dispatch_one, record_trial_completion,
  g3_trial_data, settle_trial, remove, fill_accounting, accepted, dispositions_of, trial_request,
  no_trials, TrialWorld,
}
use instruct_eval.Workflows.Experiment.Stages.{
  claim_and_commit_g0, terminal_result, finish_released, commit_g0, ExperimentResult,
}
use instruct_eval.Workflows.Experiment.Design.{commit_design_gates, prepare_freeze}
use instruct_eval.Workflows.Experiment.Completion.{
  commit_g3, commit_run, commit_trials, complete_after_g3,
}
use instruct_eval.Common.{
  arith, ℕ, zero, suc, String, ◌≡◌, refl, true, false, not, Option, some, List, [], ◌∷◌, ◌||◌, map,
  ◌==◌, nat_eq, string_eq, if◌then◌else◌,
}
use instruct_eval.Exec.{is_ok, ok, err}
use instruct_eval.Workflows.Experiment.Gates.{InOrder, artifact_gates}
use instruct_eval.Workflows.Experiment.Sound.{Live}
use instruct_eval.Workflows.Experiment.Run.{handle_cancellation, run}
use instruct_eval.Workflows.Experiment.Ending.Late.{handle_cancellation_at_g6}
use instruct_eval.Workflows.Experiment.Ending.Verdict.{
  run-raises, handle_cancellation-status, run-authorized, run-terminal, has_artifact,
}
use instruct_eval.Workflows.Experiment.Trials.Rounds.{collect_rounds-Bounded}
use instruct_eval.Workflows.Experiment.Trials.Dispatching.{
  Bounded, no_trials-Bounded, dispatch_trials-Bounded,
}
use instruct_eval.Trials.Authorization.{assignment_ids}

abbrev hash : String
hash = "3333333333333333333333333333333333333333333333333333333333333333"

abbrev authorization : Payload
authorization =
    ("authorized", flag true)
    ∷ ("experiment_id", text "experiment")
    ∷ ("campaign_id", text "campaign")
    ∷ ("claim_sha256", text hash)
    ∷ ("coverage_sha256", text hash)
    ∷ ("fingerprint_sha256", text hash)
    ∷ []

abbrev input : ExperimentInput
input = record {
  campaign_id = "campaign";
  experiment_id = "experiment";
  claim_sha256 = hash;
  claim = ("coverage_sha256", text hash) ∷ [];
  coverage_sha256 = hash;
  model_identity = "model";
  runtime_identity = "runtime";
  public_input =
      ("candidate_instruction", text "be brief")
      ∷ ("fixture_manifest_hash", text hash)
      ∷ ("operator_public_key", text "key")
      ∷ [];
  authorization = authorization;
}

abbrev result_of : Payload → GateResult
result_of payload = record { payload = payload; artifact_sha256 = hash }

abbrev accepted_design : Payload
accepted_design = ("accepted", flag true) ∷ ("design_sha256", text hash) ∷ []

-- the packet of a decision that is published
abbrev published : Payload
published =
    ("accepted", flag true)
    ∷ ("decision_sha256", text hash)
    ∷ ("decision_artifact_sha256", text hash)
    ∷ ("decision_artifact_path", text "decision.json")
    ∷ ("proposal_sha256", text hash)
    ∷ ("design_sha256", text hash)
    ∷ []

abbrev lifecycle : Payload
lifecycle =
    ("map_ref", text "map")
    ∷ ("map_commitment", text "commitment")
    ∷ ("tokens", sequence (values (map (λ (t : String). text t) assignment_ids)))
    ∷ ("pre_map_input_hash", text hash)
    ∷ ("authorization_rule_sha256", text hash)
    ∷ []

abbrev score : String → Value
score t = mapping (items (("blind_id", text t) ∷ ("direction", text "d") ∷ []))

abbrev row : String → Value
row t = mapping (
    items (
      ("blind_id", text t)
      ∷ ("scenario", text "core-1")
      ∷ ("condition", text "A")
      ∷ ("direction", text "d")
      ∷ []))

abbrev release : Payload
release =
    ("assignments", sequence (values (map row assignment_ids)))
    ∷ (
      "preferred_directions",
      mapping (
          items
            (("core-1", text "d") ∷ ("core-2", text "d") ∷ ("negative-control", text "d") ∷ [])),
    )
    ∷ ("authorization_rule", authorization_rule)
    ∷ ("release_sha256", text hash)
    ∷ []

-- what the activities give, in the order of the awaits
abbrev outcomes : List Outcome
outcomes =
    activity_result (result_of authorization)
    ∷ activity_result (result_of (("eligible", flag true) ∷ []))
    ∷ returned (result_of (("accepted", flag true) ∷ []))
    ∷ malformed
    ∷ activity_result (result_of published)
    ∷ returned (result_of accepted_design)
    ∷ returned (result_of accepted_design)
    ∷ malformed
    ∷ activity_result (result_of published)
    ∷ activity_result (result_of lifecycle)
    ∷ returned (result_of accepted_design)
    ∷ returned (result_of (("accepted", flag true) ∷ []))
    ∷ activity_result
        (result_of (("blind_scores", sequence (values (map score assignment_ids))) ∷ []))
    ∷ returned (result_of (("accepted", flag true) ∷ []))
    ∷ returned (result_of release)
    ∷ returned (result_of (("authorized", flag true) ∷ []))
    ∷ returned (result_of [])
    ∷ []

unfoldable outcome_at : ℕ → List Outcome → Outcome
outcome_at n [] = malformed
outcome_at zero (o ∷ os) = o
outcome_at (suc n) (o ∷ os) = outcome_at n os

abbrev wire_of : String → ℕ → Wire
wire_of action n = record {
  target_kind = "experiment";
  target_id = "experiment";
  action = action;
  proposal_hash = hash;
  expected_revision_hash = hash;
  sequence = n;
  hash = hash;
  json = text action;
}

abbrev updates_at : ℕ → List Wire
updates_at n =
    if n == 3
    then wire_of "submit_design" 1 ∷ []
    else if n == 7
    then wire_of "approve_freeze" 2 ∷ []
    else []

world_of : List Outcome → World
unfolding outcome_at
world_of given = record {
  activity = λ n name request. outcome_at n given;
  updates = updates_at;
  workflow_id = "workflow";
  run_id = "run";
  canonical_hash = λ payload. hash;
  valid_wire = λ input revision wire. true;
  lower = λ t. t;
}

token_of : Option Value → String
token_of (some (text t)) = t
token_of _ = ""

abbrev trial_packet : String → Payload
trial_packet t =
    ("blind_id", text t)
    ∷ ("fixture", text "fixture")
    ∷ ("protocol_valid", flag true)
    ∷ ("verifier_passed", flag true)
    ∷ ("observer_state", text "complete")
    ∷ ("direction_code", text "d")
    ∷ ("changed_paths", text "none")
    ∷ ("evidence_id", text t)
    ∷ []

trials : TrialWorld
unfolding token_of get
trials = record {
  outcome = λ request.
      let t = token_of (get "token" request) in
      activity_result (record { payload = trial_packet t; artifact_sha256 = t });
  done = λ n. assignment_ids;
  is_interrupted = λ n. false;
  is_drain_interrupted = λ n. false;
  is_last_drain_interrupted = λ n. false;
}

abbrev verdict : ExperimentResult
verdict = record {
  experiment_id = "experiment";
  claim_sha256 = hash;
  status = authorized;
  artifact_sha256 = some hash;
}

run-authorized_returns : (run ⦃world = world_of outcomes⦄ trials (new input)).0 ≡ ok verdict
unfolding run world_of trials items elements values value_beq all_texts all_mappings has_key
    entries_of is_digest claim_authorization matches_authorization advance_gate commit_terminal
    execute_gate are_public_items initialize execute deliver wait_condition decision
    record_map_lifecycle g5_release deidentified_outcomes blind_scores field_texts collect_trials
    collect_rounds collect_round drain_trials record_all first_completed done_tasks dispatch_trials
    dispatch_one record_trial_completion g3_trial_data settle_trial remove fill_accounting accepted
    dispositions_of claim_and_commit_g0 terminal_result finish_released commit_g0
    commit_design_gates prepare_freeze commit_g3 commit_run commit_trials complete_after_g3
run-authorized_returns = refl

run-authorized_example :
    ((run ⦃world = world_of outcomes⦄ trials (new input)).1.authorization_claimed ≡ true)
    × (artifact_gates (run ⦃world = world_of outcomes⦄ trials (new input)).1 ≡ gate_names)
    × ((h : String) × (verdict.artifact_sha256 ≡ some h)
        × (has_artifact g6 h (run ⦃world = world_of outcomes⦄ trials (new input)).1.gate_artifacts
            ≡ true))
run-authorized_example =
    run-authorized ⦃world = world_of outcomes⦄ trials input run-authorized_returns refl

run-terminal_example :
    ((run ⦃world = world_of outcomes⦄ trials (new input)).1.terminal_committed ≡ true)
    × ((run ⦃world = world_of outcomes⦄ trials (new input)).1.gate ≡ authorized)
    × (is_terminal_gate authorized ≡ true)
    × InOrder (run ⦃world = world_of outcomes⦄ trials (new input)).1.gate_artifacts
run-terminal_example = run-terminal ⦃world = world_of outcomes⦄ trials input run-authorized_returns

-- An activity that fails for a reason of its own ends the run with that error.
run-raises_returns :
    (run ⦃world = world_of (failed false ∷ [])⦄ trials (new input)).0 ≡ err (activity_error false)
unfolding run world_of value_beq are_public_items is_digest initialize execute deliver
    claim_and_commit_g0 items
run-raises_returns = refl

run-raises_example :
    ((run ⦃world = world_of (failed false ∷ [])⦄ trials (new input)).1.terminal_committed ≡ false)
    × (is_terminal_gate (run ⦃world = world_of (failed false ∷ [])⦄ trials (new input)).1.gate
        ≡ false)
    × InOrder (run ⦃world = world_of (failed false ∷ [])⦄ trials (new input)).1.gate_artifacts
run-raises_example =
    run-raises ⦃world = world_of (failed false ∷ [])⦄ trials input run-raises_returns

-- an experiment that is at G5, with the release that it has recorded
abbrev released : InstructionExperimentWorkflow
released = record (new input) {
  gate = g5;
  authorization_claimed = true;
  initialized = true;
  gate_artifacts = (g0, hash) ∷ (g1, hash) ∷ (g2, hash) ∷ (g3, hash) ∷ (g4, hash) ∷ (g5, hash) ∷ [];
  frozen_design_sha256 = some hash;
  release_payload = some release;
}

released-Live : Live released
released-Live = record {
  in_order = (refl, (refl, (refl, (refl, (refl, (refl, tt))))));
  claimed = λ e. ground arith;
  opened = refl;
  ongoing = refl;
}

abbrev late_outcomes : List Outcome
late_outcomes = returned (result_of (("authorized", flag true) ∷ [])) ∷ returned (result_of []) ∷ []

handle_cancellation_returns :
    (handle_cancellation ⦃world = world_of late_outcomes⦄ released).0 ≡ ok verdict
unfolding handle_cancellation finish_released terminal_result execute_gate execute deliver world_of
    advance_gate commit_terminal is_digest value_beq is_within
handle_cancellation_returns = refl

handle_cancellation-status_example :
    (same_gate authorized canceled
      ≡ not (same_gate g5 releasing || same_gate g5 g5 || same_gate g5 g6))
    × ((same_gate authorized authorized
          || same_gate authorized completed_not_authorized
          || same_gate authorized protocol_failure)
        ≡ (same_gate g5 releasing || same_gate g5 g5 || same_gate g5 g6))
handle_cancellation-status_example =
    handle_cancellation-status ⦃world = world_of late_outcomes⦄ released released-Live
      handle_cancellation_returns

-- the same experiment once G6 is recorded
abbrev analysed : InstructionExperimentWorkflow
analysed = record released {
  gate = g6;
  gate_artifacts =
      (g0, hash) ∷ (g1, hash) ∷ (g2, hash) ∷ (g3, hash) ∷ (g4, hash) ∷ (g5, hash) ∷ (g6, hash) ∷ [];
}

analysed-Live : Live analysed
analysed-Live = record {
  in_order = (refl, (refl, (refl, (refl, (refl, (refl, (refl, tt)))))));
  claimed = λ e. ground arith;
  opened = refl;
  ongoing = refl;
}

handle_cancellation_at_g6_example :
    (is_ok (handle_cancellation ⦃world = world_of late_outcomes⦄ analysed).0 ≡ false)
    × ((handle_cancellation ⦃world = world_of late_outcomes⦄ analysed).1.terminal_committed ≡ false)
handle_cancellation_at_g6_example =
    handle_cancellation_at_g6 ⦃world = world_of late_outcomes⦄ analysed analysed-Live refl refl

abbrev request : String → Payload
request = trial_request "map" hash

abbrev first_trials : TrialRun
first_trials = dispatch_trials 20 assignment_ids no_trials

collect_rounds-Bounded_example :
    Bounded (collect_rounds trials request assignment_ids 20 0 first_trials)
collect_rounds-Bounded_example =
    collect_rounds-Bounded trials request assignment_ids 20 0 first_trials
      (dispatch_trials-Bounded 20 assignment_ids no_trials no_trials-Bounded)
