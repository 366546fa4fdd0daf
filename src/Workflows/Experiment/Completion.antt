-- ===== src/Workflows/Experiment/Completion.antt =====
-- The stages of `InstructionExperimentWorkflow` from the trials to the release, and its run.
use instruct_eval.Common.{
  String, true, not, ◌||◌, Option, none, some, List, [], ◌∷◌, map, ◌==◌, nat_eq, string_eq,
  option_eq, if◌then◌else◌, length,
}
use instruct_eval.Exec.{pure, raise, raise_if, modify, gets, ◌>>=◌, ◌>>◌}
use instruct_eval.Trials.Authorization.{assignment_ids}
use instruct_eval.Trials.Dispatcher.{
  Disposition, started, result, terminal, indeterminate, canceled_before_invocation,
  unscheduled_due_to_terminal, unscheduled_due_to_cancellation,
}
use instruct_eval.Workflows.Json.{
  Value, Payload, text, flag, other, sequence, mapping, items, values, get, is_flag,
}
use instruct_eval.Workflows.Experiment.{
  key_error, g3, g4, releasing, g5, scoring_rejected, protocol_failure, canceled, GateResult,
  Workflow, WorkflowError, advance_gate,
}
use instruct_eval.Workflows.Experiment.Decisions.{World}
use instruct_eval.Workflows.Experiment.Results.{
  Outcomes, Scored, deidentified_outcomes, blind_scores, zip, sort_scored, same_scored, g5_release,
}
use instruct_eval.Workflows.Experiment.Trials.{
  TrialWorld, TrialRun, TrialData, trial_request, collect_trials, g3_trial_data,
}
use instruct_eval.Workflows.Experiment.Packets.{initialize}
use instruct_eval.Workflows.Experiment.Stages.{
  ExperimentResult, Next, finished, continued, optional_text, execute_activity, commit_gate,
  with_input, terminal_result, reject_at, finish_released, claim_and_commit_g0,
}
use instruct_eval.Workflows.Experiment.Design.{Design, commit_design_gates, prepare_freeze}

-- `_G3Outcomes`
pub record G3Outcomes : Type 0 where
  pub outcomes : List Payload
  pub blind_ids : List String
  pub directions : List String

-- a scored direction as JSON
abbrev scored_value : Scored → Value
scored_value s = mapping (items (("blind_id", text s.0) ∷ ("direction", text s.1) ∷ []))

-- the texts of the dispositions
abbrev disposition_text : Disposition → String
disposition_text started = "started"
disposition_text result = "result"
disposition_text terminal = "terminal"
disposition_text indeterminate = "indeterminate"
disposition_text canceled_before_invocation = "canceled-before-invocation"
disposition_text unscheduled_due_to_terminal = "UNSCHEDULED_DUE_TO_TERMINAL"
disposition_text unscheduled_due_to_cancellation = "UNSCHEDULED_DUE_TO_CANCELLATION"
disposition_text Disposition.other = ""

abbrev accounted_value : String × Option Disposition → Value
accounted_value (token, found) = mapping (
    items (
      ("token", text token)
      ∷ (
        "disposition",
        optional_text (elim found [ none ↦ none | some d ↦ some (disposition_text d) ]),
      )
      ∷ []))

-- a field of a packet, or JSON's null
abbrev or_null : Option Value → Value
or_null none = other "null"
or_null (some v) = v

module _ ⦃world : World⦄ where
  -- the request of G3
  g3_request : String → TrialData → Payload
  unfolding get
  g3_request design_sha256 trials =
      let hashes : List Value =
        map (λ (found : GateResult). text found.artifact_sha256) trials.accepted_trials in
      ("gate", text "G3")
      ∷ ("design_sha256", text design_sha256)
      ∷ ("outcome_sha256s", sequence (values hashes))
      ∷ (
        "outcomes_sha256",
        text (world.canonical_hash (("outcome_sha256s", sequence (values hashes)) ∷ [])),
      )
      ∷ ("trial_accounting", sequence (values (map accounted_value trials.trial_accounting)))
      ∷ ("protocol_valid", flag trials.all_accepted)
      ∷ (
        "verifier_passed",
        sequence (
            values (
              map (λ (found : GateResult). or_null (get "verifier_passed" found.payload))
                trials.accepted_trials)),
      )
      ∷ ("accepted", flag trials.all_accepted)
      ∷ []

  -- `_deidentified_outcomes` when all trials are accepted, and no outcomes otherwise
  unfoldable pub g3_outcomes : TrialData → Workflow Outcomes
  unfolding deidentified_outcomes
  g3_outcomes trials =
      if length trials.accepted_trials == length assignment_ids
      then deidentified_outcomes
          (map (λ (found : GateResult). found.payload) trials.accepted_trials)
      else pure (record { packets = []; blind_ids = []; directions = [] })

  -- `_commit_g3` once G3 is committed
  unfoldable pub conclude_g3 :
      TrialRun → TrialData → Outcomes → GateResult → Workflow (Next G3Outcomes)
  unfolding get
  conclude_g3 state trials outcomes found =
      if state.is_cancelled
      then reject_at g3 found canceled "operator_cancelled"
      else if (not trials.all_accepted || not (is_flag true (get "accepted" found.payload)))
      then reject_at g3 found protocol_failure "G3 protocol failure"
      else do
        advance_gate g3 found
        pure (
            continued (record {
              outcomes = outcomes.packets;
              blind_ids = outcomes.blind_ids;
              directions = outcomes.directions;
            }))

  -- `_commit_g3` with the trials that `_collect_trials` has collected
  unfoldable pub commit_trials : String → TrialRun → TrialData → Workflow (Next G3Outcomes)
  unfolding g3_request g3_outcomes conclude_g3
  commit_trials design_sha256 state trials = do
    outcomes ← g3_outcomes trials
    public_input ← gets (λ w. w.input.public_input)
    found ←
        commit_gate "instruct_eval.execution_commit" "ExecutionCommitRequest"
          (with_input public_input (g3_request design_sha256 trials)) none
    conclude_g3 state trials outcomes found

  -- what `_collect_trials` raises
  unfoldable pub raise_raised : Option WorkflowError → Workflow (Unit {0})
  raise_raised none = pure tt
  raise_raised (some e) = raise e

  -- `_commit_g3` on the tokens of the map
  unfoldable pub commit_run :
      TrialWorld → String → String → List String → Workflow (Next G3Outcomes)
  unfolding commit_trials raise_raised
  commit_run trial_world map_ref design_sha256 tokens =
      let state = collect_trials trial_world (trial_request map_ref design_sha256) tokens in
      let trials = g3_trial_data tokens state in
      (do
        raise_raised state.raised
        raise_if trials.has_key_error key_error
        commit_trials design_sha256 state trials)

  -- `_commit_g3`
  unfoldable pub commit_g3 : TrialWorld → String → String → Workflow (Next G3Outcomes)
  unfolding commit_run
  commit_g3 trial_world map_ref design_sha256 = do
    tokens ← gets (λ w. w.trial_tokens)
    commit_run trial_world map_ref design_sha256 tokens

  -- what follows G5 once it is committed, also after a cancellation
  unfoldable pub conclude_g5 : List String → GateResult → Workflow ExperimentResult
  conclude_g5 blind_ids found = do
    packet ← g5_release found.payload blind_ids
    modify (λ w. record w { release_payload = some packet })
    advance_gate g5 found
    finish_released

  -- the commit of G5, also after a cancellation
  unfoldable pub release_g5 : Value → List String → Workflow ExperimentResult
  unfolding conclude_g5
  release_g5 design blind_ids = do
    found ←
        commit_gate "instruct_eval.release" "ReleaseRequest" (("design_sha256", design) ∷ [])
          (some "instruct-eval-release-g5")
    conclude_g5 blind_ids found

  -- `_complete_after_g3` once G4 is committed
  unfoldable pub conclude_g4 : String → List String → GateResult → Workflow ExperimentResult
  unfolding get release_g5
  conclude_g4 design_sha256 blind_ids found =
      if not (is_flag true (get "accepted" found.payload))
      then (do advance_gate g4 found; terminal_result scoring_rejected "G4 scorer disagreement")
      else (do
        advance_gate g4 found
        modify (λ w. record w { release_blind_ids = blind_ids; gate = releasing })
        release_g5 (text design_sha256) blind_ids)

  -- `_complete_after_g3`
  unfoldable pub complete_after_g3 : String → G3Outcomes → Workflow ExperimentResult
  unfolding get conclude_g4
  complete_after_g3 design_sha256 g3_found = do
    evidence ← execute_activity "instruct_eval.evidence_audit" (
        ("design_sha256", text design_sha256)
        ∷ (
          "outcomes",
          sequence (values (map (λ (p : Payload). mapping (items p)) g3_found.outcomes)),
        )
        ∷ [])
    scored ← blind_scores (get "blind_scores" evidence.payload) g3_found.blind_ids
    found ←
        commit_gate "instruct_eval.post_run_validity" "PostRunValidityRequest"
          (("gate", text "G4")
            ∷ ("evidence_sha256", text evidence.artifact_sha256)
            ∷ ("design_sha256", text design_sha256)
            ∷ ("blind_scores", sequence (values (map scored_value scored)))
            ∷ (
              "scorer_agrees",
              flag (
                  same_scored (sort_scored scored)
                    (sort_scored (zip g3_found.blind_ids g3_found.directions))),
            )
            ∷ [])
          none
    conclude_g4 design_sha256 g3_found.blind_ids found

  -- the stages of `_run`, each on what the one before returns
  unfoldable pub after_g3 : String → Next G3Outcomes → Workflow ExperimentResult
  unfolding complete_after_g3
  after_g3 design_sha256 (finished end) = pure end
  after_g3 design_sha256 (continued found) = complete_after_g3 design_sha256 found

  unfoldable pub after_freeze : TrialWorld → Design → Next String → Workflow ExperimentResult
  unfolding commit_g3 after_g3
  after_freeze trial_world design (finished end) = pure end
  after_freeze trial_world design (continued map_ref) = do
    found ← commit_g3 trial_world map_ref design.design_sha256
    after_g3 design.design_sha256 found

  unfoldable pub after_design : TrialWorld → Next Design → Workflow ExperimentResult
  unfolding after_freeze
  after_design trial_world (finished end) = pure end
  after_design trial_world (continued design) = do
    found ← prepare_freeze design
    after_freeze trial_world design found

  unfoldable pub after_g0 : TrialWorld → Next (Unit {0}) → Workflow ExperimentResult
  unfolding after_design
  after_g0 trial_world (finished end) = pure end
  after_g0 trial_world (continued _) = do
    found ← commit_design_gates
    after_design trial_world found

  -- `_run`
  unfoldable pub run_stages : TrialWorld → Workflow ExperimentResult
  unfolding initialize after_g0
  run_stages trial_world = do initialize; found ← claim_and_commit_g0; after_g0 trial_world found
