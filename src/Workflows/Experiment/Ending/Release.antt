-- ===== src/Workflows/Experiment/Ending/Release.antt =====
-- How the stages from the trials to the release end.
use instruct_eval.Common.{Option, none, some, String, ◌≡◌, true, List, arith}
use instruct_eval.Exec.Ensures.{Ensures, Ensures-weaken}
use instruct_eval.Workflows.Json.{Value}
use instruct_eval.Workflows.Experiment.{
  ExperimentGate, InstructionExperimentWorkflow, Workflow, WorkflowError, GateResult,
  is_terminal_gate,
}
use instruct_eval.Workflows.Experiment.Decisions.{World}
use instruct_eval.Workflows.Experiment.Quiet.{
  Quiet, quiet_rules, g5_release-Quiet, deidentified_outcomes-Quiet, blind_scores-Quiet,
}
use instruct_eval.Workflows.Experiment.Sound.{Live, Live-by}
use instruct_eval.Workflows.Experiment.Ends.{Ends, NextEnds, modify-Live}
use instruct_eval.Workflows.Experiment.Stages.{ExperimentResult}
use instruct_eval.Workflows.Experiment.Ending.{live_rules, is_release_end, finish_released-Ends}
use instruct_eval.Workflows.Experiment.Results.{Outcomes}
use instruct_eval.Workflows.Experiment.Trials.{TrialRun, TrialData, TrialWorld}
use instruct_eval.Workflows.Experiment.Completion.{
  G3Outcomes, g3_outcomes, conclude_g3, commit_trials, raise_raised, commit_run, commit_g3,
  conclude_g5, release_g5, conclude_g4, complete_after_g3,
}

terminal_release :
    (gate : ExperimentGate) → is_release_end gate ≡ true → is_terminal_gate gate ≡ true
terminal_release gate h = ground arith

listed_release :
    (end : ExperimentResult) (w : InstructionExperimentWorkflow)
    → Ends is_release_end end w
    → Ends is_terminal_gate end w
listed_release end w h = record {
  closed = h.closed;
  status = h.status;
  listed = terminal_release end.status h.listed;
  artifact = h.artifact;
}

module _ ⦃world : World⦄ where
  g3_outcomes-Quiet : (trials : TrialData) → Quiet (g3_outcomes trials)
  unfolding g3_outcomes
  g3_outcomes-Quiet trials = search (quiet_rules, deidentified_outcomes-Quiet)

  raise_raised-Quiet : (raised : Option WorkflowError) → Quiet (raise_raised raised)
  unfolding raise_raised
  raise_raised-Quiet none = search quiet_rules
  raise_raised-Quiet (some e) = search quiet_rules

  conclude_g3-Ends :
      (state : TrialRun) (trials : TrialData) (outcomes : Outcomes) (found : GateResult)
      → Ensures Live (conclude_g3 state trials outcomes found) (NextEnds is_terminal_gate) Live
  unfolding conclude_g3
  conclude_g3-Ends state trials outcomes found = search live_rules depth 40

  commit_trials-Ends :
      (design : String) (state : TrialRun) (trials : TrialData)
      → Ensures Live (commit_trials design state trials) (NextEnds is_terminal_gate) Live
  unfolding commit_trials
  commit_trials-Ends design state trials =
      search (live_rules, g3_outcomes-Quiet, conclude_g3-Ends) depth 40

  pub commit_g3-Ends :
      (trial_world : TrialWorld) (map_ref design : String)
      → Ensures Live (commit_g3 trial_world map_ref design) (NextEnds is_terminal_gate) Live
  unfolding commit_g3 commit_run
  commit_g3-Ends trial_world map_ref design =
      search (live_rules, raise_raised-Quiet, commit_trials-Ends) depth 40

  pub conclude_g5-Ends :
      (blind_ids : List String) (found : GateResult)
      → Ensures Live (conclude_g5 blind_ids found) (Ends is_release_end) Live
  unfolding conclude_g5
  conclude_g5-Ends blind_ids found =
      search (live_rules, g5_release-Quiet, finish_released-Ends) depth 40

  pub release_g5-Ends :
      (design : Value) (blind_ids : List String)
      → Ensures Live (release_g5 design blind_ids) (Ends is_release_end) Live
  unfolding release_g5
  release_g5-Ends design blind_ids = search (live_rules, conclude_g5-Ends) depth 40

  pub release-Ends :
      (m : Workflow ExperimentResult)
      → Ensures Live m (Ends is_release_end) Live
      → Ensures Live m (Ends is_terminal_gate) Live
  release-Ends m h = Ensures-weaken m (λ w x. x) listed_release (λ w x. x) h

  conclude_g4-Ends :
      (design : String) (blind_ids : List String) (found : GateResult)
      → Ensures Live (conclude_g4 design blind_ids found) (Ends is_terminal_gate) Live
  unfolding conclude_g4
  conclude_g4-Ends design blind_ids found =
      search (live_rules, modify-Live, Live-by, release-Ends, release_g5-Ends) depth 40

  pub complete_after_g3-Ends :
      (design : String) (found : G3Outcomes)
      → Ensures Live (complete_after_g3 design found) (Ends is_terminal_gate) Live
  unfolding complete_after_g3
  complete_after_g3-Ends design found =
      search (live_rules, blind_scores-Quiet, conclude_g4-Ends) depth 40
