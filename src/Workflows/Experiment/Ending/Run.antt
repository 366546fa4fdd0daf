-- ===== src/Workflows/Experiment/Ending/Run.antt =====
-- How the whole run ends, also after an error or a cancellation.
use instruct_eval.Workflows.Experiment.Stages.{
  experiment_result, ExperimentResult, continued, claim_and_commit_g0, terminal_result,
}
use instruct_eval.Workflows.Experiment.Sound.{Quiet-Ensures, Same-Live, Live, Quiet-Live, Live-then}
use instruct_eval.Workflows.Experiment.Quiet.{Same, initialize-Quiet, recover_pending_gate-Quiet}
use instruct_eval.Workflows.Experiment.Packets.{initialize}
use instruct_eval.Workflows.Experiment.Design.{prepare_freeze, commit_design_gates, Design}
use instruct_eval.Workflows.Experiment.Completion.{
  commit_g3, after_g3, after_freeze, after_design, after_g0, run_stages,
}
use instruct_eval.Common.{◌∙◌, String, ◌≡◌, refl, Bool, true, false, not, arith, if◌then◌else◌}
use instruct_eval.Exec.{Result, ok, err, gets, ◌>>=◌}
use instruct_eval.Exec.Ensures.{Post, Ensures, Ensures-bind, Ensures-weaken}
use instruct_eval.Workflows.Experiment.{
  ExperimentGate, releasing, protocol_failure, canceled, InstructionExperimentWorkflow, Workflow,
  WorkflowError, is_terminal_gate,
}
use instruct_eval.Workflows.Experiment.Decisions.{World}
use instruct_eval.Workflows.Experiment.Ends.{Ends, terminal_result-Live, Next-then}
use instruct_eval.Workflows.Experiment.Trials.{TrialWorld}
use instruct_eval.Workflows.Experiment.Run.{
  finish_release, commit_cancellation, is_released_gate, cancel_at, handle_cancellation,
  handle_protocol_failure, Handler, protocol, cancellation, unhandled, handler_of, answer, handle,
  catch, run,
}
use instruct_eval.Workflows.Experiment.Ending.{
  live_rules, is_release_end, finish_released-Ends, claim_and_commit_g0-Ends,
}
use instruct_eval.Workflows.Experiment.Ending.Design.{commit_design_gates-Ends, prepare_freeze-Ends}
use instruct_eval.Workflows.Experiment.Ending.Release.{
  release_g5-Ends, release-Ends, commit_g3-Ends, complete_after_g3-Ends,
}

abbrev pub is_canceled : ExperimentGate → Bool
is_canceled canceled = true
is_canceled _ = false

module _ ⦃world : World⦄ where
  after_freeze-Ends :
      (trial_world : TrialWorld) (design : Design) (map_ref : String)
      → Ensures Live
          (after_freeze trial_world design (continued map_ref))
          (Ends is_terminal_gate)
          Live
  unfolding after_freeze
  after_freeze-Ends trial_world design map_ref =
      Next-then is_terminal_gate (commit_g3 trial_world map_ref design.design_sha256)
        (after_g3 design.design_sha256) (commit_g3-Ends trial_world map_ref design.design_sha256)
        (λ _. refl) (complete_after_g3-Ends design.design_sha256)

  after_design-Ends :
      (trial_world : TrialWorld) (design : Design)
      → Ensures Live (after_design trial_world (continued design)) (Ends is_terminal_gate) Live
  unfolding after_design
  after_design-Ends trial_world design =
      Next-then is_terminal_gate (prepare_freeze design) (after_freeze trial_world design)
        (prepare_freeze-Ends design) (λ _. refl) (after_freeze-Ends trial_world design)

  after_g0-Ends :
      (trial_world : TrialWorld)
      → Ensures Live (after_g0 trial_world (continued tt)) (Ends is_terminal_gate) Live
  unfolding after_g0
  after_g0-Ends trial_world =
      Next-then is_terminal_gate commit_design_gates (after_design trial_world)
        commit_design_gates-Ends (λ _. refl) (after_design-Ends trial_world)

  run_stages-Ends :
      (trial_world : TrialWorld)
      → Ensures Live (run_stages trial_world) (Ends is_terminal_gate) Live
  unfolding run_stages
  run_stages-Ends trial_world = Live-then initialize _ (Quiet-Live initialize-Quiet) (λ _.
      Next-then is_terminal_gate claim_and_commit_g0 (after_g0 trial_world) claim_and_commit_g0-Ends
        (λ _. refl) (λ _. after_g0-Ends trial_world))

  -- what depends on whether an experiment has ended that has not
  unended :
      (Q : ExperimentResult → InstructionExperimentWorkflow → Type 0)
      (k : Bool → Workflow ExperimentResult) (ended : Bool) (w : InstructionExperimentWorkflow)
      → ended ≡ false
      → Post Q Live (k false w)
      → Post Q Live (k ended w)
  unended Q k ended w e h = rw e h

  -- from a gate at which the release is irreversible
  finish_release-Ends :
      (gate : ExperimentGate) → Ensures Live (finish_release gate) (Ends is_release_end) Live
  unfolding finish_release
  finish_release-Ends releasing = search (live_rules, release_g5-Ends) depth 40
  finish_release-Ends _ = finish_released-Ends

  commit_cancellation-Ends : Ensures Live commit_cancellation (Ends is_canceled) Live
  unfolding commit_cancellation
  commit_cancellation-Ends = search (live_rules, recover_pending_gate-Quiet) depth 40

  -- A cancellation ends as it does at the gate where it came, from what quiet actions keep.
  pub handle_cancellation-Ensures :
      (P : InstructionExperimentWorkflow → Type 0)
      (Q : ExperimentResult → InstructionExperimentWorkflow → Type 0) (gate : ExperimentGate)
      → ((w w' : InstructionExperimentWorkflow) → Same w w' → P w → P w')
      → ((w : InstructionExperimentWorkflow) → P w → Live w)
      → Ensures P (cancel_at gate) Q Live
      → Ensures (λ w. P w × (w.gate ≡ gate)) handle_cancellation Q Live
  unfolding handle_cancellation
  handle_cancellation-Ensures P Q gate keep live h =
      Ensures-bind initialize _
        (Ensures-weaken initialize (λ w x. x) (λ a w x. x) (λ w x. live w x.0)
          (Quiet-Ensures (λ w w' s x. (keep w w' s x.0, s.gate ∙ x.1)) initialize-Quiet))
        (λ _. record {
          at = λ w x.
              unended Q
                (λ ended.
                  if ended then experiment_result else do gate ← gets (λ w. w.gate); cancel_at gate)
                w.terminal_committed w (live w x.0).opened (at_its_gate w x);
        })
    where
      at_its_gate :
          (w : InstructionExperimentWorkflow)
          → P w × (w.gate ≡ gate)
          → Post Q Live (cancel_at w.gate w)
      at_its_gate w x = let here : Ensures P (cancel_at w.gate) Q Live = rw x.1 h in here.at w x.0

  pub handle_cancellation-Ends :
      (S : ExperimentGate → Bool) (gate : ExperimentGate)
      → Ensures Live (cancel_at gate) (Ends S) Live
      → Ensures (λ w. Live w × (w.gate ≡ gate)) handle_cancellation (Ends S) Live
  handle_cancellation-Ends S gate h =
      handle_cancellation-Ensures Live (Ends S) gate Same-Live (λ w x. x) h

  pub cancel_released :
      (gate : ExperimentGate)
      → is_released_gate gate ≡ true
      → Ensures Live (cancel_at gate) (Ends is_release_end) Live
  unfolding cancel_at
  cancel_released gate r = rw r (finish_release-Ends gate)

  pub cancel_unreleased :
      (gate : ExperimentGate)
      → is_released_gate gate ≡ false
      → Ensures Live (cancel_at gate) (Ends is_canceled) Live
  unfolding cancel_at
  cancel_unreleased gate r = rw r commit_cancellation-Ends

  handle_protocol_failure-Ends : Ensures Live handle_protocol_failure (Ends is_terminal_gate) Live
  unfolding handle_protocol_failure
  handle_protocol_failure-Ends = Live-then initialize _ (Quiet-Live initialize-Quiet) (λ _. record {
    at = λ w x.
        unended (Ends is_terminal_gate)
          (λ ended.
            if not ended
            then terminal_result protocol_failure "protocol_failure"
            else experiment_result)
          w.terminal_committed w x.opened
          ((terminal_result-Live is_terminal_gate protocol_failure "protocol_failure" refl refl
              refl).at
            w x);
  })

  terminal_canceled :
      (gate : ExperimentGate) → is_canceled gate ≡ true → is_terminal_gate gate ≡ true
  terminal_canceled gate h = ground arith

  listed_canceled :
      (end : ExperimentResult) (w : InstructionExperimentWorkflow)
      → Ends is_canceled end w
      → Ends is_terminal_gate end w
  listed_canceled end w h = record {
    closed = h.closed;
    status = h.status;
    listed = terminal_canceled end.status h.listed;
    artifact = h.artifact;
  }

  cancel_at-Ends :
      (gate : ExperimentGate) (released : Bool)
      → is_released_gate gate ≡ released
      → Ensures Live (cancel_at gate) (Ends is_terminal_gate) Live
  cancel_at-Ends gate true r = release-Ends (cancel_at gate) (cancel_released gate r)
  cancel_at-Ends gate false r =
      Ensures-weaken (cancel_at gate) (λ w x. x) listed_canceled (λ w x. x)
        (cancel_unreleased gate r)

  any_cancellation-Ends : Ensures Live handle_cancellation (Ends is_terminal_gate) Live
  any_cancellation-Ends = record {
    at = λ w x.
        (handle_cancellation-Ends is_terminal_gate w.gate (cancel_at-Ends w.gate _ refl)).at w
          (x, refl);
  }

  answer-Ends :
      (handler : Handler) (e : WorkflowError)
      → Ensures Live (answer handler e) (Ends is_terminal_gate) Live
  unfolding answer
  answer-Ends protocol e = handle_protocol_failure-Ends
  answer-Ends cancellation e = any_cancellation-Ends
  answer-Ends unhandled e = record { at = λ w x. x }

  catch-Ends :
      (r : Result WorkflowError ExperimentResult × InstructionExperimentWorkflow)
      → Post (Ends is_terminal_gate) Live r
      → Post (Ends is_terminal_gate) Live (catch r)
  unfolding catch handle
  catch-Ends (ok end, w) p = p
  catch-Ends (err e, w) p = (answer-Ends (handler_of e) e).at w p

  pub run-Ends :
      (trial_world : TrialWorld) → Ensures Live (run trial_world) (Ends is_terminal_gate) Live
  unfolding run
  run-Ends trial_world = record {
    at = λ w x. catch-Ends (run_stages trial_world w) ((run_stages-Ends trial_world).at w x);
  }
