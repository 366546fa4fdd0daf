-- ===== src/Workflows/Experiment/Run.antt =====
-- `InstructionExperimentWorkflow.run`, with what it does on errors and cancellations.
use instruct_eval.Common.{Bool, true, false, not, if◌then◌else◌}
use instruct_eval.Exec.{Result, ok, err, raise, gets, ◌>>=◌, ◌>>◌}
use instruct_eval.Workflows.Experiment.{
  ExperimentGate, releasing, g5, g6, protocol_failure, canceled, InstructionExperimentWorkflow,
  Workflow, WorkflowError, is_protocol_error, activity_error, cancelled,
}
use instruct_eval.Workflows.Experiment.Pending.{recover_pending_gate}
use instruct_eval.Workflows.Experiment.Decisions.{World, at_gate, execute}
use instruct_eval.Workflows.Experiment.Packets.{initialize}
use instruct_eval.Workflows.Experiment.Trials.{TrialWorld}
use instruct_eval.Workflows.Experiment.Stages.{
  ExperimentResult, experiment_result, optional_text, terminal_result, finish_released,
}
use instruct_eval.Workflows.Experiment.Completion.{release_g5, run_stages}

-- which of the `except` clauses of `run` an error has, if any
pub data Handler : Type 0 where
  protocol cancellation unhandled : Handler

abbrev pub handler_of : WorkflowError → Handler
handler_of (activity_error true) = protocol
handler_of cancelled = cancellation
handler_of e = if is_protocol_error e then protocol else unhandled

-- whether the release is irreversible at a gate
abbrev pub is_released_gate : ExperimentGate → Bool
is_released_gate releasing = true
is_released_gate g5 = true
is_released_gate g6 = true
is_released_gate _ = false

module _ ⦃world : World⦄ where
  -- `_handle_cancellation` where the release is irreversible, by the gate
  unfoldable pub finish_release : ExperimentGate → Workflow ExperimentResult
  finish_release releasing = do
    design ← gets (λ w. w.frozen_design_sha256)
    blind_ids ← gets (λ w. w.release_blind_ids)
    release_g5 (optional_text design) blind_ids
  finish_release _ = finish_released

  -- `_handle_cancellation` before the release
  unfoldable pub commit_cancellation : Workflow ExperimentResult
  commit_cancellation = do
    recover_pending_gate (λ n request. execute n (at_gate request))
    terminal_result canceled "operator_cancelled"

  -- `_handle_cancellation` of an initialized experiment that has no terminal state
  unfoldable pub cancel_at : ExperimentGate → Workflow ExperimentResult
  unfolding finish_release commit_cancellation
  cancel_at gate = if is_released_gate gate then finish_release gate else commit_cancellation

  -- `_handle_cancellation`
  unfoldable pub handle_cancellation : Workflow ExperimentResult
  unfolding initialize cancel_at experiment_result
  handle_cancellation = do
    initialize
    ended ← gets (λ w. w.terminal_committed)
    if ended then experiment_result else do gate ← gets (λ w. w.gate); cancel_at gate

  -- `_handle_protocol_failure`
  unfoldable pub handle_protocol_failure : Workflow ExperimentResult
  unfolding initialize experiment_result
  handle_protocol_failure = do
    initialize
    ended ← gets (λ w. w.terminal_committed)
    if not ended then terminal_result protocol_failure "protocol_failure" else experiment_result

  -- the `except` clauses of `run`
  unfoldable pub answer : Handler → WorkflowError → Workflow ExperimentResult
  unfolding handle_cancellation handle_protocol_failure
  answer protocol e = handle_protocol_failure
  answer cancellation e = handle_cancellation
  answer unhandled e = raise e

  unfoldable pub handle : WorkflowError → Workflow ExperimentResult
  unfolding answer
  handle e = answer (handler_of e) e

  -- what `run` does after `_run` has ended in a state
  unfoldable pub catch :
      Result WorkflowError ExperimentResult × InstructionExperimentWorkflow
      → Result WorkflowError ExperimentResult × InstructionExperimentWorkflow
  unfolding handle
  catch (ok end, w) = (ok end, w)
  catch (err e, w) = handle e w

  -- `run`
  unfoldable pub run : TrialWorld → Workflow ExperimentResult
  unfolding run_stages catch
  run trial_world w = catch (run_stages trial_world w)
