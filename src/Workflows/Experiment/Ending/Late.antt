-- ===== src/Workflows/Experiment/Ending/Late.antt =====
-- What a cancellation does once G6 is recorded.
use instruct_eval.Common.{◌≡◌, refl, false, arith, length}
use instruct_eval.Exec.{Result, ok, err, ◌>>◌, is_ok}
use instruct_eval.Exec.Ensures.{Post, Ensures, Ensures-bind}
use instruct_eval.Workflows.Json.{get}
use instruct_eval.Workflows.Experiment.{
  g6, authorized, InstructionExperimentWorkflow, WorkflowError, GateResult, advance_gate, name_at,
}
use instruct_eval.Workflows.Experiment.Decisions.{World}
use instruct_eval.Workflows.Experiment.Quiet.{quiet_rules, commit_gate-Quiet}
use instruct_eval.Workflows.Experiment.Sound.{Live, Ready, Ready-then, Same-Ready}
use instruct_eval.Workflows.Experiment.Stages.{ExperimentResult, conclude_g6, finish_released}
use instruct_eval.Workflows.Experiment.Run.{cancel_at, finish_release, handle_cancellation}
use instruct_eval.Workflows.Experiment.Ending.Run.{handle_cancellation-Ensures}

-- no result at all
abbrev Never : {A : Type 0} → A → InstructionExperimentWorkflow → Type 0
Never a w = ⊥

advance-exhausted :
    (found : GateResult) (w : InstructionExperimentWorkflow)
    → length w.gate_artifacts ≡ 7
    → (is_ok (advance_gate g6 found w).0 ≡ false) × ((advance_gate g6 found w).1 ≡ w)
unfolding advance_gate name_at
advance-exhausted found w seven = ground arith

advance-Never : (found : GateResult) → Ensures (Ready authorized) (advance_gate g6 found) Never Live
advance-Never found = record {
  at = λ w x.
      let left = advance-exhausted found w (x.complete refl) in
      never (advance_gate g6 found w) left.0 (rw left.1 x.live);
}
  where
    never :
        (r : Result WorkflowError (Unit {0}) × InstructionExperimentWorkflow)
        → is_ok r.0 ≡ false
        → Live r.1
        → Post Never Live r
    never (ok a, w) e x = ground arith
    never (err e, w) r x = x

module _ ⦃world : World⦄ where
  advance-then :
      (found : GateResult)
      → Ensures
          (Ready authorized)
          (do advance_gate g6 found; conclude_g6 (get "authorized" found.payload))
          Never
          Live
  advance-then found =
      Ensures-bind (advance_gate g6 found) _ (advance-Never found)
        (λ _. record { at = λ w x. absurd x })

  finish_released-Never : Ensures (Ready authorized) finish_released Never Live
  unfolding finish_released
  finish_released-Never = search (advance-then, Ready-then, quiet_rules, commit_gate-Quiet) depth 40

  cancel-Never : Ensures (Ready authorized) (cancel_at g6) Never Live
  unfolding cancel_at finish_release
  cancel-Never = finish_released-Never

  -- A cancellation of a running experiment at G6, where all gates have artifacts, raises: the
  -- release is not finished, and no terminal state is committed.
  pub handle_cancellation_at_g6 :
      (w : InstructionExperimentWorkflow)
      → Live w
      → w.gate ≡ g6
      → length w.gate_artifacts ≡ 7
      → (is_ok (handle_cancellation w).0 ≡ false)
        × ((handle_cancellation w).1.terminal_committed ≡ false)
  handle_cancellation_at_g6 w live gate seven = raises (handle_cancellation w) (
      (handle_cancellation-Ensures (Ready authorized) Never g6 (Same-Ready authorized)
          (λ w x. x.live) cancel-Never).at
        w (record { live = live; complete = λ _. seven }, gate))
    where
      raises :
          (r : Result WorkflowError ExperimentResult × InstructionExperimentWorkflow)
          → Post Never Live r
          → (is_ok r.0 ≡ false) × (r.1.terminal_committed ≡ false)
      raises (ok a, w) x = absurd x
      raises (err e, w) x = (refl, x.opened)
