-- ===== src/Workflows/Experiment/Ending.antt =====
-- How `InstructionExperimentWorkflow.run` ends: each stage, on the way to G3 and after it.
pub mod Design
pub mod Release
pub mod Run
pub mod Verdict
pub mod Late
use instruct_eval.Common.{
  ℕ, String, ◌≡◌, refl, Bool, true, false, not, Option, none, some, List, [], ◌∷◌, arith,
  if◌then◌else◌, length,
}
use instruct_eval.Exec.{
  Exec, Result, ok, err, pure, raise, raise_if, modify, gets, or_raise, ◌>>=◌, ◌>>◌,
}
use instruct_eval.Exec.Ensures.{
  Post, Ensures, Ensures-bind, Ensures-pure, Ensures-raise, Ensures-if, Ensures-weaken,
}
use instruct_eval.Workflows.Json.{
  Payload, Value, Values, text, flag, number, other, sequence, mapping, get,
}
use instruct_eval.Workflows.Experiment.{
  ExperimentGate, g0, g1, g2, g3, g4, g5, g6, authorized, completed_not_authorized,
  protocol_failure, canceled, InstructionExperimentWorkflow, Workflow, WorkflowError, GateResult,
  advance_gate, same_gate, is_terminal_gate, claim_authorization,
}
use instruct_eval.Workflows.Experiment.Decisions.{World}
use instruct_eval.Workflows.Experiment.Quiet.{
  Quiet, quiet_rules, commit_gate-Quiet, execute_activity-Quiet, wait_condition-Quiet,
  initialize-Quiet, g5_release-Quiet,
}
use instruct_eval.Workflows.Experiment.Sound.{
  Live, Ready, Live-by, Quiet-Live, Live-then, Ready-then,
}
use instruct_eval.Workflows.Experiment.Ends.{
  Ends, NextEnds, advance_gate-Live, advance_gate-Ready, terminal_result-Ends, Live-Ready,
  terminal_result-Live, finished-Ends, continued-Ends, finish-Ends, Next-then, modify-Live,
  reject_at-Ends,
}
use instruct_eval.Workflows.Experiment.Stages.{
  ExperimentResult, Next, finished, continued, conclude_g6, finish_released, conclude_g0, commit_g0,
  claimed_or_rejected, claim_and_commit_g0, terminal_result, commit_gate,
}

pub ruleset live_rules = (
  Live-then, Ensures-if, finish-Ends, continued-Ends, reject_at-Ends, terminal_result-Live,
  advance_gate-Live, Quiet-Live, quiet_rules, commit_gate-Quiet, execute_activity-Quiet,
  wait_condition-Quiet,
)

-- the gates at which an experiment ends whose release has begun
abbrev pub is_release_end : ExperimentGate → Bool
is_release_end authorized = true
is_release_end completed_not_authorized = true
is_release_end protocol_failure = true
is_release_end _ = false

claim-Live : (found : GateResult) → Ensures Live (claim_authorization found) (λ _. Live) Live
unfolding claim_authorization
claim-Live found = record { at = λ w h. ground arith }

module _ ⦃world : World⦄ where
  -- Once all gates have artifacts, the experiment may end in any way.
  complete-Ends :
      (terminal : ExperimentGate) (reason : String)
      → is_terminal_gate terminal ≡ true
      → is_release_end terminal ≡ true
      → Ensures (Ready authorized) (terminal_result terminal reason) (Ends is_release_end) Live
  complete-Ends terminal reason t s =
      Ensures-weaken (terminal_result terminal reason)
        (λ w h. record { live = h.live; complete = λ _. h.complete refl }) (λ a w h. h) (λ w h. h)
        (terminal_result-Ends is_release_end terminal reason t s)

  conclude_g6-Ends :
      (found : Option Value)
      → Ensures (Ready authorized) (conclude_g6 found) (Ends is_release_end) Live
  unfolding conclude_g6
  conclude_g6-Ends (some (flag true)) = search complete-Ends
  conclude_g6-Ends (some (flag false)) = search complete-Ends
  conclude_g6-Ends (some (text _)) = search complete-Ends
  conclude_g6-Ends (some (number _)) = search complete-Ends
  conclude_g6-Ends (some (other _)) = search complete-Ends
  conclude_g6-Ends (some (sequence _)) = search complete-Ends
  conclude_g6-Ends (some (mapping _)) = search complete-Ends
  conclude_g6-Ends none = search complete-Ends

  advance_g6-then :
      (found : GateResult)
      → Ensures Live
          (do advance_gate g6 found; conclude_g6 (get "authorized" found.payload))
          (Ends is_release_end)
          Live
  advance_g6-then found =
      Ensures-bind (advance_gate g6 found) _ (advance_gate-Ready authorized found)
        (λ _. conclude_g6-Ends (get "authorized" found.payload))

  pub finish_released-Ends : Ensures Live finish_released (Ends is_release_end) Live
  unfolding finish_released
  finish_released-Ends = search (advance_g6-then, live_rules) depth 40

  conclude_g0-Ends :
      (found : GateResult) → Ensures Live (conclude_g0 found) (NextEnds is_terminal_gate) Live
  unfolding conclude_g0
  conclude_g0-Ends found = search live_rules depth 40

  commit_g0-Ends : Ensures Live commit_g0 (NextEnds is_terminal_gate) Live
  unfolding commit_g0
  commit_g0-Ends = search (live_rules, conclude_g0-Ends) depth 40

  claimed_or_rejected-Ends :
      (claimed : Bool) → Ensures Live (claimed_or_rejected claimed) (NextEnds is_terminal_gate) Live
  unfolding claimed_or_rejected
  claimed_or_rejected-Ends true = commit_g0-Ends
  claimed_or_rejected-Ends false = search live_rules depth 40

  pub claim_and_commit_g0-Ends : Ensures Live claim_and_commit_g0 (NextEnds is_terminal_gate) Live
  unfolding claim_and_commit_g0
  claim_and_commit_g0-Ends = search (live_rules, claim-Live, claimed_or_rejected-Ends) depth 60
