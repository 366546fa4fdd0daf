-- ===== src/Workflows/Experiment/Quiet.antt =====
-- What awaits, checks and packets leave alone: the gate, the claim, the artifacts and the terminal
-- state of `InstructionExperimentWorkflow`.
use instruct_eval.Common.{
  ℕ, String, ◌≡◌, refl, ◌∙◌, Bool, true, false, not, Option, none, some, List, [], ◌∷◌, arith,
  if◌then◌else◌,
}
use instruct_eval.Exec.{raise_if, modify}
use instruct_eval.Exec.Keeps.{
  Keeps, IsPreorder, Keeps-pure, Keeps-raise, Keeps-gets, Keeps-or_raise, Keeps-if, Keeps-bind,
}
use instruct_eval.Workflows.Json.{Value, Payload}
use instruct_eval.Workflows.Experiment.{
  InstructionExperimentWorkflow, Workflow, WorkflowError, PendingGate,
}
use instruct_eval.Workflows.Experiment.Pending.{
  Outcome, pending_request, conclude_gate, execute_gate, recover_pending_gate, recover_from,
  conclude_recovery,
}
use instruct_eval.Workflows.Experiment.Decisions.{
  World, Wire, Request, next_await, reply, published_digest, validate_published_decision,
  stage_design, submit_design, conclude_decision, validate_decision, execute_decision, decision,
  deliver, execute, wait_condition, at_gate,
}
use instruct_eval.Workflows.Experiment.Packets.{initialize, check_public}
use instruct_eval.Workflows.Experiment.Results.{
  check_assignments, g5_release, deidentified_outcomes, blind_scores, record_map_lifecycle,
}
use instruct_eval.Workflows.Experiment.Stages.{conclude_activity, execute_activity, commit_gate}

pub record Same (w w' : InstructionExperimentWorkflow) : Type 0 where
  pub gate : w'.gate ≡ w.gate
  pub claimed : w'.authorization_claimed ≡ w.authorization_claimed
  pub terminal : w'.terminal_committed ≡ w.terminal_committed
  pub artifacts : w'.gate_artifacts ≡ w.gate_artifacts

Same-refl : (w : InstructionExperimentWorkflow) → Same w w
Same-refl w = record { gate = refl; claimed = refl; terminal = refl; artifacts = refl }

Same-trans : (u v w : InstructionExperimentWorkflow) → Same u v → Same v w → Same u w
Same-trans u v w h k = record {
  gate = k.gate ∙ h.gate;
  claimed = k.claimed ∙ h.claimed;
  terminal = k.terminal ∙ h.terminal;
  artifacts = k.artifacts ∙ h.artifacts;
}

pub same : IsPreorder Same
same = record { rel_refl = Same-refl; rel_trans = Same-trans }

abbrev pub Quiet : {A : Type 0} → Workflow A → Type 0
Quiet m = Keeps Same m

pub raise_if-Quiet : (b : Bool) (e : WorkflowError) → Quiet (raise_if b e)
raise_if-Quiet b e = record { at = Same-refl }

pub modify-Quiet :
    (f : InstructionExperimentWorkflow → InstructionExperimentWorkflow)
    → ((w : InstructionExperimentWorkflow) → Same w (f w))
    → Quiet (modify f)
modify-Quiet f h = record { at = h }

pub Same-by_refl :
    (w w' : InstructionExperimentWorkflow)
    → w'.gate ≡ w.gate
    → w'.authorization_claimed ≡ w.authorization_claimed
    → w'.terminal_committed ≡ w.terminal_committed
    → w'.gate_artifacts ≡ w.gate_artifacts
    → Same w w'
Same-by_refl w w' g c t a = record { gate = g; claimed = c; terminal = t; artifacts = a }

pub ruleset quiet_rules = (
  same, Keeps-pure, Keeps-raise, Keeps-gets, Keeps-or_raise, Keeps-if, Keeps-bind, raise_if-Quiet,
  modify-Quiet, Same-by_refl, refl,
)

published_digest-Quiet : (found : Option Value) (wire : Wire) → Quiet (published_digest found wire)
unfolding published_digest
published_digest-Quiet found wire = record { at = λ w. ground arith }

validate_published_decision-Quiet :
    (payload : Payload) (wire : Wire) → Quiet (validate_published_decision payload wire)
unfolding validate_published_decision
validate_published_decision-Quiet payload wire = search (quiet_rules, published_digest-Quiet)

stage_design-Quiet : (found : Option Value) → Quiet (stage_design found)
unfolding stage_design
stage_design-Quiet found = record { at = λ w. ground arith }

submit_design-Quiet : (payload : Payload) (wire : Wire) → Quiet (submit_design payload wire)
unfolding submit_design
submit_design-Quiet payload wire = search (quiet_rules, stage_design-Quiet)

conclude_decision-Quiet :
    (wire : Wire) (found : Option Payload) → Quiet (conclude_decision wire found)
unfolding conclude_decision
conclude_decision-Quiet wire none = search quiet_rules
conclude_decision-Quiet wire (some payload) =
    search (quiet_rules, validate_published_decision-Quiet, submit_design-Quiet)

module _ ⦃world : World⦄ where
  next_await-Quiet : Quiet next_await
  unfolding next_await
  next_await-Quiet = record { at = λ w. ground arith }

  reply-Quiet : (found : Outcome) → Quiet (reply found)
  unfolding reply
  reply-Quiet found = record { at = λ w. ground arith }

  validate_decision-Quiet : (wire : Wire) → Quiet (validate_decision wire)
  unfolding validate_decision
  validate_decision-Quiet wire = search quiet_rules depth 30

  execute_decision-Quiet : (wire : Wire) (key : Option String) → Quiet (execute_decision wire key)
  unfolding execute_decision
  execute_decision-Quiet wire none = search quiet_rules
  execute_decision-Quiet wire (some key) = search (quiet_rules, next_await-Quiet, reply-Quiet)

  decision-Quiet : (wire : Wire) → Quiet (decision wire)
  unfolding decision
  decision-Quiet wire =
      search (quiet_rules, validate_decision-Quiet, execute_decision-Quiet, conclude_decision-Quiet)

  deliver-Same :
      (wires : List Wire) (w : InstructionExperimentWorkflow) → Same w (deliver wires w).1
  unfolding deliver
  deliver-Same [] w = Same-refl w
  deliver-Same (wire ∷ wires) w =
      Same-trans w (decision wire w).1 (deliver wires (decision wire w).1).1
        ((decision-Quiet wire).at w) (deliver-Same wires (decision wire w).1)

  deliver-Quiet : (wires : List Wire) → Quiet (deliver wires)
  deliver-Quiet wires = record { at = deliver-Same wires }

  pub execute-Quiet : (name : String) (request : Request) → Quiet (execute name request)
  unfolding execute
  execute-Quiet name request = search (quiet_rules, next_await-Quiet, deliver-Quiet) depth 30

  pub wait_condition-Quiet :
      (condition : InstructionExperimentWorkflow → Bool) → Quiet (wait_condition condition)
  unfolding wait_condition
  wait_condition-Quiet condition = search (quiet_rules, next_await-Quiet, deliver-Quiet) depth 30

  pending_request-Quiet :
      (name request_type : String) (payload : Payload) (id : Option String)
      (pending : Option PendingGate)
      → Quiet (pending_request name request_type payload id pending)
  unfolding pending_request
  pending_request-Quiet name request_type payload id none = search quiet_rules depth 30
  pending_request-Quiet name request_type payload id (some p) = search quiet_rules depth 30

  conclude_gate-Quiet : (found : Outcome) → Quiet (conclude_gate found)
  unfolding conclude_gate
  conclude_gate-Quiet found = record { at = λ w. ground arith }

  pub commit_gate-Quiet :
      (name request_type : String) (payload : Payload) (id : Option String)
      → Quiet (commit_gate name request_type payload id)
  unfolding commit_gate execute_gate
  commit_gate-Quiet name request_type payload id =
      search (quiet_rules, pending_request-Quiet, execute-Quiet, conclude_gate-Quiet) depth 30

  conclude_activity-Quiet : (found : Outcome) → Quiet (conclude_activity found)
  unfolding conclude_activity
  conclude_activity-Quiet found = record { at = λ w. ground arith }

  pub execute_activity-Quiet :
      (name : String) (payload : Payload) → Quiet (execute_activity name payload)
  unfolding execute_activity
  execute_activity-Quiet name payload =
      search (quiet_rules, execute-Quiet, conclude_activity-Quiet) depth 30

  conclude_recovery-Quiet : (found : Outcome) → Quiet (conclude_recovery found)
  unfolding conclude_recovery
  conclude_recovery-Quiet found = record { at = λ w. ground arith }

  recover_from-Quiet :
      (pending : Option PendingGate)
      → Quiet (recover_from (λ n request. execute n (at_gate request)) pending)
  unfolding recover_from
  recover_from-Quiet none = search quiet_rules
  recover_from-Quiet (some p) =
      search (quiet_rules, execute-Quiet, conclude_recovery-Quiet) depth 30

  pub recover_pending_gate-Quiet :
      Quiet (recover_pending_gate (λ n request. execute n (at_gate request)))
  unfolding recover_pending_gate
  recover_pending_gate-Quiet = search (quiet_rules, recover_from-Quiet) depth 30

  pub initialize-Quiet : Quiet initialize
  unfolding initialize check_public
  initialize-Quiet = search quiet_rules depth 40

  check_assignments-Quiet :
      (rows : List Payload) (blind_ids : List String) → Quiet (check_assignments rows blind_ids)
  unfolding check_assignments
  check_assignments-Quiet rows blind_ids = search quiet_rules depth 40

  pub g5_release-Quiet :
      (packet : Payload) (blind_ids : List String) → Quiet (g5_release packet blind_ids)
  unfolding g5_release
  g5_release-Quiet packet blind_ids = search (quiet_rules, check_assignments-Quiet) depth 60

pub deidentified_outcomes-Quiet : (packets : List Payload) → Quiet (deidentified_outcomes packets)
unfolding deidentified_outcomes
deidentified_outcomes-Quiet packets = search quiet_rules depth 40

pub blind_scores-Quiet :
    (found : Option Value) (blind_ids : List String) → Quiet (blind_scores found blind_ids)
unfolding blind_scores
blind_scores-Quiet found blind_ids = search quiet_rules depth 40

pub record_map_lifecycle-Quiet : (packet : Payload) → Quiet (record_map_lifecycle packet)
unfolding record_map_lifecycle
record_map_lifecycle-Quiet packet = search quiet_rules depth 60
