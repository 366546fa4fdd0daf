-- ===== src/Workflows/Experiment/Pending.antt =====
-- How `InstructionExperimentWorkflow` commits a gate: a request stays pending until its activity
-- has returned.
use instruct_eval.Common.{
  ◌+◌, String, ◌≡◌, Bool, true, false, not, ◌&&◌, Option, none, some, [], ◌∷◌, arith, ◌==◌, nat_eq,
  string_eq, option_eq, ==_refl, if◌then◌else◌,
}
use instruct_eval.Exec.{ok, pure, raise, raise_if, modify, gets, ◌>>=◌, ◌>>◌}
use instruct_eval.Workflows.Json.{Payload, flag, same_payload, is_within}
use instruct_eval.Workflows.Experiment.{
  GateResult, GateRequest, PendingGate, InstructionExperimentWorkflow, Workflow, pending_mismatch,
  gate_committed_failure, activity_error, cancelled, malformed_activity, gate_not_durable,
}

-- What the execution of an activity gives: a `GateResult`, an `ActivityResult`, neither of them, an
-- `ActivityError`, which says whether its cause is a semantic one, or a cancellation.
pub data Outcome : Type 0 where
  returned activity_result : GateResult → Outcome
  malformed interrupted : Outcome
  failed : Bool → Outcome

-- `_gate_request` with `_next_ordinal`
abbrev pub gate_request : String → Payload → InstructionExperimentWorkflow → GateRequest
gate_request request_type payload w = record {
  request_type = request_type;
  payload = payload;
  ordinal = w.next_ordinal;
  prior_sha256 = w.prior_sha256;
}

-- `a == b` on requests
abbrev same_request : GateRequest → GateRequest → Bool
same_request a b =
    a.request_type == b.request_type
    && same_payload a.payload b.payload
    && a.ordinal == b.ordinal
    && a.prior_sha256 == b.prior_sha256

-- `{"accepted": False, "protocol_failure": True}`
abbrev pub failure_payload : Payload
failure_payload = ("accepted", flag false) ∷ ("protocol_failure", flag true) ∷ []

-- The request that is sent: a new one is noted as pending, and a pending one must match.
unfoldable pub pending_request :
    String → String → Payload → Option String → Option PendingGate → Workflow GateRequest
pending_request name request_type payload id none = do
  request ← gets (gate_request request_type payload)
  modify (λ w. record w {
    pending_gate = some (record { activity_name = name; request = request; activity_id = id });
  })
  pure request
pending_request name request_type payload id (some pending) = do
  expected ← gets (gate_request request_type payload)
  raise_if
      (not (
        pending.activity_name == name
        && same_request pending.request expected
        && pending.activity_id == id))
      pending_mismatch
  pure pending.request

-- what follows the execution of the activity
unfoldable pub conclude_gate : Outcome → Workflow GateResult
conclude_gate (failed semantic) = raise (activity_error semantic)
conclude_gate interrupted = raise cancelled
conclude_gate malformed = raise malformed_activity
conclude_gate (activity_result _) = raise gate_not_durable
conclude_gate (returned result) = do
  modify (λ w. record w { pending_gate = none; next_ordinal = w.next_ordinal + 1 })
  if same_payload result.payload failure_payload
      then (do
        modify (λ w. record w { prior_sha256 = result.artifact_sha256 })
        raise gate_committed_failure)
      else pure result

-- `_execute_gate`; `execute` runs the activity on its name and its request.
unfoldable pub execute_gate :
    (String → GateRequest → Workflow Outcome)
    → String
    → String
    → Payload
    → Option String
    → Workflow GateResult
unfolding pending_request conclude_gate
execute_gate execute name request_type payload id = do
  pending ← gets (λ w. w.pending_gate)
  request ← pending_request name request_type payload id pending
  outcome ← execute name request
  conclude_gate outcome

-- what follows the activity in `_recover_pending_gate`
unfoldable pub conclude_recovery : Outcome → Workflow (Unit {0})
conclude_recovery (failed semantic) = raise (activity_error semantic)
conclude_recovery interrupted = raise cancelled
conclude_recovery malformed = raise malformed_activity
conclude_recovery (activity_result _) = raise gate_not_durable
conclude_recovery (returned result) = modify (λ w. record w {
  pending_gate = none;
  next_ordinal = w.next_ordinal + 1;
  prior_sha256 = result.artifact_sha256;
})

-- the activity that `_recover_pending_gate` runs, if a gate is pending
unfoldable pub recover_from :
    (String → GateRequest → Workflow Outcome) → Option PendingGate → Workflow (Unit {0})
unfolding conclude_recovery
recover_from execute none = pure tt
recover_from execute (some pending) = do
  outcome ← execute pending.activity_name pending.request
  conclude_recovery outcome

-- `_recover_pending_gate`
unfoldable pub recover_pending_gate :
    (String → GateRequest → Workflow Outcome) → Workflow (Unit {0})
unfolding recover_from
recover_pending_gate execute = do pending ← gets (λ w. w.pending_gate); recover_from execute pending

-- an activity that gives `outcome`, while nothing else happens to the workflow
abbrev pub gives : Outcome → String → GateRequest → Workflow Outcome
gives outcome name request = pure outcome

option_refl : (o : Option String) → (o == o) ≡ true
option_refl o = ==_refl o

-- A gate whose activity failed is retried as if it had not been tried: where no gate was pending,
-- and the workflow does nothing else while it waits, the same call after the failure gives the same
-- result and the same workflow as without it. The payload is a mapping, equal to itself.
pub execute_gate_retry :
    (name request_type : String) (payload : Payload) (id : Option String) (result : GateResult)
    (semantic : Bool) (w : InstructionExperimentWorkflow)
    → w.pending_gate ≡ none
    → is_within payload payload ≡ true
    → execute_gate
        (gives (returned result))
        name
        request_type
        payload
        id
        (execute_gate (gives (failed semantic)) name request_type payload id w).1
      ≡ execute_gate (gives (returned result)) name request_type payload id w
unfolding execute_gate
execute_gate_retry name request_type payload id result semantic w free mapping = ground (
  arith,
  ==_refl name,
  ==_refl request_type,
  ==_refl w.next_ordinal,
  ==_refl w.prior_sha256,
  option_refl id,
)

-- Whatever gate is pending, a call that returns, where the workflow does nothing else while it
-- waits, leaves none pending, takes the next ordinal, and returns the result of the activity, which
-- is no committed failure.
pub execute_gate_concludes :
    (name request_type : String) (payload : Payload) (id : Option String) (outcome : Outcome)
    (w : InstructionExperimentWorkflow) {result : GateResult}
    → (execute_gate (gives outcome) name request_type payload id w).0 ≡ ok result
    → (outcome ≡ returned result)
      × (same_payload result.payload failure_payload ≡ false)
      × ((execute_gate (gives outcome) name request_type payload id w).1.pending_gate ≡ none)
      × ((execute_gate (gives outcome) name request_type payload id w).1.next_ordinal
          ≡ w.next_ordinal + 1)
unfolding execute_gate
execute_gate_concludes name request_type payload id outcome w h = ground arith
