-- ===== src/Coordination/Decisions/Frame.antt =====
-- A call about a decision leaves the store as it is, or is the call about its gate.
use instruct_eval.Common.{◌≡◌, ◌⊎◌, arith}
use instruct_eval.Coordination.Library.{Library}
use instruct_eval.Coordination.Types.{
  DecisionRequest, DecisionCommitRequest, DecisionPublicationRequest, Store,
}
use instruct_eval.Coordination.Gates.Reserve.{reserve_gate}
use instruct_eval.Coordination.Gates.Release.{Files, begin_release_commit, publish_gate}
use instruct_eval.Coordination.Decisions.{
  reserve_decision, begin_decision_commit, publish_decision, reserve_request, commit_request,
  publication_request,
}

module _ ⦃library : Library⦄ where
  pub reserve_decision-store :
      (request : DecisionRequest) (s : Store)
      → ((reserve_decision request s).1 ≡ s)
        ⊎ ((reserve_decision request s).1 ≡ (reserve_gate (reserve_request request) s).1)
  unfolding reserve_decision
  reserve_decision-store request s = ground arith

  pub begin_decision_commit-store :
      (request : DecisionCommitRequest) (s : Store)
      → ((begin_decision_commit request s).1 ≡ s)
        ⊎ ((begin_decision_commit request s).1
            ≡ (begin_release_commit (commit_request request) s).1)
  unfolding begin_decision_commit
  begin_decision_commit-store request s = ground arith

  pub publish_decision-store :
      (files : Files) (request : DecisionPublicationRequest) (s : Store)
      → ((publish_decision files request s).1 ≡ s)
        ⊎ ((publish_decision files request s).1
            ≡ (publish_gate files (publication_request request) s).1)
  unfolding publish_decision
  publish_decision-store files request s = ground arith
