-- ===== src/Coordination/Calls/Frame.antt =====
-- Which tables a call leaves alone.
use instruct_eval.Common.{ℕ, String, ◌≡◌, refl, arith, inl, inr}
use instruct_eval.Coordination.Library.{Bytes, Library}
use instruct_eval.Coordination.Types.{
  Store, GateRequest, GateCommitRequest, GatePublicationRequest, DecisionRequest,
  DecisionCommitRequest, DecisionPublicationRequest, ChildAuthorizationRequest,
  ChildAuthorizationClaimRequest,
}
use instruct_eval.Coordination.Invocations.{
  reserve_invocation, reserve_gate_invocation, commit_result, commit_private_subject_result,
  terminalize_indeterminate,
}
use instruct_eval.Coordination.Gates.Reserve.{reserve_gate}
use instruct_eval.Coordination.Gates.Release.{Files, begin_release_commit, publish_gate}
use instruct_eval.Coordination.Decisions.Frame.{
  reserve_decision-store, begin_decision_commit-store, publish_decision-store,
}
use instruct_eval.Coordination.Decisions.{
  reserve_decision, begin_decision_commit, publish_decision, reserve_request, commit_request,
  publication_request,
}
use instruct_eval.Coordination.Children.{issue_child_authorization, claim_child_authorization}

-- The tables that calls about gates, about invocations and about children keep.
pub record KeepsInvocations (s s' : Store) : Type 0 where
  pub invocations : s'.invocations ≡ s.invocations
  pub children : s'.child_authorizations ≡ s.child_authorizations

pub record KeepsGates (s s' : Store) : Type 0 where
  pub gates : s'.gates ≡ s.gates
  pub children : s'.child_authorizations ≡ s.child_authorizations

pub record KeepsOthers (s s' : Store) : Type 0 where
  pub invocations : s'.invocations ≡ s.invocations
  pub gates : s'.gates ≡ s.gates

KeepsInvocations-refl : (s : Store) → KeepsInvocations s s
KeepsInvocations-refl s = record { invocations = refl; children = refl }

module _ ⦃library : Library⦄ where
  pub reserve_gate-frame :
      (request : GateRequest) (s : Store) → KeepsInvocations s (reserve_gate request s).1
  unfolding reserve_gate
  reserve_gate-frame request s = ground arith

  pub begin_release_commit-frame :
      (request : GateCommitRequest) (s : Store)
      → KeepsInvocations s (begin_release_commit request s).1
  unfolding begin_release_commit
  begin_release_commit-frame request s = ground arith

  pub publish_gate-frame :
      (files : Files) (request : GatePublicationRequest) (s : Store)
      → KeepsInvocations s (publish_gate files request s).1
  unfolding publish_gate
  publish_gate-frame files request s = ground arith

  pub reserve_decision-frame :
      (request : DecisionRequest) (s : Store) → KeepsInvocations s (reserve_decision request s).1
  reserve_decision-frame request s = elim (reserve_decision-store request s) [
    | inl same ↦ rw same (KeepsInvocations-refl s)
    | inr e ↦ rw e (reserve_gate-frame (reserve_request request) s)
  ]

  pub begin_decision_commit-frame :
      (request : DecisionCommitRequest) (s : Store)
      → KeepsInvocations s (begin_decision_commit request s).1
  begin_decision_commit-frame request s = elim (begin_decision_commit-store request s) [
    | inl same ↦ rw same (KeepsInvocations-refl s)
    | inr e ↦ rw e (begin_release_commit-frame (commit_request request) s)
  ]

  pub publish_decision-frame :
      (files : Files) (request : DecisionPublicationRequest) (s : Store)
      → KeepsInvocations s (publish_decision files request s).1
  publish_decision-frame files request s = elim (publish_decision-store files request s) [
    | inl same ↦ rw same (KeepsInvocations-refl s)
    | inr e ↦ rw e (publish_gate-frame files (publication_request request) s)
  ]

  pub reserve_invocation-frame :
      (k : String) (input : Bytes) (s : Store) → KeepsGates s (reserve_invocation k input s).1
  unfolding reserve_invocation
  reserve_invocation-frame k input s = ground arith

  pub reserve_gate_invocation-frame :
      (input : Bytes) (s : Store) → KeepsGates s (reserve_gate_invocation input s).1
  unfolding reserve_gate_invocation reserve_invocation
  reserve_gate_invocation-frame input s = ground arith

  pub commit_result-frame :
      (k : String) (epoch : ℕ) (bytes : Bytes) (s : Store)
      → KeepsGates s (commit_result k epoch bytes s).1
  unfolding commit_result
  commit_result-frame k epoch bytes s = ground arith

  pub commit_private_subject_result-frame :
      (k : String) (epoch : ℕ) (bytes : Bytes) (s : Store)
      → KeepsGates s (commit_private_subject_result k epoch bytes s).1
  unfolding commit_private_subject_result
  commit_private_subject_result-frame k epoch bytes s = ground arith

pub terminalize_indeterminate-frame :
    (k : String) (epoch : ℕ) (s : Store) → KeepsGates s (terminalize_indeterminate k epoch s).1
unfolding terminalize_indeterminate
terminalize_indeterminate-frame k epoch s = ground arith

pub issue_child_authorization-frame :
    (request : ChildAuthorizationRequest) (experiment : String) (s : Store)
    → KeepsOthers s (issue_child_authorization request experiment s).1
unfolding issue_child_authorization
issue_child_authorization-frame request experiment s = ground arith

pub claim_child_authorization-frame :
    (request : ChildAuthorizationClaimRequest) (s : Store)
    → KeepsOthers s (claim_child_authorization request s).1
unfolding claim_child_authorization
claim_child_authorization-frame request s = ground arith
