-- ===== src/Coordination/Calls.antt =====
-- The calls that change a `CoordinationStore`, and what a sequence of them leaves. Every method runs
-- in one SQLite transaction, so the calls of several processes come in some order, one after the
-- other.
pub mod Frame
pub mod InvocationLife
pub mod Ownership
pub mod GateLife
pub mod ChildLife
pub mod Validity
use instruct_eval.Common.{ℕ, String, List, [], ◌∷◌}
use instruct_eval.Coordination.Library.{Bytes, Library}
use instruct_eval.Coordination.Types.{
  Store, GateRequest, GateCommitRequest, GatePublicationRequest, DecisionRequest,
  DecisionCommitRequest, DecisionPublicationRequest, ChildAuthorizationRequest,
  ChildAuthorizationClaimRequest,
}
use instruct_eval.Coordination.Invocations
use instruct_eval.Coordination.Gates.Reserve
use instruct_eval.Coordination.Gates.Release
use instruct_eval.Coordination.Gates.Release.{Files}
use instruct_eval.Coordination.Decisions
use instruct_eval.Coordination.Children

pub data Call : Type 0 where
  reserve_invocation : String → Bytes → Call
  reserve_gate_invocation : Bytes → Call
  commit_result commit_private_subject_result : String → ℕ → Bytes → Call
  terminalize_indeterminate : String → ℕ → Call
  reserve_gate : GateRequest → Call
  begin_release_commit : GateCommitRequest → Call
  publish_gate : Files → GatePublicationRequest → Call
  reserve_decision : DecisionRequest → Call
  begin_decision_commit : DecisionCommitRequest → Call
  publish_decision : Files → DecisionPublicationRequest → Call
  issue_child_authorization : ChildAuthorizationRequest → String → Call
  claim_child_authorization : ChildAuthorizationClaimRequest → Call

module _ ⦃library : Library⦄ where
  -- the store after a call, whether it returned or raised
  unfoldable pub perform : Call → Store → Store
  perform (reserve_invocation k b) s = (Invocations.reserve_invocation k b s).1
  perform (reserve_gate_invocation b) s = (Invocations.reserve_gate_invocation b s).1
  perform (commit_result k e b) s = (Invocations.commit_result k e b s).1
  perform (commit_private_subject_result k e b) s =
      (Invocations.commit_private_subject_result k e b s).1
  perform (terminalize_indeterminate k e) s = (Invocations.terminalize_indeterminate k e s).1
  perform (reserve_gate r) s = (Reserve.reserve_gate r s).1
  perform (begin_release_commit r) s = (Release.begin_release_commit r s).1
  perform (publish_gate files r) s = (Release.publish_gate files r s).1
  perform (reserve_decision r) s = (Decisions.reserve_decision r s).1
  perform (begin_decision_commit r) s = (Decisions.begin_decision_commit r s).1
  perform (publish_decision files r) s = (Decisions.publish_decision files r s).1
  perform (issue_child_authorization r experiment) s =
      (Children.issue_child_authorization r experiment s).1
  perform (claim_child_authorization r) s = (Children.claim_child_authorization r s).1

  unfoldable pub run : List Call → Store → Store
  run [] s = s
  run (call ∷ calls) s = run calls (perform call s)
