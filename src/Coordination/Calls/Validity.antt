-- ===== src/Coordination/Calls/Validity.antt =====
-- The well-formed table of invocations along any sequence of calls.
use instruct_eval.Common.{◌≡◌, List, [], ◌∷◌}
use instruct_eval.Coordination.Library.{Library}
use instruct_eval.Coordination.Types.{InvocationRow, Store}
use instruct_eval.Coordination.Invocations.Validity.{
  IsValid, reserve_invocation-IsValid, reserve_gate_invocation-IsValid, commit_result-IsValid,
  commit_private_subject_result-IsValid, terminalize_indeterminate-IsValid,
}
use instruct_eval.Coordination.Calls.{Call, perform, run}
use instruct_eval.Coordination.Calls.Frame

module _ ⦃library : Library⦄ where
  kept-IsValid : {rows rows' : List InvocationRow} → rows' ≡ rows → IsValid rows → IsValid rows'
  kept-IsValid h v = rw h v

  perform-IsValid :
      (call : Call) (s : Store) → IsValid s.invocations → IsValid (perform call s).invocations
  unfolding perform
  perform-IsValid (Call.reserve_invocation k b) s v = reserve_invocation-IsValid k b s v
  perform-IsValid (Call.reserve_gate_invocation b) s v = reserve_gate_invocation-IsValid b s v
  perform-IsValid (Call.commit_result k e b) s v = commit_result-IsValid k e b s v
  perform-IsValid (Call.commit_private_subject_result k e b) s v =
      commit_private_subject_result-IsValid k e b s v
  perform-IsValid (Call.terminalize_indeterminate k e) s v =
      terminalize_indeterminate-IsValid k e s v
  perform-IsValid (Call.reserve_gate r) s v =
      kept-IsValid (Frame.reserve_gate-frame r s).invocations v
  perform-IsValid (Call.begin_release_commit r) s v =
      kept-IsValid (Frame.begin_release_commit-frame r s).invocations v
  perform-IsValid (Call.publish_gate f r) s v =
      kept-IsValid (Frame.publish_gate-frame f r s).invocations v
  perform-IsValid (Call.reserve_decision r) s v =
      kept-IsValid (Frame.reserve_decision-frame r s).invocations v
  perform-IsValid (Call.begin_decision_commit r) s v =
      kept-IsValid (Frame.begin_decision_commit-frame r s).invocations v
  perform-IsValid (Call.publish_decision f r) s v =
      kept-IsValid (Frame.publish_decision-frame f r s).invocations v
  perform-IsValid (Call.issue_child_authorization r experiment) s v =
      kept-IsValid (Frame.issue_child_authorization-frame r experiment s).invocations v
  perform-IsValid (Call.claim_child_authorization r) s v =
      kept-IsValid (Frame.claim_child_authorization-frame r s).invocations v

  -- Whatever the calls, the table of invocations stays well-formed: no key has two rows, the hashes
  -- of every row are those of its bytes, a row holds a result exactly when its state is
  -- RESULT_COMMITTED, and its epoch is 1.
  pub run-IsValid :
      (calls : List Call) (s : Store) → IsValid s.invocations → IsValid (run calls s).invocations
  unfolding run
  run-IsValid [] s v = v
  run-IsValid (call ∷ calls) s v = run-IsValid calls (perform call s) (perform-IsValid call s v)
