-- ===== src/Coordination/Calls/ChildLife.antt =====
-- Child authorizations under any sequence of calls to the store.
use instruct_eval.Common.{
  String, ap, arith, ◌≡◌, ◌≢◌, true, false, Option, none, some, List, [], ◌∷◌, ◌⊎◌,
}
use instruct_eval.Exec.{is_ok}
use instruct_eval.Sql.{select_one}
use instruct_eval.Coordination.Library.{Library}
use instruct_eval.Coordination.Types.{
  claimed, ChildAuthorization, ChildAuthorizationClaimRequest, Store,
}
use instruct_eval.Coordination.Children.{has_claim, claim_child_authorization}
use instruct_eval.Coordination.Children.Rows.{
  child_of, ChildEvolves, ChildEvolves-refl, issue-ChildEvolves, claim-ChildEvolves, ClaimedBy,
}
use instruct_eval.Coordination.Children.Claims.{rival, claim_held, rival_fenced}
use instruct_eval.Coordination.Calls.{Call, perform, run}
use instruct_eval.Coordination.Calls.Frame

module _ (mine : ChildAuthorizationClaimRequest) where
  kept_children :
      (s s' : Store)
      → s'.child_authorizations ≡ s.child_authorizations
      → ChildEvolves (child_of mine s) (child_of mine s')
  unfolding child_of
  kept_children s s' h =
      rw h (ChildEvolves-refl (select_one (has_claim mine) s.child_authorizations))

  claimed_stays :
      (row : ChildAuthorization) (o o' : Option ChildAuthorization)
      → ChildEvolves o o'
      → o ≡ some row
      → row.state ≡ claimed
      → o' ≡ some row
  claimed_stays row none o' h e st = cc
  claimed_stays row (some r) o' h e st =
      let same : r ≡ row = ground arith in rw (h (ground arith)) (ap some same)

  module _ ⦃library : Library⦄ where
    perform-ChildEvolves :
        (call : Call) (s : Store) → ChildEvolves (child_of mine s) (child_of mine (perform call s))
    unfolding perform
    perform-ChildEvolves (Call.reserve_invocation k b) s =
        kept_children s _ (Frame.reserve_invocation-frame k b s).children
    perform-ChildEvolves (Call.reserve_gate_invocation b) s =
        kept_children s _ (Frame.reserve_gate_invocation-frame b s).children
    perform-ChildEvolves (Call.commit_result k e b) s =
        kept_children s _ (Frame.commit_result-frame k e b s).children
    perform-ChildEvolves (Call.commit_private_subject_result k e b) s =
        kept_children s _ (Frame.commit_private_subject_result-frame k e b s).children
    perform-ChildEvolves (Call.terminalize_indeterminate k e) s =
        kept_children s _ (Frame.terminalize_indeterminate-frame k e s).children
    perform-ChildEvolves (Call.reserve_gate r) s =
        kept_children s _ (Frame.reserve_gate-frame r s).children
    perform-ChildEvolves (Call.begin_release_commit r) s =
        kept_children s _ (Frame.begin_release_commit-frame r s).children
    perform-ChildEvolves (Call.publish_gate f r) s =
        kept_children s _ (Frame.publish_gate-frame f r s).children
    perform-ChildEvolves (Call.reserve_decision r) s =
        kept_children s _ (Frame.reserve_decision-frame r s).children
    perform-ChildEvolves (Call.begin_decision_commit r) s =
        kept_children s _ (Frame.begin_decision_commit-frame r s).children
    perform-ChildEvolves (Call.publish_decision f r) s =
        kept_children s _ (Frame.publish_decision-frame f r s).children
    perform-ChildEvolves (Call.issue_child_authorization r experiment) s =
        issue-ChildEvolves mine r experiment s
    perform-ChildEvolves (Call.claim_child_authorization r) s = claim-ChildEvolves mine r s

    run-claimed :
        (row : ChildAuthorization) (calls : List Call) (s : Store)
        → child_of mine s ≡ some row
        → row.state ≡ claimed
        → child_of mine (run calls s) ≡ some row
    unfolding run
    run-claimed row [] s found st = found
    run-claimed row (call ∷ calls) s found st =
        run-claimed row calls (perform call s)
          (claimed_stays row (child_of mine s) (child_of mine (perform call s))
            (perform-ChildEvolves call s) found st)
          st

-- Once a child execution has claimed an authorization, then after any further calls the
-- authorization is still that child's, and a claim of it by another child workflow or run raises
-- and changes nothing.
pub claimed_for_one_child :
    (request : ChildAuthorizationClaimRequest) (workflow run_id : String) (calls : List Call)
    (s : Store) ⦃library : Library⦄
    → is_ok (claim_child_authorization request s).0 ≡ true
    → (workflow ≢ request.child_workflow_id) ⊎ (run_id ≢ request.child_run_id)
    → let t = run calls (claim_child_authorization request s).1 in
      ((row : ChildAuthorization) × (child_of request t ≡ some row) × ClaimedBy request row)
      × (is_ok (claim_child_authorization (rival request workflow run_id) t).0 ≡ false)
      × ((claim_child_authorization (rival request workflow run_id) t).1 ≡ t)
claimed_for_one_child request workflow run_id calls s h other =
    let (row, found, held) = claim_held request s h in
    let t = run calls (claim_child_authorization request s).1 in
    let still =
      run-claimed request row calls (claim_child_authorization request s).1 found
        held.claimed_state in
    let fenced = rival_fenced request workflow run_id row t still held other in
    ((row, still, held), fenced.0, fenced.1)
