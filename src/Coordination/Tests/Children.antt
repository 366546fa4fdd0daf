-- ===== src/Coordination/Tests/Children.antt =====
-- Child authorizations on concrete calls.
use instruct_eval.Common.{
  ◌≡◌, refl, true, false, none, some, List, [], ◌∷◌, arith, inl, eq_iff, string_eq,
}
use instruct_eval.Exec.{is_ok}
use instruct_eval.Sql.{select_one, update, rowcount}
use instruct_eval.Coordination.Types.{
  ChildAuthorizationState, ChildAuthorization, ChildAuthorizationClaimRequest, Store,
}
use instruct_eval.Coordination.Checks.{is_digest}
use instruct_eval.Coordination.Children.{claim_child_authorization}
use instruct_eval.Coordination.Children.Rows.{child_of, ClaimedBy}
use instruct_eval.Coordination.Children.Claims.{rival}
use instruct_eval.Coordination.Calls.{Call, run}
use instruct_eval.Coordination.Calls.ChildLife.{claimed_for_one_child}
use instruct_eval.Coordination.Tests.{ones, twos, toy, store_of}

abbrev issued_child : ChildAuthorization
issued_child = record {
  campaign_id = "campaign";
  parent_workflow_id = "parent";
  parent_run_id = "run";
  claim_sha256 = ones;
  fingerprint_sha256 = twos;
  coverage_sha256 = ones;
  experiment_id = "experiment-1";
  child_workflow_id = none;
  child_run_id = none;
  state = ChildAuthorizationState.issued;
  owner_epoch = 1;
}

abbrev one_issued : Store
one_issued = store_of [] [] (issued_child ∷ [])

abbrev claim : ChildAuthorizationClaimRequest
claim = record {
  campaign_id = "campaign";
  parent_workflow_id = "parent";
  parent_run_id = "run";
  claim_sha256 = ones;
  fingerprint_sha256 = twos;
  coverage_sha256 = ones;
  experiment_id = "experiment-1";
  child_workflow_id = "child";
  child_run_id = "child-run";
}

abbrev calls : List Call
calls =
    Call.claim_child_authorization claim
    ∷ Call.claim_child_authorization (rival claim "other" "other-run")
    ∷ []

claim-accepted : is_ok (claim_child_authorization claim one_issued).0 ≡ true
unfolding claim_child_authorization select_one update rowcount is_digest
claim-accepted = refl

claimed_for_one_child_example :
    let t = run calls (claim_child_authorization claim one_issued).1 in
    ((row : ChildAuthorization) × (child_of claim t ≡ some row) × ClaimedBy claim row)
    × (is_ok (claim_child_authorization (rival claim "other" "child-run") t).0 ≡ false)
    × ((claim_child_authorization (rival claim "other" "child-run") t).1 ≡ t)
claimed_for_one_child_example =
    claimed_for_one_child claim "other" "child-run" calls one_issued claim-accepted
      (inl (λ e. ground (arith, eq_iff "other" "child")))
