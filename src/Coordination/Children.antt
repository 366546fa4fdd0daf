-- ===== src/Coordination/Children.antt =====
-- Child authorizations: issued once for each claim of a parent, and claimed by one child execution.
pub mod Frame
pub mod Rows
pub mod Claims
use instruct_eval.Common.{
  ℕ, ◌+◌, String, Bool, true, false, not, ◌&&◌, ◌||◌, Option, none, some, List, ◌==◌, nat_eq,
  string_eq, option_eq, if◌then◌else◌,
}
use instruct_eval.Exec.{
  Exec, pure, raise, gets, or_raise, raise_if, modify, transaction, ◌>>=◌, ◌>>◌,
}
use instruct_eval.Sql
use instruct_eval.Sql.{select_one, rowcount}
use instruct_eval.Coordination.Types.{
  ChildAuthorizationState, issued, claimed, ChildAuthorization, ChildAuthorizationRequest,
  ChildAuthorizationClaimRequest, ClaimedChildAuthorizationRequest, Store, child_state_eq,
}
use instruct_eval.Coordination.Checks.{
  Coordinate, check_digest, check_nonempty, child_not_issued, child_consumed, child_cas_failed,
  child_not_claimed_here, child_not_claimed, integrity,
}

-- `WHERE` the six columns of `_child_identity`, which are the primary key
abbrev pub has_identity : ChildAuthorizationRequest → ChildAuthorization → Bool
has_identity request row =
    row.campaign_id == request.campaign_id
    && row.parent_workflow_id == request.parent_workflow_id
    && row.parent_run_id == request.parent_run_id
    && row.claim_sha256 == request.claim_sha256
    && row.fingerprint_sha256 == request.fingerprint_sha256
    && row.coverage_sha256 == request.coverage_sha256

-- `_validate_child_authorization_request`
check_request : ChildAuthorizationRequest → Coordinate (Unit {0})
unfolding check_nonempty check_digest
check_request request = do
  check_nonempty request.campaign_id "campaign id"
  check_nonempty request.parent_workflow_id "parent workflow id"
  check_nonempty request.parent_run_id "parent run id"
  check_digest request.claim_sha256 "claim hash"
  check_digest request.fingerprint_sha256 "fingerprint hash"
  check_digest request.coverage_sha256 "coverage hash"

abbrev pub issued_row : ChildAuthorizationRequest → String → ChildAuthorization
issued_row request experiment = record {
  campaign_id = request.campaign_id;
  parent_workflow_id = request.parent_workflow_id;
  parent_run_id = request.parent_run_id;
  claim_sha256 = request.claim_sha256;
  fingerprint_sha256 = request.fingerprint_sha256;
  coverage_sha256 = request.coverage_sha256;
  experiment_id = experiment;
  child_workflow_id = none;
  child_run_id = none;
  state = issued;
  owner_epoch = 1;
}

-- `INSERT INTO child_authorizations`, where `experiment_id` is unique too
insert_child : ChildAuthorization → Coordinate (Unit {0})
insert_child row s =
    (do
      rows ←
          or_raise
            (Sql.insert
              (λ other.
                (other.campaign_id == row.campaign_id
                  && other.parent_workflow_id == row.parent_workflow_id
                  && other.parent_run_id == row.parent_run_id
                  && other.claim_sha256 == row.claim_sha256
                  && other.fingerprint_sha256 == row.fingerprint_sha256
                  && other.coverage_sha256 == row.coverage_sha256)
                || other.experiment_id == row.experiment_id)
              row s.child_authorizations)
            integrity
      modify (λ t. record t { child_authorizations = rows }))
      s

-- `issue_child_authorization` after its SELECT
issue_row :
    ChildAuthorizationRequest → String → Option ChildAuthorization → Coordinate ChildAuthorization
unfolding insert_child
issue_row request experiment (some row) = pure row
issue_row request experiment none = do
  insert_child (issued_row request experiment)
  pure (issued_row request experiment)

-- `experiment` is the id that `secrets.randbelow` draws.
unfoldable pub issue_child_authorization :
    ChildAuthorizationRequest → String → Coordinate ChildAuthorization
unfolding check_request issue_row
issue_child_authorization request experiment = do
  check_request request
  transaction do
    found ← gets (λ s. select_one (has_identity request) s.child_authorizations)
    issue_row request experiment found

abbrev pub authorization_request : ChildAuthorizationClaimRequest → ChildAuthorizationRequest
authorization_request request = record {
  campaign_id = request.campaign_id;
  parent_workflow_id = request.parent_workflow_id;
  parent_run_id = request.parent_run_id;
  claim_sha256 = request.claim_sha256;
  fingerprint_sha256 = request.fingerprint_sha256;
  coverage_sha256 = request.coverage_sha256;
}

-- `WHERE` the identity and the experiment
abbrev pub has_claim : ChildAuthorizationClaimRequest → ChildAuthorization → Bool
has_claim request row =
    has_identity (authorization_request request) row && row.experiment_id == request.experiment_id

-- the rows that the update of a claim may change
abbrev pub claimable : ChildAuthorizationClaimRequest → ℕ → ChildAuthorization → Bool
claimable request epoch row =
    has_claim request row && row.state == issued && row.owner_epoch == epoch

abbrev pub claimed_row :
    ChildAuthorizationClaimRequest → ℕ → ChildAuthorization → ChildAuthorization
claimed_row request epoch row = record row {
  child_workflow_id = some request.child_workflow_id;
  child_run_id = some request.child_run_id;
  state = claimed;
  owner_epoch = epoch + 1;
}

-- `_validate_claimed_authorization`
check_claimed : ChildAuthorization → ChildAuthorizationClaimRequest → Coordinate (Unit {0})
check_claimed authorization request =
    raise_if
      (not (
        authorization.child_workflow_id == some request.child_workflow_id
        && authorization.child_run_id == some request.child_run_id))
      child_consumed

-- `_claim_child_authorization_cas`
claim_cas : ChildAuthorizationClaimRequest → ChildAuthorization → Coordinate (Unit {0})
claim_cas request authorization = do
  changed ←
      gets (λ s. rowcount (claimable request authorization.owner_epoch) s.child_authorizations)
  modify (λ s. record s {
    child_authorizations =
        Sql.update (claimable request authorization.owner_epoch)
          (claimed_row request authorization.owner_epoch) s.child_authorizations;
  })
  raise_if (not (changed == 1)) child_cas_failed

-- `claim_child_authorization` after its SELECT
unfoldable pub claim_row :
    ChildAuthorizationClaimRequest → Option ChildAuthorization → Coordinate ChildAuthorization
unfolding check_claimed claim_cas
claim_row request none = raise child_not_issued
claim_row request (some row) =
    if row.state == claimed then (do check_claimed row request; pure row) else do
      claim_cas request row
      pure (
          claimed_row request row.owner_epoch
            (issued_row (authorization_request request) request.experiment_id))

unfoldable pub claim_child_authorization :
    ChildAuthorizationClaimRequest → Coordinate ChildAuthorization
unfolding check_request claim_row check_nonempty
claim_child_authorization request = do
  check_request (authorization_request request)
  check_nonempty request.experiment_id "experiment id"
  check_nonempty request.child_workflow_id "child workflow id"
  check_nonempty request.child_run_id "child run id"
  transaction do
    found ← gets (λ s. select_one (has_claim request) s.child_authorizations)
    claim_row request found

-- `WHERE` the campaign, the experiment and the child execution
abbrev claimed_by : ClaimedChildAuthorizationRequest → ChildAuthorization → Bool
claimed_by request row =
    row.campaign_id == request.campaign_id
    && row.experiment_id == request.experiment_id
    && row.child_workflow_id == some request.child_workflow_id
    && row.child_run_id == some request.child_run_id

claimed_child_row : Option ChildAuthorization → Coordinate ChildAuthorization
claimed_child_row none = raise child_not_claimed_here
claimed_child_row (some row) = do raise_if (not (row.state == claimed)) child_not_claimed; pure row

unfoldable pub claimed_child_authorization :
    ClaimedChildAuthorizationRequest → Coordinate ChildAuthorization
unfolding claimed_child_row check_nonempty
claimed_child_authorization request = do
  check_nonempty request.campaign_id "campaign id"
  check_nonempty request.experiment_id "experiment id"
  check_nonempty request.child_workflow_id "child workflow id"
  check_nonempty request.child_run_id "child run id"
  found ← gets (λ s. select_one (claimed_by request) s.child_authorizations)
  claimed_child_row found
