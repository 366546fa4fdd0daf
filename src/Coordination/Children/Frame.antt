-- ===== src/Coordination/Children/Frame.antt =====
-- The one change that a call about child authorizations makes to their table.
use instruct_eval.Common.{
  String, ◌≡◌, none, some, [], ◌∷◌, ◌++◌, arith, ◌⊎◌, inl, inr, Option-cases, string_eq,
}
use instruct_eval.Sql.{select_one, update, insert}
use instruct_eval.Coordination.Types.{
  ChildAuthorization, ChildAuthorizationRequest, ChildAuthorizationClaimRequest, Store,
}
use instruct_eval.Coordination.Children.{
  has_identity, issued_row, has_claim, claimable, claimed_row, issue_child_authorization,
  claim_child_authorization,
}

-- A new authorization: nothing in the table has its identity or its experiment.
pub issue_child_authorization-store :
    (request : ChildAuthorizationRequest) (experiment : String) (s : Store)
    → ((issue_child_authorization request experiment s).1 ≡ s)
      ⊎ ((select_one (has_identity request) s.child_authorizations ≡ none)
          × ((issue_child_authorization request experiment s).1 ≡ record s {
            child_authorizations = s.child_authorizations ++ issued_row request experiment ∷ [];
          }))
unfolding issue_child_authorization insert
issue_child_authorization-store request experiment s = ground arith

claim_missing :
    (request : ChildAuthorizationClaimRequest) (s : Store)
    → select_one (has_claim request) s.child_authorizations ≡ none
    → (claim_child_authorization request s).1 ≡ s
unfolding claim_child_authorization
claim_missing request s h = ground arith

claim_found :
    (request : ChildAuthorizationClaimRequest) (row : ChildAuthorization) (s : Store)
    → select_one (has_claim request) s.child_authorizations ≡ some row
    → ((claim_child_authorization request s).1 ≡ s)
      ⊎ ((claim_child_authorization request s).1 ≡ record s {
        child_authorizations =
            update
              (claimable request row.owner_epoch)
              (claimed_row request row.owner_epoch)
              s.child_authorizations;
      })
unfolding claim_child_authorization
claim_found request row s h = ground arith

pub claim_child_authorization-store :
    (request : ChildAuthorizationClaimRequest) (s : Store)
    → ((claim_child_authorization request s).1 ≡ s)
      ⊎ ((row : ChildAuthorization) × ((claim_child_authorization request s).1 ≡ record s {
        child_authorizations =
            update
              (claimable request row.owner_epoch)
              (claimed_row request row.owner_epoch)
              s.child_authorizations;
      }))
claim_child_authorization-store request s =
    elim (Option-cases (select_one (has_claim request) s.child_authorizations)) [
      | inl missing ↦ inl (claim_missing request s missing)
      | inr (row, found) ↦ elim (claim_found request row s found) [
        | inl same ↦ inl same
        | inr e ↦ inr (row, e)
      ]
    ]
