-- ===== src/Coordination/Children/Rows.antt =====
-- How calls change the authorization of one claim: it is issued once, claimed once, and then final.
use mathlib.Core.Option
use instruct_eval.Common.{
  ℕ, String, ◌≡◌, refl, true, Option, none, some, arith, ◌⊎◌, inl, inr, nat_eq, string_eq,
  option_eq, if◌then◌else◌, option_beq_iff,
}
use instruct_eval.Exec.{is_ok, transaction}
use instruct_eval.Sql.{select_one, update, select_one-update, select_one-append}
use instruct_eval.Coordination.Types.{
  issued, claimed, ChildAuthorization, ChildAuthorizationRequest, ChildAuthorizationClaimRequest,
  Store, child_state_eq,
}
use instruct_eval.Coordination.Children.{
  issued_row, has_claim, claimable, claimed_row, claim_row, issue_child_authorization,
  claim_child_authorization,
}
use instruct_eval.Coordination.Children.Frame.{
  issue_child_authorization-store, claim_child_authorization-store,
}

-- the authorization that a claim is about
unfoldable pub child_of : ChildAuthorizationClaimRequest → Store → Option ChildAuthorization
child_of request s = select_one (has_claim request) s.child_authorizations

-- A claimed authorization stays as it is.
abbrev pub ChildEvolves : Option ChildAuthorization → Option ChildAuthorization → Type 0
ChildEvolves none o = Unit
ChildEvolves (some r) o = r.state ≡ claimed → o ≡ some r

ChildEvolves-map :
    (request : ChildAuthorizationClaimRequest) (e : ℕ) (o : Option ChildAuthorization)
    → ChildEvolves o
        (Option.map (λ r. if claimable request e r then claimed_row request e r else r) o)
ChildEvolves-map request e none = tt
ChildEvolves-map request e (some r) = λ st. ground arith

ChildEvolves-append :
    (o p : Option ChildAuthorization) → ChildEvolves o (elim o [ none ↦ p | some r ↦ some r ])
ChildEvolves-append none p = tt
ChildEvolves-append (some r) p = λ st. refl

pub ChildEvolves-refl : (o : Option ChildAuthorization) → ChildEvolves o o
ChildEvolves-refl none = tt
ChildEvolves-refl (some r) = λ st. refl

module _ (mine : ChildAuthorizationClaimRequest) where
  pub issue-ChildEvolves :
      (request : ChildAuthorizationRequest) (experiment : String) (s : Store)
      → ChildEvolves
          (child_of mine s)
          (child_of mine (issue_child_authorization request experiment s).1)
  unfolding child_of
  issue-ChildEvolves request experiment s =
      elim (issue_child_authorization-store request experiment s) [
        | inl same ↦ rw same (ChildEvolves-refl (child_of mine s))
        | inr (fresh, e) ↦ rw e (
            rw
              (select_one-append (has_claim mine) s.child_authorizations
                (issued_row request experiment))
              (ChildEvolves-append (child_of mine s) _))
      ]

  pub claim-ChildEvolves :
      (request : ChildAuthorizationClaimRequest) (s : Store)
      → ChildEvolves (child_of mine s) (child_of mine (claim_child_authorization request s).1)
  unfolding child_of
  claim-ChildEvolves request s = elim (claim_child_authorization-store request s) [
    | inl same ↦ rw same (ChildEvolves-refl (child_of mine s))
    | inr (row, e) ↦ rw e (
        rw
          (select_one-update (has_claim mine) (claimable request row.owner_epoch)
            (claimed_row request row.owner_epoch) s.child_authorizations (λ x. refl))
          (ChildEvolves-map request row.owner_epoch (child_of mine s)))
  ]

-- What the row of a claimed authorization says.
pub record ClaimedBy (request : ChildAuthorizationClaimRequest) (r : ChildAuthorization)
    : Type 0 where
  pub claimed_state : r.state ≡ claimed
  pub workflow : r.child_workflow_id ≡ some request.child_workflow_id
  pub run_id : r.child_run_id ≡ some request.child_run_id

-- A claim that returns has passed its checks, and is its transaction.
pub claim_passed :
    (request : ChildAuthorizationClaimRequest) (s : Store)
    → is_ok (claim_child_authorization request s).0 ≡ true
    → claim_child_authorization request s ≡ transaction (claim_row request (child_of request s)) s
unfolding claim_child_authorization child_of
claim_passed request s h = ground arith

pub claim_row_lands :
    (request : ChildAuthorizationClaimRequest) (row : ChildAuthorization) (s : Store)
    → is_ok (transaction (claim_row request (some row)) s).0 ≡ true
    → (ClaimedBy request row × ((transaction (claim_row request (some row)) s).1 ≡ s))
      ⊎ ((row.state ≡ issued)
          × ((transaction (claim_row request (some row)) s).1 ≡ record s {
            child_authorizations =
                update
                  (claimable request row.owner_epoch)
                  (claimed_row request row.owner_epoch)
                  s.child_authorizations;
          }))
unfolding claim_row
claim_row_lands request row s h = ground (
  arith,
  option_beq_iff row.child_workflow_id (some request.child_workflow_id),
  option_beq_iff row.child_run_id (some request.child_run_id),
)
