-- ===== src/Coordination/Children/Claims.antt =====
-- Who holds a claimed authorization, and that nobody else can claim it.
use instruct_eval.Common.{
  String, ◌≡◌, ◌≢◌, refl, true, false, Option, none, some, arith, ◌⊎◌, inl, inr, nat_eq, string_eq,
  Bool-cases, ==_refl,
}
use instruct_eval.Exec.{is_ok, transaction}
use instruct_eval.Sql.{update, select_one-update, select_one_passes}
use instruct_eval.Coordination.Types.{
  issued, ChildAuthorization, ChildAuthorizationClaimRequest, Store, child_state_eq,
}
use instruct_eval.Coordination.Children.{
  has_claim, claimable, claimed_row, claim_row, claim_child_authorization,
}
use instruct_eval.Coordination.Children.Rows.{child_of, ClaimedBy, claim_passed, claim_row_lands}

-- the same claim, made by another child execution
abbrev pub rival : ChildAuthorizationClaimRequest → String → String → ChildAuthorizationClaimRequest
rival request workflow run = record request { child_workflow_id = workflow; child_run_id = run }

-- A claim that raises changes nothing.
claim_raises :
    (request : ChildAuthorizationClaimRequest) (s : Store)
    → is_ok (claim_child_authorization request s).0 ≡ false
    → (claim_child_authorization request s).1 ≡ s
unfolding claim_child_authorization
claim_raises request s h = ground arith

claimed_row-ClaimedBy :
    (request : ChildAuthorizationClaimRequest) (row : ChildAuthorization)
    → ClaimedBy request (claimed_row request row.owner_epoch row)
claimed_row-ClaimedBy request row = record { claimed_state = refl; workflow = refl; run_id = refl }

child_of-claimed :
    (request : ChildAuthorizationClaimRequest) (row : ChildAuthorization) (s : Store)
    → child_of request s ≡ some row
    → row.state ≡ issued
    → child_of request (record s {
      child_authorizations =
          update
            (claimable request row.owner_epoch)
            (claimed_row request row.owner_epoch)
            s.child_authorizations;
    })
      ≡ some (claimed_row request row.owner_epoch row)
unfolding child_of
child_of-claimed request row s found st =
    rw
      (select_one-update (has_claim request) (claimable request row.owner_epoch)
        (claimed_row request row.owner_epoch) s.child_authorizations (λ x. refl))
      (rw found (
        ground (
          arith,
          select_one_passes (has_claim request) s.child_authorizations row,
          ==_refl row.owner_epoch,
        )))

missing_raises :
    (request : ChildAuthorizationClaimRequest) (s : Store)
    → is_ok (transaction (claim_row request none) s).0 ≡ true
    → ⊥
unfolding claim_row
missing_raises request s h = cc

held_after :
    (request : ChildAuthorizationClaimRequest) (o : Option ChildAuthorization) (s : Store)
    → child_of request s ≡ o
    → is_ok (transaction (claim_row request o) s).0 ≡ true
    → (row : ChildAuthorization) × (child_of request (transaction (claim_row request o) s).1
        ≡ some row)
      × ClaimedBy request row
held_after request none s found h = absurd (missing_raises request s h)
held_after request (some row) s found h = elim (claim_row_lands request row s h) [
  | inl (held, same) ↦ (row, rw same found, held)
  | inr (st, e) ↦ (
    claimed_row request row.owner_epoch row,
    rw e (child_of-claimed request row s found st),
    claimed_row-ClaimedBy request row,
  )
]

-- After a claim that returns, the authorization is that child's.
pub claim_held :
    (request : ChildAuthorizationClaimRequest) (s : Store)
    → is_ok (claim_child_authorization request s).0 ≡ true
    → (row : ChildAuthorization) × (child_of request (claim_child_authorization request s).1
        ≡ some row)
      × ClaimedBy request row
claim_held request s h =
    let e = claim_passed request s h in
    rw e (held_after request (child_of request s) s refl (rw e at h))

rival_row_raises :
    (request : ChildAuthorizationClaimRequest) (w r : String) (row : ChildAuthorization) (s : Store)
    → ClaimedBy request row
    → (w ≢ request.child_workflow_id) ⊎ (r ≢ request.child_run_id)
    → is_ok (transaction (claim_row (rival request w r) (some row)) s).0 ≡ true
    → ⊥
rival_row_raises request w r row s held other h =
    ground (arith, claim_row_lands (rival request w r) row s h)

same_child :
    (request : ChildAuthorizationClaimRequest) (w r : String) (s : Store)
    → child_of (rival request w r) s ≡ child_of request s
unfolding child_of
same_child request w r s = refl

other_owner_raises :
    (request : ChildAuthorizationClaimRequest) (w r : String) (row : ChildAuthorization) (s : Store)
    → child_of request s ≡ some row
    → ClaimedBy request row
    → (w ≢ request.child_workflow_id) ⊎ (r ≢ request.child_run_id)
    → is_ok (claim_child_authorization (rival request w r) s).0 ≡ true
    → ⊥
other_owner_raises request w r row s found held other h =
    rival_row_raises request w r row s held other (
      rw found at
        (rw (same_child request w r s) at (rw (claim_passed (rival request w r) s h) at h)))

-- Another child execution cannot claim it: its call raises and changes nothing.
pub rival_fenced :
    (request : ChildAuthorizationClaimRequest) (w r : String) (row : ChildAuthorization) (s : Store)
    → child_of request s ≡ some row
    → ClaimedBy request row
    → (w ≢ request.child_workflow_id) ⊎ (r ≢ request.child_run_id)
    → (is_ok (claim_child_authorization (rival request w r) s).0 ≡ false)
      × ((claim_child_authorization (rival request w r) s).1 ≡ s)
rival_fenced request w r row s found held other =
    elim (Bool-cases (is_ok (claim_child_authorization (rival request w r) s).0)) [
      | inl e ↦ absurd (other_owner_raises request w r row s found held other e)
      | inr e ↦ (e, claim_raises (rival request w r) s e)
    ]
