-- ===== src/Coordination/Calls/GateLife.antt =====
-- The gate ledgers under any sequence of calls to the store.
use instruct_eval.Common.{
  ◌<◌, ℤ, String, ◌≡◌, refl, false, Option, none, some, List, [], ◌∷◌, arith, inl, inr,
}
use instruct_eval.Sql.{select_one}
use instruct_eval.Coordination.Library.{Library}
use instruct_eval.Coordination.Types.{
  GateState, GateRow, GateCommitRequest, GatePublicationRequest, Store,
}
use instruct_eval.Coordination.Gates.{has_gate_key}
use instruct_eval.Coordination.Gates.Release.{Files, begin_release_commit, publish_gate}
use instruct_eval.Coordination.Gates.Steps.{
  GateStep, stay, reserve_gate-step, begin_release_commit-step, publish_gate-step,
}
use instruct_eval.Coordination.Gates.Chain.{IsChained}
use instruct_eval.Coordination.Gates.ChainSteps.{GateStep-IsChained}
use instruct_eval.Coordination.Gates.Rows.{
  GateEvolves, GateEvolves-refl, GateEvolves-trans, GateStep-GateEvolves, Advances,
}
use instruct_eval.Coordination.Gates.Outcomes.{
  gate_of, is_commit_acquired, begin_release_commit_fenced, publish_gate_fenced,
}
use instruct_eval.Coordination.Decisions.{reserve_request, commit_request, publication_request}
use instruct_eval.Coordination.Decisions.Frame.{
  reserve_decision-store, begin_decision_commit-store, publish_decision-store,
}
use instruct_eval.Coordination.Calls.{Call, perform, run}
use instruct_eval.Coordination.Calls.Frame

module _ ⦃library : Library⦄ where
  kept_gates : {rows rows' : List GateRow} → rows' ≡ rows → GateStep rows rows'
  kept_gates h = rw h stay

  pub perform-GateStep : (call : Call) (s : Store) → GateStep s.gates (perform call s).gates
  unfolding perform
  perform-GateStep (Call.reserve_invocation k b) s =
      kept_gates (Frame.reserve_invocation-frame k b s).gates
  perform-GateStep (Call.reserve_gate_invocation b) s =
      kept_gates (Frame.reserve_gate_invocation-frame b s).gates
  perform-GateStep (Call.commit_result k e b) s =
      kept_gates (Frame.commit_result-frame k e b s).gates
  perform-GateStep (Call.commit_private_subject_result k e b) s =
      kept_gates (Frame.commit_private_subject_result-frame k e b s).gates
  perform-GateStep (Call.terminalize_indeterminate k e) s =
      kept_gates (Frame.terminalize_indeterminate-frame k e s).gates
  perform-GateStep (Call.reserve_gate r) s = reserve_gate-step r s
  perform-GateStep (Call.begin_release_commit r) s = begin_release_commit-step r s
  perform-GateStep (Call.publish_gate f r) s = publish_gate-step f r s
  perform-GateStep (Call.reserve_decision r) s = elim (reserve_decision-store r s) [
    | inl same ↦ rw same stay
    | inr e ↦ rw e (reserve_gate-step (reserve_request r) s)
  ]
  perform-GateStep (Call.begin_decision_commit r) s = elim (begin_decision_commit-store r s) [
    | inl same ↦ rw same stay
    | inr e ↦ rw e (begin_release_commit-step (commit_request r) s)
  ]
  perform-GateStep (Call.publish_decision f r) s = elim (publish_decision-store f r s) [
    | inl same ↦ rw same stay
    | inr e ↦ rw e (publish_gate-step f (publication_request r) s)
  ]
  perform-GateStep (Call.issue_child_authorization r experiment) s =
      kept_gates (Frame.issue_child_authorization-frame r experiment s).gates
  perform-GateStep (Call.claim_child_authorization r) s =
      kept_gates (Frame.claim_child_authorization-frame r s).gates

  -- Whatever the calls, a chained table of gates stays chained: no two rows have one key, the hash
  -- of each row's record input is right, a row has a publication exactly when it is PUBLISHED, the
  -- gate 0 of a ledger has the zero prior hash, and each later gate has a predecessor that is
  -- PUBLISHED under the hash which the gate names as its prior record.
  pub run-IsChained :
      (calls : List Call) (s : Store) → IsChained s.gates → IsChained (run calls s).gates
  unfolding run
  run-IsChained [] s h = h
  run-IsChained (call ∷ calls) s h =
      run-IsChained calls (perform call s) (GateStep-IsChained (perform-GateStep call s) h)

  pub run-GateEvolves :
      (w r : String) (o : ℤ) (calls : List Call) (s : Store)
      → GateEvolves (gate_of w r o s) (gate_of w r o (run calls s))
  unfolding run gate_of
  run-GateEvolves w r o [] s = GateEvolves-refl (select_one (has_gate_key w r o) s.gates)
  run-GateEvolves w r o (call ∷ calls) s =
      GateEvolves-trans (gate_of w r o s) (gate_of w r o (perform call s))
        (gate_of w r o (run calls (perform call s)))
        (GateStep-GateEvolves w r o (perform-GateStep call s))
        (run-GateEvolves w r o calls (perform call s))

  evolved :
      (row : GateRow) (o : Option GateRow)
      → GateEvolves (some row) o
      → (row' : GateRow) × (o ≡ some row') × Advances row row'
  evolved row none h = absurd h
  evolved row (some row') h = (row', refl, h)

  -- The row of a published gate is the same after any further calls.
  pub published_gate_final :
      (w r : String) (o : ℤ) (row : GateRow) (calls : List Call) (s : Store)
      → gate_of w r o s ≡ some row
      → row.state ≡ GateState.published
      → gate_of w r o (run calls s) ≡ some row
  published_gate_final w r o row calls s found st =
      let life = run-GateEvolves w r o calls s in
      let (row', e, h) = evolved row (gate_of w r o (run calls s)) (rw found at life) in
      rw e (ground (arith, h.settled st))

  -- A caller whose epoch is below that of a gate's row changes nothing, however many calls come
  -- between: its `begin_release_commit` is not acquired and leaves the store as it is, and so does
  -- its `publish_gate`.
  pub superseded_owner_fenced :
      (commit : GateCommitRequest) (files : Files) (publication : GatePublicationRequest)
      (row : GateRow) (calls : List Call) (s : Store)
      → gate_of commit.workflow_id commit.run_id commit.ordinal s ≡ some row
      → gate_of publication.workflow_id publication.run_id publication.ordinal s ≡ some row
      → commit.owner_epoch < row.owner_epoch
      → publication.owner_epoch < row.owner_epoch
      → let t = run calls s in
        (is_commit_acquired (begin_release_commit commit t).0 ≡ false)
        × ((begin_release_commit commit t).1 ≡ t)
        × ((publish_gate files publication t).1 ≡ t)
  superseded_owner_fenced commit files publication row calls s found found' old old' =
      let t = run calls s in
      let life = run-GateEvolves commit.workflow_id commit.run_id commit.ordinal calls s in
      let life' =
        run-GateEvolves publication.workflow_id publication.run_id publication.ordinal calls s in
      let (now, e, h) =
        evolved row (gate_of commit.workflow_id commit.run_id commit.ordinal t)
          (rw found at life) in
      let (now', e', h') =
        evolved row (gate_of publication.workflow_id publication.run_id publication.ordinal t)
          (rw found' at life') in
      let fenced = begin_release_commit_fenced commit now t e (omega (arith, h.epoch_grows)) in
      (
        fenced.0,
        fenced.1,
        publish_gate_fenced files publication now' t e' (omega (arith, h'.epoch_grows)),
      )
