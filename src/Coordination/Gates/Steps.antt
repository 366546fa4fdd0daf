-- ===== src/Coordination/Gates/Steps.antt =====
-- The gate ledger as a transition system, and that every call takes one of its steps.
use mathlib.Core.Path.{subst}
use instruct_eval.Common.{
  ℕ, ℤ, equals, minus_one, to_column, String, ◌≡◌, sym, true, false, List, [], ◌∷◌, ◌++◌, ◌==◌,
  nat_eq, string_eq, option_eq, inl, inr,
}
use instruct_eval.Sql.{select_one, update}
use instruct_eval.Coordination.Library.{Library}
use instruct_eval.Coordination.Types.{
  GateState, GateRow, GateRequest, GateCommitRequest, GatePublicationRequest, Store, gate_state_eq,
}
use instruct_eval.Coordination.Gates.{has_gate_key, holds_gate}
use instruct_eval.Coordination.Gates.Reserve.{reserved_row, next_ordinal, reserve_gate}
use instruct_eval.Coordination.Gates.Release.{
  Files, published_row, begin_release_commit, publish_gate,
}
use instruct_eval.Coordination.Gates.Frame.{
  Follows, committing_row, bumped_row, reserve_gate-store, begin_release_commit-store,
  publish_gate-store,
}

module _ ⦃library : Library⦄ where
  pub data GateStep : List GateRow → List GateRow → Type 0 where
    stay : {rows : List GateRow} → GateStep rows rows
    -- a new gate, the next of its ledger, after its published predecessor
    append :
        {rows : List GateRow} (request : GateRequest)
        → (equals request.ordinal (next_ordinal request.workflow_id request.run_id rows) ≡ true)
        → Follows (to_column request.ordinal) request.prior_record_sha256 (
            select_one
              (has_gate_key request.workflow_id request.run_id (minus_one request.ordinal))
              rows)
        → GateStep rows (rows ++ reserved_row request ∷ [])
    -- recovery: a new epoch
    bump :
        {rows : List GateRow} (workflow run : String) (ordinal : ℤ) (state : GateState) (epoch : ℕ)
        → (state == GateState.published) ≡ false
        → GateStep rows
            (update (holds_gate workflow run ordinal state epoch) (bumped_row epoch) rows)
    -- the owner of the epoch begins to commit
    commit :
        {rows : List GateRow} (workflow run : String) (ordinal : ℤ) (epoch : ℕ)
        → GateStep rows
            (update (holds_gate workflow run ordinal GateState.reserved epoch) committing_row rows)
    -- the owner of the epoch publishes
    publish :
        {rows : List GateRow} (workflow run : String) (ordinal : ℤ) (epoch : ℕ) (path hash : String)
        → GateStep rows (
            update
              (holds_gate workflow run ordinal GateState.release_committing epoch)
              (published_row path hash)
              rows)

  abbrev step_to :
      (s : Store) {s' t : Store} → s' ≡ t → GateStep s.gates t.gates → GateStep s.gates s'.gates
  step_to s e step = subst (λ (u : Store). GateStep s.gates u.gates) (sym e) step

  pub reserve_gate-step :
      (request : GateRequest) (s : Store) → GateStep s.gates (reserve_gate request s).1.gates
  reserve_gate-step request s = elim (reserve_gate-store request s) [
    | inl same ↦ step_to s same stay
    | inr (inl (fresh, new)) ↦ step_to s new (append request fresh.0 fresh.1)
    | inr (inr (row, unpublished, bumped)) ↦ step_to s bumped (
        bump request.workflow_id request.run_id request.ordinal row.state row.owner_epoch
          unpublished)
  ]

  pub begin_release_commit-step :
      (request : GateCommitRequest) (s : Store)
      → GateStep s.gates (begin_release_commit request s).1.gates
  begin_release_commit-step request s = elim (begin_release_commit-store request s) [
    | inl same ↦ step_to s same stay
    | inr e ↦
        step_to s e (commit request.workflow_id request.run_id request.ordinal request.owner_epoch)
  ]

  pub publish_gate-step :
      (files : Files) (request : GatePublicationRequest) (s : Store)
      → GateStep s.gates (publish_gate files request s).1.gates
  publish_gate-step files request s = elim (publish_gate-store files request s) [
    | inl same ↦ step_to s same stay
    | inr e ↦ step_to s e (
        publish request.workflow_id request.run_id request.ordinal request.owner_epoch
          (library.path_text request.final_artifact_path) request.expected_sha256)
  ]
