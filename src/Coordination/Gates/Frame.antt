-- ===== src/Coordination/Gates/Frame.antt =====
-- What a call about gates or decisions leaves alone, and the one change that it makes to the gates.
use instruct_eval.Common.{
  ℕ, zero, suc, ◌+◌, ℤ, equals, minus_one, to_column, String, ◌≡◌, true, false, Option, none, some,
  [], ◌∷◌, ◌++◌, ◌==◌, nat_eq, string_eq, list_eq, option_eq, arith, ◌⊎◌, inl, inr,
}
use instruct_eval.Exec.{transaction}
use instruct_eval.Sql.{select_one, update, insert}
use instruct_eval.Coordination.Library.{Library}
use instruct_eval.Coordination.Types.{
  GateState, GateRow, GateRequest, GateCommitRequest, GatePublicationRequest, Store, gate_state_eq,
}
use instruct_eval.Coordination.Gates.{zero_hash, has_gate_key, holds_gate}
use instruct_eval.Coordination.Gates.Reserve.{
  reserved_row, reserve_gate, reserve_gate_row, next_ordinal,
}
use instruct_eval.Coordination.Gates.Release.{
  Files, published_row, begin_release_commit, publish_gate,
}

abbrev pub committing_row : GateRow → GateRow
committing_row r = record r { state = GateState.release_committing }

abbrev pub bumped_row : ℕ → GateRow → GateRow
bumped_row epoch r = record r { owner_epoch = epoch + 1 }

-- What an update may change: the gate, in the state and under the epoch that it names.
abbrev pub updating : String → String → ℤ → GateState → ℕ → (GateRow → GateRow) → Store → Store
updating workflow run ordinal state epoch f s = record s {
  gates = update (holds_gate workflow run ordinal state epoch) f s.gates;
}

-- The predecessor that a new gate needs: none for the first one, whose prior hash is zero, and
-- else a published one with that hash.
abbrev pub Follows : ℕ → String → Option GateRow → Type 0
Follows zero prior predecessor = (prior == zero_hash) ≡ true
Follows (suc n) prior none = ⊥
Follows (suc n) prior (some row) =
    ((row.state == GateState.published) ≡ true) × ((row.publication_sha256 == some prior) ≡ true)

module _ ⦃library : Library⦄ where
  -- What a new gate is: the next of its ledger, after its predecessor.
  abbrev pub Fresh : GateRequest → Store → Type 0
  Fresh request s =
      (equals request.ordinal (next_ordinal request.workflow_id request.run_id s.gates) ≡ true)
      × Follows (to_column request.ordinal) request.prior_record_sha256 (
          select_one (has_gate_key request.workflow_id request.run_id (minus_one request.ordinal))
            s.gates)

  -- The two ways in which a reservation changes the gates.
  abbrev pub Reserves : GateRequest → Store → Store → Type 0
  Reserves request s s' =
      (s' ≡ s)
      ⊎ (Fresh request s × (s' ≡ record s { gates = s.gates ++ reserved_row request ∷ [] }))
      ⊎ ((row : GateRow) × ((row.state == GateState.published) ≡ false)
          × (s'
              ≡ updating request.workflow_id request.run_id request.ordinal row.state
                  row.owner_epoch (bumped_row row.owner_epoch) s))

  reserve_gate_row-new :
      (request : GateRequest) (s : Store)
      → ((transaction (reserve_gate_row request none) s).1 ≡ s)
        ⊎ (Fresh request s
            × ((transaction (reserve_gate_row request none) s).1
                ≡ record s { gates = s.gates ++ reserved_row request ∷ [] }))
  unfolding reserve_gate_row insert
  reserve_gate_row-new request s = ground arith

  reserve_gate_row-old :
      (request : GateRequest) (row : GateRow) (s : Store)
      → ((transaction (reserve_gate_row request (some row)) s).1 ≡ s)
        ⊎ (((row.state == GateState.published) ≡ false)
            × ((transaction (reserve_gate_row request (some row)) s).1
                ≡ updating request.workflow_id request.run_id request.ordinal row.state
                    row.owner_epoch
                    (bumped_row row.owner_epoch)
                    s))
  unfolding reserve_gate_row
  reserve_gate_row-old request row s = ground arith

  reserve_gate_row-store :
      (request : GateRequest) (found : Option GateRow) (s : Store)
      → Reserves request s (transaction (reserve_gate_row request found) s).1
  reserve_gate_row-store request none s = elim (reserve_gate_row-new request s) [
    | inl same ↦ inl same
    | inr new ↦ inr (inl new)
  ]
  reserve_gate_row-store request (some row) s = elim (reserve_gate_row-old request row s) [
    | inl same ↦ inl same
    | inr bumped ↦ inr (inr (row, bumped.0, bumped.1))
  ]

  reserve_gate-cases :
      (request : GateRequest) (s : Store)
      → ((reserve_gate request s).1 ≡ s)
        ⊎ ((reserve_gate request s).1
            ≡ (transaction
                (reserve_gate_row request (
                  select_one
                    (has_gate_key request.workflow_id request.run_id request.ordinal)
                    s.gates))
                s).1)
  unfolding reserve_gate
  reserve_gate-cases request s = ground arith

  pub reserve_gate-store :
      (request : GateRequest) (s : Store) → Reserves request s (reserve_gate request s).1
  reserve_gate-store request s = elim (reserve_gate-cases request s) [
    | inl same ↦ inl same
    | inr e ↦ rw e (reserve_gate_row-store request _ s)
  ]

  pub begin_release_commit-store :
      (request : GateCommitRequest) (s : Store)
      → ((begin_release_commit request s).1 ≡ s)
        ⊎ ((begin_release_commit request s).1
            ≡ updating request.workflow_id request.run_id request.ordinal GateState.reserved
                request.owner_epoch committing_row s)
  unfolding begin_release_commit
  begin_release_commit-store request s = ground arith

  pub publish_gate-store :
      (files : Files) (request : GatePublicationRequest) (s : Store)
      → ((publish_gate files request s).1 ≡ s)
        ⊎ ((publish_gate files request s).1
            ≡ updating request.workflow_id request.run_id request.ordinal
                GateState.release_committing request.owner_epoch
                (published_row
                  (library.path_text request.final_artifact_path)
                  request.expected_sha256)
                s)
  unfolding publish_gate
  publish_gate-store files request s = ground arith
