-- ===== src/Coordination/Gates/Reserve.antt =====
-- `reserve_gate`: a new gate follows its published predecessor; a known one is recovered under a
-- new epoch.
use Prim.Native.Nat.{max}
use instruct_eval.Common.{
  ℕ, zero, suc, ◌+◌, equals, minus_one, is_negative, to_column, String, Bool, not, ◌&&◌, ◌||◌,
  Option, none, some, List, [], ◌∷◌, ◌==◌, nat_eq, string_eq, list_eq, option_eq, if◌then◌else◌,
}
use instruct_eval.Exec.{pure, raise, gets, or_raise, raise_if, modify, transaction, ◌>>=◌, ◌>>◌}
use instruct_eval.Sql
use instruct_eval.Sql.{select_one, rowcount}
use instruct_eval.Coordination.Library.{Library}
use instruct_eval.Coordination.Types.{
  GateState, GateDisposition, GateReservation, GateRequest, GateRow, gate_state_eq,
}
use instruct_eval.Coordination.Checks.{
  CoordinationError, Coordinate, check_digest, check_nonempty, negative_ordinal, corrupt_gate,
  gate_conflict, ordinal_not_next, prior_not_zero, prior_not_published, release_recovery_cas_failed,
  gate_recovery_cas_failed, integrity,
}
use instruct_eval.Coordination.Gates.{
  zero_hash, in_ledger, holds_gate, column_text, find_gate, update_gates, gate_reservation,
  is_corrupt_gate,
}

-- `SELECT COALESCE(MAX(ordinal)+1,0) FROM gates WHERE workflow_id=? AND run_id=?`
unfoldable pub next_ordinal : String → String → List GateRow → ℕ
next_ordinal workflow run [] = 0
next_ordinal workflow run (row ∷ rows) =
    let rest = next_ordinal workflow run rows in
    if in_ledger workflow run row then max (row.ordinal + 1) rest else rest

insert_gate_row : GateRow → Coordinate (Unit {0})
insert_gate_row row s =
    (do
      rows ←
          or_raise
            (Sql.insert
              (λ other.
                other.workflow_id == row.workflow_id
                && other.run_id == row.run_id
                && other.ordinal == row.ordinal)
              row s.gates)
            integrity
      modify (λ t. record t { gates = rows }))
      s

-- `_validate_gate_predecessor`
predecessor_check : GateRequest → ℕ → Option GateRow → Coordinate (Unit {0})
predecessor_check request zero predecessor =
    raise_if (not (request.prior_record_sha256 == zero_hash)) prior_not_zero
predecessor_check request (suc n) none = raise prior_not_published
predecessor_check request (suc n) (some predecessor) =
    raise_if
      (not (predecessor.state == GateState.published)
        || not (predecessor.publication_sha256 == some request.prior_record_sha256))
      prior_not_published

module _ ⦃library : Library⦄ where
  open library use {digest}

  unfoldable pub validate_gate_request : GateRequest → Coordinate String
  unfolding check_nonempty check_digest
  validate_gate_request request = do
    check_nonempty request.workflow_id "workflow id"
    check_nonempty request.run_id "run id"
    check_nonempty request.branch_kind "branch kind"
    check_digest request.prior_record_sha256 "prior record hash"
    check_digest request.expected_revision_sha256 "expected revision hash"
    raise_if (is_negative request.ordinal) negative_ordinal
    pure (digest request.record_input_bytes)

  -- `_gate_matches_request`
  gate_matches_request : GateRequest → GateRow → Bool
  gate_matches_request request row =
      row.prior_record_sha256 == request.prior_record_sha256
      && row.expected_revision_sha256 == request.expected_revision_sha256
      && row.branch_kind == request.branch_kind
      && row.record_input_bytes == request.record_input_bytes
      && row.record_input_sha256 == digest request.record_input_bytes

  -- the row that `_insert_gate` writes
  abbrev pub reserved_row : GateRequest → GateRow
  reserved_row request = record {
    workflow_id = request.workflow_id;
    run_id = request.run_id;
    ordinal = to_column request.ordinal;
    prior_record_sha256 = request.prior_record_sha256;
    expected_revision_sha256 = request.expected_revision_sha256;
    branch_kind = request.branch_kind;
    record_input_bytes = request.record_input_bytes;
    record_input_sha256 = digest request.record_input_bytes;
    state = GateState.reserved;
    owner_epoch = 1;
    publication_path = none;
    publication_sha256 = none;
  }

  -- `_insert_gate`
  insert_gate : GateRequest → Coordinate (Unit {0})
  unfolding next_ordinal predecessor_check insert_gate_row find_gate
  insert_gate request = do
    expected ← gets (λ s. next_ordinal request.workflow_id request.run_id s.gates)
    raise_if (not (equals request.ordinal expected)) ordinal_not_next
    predecessor ← find_gate request.workflow_id request.run_id (minus_one request.ordinal)
    predecessor_check request (to_column request.ordinal) predecessor
    insert_gate_row (reserved_row request)

  -- `_recover_gate` where the gate is not published: the disposition, the state that the update
  -- expects, and its error
  recover_cas :
      GateDisposition
      → GateState
      → CoordinationError
      → GateRequest
      → GateRow
      → Coordinate GateReservation
  unfolding update_gates gate_reservation
  recover_cas disposition cas_state error request row = do
    let next_epoch = row.owner_epoch + 1
    changed ←
        update_gates
          (holds_gate request.workflow_id request.run_id request.ordinal cas_state row.owner_epoch)
          (λ r. record r { owner_epoch = next_epoch })
    raise_if (not (changed == 1)) error
    pure (
        gate_reservation (record {
          disposition = disposition;
          request = request;
          row = some row;
          owner_epoch = some next_epoch;
          publication_path = none;
          publication_sha256 = none;
        }))

  -- `_recover_gate`
  recover_gate : GateState → GateRequest → GateRow → Coordinate GateReservation
  unfolding recover_cas
  recover_gate GateState.published request row = pure (
      gate_reservation (record {
        disposition = GateDisposition.published;
        request = request;
        row = some row;
        owner_epoch = none;
        publication_path = some (library.path_text (column_text row.publication_path));
        publication_sha256 = some (column_text row.publication_sha256);
      }))
  recover_gate GateState.reserved request row =
      recover_cas GateDisposition.recovered GateState.reserved gate_recovery_cas_failed request row
  recover_gate GateState.release_committing request row =
      recover_cas GateDisposition.committing GateState.release_committing
        release_recovery_cas_failed request row

  -- `reserve_gate` after its SELECT
  unfoldable pub reserve_gate_row : GateRequest → Option GateRow → Coordinate GateReservation
  unfolding insert_gate gate_matches_request recover_gate gate_reservation
  reserve_gate_row request none = do
    insert_gate request
    pure (
        gate_reservation (record {
          disposition = GateDisposition.acquired;
          request = request;
          row = none;
          owner_epoch = some 1;
          publication_path = none;
          publication_sha256 = none;
        }))
  reserve_gate_row request (some row) = do
    raise_if (is_corrupt_gate row) corrupt_gate
    raise_if (not (gate_matches_request request row)) gate_conflict
    recover_gate row.state request row

  unfoldable pub reserve_gate : GateRequest → Coordinate GateReservation
  unfolding validate_gate_request reserve_gate_row find_gate
  reserve_gate request = do
    record_hash ← validate_gate_request request
    transaction do
      found ← find_gate request.workflow_id request.run_id request.ordinal
      reserve_gate_row request found
