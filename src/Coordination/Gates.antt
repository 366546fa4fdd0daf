-- ===== src/Coordination/Gates.antt =====
-- The gate ledger of coordination.py: its rows, and what `reserve_gate`, `begin_release_commit` and
-- `publish_gate` share.
pub mod Reserve
pub mod Release
pub mod Frame
pub mod Steps
pub mod Chain
pub mod ChainSteps
pub mod Rows
pub mod Outcomes
use Prim.Native.Nat.{max}
use instruct_eval.Common.{
  ℕ, zero, suc, ◌+◌, ℤ, equals, minus_one, is_negative, to_column, String, Bool, true, false, not,
  ◌&&◌, ◌||◌, Option, none, some, List, [], ◌∷◌, ◌==◌, nat_eq, string_eq, list_eq, option_eq,
  if◌then◌else◌,
}
use instruct_eval.Exec.{
  Exec, pure, raise, gets, or_raise, raise_if, modify, transaction, ◌>>=◌, ◌>>◌,
}
use instruct_eval.Sql
use instruct_eval.Sql.{select_one, rowcount}
use instruct_eval.Coordination.Library.{Bytes, Library}
use instruct_eval.Coordination.Types.{
  GateState, GateDisposition, GateReservation, GateReservationContext, GateRequest,
  GateCommitRequest, GatePublicationRequest, GateRow, Store, gate_state_eq,
}
use instruct_eval.Coordination.Checks.{
  Coordinate, check_digest, check_nonempty, negative_ordinal, corrupt_gate, gate_conflict,
  ordinal_not_next, prior_not_zero, prior_not_published, release_recovery_cas_failed,
  gate_recovery_cas_failed, unknown_gate, irreversible_commit, release_cas_failed,
  publication_cas_failed, not_regular_file, artifact_unavailable, artifact_mismatch,
  publication_conflict, integrity,
}

-- `"0" * 64`
abbrev pub zero_hash : String
zero_hash = "0000000000000000000000000000000000000000000000000000000000000000"

-- `WHERE workflow_id=? AND run_id=?`
abbrev pub in_ledger : String → String → GateRow → Bool
in_ledger workflow run row = row.workflow_id == workflow && row.run_id == run

-- `WHERE workflow_id=? AND run_id=? AND ordinal=?`
abbrev pub has_gate_key : String → String → ℤ → GateRow → Bool
has_gate_key workflow run ordinal row =
    row.workflow_id == workflow && row.run_id == run && equals ordinal row.ordinal

-- `... AND state=? AND owner_epoch=?`
abbrev pub holds_gate : String → String → ℤ → GateState → ℕ → GateRow → Bool
holds_gate workflow run ordinal state epoch row =
    has_gate_key workflow run ordinal row && row.state == state && row.owner_epoch == epoch

-- `str` of a column
abbrev pub column_text : Option String → String
column_text none = "None"
column_text (some text) = text

unfoldable pub find_gate : String → String → ℤ → Coordinate (Option GateRow)
find_gate workflow run ordinal = gets (λ s. select_one (has_gate_key workflow run ordinal) s.gates)

unfoldable pub update_gates : (GateRow → Bool) → (GateRow → GateRow) → Coordinate ℕ
update_gates p f = do
  changed ← gets (λ s. rowcount p s.gates)
  modify (λ s. record s { gates = Sql.update p f s.gates })
  pure changed

module _ ⦃library : Library⦄ where
  open library use {digest}

  -- `_gate_reservation`, by the row of its context
  gate_reservation_from : GateReservationContext → Option GateRow → GateReservation
  gate_reservation_from context none = record {
    disposition = context.disposition;
    workflow_id = context.request.workflow_id;
    run_id = context.request.run_id;
    ordinal = context.request.ordinal;
    prior_record_sha256 = context.request.prior_record_sha256;
    expected_revision_sha256 = context.request.expected_revision_sha256;
    branch_kind = context.request.branch_kind;
    record_input_bytes = context.request.record_input_bytes;
    record_input_sha256 = digest context.request.record_input_bytes;
    owner_epoch = context.owner_epoch;
    publication_path = context.publication_path;
    publication_sha256 = context.publication_sha256;
  }
  gate_reservation_from context (some row) = record {
    disposition = context.disposition;
    workflow_id = context.request.workflow_id;
    run_id = context.request.run_id;
    ordinal = context.request.ordinal;
    prior_record_sha256 = row.prior_record_sha256;
    expected_revision_sha256 = row.expected_revision_sha256;
    branch_kind = row.branch_kind;
    record_input_bytes = row.record_input_bytes;
    record_input_sha256 = row.record_input_sha256;
    owner_epoch = context.owner_epoch;
    publication_path = context.publication_path;
    publication_sha256 = context.publication_sha256;
  }

  unfoldable pub gate_reservation : GateReservationContext → GateReservation
  unfolding gate_reservation_from
  gate_reservation context = gate_reservation_from context context.row

  -- the test of `_validate_gate_row`
  abbrev pub is_corrupt_gate : GateRow → Bool
  is_corrupt_gate row = not (digest row.record_input_bytes == row.record_input_sha256)
