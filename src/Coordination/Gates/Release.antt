-- ===== src/Coordination/Gates/Release.antt =====
-- `begin_release_commit` and `publish_gate`.
use instruct_eval.Common.{
  ℤ, String, Bool, not, ◌||◌, Option, none, some, [], ◌==◌, nat_eq, string_eq, list_eq, option_eq,
  if◌then◌else◌,
}
use instruct_eval.Exec.{pure, raise, raise_if, transaction, ◌>>=◌, ◌>>◌}
use instruct_eval.Coordination.Library.{Bytes, Library}
use instruct_eval.Coordination.Types.{
  GateState, GateDisposition, GateReservation, GateRequest, GateCommitRequest,
  GatePublicationRequest, GateRow, gate_state_eq,
}
use instruct_eval.Coordination.Checks.{
  Coordinate, check_digest, corrupt_gate, unknown_gate, irreversible_commit, release_cas_failed,
  publication_cas_failed, not_regular_file, artifact_unavailable, artifact_mismatch,
  publication_conflict,
}
use instruct_eval.Coordination.Gates.{
  holds_gate, column_text, find_gate, update_gates, gate_reservation, is_corrupt_gate,
}

-- The file system, as `_publication_artifact` reads it: `read_bytes` is `none` where the read
-- raises an `OSError`.
pub record Files : Type 0 where
  pub is_file : String → Bool
  pub is_symlink : String → Bool
  pub read_bytes : String → Option Bytes

-- the `GateRequest` of `_gate_request_from_commit` and `_gate_request_from_publication`
abbrev blank_request : String → String → ℤ → String → GateRequest
blank_request workflow run ordinal revision = record {
  workflow_id = workflow;
  run_id = run;
  ordinal = ordinal;
  prior_record_sha256 = "";
  expected_revision_sha256 = revision;
  branch_kind = "";
  record_input_bytes = [];
}

abbrev gate_request_from_commit : GateCommitRequest → GateRequest
gate_request_from_commit request =
    blank_request request.workflow_id request.run_id request.ordinal
      request.expected_revision_sha256

abbrev gate_request_from_publication : GatePublicationRequest → GateRequest
gate_request_from_publication request =
    blank_request request.workflow_id request.run_id request.ordinal
      request.expected_revision_sha256

-- `_begin_release_cas`: without the epoch of the row no update is sent, and none has changed.
begin_release_cas : GateCommitRequest → GateRow → Coordinate (Unit {0})
unfolding update_gates
begin_release_cas request row =
    if row.owner_epoch == request.owner_epoch
    then (do
      changed ←
          update_gates
            (holds_gate request.workflow_id request.run_id request.ordinal GateState.reserved
              request.owner_epoch)
            (λ r. record r { state = GateState.release_committing })
      raise_if (not (changed == 1)) release_cas_failed)
    else raise release_cas_failed

abbrev pub published_row : String → String → GateRow → GateRow
published_row path hash r = record r {
  state = GateState.published;
  publication_path = some path;
  publication_sha256 = some hash;
}

-- `_publish_gate_cas`
publish_gate_cas : GatePublicationRequest → GateRow → String → Coordinate (Unit {0})
unfolding update_gates
publish_gate_cas request row path = do
  raise_if
      (not (row.state == GateState.release_committing)
        || not (row.owner_epoch == request.owner_epoch))
      publication_cas_failed
  changed ←
      update_gates
        (holds_gate request.workflow_id request.run_id request.ordinal GateState.release_committing
          request.owner_epoch)
        (published_row path request.expected_sha256)
  raise_if (not (changed == 1)) publication_cas_failed

module _ ⦃library : Library⦄ where
  open library use {digest, path_text}

  -- `_publication_artifact` once the file has been read
  artifact_matches : GatePublicationRequest → Option Bytes → Coordinate String
  artifact_matches request none = raise artifact_unavailable
  artifact_matches request (some actual) = do
    raise_if
        (not (actual == request.expected_bytes) || not (digest actual == request.expected_sha256))
        artifact_mismatch
    pure (path_text request.final_artifact_path)

  -- `_publication_artifact`
  publication_artifact : Files → GatePublicationRequest → Coordinate String
  unfolding artifact_matches check_digest
  publication_artifact files request = do
    check_digest request.expected_revision_sha256 "expected revision hash"
    check_digest request.expected_sha256 "publication hash"
    raise_if
        (not (files.is_file (path_text request.final_artifact_path))
          || files.is_symlink (path_text request.final_artifact_path))
        not_regular_file
    artifact_matches request (files.read_bytes (path_text request.final_artifact_path))

  -- the reservation of a gate that is published
  published_reservation : GateRequest → GateRow → String → String → GateReservation
  unfolding gate_reservation
  published_reservation request row path hash = gate_reservation (record {
    disposition = GateDisposition.published;
    request = request;
    row = some row;
    owner_epoch = none;
    publication_path = some path;
    publication_sha256 = some hash;
  })

  -- `begin_release_commit` by the state of the row
  begin_release_from : GateState → GateCommitRequest → GateRow → Coordinate GateReservation
  unfolding published_reservation begin_release_cas gate_reservation
  begin_release_from GateState.published request row = pure (
      published_reservation (gate_request_from_commit request) row
        (path_text (column_text row.publication_path)) (column_text row.publication_sha256))
  begin_release_from GateState.release_committing request row = raise irreversible_commit
  begin_release_from GateState.reserved request row = do
    begin_release_cas request row
    pure (
        gate_reservation (record {
          disposition = GateDisposition.acquired;
          request = gate_request_from_commit request;
          row = some row;
          owner_epoch = some request.owner_epoch;
          publication_path = none;
          publication_sha256 = none;
        }))

  begin_release_row : GateCommitRequest → Option GateRow → Coordinate GateReservation
  unfolding begin_release_from
  begin_release_row request none = raise unknown_gate
  begin_release_row request (some row) = do
    raise_if (not (row.expected_revision_sha256 == request.expected_revision_sha256)) unknown_gate
    raise_if (is_corrupt_gate row) corrupt_gate
    begin_release_from row.state request row

  unfoldable pub begin_release_commit : GateCommitRequest → Coordinate GateReservation
  unfolding begin_release_row find_gate check_digest
  begin_release_commit request = do
    check_digest request.expected_revision_sha256 "expected revision hash"
    transaction do
      found ← find_gate request.workflow_id request.run_id request.ordinal
      begin_release_row request found

  -- `publish_gate` on a row that is published already
  republish : GatePublicationRequest → GateRow → String → Coordinate GateReservation
  unfolding published_reservation
  republish request row path = do
    raise_if
        (not (row.publication_sha256 == some request.expected_sha256)
          || not (path_text (column_text row.publication_path) == path))
        publication_conflict
    pure (
        published_reservation (gate_request_from_publication request) row path
          (column_text row.publication_sha256))

  publish_gate_row : GatePublicationRequest → String → Option GateRow → Coordinate GateReservation
  unfolding republish publish_gate_cas published_reservation
  publish_gate_row request path none = raise unknown_gate
  publish_gate_row request path (some row) = do
    raise_if (not (row.expected_revision_sha256 == request.expected_revision_sha256)) unknown_gate
    raise_if (is_corrupt_gate row) corrupt_gate
    if row.state == GateState.published then republish request row path else do
      publish_gate_cas request row path
      pure (
          published_reservation (gate_request_from_publication request) row path
            request.expected_sha256)

  unfoldable pub publish_gate : Files → GatePublicationRequest → Coordinate GateReservation
  unfolding publication_artifact publish_gate_row find_gate
  publish_gate files request = do
    path ← publication_artifact files request
    transaction do
      found ← find_gate request.workflow_id request.run_id request.ordinal
      publish_gate_row request path found
