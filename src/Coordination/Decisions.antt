-- ===== src/Coordination/Decisions.antt =====
-- Signed decisions: a decision with sequence number n is the gate n - 1 of a ledger of its own.
pub mod Frame
use Prim.Native.String
use instruct_eval.Common.{
  ℕ, ℤ, minus_one, is_nonpositive, String, Bool, true, false, not, ◌||◌, Option, none, some, List,
  [], ◌==◌, nat_eq, equals, if◌then◌else◌,
}
use instruct_eval.Exec.{Exec, pure, raise, gets, raise_if, ◌>>=◌, ◌>>◌}
use instruct_eval.Coordination.Library.{Bytes, Library}
use instruct_eval.Coordination.Types.{
  GateState, GateDisposition, GateReservation, GateRequest, GateCommitRequest,
  GatePublicationRequest, GateRow, DecisionReservation, DecisionRequest, DecisionCommitRequest,
  DecisionPublicationRequest, PublishedDecisionRequest, Store, gate_state_eq,
}
use instruct_eval.Coordination.Checks.{
  Coordinate, check_digest, check_nonempty, sequence_not_positive, decision_not_published,
}
use instruct_eval.Coordination.Gates.{zero_hash, find_gate}
use instruct_eval.Coordination.Gates.Reserve.{reserve_gate}
use instruct_eval.Coordination.Gates.Release.{Files, begin_release_commit, publish_gate}

-- `_decision_reservation`, on the fields of its request
abbrev decision_reservation :
    String
    → String
    → String
    → String
    → ℤ
    → String
    → GateReservation
    → String
    → Bytes
    → String
    → DecisionReservation
decision_reservation workflow run kind target sequence revision reservation prior input hash =
    record {
      disposition = reservation.disposition;
      workflow_id = workflow;
      run_id = run;
      target_kind = kind;
      target_id = target;
      sequence = sequence;
      prior_record_sha256 = prior;
      expected_revision_sha256 = revision;
      record_input_bytes = input;
      record_input_sha256 = hash;
      owner_epoch = reservation.owner_epoch;
      publication_path = reservation.publication_path;
      publication_sha256 = reservation.publication_sha256;
    }

module _ ⦃library : Library⦄ where
  open library use {digest, ledger_binding, decision_envelope}

  -- the workflow that `_decision_ledger` returns; its run is "decisions"
  abbrev pub ledger_workflow : String → String → String → String → String
  ledger_workflow workflow run kind target =
      String.◌++◌ "decision-ledger:" (digest (ledger_binding workflow run kind target))

  -- the checks of `_decision_ledger`
  decision_ledger : String → String → String → String → Coordinate (Unit {0})
  unfolding check_nonempty
  decision_ledger workflow run kind target = do
    check_nonempty workflow "workflow id"
    check_nonempty run "run id"
    check_nonempty kind "target kind"
    check_nonempty target "target id"

  -- the gate requests of `reserve_decision`, `begin_decision_commit` and `publish_decision`
  abbrev pub reserve_request : DecisionRequest → GateRequest
  reserve_request request = record {
    workflow_id =
        ledger_workflow request.workflow_id request.run_id request.target_kind request.target_id;
    run_id = "decisions";
    ordinal = minus_one request.sequence;
    prior_record_sha256 =
        if equals request.sequence 1 then zero_hash else request.prior_record_sha256;
    expected_revision_sha256 = request.expected_revision_sha256;
    branch_kind = "decision";
    record_input_bytes = decision_envelope request.prior_record_sha256 request.record_input_bytes;
  }

  abbrev pub commit_request : DecisionCommitRequest → GateCommitRequest
  commit_request request = record {
    workflow_id =
        ledger_workflow request.workflow_id request.run_id request.target_kind request.target_id;
    run_id = "decisions";
    ordinal = minus_one request.sequence;
    expected_revision_sha256 = request.expected_revision_sha256;
    owner_epoch = request.owner_epoch;
  }

  abbrev pub publication_request : DecisionPublicationRequest → GatePublicationRequest
  publication_request request = record {
    workflow_id =
        ledger_workflow request.workflow_id request.run_id request.target_kind request.target_id;
    run_id = "decisions";
    ordinal = minus_one request.sequence;
    expected_revision_sha256 = request.expected_revision_sha256;
    owner_epoch = request.owner_epoch;
    final_artifact_path = request.final_artifact_path;
    expected_bytes = request.expected_bytes;
    expected_sha256 = request.expected_sha256;
  }

  unfoldable pub reserve_decision : DecisionRequest → Coordinate DecisionReservation
  unfolding decision_ledger check_digest
  reserve_decision request = do
    raise_if (is_nonpositive request.sequence) sequence_not_positive
    check_digest request.prior_record_sha256 "prior record hash"
    decision_ledger request.workflow_id request.run_id request.target_kind request.target_id
    reservation ← reserve_gate (reserve_request request)
    pure (
        decision_reservation request.workflow_id request.run_id request.target_kind
          request.target_id request.sequence request.expected_revision_sha256 reservation
          request.prior_record_sha256 request.record_input_bytes
          (digest request.record_input_bytes))

  unfoldable pub begin_decision_commit : DecisionCommitRequest → Coordinate DecisionReservation
  unfolding decision_ledger
  begin_decision_commit request = do
    decision_ledger request.workflow_id request.run_id request.target_kind request.target_id
    reservation ← begin_release_commit (commit_request request)
    pure (
        decision_reservation request.workflow_id request.run_id request.target_kind
          request.target_id request.sequence request.expected_revision_sha256 reservation "" [] "")

  unfoldable pub publish_decision :
      Files → DecisionPublicationRequest → Coordinate DecisionReservation
  unfolding decision_ledger
  publish_decision files request = do
    decision_ledger request.workflow_id request.run_id request.target_kind request.target_id
    reservation ← publish_gate files (publication_request request)
    pure (
        decision_reservation request.workflow_id request.run_id request.target_kind
          request.target_id request.sequence request.expected_revision_sha256 reservation "" [] "")

  -- `published_decision` on the path and the hash of its row; a `NULL` is no `str`
  decision_at :
      PublishedDecisionRequest
      → GateRow
      → Option String
      → Option String
      → Coordinate DecisionReservation
  decision_at request row (some path) (some hash) = pure (record {
    disposition = GateDisposition.published;
    workflow_id = request.workflow_id;
    run_id = request.run_id;
    target_kind = request.target_kind;
    target_id = request.target_id;
    sequence = request.sequence;
    prior_record_sha256 = row.prior_record_sha256;
    expected_revision_sha256 = row.expected_revision_sha256;
    record_input_bytes = row.record_input_bytes;
    record_input_sha256 = row.record_input_sha256;
    owner_epoch = some row.owner_epoch;
    publication_path = some (library.path_text path);
    publication_sha256 = some hash;
  })
  decision_at request row _ _ = raise decision_not_published

  decision_of_row : PublishedDecisionRequest → Option GateRow → Coordinate DecisionReservation
  unfolding decision_at
  decision_of_row request none = raise decision_not_published
  decision_of_row request (some row) = do
    raise_if (not (row.state == GateState.published)) decision_not_published
    decision_at request row row.publication_path row.publication_sha256

  unfoldable pub published_decision : PublishedDecisionRequest → Coordinate DecisionReservation
  unfolding decision_ledger find_gate decision_of_row
  published_decision request = do
    raise_if (is_nonpositive request.sequence) sequence_not_positive
    decision_ledger request.workflow_id request.run_id request.target_kind request.target_id
    found ←
        find_gate
          (ledger_workflow request.workflow_id request.run_id request.target_kind request.target_id)
          "decisions" (minus_one request.sequence)
    decision_of_row request found
