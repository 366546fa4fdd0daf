-- ===== src/Coordination/Gates/Outcomes.antt =====
-- When the calls about a gate succeed, and whom they refuse.
use instruct_eval.Common.{
  ℕ, ℤ, String, ◌≡◌, ◌≢◌, Bool, true, false, Option, some, ◌==◌, nat_eq, string_eq, list_eq,
  option_eq, arith, eq_iff, ==_refl,
}
use instruct_eval.Exec.{Result, ok, err, is_ok}
use instruct_eval.Sql.{select_one, rowcount, select_one_passes, All-select_one}
use instruct_eval.Sql.Distinct.{rowcount_one}
use instruct_eval.Coordination.Library.{Library}
use instruct_eval.Coordination.Types.{
  GateState, GateDisposition, GateReservation, GateRow, GateCommitRequest, GatePublicationRequest,
  Store, gate_state_eq,
}
use instruct_eval.Coordination.Checks.{CoordinationError, is_digest}
use instruct_eval.Coordination.Gates.{has_gate_key, holds_gate}
use instruct_eval.Coordination.Gates.Release.{Files, begin_release_commit, publish_gate}
use instruct_eval.Coordination.Gates.Frame.{committing_row, updating}
use instruct_eval.Coordination.Gates.Chain.{same_gate, IsValidGate, IsChained}

-- the row of a gate
unfoldable pub gate_of : String → String → ℤ → Store → Option GateRow
gate_of w r o s = select_one (has_gate_key w r o) s.gates

one_gate :
    (w r : String) (o : ℤ) (x y : GateRow)
    → has_gate_key w r o x ≡ true
    → has_gate_key w r o y ≡ true
    → same_gate x y ≡ true
one_gate w r o x y p q = ground (
  arith,
  eq_iff x.workflow_id w,
  eq_iff y.workflow_id w,
  eq_iff y.workflow_id x.workflow_id,
  eq_iff x.run_id r,
  eq_iff y.run_id r,
  eq_iff y.run_id x.run_id,
)

-- whether a call made its caller the one that commits the gate
abbrev pub is_commit_acquired : Result CoordinationError GateReservation → Bool
is_commit_acquired (ok res) = elim res.disposition [ GateDisposition.acquired ↦ true | _ ↦ false ]
is_commit_acquired (err _) = false

module _ ⦃library : Library⦄ where
  held_once :
      (w r : String) (o : ℤ) (st : GateState) (epoch : ℕ) (row : GateRow) (s : Store)
      → IsChained s.gates
      → gate_of w r o s ≡ some row
      → row.state ≡ st
      → row.owner_epoch ≡ epoch
      → rowcount (holds_gate w r o st epoch) s.gates ≡ 1
  unfolding gate_of
  held_once w r o st epoch row s h found state ep =
      rowcount_one same_gate (has_gate_key w r o) (holds_gate w r o st epoch) (λ x q. ground arith)
        (one_gate w r o) s.gates row h.distinct found
        (ground (arith, select_one_passes (has_gate_key w r o) s.gates row, ==_refl st))

  found_valid :
      (w r : String) (o : ℤ) (row : GateRow) (s : Store)
      → IsChained s.gates
      → gate_of w r o s ≡ some row
      → IsValidGate row
  unfolding gate_of
  found_valid w r o row s h found =
      All-select_one IsValidGate (has_gate_key w r o) s.gates h.rows_valid found

  -- In a chained store, `begin_release_commit` with the epoch and the expected revision (a digest)
  -- of a RESERVED gate is acquired, and the store after it differs by the update of that gate to
  -- RELEASE_COMMITTING alone.
  pub begin_release_commit_succeeds :
      (request : GateCommitRequest) (row : GateRow) (s : Store)
      → IsChained s.gates
      → gate_of request.workflow_id request.run_id request.ordinal s ≡ some row
      → row.state ≡ GateState.reserved
      → row.owner_epoch ≡ request.owner_epoch
      → (row.expected_revision_sha256 == request.expected_revision_sha256) ≡ true
      → is_digest request.expected_revision_sha256 ≡ true
      → (is_commit_acquired (begin_release_commit request s).0 ≡ true)
        × ((begin_release_commit request s).1
            ≡ updating request.workflow_id request.run_id request.ordinal GateState.reserved
                request.owner_epoch committing_row s)
  unfolding begin_release_commit gate_of
  begin_release_commit_succeeds request row s h found st ep rev dig = ground (
    arith,
    (found_valid request.workflow_id request.run_id request.ordinal row s h found).clean,
    held_once request.workflow_id request.run_id request.ordinal GateState.reserved
        request.owner_epoch row s h found st ep,
  )

  -- The row of a gate whose artifact is published.
  abbrev pub publication_row : GatePublicationRequest → GateRow → GateRow
  publication_row request r = record r {
    state = GateState.published;
    publication_path = some (library.path_text request.final_artifact_path);
    publication_sha256 = some request.expected_sha256;
  }

  -- What `publish_gate` needs of its artifact: a regular file with the expected bytes and hash.
  pub record ArtifactFits (files : Files) (request : GatePublicationRequest) : Type 0 where
    pub revision : is_digest request.expected_revision_sha256 ≡ true
    pub hash : is_digest request.expected_sha256 ≡ true
    pub regular : files.is_file (library.path_text request.final_artifact_path) ≡ true
    pub not_link : files.is_symlink (library.path_text request.final_artifact_path) ≡ false
    pub bytes :
        files.read_bytes (library.path_text request.final_artifact_path)
        ≡ some request.expected_bytes
    pub hashed : library.digest request.expected_bytes ≡ request.expected_sha256

  -- In a chained store, publish_gate with the epoch and the expected revision of a gate that is
  -- RELEASE_COMMITTING, and an artifact that is a regular file with the expected bytes and hash,
  -- returns, and the store after it differs by the update of that gate to PUBLISHED, with the text
  -- of the path and the hash, alone.
  pub publish_gate_succeeds :
      (files : Files) (request : GatePublicationRequest) (row : GateRow) (s : Store)
      → IsChained s.gates
      → gate_of request.workflow_id request.run_id request.ordinal s ≡ some row
      → row.state ≡ GateState.release_committing
      → row.owner_epoch ≡ request.owner_epoch
      → (row.expected_revision_sha256 == request.expected_revision_sha256) ≡ true
      → ArtifactFits files request
      → (is_ok (publish_gate files request s).0 ≡ true)
        × ((publish_gate files request s).1
            ≡ updating request.workflow_id request.run_id request.ordinal
                GateState.release_committing request.owner_epoch
                (publication_row request)
                s)
  unfolding publish_gate gate_of
  publish_gate_succeeds files request row s h found st ep rev fits = ground (
    arith,
    (found_valid request.workflow_id request.run_id request.ordinal row s h found).clean,
    held_once request.workflow_id request.run_id request.ordinal GateState.release_committing
        request.owner_epoch row s h found st ep,
    ==_refl request.expected_bytes,
    ==_refl request.expected_sha256,
  )

  -- Without the epoch of the row nobody begins the commit.
  pub begin_release_commit_fenced :
      (request : GateCommitRequest) (row : GateRow) (s : Store)
      → gate_of request.workflow_id request.run_id request.ordinal s ≡ some row
      → request.owner_epoch ≢ row.owner_epoch
      → (is_commit_acquired (begin_release_commit request s).0 ≡ false)
        × ((begin_release_commit request s).1 ≡ s)
  unfolding begin_release_commit gate_of
  begin_release_commit_fenced request row s found stale = ground arith

  -- Nor does anybody publish.
  pub publish_gate_fenced :
      (files : Files) (request : GatePublicationRequest) (row : GateRow) (s : Store)
      → gate_of request.workflow_id request.run_id request.ordinal s ≡ some row
      → request.owner_epoch ≢ row.owner_epoch
      → (publish_gate files request s).1 ≡ s
  unfolding publish_gate gate_of
  publish_gate_fenced files request row s found stale = ground arith
