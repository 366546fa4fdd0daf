-- ===== src/Coordination/Tests/Gates.antt =====
-- The gate ledger on concrete calls.
use instruct_eval.Common.{
  ℕ, pos, String, ◌≡◌, refl, true, false, Option, none, some, List, [], ◌∷◌, arith, ◌==◌, string_eq,
  if◌then◌else◌,
}
use instruct_eval.Exec.{is_ok}
use instruct_eval.Sql.{select_one}
use instruct_eval.Coordination.Types.{
  GateState, GateRow, GateRequest, GateCommitRequest, GatePublicationRequest, Store,
}
use instruct_eval.Coordination.Checks.{is_digest}
use instruct_eval.Coordination.Gates.{zero_hash}
use instruct_eval.Coordination.Gates.Release.{Files, begin_release_commit, publish_gate}
use instruct_eval.Coordination.Gates.Frame.{updating, committing_row}
use instruct_eval.Coordination.Gates.Chain.{IsChained}
use instruct_eval.Coordination.Gates.Outcomes.{
  gate_of, publication_row, is_commit_acquired, ArtifactFits, begin_release_commit_succeeds,
  publish_gate_succeeds,
}
use instruct_eval.Coordination.Calls.{Call, run}
use instruct_eval.Coordination.Calls.GateLife.{
  run-IsChained, published_gate_final, superseded_owner_fenced,
}
use instruct_eval.Coordination.Tests.{ones, twos, toy, input, output, store_of, empty}

abbrev gate_in : GateState → ℕ → Option String → Option String → GateRow
gate_in state epoch path hash = record {
  workflow_id = "workflow";
  run_id = "run";
  ordinal = 0;
  prior_record_sha256 = zero_hash;
  expected_revision_sha256 = twos;
  branch_kind = "g4";
  record_input_bytes = input;
  record_input_sha256 = ones;
  state = state;
  owner_epoch = epoch;
  publication_path = path;
  publication_sha256 = hash;
}

abbrev one_gate : GateRow → Store
one_gate row = store_of [] (row ∷ []) []

abbrev reserved_gate : GateRow
reserved_gate = gate_in GateState.reserved 3 none none

abbrev committing_gate : GateRow
committing_gate = gate_in GateState.release_committing 3 none none

abbrev published_gate : GateRow
published_gate = gate_in GateState.published 3 (some "artifact") (some twos)

abbrev request : GateRequest
request = record {
  workflow_id = "workflow";
  run_id = "run";
  ordinal = pos 0;
  prior_record_sha256 = zero_hash;
  expected_revision_sha256 = twos;
  branch_kind = "g4";
  record_input_bytes = input;
}

abbrev commit_by : ℕ → GateCommitRequest
commit_by epoch = record {
  workflow_id = "workflow";
  run_id = "run";
  ordinal = pos 0;
  expected_revision_sha256 = twos;
  owner_epoch = epoch;
}

abbrev publication_by : ℕ → GatePublicationRequest
publication_by epoch = record {
  workflow_id = "workflow";
  run_id = "run";
  ordinal = pos 0;
  expected_revision_sha256 = twos;
  owner_epoch = epoch;
  final_artifact_path = "./artifact";
  expected_bytes = output;
  expected_sha256 = twos;
}

abbrev files : Files
files = record {
  is_file = λ path. path == "artifact";
  is_symlink = λ path. false;
  read_bytes = λ path. if path == "artifact" then some output else none;
}

abbrev calls : List Call
calls =
    Call.reserve_gate request
    ∷ Call.begin_release_commit (commit_by 1)
    ∷ Call.publish_gate files (publication_by 1)
    ∷ Call.reserve_gate request
    ∷ []

empty-IsChained : IsChained empty.gates
empty-IsChained = record { distinct = tt; linked = tt; rows_valid = tt }

run-IsChained_example : IsChained (run calls empty).gates
run-IsChained_example = run-IsChained calls empty empty-IsChained

reserved-IsChained : IsChained (one_gate reserved_gate).gates
unfolding select_one
reserved-IsChained = record {
  distinct = (refl, tt);
  linked = (refl, tt);
  rows_valid = (record { clean = refl; fits = tt; epoch_positive = omega arith }, tt);
}

committing-IsChained : IsChained (one_gate committing_gate).gates
unfolding select_one
committing-IsChained = record {
  distinct = (refl, tt);
  linked = (refl, tt);
  rows_valid = (record { clean = refl; fits = tt; epoch_positive = omega arith }, tt);
}

published_gate_final_example :
    gate_of "workflow" "run" (pos 0) (run calls (one_gate published_gate)) ≡ some published_gate
unfolding gate_of select_one
published_gate_final_example =
    published_gate_final "workflow" "run" (pos 0) published_gate calls (one_gate published_gate)
      refl refl

superseded_owner_fenced_example :
    let t = run calls (one_gate reserved_gate) in
    (is_commit_acquired (begin_release_commit (commit_by 2) t).0 ≡ false)
    × ((begin_release_commit (commit_by 2) t).1 ≡ t)
    × ((publish_gate files (publication_by 2) t).1 ≡ t)
unfolding gate_of select_one
superseded_owner_fenced_example =
    superseded_owner_fenced (commit_by 2) files (publication_by 2) reserved_gate calls
      (one_gate reserved_gate) refl refl (omega arith) (omega arith)

begin_release_commit_succeeds_example :
    (is_commit_acquired (begin_release_commit (commit_by 3) (one_gate reserved_gate)).0 ≡ true)
    × ((begin_release_commit (commit_by 3) (one_gate reserved_gate)).1
        ≡ updating "workflow" "run"
            (pos 0)
            GateState.reserved
            3
            committing_row
            (one_gate reserved_gate))
unfolding gate_of select_one is_digest
begin_release_commit_succeeds_example =
    begin_release_commit_succeeds (commit_by 3) reserved_gate (one_gate reserved_gate)
      reserved-IsChained refl refl refl refl refl

artifact-ArtifactFits : ArtifactFits files (publication_by 3)
unfolding is_digest
artifact-ArtifactFits = ground arith

publish_gate_succeeds_example :
    (is_ok (publish_gate files (publication_by 3) (one_gate committing_gate)).0 ≡ true)
    × ((publish_gate files (publication_by 3) (one_gate committing_gate)).1
        ≡ updating "workflow" "run"
            (pos 0)
            GateState.release_committing
            3
            (publication_row (publication_by 3))
            (one_gate committing_gate))
unfolding gate_of select_one
publish_gate_succeeds_example =
    publish_gate_succeeds files (publication_by 3) committing_gate (one_gate committing_gate)
      committing-IsChained refl refl refl refl artifact-ArtifactFits
