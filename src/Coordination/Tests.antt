-- ===== src/Coordination/Tests.antt =====
-- The store on concrete calls.
mod Gates
mod Children
use instruct_eval.Common.{
  ℕ, ◌≤◌, ◌<◌, ℤ, pos, String, ◌≡◌, ◌≢◌, refl, Bool, true, false, Option, none, some, List, [], ◌∷◌,
  arith, ◌⊎◌, inl, inr, leb, if◌then◌else◌, ◌==◌, string_eq, length,
}
use instruct_eval.Exec.{ok, err, is_ok}
use instruct_eval.Sql.{select_one, update, insert, rowcount}
use instruct_eval.Coordination.Library.{Bytes, Library}
use instruct_eval.Coordination.Types.{
  InvocationState, InvocationDisposition, GateState, GateDisposition, ChildAuthorizationState,
  InvocationRow, GateRow, ChildAuthorization, GateRequest, GateCommitRequest,
  GatePublicationRequest, ChildAuthorizationClaimRequest, Store,
}
use instruct_eval.Coordination.Checks.{check_digest, check_nonempty, check_bytes, is_digest}
use instruct_eval.Coordination.Gates.{zero_hash}
use instruct_eval.Coordination.Invocations.{
  reserve_invocation, terminalize_indeterminate, commit_result, commit_result_within,
  is_corrupt_invocation,
}
use instruct_eval.Coordination.Invocations.Rows.{row_of}
use instruct_eval.Coordination.Invocations.Validity.{IsValid}
use instruct_eval.Coordination.Invocations.Outcomes.{commit_result_fenced}
use instruct_eval.Coordination.Calls.{Call, perform, run}
use instruct_eval.Coordination.Calls.Ownership.{
  acquisitions, acquired_at_most_once, result_recovered_forever,
}
use instruct_eval.Coordination.Calls.Validity.{run-IsValid}

abbrev ones : String
ones = "1111111111111111111111111111111111111111111111111111111111111111"

abbrev twos : String
twos = "2222222222222222222222222222222222222222222222222222222222222222"

-- a stand-in for the hash function that tells some inputs apart
abbrev short_or_long : Bytes → String
short_or_long bytes = if leb (length bytes) 2 then ones else twos

instance abbrev toy : Library
toy = record {
  digest = short_or_long;
  ledger_binding = λ workflow run_id kind target. [];
  decision_envelope = λ prior input. input;
  path_text = λ path. if path == "./artifact" then "artifact" else path;
}

abbrev input : Bytes
input = 1 ∷ 2 ∷ []

abbrev output : Bytes
output = 7 ∷ 8 ∷ 9 ∷ []

abbrev started_one : InvocationRow
started_one = record {
  invocation_key = "call";
  state = InvocationState.started;
  input_bytes = input;
  input_sha256 = ones;
  result_bytes = none;
  result_sha256 = none;
  owner_epoch = 1;
}

abbrev store_of : List InvocationRow → List GateRow → List ChildAuthorization → Store
store_of invocations gates children = record {
  max_invocation_input_bytes = 100;
  max_invocation_result_bytes = 100;
  max_private_subject_result_bytes = 100;
  invocations = invocations;
  gates = gates;
  child_authorizations = children;
}

abbrev empty : Store
empty = store_of [] [] []

abbrev one_started : Store
one_started = store_of (started_one ∷ []) [] []

empty-IsValid : IsValid empty.invocations
empty-IsValid = record { distinct = tt; rows_valid = tt }

abbrev calls : List Call
calls =
    Call.reserve_invocation "call" input
    ∷ Call.reserve_invocation "call" input
    ∷ Call.commit_result "call" 1 output
    ∷ Call.reserve_invocation "call" input
    ∷ Call.terminalize_indeterminate "call" 1
    ∷ []

acquired_at_most_once_example : acquisitions "call" calls empty ≤ 1
acquired_at_most_once_example = acquired_at_most_once "call" calls empty

run-IsValid_example : IsValid (run calls empty).invocations
run-IsValid_example = run-IsValid calls empty empty-IsValid

commit_result_fenced_example :
    (is_ok (commit_result_within "call" 2 output 100 one_started).0 ≡ false)
    × ((commit_result_within "call" 2 output 100 one_started).1 ≡ one_started)
unfolding row_of select_one
commit_result_fenced_example =
    commit_result_fenced "call" 2 output 100 started_one one_started refl
      (inl (refl, λ e. ground arith))

two_fits : 2 ≤ 100
two_fits = omega arith

result_recovered_forever_example :
    let t = run calls (commit_result "call" 1 output one_started).1 in
    reserve_invocation "call" input t ≡ (
      ok (record {
        disposition = InvocationDisposition.result_recovered;
        invocation_key = "call";
        owner_epoch = none;
        input_bytes = input;
        input_sha256 = ones;
        result_bytes = some output;
        result_sha256 = some twos;
      }),
      t,
    )
unfolding run perform commit_result reserve_invocation terminalize_indeterminate row_of select_one
    update rowcount insert is_corrupt_invocation
result_recovered_forever_example =
    result_recovered_forever "call" 1 output started_one calls one_started refl refl two_fits
