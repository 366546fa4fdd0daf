-- ===== src/Coordination/Invocations.antt =====
-- `reserve_invocation`, `commit_result`, `commit_private_subject_result` and
-- `terminalize_indeterminate` of coordination.py, each in one transaction.
pub mod Rows
pub mod Validity
pub mod Outcomes
use Prim.Native.String
use instruct_eval.Common.{
  ℕ, String, Bool, true, false, not, ◌&&◌, ◌||◌, Option, none, some, List, ◌==◌, nat_eq, string_eq,
  list_eq, option_eq, if◌then◌else◌,
}
use instruct_eval.Exec.{
  Exec, pure, raise, gets, or_raise, raise_if, modify, transaction, ◌>>=◌, ◌>>◌,
}
use instruct_eval.Sql
use instruct_eval.Sql.{select_one, rowcount}
use instruct_eval.Coordination.Library.{Bytes, Library}
use instruct_eval.Coordination.Types.{
  InvocationState, started, result_committed, indeterminate_terminalized, InvocationDisposition,
  InvocationReservation, InvocationCommitRequest, InvocationRow, Store, invocation_state_eq,
}
use instruct_eval.Coordination.Checks.{
  Coordinate, check_nonempty, check_bytes, corrupt_invocation, key_reused, unknown_invocation,
  result_cas_failed, terminalization_cas_failed, integrity,
}

-- `WHERE invocation_key=?`
abbrev pub has_key : String → InvocationRow → Bool
has_key key row = row.invocation_key == key

-- `WHERE invocation_key=? AND state=? AND owner_epoch=?`, at the state STARTED
abbrev pub owned_by : String → ℕ → InvocationRow → Bool
owned_by key epoch row =
    row.invocation_key == key && row.state == started && row.owner_epoch == epoch

-- `INSERT INTO invocations`, with the key as the primary key
insert_invocation : InvocationRow → Coordinate (Unit {0})
insert_invocation row s =
    (do
      rows ← or_raise (Sql.insert (has_key row.invocation_key) row s.invocations) integrity
      modify (λ t. record t { invocations = rows }))
      s

-- `UPDATE invocations`, and its `rowcount`
update_invocations : (InvocationRow → Bool) → (InvocationRow → InvocationRow) → Coordinate ℕ
update_invocations p f = do
  changed ← gets (λ s. rowcount p s.invocations)
  modify (λ s. record s { invocations = Sql.update p f s.invocations })
  pure changed

invocation_reservation :
    InvocationDisposition → String → InvocationRow → Option ℕ → InvocationReservation
invocation_reservation disposition key row epoch = record {
  disposition = disposition;
  invocation_key = key;
  owner_epoch = epoch;
  input_bytes = row.input_bytes;
  input_sha256 = row.input_sha256;
  result_bytes = row.result_bytes;
  result_sha256 = row.result_sha256;
}

-- the `dispositions` of `_reserved_invocation`
abbrev disposition_of : InvocationState → InvocationDisposition
disposition_of result_committed = InvocationDisposition.result_recovered
disposition_of indeterminate_terminalized = InvocationDisposition.indeterminate
disposition_of started = InvocationDisposition.in_flight

reserved_invocation : String → InvocationRow → InvocationReservation
unfolding invocation_reservation
reserved_invocation key row = invocation_reservation (disposition_of row.state) key row none

-- `_is_recovered_result`
is_recovered_result : InvocationRow → Bytes → String → Bool
is_recovered_result row bytes hash =
    row.state == result_committed
    && row.result_bytes == some bytes
    && row.result_sha256 == some hash

abbrev pub committed_row : Bytes → String → InvocationRow → InvocationRow
committed_row bytes hash row = record row {
  state = result_committed;
  result_bytes = some bytes;
  result_sha256 = some hash;
}

commit_invocation_cas : InvocationCommitRequest → Coordinate (Unit {0})
unfolding update_invocations
commit_invocation_cas request = do
  raise_if (not (request.state == started) || not (request.epoch == request.owner_epoch))
      result_cas_failed
  changed ←
      update_invocations (owned_by request.invocation_key request.owner_epoch)
        (committed_row request.result_bytes request.result_sha256)
  raise_if (not (changed == 1)) result_cas_failed

module _ ⦃library : Library⦄ where
  open library use {digest}

  abbrev digest_of : Option Bytes → Option String
  digest_of none = none
  digest_of (some bytes) = some (digest bytes)

  -- whether `_validate_invocation_row` raises
  unfoldable pub is_corrupt_invocation : InvocationRow → Bool
  is_corrupt_invocation row =
      not (digest row.input_bytes == row.input_sha256) || elim row.result_bytes [
        | none ↦ false
        | some bytes ↦ not (some (digest bytes) == row.result_sha256)
      ]

  validate_invocation_row : InvocationRow → Coordinate (Unit {0})
  unfolding is_corrupt_invocation
  validate_invocation_row row = raise_if (is_corrupt_invocation row) corrupt_invocation

  -- the row that `reserve_invocation` inserts
  abbrev pub started_row : String → Bytes → InvocationRow
  started_row key input = record {
    invocation_key = key;
    state = started;
    input_bytes = input;
    input_sha256 = digest input;
    result_bytes = none;
    result_sha256 = none;
    owner_epoch = 1;
  }

  -- `reserve_invocation` after its SELECT
  reserve_row : String → Bytes → Option InvocationRow → Coordinate InvocationReservation
  unfolding invocation_reservation insert_invocation validate_invocation_row reserved_invocation
  reserve_row key input none = do
    insert_invocation (started_row key input)
    pure
        (invocation_reservation InvocationDisposition.acquired key (started_row key input) (some 1))
  reserve_row key input (some row) = do
    validate_invocation_row row
    raise_if (not (row.input_bytes == input) || not (row.input_sha256 == digest input)) key_reused
    pure (reserved_invocation key row)

  unfoldable pub reserve_invocation : String → Bytes → Coordinate InvocationReservation
  unfolding reserve_row check_nonempty check_bytes
  reserve_invocation key input = do
    check_nonempty key "invocation key"
    maximum ← gets (λ s. s.max_invocation_input_bytes)
    check_bytes input "invocation input" maximum
    transaction
        do found ← gets (λ s. select_one (has_key key) s.invocations); reserve_row key input found

  -- `f"gate-invocation:{_digest(record_input_bytes)}"`
  unfoldable pub gate_invocation_key : Bytes → String
  gate_invocation_key input = String.◌++◌ "gate-invocation:" (digest input)

  unfoldable pub reserve_gate_invocation : Bytes → Coordinate InvocationReservation
  unfolding check_bytes
  reserve_gate_invocation input = do
    maximum ← gets (λ s. s.max_invocation_input_bytes)
    check_bytes input "gate invocation input" maximum
    reserve_invocation (gate_invocation_key input) input

  -- `_commit_result` after its SELECT
  commit_row : String → ℕ → Bytes → Option InvocationRow → Coordinate InvocationReservation
  unfolding is_recovered_result validate_invocation_row invocation_reservation commit_invocation_cas
  commit_row key epoch bytes none = raise unknown_invocation
  commit_row key epoch bytes (some row) = do
    validate_invocation_row row
    if is_recovered_result row bytes (digest bytes)
        then pure (invocation_reservation InvocationDisposition.result_recovered key row none)
        else do
          commit_invocation_cas (record {
            invocation_key = key;
            owner_epoch = epoch;
            state = row.state;
            epoch = row.owner_epoch;
            result_bytes = bytes;
            result_sha256 = digest bytes;
          })
          pure (
              invocation_reservation InvocationDisposition.result_recovered key
                (committed_row bytes (digest bytes) row) none)

  pub commit_result_within : String → ℕ → Bytes → ℕ → Coordinate InvocationReservation
  unfolding commit_row check_nonempty check_bytes
  commit_result_within key epoch bytes maximum = do
    check_nonempty key "invocation key"
    check_bytes bytes "invocation result" maximum
    transaction do
      found ← gets (λ s. select_one (has_key key) s.invocations)
      commit_row key epoch bytes found

  unfoldable pub commit_result : String → ℕ → Bytes → Coordinate InvocationReservation
  unfolding commit_result_within
  commit_result key epoch bytes = do
    maximum ← gets (λ s. s.max_invocation_result_bytes)
    commit_result_within key epoch bytes maximum

  unfoldable pub commit_private_subject_result :
      String → ℕ → Bytes → Coordinate InvocationReservation
  unfolding commit_result_within
  commit_private_subject_result key epoch bytes = do
    maximum ← gets (λ s. s.max_private_subject_result_bytes)
    commit_result_within key epoch bytes maximum

unfoldable pub terminalize_indeterminate : String → ℕ → Coordinate (Unit {0})
unfolding update_invocations
terminalize_indeterminate key epoch = transaction do
  changed ←
      update_invocations (owned_by key epoch)
        (λ row. record row { state = indeterminate_terminalized })
  raise_if (not (changed == 1)) terminalization_cas_failed
