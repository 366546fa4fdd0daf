-- ===== src/Coordination/Opening.antt =====
-- The constructor of `CoordinationStore`, on a database that has no rows.
use instruct_eval.Common.{
  ℤ, pos, negsuc, is_negative, to_column, Bool, true, false, [], ltb, if◌then◌else◌,
}
use instruct_eval.Exec.{Result, ok, err}
use instruct_eval.Coordination.Types.{Store}
use instruct_eval.Coordination.Checks.{
  CoordinationError, negative_input_limit, negative_result_limit, private_limit_too_small,
}

-- `z < y`
abbrev less : ℤ → ℤ → Bool
less (pos a) (pos b) = ltb a b
less (pos a) (negsuc b) = false
less (negsuc a) (pos b) = true
less (negsuc a) (negsuc b) = ltb b a

-- the store that `__init__` leaves once the limits are valid
abbrev opened : ℤ → ℤ → ℤ → Store
opened input result private_result = record {
  max_invocation_input_bytes = to_column input;
  max_invocation_result_bytes = to_column result;
  max_private_subject_result_bytes = to_column private_result;
  invocations = [];
  gates = [];
  child_authorizations = [];
}

-- `_validate_limits`, and then `__init__`
unfoldable pub open_store : ℤ → ℤ → ℤ → Result CoordinationError Store
open_store input result private_result =
    if is_negative input
    then err negative_input_limit
    else if is_negative result
    then err negative_result_limit
    else if less private_result result
    then err private_limit_too_small
    else ok (opened input result private_result)
