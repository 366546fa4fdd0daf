-- ===== src/Workflows/Experiment/Trials.antt =====
-- The subject trials of an experiment: `_collect_trials` of workflows.py with what it calls.
pub mod Dispatching
pub mod Completing
pub mod Rounds
pub mod Accounting
pub mod Keeping
pub mod Reasons
pub mod Reached
pub mod Dispositions
use instruct_eval.Common.{
  ℕ, zero, suc, ◌+◌, String, Bool, true, false, not, ◌&&◌, ◌||◌, Option, none, some, List, [], ◌∷◌,
  ◌++◌, map, ltb, ◌==◌, nat_eq, string_eq, if◌then◌else◌, length,
}
use instruct_eval.Trials.Authorization.{assignment_ids}
use instruct_eval.Trials.Dispatcher.{
  Disposition, started, result, terminal, indeterminate, unscheduled_due_to_terminal,
  unscheduled_due_to_cancellation,
}
use instruct_eval.Workflows.Json.{Payload, text, get, is_flag, is_member, distinct_texts}
use instruct_eval.Workflows.Experiment.{GateResult, WorkflowError, index_error, cancelled}
use instruct_eval.Workflows.Experiment.Pending.{Outcome, activity_result}
use instruct_eval.Workflows.Experiment.Results.{every}

-- `_TrialRun`; a task of `outstanding` is known by its token.
pub record TrialRun : Type 0 where
  pub trials : List (String × GateResult)
  pub accounting : List (String × Disposition)
  pub outstanding : List String
  pub next_token : ℕ
  pub is_terminal : Bool
  pub is_cancelled : Bool
  -- what `_collect_trials` has raised, if it has
  pub raised : Option WorkflowError

-- What comes from outside: how the task of each request ends; which tasks the n-th wait finds done;
-- whether a cancellation ends it, or the drain of a terminal trial after it, or the drain of a
-- cancellation after it.
pub record TrialWorld : Type 0 where
  pub outcome : Payload → Outcome
  pub done : ℕ → List String
  pub is_interrupted : ℕ → Bool
  pub is_drain_interrupted : ℕ → Bool
  pub is_last_drain_interrupted : ℕ → Bool

module _ {A : Type 0} where
  -- `mapping[key] = value`
  unfoldable pub put : String → A → List (String × A) → List (String × A)
  put key a [] = (key, a) ∷ []
  put key a (entry ∷ entries) =
      if entry.0 == key then (key, a) ∷ entries else entry ∷ put key a entries

  -- `mapping.get(key)`
  unfoldable pub look : String → List (String × A) → Option A
  look key [] = none
  look key (entry ∷ entries) = if entry.0 == key then some entry.1 else look key entries

unfoldable pub element : ℕ → List String → Option String
element n [] = none
element zero (t ∷ ts) = some t
element (suc n) (t ∷ ts) = element n ts

abbrev pub has_raised : TrialRun → Bool
has_raised state = elim state.raised [ none ↦ false | some _ ↦ true ]

-- the condition of the loop of `_dispatch_trials`, where nothing has been raised
abbrev pub can_dispatch : TrialRun → Bool
can_dispatch state =
    not (has_raised state)
    && not state.is_terminal
    && not state.is_cancelled
    && ltb (length state.outstanding) 4
    && ltb state.next_token (length assignment_ids)

-- one round of it, by the token that it takes
unfoldable pub dispatch_token : Option String → TrialRun → TrialRun
unfolding put
dispatch_token none state = record state { raised = some index_error }
dispatch_token (some token) state = record state {
  next_token = state.next_token + 1;
  accounting = put token started state.accounting;
  outstanding = state.outstanding ++ token ∷ [];
}

-- one round of it
unfoldable pub dispatch_one : List String → TrialRun → TrialRun
unfolding dispatch_token element
dispatch_one tokens state = dispatch_token (element state.next_token tokens) state

-- `_dispatch_trials`, in at most `rounds` rounds
unfoldable pub dispatch_trials : ℕ → List String → TrialRun → TrialRun
dispatch_trials zero tokens state = state
dispatch_trials (suc rounds) tokens state =
    let rest = dispatch_trials rounds tokens (dispatch_one tokens state) in
    if can_dispatch state then rest else state

-- whether a trial is no valid result: `protocol_valid` is not true, or `terminal` is
unfoldable pub is_terminal_result : GateResult → Bool
unfolding get
is_terminal_result found =
    not (is_flag true (get "protocol_valid" found.payload))
    || is_flag true (get "terminal" found.payload)

-- `outstanding.pop`
unfoldable pub remove : String → List String → List String
remove token [] = []
remove token (t ∷ ts) = if t == token then ts else t ∷ remove token ts

unfoldable pub settle_trial : String → Outcome → TrialRun → TrialRun
unfolding put is_terminal_result
settle_trial token (activity_result found) state =
    if is_terminal_result found
    then record state {
      trials = put token found state.trials;
      accounting = put token terminal state.accounting;
      is_terminal = true;
    }
    else record state {
      trials = put token found state.trials;
      accounting = put token result state.accounting;
    }
settle_trial token _ state = record state {
  accounting = put token indeterminate state.accounting;
  is_terminal = true;
}

-- `_record_trial_completion`
unfoldable pub record_trial_completion : String → Outcome → TrialRun → TrialRun
unfolding remove settle_trial
record_trial_completion token found state =
    settle_trial token found (record state { outstanding = remove token state.outstanding })

-- the loop of `_drain_trials` on one task
unfoldable pub drain_trial : String → Outcome → TrialRun → TrialRun
unfolding put is_terminal_result
drain_trial token (activity_result found) state = record state {
  trials = put token found state.trials;
  accounting = put token (if is_terminal_result found then terminal else result) state.accounting;
}
drain_trial token _ state = record state { accounting = put token indeterminate state.accounting }

-- the request of a trial
abbrev pub trial_request : String → String → String → Payload
trial_request map_ref design token =
    ("map_ref", text map_ref) ∷ ("token", text token) ∷ ("design_sha256", text design) ∷ []

-- The tasks that a wait finds done, in the order of their tokens, which is that of `outstanding`. A
-- wait ends when one task at least is done.
unfoldable pub done_tasks : List String → List String → List String
done_tasks found [] = []
done_tasks found (t ∷ ts) =
    if is_member t found then t ∷ done_tasks found ts else done_tasks found ts

-- one task at least
abbrev pub at_least : String → List String → List String
at_least t [] = t ∷ []
at_least t (d ∷ ds) = d ∷ ds

unfoldable pub first_completed : List String → List String → List String
first_completed found [] = []
first_completed found (t ∷ ts) = at_least t (done_tasks found (t ∷ ts))

-- `_TrialRun()`
abbrev pub no_trials : TrialRun
no_trials = record {
  trials = [];
  accounting = [];
  outstanding = [];
  next_token = 0;
  is_terminal = false;
  is_cancelled = false;
  raised = none;
}

-- the test of the loop of `_collect_trials`: the tasks, the state, and the state after the round
abbrev pub while_outstanding : List String → TrialRun → TrialRun → TrialRun
while_outstanding [] state rest = state
while_outstanding (t ∷ ts) state rest = rest

module _ (world : TrialWorld) (request : String → Payload) (tokens : List String) where
  unfoldable pub drain_all : List String → TrialRun → TrialRun
  unfolding drain_trial
  drain_all [] state = state
  drain_all (t ∷ ts) state = drain_all ts (drain_trial t (world.outcome (request t)) state)

  -- `_drain_trials`
  unfoldable pub drain_trials : TrialRun → TrialRun
  unfolding drain_all
  drain_trials state = record (drain_all state.outstanding state) { outstanding = [] }

  unfoldable pub record_all : List String → TrialRun → TrialRun
  unfolding record_trial_completion
  record_all [] state = state
  record_all (t ∷ ts) state =
      record_all ts (record_trial_completion t (world.outcome (request t)) state)

  -- the `except` clause of `_collect_trials`, around its n-th wait
  unfoldable pub cancel_trials : ℕ → TrialRun → TrialRun
  unfolding drain_trials
  cancel_trials n state =
      if world.is_last_drain_interrupted n
      then record state { is_cancelled = true; raised = some cancelled }
      else drain_trials (record state { is_cancelled = true })

  -- one round of the loop of `_collect_trials`, after its n-th wait
  unfoldable pub collect_round : ℕ → TrialRun → TrialRun
  collect_round n state =
      if world.is_interrupted n
      then cancel_trials n state
      else let after = record_all (first_completed (world.done n) state.outstanding) state in
        if after.is_terminal
        then (if world.is_drain_interrupted n then cancel_trials n after else drain_trials after)
        else dispatch_trials (length assignment_ids) tokens after

  -- the loop, in at most `rounds` rounds
  unfoldable pub collect_rounds : ℕ → ℕ → TrialRun → TrialRun
  collect_rounds zero n state = state
  collect_rounds (suc rounds) n state =
      let rest = collect_rounds rounds (n + 1) (collect_round n state) in
      if has_raised state then state else while_outstanding state.outstanding state rest

  -- `_collect_trials`: each round ends a trial at least, so as many rounds as trials are enough.
  unfoldable pub collect_trials : TrialRun
  collect_trials =
      collect_rounds (length assignment_ids) 0
        (dispatch_trials (length assignment_ids) tokens no_trials)

-- the disposition of a token that no trial has
abbrev pub default_disposition : TrialRun → Disposition
default_disposition state =
    if state.is_cancelled
    then unscheduled_due_to_cancellation
    else if state.is_terminal
    then unscheduled_due_to_terminal
    else result

-- `mapping.setdefault(key, value)`
unfoldable pub set_default :
    String → Disposition → List (String × Disposition) → List (String × Disposition)
unfolding put look
set_default key disposition accounting = elim (look key accounting) [
  | none ↦ put key disposition accounting
  | some _ ↦ accounting
]

-- `setdefault` for every token
unfoldable pub fill_accounting :
    Disposition → List String → List (String × Disposition) → List (String × Disposition)
unfolding set_default
fill_accounting disposition [] accounting = accounting
fill_accounting disposition (t ∷ ts) accounting =
    fill_accounting disposition ts (set_default t disposition accounting)

abbrev pub is_result : Option Disposition → Bool
is_result (some result) = true
is_result _ = false

-- the trials whose token is accounted a result
unfoldable pub accepted :
    List String → List (String × Disposition) → List (String × GateResult) → List GateResult
unfolding look
accepted [] accounting trials = []
accepted (t ∷ ts) accounting trials =
    let rest = accepted ts accounting trials in
    if is_result (look t accounting)
    then elim (look t trials) [ none ↦ rest | some found ↦ found ∷ rest ]
    else rest

-- whether a token is accounted a result without a trial, where `state.trials[token]` raises
unfoldable pub lacks_trial :
    List String → List (String × Disposition) → List (String × GateResult) → Bool
unfolding look
lacks_trial [] accounting trials = false
lacks_trial (t ∷ ts) accounting trials =
    (is_result (look t accounting) && elim (look t trials) [ none ↦ true | some _ ↦ false ])
    || lacks_trial ts accounting trials

-- the dispositions of the tokens, in their order
unfoldable pub dispositions_of :
    List String → List (String × Disposition) → List (String × Option Disposition)
unfolding look
dispositions_of [] accounting = []
dispositions_of (t ∷ ts) accounting = (t, look t accounting) ∷ dispositions_of ts accounting

-- What `_g3_trial_data` returns.
pub record TrialData : Type 0 where
  pub trial_accounting : List (String × Option Disposition)
  pub accepted_trials : List GateResult
  pub all_accepted : Bool
  pub has_key_error : Bool

-- `_g3_trial_data`
unfoldable pub g3_trial_data : List String → TrialRun → TrialData
unfolding fill_accounting accepted lacks_trial dispositions_of every distinct_texts get
g3_trial_data tokens state =
    let accounting = fill_accounting (default_disposition state) tokens state.accounting in
    let trials = accepted tokens accounting state.trials in
    record {
      trial_accounting = dispositions_of tokens accounting;
      accepted_trials = trials;
      all_accepted =
          length trials == length assignment_ids
          && distinct_texts (map (λ (found : GateResult). found.artifact_sha256) trials)
            == length assignment_ids
          && every (λ found. is_flag true (get "protocol_valid" found.payload)) trials;
      has_key_error = lacks_trial tokens accounting state.trials;
    }
