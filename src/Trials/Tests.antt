-- ===== src/Trials/Tests.antt =====
-- The dispatcher on concrete trials.
mod Authorization
mod Release
use instruct_eval.Common.{
  All, length, ◌↔◌, Bool, false, ◌≤◌, ◌<◌, String, ◌≡◌, ◌≢◌, refl, List, [], ◌∷◌, arith, ◌⊎◌, true,
}
use instruct_eval.Exec.{ok, err, is_ok}
use instruct_eval.Trials.Dispatcher.{
  unscheduled_due_to_cancellation, result, terminal, dispatch, finish, new, accounting,
  started_count, has_token, status_of, assign, unset_tokens, free_slots, start_all, ready_tokens,
  from_keys,
}
use instruct_eval.Trials.Outcome.{
  schedule_batches, joined, schedule_batches_partition, TerminalError, no_terminal_disposition,
  classify_terminal, classify_terminal_outcomes,
}
use instruct_eval.Trials.Dispatcher.Events.{Event, dispatching, finishing, cancelling, step, run}
use instruct_eval.Trials.Dispatcher.Bounds.{IsValid, run-IsValidDispatcher}
use instruct_eval.Trials.Dispatcher.Once.{times, dispatched, dispatched_at_most_once}
use instruct_eval.Trials.Dispatcher.Progress.{never_stuck}

abbrev order : List String
order = "a" ∷ "b" ∷ "c" ∷ "d" ∷ "e" ∷ []

abbrev events : List Event
events =
    dispatching
    ∷ dispatching
    ∷ finishing "b" result
    ∷ dispatching
    ∷ finishing "c" terminal
    ∷ dispatching
    ∷ cancelling
    ∷ []

-- Four trials start, and the fifth when one has ended; a terminal trial leaves no other to start.
dispatched-five : dispatched (new order) events ≡ order
unfolding dispatched step dispatch finish new started_count has_token status_of assign unset_tokens
    free_slots start_all ready_tokens from_keys
dispatched-five = refl

new-IsValid : IsValid (new order)
unfolding new from_keys has_token started_count
new-IsValid = record { at_most_four = omega arith; halted = λ h. absurd (h refl) }

run-IsValidDispatcher_example : IsValid (run (new order) events)
run-IsValidDispatcher_example = run-IsValidDispatcher (new order) events new-IsValid

listed_once : times "a" (new order).order ≤ 1
unfolding times new
listed_once = omega arith

dispatched_at_most_once_example : times "a" (dispatched (new order) events) ≤ 1
dispatched_at_most_once_example = dispatched_at_most_once "a" (new order) events listed_once

never_stuck_example :
    let d = run (new order) events in
    (is_ok (accounting d).0 ≡ true) ⊎ (0 < started_count d.state) ⊎ ((dispatch d).1 ≢ [])
never_stuck_example = never_stuck order events

schedule_batches_partition_example :
    All (λ batch. length batch ≤ 4) (schedule_batches order)
    × (joined (schedule_batches order) ≡ order)
schedule_batches_partition_example = schedule_batches_partition order

classify_terminal_outcomes_example :
    (classify_terminal false false true false false ≢ ok unscheduled_due_to_cancellation)
    × ((classify_terminal false false true false false ≡ err no_terminal_disposition) ↔ (
        ((false ≡ true) × (false ≡ false) × (false ≡ false) × (false ≡ false))
        ⊎ ((false ≡ false) × (true ≡ false) × (false ≡ false))))
classify_terminal_outcomes_example = classify_terminal_outcomes false false true false false
