-- ===== src/Trials/Dispatcher/Bounds.antt =====
-- At most four trials run at a time, and a dispatcher that has halted has no token left to start.
use instruct_eval.Common.{
  ℕ, ◌+◌, ◌-◌, ◌≤◌, String, ◌≡◌, ◌≢◌, refl, Bool, false, ◌||◌, none, some, List, [], ◌∷◌, arith,
  string_eq, if◌then◌else◌, length, length-take-le,
}
use instruct_eval.Trials.Dispatcher.{
  Disposition, started, unscheduled_due_to_terminal, unscheduled_due_to_cancellation, Entry,
  TrialDispatcher, assign, is_started, is_unset, started_count, unset_tokens, free_slots, start_all,
  ready_tokens, dispatch, mark_unscheduled, finish, cancel,
}
use instruct_eval.Trials.Dispatcher.Events.{Event, dispatching, finishing, cancelling, step, run}

-- whether a token has not been started
unfoldable pub has_unset : List Entry → Bool
has_unset [] = false
has_unset (entry ∷ entries) = is_unset entry.1 || has_unset entries

pub record IsValid (d : TrialDispatcher) : Type 0 where
  pub at_most_four : started_count d.state ≤ 4
  pub halted : d.halt ≢ none → has_unset d.state ≡ false

started_count-assign :
    (t : String) (value : Disposition) (es : List Entry)
    → started_count (assign t value es)
      ≤ started_count es + (if is_started (some value) then 1 else 0)
unfolding started_count assign
started_count-assign t value [] = omega arith
started_count-assign t value (e ∷ es) = ground (arith, started_count-assign t value es)

started_count-start_all :
    (ts : List String) (es : List Entry)
    → started_count (start_all ts es) ≤ started_count es + length ts
unfolding start_all
started_count-start_all [] es = omega arith
started_count-start_all (t ∷ ts) es =
    omega
      (arith, started_count-start_all ts (assign t started es), started_count-assign t started es)

length-free_slots :
    (busy : ℕ) (ts : List String) → busy ≤ 4 → busy + length (free_slots busy ts) ≤ 4
unfolding free_slots
length-free_slots busy ts h = ground (arith, length-take-le (4 - busy) ts)

started_count-mark :
    (value : Disposition) (es : List Entry)
    → is_started (some value) ≡ false
    → started_count (mark_unscheduled value es) ≡ started_count es
unfolding started_count mark_unscheduled
started_count-mark value [] h = refl
started_count-mark value (e ∷ es) h = ground (arith, started_count-mark value es)

has_unset-mark :
    (value : Disposition) (es : List Entry) → has_unset (mark_unscheduled value es) ≡ false
unfolding has_unset mark_unscheduled
has_unset-mark value [] = refl
has_unset-mark value (e ∷ es) = ground (arith, has_unset-mark value es)

has_unset-assign :
    (t : String) (value : Disposition) (es : List Entry)
    → has_unset es ≡ false
    → has_unset (assign t value es) ≡ false
unfolding has_unset assign
has_unset-assign t value [] h = refl
has_unset-assign t value (e ∷ es) h = ground (arith, has_unset-assign t value es)

dispatch-IsValid : (d : TrialDispatcher) → IsValid d → IsValid (dispatch d).0
unfolding dispatch ready_tokens
dispatch-IsValid d h = ground (
  arith,
  started_count-start_all (ready_tokens d) d.state,
  length-free_slots (started_count d.state) (unset_tokens d.state d.order) h.at_most_four,
)

finish-IsValid :
    (t : String) (value : Disposition) (d : TrialDispatcher)
    → IsValid d
    → IsValid (finish t value d).1
unfolding finish
finish-IsValid t value d h = ground (
  arith,
  started_count-assign t value d.state,
  started_count-mark unscheduled_due_to_terminal (assign t value d.state),
  has_unset-mark unscheduled_due_to_terminal (assign t value d.state),
  has_unset-assign t value d.state,
)

cancel-IsValid : (d : TrialDispatcher) → IsValid d → IsValid (cancel d)
unfolding cancel
cancel-IsValid d h = ground (
  arith,
  started_count-mark unscheduled_due_to_cancellation d.state,
  has_unset-mark unscheduled_due_to_cancellation d.state,
)

step-IsValid : (d : TrialDispatcher) (event : Event) → IsValid d → IsValid (step d event)
unfolding step
step-IsValid d dispatching h = dispatch-IsValid d h
step-IsValid d (finishing t value) h = finish-IsValid t value d h
step-IsValid d cancelling h = cancel-IsValid d h

-- Whatever the calls, a dispatcher that has at most four running trials, and no unset token if it
-- has halted, stays one.
pub run-IsValidDispatcher :
    (d : TrialDispatcher) (events : List Event) → IsValid d → IsValid (run d events)
unfolding run
run-IsValidDispatcher d [] h = h
run-IsValidDispatcher d (event ∷ events) h =
    run-IsValidDispatcher (step d event) events (step-IsValid d event h)
