-- ===== src/Trials/Dispatcher/Events.antt =====
-- The calls that a dispatcher gets, in any order, and what a sequence of them leaves.
use instruct_eval.Common.{String, List, [], ◌∷◌}
use instruct_eval.Trials.Dispatcher.{TrialDispatcher, Disposition, dispatch, finish, cancel}

pub data Event : Type 0 where
  dispatching : Event
  finishing : String → Disposition → Event
  cancelling : Event

-- the dispatcher after a call, whether it returned or raised
unfoldable pub step : TrialDispatcher → Event → TrialDispatcher
step d dispatching = (dispatch d).0
step d (finishing token disposition) = (finish token disposition d).1
step d cancelling = cancel d

unfoldable pub run : TrialDispatcher → List Event → TrialDispatcher
run d [] = d
run d (event ∷ events) = run (step d event) events
