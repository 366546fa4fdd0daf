-- ===== src/Workflows/Experiment/Trials/Keeping.antt =====
-- What the steps of `_collect_trials` keep: the trials that have a disposition.
use instruct_eval.Common.{
  String, ◌≡◌, ◌≢◌, sym, ◌∙◌, Bool, true, false, none, some, List, [], ◌∷◌, arith, if◌then◌else◌,
  nat_eq, string_eq, ◌==◌, eq_iff, Bool-cases, inl, inr,
}
use instruct_eval.Trials.Dispatcher.{Disposition, result, terminal, indeterminate}
use instruct_eval.Workflows.Json.{Payload}
use instruct_eval.Workflows.Experiment.Pending.{
  Outcome, activity_result, returned, malformed, interrupted, failed,
}
use instruct_eval.Workflows.Experiment.Trials.{
  TrialRun, TrialWorld, put, look, remove, settle_trial, record_trial_completion, drain_trial,
  drain_all, record_all, is_terminal_result,
}
use instruct_eval.Workflows.Experiment.Trials.Accounting.{look-put_same, look-put_other}

pub put-keeps :
    (t u : String) (d : Disposition) (accounting : List (String × Disposition))
    → look t accounting ≢ none
    → look t (put u d accounting) ≢ none
put-keeps t u d accounting h e = elim (Bool-cases (t == u)) [
  | inl same ↦
      let equal : t ≡ u = (eq_iff t u).0 same in
      let now : look t (put u d accounting) ≡ some d = rw equal (look-put_same u d accounting) in cc
  | inr other ↦
      let differs : t ≢ u = λ e. ground (arith, eq_iff t u) in
      h (sym (look-put_other t u d accounting differs) ∙ e)
]

-- No trial loses its disposition.
pub record Keeps (accounting accounting' : List (String × Disposition)) : Type 0 where
  pub at : (t : String) → look t accounting ≢ none → look t accounting' ≢ none

put-Keeps :
    (u : String) (d : Disposition) (accounting : List (String × Disposition))
    → Keeps accounting (put u d accounting)
put-Keeps u d accounting = record { at = λ t h. put-keeps t u d accounting h }

record_trial_completion-Keeps :
    (u : String) (found : Outcome) (state : TrialRun)
    → Keeps state.accounting (record_trial_completion u found state).accounting
unfolding record_trial_completion settle_trial
record_trial_completion-Keeps u found state = by_outcome found
  where
    by_outcome :
        (found : Outcome)
        → Keeps state.accounting (record_trial_completion u found state).accounting
    by_outcome (activity_result r) = by_result (is_terminal_result r)
      where
        by_result :
            (b : Bool)
            → Keeps state.accounting
                (if b
                  then record state {
                    outstanding = remove u state.outstanding;
                    trials = put u r state.trials;
                    accounting = put u terminal state.accounting;
                    is_terminal = true;
                  }
                  else record state {
                    outstanding = remove u state.outstanding;
                    trials = put u r state.trials;
                    accounting = put u result state.accounting;
                  }).accounting
        by_result true = put-Keeps u terminal state.accounting
        by_result false = put-Keeps u result state.accounting
    by_outcome (returned _) = put-Keeps u indeterminate state.accounting
    by_outcome malformed = put-Keeps u indeterminate state.accounting
    by_outcome interrupted = put-Keeps u indeterminate state.accounting
    by_outcome (failed _) = put-Keeps u indeterminate state.accounting

drain_trial-Keeps :
    (u : String) (found : Outcome) (state : TrialRun)
    → Keeps state.accounting (drain_trial u found state).accounting
unfolding drain_trial
drain_trial-Keeps u (activity_result r) state =
    put-Keeps u (if is_terminal_result r then terminal else result) state.accounting
drain_trial-Keeps u (returned _) state = put-Keeps u indeterminate state.accounting
drain_trial-Keeps u malformed state = put-Keeps u indeterminate state.accounting
drain_trial-Keeps u interrupted state = put-Keeps u indeterminate state.accounting
drain_trial-Keeps u (failed _) state = put-Keeps u indeterminate state.accounting

module _ (world : TrialWorld) (request : String → Payload) (tokens : List String) where
  pub drain_all-Keeps :
      (ts : List String) (state : TrialRun)
      → Keeps state.accounting (drain_all world request tokens ts state).accounting
  unfolding drain_all
  drain_all-Keeps [] state = record { at = λ t h. h }
  drain_all-Keeps (u ∷ us) state =
      let after = drain_trial u (world.outcome (request u)) state in
      record {
        at = λ t h.
            (drain_all-Keeps us after).at t
              ((drain_trial-Keeps u (world.outcome (request u)) state).at t h);
      }

  pub record_all-Keeps :
      (ts : List String) (state : TrialRun)
      → Keeps state.accounting (record_all world request tokens ts state).accounting
  unfolding record_all
  record_all-Keeps [] state = record { at = λ t h. h }
  record_all-Keeps (u ∷ us) state =
      let after = record_trial_completion u (world.outcome (request u)) state in
      record {
        at = λ t h.
            (record_all-Keeps us after).at t
              ((record_trial_completion-Keeps u (world.outcome (request u)) state).at t h);
      }
