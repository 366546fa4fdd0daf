-- ===== src/Workflows/Experiment/Trials/Dispositions.antt =====
-- The dispositions that `_g3_trial_data` gives to the request of G3.
use instruct_eval.Common.{String, ◌≢◌, some, List, nat_eq, string_eq}
use instruct_eval.Trials.Dispatcher.{Disposition, started}
use instruct_eval.Workflows.Experiment.Trials.{look}

-- No trial is accounted as started.
record Finished (accounting : List (String × Disposition)) : Type 0 where
  pub at : (t : String) → look t accounting ≢ some started
