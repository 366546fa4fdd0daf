-- ===== src/Workflows/Experiment/Trials/Reached.antt =====
-- What has become of the trials of an experiment once `_collect_trials` returns or raises.
use instruct_eval.Common.{ℕ, ◌<◌, String, ◌≡◌, ◌≢◌, ◌⊎◌, true, none, some, List, nat_eq, string_eq}
use instruct_eval.Workflows.Json.{Payload}
use instruct_eval.Workflows.Experiment.{cancelled}
use instruct_eval.Workflows.Experiment.Trials.{TrialRun, TrialWorld, element, look}
use instruct_eval.Workflows.Experiment.Trials.Reasons.{HasInvalid, HasCancellation}

-- A drain after a cancellation was cancelled, and that is raised.
abbrev Interrupted : TrialWorld → TrialRun → Type 0
Interrupted world state =
    (state.raised ≡ some cancelled) × ((n : ℕ) × (world.is_last_drain_interrupted n ≡ true))

-- Every token that was taken has a disposition, and only a cancelled drain has raised.
record Reached (world : TrialWorld) (request : String → Payload) (tokens : List String)
    (state : TrialRun) : Type 0 where
  pub covered :
      (i : ℕ) (t : String)
      → i < state.next_token
      → element i tokens ≡ some t
      → look t state.accounting ≢ none
  pub clean : (state.raised ≡ none) ⊎ Interrupted world state
  pub stopped : state.is_terminal ≡ true → HasInvalid world request
  pub cancels : state.is_cancelled ≡ true → HasCancellation world
