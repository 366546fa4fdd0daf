-- ===== src/Workflows/Experiment/Trials/Reasons.antt =====
-- Why the trials of `_collect_trials` end, and the dispositions that they end with.
use instruct_eval.Common.{
  not, ◌&&◌, ℕ, zero, suc, ◌<◌, String, ◌≡◌, ◌≢◌, ◌⊎◌, refl, sym, ap, ◌∙◌, Bool, true, false,
  Option, none, some, List, [], ◌∷◌, arith, length, nat_eq, string_eq, inl, inr,
}
use instruct_eval.Trials.Dispatcher.{Disposition, started}
use instruct_eval.Workflows.Json.{Payload, is_member, get, is_flag}
use instruct_eval.Workflows.Experiment.Pending.{
  Outcome, activity_result, returned, malformed, interrupted, failed,
}
use instruct_eval.Workflows.Experiment.Results.{every}
use instruct_eval.Workflows.Experiment.Trials.{
  TrialRun, TrialWorld, settle_trial, record_trial_completion, is_terminal_result, element, look,
  record_all,
}
use instruct_eval.Workflows.Experiment.Trials.Accounting.{Accounted}

-- whether there is a disposition, and it is not `started`
abbrev pub is_final : Option Disposition → Bool
is_final none = false
is_final (some started) = false
is_final _ = true

pub final_option :
    (found : Option Disposition) → found ≢ none → found ≢ some started → is_final found ≡ true
final_option none n s = absurd (n refl)
final_option (some started) n s = absurd (s refl)
final_option (some d) n s = refl

pub nothing_owed :
    (t : String) (state : TrialRun)
    → state.outstanding ≡ []
    → Accounted state
    → look t state.accounting ≢ some started
unfolding is_member
nothing_owed t state o h =
    λ s. let owed : is_member t [] ≡ true = ap (is_member t) (sym o) ∙ h.at t s in ground arith

-- There is a token where the list has not ended.
pub element-none : (n : ℕ) (ts : List String) → n < length ts → element n ts ≢ none
unfolding element
element-none n [] h e = ground arith
element-none zero (t ∷ ts) h e = cc
element-none (suc n) (t ∷ ts) h e = element-none n ts (omega arith) e

pub every-element :
    (f : String → Bool) (ts : List String)
    → ((i : ℕ) (t : String) → i < length ts → element i ts ≡ some t → f t ≡ true)
    → every f ts ≡ true
unfolding every element
every-element f [] h = refl
every-element f (t ∷ ts) h =
    let first = h 0 t (omega arith) refl in
    let others = every-element f ts (λ i u l e. h (suc i) u (omega arith) e) in
    ground (arith, first, others)

-- whether the task of a trial ends with a valid result
pub is_valid_trial : Outcome → Bool
is_valid_trial (activity_result r) =
    is_flag true (get "protocol_valid" r.payload) && not (is_flag true (get "terminal" r.payload))
is_valid_trial (returned _) = false
is_valid_trial malformed = false
is_valid_trial interrupted = false
is_valid_trial (failed _) = false

pub record_trial_completion-stopped :
    (t : String) (found : Outcome) (state : TrialRun)
    → (record_trial_completion t found state).is_terminal ≡ true
    → (state.is_terminal ≡ true) ⊎ (is_valid_trial found ≡ false)
unfolding record_trial_completion settle_trial is_terminal_result is_valid_trial
record_trial_completion-stopped t (activity_result r) state h = ground arith
record_trial_completion-stopped t (returned _) state h = inr refl
record_trial_completion-stopped t malformed state h = inr refl
record_trial_completion-stopped t interrupted state h = inr refl
record_trial_completion-stopped t (failed _) state h = inr refl

-- A trial ends without a valid result.
abbrev pub HasInvalid : TrialWorld → (String → Payload) → Type 0
HasInvalid world request = (t : String) × (is_valid_trial (world.outcome (request t)) ≡ false)

-- A wait is cancelled, or the drain after a terminal trial.
abbrev pub HasCancellation : TrialWorld → Type 0
HasCancellation world =
    (n : ℕ) × ((world.is_interrupted n ≡ true) ⊎ (world.is_drain_interrupted n ≡ true))

pub record_all-stopped :
    (world : TrialWorld) (request : String → Payload) (tokens ts : List String) (state : TrialRun)
    → (record_all world request tokens ts state).is_terminal ≡ true
    → (state.is_terminal ≡ true) ⊎ HasInvalid world request
unfolding record_all
record_all-stopped world request tokens [] state h = inl h
record_all-stopped world request tokens (t ∷ ts) state h =
    let found = world.outcome (request t) in
    elim (record_all-stopped world request tokens ts (record_trial_completion t found state) h) [
      | inr later ↦ inr later
      | inl now ↦ elim (record_trial_completion-stopped t found state now) [
        | inl before ↦ inl before
        | inr invalid ↦ inr (t, invalid)
      ]
    ]
