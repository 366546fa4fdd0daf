-- ===== src/Workflows/Experiment/Trials/Dispatching.antt =====
-- How many trials `_dispatch_trials` starts.
use instruct_eval.Common.{
  ℕ, zero, suc, ◌+◌, ◌-◌, ◌≤◌, String, ◌≡◌, false, List, [], ◌∷◌, arith, length, length-append,
  nat_eq, string_eq, Bool-cases, inl, inr, Option, none, some, true, ◌⊎◌, refl, ap,
}
use instruct_eval.Workflows.Experiment.Trials.{
  TrialRun, can_dispatch, has_raised, dispatch_token, dispatch_one, dispatch_trials, element,
  no_trials,
}

-- At most four trials run at a time, and there are twenty.
pub record Bounded (state : TrialRun) : Type 0 where
  pub running : length state.outstanding ≤ 4
  pub dispatched : state.next_token ≤ 20

pub no_trials-Bounded : Bounded no_trials
no_trials-Bounded = record { running = omega arith; dispatched = omega arith }

-- What a round of the loop of `_dispatch_trials` does: it raises, or it starts a trial.
abbrev Dispatches : TrialRun → TrialRun → Type 0
Dispatches state state' =
    ((has_raised state' ≡ true)
      × (state'.next_token ≡ state.next_token)
      × (state'.outstanding ≡ state.outstanding))
    ⊎ ((state'.next_token ≡ state.next_token + 1)
        × (length state'.outstanding ≡ length state.outstanding + 1))

dispatch_one-Dispatches :
    (tokens : List String) (state : TrialRun) → Dispatches state (dispatch_one tokens state)
unfolding dispatch_one dispatch_token
dispatch_one-Dispatches tokens state = by_element (element state.next_token tokens)
  where
    by_element : (found : Option String) → Dispatches state (dispatch_token found state)
    by_element none = inl (refl, refl, refl)
    by_element (some token) = inr (refl, length-append state.outstanding (token ∷ []))

-- Where the loop does not go on, no number of rounds changes anything.
dispatch_trials-stopped :
    (rounds : ℕ) (tokens : List String) (state : TrialRun)
    → can_dispatch state ≡ false
    → dispatch_trials rounds tokens state ≡ state
unfolding dispatch_trials
dispatch_trials-stopped zero tokens state h = refl
dispatch_trials-stopped (suc rounds) tokens state h = rw h refl

pub raised_stops : (state : TrialRun) → has_raised state ≡ true → can_dispatch state ≡ false
raised_stops state h = ground arith

pub dispatch_trials-Bounded :
    (rounds : ℕ) (tokens : List String) (state : TrialRun)
    → Bounded state
    → Bounded (dispatch_trials rounds tokens state)
unfolding dispatch_trials
dispatch_trials-Bounded zero tokens state h = h
dispatch_trials-Bounded (suc rounds) tokens state h = elim (Bool-cases (can_dispatch state)) [
  | inl more ↦ rw more (
      dispatch_trials-Bounded rounds tokens (dispatch_one tokens state)
        (one (dispatch_one tokens state) more (dispatch_one-Dispatches tokens state)))
  | inr done ↦ rw done h
]
  where
    one : (next : TrialRun) → can_dispatch state ≡ true → Dispatches state next → Bounded next
    one next more (inl same) = record {
      running = ground (arith, ap length same.2);
      dispatched = ground (arith, same.1);
    }
    one next more (inr size) = record {
      running = ground (arith, size.1);
      dispatched = ground (arith, size.0);
    }

-- As many rounds as there are trials left are enough for the loop of `_dispatch_trials`.
pub dispatch_trials-done :
    (rounds : ℕ) (tokens : List String) (state : TrialRun)
    → 20 ≤ rounds + state.next_token
    → can_dispatch (dispatch_trials rounds tokens state) ≡ false
unfolding dispatch_trials
dispatch_trials-done zero tokens state h = ground arith
dispatch_trials-done (suc rounds) tokens state h = elim (Bool-cases (can_dispatch state)) [
  | inl more ↦ rw more (
      one (dispatch_one tokens state) (dispatch_one-Dispatches tokens state)
        (dispatch_trials-done rounds tokens (dispatch_one tokens state)))
  | inr done ↦ rw done done
]
  where
    one :
        (next : TrialRun)
        → Dispatches state next
        → (20 ≤ rounds + next.next_token
            → can_dispatch (dispatch_trials rounds tokens next) ≡ false)
        → can_dispatch (dispatch_trials rounds tokens next) ≡ false
    one next (inl same) k =
        let stops = raised_stops next same.0 in
        rw (dispatch_trials-stopped rounds tokens next stops) stops
    one next (inr size) k = k (omega (arith, h, size.0))

-- the trials that are running or not started
abbrev pub left_trials : TrialRun → ℕ
left_trials state = length state.outstanding + (20 - state.next_token)

pub dispatch_trials-left :
    (rounds : ℕ) (tokens : List String) (state : TrialRun)
    → left_trials (dispatch_trials rounds tokens state) ≤ left_trials state
unfolding dispatch_trials
dispatch_trials-left zero tokens state = omega arith
dispatch_trials-left (suc rounds) tokens state = elim (Bool-cases (can_dispatch state)) [
  | inl more ↦
      let others = dispatch_trials-left rounds tokens (dispatch_one tokens state) in
      let one = left (dispatch_one tokens state) more (dispatch_one-Dispatches tokens state) in
      rw more (omega (arith, one, others))
  | inr done ↦ rw done (omega arith)
]
  where
    left :
        (next : TrialRun)
        → can_dispatch state ≡ true
        → Dispatches state next
        → left_trials next ≤ left_trials state
    left next more (inl same) = ground (arith, same.1, ap length same.2)
    left next more (inr size) = ground (arith, size.0, size.1)
