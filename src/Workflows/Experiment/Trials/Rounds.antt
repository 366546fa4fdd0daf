-- ===== src/Workflows/Experiment/Trials/Rounds.antt =====
-- The rounds of `_collect_trials`: how many trials run at a time, and that the rounds come to an end.
use instruct_eval.Workflows.Experiment.Trials.Dispatching.{
  Bounded, no_trials-Bounded, dispatch_trials-Bounded, dispatch_trials-done, left_trials,
  dispatch_trials-left,
}
use instruct_eval.Workflows.Experiment.Trials.Completing.{
  Shrinks, record_all-Shrinks, record_all-ends, drain_trial-flags,
}
use instruct_eval.Common.{
  ℕ, zero, suc, ◌+◌, ◌≤◌, ◌<◌, String, ◌≡◌, ◌⊎◌, refl, ◌∙◌, Bool, true, false, List, [], ◌∷◌, arith,
  if◌then◌else◌, length, nat_eq, string_eq, Bool-cases, inl, inr,
}
use instruct_eval.Workflows.Json.{Payload}
use instruct_eval.Workflows.Experiment.Trials.{
  TrialRun, TrialWorld, has_raised, cancel_trials, can_dispatch, dispatch_trials, drain_trial,
  drain_all, drain_trials, record_all, while_outstanding, first_completed, collect_round,
  collect_rounds, collect_trials, no_trials,
}

-- What stopping the trials leaves.
pub record Drained (state state' : TrialRun) : Type 0 where
  pub outstanding : state'.outstanding ≡ []
  pub next : state'.next_token ≡ state.next_token
  pub stopped : state'.is_terminal ≡ state.is_terminal
  pub cancelled : state'.is_cancelled ≡ state.is_cancelled
  pub raised : state'.raised ≡ state.raised

module _ (world : TrialWorld) (request : String → Payload) (tokens : List String) where
  drain_all-flags :
      (ts : List String) (state : TrialRun)
      → ((drain_all world request tokens ts state).next_token ≡ state.next_token)
        × ((drain_all world request tokens ts state).is_terminal ≡ state.is_terminal)
        × ((drain_all world request tokens ts state).is_cancelled ≡ state.is_cancelled)
        × ((drain_all world request tokens ts state).raised ≡ state.raised)
  unfolding drain_all
  drain_all-flags [] state = (refl, refl, refl, refl)
  drain_all-flags (t ∷ ts) state =
      let after = drain_trial t (world.outcome (request t)) state in
      let first = drain_trial-flags t (world.outcome (request t)) state in
      let others = drain_all-flags ts after in
      (others.0 ∙ first.0, others.1 ∙ first.1, others.2 ∙ first.2, others.3 ∙ first.3)

  pub drain_trials-Drained :
      (state : TrialRun) → Drained state (drain_trials world request tokens state)
  unfolding drain_trials
  drain_trials-Drained state =
      let flags = drain_all-flags state.outstanding state in
      record {
        outstanding = refl;
        next = flags.0;
        stopped = flags.1;
        cancelled = flags.2;
        raised = flags.3;
      }

  -- What a round does to an experiment whose trials are running.
  record Round (state state' : TrialRun) : Type 0 where
    pub bounded : Bounded state'
    pub settled : can_dispatch state' ≡ false
    pub fewer : has_raised state' ≡ false → left_trials state' < left_trials state

  collect_round-Round :
      (n : ℕ) (state : TrialRun) {t : String} {ts : List String}
      → Bounded state
      → state.outstanding ≡ t ∷ ts
      → Round state (collect_round world request tokens n state)
  unfolding collect_round cancel_trials
  collect_round-Round n state {t} {ts} h o = elim (Bool-cases (world.is_interrupted n)) [
    | inl interrupted ↦
        rw interrupted (cancelled_at state h.running refl (world.is_last_drain_interrupted n) refl)
    | inr goes_on ↦ rw goes_on (stopped_or_not after.is_terminal refl)
  ]
    where
      drained :
          (after : TrialRun)
          → after.next_token ≡ state.next_token
          → (after.is_terminal ≡ true) ⊎ (after.is_cancelled ≡ true)
          → state.next_token ≤ 20
          → Round state (drain_trials world request tokens after)
      drained after n s b =
          let d = drain_trials-Drained after in
          record {
            bounded = record {
              running = ground (arith, d.outstanding);
              dispatched = ground (arith, d.next);
            };
            settled = ground (arith, d.stopped, d.cancelled);
            fewer = λ _. ground (arith, d.outstanding, d.next, o);
          }

      cancelled_at :
          (before : TrialRun)
          → length before.outstanding ≤ 4
          → before.next_token ≡ state.next_token
          → (b : Bool) → world.is_last_drain_interrupted n ≡ b
          → Round state (cancel_trials world request tokens n before)
      cancelled_at before r e true i = rw i (record {
        bounded = record { running = r; dispatched = omega (arith, h.dispatched, e) };
        settled = refl;
        fewer = λ r. ground arith;
      })
      cancelled_at before r e false i =
          rw i (drained (record before { is_cancelled = true }) e (inr refl) h.dispatched)

      after : TrialRun
      after =
          record_all world request tokens (first_completed (world.done n) state.outstanding) state

      shrinks : Shrinks state after
      shrinks =
          record_all-Shrinks world request tokens (first_completed (world.done n) state.outstanding)
            state

      ends : length after.outstanding < length state.outstanding
      ends = record_all-ends world request tokens (world.done n) state o

      bounded : Bounded after
      bounded = record {
        running = ground (arith, shrinks.fewer);
        dispatched = ground (arith, shrinks.next);
      }

      stopped_or_not :
          (b : Bool)
          → after.is_terminal ≡ b
          → Round state (
              if b
              then (if world.is_drain_interrupted n
                  then cancel_trials world request tokens n after
                  else drain_trials world request tokens after)
              else dispatch_trials 20 tokens after)
      stopped_or_not true e = elim (Bool-cases (world.is_drain_interrupted n)) [
        | inl interrupted ↦ rw interrupted (
            cancelled_at after bounded.running shrinks.next (world.is_last_drain_interrupted n)
              refl)
        | inr goes_on ↦ rw goes_on (drained after shrinks.next (inl e) h.dispatched)
      ]
      stopped_or_not false e = record {
        bounded = dispatch_trials-Bounded 20 tokens after bounded;
        settled = dispatch_trials-done 20 tokens after (omega arith);
        fewer = λ _. ground (arith, dispatch_trials-left 20 tokens after, ends, shrinks.next);
      }

  -- Whatever the trials give, whichever end first, and whether a cancellation comes, at most four
  -- trials run and at most twenty are dispatched after any number of rounds, if that held before.
  pub collect_rounds-Bounded :
      (rounds n : ℕ) (state : TrialRun)
      → Bounded state
      → Bounded (collect_rounds world request tokens rounds n state)
  unfolding collect_rounds
  collect_rounds-Bounded zero n state h = h
  collect_rounds-Bounded (suc rounds) n state h = if_Bounded (has_raised state) (
      by_outstanding state.outstanding refl
        (collect_rounds-Bounded rounds (n + 1) (collect_round world request tokens n state)))
    where
      rest : TrialRun
      rest =
          collect_rounds world request tokens rounds (n + 1)
            (collect_round world request tokens n state)

      if_Bounded :
          (b : Bool)
          → Bounded (while_outstanding state.outstanding state rest)
          → Bounded (if b then state else while_outstanding state.outstanding state rest)
      if_Bounded true k = h
      if_Bounded false k = k

      by_outstanding :
          (ts : List String)
          → state.outstanding ≡ ts
          → (Bounded (collect_round world request tokens n state) → Bounded rest)
          → Bounded (while_outstanding ts state rest)
      by_outstanding [] o k = h
      by_outstanding (t ∷ ts) o k = k (collect_round-Round n state h o).bounded

  -- The rounds are over: nothing is left to start, and nothing runs unless it raised.
  abbrev Ended : TrialRun → Type 0
  Ended state = (has_raised state ≡ false → state.outstanding ≡ []) × (can_dispatch state ≡ false)

  collect_rounds-Ended :
      (rounds n : ℕ) (state : TrialRun)
      → Bounded state
      → can_dispatch state ≡ false
      → (has_raised state ≡ false → left_trials state ≤ rounds)
      → Ended (collect_rounds world request tokens rounds n state)
  unfolding collect_rounds
  collect_rounds-Ended zero n state h s l =
      (λ r. let left = l r in none_left state.outstanding (omega arith), s)
    where
      none_left : (ts : List String) → length ts ≤ 0 → ts ≡ []
      none_left [] e = refl
      none_left (t ∷ ts) e = ground arith
  collect_rounds-Ended (suc rounds) n state h s l = by_raised (has_raised state) refl (
      by_outstanding state.outstanding refl
        (collect_rounds-Ended rounds (n + 1) (collect_round world request tokens n state)))
    where
      rest : TrialRun
      rest =
          collect_rounds world request tokens rounds (n + 1)
            (collect_round world request tokens n state)

      by_raised :
          (b : Bool)
          → has_raised state ≡ b
          → (has_raised state ≡ false → Ended (while_outstanding state.outstanding state rest))
          → Ended (if b then state else while_outstanding state.outstanding state rest)
      by_raised true e k = (λ r. ground arith, s)
      by_raised false e k = k e

      by_outstanding :
          (ts : List String)
          → state.outstanding ≡ ts
          → (Bounded (collect_round world request tokens n state)
              → can_dispatch (collect_round world request tokens n state) ≡ false
              → (has_raised (collect_round world request tokens n state) ≡ false
                  → left_trials (collect_round world request tokens n state) ≤ rounds)
              → Ended rest)
          → has_raised state ≡ false
          → Ended (while_outstanding ts state rest)
      by_outstanding [] o k r = (λ _. o, s)
      by_outstanding (t ∷ ts) o k r =
          let round = collect_round-Round n state h o in
          let left = l r in
          k round.bounded round.settled (λ q. let fewer = round.fewer q in omega arith)

  pub collect_trials-Bounded : Bounded (collect_trials world request tokens)
  unfolding collect_trials
  collect_trials-Bounded =
      collect_rounds-Bounded 20 0 (dispatch_trials 20 tokens no_trials)
        (dispatch_trials-Bounded 20 tokens no_trials no_trials-Bounded)

  pub collect_trials-Ended : Ended (collect_trials world request tokens)
  unfolding collect_trials
  collect_trials-Ended =
      collect_rounds-Ended 20 0 (dispatch_trials 20 tokens no_trials)
        (dispatch_trials-Bounded 20 tokens no_trials no_trials-Bounded)
        (dispatch_trials-done 20 tokens no_trials (omega arith))
        (λ _. dispatch_trials-left 20 tokens no_trials)
