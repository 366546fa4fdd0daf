-- ===== src/Workflows/Experiment/Trials/Completing.antt =====
-- What the completion of trials does to those that run.
use instruct_eval.Common.{
  ◌≤◌, ◌<◌, String, ◌≡◌, refl, ap, ◌∙◌, true, List, [], ◌∷◌, arith, length, nat_eq, string_eq, ◌==◌,
  Bool-cases, inl, inr, ==_refl,
}
use instruct_eval.Workflows.Json.{Payload, is_member}
use instruct_eval.Workflows.Experiment.Pending.{Outcome}
use instruct_eval.Workflows.Experiment.Trials.{
  TrialRun, TrialWorld, remove, settle_trial, record_trial_completion, drain_trial, record_all,
  done_tasks, at_least, first_completed,
}

-- What a step of the rounds does not do: start trials, or take back that they are stopped.
pub record Shrinks (state state' : TrialRun) : Type 0 where
  pub fewer : length state'.outstanding ≤ length state.outstanding
  pub next : state'.next_token ≡ state.next_token
  pub stopped : state.is_terminal ≡ true → state'.is_terminal ≡ true
  pub cancelled : state'.is_cancelled ≡ state.is_cancelled
  pub raised : state'.raised ≡ state.raised

Shrinks-trans : (a b c : TrialRun) → Shrinks a b → Shrinks b c → Shrinks a c
Shrinks-trans a b c h k = record {
  fewer = omega (arith, h.fewer, k.fewer);
  next = k.next ∙ h.next;
  stopped = λ t. k.stopped (h.stopped t);
  cancelled = k.cancelled ∙ h.cancelled;
  raised = k.raised ∙ h.raised;
}

length-remove : (t : String) (ts : List String) → length (remove t ts) ≤ length ts
unfolding remove
length-remove t [] = omega arith
length-remove t (u ∷ us) = ground (arith, length-remove t us)

length-remove_member :
    (t : String) (ts : List String) → is_member t ts ≡ true → length (remove t ts) < length ts
unfolding remove is_member
length-remove_member t [] h = ground arith
length-remove_member t (u ∷ us) h = elim (Bool-cases (u == t)) [
  | inl same ↦ ground arith
  | inr other ↦ let fewer = length-remove_member t us (ground arith) in ground (arith, fewer)
]

record_trial_completion-Shrinks :
    (t : String) (found : Outcome) (state : TrialRun)
    → Shrinks state (record_trial_completion t found state)
unfolding record_trial_completion settle_trial
record_trial_completion-Shrinks t found state = record {
  fewer = ground (arith, length-remove t state.outstanding);
  next = ground arith;
  stopped = λ h. ground arith;
  cancelled = ground arith;
  raised = ground arith;
}

record_trial_completion-outstanding :
    (t : String) (found : Outcome) (state : TrialRun)
    → (record_trial_completion t found state).outstanding ≡ remove t state.outstanding
unfolding record_trial_completion settle_trial
record_trial_completion-outstanding t found state = ground arith

is_member-done_tasks :
    (found ts : List String) (t : String)
    → is_member t (done_tasks found ts) ≡ true
    → is_member t ts ≡ true
unfolding is_member done_tasks
is_member-done_tasks found [] t h = h
is_member-done_tasks found (u ∷ us) t h =
    let others : is_member t (done_tasks found us) ≡ true → is_member t us ≡ true =
      is_member-done_tasks found us t in
    elim (Bool-cases (is_member u found)) [
      | inl is_done ↦ elim (Bool-cases (is_member t (done_tasks found us))) [
        | inl later ↦ ground (arith, others later)
        | inr not_later ↦ ground arith
      ]
      | inr not_done ↦ ground (arith, others (ground arith))
    ]

is_member-first : (t : String) (ts : List String) → is_member t (t ∷ ts) ≡ true
unfolding is_member
is_member-first t ts = ground (arith, ==_refl t)

pub drain_trial-flags :
    (t : String) (found : Outcome) (state : TrialRun)
    → ((drain_trial t found state).next_token ≡ state.next_token)
      × ((drain_trial t found state).is_terminal ≡ state.is_terminal)
      × ((drain_trial t found state).is_cancelled ≡ state.is_cancelled)
      × ((drain_trial t found state).raised ≡ state.raised)
unfolding drain_trial
drain_trial-flags t found state = ground arith

module _ (world : TrialWorld) (request : String → Payload) (tokens : List String) where
  pub record_all-Shrinks :
      (ts : List String) (state : TrialRun)
      → Shrinks state (record_all world request tokens ts state)
  unfolding record_all
  record_all-Shrinks [] state = record {
    fewer = omega arith;
    next = refl;
    stopped = λ h. h;
    cancelled = refl;
    raised = refl;
  }
  record_all-Shrinks (t ∷ ts) state =
      let after = record_trial_completion t (world.outcome (request t)) state in
      Shrinks-trans state after (record_all world request tokens ts after)
        (record_trial_completion-Shrinks t (world.outcome (request t)) state)
        (record_all-Shrinks ts after)

  -- A wait ends a trial at least.
  pub record_all-ends :
      (found : List String) (state : TrialRun) {t : String} {ts : List String}
      → state.outstanding ≡ t ∷ ts
      → length
          (record_all world request tokens
            (first_completed found state.outstanding)
            state).outstanding
        < length state.outstanding
  unfolding record_all first_completed
  record_all-ends found state {t} {ts} o =
      let chosen : first_completed found state.outstanding ≡ first_completed found (t ∷ ts) =
        ap (first_completed found) o in
      let shorter = by_done (done_tasks found (t ∷ ts)) refl in
      rw chosen (omega (arith, shorter, ap length o))
    where
      ends :
          (d : String) (ds : List String)
          → is_member d (t ∷ ts) ≡ true
          → length (record_all world request tokens (d ∷ ds) state).outstanding < length (t ∷ ts)
      ends d ds h =
          let after = record_trial_completion d (world.outcome (request d)) state in
          let first : after.outstanding ≡ remove d (t ∷ ts) =
            record_trial_completion-outstanding d (world.outcome (request d)) state
            ∙ ap (remove d) o in
          ground
            (arith, first, length-remove_member d (t ∷ ts) h, (record_all-Shrinks ds after).fewer)

      by_done :
          (ds : List String)
          → done_tasks found (t ∷ ts) ≡ ds
          → length
              (record_all world request tokens (first_completed found (t ∷ ts)) state).outstanding
            < length (t ∷ ts)
      by_done [] e =
          let chosen : first_completed found (t ∷ ts) ≡ t ∷ [] = ap (at_least t) e in
          rw chosen (ends t [] (is_member-first t ts))
      by_done (d ∷ ds) e =
          let listed : is_member d (done_tasks found (t ∷ ts)) ≡ true =
            rw e (is_member-first d ds) in
          let chosen : first_completed found (t ∷ ts) ≡ d ∷ ds = ap (at_least t) e in
          rw chosen (ends d ds (is_member-done_tasks found (t ∷ ts) d listed))
