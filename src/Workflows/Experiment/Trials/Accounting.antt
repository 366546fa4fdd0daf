-- ===== src/Workflows/Experiment/Trials/Accounting.antt =====
-- The accounting of the trials: that every token gets a disposition in the end, and none stays started.
use instruct_eval.Common.{
  ℕ, zero, suc, ◌+◌, String, ◌≡◌, ◌≢◌, ◌⊎◌, sym, ◌∙◌, Bool, true, false, Option, none, some, List,
  [], ◌∷◌, ◌++◌, arith, if◌then◌else◌, nat_eq, string_eq, ◌==◌, eq_iff, Bool-cases, inl, inr,
  ==_refl,
}
use instruct_eval.Trials.Dispatcher.{Disposition, started, result, terminal, indeterminate}
use instruct_eval.Workflows.Json.{Payload, is_member}
use instruct_eval.Workflows.Experiment.Pending.{
  Outcome, activity_result, returned, malformed, interrupted, failed,
}
use instruct_eval.Workflows.Experiment.Trials.{
  TrialRun, TrialWorld, can_dispatch, has_raised, cancel_trials, dispatch_token, dispatch_one,
  dispatch_trials, element, put, look, remove, settle_trial, record_trial_completion, drain_trial,
  drain_all, drain_trials, record_all, while_outstanding, first_completed, collect_round,
  collect_rounds, collect_trials, no_trials, is_terminal_result,
}

pub look-put_same :
    {A : Type 0} (t : String) (a : A) (entries : List (String × A))
    → look t (put t a entries) ≡ some a
unfolding look put
look-put_same t a [] = ground (arith, ==_refl t)
look-put_same t a (entry ∷ entries) = elim (Bool-cases (entry.0 == t)) [
  | inl same ↦ ground (arith, ==_refl t)
  | inr other ↦ ground (arith, look-put_same t a entries)
]

pub look-put_other :
    {A : Type 0} (t u : String) (a : A) (entries : List (String × A))
    → t ≢ u
    → look t (put u a entries) ≡ look t entries
unfolding look put
look-put_other t u a [] n = ground (arith, eq_iff u t)
look-put_other t u a (entry ∷ entries) n = elim (Bool-cases (entry.0 == u)) [
  | inl same ↦ ground (arith, eq_iff entry.0 u, eq_iff entry.0 t, eq_iff u t)
  | inr other ↦ ground (arith, look-put_other t u a entries n)
]

is_member-append :
    (t u : String) (ts : List String)
    → (is_member t ts ≡ true) ⊎ (t ≡ u)
    → is_member t (ts ++ u ∷ []) ≡ true
unfolding is_member
is_member-append t u [] (inl h) = ground arith
is_member-append t u [] (inr h) = ground (arith, eq_iff u t)
is_member-append t u (v ∷ vs) (inl h) = elim (Bool-cases (v == t)) [
  | inl same ↦ ground arith
  | inr other ↦ ground (arith, is_member-append t u vs (inl (ground arith)))
]
is_member-append t u (v ∷ vs) (inr h) = ground (arith, is_member-append t u vs (inr h))

is_member-remove :
    (t u : String) (ts : List String)
    → t ≢ u
    → is_member t ts ≡ true
    → is_member t (remove u ts) ≡ true
unfolding is_member remove
is_member-remove t u [] n h = h
is_member-remove t u (v ∷ vs) n h = elim (Bool-cases (v == t)) [
  | inl same ↦ ground (arith, eq_iff v t, eq_iff v u)
  | inr other ↦ ground (arith, is_member-remove t u vs n (ground arith))
]

is_member-tail :
    (t u : String) (ts : List String) → t ≢ u → is_member t (u ∷ ts) ≡ true → is_member t ts ≡ true
unfolding is_member
is_member-tail t u ts n h = ground (arith, eq_iff u t)

-- Only listed trials are accounted as started.
pub record Owed (ts : List String) (accounting : List (String × Disposition)) : Type 0 where
  pub at : (t : String) → look t accounting ≡ some started → is_member t ts ≡ true

abbrev pub Accounted : TrialRun → Type 0
Accounted state = Owed state.outstanding state.accounting

-- A trial with another disposition is no longer owed.
settled-Owed :
    (u : String) (disposition : Disposition) (ts rest : List String)
    (accounting : List (String × Disposition))
    → disposition ≢ started
    → ((t : String) → t ≢ u → is_member t ts ≡ true → is_member t rest ≡ true)
    → Owed ts accounting
    → Owed rest (put u disposition accounting)
settled-Owed u disposition ts rest accounting d k h = record {
  at = λ t s. elim (Bool-cases (t == u)) [
    | inl same ↦
        let equal : t ≡ u = (eq_iff t u).0 same in
        let now : look t (put u disposition accounting) ≡ some disposition =
          rw equal (look-put_same u disposition accounting) in
        absurd (d (let e : disposition ≡ started = cc in e))
    | inr other ↦
        let differs : t ≢ u = λ e. ground (arith, eq_iff t u) in
        k t differs (h.at t (sym (look-put_other t u disposition accounting differs) ∙ s))
  ];
}

dispatch_one-Accounted :
    (tokens : List String) (state : TrialRun)
    → Accounted state
    → Accounted (dispatch_one tokens state)
unfolding dispatch_one dispatch_token
dispatch_one-Accounted tokens state h = by_element (element state.next_token tokens)
  where
    by_element : (found : Option String) → Accounted (dispatch_token found state)
    by_element none = h
    by_element (some u) = record {
      at = λ t s. elim (Bool-cases (t == u)) [
        | inl same ↦ is_member-append t u state.outstanding (inr ((eq_iff t u).0 same))
        | inr other ↦
            let differs : t ≢ u = λ e. ground (arith, eq_iff t u) in
            is_member-append t u state.outstanding
              (inl (h.at t (sym (look-put_other t u started state.accounting differs) ∙ s)))
      ];
    }

settle_trial-Accounted :
    (u : String) (found : Outcome) (state : TrialRun)
    → Accounted state
    → Accounted (record_trial_completion u found state)
unfolding record_trial_completion settle_trial
settle_trial-Accounted u found state h = by_outcome found
  where
    settled :
        (disposition : Disposition)
        → disposition ≢ started
        → Owed (remove u state.outstanding) (put u disposition state.accounting)
    settled disposition d =
        settled-Owed u disposition state.outstanding (remove u state.outstanding) state.accounting d
          (λ t n m. is_member-remove t u state.outstanding n m) h

    by_outcome : (found : Outcome) → Accounted (record_trial_completion u found state)
    by_outcome (activity_result r) = by_result (is_terminal_result r)
      where
        by_result :
            (b : Bool)
            → Accounted (
                if b
                then record state {
                  outstanding = remove u state.outstanding;
                  trials = put u r state.trials;
                  accounting = put u terminal state.accounting;
                  is_terminal = true;
                }
                else record state {
                  outstanding = remove u state.outstanding;
                  trials = put u r state.trials;
                  accounting = put u result state.accounting;
                })
        by_result true = settled terminal (λ e. ground arith)
        by_result false = settled result (λ e. ground arith)
    by_outcome (returned _) = settled indeterminate (λ e. ground arith)
    by_outcome malformed = settled indeterminate (λ e. ground arith)
    by_outcome interrupted = settled indeterminate (λ e. ground arith)
    by_outcome (failed _) = settled indeterminate (λ e. ground arith)

drain_trial-Owed :
    (u : String) (ts : List String) (found : Outcome) (state : TrialRun)
    → Owed (u ∷ ts) state.accounting
    → Owed ts (drain_trial u found state).accounting
unfolding drain_trial
drain_trial-Owed u ts found state h = by_outcome found
  where
    settled :
        (disposition : Disposition)
        → disposition ≢ started
        → Owed ts (put u disposition state.accounting)
    settled disposition d =
        settled-Owed u disposition (u ∷ ts) ts state.accounting d
          (λ t n m. is_member-tail t u ts n m) h

    drained : (b : Bool) → Owed ts (put u (if b then terminal else result) state.accounting)
    drained true = settled terminal (λ e. ground arith)
    drained false = settled result (λ e. ground arith)

    by_outcome : (found : Outcome) → Owed ts (drain_trial u found state).accounting
    by_outcome (activity_result r) = drained (is_terminal_result r)
    by_outcome (returned _) = settled indeterminate (λ e. ground arith)
    by_outcome malformed = settled indeterminate (λ e. ground arith)
    by_outcome interrupted = settled indeterminate (λ e. ground arith)
    by_outcome (failed _) = settled indeterminate (λ e. ground arith)

if_Accounted :
    (b : Bool) (x y : TrialRun) → Accounted x → Accounted y → Accounted (if b then x else y)
if_Accounted true x y h k = h
if_Accounted false x y h k = k

while-Accounted :
    (ts : List String) (state rest : TrialRun)
    → Accounted state
    → Accounted rest
    → Accounted (while_outstanding ts state rest)
while-Accounted [] state rest h k = h
while-Accounted (t ∷ ts) state rest h k = k

dispatch_trials-Accounted :
    (rounds : ℕ) (tokens : List String) (state : TrialRun)
    → Accounted state
    → Accounted (dispatch_trials rounds tokens state)
unfolding dispatch_trials
dispatch_trials-Accounted zero tokens state h = h
dispatch_trials-Accounted (suc rounds) tokens state h =
    if_Accounted (can_dispatch state) _ _
      (dispatch_trials-Accounted rounds tokens (dispatch_one tokens state)
        (dispatch_one-Accounted tokens state h))
      h

module _ (world : TrialWorld) (request : String → Payload) (tokens : List String) where
  drain_all-Owed :
      (ts : List String) (state : TrialRun)
      → Owed ts state.accounting
      → Owed [] (drain_all world request tokens ts state).accounting
  unfolding drain_all
  drain_all-Owed [] state h = h
  drain_all-Owed (t ∷ ts) state h =
      drain_all-Owed ts (drain_trial t (world.outcome (request t)) state)
        (drain_trial-Owed t ts (world.outcome (request t)) state h)

  drain_trials-Accounted :
      (state : TrialRun) → Accounted state → Accounted (drain_trials world request tokens state)
  unfolding drain_trials
  drain_trials-Accounted state h = record { at = (drain_all-Owed state.outstanding state h).at }

  cancel_trials-Accounted :
      (n : ℕ) (state : TrialRun)
      → Accounted state
      → Accounted (cancel_trials world request tokens n state)
  unfolding cancel_trials
  cancel_trials-Accounted n state h =
      if_Accounted (world.is_last_drain_interrupted n) _ _ h
        (drain_trials-Accounted (record state { is_cancelled = true }) h)

  record_all-Accounted :
      (ts : List String) (state : TrialRun)
      → Accounted state
      → Accounted (record_all world request tokens ts state)
  unfolding record_all
  record_all-Accounted [] state h = h
  record_all-Accounted (t ∷ ts) state h =
      record_all-Accounted ts (record_trial_completion t (world.outcome (request t)) state)
        (settle_trial-Accounted t (world.outcome (request t)) state h)

  collect_round-Accounted :
      (n : ℕ) (state : TrialRun)
      → Accounted state
      → Accounted (collect_round world request tokens n state)
  unfolding collect_round
  collect_round-Accounted n state h =
      let found = first_completed (world.done n) state.outstanding in
      let after = record_all world request tokens found state in
      let recorded = record_all-Accounted found state h in
      if_Accounted (world.is_interrupted n) _ _ (cancel_trials-Accounted n state h) (
        if_Accounted after.is_terminal _ _
          (if_Accounted (world.is_drain_interrupted n) _ _
            (cancel_trials-Accounted n after recorded) (drain_trials-Accounted after recorded))
          (dispatch_trials-Accounted 20 tokens after recorded))

  collect_rounds-Accounted :
      (rounds n : ℕ) (state : TrialRun)
      → Accounted state
      → Accounted (collect_rounds world request tokens rounds n state)
  unfolding collect_rounds
  collect_rounds-Accounted zero n state h = h
  collect_rounds-Accounted (suc rounds) n state h = if_Accounted (has_raised state) _ _ h (
      while-Accounted state.outstanding state _ h (
        collect_rounds-Accounted rounds (n + 1) (collect_round world request tokens n state)
          (collect_round-Accounted n state h)))

  pub collect_trials-Accounted : Accounted (collect_trials world request tokens)
  unfolding collect_trials look
  collect_trials-Accounted =
      collect_rounds-Accounted 20 0 (dispatch_trials 20 tokens no_trials)
        (dispatch_trials-Accounted 20 tokens no_trials (record { at = λ t s. ground arith }))
