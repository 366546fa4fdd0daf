-- ===== src/Trials/Dispatcher/Once.antt =====
-- No token is dispatched twice, whatever the calls.
use instruct_eval.Common.{
  ℕ, zero, suc, ◌+◌, ◌-◌, ◌≤◌, ◌<◌, String, ◌≡◌, refl, ◌&&◌, List, [], ◌∷◌, ◌++◌, arith, ◌==◌,
  string_eq, eq_iff, if◌then◌else◌, length, take,
}
use instruct_eval.Trials.Dispatcher.{
  Disposition, started, unscheduled_due_to_terminal, unscheduled_due_to_cancellation, Entry,
  TrialDispatcher, has_token, status_of, assign, is_unset, started_count, unset_tokens, free_slots,
  start_all, ready_tokens, dispatch, mark_unscheduled, finish, cancel,
}
use instruct_eval.Trials.Dispatcher.Events.{Event, dispatching, finishing, cancelling, step}

-- how often a token occurs
unfoldable pub times : String → List String → ℕ
times t [] = 0
times t (u ∷ us) = (if u == t then 1 else 0) + times t us

-- 1 if the token can still be dispatched, and else 0
unfoldable pub owed : String → List Entry → ℕ
owed t [] = 0
owed t (e ∷ es) = if e.0 == t then (if is_unset e.1 then 1 else 0) else owed t es

-- the tokens that the calls of `dispatch` in a sequence return, in order
unfoldable pub dispatched : TrialDispatcher → List Event → List String
dispatched d [] = []
dispatched d (dispatching ∷ events) = (dispatch d).1 ++ dispatched (dispatch d).0 events
dispatched d (event ∷ events) = dispatched (step d event) events

times-append : (t : String) (us vs : List String) → times t (us ++ vs) ≡ times t us + times t vs
unfolding times
times-append t [] vs = omega arith
times-append t (u ∷ us) vs = omega (arith, times-append t us vs)

times-take-le : (t : String) (n : ℕ) (us : List String) → times t (take n us) ≤ times t us
unfolding times
times-take-le t zero us = omega arith
times-take-le t (suc n) [] = omega arith
times-take-le t (suc n) (u ∷ us) = omega (arith, times-take-le t n us)

times-free_slots-le :
    (t : String) (busy : ℕ) (us : List String) → times t (free_slots busy us) ≤ times t us
unfolding free_slots
times-free_slots-le t busy us =
    ground (arith, times-take-le t (4 - busy) us, times-take-le t (length us - (busy - 4)) us)

pub owed-le-one : (t : String) (es : List Entry) → owed t es ≤ 1
unfolding owed
owed-le-one t [] = omega arith
owed-le-one t (e ∷ es) = ground (arith, owed-le-one t es)

owed-unset :
    (t : String) (es : List Entry)
    → owed t es ≡ (if has_token t es && is_unset (status_of t es) then 1 else 0)
unfolding owed has_token status_of
owed-unset t [] = refl
owed-unset t (e ∷ es) = ground (arith, owed-unset t es)

no_more :
    (t : String) (es : List Entry) (order : List String)
    → times t (unset_tokens es order) ≤ times t order
unfolding times unset_tokens
no_more t es [] = omega arith
no_more t es (u ∷ us) = ground (arith, no_more t es us)

times-unset_tokens-le :
    (t : String) (es : List Entry) (order : List String)
    → times t order ≤ 1
    → times t (unset_tokens es order) ≤ owed t es
unfolding times unset_tokens
times-unset_tokens-le t es [] h = omega arith
times-unset_tokens-le t es (u ∷ us) h =
    ground (arith, owed-unset t es, eq_iff u t, times-unset_tokens-le t es us, no_more t es us)

owed-assign-le :
    (t u : String) (v : Disposition) (es : List Entry) → owed t (assign u v es) ≤ owed t es
unfolding owed assign
owed-assign-le t u v [] = omega arith
owed-assign-le t u v (e ∷ es) = ground (arith, owed-assign-le t u v es)

owed-assign_self : (t : String) (v : Disposition) (es : List Entry) → owed t (assign t v es) ≡ 0
unfolding owed assign
owed-assign_self t v [] = refl
owed-assign_self t v (e ∷ es) = ground (arith, owed-assign_self t v es)

owed-start_all-le :
    (t : String) (us : List String) (es : List Entry) → owed t (start_all us es) ≤ owed t es
unfolding start_all
owed-start_all-le t [] es = omega arith
owed-start_all-le t (u ∷ us) es =
    omega (arith, owed-start_all-le t us (assign u started es), owed-assign-le t u started es)

owed-start_all_started :
    (t : String) (us : List String) (es : List Entry)
    → 0 < times t us
    → owed t (start_all us es) ≡ 0
unfolding start_all times
owed-start_all_started t [] es h = absurd (omega arith)
owed-start_all_started t (u ∷ us) es h = ground (
  arith,
  eq_iff u t,
  owed-assign_self t started es,
  owed-start_all-le t us (assign u started es),
  owed-start_all_started t us (assign u started es),
)

owed-mark-le :
    (t : String) (v : Disposition) (es : List Entry) → owed t (mark_unscheduled v es) ≤ owed t es
unfolding owed mark_unscheduled
owed-mark-le t v [] = omega arith
owed-mark-le t v (e ∷ es) = ground (arith, owed-mark-le t v es)

ready_owed :
    (t : String) (d : TrialDispatcher)
    → times t d.order ≤ 1
    → times t (ready_tokens d) ≤ owed t d.state
unfolding ready_tokens
ready_owed t d h = omega (
  arith,
  times-free_slots-le t (started_count d.state) (unset_tokens d.state d.order),
  times-unset_tokens-le t d.state d.order h,
)

-- What `dispatch` hands out is no longer owed.
owed-dispatch :
    (t : String) (d : TrialDispatcher)
    → times t d.order ≤ 1
    → times t (dispatch d).1 + owed t (dispatch d).0.state ≤ owed t d.state
unfolding dispatch times
owed-dispatch t d h = ground (
  arith,
  ready_owed t d h,
  owed-le-one t d.state,
  owed-start_all-le t (ready_tokens d) d.state,
  owed-start_all_started t (ready_tokens d) d.state,
)

owed-finish :
    (t u : String) (v : Disposition) (d : TrialDispatcher)
    → owed t (finish u v d).1.state ≤ owed t d.state
unfolding finish
owed-finish t u v d = ground (
  arith,
  owed-assign-le t u v d.state,
  owed-mark-le t unscheduled_due_to_terminal (assign u v d.state),
)

owed-cancel : (t : String) (d : TrialDispatcher) → owed t (cancel d).state ≤ owed t d.state
unfolding cancel
owed-cancel t d = owed-mark-le t unscheduled_due_to_cancellation d.state

order-dispatch : (d : TrialDispatcher) → (dispatch d).0.order ≡ d.order
unfolding dispatch
order-dispatch d = ground arith

order-finish :
    (u : String) (v : Disposition) (d : TrialDispatcher) → (finish u v d).1.order ≡ d.order
unfolding finish
order-finish u v d = ground arith

order-cancel : (d : TrialDispatcher) → (cancel d).order ≡ d.order
unfolding cancel
order-cancel d = refl

-- A token that is listed once is handed out as often as it is owed at most.
dispatched-owed :
    (t : String) (d : TrialDispatcher) (events : List Event)
    → times t d.order ≤ 1
    → times t (dispatched d events) ≤ owed t d.state
unfolding dispatched step times
dispatched-owed t d [] h = omega arith
dispatched-owed t d (dispatching ∷ events) h =
    rw (times-append t (dispatch d).1 (dispatched (dispatch d).0 events)) (
      omega (
        arith,
        owed-dispatch t d h,
        dispatched-owed t (dispatch d).0 events (rw (order-dispatch d) h),
      ))
dispatched-owed t d (finishing u v ∷ events) h = omega (
  arith,
  owed-finish t u v d,
  dispatched-owed t (finish u v d).1 events (rw (order-finish u v d) h),
)
dispatched-owed t d (cancelling ∷ events) h =
    omega (arith, owed-cancel t d, dispatched-owed t (cancel d) events (rw (order-cancel d) h))

-- Along any sequence of calls `dispatch` hands out a token that the order lists once at most once.
pub dispatched_at_most_once :
    (t : String) (d : TrialDispatcher) (events : List Event)
    → times t d.order ≤ 1
    → times t (dispatched d events) ≤ 1
dispatched_at_most_once t d events h =
    omega (arith, dispatched-owed t d events h, owed-le-one t d.state)
