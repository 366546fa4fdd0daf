-- ===== src/Trials/Dispatcher/Progress.antt =====
-- A dispatcher never gets stuck: it can be accounted for, or a trial is running, or `dispatch`
-- starts one.
use instruct_eval.Common.{
  ◌<◌, String, ◌≡◌, ◌≢◌, refl, sym, ◌∙◌, ap, Bool, true, false, ◌||◌, none, List, [], ◌∷◌, ◌++◌,
  arith, ◌==◌, string_eq, eq_iff, ==_refl, leb, if◌then◌else◌, ◌⊎◌, inl, inr, Bool-cases,
  Option-cases,
}
use instruct_eval.Exec.{is_ok}
use instruct_eval.Trials.Dispatcher.{
  Disposition, started, unscheduled_due_to_terminal, unscheduled_due_to_cancellation, Entry,
  TrialDispatcher, has_token, status_of, assign, is_unset, started_count, unset_tokens, free_slots,
  start_all, ready_tokens, dispatch, mark_unscheduled, finish, cancel, has_open, accounting,
  from_keys, new,
}
use instruct_eval.Trials.Dispatcher.Events.{Event, dispatching, finishing, cancelling, step, run}
use instruct_eval.Trials.Dispatcher.Bounds.{IsValid, has_unset, run-IsValidDispatcher}

-- the keys of `_state`
unfoldable pub tokens : List Entry → List String
tokens [] = []
tokens (e ∷ es) = e.0 ∷ tokens es

unfoldable pub contains : String → List String → Bool
contains t [] = false
contains t (u ∷ us) = u == t || contains t us

-- The keys are distinct, and all of them stand in the order.
abbrev pub Keys : List String → List String → Type 0
Keys order [] = Unit
Keys order (t ∷ ts) = (contains t ts ≡ false) × (contains t order ≡ true) × Keys order ts

tokens-assign :
    (u : String) (v : Disposition) (es : List Entry) → tokens (assign u v es) ≡ tokens es
unfolding tokens assign
tokens-assign u v [] = refl
tokens-assign u v (e ∷ es) = ground (arith, tokens-assign u v es)

tokens-start_all : (us : List String) (es : List Entry) → tokens (start_all us es) ≡ tokens es
unfolding start_all
tokens-start_all [] es = refl
tokens-start_all (u ∷ us) es =
    tokens-start_all us (assign u started es) ∙ tokens-assign u started es

tokens-mark : (v : Disposition) (es : List Entry) → tokens (mark_unscheduled v es) ≡ tokens es
unfolding tokens mark_unscheduled
tokens-mark v [] = refl
tokens-mark v (e ∷ es) = ap (λ (ts : List String). e.0 ∷ ts) (tokens-mark v es)

-- No call changes the keys or the order.
record SameKeys (d d' : TrialDispatcher) : Type 0 where
  keys : tokens d'.state ≡ tokens d.state
  order : d'.order ≡ d.order

step-SameKeys : (d : TrialDispatcher) (event : Event) → SameKeys d (step d event)
unfolding step dispatch finish cancel
step-SameKeys d dispatching = ground (arith, tokens-start_all (ready_tokens d) d.state)
step-SameKeys d (finishing u v) =
    ground (
      arith,
      tokens-assign u v d.state,
      tokens-mark unscheduled_due_to_terminal (assign u v d.state),
    )
step-SameKeys d cancelling = ground (arith, tokens-mark unscheduled_due_to_cancellation d.state)

run-Keys :
    (d : TrialDispatcher) (events : List Event)
    → Keys d.order (tokens d.state)
    → Keys (run d events).order (tokens (run d events).state)
unfolding run
run-Keys d [] h = h
run-Keys d (event ∷ events) h =
    let same = step-SameKeys d event in
    run-Keys (step d event) events (rw (same.keys, same.order) h)

has_token-tokens : (t : String) (es : List Entry) → has_token t es ≡ contains t (tokens es)
unfolding has_token contains tokens
has_token-tokens t [] = refl
has_token-tokens t (e ∷ es) = ground (arith, has_token-tokens t es)

other_key :
    (t : String) (e : Entry) (es : List Entry)
    → contains e.0 (tokens es) ≡ false
    → has_token t es ≡ true
    → is_unset (status_of t es) ≡ true
    → is_unset (status_of t (e ∷ es)) ≡ true
unfolding status_of
other_key t e es fresh present unset = ground (arith, eq_iff e.0 t, has_token-tokens t es)

-- An unset entry, by its key.
find_unset :
    (order : List String) (es : List Entry)
    → Keys order (tokens es)
    → has_unset es ≡ true
    → (t : String) × (contains t order ≡ true)
      × (has_token t es ≡ true)
      × (is_unset (status_of t es) ≡ true)
unfolding has_unset tokens has_token status_of
find_unset order [] h u = cc
find_unset order (e ∷ es) h u = elim (Bool-cases (is_unset e.1)) [
  | inl now ↦ (e.0, h.1, ground (arith, ==_refl e.0), ground (arith, ==_refl e.0))
  | inr later ↦
      let (t, listed, present, unset) = find_unset order es h.2 (ground arith) in
      (t, listed, ground arith, other_key t e es h.0 present unset)
]

unset_tokens-ne-nil :
    (t : String) (es : List Entry) (order : List String)
    → contains t order ≡ true
    → has_token t es ≡ true
    → is_unset (status_of t es) ≡ true
    → unset_tokens es order ≢ []
unfolding contains unset_tokens
unset_tokens-ne-nil t es [] l p u = λ e. cc
unset_tokens-ne-nil t es (o ∷ order) l p u =
    ground (arith, eq_iff o t, unset_tokens-ne-nil t es order)

open_split : (es : List Entry) → has_open es ≡ true → (has_unset es ≡ true) ⊎ (0 < started_count es)
unfolding has_open has_unset started_count
open_split [] h = cc
open_split (e ∷ es) h = ground (arith, open_split es)

take_four-ne-nil : (us : List String) → us ≢ [] → free_slots 0 us ≢ []
unfolding free_slots
take_four-ne-nil [] h = absurd (h refl)
take_four-ne-nil (u ∷ us) h = λ e. ground arith

dispatch-ne-nil :
    (d : TrialDispatcher)
    → d.halt ≡ none
    → started_count d.state ≡ 0
    → unset_tokens d.state d.order ≢ []
    → (dispatch d).1 ≢ []
unfolding dispatch ready_tokens
dispatch-ne-nil d open_d idle some_left =
    rw open_d (rw idle (take_four-ne-nil (unset_tokens d.state d.order) some_left))

halted_left : (d : TrialDispatcher) → IsValid d → has_unset d.state ≡ true → d.halt ≢ none → ⊥
halted_left d h u e = let l = h.halted e in cc

accounted : (d : TrialDispatcher) → has_open d.state ≡ false → is_ok (accounting d).0 ≡ true
unfolding accounting
accounted d h = rw h

halt_of_unset : (d : TrialDispatcher) → IsValid d → has_unset d.state ≡ true → d.halt ≡ none
halt_of_unset d h u = elim (Option-cases d.halt) [
  | inl e ↦ e
  | inr (why, e) ↦ absurd (halted_left d h u (λ p. cc))
]

progress_of :
    (d : TrialDispatcher)
    → IsValid d
    → Keys d.order (tokens d.state)
    → (is_ok (accounting d).0 ≡ true) ⊎ (0 < started_count d.state) ⊎ ((dispatch d).1 ≢ [])
progress_of d valid keys = elim (Bool-cases (has_open d.state)) [
  | inr closed ↦ inl (accounted d closed)
  | inl opened ↦ elim (open_split d.state opened) [
    | inr running ↦ inr (inl running)
    | inl unset ↦ elim (Bool-cases (leb 1 (started_count d.state))) [
      | inl some_run ↦ inr (inl (ground arith))
      | inr idle ↦
          let (t, listed, present, left) = find_unset d.order d.state keys unset in
          inr (
            inr (
              dispatch-ne-nil d (halt_of_unset d valid unset) (ground arith)
                (unset_tokens-ne-nil t d.state d.order listed present left)))
    ]
  ]
]

contains_append :
    (u t : String) (ts : List String)
    → contains u ts ≡ false
    → (t == u) ≡ false
    → contains u (ts ++ t ∷ []) ≡ false
unfolding contains
contains_append u t [] h other = ground arith
contains_append u t (v ∷ ts) h other = ground (arith, contains_append u t ts)

rest_listed :
    (u t : String) (rest : List String) → contains u rest ≡ true → contains u (t ∷ rest) ≡ true
unfolding contains
rest_listed u t rest h = ground arith

started_count-append :
    (es : List Entry) (t : String) → started_count (es ++ (t, none) ∷ []) ≡ started_count es
unfolding started_count
started_count-append [] t = refl
started_count-append (e ∷ es) t = omega (arith, started_count-append es t)

Keys-append :
    (order ts : List String) (t : String)
    → Keys order ts
    → contains t ts ≡ false
    → contains t order ≡ true
    → Keys order (ts ++ t ∷ [])
unfolding contains
Keys-append order [] t h fresh listed = (refl, listed, tt)
Keys-append order (u ∷ ts) t h fresh listed = (
  contains_append u t ts h.0 (ground (arith, eq_iff u t, eq_iff t u)),
  h.1,
  Keys-append order ts t h.2 (ground arith) listed,
)

tokens-append : (es : List Entry) (t : String) → tokens (es ++ (t, none) ∷ []) ≡ tokens es ++ t ∷ []
unfolding tokens
tokens-append [] t = refl
tokens-append (e ∷ es) t = ap (λ (ts : List String). e.0 ∷ ts) (tokens-append es t)

from_keys-Keys :
    (order rest : List String) (seen : List Entry)
    → ((t : String) → contains t rest ≡ true → contains t order ≡ true)
    → Keys order (tokens seen)
    → Keys order (tokens (from_keys rest seen))
unfolding from_keys contains
from_keys-Keys order [] seen within h = h
from_keys-Keys order (t ∷ rest) seen within h = elim (Bool-cases (has_token t seen)) [
  | inl old ↦ rw old (from_keys-Keys order rest seen (λ u l. within u (rest_listed u t rest l)) h)
  | inr fresh ↦ rw fresh (
      from_keys-Keys order rest (seen ++ (t, none) ∷ []) (λ u l. within u (rest_listed u t rest l))
        (rw (tokens-append seen t) (
          Keys-append order (tokens seen) t h (sym (has_token-tokens t seen) ∙ fresh)
            (within t (rw (==_refl t))))))
]

started_count-unset :
    (order : List String) (seen : List Entry)
    → started_count seen ≡ 0
    → started_count (from_keys order seen) ≡ 0
unfolding from_keys
started_count-unset [] seen h = h
started_count-unset (t ∷ order) seen h =
    started_count-unset order (if has_token t seen then seen else seen ++ (t, none) ∷ [])
      (ground (arith, started_count-append seen t))

new-IsValid : (order : List String) → IsValid (new order)
unfolding new
new-IsValid order = record {
  at_most_four = omega (arith, started_count-unset order [] (unfold started_count in refl));
  halted = λ h. absurd (h refl);
}

new-Keys : (order : List String) → Keys (new order).order (tokens (new order).state)
unfolding new
new-Keys order = from_keys-Keys order order [] (λ t l. l) (unfold tokens in tt)

-- Whatever calls a new dispatcher has had, it is not stuck: `accounting` succeeds, or a trial is
-- running whose end is awaited, or the next `dispatch` starts a trial.
pub never_stuck :
    (order : List String) (events : List Event)
    → let d = run (new order) events in
      (is_ok (accounting d).0 ≡ true) ⊎ (0 < started_count d.state) ⊎ ((dispatch d).1 ≢ [])
never_stuck order events =
    progress_of (run (new order) events)
      (run-IsValidDispatcher (new order) events (new-IsValid order))
      (run-Keys (new order) events (new-Keys order))
