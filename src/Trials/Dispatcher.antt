-- ===== src/Trials/Dispatcher.antt =====
-- `TrialDispatcher` of trials.py: at most four trials run at a time, each token is dispatched once,
-- and a terminal or indeterminate trial, or a cancellation, halts the dispatch.
pub mod Events
pub mod Bounds
pub mod Once
pub mod Progress
use instruct_eval.Common.{
  ℕ, suc, ◌+◌, ◌-◌, String, Bool, true, false, ◌&&◌, ◌||◌, not, Option, none, some, List, [], ◌∷◌,
  ◌++◌, ltb, leb, ◌==◌, string_eq, if◌then◌else◌, length, take, map,
}
use instruct_eval.Exec.{Exec, Result, ok, err, raise, raise_if, pure, gets, modify, ◌>>=◌, ◌>>◌}

-- The texts that the program uses for the state of a token; `other` is any other text.
pub data Disposition : Type 0 where
  started result terminal indeterminate canceled_before_invocation : Disposition
  unscheduled_due_to_terminal unscheduled_due_to_cancellation other : Disposition

-- An entry of `_state`: a token, and `None` or its disposition.
abbrev pub Entry : Type 0
Entry = String × Option Disposition

-- `_halt` when it is set
pub data Halt : Type 0 where
  on_terminal on_indeterminate on_cancellation : Halt

pub record TrialDispatcher : Type 0 where
  pub order : List String
  pub state : List Entry
  pub halt : Option Halt

pub data TrialProtocolError : Type 0 where
  invalid_terminal_transition unaccounted_tokens : TrialProtocolError

-- `token in d`
unfoldable pub has_token : String → List Entry → Bool
has_token token [] = false
has_token token (entry ∷ entries) = entry.0 == token || has_token token entries

-- `d[token]`, at a token that is in `d`
unfoldable pub status_of : String → List Entry → Option Disposition
status_of token [] = none
status_of token (entry ∷ entries) = if entry.0 == token then entry.1 else status_of token entries

-- `d[token] = disposition`, at a token that is in `d`
unfoldable pub assign : String → Disposition → List Entry → List Entry
assign token disposition [] = []
assign token disposition (entry ∷ entries) =
    if entry.0 == token
    then (entry.0, some disposition) ∷ entries
    else entry ∷ assign token disposition entries

abbrev pub is_started : Option Disposition → Bool
is_started (some started) = true
is_started _ = false

abbrev pub is_unset : Option Disposition → Bool
is_unset none = true
is_unset (some _) = false

-- `sum(value == "started" for value in self._state.values())`
unfoldable pub started_count : List Entry → ℕ
started_count [] = 0
started_count (entry ∷ entries) = (if is_started entry.1 then 1 else 0) + started_count entries

-- `[token for token in self._order if self._state[token] is None]`
unfoldable pub unset_tokens : List Entry → List String → List String
unset_tokens entries [] = []
unset_tokens entries (token ∷ order) =
    let rest = unset_tokens entries order in
    if has_token token entries && is_unset (status_of token entries) then token ∷ rest else rest

-- `tokens[:slots]` with `slots = 4 - busy`: a negative end counts from the end of the list.
unfoldable pub free_slots : ℕ → List String → List String
free_slots busy tokens =
    if leb busy 4 then take (4 - busy) tokens else take (length tokens - (busy - 4)) tokens

-- `for token in ready: self._state[token] = "started"`
unfoldable pub start_all : List String → List Entry → List Entry
start_all [] entries = entries
start_all (token ∷ tokens) entries = start_all tokens (assign token started entries)

-- the tokens that `dispatch` starts
unfoldable pub ready_tokens : TrialDispatcher → List String
ready_tokens d = free_slots (started_count d.state) (unset_tokens d.state d.order)

dispatch_open : TrialDispatcher → TrialDispatcher × List String
dispatch_open d = (record d { state = start_all (ready_tokens d) d.state }, ready_tokens d)

unfoldable pub dispatch : TrialDispatcher → TrialDispatcher × List String
unfolding dispatch_open
dispatch d = elim d.halt [ some _ ↦ (d, []) | none ↦ dispatch_open d ]

-- `_mark_unscheduled`
unfoldable pub mark_unscheduled : Disposition → List Entry → List Entry
mark_unscheduled disposition [] = []
mark_unscheduled disposition (entry ∷ entries) =
    (entry.0, if is_unset entry.1 then some disposition else entry.1)
    ∷ mark_unscheduled disposition entries

-- `disposition in valid_dispositions`
abbrev pub is_valid_disposition : Disposition → Bool
is_valid_disposition result = true
is_valid_disposition terminal = true
is_valid_disposition indeterminate = true
is_valid_disposition canceled_before_invocation = true
is_valid_disposition _ = false

-- `terminal` once its transition is known to be valid
settle : String → Disposition → TrialDispatcher → TrialDispatcher
settle token terminal d = record d {
  state = mark_unscheduled unscheduled_due_to_terminal (assign token terminal d.state);
  halt = some on_terminal;
}
settle token indeterminate d = record d {
  state = mark_unscheduled unscheduled_due_to_terminal (assign token indeterminate d.state);
  halt = some on_indeterminate;
}
settle token disposition d = record d { state = assign token disposition d.state }

-- The method `terminal`; what it returns is always empty.
unfoldable pub finish : String → Disposition → Exec TrialProtocolError TrialDispatcher (Unit {0})
unfolding settle
finish token disposition = do
  found ← gets (λ d. has_token token d.state && is_started (status_of token d.state))
  raise_if (not found || not (is_valid_disposition disposition)) invalid_terminal_transition
  modify (settle token disposition)

unfoldable pub cancel : TrialDispatcher → TrialDispatcher
cancel d = record d {
  state = mark_unscheduled unscheduled_due_to_cancellation d.state;
  halt = some on_cancellation;
}

-- whether a value is `None` or "started"
abbrev pub is_open : Option Disposition → Bool
is_open value = is_unset value || is_started value

unfoldable pub has_open : List Entry → Bool
has_open [] = false
has_open (entry ∷ entries) = is_open entry.1 || has_open entries

-- `accounting`
unfoldable pub accounting : Exec TrialProtocolError TrialDispatcher (List Entry)
accounting d = (if has_open d.state then err unaccounted_tokens else ok d.state, d)

-- `dict.fromkeys(order)`: each token once, at its first place
unfoldable pub from_keys : List String → List Entry → List Entry
from_keys [] seen = seen
from_keys (token ∷ order) seen =
    from_keys order (if has_token token seen then seen else seen ++ (token, none) ∷ [])

unfoldable pub new : List String → TrialDispatcher
unfolding from_keys
new order = record { order = order; state = from_keys order []; halt = none }
