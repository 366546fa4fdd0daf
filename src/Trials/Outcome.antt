-- ===== src/Trials/Outcome.antt =====
-- `schedule_batches` and `classify_terminal` of trials.py.
use instruct_eval.Common.{
  ℕ, zero, suc, ◌≤◌, String, ◌≡◌, ◌≢◌, refl, ap, Bool, true, false, not, ◌&&◌, List, [], ◌∷◌, ◌++◌,
  arith, if◌then◌else◌, length, take, length-take-le, All, ◌⊎◌, ◌↔◌,
}
use instruct_eval.Exec.{Result, ok, err}
use instruct_eval.Trials.Dispatcher.{
  Disposition, result, terminal, indeterminate, canceled_before_invocation,
  unscheduled_due_to_terminal, unscheduled_due_to_cancellation,
}

-- `xs[n:]`
abbrev drop : ℕ → List String → List String
drop zero xs = xs
drop (suc n) [] = []
drop (suc n) (x ∷ xs) = drop n xs

-- The batches that are left; a batch takes at least one token, so as many steps as tokens do.
batches : ℕ → List String → List (List String)
batches zero order = []
batches (suc steps) [] = []
batches (suc steps) (token ∷ order) =
    take 4 (token ∷ order) ∷ batches steps (drop 4 (token ∷ order))

unfoldable pub schedule_batches : List String → List (List String)
unfolding batches
schedule_batches order = batches (length order) order

unfoldable pub joined : List (List String) → List String
joined [] = []
joined (batch ∷ rest) = batch ++ joined rest

take-drop : (n : ℕ) (xs : List String) → take n xs ++ drop n xs ≡ xs
take-drop zero xs = refl
take-drop (suc n) [] = refl
take-drop (suc n) (x ∷ xs) = ap (λ (l : List String). x ∷ l) (take-drop n xs)

length-drop-le : (n : ℕ) (xs : List String) → length (drop n xs) ≤ length xs
length-drop-le zero xs = omega arith
length-drop-le (suc n) [] = omega arith
length-drop-le (suc n) (x ∷ xs) = omega (arith, length-drop-le n xs)

joined-batches :
    (steps : ℕ) (order : List String) → length order ≤ steps → joined (batches steps order) ≡ order
unfolding batches joined
joined-batches zero [] h = refl
joined-batches zero (token ∷ order) h = absurd (omega arith)
joined-batches (suc steps) [] h = refl
joined-batches (suc steps) (token ∷ order) h =
    rw (joined-batches steps (drop 4 (token ∷ order)) (omega (arith, length-drop-le 3 order)))
      (take-drop 4 (token ∷ order))

batches_at_most_four :
    (steps : ℕ) (order : List String) → All (λ batch. length batch ≤ 4) (batches steps order)
unfolding batches
batches_at_most_four zero order = tt
batches_at_most_four (suc steps) [] = tt
batches_at_most_four (suc steps) (token ∷ order) =
    (length-take-le 4 (token ∷ order), batches_at_most_four steps (drop 4 (token ∷ order)))

-- Every batch has at most four tokens, and the batches, one after the other, are the order of the
-- assignments.
pub schedule_batches_partition :
    (order : List String)
    → All (λ batch. length batch ≤ 4) (schedule_batches order)
      × (joined (schedule_batches order) ≡ order)
unfolding schedule_batches
schedule_batches_partition order =
    (batches_at_most_four (length order) order, joined-batches (length order) order (omega arith))

pub data TerminalError : Type 0 where
  no_terminal_disposition : TerminalError

-- `classify_terminal`, by its keyword arguments in their order
unfoldable pub classify_terminal :
    Bool → Bool → Bool → Bool → Bool → Result TerminalError Disposition
classify_terminal started has_result canceled is_indeterminate is_terminal =
    if has_result && started
    then ok result
    else if is_indeterminate && started
    then ok indeterminate
    else if is_terminal && started
    then ok terminal
    else if canceled && not started
    then ok canceled_before_invocation
    else if is_terminal && not started
    then ok unscheduled_due_to_terminal
    else if canceled && not started
    then ok unscheduled_due_to_cancellation
    else err no_terminal_disposition

-- Whatever its arguments, `classify_terminal` never returns UNSCHEDULED_DUE_TO_CANCELLATION: a trial
-- that was canceled before its start is classified as canceled-before-invocation. It raises exactly
-- when the trial has none of result, indeterminate and terminal after its start, or is neither
-- canceled nor terminal before it.
pub classify_terminal_outcomes :
    (started has_result canceled is_indeterminate is_terminal : Bool)
    → (classify_terminal started has_result canceled is_indeterminate is_terminal
        ≢ ok unscheduled_due_to_cancellation)
      × ((classify_terminal started has_result canceled is_indeterminate is_terminal
            ≡ err no_terminal_disposition)
          ↔ (((started ≡ true)
                × (has_result ≡ false)
                × (is_indeterminate ≡ false)
                × (is_terminal ≡ false))
              ⊎ ((started ≡ false) × (canceled ≡ false) × (is_terminal ≡ false))))
unfolding classify_terminal
classify_terminal_outcomes started has_result canceled is_indeterminate is_terminal =
    (λ e. ground arith, (λ e. ground arith, λ e. ground arith))
