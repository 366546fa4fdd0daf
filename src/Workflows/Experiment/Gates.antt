-- ===== src/Workflows/Experiment/Gates.antt =====
-- The order of the gates along any sequence of calls, and the terminal state.
use instruct_eval.Common.{
  ◌&&◌, ◌⊎◌, Option-cases, ℕ, zero, suc, String, ◌≡◌, refl, ap, Bool, true, false, not, none, some,
  List, [], ◌∷◌, arith, nat_eq, length, map, inl, inr,
}
use instruct_eval.Exec.{ok}
use instruct_eval.Workflows.Experiment.{
  ExperimentGate, InstructionExperimentWorkflow, GateResult, same_gate, gate_names, name_at, g6,
  set_artifact, advance_gate, commit_terminal, claim_authorization,
}

-- A call of one of the methods that change the gate.
pub data Step : Type 0 where
  claiming : GateResult → Step
  advancing : ExperimentGate → GateResult → Step
  ending : ExperimentGate → Step
  -- the assignment of FROZEN, or of RELEASING, to `_gate`
  marking : ExperimentGate → Step
  -- the assignment of a staged design
  staging : String → Step

unfoldable pub step : InstructionExperimentWorkflow → Step → InstructionExperimentWorkflow
step w (claiming result) = (claim_authorization result w).1
step w (advancing gate result) = (advance_gate gate result w).1
step w (ending terminal) = (commit_terminal terminal w).1
step w (marking gate) = record w { gate = gate }
step w (staging design) = record w { frozen_design_sha256 = some design }

unfoldable pub run : InstructionExperimentWorkflow → List Step → InstructionExperimentWorkflow
run w [] = w
run w (call ∷ calls) = run (step w call) calls

-- the gates that have artifacts
abbrev pub artifact_gates : InstructionExperimentWorkflow → List ExperimentGate
artifact_gates w = map (λ (item : ExperimentGate × String). item.0) w.gate_artifacts

-- The artifacts are those of the first gates, in order.
abbrev pub Follows : List ExperimentGate → List (ExperimentGate × String) → Type 0
Follows names [] = Unit
Follows [] (item ∷ items) = ⊥
Follows (name ∷ names) (item ∷ items) = (same_gate item.0 name ≡ true) × Follows names items

abbrev pub InOrder : List (ExperimentGate × String) → Type 0
InOrder = Follows gate_names

-- No name comes twice.
abbrev pub is_fresh : ExperimentGate → List ExperimentGate → Bool
is_fresh gate [] = true
is_fresh gate (name ∷ names) = not (same_gate name gate) && is_fresh gate names

abbrev all_fresh : List ExperimentGate → Bool
all_fresh [] = true
all_fresh (name ∷ names) = is_fresh name names && all_fresh names

same_gate_trans :
    (a b c : ExperimentGate) → same_gate a b ≡ true → same_gate b c ≡ false → same_gate a c ≡ false
same_gate_trans a b c h k = ground arith

fresh_name_at :
    (n : ℕ) (gate expected : ExperimentGate) (names : List ExperimentGate)
    → is_fresh gate names ≡ true
    → name_at n names ≡ some expected
    → same_gate gate expected ≡ false
unfolding name_at
fresh_name_at n gate expected [] h e = cc
fresh_name_at zero gate expected (name ∷ names) h e = ground arith
fresh_name_at (suc n) gate expected (name ∷ names) h e =
    fresh_name_at n gate expected names (ground arith) e

set-Follows :
    (gate expected : ExperimentGate) (hash : String) (names : List ExperimentGate)
    (artifacts : List (ExperimentGate × String))
    → all_fresh names ≡ true
    → Follows names artifacts
    → name_at (length artifacts) names ≡ some expected
    → same_gate gate expected ≡ true
    → Follows names (set_artifact gate hash artifacts)
unfolding set_artifact name_at
set-Follows gate expected hash [] [] d h e s = ground arith
set-Follows gate expected hash [] (item ∷ items) d h e s = absurd h
set-Follows gate expected hash (name ∷ names) [] d h e s = (ground arith, tt)
set-Follows gate expected hash (name ∷ names) (item ∷ items) d h e s =
    let other : same_gate name expected ≡ false =
      fresh_name_at (length items) name expected names (ground arith) e in
    let differs : same_gate item.0 gate ≡ false = ground arith in
    rw differs (h.0, set-Follows gate expected hash names items (ground arith) h.1 e s)

-- An artifact of the expected gate comes after the others.
set-length :
    (gate expected : ExperimentGate) (hash : String) (names : List ExperimentGate)
    (artifacts : List (ExperimentGate × String))
    → all_fresh names ≡ true
    → Follows names artifacts
    → name_at (length artifacts) names ≡ some expected
    → same_gate gate expected ≡ true
    → length (set_artifact gate hash artifacts) ≡ suc (length artifacts)
unfolding set_artifact name_at
set-length gate expected hash names [] d h e s = refl
set-length gate expected hash [] (item ∷ items) d h e s = absurd h
set-length gate expected hash (name ∷ names) (item ∷ items) d h e s =
    let other : same_gate name expected ≡ false =
      fresh_name_at (length items) name expected names (ground arith) e in
    let differs : same_gate item.0 gate ≡ false = ground arith in
    rw differs (ap suc (set-length gate expected hash names items (ground arith) h.1 e s))

-- What an advance does to the artifacts: nothing, or it sets that of the expected gate.
advance_gate-artifacts :
    (gate expected : ExperimentGate) (result : GateResult) (w : InstructionExperimentWorkflow)
    → name_at (length w.gate_artifacts) gate_names ≡ some expected
    → ((advance_gate gate result w).1 ≡ w)
      ⊎ ((same_gate gate expected ≡ true)
          × (w.terminal_committed ≡ false)
          × ((advance_gate gate result w).1.gate_artifacts
              ≡ set_artifact gate result.artifact_sha256 w.gate_artifacts))
unfolding advance_gate
advance_gate-artifacts gate expected result w h = ground arith

advance_gate-exhausted :
    (gate : ExperimentGate) (result : GateResult) (w : InstructionExperimentWorkflow)
    → name_at (length w.gate_artifacts) gate_names ≡ none
    → (advance_gate gate result w).1 ≡ w
unfolding advance_gate
advance_gate-exhausted gate result w h = ground arith

pub advance-InOrder :
    (gate : ExperimentGate) (result : GateResult) (w : InstructionExperimentWorkflow)
    → InOrder w.gate_artifacts
    → InOrder (advance_gate gate result w).1.gate_artifacts
advance-InOrder gate result w h =
    elim (Option-cases (name_at (length w.gate_artifacts) gate_names)) [
      | inl none_left ↦ rw (advance_gate-exhausted gate result w none_left) h
      | inr (expected, e) ↦ elim (advance_gate-artifacts gate expected result w e) [
        | inl same ↦ rw same h
        | inr set ↦ rw set.2 (
            set-Follows gate expected result.artifact_sha256 gate_names w.gate_artifacts refl h e
              set.0)
      ]
    ]

last_gate :
    (n : ℕ) (gate : ExperimentGate)
    → name_at n gate_names ≡ some gate
    → same_gate g6 gate ≡ true
    → n ≡ 6
unfolding name_at
last_gate zero gate e s = ground arith
last_gate (suc zero) gate e s = ground arith
last_gate (suc (suc zero)) gate e s = ground arith
last_gate (suc (suc (suc zero))) gate e s = ground arith
last_gate (suc (suc (suc (suc zero)))) gate e s = ground arith
last_gate (suc (suc (suc (suc (suc zero))))) gate e s = ground arith
last_gate (suc (suc (suc (suc (suc (suc zero)))))) gate e s = refl
last_gate (suc (suc (suc (suc (suc (suc (suc n))))))) gate e s = ground arith

-- Where G6 has been recorded, all gates have artifacts.
pub advance_complete :
    (result : GateResult) (w : InstructionExperimentWorkflow)
    → InOrder w.gate_artifacts
    → (advance_gate g6 result w).0 ≡ ok tt
    → length (advance_gate g6 result w).1.gate_artifacts ≡ 7
unfolding advance_gate
advance_complete result w h o = elim (Option-cases (name_at (length w.gate_artifacts) gate_names)) [
  | inl none_left ↦ ground arith
  | inr (expected, e) ↦
      let six = last_gate (length w.gate_artifacts) expected e (ground arith) in
      let grows =
        set-length g6 expected result.artifact_sha256 gate_names w.gate_artifacts refl h e
          (ground arith) in
      ground arith
]

claim-artifacts :
    (result : GateResult) (w : InstructionExperimentWorkflow)
    → (claim_authorization result w).1.gate_artifacts ≡ w.gate_artifacts
unfolding claim_authorization
claim-artifacts result w = ground arith

ending-artifacts :
    (terminal : ExperimentGate) (w : InstructionExperimentWorkflow)
    → (commit_terminal terminal w).1.gate_artifacts ≡ w.gate_artifacts
unfolding commit_terminal
ending-artifacts terminal w = ground arith

step-InOrder :
    (w : InstructionExperimentWorkflow) (call : Step)
    → InOrder w.gate_artifacts
    → InOrder (step w call).gate_artifacts
unfolding step
step-InOrder w (claiming result) h = rw (claim-artifacts result w) h
step-InOrder w (advancing gate result) h = advance-InOrder gate result w h
step-InOrder w (ending terminal) h = rw (ending-artifacts terminal w) h
step-InOrder w (marking gate) h = h
step-InOrder w (staging design) h = h

-- Whatever the calls, the gates that have artifacts are the first ones of G0 to G6, in order and
-- each once, if they were before.
pub run-InOrder :
    (w : InstructionExperimentWorkflow) (calls : List Step)
    → InOrder w.gate_artifacts
    → InOrder (run w calls).gate_artifacts
unfolding run
run-InOrder w [] h = h
run-InOrder w (call ∷ calls) h = run-InOrder (step w call) calls (step-InOrder w call h)

-- A call of one of the three methods, not an assignment.
abbrev pub is_method : Step → Bool
is_method (marking _) = false
is_method (staging _) = false
is_method _ = true

abbrev pub all_methods : List Step → Bool
all_methods [] = true
all_methods (call ∷ calls) = is_method call && all_methods calls

-- What a terminal workflow keeps.
pub record Ended (w w' : InstructionExperimentWorkflow) : Type 0 where
  pub terminal : w'.terminal_committed ≡ true
  pub gate : w'.gate ≡ w.gate
  pub artifacts : w'.gate_artifacts ≡ w.gate_artifacts
  pub prior : w'.prior_sha256 ≡ w.prior_sha256

step-Ended :
    (w : InstructionExperimentWorkflow) (call : Step)
    → w.terminal_committed ≡ true
    → is_method call ≡ true
    → Ended w (step w call)
unfolding step claim_authorization advance_gate commit_terminal
step-Ended w (claiming result) t m = ground arith
step-Ended w (advancing gate result) t m = ground arith
step-Ended w (ending terminal) t m = ground arith
step-Ended w (marking gate) t m = cc
step-Ended w (staging design) t m = cc

Ended-trans : (u v w : InstructionExperimentWorkflow) → Ended u v → Ended v w → Ended u w
Ended-trans u v w h k =
    ground (arith, h.gate, h.artifacts, h.prior, k.gate, k.artifacts, k.prior, k.terminal)

-- After the terminal state is committed, calls of `_claim_authorization`, `_advance_gate` and
-- `_commit_terminal` in any order leave the gate, the artifacts and the prior hash as they are.
pub terminal_is_final :
    (w : InstructionExperimentWorkflow) (calls : List Step)
    → w.terminal_committed ≡ true
    → all_methods calls ≡ true
    → Ended w (run w calls)
unfolding run
terminal_is_final w [] t m = record { terminal = t; gate = refl; artifacts = refl; prior = refl }
terminal_is_final w (call ∷ calls) t m =
    let first = step-Ended w call t (ground arith) in
    Ended-trans w (step w call) (run (step w call) calls) first
      (terminal_is_final (step w call) calls first.terminal (ground arith))
