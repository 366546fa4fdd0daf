-- ===== src/Workflows/Experiment/Sound.antt =====
-- What `InstructionExperimentWorkflow` is like while it runs and once it has ended, and how the
-- methods that change the gate take it from the one to the other.
use instruct_eval.Common.{◌≡◌, refl, ◌∙◌, true, false, length, nat_eq}
use instruct_eval.Exec.{Result, ok, err, ◌>>=◌}
use instruct_eval.Exec.Ensures.{Post, Ensures, Ensures-bind, Ensures-weaken}
use instruct_eval.Workflows.Experiment.{
  ExperimentGate, authorized, ExperimentInput, InstructionExperimentWorkflow, Workflow,
  WorkflowError, same_gate, is_terminal_gate, new,
}
use instruct_eval.Workflows.Experiment.Gates.{InOrder}
use instruct_eval.Workflows.Experiment.Quiet.{Quiet, Same}

-- An experiment that has not ended: its artifacts are those of the first gates, and it has none
-- unless it has claimed its authorization.
pub record Live (w : InstructionExperimentWorkflow) : Type 0 where
  pub in_order : InOrder w.gate_artifacts
  pub claimed : w.authorization_claimed ≡ false → length w.gate_artifacts ≡ 0
  pub opened : w.terminal_committed ≡ false
  pub ongoing : is_terminal_gate w.gate ≡ false

-- An experiment that has ended: it is authorized only with the artifacts of all seven gates.
pub record Closed (w : InstructionExperimentWorkflow) : Type 0 where
  pub in_order : InOrder w.gate_artifacts
  pub claimed : w.authorization_claimed ≡ false → length w.gate_artifacts ≡ 0
  pub ended : w.terminal_committed ≡ true
  pub final : is_terminal_gate w.gate ≡ true
  pub complete : same_gate w.gate authorized ≡ true → length w.gate_artifacts ≡ 7

-- what a terminal gate needs
pub record Ready (terminal : ExperimentGate) (w : InstructionExperimentWorkflow) : Type 0 where
  pub live : Live w
  pub complete : same_gate terminal authorized ≡ true → length w.gate_artifacts ≡ 7

pub new-Live : (input : ExperimentInput) → Live (new input)
new-Live input = record { in_order = tt; claimed = λ _. refl; opened = refl; ongoing = refl }

pub Live-by :
    (w w' : InstructionExperimentWorkflow)
    → is_terminal_gate w'.gate ≡ false
    → w'.authorization_claimed ≡ w.authorization_claimed
    → w'.terminal_committed ≡ w.terminal_committed
    → w'.gate_artifacts ≡ w.gate_artifacts
    → Live w
    → Live w'
Live-by w w' g c t a h = record {
  in_order = rw a h.in_order;
  claimed = rw (a, c) h.claimed;
  opened = t ∙ h.opened;
  ongoing = g;
}

pub Same-Live : (w w' : InstructionExperimentWorkflow) → Same w w' → Live w → Live w'
Same-Live w w' s h =
    let ongoing : is_terminal_gate w'.gate ≡ false = rw s.gate h.ongoing in
    Live-by w w' ongoing s.claimed s.terminal s.artifacts h

pub Same-Ready :
    (terminal : ExperimentGate) (w w' : InstructionExperimentWorkflow)
    → Same w w'
    → Ready terminal w
    → Ready terminal w'
Same-Ready terminal w w' s h = record {
  live = Same-Live w w' s h.live;
  complete = rw s.artifacts h.complete;
}

-- What holds of the gate, the claim, the artifacts and the terminal state holds after a quiet action.
pub Quiet-Ensures :
    {A : Type 0} {m : Workflow A} {P : InstructionExperimentWorkflow → Type 0}
    → ((w w' : InstructionExperimentWorkflow) → Same w w' → P w → P w')
    → Quiet m
    → Ensures P m (λ _. P) P
Quiet-Ensures {A} {m} {P} keep quiet = record {
  at = λ w p. kept (m w) (keep w (m w).1 (quiet.at w) p);
}
  where
    kept : (r : Result WorkflowError A × InstructionExperimentWorkflow) → P r.1 → Post (λ _. P) P r
    kept (ok a, w) p = p
    kept (err e, w) p = p

pub Quiet-Live : {A : Type 0} {m : Workflow A} → Quiet m → Ensures Live m (λ _. Live) Live
Quiet-Live quiet = Quiet-Ensures Same-Live quiet

pub Quiet-Ready :
    {A : Type 0} {m : Workflow A} (terminal : ExperimentGate)
    → Quiet m
    → Ensures (Ready terminal) m (λ _. Ready terminal) Live
Quiet-Ready {A} {m} terminal quiet =
    Ensures-weaken m (λ s h. h) (λ a s h. h) (λ s h. h.live)
      (Quiet-Ensures (Same-Ready terminal) quiet)

-- an action after one that keeps the experiment live
pub Live-then :
    {A B : Type 0} {Q : B → InstructionExperimentWorkflow → Type 0} (m : Workflow A)
    (f : A → Workflow B)
    → Ensures Live m (λ _. Live) Live
    → ((a : A) → Ensures Live (f a) Q Live)
    → Ensures Live (m >>= f) Q Live
Live-then m f h k = Ensures-bind m f h k

-- an action after a quiet one
pub Ready-then :
    {A B : Type 0} {Q : B → InstructionExperimentWorkflow → Type 0} (terminal : ExperimentGate)
    (m : Workflow A) (f : A → Workflow B)
    → Quiet m
    → ((a : A) → Ensures (Ready terminal) (f a) Q Live)
    → Ensures (Ready terminal) (m >>= f) Q Live
Ready-then terminal m f h k = Ensures-bind m f (Quiet-Ready terminal h) k
