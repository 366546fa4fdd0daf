-- ===== src/Workflows/Experiment/Ends.antt =====
-- How `InstructionExperimentWorkflow` records a gate and how it ends.
use instruct_eval.Workflows.Experiment.Sound.{Live-then, Ready-then, Live, Closed, Ready}
use instruct_eval.Workflows.Experiment.Stages.{
  artifact_of, ExperimentResult, Next, finished, continued, experiment_result, terminal_result,
  reject_at,
}
use instruct_eval.Common.{String, ◌≡◌, refl, ap, ◌∙◌, Bool, true, false, arith, length, nat_eq}
use instruct_eval.Exec.{Result, ok, err, pure, modify, ◌>>=◌, ◌>>◌}
use instruct_eval.Exec.Ensures.{Post, Ensures, Ensures-bind, Ensures-weaken}
use instruct_eval.Workflows.Experiment.{
  ExperimentGate, g6, authorized, InstructionExperimentWorkflow, Workflow, WorkflowError,
  GateResult, same_gate, advance_gate, commit_terminal, is_terminal_gate,
}
use instruct_eval.Workflows.Experiment.Decisions.{World}
use instruct_eval.Workflows.Experiment.Gates.{advance-InOrder, advance_complete}
use instruct_eval.Workflows.Experiment.Quiet.{quiet_rules, commit_gate-Quiet}

advance-opened :
    (gate : ExperimentGate) (result : GateResult) (w : InstructionExperimentWorkflow)
    → (advance_gate gate result w).1.terminal_committed ≡ w.terminal_committed
unfolding advance_gate
advance-opened gate result w = ground arith

advance-ongoing :
    (gate : ExperimentGate) (result : GateResult) (w : InstructionExperimentWorkflow)
    → is_terminal_gate gate ≡ false
    → is_terminal_gate w.gate ≡ false
    → is_terminal_gate (advance_gate gate result w).1.gate ≡ false
unfolding advance_gate
advance-ongoing gate result w g h = ground arith

advance-claimed :
    (gate : ExperimentGate) (result : GateResult) (w : InstructionExperimentWorkflow)
    → (w.authorization_claimed ≡ false → length w.gate_artifacts ≡ 0)
    → (advance_gate gate result w).1.authorization_claimed ≡ false
    → length (advance_gate gate result w).1.gate_artifacts ≡ 0
unfolding advance_gate
advance-claimed gate result w h c = ground arith

advance-Live :
    (gate : ExperimentGate) (result : GateResult) (w : InstructionExperimentWorkflow)
    → is_terminal_gate gate ≡ false
    → Live w
    → Live (advance_gate gate result w).1
advance-Live gate result w g h = record {
  in_order = advance-InOrder gate result w h.in_order;
  claimed = advance-claimed gate result w h.claimed;
  opened = advance-opened gate result w ∙ h.opened;
  ongoing = advance-ongoing gate result w g h.ongoing;
}

-- What holds of the state of an action whatever it gives is ensured.
ensured :
    {A : Type 0} (Q : A → InstructionExperimentWorkflow → Type 0)
    (R : InstructionExperimentWorkflow → Type 0)
    (r : Result WorkflowError A × InstructionExperimentWorkflow)
    → ((a : A) → r.0 ≡ ok a → Q a r.1)
    → R r.1
    → Post Q R r
ensured Q R (ok a, w) q p = q a refl
ensured Q R (err e, w) q p = p

pub advance_gate-Live :
    (gate : ExperimentGate) (result : GateResult)
    → is_terminal_gate gate ≡ false
    → Ensures Live (advance_gate gate result) (λ _. Live) Live
advance_gate-Live gate result g = record {
  at = λ w h.
      let live = advance-Live gate result w g h in
      ensured _ Live (advance_gate gate result w) (λ _ _. live) live;
}

-- Once G6 is recorded, the experiment may end in any way.
pub advance_gate-Ready :
    (terminal : ExperimentGate) (result : GateResult)
    → Ensures Live (advance_gate g6 result) (λ _. Ready terminal) Live
advance_gate-Ready terminal result = record {
  at = λ w h.
      let live = advance-Live g6 result w refl h in
      ensured _ Live (advance_gate g6 result w)
        (λ _ o. record { live = live; complete = λ _. advance_complete result w h.in_order o })
        live;
}

-- The result of an experiment that has ended: its status is the terminal gate, one of those in `S`.
pub record Ends (S : ExperimentGate → Bool) (end : ExperimentResult)
    (w : InstructionExperimentWorkflow) : Type 0 where
  pub closed : Closed w
  pub status : end.status ≡ w.gate
  pub listed : S end.status ≡ true
  pub artifact : end.artifact_sha256 ≡ artifact_of g6 w.gate_artifacts

commit_terminal-Closed :
    (terminal : ExperimentGate)
    → is_terminal_gate terminal ≡ true
    → Ensures
        (Ready terminal)
        (commit_terminal terminal)
        (λ _ w. Closed w × (w.gate ≡ terminal))
        Live
unfolding commit_terminal
commit_terminal-Closed terminal t = record {
  at = λ w h.
      rw (t, h.live.opened)
        (
          record {
            in_order = h.live.in_order;
            claimed = h.live.claimed;
            ended = refl;
            final = t;
            complete = h.complete;
          },
          refl,
        );
}

experiment_result-Ends :
    (S : ExperimentGate → Bool) (terminal : ExperimentGate)
    → S terminal ≡ true
    → Ensures (λ w. Closed w × (w.gate ≡ terminal)) experiment_result (Ends S) Live
unfolding experiment_result artifact_of
experiment_result-Ends S terminal s = record {
  at = λ w h. record { closed = h.0; status = refl; listed = ap S h.1 ∙ s; artifact = refl };
}

commit_terminal-then :
    (S : ExperimentGate → Bool) (terminal : ExperimentGate)
    → is_terminal_gate terminal ≡ true
    → S terminal ≡ true
    → Ensures (Ready terminal) (do commit_terminal terminal; experiment_result) (Ends S) Live
commit_terminal-then S terminal t s =
    Ensures-bind (commit_terminal terminal) (λ _. experiment_result)
      (commit_terminal-Closed terminal t) (λ _. experiment_result-Ends S terminal s)

module _ ⦃world : World⦄ where
  pub terminal_result-Ends :
      (S : ExperimentGate → Bool) (terminal : ExperimentGate) (reason : String)
      → is_terminal_gate terminal ≡ true
      → S terminal ≡ true
      → Ensures (Ready terminal) (terminal_result terminal reason) (Ends S) Live
  unfolding terminal_result
  terminal_result-Ends S terminal reason t s =
      search (Ready-then, quiet_rules, commit_gate-Quiet, commit_terminal-then) depth 40

  -- A gate other than `authorized` needs nothing more than that the experiment runs.
  pub Live-Ready :
      (terminal : ExperimentGate) (w : InstructionExperimentWorkflow)
      → same_gate terminal authorized ≡ false
      → Live w
      → Ready terminal w
  Live-Ready terminal w n h = record { live = h; complete = λ e. ground arith }

  pub terminal_result-Live :
      (S : ExperimentGate → Bool) (terminal : ExperimentGate) (reason : String)
      → is_terminal_gate terminal ≡ true
      → S terminal ≡ true
      → same_gate terminal authorized ≡ false
      → Ensures Live (terminal_result terminal reason) (Ends S) Live
  terminal_result-Live S terminal reason t s n =
      Ensures-weaken (terminal_result terminal reason) (λ w h. Live-Ready terminal w n h)
        (λ a w h. h) (λ w h. h) (terminal_result-Ends S terminal reason t s)

-- what a stage gives: the result of an experiment that has ended, or one that is still live
abbrev pub NextEnds :
    {A : Type 0} → (ExperimentGate → Bool) → Next A → InstructionExperimentWorkflow → Type 0
NextEnds S (finished end) w = Ends S end w
NextEnds S (continued a) w = Live w

pub finished-Ends :
    {A : Type 0} (S : ExperimentGate → Bool) (end : ExperimentResult)
    → Ensures {E = WorkflowError} {A = Next A} (Ends S end) (pure (finished end)) (NextEnds S) Live
finished-Ends S end = record { at = λ w h. h }

pub continued-Ends :
    {A : Type 0} (S : ExperimentGate → Bool) (a : A)
    → Ensures {E = WorkflowError} {A = Next A} Live (pure (continued a)) (NextEnds S) Live
continued-Ends S a = record { at = λ w h. h }

-- a stage that ends with the result of an action
pub finish-Ends :
    {A : Type 0} (S : ExperimentGate → Bool) (m : Workflow ExperimentResult)
    → Ensures Live m (Ends S) Live
    → Ensures {A = Next A} Live (do end ← m; pure (finished end)) (NextEnds S) Live
finish-Ends S m h = Ensures-bind m (λ end. pure (finished end)) h (finished-Ends S)

-- the stage that takes what another has gone on with
pub Next-then :
    {A : Type 0} (S : ExperimentGate → Bool) (m : Workflow (Next A))
    (f : Next A → Workflow ExperimentResult)
    → Ensures Live m (NextEnds S) Live
    → ((end : ExperimentResult) → f (finished end) ≡ pure end)
    → ((a : A) → Ensures Live (f (continued a)) (Ends S) Live)
    → Ensures Live (m >>= f) (Ends S) Live
Next-then {A} S m f h e k = Ensures-bind m f h follow
  where
    follow : (next : Next A) → Ensures (NextEnds S next) (f next) (Ends S) Live
    follow (finished end) = rw (e end) (record { at = λ w h. h })
    follow (continued a) = k a

pub modify-Live :
    (f : InstructionExperimentWorkflow → InstructionExperimentWorkflow)
    → ((w : InstructionExperimentWorkflow) → Live w → Live (f w))
    → Ensures {E = WorkflowError} Live (modify f) (λ _. Live) Live
modify-Live f h = record { at = h }

module _ ⦃world : World⦄ where
  pub reject_at-Ends :
      {A : Type 0} (S : ExperimentGate → Bool) (gate terminal : ExperimentGate) (found : GateResult)
      (reason : String)
      → is_terminal_gate gate ≡ false
      → is_terminal_gate terminal ≡ true
      → S terminal ≡ true
      → same_gate terminal authorized ≡ false
      → Ensures {A = Next A} Live (reject_at gate found terminal reason) (NextEnds S) Live
  unfolding reject_at
  reject_at-Ends S gate terminal found reason g t s n =
      Live-then (advance_gate gate found) _ (advance_gate-Live gate found g) (λ _.
        finish-Ends S (terminal_result terminal reason)
          (terminal_result-Live S terminal reason t s n))
