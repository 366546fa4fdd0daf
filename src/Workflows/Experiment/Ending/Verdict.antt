-- ===== src/Workflows/Experiment/Ending/Verdict.antt =====
-- What the result of `InstructionExperimentWorkflow.run` says of the experiment.
use instruct_eval.Common.{
  ℕ, String, ◌≡◌, refl, sym, ap, ◌∙◌, Bool, true, false, not, ◌&&◌, ◌||◌, ◌==◌, eq_iff, string_eq,
  Option, none, some, List, [], ◌∷◌, arith, if◌then◌else◌, length, map, nat_eq,
}
use instruct_eval.Exec.{ok, err}
use instruct_eval.Exec.Ensures.{Ensures, Ensures-returns, Ensures-raises}
use instruct_eval.Workflows.Experiment.{
  ExperimentGate, g0, g1, g2, g3, g4, g5, g6, initializing, frozen, releasing, design_rejected,
  authorized, completed_not_authorized, scoring_rejected, protocol_failure, canceled,
  ExperimentInput, InstructionExperimentWorkflow, WorkflowError, same_gate, gate_number, gate_names,
  name_at, is_terminal_gate, new,
}
use instruct_eval.Workflows.Experiment.Gates.{InOrder, Follows, artifact_gates, is_fresh}
use instruct_eval.Workflows.Experiment.Decisions.{World}
use instruct_eval.Workflows.Experiment.Trials.{TrialWorld}
use instruct_eval.Workflows.Experiment.Sound.{Live, new-Live}
use instruct_eval.Workflows.Experiment.Ends.{Ends}
use instruct_eval.Workflows.Experiment.Stages.{ExperimentResult, artifact_of}
use instruct_eval.Workflows.Experiment.Run.{cancel_at, run, handle_cancellation, is_released_gate}
use instruct_eval.Workflows.Experiment.Ending.{is_release_end}
use instruct_eval.Workflows.Experiment.Ending.Run.{
  run-Ends, handle_cancellation-Ends, cancel_released, cancel_unreleased, is_canceled,
}

-- all gates, each at its number
abbrev all_gates : List ExperimentGate
all_gates =
    g0 ∷ g1 ∷ g2 ∷ g3 ∷ g4 ∷ g5 ∷ g6 ∷ initializing ∷ frozen ∷ releasing ∷ design_rejected
    ∷ authorized ∷ completed_not_authorized ∷ scoring_rejected ∷ protocol_failure ∷ canceled ∷ []

name_at-gate_number : (gate : ExperimentGate) → name_at (gate_number gate) all_gates ≡ some gate
unfolding name_at
name_at-gate_number g0 = refl
name_at-gate_number g1 = refl
name_at-gate_number g2 = refl
name_at-gate_number g3 = refl
name_at-gate_number g4 = refl
name_at-gate_number g5 = refl
name_at-gate_number g6 = refl
name_at-gate_number initializing = refl
name_at-gate_number frozen = refl
name_at-gate_number releasing = refl
name_at-gate_number design_rejected = refl
name_at-gate_number authorized = refl
name_at-gate_number completed_not_authorized = refl
name_at-gate_number scoring_rejected = refl
name_at-gate_number protocol_failure = refl
name_at-gate_number canceled = refl

same_gate_lem : (a b : ExperimentGate) → same_gate a b ≡ true → a ≡ b
same_gate_lem a b h =
    let numbers : gate_number a ≡ gate_number b = ground arith in
    let found : some a ≡ some b =
      sym (name_at-gate_number a) ∙ ap (λ n. name_at n all_gates) numbers ∙ name_at-gate_number b in
    cc

-- Artifacts that follow names, as many of them, are those of the names.
Follows-all :
    (names : List ExperimentGate) (artifacts : List (ExperimentGate × String))
    → Follows names artifacts
    → length artifacts ≡ length names
    → map (λ (item : ExperimentGate × String). item.0) artifacts ≡ names
Follows-all [] [] h e = refl
Follows-all [] (item ∷ items) h e = absurd h
Follows-all (name ∷ names) [] h e = ground arith
Follows-all (name ∷ names) (item ∷ items) h e =
    let first = same_gate_lem item.0 name h.0 in
    let others = Follows-all names items h.1 (ground arith) in cc

-- whether a hash is that of an artifact of a gate
pub has_artifact : ExperimentGate → String → List (ExperimentGate × String) → Bool
has_artifact gate hash [] = false
has_artifact gate hash (item ∷ items) =
    (same_gate item.0 gate && item.1 == hash) || has_artifact gate hash items

has_artifact-artifact_of :
    (gate : ExperimentGate) (hash : String) (artifacts : List (ExperimentGate × String))
    → artifact_of gate artifacts ≡ some hash
    → has_artifact gate hash artifacts ≡ true
unfolding artifact_of has_artifact
has_artifact-artifact_of gate hash [] h = absurd (let no : ⊥ = cc in no)
has_artifact-artifact_of gate hash (item ∷ items) h =
    found (same_gate item.0 gate) h (has_artifact-artifact_of gate hash items)
  where
    found :
        (b : Bool)
        → (if b then some item.1 else artifact_of gate items) ≡ some hash
        → (artifact_of gate items ≡ some hash → has_artifact gate hash items ≡ true)
        → ((b && item.1 == hash) || has_artifact gate hash items) ≡ true
    found true e k =
        let same : item.1 ≡ hash = cc in
        let equal : (item.1 == hash) ≡ true = (eq_iff item.1 hash).1 same in ground (arith, equal)
    found false e k = k e

-- A gate that has no artifact is none of those that have.
artifact_of-none :
    (gate : ExperimentGate) (artifacts : List (ExperimentGate × String))
    → artifact_of gate artifacts ≡ none
    → is_fresh gate (map (λ (item : ExperimentGate × String). item.0) artifacts) ≡ true
unfolding artifact_of
artifact_of-none gate [] h = refl
artifact_of-none gate (item ∷ items) h =
    let left = missing (same_gate item.0 gate) item.1 (artifact_of gate items) h in
    rw left.0 (artifact_of-none gate items left.1)
  where
    missing :
        (b : Bool) (hash : String) (others : Option String)
        → (if b then some hash else others) ≡ none
        → (b ≡ false) × (others ≡ none)
    missing true hash others h = absurd (let no : ⊥ = cc in no)
    missing false hash others h = (refl, h)

-- The result has the hash of the artifact of G6.
abbrev pub Released : ExperimentResult → InstructionExperimentWorkflow → Type 0
Released end w =
    (hash : String) × (end.artifact_sha256 ≡ some hash)
    × (has_artifact g6 hash w.gate_artifacts ≡ true)

authorized_complete :
    (end : ExperimentResult) (w : InstructionExperimentWorkflow)
    → Ends is_terminal_gate end w
    → end.status ≡ authorized
    → (w.authorization_claimed ≡ true) × (artifact_gates w ≡ gate_names) × Released end w
authorized_complete end w h e =
    let gate : w.gate ≡ authorized = sym h.status ∙ e in
    let seven : length w.gate_artifacts ≡ 7 = h.closed.complete (rw gate refl) in
    let gates : artifact_gates w ≡ gate_names =
      Follows-all gate_names w.gate_artifacts h.closed.in_order seven in
    (
      claimed_lem w.authorization_claimed h.closed.claimed seven,
      gates,
      released (artifact_of g6 w.gate_artifacts) refl gates,
    )
  where
    released :
        (found : Option String)
        → artifact_of g6 w.gate_artifacts ≡ found
        → artifact_gates w ≡ gate_names
        → Released end w
    released none missing gates =
        let fresh = artifact_of-none g6 w.gate_artifacts missing in
        let all = ap (is_fresh g6) gates in absurd (let no : ⊥ = ground (arith, all, fresh) in no)
    released (some hash) found gates =
        (hash, h.artifact ∙ found, has_artifact-artifact_of g6 hash w.gate_artifacts found)

    claimed_lem : (claimed : Bool) {n : ℕ} → (claimed ≡ false → n ≡ 0) → n ≡ 7 → claimed ≡ true
    claimed_lem true h e = refl
    claimed_lem false h e = ground (arith, h refl)

same_canceled : (gate : ExperimentGate) → same_gate gate canceled ≡ is_canceled gate
same_canceled gate = ground arith

same_released :
    (gate : ExperimentGate)
    → (same_gate gate authorized
        || same_gate gate completed_not_authorized
        || same_gate gate protocol_failure)
      ≡ is_release_end gate
same_released gate = ground arith

released_gates :
    (gate : ExperimentGate)
    → is_released_gate gate ≡ (same_gate gate releasing || same_gate gate g5 || same_gate gate g6)
released_gates gate = ground arith

ended_release : (gate : ExperimentGate) → is_release_end gate ≡ true → is_canceled gate ≡ false
ended_release gate h = ground arith

ended_canceled : (gate : ExperimentGate) → is_canceled gate ≡ true → is_release_end gate ≡ false
ended_canceled gate h = ground arith

module _ ⦃world : World⦄ where
  -- If the run of an experiment returns a result, the experiment has committed its terminal state,
  -- its gate is the status of the result and one of the six terminal gates, and its artifacts are
  -- those of the first gates in order.
  pub run-terminal :
      (trial_world : TrialWorld) (input : ExperimentInput) {end : ExperimentResult}
      → (run trial_world (new input)).0 ≡ ok end
      → ((run trial_world (new input)).1.terminal_committed ≡ true)
        × ((run trial_world (new input)).1.gate ≡ end.status)
        × (is_terminal_gate end.status ≡ true)
        × InOrder (run trial_world (new input)).1.gate_artifacts
  run-terminal trial_world input {end} e =
      let h =
        Ensures-returns (run trial_world) (new input) (run-Ends trial_world) (new-Live input) e in
      (h.closed.ended, sym h.status, h.listed, h.closed.in_order)

  -- If the run of an experiment raises, no terminal state is committed, the gate is no terminal
  -- gate, and the artifacts are those of the first gates in order.
  pub run-raises :
      (trial_world : TrialWorld) (input : ExperimentInput) {e : WorkflowError}
      → (run trial_world (new input)).0 ≡ err e
      → ((run trial_world (new input)).1.terminal_committed ≡ false)
        × (is_terminal_gate (run trial_world (new input)).1.gate ≡ false)
        × InOrder (run trial_world (new input)).1.gate_artifacts
  run-raises trial_world input {e} r =
      let h =
        Ensures-raises (run trial_world) (new input) (run-Ends trial_world) (new-Live input) r in
      (h.opened, h.ongoing, h.in_order)

  -- If the run of an experiment returns AUTHORIZED, whatever its activities give and whatever
  -- decisions come in, its authorization is claimed, its artifacts are those of G0 to G6 in this
  -- order, each once, and the result has the hash of an artifact of G6.
  pub run-authorized :
      (trial_world : TrialWorld) (input : ExperimentInput) {end : ExperimentResult}
      → (run trial_world (new input)).0 ≡ ok end
      → end.status ≡ authorized
      → ((run trial_world (new input)).1.authorization_claimed ≡ true)
        × (artifact_gates (run trial_world (new input)).1 ≡ gate_names)
        × ((hash : String) × (end.artifact_sha256 ≡ some hash)
            × (has_artifact g6 hash (run trial_world (new input)).1.gate_artifacts ≡ true))
  run-authorized trial_world input {end} r s =
      authorized_complete end (run trial_world (new input)).1
        (Ensures-returns (run trial_world) (new input) (run-Ends trial_world) (new-Live input) r) s

  -- A cancellation of a running experiment, if it returns a result, ends it as CANCELED exactly
  -- where its gate is none of RELEASING, G5 and G6, and as AUTHORIZED, COMPLETED_NOT_AUTHORIZED or
  -- PROTOCOL_FAILURE exactly where it is one of them.
  pub handle_cancellation-status :
      (w : InstructionExperimentWorkflow) {end : ExperimentResult}
      → Live w
      → (handle_cancellation w).0 ≡ ok end
      → (same_gate end.status canceled
          ≡ not (same_gate w.gate releasing || same_gate w.gate g5 || same_gate w.gate g6))
        × ((same_gate end.status authorized
              || same_gate end.status completed_not_authorized
              || same_gate end.status protocol_failure)
            ≡ (same_gate w.gate releasing || same_gate w.gate g5 || same_gate w.gate g6))
  handle_cancellation-status w {end} live r =
      let statuses = by_gate (is_released_gate w.gate) refl in
      let gates = released_gates w.gate in
      (
        same_canceled end.status ∙ statuses.0 ∙ ap not gates,
        same_released end.status ∙ statuses.1 ∙ gates,
      )
    where
      ends :
          (S : ExperimentGate → Bool)
          → Ensures Live (cancel_at w.gate) (Ends S) Live
          → S end.status ≡ true
      ends S h =
          let found =
            Ensures-returns handle_cancellation w (handle_cancellation-Ends S w.gate h) (live, refl)
              r in
          found.listed

      by_gate :
          (released : Bool)
          → is_released_gate w.gate ≡ released
          → (is_canceled end.status ≡ not (is_released_gate w.gate))
            × (is_release_end end.status ≡ is_released_gate w.gate)
      by_gate true g =
          let listed = ends is_release_end (cancel_released w.gate g) in
          (ground (arith, ended_release end.status listed))
      by_gate false g =
          let listed = ends is_canceled (cancel_unreleased w.gate g) in
          (ground (arith, ended_canceled end.status listed))
