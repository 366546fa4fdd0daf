-- ===== src/Workflows/Experiment/Design.antt =====
-- The later stages of `InstructionExperimentWorkflow`, from the design to the freeze of the map.
use instruct_eval.Common.{
  String, Bool, true, false, not, ◌||◌, Option, none, some, [], ◌∷◌, map, nat_eq, string_eq,
  option_eq, if◌then◌else◌,
}
use instruct_eval.Exec.{pure, modify, gets, or_raise, ◌>>=◌, ◌>>◌}
use instruct_eval.Workflows.Json.{Payload, text, sequence, values, get, is_flag, option_value_beq}
use instruct_eval.Workflows.Experiment.{
  g0, g1, g2, frozen, design_rejected, GateResult, Workflow, advance_gate, proposal_unavailable,
  key_error, assertion_error,
}
use instruct_eval.Workflows.Experiment.Decisions.{World, wait_condition}
use instruct_eval.Workflows.Experiment.Results.{record_map_lifecycle}
use instruct_eval.Workflows.Experiment.Stages.{
  Next, finished, continued, artifact_of, optional_text, execute_activity, commit_gate, with_input,
  terminal_result, reject_at,
}

-- what the stages after the design share: the design, its proposal and the record of G0
pub record Design : Type 0 where
  pub design_sha256 : String
  pub proposal_sha256 : String
  pub g0_record_sha256 : String

abbrev is_set {ℓ} : {A : Type ℓ} → Option A → Bool
is_set none = false
is_set (some _) = true

module _ ⦃world : World⦄ where
  -- the fields that the requests of G1, G2 and the freeze share
  abbrev design_fields : Design → Payload
  design_fields design =
      ("design_sha256", text design.design_sha256)
      ∷ ("proposal_sha256", text design.proposal_sha256)
      ∷ ("g0_record_sha256", text design.g0_record_sha256)
      ∷ []

  -- `_commit_design_gates` once G2 is committed
  unfoldable pub conclude_g2 : Design → GateResult → Workflow (Next Design)
  unfolding get
  conclude_g2 design found =
      if is_flag false (get "accepted" found.payload)
      then reject_at g2 found design_rejected "G2 rejected"
      else do
        advance_gate g2 found
        modify (λ w. record w {
          decision_revision_sha256 = found.artifact_sha256;
          outstanding_action = some "approve_freeze";
          outstanding_sequence = some 2;
        })
        wait_condition (λ w. not (is_set w.outstanding_action))
        pure (continued design)

  -- `_commit_design_gates` once G1 is committed
  unfoldable pub conclude_g1 : Design → GateResult → Workflow (Next Design)
  unfolding get conclude_g2
  conclude_g1 design found =
      if is_flag false (get "accepted" found.payload)
      then reject_at g1 found design_rejected "G1 rejected"
      else do
        advance_gate g1 found
        public_input ← gets (λ w. w.input.public_input)
        validity ←
            commit_gate "instruct_eval.pre_run_validity" "PreRunValidityRequest"
              (with_input public_input (("gate", text "G2") ∷ design_fields design)) none
        conclude_g2 design validity

  -- `_commit_design_gates`
  unfoldable pub commit_design_gates : Workflow (Next Design)
  unfolding conclude_g1
  commit_design_gates = do
    wait_condition (λ w. is_set w.frozen_design_sha256)
    staged ← gets (λ w. w.frozen_design_sha256)
    design_sha256 ← or_raise staged assertion_error
    proposal ← gets (λ w. w.outstanding_proposal_sha256)
    proposal_sha256 ← or_raise proposal proposal_unavailable
    record_of_g0 ← gets (λ w. artifact_of g0 w.gate_artifacts)
    g0_record_sha256 ← or_raise record_of_g0 key_error
    public_input ← gets (λ w. w.input.public_input)
    found ←
        commit_gate "instruct_eval.design_commit" "DesignCommitRequest"
          (with_input public_input (
            ("gate", text "G1")
            ∷ ("staged_design_sha256", text design_sha256)
            ∷ design_fields (record {
              design_sha256 = design_sha256;
              proposal_sha256 = proposal_sha256;
              g0_record_sha256 = g0_record_sha256;
            })))
          none
    conclude_g1
        (record {
          design_sha256 = design_sha256;
          proposal_sha256 = proposal_sha256;
          g0_record_sha256 = g0_record_sha256;
        })
        found

  -- whether the result of the freeze does not bind the design
  is_unbound_freeze : Design → Payload → Bool
  unfolding get
  is_unbound_freeze design payload =
      is_flag false (get "accepted" payload)
      || not (option_value_beq (get "design_sha256" payload) (some (text design.design_sha256)))

  -- the end of `_prepare_freeze`
  unfoldable pub freeze_or_reject : Bool → String → Workflow (Next String)
  freeze_or_reject true map_ref = do
    end ← terminal_result design_rejected "freeze binding failed"
    pure (finished end)
  freeze_or_reject false map_ref = do
    modify (λ w. record w { gate = frozen })
    pure (continued map_ref)

  -- `_prepare_freeze` once the freeze is committed
  unfoldable pub conclude_freeze : Design → String → GateResult → Workflow (Next String)
  unfolding is_unbound_freeze freeze_or_reject
  conclude_freeze design map_ref found = do
    modify (λ w. record w { prior_sha256 = found.artifact_sha256 })
    freeze_or_reject (is_unbound_freeze design found.payload) map_ref

  -- `_prepare_freeze`; it goes on with the reference of the map.
  unfoldable pub prepare_freeze : Design → Workflow (Next String)
  unfolding get conclude_freeze
  prepare_freeze design = do
    public_input ← gets (λ w. w.input.public_input)
    candidate ← or_raise (get "candidate_instruction" public_input) key_error
    manifest ← or_raise (get "fixture_manifest_hash" public_input) key_error
    prepared ← execute_activity "instruct_eval.map_lifecycle" (
        ("design_sha256", text design.design_sha256)
        ∷ ("candidate_instruction", candidate)
        ∷ ("fixture_manifest_hash", manifest)
        ∷ [])
    lifecycle ← record_map_lifecycle prepared.payload
    input_hash ← gets (λ w. w.pre_map_input_hash)
    rule_hash ← gets (λ w. w.authorization_rule_sha256)
    authorization ← gets (λ w. w.input.authorization)
    found ←
        commit_gate "instruct_eval.freeze" "FreezeRequest"
          (with_input public_input (
            ("commit", text "freeze")
            ∷ ("map_ref", text lifecycle.0)
            ∷ ("map_commitment", text lifecycle.1)
            ∷ ("tokens", sequence (values (map (λ (t : String). text t) lifecycle.2)))
            ∷ ("pre_map_input_hash", optional_text input_hash)
            ∷ ("authorization_rule_sha256", optional_text rule_hash)
            ∷ ("authorization_sha256", text (world.canonical_hash authorization))
            ∷ design_fields design))
          none
    conclude_freeze design lifecycle.0 found
