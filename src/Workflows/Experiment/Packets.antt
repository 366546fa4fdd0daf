-- ===== src/Workflows/Experiment/Packets.antt =====
-- The checks of workflows.py on the packets that come in: public inputs, outcomes of trials, blind
-- scores, the release of G5 and the lifecycle of the map.
use Prim.Native.Char.{code}
use Prim.Native.String
use instruct_eval.Common.{
  String, Bool, true, false, not, ◌&&◌, ◌||◌, some, List, [], ◌∷◌, ◌==◌, nat_eq, string_eq,
  option_eq, if◌then◌else◌,
}
use instruct_eval.Exec.{pure, raise_if, modify, gets, ◌>>=◌, ◌>>◌}
use instruct_eval.Workflows.Json.{
  Value, Values, Items, Payload, text, sequence, mapping, no_values, value, no_items, item, items,
  get, option_value_beq, is_member, keys_within, has_keys, has_key, has_exactly,
}
use instruct_eval.Workflows.Experiment.{
  Workflow, check_artifact, invalid_input, authorization_fields,
}
use instruct_eval.Workflows.Experiment.Decisions.{World}

-- `_FORBIDDEN_PUBLIC_FIELDS`
abbrev forbidden_public_fields : List String
forbidden_public_fields =
    "private" ∷ "private_map" ∷ "private_join" ∷ "private_evidence" ∷ "blind_id_join" ∷ "blind_ids"
    ∷ "raw_evidence" ∷ "condition_join" ∷ "condition_assignment" ∷ "condition_assignments"
    ∷ "conditions" ∷ "condition" ∷ "preferred_direction" ∷ "preferred_directions"
    ∷ "preferred_direction_assignment" ∷ "preferred_direction_assignments" ∷ "quarantine"
    ∷ "quarantined" ∷ []

-- `text.replace("-", "_")`
unfoldable pub replace_dashes : String → String
replace_dashes String.[] = String.[]
replace_dashes (String.◌∷◌ c s) =
    if code c == b'-' then String.◌++◌ "_" (replace_dashes s) else String.◌∷◌ c (replace_dashes s)

-- `text.startswith(prefix)`
unfoldable pub starts_with : String → String → Bool
starts_with String.[] s = true
starts_with (String.◌∷◌ c p) String.[] = false
starts_with (String.◌∷◌ c p) (String.◌∷◌ d s) = code c == code d && starts_with p s

-- whether a key, once lower-case and without dashes, may stand in a public packet
abbrev is_public_name : String → Bool
is_public_name name = not (
    is_member name forbidden_public_fields
    || starts_with "condition_" name
    || starts_with "preferred_direction_" name)

module _ ⦃world : World⦄ where
  -- `validate` of `_public_packet`
  unfoldable mutual
    unfolding is_member starts_with replace_dashes

    pub is_public : Value → Bool
    is_public (mapping fields) = are_public_items fields
    is_public (sequence vs) = are_public vs
    is_public _ = true

    pub are_public : Values → Bool
    are_public no_values = true
    are_public (value v vs) = is_public v && are_public vs

    pub are_public_items : Items → Bool
    are_public_items no_items = true
    are_public_items (item key v rest) =
        is_public_name (replace_dashes (world.lower key)) && is_public v && are_public_items rest

  -- `_public_packet`
  unfoldable pub check_public : Payload → Workflow (Unit {0})
  check_public packet = raise_if (not (are_public_items (items packet))) invalid_input

  -- `_initialize` for the input of the run
  unfoldable pub initialize : Workflow (Unit {0})
  unfolding check_public get has_key keys_within has_keys
  initialize = do
    done ← gets (λ w. w.initialized)
    if done then pure tt else do
      input ← gets (λ w. w.input)
      raise_if
          (input.campaign_id == ""
            || input.experiment_id == ""
            || input.model_identity == ""
            || input.runtime_identity == "")
          invalid_input
      check_artifact input.claim_sha256
      check_artifact input.coverage_sha256
      check_public input.claim
      raise_if (not (world.canonical_hash input.claim == input.claim_sha256)) invalid_input
      raise_if
          (not (
            option_value_beq (get "coverage_sha256" input.claim)
              (some (text input.coverage_sha256))))
          invalid_input
      check_public input.public_input
      raise_if (not (has_exactly authorization_fields input.authorization)) invalid_input
      check_public input.authorization
      modify (λ w. record w { initialized = true })
