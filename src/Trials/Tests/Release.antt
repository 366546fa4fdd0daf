-- ===== src/Trials/Tests/Release.antt =====
-- The release of a map with one assignment.
use instruct_eval.Trials.Release.{
  release_g5, released_packet, PrivateAssignment, map_sha256, released_assignment,
  released_assignments, FrozenPrivateMap, TrialLibrary, subject_artifact_kinds, validate_inventory,
  validate_items, inventory_item_key, expected_inventory,
}
use instruct_eval.Trials.Release.Outcome.{Covers, IsSealed, release_g5-Lists}
use instruct_eval.Common.{
  some, Bool, true, ◌++◌, count_where, String, ◌≡◌, ◌↔◌, refl, List, [], ◌∷◌, map, ℕ, zero, suc,
}
use instruct_eval.Workflows.Json.{
  is_member, get, option_value_beq, Payload, Value, text, other, value_beq,
}
use instruct_eval.Workflows.Experiment.Results.{is_sorted, every}
use instruct_eval.Trials.Release.Order.{blind_id_of, released_assignments-sorted}
use instruct_eval.Exec.{ok}
use instruct_eval.Coordination.Library.{Bytes}
use instruct_eval.Coordination.Checks.{is_digest}
use instruct_eval.Trials.Release.Inventory.{Lists, validate_inventory-Lists}

abbrev hash : String
hash = "3333333333333333333333333333333333333333333333333333333333333333"

abbrev frozen_map : FrozenPrivateMap
frozen_map = record {
  campaign_id = "campaign";
  experiment_id = "experiment";
  workflow_identity = text "workflow";
  pre_map_input_hash = hash;
  seed = "seed";
  assignment_order = "core-1-A-1" ∷ [];
  assignments =
      record {
        assignment_id = "core-1-A-1";
        scenario = "core-1";
        condition = "A";
        blind_id = "blind";
        token = "token";
      }
      ∷ [];
  preferred_directions = [];
  freeze_chain = hash;
}

abbrev library : TrialLibrary
library = record { sha = λ packet. hash; authenticate = λ key prefix packet. "code" }

abbrev key_bytes : ℕ → Bytes
key_bytes zero = []
key_bytes (suc n) = 0 ∷ key_bytes n

abbrev artifact : Value → String → Payload
artifact token kind =
    ("campaign_id", text "campaign")
    ∷ ("experiment_id", text "experiment")
    ∷ ("token", token)
    ∷ ("artifact_kind", text kind)
    ∷ ("artifact_sha256", text hash)
    ∷ ("commitment", text "code")
    ∷ []

abbrev inventory : List Payload
inventory = artifact (other "null") "map" ∷ map (artifact (text "token")) subject_artifact_kinds

inventory_accepted :
    (validate_inventory ⦃library = library⦄ frozen_map (key_bytes 32) inventory tt).0 ≡ ok tt
unfolding validate_inventory validate_items inventory_item_key expected_inventory every is_digest
    value_beq is_member map_sha256
inventory_accepted = refl

validate_inventory-Lists_example :
    ((validate_inventory ⦃library = library⦄ frozen_map (key_bytes 32) inventory tt).0 ≡ ok tt)
    ↔ Lists ⦃library = library⦄ frozen_map (key_bytes 32) inventory
validate_inventory-Lists_example =
    validate_inventory-Lists ⦃library = library⦄ frozen_map (key_bytes 32) inventory

abbrev second : PrivateAssignment
second = record {
  assignment_id = "core-1-A-2";
  scenario = "core-1";
  condition = "A";
  blind_id = "another";
  token = "other";
}

abbrev two_assigned : FrozenPrivateMap
two_assigned = record frozen_map { assignments = frozen_map.assignments ++ second ∷ [] }

abbrev directions : Payload
directions = ("token", text "left") ∷ ("other", text "right") ∷ []

abbrev goes_left : Payload → Bool
goes_left packet = option_value_beq (get "direction" packet) (some (text "left"))

released_assignments-sorted_example :
    (is_sorted (map blind_id_of (released_assignments two_assigned directions)) ≡ true)
    × (count_where goes_left (released_assignments two_assigned directions)
        ≡ count_where
            (λ (a : PrivateAssignment). goes_left (released_assignment directions a).1)
            two_assigned.assignments)
released_assignments-sorted_example = released_assignments-sorted two_assigned directions goes_left

abbrev covered : Payload
covered = ("token", text "left") ∷ []

abbrev released : Payload
released =
    released_packet ⦃library = library⦄ frozen_map covered ++ ("release_sha256", text hash) ∷ []

release_g5_returns :
    (release_g5 ⦃library = library⦄ frozen_map inventory (key_bytes 32) covered tt).0 ≡ ok released
unfolding release_g5 validate_inventory validate_items inventory_item_key expected_inventory every
    is_digest value_beq is_member map_sha256
release_g5_returns = refl

release_g5-Lists_example :
    Lists ⦃library = library⦄ frozen_map (key_bytes 32) inventory
    × Covers frozen_map covered
    × IsSealed ⦃library = library⦄ frozen_map covered released
release_g5-Lists_example =
    release_g5-Lists ⦃library = library⦄ frozen_map (key_bytes 32) inventory covered
      release_g5_returns
