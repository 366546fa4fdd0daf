-- ===== src/Trials/Release.antt =====
-- The release of G5 in trials.py: the inventory of private artifacts, and the packet of the
-- assignments that it releases.
pub mod Keys
pub mod Inventory
pub mod Order
pub mod Outcome
use instruct_eval.Common.{
  ℕ, ◌+◌, String, Bool, true, false, not, ◌&&◌, ◌||◌, Option, none, some, List, [], ◌∷◌, ◌++◌, map,
  ◌==◌, nat_eq, string_eq, option_eq, if◌then◌else◌, length, Eq, ◌≡◌, refl,
}
use instruct_eval.Exec.{
  Exec, Result, ok, err, pure, raise, raise_if, modify, gets, or_raise, ◌>>=◌, ◌>>◌,
}
use instruct_eval.Coordination.Library.{Bytes}
use instruct_eval.Coordination.Checks.{is_digest}
use instruct_eval.Workflows.Json.{
  Value, Payload, text, flag, number, other, sequence, mapping, items, values, get, value_beq,
  option_value_beq, nonempty_text, is_member,
}
use instruct_eval.Workflows.Experiment.Results.{authorization_rule, every, text_leb}

-- The messages of `TrialProtocolError`, and Python's own `TypeError` on an unhashable
-- kind and `KeyError` on a missing direction.
pub data TrialError : Type 0 where
  invalid_descriptor invalid_key commitment_mismatch inventory_mismatch : TrialError
  incomplete_inventory uncovered_directions type_error key_error : TrialError

-- The functions of this part have no state.
abbrev pub Checked : Type 0 → Type 0
Checked A = Exec TrialError (Unit {0}) A

pub record PrivateAssignment : Type 0 where
  pub assignment_id : String
  pub scenario : String
  pub condition : String
  pub blind_id : String
  pub token : String

-- `FrozenPrivateMap`; the JSON of its workflow identity stands for it.
pub record FrozenPrivateMap : Type 0 where
  pub campaign_id : String
  pub experiment_id : String
  pub workflow_identity : Value
  pub pre_map_input_hash : String
  pub seed : String
  pub assignment_order : List String
  pub assignments : List PrivateAssignment
  pub preferred_directions : Payload
  pub freeze_chain : String

-- What trials.py takes from hashlib, hmac and base64: the hash of canonical JSON, and the code of a
-- key on a prefix and canonical JSON.
pub record TrialLibrary : Type 0 where
  pub sha : Payload → String
  pub authenticate : Bytes → String → Payload → String

-- `SUBJECT_ARTIFACT_KINDS`
abbrev pub subject_artifact_kinds : List String
subject_artifact_kinds =
    "outcome" ∷ "response" ∷ "runtime_streams" ∷ "tool_outputs" ∷ "diff" ∷ "verifier" ∷ "observer"
    ∷ "trusted_logs" ∷ []

abbrev assignment_json : PrivateAssignment → Value
assignment_json assignment = mapping (
    items (
      ("assignment_id", text assignment.assignment_id)
      ∷ ("scenario", text assignment.scenario)
      ∷ ("condition", text assignment.condition)
      ∷ ("blind_id", text assignment.blind_id)
      ∷ ("token", text assignment.token)
      ∷ []))

-- `FrozenPrivateMap.json`
map_json : FrozenPrivateMap → Payload
map_json m =
    ("schema", text "instruct-eval-private-map-v1")
    ∷ ("campaign_id", text m.campaign_id)
    ∷ ("experiment_id", text m.experiment_id)
    ∷ ("workflow_identity", m.workflow_identity)
    ∷ ("pre_map_input_hash", text m.pre_map_input_hash)
    ∷ ("seed", text m.seed)
    ∷ ("assignment_order", sequence (values (map (λ (t : String). text t) m.assignment_order)))
    ∷ ("assignments", sequence (values (map assignment_json m.assignments)))
    ∷ ("preferred_directions", mapping (items m.preferred_directions))
    ∷ ("freeze_chain", text m.freeze_chain)
    ∷ ("authorization_rule", authorization_rule)
    ∷ []

-- `PrivateArtifactDescriptorParams`, with whatever values an item of the inventory has
pub record DescriptorParams : Type 0 where
  pub campaign_id : Option Value
  pub experiment_id : Option Value
  pub token : Option Value
  pub artifact_kind : Option Value
  pub artifact_sha256 : Option Value

-- a key of the inventory: a token, a kind, and the digest of a map
abbrev pub InventoryKey : Type 0
InventoryKey = Option String × String × Option String

abbrev pub same_key : InventoryKey → InventoryKey → Bool
same_key a b = a.0 == b.0 && a.1 == b.1 && a.2 == b.2

abbrev pub has_inventory_key : InventoryKey → List InventoryKey → Bool
has_inventory_key key [] = false
has_inventory_key key (k ∷ ks) = same_key k key || has_inventory_key key ks

-- What `private_artifact_descriptor` finds of the token, the kind and the digest: a token exactly
-- where the kind is not that of a map.
abbrev is_unhashable : Option Value → Bool
is_unhashable (some (sequence _)) = true
is_unhashable (some (mapping _)) = true
is_unhashable _ = false

abbrev kind_of : Option Value → Option String
kind_of (some (text kind)) =
    if is_member kind ("map" ∷ subject_artifact_kinds) then some kind else none
kind_of _ = none

-- a token that fits a kind, or none that does
abbrev token_for : String → Option Value → Option (Option String)
token_for kind none = if kind == "map" then some none else none
token_for kind (some (other t)) = if (t == "null" && kind == "map") then some none else none
token_for kind (some (text token)) = if kind == "map" then none else some (some token)
token_for kind (some _) = none

abbrev digest_of : Option Value → Option String
digest_of (some (text digest)) = if is_digest digest then some digest else none
digest_of _ = none

pub record Descriptor : Type 0 where
  pub campaign_id : Option Value
  pub experiment_id : Option Value
  pub token : Option String
  pub artifact_kind : String
  pub artifact_sha256 : String

-- `private_artifact_descriptor`
unfoldable pub private_artifact_descriptor : DescriptorParams → Checked Descriptor
private_artifact_descriptor params = do
  raise_if (is_unhashable params.artifact_kind) type_error
  kind ← or_raise (kind_of params.artifact_kind) invalid_descriptor
  token ← or_raise (token_for kind params.token) invalid_descriptor
  digest ← or_raise (digest_of params.artifact_sha256) invalid_descriptor
  pure (record {
    campaign_id = params.campaign_id;
    experiment_id = params.experiment_id;
    token = token;
    artifact_kind = kind;
    artifact_sha256 = digest;
  })

abbrev null_or_text : Option String → Value
null_or_text none = other "null"
null_or_text (some t) = text t

-- the packet of a descriptor, for the campaign and the experiment of a map
abbrev descriptor_json : FrozenPrivateMap → Descriptor → Payload
descriptor_json m d =
    ("schema", text "instruct-eval-private-artifact-v1")
    ∷ ("campaign_id", text m.campaign_id)
    ∷ ("experiment_id", text m.experiment_id)
    ∷ ("token", null_or_text d.token)
    ∷ ("artifact_kind", text d.artifact_kind)
    ∷ ("artifact_sha256", text d.artifact_sha256)
    ∷ []

-- `str(item.get("commitment", ""))`, where that is a text
abbrev commitment_of : Payload → Option String
commitment_of item = elim (get "commitment" item) [
  | none ↦ some ""
  | some v ↦ elim v [ text t ↦ some t | _ ↦ none ]
]

module _ ⦃library : TrialLibrary⦄ where
  -- `private_artifact_commitment`
  unfoldable pub private_artifact_commitment :
      FrozenPrivateMap → Descriptor → Bytes → Checked String
  private_artifact_commitment m d k_artifact = do
    raise_if (not (length k_artifact == 32)) invalid_key
    pure (
        library.authenticate k_artifact "instruct-eval-private-commitment-v1" (descriptor_json m d))

  -- `FrozenPrivateMap.map_sha256`
  unfoldable pub map_sha256 : FrozenPrivateMap → String
  unfolding map_json
  map_sha256 m = library.sha (map_json m)

  -- the keys of one assignment in `_expected_inventory`
  abbrev keys_of_assignment : PrivateAssignment → List InventoryKey
  keys_of_assignment assignment =
      map (λ (kind : String). (some assignment.token, kind, none)) subject_artifact_kinds

  unfoldable pub keys_of_assignments : List PrivateAssignment → List InventoryKey
  keys_of_assignments [] = []
  keys_of_assignments (assignment ∷ rest) =
      keys_of_assignment assignment ++ keys_of_assignments rest

  -- `_expected_inventory`
  unfoldable pub expected_inventory : FrozenPrivateMap → List InventoryKey
  unfolding keys_of_assignments
  expected_inventory m = (none, "map", some (map_sha256 m)) ∷ keys_of_assignments m.assignments

  -- `_inventory_item_key`
  unfoldable pub inventory_item_key : FrozenPrivateMap → Bytes → Payload → Checked InventoryKey
  unfolding private_artifact_descriptor private_artifact_commitment get
  inventory_item_key m k_artifact item = do
    descriptor ← private_artifact_descriptor (record {
      campaign_id = get "campaign_id" item;
      experiment_id = get "experiment_id" item;
      token = get "token" item;
      artifact_kind = get "artifact_kind" item;
      artifact_sha256 = get "artifact_sha256" item;
    })
    commitment ← private_artifact_commitment m descriptor k_artifact
    raise_if
        (not (option_value_beq descriptor.campaign_id (some (text m.campaign_id)))
          || not (option_value_beq descriptor.experiment_id (some (text m.experiment_id)))
          || not (commitment_of item == some commitment))
        commitment_mismatch
    pure (
        (
          descriptor.token,
          descriptor.artifact_kind,
          (if descriptor.token == none then some descriptor.artifact_sha256 else none),
        ))

  -- the loop of `_validate_inventory`, with the keys that it has seen
  unfoldable pub validate_items :
      FrozenPrivateMap → Bytes → List InventoryKey → List Payload → Checked (List InventoryKey)
  validate_items m k_artifact seen [] = pure seen
  validate_items m k_artifact seen (item ∷ rest) = do
    key ← inventory_item_key m k_artifact item
    raise_if (not (has_inventory_key key (expected_inventory m)) || has_inventory_key key seen)
        inventory_mismatch
    validate_items m k_artifact (key ∷ seen) rest

  abbrev pub same_keys : List InventoryKey → List InventoryKey → Bool
  same_keys a b = every (λ k. has_inventory_key k b) a && every (λ k. has_inventory_key k a) b

  -- `_validate_inventory`
  unfoldable pub validate_inventory : FrozenPrivateMap → Bytes → List Payload → Checked (Unit {0})
  validate_inventory m k_artifact inventory = do
    seen ← validate_items m k_artifact [] inventory
    raise_if (not (same_keys seen (expected_inventory m))) incomplete_inventory

-- `_validate_release_directions`
unfoldable pub validate_release_directions : FrozenPrivateMap → Payload → Checked (Unit {0})
unfolding every is_member
validate_release_directions m directions =
    let tokens = map (λ (a : PrivateAssignment). a.token) m.assignments in
    let keys = map (λ (entry : String × Value). entry.0) directions in
    raise_if
      (not (every (λ t. is_member t keys) tokens)
        || not (every (λ t. is_member t tokens) keys)
        || not (
            every (λ (entry : String × Value). not (nonempty_text (some entry.1) == none))
              directions))
      uncovered_directions

-- a record of `_released_assignments`, with its blind id
abbrev pub Released : Type 0
Released = String × Payload

-- `directions[assignment.token]`, at a token that `lacks_direction` has not found missing
abbrev direction_at : Option Value → Value
direction_at none = other "null"
direction_at (some v) = v

unfoldable pub released_assignment : Payload → PrivateAssignment → Released
unfolding get
released_assignment directions assignment = (
  assignment.blind_id,
  ("blind_id", text assignment.blind_id)
      ∷ ("scenario", text assignment.scenario)
      ∷ ("condition", text assignment.condition)
      ∷ ("direction", direction_at (get assignment.token directions))
      ∷ [],
)

-- whether a token has no direction, where `directions[assignment.token]` raises
unfoldable pub lacks_direction : Payload → List PrivateAssignment → Bool
unfolding get
lacks_direction directions [] = false
lacks_direction directions (assignment ∷ rest) =
    elim (get assignment.token directions) [ none ↦ true | some _ ↦ false ]
    || lacks_direction directions rest

-- `sorted(..., key=blind_id)`, which keeps the order of equal keys
unfoldable pub insert_released : Released → List Released → List Released
insert_released r [] = r ∷ []
insert_released r (s ∷ ss) = if text_leb r.0 s.0 then r ∷ s ∷ ss else s ∷ insert_released r ss

unfoldable pub sort_released : List Released → List Released
unfolding insert_released
sort_released [] = []
sort_released (r ∷ rs) = insert_released r (sort_released rs)

-- `_released_assignments`, where no direction is missing
unfoldable pub released_assignments : FrozenPrivateMap → Payload → List Payload
unfolding sort_released released_assignment
released_assignments m directions =
    map (λ (r : Released). r.1) (sort_released (map (released_assignment directions) m.assignments))

module _ ⦃library : TrialLibrary⦄ where
  -- what `release_g5` releases
  unfoldable pub released_packet : FrozenPrivateMap → Payload → Payload
  released_packet m directions =
      (
        "assignments",
        sequence
            (values (map (λ (r : Payload). mapping (items r)) (released_assignments m directions))),
      )
      ∷ ("preferred_directions", mapping (items m.preferred_directions))
      ∷ ("authorization_rule", authorization_rule)
      ∷ []

  -- `release_g5`
  unfoldable pub release_g5 : FrozenPrivateMap → List Payload → Bytes → Payload → Checked Payload
  unfolding validate_inventory validate_release_directions lacks_direction released_packet
  release_g5 m inventory k_artifact directions = do
    validate_inventory m k_artifact inventory
    validate_release_directions m directions
    raise_if (lacks_direction directions m.assignments) key_error
    pure (
        released_packet m directions
        ++ ("release_sha256", text (library.sha (released_packet m directions))) ∷ [])
