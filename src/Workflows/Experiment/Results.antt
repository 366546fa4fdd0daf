-- ===== src/Workflows/Experiment/Results.antt =====
-- The checks of workflows.py on results: outcomes of trials, blind scores, the release of G5 and the
-- lifecycle of the map.
use Prim.Native.Nat.{Ordering}
use Prim.Native.String.{compare}
use instruct_eval.Common.{
  String, Bool, true, false, not, ◌&&◌, ◌||◌, Option, none, some, List, [], ◌∷◌, ◌==◌, nat_eq,
  string_eq, option_eq, if◌then◌else◌, length,
}
use instruct_eval.Exec.{pure, raise_if, modify, or_raise, ◌>>=◌, ◌>>◌}
use instruct_eval.Trials.Authorization.{assignment_ids, scenarios}
use instruct_eval.Workflows.Json.{
  Value, Payload, text, sequence, mapping, items, entries_of, values, get, option_value_beq,
  nonempty_text, is_member, keys_within, has_keys, has_key, has_exactly, distinct_texts,
  as_sequence, all_mappings, all_texts,
}
use instruct_eval.Workflows.Experiment.{
  Workflow, check_artifact, type_error, incomplete_outcomes, invalid_scores, invalid_release,
  malformed_map,
}
use instruct_eval.Workflows.Experiment.Decisions.{World}

unfoldable pub every {ℓ} : {A : Type ℓ} → (A → Bool) → List A → Bool
every p [] = true
every p (x ∷ xs) = p x && every p xs

-- whether a set has no place for a value, where Python raises `TypeError`
abbrev is_unhashable : Value → Bool
is_unhashable (sequence _) = true
is_unhashable (mapping _) = true
is_unhashable _ = false

unfoldable pub any_unhashable : List Value → Bool
any_unhashable [] = false
any_unhashable (v ∷ vs) = is_unhashable v || any_unhashable vs

-- whether a field is unhashable in one of the packets
unfoldable pub has_unhashable : String → List Payload → Bool
unfolding get
has_unhashable field [] = false
has_unhashable field (packet ∷ packets) =
    elim (get field packet) [ none ↦ false | some v ↦ is_unhashable v ]
    || has_unhashable field packets

-- the texts that a field has in each packet, where all of them are nonempty texts
unfoldable pub field_texts : String → List Payload → Option (List String)
unfolding get
field_texts field [] = some []
field_texts field (packet ∷ packets) = elim (nonempty_text (get field packet)) [
  | none ↦ none
  | some t ↦ elim (field_texts field packets) [ none ↦ none | some rest ↦ some (t ∷ rest) ]
]

-- `set(a) == set(b)` on texts
abbrev same_texts : List String → List String → Bool
same_texts a b = every (λ t. is_member t b) a && every (λ t. is_member t a) b

abbrev outcome_fields : List String
outcome_fields =
    "blind_id" ∷ "fixture" ∷ "protocol_valid" ∷ "verifier_passed" ∷ "observer_state"
    ∷ "direction_code" ∷ "changed_paths" ∷ "evidence_id" ∷ []

-- `_deidentified_outcomes`, with the blind ids and the direction codes that it has checked
pub record Outcomes : Type 0 where
  pub packets : List Payload
  pub blind_ids : List String
  pub directions : List String

unfoldable pub deidentified_outcomes : List Payload → Workflow Outcomes
unfolding every has_key keys_within has_keys distinct_texts field_texts
deidentified_outcomes packets = do
  raise_if
      (not (length packets == length assignment_ids)
        || not (every (has_exactly outcome_fields) packets))
      incomplete_outcomes
  blind_ids ← or_raise (field_texts "blind_id" packets) incomplete_outcomes
  directions ← or_raise (field_texts "direction_code" packets) incomplete_outcomes
  raise_if (not (distinct_texts blind_ids == length assignment_ids)) incomplete_outcomes
  pure (record { packets = packets; blind_ids = blind_ids; directions = directions })

-- a blind id with a direction
abbrev pub Scored : Type 0
Scored = String × String

unfoldable pub zip : List String → List String → List Scored
zip (a ∷ as_) (b ∷ bs) = (a, b) ∷ zip as_ bs
zip _ _ = []

-- `_blind_scores`
unfoldable pub blind_scores : Option Value → List String → Workflow (List Scored)
unfolding every is_member has_key keys_within has_keys all_mappings field_texts zip has_unhashable
blind_scores found blind_ids = do
  elements ← or_raise (as_sequence found) invalid_scores
  raise_if (not (length elements == length assignment_ids)) invalid_scores
  packets ← or_raise (all_mappings elements) invalid_scores
  raise_if (not (every (has_exactly ("blind_id" ∷ "direction" ∷ [])) packets)) invalid_scores
  raise_if (has_unhashable "blind_id" packets) type_error
  ids ← or_raise (field_texts "blind_id" packets) invalid_scores
  raise_if (not (same_texts ids blind_ids)) invalid_scores
  directions ← or_raise (field_texts "direction" packets) invalid_scores
  pure (zip ids directions)

abbrev pub text_leb : String → String → Bool
text_leb a b = elim (compare a b) [ Ordering.gt ↦ false | _ ↦ true ]

-- `sorted(..., key=blind_id)`, which keeps the order of equal keys
unfoldable pub insert_scored : Scored → List Scored → List Scored
insert_scored s [] = s ∷ []
insert_scored s (t ∷ ts) = if text_leb s.0 t.0 then s ∷ t ∷ ts else t ∷ insert_scored s ts

unfoldable pub sort_scored : List Scored → List Scored
unfolding insert_scored
sort_scored [] = []
sort_scored (s ∷ ts) = insert_scored s (sort_scored ts)

unfoldable pub same_scored : List Scored → List Scored → Bool
same_scored [] [] = true
same_scored (s ∷ ss) (t ∷ ts) = s.0 == t.0 && s.1 == t.1 && same_scored ss ts
same_scored _ _ = false

-- `packets == sorted(packets, key=blind_id)`: no key comes before a smaller one
unfoldable pub is_sorted : List String → Bool
is_sorted [] = true
is_sorted (a ∷ []) = true
is_sorted (a ∷ b ∷ rest) = text_leb a b && is_sorted (b ∷ rest)

-- `canonical_authorization_rule()`
abbrev pub authorization_rule : Value
authorization_rule = mapping (
    items (
      ("schema", text "instruct-eval-authorization-rule-v1")
      ∷ ("core_scenarios", sequence (values (text "core-1" ∷ text "core-2" ∷ [])))
      ∷ ("negative_control_scenario", text "negative-control")
      ∷ ("core_comparison", text "preferred_count_B_strictly_greater_than_A")
      ∷ ("negative_control_comparison", text "all_subjects_match_preferred_direction")
      ∷ []))

-- a packet without one of its fields
unfoldable pub without : String → Payload → Payload
without field [] = []
without field (entry ∷ entries) =
    if entry.0 == field then without field entries else entry ∷ without field entries

-- the checks of `_g5_release` on the released records
unfoldable pub check_assignments : List Payload → List String → Workflow (Unit {0})
unfolding every is_member has_key keys_within has_keys field_texts is_sorted has_unhashable
check_assignments rows blind_ids = do
  raise_if
      (not (every (has_exactly ("blind_id" ∷ "scenario" ∷ "condition" ∷ "direction" ∷ [])) rows))
      invalid_release
  raise_if (has_unhashable "blind_id" rows) type_error
  ids ← or_raise (field_texts "blind_id" rows) invalid_release
  raise_if (not (same_texts ids blind_ids)) invalid_release
  scenarios_found ← or_raise (field_texts "scenario" rows) invalid_release
  conditions_found ← or_raise (field_texts "condition" rows) invalid_release
  directions_found ← or_raise (field_texts "direction" rows) invalid_release
  raise_if (not (is_sorted ids)) invalid_release

-- the mapping that a field is
abbrev mapping_at : Option Value → Option Payload
mapping_at (some (mapping fields)) = some (entries_of fields)
mapping_at _ = none

module _ ⦃world : World⦄ where
  -- `_g5_release`
  unfoldable pub g5_release : Payload → List String → Workflow Payload
  unfolding get every has_key keys_within has_keys all_mappings check_assignments without entries_of
  g5_release packet blind_ids = do
    raise_if
        (not (
          has_exactly
            ("assignments" ∷ "preferred_directions" ∷ "authorization_rule" ∷ "release_sha256" ∷ [])
            packet))
        invalid_release
    elements ← or_raise (as_sequence (get "assignments" packet)) invalid_release
    raise_if (not (length elements == length assignment_ids)) invalid_release
    rows ← or_raise (all_mappings elements) invalid_release
    check_assignments rows blind_ids
    preferred ← or_raise (mapping_at (get "preferred_directions" packet)) invalid_release
    raise_if
        (not (
          has_exactly scenarios preferred
          && every (λ (entry : String × Value). not (nonempty_text (some entry.1) == none))
              preferred))
        invalid_release
    raise_if (not (option_value_beq (get "authorization_rule" packet) (some authorization_rule)))
        invalid_release
    hash ← or_raise (nonempty_text (get "release_sha256" packet)) invalid_release
    check_artifact hash
    raise_if (not (world.canonical_hash (without "release_sha256" packet) == hash)) invalid_release
    pure packet

-- the text that a field is
abbrev text_at : Option Value → Option String
text_at (some (text t)) = some t
text_at _ = none

-- `_record_map_lifecycle`, with the tokens
unfoldable pub record_map_lifecycle : Payload → Workflow (String × String × List String)
unfolding get has_key keys_within has_keys all_texts distinct_texts any_unhashable
record_map_lifecycle packet = do
  raise_if
      (not (
        has_exactly
          ("map_ref" ∷ "map_commitment" ∷ "tokens" ∷ "pre_map_input_hash"
            ∷ "authorization_rule_sha256" ∷ [])
          packet))
      malformed_map
  map_ref ← or_raise (text_at (get "map_ref" packet)) malformed_map
  map_commitment ← or_raise (text_at (get "map_commitment" packet)) malformed_map
  elements ← or_raise (as_sequence (get "tokens" packet)) malformed_map
  raise_if (length elements == length assignment_ids && any_unhashable elements) type_error
  tokens ← or_raise (all_texts elements) malformed_map
  raise_if
      (not
        (length tokens == length assignment_ids && distinct_texts tokens == length assignment_ids))
      malformed_map
  input_hash ← or_raise (text_at (get "pre_map_input_hash" packet)) malformed_map
  check_artifact input_hash
  rule_hash ← or_raise (text_at (get "authorization_rule_sha256" packet)) malformed_map
  check_artifact rule_hash
  modify (λ w. record w {
    map_ref = some map_ref;
    map_commitment = some map_commitment;
    trial_tokens = tokens;
    pre_map_input_hash = some input_hash;
    authorization_rule_sha256 = some rule_hash;
  })
  pure (map_ref, map_commitment, tokens)
