-- ===== src/Trials/Release/Outcome.antt =====
-- When `release_g5` releases, and what.
use instruct_eval.Common.{
  String, ◌≡◌, refl, sym, Bool, true, false, not, ◌||◌, none, some, List, [], ◌∷◌, ◌++◌, map, ◌==◌,
  string_eq, option_eq, arith, Bool-cases, inl, inr,
}
use instruct_eval.Exec.{Result, ok, err}
use instruct_eval.Coordination.Library.{Bytes}
use instruct_eval.Workflows.Json.{
  Value, Payload, text, sequence, mapping, items, values, get, is_member, nonempty_text,
}
use instruct_eval.Workflows.Experiment.Results.{every, without}
use instruct_eval.Trials.Release.{
  TrialError, PrivateAssignment, FrozenPrivateMap, TrialLibrary, validate_inventory,
  validate_release_directions, lacks_direction, release_g5, released_packet, released_assignments,
}
use instruct_eval.Trials.Release.Inventory.{Lists, validate_inventory-Lists}

-- whether a token has a direction, a nonempty text
abbrev pub has_direction : String → Payload → Bool
has_direction token directions = not (nonempty_text (get token directions) == none)

-- whether a token is that of an assignment
pub is_assigned : String → List PrivateAssignment → Bool
is_assigned token [] = false
is_assigned token (a ∷ rest) = a.token == token || is_assigned token rest

-- The directions have a nonempty text for each assignment, and nothing else.
pub record Covers (m : FrozenPrivateMap) (directions : Payload) : Type 0 where
  pub every_outcome :
      every (λ (a : PrivateAssignment). has_direction a.token directions) m.assignments ≡ true
  pub nothing_else :
      every (λ (entry : String × Value). is_assigned entry.0 m.assignments) directions ≡ true

has_direction-get :
    (t : String) (directions : Payload)
    → is_member t (map (λ (entry : String × Value). entry.0) directions) ≡ true
    → every (λ (entry : String × Value). not (nonempty_text (some entry.1) == none)) directions
      ≡ true
    → has_direction t directions ≡ true
unfolding is_member every get
has_direction-get t [] h k = ground arith
has_direction-get t (entry ∷ rest) h k = elim (Bool-cases (entry.0 == t)) [
  | inl same ↦ rw same (ground arith)
  | inr other ↦ rw other (has_direction-get t rest (ground arith) (ground arith))
]

every_direction :
    (as_ : List PrivateAssignment) (directions : Payload)
    → every
        (λ t. is_member t (map (λ (entry : String × Value). entry.0) directions))
        (map (λ (a : PrivateAssignment). a.token) as_)
      ≡ true
    → every (λ (entry : String × Value). not (nonempty_text (some entry.1) == none)) directions
      ≡ true
    → every (λ (a : PrivateAssignment). has_direction a.token directions) as_ ≡ true
unfolding every
every_direction [] directions h k = refl
every_direction (a ∷ rest) directions h k =
    let first = has_direction-get a.token directions (ground arith) k in
    let others = every_direction rest directions (ground arith) k in ground (arith, first, others)

is_assigned-member :
    (t : String) (as_ : List PrivateAssignment)
    → is_member t (map (λ (a : PrivateAssignment). a.token) as_) ≡ is_assigned t as_
unfolding is_member is_assigned
is_assigned-member t [] = refl
is_assigned-member t (a ∷ rest) = rw (is_assigned-member t rest) refl

only_assigned :
    (as_ : List PrivateAssignment) (directions : Payload)
    → every
        (λ t. is_member t (map (λ (a : PrivateAssignment). a.token) as_))
        (map (λ (entry : String × Value). entry.0) directions)
      ≡ true
    → every (λ (entry : String × Value). is_assigned entry.0 as_) directions ≡ true
unfolding every
only_assigned as_ [] h = refl
only_assigned as_ (entry ∷ rest) h =
    let first = is_assigned-member entry.0 as_ in
    let others = only_assigned as_ rest (ground arith) in ground (arith, first, others)

validate_release_directions-Covers :
    (m : FrozenPrivateMap) (directions : Payload)
    → (validate_release_directions m directions tt).0 ≡ ok tt
    → Covers m directions
unfolding validate_release_directions
validate_release_directions-Covers m directions h = record {
  every_outcome = every_direction m.assignments directions (ground arith) (ground arith);
  nothing_else = only_assigned m.assignments directions (ground arith);
}

module _ ⦃library : TrialLibrary⦄ where
  -- The packet has the released records and its rule, and the hash of the rest of it.
  pub record IsSealed (m : FrozenPrivateMap) (directions packet : Payload) : Type 0 where
    pub records :
        get "assignments" packet
        ≡ some (
            sequence (
              values
                (map (λ (r : Payload). mapping (items r)) (released_assignments m directions))))
    pub preferred :
        get "preferred_directions" packet ≡ some (mapping (items m.preferred_directions))
    pub sealed :
        get "release_sha256" packet ≡ some (text (library.sha (without "release_sha256" packet)))

  released-IsSealed :
      (m : FrozenPrivateMap) (directions : Payload)
      → IsSealed m directions (
          released_packet m directions
          ++ ("release_sha256", text (library.sha (released_packet m directions))) ∷ [])
  unfolding released_packet get without
  released-IsSealed m directions = record { records = refl; preferred = refl; sealed = refl }

module _ ⦃library : TrialLibrary⦄ (m : FrozenPrivateMap) (k_artifact : Bytes) where
  -- If release_g5 releases a packet, the inventory lists each expected artifact once and nothing
  -- else, the directions have a nonempty text for the token of each assignment and no other token,
  -- and the packet has the released records, the preferred directions of the map, and the hash of
  -- the rest of the packet.
  pub release_g5-Lists :
      (inventory : List Payload) (directions : Payload) {packet : Payload}
      → (release_g5 m inventory k_artifact directions tt).0 ≡ ok packet
      → Lists m k_artifact inventory × Covers m directions × IsSealed m directions packet
  unfolding release_g5
  release_g5-Lists inventory directions {packet} e =
      by_results (validate_inventory m k_artifact inventory tt) refl
        (validate_release_directions m directions tt) refl
        (lacks_direction directions m.assignments) refl e
    where
      by_results :
          (r : Result TrialError (Unit {0}) × Unit {0})
          → validate_inventory m k_artifact inventory tt ≡ r
          → (d : Result TrialError (Unit {0}) × Unit {0})
          → validate_release_directions m directions tt ≡ d
          → (b : Bool) → lacks_direction directions m.assignments ≡ b
          → (release_g5 m inventory k_artifact directions tt).0 ≡ ok packet
          → Lists m k_artifact inventory × Covers m directions × IsSealed m directions packet
      by_results (err x, u) i d j b l a = absurd (let no : ⊥ = ground (arith, i) in no)
      by_results (ok _, u) i (err x, v) j b l a = absurd (let no : ⊥ = ground (arith, i, j) in no)
      by_results (ok _, u) i (ok _, v) j true l a =
          absurd (let no : ⊥ = ground (arith, i, j, l) in no)
      by_results (ok _, u) i (ok _, v) j false l a =
          let equal : released_packet m directions
                ++ ("release_sha256", text (library.sha (released_packet m directions))) ∷ []
              ≡ packet =
            ground (arith, i, j, l) in
          (
            (validate_inventory-Lists m k_artifact inventory).0 (ground (arith, i)),
            validate_release_directions-Covers m directions (ground (arith, j)),
            rw (sym equal) (released-IsSealed m directions),
          )
