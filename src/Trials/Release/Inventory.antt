-- ===== src/Trials/Release/Inventory.antt =====
-- `_validate_inventory` against a count of the keys of the inventory.
use instruct_eval.Trials.Release.Keys.{
  same_key_lem, same_key_refl, key_count, has_inventory_key-count, every-has, has-every,
}
use instruct_eval.Common.{
  ℕ, ◌+◌, ◌≤◌, ◌≡◌, ◌↔◌, refl, sym, ap, ◌∙◌, Bool, true, false, not, ◌||◌, List, [], ◌∷◌, arith,
  if◌then◌else◌, nat_eq, string_eq, option_eq, Bool-cases, inl, inr, count_where,
}
use instruct_eval.Exec.{Result, ok, err, is_ok, raise_if, ◌>>◌, continue}
use instruct_eval.Coordination.Library.{Bytes}
use instruct_eval.Workflows.Json.{Payload}
use instruct_eval.Workflows.Experiment.Results.{every}
use instruct_eval.Trials.Release.{
  TrialError, Checked, inventory_mismatch, incomplete_inventory, FrozenPrivateMap, TrialLibrary,
  InventoryKey, same_key, has_inventory_key, expected_inventory, inventory_item_key, validate_items,
  validate_inventory, same_keys,
}

passed : (b : Bool) → (raise_if {S = Unit {0}} (not b) incomplete_inventory tt).0 ≡ ok tt → b ≡ true
passed true e = refl
passed false e = absurd (let no : ⊥ = cc in no)

module _ ⦃library : TrialLibrary⦄ (m : FrozenPrivateMap) (k_artifact : Bytes) where
  -- whether an item has a key at all, and whether it has this one
  abbrev pub is_keyed : Payload → Bool
  is_keyed item = is_ok (inventory_item_key m k_artifact item tt).0

  abbrev result_is : InventoryKey → Result TrialError InventoryKey → Bool
  result_is key (ok k) = same_key k key
  result_is key (err e) = false

  abbrev pub item_count : InventoryKey → List Payload → ℕ
  item_count key inventory =
      count_where (λ item. result_is key (inventory_item_key m k_artifact item tt).0) inventory

  -- An inventory that lists each expected artifact once, and nothing else.
  pub record Lists (inventory : List Payload) : Type 0 where
    pub keyed : every is_keyed inventory ≡ true
    pub once :
        (key : InventoryKey)
        → item_count key inventory ≡ (if has_inventory_key key (expected_inventory m) then 1 else 0)

  -- the bound on the keys that have been seen
  abbrev Within : List InventoryKey → Type 0
  Within seen =
      (key : InventoryKey)
      → key_count key seen ≤ (if has_inventory_key key (expected_inventory m) then 1 else 0)

  record Seen (seen seen' : List InventoryKey) (inventory : List Payload) : Type 0 where
    pub within : Within seen'
    pub keyed : every is_keyed inventory ≡ true
    pub counted :
        (key : InventoryKey) → key_count key seen' ≡ key_count key seen + item_count key inventory

  seen_step :
      (key : InventoryKey) (seen : List InventoryKey)
      → has_inventory_key key (expected_inventory m) ≡ true
      → has_inventory_key key seen ≡ false
      → Within seen
      → Within (key ∷ seen)
  seen_step key seen e f h = λ q. elim (Bool-cases (same_key key q)) [
    | inl same ↦
        let equal : key ≡ q = same_key_lem key q same in
        let expected : has_inventory_key q (expected_inventory m) ≡ true =
          ap (λ k. has_inventory_key k (expected_inventory m)) (sym equal) ∙ e in
        let fresh : has_inventory_key q seen ≡ false =
          ap (λ k. has_inventory_key k seen) (sym equal) ∙ f in
        ground (arith, has_inventory_key-count q seen)
    | inr other ↦ ground (arith, h q)
  ]

  abbrev is_rejected : InventoryKey → List InventoryKey → Bool
  is_rejected key seen =
      not (has_inventory_key key (expected_inventory m)) || has_inventory_key key seen

  -- what follows the key of an item in the loop
  abbrev after_key : List InventoryKey → List Payload → InventoryKey → Checked (List InventoryKey)
  after_key seen rest key = do
    raise_if (is_rejected key seen) inventory_mismatch
    validate_items m k_artifact (key ∷ seen) rest

  accepted_key :
      (seen seen' : List InventoryKey) (rest : List Payload) (key : InventoryKey)
      → (after_key seen rest key tt).0 ≡ ok seen'
      → (is_rejected key seen ≡ false)
        × ((validate_items m k_artifact (key ∷ seen) rest tt).0 ≡ ok seen')
  accepted_key seen seen' rest key e = by_test (is_rejected key seen) refl
    where
      by_test :
          (b : Bool)
          → is_rejected key seen ≡ b
          → (is_rejected key seen ≡ false)
            × ((validate_items m k_artifact (key ∷ seen) rest tt).0 ≡ ok seen')
      by_test true h = absurd (let no : ⊥ = ground arith in no)
      by_test false h = (h, ground arith)

  validate_items-Seen :
      (seen seen' : List InventoryKey) (inventory : List Payload)
      → Within seen
      → (validate_items m k_artifact seen inventory tt).0 ≡ ok seen'
      → Seen seen seen' inventory
  unfolding validate_items every
  validate_items-Seen seen seen' [] h e =
      let same : seen ≡ seen' = cc in
      record { within = rw⁻¹ same h; keyed = refl; counted = λ key. rw same (omega arith) }
  validate_items-Seen seen seen' (item ∷ rest) h e =
      by_key (inventory_item_key m k_artifact item tt) refl e
        (λ key. validate_items-Seen (key ∷ seen) seen' rest)
    where
      by_key :
          (r : Result TrialError InventoryKey × Unit {0})
          → inventory_item_key m k_artifact item tt ≡ r
          → (continue (after_key seen rest) r).0 ≡ ok seen'
          → ((key : InventoryKey)
              → Within (key ∷ seen)
              → (validate_items m k_artifact (key ∷ seen) rest tt).0 ≡ ok seen'
              → Seen (key ∷ seen) seen' rest)
          → Seen seen seen' (item ∷ rest)
      by_key (err x, u) i a k = absurd (let no : ⊥ = cc in no)
      by_key (ok key, u) i a k =
          let accepted = accepted_key seen seen' rest key a in
          let found = ap (λ (r : Result TrialError InventoryKey × Unit {0}). r.0) i in
          let next = k key (seen_step key seen (ground arith) (ground arith) h) accepted.1 in
          let is_item : is_keyed item ≡ true = rw found refl in
          record {
            within = next.within;
            keyed = ground (arith, is_item, next.keyed);
            counted = λ q.
                let one : result_is q (inventory_item_key m k_artifact item tt).0 ≡ same_key key q =
                  ap (result_is q) found in
                ground (arith, one, next.counted q);
          }

  -- the room that the seen keys leave for those of the rest
  abbrev Fits : List InventoryKey → List Payload → Type 0
  Fits seen inventory =
      (key : InventoryKey)
      → key_count key seen + item_count key inventory
        ≤ (if has_inventory_key key (expected_inventory m) then 1 else 0)

  accepted_step :
      (key : InventoryKey) (seen : List InventoryKey) (item : Payload) (rest : List Payload)
      → result_is key (inventory_item_key m k_artifact item tt).0 ≡ true
      → Fits seen (item ∷ rest)
      → is_rejected key seen ≡ false
  accepted_step key seen item rest i h = ground (arith, h key, has_inventory_key-count key seen)

  validate_items-ok :
      (seen : List InventoryKey) (inventory : List Payload)
      → every is_keyed inventory ≡ true
      → Fits seen inventory
      → is_ok (validate_items m k_artifact seen inventory tt).0 ≡ true
  unfolding validate_items every
  validate_items-ok seen [] keyed h = refl
  validate_items-ok seen (item ∷ rest) keyed h =
      by_key (inventory_item_key m k_artifact item tt) refl
        (λ key. validate_items-ok (key ∷ seen) rest (ground arith))
    where
      by_key :
          (r : Result TrialError InventoryKey × Unit {0})
          → inventory_item_key m k_artifact item tt ≡ r
          → ((key : InventoryKey)
              → Fits (key ∷ seen) rest
              → is_ok (validate_items m k_artifact (key ∷ seen) rest tt).0 ≡ true)
          → is_ok (continue (after_key seen rest) r).0 ≡ true
      by_key (err x, u) i k =
          let found = ap (λ (r : Result TrialError InventoryKey × Unit {0}). is_ok r.0) i in
          ground (arith, found)
      by_key (ok key, u) i k =
          let one : (q : InventoryKey)
              → result_is q (inventory_item_key m k_artifact item tt).0 ≡ same_key key q =
            λ q. ap (λ (r : Result TrialError InventoryKey × Unit {0}). result_is q r.0) i in
          let accepted = accepted_step key seen item rest (one key ∙ same_key_refl key) h in
          let next = k key (λ q. ground (arith, h q, one q)) in rw accepted next

  same_keys-Lists :
      (seen : List InventoryKey) (inventory : List Payload)
      → Lists inventory
      → Seen [] seen inventory
      → same_keys seen (expected_inventory m) ≡ true
  same_keys-Lists seen inventory l s =
      let inside =
        has-every (λ k. has_inventory_key k (expected_inventory m)) seen
          (λ key h. ground (arith, s.within key, has_inventory_key-count key seen)) in
      let covered =
        has-every (λ k. has_inventory_key k seen) (expected_inventory m)
          (λ key h. ground (arith, s.counted key, l.once key, has_inventory_key-count key seen)) in
      ground (arith, inside, covered)

  -- _validate_inventory accepts an inventory exactly when each of its items has a key, and each
  -- expected artifact, the map and every kind for every assignment, is listed once and nothing
  -- else.
  pub validate_inventory-Lists :
      (inventory : List Payload)
      → ((validate_inventory m k_artifact inventory tt).0 ≡ ok tt) ↔ Lists inventory
  unfolding validate_inventory
  validate_inventory-Lists inventory = (
    λ e. forward (validate_items m k_artifact [] inventory tt) refl e,
    λ l.
        backward (validate_items m k_artifact [] inventory tt) refl l
          (validate_items-ok [] inventory l.keyed (λ q. omega (arith, l.once q))),
  )
    where
      none_seen : Within []
      none_seen q = omega arith

      end : List InventoryKey → Checked (Unit {0})
      end seen = raise_if (not (same_keys seen (expected_inventory m))) incomplete_inventory

      all_seen :
          (seen : List InventoryKey)
          → (end seen tt).0 ≡ ok tt
          → same_keys seen (expected_inventory m) ≡ true
      all_seen seen e = passed (same_keys seen (expected_inventory m)) e

      listed :
          (seen : List InventoryKey)
          → Seen [] seen inventory
          → same_keys seen (expected_inventory m) ≡ true
          → Lists inventory
      listed seen s same = record {
        keyed = s.keyed;
        once = λ q.
            let covered : has_inventory_key q (expected_inventory m) ≡ true
                → has_inventory_key q seen ≡ true =
              λ h.
                every-has (λ k. has_inventory_key k seen) q (expected_inventory m) (ground arith)
                  h in
            elim (Bool-cases (has_inventory_key q (expected_inventory m))) [
              | inl expected ↦
                  ground (
                    arith,
                    s.counted q,
                    s.within q,
                    has_inventory_key-count q seen,
                    covered expected,
                  )
              | inr other ↦ ground (arith, s.counted q, s.within q)
            ];
      }

      forward :
          (r : Result TrialError (List InventoryKey) × Unit {0})
          → validate_items m k_artifact [] inventory tt ≡ r
          → (continue end r).0 ≡ ok tt
          → Lists inventory
      forward (err x, u) i e = absurd (let no : ⊥ = cc in no)
      forward (ok seen, u) i e =
          let found = ap (λ (r : Result TrialError (List InventoryKey) × Unit {0}). r.0) i in
          listed seen (validate_items-Seen [] seen inventory none_seen found) (all_seen seen e)

      backward :
          (r : Result TrialError (List InventoryKey) × Unit {0})
          → validate_items m k_artifact [] inventory tt ≡ r
          → Lists inventory
          → is_ok (validate_items m k_artifact [] inventory tt).0 ≡ true
          → (continue end r).0 ≡ ok tt
      backward (err x, u) i l o =
          let found = ap (λ (r : Result TrialError (List InventoryKey) × Unit {0}). is_ok r.0) i in
          ground (arith, found)
      backward (ok seen, u) i l o =
          let found = ap (λ (r : Result TrialError (List InventoryKey) × Unit {0}). r.0) i in
          let same =
            same_keys-Lists seen inventory l
              (validate_items-Seen [] seen inventory none_seen found) in
          rw same refl
