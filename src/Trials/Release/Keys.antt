-- ===== src/Trials/Release/Keys.antt =====
-- The keys of an inventory, and how often they stand in it.
use instruct_eval.Common.{
  ℕ, ◌≤◌, ◌≡◌, ◌↔◌, refl, sym, ap, ◌∙◌, Bool, true, List, [], ◌∷◌, arith, nat_eq, string_eq,
  option_eq, eq_iff, Bool-cases, inl, inr, ==_refl, count_where, option_beq_iff,
}
use instruct_eval.Workflows.Experiment.Results.{every}
use instruct_eval.Trials.Release.{InventoryKey, same_key, has_inventory_key}

pub same_key_lem : (a b : InventoryKey) → same_key a b ≡ true → a ≡ b
same_key_lem a b h =
    let first : a.0 ≡ b.0 = (option_beq_iff a.0 b.0).0 (ground arith) in
    let second : a.1 ≡ b.1 = (eq_iff a.1 b.1).0 (ground arith) in
    let third : a.2 ≡ b.2 = (option_beq_iff a.2 b.2).0 (ground arith) in cc

pub same_key_refl : (a : InventoryKey) → same_key a a ≡ true
same_key_refl a = ground (arith, ==_refl a.0, ==_refl a.1, ==_refl a.2)

-- how often a key stands in a list
abbrev pub key_count : InventoryKey → List InventoryKey → ℕ
key_count key ks = count_where (λ k. same_key k key) ks

pub has_inventory_key-count :
    (key : InventoryKey) (ks : List InventoryKey)
    → (has_inventory_key key ks ≡ true) ↔ (1 ≤ key_count key ks)
has_inventory_key-count key [] = (λ h. ground arith, λ h. ground arith)
has_inventory_key-count key (k ∷ ks) =
    let others = has_inventory_key-count key ks in
    (λ h. ground (arith, others), λ h. ground (arith, others))

-- What holds of all the keys of a list holds of each.
pub every-has :
    (p : InventoryKey → Bool) (key : InventoryKey) (ks : List InventoryKey)
    → every p ks ≡ true
    → has_inventory_key key ks ≡ true
    → p key ≡ true
unfolding every
every-has p key [] h e = ground arith
every-has p key (k ∷ ks) h e = elim (Bool-cases (same_key k key)) [
  | inl same ↦
      let equal : k ≡ key = same_key_lem k key same in
      let holds : p k ≡ true = ground arith in ap p (sym equal) ∙ holds
  | inr other ↦ every-has p key ks (ground arith) (ground arith)
]

pub has-every :
    (p : InventoryKey → Bool) (ks : List InventoryKey)
    → ((key : InventoryKey) → has_inventory_key key ks ≡ true → p key ≡ true)
    → every p ks ≡ true
unfolding every
has-every p [] h = refl
has-every p (k ∷ ks) h =
    let first = h k (ground (arith, same_key_refl k)) in
    let others = has-every p ks (λ key e. h key (ground arith)) in ground (arith, first, others)
