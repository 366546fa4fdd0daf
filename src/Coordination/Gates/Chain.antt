-- ===== src/Coordination/Gates/Chain.antt =====
-- The chain of gates: the ordinals of a ledger count up from 0, the first gate has the zero hash
-- for its prior record, and each later gate has the hash of its published predecessor.
use mathlib.Core.Option
use instruct_eval.Common.{
  ℕ, zero, suc, ◌≤◌, ℤ, pos, minus_one, String, ◌≡◌, refl, Bool, true, false, Option, none, some,
  List, [], ◌∷◌, ◌==◌, nat_eq, string_eq, list_eq, option_eq, arith, inl, inr, All, if◌then◌else◌,
  Bool-cases, eq_sym,
}
use instruct_eval.Sql.{select_one, update, select_one-update, All-update_to, All-update}
use instruct_eval.Sql.Distinct.{Distinct, Distinct-update}
use instruct_eval.Coordination.Library.{Library}
use instruct_eval.Coordination.Types.{GateState, GateRow, gate_state_eq}
use instruct_eval.Coordination.Gates.{has_gate_key, is_corrupt_gate}
use instruct_eval.Coordination.Gates.Reserve.{next_ordinal}
use instruct_eval.Coordination.Gates.Frame.{Follows}

abbrev pub same_gate : GateRow → GateRow → Bool
same_gate r s = has_gate_key r.workflow_id r.run_id (pos r.ordinal) s

-- the predecessor of a row
abbrev pub predecessor_of : GateRow → List GateRow → Option GateRow
predecessor_of r rows =
    select_one (has_gate_key r.workflow_id r.run_id (minus_one (pos r.ordinal))) rows

abbrev pub Linked : List GateRow → GateRow → Type 0
Linked rows r = Follows r.ordinal r.prior_record_sha256 (predecessor_of r rows)

-- Only a published gate has a path and a hash of its publication.
abbrev pub FitsGate : GateState → Option String → Option String → Type 0
FitsGate GateState.published (some _) (some _) = Unit
FitsGate GateState.published _ _ = ⊥
FitsGate _ none none = Unit
FitsGate _ _ _ = ⊥

module _ ⦃library : Library⦄ where
  pub record IsValidGate (r : GateRow) : Type 0 where
    pub clean : is_corrupt_gate r ≡ false
    pub fits : FitsGate r.state r.publication_path r.publication_sha256
    pub epoch_positive : 1 ≤ r.owner_epoch

  pub record IsChained (rows : List GateRow) : Type 0 where
    pub distinct : Distinct same_gate rows
    pub linked : All (Linked rows) rows
    pub rows_valid : All IsValidGate rows

-- No gate of a ledger has its next ordinal, or a later one.
pub no_gate_from_next :
    (workflow run : String) (n : ℕ) (rows : List GateRow)
    → next_ordinal workflow run rows ≤ n
    → select_one (has_gate_key workflow run (pos n)) rows ≡ none
unfolding select_one next_ordinal
no_gate_from_next workflow run n [] h = refl
no_gate_from_next workflow run n (r ∷ rows) h =
    ground (arith, no_gate_from_next workflow run n rows)

pub same_gate_sym : (r s : GateRow) → same_gate r s ≡ same_gate s r
same_gate_sym r s = ground (arith, eq_sym r.workflow_id s.workflow_id, eq_sym r.run_id s.run_id)

-- A row that changes only where it is not published is still the predecessor it was.
Follows-unpublished :
    (n : ℕ) (prior : String) (q : GateRow → Bool) (f : GateRow → GateRow) (o : Option GateRow)
    → ((r : GateRow) → q r ≡ true → (r.state == GateState.published) ≡ false)
    → Follows n prior o
    → Follows n prior (Option.map (λ r. if q r then f r else r) o)
Follows-unpublished zero prior q f o keep h = h
Follows-unpublished (suc n) prior q f none keep h = h
Follows-unpublished (suc n) prior q f (some r) keep h = elim (Bool-cases (q r)) [
  | inl e ↦ absurd (ground (arith, keep r e))
  | inr e ↦ rw e h
]

pub Follows-append :
    (n : ℕ) (prior : String) (o : Option GateRow) (p : Option GateRow)
    → Follows n prior o
    → Follows n prior (elim o [ none ↦ p | some r ↦ some r ])
Follows-append zero prior o p h = h
Follows-append (suc n) prior none p h = absurd h
Follows-append (suc n) prior (some r) p h = h

module _ (q : GateRow → Bool) (f : GateRow → GateRow)
    (key : (w r : String) (o : ℤ) (x : GateRow) → has_gate_key w r o (f x) ≡ has_gate_key w r o x)
    (same : (x : GateRow)
      → ((f x).workflow_id ≡ x.workflow_id)
        × ((f x).run_id ≡ x.run_id)
        × ((f x).ordinal ≡ x.ordinal)
        × ((f x).prior_record_sha256 ≡ x.prior_record_sha256))
    (unpublished : (x : GateRow) → q x ≡ true → (x.state == GateState.published) ≡ false) where
  Linked-rows : (rows : List GateRow) (x : GateRow) → Linked rows x → Linked (update q f rows) x
  Linked-rows rows x h =
      rw
        (select_one-update (has_gate_key x.workflow_id x.run_id (minus_one (pos x.ordinal))) q f
          rows (key x.workflow_id x.run_id (minus_one (pos x.ordinal))))
        (Follows-unpublished x.ordinal x.prior_record_sha256 q f (predecessor_of x rows) unpublished
          h)

  Linked-row :
      (rows : List GateRow) (x : GateRow) → Linked rows x → Linked rows (if q x then f x else x)
  Linked-row rows x h = elim (Bool-cases (q x)) [
    | inl e ↦ rw e (rw ((same x).0, (same x).1, (same x).2, (same x).3) h)
    | inr e ↦ rw e h
  ]

  module _ ⦃library : Library⦄ where
    pub IsChained-update :
        (rows : List GateRow)
        → ((x : GateRow) → q x ≡ true → IsValidGate x → IsValidGate (f x))
        → IsChained rows
        → IsChained (update q f rows)
    IsChained-update rows keep h = record {
      distinct =
          Distinct-update same_gate q f rows (λ a b. key a.workflow_id a.run_id (pos a.ordinal) b)
            (λ a b. rw ((same a).0, (same a).1, (same a).2)) h.distinct;
      linked =
          All-update_to (Linked rows) (Linked (update q f rows)) q f rows
            (λ x l. Linked-rows rows (if q x then f x else x) (Linked-row rows x l)) h.linked;
      rows_valid = All-update IsValidGate q f rows keep h.rows_valid;
    }
