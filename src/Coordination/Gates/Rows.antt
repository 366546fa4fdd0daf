-- ===== src/Coordination/Gates/Rows.antt =====
-- How one step changes the row of one gate.
use mathlib.Core.Option
use instruct_eval.Common.{
  ℕ, ◌≤◌, ℤ, String, ◌≡◌, refl, Bool, true, Option, none, some, List, nat_eq, string_eq, list_eq,
  option_eq, arith, if◌then◌else◌, Bool-cases, inl, inr,
}
use instruct_eval.Sql.{select_one, update, select_one-update, select_one-append}
use instruct_eval.Coordination.Library.{Library}
use instruct_eval.Coordination.Types.{GateState, GateRow, gate_state_eq}
use instruct_eval.Coordination.Gates.{has_gate_key, holds_gate}
use instruct_eval.Coordination.Gates.Reserve.{reserved_row}
use instruct_eval.Coordination.Gates.Release.{published_row}
use instruct_eval.Coordination.Gates.Frame.{committing_row, bumped_row}
use instruct_eval.Coordination.Gates.Steps.{GateStep, stay, append, bump, commit, publish}

-- the stages of a gate
abbrev pub stage : GateState → ℕ
stage GateState.reserved = 0
stage GateState.release_committing = 1
stage GateState.published = 2

-- What may become of a row: its record stays, its epoch and its stage do not fall, and a published
-- row stays as it is.
pub record Advances (r r' : GateRow) : Type 0 where
  pub same_prior : r'.prior_record_sha256 ≡ r.prior_record_sha256
  pub same_revision : r'.expected_revision_sha256 ≡ r.expected_revision_sha256
  pub same_branch : r'.branch_kind ≡ r.branch_kind
  pub same_input : r'.record_input_bytes ≡ r.record_input_bytes
  pub same_hash : r'.record_input_sha256 ≡ r.record_input_sha256
  pub epoch_grows : r.owner_epoch ≤ r'.owner_epoch
  pub stage_grows : stage r.state ≤ stage r'.state
  pub settled : r.state ≡ GateState.published → r' ≡ r

abbrev pub GateEvolves : Option GateRow → Option GateRow → Type 0
GateEvolves none _ = Unit
GateEvolves (some r) none = ⊥
GateEvolves (some r) (some r') = Advances r r'

Advances-refl : (r : GateRow) → Advances r r
Advances-refl r = ground arith

pub GateEvolves-refl : (o : Option GateRow) → GateEvolves o o
GateEvolves-refl none = tt
GateEvolves-refl (some r) = Advances-refl r

Advances-trans : (a b c : GateRow) → Advances a b → Advances b c → Advances a c
Advances-trans a b c h k = ground arith

pub GateEvolves-trans :
    (a b c : Option GateRow) → GateEvolves a b → GateEvolves b c → GateEvolves a c
GateEvolves-trans none b c h k = tt
GateEvolves-trans (some a) none c h k = absurd h
GateEvolves-trans (some a) (some b) none h k = absurd k
GateEvolves-trans (some a) (some b) (some c) h k = Advances-trans a b c h k

GateEvolves-map :
    (q : GateRow → Bool) (f : GateRow → GateRow) (o : Option GateRow)
    → ((r : GateRow) → q r ≡ true → Advances r (f r))
    → GateEvolves o (Option.map (λ r. if q r then f r else r) o)
GateEvolves-map q f none h = tt
GateEvolves-map q f (some r) h = elim (Bool-cases (q r)) [
  | inl e ↦ rw e (h r e)
  | inr e ↦ rw e (Advances-refl r)
]

GateEvolves-append : (o p : Option GateRow) → GateEvolves o (elim o [ none ↦ p | some r ↦ some r ])
GateEvolves-append none p = tt
GateEvolves-append (some r) p = Advances-refl r

module _ (w r : String) (o : ℤ) where
  GateEvolves-update :
      (q : GateRow → Bool) (f : GateRow → GateRow) (rows : List GateRow)
      → ((x : GateRow) → has_gate_key w r o (f x) ≡ has_gate_key w r o x)
      → ((x : GateRow) → q x ≡ true → Advances x (f x))
      → GateEvolves
          (select_one (has_gate_key w r o) rows)
          (select_one (has_gate_key w r o) (update q f rows))
  GateEvolves-update q f rows key h =
      rw (select_one-update (has_gate_key w r o) q f rows key)
        (GateEvolves-map q f (select_one (has_gate_key w r o) rows) h)

  module _ ⦃library : Library⦄ where
    -- A step advances every gate, whichever gate it is about.
    pub GateStep-GateEvolves :
        {rows rows' : List GateRow}
        → GateStep rows rows'
        → GateEvolves (select_one (has_gate_key w r o) rows) (select_one (has_gate_key w r o) rows')
    GateStep-GateEvolves (stay {rows = rows}) =
        GateEvolves-refl (select_one (has_gate_key w r o) rows)
    GateStep-GateEvolves (append {rows = rows} request next follows) =
        rw (select_one-append (has_gate_key w r o) rows (reserved_row request))
          (GateEvolves-append (select_one (has_gate_key w r o) rows) _)
    GateStep-GateEvolves (bump {rows = rows} w' r' o' st e live) =
        GateEvolves-update (holds_gate w' r' o' st e) (bumped_row e) rows (λ x. refl)
          (λ x q. ground arith)
    GateStep-GateEvolves (commit {rows = rows} w' r' o' e) =
        GateEvolves-update (holds_gate w' r' o' GateState.reserved e) committing_row rows
          (λ x. refl) (λ x q. ground arith)
    GateStep-GateEvolves (publish {rows = rows} w' r' o' e path hash) =
        GateEvolves-update (holds_gate w' r' o' GateState.release_committing e)
          (published_row path hash) rows (λ x. refl) (λ x q. ground arith)
