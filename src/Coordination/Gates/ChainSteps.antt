-- ===== src/Coordination/Gates/ChainSteps.antt =====
-- Every step of the gate ledger keeps its chain.
use instruct_eval.Common.{
  ℕ, ℤ, pos, negsuc, equals, minus_one, to_column, ◌≡◌, refl, true, List, [], ◌∷◌, ◌++◌, nat_eq,
  string_eq, list_eq, option_eq, arith, All, All-append, ==_refl, nat_beq_iff,
}
use instruct_eval.Sql.{select_one, select_one-append}
use instruct_eval.Sql.Distinct.{Distinct-append}
use instruct_eval.Coordination.Library.{Library}
use instruct_eval.Coordination.Types.{GateState, GateRow, GateRequest, gate_state_eq}
use instruct_eval.Coordination.Gates.{has_gate_key, holds_gate}
use instruct_eval.Coordination.Gates.Reserve.{reserved_row, next_ordinal}
use instruct_eval.Coordination.Gates.Release.{published_row}
use instruct_eval.Coordination.Gates.Frame.{Follows, committing_row, bumped_row}
use instruct_eval.Coordination.Gates.Steps.{GateStep, stay, append, bump, commit, publish}
use instruct_eval.Coordination.Gates.Chain.{
  same_gate, Linked, predecessor_of, IsValidGate, IsChained, no_gate_from_next, same_gate_sym,
  Follows-append, IsChained-update,
}

Linked-append :
    (rows : List GateRow) (new x : GateRow) → Linked rows x → Linked (rows ++ new ∷ []) x
Linked-append rows new x h =
    rw
      (select_one-append (has_gate_key x.workflow_id x.run_id (minus_one (pos x.ordinal))) rows new)
      (Follows-append x.ordinal x.prior_record_sha256 (predecessor_of x rows) _ h)

All-Linked-append :
    (rows olds : List GateRow) (new : GateRow)
    → All (Linked rows) olds
    → All (Linked (rows ++ new ∷ [])) olds
All-Linked-append rows [] new h = tt
All-Linked-append rows (x ∷ olds) new h =
    (Linked-append rows new x h.0, All-Linked-append rows olds new h.1)

-- an ordinal that equals a column is that column
equals_column : (z : ℤ) (n : ℕ) → equals z n ≡ true → z ≡ pos n
equals_column (pos m) n h = ground (arith, nat_beq_iff m n)
equals_column (negsuc m) n h = cc

module _ ⦃library : Library⦄ where
  reserved_row-IsValidGate : (request : GateRequest) → IsValidGate (reserved_row request)
  reserved_row-IsValidGate request = record {
    clean = rw (==_refl (library.digest request.record_input_bytes));
    fits = tt;
    epoch_positive = omega arith;
  }

  IsChained-append :
      (request : GateRequest) (rows : List GateRow)
      → (request.ordinal ≡ pos (next_ordinal request.workflow_id request.run_id rows))
      → Follows (to_column request.ordinal) request.prior_record_sha256 (
          select_one
            (has_gate_key request.workflow_id request.run_id (minus_one request.ordinal))
            rows)
      → IsChained rows
      → IsChained (rows ++ reserved_row request ∷ [])
  IsChained-append request rows next follows h = record {
    distinct =
        Distinct-append same_gate rows (reserved_row request) same_gate_sym
          (rw next (no_gate_from_next request.workflow_id request.run_id _ rows (omega arith)))
          h.distinct;
    linked =
        All-append (Linked (rows ++ reserved_row request ∷ [])) rows _
          (All-Linked-append rows rows (reserved_row request) h.linked)
          (
            Linked-append rows (reserved_row request) (reserved_row request)
                (rw next (rw next at follows)),
            tt,
          );
    rows_valid = All-append IsValidGate rows _ h.rows_valid (reserved_row-IsValidGate request, tt);
  }

  -- A step of the ledger keeps the chain.
  pub GateStep-IsChained :
      {rows rows' : List GateRow} → GateStep rows rows' → IsChained rows → IsChained rows'
  GateStep-IsChained stay h = h
  GateStep-IsChained (append {rows = rows} request next follows) h =
      IsChained-append request rows (equals_column request.ordinal _ next) follows h
  GateStep-IsChained (bump {rows = rows} w r o st e live) h =
      IsChained-update (holds_gate w r o st e) (bumped_row e) (λ _ _ _ x. refl)
        (λ x. (refl, refl, refl, refl)) (λ x q. ground arith) rows
        (λ x q v. record { clean = v.clean; fits = v.fits; epoch_positive = omega arith }) h
  GateStep-IsChained (commit {rows = rows} w r o e) h =
      IsChained-update (holds_gate w r o GateState.reserved e) committing_row (λ _ _ _ x. refl)
        (λ x. (refl, refl, refl, refl)) (λ x q. ground arith) rows
        (λ x q v. record {
          clean = v.clean;
          fits = ground (arith, v.fits);
          epoch_positive = v.epoch_positive;
        })
        h
  GateStep-IsChained (publish {rows = rows} w r o e path hash) h =
      IsChained-update (holds_gate w r o GateState.release_committing e) (published_row path hash)
        (λ _ _ _ x. refl) (λ x. (refl, refl, refl, refl)) (λ x q. ground arith) rows
        (λ x q v. record { clean = v.clean; fits = tt; epoch_positive = v.epoch_positive }) h
