-- ===== src/Coordination/Invocations/Validity.antt =====
-- The well-formed table of invocations, and that its calls keep it so.
use instruct_eval.Common.{
  ℕ, String, ◌≡◌, refl, Bool, true, false, Option, none, some, List, [], ◌∷◌, ◌++◌, arith, nat_eq,
  string_eq, list_eq, option_eq, ==_refl, eq_sym, eq_iff, inl, inr, All, All-append,
}
use instruct_eval.Sql.{All-update}
use instruct_eval.Sql.Distinct.{Distinct, Distinct-update, Distinct-append}
use instruct_eval.Coordination.Library.{Bytes, Library}
use instruct_eval.Coordination.Types.{
  result_committed, InvocationState, InvocationRow, Store, invocation_state_eq,
}
use instruct_eval.Coordination.Invocations.{
  has_key, owned_by, started_row, committed_row, is_corrupt_invocation, reserve_invocation,
  reserve_gate_invocation, gate_invocation_key, commit_result_within, commit_result,
  commit_private_subject_result, terminalize_indeterminate,
}
use instruct_eval.Coordination.Invocations.Rows.{
  row_of, updating, terminalized_row, reserve_invocation-store, reserve_gate_invocation-store,
  commit_result_within-store, terminalize_indeterminate-store,
}

abbrev pub same_invocation : InvocationRow → InvocationRow → Bool
same_invocation r s = has_key r.invocation_key s

-- Only a row whose result is committed holds one.
abbrev pub FitsState : InvocationState → Option Bytes → Type 0
FitsState result_committed none = ⊥
FitsState result_committed (some _) = Unit
FitsState _ none = Unit
FitsState _ (some _) = ⊥

module _ ⦃library : Library⦄ where
  -- The hashes of a row are those of its bytes, and its epoch is the first.
  pub record IsValidRow (r : InvocationRow) : Type 0 where
    pub clean : is_corrupt_invocation r ≡ false
    pub fits : FitsState r.state r.result_bytes
    pub first_epoch : r.owner_epoch ≡ 1

  pub record IsValid (rows : List InvocationRow) : Type 0 where
    pub distinct : Distinct same_invocation rows
    pub rows_valid : All IsValidRow rows

  started_row-IsValidRow : (k : String) (input : Bytes) → IsValidRow (started_row k input)
  unfolding is_corrupt_invocation
  started_row-IsValidRow k input = record {
    clean = rw (==_refl (library.digest input));
    fits = tt;
    first_epoch = refl;
  }

  committed_row-IsValidRow :
      (bytes : Bytes) (r : InvocationRow)
      → IsValidRow r
      → IsValidRow (committed_row bytes (library.digest bytes) r)
  unfolding is_corrupt_invocation
  committed_row-IsValidRow bytes r h = record {
    clean = ground (arith, h.clean, eq_iff (library.digest bytes) (library.digest bytes));
    fits = tt;
    first_epoch = h.first_epoch;
  }

  terminalized_row-IsValidRow :
      (k : String) (epoch : ℕ) (r : InvocationRow)
      → owned_by k epoch r ≡ true
      → IsValidRow r
      → IsValidRow (terminalized_row r)
  unfolding is_corrupt_invocation
  terminalized_row-IsValidRow k epoch r q h = record {
    clean = h.clean;
    fits = ground (arith, h.fits);
    first_epoch = h.first_epoch;
  }

  append-IsValid :
      (k : String) (input : Bytes) (s : Store)
      → row_of k s ≡ none
      → IsValid s.invocations
      → IsValid (s.invocations ++ started_row k input ∷ [])
  unfolding row_of
  append-IsValid k input s fresh h = record {
    distinct =
        Distinct-append same_invocation s.invocations (started_row k input)
          (λ a b. eq_sym b.invocation_key a.invocation_key) fresh h.distinct;
    rows_valid =
        All-append IsValidRow s.invocations _ h.rows_valid (started_row-IsValidRow k input, tt);
  }

  updating-IsValid :
      (k : String) (epoch : ℕ) (f : InvocationRow → InvocationRow) (s : Store)
      → ((r : InvocationRow) → (f r).invocation_key ≡ r.invocation_key)
      → ((r : InvocationRow) → owned_by k epoch r ≡ true → IsValidRow r → IsValidRow (f r))
      → IsValid s.invocations
      → IsValid (updating k epoch f s).invocations
  updating-IsValid k epoch f s same keep h = record {
    distinct =
        Distinct-update same_invocation (owned_by k epoch) f s.invocations (λ a b. rw (same b))
          (λ a b. rw (same a)) h.distinct;
    rows_valid = All-update IsValidRow (owned_by k epoch) f s.invocations keep h.rows_valid;
  }

  pub reserve_invocation-IsValid :
      (k : String) (input : Bytes) (s : Store)
      → IsValid s.invocations
      → IsValid (reserve_invocation k input s).1.invocations
  reserve_invocation-IsValid k input s h = elim (reserve_invocation-store k input s) [
    | inl same ↦ rw same h
    | inr (fresh, e) ↦ rw e (append-IsValid k input s fresh h)
  ]

  pub reserve_gate_invocation-IsValid :
      (input : Bytes) (s : Store)
      → IsValid s.invocations
      → IsValid (reserve_gate_invocation input s).1.invocations
  reserve_gate_invocation-IsValid input s h = elim (reserve_gate_invocation-store input s) [
    | inl same ↦ rw same h
    | inr e ↦ rw e (reserve_invocation-IsValid (gate_invocation_key input) input s h)
  ]

  pub commit_result_within-IsValid :
      (k : String) (epoch : ℕ) (bytes : Bytes) (maximum : ℕ) (s : Store)
      → IsValid s.invocations
      → IsValid (commit_result_within k epoch bytes maximum s).1.invocations
  commit_result_within-IsValid k epoch bytes maximum s h =
      elim (commit_result_within-store k epoch bytes maximum s) [
        | inl same ↦ rw same h
        | inr e ↦ rw e (
            updating-IsValid k epoch _ s (λ r. refl)
              (λ r _ valid. committed_row-IsValidRow bytes r valid) h)
      ]

  pub terminalize_indeterminate-IsValid :
      (k : String) (epoch : ℕ) (s : Store)
      → IsValid s.invocations
      → IsValid (terminalize_indeterminate k epoch s).1.invocations
  terminalize_indeterminate-IsValid k epoch s h = elim (terminalize_indeterminate-store k epoch s) [
    | inl same ↦ rw same h
    | inr e ↦
        rw e (updating-IsValid k epoch _ s (λ r. refl) (terminalized_row-IsValidRow k epoch) h)
  ]

  pub commit_result-IsValid :
      (k : String) (epoch : ℕ) (bytes : Bytes) (s : Store)
      → IsValid s.invocations
      → IsValid (commit_result k epoch bytes s).1.invocations
  unfolding commit_result
  commit_result-IsValid k epoch bytes s h =
      commit_result_within-IsValid k epoch bytes s.max_invocation_result_bytes s h

  pub commit_private_subject_result-IsValid :
      (k : String) (epoch : ℕ) (bytes : Bytes) (s : Store)
      → IsValid s.invocations
      → IsValid (commit_private_subject_result k epoch bytes s).1.invocations
  unfolding commit_private_subject_result
  commit_private_subject_result-IsValid k epoch bytes s h =
      commit_result_within-IsValid k epoch bytes s.max_private_subject_result_bytes s h
