-- ===== src/Coordination/Invocations/Rows.antt =====
-- How one call changes the row of one invocation key, whichever keys the call is about.
use instruct_eval.Common.{
  ℕ, String, ◌≡◌, ◌≢◌, refl, Option, none, some, [], ◌∷◌, ◌++◌, nat_eq, string_eq, list_eq,
  option_eq, if◌then◌else◌, arith, eq_iff, ◌⊎◌, inl, inr,
}
use mathlib.Core.Option
use instruct_eval.Sql.{select_one, update, insert, select_one-update, select_one-append}
use instruct_eval.Coordination.Library.{Bytes, Library}
use instruct_eval.Coordination.Types.{
  started, indeterminate_terminalized, InvocationRow, Store, invocation_state_eq,
}
use instruct_eval.Coordination.Invocations.{
  has_key, owned_by, reserve_gate_invocation, gate_invocation_key, started_row, committed_row,
  started_row, committed_row, reserve_invocation, commit_result_within, commit_result,
  commit_private_subject_result, terminalize_indeterminate,
}

unfoldable pub row_of : String → Store → Option InvocationRow
row_of key s = select_one (has_key key) s.invocations

-- What may become of a row: its input and its epoch stay, and a row that has left STARTED stays
-- as it is.
pub record Keeps (r r' : InvocationRow) : Type 0 where
  pub same_key : r'.invocation_key ≡ r.invocation_key
  pub same_input : r'.input_bytes ≡ r.input_bytes
  pub same_input_hash : r'.input_sha256 ≡ r.input_sha256
  pub same_epoch : r'.owner_epoch ≡ r.owner_epoch
  pub settled : r.state ≢ started → r' ≡ r

abbrev pub Evolves : Option InvocationRow → Option InvocationRow → Type 0
Evolves none _ = Unit
Evolves (some r) none = ⊥
Evolves (some r) (some r') = Keeps r r'

Keeps-trans : {a b c : InvocationRow} → Keeps a b → Keeps b c → Keeps a c
Keeps-trans h k = ground arith

pub Evolves-trans : (a b c : Option InvocationRow) → Evolves a b → Evolves b c → Evolves a c
Evolves-trans none b c h k = tt
Evolves-trans (some a) none c h k = absurd h
Evolves-trans (some a) (some b) none h k = absurd k
Evolves-trans (some a) (some b) (some c) h k = Keeps-trans h k

-- `UPDATE invocations SET ... WHERE invocation_key=? AND state='STARTED' AND owner_epoch=?`
abbrev pub updating : String → ℕ → (InvocationRow → InvocationRow) → Store → Store
updating key epoch f s = record s { invocations = update (owned_by key epoch) f s.invocations }

-- What such an update may set: neither the key, nor the input, nor the epoch.
pub record Settles (f : InvocationRow → InvocationRow) : Type 0 where
  pub key : (r : InvocationRow) → (f r).invocation_key ≡ r.invocation_key
  pub input : (r : InvocationRow) → (f r).input_bytes ≡ r.input_bytes
  pub input_hash : (r : InvocationRow) → (f r).input_sha256 ≡ r.input_sha256
  pub epoch : (r : InvocationRow) → (f r).owner_epoch ≡ r.owner_epoch

Keeps-refl : (r : InvocationRow) → Keeps r r
Keeps-refl r = ground arith

Keeps-settled :
    (k : String) (e : ℕ) (f : InvocationRow → InvocationRow) (r : InvocationRow)
    → Settles f
    → Keeps r (if owned_by k e r then f r else r)
Keeps-settled k e f r h = ground (arith, h.key r, h.input r, h.input_hash r, h.epoch r)

Evolves-settled :
    (k : String) (e : ℕ) (f : InvocationRow → InvocationRow) (o : Option InvocationRow)
    → Settles f
    → Evolves o (Option.map (λ r. if owned_by k e r then f r else r) o)
Evolves-settled k e f none h = tt
Evolves-settled k e f (some r) h = Keeps-settled k e f r h

pub Evolves-refl : (o : Option InvocationRow) → Evolves o o
Evolves-refl none = tt
Evolves-refl (some r) = Keeps-refl r

pub row_of-updating :
    (j k : String) (e : ℕ) (f : InvocationRow → InvocationRow) (s : Store)
    → Settles f
    → row_of j (updating k e f s) ≡ Option.map (λ r. if owned_by k e r then f r else r) (row_of j s)
unfolding row_of
row_of-updating j k e f s h =
    select_one-update (has_key j) (owned_by k e) f s.invocations (λ r. rw (h.key r))

updating-Evolves :
    (j k : String) (e : ℕ) (f : InvocationRow → InvocationRow) (s : Store)
    → Settles f
    → Evolves (row_of j s) (row_of j (updating k e f s))
updating-Evolves j k e f s h =
    rw (row_of-updating j k e f s h) (Evolves-settled k e f (row_of j s) h)

abbrev pub terminalized_row : InvocationRow → InvocationRow
terminalized_row r = record r { state = indeterminate_terminalized }

pub committed_row-Settles : (bytes : Bytes) (hash : String) → Settles (committed_row bytes hash)
committed_row-Settles bytes hash = record {
  key = λ r. refl;
  input = λ r. refl;
  input_hash = λ r. refl;
  epoch = λ r. refl;
}

pub terminalized_row-Settles : Settles terminalized_row
terminalized_row-Settles = record {
  key = λ r. refl;
  input = λ r. refl;
  input_hash = λ r. refl;
  epoch = λ r. refl;
}

module _ ⦃library : Library⦄ where
  -- A reservation leaves the store as it is, or adds the row of a new key.
  pub reserve_invocation-store :
      (k : String) (input : Bytes) (s : Store)
      → ((reserve_invocation k input s).1 ≡ s)
        ⊎ ((row_of k s ≡ none)
            × ((reserve_invocation k input s).1
                ≡ record s { invocations = s.invocations ++ started_row k input ∷ [] }))
  unfolding row_of reserve_invocation insert
  reserve_invocation-store k input s = ground arith

  pub reserve_invocation-Evolves :
      (j k : String) (input : Bytes) (s : Store)
      → Evolves (row_of j s) (row_of j (reserve_invocation k input s).1)
  unfolding row_of reserve_invocation insert
  reserve_invocation-Evolves j k input s =
      ground (arith, select_one-append (has_key j) s.invocations (started_row k input), eq_iff k j)

  -- A commit leaves the store as it is, or makes the one update.
  pub commit_result_within-store :
      (k : String) (epoch : ℕ) (bytes : Bytes) (maximum : ℕ) (s : Store)
      → ((commit_result_within k epoch bytes maximum s).1 ≡ s)
        ⊎ ((commit_result_within k epoch bytes maximum s).1
            ≡ updating k epoch (committed_row bytes (library.digest bytes)) s)
  unfolding commit_result_within
  commit_result_within-store k epoch bytes maximum s = ground arith

  pub commit_result_within-Evolves :
      (j k : String) (epoch : ℕ) (bytes : Bytes) (maximum : ℕ) (s : Store)
      → Evolves (row_of j s) (row_of j (commit_result_within k epoch bytes maximum s).1)
  commit_result_within-Evolves j k epoch bytes maximum s =
      elim (commit_result_within-store k epoch bytes maximum s) [
        | inl same ↦ rw same (Evolves-refl (row_of j s))
        | inr e ↦ rw e (updating-Evolves j k epoch _ s (committed_row-Settles _ _))
      ]

  pub reserve_gate_invocation-store :
      (input : Bytes) (s : Store)
      → ((reserve_gate_invocation input s).1 ≡ s)
        ⊎ ((reserve_gate_invocation input s).1
            ≡ (reserve_invocation (gate_invocation_key input) input s).1)
  unfolding reserve_gate_invocation
  reserve_gate_invocation-store input s = ground arith

  pub reserve_gate_invocation-Evolves :
      (j : String) (input : Bytes) (s : Store)
      → Evolves (row_of j s) (row_of j (reserve_gate_invocation input s).1)
  reserve_gate_invocation-Evolves j input s = elim (reserve_gate_invocation-store input s) [
    | inl same ↦ rw same (Evolves-refl (row_of j s))
    | inr e ↦ rw e (reserve_invocation-Evolves j (gate_invocation_key input) input s)
  ]

  pub commit_result-Evolves :
      (j k : String) (epoch : ℕ) (bytes : Bytes) (s : Store)
      → Evolves (row_of j s) (row_of j (commit_result k epoch bytes s).1)
  unfolding commit_result
  commit_result-Evolves j k epoch bytes s =
      commit_result_within-Evolves j k epoch bytes s.max_invocation_result_bytes s

  pub commit_private_subject_result-Evolves :
      (j k : String) (epoch : ℕ) (bytes : Bytes) (s : Store)
      → Evolves (row_of j s) (row_of j (commit_private_subject_result k epoch bytes s).1)
  unfolding commit_private_subject_result
  commit_private_subject_result-Evolves j k epoch bytes s =
      commit_result_within-Evolves j k epoch bytes s.max_private_subject_result_bytes s

pub terminalize_indeterminate-store :
    (k : String) (epoch : ℕ) (s : Store)
    → ((terminalize_indeterminate k epoch s).1 ≡ s)
      ⊎ ((terminalize_indeterminate k epoch s).1 ≡ updating k epoch terminalized_row s)
unfolding terminalize_indeterminate
terminalize_indeterminate-store k epoch s = ground arith

pub terminalize_indeterminate-Evolves :
    (j k : String) (epoch : ℕ) (s : Store)
    → Evolves (row_of j s) (row_of j (terminalize_indeterminate k epoch s).1)
terminalize_indeterminate-Evolves j k epoch s = elim (terminalize_indeterminate-store k epoch s) [
  | inl same ↦ rw same (Evolves-refl (row_of j s))
  | inr e ↦ rw e (updating-Evolves j k epoch _ s terminalized_row-Settles)
]
