-- ===== src/Coordination/Invocations/Outcomes.antt =====
-- What the calls about an invocation return, and when they succeed.
use instruct_eval.Common.{
  ℕ, ◌≤◌, String, ◌≡◌, ◌≢◌, refl, Bool, true, false, none, some, arith, ◌==◌, nat_eq, string_eq,
  list_eq, option_eq, ==_refl, eq_iff, ◌⊎◌, inl, inr, length, list_beq_iff, option_beq_iff,
}
use instruct_eval.Exec.{Result, ok, err, is_ok}
use instruct_eval.Sql.{insert, select_one-update, select_one-append, select_one_passes}
use instruct_eval.Coordination.Library.{Bytes, Library}
use instruct_eval.Coordination.Types.{
  started, result_committed, indeterminate_terminalized, InvocationDisposition,
  InvocationReservation, InvocationRow, Store, invocation_state_eq,
}
use instruct_eval.Coordination.Checks.{CoordinationError}
use instruct_eval.Coordination.Invocations.{
  has_key, owned_by, started_row, committed_row, is_corrupt_invocation, reserve_invocation,
  reserve_gate_invocation, gate_invocation_key, commit_result_within,
}
use instruct_eval.Coordination.Invocations.Rows.{row_of, updating}

-- whether a reservation lets its caller invoke
abbrev pub is_acquired : Result CoordinationError InvocationReservation → Bool
is_acquired (ok res) = elim res.disposition [ InvocationDisposition.acquired ↦ true | _ ↦ false ]
is_acquired (err _) = false

module _ ⦃library : Library⦄ where
  -- ACQUIRED is returned for a new key only, whose row it inserts.
  pub acquired_new_key :
      (k : String) (input : Bytes) (s : Store)
      → is_acquired (reserve_invocation k input s).0 ≡ true
      → (row_of k s ≡ none)
        × (row_of k (reserve_invocation k input s).1 ≡ some (started_row k input))
  unfolding row_of reserve_invocation insert
  acquired_new_key k input s h =
      ground (arith, select_one-append (has_key k) s.invocations (started_row k input), ==_refl k)

  -- A commit that returns has written its bytes, or has found them written.
  pub commit_result_lands :
      (k : String) (epoch : ℕ) (bytes : Bytes) (maximum : ℕ) (r : InvocationRow) (s : Store)
      {res : InvocationReservation}
      → row_of k s ≡ some r
      → (commit_result_within k epoch bytes maximum s).0 ≡ ok res
      → (is_corrupt_invocation r ≡ false)
        × (res.input_bytes ≡ r.input_bytes)
        × ((r.state ≡ result_committed)
              × (r.result_bytes ≡ some bytes)
              × ((commit_result_within k epoch bytes maximum s).1 ≡ s)
            ⊎ (r.state ≡ started)
              × ((r.owner_epoch == epoch) ≡ true)
              × ((commit_result_within k epoch bytes maximum s).1
                  ≡ updating k epoch (committed_row bytes (library.digest bytes)) s))
  unfolding row_of commit_result_within
  commit_result_lands k epoch bytes maximum r s found h =
      ground (arith, option_beq_iff r.result_bytes (some bytes))

  -- A commit to a key whose row is STARTED under another epoch, or terminalized as indeterminate,
  -- or committed with other bytes, raises and changes nothing.
  pub commit_result_fenced :
      (k : String) (epoch : ℕ) (bytes : Bytes) (maximum : ℕ) (r : InvocationRow) (s : Store)
      → row_of k s ≡ some r
      → ((r.state ≡ started) × (r.owner_epoch ≢ epoch))
        ⊎ (r.state ≡ indeterminate_terminalized)
        ⊎ ((r.state ≡ result_committed) × (r.result_bytes ≢ some bytes))
      → (is_ok (commit_result_within k epoch bytes maximum s).0 ≡ false)
        × ((commit_result_within k epoch bytes maximum s).1 ≡ s)
  unfolding commit_result_within row_of
  commit_result_fenced k epoch bytes maximum r s found why =
      ground (arith, option_beq_iff r.result_bytes (some bytes))

  -- What the row holds once a result is committed.
  pub record Holds (bytes : Bytes) (r r' : InvocationRow) : Type 0 where
    pub committed : r'.state ≡ result_committed
    pub result : r'.result_bytes ≡ some bytes
    pub result_hash : r'.result_sha256 ≡ some (library.digest bytes)
    pub input : r'.input_bytes ≡ r.input_bytes
    pub input_hash : r'.input_sha256 ≡ library.digest r.input_bytes
    pub clean : is_corrupt_invocation r' ≡ false

  Holds-same :
      (bytes : Bytes) (r : InvocationRow)
      → is_corrupt_invocation r ≡ false
      → r.state ≡ result_committed
      → r.result_bytes ≡ some bytes
      → Holds bytes r r
  unfolding is_corrupt_invocation
  Holds-same bytes r h st res = ground (
    arith,
    option_beq_iff (some (library.digest bytes)) r.result_sha256,
    eq_iff (library.digest r.input_bytes) r.input_sha256,
  )

  Holds-committed :
      (bytes : Bytes) (r : InvocationRow)
      → is_corrupt_invocation r ≡ false
      → Holds bytes r (committed_row bytes (library.digest bytes) r)
  unfolding is_corrupt_invocation
  Holds-committed bytes r h = ground (
    arith,
    eq_iff (library.digest r.input_bytes) r.input_sha256,
    eq_iff (library.digest bytes) (library.digest bytes),
  )

  row_of-committed :
      (k : String) (epoch : ℕ) (bytes : Bytes) (r : InvocationRow) (s : Store)
      → row_of k s ≡ some r
      → r.state ≡ started
      → (r.owner_epoch == epoch) ≡ true
      → row_of k (updating k epoch (committed_row bytes (library.digest bytes)) s)
        ≡ some (committed_row bytes (library.digest bytes) r)
  unfolding row_of
  row_of-committed k epoch bytes r s found st ep =
      rw
        (select_one-update (has_key k) (owned_by k epoch)
          (committed_row bytes (library.digest bytes)) s.invocations (λ x. refl))
        (rw found (ground (arith, select_one_passes (has_key k) s.invocations r)))

  pub committed_row_held :
      (k : String) (epoch : ℕ) (bytes : Bytes) (maximum : ℕ) (r : InvocationRow) (s : Store)
      {res : InvocationReservation}
      → row_of k s ≡ some r
      → (commit_result_within k epoch bytes maximum s).0 ≡ ok res
      → (r' : InvocationRow) × (row_of k (commit_result_within k epoch bytes maximum s).1 ≡ some r')
        × Holds bytes r r'
  committed_row_held k epoch bytes maximum r s found h =
      let (clean, _, how) = commit_result_lands k epoch bytes maximum r s found h in
      elim how [
        | inl (st, res, same) ↦ (r, rw same found, Holds-same bytes r clean st res)
        | inr (st, ep, e) ↦ (
          committed_row bytes (library.digest bytes) r,
          rw e (row_of-committed k epoch bytes r s found st ep),
          Holds-committed bytes r clean,
        )
      ]

  -- A committed result is handed back for the same input, and nothing is written.
  pub reserve_invocation_recovers :
      (k : String) (bytes : Bytes) (r r' : InvocationRow) (s : Store)
      → row_of k s ≡ some r'
      → Holds bytes r r'
      → (k == "") ≡ false
      → length r.input_bytes ≤ s.max_invocation_input_bytes
      → reserve_invocation k r.input_bytes s ≡ (
        ok (record {
          disposition = InvocationDisposition.result_recovered;
          invocation_key = k;
          owner_epoch = none;
          input_bytes = r.input_bytes;
          input_sha256 = library.digest r.input_bytes;
          result_bytes = some bytes;
          result_sha256 = some (library.digest bytes);
        }),
        s,
      )
  unfolding reserve_invocation row_of
  reserve_invocation_recovers k bytes r r' s found h named fits = ground (
    arith,
    list_beq_iff r'.input_bytes r.input_bytes,
    eq_iff r'.input_sha256 (library.digest r.input_bytes),
  )

  pub committing_key_named :
      (k : String) (epoch : ℕ) (bytes : Bytes) (maximum : ℕ) (s : Store)
      {res : InvocationReservation}
      → (commit_result_within k epoch bytes maximum s).0 ≡ ok res
      → (k == "") ≡ false
  unfolding commit_result_within
  committing_key_named k epoch bytes maximum s h = ground arith

  pub acquired_gate_key :
      (input : Bytes) (s : Store)
      → is_acquired (reserve_gate_invocation input s).0 ≡ true
      → (row_of (gate_invocation_key input) s ≡ none)
        × (row_of (gate_invocation_key input) (reserve_gate_invocation input s).1
            ≡ some (started_row (gate_invocation_key input) input))
  unfolding reserve_gate_invocation
  acquired_gate_key input s h = ground (arith, acquired_new_key (gate_invocation_key input) input s)
