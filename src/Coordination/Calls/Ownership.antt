-- ===== src/Coordination/Calls/Ownership.antt =====
-- What the ledger promises to those who invoke roles: an invocation is acquired once, and a result
-- that is committed once is handed back for ever.
use instruct_eval.Common.{
  ℕ, ◌+◌, ◌≤◌, String, ◌≡◌, ◌≢◌, refl, Bool, true, false, Option, none, some, List, [], ◌∷◌, arith,
  ◌==◌, string_eq, if◌then◌else◌, length, Bool-cases, inl, inr, eq_iff,
}
use instruct_eval.Exec.{ok}
use instruct_eval.Coordination.Library.{Bytes, Library}
use instruct_eval.Coordination.Types.{
  started, InvocationDisposition, InvocationReservation, InvocationRow, Store,
}
use instruct_eval.Coordination.Invocations.{
  reserve_invocation, reserve_gate_invocation, gate_invocation_key, commit_result,
}
use instruct_eval.Coordination.Invocations.Rows.{row_of, Evolves}
use instruct_eval.Coordination.Invocations.Outcomes.{
  is_acquired, acquired_new_key, acquired_gate_key, committed_row_held, reserve_invocation_recovers,
  committing_key_named,
}
use instruct_eval.Coordination.Calls.{Call, perform, run}
use instruct_eval.Coordination.Calls.InvocationLife.{perform-Evolves, run-Evolves}

-- A row that has left STARTED stays as it is.
row_settled :
    (r : InvocationRow) (o : Option InvocationRow)
    → Evolves (some r) o
    → r.state ≢ started
    → o ≡ some r
row_settled r none h st = absurd h
row_settled r (some r') h st = rw (h.settled st)

row_stays : (o o' : Option InvocationRow) → Evolves o o' → o ≢ none → o' ≢ none
row_stays none o' h e = absurd (e refl)
row_stays (some r) none h e = absurd h
row_stays (some r) (some r') h e = λ p. cc

module _ ⦃library : Library⦄ where
  -- whether a call acquires the invocation `key`
  abbrev pub acquires : String → Call → Store → Bool
  acquires key (Call.reserve_invocation k b) s =
      if k == key then is_acquired (reserve_invocation k b s).0 else false
  acquires key (Call.reserve_gate_invocation b) s =
      if gate_invocation_key b == key then is_acquired (reserve_gate_invocation b s).0 else false
  acquires _ _ _ = false

  -- how often it is acquired along a sequence of calls
  pub acquisitions : String → List Call → Store → ℕ
  acquisitions key [] s = 0
  acquisitions key (call ∷ calls) s =
      (if acquires key call s then 1 else 0) + acquisitions key calls (perform call s)

  acquires_new_key :
      (key : String) (call : Call) (s : Store)
      → acquires key call s ≡ true
      → (row_of key s ≡ none) × (row_of key (perform call s) ≢ none)
  unfolding perform
  acquires_new_key key (Call.reserve_invocation k b) s h =
      ground (arith, eq_iff k key, acquired_new_key k b s)
  acquires_new_key key (Call.reserve_gate_invocation b) s h =
      ground (arith, eq_iff (gate_invocation_key b) key, acquired_gate_key b s)
  acquires_new_key key _ s h = cc

  acquisitions_of_known :
      (key : String) (calls : List Call) (s : Store)
      → row_of key s ≢ none
      → acquisitions key calls s ≡ 0
  unfolding acquisitions
  acquisitions_of_known key [] s h = refl
  acquisitions_of_known key (call ∷ calls) s h = elim (Bool-cases (acquires key call s)) [
    | inl e ↦ absurd (h (acquires_new_key key call s e).0)
    | inr e ↦ rw e (
        omega (
          arith,
          acquisitions_of_known key calls (perform call s) (
              row_stays (row_of key s) (row_of key (perform call s)) (perform-Evolves key call s)
                h),
        ))
  ]

  -- From any store, along any sequence of calls, the reservations of one invocation key are
  -- answered ACQUIRED at most once.
  pub acquired_at_most_once :
      (key : String) (calls : List Call) (s : Store) → acquisitions key calls s ≤ 1
  unfolding acquisitions
  acquired_at_most_once key [] s = omega arith
  acquired_at_most_once key (call ∷ calls) s = elim (Bool-cases (acquires key call s)) [
    | inl e ↦ rw e (
        omega (
          arith,
          acquisitions_of_known key calls (perform call s) (acquires_new_key key call s e).1,
        ))
    | inr e ↦ rw e (omega (arith, acquired_at_most_once key calls (perform call s)))
  ]

  -- Once `commit_result` has returned for an invocation, then after any further calls a
  -- reservation of the same key with the same input, if that is within the limit, recovers exactly
  -- the committed bytes with their hash, and leaves the store as it is.
  pub result_recovered_forever :
      (k : String) (epoch : ℕ) (bytes : Bytes) (r : InvocationRow) (calls : List Call) (s : Store)
      {res : InvocationReservation}
      → row_of k s ≡ some r
      → (commit_result k epoch bytes s).0 ≡ ok res
      → length r.input_bytes
        ≤ (run calls (commit_result k epoch bytes s).1).max_invocation_input_bytes
      → reserve_invocation k r.input_bytes (run calls (commit_result k epoch bytes s).1) ≡ (
        ok (record {
          disposition = InvocationDisposition.result_recovered;
          invocation_key = k;
          owner_epoch = none;
          input_bytes = r.input_bytes;
          input_sha256 = library.digest r.input_bytes;
          result_bytes = some bytes;
          result_sha256 = some (library.digest bytes);
        }),
        run calls (commit_result k epoch bytes s).1,
      )
  unfolding commit_result
  result_recovered_forever k epoch bytes r calls s found h fits =
      let (r', held, holds) =
        committed_row_held k epoch bytes s.max_invocation_result_bytes r s found h in
      let t = (commit_result k epoch bytes s).1 in
      let life = run-Evolves k calls t in
      reserve_invocation_recovers k bytes r r' (run calls t)
        (row_settled r' (row_of k (run calls t)) (rw held at life) (λ e. cc holds.committed)) holds
        (committing_key_named k epoch bytes s.max_invocation_result_bytes s h) fits
