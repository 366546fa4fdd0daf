-- ===== src/Coordination/Calls/InvocationLife.antt =====
-- The life of an invocation under any sequence of calls to the store.
use instruct_eval.Common.{String, ◌≡◌, List, [], ◌∷◌, nat_eq, string_eq}
use instruct_eval.Sql.{select_one}
use instruct_eval.Coordination.Library.{Library}
use instruct_eval.Coordination.Types.{Store, invocation_state_eq}
use instruct_eval.Coordination.Invocations.{has_key}
use instruct_eval.Coordination.Invocations.Rows.{
  row_of, Evolves, Evolves-refl, reserve_invocation-Evolves, reserve_gate_invocation-Evolves,
  commit_result-Evolves, commit_private_subject_result-Evolves, terminalize_indeterminate-Evolves,
  Evolves-trans,
}
use instruct_eval.Coordination.Calls.{Call, perform, run}
use instruct_eval.Coordination.Calls.Frame

same_rows-Evolves :
    (j : String) (s s' : Store)
    → s'.invocations ≡ s.invocations
    → Evolves (row_of j s) (row_of j s')
unfolding row_of
same_rows-Evolves j s s' h = rw h (Evolves-refl (select_one (has_key j) s.invocations))

module _ ⦃library : Library⦄ where
  pub perform-Evolves :
      (j : String) (call : Call) (s : Store) → Evolves (row_of j s) (row_of j (perform call s))
  unfolding perform
  perform-Evolves j (Call.reserve_invocation k b) s = reserve_invocation-Evolves j k b s
  perform-Evolves j (Call.reserve_gate_invocation b) s = reserve_gate_invocation-Evolves j b s
  perform-Evolves j (Call.commit_result k e b) s = commit_result-Evolves j k e b s
  perform-Evolves j (Call.commit_private_subject_result k e b) s =
      commit_private_subject_result-Evolves j k e b s
  perform-Evolves j (Call.terminalize_indeterminate k e) s =
      terminalize_indeterminate-Evolves j k e s
  perform-Evolves j (Call.reserve_gate r) s =
      same_rows-Evolves j s _ (Frame.reserve_gate-frame r s).invocations
  perform-Evolves j (Call.begin_release_commit r) s =
      same_rows-Evolves j s _ (Frame.begin_release_commit-frame r s).invocations
  perform-Evolves j (Call.publish_gate f r) s =
      same_rows-Evolves j s _ (Frame.publish_gate-frame f r s).invocations
  perform-Evolves j (Call.reserve_decision r) s =
      same_rows-Evolves j s _ (Frame.reserve_decision-frame r s).invocations
  perform-Evolves j (Call.begin_decision_commit r) s =
      same_rows-Evolves j s _ (Frame.begin_decision_commit-frame r s).invocations
  perform-Evolves j (Call.publish_decision f r) s =
      same_rows-Evolves j s _ (Frame.publish_decision-frame f r s).invocations
  perform-Evolves j (Call.issue_child_authorization r experiment) s =
      same_rows-Evolves j s _ (Frame.issue_child_authorization-frame r experiment s).invocations
  perform-Evolves j (Call.claim_child_authorization r) s =
      same_rows-Evolves j s _ (Frame.claim_child_authorization-frame r s).invocations

  pub run-Evolves :
      (j : String) (calls : List Call) (s : Store) → Evolves (row_of j s) (row_of j (run calls s))
  unfolding run
  run-Evolves j [] s = Evolves-refl (row_of j s)
  run-Evolves j (call ∷ calls) s =
      Evolves-trans (row_of j s) (row_of j (perform call s)) (row_of j (run calls (perform call s)))
        (perform-Evolves j call s) (run-Evolves j calls (perform call s))
