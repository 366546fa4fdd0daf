-- ===== src/Workflows/Experiment/Ending/Design.antt =====
-- How the stages from the design to the freeze end.
use instruct_eval.Common.{String, Bool, true, false}
use instruct_eval.Exec.Ensures.{Ensures}
use instruct_eval.Workflows.Experiment.{GateResult, is_terminal_gate}
use instruct_eval.Workflows.Experiment.Decisions.{World}
use instruct_eval.Workflows.Experiment.Quiet.{record_map_lifecycle-Quiet}
use instruct_eval.Workflows.Experiment.Sound.{Live, Live-by}
use instruct_eval.Workflows.Experiment.Ends.{NextEnds, modify-Live}
use instruct_eval.Workflows.Experiment.Ending.{live_rules}
use instruct_eval.Workflows.Experiment.Design.{
  Design, conclude_g2, conclude_g1, commit_design_gates, freeze_or_reject, conclude_freeze,
  prepare_freeze,
}

module _ ⦃world : World⦄ where
  conclude_g2-Ends :
      (design : Design) (found : GateResult)
      → Ensures Live (conclude_g2 design found) (NextEnds is_terminal_gate) Live
  unfolding conclude_g2
  conclude_g2-Ends design found = search live_rules depth 40

  conclude_g1-Ends :
      (design : Design) (found : GateResult)
      → Ensures Live (conclude_g1 design found) (NextEnds is_terminal_gate) Live
  unfolding conclude_g1
  conclude_g1-Ends design found = search (live_rules, conclude_g2-Ends) depth 40

  pub commit_design_gates-Ends : Ensures Live commit_design_gates (NextEnds is_terminal_gate) Live
  unfolding commit_design_gates
  commit_design_gates-Ends = search (live_rules, conclude_g1-Ends) depth 60

  freeze_or_reject-Ends :
      (unbound : Bool) (map_ref : String)
      → Ensures Live (freeze_or_reject unbound map_ref) (NextEnds is_terminal_gate) Live
  unfolding freeze_or_reject
  freeze_or_reject-Ends true map_ref = search live_rules depth 40
  freeze_or_reject-Ends false map_ref = search (live_rules, modify-Live, Live-by) depth 40

  conclude_freeze-Ends :
      (design : Design) (map_ref : String) (found : GateResult)
      → Ensures Live (conclude_freeze design map_ref found) (NextEnds is_terminal_gate) Live
  unfolding conclude_freeze
  conclude_freeze-Ends design map_ref found = search (live_rules, freeze_or_reject-Ends) depth 40

  pub prepare_freeze-Ends :
      (design : Design) → Ensures Live (prepare_freeze design) (NextEnds is_terminal_gate) Live
  unfolding prepare_freeze
  prepare_freeze-Ends design =
      search (live_rules, record_map_lifecycle-Quiet, conclude_freeze-Ends) depth 60
