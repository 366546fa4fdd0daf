-- ===== src/Coordination/Library.antt =====
-- What coordination.py takes from hashlib, json and pathlib, as parameters of the model.
use instruct_eval.Common.{ℕ, String, List}

abbrev pub Bytes : Type 0
Bytes = List ℕ

pub record Library : Type 0 where
  -- `sha256(value).hexdigest()`
  pub digest : Bytes → String
  -- `json.dumps` of the four names that a decision ledger is bound to
  pub ledger_binding : String → String → String → String → Bytes
  -- `json.dumps` of a decision's prior record hash and record input
  pub decision_envelope : String → Bytes → Bytes
  -- `str(Path(text))`; two paths are equal where these texts are
  pub path_text : String → String
