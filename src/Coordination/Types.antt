-- ===== src/Coordination/Types.antt =====
-- The states, rows and records of coordination.py. A table is the list of its rows, a `NULL`
-- column is an `Option`, and the columns that hold Python's ints are naturals: an ordinal has the
-- constraint `ordinal >= 0`, and an epoch starts at 1 and only grows. A `Path` is its text, `str(path)`.
use instruct_eval.Common.{ℕ, ℤ, String, ◌≡◌, ◌↔◌, Bool, true, false, Option, List, Eq, arith}
use instruct_eval.Coordination.Library.{Bytes}

pub data InvocationState : Type 0 where
  started result_committed indeterminate_terminalized : InvocationState

pub data InvocationDisposition : Type 0 where
  acquired result_recovered indeterminate in_flight : InvocationDisposition

pub data GateState : Type 0 where
  reserved release_committing published : GateState

pub data GateDisposition : Type 0 where
  acquired recovered committing published : GateDisposition

pub data ChildAuthorizationState : Type 0 where
  issued claimed : ChildAuthorizationState

pub record InvocationReservation : Type 0 where
  pub disposition : InvocationDisposition
  pub invocation_key : String
  pub owner_epoch : Option ℕ
  pub input_bytes : Bytes
  pub input_sha256 : String
  pub result_bytes : Option Bytes
  pub result_sha256 : Option String

pub record InvocationCommitRequest : Type 0 where
  pub invocation_key : String
  pub owner_epoch : ℕ
  pub state : InvocationState
  pub epoch : ℕ
  pub result_bytes : Bytes
  pub result_sha256 : String

pub record GateReservation : Type 0 where
  pub disposition : GateDisposition
  pub workflow_id : String
  pub run_id : String
  pub ordinal : ℤ
  pub prior_record_sha256 : String
  pub expected_revision_sha256 : String
  pub branch_kind : String
  pub record_input_bytes : Bytes
  pub record_input_sha256 : String
  pub owner_epoch : Option ℕ
  pub publication_path : Option String
  pub publication_sha256 : Option String

pub record GateRequest : Type 0 where
  pub workflow_id : String
  pub run_id : String
  pub ordinal : ℤ
  pub prior_record_sha256 : String
  pub expected_revision_sha256 : String
  pub branch_kind : String
  pub record_input_bytes : Bytes

pub record GateCommitRequest : Type 0 where
  pub workflow_id : String
  pub run_id : String
  pub ordinal : ℤ
  pub expected_revision_sha256 : String
  pub owner_epoch : ℕ

pub record GatePublicationRequest : Type 0 where
  pub workflow_id : String
  pub run_id : String
  pub ordinal : ℤ
  pub expected_revision_sha256 : String
  pub owner_epoch : ℕ
  pub final_artifact_path : String
  pub expected_bytes : Bytes
  pub expected_sha256 : String

-- A row of `invocations`.
pub record InvocationRow : Type 0 where
  pub invocation_key : String
  pub state : InvocationState
  pub input_bytes : Bytes
  pub input_sha256 : String
  pub result_bytes : Option Bytes
  pub result_sha256 : Option String
  pub owner_epoch : ℕ

-- A row of `gates`.
pub record GateRow : Type 0 where
  pub workflow_id : String
  pub run_id : String
  pub ordinal : ℕ
  pub prior_record_sha256 : String
  pub expected_revision_sha256 : String
  pub branch_kind : String
  pub record_input_bytes : Bytes
  pub record_input_sha256 : String
  pub state : GateState
  pub owner_epoch : ℕ
  pub publication_path : Option String
  pub publication_sha256 : Option String

-- `GateReservationContext`
pub record GateReservationContext : Type 0 where
  pub disposition : GateDisposition
  pub request : GateRequest
  pub row : Option GateRow
  pub owner_epoch : Option ℕ
  pub publication_path : Option String
  pub publication_sha256 : Option String

-- `ChildAuthorization`, and a row of `child_authorizations`, whose `experiment_id` is `NOT NULL`.
pub record ChildAuthorization : Type 0 where
  pub campaign_id : String
  pub parent_workflow_id : String
  pub parent_run_id : String
  pub claim_sha256 : String
  pub fingerprint_sha256 : String
  pub coverage_sha256 : String
  pub experiment_id : String
  pub child_workflow_id : Option String
  pub child_run_id : Option String
  pub state : ChildAuthorizationState
  pub owner_epoch : ℕ

pub record DecisionReservation : Type 0 where
  pub disposition : GateDisposition
  pub workflow_id : String
  pub run_id : String
  pub target_kind : String
  pub target_id : String
  pub sequence : ℤ
  pub prior_record_sha256 : String
  pub expected_revision_sha256 : String
  pub record_input_bytes : Bytes
  pub record_input_sha256 : String
  pub owner_epoch : Option ℕ
  pub publication_path : Option String
  pub publication_sha256 : Option String

pub record DecisionRequest : Type 0 where
  pub workflow_id : String
  pub run_id : String
  pub target_kind : String
  pub target_id : String
  pub sequence : ℤ
  pub prior_record_sha256 : String
  pub expected_revision_sha256 : String
  pub record_input_bytes : Bytes

pub record DecisionCommitRequest : Type 0 where
  pub workflow_id : String
  pub run_id : String
  pub target_kind : String
  pub target_id : String
  pub sequence : ℤ
  pub expected_revision_sha256 : String
  pub owner_epoch : ℕ

pub record DecisionPublicationRequest : Type 0 where
  pub workflow_id : String
  pub run_id : String
  pub target_kind : String
  pub target_id : String
  pub sequence : ℤ
  pub expected_revision_sha256 : String
  pub owner_epoch : ℕ
  pub final_artifact_path : String
  pub expected_bytes : Bytes
  pub expected_sha256 : String

pub record PublishedDecisionRequest : Type 0 where
  pub workflow_id : String
  pub run_id : String
  pub target_kind : String
  pub target_id : String
  pub sequence : ℤ

pub record ChildAuthorizationRequest : Type 0 where
  pub campaign_id : String
  pub parent_workflow_id : String
  pub parent_run_id : String
  pub claim_sha256 : String
  pub fingerprint_sha256 : String
  pub coverage_sha256 : String

pub record ChildAuthorizationClaimRequest : Type 0 where
  pub campaign_id : String
  pub parent_workflow_id : String
  pub parent_run_id : String
  pub claim_sha256 : String
  pub fingerprint_sha256 : String
  pub coverage_sha256 : String
  pub experiment_id : String
  pub child_workflow_id : String
  pub child_run_id : String

pub record ClaimedChildAuthorizationRequest : Type 0 where
  pub campaign_id : String
  pub experiment_id : String
  pub child_workflow_id : String
  pub child_run_id : String

-- `CoordinationStore`: its limits, and the tables of its database.
pub record Store : Type 0 where
  pub max_invocation_input_bytes : ℕ
  pub max_invocation_result_bytes : ℕ
  pub max_private_subject_result_bytes : ℕ
  pub invocations : List InvocationRow
  pub gates : List GateRow
  pub child_authorizations : List ChildAuthorization

abbrev invocation_state_beq : InvocationState → InvocationState → Bool
invocation_state_beq started started = true
invocation_state_beq result_committed result_committed = true
invocation_state_beq indeterminate_terminalized indeterminate_terminalized = true
invocation_state_beq _ _ = false

abbrev gate_state_beq : GateState → GateState → Bool
gate_state_beq reserved reserved = true
gate_state_beq release_committing release_committing = true
gate_state_beq GateState.published GateState.published = true
gate_state_beq _ _ = false

abbrev child_state_beq : ChildAuthorizationState → ChildAuthorizationState → Bool
child_state_beq issued issued = true
child_state_beq claimed claimed = true
child_state_beq _ _ = false

pub invocation_state_beq_iff : (a b : InvocationState) → (invocation_state_beq a b ≡ true) ↔ (a ≡ b)
invocation_state_beq_iff a b = (λ h. ground arith, λ h. ground arith)

pub gate_state_beq_iff : (a b : GateState) → (gate_state_beq a b ≡ true) ↔ (a ≡ b)
gate_state_beq_iff a b = (λ h. ground arith, λ h. ground arith)

pub child_state_beq_iff : (a b : ChildAuthorizationState) → (child_state_beq a b ≡ true) ↔ (a ≡ b)
child_state_beq_iff a b = (λ h. ground arith, λ h. ground arith)

instance abbrev pub invocation_state_eq : Eq InvocationState
invocation_state_eq = record { beq = invocation_state_beq; beq_iff = invocation_state_beq_iff }

instance abbrev pub gate_state_eq : Eq GateState
gate_state_eq = record { beq = gate_state_beq; beq_iff = gate_state_beq_iff }

instance abbrev pub child_state_eq : Eq ChildAuthorizationState
child_state_eq = record { beq = child_state_beq; beq_iff = child_state_beq_iff }
