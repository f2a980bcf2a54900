-- ===== src/WorkGraph/State.antt =====
-- The projection of a Run: `RunState`, `StepState` and the agent loop's counters of
-- crates/xgeny-workgraph/src/lib.rs.
use xgeny_cli.Prelude.{ℕ, String, Option, List, StringMap, StringSet}
use xgeny_cli.WorkGraph.Status.{StepStatus, ModelCallStatus}
use xgeny_cli.WorkGraph.Event.{
  EffectIntent, AgentLoopBudget, ModelCallBudget, ModelCallReservation, PlannedInvocationBinding,
}

-- `ModelCallState`
pub record ModelCallState : Type 0 where
  pub reservation : ModelCallReservation
  pub status : ModelCallStatus

-- `ModelCallLifecycleState`
pub record ModelCallLifecycleState : Type 0 where
  pub budget : ModelCallBudget
  pub reserved_calls : ℕ
  pub settled_calls : ℕ
  pub unknown_calls : ℕ
  pub active_call : Option ModelCallState

-- `CompletionCandidateState`
pub record CompletionCandidateState : Type 0 where
  pub candidate_id : String
  pub context_digest : String
  pub proposal_digest : String
  pub summary_digest : String
  pub completion_output_record_digest : Option String

-- `AgentLoopState`
pub record AgentLoopState : Type 0 where
  pub budget : AgentLoopBudget
  pub accepted_model_turns : ℕ
  pub model_calls : Option ModelCallLifecycleState
  pub completion_candidate : Option CompletionCandidateState

-- `StepState`
pub record StepState : Type 0 where
  pub step_id : String
  pub objective : String
  pub depends_on : List String
  pub planned_invocation : Option PlannedInvocationBinding
  pub status : StepStatus
  pub attempts : ℕ
  pub intent : Option EffectIntent
  pub effect_evidence_digest : Option String
  pub output_record_digest : Option String
  pub execution_receipt_id : Option String
  pub execution_receipt_digest : Option String
  pub uncertainty_reason : Option String
  pub reconciliation_evidence_digest : Option String

-- `AuthorizationConsumption`
pub record AuthorizationConsumption : Type 0 where
  pub grant_digest : String
  pub max_uses : ℕ
  pub uses : ℕ
  pub effect_ids : StringSet

-- `RunState`
pub record RunState : Type 0 where
  pub run_id : String
  pub authority : String
  pub authority_epoch : ℕ
  pub goal : String
  pub revision : ℕ
  pub journal_sequence : ℕ
  pub journal_head_digest : String
  pub steps : StringMap StepState
  pub authorization_consumption : StringMap AuthorizationConsumption
  pub agent_loop : Option AgentLoopState
