-- ===== src/WorkGraph/Event.antt =====
-- The journal's events and the values that they carry: `RunEvent`, `RunEventBody`, `EffectIntent`
-- and the planner's bindings of crates/xgeny-workgraph/src/lib.rs.
use xgeny_cli.Prelude.{ℕ, String, Option, List, Bool}
use xgeny_cli.WorkGraph.Status.{
  EffectClass, SinkGuarantee, ReconciliationResolution, VerificationDisposition,
  InvocationMaterialUnavailableReason, ReceiptPlacement, ReceiptVerificationStrategy,
  PlannedExecutionProfile, ModelCallUnknownReason, ModelCallSettlement,
}

-- `ReceiptVerificationRule`
pub record ReceiptVerificationRule : Type 0 where
  pub strategy : ReceiptVerificationStrategy
  pub required : Bool

-- `ReceiptProvenance`
pub record ReceiptProvenance : Type 0 where
  pub profile_version : String
  pub tool_output_profile : Option String
  pub invocation_id : String
  pub plan_id : String
  pub policy_decision_id : String
  pub policy_decision_digest : String
  pub executor_id : String
  pub executor_placement : ReceiptPlacement
  pub executor_platform : String
  pub input_summary : String
  pub verification_plan : List ReceiptVerificationRule

-- `InvocationBinding`
pub record InvocationBinding : Type 0 where
  pub capability_id : String
  pub contract_version : String
  pub definition_digest : String
  pub instance_id : String
  pub instance_binding_digest : String

-- `AuthorizationBinding`
pub record AuthorizationBinding : Type 0 where
  pub run_id : String
  pub step_id : String
  pub authority : String
  pub authority_epoch : ℕ
  pub issued_at_sequence : ℕ
  pub issued_at_head_digest : String
  pub capability_id : String
  pub contract_version : String
  pub definition_digest : String
  pub instance_id : String
  pub instance_binding_digest : String
  pub action_digest : String
  pub material_digest : String
  pub material_retention_digest : String
  pub policy_evidence_digest : String
  pub receipt_provenance_digest : Option String

-- `AuthorizationUse`
pub record AuthorizationUse : Type 0 where
  pub grant_id : String
  pub grant_digest : String
  pub max_uses : ℕ
  pub binding : AuthorizationBinding

-- `EffectIntent`
pub record EffectIntent : Type 0 where
  pub effect_id : String
  pub action_digest : String
  pub invocation : InvocationBinding
  pub effect_class : EffectClass
  pub idempotency_key : Option String
  pub sink_guarantee : SinkGuarantee
  pub authorization : AuthorizationUse
  pub receipt_provenance : Option ReceiptProvenance

-- `ModelCallBudget`
pub record ModelCallBudget : Type 0 where
  pub max_model_calls : ℕ

-- `AgentLoopBudget`
pub record AgentLoopBudget : Type 0 where
  pub max_model_turns : ℕ
  pub max_planned_steps : ℕ
  pub max_tool_calls : ℕ
  pub max_context_bytes : ℕ

-- `ModelCallReservation`
pub record ModelCallReservation : Type 0 where
  pub format_version : ℕ
  pub call_id : String
  pub planner_id : String
  pub call_index : ℕ
  pub turn_index : ℕ
  pub base_sequence : ℕ
  pub base_head_digest : String
  pub context_digest : String
  pub request_digest : String

-- `ExpectedPlanningTurn`
pub record ExpectedPlanningTurn : Type 0 where
  pub turn_index : ℕ
  pub model_call_id : Option String
  pub context_digest : String
  pub proposal_digest : String

-- `PlannedInvocationSpec`
pub record PlannedInvocationSpec : Type 0 where
  pub capability_id : String
  pub contract_version : String
  pub definition_digest : String
  pub action_digest : String
  pub plan_input_digest : String
  pub execution_profile : PlannedExecutionProfile
  pub target_os : String
  pub target_arch : String

-- `PlannedInvocationBinding`
pub record PlannedInvocationBinding : Type 0 where
  pub format_version : ℕ
  pub plan_id : String
  pub proposal_digest : String
  pub capability_id : String
  pub contract_version : String
  pub definition_digest : String
  pub action_digest : String
  pub plan_input_digest : String
  pub execution_profile : PlannedExecutionProfile
  pub target_os : String
  pub target_arch : String
  pub spec_digest : String
  pub plan_input_record_digest : String

-- `AcceptedPlanStep`
pub record AcceptedPlanStep : Type 0 where
  pub step_id : String
  pub objective : String
  pub depends_on : List String
  pub invocation : PlannedInvocationBinding

-- `RunEventBody`, with the fields of each variant in the source's order.
pub data RunEventBody : Type 0 where
  run_created : String → RunEventBody
  agent_loop_configured : AgentLoopBudget → RunEventBody
  model_call_lifecycle_configured : ModelCallBudget → RunEventBody
  model_call_reserved : ModelCallReservation → RunEventBody
  model_call_became_unknown : String → ModelCallUnknownReason → RunEventBody
  model_call_settled : String → ModelCallSettlement → RunEventBody
  plan_accepted : ExpectedPlanningTurn → List AcceptedPlanStep → RunEventBody
  completion_candidate_recorded :
      ExpectedPlanningTurn → String → String → Option String → RunEventBody
  step_planned : String → String → List String → RunEventBody
  effect_intent_committed : String → EffectIntent → RunEventBody
  invocation_material_unavailable :
      String → String → InvocationMaterialUnavailableReason → RunEventBody
  effect_execution_started : String → String → RunEventBody
  effect_succeeded : String → String → String → Option String → RunEventBody
  effect_failed : String → String → String → RunEventBody
  effect_became_unknown : String → String → String → RunEventBody
  reconciliation_started : String → String → RunEventBody
  reconciliation_resolved : String → String → ReconciliationResolution → String → RunEventBody
  manual_intervention_required : String → String → String → RunEventBody
  verification_passed : String → RunEventBody
  verification_failed : String → String → RunEventBody
  verification_recorded : String → String → VerificationDisposition → String → String → RunEventBody

-- `RunEventBody::kind`
unfoldable pub kind : RunEventBody → String
kind (RunEventBody.run_created _) = "run_created"
kind (RunEventBody.agent_loop_configured _) = "agent_loop_configured"
kind (RunEventBody.model_call_lifecycle_configured _) = "model_call_lifecycle_configured"
kind (RunEventBody.model_call_reserved _) = "model_call_reserved"
kind (RunEventBody.model_call_became_unknown _ _) = "model_call_became_unknown"
kind (RunEventBody.model_call_settled _ _) = "model_call_settled"
kind (RunEventBody.plan_accepted _ _) = "plan_accepted"
kind (RunEventBody.completion_candidate_recorded _ _ _ _) = "completion_candidate_recorded"
kind (RunEventBody.step_planned _ _ _) = "step_planned"
kind (RunEventBody.effect_intent_committed _ _) = "effect_intent_committed"
kind (RunEventBody.invocation_material_unavailable _ _ _) = "invocation_material_unavailable"
kind (RunEventBody.effect_execution_started _ _) = "effect_execution_started"
kind (RunEventBody.effect_succeeded _ _ _ _) = "effect_succeeded"
kind (RunEventBody.effect_failed _ _ _) = "effect_failed"
kind (RunEventBody.effect_became_unknown _ _ _) = "effect_became_unknown"
kind (RunEventBody.reconciliation_started _ _) = "reconciliation_started"
kind (RunEventBody.reconciliation_resolved _ _ _ _) = "reconciliation_resolved"
kind (RunEventBody.manual_intervention_required _ _ _) = "manual_intervention_required"
kind (RunEventBody.verification_passed _) = "verification_passed"
kind (RunEventBody.verification_failed _ _) = "verification_failed"
kind (RunEventBody.verification_recorded _ _ _ _ _) = "verification_recorded"

-- `RunEvent`
pub record RunEvent : Type 0 where
  pub event_id : String
  pub run_id : String
  pub authority : String
  pub authority_epoch : ℕ
  pub recorded_at : String
  pub body : RunEventBody

-- `EventRecord`
pub record EventRecord : Type 0 where
  pub sequence : ℕ
  pub previous_digest : Option String
  pub event : RunEvent
  pub digest : String
