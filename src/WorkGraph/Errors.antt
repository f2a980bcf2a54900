-- ===== src/WorkGraph/Errors.antt =====
-- The error enums of crates/xgeny-workgraph/src/lib.rs. A `&'static str` field name is a text, and
-- an error's own text from a third-party encoder is a text.
use xgeny_cli.Prelude.{ℕ, String, Option}
use xgeny_cli.WorkGraph.Status.{StepStatus, DependencyBlockReason}

-- `RecordError`
pub data RecordError : Type 0 where
  canonicalization : String → RecordError
  digest_mismatch : ℕ → String → String → RecordError
  sequence_overflow : RecordError

-- `AuthorizationDigestError`
pub data AuthorizationDigestError : Type 0 where
  canonicalization : String → AuthorizationDigestError

-- `InvocationMaterialError`
pub data InvocationMaterialError : Type 0 where
  unsupported_format_version : ℕ → InvocationMaterialError
  empty_field invalid_reference_component binding_mismatch : String → InvocationMaterialError
  material_id_mismatch record_digest_mismatch : InvocationMaterialError
  canonicalization : String → InvocationMaterialError

-- `PlanningContractError`
pub data PlanningContractError : Type 0 where
  zero_budget : String → PlanningContractError
  turn_index_zero model_call_index_zero : PlanningContractError
  invalid_identifier unsupported_target invalid_digest : String → PlanningContractError
  unsupported_format_version unsupported_model_call_format_version : ℕ → PlanningContractError
  model_call_id_mismatch spec_digest_mismatch : PlanningContractError
  binding_mismatch : String → PlanningContractError
  plan_id_mismatch record_digest_mismatch : PlanningContractError
  canonicalization : String → PlanningContractError
  invocation_material : InvocationMaterialError → PlanningContractError

-- `FrontierError`: the Step first, then its dependency.
pub data FrontierError : Type 0 where
  self_dependency : String → FrontierError
  duplicate_dependency unknown_dependency : String → String → FrontierError
  dependency_cycle : FrontierError
  active_dependency_not_released : String → String → DependencyBlockReason → FrontierError

-- `TransitionError`: a Step comes first, then what it names; `expected` comes before `actual`.
pub data TransitionError : Type 0 where
  in_record : RecordError → TransitionError
  first_event_must_create_run run_already_created : TransitionError
  planning_contract : PlanningContractError → TransitionError
  agent_loop_already_configured agent_loop_not_configured : TransitionError
  model_call_lifecycle_already_configured model_call_lifecycle_not_configured : TransitionError
  model_call_budget_below_historical_accepted_turns : ℕ → ℕ → TransitionError
  model_call_budget_exceeded model_call_active : TransitionError
  unexpected_model_call_index unexpected_model_call_turn : ℕ → ℕ → TransitionError
  model_call_base_head_mismatch model_call_id_mismatch : TransitionError
  model_call_context_mismatch model_call_decision_required : TransitionError
  model_call_not_reserved stale_model_call_response : TransitionError
  model_call_settlement_head_mismatch model_call_counter_overflow : TransitionError
  model_call_counter_invariant : TransitionError
  unexpected_planning_turn : ℕ → ℕ → TransitionError
  model_turn_budget_exceeded planned_step_budget_exceeded : TransitionError
  tool_call_budget_exceeded : TransitionError
  accepted_plan_step_count_invalid : ℕ → TransitionError
  accepted_plan_edge_budget_exceeded invalid_accepted_objective : TransitionError
  plan_proposal_digest_mismatch : String → TransitionError
  plan_dependency_blocked : String → String → DependencyBlockReason → TransitionError
  dependency_cycle completion_candidate_already_recorded : TransitionError
  completion_candidate_requires_receipt_completed_plan : TransitionError
  unexpected_sequence : ℕ → ℕ → TransitionError
  previous_digest_mismatch : ℕ → Option String → Option String → TransitionError
  run_id_mismatch authority_mismatch authority_epoch_mismatch : TransitionError
  duplicate_step self_dependency : String → TransitionError
  duplicate_dependency unknown_dependency : String → String → TransitionError
  unknown_step : String → TransitionError
  dependency_not_released : String → String → DependencyBlockReason → TransitionError
  duplicate_effect : String → TransitionError
  planned_invocation_mismatch duplicate_planned_action : String → String → TransitionError
  effect_mismatch : String → Option String → String → TransitionError
  invalid_step_transition : String → StepStatus → String → TransitionError
  invalid_authorization_budget authorization_run_mismatch : String → TransitionError
  authorization_step_mismatch authorization_authority_mismatch : String → TransitionError
  authorization_epoch_mismatch authorization_head_mismatch : String → TransitionError
  authorization_action_mismatch authorization_invocation_mismatch : String → TransitionError
  authorization_id_mismatch authorization_digest_mismatch : String → TransitionError
  authorization_digest_error : AuthorizationDigestError → TransitionError
  authorization_grant_changed : String → TransitionError
  authorization_budget_exceeded : String → ℕ → TransitionError
  sink_guarantee_requires_idempotency_key : String → TransitionError
  read_only_effect_semantics_invalid : String → TransitionError
  receipt_provenance_binding_mismatch receipt_provenance_digest_mismatch : String → TransitionError
  unsupported_tool_output_profile tool_output_record_required : String → TransitionError
  unexpected_tool_output_record invalid_tool_output_record_digest : String → TransitionError
  attempt_overflow : String → TransitionError

-- `ReplayError`
pub data ReplayError : Type 0 where
  empty_journal : ReplayError
  unexpected_sequence : ℕ → ℕ → ReplayError
  previous_digest_mismatch : ℕ → Option String → Option String → ReplayError
  in_record : RecordError → ReplayError
  in_transition : TransitionError → ReplayError
