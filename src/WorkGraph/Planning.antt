-- ===== src/WorkGraph/Planning.antt =====
-- The syntactic checks of planning values: the `validate` methods and the `require_*` functions of
-- crates/xgeny-workgraph/src/lib.rs.
use xgeny_cli.Prelude.{
  ℕ, String, none, some, Bool, ◌||◌, not, Result, ok, ◌>>=◌, ◌>>◌, reject_if, ok_or, ltb, ◌==◌,
  ◌!=◌, str_eq, text_is_empty, text_len, any_char, all_chars, is_control, is_ascii_alphanumeric,
  is_lower_hex, strip_prefix,
}
use xgeny_cli.WorkGraph.Errors.{PlanningContractError}
use xgeny_cli.WorkGraph.Event.{
  ModelCallBudget, AgentLoopBudget, ModelCallReservation, ExpectedPlanningTurn,
  PlannedInvocationSpec, PlannedInvocationBinding,
}
use xgeny_cli.WorkGraph.Digest.{
  Primitives, is_sha256_digest, model_call_format_version, model_call_id,
  planned_invocation_spec_digest,
}

abbrev pub Checked : Type 0
Checked = Result PlanningContractError (Unit {0})

abbrev max_identifier_bytes : ℕ
max_identifier_bytes = 256

abbrev planned_invocation_format_version : ℕ
planned_invocation_format_version = 1

unfoldable pub require_planning_identifier : String → String → Checked
require_planning_identifier field value =
    reject_if
      (text_is_empty value
        || (ltb max_identifier_bytes (text_len value) || any_char is_control value))
      (PlanningContractError.invalid_identifier field)

-- `matches!(byte, b'.' | b'_' | b'-')` or an ASCII letter or digit.
is_identifier_byte : ℕ → Bool
is_identifier_byte c = is_ascii_alphanumeric c || (c == b'.' || (c == b'_' || c == b'-'))

unfoldable pub require_model_call_identifier : String → String → Checked
unfolding is_identifier_byte
require_model_call_identifier field value =
    reject_if
      (text_is_empty value
        || (ltb max_identifier_bytes (text_len value) || not (all_chars is_identifier_byte value)))
      (PlanningContractError.invalid_identifier field)

unfoldable pub require_model_call_id : String → String → Checked
require_model_call_id field value = do
  require_model_call_identifier field value
  encoded ←
      ok_or (strip_prefix "model-call-" value) (PlanningContractError.invalid_identifier field)
  reject_if (text_len encoded != 64 || not (all_chars is_lower_hex encoded))
      (PlanningContractError.invalid_identifier field)

unfoldable pub require_planning_digest : String → String → Checked
require_planning_digest field value =
    reject_if (not (is_sha256_digest value)) (PlanningContractError.invalid_digest field)

-- `ModelCallBudget::validate`
unfoldable pub validate_model_call_budget : ModelCallBudget → Checked
validate_model_call_budget budget =
    reject_if (budget.max_model_calls == 0) (PlanningContractError.zero_budget "max_model_calls")

-- `AgentLoopBudget::validate`, its loop over four fields written out.
unfoldable pub validate_agent_loop_budget : AgentLoopBudget → Checked
validate_agent_loop_budget budget = do
  reject_if (budget.max_model_turns == 0) (PlanningContractError.zero_budget "max_model_turns")
  reject_if (budget.max_planned_steps == 0) (PlanningContractError.zero_budget "max_planned_steps")
  reject_if (budget.max_tool_calls == 0) (PlanningContractError.zero_budget "max_tool_calls")
  reject_if (budget.max_context_bytes == 0) (PlanningContractError.zero_budget "max_context_bytes")

-- `ExpectedPlanningTurn::validate`
unfoldable pub validate_turn : ExpectedPlanningTurn → Checked
validate_turn turn = do
  reject_if (turn.turn_index == 0) PlanningContractError.turn_index_zero
  elim turn.model_call_id [
    | none ↦ ok tt
    | some call_id ↦ require_model_call_id "model_call_id" call_id
  ]
  require_planning_digest "context_digest" turn.context_digest
  require_planning_digest "proposal_digest" turn.proposal_digest

-- `PlannedInvocationSpec::validate`
unfoldable pub validate_spec : PlannedInvocationSpec → Checked
validate_spec spec = do
  require_planning_identifier "capability_id" spec.capability_id
  require_planning_identifier "contract_version" spec.contract_version
  require_planning_identifier "target_os" spec.target_os
  require_planning_identifier "target_arch" spec.target_arch
  reject_if
      (not (
        str_eq spec.target_os "linux"
        || (str_eq spec.target_os "macos" || str_eq spec.target_os "windows")))
      (PlanningContractError.unsupported_target "target_os")
  reject_if (not (str_eq spec.target_arch "x86_64" || str_eq spec.target_arch "aarch64"))
      (PlanningContractError.unsupported_target "target_arch")
  require_planning_digest "definition_digest" spec.definition_digest
  require_planning_digest "action_digest" spec.action_digest
  require_planning_digest "plan_input_digest" spec.plan_input_digest

-- `PlannedInvocationBinding::as_spec`
unfoldable pub as_spec : PlannedInvocationBinding → PlannedInvocationSpec
as_spec planned = record {
  capability_id = planned.capability_id;
  contract_version = planned.contract_version;
  definition_digest = planned.definition_digest;
  action_digest = planned.action_digest;
  plan_input_digest = planned.plan_input_digest;
  execution_profile = planned.execution_profile;
  target_os = planned.target_os;
  target_arch = planned.target_arch;
}

module _ (prims : Primitives) where
  -- `ModelCallReservation::validate_for`
  unfoldable pub validate_reservation : ModelCallReservation → String → ℕ → Checked
  validate_reservation reservation run_id authority_epoch = do
    reject_if (reservation.format_version != model_call_format_version)
        (PlanningContractError.unsupported_model_call_format_version reservation.format_version)
    require_planning_identifier "run_id" run_id
    require_model_call_id "call_id" reservation.call_id
    require_model_call_identifier "planner_id" reservation.planner_id
    reject_if (reservation.call_index == 0) PlanningContractError.model_call_index_zero
    reject_if (reservation.turn_index == 0) PlanningContractError.turn_index_zero
    require_planning_digest "base_head_digest" reservation.base_head_digest
    require_planning_digest "context_digest" reservation.context_digest
    require_planning_digest "request_digest" reservation.request_digest
    expected ←
        model_call_id prims run_id authority_epoch reservation.planner_id reservation.call_index
          reservation.turn_index reservation.base_sequence reservation.base_head_digest
          reservation.context_digest reservation.request_digest
    reject_if (not (str_eq reservation.call_id expected))
        PlanningContractError.model_call_id_mismatch

  -- `PlannedInvocationBinding::validate`
  unfoldable pub validate_binding : PlannedInvocationBinding → Checked
  validate_binding planned = do
    reject_if (planned.format_version != planned_invocation_format_version)
        (PlanningContractError.unsupported_format_version planned.format_version)
    require_planning_identifier "plan_id" planned.plan_id
    require_planning_digest "proposal_digest" planned.proposal_digest
    require_planning_digest "spec_digest" planned.spec_digest
    require_planning_digest "plan_input_record_digest" planned.plan_input_record_digest
    validate_spec (as_spec planned)
    expected ← planned_invocation_spec_digest prims (as_spec planned)
    reject_if (not (str_eq expected planned.spec_digest)) PlanningContractError.spec_digest_mismatch
