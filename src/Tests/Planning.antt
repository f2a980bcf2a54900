-- ===== src/Tests/Planning.antt =====
-- The theorems about planning and model calls in crates/xgeny-workgraph/src/lib.rs at small inputs.
use xgeny_cli.WorkGraph.Plan.Additions.{IsPlanned, plan_step-lookup}
use xgeny_cli.WorkGraph.Effects.Attempts.{
  AttemptsWithin, total_attempts, apply_effect_lifecycle-AttemptsWithin,
}
use xgeny_cli.WorkGraph.Effects.{apply_effect_lifecycle, record_execution_started, check_tool_calls}
use xgeny_cli.WorkGraph.Plan.Budget.{StepsWithin, plan_step-StepsWithin, accept_plan-within_budget}
use xgeny_cli.WorkGraph.Steps.{
  receipt_releases_dependency, matching_step, find_step, require_status,
}
use xgeny_cli.WorkGraph.Kahn.{
  derive_frontier, validate_frontier_graph, validate_step, validate_dependency, collect_ready,
  traverse, visit, release_child, total_count, open_work,
}
use xgeny_cli.WorkGraph.Digest.{
  is_sha256_digest, model_call_id, sha256_digest, hex_encode, planned_invocation_spec_digest,
}
use xgeny_cli.WorkGraph.Frontier.{
  all_steps_receipt_completed, record_step, partition_dependencies, partition_dependency,
  check_released, record_status, record_planned, record_completed, finish,
}
use xgeny_cli.WorkGraph.Plan.Turns.{accept_plan-Adds, record_completion_candidate-LoopOnly}
use xgeny_cli.WorkGraph.Planning.{
  validate_reservation, validate_turn, require_planning_identifier, require_planning_digest,
  require_model_call_id, require_model_call_identifier, validate_binding, validate_spec, as_spec,
}
use xgeny_cli.Tests.Sample.{budget, value, blank_state, toy_primitives, intent_at}
use xgeny_cli.WorkGraph.Steps.Lifecycle.{StepsGrow}
use xgeny_cli.WorkGraph.Plan.{
  accept_plan, record_completion_candidate, planned_step, check_output_digest, expected_turn,
  validate_accepted_plan_headers, existing_action_owners, check_header, validate_accepted_objective,
  claim_action, build_accepted_plan_candidate, add_plan_step, check_plan_edge, collect_set,
  plan_step, check_step_budget, check_dependency,
}
use xgeny_cli.WorkGraph.Status.{
  ModelCallSettlement, PlannedExecutionProfile, ModelCallStatus, ModelCallAbandonmentReason,
  StepStatus,
}
use xgeny_cli.WorkGraph.ModelCalls.Counters.{
  LoopIsValid, LoopOnly, settle_model_call-LoopOnly, reserve_model_call-LoopOnly,
}
use xgeny_cli.WorkGraph.ModelCalls.{
  reserve_model_call, settle_model_call, validate_model_call_success, checked_loop, check_decision,
  validate_model_call_counters, check_settlement, settle_successful_model_call, settle_calls,
  count_attempts, add_attempts,
}
use xgeny_cli.WorkGraph.Event.{
  ExpectedPlanningTurn, ModelCallReservation, PlannedInvocationBinding, AcceptedPlanStep,
  RunEventBody,
}
use xgeny_cli.WorkGraph.State.{AgentLoopState, RunState, StepState}
use xgeny_cli.Prelude.{
  refl, arith, [], ◌∷◌, ok, ◌≡◌, some, none, String, StringMap, List, text_is_empty, text_len,
  any_char, is_control, strip_prefix, all_chars, is_ascii_alphanumeric, is_lower_hex, fold, lookup,
  insert, contains, set_insert, sort_by, insert_by, dedup, dedup_after, replace, length, ◌≤◌,
  str_eq, false,
}

abbrev zero_digest : String
zero_digest = "sha256:0000000000000000000000000000000000000000000000000000000000000000"

abbrev run_of : StringMap StepState → AgentLoopState → RunState
run_of steps loop_state = record {
  run_id = "run";
  authority = "local";
  authority_epoch = 1;
  goal = "goal";
  revision = 2;
  journal_sequence = 2;
  journal_head_digest = zero_digest;
  steps = steps;
  authorization_consumption = [];
  agent_loop = some loop_state;
}

abbrev fresh_loop : AgentLoopState
fresh_loop = record {
  budget = budget;
  accepted_model_turns = 0;
  model_calls = none;
  completion_candidate = none;
}

abbrev calls_run : RunState
calls_run = run_of [] (record fresh_loop {
  model_calls = some (record {
    budget = record { max_model_calls = 2 };
    reserved_calls = 0;
    settled_calls = 0;
    unknown_calls = 0;
    active_call = none;
  });
})

abbrev call_id : String
call_id = "model-call-6901010000000000000000000000000000000000000000000000000000000000"

abbrev reservation : ModelCallReservation
reservation = record {
  format_version = 1;
  call_id = call_id;
  planner_id = "planner";
  call_index = 1;
  turn_index = 1;
  base_sequence = 2;
  base_head_digest = zero_digest;
  context_digest = zero_digest;
  request_digest = zero_digest;
}

abbrev reserved_run : RunState
reserved_run = value blank_state (reserve_model_call toy_primitives calls_run reservation)

reserves : reserve_model_call toy_primitives calls_run reservation ≡ ok reserved_run
unfolding reserve_model_call validate_reservation require_planning_identifier text_is_empty text_len
    any_char is_control require_model_call_id require_model_call_identifier all_chars
    is_ascii_alphanumeric strip_prefix is_lower_hex require_planning_digest is_sha256_digest
    model_call_id sha256_digest hex_encode checked_loop validate_model_call_counters
reserves = refl

calls-LoopIsValid : LoopIsValid calls_run.agent_loop
calls-LoopIsValid = (omega arith, (omega arith, refl, omega arith, omega arith))

reserve_model_call-LoopOnly_example : LoopOnly calls_run reserved_run
reserve_model_call-LoopOnly_example =
    reserve_model_call-LoopOnly toy_primitives calls_run reservation reserved_run calls-LoopIsValid
      reserves

abbrev abandoned : ModelCallSettlement
abandoned = ModelCallSettlement.abandoned ModelCallAbandonmentReason.recovery_discarded

abbrev open_run : RunState
open_run = run_of [] (record fresh_loop {
  model_calls = some (record {
    budget = record { max_model_calls = 2 };
    reserved_calls = 1;
    settled_calls = 0;
    unknown_calls = 0;
    active_call = some (record { reservation = reservation; status = ModelCallStatus.reserved });
  });
})

abbrev settled_run : RunState
settled_run = value blank_state (settle_model_call open_run call_id abandoned)

settles : settle_model_call open_run call_id abandoned ≡ ok settled_run
unfolding settle_model_call text_is_empty text_len require_model_call_id
    require_model_call_identifier all_chars is_ascii_alphanumeric strip_prefix is_lower_hex
    checked_loop validate_model_call_counters check_settlement
settles = refl

open-LoopIsValid : LoopIsValid open_run.agent_loop
open-LoopIsValid = (omega arith, (omega arith, refl, omega arith, omega arith))

settle_model_call-LoopOnly_example : LoopOnly open_run settled_run
settle_model_call-LoopOnly_example =
    settle_model_call-LoopOnly open_run call_id abandoned settled_run open-LoopIsValid settles

abbrev decision : ExpectedPlanningTurn
decision = record {
  turn_index = 1;
  model_call_id = none;
  context_digest = zero_digest;
  proposal_digest = zero_digest;
}

abbrev planned_binding : PlannedInvocationBinding
planned_binding = record {
  format_version = 1;
  plan_id = "plan";
  proposal_digest = zero_digest;
  capability_id = "read";
  contract_version = "1";
  definition_digest = zero_digest;
  action_digest = zero_digest;
  plan_input_digest = zero_digest;
  execution_profile = PlannedExecutionProfile.local_sync_read_only_v1;
  target_os = "linux";
  target_arch = "x86_64";
  spec_digest = "sha256:6800000000000000000000000000000000000000000000000000000000000000";
  plan_input_record_digest = zero_digest;
}

abbrev plan : List AcceptedPlanStep
plan =
    record { step_id = "a"; objective = "read"; depends_on = []; invocation = planned_binding } ∷ []

abbrev fresh_run : RunState
fresh_run = run_of [] fresh_loop

abbrev accepted_run : RunState
accepted_run = value blank_state (accept_plan toy_primitives fresh_run decision plan)

accepts : accept_plan toy_primitives fresh_run decision plan ≡ ok accepted_run
unfolding accept_plan validate_turn require_planning_digest is_sha256_digest strip_prefix text_len
    all_chars is_lower_hex validate_model_call_success check_decision expected_turn
    validate_accepted_plan_headers existing_action_owners fold check_header
    require_planning_identifier text_is_empty any_char is_control validate_accepted_objective
    validate_binding validate_spec as_spec planned_invocation_spec_digest sha256_digest hex_encode
    claim_action lookup insert contains set_insert build_accepted_plan_candidate add_plan_step
    check_plan_edge derive_frontier validate_frontier_graph validate_step validate_dependency
    collect_ready traverse visit release_child record_step partition_dependencies
    partition_dependency check_released record_status record_planned record_completed finish sort_by
    insert_by dedup dedup_after total_count open_work receipt_releases_dependency replace
    collect_set settle_successful_model_call settle_calls
accepts = refl

fresh-LoopIsValid : LoopIsValid fresh_run.agent_loop
fresh-LoopIsValid = (omega arith, tt)

accept_plan-Adds_example :
    StepsGrow fresh_run.steps accepted_run.steps
    × (accepted_run.authorization_consumption ≡ fresh_run.authorization_consumption)
    × LoopIsValid accepted_run.agent_loop
accept_plan-Adds_example =
    accept_plan-Adds toy_primitives fresh_run decision plan accepted_run fresh-LoopIsValid accepts

abbrev done_run : RunState
done_run =
    run_of
      ((
        "a",
        record (planned_step "a" "read" [] none) {
          status = StepStatus.completed;
          execution_receipt_id = some "receipt";
          execution_receipt_digest = some zero_digest;
        },
      )
        ∷ [])
      fresh_loop

abbrev candidate_run : RunState
candidate_run =
    value blank_state (record_completion_candidate done_run decision "candidate" zero_digest none)

completes :
    record_completion_candidate done_run decision "candidate" zero_digest none ≡ ok candidate_run
unfolding record_completion_candidate check_output_digest all_steps_receipt_completed validate_turn
    require_planning_digest is_sha256_digest strip_prefix text_len all_chars is_lower_hex
    validate_model_call_success check_decision expected_turn fold require_planning_identifier
    text_is_empty any_char is_control lookup insert contains set_insert derive_frontier
    validate_frontier_graph validate_step validate_dependency collect_ready traverse visit
    release_child record_step partition_dependencies partition_dependency check_released
    record_status record_planned record_completed finish sort_by insert_by dedup dedup_after
    total_count open_work receipt_releases_dependency replace settle_successful_model_call
    settle_calls
completes = refl

done-LoopIsValid : LoopIsValid done_run.agent_loop
done-LoopIsValid = (omega arith, tt)

record_completion_candidate-LoopOnly_example : LoopOnly done_run candidate_run
record_completion_candidate-LoopOnly_example =
    record_completion_candidate-LoopOnly done_run decision "candidate" zero_digest none
      candidate_run done-LoopIsValid completes

accept_plan-within_budget_example : length accepted_run.steps ≤ fresh_loop.budget.max_planned_steps
accept_plan-within_budget_example =
    accept_plan-within_budget toy_primitives fresh_run decision plan accepted_run fresh_loop refl
      accepts

abbrev one_step_run : RunState
one_step_run = value blank_state (plan_step fresh_run "a" "first" [] none)

plans_one : plan_step fresh_run "a" "first" [] none ≡ ok one_step_run
unfolding plan_step check_step_budget check_dependency fold lookup insert
plans_one = refl

plan_step-StepsWithin_example : StepsWithin one_step_run.agent_loop (length one_step_run.steps)
plan_step-StepsWithin_example =
    plan_step-StepsWithin fresh_run "a" "first" [] none one_step_run plans_one

abbrev ready_run : RunState
ready_run =
    run_of
      ((
        "a",
        record (planned_step "a" "read" [] none) {
          status = StepStatus.intent_committed;
          intent = some (intent_at 2 zero_digest "a" "effect");
        },
      )
        ∷ [])
      fresh_loop

abbrev start_event : RunEventBody
start_event = RunEventBody.effect_execution_started "a" "effect"

abbrev under_way_run : RunState
under_way_run = value blank_state (apply_effect_lifecycle ready_run start_event)

goes_on : apply_effect_lifecycle ready_run start_event ≡ ok under_way_run
unfolding apply_effect_lifecycle record_execution_started check_tool_calls count_attempts
    add_attempts fold matching_step find_step lookup require_status replace
goes_on = refl

ready-AttemptsWithin : AttemptsWithin ready_run.agent_loop (total_attempts ready_run.steps)
unfolding total_attempts
ready-AttemptsWithin = omega arith

apply_effect_lifecycle-AttemptsWithin_example :
    AttemptsWithin under_way_run.agent_loop (total_attempts under_way_run.steps)
apply_effect_lifecycle-AttemptsWithin_example =
    apply_effect_lifecycle-AttemptsWithin ready_run start_event under_way_run ready-AttemptsWithin
      goes_on

plan_step-lookup_example :
    (lookup "a" fresh_run.steps ≡ none)
    × ((step : StepState) × (lookup "a" one_step_run.steps ≡ some step)
        × IsPlanned "a" "first" [] none step)
    × ((k : String) → str_eq "a" k ≡ false → lookup k one_step_run.steps ≡ lookup k fresh_run.steps)
plan_step-lookup_example = plan_step-lookup fresh_run "a" "first" [] none one_step_run plans_one
