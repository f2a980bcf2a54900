-- ===== src/WorkGraph/ModelCalls.antt =====
-- The agent loop's counters: `configure_agent_loop`, `configure_model_call_lifecycle`,
-- `reserve_model_call`, `mark_model_call_unknown`, `settle_model_call`,
-- `validate_model_call_success` and `settle_successful_model_call` of
-- crates/xgeny-workgraph/src/lib.rs. The caller drops the state of a call that fails, so a
-- function over `&mut` returns the new state or an error.
pub mod Counters
use xgeny_cli.Prelude.{
  ℕ, ◌+◌, String, Option, none, some, Bool, true, false, ◌||◌, ◌&&◌, not, List, Result, ok, err,
  ◌>>=◌, ◌>>◌, reject_if, ok_or, map_err, fold, is_some, length, ltb, leb, ◌==◌, ◌!=◌, str_eq,
  values, checked_add_u32, checked_add_u64, try_u32,
}
use xgeny_cli.WorkGraph.Status.{
  ModelCallStatus, ModelCallUnknownReason, ModelCallSettlement, ModelCallRejectionReason,
  is_stale_head, is_reserved,
}
use xgeny_cli.WorkGraph.Errors.{TransitionError}
use xgeny_cli.WorkGraph.Event.{
  AgentLoopBudget, ModelCallBudget, ModelCallReservation, ExpectedPlanningTurn,
}
use xgeny_cli.WorkGraph.State.{
  RunState, StepState, AgentLoopState, ModelCallLifecycleState, ModelCallState,
}
use xgeny_cli.WorkGraph.Digest.{Primitives}
use xgeny_cli.WorkGraph.Planning.{
  validate_model_call_budget, validate_agent_loop_budget, validate_reservation,
  require_model_call_id,
}
use xgeny_cli.WorkGraph.Steps.{Transition}

abbrev pub put_loop : RunState → AgentLoopState → RunState
put_loop state loop_state = record state { agent_loop = some loop_state }

abbrev pub put_calls : AgentLoopState → ModelCallLifecycleState → AgentLoopState
put_calls loop_state calls = record loop_state { model_calls = some calls }

-- The sum of `StepState::attempts`, which stops at an overflow.
unfoldable pub add_attempts : ℕ → StepState → Transition ℕ
add_attempts total step =
    ok_or (checked_add_u32 total step.attempts) TransitionError.tool_call_budget_exceeded

unfoldable pub count_attempts : RunState → Transition ℕ
unfolding add_attempts
count_attempts state = fold add_attempts 0 (values state.steps)

unfoldable pub validate_model_call_counters : AgentLoopState → Transition (Unit {0})
validate_model_call_counters loop_state = elim loop_state.model_calls [
  | none ↦ ok tt
  | some calls ↦
      reject_if
        (ltb calls.settled_calls loop_state.accepted_model_turns
          || (ltb calls.reserved_calls calls.settled_calls
              || ltb calls.reserved_calls calls.unknown_calls))
        TransitionError.model_call_counter_invariant
]

-- `validate_model_call_counters` on the new loop state, which the call then leaves in place.
unfoldable pub checked_loop : RunState → AgentLoopState → Transition RunState
checked_loop state loop_state = do
  validate_model_call_counters loop_state
  ok (put_loop state loop_state)

unfoldable pub configure_agent_loop : RunState → AgentLoopBudget → Transition RunState
configure_agent_loop state budget = do
  map_err TransitionError.planning_contract (validate_agent_loop_budget budget)
  reject_if (is_some state.agent_loop) TransitionError.agent_loop_already_configured
  planned_steps ← ok_or (try_u32 (length state.steps)) TransitionError.planned_step_budget_exceeded
  reject_if (ltb budget.max_planned_steps planned_steps)
      TransitionError.planned_step_budget_exceeded
  tool_calls ← count_attempts state
  reject_if (ltb budget.max_tool_calls tool_calls) TransitionError.tool_call_budget_exceeded
  ok (
      put_loop state (record {
        budget = budget;
        accepted_model_turns = 0;
        model_calls = none;
        completion_candidate = none;
      }))

unfoldable pub configure_model_call_lifecycle : RunState → ModelCallBudget → Transition RunState
configure_model_call_lifecycle state budget = do
  map_err TransitionError.planning_contract (validate_model_call_budget budget)
  loop_state ← ok_or state.agent_loop TransitionError.agent_loop_not_configured
  reject_if (is_some loop_state.model_calls) TransitionError.model_call_lifecycle_already_configured
  reject_if (ltb budget.max_model_calls loop_state.accepted_model_turns) (
      TransitionError.model_call_budget_below_historical_accepted_turns budget.max_model_calls
        loop_state.accepted_model_turns)
  checked_loop state (
      put_calls loop_state (record {
        budget = budget;
        reserved_calls = loop_state.accepted_model_turns;
        settled_calls = loop_state.accepted_model_turns;
        unknown_calls = 0;
        active_call = none;
      }))

unfoldable pub mark_model_call_unknown :
    RunState → String → ModelCallUnknownReason → Transition RunState
mark_model_call_unknown state call_id reason = do
  map_err TransitionError.planning_contract (require_model_call_id "call_id" call_id)
  loop_state ← ok_or state.agent_loop TransitionError.agent_loop_not_configured
  calls ← ok_or loop_state.model_calls TransitionError.model_call_lifecycle_not_configured
  active ← ok_or calls.active_call TransitionError.model_call_not_reserved
  reject_if (not (str_eq active.reservation.call_id call_id)) TransitionError.model_call_id_mismatch
  reject_if (not (is_reserved active.status)) TransitionError.model_call_not_reserved
  unknown_calls ←
      ok_or (checked_add_u32 calls.unknown_calls 1) TransitionError.model_call_counter_overflow
  checked_loop state (
      put_calls loop_state (record calls {
        unknown_calls = unknown_calls;
        active_call = some (record active { status = ModelCallStatus.unknown reason });
      }))

-- `is_immediate != (reason != StaleHead)`, which rejects a settlement.
abbrev head_mismatch : Bool → ModelCallRejectionReason → Bool
head_mismatch true reason = is_stale_head reason
head_mismatch false reason = not (is_stale_head reason)

-- The `match settlement` of `settle_model_call`.
unfoldable pub check_settlement :
    RunState → ModelCallState → ModelCallSettlement → Transition (Unit {0})
check_settlement state active (ModelCallSettlement.rejected reason) = do
  reject_if (not (is_reserved active.status)) TransitionError.model_call_not_reserved
  immediate_sequence ←
      ok_or (checked_add_u64 active.reservation.base_sequence 1)
        TransitionError.model_call_counter_overflow
  reject_if (head_mismatch (state.journal_sequence == immediate_sequence) reason)
      TransitionError.model_call_settlement_head_mismatch
check_settlement state active (ModelCallSettlement.abandoned reason) = ok tt

unfoldable pub settle_model_call : RunState → String → ModelCallSettlement → Transition RunState
settle_model_call state call_id settlement = do
  map_err TransitionError.planning_contract (require_model_call_id "call_id" call_id)
  loop_state ← ok_or state.agent_loop TransitionError.agent_loop_not_configured
  calls ← ok_or loop_state.model_calls TransitionError.model_call_lifecycle_not_configured
  active ← ok_or calls.active_call TransitionError.model_call_not_reserved
  reject_if (not (str_eq active.reservation.call_id call_id)) TransitionError.model_call_id_mismatch
  check_settlement state active settlement
  settled_calls ←
      ok_or (checked_add_u32 calls.settled_calls 1) TransitionError.model_call_counter_overflow
  checked_loop state
      (put_calls loop_state (record calls { settled_calls = settled_calls; active_call = none }))

-- The last case of `validate_model_call_success`: a decision for the active reservation.
unfoldable pub check_active_decision :
    RunState → ModelCallLifecycleState → String → ExpectedPlanningTurn → Transition (Unit {0})
check_active_decision state calls call_id decision = do
  active ← ok_or calls.active_call TransitionError.model_call_not_reserved
  reject_if (not (str_eq active.reservation.call_id call_id)) TransitionError.model_call_id_mismatch
  reject_if (not (is_reserved active.status)) TransitionError.model_call_not_reserved
  reject_if (active.reservation.turn_index != decision.turn_index)
      (TransitionError.unexpected_model_call_turn active.reservation.turn_index decision.turn_index)
  reject_if (not (str_eq active.reservation.context_digest decision.context_digest))
      TransitionError.model_call_context_mismatch
  immediate_sequence ←
      ok_or (checked_add_u64 active.reservation.base_sequence 1)
        TransitionError.model_call_counter_overflow
  reject_if (state.journal_sequence != immediate_sequence) TransitionError.stale_model_call_response

-- `match (&loop_state.model_calls, decision.model_call_id())`
unfoldable pub check_decision :
    RunState
    → Option ModelCallLifecycleState
    → Option String
    → ExpectedPlanningTurn
    → Transition (Unit {0})
check_decision state none none decision = ok tt
check_decision state none (some call_id) decision =
    err TransitionError.model_call_lifecycle_not_configured
check_decision state (some calls) none decision = err TransitionError.model_call_decision_required
check_decision state (some calls) (some call_id) decision =
    check_active_decision state calls call_id decision

unfoldable pub validate_model_call_success : RunState → ExpectedPlanningTurn → Transition (Unit {0})
unfolding check_decision
validate_model_call_success state decision = do
  loop_state ← ok_or state.agent_loop TransitionError.agent_loop_not_configured
  check_decision state loop_state.model_calls decision.model_call_id decision

unfoldable pub settle_calls :
    AgentLoopState → Option ModelCallLifecycleState → Transition AgentLoopState
settle_calls loop_state none = ok loop_state
settle_calls loop_state (some calls) = do
  active ← ok_or calls.active_call TransitionError.model_call_not_reserved
  reject_if (not (is_reserved active.status)) TransitionError.model_call_not_reserved
  settled_calls ←
      ok_or (checked_add_u32 calls.settled_calls 1) TransitionError.model_call_counter_overflow
  let settled =
      put_calls loop_state (record calls { settled_calls = settled_calls; active_call = none })
  validate_model_call_counters settled
  ok settled

unfoldable pub settle_successful_model_call : AgentLoopState → Transition AgentLoopState
unfolding settle_calls
settle_successful_model_call loop_state = settle_calls loop_state loop_state.model_calls

module _ (prims : Primitives) where
  unfoldable pub reserve_model_call : RunState → ModelCallReservation → Transition RunState
  reserve_model_call state reservation = do
    map_err TransitionError.planning_contract
        (validate_reservation prims reservation state.run_id state.authority_epoch)
    loop_state ← ok_or state.agent_loop TransitionError.agent_loop_not_configured
    reject_if (is_some loop_state.completion_candidate)
        TransitionError.completion_candidate_already_recorded
    reject_if (leb loop_state.budget.max_model_turns loop_state.accepted_model_turns)
        TransitionError.model_turn_budget_exceeded
    calls ← ok_or loop_state.model_calls TransitionError.model_call_lifecycle_not_configured
    reject_if (is_some calls.active_call) TransitionError.model_call_active
    reject_if (leb calls.budget.max_model_calls calls.reserved_calls)
        TransitionError.model_call_budget_exceeded
    expected_call_index ←
        ok_or (checked_add_u32 calls.reserved_calls 1) TransitionError.model_call_budget_exceeded
    reject_if (reservation.call_index != expected_call_index)
        (TransitionError.unexpected_model_call_index expected_call_index reservation.call_index)
    expected_turn_index ←
        ok_or (checked_add_u32 loop_state.accepted_model_turns 1)
          TransitionError.model_turn_budget_exceeded
    reject_if (reservation.turn_index != expected_turn_index)
        (TransitionError.unexpected_model_call_turn expected_turn_index reservation.turn_index)
    reject_if
        (reservation.base_sequence != state.journal_sequence
          || not (str_eq reservation.base_head_digest state.journal_head_digest))
        TransitionError.model_call_base_head_mismatch
    checked_loop state (
        put_calls loop_state (record calls {
          reserved_calls = expected_call_index;
          active_call =
              some (record { reservation = reservation; status = ModelCallStatus.reserved });
        }))
