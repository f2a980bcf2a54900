-- ===== src/WorkGraph/ModelCalls/Counters.antt =====
-- The counters of model calls and accepted turns keep their order and stay within the budgets,
-- under each operation of WorkGraph/ModelCalls.antt.
use xgeny_cli.Prelude.{ℕ, ◌+◌, ◌≤◌, ◌≡◌, String, Option, none, some, ok, arith}
use xgeny_cli.WorkGraph.Status.{ModelCallUnknownReason, ModelCallSettlement}
use xgeny_cli.WorkGraph.Event.{AgentLoopBudget, ModelCallBudget, ModelCallReservation}
use xgeny_cli.WorkGraph.State.{RunState, AgentLoopState, ModelCallLifecycleState, ModelCallState}
use xgeny_cli.WorkGraph.Digest.{Primitives}
use xgeny_cli.WorkGraph.ModelCalls.{
  validate_model_call_counters, checked_loop, configure_agent_loop, configure_model_call_lifecycle,
  mark_model_call_unknown, settle_model_call, reserve_model_call,
}

-- One call is open at most.
abbrev pub open_calls : Option ModelCallState → ℕ
open_calls none = 0
open_calls (some _) = 1

-- Accepted turns, settled calls and reserved calls are in order, every reserved call is settled or
-- the open one, and the budget bounds them.
abbrev pub CallsAreValid : ℕ → Option ModelCallLifecycleState → Type 0
CallsAreValid accepted none = Unit
CallsAreValid accepted (some calls) =
    (accepted ≤ calls.settled_calls)
    × (calls.settled_calls + open_calls calls.active_call ≡ calls.reserved_calls)
    × (calls.unknown_calls ≤ calls.reserved_calls)
    × (calls.reserved_calls ≤ calls.budget.max_model_calls)

abbrev pub LoopIsValid : Option AgentLoopState → Type 0
LoopIsValid none = Unit
LoopIsValid (some loop_state) =
    (loop_state.accepted_model_turns ≤ loop_state.budget.max_model_turns)
    × CallsAreValid loop_state.accepted_model_turns loop_state.model_calls

-- An operation on the counters keeps them valid, and leaves Steps and grants alone.
abbrev pub LoopOnly : RunState → RunState → Type 0
LoopOnly before after =
    LoopIsValid after.agent_loop
    × (after.steps ≡ before.steps)
    × (after.authorization_consumption ≡ before.authorization_consumption)

pub mark_model_call_unknown-LoopOnly :
    (state : RunState) (call_id : String) (reason : ModelCallUnknownReason) (state' : RunState)
    → LoopIsValid state.agent_loop
    → mark_model_call_unknown state call_id reason ≡ ok state'
    → LoopOnly state state'
unfolding mark_model_call_unknown checked_loop validate_model_call_counters
mark_model_call_unknown-LoopOnly state call_id reason state' v h = ground arith

-- Settling the active model call keeps valid counters valid, and changes no Step and no grant.
pub settle_model_call-LoopOnly :
    (state : RunState) (call_id : String) (settlement : ModelCallSettlement) (state' : RunState)
    → LoopIsValid state.agent_loop
    → settle_model_call state call_id settlement ≡ ok state'
    → LoopOnly state state'
unfolding settle_model_call checked_loop validate_model_call_counters
settle_model_call-LoopOnly state call_id settlement state' v h = ground arith

pub configure_model_call_lifecycle-LoopOnly :
    (state : RunState) (budget : ModelCallBudget) (state' : RunState)
    → LoopIsValid state.agent_loop
    → configure_model_call_lifecycle state budget ≡ ok state'
    → LoopOnly state state'
unfolding configure_model_call_lifecycle checked_loop validate_model_call_counters
configure_model_call_lifecycle-LoopOnly state budget state' v h = ground arith

pub configure_agent_loop-LoopOnly :
    (state : RunState) (budget : AgentLoopBudget) (state' : RunState)
    → configure_agent_loop state budget ≡ ok state'
    → LoopOnly state state'
unfolding configure_agent_loop
configure_agent_loop-LoopOnly state budget state' h = ground arith

-- A reservation that is accepted keeps valid counters valid, so that no more calls are reserved than
-- the budget has and one is open at most, and changes no Step and no grant.
pub reserve_model_call-LoopOnly :
    (prims : Primitives) (state : RunState) (reservation : ModelCallReservation) (state' : RunState)
    → LoopIsValid state.agent_loop
    → reserve_model_call prims state reservation ≡ ok state'
    → LoopOnly state state'
unfolding reserve_model_call checked_loop validate_model_call_counters
reserve_model_call-LoopOnly prims state reservation state' v h = ground arith
