-- ===== src/WorkGraph/Plan/Turns.antt =====
-- A planning decision that is applied takes the next turn and settles its call: `accept_plan` and
-- `record_completion_candidate` of crates/xgeny-workgraph/src/lib.rs.
use xgeny_cli.Prelude.{
  ℕ, ◌+◌, ◌≤◌, ◌≡◌, refl, sym, ap, ◌∙◌, subst, String, Option, none, some, List, ok, >>=-eq-ok,
  reject_if-eq-ok, ok_injective, ok_or-eq-ok, arith, map_err, expect, ok_or, not, checked_add_u64,
  length,
}
use xgeny_cli.WorkGraph.Errors.{TransitionError, PlanningContractError}
use xgeny_cli.WorkGraph.Event.{ExpectedPlanningTurn, AcceptedPlanStep}
use xgeny_cli.WorkGraph.State.{
  RunState, AgentLoopState, ModelCallLifecycleState, CompletionCandidateState,
}
use xgeny_cli.WorkGraph.Digest.{Primitives}
use xgeny_cli.WorkGraph.Steps.{Transition}
use xgeny_cli.WorkGraph.Steps.Lifecycle.{StepsGrow}
use xgeny_cli.WorkGraph.ModelCalls.{
  settle_successful_model_call, settle_calls, validate_model_call_counters,
  validate_model_call_success,
}
use xgeny_cli.WorkGraph.ModelCalls.Counters.{LoopIsValid, CallsAreValid, LoopOnly}
use xgeny_cli.WorkGraph.Plan.{
  expected_turn, accept_plan, record_completion_candidate, validate_accepted_plan_headers,
  build_accepted_plan_candidate, check_output_digest, bad_step_count, exceeds_u32,
  map_plan_frontier_error,
}
use xgeny_cli.WorkGraph.Kahn.{derive_frontier}
use xgeny_cli.WorkGraph.Frontier.{all_steps_receipt_completed}
use xgeny_cli.WorkGraph.Planning.{
  validate_turn, require_planning_identifier, require_planning_digest,
}
use xgeny_cli.WorkGraph.Plan.Additions.{headers-IsNew, candidate-Adds}

abbrev contract : PlanningContractError → TransitionError
contract = TransitionError.planning_contract

-- The turn of a decision is the next one, and within the budget.
pub expected_turn-next :
    (loop_state : AgentLoopState) (decision : ExpectedPlanningTurn) (turn : ℕ)
    → expected_turn loop_state decision ≡ ok turn
    → (turn ≡ loop_state.accepted_model_turns + 1) × (turn ≤ loop_state.budget.max_model_turns)
unfolding expected_turn
expected_turn-next loop_state decision turn h = ground arith

-- Settling the active call with the next accepted turn keeps the counters valid.
settle_calls-LoopIsValid :
    (loop_state : AgentLoopState) (calls : Option ModelCallLifecycleState) (turn : ℕ)
    (candidate : Option CompletionCandidateState) (settled : AgentLoopState)
    → CallsAreValid loop_state.accepted_model_turns calls
    → turn ≡ loop_state.accepted_model_turns + 1
    → turn ≤ loop_state.budget.max_model_turns
    → settle_calls
        (record {
          budget = loop_state.budget;
          accepted_model_turns = turn;
          model_calls = calls;
          completion_candidate = candidate;
        })
        calls
      ≡ ok settled
    → LoopIsValid (some settled)
unfolding settle_calls validate_model_call_counters
settle_calls-LoopIsValid loop_state none turn candidate settled valid next bound h = ground arith
settle_calls-LoopIsValid loop_state (some calls) turn candidate settled valid next bound h =
    ground arith

pub settle-LoopIsValid :
    (loop_state : AgentLoopState) (decision : ExpectedPlanningTurn) (turn : ℕ)
    (candidate : Option CompletionCandidateState) (settled : AgentLoopState)
    → LoopIsValid (some loop_state)
    → expected_turn loop_state decision ≡ ok turn
    → settle_successful_model_call (record {
      budget = loop_state.budget;
      accepted_model_turns = turn;
      model_calls = loop_state.model_calls;
      completion_candidate = candidate;
    })
      ≡ ok settled
    → LoopIsValid (some settled)
unfolding settle_successful_model_call
settle-LoopIsValid loop_state decision turn candidate settled valid counted h =
    let (next, bound) = expected_turn-next loop_state decision turn counted in
    settle_calls-LoopIsValid loop_state loop_state.model_calls turn candidate settled valid.1 next
      bound h

-- A completion candidate that is recorded leaves Steps and grants alone, and keeps valid counters of
-- turns and model calls valid: in order, and within the budgets.
pub record_completion_candidate-LoopOnly :
    (state : RunState) (decision : ExpectedPlanningTurn) (candidate_id summary_digest : String)
    (digest : Option String) (state' : RunState)
    → LoopIsValid state.agent_loop
    → record_completion_candidate state decision candidate_id summary_digest digest ≡ ok state'
    → LoopOnly state state'
unfolding record_completion_candidate
record_completion_candidate-LoopOnly state decision candidate_id summary_digest digest state' valid
      h =
    let (_, _, h1) = >>=-eq-ok (map_err contract (validate_turn decision)) _ h in
    let (_, _, h2) = >>=-eq-ok (validate_model_call_success state decision) _ h1 in
    let (_, _, h3) =
      >>=-eq-ok (map_err contract (require_planning_identifier "candidate_id" candidate_id)) _ h2 in
    let (_, _, h4) =
      >>=-eq-ok (map_err contract (require_planning_digest "summary_digest" summary_digest)) _ h3 in
    let (_, _, h5) = >>=-eq-ok (check_output_digest digest) _ h4 in
    let (frontier, _, h6) =
      >>=-eq-ok (map_err map_plan_frontier_error (derive_frontier state)) _ h5 in
    let (_, h7) = reject_if-eq-ok (not (all_steps_receipt_completed frontier)) _ _ h6 in
    let (loop_state, found, h8) = >>=-eq-ok (ok_or state.agent_loop _) _ h7 in
    let (turn, counted, h9) = >>=-eq-ok (expected_turn loop_state decision) _ h8 in
    let (settled, at, last) = >>=-eq-ok (settle_successful_model_call _) _ h9 in
    subst (LoopOnly state) (ok_injective last) (
      settle-LoopIsValid loop_state decision turn _ settled
          (subst LoopIsValid (ok_or-eq-ok state.agent_loop _ found) valid) counted at,
      refl,
      refl,
    )

module _ (prims : Primitives) where
  -- An accepted plan only adds Steps, all planned and unstarted under names that were free; it
  -- changes no Step that was there and no grant, and keeps valid counters of turns and model calls
  -- valid.
  pub accept_plan-Adds :
      (state : RunState) (decision : ExpectedPlanningTurn) (steps : List AcceptedPlanStep)
      (state' : RunState)
      → LoopIsValid state.agent_loop
      → accept_plan prims state decision steps ≡ ok state'
      → StepsGrow state.steps state'.steps
        × (state'.authorization_consumption ≡ state.authorization_consumption)
        × LoopIsValid state'.agent_loop
  unfolding accept_plan
  accept_plan-Adds state decision steps state' valid h =
      let (_, _, h1) = >>=-eq-ok (map_err contract (validate_turn decision)) _ h in
      let (_, _, h2) = >>=-eq-ok (validate_model_call_success state decision) _ h1 in
      let (loop_state, found, h3) = >>=-eq-ok (ok_or state.agent_loop _) _ h2 in
      let (turn, counted, h4) = >>=-eq-ok (expected_turn loop_state decision) _ h3 in
      let (_, h5) = reject_if-eq-ok (bad_step_count steps) _ _ h4 in
      let (total, _, h6) =
        >>=-eq-ok (ok_or (checked_add_u64 (length state.steps) (length steps)) _) _ h5 in
      let (_, h7) =
        reject_if-eq-ok (exceeds_u32 total loop_state.budget.max_planned_steps) _ _ h6 in
      let (ids, headers, h8) =
        >>=-eq-ok (validate_accepted_plan_headers prims state decision steps) _ h7 in
      let (candidate, built, h9) = >>=-eq-ok (build_accepted_plan_candidate state steps ids) _ h8 in
      let (frontier, _, h10) =
        >>=-eq-ok (map_err map_plan_frontier_error (derive_frontier candidate)) _ h9 in
      let (candidate_loop, loaded, h11) = >>=-eq-ok (expect candidate.agent_loop) _ h10 in
      let (settled, at, last) = >>=-eq-ok (settle_successful_model_call _) _ h11 in
      let (evolve, same_loop, same_grants) =
        candidate-Adds state steps ids candidate
          (headers-IsNew prims state decision steps ids headers) built in
      let same : candidate_loop ≡ loop_state =
        loaded_loop candidate state candidate_loop loop_state same_loop loaded
          (ok_or-eq-ok state.agent_loop _ found) in
      subst
        (λ s.
          StepsGrow state.steps s.steps
          × (s.authorization_consumption ≡ state.authorization_consumption)
          × LoopIsValid s.agent_loop)
        (ok_injective last)
        (
          evolve,
          same_grants,
          settle-LoopIsValid candidate_loop decision turn _ settled
              (subst LoopIsValid (ok_or-eq-ok state.agent_loop _ found ∙ ap some (sym same)) valid)
              (subst (λ l. expected_turn l decision ≡ ok turn) (sym same) counted) at,
        )
    where
      loaded_loop :
          (after before : RunState) (a b : AgentLoopState)
          → after.agent_loop ≡ before.agent_loop
          → ◌≡◌ {A = Transition AgentLoopState} (expect after.agent_loop) (ok a)
          → before.agent_loop ≡ some b
          → a ≡ b
      loaded_loop after before a b same h e = ground arith
