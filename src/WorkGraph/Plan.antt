-- ===== src/WorkGraph/Plan.antt =====
-- Planning events: `plan_step`, `accept_plan`, `record_completion_candidate` and the functions that
-- they call in crates/xgeny-workgraph/src/lib.rs.
pub mod Additions
pub mod Turns
pub mod Budget
use xgeny_cli.Prelude.{
  ℕ, ◌+◌, String, Option, none, some, Bool, true, false, ◌||◌, ◌&&◌, not, List, [], ◌∷◌, ◌++◌, map,
  Result, ok, err, ◌>>=◌, ◌>>◌, reject_if, ok_or, map_err, fold, expect, is_some, is_empty, length,
  ltb, leb, ◌==◌, ◌!=◌, str_eq, StringMap, StringSet, lookup, insert, contains_key, contains,
  set_insert, values, checked_add_u32, checked_add_u64, try_u32, text_is_empty, text_len, any_char,
  is_control, if◌then◌else◌,
}
use xgeny_cli.WorkGraph.Status.{StepStatus, DependencyBlockReason}
use xgeny_cli.WorkGraph.Errors.{TransitionError, FrontierError}
use xgeny_cli.WorkGraph.Event.{
  ExpectedPlanningTurn, AcceptedPlanStep, PlannedInvocationBinding, EffectIntent,
}
use xgeny_cli.WorkGraph.State.{RunState, StepState, AgentLoopState, CompletionCandidateState}
use xgeny_cli.WorkGraph.Digest.{Primitives}
use xgeny_cli.WorkGraph.Planning.{
  validate_turn, validate_binding, require_planning_identifier, require_planning_digest,
}
use xgeny_cli.WorkGraph.Steps.{Transition, dependency_release_block_reason}
use xgeny_cli.WorkGraph.ModelCalls.{
  put_loop, validate_model_call_success, settle_successful_model_call,
}
use xgeny_cli.WorkGraph.Frontier.{WorkFrontier, all_steps_receipt_completed}
use xgeny_cli.WorkGraph.Kahn.{derive_frontier}

abbrev pub max_accepted_plan_steps : ℕ
max_accepted_plan_steps = 32

abbrev pub max_accepted_plan_edges : ℕ
max_accepted_plan_edges = 128

abbrev max_accepted_objective_bytes : ℕ
max_accepted_objective_bytes = 5000

-- The `StepState` that planning inserts.
abbrev pub planned_step :
    String → String → List String → Option PlannedInvocationBinding → StepState
planned_step step_id objective depends_on planned_invocation = record {
  step_id = step_id;
  objective = objective;
  depends_on = depends_on;
  planned_invocation = planned_invocation;
  status = StepStatus.planned;
  attempts = 0;
  intent = none;
  effect_evidence_digest = none;
  output_record_digest = none;
  execution_receipt_id = none;
  execution_receipt_digest = none;
  uncertainty_reason = none;
  reconciliation_evidence_digest = none;
}

-- `u32::try_from(total).map_or(true, |total| total > max)`
abbrev pub exceeds_u32 : ℕ → ℕ → Bool
exceeds_u32 total max = elim (try_u32 total) [ none ↦ true | some n ↦ ltb max n ]

-- The part of `plan_step` that a configured agent loop adds.
unfoldable pub check_step_budget : RunState → Transition (Unit {0})
check_step_budget state = elim state.agent_loop [
  | none ↦ ok tt
  | some loop_state ↦ do
    reject_if (is_some loop_state.completion_candidate)
        TransitionError.completion_candidate_already_recorded
    total_steps ←
        ok_or (checked_add_u64 (length state.steps) 1) TransitionError.planned_step_budget_exceeded
    reject_if (exceeds_u32 total_steps loop_state.budget.max_planned_steps)
        TransitionError.planned_step_budget_exceeded
]

-- One dependency of `plan_step`.
unfoldable pub check_dependency : RunState → String → StringSet → String → Transition StringSet
check_dependency state step_id unique dependency_id = do
  reject_if (str_eq dependency_id step_id) (TransitionError.self_dependency step_id)
  reject_if (contains dependency_id unique)
      (TransitionError.duplicate_dependency step_id dependency_id)
  reject_if (not (contains_key dependency_id state.steps))
      (TransitionError.unknown_dependency step_id dependency_id)
  ok (set_insert dependency_id unique)

unfoldable pub plan_step :
    RunState → String → String → List String → Option PlannedInvocationBinding → Transition RunState
plan_step state step_id objective depends_on planned_invocation = do
  check_step_budget state
  reject_if (contains_key step_id state.steps) (TransitionError.duplicate_step step_id)
  unique ← fold (check_dependency state step_id) [] depends_on
  ok (record state {
    steps =
        insert step_id (planned_step step_id objective depends_on planned_invocation) state.steps;
  })

unfoldable pub map_plan_frontier_error : FrontierError → TransitionError
map_plan_frontier_error (FrontierError.self_dependency step_id) =
    TransitionError.self_dependency step_id
map_plan_frontier_error (FrontierError.duplicate_dependency step_id dependency_id) =
    TransitionError.duplicate_dependency step_id dependency_id
map_plan_frontier_error (FrontierError.unknown_dependency step_id dependency_id) =
    TransitionError.unknown_dependency step_id dependency_id
map_plan_frontier_error FrontierError.dependency_cycle = TransitionError.dependency_cycle
map_plan_frontier_error
      (FrontierError.active_dependency_not_released step_id dependency_id reason) =
    TransitionError.dependency_not_released step_id dependency_id reason

unfoldable pub validate_accepted_objective : String → Transition (Unit {0})
validate_accepted_objective objective =
    reject_if
      (text_is_empty objective
        || (ltb max_accepted_objective_bytes (text_len objective) || any_char is_control objective))
      TransitionError.invalid_accepted_objective

-- `insert` into the owners of actions, and the error where another Step owned the action.
unfoldable pub claim_action : String → StringMap String → String → Transition (StringMap String)
claim_action step_id owners action_digest = do
  elim (lookup action_digest owners) [
    | none ↦ ok tt
    | some existing_step_id ↦
        reject_if (not (str_eq existing_step_id step_id))
          (TransitionError.duplicate_planned_action step_id existing_step_id)
  ]
  ok (insert action_digest step_id owners)

abbrev planned_action : Option PlannedInvocationBinding → List String
planned_action none = []
planned_action (some planned) = planned.action_digest ∷ []

abbrev intent_action : Option EffectIntent → List String
intent_action none = []
intent_action (some intent) = intent.action_digest ∷ []

-- One Step of `existing_action_owners`.
unfoldable pub claim_step_actions : StringMap String → StepState → Transition (StringMap String)
claim_step_actions owners step =
    fold (claim_action step.step_id) owners
      (planned_action step.planned_invocation ++ intent_action step.intent)

unfoldable pub existing_action_owners : RunState → Transition (StringMap String)
existing_action_owners state = fold claim_step_actions [] (values state.steps)

-- One dependency of `build_accepted_plan_candidate`: the edge count and the Step's own set.
unfoldable pub plan_blocks : Option DependencyBlockReason → Option DependencyBlockReason
plan_blocks none = none
plan_blocks (some DependencyBlockReason.not_completed) = none
plan_blocks (some reason) = some reason

unfoldable pub existing_reason : StringSet → String → StepState → Option DependencyBlockReason
existing_reason blocked_existing dependency_id existing =
    if contains dependency_id blocked_existing
    then some DependencyBlockReason.dependency_blocked
    else dependency_release_block_reason existing

unfoldable pub check_plan_edge :
    RunState → StringSet → StringSet → String → ℕ × StringSet → String → Transition (ℕ × StringSet)
check_plan_edge state proposed_ids blocked_existing step_id (edge_count, unique) dependency_id = do
  count ← ok_or (checked_add_u64 edge_count 1) TransitionError.accepted_plan_edge_budget_exceeded
  reject_if (ltb max_accepted_plan_edges count) TransitionError.accepted_plan_edge_budget_exceeded
  reject_if (str_eq dependency_id step_id) (TransitionError.self_dependency step_id)
  reject_if (contains dependency_id unique)
      (TransitionError.duplicate_dependency step_id dependency_id)
  reject_if
      (not (contains_key dependency_id state.steps) && not (contains dependency_id proposed_ids))
      (TransitionError.unknown_dependency step_id dependency_id)
  elim (lookup dependency_id state.steps) [
    | none ↦ ok tt
    | some existing ↦ elim (plan_blocks (existing_reason blocked_existing dependency_id existing)) [
      | none ↦ ok tt
      | some reason ↦ err (TransitionError.plan_dependency_blocked step_id dependency_id reason)
    ]
  ]
  ok (count, set_insert dependency_id unique)

-- One Step of `build_accepted_plan_candidate`.
unfoldable pub add_plan_step :
    RunState → StringSet → StringSet → RunState × ℕ → AcceptedPlanStep → Transition (RunState × ℕ)
add_plan_step state proposed_ids blocked_existing (candidate, edge_count) step = do
  (count, unique) ←
      fold (check_plan_edge state proposed_ids blocked_existing step.step_id) (edge_count, [])
        step.depends_on
  ok (
    record candidate {
      steps =
          insert step.step_id
            (planned_step step.step_id step.objective step.depends_on (some step.invocation))
            candidate.steps;
    },
    count,
  )

-- `collect` into a `BTreeSet`.
unfoldable pub collect_set : List String → StringSet
collect_set [] = []
collect_set (x ∷ xs) = set_insert x (collect_set xs)

unfoldable pub build_accepted_plan_candidate :
    RunState → List AcceptedPlanStep → StringSet → Transition RunState
build_accepted_plan_candidate state steps proposed_ids = do
  frontier ← map_err map_plan_frontier_error (derive_frontier state)
  let blocked_existing = collect_set (map (λ b. b.step_id) frontier.blocked)
  (candidate, edge_count) ←
      fold (add_plan_step state proposed_ids blocked_existing) (state, 0) steps
  ok candidate

-- The turn that a decision must be for, within the budget of model turns.
unfoldable pub expected_turn : AgentLoopState → ExpectedPlanningTurn → Transition ℕ
expected_turn loop_state decision = do
  reject_if (is_some loop_state.completion_candidate)
      TransitionError.completion_candidate_already_recorded
  turn ←
      ok_or (checked_add_u32 loop_state.accepted_model_turns 1)
        TransitionError.model_turn_budget_exceeded
  reject_if (decision.turn_index != turn)
      (TransitionError.unexpected_planning_turn turn decision.turn_index)
  reject_if (ltb loop_state.budget.max_model_turns turn) TransitionError.model_turn_budget_exceeded
  ok turn

-- The optional record digest of a completion candidate.
unfoldable pub check_output_digest : Option String → Transition (Unit {0})
check_output_digest none = ok tt
check_output_digest (some digest) =
    map_err TransitionError.planning_contract
      (require_planning_digest "completion_output_record_digest" digest)

unfoldable pub record_completion_candidate :
    RunState → ExpectedPlanningTurn → String → String → Option String → Transition RunState
record_completion_candidate state decision candidate_id summary_digest record_digest = do
  map_err TransitionError.planning_contract (validate_turn decision)
  validate_model_call_success state decision
  map_err TransitionError.planning_contract
      (require_planning_identifier "candidate_id" candidate_id)
  map_err TransitionError.planning_contract
      (require_planning_digest "summary_digest" summary_digest)
  check_output_digest record_digest
  frontier ← map_err map_plan_frontier_error (derive_frontier state)
  reject_if (not (all_steps_receipt_completed frontier))
      TransitionError.completion_candidate_requires_receipt_completed_plan
  loop_state ← ok_or state.agent_loop TransitionError.agent_loop_not_configured
  turn ← expected_turn loop_state decision
  settled ← settle_successful_model_call (record loop_state {
    accepted_model_turns = turn;
    completion_candidate = some (record {
      candidate_id = candidate_id;
      context_digest = decision.context_digest;
      proposal_digest = decision.proposal_digest;
      summary_digest = summary_digest;
      completion_output_record_digest = record_digest;
    });
  })
  ok (put_loop state settled)

-- The count of an accepted plan's Steps is 0 or too large.
abbrev pub bad_step_count : List AcceptedPlanStep → Bool
bad_step_count steps = is_empty steps || ltb max_accepted_plan_steps (length steps)

module _ (prims : Primitives) where
  -- One Step of `validate_accepted_plan_headers`.
  unfoldable pub check_header :
      RunState
      → ExpectedPlanningTurn
      → StringSet × StringMap String
      → AcceptedPlanStep
      → Transition (StringSet × StringMap String)
  check_header state decision (proposed_ids, owners) step = do
    map_err TransitionError.planning_contract (require_planning_identifier "step_id" step.step_id)
    validate_accepted_objective step.objective
    map_err TransitionError.planning_contract (validate_binding prims step.invocation)
    owners' ← claim_action step.step_id owners step.invocation.action_digest
    reject_if (not (str_eq step.invocation.proposal_digest decision.proposal_digest))
        (TransitionError.plan_proposal_digest_mismatch step.step_id)
    reject_if (contains_key step.step_id state.steps || contains step.step_id proposed_ids)
        (TransitionError.duplicate_step step.step_id)
    ok (set_insert step.step_id proposed_ids, owners')

  unfoldable pub validate_accepted_plan_headers :
      RunState → ExpectedPlanningTurn → List AcceptedPlanStep → Transition StringSet
  validate_accepted_plan_headers state decision steps = do
    owners ← existing_action_owners state
    (proposed_ids, owners') ← fold (check_header state decision) ([], owners) steps
    ok proposed_ids

  unfoldable pub accept_plan :
      RunState → ExpectedPlanningTurn → List AcceptedPlanStep → Transition RunState
  accept_plan state decision steps = do
    map_err TransitionError.planning_contract (validate_turn decision)
    validate_model_call_success state decision
    loop_state ← ok_or state.agent_loop TransitionError.agent_loop_not_configured
    turn ← expected_turn loop_state decision
    reject_if (bad_step_count steps)
        (TransitionError.accepted_plan_step_count_invalid (length steps))
    total_steps ←
        ok_or (checked_add_u64 (length state.steps) (length steps))
          TransitionError.planned_step_budget_exceeded
    reject_if (exceeds_u32 total_steps loop_state.budget.max_planned_steps)
        TransitionError.planned_step_budget_exceeded
    proposed_ids ← validate_accepted_plan_headers state decision steps
    candidate ← build_accepted_plan_candidate state steps proposed_ids
    frontier ← map_err map_plan_frontier_error (derive_frontier candidate)
    candidate_loop ← expect candidate.agent_loop
    settled ← settle_successful_model_call (record candidate_loop { accepted_model_turns = turn })
    ok (put_loop candidate settled)
