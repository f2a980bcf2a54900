-- ===== src/WorkGraph/Plan/Budget.antt =====
-- The budget of planned Steps, which `plan_step` and `accept_plan` of
-- crates/xgeny-workgraph/src/lib.rs check before they add any.
use xgeny_cli.Prelude.{
  ℕ, suc, ◌+◌, ◌≤◌, ◌≡◌, sym, ap, ◌∙◌, subst, String, Option, none, some, List, [], ◌∷◌, false, ok,
  >>=-eq-ok, reject_if-eq-ok, ok_injective, ok_or-eq-ok, fold, ok_or, expect, length, StringSet,
  insert, length-insert_bound, arith, map_err, map, checked_add_u64, checked_add_u64-eq-some,
  contains_key, some_injective,
}
use xgeny_cli.WorkGraph.Errors.{TransitionError}
use xgeny_cli.WorkGraph.Event.{ExpectedPlanningTurn, AcceptedPlanStep, PlannedInvocationBinding}
use xgeny_cli.WorkGraph.State.{RunState, AgentLoopState}
use xgeny_cli.WorkGraph.Digest.{Primitives}
use xgeny_cli.WorkGraph.Kahn.{derive_frontier}
use xgeny_cli.WorkGraph.ModelCalls.{validate_model_call_success, settle_successful_model_call}
use xgeny_cli.WorkGraph.Planning.{validate_turn}
use xgeny_cli.WorkGraph.Plan.{
  check_step_budget, check_dependency, plan_step, planned_step, add_plan_step, check_plan_edge,
  build_accepted_plan_candidate, collect_set, map_plan_frontier_error, exceeds_u32, accept_plan,
  expected_turn, bad_step_count, validate_accepted_plan_headers,
}

-- The Steps of a projection are within the budget of its agent loop, where it has one.
abbrev pub StepsWithin : Option AgentLoopState → ℕ → Type 0
StepsWithin none count = Unit
StepsWithin (some loop_state) count = count ≤ loop_state.budget.max_planned_steps

check_step_budget-StepsWithin :
    (state : RunState)
    → check_step_budget state ≡ ok tt
    → StepsWithin state.agent_loop (suc (length state.steps))
unfolding check_step_budget
check_step_budget-StepsWithin state h = ground arith

StepsWithin-le :
    (loop_state : Option AgentLoopState) (count bound : ℕ)
    → count ≤ bound
    → StepsWithin loop_state bound
    → StepsWithin loop_state count
StepsWithin-le none count bound le within = tt
StepsWithin-le (some loop_state) count bound le within = omega arith

-- Planning a Step keeps the number of Steps within the budget of the agent loop, where one is
-- configured.
pub plan_step-StepsWithin :
    (state : RunState) (step_id objective : String) (depends_on : List String)
    (planned : Option PlannedInvocationBinding) (state' : RunState)
    → plan_step state step_id objective depends_on planned ≡ ok state'
    → StepsWithin state'.agent_loop (length state'.steps)
unfolding plan_step
plan_step-StepsWithin state step_id objective depends_on planned state' h =
    let (_, budget, rest) = >>=-eq-ok (check_step_budget state) _ h in
    let (_, rest') = reject_if-eq-ok (contains_key step_id state.steps) _ _ rest in
    let (_, _, last) = >>=-eq-ok (fold (check_dependency state step_id) [] depends_on) _ rest' in
    subst (λ s. StepsWithin s.agent_loop (length s.steps)) (ok_injective last)
      (StepsWithin-le state.agent_loop
        (length (insert step_id (planned_step step_id objective depends_on planned) state.steps))
        (suc (length state.steps)) (length-insert_bound step_id _ state.steps)
        (check_step_budget-StepsWithin state budget))

add_plan_step-length :
    (state : RunState) (proposed_ids blocked_existing : StringSet) (so_far : RunState × ℕ)
    (step : AcceptedPlanStep) (so_far' : RunState × ℕ)
    → add_plan_step state proposed_ids blocked_existing so_far step ≡ ok so_far'
    → length so_far'.0.steps ≤ suc (length so_far.0.steps)
unfolding add_plan_step
add_plan_step-length state proposed_ids blocked_existing (candidate, edges) step so_far' h =
    let (_, _, last) =
      >>=-eq-ok
        (fold (check_plan_edge state proposed_ids blocked_existing step.step_id) (edges, [])
          step.depends_on)
        _ h in
    subst (λ s. length s.0.steps ≤ suc (length candidate.steps)) (ok_injective last)
      (length-insert_bound step.step_id _ candidate.steps)

added-length :
    (state : RunState) (proposed_ids blocked_existing : StringSet) (so_far : RunState × ℕ)
    (steps : List AcceptedPlanStep) (so_far' : RunState × ℕ)
    → fold (add_plan_step state proposed_ids blocked_existing) so_far steps ≡ ok so_far'
    → length so_far'.0.steps ≤ length so_far.0.steps + length steps
unfolding fold
added-length state proposed_ids blocked_existing so_far [] so_far' h =
    omega (arith, ap (λ s. length s.0.steps) (ok_injective h))
added-length state proposed_ids blocked_existing so_far (x ∷ xs) so_far' h =
    let (middle, first, rest) =
      >>=-eq-ok (add_plan_step state proposed_ids blocked_existing so_far x) _ h in
    omega (
      arith,
      add_plan_step-length state proposed_ids blocked_existing so_far x middle first,
      added-length state proposed_ids blocked_existing middle xs so_far' rest,
    )

-- A plan's candidate has at most as many Steps as the projection and the plan together.
pub candidate-length :
    (state : RunState) (steps : List AcceptedPlanStep) (proposed_ids : StringSet)
    (candidate : RunState)
    → build_accepted_plan_candidate state steps proposed_ids ≡ ok candidate
    → length candidate.steps ≤ length state.steps + length steps
unfolding build_accepted_plan_candidate
candidate-length state steps proposed_ids candidate h =
    let (frontier, _, rest) =
      >>=-eq-ok (map_err map_plan_frontier_error (derive_frontier state)) _ h in
    let blocked_existing = collect_set (map (λ b. b.step_id) frontier.blocked) in
    let (built, folded, last) =
      >>=-eq-ok (fold (add_plan_step state proposed_ids blocked_existing) (state, 0) steps) _
        rest in
    subst (λ s. length s.steps ≤ length state.steps + length steps) (ok_injective last)
      (added-length state proposed_ids blocked_existing (state, 0) steps built folded)

within_limit : (total max : ℕ) → exceeds_u32 total max ≡ false → total ≤ max
within_limit total max h = ground arith

module _ (prims : Primitives) where
  -- Where the agent loop is configured, an accepted plan keeps the number of Steps within its budget
  -- of planned Steps.
  pub accept_plan-within_budget :
      (state : RunState) (decision : ExpectedPlanningTurn) (steps : List AcceptedPlanStep)
      (state' : RunState) (loop_state : AgentLoopState)
      → state.agent_loop ≡ some loop_state
      → accept_plan prims state decision steps ≡ ok state'
      → length state'.steps ≤ loop_state.budget.max_planned_steps
  unfolding accept_plan
  accept_plan-within_budget state decision steps state' loop_state configured h =
      let (_, _, h1) =
        >>=-eq-ok (map_err TransitionError.planning_contract (validate_turn decision)) _ h in
      let (_, _, h2) = >>=-eq-ok (validate_model_call_success state decision) _ h1 in
      let (found, loaded, h3) = >>=-eq-ok (ok_or state.agent_loop _) _ h2 in
      let (turn, _, h4) = >>=-eq-ok (expected_turn found decision) _ h3 in
      let (_, h5) = reject_if-eq-ok (bad_step_count steps) _ _ h4 in
      let (total, added, h6) =
        >>=-eq-ok (ok_or (checked_add_u64 (length state.steps) (length steps)) _) _ h5 in
      let (fits, h7) = reject_if-eq-ok (exceeds_u32 total found.budget.max_planned_steps) _ _ h6 in
      let (ids, _, h8) =
        >>=-eq-ok (validate_accepted_plan_headers prims state decision steps) _ h7 in
      let (candidate, built, h9) = >>=-eq-ok (build_accepted_plan_candidate state steps ids) _ h8 in
      let (frontier, _, h10) =
        >>=-eq-ok (map_err map_plan_frontier_error (derive_frontier candidate)) _ h9 in
      let (candidate_loop, _, h11) = >>=-eq-ok (expect candidate.agent_loop) _ h10 in
      let (settled, _, last) = >>=-eq-ok (settle_successful_model_call _) _ h11 in
      let (sum, _) =
        checked_add_u64-eq-some (length state.steps) (length steps) (ok_or-eq-ok _ _ added) in
      let same : loop_state ≡ found =
        some_injective (sym configured ∙ ok_or-eq-ok state.agent_loop _ loaded) in
      subst (λ l. length state'.steps ≤ l.budget.max_planned_steps) (sym same)
        (omega (
          arith,
          ap (λ s. length s.steps) (ok_injective last),
          candidate-length state steps ids candidate built,
          within_limit total found.budget.max_planned_steps fits,
        ))
