-- ===== src/WorkGraph/Plan/Additions.antt =====
-- What planning adds to the Steps of a Run: `plan_step`, `validate_accepted_plan_headers`,
-- `build_accepted_plan_candidate` and `accept_plan` of crates/xgeny-workgraph/src/lib.rs.
use text.Mathlib.TextPositions.{eq_refl}
use xgeny_cli.Prelude.{
  sym, ap, ◌∙◌, false, reject_if-eq-ok, lookup-insert, ℕ, ◌≡◌, refl, subst, String, Option, none,
  some, List, [], ok, >>=-eq-ok, ok_injective, fold, fold-All, fold_inv-All, All, reject_if,
  StringMap, StringSet, lookup, contains_key, arith, map_err, map, str_eq,
}
use xgeny_cli.WorkGraph.Status.{StepStatus}
use xgeny_cli.WorkGraph.Errors.{TransitionError}
use xgeny_cli.WorkGraph.Event.{ExpectedPlanningTurn, AcceptedPlanStep, PlannedInvocationBinding}
use xgeny_cli.WorkGraph.State.{RunState, StepState}
use xgeny_cli.WorkGraph.Digest.{Primitives}
use xgeny_cli.WorkGraph.Steps.Lifecycle.{StepsGrow, StepsGrow-refl, StepsGrow-insert}
use xgeny_cli.WorkGraph.Kahn.{derive_frontier}
use xgeny_cli.WorkGraph.Plan.{
  check_step_budget, check_dependency, plan_step, planned_step, check_plan_edge, add_plan_step,
  build_accepted_plan_candidate, existing_action_owners, collect_set, map_plan_frontier_error,
  check_header, validate_accepted_plan_headers,
}

-- Steps are added, and everything else of the projection is as it was.
abbrev pub Adds : RunState → RunState → Type 0
Adds before after =
    StepsGrow before.steps after.steps
    × (after.agent_loop ≡ before.agent_loop)
    × (after.authorization_consumption ≡ before.authorization_consumption)

-- A Step as planning leaves it: it says what was planned, and nothing has happened to it.
pub record IsPlanned (step_id objective : String) (depends_on : List String)
    (planned : Option PlannedInvocationBinding) (step : StepState) : Type 0 where
  pub named : step.step_id ≡ step_id
  pub aims : step.objective ≡ objective
  pub waits : step.depends_on ≡ depends_on
  pub invokes : step.planned_invocation ≡ planned
  pub status : step.status ≡ StepStatus.planned
  pub attempts : step.attempts ≡ 0
  pub intent : step.intent ≡ none
  pub evidence : step.effect_evidence_digest ≡ none
  pub output : step.output_record_digest ≡ none
  pub receipt : step.execution_receipt_id ≡ none
  pub receipt_digest : step.execution_receipt_digest ≡ none
  pub uncertainty : step.uncertainty_reason ≡ none
  pub reconciliation : step.reconciliation_evidence_digest ≡ none

-- Planning a Step finds its name free and leaves a Step there with that name, its objective, its
-- dependencies and its invocation, which is planned, has no attempts, and has no intent, evidence,
-- output, Receipt or uncertainty; every other name keeps its Step.
pub plan_step-lookup :
    (state : RunState) (step_id objective : String) (depends_on : List String)
    (planned : Option PlannedInvocationBinding) (state' : RunState)
    → plan_step state step_id objective depends_on planned ≡ ok state'
    → (lookup step_id state.steps ≡ none)
      × ((step : StepState) × (lookup step_id state'.steps ≡ some step)
          × IsPlanned step_id objective depends_on planned step)
      × ((k : String) → str_eq step_id k ≡ false → lookup k state'.steps ≡ lookup k state.steps)
unfolding plan_step
plan_step-lookup state step_id objective depends_on planned state' h =
    let (_, budget, rest) = >>=-eq-ok (check_step_budget state) _ h in
    let (fresh, rest') = reject_if-eq-ok (contains_key step_id state.steps) _ _ rest in
    let (_, _, last) = >>=-eq-ok (fold (check_dependency state step_id) [] depends_on) _ rest' in
    let step = planned_step step_id objective depends_on planned in
    let steps = ap (λ s. s.steps) (sym (ok_injective last)) in
    (
      absent state.steps fresh,
      (
        step,
        ap (lookup step_id) steps
            ∙ lookup-insert step_id step_id step state.steps
            ∙ (rw (eq_refl step_id) refl),
        record {
          named = refl;
          aims = refl;
          waits = refl;
          invokes = refl;
          status = refl;
          attempts = refl;
          intent = refl;
          evidence = refl;
          output = refl;
          receipt = refl;
          receipt_digest = refl;
          uncertainty = refl;
          reconciliation = refl;
        },
      ),
      (λ k other. ap (lookup k) steps ∙ lookup-insert step_id k step state.steps ∙ (rw other refl)),
    )
  where
    absent : (m : StringMap StepState) → contains_key step_id m ≡ false → lookup step_id m ≡ none
    absent m t = ground arith

-- Planning a Step only adds, planned and unstarted, what was not there: the Steps that were there,
-- the agent loop and the grants stay as they were.
pub plan_step-Adds :
    (state : RunState) (step_id objective : String) (depends_on : List String)
    (planned : Option PlannedInvocationBinding) (state' : RunState)
    → plan_step state step_id objective depends_on planned ≡ ok state'
    → Adds state state'
unfolding plan_step
plan_step-Adds state step_id objective depends_on planned state' h =
    let (_, budget, rest) = >>=-eq-ok (check_step_budget state) _ h in
    let (_, fresh, rest') = >>=-eq-ok (reject_if _ _) _ rest in
    let (_, _, last) = >>=-eq-ok (fold (check_dependency state step_id) [] depends_on) _ rest' in
    let missing : lookup step_id state.steps ≡ none = absent step_id state.steps _ fresh in
    subst (Adds state) (ok_injective last) (
      StepsGrow-insert step_id (planned_step step_id objective depends_on planned) state.steps
          state.steps missing (refl, refl, refl) (StepsGrow-refl state.steps),
      refl,
      refl,
    )
  where
    absent :
        (k : String) (m : StringMap StepState) (e : TransitionError)
        → reject_if (contains_key k m) e ≡ ok tt
        → lookup k m ≡ none
    absent k m e t = ground arith

-- A Step that the projection does not have.
abbrev pub IsNew : RunState → AcceptedPlanStep → Type 0
IsNew state step = lookup step.step_id state.steps ≡ none

module _ (prims : Primitives) where
  check_header-IsNew :
      (state : RunState) (decision : ExpectedPlanningTurn) (seen : StringSet × StringMap String)
      (step : AcceptedPlanStep) (seen' : StringSet × StringMap String)
      → check_header prims state decision seen step ≡ ok seen'
      → IsNew state step
  unfolding check_header
  check_header-IsNew state decision seen step seen' h = ground arith

  -- The headers of an accepted plan name no Step that the projection has.
  pub headers-IsNew :
      (state : RunState) (decision : ExpectedPlanningTurn) (steps : List AcceptedPlanStep)
      (proposed_ids : StringSet)
      → validate_accepted_plan_headers prims state decision steps ≡ ok proposed_ids
      → All (IsNew state) steps
  unfolding validate_accepted_plan_headers
  headers-IsNew state decision steps proposed_ids h =
      let (owners, _, rest) = >>=-eq-ok (existing_action_owners state) _ h in
      let (seen, folded, _) =
        >>=-eq-ok (fold (check_header prims state decision) ([], owners) steps) _ rest in
      fold-All (IsNew state) (check_header prims state decision) (check_header-IsNew state decision)
        ([], owners) steps seen folded

add_plan_step-Adds :
    (state : RunState) (proposed_ids blocked_existing : StringSet) (so_far : RunState × ℕ)
    (step : AcceptedPlanStep) (so_far' : RunState × ℕ)
    → Adds state so_far.0
    → IsNew state step
    → add_plan_step state proposed_ids blocked_existing so_far step ≡ ok so_far'
    → Adds state so_far'.0
unfolding add_plan_step
add_plan_step-Adds state proposed_ids blocked_existing (candidate, edges) step so_far'
      (evolve, same_loop, same_grants) missing h =
    let (_, _, last) =
      >>=-eq-ok
        (fold (check_plan_edge state proposed_ids blocked_existing step.step_id) (edges, [])
          step.depends_on)
        _ h in
    subst (λ s. Adds state s.0) (ok_injective last)
      (
        StepsGrow-insert step.step_id
            (planned_step step.step_id step.objective step.depends_on (some step.invocation))
            state.steps candidate.steps missing (refl, refl, refl) evolve,
        same_loop,
        same_grants,
      )

-- The candidate of an accepted plan adds the plan's Steps, all of them new.
pub candidate-Adds :
    (state : RunState) (steps : List AcceptedPlanStep) (proposed_ids : StringSet)
    (candidate : RunState)
    → All (IsNew state) steps
    → build_accepted_plan_candidate state steps proposed_ids ≡ ok candidate
    → Adds state candidate
unfolding build_accepted_plan_candidate
candidate-Adds state steps proposed_ids candidate fresh h =
    let (frontier, _, rest) =
      >>=-eq-ok (map_err map_plan_frontier_error (derive_frontier state)) _ h in
    let blocked_existing = collect_set (map (λ b. b.step_id) frontier.blocked) in
    let (built, folded, last) =
      >>=-eq-ok (fold (add_plan_step state proposed_ids blocked_existing) (state, 0) steps) _
        rest in
    subst (Adds state) (ok_injective last) (
      fold_inv-All (λ s. Adds state s.0) (IsNew state)
        (add_plan_step state proposed_ids blocked_existing)
        (add_plan_step-Adds state proposed_ids blocked_existing) (state, 0) steps built
        (StepsGrow-refl state.steps, refl, refl) fresh folded)
