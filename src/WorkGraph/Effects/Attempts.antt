-- ===== src/WorkGraph/Effects/Attempts.antt =====
-- The budget of effect starts: `record_execution_started` and `count_attempts` of
-- crates/xgeny-workgraph/src/lib.rs.
use xgeny_cli.Prelude.{
  ℕ, suc, ◌+◌, ◌≤◌, ◌≡◌, sym, subst, inl, inr, String, Option, none, some, [], ◌∷◌, ok, >>=-eq-ok,
  ok_injective, ok_or-eq-ok, ok_or, fold, values, StringMap, lookup, replace, checked_add_u32,
  checked_add_u32-eq-some, arith, leb, ◌>>=◌, reject_if,
}
use xgeny_cli.WorkGraph.Errors.{TransitionError}
use xgeny_cli.WorkGraph.Event.{RunEventBody}
use xgeny_cli.WorkGraph.State.{RunState, StepState, AgentLoopState}
use xgeny_cli.WorkGraph.ModelCalls.{add_attempts, count_attempts}
use xgeny_cli.WorkGraph.Steps.{Transition}
use xgeny_cli.WorkGraph.Effects.{check_tool_calls, apply_effect_lifecycle}
use xgeny_cli.WorkGraph.Effects.Change.{apply_effect_lifecycle-Change}

-- The effect starts of all Steps together.
unfoldable pub total_attempts : StringMap StepState → ℕ
total_attempts [] = 0
total_attempts ((_, step) ∷ steps) = step.attempts + total_attempts steps

-- The loop of the source counts them, where it does not overflow.
fold-total_attempts :
    (start : ℕ) (steps : StringMap StepState) (count : ℕ)
    → fold add_attempts start (values steps) ≡ ok count
    → count ≡ start + total_attempts steps
unfolding fold total_attempts add_attempts
fold-total_attempts start [] count h = omega (arith, ok_injective h)
fold-total_attempts start ((k, step) ∷ steps) count h =
    let (next, added, rest) =
      >>=-eq-ok
        (ok_or (checked_add_u32 start step.attempts) TransitionError.tool_call_budget_exceeded) _
        h in
    let (sum, _) = checked_add_u32-eq-some start step.attempts (ok_or-eq-ok _ _ added) in
    omega (arith, fold-total_attempts next steps count rest)

total_attempts-replace :
    (k : String) (before after : StepState) (steps : StringMap StepState)
    → lookup k steps ≡ some before
    → total_attempts (replace k after steps) + before.attempts
      ≡ total_attempts steps + after.attempts
unfolding lookup replace total_attempts
total_attempts-replace k before after [] h = cc
total_attempts-replace k before after ((j, step) ∷ steps) h =
    ground (arith, total_attempts-replace k before after steps)

-- The effect starts are within the agent loop's budget, where there is one.
abbrev pub AttemptsWithin : Option AgentLoopState → ℕ → Type 0
AttemptsWithin none count = Unit
AttemptsWithin (some loop_state) count = count ≤ loop_state.budget.max_tool_calls

check_tool_calls-AttemptsWithin :
    (state : RunState)
    → check_tool_calls state ≡ ok tt
    → AttemptsWithin state.agent_loop (suc (total_attempts state.steps))
unfolding check_tool_calls count_attempts
check_tool_calls-AttemptsWithin state h = by_loop state.agent_loop h
  where
    by_loop :
        (loop_state : Option AgentLoopState)
        → ◌≡◌ {A = Transition (Unit {0})}
            (elim loop_state [
              | none ↦ ok tt
              | some l ↦ count_attempts state >>= λ starts.
                  reject_if
                    (leb l.budget.max_tool_calls starts)
                    TransitionError.tool_call_budget_exceeded
            ])
            (ok tt)
        → AttemptsWithin loop_state (suc (total_attempts state.steps))
    by_loop none e = tt
    by_loop (some l) e =
        let (starts, counted, rest) = >>=-eq-ok (count_attempts state) _ e in
        let bound : suc starts ≤ l.budget.max_tool_calls = ground arith in
        omega (arith, fold-total_attempts 0 state.steps starts counted)

AttemptsWithin-eq :
    (loop_state : Option AgentLoopState) (a b : ℕ)
    → a ≡ b
    → AttemptsWithin loop_state b
    → AttemptsWithin loop_state a
AttemptsWithin-eq loop_state a b e within = subst (AttemptsWithin loop_state) (sym e) within

-- An event of the effect lifecycle that is applied keeps the number of effect starts within the
-- budget of the configured agent loop.
pub apply_effect_lifecycle-AttemptsWithin :
    (state : RunState) (body : RunEventBody) (state' : RunState)
    → AttemptsWithin state.agent_loop (total_attempts state.steps)
    → apply_effect_lifecycle state body ≡ ok state'
    → AttemptsWithin state'.agent_loop (total_attempts state'.steps)
apply_effect_lifecycle-AttemptsWithin state body state' within h =
    let c = apply_effect_lifecycle-Change state body state' h in
    let moved = total_attempts-replace c.step_id c.before c.after state.steps c.found in
    subst (λ s. AttemptsWithin s.agent_loop (total_attempts s.steps)) (sym c.result)
      (elim c.attempts [
        | inl same ↦
            AttemptsWithin-eq state.agent_loop _ (total_attempts state.steps) (omega arith) within
        | inr (more, _, budget, _) ↦
            AttemptsWithin-eq state.agent_loop _ (suc (total_attempts state.steps)) (omega arith)
              (check_tool_calls-AttemptsWithin state budget)
      ])
