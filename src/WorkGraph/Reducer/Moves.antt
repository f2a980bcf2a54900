-- ===== src/WorkGraph/Reducer/Moves.antt =====
-- What one event changes: the cases of `apply_body` and `apply_record` in
-- crates/xgeny-workgraph/src/lib.rs, and the two facts that every event keeps.
use xgeny_cli.Prelude.{◌≡◌, refl, sym, ap, subst, String, none, ok}
use xgeny_cli.WorkGraph.Status.{StepStatus}
use xgeny_cli.WorkGraph.Event.{EffectIntent, RunEventBody}
use xgeny_cli.WorkGraph.State.{RunState}
use xgeny_cli.WorkGraph.Digest.{Primitives}
use xgeny_cli.WorkGraph.Steps.Lifecycle.{
  Move, commit, effect, StepsEvolve, StepsEvolve-replace, StepsGrow, StepsGrow-StepsEvolve,
  StepsGrow-refl,
}
use xgeny_cli.WorkGraph.ModelCalls.Counters.{
  LoopIsValid, LoopOnly, mark_model_call_unknown-LoopOnly, settle_model_call-LoopOnly,
  configure_model_call_lifecycle-LoopOnly, configure_agent_loop-LoopOnly,
  reserve_model_call-LoopOnly,
}
use xgeny_cli.WorkGraph.Plan.Additions.{plan_step-Adds}
use xgeny_cli.WorkGraph.Plan.Turns.{accept_plan-Adds, record_completion_candidate-LoopOnly}
use xgeny_cli.WorkGraph.Effects.Change.{Change, apply_effect_lifecycle-Change}
use xgeny_cli.WorkGraph.Intent.Commit.{
  Commits, commit_effect_intent-Commits, consume_and_commit-steps, GrantsAreOnce,
  consume_and_commit-GrantsAreOnce, committed_step,
}
use xgeny_cli.WorkGraph.Reducer.{apply_body}

-- What an event has done: Steps added (or only counters changed), an intent committed, or one Step
-- moved by its effect.
pub data Outcome (prims : Primitives) (state state' : RunState) : Type 0 where
  grows :
      StepsGrow state.steps state'.steps
      → LoopIsValid state'.agent_loop
      → state'.authorization_consumption ≡ state.authorization_consumption
      → Outcome prims state state'
  commits :
      (step_id : String) (intent : EffectIntent)
      → Commits prims state step_id intent state'
      → Outcome prims state state'
  changes : Change state state' → Outcome prims state state'

module _ (prims : Primitives) where
  loop_only : (state state' : RunState) → LoopOnly state state' → Outcome prims state state'
  loop_only state state' (valid, steps, grants) =
      Outcome.grows (subst (StepsGrow state.steps) (sym steps) (StepsGrow-refl state.steps)) valid
        grants

  -- Every event that the reducer applies has one of the three outcomes.
  pub apply_body-Outcome :
      (state : RunState) (body : RunEventBody) (state' : RunState)
      → LoopIsValid state.agent_loop
      → apply_body prims state body ≡ ok state'
      → Outcome prims state state'
  unfolding apply_body
  apply_body-Outcome state (RunEventBody.run_created _) state' v h = cc
  apply_body-Outcome state (RunEventBody.agent_loop_configured b) state' v h =
      loop_only state state' (configure_agent_loop-LoopOnly state b state' h)
  apply_body-Outcome state (RunEventBody.model_call_lifecycle_configured b) state' v h =
      loop_only state state' (configure_model_call_lifecycle-LoopOnly state b state' v h)
  apply_body-Outcome state (RunEventBody.model_call_reserved r) state' v h =
      loop_only state state' (reserve_model_call-LoopOnly prims state r state' v h)
  apply_body-Outcome state (RunEventBody.model_call_became_unknown i r) state' v h =
      loop_only state state' (mark_model_call_unknown-LoopOnly state i r state' v h)
  apply_body-Outcome state (RunEventBody.model_call_settled i s) state' v h =
      loop_only state state' (settle_model_call-LoopOnly state i s state' v h)
  apply_body-Outcome state (RunEventBody.plan_accepted d s) state' v h =
      let (grow, grants, valid) = accept_plan-Adds prims state d s state' v h in
      Outcome.grows grow valid grants
  apply_body-Outcome state (RunEventBody.completion_candidate_recorded d i s o) state' v h =
      loop_only state state' (record_completion_candidate-LoopOnly state d i s o state' v h)
  apply_body-Outcome state (RunEventBody.step_planned i o d) state' v h =
      let (grow, same_loop, grants) = plan_step-Adds state i o d none state' h in
      Outcome.grows grow (subst LoopIsValid (sym same_loop) v) grants
  apply_body-Outcome state (RunEventBody.effect_intent_committed i intent) state' v h =
      Outcome.commits i intent (commit_effect_intent-Commits prims state i intent state' h)
  apply_body-Outcome state (RunEventBody.invocation_material_unavailable a b c) state' v h =
      Outcome.changes (apply_effect_lifecycle-Change state _ state' h)
  apply_body-Outcome state (RunEventBody.effect_execution_started a b) state' v h =
      Outcome.changes (apply_effect_lifecycle-Change state _ state' h)
  apply_body-Outcome state (RunEventBody.effect_succeeded a b c d) state' v h =
      Outcome.changes (apply_effect_lifecycle-Change state _ state' h)
  apply_body-Outcome state (RunEventBody.effect_failed a b c) state' v h =
      Outcome.changes (apply_effect_lifecycle-Change state _ state' h)
  apply_body-Outcome state (RunEventBody.effect_became_unknown a b c) state' v h =
      Outcome.changes (apply_effect_lifecycle-Change state _ state' h)
  apply_body-Outcome state (RunEventBody.reconciliation_started a b) state' v h =
      Outcome.changes (apply_effect_lifecycle-Change state _ state' h)
  apply_body-Outcome state (RunEventBody.reconciliation_resolved a b c d) state' v h =
      Outcome.changes (apply_effect_lifecycle-Change state _ state' h)
  apply_body-Outcome state (RunEventBody.manual_intervention_required a b c) state' v h =
      Outcome.changes (apply_effect_lifecycle-Change state _ state' h)
  apply_body-Outcome state (RunEventBody.verification_passed a) state' v h =
      Outcome.changes (apply_effect_lifecycle-Change state _ state' h)
  apply_body-Outcome state (RunEventBody.verification_failed a b) state' v h =
      Outcome.changes (apply_effect_lifecycle-Change state _ state' h)
  apply_body-Outcome state (RunEventBody.verification_recorded a b c d e) state' v h =
      Outcome.changes (apply_effect_lifecycle-Change state _ state' h)

  -- An outcome lets each Step stay or move along one edge.
  pub Outcome-StepsEvolve :
      (state state' : RunState) → Outcome prims state state' → StepsEvolve state.steps state'.steps
  Outcome-StepsEvolve state state' (Outcome.grows grow _ _) =
      StepsGrow-StepsEvolve state.steps state'.steps grow
  Outcome-StepsEvolve state state' (Outcome.commits step_id intent c) =
      subst (StepsEvolve state.steps)
        (sym (consume_and_commit-steps state step_id c.before intent state' c.consumed).0)
        (StepsEvolve-replace step_id c.before (committed_step c.before intent) state.steps c.found
          (refl, refl, refl)
          (subst (λ s. Move s StepStatus.intent_committed) (sym c.planned) commit))
  Outcome-StepsEvolve state state' (Outcome.changes c) =
      subst (λ s. StepsEvolve state.steps s.steps) (sym c.result)
        (StepsEvolve-replace c.step_id c.before c.after state.steps c.found
          (c.same_id, c.same_dependencies, c.same_plan) (effect c.move))

  pub Outcome-LoopIsValid :
      (state state' : RunState)
      → LoopIsValid state.agent_loop
      → Outcome prims state state'
      → LoopIsValid state'.agent_loop
  Outcome-LoopIsValid state state' v (Outcome.grows _ valid _) = valid
  Outcome-LoopIsValid state state' v (Outcome.commits step_id intent c) =
      subst LoopIsValid
        (sym (consume_and_commit-steps state step_id c.before intent state' c.consumed).1) v
  Outcome-LoopIsValid state state' v (Outcome.changes c) =
      subst LoopIsValid (sym (ap (λ s. s.agent_loop) c.result)) v

  pub Outcome-GrantsAreOnce :
      (state state' : RunState)
      → GrantsAreOnce state.authorization_consumption
      → Outcome prims state state'
      → GrantsAreOnce state'.authorization_consumption
  Outcome-GrantsAreOnce state state' once (Outcome.grows _ _ grants) =
      subst GrantsAreOnce (sym grants) once
  Outcome-GrantsAreOnce state state' once (Outcome.commits step_id intent c) =
      consume_and_commit-GrantsAreOnce state step_id c.before intent state' c.shape c.consumed once
  Outcome-GrantsAreOnce state state' once (Outcome.changes c) =
      subst GrantsAreOnce (sym (ap (λ s. s.authorization_consumption) c.result)) once
