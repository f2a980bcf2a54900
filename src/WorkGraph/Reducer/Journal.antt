-- ===== src/WorkGraph/Reducer/Journal.antt =====
-- What holds of every projection that a journal replays to, and how a Step may go on from one
-- projection to the next: `apply_record` and `replay` of crates/xgeny-workgraph/src/lib.rs.
use xgeny_cli.Prelude.{
  ◌≡◌, refl, sym, subst, ◌⊎◌, String, Option, none, some, List, [], ◌∷◌, ◌++◌, Result, ok, err,
  fault, ◌>>=◌, >>=-eq-ok, ok_injective, map_err, map_err-eq-ok, ok_or-eq-ok, lookup,
}
use xgeny_cli.WorkGraph.Status.{StepStatus}
use xgeny_cli.WorkGraph.Errors.{ReplayError}
use xgeny_cli.WorkGraph.Event.{RunEventBody, EventRecord}
use xgeny_cli.WorkGraph.State.{RunState, StepState}
use xgeny_cli.WorkGraph.Digest.{Primitives}
use xgeny_cli.WorkGraph.Steps.Lifecycle.{Evolves, StepsEvolve}
use xgeny_cli.WorkGraph.ModelCalls.Counters.{LoopIsValid}
use xgeny_cli.WorkGraph.Intent.Commit.{GrantsAreOnce}
use xgeny_cli.WorkGraph.Reducer.{
  apply_body, apply_event, apply_record, advance, verify_record_against_state, replay_from, replay,
  replay_transition_error,
}
use xgeny_cli.WorkGraph.Reducer.Moves.{
  Outcome, apply_body-Outcome, Outcome-StepsEvolve, Outcome-LoopIsValid, Outcome-GrantsAreOnce,
}
use xgeny_cli.WorkGraph.Reducer.Order.{
  OrderHolds, Outcome-OrderHolds, IsFinal, Evolves-final, Evolves-unknown,
}
use xgeny_cli.WorkGraph.Reducer.Uniqueness.{EffectsAreUnique, Outcome-EffectsAreUnique}

-- The counters are in order and within the budgets, each grant is used once at most, no Step has
-- gone on before its dependencies were released, and no two Steps have the same effect.
abbrev pub IsWellFormed : RunState → Type 0
IsWellFormed state =
    LoopIsValid state.agent_loop
    × GrantsAreOnce state.authorization_consumption
    × OrderHolds state.steps
    × EffectsAreUnique state.steps

abbrev pub EachIsWellFormed : Option RunState → Type 0
EachIsWellFormed none = Unit
EachIsWellFormed (some state) = IsWellFormed state

module _ (prims : Primitives) where
  Outcome-IsWellFormed :
      (state state' : RunState)
      → IsWellFormed state
      → Outcome prims state state'
      → IsWellFormed state'
  Outcome-IsWellFormed state state' (valid, once, holds, unique) o = (
    Outcome-LoopIsValid prims state state' valid o,
    Outcome-GrantsAreOnce prims state state' once o,
    Outcome-OrderHolds prims state state' holds o,
    Outcome-EffectsAreUnique prims state state' unique o,
  )

  apply_event-Outcome :
      (state : RunState) (r : EventRecord) (body : RunEventBody) (state' : RunState)
      → LoopIsValid state.agent_loop
      → apply_event prims (some state) r body ≡ ok state'
      → apply_body prims state body ≡ ok state'
  unfolding apply_event
  apply_event-Outcome state r (RunEventBody.run_created _) state' v h = cc
  apply_event-Outcome state r _ state' v h = h

  -- A record that is applied has one of the outcomes, up to the new head.
  pub apply_record-Outcome :
      (state : RunState) (r : EventRecord) (state' : RunState)
      → LoopIsValid state.agent_loop
      → apply_record prims (some state) r ≡ ok state'
      → (applied : RunState) × Outcome prims state applied × (state' ≡ advance r applied)
  unfolding apply_record
  apply_record-Outcome state r state' v h =
      let (_, _, rest) = >>=-eq-ok (verify_record_against_state prims (some state) r) _ h in
      let (applied, done, last) =
        >>=-eq-ok (apply_event prims (some state) r r.event.body) _ rest in
      (
        applied,
        apply_body-Outcome prims state r.event.body applied v
            (apply_event-Outcome state r r.event.body applied v done),
        sym (ok_injective last),
      )

  created-IsWellFormed :
      (r : EventRecord) (body : RunEventBody) (state' : RunState)
      → apply_event prims none r body ≡ ok state'
      → IsWellFormed (advance r state')
  unfolding apply_event lookup
  created-IsWellFormed r (RunEventBody.run_created goal) state' h =
      subst (λ s. IsWellFormed (advance r s)) (ok_injective h)
        (tt, (λ grant_id c at. cc), (λ k step at. cc), λ j k effect_id (step, found, owns) b. cc)
  created-IsWellFormed r _ state' h = cc

  -- A record that is applied to a well-formed projection, or to none, yields a well-formed one:
  -- counters in order and within their budgets, grants used once at most, no Step ahead of its
  -- dependencies, and no effect shared by two Steps.
  pub apply_record-IsWellFormed :
      (current : Option RunState) (r : EventRecord) (state' : RunState)
      → EachIsWellFormed current
      → apply_record prims current r ≡ ok state'
      → IsWellFormed state'
  unfolding apply_record
  apply_record-IsWellFormed none r state' w h =
      let (_, _, rest) = >>=-eq-ok (verify_record_against_state prims none r) _ h in
      let (created, done, last) = >>=-eq-ok (apply_event prims none r r.event.body) _ rest in
      subst IsWellFormed (ok_injective last) (created-IsWellFormed r r.event.body created done)
  apply_record-IsWellFormed (some state) r state' w h =
      let (applied, o, same) = apply_record-Outcome state r state' w.0 h in
      subst IsWellFormed (sym same) (Outcome-IsWellFormed state applied w o)

  -- Where a record is applied to a well-formed projection, no Step disappears; a new one is planned and unstarted; and
  -- one that was there is as it was or has moved along one edge of the status diagram, with the
  -- same identity, dependencies and planned invocation.
  pub apply_record-StepsEvolve :
      (state : RunState) (r : EventRecord) (state' : RunState)
      → IsWellFormed state
      → apply_record prims (some state) r ≡ ok state'
      → StepsEvolve state.steps state'.steps
  apply_record-StepsEvolve state r state' w h =
      let (applied, o, same) = apply_record-Outcome state r state' w.0 h in
      subst (λ s. StepsEvolve state.steps s.steps) (sym same)
        (Outcome-StepsEvolve prims state applied o)

  -- A Step that is completed, failed or handed over to a person is not changed, in any field, by a
  -- record that is applied to a well-formed projection.
  pub apply_record-final :
      (state : RunState) (r : EventRecord) (state' : RunState) (k : String) (step : StepState)
      → IsWellFormed state
      → lookup k state.steps ≡ some step
      → IsFinal step.status
      → apply_record prims (some state) r ≡ ok state'
      → lookup k state'.steps ≡ some step
  apply_record-final state r state' k step w found final h =
      Evolves-final step (lookup k state'.steps) final (
        subst (λ o. Evolves o (lookup k state'.steps)) found
          (apply_record-StepsEvolve state r state' w h k))

  -- An effect whose outcome is unknown is not started again by the next record: in a well-formed
  -- projection its Step stays as it is, starts to be reconciled, or is handed over to a person.
  pub apply_record-unknown :
      (state : RunState) (r : EventRecord) (state' : RunState) (k : String) (step : StepState)
      → IsWellFormed state
      → lookup k state.steps ≡ some step
      → step.status ≡ StepStatus.effect_unknown
      → apply_record prims (some state) r ≡ ok state'
      → (step' : StepState) × (lookup k state'.steps ≡ some step')
        × ((step' ≡ step)
            ⊎ ((step'.status ≡ StepStatus.reconciling)
                ⊎ (step'.status ≡ StepStatus.manual_required)))
  apply_record-unknown state r state' k step w found at h =
      Evolves-unknown step (lookup k state'.steps) at (
        subst (λ o. Evolves o (lookup k state'.steps)) found
          (apply_record-StepsEvolve state r state' w h k))

  replay_from-IsWellFormed :
      (current : Option RunState) (records : List EventRecord) (end : Option RunState)
      → EachIsWellFormed current
      → replay_from prims current records ≡ ok end
      → EachIsWellFormed end
  unfolding replay_from
  replay_from-IsWellFormed current [] end w h = subst EachIsWellFormed (ok_injective h) w
  replay_from-IsWellFormed current (r ∷ rs) end w h =
      let (state, first, rest) =
        >>=-eq-ok (map_err replay_transition_error (apply_record prims current r)) _ h in
      replay_from-IsWellFormed (some state) rs end
        (apply_record-IsWellFormed current r state w (map_err-eq-ok _ _ first)) rest

  -- Every journal that replays yields a projection in which the model-call and turn counters are in
  -- order and within their budgets, each grant is for one use and is used once at most, every Step
  -- that has left `planned` has all its dependencies completed with a Receipt, and no two Steps have
  -- the same effect.
  pub replay-IsWellFormed :
      (records : List EventRecord) (state : RunState)
      → replay prims records ≡ ok state
      → IsWellFormed state
  unfolding replay
  replay-IsWellFormed records state h =
      let (end, first, last) = >>=-eq-ok (replay_from prims none records) _ h in
      subst EachIsWellFormed (ok_or-eq-ok end _ last)
        (replay_from-IsWellFormed none records end tt first)

  -- Replaying a journal in two parts, the second from where the first ends, is replaying it at once,
  -- errors included.
  pub replay_from-append :
      (current : Option RunState) (records more : List EventRecord)
      → replay_from prims current (records ++ more)
        ≡ (replay_from prims current records >>= λ middle. replay_from prims middle more)
  unfolding replay_from
  replay_from-append current [] more = refl
  replay_from-append current (r ∷ rs) more =
      after (map_err replay_transition_error (apply_record prims current r))
        (λ state. replay_from-append (some state) rs more)
    where
      after :
          (m : Result ReplayError RunState)
          → ((state : RunState)
              → replay_from prims (some state) (rs ++ more)
                ≡ (replay_from prims (some state) rs >>= λ middle. replay_from prims middle more))
          → (m >>= λ state. replay_from prims (some state) (rs ++ more)) ≡ (
              (m >>= λ state. replay_from prims (some state) rs) >>= λ middle.
              replay_from prims middle more)
      after (ok state) ih = ih state
      after (err e) ih = refl
      after (fault f) ih = refl
