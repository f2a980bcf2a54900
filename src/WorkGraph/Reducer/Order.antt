-- ===== src/WorkGraph/Reducer/Order.antt =====
-- The order in which Steps may run: no Step of a Run goes on before its dependencies are completed
-- with a Receipt, whatever events crates/xgeny-workgraph/src/lib.rs, `apply_body`, applies.
use xgeny_cli.Prelude.{
  ◌≡◌, ◌≢◌, refl, sym, ap, ◌∙◌, subst, ◌⊎◌, inl, inr, String, Option, none, some, List, [], ◌∷◌,
  true, All, StringMap, lookup, replace, lookup-replace, arith,
}
use xgeny_cli.WorkGraph.Status.{StepStatus}
use xgeny_cli.WorkGraph.State.{RunState, StepState}
use xgeny_cli.WorkGraph.Digest.{Primitives}
use xgeny_cli.WorkGraph.Steps.{receipt_releases_dependency}
use xgeny_cli.WorkGraph.Steps.Lifecycle.{EffectMove, Move, Evolves, StepsEvolve, Grows}
use xgeny_cli.WorkGraph.Effects.Change.{status_eq-eq}
use xgeny_cli.WorkGraph.Intent.Release.{IsReleased}
use xgeny_cli.WorkGraph.Intent.Commit.{consume_and_commit-steps, committed_step}
use xgeny_cli.WorkGraph.Reducer.Moves.{Outcome, Outcome-StepsEvolve}

-- Each Step is still planned, or all its dependencies are completed with a Receipt.
abbrev pub OrderHolds : StringMap StepState → Type 0
OrderHolds steps =
    (k : String) (step : StepState)
    → lookup k steps ≡ some step
    → (step.status ≡ StepStatus.planned) ⊎ All (IsReleased steps) step.depends_on

-- A completed Step is at the end of the diagram, and so are a failed one and one handed over.
pub data IsFinal : StepStatus → Type 0 where
  completed : IsFinal StepStatus.completed
  failed : IsFinal StepStatus.failed
  manual_required : IsFinal StepStatus.manual_required

final-EffectMove : {before after : StepStatus} → EffectMove before after → IsFinal before → ⊥
final-EffectMove EffectMove.start f = elim f [ ]
final-EffectMove EffectMove.lose_material f = elim f [ ]
final-EffectMove EffectMove.succeed f = elim f [ ]
final-EffectMove EffectMove.fail f = elim f [ ]
final-EffectMove EffectMove.lose_track f = elim f [ ]
final-EffectMove EffectMove.reconcile f = elim f [ ]
final-EffectMove EffectMove.hand_over_unknown f = elim f [ ]
final-EffectMove EffectMove.hand_over f = elim f [ ]
final-EffectMove EffectMove.prove_applied f = elim f [ ]
final-EffectMove EffectMove.prove_not_applied f = elim f [ ]
final-EffectMove EffectMove.prove_failed f = elim f [ ]
final-EffectMove EffectMove.pass f = elim f [ ]
final-EffectMove EffectMove.refuse f = elim f [ ]
final-EffectMove EffectMove.stay_unsure f = elim f [ ]

pub final-Move : {before after : StepStatus} → Move before after → IsFinal before → ⊥
final-Move Move.commit f = elim f [ ]
final-Move (Move.effect e) f = final-EffectMove e f

planned-EffectMove :
    {before after : StepStatus} → EffectMove before after → before ≢ StepStatus.planned
planned-EffectMove EffectMove.start = cc
planned-EffectMove EffectMove.lose_material = cc
planned-EffectMove EffectMove.succeed = cc
planned-EffectMove EffectMove.fail = cc
planned-EffectMove EffectMove.lose_track = cc
planned-EffectMove EffectMove.reconcile = cc
planned-EffectMove EffectMove.hand_over_unknown = cc
planned-EffectMove EffectMove.hand_over = cc
planned-EffectMove EffectMove.prove_applied = cc
planned-EffectMove EffectMove.prove_not_applied = cc
planned-EffectMove EffectMove.prove_failed = cc
planned-EffectMove EffectMove.pass = cc
planned-EffectMove EffectMove.refuse = cc
planned-EffectMove EffectMove.stay_unsure = cc

-- A Step at the end of the diagram stays as it is, every field of it.
pub Evolves-final :
    (step : StepState) (after : Option StepState)
    → IsFinal step.status
    → Evolves (some step) after
    → after ≡ some step
Evolves-final step none f e = absurd e
Evolves-final step (some after) f (same, inl e) = ap some e
Evolves-final step (some after) f (same, inr m) = absurd (final-Move m f)

unknown_EffectMove :
    {before after : StepStatus}
    → EffectMove before after
    → before ≡ StepStatus.effect_unknown
    → (after ≡ StepStatus.reconciling) ⊎ (after ≡ StepStatus.manual_required)
unknown_EffectMove EffectMove.start e = cc
unknown_EffectMove EffectMove.lose_material e = cc
unknown_EffectMove EffectMove.succeed e = cc
unknown_EffectMove EffectMove.fail e = cc
unknown_EffectMove EffectMove.lose_track e = cc
unknown_EffectMove EffectMove.reconcile e = inl refl
unknown_EffectMove EffectMove.hand_over_unknown e = inr refl
unknown_EffectMove EffectMove.hand_over e = cc
unknown_EffectMove EffectMove.prove_applied e = cc
unknown_EffectMove EffectMove.prove_not_applied e = cc
unknown_EffectMove EffectMove.prove_failed e = cc
unknown_EffectMove EffectMove.pass e = cc
unknown_EffectMove EffectMove.refuse e = cc
unknown_EffectMove EffectMove.stay_unsure e = cc

unknown_Move :
    {before after : StepStatus}
    → Move before after
    → before ≡ StepStatus.effect_unknown
    → (after ≡ StepStatus.reconciling) ⊎ (after ≡ StepStatus.manual_required)
unknown_Move Move.commit e = cc
unknown_Move (Move.effect m) e = unknown_EffectMove m e

-- Where a Step with an unknown outcome may go.
pub Evolves-unknown :
    (step : StepState) (after : Option StepState)
    → step.status ≡ StepStatus.effect_unknown
    → Evolves (some step) after
    → (step' : StepState) × (after ≡ some step')
      × ((step' ≡ step)
          ⊎ ((step'.status ≡ StepStatus.reconciling) ⊎ (step'.status ≡ StepStatus.manual_required)))
Evolves-unknown step none u e = absurd e
Evolves-unknown step (some after) u (same, inl e) = (after, refl, inl e)
Evolves-unknown step (some after) u (same, inr m) = (after, refl, inr (unknown_Move m u))

released_status :
    (step : StepState)
    → receipt_releases_dependency step ≡ true
    → step.status ≡ StepStatus.completed
unfolding receipt_releases_dependency
released_status step h = ground (arith, status_eq-eq step.status StepStatus.completed)

-- A released dependency stays released.
pub IsReleased-StepsEvolve :
    (before after : StringMap StepState) (ids : List String)
    → StepsEvolve before after
    → All (IsReleased before) ids
    → All (IsReleased after) ids
IsReleased-StepsEvolve before after [] evolve all = tt
IsReleased-StepsEvolve before after (d ∷ ds) evolve ((step, found, released), rest) =
    let final : IsFinal step.status =
      subst IsFinal (sym (released_status step released)) IsFinal.completed in
    (
      (
        step,
        Evolves-final step (lookup d after) final
            (subst (λ o. Evolves o (lookup d after)) found (evolve d)),
        released,
      ),
      IsReleased-StepsEvolve before after ds evolve rest,
    )

-- What a lookup finds after a write: the written Step, or what was there.
pub lookup-written :
    (step_id k : String) (written before step : StepState) (steps : StringMap StepState)
    → lookup step_id steps ≡ some before
    → lookup k (replace step_id written steps) ≡ some step
    → (step ≡ written) ⊎ (lookup k steps ≡ some step)
lookup-written step_id k written before step steps found at =
    ground (arith, lookup-replace step_id k written steps)

module _ (before : StringMap StepState) (step_id : String) (old written : StepState)
    (found : lookup step_id before ≡ some old)
    (evolve : StepsEvolve before (replace step_id written before)) where
  -- The order holds after a write that leaves the dependencies, and all of them released.
  OrderHolds-write :
      OrderHolds before
      → written.depends_on ≡ old.depends_on
      → All (IsReleased before) old.depends_on
      → OrderHolds (replace step_id written before)
  OrderHolds-write holds same released k step at =
      elim (lookup-written step_id k written old step before found at) [
        | inl e ↦ inr (
            subst (All (IsReleased (replace step_id written before)))
              (sym (ap (λ s. s.depends_on) e ∙ same))
              (IsReleased-StepsEvolve before _ old.depends_on evolve released))
        | inr was ↦ elim (holds k step was) [
          | inl p ↦ inl p
          | inr r ↦ inr (IsReleased-StepsEvolve before _ step.depends_on evolve r)
        ]
      ]

grown_step :
    (before : Option StepState) (step : StepState)
    → Grows before (some step)
    → (step.status ≡ StepStatus.planned) ⊎ (before ≡ some step)
grown_step none step g = inl g.0
grown_step (some b) step g = inr (ap some (sym g))

module _ (prims : Primitives) where
  -- Every outcome of an event keeps the order.
  pub Outcome-OrderHolds :
      (state state' : RunState)
      → OrderHolds state.steps
      → Outcome prims state state'
      → OrderHolds state'.steps
  Outcome-OrderHolds state state' holds (Outcome.grows grow valid grants) = λ k step at.
      elim (grown_step (lookup k state.steps) step
        (subst (Grows (lookup k state.steps)) at (grow k))) [
          | inl p ↦ inl p
          | inr was ↦ elim (holds k step was) [
            | inl p ↦ inl p
            | inr r ↦ inr (
                IsReleased-StepsEvolve state.steps state'.steps step.depends_on
                  (Outcome-StepsEvolve prims state state' (Outcome.grows grow valid grants)) r)
          ]
        ]
  Outcome-OrderHolds state state' holds (Outcome.commits step_id intent c) =
      let same = (consume_and_commit-steps state step_id c.before intent state' c.consumed).0 in
      let evolve = Outcome-StepsEvolve prims state state' (Outcome.commits step_id intent c) in
      subst OrderHolds (sym same) (
        OrderHolds-write state.steps step_id c.before (committed_step c.before intent) c.found
          (subst (StepsEvolve state.steps) same evolve) holds refl c.released)
  Outcome-OrderHolds state state' holds (Outcome.changes c) =
      let evolve = Outcome-StepsEvolve prims state state' (Outcome.changes c) in
      let same = ap (λ s. s.steps) c.result in
      subst OrderHolds (sym same) (
        OrderHolds-write state.steps c.step_id c.before c.after c.found
          (subst (StepsEvolve state.steps) same evolve) holds c.same_dependencies
          (elim (holds c.step_id c.before c.found) [
            | inl p ↦ absurd (planned-EffectMove c.move p)
            | inr r ↦ r
          ]))
