-- ===== src/WorkGraph/Steps/Lifecycle.antt =====
-- How the Steps of a Run may change: the status diagram, and the relation between the Steps before
-- and after an event.
use xgeny_cli.Prelude.{
  ◌≡◌, refl, ap, ◌⊎◌, inl, inr, String, Option, none, some, StringMap, lookup, insert, replace,
  lookup-insert, lookup-replace, eq_iff, str_eq, subst, Bool-cases,
}
use xgeny_cli.WorkGraph.Status.{StepStatus}
use xgeny_cli.WorkGraph.State.{StepState}

-- The edges of the status diagram that an effect under way takes.
pub data EffectMove : StepStatus → StepStatus → Type 0 where
  start : EffectMove StepStatus.intent_committed StepStatus.executing
  lose_material : EffectMove StepStatus.intent_committed StepStatus.manual_required
  succeed : EffectMove StepStatus.executing StepStatus.validating
  fail : EffectMove StepStatus.executing StepStatus.failed
  lose_track : EffectMove StepStatus.executing StepStatus.effect_unknown
  reconcile : EffectMove StepStatus.effect_unknown StepStatus.reconciling
  hand_over_unknown : EffectMove StepStatus.effect_unknown StepStatus.manual_required
  hand_over : EffectMove StepStatus.reconciling StepStatus.manual_required
  prove_applied : EffectMove StepStatus.reconciling StepStatus.validating
  prove_not_applied : EffectMove StepStatus.reconciling StepStatus.intent_committed
  prove_failed : EffectMove StepStatus.reconciling StepStatus.failed
  pass : EffectMove StepStatus.validating StepStatus.completed
  refuse : EffectMove StepStatus.validating StepStatus.failed
  stay_unsure : EffectMove StepStatus.validating StepStatus.manual_required

-- The edges of the whole diagram: the commit of an intent, and those of an effect under way.
pub data Move : StepStatus → StepStatus → Type 0 where
  commit : Move StepStatus.planned StepStatus.intent_committed
  effect : {before after : StepStatus} → EffectMove before after → Move before after

-- The facts that planning fixes for a Step.
abbrev pub SamePlan : StepState → StepState → Type 0
SamePlan before after =
    (after.step_id ≡ before.step_id)
    × (after.depends_on ≡ before.depends_on)
    × (after.planned_invocation ≡ before.planned_invocation)

-- One entry of the map before and after an event: a Step never disappears, a new one is planned
-- and unstarted, and one that was there stays or moves along an edge, its plan the same.
abbrev pub Evolves : Option StepState → Option StepState → Type 0
Evolves none none = Unit
Evolves none (some after) =
    (after.status ≡ StepStatus.planned) × (after.attempts ≡ 0) × (after.intent ≡ none)
Evolves (some before) none = ⊥
Evolves (some before) (some after) =
    SamePlan before after × ((after ≡ before) ⊎ Move before.status after.status)

abbrev pub StepsEvolve : StringMap StepState → StringMap StepState → Type 0
StepsEvolve before after = (k : String) → Evolves (lookup k before) (lookup k after)

Evolves-refl : (entry : Option StepState) → Evolves entry entry
Evolves-refl none = tt
Evolves-refl (some step) = ((refl, refl, refl), inl refl)

pub StepsEvolve-refl : (steps : StringMap StepState) → StepsEvolve steps steps
StepsEvolve-refl steps k = Evolves-refl (lookup k steps)

-- A write to a Step that is there, along an edge.
pub StepsEvolve-replace :
    (step_id : String) (before after : StepState) (steps : StringMap StepState)
    → lookup step_id steps ≡ some before
    → SamePlan before after
    → Move before.status after.status
    → StepsEvolve steps (replace step_id after steps)
StepsEvolve-replace step_id before after steps found same move k =
    rw lookup-replace (elim (Bool-cases (str_eq step_id k)) [
      | inl e ↦
          let found' : lookup k steps ≡ some before =
            subst (λ j. lookup j steps ≡ some before) ((eq_iff step_id k).0 e) found in
          rw (e, found') (same, inr move)
      | inr e ↦ rw e (Evolves-refl (lookup k steps))
    ])

-- One entry of the map where Steps are only added: the new ones are planned and unstarted.
abbrev pub Grows : Option StepState → Option StepState → Type 0
Grows none none = Unit
Grows none (some after) =
    (after.status ≡ StepStatus.planned) × (after.attempts ≡ 0) × (after.intent ≡ none)
Grows (some before) none = ⊥
Grows (some before) (some after) = after ≡ before

abbrev pub StepsGrow : StringMap StepState → StringMap StepState → Type 0
StepsGrow before after = (k : String) → Grows (lookup k before) (lookup k after)

Grows-refl : (entry : Option StepState) → Grows entry entry
Grows-refl none = tt
Grows-refl (some step) = refl

pub StepsGrow-refl : (steps : StringMap StepState) → StepsGrow steps steps
StepsGrow-refl steps k = Grows-refl (lookup k steps)

-- A new Step beside those that have been added.
pub StepsGrow-insert :
    (step_id : String) (step : StepState) (before after : StringMap StepState)
    → lookup step_id before ≡ none
    → (step.status ≡ StepStatus.planned) × (step.attempts ≡ 0) × (step.intent ≡ none)
    → StepsGrow before after
    → StepsGrow before (insert step_id step after)
StepsGrow-insert step_id step before after missing fresh grow k =
    rw lookup-insert (elim (Bool-cases (str_eq step_id k)) [
      | inl e ↦
          let missing' : lookup k before ≡ none =
            subst (λ j. lookup j before ≡ none) ((eq_iff step_id k).0 e) missing in
          rw (e, missing') fresh
      | inr e ↦ rw e (grow k)
    ])

Grows-Evolves : (before after : Option StepState) → Grows before after → Evolves before after
Grows-Evolves none none g = tt
Grows-Evolves none (some after) g = g
Grows-Evolves (some before) none g = absurd g
Grows-Evolves (some before) (some after) g =
    ((ap (λ s. s.step_id) g, ap (λ s. s.depends_on) g, ap (λ s. s.planned_invocation) g), inl g)

pub StepsGrow-StepsEvolve :
    (before after : StringMap StepState) → StepsGrow before after → StepsEvolve before after
StepsGrow-StepsEvolve before after grow k =
    Grows-Evolves (lookup k before) (lookup k after) (grow k)
