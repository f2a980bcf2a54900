-- ===== src/WorkGraph/Reducer/Uniqueness.antt =====
-- Each effect belongs to one Step: the `DuplicateEffect` check of `commit_effect_intent` in
-- crates/xgeny-workgraph/src/lib.rs, kept by every other event.
use xgeny_cli.Prelude.{
  ◌≡◌, ◌≢◌, sym, ap, ◌∙◌, subst, ◌⊎◌, inl, inr, String, Option, none, some, [], ◌∷◌, true, false,
  any, values, StringMap, lookup, replace, eq_iff, lookup-replace, Bool-cases, Option-cases,
  or_false, some_injective, str_eq, arith,
}
use xgeny_cli.WorkGraph.State.{RunState, StepState}
use xgeny_cli.WorkGraph.Digest.{Primitives}
use xgeny_cli.WorkGraph.Steps.{effect_of, is_effect}
use xgeny_cli.WorkGraph.Steps.Lifecycle.{Grows, StepsGrow}
use xgeny_cli.WorkGraph.Intent.Commit.{consume_and_commit-steps}
use xgeny_cli.WorkGraph.Reducer.Moves.{Outcome}

-- The Step at a key has the effect.
abbrev pub Owns : StringMap StepState → String → String → Type 0
Owns steps k effect_id =
    (step : StepState) × (lookup k steps ≡ some step) × (effect_of step.intent ≡ some effect_id)

-- No two Steps have the same effect.
abbrev pub EffectsAreUnique : StringMap StepState → Type 0
EffectsAreUnique steps =
    (j k effect_id : String) → Owns steps j effect_id → Owns steps k effect_id → j ≡ k

no_owner_head :
    (step : StepState) (effect_id : String)
    → is_effect (effect_of step.intent) effect_id ≡ false
    → effect_of step.intent ≢ some effect_id
no_owner_head step effect_id h owns = ground (arith, eq_iff effect_id effect_id)

-- Where the check finds no Step with the effect, there is none.
none-Owns :
    (steps : StringMap StepState) (k effect_id : String)
    → any (λ step. is_effect (effect_of step.intent) effect_id) (values steps) ≡ false
    → Owns steps k effect_id
    → ⊥
unfolding lookup
none-Owns [] k effect_id h (step, found, owns) = cc
none-Owns ((j, s) ∷ steps) k effect_id h (step, found, owns) =
    let (first, rest) = or_false (is_effect (effect_of s.intent) effect_id) _ h in
    elim (Bool-cases (str_eq j k)) [
      | inl e ↦ no_owner_head s effect_id first (ap (λ x. effect_of x.intent) (head_step e) ∙ owns)
      | inr e ↦ none-Owns steps k effect_id rest (step, tail_step e, owns)
    ]
  where
    head_step : str_eq j k ≡ true → s ≡ step
    head_step e = cc

    tail_step : str_eq j k ≡ false → lookup k steps ≡ some step
    tail_step e = cc

grown_owner :
    (before after : StringMap StepState) (k effect_id : String)
    → StepsGrow before after
    → Owns after k effect_id
    → Owns before k effect_id
grown_owner before after k effect_id grow (step, found, owns) =
    elim (Option-cases (lookup k before)) [
      | inl e ↦ absurd (fresh (subst (λ o. Grows o (some step)) e (grown found)))
      | inr (b, e) ↦ (
        b,
        e,
        ap (λ x. effect_of x.intent) (sym (subst (λ o. Grows o (some step)) e (grown found)))
            ∙ owns,
      )
    ]
  where
    grown : lookup k after ≡ some step → Grows (lookup k before) (some step)
    grown at = subst (Grows (lookup k before)) at (grow k)

    fresh : Grows none (some step) → ⊥
    fresh (_, _, no_intent) = cc

written_owner :
    (steps : StringMap StepState) (step_id k effect_id : String) (before written : StepState)
    → lookup step_id steps ≡ some before
    → Owns (replace step_id written steps) k effect_id
    → ((k ≡ step_id) × (effect_of written.intent ≡ some effect_id)) ⊎ Owns steps k effect_id
written_owner steps step_id k effect_id before written found (step, at, owns) =
    elim (Bool-cases (str_eq step_id k)) [
      | inl e ↦
          inl (sym ((eq_iff step_id k).0 e), ground (arith, lookup-replace step_id k written steps))
      | inr e ↦ inr (step, ground (arith, lookup-replace step_id k written steps), owns)
    ]

module _ (prims : Primitives) where
  -- Whatever event is applied, no two Steps have the same effect.
  pub Outcome-EffectsAreUnique :
      (state state' : RunState)
      → EffectsAreUnique state.steps
      → Outcome prims state state'
      → EffectsAreUnique state'.steps
  Outcome-EffectsAreUnique state state' unique (Outcome.grows grow _ _) = λ j k effect_id a b.
      unique j k effect_id (grown_owner state.steps state'.steps j effect_id grow a)
        (grown_owner state.steps state'.steps k effect_id grow b)
  Outcome-EffectsAreUnique state state' unique (Outcome.commits step_id intent c) =
      subst EffectsAreUnique
        (sym (consume_and_commit-steps state step_id c.before intent state' c.consumed).0)
        λ j k effect_id a b.
          elim (written_owner state.steps step_id j effect_id c.before _ c.found a) [
            | inl (ej, oj) ↦
                elim (written_owner state.steps step_id k effect_id c.before _ c.found b) [
                  | inl (ek, _) ↦ ej ∙ sym ek
                  | inr was ↦ absurd (
                      none-Owns state.steps k intent.effect_id c.unused_effect
                        (same_owner state.steps k effect_id intent.effect_id oj was))
                ]
            | inr was_j ↦
                elim (written_owner state.steps step_id k effect_id c.before _ c.found b) [
                  | inl (_, ok) ↦ absurd (
                      none-Owns state.steps j intent.effect_id c.unused_effect
                        (same_owner state.steps j effect_id intent.effect_id ok was_j))
                  | inr was_k ↦ unique j k effect_id was_j was_k
                ]
          ]
    where
      same_owner :
          (steps : StringMap StepState) (k a b : String)
          → ◌≡◌ {A = Option String} (some b) (some a)
          → Owns steps k a
          → Owns steps k b
      same_owner steps k a b e o = subst (Owns steps k) (sym (some_injective e)) o
  Outcome-EffectsAreUnique state state' unique (Outcome.changes c) =
      subst EffectsAreUnique (sym (ap (λ s. s.steps) c.result))
        λ j k effect_id a b. unique j k effect_id (was j effect_id a) (was k effect_id b)
    where
      was :
          (k effect_id : String)
          → Owns (replace c.step_id c.after state.steps) k effect_id
          → Owns state.steps k effect_id
      was k effect_id o =
          elim (written_owner state.steps c.step_id k effect_id c.before c.after c.found o) [
            | inl (e, owns) ↦
                subst (λ i. Owns state.steps i effect_id) (sym e)
                  (c.before, c.found, ap effect_of (sym c.same_intent) ∙ owns)
            | inr w ↦ w
          ]
