-- ===== src/WorkGraph/Effects/Change.antt =====
-- What an event of the effect lifecycle changes: exactly one Step, along one edge of the status
-- diagram, by crates/xgeny-workgraph/src/lib.rs, `apply_effect_lifecycle`.
use xgeny_cli.Prelude.{
  ◌+◌, ◌<◌, ◌≡◌, refl, ◌⊎◌, inl, inr, subst, sym, String, Option, none, some, true, not, ok, ◌>>=◌,
  ◌>>◌, >>=-eq-ok, ok_injective, reject_if-eq-ok, ◌&&◌, reject_if, ok_or, lookup, arith,
  checked_add_u32, checked_add_u32-eq-some, ok_or-eq-ok, ◌||◌, u32_mod,
}
use xgeny_cli.WorkGraph.Status.{
  StepStatus, status_eq, ReconciliationResolution, VerificationDisposition,
  InvocationMaterialUnavailableReason,
}
use xgeny_cli.WorkGraph.Errors.{TransitionError}
use xgeny_cli.WorkGraph.Event.{RunEventBody}
use xgeny_cli.WorkGraph.State.{RunState, StepState}
use xgeny_cli.WorkGraph.Steps.{Transition, put_step, find_step, matching_step, require_status}
use xgeny_cli.WorkGraph.Steps.Lifecycle.{
  EffectMove, start, lose_material, succeed, fail, lose_track, reconcile, hand_over_unknown,
  hand_over, prove_applied, prove_not_applied, prove_failed, pass, refuse, stay_unsure,
}
use xgeny_cli.WorkGraph.Effects.{
  record_legacy_verification, check_tool_calls, record_execution_started, record_effect_unknown,
  record_reconciliation_started, record_reconciliation, record_manual_required, check_output_record,
  record_effect_observation, record_verification, mark_material_unavailable, is_proved_applied,
  is_output_profile, output_profile, apply_effect_lifecycle, resolved_status, verified_status,
}

-- A Step's counter of effect starts stays, or goes up by one after the budget check.
abbrev pub Attempts : RunState → StepState → StepState → Type 0
Attempts state before after =
    (after.attempts ≡ before.attempts)
    ⊎ ((after.attempts ≡ before.attempts + 1)
        × (before.attempts + 1 < u32_mod)
        × (check_tool_calls state ≡ ok tt)
        × (after.status ≡ StepStatus.executing))

-- One Step has moved, and everything else of the projection is as it was.
pub record Change (state state' : RunState) : Type 0 where
  pub step_id : String
  pub before : StepState
  pub after : StepState
  pub found : lookup step_id state.steps ≡ some before
  pub result : state' ≡ put_step state step_id after
  pub move : EffectMove before.status after.status
  pub same_id : after.step_id ≡ before.step_id
  pub same_dependencies : after.depends_on ≡ before.depends_on
  pub same_plan : after.planned_invocation ≡ before.planned_invocation
  pub same_intent : after.intent ≡ before.intent
  pub attempts : Attempts state before after

pub status_eq-eq : (a b : StepStatus) → status_eq a b ≡ true → a ≡ b
status_eq-eq a b h = ground arith

pub find_step-found :
    (state : RunState) (step_id : String) (step : StepState)
    → find_step state step_id ≡ ok step
    → lookup step_id state.steps ≡ some step
unfolding find_step
find_step-found state step_id step h = ground arith

pub matching_step-found :
    (state : RunState) (step_id effect_id : String) (step : StepState)
    → matching_step state step_id effect_id ≡ ok step
    → lookup step_id state.steps ≡ some step
unfolding matching_step
matching_step-found state step_id effect_id step h = ground arith

pub require_status-eq :
    (step : StepState) (required : StepStatus) (body : RunEventBody)
    → require_status step required body ≡ ok tt
    → step.status ≡ required
unfolding require_status
require_status-eq step required body h = ground (arith, status_eq-eq step.status required)

-- The shape that the operations share: a Step of the effect, in the required status, then the rest.
matched :
    {P : Type 0} (state : RunState) (step_id effect_id : String) (required : StepStatus)
    (body : RunEventBody) (rest : StepState → Transition RunState) (state' : RunState)
    → ((step : StepState)
        → lookup step_id state.steps ≡ some step
        → step.status ≡ required
        → rest step ≡ ok state'
        → P)
    → (matching_step state step_id effect_id >>= λ step.
        require_status step required body >> rest step)
      ≡ ok state'
    → P
matched state step_id effect_id required body rest state' finish h =
    let (step, first, later) =
      >>=-eq-ok (matching_step state step_id effect_id)
        (λ step. require_status step required body >> rest step) h in
    let (_, second, last) = >>=-eq-ok (require_status step required body) (λ _. rest step) later in
    finish step (matching_step-found state step_id effect_id step first)
      (require_status-eq step required body second) last

module _ (state : RunState) (step_id : String) (before after : StepState) (state' : RunState)
    (found : lookup step_id state.steps ≡ some before)
    (result : ◌≡◌ {A = Transition RunState} (ok (put_step state step_id after)) (ok state')) where
  -- A change that starts no effect, of a Step whose other facts stay.
  changed :
      EffectMove before.status after.status
      → after.step_id ≡ before.step_id
      → after.depends_on ≡ before.depends_on
      → after.planned_invocation ≡ before.planned_invocation
      → after.intent ≡ before.intent
      → Attempts state before after
      → Change state state'
  changed move same_id same_dependencies same_plan same_intent attempts = record {
    step_id = step_id;
    before = before;
    after = after;
    found = found;
    result = sym (ok_injective result);
    move = move;
    same_id = same_id;
    same_dependencies = same_dependencies;
    same_plan = same_plan;
    same_intent = same_intent;
    attempts = attempts;
  }

move_from : (a b c : StepStatus) → a ≡ b → EffectMove b c → EffectMove a c
move_from a b c e m = subst (λ x. EffectMove x c) (sym e) m

module _ (state : RunState) (step_id effect_id : String) (body : RunEventBody)
    (state' : RunState) where
  record_effect_unknown-Change :
      (reason : String)
      → record_effect_unknown state step_id effect_id reason body ≡ ok state'
      → Change state state'
  unfolding record_effect_unknown
  record_effect_unknown-Change reason =
      matched state step_id effect_id StepStatus.executing body _ state' λ step found at h.
        changed state step_id step _ state' found h (move_from _ _ _ at lose_track) refl refl refl
          refl (inl refl)

  record_reconciliation_started-Change :
      record_reconciliation_started state step_id effect_id body ≡ ok state' → Change state state'
  unfolding record_reconciliation_started
  record_reconciliation_started-Change =
      matched state step_id effect_id StepStatus.effect_unknown body _ state' λ step found at h.
        changed state step_id step _ state' found h (move_from _ _ _ at reconcile) refl refl refl
          refl (inl refl)

  mark_material_unavailable-Change :
      (reason : InvocationMaterialUnavailableReason)
      → mark_material_unavailable state step_id effect_id reason body ≡ ok state'
      → Change state state'
  unfolding mark_material_unavailable
  mark_material_unavailable-Change reason =
      matched state step_id effect_id StepStatus.intent_committed body _ state' λ step found at h.
        changed state step_id step _ state' found h (move_from _ _ _ at lose_material) refl refl
          refl refl (inl refl)

  resolved-Move :
      (resolution : ReconciliationResolution)
      → EffectMove StepStatus.reconciling (resolved_status resolution)
  resolved-Move ReconciliationResolution.proved_applied = prove_applied
  resolved-Move ReconciliationResolution.proved_not_applied = prove_not_applied
  resolved-Move ReconciliationResolution.failed = prove_failed

  record_reconciliation-Change :
      (resolution : ReconciliationResolution) (evidence_digest : String)
      → record_reconciliation state step_id effect_id resolution evidence_digest body ≡ ok state'
      → Change state state'
  unfolding record_reconciliation
  record_reconciliation-Change resolution evidence_digest =
      matched state step_id effect_id StepStatus.reconciling body _ state' λ step found at h.
        changed state step_id step _ state' found
          (reject_if-eq-ok
            (is_proved_applied resolution && is_output_profile (output_profile step.intent))
            (TransitionError.tool_output_record_required effect_id) _ h).1
          (move_from _ _ _ at (resolved-Move resolution)) refl refl refl refl (inl refl)

  verified-Move :
      (disposition : VerificationDisposition)
      → EffectMove StepStatus.validating (verified_status disposition)
  verified-Move VerificationDisposition.passed = pass
  verified-Move VerificationDisposition.failed = refuse
  verified-Move VerificationDisposition.inconclusive = stay_unsure

  record_verification-Change :
      (disposition : VerificationDisposition) (receipt_id receipt_digest : String)
      → record_verification state step_id effect_id disposition receipt_id receipt_digest body
        ≡ ok state'
      → Change state state'
  unfolding record_verification
  record_verification-Change disposition receipt_id receipt_digest =
      matched state step_id effect_id StepStatus.validating body _ state' λ step found at h.
        changed state step_id step _ state' found h (move_from _ _ _ at (verified-Move disposition))
          refl refl refl refl (inl refl)

  record_effect_observation-Change :
      (evidence_digest : String) (output : Option String) (next_status : StepStatus)
      → EffectMove StepStatus.executing next_status
      → record_effect_observation state step_id effect_id evidence_digest output next_status body
        ≡ ok state'
      → Change state state'
  unfolding record_effect_observation
  record_effect_observation-Change evidence_digest output next_status move =
      matched state step_id effect_id StepStatus.executing body _ state' λ step found at h.
        changed state step_id step _ state' found
          (>>=-eq-ok (check_output_record step effect_id output next_status) _ h).2
          (move_from _ _ _ at move) refl refl refl refl (inl refl)

  started-Change :
      (step : StepState)
      → check_tool_calls state ≡ ok tt
      → lookup step_id state.steps ≡ some step
      → step.status ≡ StepStatus.intent_committed
      → (ok_or (checked_add_u32 step.attempts 1) (TransitionError.attempt_overflow step_id)
          >>= λ attempts. ok (
              put_step state step_id
                (record step { status = StepStatus.executing; attempts = attempts })))
        ≡ ok state'
      → Change state state'
  started-Change step budget found at h =
      let (attempts, added, last) =
        >>=-eq-ok
          (ok_or (checked_add_u32 step.attempts 1) (TransitionError.attempt_overflow step_id)) _
          h in
      let (sum, bound) = checked_add_u32-eq-some step.attempts 1 (ok_or-eq-ok _ _ added) in
      changed state step_id step _ state' found last (move_from _ _ _ at start) refl refl refl refl
        (inr (sum, bound, budget, refl))

  record_execution_started-Change :
      record_execution_started state step_id effect_id body ≡ ok state' → Change state state'
  unfolding record_execution_started
  record_execution_started-Change h =
      let (_, budget, rest) = >>=-eq-ok (check_tool_calls state) _ h in
      matched state step_id effect_id StepStatus.intent_committed body _ state'
        (λ step. started-Change step budget) rest

  record_manual_required-Change :
      (reason : String)
      → record_manual_required state step_id effect_id reason body ≡ ok state'
      → Change state state'
  unfolding record_manual_required
  record_manual_required-Change reason h =
      let (step, first, rest) = >>=-eq-ok (matching_step state step_id effect_id) _ h in
      let (_, test, last) = >>=-eq-ok (reject_if _ _) _ rest in
      changed state step_id step _ state' (matching_step-found state step_id effect_id step first)
        last (handed_over step.status _ test) refl refl refl refl (inl refl)
    where
      handed_over :
          (status : StepStatus) (e : TransitionError)
          → reject_if
              (not (
                status_eq status StepStatus.effect_unknown
                || status_eq status StepStatus.reconciling))
              e
            ≡ ok tt
          → EffectMove status StepStatus.manual_required
      handed_over StepStatus.effect_unknown e t = hand_over_unknown
      handed_over StepStatus.reconciling e t = hand_over
      handed_over _ e t = cc

module _ (state : RunState) (step_id : String) (body : RunEventBody) (state' : RunState) where
  record_legacy_verification-Change :
      (next_status : StepStatus)
      → EffectMove StepStatus.validating next_status
      → record_legacy_verification state step_id next_status body ≡ ok state'
      → Change state state'
  unfolding record_legacy_verification
  record_legacy_verification-Change next_status move h =
      let (step, first, rest) = >>=-eq-ok (find_step state step_id) _ h in
      let (_, second, last) = >>=-eq-ok (require_status step StepStatus.validating body) _ rest in
      changed state step_id step _ state' (find_step-found state step_id step first) last
        (move_from _ _ _ (require_status-eq step StepStatus.validating body second) move) refl refl
        refl refl (inl refl)

-- Every event of the effect lifecycle that is applied moves one Step, which is there, along one
-- edge of the status diagram; the Step's identity, dependencies, plan and intent stay, and its
-- counter of effect starts goes up by one at most, after the budget check.
pub apply_effect_lifecycle-Change :
    (state : RunState) (body : RunEventBody) (state' : RunState)
    → apply_effect_lifecycle state body ≡ ok state'
    → Change state state'
unfolding apply_effect_lifecycle
apply_effect_lifecycle-Change state (RunEventBody.invocation_material_unavailable s e r) state' h =
    mark_material_unavailable-Change state s e _ state' r h
apply_effect_lifecycle-Change state (RunEventBody.effect_execution_started s e) state' h =
    record_execution_started-Change state s e _ state' h
apply_effect_lifecycle-Change state (RunEventBody.effect_succeeded s e d o) state' h =
    record_effect_observation-Change state s e _ state' d o StepStatus.validating succeed h
apply_effect_lifecycle-Change state (RunEventBody.effect_failed s e d) state' h =
    record_effect_observation-Change state s e _ state' d none StepStatus.failed fail h
apply_effect_lifecycle-Change state (RunEventBody.effect_became_unknown s e r) state' h =
    record_effect_unknown-Change state s e _ state' r h
apply_effect_lifecycle-Change state (RunEventBody.reconciliation_started s e) state' h =
    record_reconciliation_started-Change state s e _ state' h
apply_effect_lifecycle-Change state (RunEventBody.reconciliation_resolved s e r d) state' h =
    record_reconciliation-Change state s e _ state' r d h
apply_effect_lifecycle-Change state (RunEventBody.manual_intervention_required s e r) state' h =
    record_manual_required-Change state s e _ state' r h
apply_effect_lifecycle-Change state (RunEventBody.verification_passed s) state' h =
    record_legacy_verification-Change state s _ state' StepStatus.completed pass h
apply_effect_lifecycle-Change state (RunEventBody.verification_failed s r) state' h =
    record_legacy_verification-Change state s _ state' StepStatus.failed refuse h
apply_effect_lifecycle-Change state (RunEventBody.verification_recorded s e v i d) state' h =
    record_verification-Change state s e _ state' v i d h
apply_effect_lifecycle-Change state _ state' h = cc
