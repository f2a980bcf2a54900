-- ===== src/WorkGraph/Steps.antt =====
-- Access to one Step, its status test, and when it releases what depends on it: `step_mut`,
-- `matching_step_mut`, `require_status`, `receipt_releases_dependency` and the block reasons of
-- crates/xgeny-workgraph/src/lib.rs. A write through `&mut StepState` is `put_step`.
pub mod Lifecycle
use xgeny_cli.Prelude.{
  ℕ, String, Option, none, some, Bool, false, ◌&&◌, not, Result, ok, err, ◌>>=◌, ◌>>◌, reject_if,
  ok_or, str_eq, text_is_empty, lookup, replace, if◌then◌else◌,
}
use xgeny_cli.WorkGraph.Status.{StepStatus, status_eq, DependencyBlockReason}
use xgeny_cli.WorkGraph.Errors.{TransitionError}
use xgeny_cli.WorkGraph.Event.{RunEventBody, EffectIntent, kind}
use xgeny_cli.WorkGraph.State.{RunState, StepState}
use xgeny_cli.WorkGraph.Digest.{is_sha256_digest}

abbrev pub Transition : Type 0 → Type 0
Transition = Result TransitionError

abbrev pub put_step : RunState → String → StepState → RunState
put_step state step_id step = record state { steps = replace step_id step state.steps }

-- `step_mut`
unfoldable pub find_step : RunState → String → Transition StepState
find_step state step_id = ok_or (lookup step_id state.steps) (TransitionError.unknown_step step_id)

-- `step.intent.as_ref().map(|intent| intent.effect_id.as_str())`
abbrev pub effect_of : Option EffectIntent → Option String
effect_of none = none
effect_of (some intent) = some intent.effect_id

abbrev pub is_effect : Option String → String → Bool
is_effect none effect_id = false
is_effect (some actual) effect_id = str_eq actual effect_id

-- `matching_step_mut`
unfoldable pub matching_step : RunState → String → String → Transition StepState
unfolding find_step
matching_step state step_id effect_id = do
  step ← find_step state step_id
  let actual = effect_of step.intent
  reject_if (not (is_effect actual effect_id))
      (TransitionError.effect_mismatch step_id actual effect_id)
  ok step

-- `invalid_transition`
abbrev pub invalid_transition : StepState → RunEventBody → TransitionError
invalid_transition step body =
    TransitionError.invalid_step_transition step.step_id step.status (kind body)

unfoldable pub require_status : StepState → StepStatus → RunEventBody → Transition (Unit {0})
require_status step required body =
    reject_if (not (status_eq step.status required)) (invalid_transition step body)

abbrev is_some_and : Option String → (String → Bool) → Bool
is_some_and none p = false
is_some_and (some s) p = p s

unfoldable pub receipt_releases_dependency : StepState → Bool
receipt_releases_dependency step =
    status_eq step.status StepStatus.completed
    && (is_some_and step.execution_receipt_id (λ receipt_id. not (text_is_empty receipt_id))
        && is_some_and step.execution_receipt_digest is_sha256_digest)

abbrev status_block_reason : StepStatus → DependencyBlockReason
status_block_reason StepStatus.failed = DependencyBlockReason.failed
status_block_reason StepStatus.manual_required = DependencyBlockReason.manual_required
status_block_reason StepStatus.completed = DependencyBlockReason.receipt_missing
status_block_reason _ = DependencyBlockReason.not_completed

unfoldable pub dependency_release_block_reason : StepState → Option DependencyBlockReason
dependency_release_block_reason step =
    if receipt_releases_dependency step then none else some (status_block_reason step.status)

abbrev unreleased_reason : StepStatus → Bool → DependencyBlockReason
unreleased_reason StepStatus.failed released = DependencyBlockReason.failed
unreleased_reason StepStatus.manual_required released = DependencyBlockReason.manual_required
unreleased_reason StepStatus.completed released =
    if released
    then DependencyBlockReason.dependency_blocked
    else DependencyBlockReason.receipt_missing
unreleased_reason _ released = DependencyBlockReason.dependency_blocked

-- `blocker_reason`
unfoldable pub blocker_reason : StepState → DependencyBlockReason
blocker_reason step = unreleased_reason step.status (receipt_releases_dependency step)
