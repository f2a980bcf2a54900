-- ===== src/WorkGraph/Intent/Commit.antt =====
-- What the commit of an effect's intent changes and requires: `commit_effect_intent` of
-- crates/xgeny-workgraph/src/lib.rs.
use xgeny_cli.Prelude.{
  ◌+◌, ◌≤◌, ◌≡◌, sym, ap, ◌∙◌, String, some, false, ok, >>=-eq-ok, reject_if-eq-ok, ok_injective,
  arith, All, any, values, StringMap, lookup, lookup-insert, str_eq, not, u32_mod, ◌%◌, ◌||◌, ◌!=◌,
  leb, set_insert, if◌then◌else◌,
}
use xgeny_cli.WorkGraph.Status.{StepStatus}
use xgeny_cli.WorkGraph.Event.{EffectIntent, RunEventBody}
use xgeny_cli.WorkGraph.State.{RunState, StepState, AuthorizationConsumption}
use xgeny_cli.WorkGraph.Digest.{Primitives}
use xgeny_cli.WorkGraph.Steps.{put_step, find_step, require_status, effect_of, is_effect}
use xgeny_cli.WorkGraph.Effects.Change.{find_step-found, require_status-eq}
use xgeny_cli.WorkGraph.Intent.{
  validate_tool_output_profile, check_provenance, check_intent_shape, check_dependencies_released,
  validate_planned_invocation_binding, validate_authorization_binding, consume_and_commit,
  commit_effect_intent, consumption_of,
}
use xgeny_cli.WorkGraph.Intent.Release.{IsReleased, check_dependencies_released-All}

-- One planned Step, its dependencies released, has got an intent that is authorized for exactly
-- this Run, Step and head, and one use of the intent's grant is spent.
pub record Commits (prims : Primitives) (state : RunState) (step_id : String)
    (intent : EffectIntent) (state' : RunState) : Type 0 where
  pub before : StepState
  pub found : lookup step_id state.steps ≡ some before
  pub planned : before.status ≡ StepStatus.planned
  pub released : All (IsReleased state.steps) before.depends_on
  pub shape : check_intent_shape intent ≡ ok tt
  pub unused_effect :
      any (λ step. is_effect (effect_of step.intent) intent.effect_id) (values state.steps) ≡ false
  pub bound : validate_planned_invocation_binding prims before intent ≡ ok tt
  pub authorized : validate_authorization_binding prims state step_id intent ≡ ok tt
  pub consumed : consume_and_commit state step_id before intent ≡ ok state'

module _ (prims : Primitives) where
  -- A commit that succeeds is of a planned Step whose dependencies are all completed with a Receipt;
  -- no Step had the effect; the intent is well shaped, agrees with the planned invocation and is
  -- authorized for this Run, Step and head; and the result is what spending the grant and moving the
  -- Step to `intent_committed` yield.
  pub commit_effect_intent-Commits :
      (state : RunState) (step_id : String) (intent : EffectIntent) (state' : RunState)
      → commit_effect_intent prims state step_id intent ≡ ok state'
      → Commits prims state step_id intent state'
  unfolding commit_effect_intent
  commit_effect_intent-Commits state step_id intent state' h =
      let (_, _, h1) = >>=-eq-ok (validate_tool_output_profile intent) _ h in
      let (_, _, h2) =
        >>=-eq-ok
          (check_provenance prims intent.effect_id intent.receipt_provenance
            intent.authorization.binding.receipt_provenance_digest)
          _ h1 in
      let (_, shape, h3) = >>=-eq-ok (check_intent_shape intent) _ h2 in
      let (unused, h4) =
        reject_if-eq-ok
          (any (λ step. is_effect (effect_of step.intent) intent.effect_id) (values state.steps)) _
          _ h3 in
      let (step, first, h5) = >>=-eq-ok (find_step state step_id) _ h4 in
      let (_, second, h6) =
        >>=-eq-ok
          (require_status step StepStatus.planned
            (RunEventBody.effect_intent_committed step_id intent))
          _ h5 in
      let (_, released, h7) = >>=-eq-ok (check_dependencies_released state step_id step) _ h6 in
      let (_, bound, h8) = >>=-eq-ok (validate_planned_invocation_binding prims step intent) _ h7 in
      let (_, authorized, last) =
        >>=-eq-ok (validate_authorization_binding prims state step_id intent) _ h8 in
      record {
        before = step;
        found = find_step-found state step_id step first;
        planned = require_status-eq step StepStatus.planned _ second;
        released = check_dependencies_released-All state step_id step released;
        shape = shape;
        unused_effect = unused;
        bound = bound;
        authorized = authorized;
        consumed = last;
      }

-- The Step of a committed intent.
abbrev pub committed_step : StepState → EffectIntent → StepState
committed_step step intent = record step {
  intent = some intent;
  status = StepStatus.intent_committed;
}

pub consume_and_commit-steps :
    (state : RunState) (step_id : String) (step : StepState) (intent : EffectIntent)
    (state' : RunState)
    → consume_and_commit state step_id step intent ≡ ok state'
    → (state'.steps ≡ (put_step state step_id (committed_step step intent)).steps)
      × (state'.agent_loop ≡ state.agent_loop)
unfolding consume_and_commit
consume_and_commit-steps state step_id step intent state' h = ground arith

-- Each grant is for one use, and is used once at most.
abbrev pub GrantsAreOnce : StringMap AuthorizationConsumption → Type 0
GrantsAreOnce grants =
    (grant_id : String) (c : AuthorizationConsumption)
    → lookup grant_id grants ≡ some c
    → (c.max_uses ≡ 1) × (c.uses ≤ 1)

pub check_intent_shape-once :
    (intent : EffectIntent) → check_intent_shape intent ≡ ok tt → intent.authorization.max_uses ≡ 1
unfolding check_intent_shape
check_intent_shape-once intent h = ground arith

-- A commit spends a grant that was not used before.
pub consume_and_commit-unused :
    (state : RunState) (step_id : String) (step : StepState) (intent : EffectIntent)
    (state' : RunState)
    → intent.authorization.max_uses ≡ 1
    → consume_and_commit state step_id step intent ≡ ok state'
    → ((consumption_of state intent).max_uses ≡ 1) × ((consumption_of state intent).uses ≡ 0)
unfolding consume_and_commit
consume_and_commit-unused state step_id step intent state' once h = ground arith

-- The grant's record after one more use.
abbrev pub spent_grant : RunState → EffectIntent → AuthorizationConsumption
spent_grant state intent =
    let consumption = consumption_of state intent in
    record consumption {
      uses = (consumption.uses + 1) % u32_mod;
      effect_ids = set_insert intent.effect_id consumption.effect_ids;
    }

pub consume_and_commit-grants :
    (state : RunState) (step_id : String) (step : StepState) (intent : EffectIntent)
    (state' : RunState) (grant_id : String)
    → consume_and_commit state step_id step intent ≡ ok state'
    → lookup grant_id state'.authorization_consumption ≡ (
        if str_eq intent.authorization.grant_id grant_id
        then some (spent_grant state intent)
        else lookup grant_id state.authorization_consumption)
unfolding consume_and_commit
consume_and_commit-grants state step_id step intent state' grant_id h =
    let consumption = consumption_of state intent in
    let (_, h1) =
      reject_if-eq-ok
        (not (str_eq consumption.grant_digest intent.authorization.grant_digest)
          || consumption.max_uses != intent.authorization.max_uses)
        _ _ h in
    let (_, last) = reject_if-eq-ok (leb consumption.max_uses consumption.uses) _ _ h1 in
    ap (λ s. lookup grant_id s.authorization_consumption) (sym (ok_injective last))
    ∙ lookup-insert _ _ _ _

-- A commit keeps every grant within its one use.
pub consume_and_commit-GrantsAreOnce :
    (state : RunState) (step_id : String) (step : StepState) (intent : EffectIntent)
    (state' : RunState)
    → check_intent_shape intent ≡ ok tt
    → consume_and_commit state step_id step intent ≡ ok state'
    → GrantsAreOnce state.authorization_consumption
    → GrantsAreOnce state'.authorization_consumption
consume_and_commit-GrantsAreOnce state step_id step intent state' shape h once grant_id c at =
    let (max, uses) =
      consume_and_commit-unused state step_id step intent state'
        (check_intent_shape-once intent shape) h in
    ground (
      arith,
      consume_and_commit-grants state step_id step intent state' grant_id h,
      once grant_id c,
    )
