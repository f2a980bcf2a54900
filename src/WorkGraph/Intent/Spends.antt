-- ===== src/WorkGraph/Intent/Spends.antt =====
-- The whole effect of a commit: what `commit_effect_intent` of crates/xgeny-workgraph/src/lib.rs asks of
-- the intent, and what it leaves of the Steps and the grants.
use text.Mathlib.TextPositions.{eq_refl}
use xgeny_cli.Prelude.{
  ◌≡◌, refl, ap, ◌∙◌, String, Option, none, some, true, false, not, ok, >>=-eq-ok, reject_if-eq-ok,
  ok_or, ok_or-eq-ok, map_err, arith, All, any, values, lookup, lookup-replace, contains,
  contains-set_insert, str_eq, eq_iff, not-false,
}
use xgeny_cli.WorkGraph.Status.{StepStatus}
use xgeny_cli.WorkGraph.Errors.{TransitionError}
use xgeny_cli.WorkGraph.Event.{EffectIntent, PlannedInvocationBinding, ReceiptProvenance}
use xgeny_cli.WorkGraph.State.{RunState, StepState, AuthorizationConsumption}
use xgeny_cli.WorkGraph.Digest.{Primitives}
use xgeny_cli.WorkGraph.Planning.{validate_binding}
use xgeny_cli.WorkGraph.Steps.{effect_of, is_effect}
use xgeny_cli.WorkGraph.Intent.{
  check_planned, validate_planned_invocation_binding, consume_and_commit, consumption_of,
  commit_effect_intent,
}
use xgeny_cli.WorkGraph.Intent.Release.{IsReleased}
use xgeny_cli.WorkGraph.Intent.Commit.{
  commit_effect_intent-Commits, committed_step, consume_and_commit-steps, consume_and_commit-unused,
  consume_and_commit-grants, check_intent_shape-once, spent_grant,
}
use xgeny_cli.WorkGraph.Intent.Authorization.{
  BoundTo, BoundAction, CarriesItsDigest, validate_authorization_binding-exact,
}

-- The intent is the invocation that was planned, where one was.
abbrev pub FollowsPlan : Option PlannedInvocationBinding → EffectIntent → Type 0
FollowsPlan none intent = Unit
FollowsPlan (some planned) intent =
    (planned.capability_id ≡ intent.invocation.capability_id)
    × (planned.contract_version ≡ intent.invocation.contract_version)
    × (planned.definition_digest ≡ intent.invocation.definition_digest)
    × (planned.action_digest ≡ intent.action_digest)
    × (planned.plan_input_digest ≡ intent.authorization.binding.material_digest)
    × ((provenance : ReceiptProvenance) × (intent.receipt_provenance ≡ some provenance)
        × (provenance.plan_id ≡ planned.plan_id))

-- A commit: the Step that was planned has the intent, and the grant that was not used is used once.
pub record IsCommitted (prims : Primitives) (state : RunState) (step_id : String)
    (intent : EffectIntent) (state' : RunState) : Type 0 where
  pub before : StepState
  pub found : lookup step_id state.steps ≡ some before
  pub planned : before.status ≡ StepStatus.planned
  pub released : All (IsReleased state.steps) before.depends_on
  pub unused_effect :
      any (λ step. is_effect (effect_of step.intent) intent.effect_id) (values state.steps) ≡ false
  pub follows : FollowsPlan before.planned_invocation intent
  pub bound_to : BoundTo state step_id intent.authorization.binding
  pub bound_action : BoundAction intent
  pub digest : CarriesItsDigest prims intent
  pub moved :
      lookup step_id state'.steps
      ≡ some (record before { intent = some intent; status = StepStatus.intent_committed })
  pub other_steps :
      (k : String) → str_eq step_id k ≡ false → lookup k state'.steps ≡ lookup k state.steps
  pub unspent :
      (c : AuthorizationConsumption)
      → lookup intent.authorization.grant_id state.authorization_consumption ≡ some c
      → c.uses ≡ 0
  pub spent :
      (c : AuthorizationConsumption) × (lookup intent.authorization.grant_id
          state'.authorization_consumption
        ≡ some c)
      × (c.uses ≡ 1)
      × (c.max_uses ≡ 1)
      × (c.grant_digest ≡ intent.authorization.grant_digest)
      × (contains intent.effect_id c.effect_ids ≡ true)
  pub other_grants :
      (grant_id : String)
      → str_eq intent.authorization.grant_id grant_id ≡ false
      → lookup grant_id state'.authorization_consumption
        ≡ lookup grant_id state.authorization_consumption
  pub same_loop : state'.agent_loop ≡ state.agent_loop

consumption_of-unspent :
    (state : RunState) (intent : EffectIntent)
    → (consumption_of state intent).uses ≡ 0
    → (c : AuthorizationConsumption)
    → lookup intent.authorization.grant_id state.authorization_consumption ≡ some c
    → c.uses ≡ 0
unfolding consumption_of
consumption_of-unspent state intent h c at = ground arith

consume_and_commit-digest :
    (state : RunState) (step_id : String) (step : StepState) (intent : EffectIntent)
    (state' : RunState)
    → consume_and_commit state step_id step intent ≡ ok state'
    → (consumption_of state intent).grant_digest ≡ intent.authorization.grant_digest
unfolding consume_and_commit
consume_and_commit-digest state step_id step intent state' h =
    ground
      (arith, eq_iff (consumption_of state intent).grant_digest intent.authorization.grant_digest)

module _ (prims : Primitives) where
  check_planned-FollowsPlan :
      (step : StepState) (planned : PlannedInvocationBinding) (intent : EffectIntent)
      → check_planned prims step planned intent ≡ ok tt
      → FollowsPlan (some planned) intent
  unfolding check_planned
  check_planned-FollowsPlan step planned intent h =
      let (_, _, h1) =
        >>=-eq-ok (map_err TransitionError.planning_contract (validate_binding prims planned)) _
          h in
      let (capability, h2) =
        reject_if-eq-ok (not (str_eq planned.capability_id intent.invocation.capability_id)) _ _
          h1 in
      let (version, h3) =
        reject_if-eq-ok (not (str_eq planned.contract_version intent.invocation.contract_version)) _
          _ h2 in
      let (definition, h4) =
        reject_if-eq-ok (not (str_eq planned.definition_digest intent.invocation.definition_digest))
          _ _ h3 in
      let (action, h5) =
        reject_if-eq-ok (not (str_eq planned.action_digest intent.action_digest)) _ _ h4 in
      let (material, h6) =
        reject_if-eq-ok
          (not (str_eq planned.plan_input_digest intent.authorization.binding.material_digest)) _ _
          h5 in
      let (provenance, given, h7) = >>=-eq-ok (ok_or intent.receipt_provenance _) _ h6 in
      let (plan, h8) = reject_if-eq-ok (not (str_eq provenance.plan_id planned.plan_id)) _ _ h7 in
      (
        same _ _ capability,
        same _ _ version,
        same _ _ definition,
        same _ _ action,
        same _ _ material,
        (provenance, ok_or-eq-ok intent.receipt_provenance _ given, same _ _ plan),
      )
    where
      same : (a b : String) → not (str_eq a b) ≡ false → a ≡ b
      same a b e = (eq_iff a b).0 (not-false _ e)

  validate_planned_invocation_binding-FollowsPlan :
      (step : StepState) (intent : EffectIntent)
      → validate_planned_invocation_binding prims step intent ≡ ok tt
      → FollowsPlan step.planned_invocation intent
  unfolding validate_planned_invocation_binding
  validate_planned_invocation_binding-FollowsPlan step intent h = follow step.planned_invocation h
    where
      follow :
          (o : Option PlannedInvocationBinding)
          → (elim o [ none ↦ ok tt | some planned ↦ check_planned prims step planned intent ])
            ≡ ok tt
          → FollowsPlan o intent
      follow none e = tt
      follow (some planned) e = check_planned-FollowsPlan step planned intent e

  -- A commit that succeeds is of a planned Step whose dependencies are all completed with a Receipt;
  -- no Step had the effect; the intent is the invocation that was planned, where one was, and its
  -- authorization is bound to this Run, Step and head, to its action and to its own digest. The Step
  -- has the intent and is `intent_committed`, otherwise unchanged; the grant, unused before, records
  -- its one use with this effect; and the other Steps, the other grants and the agent loop stay.
  pub commit_effect_intent-IsCommitted :
      (state : RunState) (step_id : String) (intent : EffectIntent) (state' : RunState)
      → commit_effect_intent prims state step_id intent ≡ ok state'
      → IsCommitted prims state step_id intent state'
  commit_effect_intent-IsCommitted state step_id intent state' h =
      let commits = commit_effect_intent-Commits prims state step_id intent state' h in
      let before = commits.before in
      let (bound_to, bound_action, digest) =
        validate_authorization_binding-exact prims state step_id intent commits.authorized in
      let (steps, same_loop) =
        consume_and_commit-steps state step_id before intent state' commits.consumed in
      let (max, uses) =
        consume_and_commit-unused state step_id before intent state'
          (check_intent_shape-once intent commits.shape) commits.consumed in
      let grants = consume_and_commit-grants state step_id before intent state' in
      record {
        before = before;
        found = commits.found;
        planned = commits.planned;
        released = commits.released;
        unused_effect = commits.unused_effect;
        follows = validate_planned_invocation_binding-FollowsPlan before intent commits.bound;
        bound_to = bound_to;
        bound_action = bound_action;
        digest = digest;
        moved =
            ap (lookup step_id) steps
            ∙ lookup-replace step_id step_id (committed_step before intent) state.steps
            ∙ (rw (eq_refl step_id) (rw commits.found refl));
        other_steps = λ k other.
            ap (lookup k) steps
            ∙ lookup-replace step_id k (committed_step before intent) state.steps
            ∙ (rw other refl);
        unspent = consumption_of-unspent state intent uses;
        spent = (
          spent_grant state intent,
          grants intent.authorization.grant_id commits.consumed
              ∙ (rw (eq_refl intent.authorization.grant_id) refl),
          (rw uses refl),
          max,
          consume_and_commit-digest state step_id before intent state' commits.consumed,
          contains-set_insert intent.effect_id intent.effect_id
                (consumption_of state intent).effect_ids
              ∙ (rw (eq_refl intent.effect_id) refl),
        );
        other_grants = λ grant_id other. grants grant_id commits.consumed ∙ (rw other refl);
        same_loop = same_loop;
      }
