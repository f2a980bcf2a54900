-- ===== src/WorkGraph/Intent/Authorization.antt =====
-- What an accepted authorization is bound to: `validate_authorization_binding` and the spending of a
-- grant in crates/xgeny-workgraph/src/lib.rs.
use text.Mathlib.TextPositions.{eq_refl}
use xgeny_cli.Prelude.{
  ℕ, ◌+◌, ◌≡◌, ◌≢◌, refl, sym, ap, ◌∙◌, subst, String, some, Bool, true, false, ok, >>=-eq-ok,
  reject_if-eq-ok, map_err, map_err-eq-ok, or_false, arith, eq_iff, lookup, StringMap, not, str_eq,
  ◌||◌, ◌!=◌, ◌%◌, u32_mod, reject_if, if◌then◌else◌,
}
use xgeny_cli.WorkGraph.Errors.{TransitionError}
use xgeny_cli.WorkGraph.Event.{EffectIntent, AuthorizationBinding, InvocationBinding}
use xgeny_cli.WorkGraph.State.{RunState, AuthorizationConsumption}
use xgeny_cli.WorkGraph.Digest.{Primitives, once_authorization_id, authorization_digest}
use xgeny_cli.WorkGraph.Intent.{
  validate_authorization_binding, commit_effect_intent, consumption_of,
}
use xgeny_cli.WorkGraph.Intent.Commit.{
  commit_effect_intent-Commits, consume_and_commit-unused, check_intent_shape-once,
  consume_and_commit-grants, spent_grant,
}

-- The binding names this Run, this Step, this authority and epoch, and the journal's present head.
abbrev pub BoundTo : RunState → String → AuthorizationBinding → Type 0
BoundTo state step_id binding =
    (binding.run_id ≡ state.run_id)
    × (binding.step_id ≡ step_id)
    × (binding.authority ≡ state.authority)
    × (binding.authority_epoch ≡ state.authority_epoch)
    × (binding.issued_at_sequence ≡ state.journal_sequence)
    × (binding.issued_at_head_digest ≡ state.journal_head_digest)

-- The binding names the action and the capability instance that the intent invokes.
abbrev pub BoundAction : EffectIntent → Type 0
BoundAction intent =
    (intent.authorization.binding.action_digest ≡ intent.action_digest)
    × (intent.authorization.binding.capability_id ≡ intent.invocation.capability_id)
    × (intent.authorization.binding.contract_version ≡ intent.invocation.contract_version)
    × (intent.authorization.binding.definition_digest ≡ intent.invocation.definition_digest)
    × (intent.authorization.binding.instance_id ≡ intent.invocation.instance_id)
    × (intent.authorization.binding.instance_binding_digest
        ≡ intent.invocation.instance_binding_digest)

abbrev differs : AuthorizationBinding → InvocationBinding → Bool
differs binding invocation =
    not (str_eq binding.capability_id invocation.capability_id)
    || (not (str_eq binding.contract_version invocation.contract_version)
        || (not (str_eq binding.definition_digest invocation.definition_digest)
            || (not (str_eq binding.instance_id invocation.instance_id)
                || not
                    (str_eq binding.instance_binding_digest invocation.instance_binding_digest))))

same_text : (a b : String) → not (str_eq a b) ≡ false → a ≡ b
same_text a b h = ground (arith, eq_iff a b)

same_number : (a b : ℕ) → (a != b) ≡ false → a ≡ b
same_number a b h = ground arith

reject_if-tt : (b : Bool) (e : TransitionError) → reject_if b e ≡ ok tt → b ≡ false
reject_if-tt true e h = cc
reject_if-tt false e h = refl

bound_action :
    (intent : EffectIntent)
    → intent.authorization.binding.action_digest ≡ intent.action_digest
    → differs intent.authorization.binding intent.invocation ≡ false
    → BoundAction intent
bound_action intent action h =
    let (capability, h1) = or_false _ _ h in
    let (version, h2) = or_false _ _ h1 in
    let (definition, h3) = or_false _ _ h2 in
    let (instance_id, instance_binding) = or_false _ _ h3 in
    (
      action,
      same_text _ _ capability,
      same_text _ _ version,
      same_text _ _ definition,
      same_text _ _ instance_id,
      same_text _ _ instance_binding,
    )

module _ (prims : Primitives) where
  -- The grant's id and digest are those that its content has.
  abbrev pub CarriesItsDigest : EffectIntent → Type 0
  CarriesItsDigest intent =
      (once_authorization_id prims intent.authorization.binding.run_id
          intent.authorization.binding.action_digest
        ≡ ok intent.authorization.grant_id)
      × (authorization_digest prims intent.authorization.binding intent.authorization.max_uses
          ≡ ok intent.authorization.grant_digest)

  -- An authorization that the reducer accepts is bound to exactly this Run, Step, authority, epoch
  -- and journal head, and to the action and instance of its intent, and its id and digest are those
  -- of its own content.
  pub validate_authorization_binding-exact :
      (state : RunState) (step_id : String) (intent : EffectIntent)
      → validate_authorization_binding prims state step_id intent ≡ ok tt
      → BoundTo state step_id intent.authorization.binding
        × BoundAction intent
        × CarriesItsDigest intent
  unfolding validate_authorization_binding
  validate_authorization_binding-exact state step_id intent h =
      let (run, h1) = reject_if-eq-ok (not (str_eq binding.run_id state.run_id)) _ _ h in
      let (step, h2) = reject_if-eq-ok (not (str_eq binding.step_id step_id)) _ _ h1 in
      let (authority, h3) =
        reject_if-eq-ok (not (str_eq binding.authority state.authority)) _ _ h2 in
      let (epoch, h4) = reject_if-eq-ok (binding.authority_epoch != state.authority_epoch) _ _ h3 in
      let (head, h5) =
        reject_if-eq-ok
          (binding.issued_at_sequence != state.journal_sequence
            || not (str_eq binding.issued_at_head_digest state.journal_head_digest))
          _ _ h4 in
      let (action, h6) =
        reject_if-eq-ok (not (str_eq binding.action_digest intent.action_digest)) _ _ h5 in
      let (invocation, h7) = reject_if-eq-ok (differs binding intent.invocation) _ _ h6 in
      let (expected_id, id, h8) =
        >>=-eq-ok
          (map_err TransitionError.authorization_digest_error
            (once_authorization_id prims binding.run_id binding.action_digest))
          _ h7 in
      let (same_id, h9) = reject_if-eq-ok (not (str_eq grant_id expected_id)) _ _ h8 in
      let (expected, digest, h10) =
        >>=-eq-ok
          (map_err TransitionError.authorization_digest_error
            (authorization_digest prims binding intent.authorization.max_uses))
          _ h9 in
      let (head_sequence, head_digest) = or_false _ _ head in
      let same_digest = reject_if-tt (not (str_eq grant_digest expected)) _ h10 in
      (
        (
          same_text _ _ run,
          same_text _ _ step,
          same_text _ _ authority,
          same_number _ _ epoch,
          same_number _ _ head_sequence,
          same_text _ _ head_digest,
        ),
        bound_action intent (same_text _ _ action) invocation,
        (
          map_err-eq-ok _ _ id ∙ ap ok (sym (same_text _ _ same_id)),
          map_err-eq-ok _ _ digest ∙ ap ok (sym (same_text _ _ same_digest)),
        ),
      )
    where
      open intent.authorization use {grant_id, grant_digest, binding}

  -- A grant whose one use is spent.
  abbrev pub IsSpent : String → StringMap AuthorizationConsumption → Type 0
  IsSpent grant_id grants =
      (c : AuthorizationConsumption) × (lookup grant_id grants ≡ some c) × (c.uses ≡ 1)

  pub spent_use :
      (state : RunState) (intent : EffectIntent) (c : AuthorizationConsumption)
      → lookup intent.authorization.grant_id state.authorization_consumption ≡ some c
      → c.uses ≡ 1
      → (consumption_of state intent).uses ≡ 0
      → ⊥
  unfolding consumption_of
  spent_use state intent c found spent unused = ground arith

  -- A spent grant authorizes nothing more.
  pub IsSpent-commit :
      (state : RunState) (step_id : String) (intent : EffectIntent) (state' : RunState)
      → IsSpent intent.authorization.grant_id state.authorization_consumption
      → commit_effect_intent prims state step_id intent ≢ ok state'
  IsSpent-commit state step_id intent state' (c, found, spent) h =
      let commits = commit_effect_intent-Commits prims state step_id intent state' h in
      let (_, unused) =
        consume_and_commit-unused state step_id commits.before intent state'
          (check_intent_shape-once intent commits.shape) commits.consumed in
      spent_use state intent c found spent unused

  -- A commit spends its grant.
  pub commit_effect_intent-IsSpent :
      (state : RunState) (step_id : String) (intent : EffectIntent) (state' : RunState)
      → commit_effect_intent prims state step_id intent ≡ ok state'
      → IsSpent intent.authorization.grant_id state'.authorization_consumption
  commit_effect_intent-IsSpent state step_id intent state' h =
      let commits = commit_effect_intent-Commits prims state step_id intent state' h in
      let (_, unused) =
        consume_and_commit-unused state step_id commits.before intent state'
          (check_intent_shape-once intent commits.shape) commits.consumed in
      let written =
        consume_and_commit-grants state step_id commits.before intent state'
          intent.authorization.grant_id commits.consumed in
      (
        spent_grant state intent,
        written
            ∙ ap
                (λ b.
                  if b
                  then some (spent_grant state intent)
                  else lookup intent.authorization.grant_id state.authorization_consumption)
                (eq_refl intent.authorization.grant_id),
        ap (λ n. (n + 1) % u32_mod) unused,
      )

  -- One grant authorizes one commit: in the projection that a commit leaves, no Step can commit an
  -- intent on the same grant.
  pub commit_effect_intent-once :
      (state : RunState) (step_id : String) (intent : EffectIntent) (state' : RunState)
      (step_id' : String) (intent' : EffectIntent) (state'' : RunState)
      → commit_effect_intent prims state step_id intent ≡ ok state'
      → intent'.authorization.grant_id ≡ intent.authorization.grant_id
      → commit_effect_intent prims state' step_id' intent' ≢ ok state''
  commit_effect_intent-once state step_id intent state' step_id' intent' state'' h same =
      IsSpent-commit state' step_id' intent' state'' (
        subst (λ g. IsSpent g state'.authorization_consumption) (sym same)
          (commit_effect_intent-IsSpent state step_id intent state' h))
