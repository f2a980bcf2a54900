-- ===== src/WorkGraph/Intent.antt =====
-- The commit of an effect's intent: `commit_effect_intent` and the validators that it calls in
-- crates/xgeny-workgraph/src/lib.rs.
pub mod Release
pub mod Commit
pub mod Authorization
pub mod Spends
use Prim.Native.String.{◌++◌}
use xgeny_cli.Prelude.{
  ℕ, ◌+◌, ◌%◌, String, Option, none, some, Bool, true, false, ◌||◌, ◌&&◌, not, List, [], ◌∷◌, any,
  Result, ok, err, ◌>>=◌, ◌>>◌, reject_if, ok_or, map_err, fold, is_some, leb, ◌==◌, ◌!=◌, str_eq,
  StringMap, lookup, insert, set_insert, values, u32_mod, text_is_empty, if◌then◌else◌,
}
use xgeny_cli.WorkGraph.Status.{
  StepStatus, is_read_only, EffectClass, is_no_guarantee, PlannedExecutionProfile, is_on_host,
}
use xgeny_cli.WorkGraph.Errors.{TransitionError, AuthorizationDigestError}
use xgeny_cli.WorkGraph.Event.{
  EffectIntent, ReceiptProvenance, PlannedInvocationBinding, RunEventBody,
}
use xgeny_cli.WorkGraph.State.{RunState, StepState, AuthorizationConsumption}
use xgeny_cli.WorkGraph.Digest.{
  Primitives, receipt_provenance_digest, once_authorization_id, authorization_digest,
}
use xgeny_cli.WorkGraph.Planning.{validate_binding}
use xgeny_cli.WorkGraph.Steps.{
  Transition, put_step, find_step, require_status, dependency_release_block_reason, effect_of,
  is_effect,
}
use xgeny_cli.WorkGraph.Frontier.{DependencyBlocker, blocker_lt}
use xgeny_cli.WorkGraph.Effects.{output_profile, tool_output_profile_v1}

-- `is_none_or(String::is_empty)`
abbrev is_missing : Option String → Bool
is_missing none = true
is_missing (some s) = text_is_empty s

abbrev has_durable_output : EffectClass → Bool
has_durable_output EffectClass.reversible = false
has_durable_output _ = true

unfoldable pub validate_tool_output_profile : EffectIntent → Transition (Unit {0})
validate_tool_output_profile intent = elim (output_profile (some intent)) [
  | none ↦ ok tt
  | some profile ↦
      reject_if
        (not (str_eq profile tool_output_profile_v1)
          || not (has_durable_output intent.effect_class))
        (TransitionError.unsupported_tool_output_profile intent.effect_id)
]

-- `Err(PlannedInvocationMismatch { step_id, field })` where a binding differs.
abbrev must_match : Bool → StepState → String → Transition (Unit {0})
must_match matches step field =
    reject_if (not matches) (TransitionError.planned_invocation_mismatch step.step_id field)

-- The `match planned.execution_profile`: whether the profile is a read-only one.
abbrev is_read_only_profile : PlannedExecutionProfile → Bool
is_read_only_profile PlannedExecutionProfile.local_sync_once_v1 = false
is_read_only_profile PlannedExecutionProfile.local_sync_once_occurrence_v1 = false
is_read_only_profile PlannedExecutionProfile.local_sync_read_only_v1 = true
is_read_only_profile PlannedExecutionProfile.local_sync_read_only_occurrence_v1 = true

unfoldable pub check_effect_semantics : Bool → StepState → EffectIntent → Transition (Unit {0})
check_effect_semantics false step intent = do
  must_match (not (is_read_only intent.effect_class)) step "effect_class"
  must_match (not (is_missing intent.idempotency_key)) step "idempotency_key"
check_effect_semantics true step intent = do
  must_match (is_read_only intent.effect_class) step "effect_class"
  must_match (not (is_some intent.idempotency_key)) step "idempotency_key"
  must_match (is_no_guarantee intent.sink_guarantee) step "sink_guarantee"

unfoldable pub validate_planned_execution_profile :
    StepState → PlannedInvocationBinding → EffectIntent → ReceiptProvenance → Transition (Unit {0})
unfolding check_effect_semantics
validate_planned_execution_profile step planned intent provenance = do
  check_effect_semantics (is_read_only_profile planned.execution_profile) step intent
  must_match (is_on_host provenance.executor_placement) step "receipt_provenance.executor_placement"
  must_match
      (str_eq provenance.executor_platform (planned.target_os ++ ("-" ++ planned.target_arch))) step
      "receipt_provenance.executor_platform"

-- `candidate < *current`, where there is a current blocker.
abbrev is_before : DependencyBlocker → Option DependencyBlocker → Bool
is_before candidate none = true
is_before candidate (some current) = blocker_lt candidate current

-- One round of `first_unreleased_dependency`.
unfoldable pub check_release :
    RunState → String → Option DependencyBlocker → String → Transition (Option DependencyBlocker)
check_release state step_id first dependency_id = do
  dependency ←
      ok_or (lookup dependency_id state.steps)
        (TransitionError.unknown_dependency step_id dependency_id)
  elim (dependency_release_block_reason dependency) [
    | none ↦ ok first
    | some reason ↦
        let candidate : DependencyBlocker = record { step_id = dependency_id; reason = reason } in
        ok (if is_before candidate first then some candidate else first)
  ]

unfoldable pub first_unreleased_dependency :
    RunState → StepState → Transition (Option DependencyBlocker)
first_unreleased_dependency state step =
    fold (check_release state step.step_id) none step.depends_on

-- `DependencyNotReleased` where a dependency is unreleased.
unfoldable pub check_dependencies_released : RunState → String → StepState → Transition (Unit {0})
check_dependencies_released state step_id step = do
  blocker ← first_unreleased_dependency state step
  elim blocker [
    | none ↦ ok tt
    | some b ↦ err (TransitionError.dependency_not_released step_id b.step_id b.reason)
  ]

-- The `entry` of the grant, or the one that `or_insert_with` makes.
unfoldable pub consumption_of : RunState → EffectIntent → AuthorizationConsumption
consumption_of state intent =
    elim (lookup intent.authorization.grant_id state.authorization_consumption) [
      | some consumption ↦ consumption
      | none ↦ record {
        grant_digest = intent.authorization.grant_digest;
        max_uses = intent.authorization.max_uses;
        uses = 0;
        effect_ids = [];
      }
    ]

-- The end of `commit_effect_intent`: one use of the grant, then the Step's new status.
unfoldable pub consume_and_commit :
    RunState → String → StepState → EffectIntent → Transition RunState
consume_and_commit state step_id step intent = do
  let consumption = consumption_of state intent
  let grant_id = intent.authorization.grant_id
  reject_if
      (not (str_eq consumption.grant_digest intent.authorization.grant_digest)
        || consumption.max_uses != intent.authorization.max_uses)
      (TransitionError.authorization_grant_changed grant_id)
  reject_if (leb consumption.max_uses consumption.uses)
      (TransitionError.authorization_budget_exceeded grant_id consumption.max_uses)
  let consumed = record state {
    authorization_consumption =
        insert grant_id
          (record consumption {
            uses = (consumption.uses + 1) % u32_mod;
            effect_ids = set_insert intent.effect_id consumption.effect_ids;
          })
          state.authorization_consumption;
  }
  ok (
      put_step consumed step_id
        (record step { intent = some intent; status = StepStatus.intent_committed }))

-- The effect's own semantics, at the start of `commit_effect_intent`.
unfoldable pub check_intent_shape : EffectIntent → Transition (Unit {0})
check_intent_shape intent = do
  reject_if (intent.authorization.max_uses != 1)
      (TransitionError.invalid_authorization_budget intent.authorization.grant_id)
  reject_if (not (is_no_guarantee intent.sink_guarantee) && is_missing intent.idempotency_key)
      (TransitionError.sink_guarantee_requires_idempotency_key intent.effect_id)
  reject_if
      (is_read_only intent.effect_class
        && (is_some intent.idempotency_key || not (is_no_guarantee intent.sink_guarantee)))
      (TransitionError.read_only_effect_semantics_invalid intent.effect_id)

module _ (prims : Primitives) where
  -- `match (&intent.receipt_provenance, &...receipt_provenance_digest)`
  unfoldable pub check_provenance :
      String → Option ReceiptProvenance → Option String → Transition (Unit {0})
  check_provenance effect_id (some provenance) (some expected) = do
    actual ←
        map_err TransitionError.authorization_digest_error
          (receipt_provenance_digest prims provenance)
    reject_if (not (str_eq actual expected))
        (TransitionError.receipt_provenance_digest_mismatch effect_id)
  check_provenance effect_id none none = ok tt
  check_provenance effect_id _ _ =
      err (TransitionError.receipt_provenance_binding_mismatch effect_id)

  -- The body of `validate_planned_invocation_binding` for a Step with a planned invocation.
  unfoldable pub check_planned :
      StepState → PlannedInvocationBinding → EffectIntent → Transition (Unit {0})
  check_planned step planned intent = do
    map_err TransitionError.planning_contract (validate_binding prims planned)
    must_match (str_eq planned.capability_id intent.invocation.capability_id) step "capability_id"
    must_match (str_eq planned.contract_version intent.invocation.contract_version) step
        "contract_version"
    must_match (str_eq planned.definition_digest intent.invocation.definition_digest) step
        "definition_digest"
    must_match (str_eq planned.action_digest intent.action_digest) step "action_digest"
    must_match (str_eq planned.plan_input_digest intent.authorization.binding.material_digest) step
        "plan_input_digest"
    provenance ←
        ok_or intent.receipt_provenance
          (TransitionError.planned_invocation_mismatch step.step_id "receipt_provenance.plan_id")
    must_match (str_eq provenance.plan_id planned.plan_id) step "receipt_provenance.plan_id"
    validate_planned_execution_profile step planned intent provenance

  unfoldable pub validate_planned_invocation_binding :
      StepState → EffectIntent → Transition (Unit {0})
  validate_planned_invocation_binding step intent = elim step.planned_invocation [
    | none ↦ ok tt
    | some planned ↦ check_planned step planned intent
  ]

  unfoldable pub validate_authorization_binding :
      RunState → String → EffectIntent → Transition (Unit {0})
  validate_authorization_binding state step_id intent = do
    reject_if (not (str_eq binding.run_id state.run_id))
        (TransitionError.authorization_run_mismatch grant_id)
    reject_if (not (str_eq binding.step_id step_id))
        (TransitionError.authorization_step_mismatch grant_id)
    reject_if (not (str_eq binding.authority state.authority))
        (TransitionError.authorization_authority_mismatch grant_id)
    reject_if (binding.authority_epoch != state.authority_epoch)
        (TransitionError.authorization_epoch_mismatch grant_id)
    reject_if
        (binding.issued_at_sequence != state.journal_sequence
          || not (str_eq binding.issued_at_head_digest state.journal_head_digest))
        (TransitionError.authorization_head_mismatch grant_id)
    reject_if (not (str_eq binding.action_digest intent.action_digest))
        (TransitionError.authorization_action_mismatch grant_id)
    reject_if
        (not (str_eq binding.capability_id intent.invocation.capability_id)
          || (not (str_eq binding.contract_version intent.invocation.contract_version)
              || (not (str_eq binding.definition_digest intent.invocation.definition_digest)
                  || (not (str_eq binding.instance_id intent.invocation.instance_id)
                      || not (
                          str_eq binding.instance_binding_digest
                            intent.invocation.instance_binding_digest)))))
        (TransitionError.authorization_invocation_mismatch grant_id)
    expected_id ←
        map_err TransitionError.authorization_digest_error
          (once_authorization_id prims binding.run_id binding.action_digest)
    reject_if (not (str_eq grant_id expected_id))
        (TransitionError.authorization_id_mismatch grant_id)
    expected ←
        map_err TransitionError.authorization_digest_error
          (authorization_digest prims binding intent.authorization.max_uses)
    reject_if (not (str_eq intent.authorization.grant_digest expected))
        (TransitionError.authorization_digest_mismatch grant_id)
    where
      open intent.authorization use {grant_id, binding}

  unfoldable pub commit_effect_intent : RunState → String → EffectIntent → Transition RunState
  commit_effect_intent state step_id intent = do
    validate_tool_output_profile intent
    check_provenance intent.effect_id intent.receipt_provenance
        intent.authorization.binding.receipt_provenance_digest
    check_intent_shape intent
    reject_if
        (any (λ step. is_effect (effect_of step.intent) intent.effect_id) (values state.steps))
        (TransitionError.duplicate_effect intent.effect_id)
    step ← find_step state step_id
    require_status step StepStatus.planned (RunEventBody.effect_intent_committed step_id intent)
    check_dependencies_released state step_id step
    validate_planned_invocation_binding step intent
    validate_authorization_binding state step_id intent
    consume_and_commit state step_id step intent
