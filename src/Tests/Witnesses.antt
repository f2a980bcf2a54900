-- ===== src/Tests/Witnesses.antt =====
-- The theorems about crates/xgeny-workgraph/src/lib.rs at the sample journal.
use xgeny_cli.WorkGraph.Reducer.Grants.{replay_from-never_reused}
use xgeny_cli.WorkGraph.Status.{StepStatus}
use xgeny_cli.WorkGraph.Kahn.Termination.{derive_frontier-HasFuel}
use xgeny_cli.WorkGraph.Kahn.Offers.{OfferIsSound, derive_frontier_sound}
use xgeny_cli.WorkGraph.Intent.Release.{IsReleased}
use xgeny_cli.WorkGraph.Kahn.{
  derive_frontier, validate_frontier_graph, validate_step, validate_dependency, collect_ready,
  traverse, visit, release_child, total_count, open_work,
}
use xgeny_cli.WorkGraph.Frontier.{
  WorkFrontier, record_step, partition_dependencies, partition_dependency, check_released,
  record_status, record_planned, record_completed, finish,
}
use xgeny_cli.WorkGraph.Effects.Change.{Change, apply_effect_lifecycle-Change}
use xgeny_cli.WorkGraph.Intent.Authorization.{
  BoundTo, BoundAction, commit_effect_intent-once, CarriesItsDigest,
  validate_authorization_binding-exact, IsSpent,
}
use xgeny_cli.WorkGraph.Intent.Spends.{IsCommitted, commit_effect_intent-IsCommitted}
use xgeny_cli.WorkGraph.Reducer.Chain.{next_record-verify_record, apply_record-links}
use xgeny_cli.WorkGraph.Event.{RunEvent, RunEventBody, EventRecord}
use xgeny_cli.WorkGraph.State.{RunState, StepState}
use xgeny_cli.WorkGraph.Reducer.Order.{IsFinal}
use xgeny_cli.WorkGraph.Steps.Lifecycle.{StepsEvolve}
use xgeny_cli.WorkGraph.Plan.Additions.{Adds, plan_step-Adds}
use xgeny_cli.WorkGraph.Reducer.Journal.{
  apply_record-unknown, IsWellFormed, apply_record-final, apply_record-StepsEvolve,
  replay-IsWellFormed,
}
use xgeny_cli.Tests.Sample.{
  manual_state, manual_journal, later_planned, verified_state, toy_primitives, planned_journal,
  journal, unknown_journal, planned_state, unknown_state, reconciling, committed, reconciling_state,
  committed_state, second_planned, step_of, extended_state, first_intent, value, frontier_of,
  created, event, blank_state, created_state, short_planned, short_committed, short_committed_state,
  material_lost, short_intent,
}
use xgeny_cli.WorkGraph.Effects.{
  mark_material_unavailable, apply_effect_lifecycle, record_execution_started, check_tool_calls,
  record_effect_observation, check_output_record, record_verification, record_effect_unknown,
  record_reconciliation_started,
}
use xgeny_cli.WorkGraph.Steps.{
  find_step, require_status, matching_step, receipt_releases_dependency,
  dependency_release_block_reason, blocker_reason,
}
use xgeny_cli.WorkGraph.Intent.{
  commit_effect_intent, validate_tool_output_profile, check_provenance, check_intent_shape,
  check_dependencies_released, first_unreleased_dependency, validate_planned_invocation_binding,
  validate_authorization_binding, consume_and_commit, consumption_of, check_release,
}
use xgeny_cli.WorkGraph.Plan.{plan_step, check_step_budget, check_dependency}
use xgeny_cli.Prelude.{
  [], refl, fold, lookup, insert, contains, set_insert, text_is_empty, strip_prefix, replace, ◌≡◌,
  some, ok, ◌+◌, none, All, ◌≢◌, ◌⊎◌, text_len, fault, ◌∷◌, all_chars, Fault, [], is_lower_hex,
  sort_by, insert_by, dedup, dedup_after, List,
}
use xgeny_cli.WorkGraph.Planning.{validate_agent_loop_budget}
use xgeny_cli.WorkGraph.ModelCalls.{configure_agent_loop, count_attempts}
use xgeny_cli.WorkGraph.Digest.{
  record_digest, sha256_digest, hex_encode, once_authorization_id, authorization_digest,
  is_sha256_digest,
}
use xgeny_cli.WorkGraph.Reducer.{
  next_record, apply_record, verify_record_against_state, verify_digest, check_authority,
  apply_event, apply_body, replay, replay_from,
}

-- The sample journal replays to the projection after its last record.
journal-replays : replay toy_primitives journal ≡ ok verified_state
unfolding next_record record_digest sha256_digest hex_encode apply_record
    verify_record_against_state verify_digest check_authority apply_event apply_body
    configure_agent_loop validate_agent_loop_budget count_attempts fold plan_step check_step_budget
    check_dependency lookup insert contains set_insert commit_effect_intent
    validate_tool_output_profile check_provenance check_intent_shape text_is_empty find_step
    require_status check_dependencies_released first_unreleased_dependency
    validate_planned_invocation_binding validate_authorization_binding once_authorization_id
    authorization_digest strip_prefix consume_and_commit consumption_of replace
    apply_effect_lifecycle record_execution_started check_tool_calls matching_step
    record_effect_observation check_output_record record_verification record_effect_unknown
    mark_material_unavailable record_reconciliation_started replay replay_from
journal-replays = refl

planned-replays : replay toy_primitives planned_journal ≡ ok planned_state
unfolding next_record record_digest sha256_digest hex_encode apply_record
    verify_record_against_state verify_digest check_authority apply_event apply_body
    configure_agent_loop validate_agent_loop_budget count_attempts fold plan_step check_step_budget
    check_dependency lookup insert contains set_insert commit_effect_intent
    validate_tool_output_profile check_provenance check_intent_shape text_is_empty find_step
    require_status check_dependencies_released first_unreleased_dependency
    validate_planned_invocation_binding validate_authorization_binding once_authorization_id
    authorization_digest strip_prefix consume_and_commit consumption_of replace
    apply_effect_lifecycle record_execution_started check_tool_calls matching_step
    record_effect_observation check_output_record record_verification record_effect_unknown
    mark_material_unavailable record_reconciliation_started replay replay_from
planned-replays = refl

unknown-replays : replay toy_primitives unknown_journal ≡ ok unknown_state
unfolding next_record record_digest sha256_digest hex_encode apply_record
    verify_record_against_state verify_digest check_authority apply_event apply_body
    configure_agent_loop validate_agent_loop_budget count_attempts fold plan_step check_step_budget
    check_dependency lookup insert contains set_insert commit_effect_intent
    validate_tool_output_profile check_provenance check_intent_shape text_is_empty find_step
    require_status check_dependencies_released first_unreleased_dependency
    validate_planned_invocation_binding validate_authorization_binding once_authorization_id
    authorization_digest strip_prefix consume_and_commit consumption_of replace
    apply_effect_lifecycle record_execution_started check_tool_calls matching_step
    record_effect_observation check_output_record record_verification record_effect_unknown
    mark_material_unavailable record_reconciliation_started replay replay_from
unknown-replays = refl

committed-applies : apply_record toy_primitives (some planned_state) committed ≡ ok committed_state
unfolding next_record record_digest sha256_digest hex_encode apply_record
    verify_record_against_state verify_digest check_authority apply_event apply_body
    configure_agent_loop validate_agent_loop_budget count_attempts fold plan_step check_step_budget
    check_dependency lookup insert contains set_insert commit_effect_intent
    validate_tool_output_profile check_provenance check_intent_shape text_is_empty find_step
    require_status check_dependencies_released first_unreleased_dependency
    validate_planned_invocation_binding validate_authorization_binding once_authorization_id
    authorization_digest strip_prefix consume_and_commit consumption_of replace
    apply_effect_lifecycle record_execution_started check_tool_calls matching_step
    record_effect_observation check_output_record record_verification record_effect_unknown
    mark_material_unavailable record_reconciliation_started replay replay_from
committed-applies = refl

reconciling-applies :
    apply_record toy_primitives (some unknown_state) reconciling ≡ ok reconciling_state
unfolding next_record record_digest sha256_digest hex_encode apply_record
    verify_record_against_state verify_digest check_authority apply_event apply_body
    configure_agent_loop validate_agent_loop_budget count_attempts fold plan_step check_step_budget
    check_dependency lookup insert contains set_insert commit_effect_intent
    validate_tool_output_profile check_provenance check_intent_shape text_is_empty find_step
    require_status check_dependencies_released first_unreleased_dependency
    validate_planned_invocation_binding validate_authorization_binding once_authorization_id
    authorization_digest strip_prefix consume_and_commit consumption_of replace
    apply_effect_lifecycle record_execution_started check_tool_calls matching_step
    record_effect_observation check_output_record record_verification record_effect_unknown
    mark_material_unavailable record_reconciliation_started replay replay_from
reconciling-applies = refl

manual-replays : replay toy_primitives manual_journal ≡ ok manual_state
unfolding next_record record_digest sha256_digest hex_encode apply_record
    verify_record_against_state verify_digest check_authority apply_event apply_body
    configure_agent_loop validate_agent_loop_budget count_attempts fold plan_step check_step_budget
    check_dependency lookup insert contains set_insert commit_effect_intent
    validate_tool_output_profile check_provenance check_intent_shape text_is_empty find_step
    require_status check_dependencies_released first_unreleased_dependency
    validate_planned_invocation_binding validate_authorization_binding once_authorization_id
    authorization_digest strip_prefix consume_and_commit consumption_of replace
    apply_effect_lifecycle record_execution_started check_tool_calls matching_step
    record_effect_observation check_output_record record_verification record_effect_unknown
    mark_material_unavailable record_reconciliation_started replay replay_from
manual-replays = refl

extended-applies : apply_record toy_primitives (some manual_state) later_planned ≡ ok extended_state
unfolding next_record record_digest sha256_digest hex_encode apply_record
    verify_record_against_state verify_digest check_authority apply_event apply_body
    configure_agent_loop validate_agent_loop_budget count_attempts fold plan_step check_step_budget
    check_dependency lookup insert contains set_insert commit_effect_intent
    validate_tool_output_profile check_provenance check_intent_shape text_is_empty find_step
    require_status check_dependencies_released first_unreleased_dependency
    validate_planned_invocation_binding validate_authorization_binding once_authorization_id
    authorization_digest strip_prefix consume_and_commit consumption_of replace
    apply_effect_lifecycle record_execution_started check_tool_calls matching_step
    record_effect_observation check_output_record record_verification record_effect_unknown
    mark_material_unavailable record_reconciliation_started replay replay_from
extended-applies = refl

replay-IsWellFormed_example : IsWellFormed verified_state
replay-IsWellFormed_example =
    replay-IsWellFormed toy_primitives journal verified_state journal-replays

planned-IsWellFormed : IsWellFormed planned_state
planned-IsWellFormed =
    replay-IsWellFormed toy_primitives planned_journal planned_state planned-replays

manual-IsWellFormed : IsWellFormed manual_state
manual-IsWellFormed = replay-IsWellFormed toy_primitives manual_journal manual_state manual-replays

unknown-IsWellFormed : IsWellFormed unknown_state
unknown-IsWellFormed =
    replay-IsWellFormed toy_primitives unknown_journal unknown_state unknown-replays

apply_record-StepsEvolve_example : StepsEvolve planned_state.steps committed_state.steps
apply_record-StepsEvolve_example =
    apply_record-StepsEvolve toy_primitives planned_state committed committed_state
      planned-IsWellFormed committed-applies

first_manual : lookup "a" manual_state.steps ≡ some (step_of "a" manual_state)
unfolding next_record record_digest sha256_digest hex_encode apply_record
    verify_record_against_state verify_digest check_authority apply_event apply_body
    configure_agent_loop validate_agent_loop_budget count_attempts fold plan_step check_step_budget
    check_dependency lookup insert contains set_insert commit_effect_intent
    validate_tool_output_profile check_provenance check_intent_shape text_is_empty find_step
    require_status check_dependencies_released first_unreleased_dependency
    validate_planned_invocation_binding validate_authorization_binding once_authorization_id
    authorization_digest strip_prefix consume_and_commit consumption_of replace
    apply_effect_lifecycle record_execution_started check_tool_calls matching_step
    record_effect_observation check_output_record record_verification record_effect_unknown
    mark_material_unavailable record_reconciliation_started replay replay_from
first_manual = refl

first-IsFinal : IsFinal (step_of "a" manual_state).status
unfolding next_record record_digest sha256_digest hex_encode apply_record
    verify_record_against_state verify_digest check_authority apply_event apply_body
    configure_agent_loop validate_agent_loop_budget count_attempts fold plan_step check_step_budget
    check_dependency lookup insert contains set_insert commit_effect_intent
    validate_tool_output_profile check_provenance check_intent_shape text_is_empty find_step
    require_status check_dependencies_released first_unreleased_dependency
    validate_planned_invocation_binding validate_authorization_binding once_authorization_id
    authorization_digest strip_prefix consume_and_commit consumption_of replace
    apply_effect_lifecycle record_execution_started check_tool_calls matching_step
    record_effect_observation check_output_record record_verification record_effect_unknown
    mark_material_unavailable record_reconciliation_started replay replay_from
first-IsFinal = IsFinal.manual_required

apply_record-final_example : lookup "a" extended_state.steps ≡ some (step_of "a" manual_state)
apply_record-final_example =
    apply_record-final toy_primitives manual_state later_planned extended_state "a"
      (step_of "a" manual_state) manual-IsWellFormed first_manual first-IsFinal extended-applies

first_unknown : lookup "a" unknown_state.steps ≡ some (step_of "a" unknown_state)
unfolding next_record record_digest sha256_digest hex_encode apply_record
    verify_record_against_state verify_digest check_authority apply_event apply_body
    configure_agent_loop validate_agent_loop_budget count_attempts fold plan_step check_step_budget
    check_dependency lookup insert contains set_insert commit_effect_intent
    validate_tool_output_profile check_provenance check_intent_shape text_is_empty find_step
    require_status check_dependencies_released first_unreleased_dependency
    validate_planned_invocation_binding validate_authorization_binding once_authorization_id
    authorization_digest strip_prefix consume_and_commit consumption_of replace
    apply_effect_lifecycle record_execution_started check_tool_calls matching_step
    record_effect_observation check_output_record record_verification record_effect_unknown
    mark_material_unavailable record_reconciliation_started replay replay_from
first_unknown = refl

first_unknown_status : (step_of "a" unknown_state).status ≡ StepStatus.effect_unknown
unfolding next_record record_digest sha256_digest hex_encode apply_record
    verify_record_against_state verify_digest check_authority apply_event apply_body
    configure_agent_loop validate_agent_loop_budget count_attempts fold plan_step check_step_budget
    check_dependency lookup insert contains set_insert commit_effect_intent
    validate_tool_output_profile check_provenance check_intent_shape text_is_empty find_step
    require_status check_dependencies_released first_unreleased_dependency
    validate_planned_invocation_binding validate_authorization_binding once_authorization_id
    authorization_digest strip_prefix consume_and_commit consumption_of replace
    apply_effect_lifecycle record_execution_started check_tool_calls matching_step
    record_effect_observation check_output_record record_verification record_effect_unknown
    mark_material_unavailable record_reconciliation_started replay replay_from
first_unknown_status = refl

apply_record-unknown_example :
    (step' : StepState) × (lookup "a" reconciling_state.steps ≡ some step')
    × ((step' ≡ step_of "a" unknown_state)
        ⊎ ((step'.status ≡ StepStatus.reconciling) ⊎ (step'.status ≡ StepStatus.manual_required)))
apply_record-unknown_example =
    apply_record-unknown toy_primitives unknown_state reconciling reconciling_state "a"
      (step_of "a" unknown_state) unknown-IsWellFormed first_unknown first_unknown_status
      reconciling-applies

apply_record-links_example :
    (committed.sequence ≡ planned_state.journal_sequence + 1)
    × (committed.previous_digest ≡ some planned_state.journal_head_digest)
    × (verify_digest toy_primitives committed ≡ ok tt)
    × (committed.event.run_id ≡ planned_state.run_id)
    × (committed.event.authority ≡ planned_state.authority)
    × (committed.event.authority_epoch ≡ planned_state.authority_epoch)
    × (committed_state.revision ≡ committed.sequence)
    × (committed_state.journal_sequence ≡ committed.sequence)
    × (committed_state.journal_head_digest ≡ committed.digest)
apply_record-links_example =
    apply_record-links toy_primitives planned_state committed committed_state committed-applies

planned_head : second_planned.digest ≡ planned_state.journal_head_digest
unfolding next_record record_digest sha256_digest hex_encode apply_record
    verify_record_against_state verify_digest check_authority apply_event apply_body
    configure_agent_loop validate_agent_loop_budget count_attempts fold plan_step check_step_budget
    check_dependency lookup insert contains set_insert commit_effect_intent
    validate_tool_output_profile check_provenance check_intent_shape text_is_empty find_step
    require_status check_dependencies_released first_unreleased_dependency
    validate_planned_invocation_binding validate_authorization_binding once_authorization_id
    authorization_digest strip_prefix consume_and_commit consumption_of replace
    apply_effect_lifecycle record_execution_started check_tool_calls matching_step
    record_effect_observation check_output_record record_verification record_effect_unknown
    mark_material_unavailable record_reconciliation_started replay replay_from
planned_head = refl

abbrev committed_event : RunEvent
committed_event = event "5" (RunEventBody.effect_intent_committed "a" first_intent)

planned_sequence : second_planned.sequence ≡ planned_state.journal_sequence
unfolding next_record record_digest sha256_digest hex_encode apply_record
    verify_record_against_state verify_digest check_authority apply_event apply_body
    configure_agent_loop validate_agent_loop_budget count_attempts fold plan_step check_step_budget
    check_dependency lookup insert contains set_insert commit_effect_intent
    validate_tool_output_profile check_provenance check_intent_shape text_is_empty find_step
    require_status check_dependencies_released first_unreleased_dependency
    validate_planned_invocation_binding validate_authorization_binding once_authorization_id
    authorization_digest strip_prefix consume_and_commit consumption_of replace
    apply_effect_lifecycle record_execution_started check_tool_calls matching_step
    record_effect_observation check_output_record record_verification record_effect_unknown
    mark_material_unavailable record_reconciliation_started replay replay_from
planned_sequence = refl

planned_run : committed_event.run_id ≡ planned_state.run_id
unfolding next_record record_digest sha256_digest hex_encode apply_record
    verify_record_against_state verify_digest check_authority apply_event apply_body
    configure_agent_loop validate_agent_loop_budget count_attempts fold plan_step check_step_budget
    check_dependency lookup insert contains set_insert commit_effect_intent
    validate_tool_output_profile check_provenance check_intent_shape text_is_empty find_step
    require_status check_dependencies_released first_unreleased_dependency
    validate_planned_invocation_binding validate_authorization_binding once_authorization_id
    authorization_digest strip_prefix consume_and_commit consumption_of replace
    apply_effect_lifecycle record_execution_started check_tool_calls matching_step
    record_effect_observation check_output_record record_verification record_effect_unknown
    mark_material_unavailable record_reconciliation_started replay replay_from
planned_run = refl

planned_authority : committed_event.authority ≡ planned_state.authority
unfolding next_record record_digest sha256_digest hex_encode apply_record
    verify_record_against_state verify_digest check_authority apply_event apply_body
    configure_agent_loop validate_agent_loop_budget count_attempts fold plan_step check_step_budget
    check_dependency lookup insert contains set_insert commit_effect_intent
    validate_tool_output_profile check_provenance check_intent_shape text_is_empty find_step
    require_status check_dependencies_released first_unreleased_dependency
    validate_planned_invocation_binding validate_authorization_binding once_authorization_id
    authorization_digest strip_prefix consume_and_commit consumption_of replace
    apply_effect_lifecycle record_execution_started check_tool_calls matching_step
    record_effect_observation check_output_record record_verification record_effect_unknown
    mark_material_unavailable record_reconciliation_started replay replay_from
planned_authority = refl

planned_epoch : committed_event.authority_epoch ≡ planned_state.authority_epoch
unfolding next_record record_digest sha256_digest hex_encode apply_record
    verify_record_against_state verify_digest check_authority apply_event apply_body
    configure_agent_loop validate_agent_loop_budget count_attempts fold plan_step check_step_budget
    check_dependency lookup insert contains set_insert commit_effect_intent
    validate_tool_output_profile check_provenance check_intent_shape text_is_empty find_step
    require_status check_dependencies_released first_unreleased_dependency
    validate_planned_invocation_binding validate_authorization_binding once_authorization_id
    authorization_digest strip_prefix consume_and_commit consumption_of replace
    apply_effect_lifecycle record_execution_started check_tool_calls matching_step
    record_effect_observation check_output_record record_verification record_effect_unknown
    mark_material_unavailable record_reconciliation_started replay replay_from
planned_epoch = refl

committed_next : next_record toy_primitives (some second_planned) committed_event ≡ ok committed
unfolding next_record record_digest sha256_digest hex_encode apply_record
    verify_record_against_state verify_digest check_authority apply_event apply_body
    configure_agent_loop validate_agent_loop_budget count_attempts fold plan_step check_step_budget
    check_dependency lookup insert contains set_insert commit_effect_intent
    validate_tool_output_profile check_provenance check_intent_shape text_is_empty find_step
    require_status check_dependencies_released first_unreleased_dependency
    validate_planned_invocation_binding validate_authorization_binding once_authorization_id
    authorization_digest strip_prefix consume_and_commit consumption_of replace
    apply_effect_lifecycle record_execution_started check_tool_calls matching_step
    record_effect_observation check_output_record record_verification record_effect_unknown
    mark_material_unavailable record_reconciliation_started replay replay_from
committed_next = refl

next_record-verify_record_example :
    verify_record_against_state toy_primitives (some planned_state) committed ≡ ok tt
next_record-verify_record_example =
    next_record-verify_record toy_primitives planned_state second_planned committed_event committed
      planned_sequence planned_head planned_run planned_authority planned_epoch committed_next

abbrev committed_run : RunState
committed_run =
    value blank_state (commit_effect_intent toy_primitives planned_state "a" first_intent)

commits : commit_effect_intent toy_primitives planned_state "a" first_intent ≡ ok committed_run
unfolding next_record record_digest sha256_digest hex_encode apply_record
    verify_record_against_state verify_digest check_authority apply_event apply_body
    configure_agent_loop validate_agent_loop_budget count_attempts fold plan_step check_step_budget
    check_dependency lookup insert contains set_insert commit_effect_intent
    validate_tool_output_profile check_provenance check_intent_shape text_is_empty find_step
    require_status check_dependencies_released first_unreleased_dependency
    validate_planned_invocation_binding validate_authorization_binding once_authorization_id
    authorization_digest strip_prefix consume_and_commit consumption_of replace
    apply_effect_lifecycle record_execution_started check_tool_calls matching_step
    record_effect_observation check_output_record record_verification record_effect_unknown
    mark_material_unavailable record_reconciliation_started replay replay_from
commits = refl

commit_effect_intent-once_example :
    commit_effect_intent toy_primitives committed_run "b" first_intent ≢ ok planned_state
commit_effect_intent-once_example =
    commit_effect_intent-once toy_primitives planned_state "a" first_intent committed_run "b"
      first_intent planned_state commits refl

commit_effect_intent-IsCommitted_example :
    IsCommitted toy_primitives planned_state "a" first_intent committed_run
commit_effect_intent-IsCommitted_example =
    commit_effect_intent-IsCommitted toy_primitives planned_state "a" first_intent committed_run
      commits

authorized : validate_authorization_binding toy_primitives planned_state "a" first_intent ≡ ok tt
unfolding next_record record_digest sha256_digest hex_encode apply_record
    verify_record_against_state verify_digest check_authority apply_event apply_body
    configure_agent_loop validate_agent_loop_budget count_attempts fold plan_step check_step_budget
    check_dependency lookup insert contains set_insert commit_effect_intent
    validate_tool_output_profile check_provenance check_intent_shape text_is_empty find_step
    require_status check_dependencies_released first_unreleased_dependency
    validate_planned_invocation_binding validate_authorization_binding once_authorization_id
    authorization_digest strip_prefix consume_and_commit consumption_of replace
    apply_effect_lifecycle record_execution_started check_tool_calls matching_step
    record_effect_observation check_output_record record_verification record_effect_unknown
    mark_material_unavailable record_reconciliation_started replay replay_from
authorized = refl

validate_authorization_binding-exact_example :
    BoundTo planned_state "a" first_intent.authorization.binding
    × BoundAction first_intent
    × CarriesItsDigest toy_primitives first_intent
validate_authorization_binding-exact_example =
    validate_authorization_binding-exact toy_primitives planned_state "a" first_intent authorized

released_check : check_dependencies_released verified_state "b" (step_of "b" verified_state) ≡ ok tt
unfolding next_record record_digest sha256_digest hex_encode apply_record
    verify_record_against_state verify_digest check_authority apply_event apply_body
    configure_agent_loop validate_agent_loop_budget count_attempts fold plan_step check_step_budget
    check_dependency lookup insert contains set_insert commit_effect_intent
    validate_tool_output_profile check_provenance check_intent_shape text_is_empty find_step
    require_status check_dependencies_released first_unreleased_dependency
    validate_planned_invocation_binding validate_authorization_binding once_authorization_id
    authorization_digest strip_prefix consume_and_commit consumption_of replace
    apply_effect_lifecycle record_execution_started check_tool_calls matching_step
    record_effect_observation check_output_record record_verification record_effect_unknown
    mark_material_unavailable record_reconciliation_started replay replay_from
    receipt_releases_dependency is_sha256_digest text_len all_chars is_lower_hex check_release
    dependency_release_block_reason derive_frontier validate_frontier_graph validate_step
    validate_dependency collect_ready traverse visit release_child record_step
    partition_dependencies partition_dependency check_released record_status record_planned
    record_completed finish sort_by insert_by dedup dedup_after total_count open_work blocker_reason
released_check = refl

abbrev started_run : RunState
started_run =
    value blank_state
      (apply_effect_lifecycle committed_state (RunEventBody.effect_execution_started "a" "effect"))

starts :
    apply_effect_lifecycle committed_state (RunEventBody.effect_execution_started "a" "effect")
    ≡ ok started_run
unfolding next_record record_digest sha256_digest hex_encode apply_record
    verify_record_against_state verify_digest check_authority apply_event apply_body
    configure_agent_loop validate_agent_loop_budget count_attempts fold plan_step check_step_budget
    check_dependency lookup insert contains set_insert commit_effect_intent
    validate_tool_output_profile check_provenance check_intent_shape text_is_empty find_step
    require_status check_dependencies_released first_unreleased_dependency
    validate_planned_invocation_binding validate_authorization_binding once_authorization_id
    authorization_digest strip_prefix consume_and_commit consumption_of replace
    apply_effect_lifecycle record_execution_started check_tool_calls matching_step
    record_effect_observation check_output_record record_verification record_effect_unknown
    mark_material_unavailable record_reconciliation_started replay replay_from
starts = refl

apply_effect_lifecycle-Change_example : Change committed_state started_run
apply_effect_lifecycle-Change_example =
    apply_effect_lifecycle-Change committed_state
      (RunEventBody.effect_execution_started "a" "effect") started_run starts

abbrev frontier : WorkFrontier
frontier = frontier_of verified_state

derives : derive_frontier verified_state ≡ ok frontier
unfolding next_record record_digest sha256_digest hex_encode apply_record
    verify_record_against_state verify_digest check_authority apply_event apply_body
    configure_agent_loop validate_agent_loop_budget count_attempts fold plan_step check_step_budget
    check_dependency lookup insert contains set_insert commit_effect_intent
    validate_tool_output_profile check_provenance check_intent_shape text_is_empty find_step
    require_status check_dependencies_released first_unreleased_dependency
    validate_planned_invocation_binding validate_authorization_binding once_authorization_id
    authorization_digest strip_prefix consume_and_commit consumption_of replace
    apply_effect_lifecycle record_execution_started check_tool_calls matching_step
    record_effect_observation check_output_record record_verification record_effect_unknown
    mark_material_unavailable record_reconciliation_started replay replay_from
    receipt_releases_dependency is_sha256_digest text_len all_chars is_lower_hex check_release
    dependency_release_block_reason derive_frontier validate_frontier_graph validate_step
    validate_dependency collect_ready traverse visit release_child record_step
    partition_dependencies partition_dependency check_released record_status record_planned
    record_completed finish sort_by insert_by dedup dedup_after total_count open_work blocker_reason
derives = refl

derive_frontier_sound_example :
    All (OfferIsSound verified_state.steps) frontier.actionable
    × All (IsReleased verified_state.steps) frontier.verified_completed_step_ids
derive_frontier_sound_example = derive_frontier_sound verified_state frontier derives

derive_frontier-HasFuel_example : derive_frontier verified_state ≢ fault Fault.out_of_fuel
derive_frontier-HasFuel_example = derive_frontier-HasFuel verified_state

abbrev planned_run_state : RunState
planned_run_state = value blank_state (plan_step created_state "a" "first" [] none)

plans : plan_step created_state "a" "first" [] none ≡ ok planned_run_state
unfolding plan_step check_step_budget check_dependency fold lookup insert apply_record
    verify_record_against_state next_record record_digest verify_digest sha256_digest hex_encode
    apply_event
plans = refl

plan_step-Adds_example : Adds created_state planned_run_state
plan_step-Adds_example = plan_step-Adds created_state "a" "first" [] none planned_run_state plans

abbrev short_journal : List EventRecord
short_journal = created ∷ short_planned ∷ short_committed ∷ []

short-replays : replay toy_primitives short_journal ≡ ok short_committed_state
unfolding next_record record_digest sha256_digest hex_encode apply_record
    verify_record_against_state verify_digest check_authority apply_event apply_body
    configure_agent_loop validate_agent_loop_budget count_attempts fold plan_step check_step_budget
    check_dependency lookup insert contains set_insert commit_effect_intent
    validate_tool_output_profile check_provenance check_intent_shape text_is_empty find_step
    require_status check_dependencies_released first_unreleased_dependency
    validate_planned_invocation_binding validate_authorization_binding once_authorization_id
    authorization_digest strip_prefix consume_and_commit consumption_of replace
    apply_effect_lifecycle record_execution_started check_tool_calls matching_step
    record_effect_observation check_output_record record_verification record_effect_unknown
    mark_material_unavailable record_reconciliation_started replay replay_from
short-replays = refl

short-IsWellFormed : IsWellFormed short_committed_state
short-IsWellFormed =
    replay-IsWellFormed toy_primitives short_journal short_committed_state short-replays

loses-material :
    replay_from toy_primitives (some short_committed_state) (material_lost ∷ [])
    ≡ ok (some manual_state)
unfolding next_record record_digest sha256_digest hex_encode apply_record
    verify_record_against_state verify_digest check_authority apply_event apply_body
    configure_agent_loop validate_agent_loop_budget count_attempts fold plan_step check_step_budget
    check_dependency lookup insert contains set_insert commit_effect_intent
    validate_tool_output_profile check_provenance check_intent_shape text_is_empty find_step
    require_status check_dependencies_released first_unreleased_dependency
    validate_planned_invocation_binding validate_authorization_binding once_authorization_id
    authorization_digest strip_prefix consume_and_commit consumption_of replace
    apply_effect_lifecycle record_execution_started check_tool_calls matching_step
    record_effect_observation check_output_record record_verification record_effect_unknown
    mark_material_unavailable record_reconciliation_started replay replay_from
loses-material = refl

short-IsSpent :
    IsSpent toy_primitives short_intent.authorization.grant_id
      short_committed_state.authorization_consumption
unfolding next_record record_digest sha256_digest hex_encode apply_record
    verify_record_against_state verify_digest check_authority apply_event apply_body
    configure_agent_loop validate_agent_loop_budget count_attempts fold plan_step check_step_budget
    check_dependency lookup insert contains set_insert commit_effect_intent
    validate_tool_output_profile check_provenance check_intent_shape text_is_empty find_step
    require_status check_dependencies_released first_unreleased_dependency
    validate_planned_invocation_binding validate_authorization_binding once_authorization_id
    authorization_digest strip_prefix consume_and_commit consumption_of replace
    apply_effect_lifecycle record_execution_started check_tool_calls matching_step
    record_effect_observation check_output_record record_verification record_effect_unknown
    mark_material_unavailable record_reconciliation_started replay replay_from
short-IsSpent = (
  record {
    grant_digest = short_intent.authorization.grant_digest;
    max_uses = 1;
    uses = 1;
    effect_ids = "effect" ∷ [];
  },
  refl,
  refl,
)

replay_from-never_reused_example :
    commit_effect_intent toy_primitives manual_state "b" short_intent ≢ ok manual_state
replay_from-never_reused_example =
    replay_from-never_reused toy_primitives short_committed_state (material_lost ∷ []) manual_state
      "b" short_intent manual_state short-IsWellFormed short-IsSpent loses-material
