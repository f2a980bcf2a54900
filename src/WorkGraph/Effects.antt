-- ===== src/WorkGraph/Effects.antt =====
-- The effect lifecycle of one Step: `apply_effect_lifecycle` and the functions that it calls in
-- crates/xgeny-workgraph/src/lib.rs.
pub mod Change
pub mod Attempts
use xgeny_cli.Prelude.{
  ℕ, ◌+◌, String, Option, none, some, Bool, true, false, ◌||◌, ◌&&◌, not, Result, ok, err, fault,
  Fault, ◌>>=◌, ◌>>◌, reject_if, ok_or, leb, str_eq, checked_add_u32, if◌then◌else◌,
}
use xgeny_cli.WorkGraph.Status.{
  StepStatus, status_eq, ReconciliationResolution, VerificationDisposition,
  InvocationMaterialUnavailableReason, unavailable_code,
}
use xgeny_cli.WorkGraph.Errors.{TransitionError}
use xgeny_cli.WorkGraph.Event.{EffectIntent, ReceiptProvenance, RunEventBody}
use xgeny_cli.WorkGraph.State.{RunState, StepState}
use xgeny_cli.WorkGraph.Digest.{is_sha256_digest}
use xgeny_cli.WorkGraph.Steps.{
  Transition, put_step, find_step, matching_step, invalid_transition, require_status,
}
use xgeny_cli.WorkGraph.ModelCalls.{count_attempts}

abbrev pub tool_output_profile_v1 : String
tool_output_profile_v1 = "xgeny.tool-output/v1"

abbrev provenance_profile : Option ReceiptProvenance → Option String
provenance_profile none = none
provenance_profile (some provenance) = provenance.tool_output_profile

-- `intent.receipt_provenance ... .tool_output_profile` of an optional intent.
abbrev pub output_profile : Option EffectIntent → Option String
output_profile none = none
output_profile (some intent) = provenance_profile intent.receipt_provenance

-- `== Some(TOOL_OUTPUT_PROFILE_V1)`
abbrev pub is_output_profile : Option String → Bool
is_output_profile none = false
is_output_profile (some profile) = str_eq profile tool_output_profile_v1

unfoldable pub record_legacy_verification :
    RunState → String → StepStatus → RunEventBody → Transition RunState
record_legacy_verification state step_id next_status body = do
  step ← find_step state step_id
  require_status step StepStatus.validating body
  ok (put_step state step_id (record step { status = next_status }))

-- The tool-call budget of a configured agent loop.
unfoldable pub check_tool_calls : RunState → Transition (Unit {0})
check_tool_calls state = elim state.agent_loop [
  | none ↦ ok tt
  | some loop_state ↦ do
    starts ← count_attempts state
    reject_if (leb loop_state.budget.max_tool_calls starts)
        TransitionError.tool_call_budget_exceeded
]

unfoldable pub record_execution_started :
    RunState → String → String → RunEventBody → Transition RunState
record_execution_started state step_id effect_id body = do
  check_tool_calls state
  step ← matching_step state step_id effect_id
  require_status step StepStatus.intent_committed body
  attempts ← ok_or (checked_add_u32 step.attempts 1) (TransitionError.attempt_overflow step_id)
  ok (put_step state step_id (record step { status = StepStatus.executing; attempts = attempts }))

unfoldable pub record_effect_unknown :
    RunState → String → String → String → RunEventBody → Transition RunState
record_effect_unknown state step_id effect_id reason body = do
  step ← matching_step state step_id effect_id
  require_status step StepStatus.executing body
  ok (
      put_step state step_id
        (record step { status = StepStatus.effect_unknown; uncertainty_reason = some reason }))

-- The `ReconciliationStarted` arm.
unfoldable pub record_reconciliation_started :
    RunState → String → String → RunEventBody → Transition RunState
record_reconciliation_started state step_id effect_id body = do
  step ← matching_step state step_id effect_id
  require_status step StepStatus.effect_unknown body
  ok (put_step state step_id (record step { status = StepStatus.reconciling }))

abbrev is_proved_applied : ReconciliationResolution → Bool
is_proved_applied ReconciliationResolution.proved_applied = true
is_proved_applied _ = false

abbrev pub resolved_status : ReconciliationResolution → StepStatus
resolved_status ReconciliationResolution.proved_applied = StepStatus.validating
resolved_status ReconciliationResolution.proved_not_applied = StepStatus.intent_committed
resolved_status ReconciliationResolution.failed = StepStatus.failed

unfoldable pub record_reconciliation :
    RunState
    → String
    → String
    → ReconciliationResolution
    → String
    → RunEventBody
    → Transition RunState
record_reconciliation state step_id effect_id resolution evidence_digest body = do
  step ← matching_step state step_id effect_id
  require_status step StepStatus.reconciling body
  reject_if (is_proved_applied resolution && is_output_profile (output_profile step.intent))
      (TransitionError.tool_output_record_required effect_id)
  ok (
      put_step state step_id (record step {
        reconciliation_evidence_digest = some evidence_digest;
        uncertainty_reason = none;
        status = resolved_status resolution;
      }))

unfoldable pub record_manual_required :
    RunState → String → String → String → RunEventBody → Transition RunState
record_manual_required state step_id effect_id reason body = do
  step ← matching_step state step_id effect_id
  reject_if
      (not (
        status_eq step.status StepStatus.effect_unknown
        || status_eq step.status StepStatus.reconciling))
      (invalid_transition step body)
  ok (
      put_step state step_id
        (record step { status = StepStatus.manual_required; uncertainty_reason = some reason }))

-- The two branches of `record_effect_observation` that check the tool-output record.
unfoldable pub check_output_record :
    StepState → String → Option String → StepStatus → Transition (Unit {0})
check_output_record step effect_id none next_status =
    reject_if
      (is_output_profile (output_profile step.intent)
        && status_eq next_status StepStatus.validating)
      (TransitionError.tool_output_record_required effect_id)
check_output_record step effect_id (some output_record_digest) next_status = do
  reject_if (not (is_output_profile (output_profile step.intent)))
      (TransitionError.unexpected_tool_output_record effect_id)
  reject_if (not (is_sha256_digest output_record_digest))
      (TransitionError.invalid_tool_output_record_digest effect_id)

unfoldable pub record_effect_observation :
    RunState
    → String
    → String
    → String
    → Option String
    → StepStatus
    → RunEventBody
    → Transition RunState
record_effect_observation state step_id effect_id evidence_digest output_record_digest next_status
      body =
    do
      step ← matching_step state step_id effect_id
      require_status step StepStatus.executing body
      check_output_record step effect_id output_record_digest next_status
      ok (
          put_step state step_id (record step {
            status = next_status;
            effect_evidence_digest = some evidence_digest;
            output_record_digest = output_record_digest;
          }))

abbrev pub verified_status : VerificationDisposition → StepStatus
verified_status VerificationDisposition.passed = StepStatus.completed
verified_status VerificationDisposition.failed = StepStatus.failed
verified_status VerificationDisposition.inconclusive = StepStatus.manual_required

abbrev verified_reason : VerificationDisposition → Option String
verified_reason VerificationDisposition.inconclusive = some "verification_inconclusive"
verified_reason _ = none

unfoldable pub record_verification :
    RunState
    → String
    → String
    → VerificationDisposition
    → String
    → String
    → RunEventBody
    → Transition RunState
record_verification state step_id effect_id disposition receipt_id receipt_digest body = do
  step ← matching_step state step_id effect_id
  require_status step StepStatus.validating body
  ok (
      put_step state step_id (record step {
        execution_receipt_id = some receipt_id;
        execution_receipt_digest = some receipt_digest;
        uncertainty_reason = verified_reason disposition;
        status = verified_status disposition;
      }))

unfoldable pub mark_material_unavailable :
    RunState
    → String
    → String
    → InvocationMaterialUnavailableReason
    → RunEventBody
    → Transition RunState
mark_material_unavailable state step_id effect_id reason body = do
  step ← matching_step state step_id effect_id
  require_status step StepStatus.intent_committed body
  ok (
      put_step state step_id (record step {
        status = StepStatus.manual_required;
        uncertainty_reason = some (unavailable_code reason);
      }))

-- The last clause is the `unreachable!` arm: `apply_body` handles those events itself.
unfoldable pub apply_effect_lifecycle : RunState → RunEventBody → Transition RunState
apply_effect_lifecycle state
      (RunEventBody.invocation_material_unavailable step_id effect_id reason) =
    mark_material_unavailable state step_id effect_id reason
      (RunEventBody.invocation_material_unavailable step_id effect_id reason)
apply_effect_lifecycle state (RunEventBody.effect_execution_started step_id effect_id) =
    record_execution_started state step_id effect_id
      (RunEventBody.effect_execution_started step_id effect_id)
apply_effect_lifecycle state
      (RunEventBody.effect_succeeded step_id effect_id evidence_digest output_record_digest) =
    record_effect_observation state step_id effect_id evidence_digest output_record_digest
      StepStatus.validating
      (RunEventBody.effect_succeeded step_id effect_id evidence_digest output_record_digest)
apply_effect_lifecycle state (RunEventBody.effect_failed step_id effect_id evidence_digest) =
    record_effect_observation state step_id effect_id evidence_digest none StepStatus.failed
      (RunEventBody.effect_failed step_id effect_id evidence_digest)
apply_effect_lifecycle state (RunEventBody.effect_became_unknown step_id effect_id reason) =
    record_effect_unknown state step_id effect_id reason
      (RunEventBody.effect_became_unknown step_id effect_id reason)
apply_effect_lifecycle state (RunEventBody.reconciliation_started step_id effect_id) =
    record_reconciliation_started state step_id effect_id
      (RunEventBody.reconciliation_started step_id effect_id)
apply_effect_lifecycle state
      (RunEventBody.reconciliation_resolved step_id effect_id resolution evidence_digest) =
    record_reconciliation state step_id effect_id resolution evidence_digest
      (RunEventBody.reconciliation_resolved step_id effect_id resolution evidence_digest)
apply_effect_lifecycle state (RunEventBody.manual_intervention_required step_id effect_id reason) =
    record_manual_required state step_id effect_id reason
      (RunEventBody.manual_intervention_required step_id effect_id reason)
apply_effect_lifecycle state (RunEventBody.verification_passed step_id) =
    record_legacy_verification state step_id StepStatus.completed
      (RunEventBody.verification_passed step_id)
apply_effect_lifecycle state (RunEventBody.verification_failed step_id reason) =
    record_legacy_verification state step_id StepStatus.failed
      (RunEventBody.verification_failed step_id reason)
apply_effect_lifecycle state
      (RunEventBody.verification_recorded step_id effect_id disposition receipt_id receipt_digest) =
    record_verification state step_id effect_id disposition receipt_id receipt_digest
      (RunEventBody.verification_recorded step_id effect_id disposition receipt_id receipt_digest)
apply_effect_lifecycle state body = fault Fault.panic
