-- ===== src/Store/Bundles.antt =====
-- What an event needs beside it: `verify_plan_input_bundle`, `verify_material_bundle`,
-- `verify_receipt_bundle`, `verify_tool_output_bundle` and `verify_completion_output_bundle` of
-- crates/xgeny-local-store/src/lib.rs, on an append that brings no sidecar.
use xgeny_cli.Prelude.{
  String, some, Bool, true, false, not, ◌&&◌, ◌||◌, Result, ok, err, ◌>>=◌, ◌>>◌, reject_if, ok_or,
  str_eq, is_some,
}
use xgeny_cli.WorkGraph.Status.{EffectClass}
use xgeny_cli.WorkGraph.Event.{RunEventBody, ReceiptProvenance}
use xgeny_cli.WorkGraph.Effects.{is_output_profile}
use xgeny_cli.Store.Errors.{StoreError}

abbrev Verified : Type 0
Verified = Result StoreError (Unit {0})

-- `CORE_RECEIPT_PROFILE_V1` and `CORE_RECEIPT_PROFILE_V2`
abbrev core_receipt_profile_v1 : String
core_receipt_profile_v1 = "xgeny.core-receipt/v1"

abbrev core_receipt_profile_v2 : String
core_receipt_profile_v2 = "xgeny.core-receipt/v2"

abbrev v2_class : EffectClass → Bool
v2_class EffectClass.reversible = false
v2_class _ = true

abbrev v1_class : EffectClass → Bool
v1_class EffectClass.read_only = false
v1_class _ = true

-- The event needs no plan inputs.
unfoldable pub verify_plan_input_bundle : RunEventBody → Verified
verify_plan_input_bundle (RunEventBody.plan_accepted _ _) =
    err StoreError.planned_invocation_inputs_required
verify_plan_input_bundle _ = ok tt

-- The Receipt profile of an intent is one that its effect class supports.
unfoldable pub verify_receipt_profile : EffectClass → ReceiptProvenance → Verified
verify_receipt_profile class provenance = do
  let is_v1 = str_eq provenance.profile_version core_receipt_profile_v1
  let is_v2 = str_eq provenance.profile_version core_receipt_profile_v2
  reject_if (not ((is_v2 && v2_class class) || (is_v1 && v1_class class)))
      StoreError.unsupported_receipt_profile
  reject_if
      (not (
        (is_v2 && (v2_class class && is_output_profile provenance.tool_output_profile))
        || (is_v1 && (v1_class class && not (is_some provenance.tool_output_profile)))))
      StoreError.tool_output_profile_required

-- The event needs no invocation material.
unfoldable pub verify_material_bundle : RunEventBody → Verified
verify_material_bundle (RunEventBody.effect_intent_committed step_id intent) = do
  provenance ← ok_or intent.receipt_provenance StoreError.receipt_provenance_required
  verify_receipt_profile intent.effect_class provenance
  err StoreError.invocation_material_required
verify_material_bundle _ = ok tt

-- The event needs no Receipt, and is not a legacy verification.
unfoldable pub verify_receipt_bundle : RunEventBody → Verified
verify_receipt_bundle (RunEventBody.verification_recorded _ _ _ _ _) =
    err StoreError.execution_receipt_required
verify_receipt_bundle (RunEventBody.verification_passed _) =
    err StoreError.legacy_verification_append_rejected
verify_receipt_bundle (RunEventBody.verification_failed _ _) =
    err StoreError.legacy_verification_append_rejected
verify_receipt_bundle _ = ok tt

-- The event needs no tool output.
unfoldable pub verify_tool_output_bundle : RunEventBody → Verified
verify_tool_output_bundle (RunEventBody.effect_succeeded _ _ _ (some _)) =
    err StoreError.tool_output_required
verify_tool_output_bundle _ = ok tt

-- The event needs no completion output.
unfoldable pub verify_completion_output_bundle : RunEventBody → Verified
verify_completion_output_bundle (RunEventBody.completion_candidate_recorded _ _ _ _) =
    err StoreError.completion_output_required
verify_completion_output_bundle _ = ok tt

-- The five calls of `append`, in their order.
unfoldable pub verify_bundles : RunEventBody → Verified
verify_bundles body = do
  verify_plan_input_bundle body
  verify_material_bundle body
  verify_receipt_bundle body
  verify_tool_output_bundle body
  verify_completion_output_bundle body
