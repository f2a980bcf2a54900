-- ===== src/WorkGraph/Status.antt =====
-- The lifecycle enums of crates/xgeny-workgraph/src/lib.rs. A `_code` numbers the variants of an
-- enum in their order, for the derived `==`.
use xgeny_cli.Prelude.{ℕ, Bool, true, String, ◌==◌}

-- `StepStatus`
pub data StepStatus : Type 0 where
  planned intent_committed executing effect_unknown reconciling validating : StepStatus
  completed failed manual_required : StepStatus

abbrev pub status_code : StepStatus → ℕ
status_code StepStatus.planned = 0
status_code StepStatus.intent_committed = 1
status_code StepStatus.executing = 2
status_code StepStatus.effect_unknown = 3
status_code StepStatus.reconciling = 4
status_code StepStatus.validating = 5
status_code StepStatus.completed = 6
status_code StepStatus.failed = 7
status_code StepStatus.manual_required = 8

-- `==` on `StepStatus`
abbrev pub status_eq : StepStatus → StepStatus → Bool
status_eq a b = status_code a == status_code b

-- `ContinuationAction`
pub data ContinuationAction : Type 0 where
  drive_effect verify admit : ContinuationAction

-- `DependencyBlockReason`
pub data DependencyBlockReason : Type 0 where
  not_completed failed manual_required receipt_missing dependency_blocked : DependencyBlockReason

abbrev pub reason_code : DependencyBlockReason → ℕ
reason_code DependencyBlockReason.not_completed = 0
reason_code DependencyBlockReason.failed = 1
reason_code DependencyBlockReason.manual_required = 2
reason_code DependencyBlockReason.receipt_missing = 3
reason_code DependencyBlockReason.dependency_blocked = 4

-- `EffectClass` of the journal
pub data EffectClass : Type 0 where
  read_only reversible idempotent non_idempotent : EffectClass

abbrev pub is_read_only : EffectClass → Bool
is_read_only EffectClass.read_only = true
is_read_only _ = Bool.false

-- `SinkGuarantee`
pub data SinkGuarantee : Type 0 where
  no_guarantee deduplicate_by_key query_by_key deduplicate_and_query : SinkGuarantee

abbrev pub is_no_guarantee : SinkGuarantee → Bool
is_no_guarantee SinkGuarantee.no_guarantee = true
is_no_guarantee _ = Bool.false

-- `ReconciliationResolution`
pub data ReconciliationResolution : Type 0 where
  proved_applied proved_not_applied failed : ReconciliationResolution

-- `VerificationDisposition`
pub data VerificationDisposition : Type 0 where
  passed failed inconclusive : VerificationDisposition

-- `InvocationMaterialUnavailableReason`
pub data InvocationMaterialUnavailableReason : Type 0 where
  ephemeral_material_lost reference_unavailable reference_changed :
      InvocationMaterialUnavailableReason
  adapter_binding_unavailable credential_binding_changed : InvocationMaterialUnavailableReason
  unsupported_material_version : InvocationMaterialUnavailableReason

-- `InvocationMaterialUnavailableReason::code`
unfoldable pub unavailable_code : InvocationMaterialUnavailableReason → String
unavailable_code InvocationMaterialUnavailableReason.ephemeral_material_lost =
    "ephemeral_material_lost"
unavailable_code InvocationMaterialUnavailableReason.reference_unavailable = "reference_unavailable"
unavailable_code InvocationMaterialUnavailableReason.reference_changed = "reference_changed"
unavailable_code InvocationMaterialUnavailableReason.adapter_binding_unavailable =
    "adapter_binding_unavailable"
unavailable_code InvocationMaterialUnavailableReason.credential_binding_changed =
    "credential_binding_changed"
unavailable_code InvocationMaterialUnavailableReason.unsupported_material_version =
    "unsupported_material_version"

-- `ReceiptPlacement`
pub data ReceiptPlacement : Type 0 where
  on_host on_device on_remote : ReceiptPlacement

abbrev pub is_on_host : ReceiptPlacement → Bool
is_on_host ReceiptPlacement.on_host = true
is_on_host _ = Bool.false

-- `ReceiptVerificationStrategy`
pub data ReceiptVerificationStrategy : Type 0 where
  output_schema postcondition artifact_digest receipt human : ReceiptVerificationStrategy

-- `PlannedExecutionProfile`
pub data PlannedExecutionProfile : Type 0 where
  local_sync_once_v1 local_sync_read_only_v1 : PlannedExecutionProfile
  local_sync_once_occurrence_v1 local_sync_read_only_occurrence_v1 : PlannedExecutionProfile

-- `ModelCallUnknownReason`
pub data ModelCallUnknownReason : Type 0 where
  timeout transport_unavailable interrupted : ModelCallUnknownReason

-- `ModelCallRejectionReason`
pub data ModelCallRejectionReason : Type 0 where
  planner_invalid_response provider_limit request_too_large rate_limited : ModelCallRejectionReason
  output_truncated provider_rejected proposal_rejected : ModelCallRejectionReason
  materialization_failed stale_head : ModelCallRejectionReason

abbrev pub is_stale_head : ModelCallRejectionReason → Bool
is_stale_head ModelCallRejectionReason.stale_head = true
is_stale_head _ = Bool.false

-- `ModelCallAbandonmentReason`
pub data ModelCallAbandonmentReason : Type 0 where
  recovery_discarded : ModelCallAbandonmentReason

-- `ModelCallStatus`
pub data ModelCallStatus : Type 0 where
  reserved : ModelCallStatus
  unknown : ModelCallUnknownReason → ModelCallStatus

abbrev pub is_reserved : ModelCallStatus → Bool
is_reserved ModelCallStatus.reserved = true
is_reserved (ModelCallStatus.unknown _) = Bool.false

-- `ModelCallSettlement`
pub data ModelCallSettlement : Type 0 where
  rejected : ModelCallRejectionReason → ModelCallSettlement
  abandoned : ModelCallAbandonmentReason → ModelCallSettlement
