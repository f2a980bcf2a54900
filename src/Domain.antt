-- ===== src/Domain.antt =====
-- The wire types that policy and routing read: crates/xgeny-domain/src/common.rs, policy.rs and
-- capability.rs. A `_code` numbers the variants of an enum in their order, for the derived `==`.
pub mod Capability
use xgeny_cli.Prelude.{ℕ, String, List, Bool, ◌&&◌, ◌==◌, str_eq}

-- `API_VERSION_V1ALPHA1`
abbrev pub api_version_v1alpha1 : String
api_version_v1alpha1 = "xgeny.io/v1alpha1"

-- `CapabilityRef`
pub record CapabilityRef : Type 0 where
  pub capability_id : String
  pub contract_version : String

-- `==` on `CapabilityRef`
abbrev pub capability_ref_eq : CapabilityRef → CapabilityRef → Bool
capability_ref_eq a b =
    str_eq a.capability_id b.capability_id && str_eq a.contract_version b.contract_version

-- `EffectClass` of the wire protocol
pub data EffectClass : Type 0 where
  read_only idempotent compensatable non_idempotent unknown : EffectClass

abbrev pub effect_class_code : EffectClass → ℕ
effect_class_code EffectClass.read_only = 0
effect_class_code EffectClass.idempotent = 1
effect_class_code EffectClass.compensatable = 2
effect_class_code EffectClass.non_idempotent = 3
effect_class_code EffectClass.unknown = 4

abbrev pub effect_class_eq : EffectClass → EffectClass → Bool
effect_class_eq a b = effect_class_code a == effect_class_code b

-- `CriticalAction`
pub data CriticalAction : Type 0 where
  irreversible_delete credential_export payment_or_purchase : CriticalAction
  external_publish_or_message production_deploy privilege_escalation : CriticalAction
  persistent_startup : CriticalAction

-- `critical_action_rank`
abbrev pub critical_action_rank : CriticalAction → ℕ
critical_action_rank CriticalAction.irreversible_delete = 0
critical_action_rank CriticalAction.credential_export = 1
critical_action_rank CriticalAction.payment_or_purchase = 2
critical_action_rank CriticalAction.external_publish_or_message = 3
critical_action_rank CriticalAction.production_deploy = 4
critical_action_rank CriticalAction.privilege_escalation = 5
critical_action_rank CriticalAction.persistent_startup = 6

abbrev pub critical_action_eq : CriticalAction → CriticalAction → Bool
critical_action_eq a b = critical_action_rank a == critical_action_rank b

-- `GrantLifetime`
pub data GrantLifetime : Type 0 where
  once run session project persistent : GrantLifetime

-- `lifetime_rank`
abbrev pub lifetime_rank : GrantLifetime → ℕ
lifetime_rank GrantLifetime.once = 0
lifetime_rank GrantLifetime.run = 1
lifetime_rank GrantLifetime.session = 2
lifetime_rank GrantLifetime.project = 3
lifetime_rank GrantLifetime.persistent = 4

abbrev pub lifetime_eq : GrantLifetime → GrantLifetime → Bool
lifetime_eq a b = lifetime_rank a == lifetime_rank b

-- `PolicySourceKind`
pub data PolicySourceKind : Type 0 where
  host user_profile run_grant managed_lease : PolicySourceKind

abbrev pub source_kind_code : PolicySourceKind → ℕ
source_kind_code PolicySourceKind.host = 0
source_kind_code PolicySourceKind.user_profile = 1
source_kind_code PolicySourceKind.run_grant = 2
source_kind_code PolicySourceKind.managed_lease = 3

abbrev pub source_kind_eq : PolicySourceKind → PolicySourceKind → Bool
source_kind_eq a b = source_kind_code a == source_kind_code b

-- `PolicySource`
pub record PolicySource : Type 0 where
  pub kind : PolicySourceKind
  pub id : String
  pub digest : String

-- `ResolvedResource`, without its free-form metadata.
pub record ResolvedResource : Type 0 where
  pub scope : String
  pub resource : String
  pub normalized : Bool

-- `PermissionRequestBody`, without its extension payloads.
pub record PermissionRequestBody : Type 0 where
  pub api_version : String
  pub required_extensions : List String
  pub request_id : String
  pub run_id : String
  pub step_id : String
  pub capability : CapabilityRef
  pub effect_class : EffectClass
  pub requested_scopes : List String
  pub resolved_resources : List ResolvedResource
  pub critical_actions : List CriticalAction
  pub requested_lifetime : GrantLifetime
  pub reason : String
  pub created_at : String
