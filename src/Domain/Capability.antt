-- ===== src/Domain/Capability.antt =====
-- Capability definitions and instances: crates/xgeny-domain/src/capability.rs. The JSON values of a
-- document (schemas, extension payloads) and its display texts are left out: neither the registry
-- nor the router reads them.
use xgeny_cli.Prelude.{ℕ, String, Option, List, Bool, ◌==◌}
use xgeny_cli.Domain.{CapabilityRef, EffectClass, CriticalAction}

-- `ResourceSelector`
pub record ResourceSelector : Type 0 where
  pub scope : String
  pub argument_pointer : String

-- `CapabilityEffect`
pub record CapabilityEffect : Type 0 where
  pub class : EffectClass
  pub resource_selectors : List ResourceSelector
  pub critical_actions : List CriticalAction

-- `ExecutionStyle`
pub data ExecutionStyle : Type 0 where
  sync task : ExecutionStyle

abbrev style_code : ExecutionStyle → ℕ
style_code ExecutionStyle.sync = 0
style_code ExecutionStyle.task = 1

abbrev pub style_eq : ExecutionStyle → ExecutionStyle → Bool
style_eq a b = style_code a == style_code b

-- `CapabilityExecution`
pub record CapabilityExecution : Type 0 where
  pub styles : List ExecutionStyle
  pub cancellable : Bool
  pub idempotency_key_supported : Bool
  pub durable_tool_output : Bool
  pub default_timeout_ms : ℕ
  pub max_timeout_ms : ℕ

-- `CapabilitySpec`
pub record CapabilitySpec : Type 0 where
  pub effect : CapabilityEffect
  pub required_capabilities : List CapabilityRef
  pub execution : CapabilityExecution

-- `CapabilityMetadata`
pub record CapabilityMetadata : Type 0 where
  pub id : String
  pub contract_version : String
  pub display_name : String

-- `CapabilityDefinitionBody`
pub record CapabilityDefinitionBody : Type 0 where
  pub api_version : String
  pub required_extensions : List String
  pub metadata : CapabilityMetadata
  pub spec : CapabilitySpec

-- `OperatingSystem`
pub data OperatingSystem : Type 0 where
  linux macos windows any_os : OperatingSystem

abbrev os_code : OperatingSystem → ℕ
os_code OperatingSystem.linux = 0
os_code OperatingSystem.macos = 1
os_code OperatingSystem.windows = 2
os_code OperatingSystem.any_os = 3

abbrev pub os_eq : OperatingSystem → OperatingSystem → Bool
os_eq a b = os_code a == os_code b

-- `Architecture`
pub data Architecture : Type 0 where
  x86_64 aarch64 any_arch : Architecture

abbrev arch_code : Architecture → ℕ
arch_code Architecture.x86_64 = 0
arch_code Architecture.aarch64 = 1
arch_code Architecture.any_arch = 2

abbrev pub arch_eq : Architecture → Architecture → Bool
arch_eq a b = arch_code a == arch_code b

-- `Platform`
pub record Platform : Type 0 where
  pub os : OperatingSystem
  pub arch : Architecture

-- `TrustLevel`
pub data TrustLevel : Type 0 where
  untrusted configured verified managed : TrustLevel

abbrev trust_code : TrustLevel → ℕ
trust_code TrustLevel.untrusted = 0
trust_code TrustLevel.configured = 1
trust_code TrustLevel.verified = 2
trust_code TrustLevel.managed = 3

abbrev pub trust_eq : TrustLevel → TrustLevel → Bool
trust_eq a b = trust_code a == trust_code b

-- `DataBoundary`
pub data DataBoundary : Type 0 where
  local device organization external : DataBoundary

abbrev boundary_code : DataBoundary → ℕ
boundary_code DataBoundary.local = 0
boundary_code DataBoundary.device = 1
boundary_code DataBoundary.organization = 2
boundary_code DataBoundary.external = 3

abbrev pub boundary_eq : DataBoundary → DataBoundary → Bool
boundary_eq a b = boundary_code a == boundary_code b

-- `HealthStatus`
pub data HealthStatus : Type 0 where
  available degraded unavailable unknown : HealthStatus

-- `Health`
pub record Health : Type 0 where
  pub status : HealthStatus
  pub observed_at : String
  pub reason : Option String

-- `AuthState`
pub data AuthState : Type 0 where
  not_required available required expired : AuthState

-- `Auth`
pub record Auth : Type 0 where
  pub state : AuthState
  pub auth_ref : Option String

-- `InstanceFeatures`
pub record InstanceFeatures : Type 0 where
  pub sync : Bool
  pub task : Bool
  pub cancellable : Bool
  pub idempotency_query : Bool

-- `InstanceHints`; an `f64` is the number of its bits.
pub record InstanceHints : Type 0 where
  pub latency_ms : Option ℕ
  pub monetary_cost : Option ℕ
  pub reliability : Option ℕ

-- `InstanceBinding`
pub record InstanceBinding : Type 0 where
  pub binding_ref : String
  pub operation_ref : Option String
  pub protocol_version : Option String

-- `CapabilitySource`
pub data CapabilitySource : Type 0 where
  builtin local_cli mcp connector xgen : CapabilitySource

-- `Placement`
pub data Placement : Type 0 where
  local device remote : Placement

-- `CapabilityInstanceBody`
pub record CapabilityInstanceBody : Type 0 where
  pub api_version : String
  pub required_extensions : List String
  pub instance_id : String
  pub definition : CapabilityRef
  pub source : CapabilitySource
  pub placement : Placement
  pub platform : Platform
  pub trust : TrustLevel
  pub data_boundary : DataBoundary
  pub health : Health
  pub auth : Auth
  pub features : InstanceFeatures
  pub hints : Option InstanceHints
  pub binding : InstanceBinding
