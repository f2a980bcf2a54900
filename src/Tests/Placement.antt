-- ===== src/Tests/Placement.antt =====
-- A small capability with one instance, and a permission request for it.
use xgeny_cli.Prelude.{String, none, some, [], ◌∷◌, true, false, ok, err, str_eq, if◌then◌else◌}
use xgeny_cli.Domain.{
  api_version_v1alpha1, CapabilityRef, EffectClass, GrantLifetime, PolicySourceKind, PolicySource,
  PermissionRequestBody,
}
use xgeny_cli.Domain.Capability.{
  CapabilityDefinitionBody, CapabilityInstanceBody, ExecutionStyle, OperatingSystem, Architecture,
  TrustLevel, DataBoundary, HealthStatus, AuthState, CapabilitySource, Placement,
}
use xgeny_cli.Policy.Request.{ConcreteResource, ResolvedPermissionRequest}
use xgeny_cli.Policy.Broker.{
  ContributionVerdict, PolicyContribution, PolicyInputs, local_inputs, managed_inputs,
  BrokerOutcome, ProvisionalAuthorization,
}
use xgeny_cli.Policy.Resolution.{ResourceResolver, ResourceResolutionFailure, JsonValue}
use xgeny_cli.Routing.Request.{RouteRequest}

abbrev pub reader_ref : CapabilityRef
reader_ref = record { capability_id = "fs.read"; contract_version = "1" }

abbrev pub file_resource : ConcreteResource
file_resource = record { scope = "read"; canonical_resource = "/w/a" }

abbrev pub read_request : ResolvedPermissionRequest
read_request = record {
  api_version = api_version_v1alpha1;
  request_id = "q";
  run_id = "r";
  step_id = "s";
  capability = reader_ref;
  effect_class = EffectClass.read_only;
  requested_scopes = "read" ∷ [];
  resources = file_resource ∷ [];
  critical_actions = [];
  requested_lifetime = GrantLifetime.once;
}

abbrev pub source_of : PolicySourceKind → PolicySource
source_of kind = record {
  kind = kind;
  id = "p";
  digest = "sha256:0000000000000000000000000000000000000000000000000000000000000000";
}

abbrev pub allowing : PolicySourceKind → PolicyContribution
allowing kind = record {
  source = source_of kind;
  verdict = ContributionVerdict.allow (record {
    scopes = "read" ∷ [];
    resources = file_resource ∷ [];
    critical_actions = [];
    lifetimes = GrantLifetime.once ∷ [];
  });
}

abbrev pub layered : PolicyInputs
layered =
    local_inputs read_request (allowing PolicySourceKind.host)
      (allowing PolicySourceKind.user_profile)

abbrev pub leased : PolicyInputs
leased =
    managed_inputs read_request (allowing PolicySourceKind.host)
      (allowing PolicySourceKind.user_profile) (allowing PolicySourceKind.managed_lease)

abbrev pub read_authorization : ProvisionalAuthorization
read_authorization = record {
  lifetime = GrantLifetime.once;
  scopes = "read" ∷ [];
  resources = file_resource ∷ [];
  critical_actions = [];
}

abbrev pub layered_outcome : BrokerOutcome
layered_outcome =
    BrokerOutcome.allow read_authorization
      (source_of PolicySourceKind.host ∷ source_of PolicySourceKind.user_profile ∷ [])

abbrev pub leased_outcome : BrokerOutcome
leased_outcome = BrokerOutcome.allow read_authorization (
    source_of PolicySourceKind.host
    ∷ source_of PolicySourceKind.user_profile
    ∷ source_of PolicySourceKind.managed_lease
    ∷ [])

-- A resolver that knows one file.
abbrev pub one_file : ResourceResolver
one_file = record {
  resolve = λ scope raw.
      if str_eq raw "a" then ok "/w/a" else err ResourceResolutionFailure.invalid_resource;
}

-- A value is the text at the one pointer that it has.
abbrev pub one_pointer : JsonValue String
one_pointer = record {
  pointer = λ value pointer. if str_eq pointer "/path" then some value else none;
  as_str = λ value. some value;
  set_text = λ value pointer text. if str_eq pointer "/path" then some text else none;
}

abbrev pub wire_request : PermissionRequestBody
wire_request = record {
  api_version = api_version_v1alpha1;
  required_extensions = [];
  request_id = "q";
  run_id = "r";
  step_id = "s";
  capability = reader_ref;
  effect_class = EffectClass.read_only;
  requested_scopes = "read" ∷ [];
  resolved_resources = record { scope = "read"; resource = "a"; normalized = true } ∷ [];
  critical_actions = [];
  requested_lifetime = GrantLifetime.once;
  reason = "";
  created_at = "";
}

abbrev pub reader : CapabilityDefinitionBody
reader = record {
  api_version = api_version_v1alpha1;
  required_extensions = [];
  metadata = record { id = "fs.read"; contract_version = "1"; display_name = "" };
  spec = record {
    effect = record {
      class = EffectClass.read_only;
      resource_selectors = record { scope = "read"; argument_pointer = "/path" } ∷ [];
      critical_actions = [];
    };
    required_capabilities = [];
    execution = record {
      styles = ExecutionStyle.sync ∷ [];
      cancellable = false;
      idempotency_key_supported = false;
      durable_tool_output = true;
      default_timeout_ms = 1;
      max_timeout_ms = 2;
    };
  };
}

abbrev pub local_reader : CapabilityInstanceBody
local_reader = record {
  api_version = api_version_v1alpha1;
  required_extensions = [];
  instance_id = "i";
  definition = reader_ref;
  source = CapabilitySource.builtin;
  placement = Placement.local;
  platform = record { os = OperatingSystem.any_os; arch = Architecture.any_arch };
  trust = TrustLevel.verified;
  data_boundary = DataBoundary.local;
  health = record { status = HealthStatus.available; observed_at = ""; reason = none };
  auth = record { state = AuthState.not_required; auth_ref = none };
  features = record { sync = true; task = false; cancellable = false; idempotency_query = false };
  hints = none;
  binding = record { binding_ref = ""; operation_ref = none; protocol_version = none };
}

abbrev pub read_route : RouteRequest
read_route = record {
  capability = reader_ref;
  target_platform = record { os = OperatingSystem.linux; arch = Architecture.x86_64 };
  required_features = record {
    execution_style = ExecutionStyle.sync;
    cancellation = false;
    idempotency_key = false;
    idempotency_query = false;
  };
  allowed_trust_levels = TrustLevel.verified ∷ [];
  allowed_data_boundaries = DataBoundary.local ∷ [];
  trust_preference = [];
  data_boundary_preference = [];
  preferred_instance_ids = [];
  pinned_instance_id = none;
}
