-- ===== src/Routing/Candidate.antt =====
-- The hard filters on one candidate: `evaluate_candidate` of crates/xgeny-runtime/src/router.rs.
pub mod Eligible
use xgeny_cli.Prelude.{
  ℕ, String, Option, none, some, List, [], ◌∷◌, ◌++◌, map, Bool, true, false, not, ◌&&◌, ◌||◌, ◌==◌,
  has, any, str_eq, sort_texts, dedup, if◌then◌else◌,
}
use xgeny_cli.Domain.Capability.{
  CapabilityDefinitionBody, CapabilityInstanceBody, InstanceHints, Platform, OperatingSystem, os_eq,
  Architecture, arch_eq, trust_eq, boundary_eq, HealthStatus, AuthState, ExecutionStyle,
}
use xgeny_cli.Routing.Float.{F64, is_finite, below_zero, in_unit_range}
use xgeny_cli.Routing.Request.{RequiredRouteFeatures, RouteRequest}

-- `CandidateEligibility`
pub data CandidateEligibility : Type 0 where
  placement_eligible rejected : CandidateEligibility

-- `RouteReason`
pub data RouteReason : Type 0 where
  platform_os_mismatch platform_architecture_mismatch : RouteReason
  health_degraded health_unavailable health_unknown : RouteReason
  auth_required auth_expired : RouteReason
  trust_not_allowed data_boundary_not_allowed : RouteReason
  definition_extension_unsupported : String → RouteReason
  instance_extension_unsupported : String → RouteReason
  execution_style_unsupported : ExecutionStyle → RouteReason
  cancellation_unsupported : RouteReason
  idempotency_key_unsupported idempotency_query_unsupported : RouteReason
  invalid_cost_hint invalid_reliability_hint : RouteReason

-- `RouteReason::code`
unfoldable pub reason_code : RouteReason → String
reason_code RouteReason.platform_os_mismatch = "platform_os_mismatch"
reason_code RouteReason.platform_architecture_mismatch = "platform_arch_mismatch"
reason_code RouteReason.health_degraded = "health_degraded"
reason_code RouteReason.health_unavailable = "health_unavailable"
reason_code RouteReason.health_unknown = "health_unknown"
reason_code RouteReason.auth_required = "auth_required"
reason_code RouteReason.auth_expired = "auth_expired"
reason_code RouteReason.trust_not_allowed = "trust_not_allowed"
reason_code RouteReason.data_boundary_not_allowed = "data_boundary_not_allowed"
reason_code (RouteReason.definition_extension_unsupported _) = "definition_extension_unsupported"
reason_code (RouteReason.instance_extension_unsupported _) = "instance_extension_unsupported"
reason_code (RouteReason.execution_style_unsupported _) = "execution_style_unsupported"
reason_code RouteReason.cancellation_unsupported = "cancellation_unsupported"
reason_code RouteReason.idempotency_key_unsupported = "idempotency_key_unsupported"
reason_code RouteReason.idempotency_query_unsupported = "idempotency_query_unsupported"
reason_code RouteReason.invalid_cost_hint = "invalid_cost_hint"
reason_code RouteReason.invalid_reliability_hint = "invalid_reliability_hint"

-- `rejects_candidate`
unfoldable pub rejects_candidate : RouteReason → Bool
rejects_candidate RouteReason.health_degraded = false
rejects_candidate _ = true

-- `RouteCandidateEvaluation`
pub record RouteCandidateEvaluation : Type 0 where
  pub instance_id : String
  pub eligibility : CandidateEligibility
  pub reasons : List RouteReason

-- `if test { reasons.push(reason) }`
abbrev pub when : Bool → RouteReason → List RouteReason
when true reason = reason ∷ []
when false reason = []

abbrev pub health_reasons : HealthStatus → List RouteReason
health_reasons HealthStatus.available = []
health_reasons HealthStatus.degraded = RouteReason.health_degraded ∷ []
health_reasons HealthStatus.unavailable = RouteReason.health_unavailable ∷ []
health_reasons HealthStatus.unknown = RouteReason.health_unknown ∷ []

abbrev pub auth_reasons : AuthState → List RouteReason
auth_reasons AuthState.not_required = []
auth_reasons AuthState.available = []
auth_reasons AuthState.required = RouteReason.auth_required ∷ []
auth_reasons AuthState.expired = RouteReason.auth_expired ∷ []

abbrev pub supports_style : CapabilityInstanceBody → ExecutionStyle → Bool
supports_style candidate ExecutionStyle.sync = candidate.features.sync
supports_style candidate ExecutionStyle.task = candidate.features.task

-- `required_extensions`
unfoldable pub required_extensions : List String → List String
required_extensions required = dedup str_eq (sort_texts required)

-- `reliability`, `latency` and `cost` of the hints.
abbrev pub reliability : CapabilityInstanceBody → Option F64
reliability candidate = elim candidate.hints [ none ↦ none | some hints ↦ hints.reliability ]

abbrev pub latency : CapabilityInstanceBody → Option ℕ
latency candidate = elim candidate.hints [ none ↦ none | some hints ↦ hints.latency_ms ]

abbrev pub cost : CapabilityInstanceBody → Option F64
cost candidate = elim candidate.hints [ none ↦ none | some hints ↦ hints.monetary_cost ]

-- `is_some_and`
abbrev pub is_some_and : Option F64 → (F64 → Bool) → Bool
is_some_and none p = false
is_some_and (some value) p = p value

-- The reasons that one test after the other has pushed.
unfoldable pub concat : List (List RouteReason) → List RouteReason
concat [] = []
concat (reasons ∷ others) = reasons ++ concat others

module _ (candidate : CapabilityInstanceBody) (definition : CapabilityDefinitionBody)
    (request : RouteRequest) where
  -- The tests in the code's order, each with the reason that it pushes.
  abbrev pub placement_tests : List (List RouteReason)
  placement_tests =
      when
        (not (os_eq candidate.platform.os OperatingSystem.any_os)
          && not (os_eq candidate.platform.os request.target_platform.os))
        RouteReason.platform_os_mismatch
      ∷ when
          (not (arch_eq candidate.platform.arch Architecture.any_arch)
            && not (arch_eq candidate.platform.arch request.target_platform.arch))
          RouteReason.platform_architecture_mismatch
      ∷ health_reasons candidate.health.status
      ∷ auth_reasons candidate.auth.state
      ∷ when (not (has trust_eq candidate.trust request.allowed_trust_levels))
          RouteReason.trust_not_allowed
      ∷ when (not (has boundary_eq candidate.data_boundary request.allowed_data_boundaries))
          RouteReason.data_boundary_not_allowed
      ∷ []

  abbrev pub feature_tests : List (List RouteReason)
  feature_tests =
      map RouteReason.definition_extension_unsupported
        (required_extensions definition.required_extensions)
      ∷ map RouteReason.instance_extension_unsupported
          (required_extensions candidate.required_extensions)
      ∷ when (not (supports_style candidate request.required_features.execution_style))
          (RouteReason.execution_style_unsupported request.required_features.execution_style)
      ∷ when (request.required_features.cancellation && not candidate.features.cancellable)
          RouteReason.cancellation_unsupported
      ∷ when
          (request.required_features.idempotency_key
            && not definition.spec.execution.idempotency_key_supported)
          RouteReason.idempotency_key_unsupported
      ∷ when
          (request.required_features.idempotency_query && not candidate.features.idempotency_query)
          RouteReason.idempotency_query_unsupported
      ∷ when (is_some_and (cost candidate) (λ value. not (is_finite value) || below_zero value))
          RouteReason.invalid_cost_hint
      ∷ when
          (is_some_and (reliability candidate)
            (λ value. not (is_finite value) || not (in_unit_range value)))
          RouteReason.invalid_reliability_hint
      ∷ []

  -- `evaluate_candidate`
  unfoldable pub evaluate_candidate : RouteCandidateEvaluation
  evaluate_candidate =
      let reasons = concat (placement_tests ++ feature_tests) in
      record {
        instance_id = candidate.instance_id;
        eligibility =
            if any rejects_candidate reasons
            then CandidateEligibility.rejected
            else CandidateEligibility.placement_eligible;
        reasons = reasons;
      }
