-- ===== src/Routing/Request.antt =====
-- Placement requests and their validation: crates/xgeny-runtime/src/router.rs.
use xgeny_cli.Prelude.{
  String, Option, none, some, List, [], ◌∷◌, ◌++◌, Bool, false, not, ◌||◌, Result, ok, err, ◌>>◌,
  reject_if, has, find, any, is_empty, str_eq, text_is_empty, if◌then◌else◌,
}
use xgeny_cli.Domain.{CapabilityRef, EffectClass}
use xgeny_cli.Domain.Capability.{
  Platform, OperatingSystem, os_eq, Architecture, arch_eq, TrustLevel, trust_eq, DataBoundary,
  boundary_eq, ExecutionStyle,
}

-- `RequiredRouteFeatures`
pub record RequiredRouteFeatures : Type 0 where
  pub execution_style : ExecutionStyle
  pub cancellation : Bool
  pub idempotency_key : Bool
  pub idempotency_query : Bool

-- `RouteRequest`
pub record RouteRequest : Type 0 where
  pub capability : CapabilityRef
  pub target_platform : Platform
  pub required_features : RequiredRouteFeatures
  pub allowed_trust_levels : List TrustLevel
  pub allowed_data_boundaries : List DataBoundary
  pub trust_preference : List TrustLevel
  pub data_boundary_preference : List DataBoundary
  pub preferred_instance_ids : List String
  pub pinned_instance_id : Option String

-- `RouteInputError`
pub data RouteInputError : Type 0 where
  target_platform_must_be_concrete : RouteInputError
  allowed_trust_levels_empty allowed_data_boundaries_empty : RouteInputError
  duplicate_allowed_trust_level : TrustLevel → RouteInputError
  duplicate_allowed_data_boundary : DataBoundary → RouteInputError
  trust_preference_not_allowed : TrustLevel → RouteInputError
  duplicate_trust_preference : TrustLevel → RouteInputError
  data_boundary_preference_not_allowed : DataBoundary → RouteInputError
  duplicate_data_boundary_preference : DataBoundary → RouteInputError
  empty_preferred_instance_id : RouteInputError
  duplicate_preferred_instance_id : String → RouteInputError
  empty_pinned_instance_id : RouteInputError
  definition_not_found : String → String → RouteInputError
  policy_capability_mismatch : RouteInputError
  policy_effect_class_mismatch : EffectClass → EffectClass → RouteInputError
  policy_critical_actions_mismatch policy_scopes_mismatch : RouteInputError

module _ {A : Type 0} where
  -- The first value that stands among those before it; `before` is what has been passed.
  unfoldable pub duplicate_after : (A → A → Bool) → List A → List A → Option A
  duplicate_after eq before [] = none
  duplicate_after eq before (x ∷ xs) =
      let rest = duplicate_after eq (before ++ x ∷ []) xs in
      if has eq x before then some x else rest

  -- `first_duplicate` and `first_duplicate_ref`
  unfoldable pub first_duplicate : (A → A → Bool) → List A → Option A
  first_duplicate eq values = duplicate_after eq [] values

  -- `if let Some(value) = ... { return Err(...) }`
  abbrev pub reject_some : {E : Type 0} → Option A → (A → E) → Result E (Unit {0})
  reject_some none e = ok tt
  reject_some (some a) e = err (e a)

-- `validate_request`
unfoldable pub validate_request : RouteRequest → Result RouteInputError (Unit {0})
validate_request request = do
  reject_if
      (os_eq request.target_platform.os OperatingSystem.any_os
        || arch_eq request.target_platform.arch Architecture.any_arch)
      RouteInputError.target_platform_must_be_concrete
  reject_if (is_empty request.allowed_trust_levels) RouteInputError.allowed_trust_levels_empty
  reject_if (is_empty request.allowed_data_boundaries) RouteInputError.allowed_data_boundaries_empty
  reject_some (first_duplicate trust_eq request.allowed_trust_levels)
      RouteInputError.duplicate_allowed_trust_level
  reject_some (first_duplicate boundary_eq request.allowed_data_boundaries)
      RouteInputError.duplicate_allowed_data_boundary
  reject_some
      (find (λ trust. not (has trust_eq trust request.allowed_trust_levels))
        request.trust_preference)
      RouteInputError.trust_preference_not_allowed
  reject_some (first_duplicate trust_eq request.trust_preference)
      RouteInputError.duplicate_trust_preference
  reject_some
      (find (λ boundary. not (has boundary_eq boundary request.allowed_data_boundaries))
        request.data_boundary_preference)
      RouteInputError.data_boundary_preference_not_allowed
  reject_some (first_duplicate boundary_eq request.data_boundary_preference)
      RouteInputError.duplicate_data_boundary_preference
  reject_if (any text_is_empty request.preferred_instance_ids)
      RouteInputError.empty_preferred_instance_id
  reject_some (first_duplicate str_eq request.preferred_instance_ids)
      RouteInputError.duplicate_preferred_instance_id
  reject_if (elim request.pinned_instance_id [ none ↦ false | some pin ↦ text_is_empty pin ])
      RouteInputError.empty_pinned_instance_id
