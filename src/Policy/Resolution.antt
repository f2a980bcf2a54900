-- ===== src/Policy/Resolution.antt =====
-- The resolution of permission requests: crates/xgeny-policy/src/resolution.rs. A host adapter's
-- resolver is the interface `ResourceResolver`. `serde_json::Value` is not in the repository: its
-- operations that the code uses are the interface `JsonValue`.
pub mod Wire
pub mod Invocation
use xgeny_cli.Prelude.{
  ℕ, String, Option, none, some, List, [], ◌∷◌, Bool, true, false, not, ◌&&◌, ◌||◌, ◌==◌, leb,
  Result, ok, err, ◌>>=◌, ◌>>◌, reject_if, ok_or, map_err, fold, is_empty, str_eq, StringMap,
  StringSet, lookup, insert, contains, set_insert, sort_by, sort_texts, text_le, text_lt, dedup,
  text_is_empty, find, has, insert_ordered, any_adjacent, if◌then◌else◌,
}
use xgeny_cli.Domain.{
  api_version_v1alpha1, CriticalAction, critical_action_rank, critical_action_eq, GrantLifetime,
  ResolvedResource, PermissionRequestBody,
}
use xgeny_cli.Domain.Capability.{ResourceSelector, CapabilityDefinitionBody}
use xgeny_cli.Policy.Request.{ConcreteResource, resource_eq, resource_lt, ResolvedPermissionRequest}

-- `ResourceResolutionFailure`
pub data ResourceResolutionFailure : Type 0 where
  invalid_resource outside_host_boundary unsupported_scope : ResourceResolutionFailure
  resolver_unavailable : ResourceResolutionFailure

-- `ResourceResolutionFailure::code`
unfoldable pub failure_code : ResourceResolutionFailure → String
failure_code ResourceResolutionFailure.invalid_resource = "invalid_resource"
failure_code ResourceResolutionFailure.outside_host_boundary = "outside_host_boundary"
failure_code ResourceResolutionFailure.unsupported_scope = "unsupported_scope"
failure_code ResourceResolutionFailure.resolver_unavailable = "resolver_unavailable"

-- The trait `ResourceResolver`: the canonical identity of a resource in a scope.
pub record ResourceResolver : Type 0 where
  pub resolve : String → String → Result ResourceResolutionFailure String

-- `Value::pointer`, `Value::as_str`, and an assignment of a text through `Value::pointer_mut`.
pub record JsonValue (Value : Type 0) : Type 0 where
  pub pointer : Value → String → Option Value
  pub as_str : Value → Option String
  pub set_text : Value → String → String → Option Value

-- `RequestResolutionError`
pub data RequestResolutionError : Type 0 where
  unsupported_api_version : String → RequestResolutionError
  unsupported_required_extensions : List String → RequestResolutionError
  empty_requested_scopes : RequestResolutionError
  empty_requested_scope : RequestResolutionError
  duplicate_requested_scope : String → RequestResolutionError
  empty_resolved_resources : RequestResolutionError
  unnormalized_resource : String → RequestResolutionError
  resource_scope_not_requested : String → RequestResolutionError
  missing_resource_for_scope : String → RequestResolutionError
  empty_resource : String → RequestResolutionError
  resolver_rejected : String → String → RequestResolutionError
  empty_canonical_resource : String → RequestResolutionError
  duplicate_concrete_resource : String → RequestResolutionError
  duplicate_critical_action : RequestResolutionError

-- `InvocationResolutionError`
pub data InvocationResolutionError : Type 0 where
  unsupported_definition_api_version : String → InvocationResolutionError
  unsupported_required_extensions : List String → InvocationResolutionError
  empty_invocation_identity : InvocationResolutionError
  empty_resource_selectors : InvocationResolutionError
  missing_resource_argument : String → String → InvocationResolutionError
  resource_argument_must_be_string : String → String → InvocationResolutionError
  empty_resource_argument : String → String → InvocationResolutionError
  resolver_rejected : String → String → InvocationResolutionError
  empty_canonical_resource : String → InvocationResolutionError
  duplicate_concrete_resource : String → InvocationResolutionError
  conflicting_pointer_canonicalization : String → InvocationResolutionError
  normalization_target_lost : String → InvocationResolutionError
  duplicate_critical_action : InvocationResolutionError

-- `collect::<BTreeSet<_>>` and back into a vector.
abbrev sorted_set : List String → List String
sorted_set texts = dedup str_eq (sort_texts texts)

-- `critical_actions.sort_by_key(...)`
abbrev pub sort_actions : List CriticalAction → List CriticalAction
sort_actions = sort_by (λ a b. leb (critical_action_rank a) (critical_action_rank b))

-- One requested scope.
unfoldable pub add_scope : StringSet → String → Result RequestResolutionError StringSet
add_scope scopes scope = do
  reject_if (text_is_empty scope) RequestResolutionError.empty_requested_scope
  reject_if (contains scope scopes) (RequestResolutionError.duplicate_requested_scope scope)
  ok (set_insert scope scopes)

-- The error of a requested scope without a resource.
unfoldable pub check_represented : StringSet → StringSet → Result RequestResolutionError (Unit {0})
check_represented requested_scopes represented_scopes =
    elim (find (λ scope. not (contains scope represented_scopes)) requested_scopes) [
      | none ↦ ok tt
      | some scope ↦ err (RequestResolutionError.missing_resource_for_scope scope)
    ]

module _ (resolver : ResourceResolver) where
  -- One resource of a wire request: the concrete resources and the represented scopes so far.
  unfoldable pub add_resource :
      StringSet
      → List ConcreteResource × StringSet
      → ResolvedResource
      → Result RequestResolutionError (List ConcreteResource × StringSet)
  add_resource requested_scopes (concrete_resources, represented_scopes) resource = do
    reject_if (not resource.normalized)
        (RequestResolutionError.unnormalized_resource resource.scope)
    reject_if (not (contains resource.scope requested_scopes))
        (RequestResolutionError.resource_scope_not_requested resource.scope)
    reject_if (text_is_empty resource.resource)
        (RequestResolutionError.empty_resource resource.scope)
    canonical_resource ←
        map_err
          (λ error. RequestResolutionError.resolver_rejected resource.scope (failure_code error))
          (resolver.resolve resource.scope resource.resource)
    reject_if (text_is_empty canonical_resource)
        (RequestResolutionError.empty_canonical_resource resource.scope)
    let concrete : ConcreteResource = record {
      scope = resource.scope;
      canonical_resource = canonical_resource;
    }
    reject_if (has resource_eq concrete concrete_resources)
        (RequestResolutionError.duplicate_concrete_resource resource.scope)
    ok (
      insert_ordered resource_lt resource_eq concrete concrete_resources,
      set_insert resource.scope represented_scopes,
    )

  -- `resolve_schema_validated`
  unfoldable pub resolve_schema_validated :
      PermissionRequestBody → Result RequestResolutionError ResolvedPermissionRequest
  resolve_schema_validated request = do
    reject_if (not (str_eq request.api_version api_version_v1alpha1))
        (RequestResolutionError.unsupported_api_version request.api_version)
    reject_if (not (is_empty request.required_extensions)) (
        RequestResolutionError.unsupported_required_extensions
          (sorted_set request.required_extensions))
    reject_if (is_empty request.requested_scopes) RequestResolutionError.empty_requested_scopes
    requested_scopes ← fold add_scope [] request.requested_scopes
    reject_if (is_empty request.resolved_resources) RequestResolutionError.empty_resolved_resources
    (concrete_resources, represented_scopes) ←
        fold (add_resource requested_scopes) ([], []) request.resolved_resources
    check_represented requested_scopes represented_scopes
    let critical_actions = sort_actions request.critical_actions
    reject_if (any_adjacent critical_action_eq critical_actions)
        RequestResolutionError.duplicate_critical_action
    ok (record {
      api_version = request.api_version;
      request_id = request.request_id;
      run_id = request.run_id;
      step_id = request.step_id;
      capability = request.capability;
      effect_class = request.effect_class;
      requested_scopes = requested_scopes;
      resources = concrete_resources;
      critical_actions = critical_actions;
      requested_lifetime = request.requested_lifetime;
    })

-- `validate_derived_request_shape`
unfoldable pub validate_derived_request_shape :
    String
    → String
    → String
    → CapabilityDefinitionBody
    → Result InvocationResolutionError (Unit {0})
validate_derived_request_shape request_id run_id step_id definition = do
  reject_if (not (str_eq definition.api_version api_version_v1alpha1))
      (InvocationResolutionError.unsupported_definition_api_version definition.api_version)
  reject_if (not (is_empty definition.required_extensions)) (
      InvocationResolutionError.unsupported_required_extensions
        (sorted_set definition.required_extensions))
  reject_if (text_is_empty request_id || (text_is_empty run_id || text_is_empty step_id))
      InvocationResolutionError.empty_invocation_identity
  reject_if (is_empty definition.spec.effect.resource_selectors)
      InvocationResolutionError.empty_resource_selectors

-- `normalized_critical_actions`
unfoldable pub normalized_critical_actions :
    CapabilityDefinitionBody → Result InvocationResolutionError (List CriticalAction)
normalized_critical_actions definition = do
  let critical_actions = sort_actions definition.spec.effect.critical_actions
  reject_if (any_adjacent critical_action_eq critical_actions)
      InvocationResolutionError.duplicate_critical_action
  ok critical_actions

-- `left.scope.cmp(&right.scope).then_with(|| left.argument_pointer.cmp(...))`, as `<=`.
abbrev pub selector_le : ResourceSelector → ResourceSelector → Bool
selector_le left right =
    text_lt left.scope right.scope
    || (str_eq left.scope right.scope && text_le left.argument_pointer right.argument_pointer)

-- What the loop of `derive_invocation_resources` has collected.
pub record Derived : Type 0 where
  pub canonical_by_pointer : StringMap String
  pub requested_scopes : StringSet
  pub resources : List ConcreteResource

-- The test of the pointer's earlier canonical value, where there is one.
unfoldable pub check_pointer :
    StringMap String → String → String → Result InvocationResolutionError (Unit {0})
check_pointer canonical_by_pointer argument_pointer canonical_resource =
    elim (lookup argument_pointer canonical_by_pointer) [
      | none ↦ ok tt
      | some existing ↦
          reject_if (not (str_eq existing canonical_resource))
            (InvocationResolutionError.conflicting_pointer_canonicalization argument_pointer)
    ]

module _ (resolver : ResourceResolver) {Value : Type 0} (json : JsonValue Value) where
  -- `resolve_selected_resource`, less the pointer that it passes on: the canonical resource.
  unfoldable pub resolve_selected_resource :
      Value → ResourceSelector → Result InvocationResolutionError String
  resolve_selected_resource arguments selector = do
    value ← ok_or (json.pointer arguments selector.argument_pointer) (
        InvocationResolutionError.missing_resource_argument selector.scope
          selector.argument_pointer)
    raw ← ok_or (json.as_str value) (
        InvocationResolutionError.resource_argument_must_be_string selector.scope
          selector.argument_pointer)
    reject_if (text_is_empty raw)
        (InvocationResolutionError.empty_resource_argument selector.scope selector.argument_pointer)
    canonical_resource ←
        map_err
          (λ error. InvocationResolutionError.resolver_rejected selector.scope (failure_code error))
          (resolver.resolve selector.scope raw)
    reject_if (text_is_empty canonical_resource)
        (InvocationResolutionError.empty_canonical_resource selector.scope)
    ok canonical_resource

  -- One selector of the loop.
  unfoldable pub derive_resource :
      Value → Derived → ResourceSelector → Result InvocationResolutionError Derived
  derive_resource arguments derived selector = do
    canonical_resource ← resolve_selected_resource arguments selector
    check_pointer derived.canonical_by_pointer selector.argument_pointer canonical_resource
    let resource : ConcreteResource = record {
      scope = selector.scope;
      canonical_resource = canonical_resource;
    }
    reject_if (has resource_eq resource derived.resources)
        (InvocationResolutionError.duplicate_concrete_resource selector.scope)
    ok (record {
      canonical_by_pointer =
          insert selector.argument_pointer canonical_resource derived.canonical_by_pointer;
      requested_scopes = set_insert selector.scope derived.requested_scopes;
      resources = insert_ordered resource_lt resource_eq resource derived.resources;
    })

  -- One assignment of `normalize_resource_arguments`.
  unfoldable pub normalize_argument :
      Value → String × String → Result InvocationResolutionError Value
  normalize_argument arguments (argument_pointer, canonical_resource) =
      ok_or (json.set_text arguments argument_pointer canonical_resource)
        (InvocationResolutionError.normalization_target_lost argument_pointer)

  -- `normalize_resource_arguments`
  unfoldable pub normalize_resource_arguments :
      Value → StringMap String → Result InvocationResolutionError Value
  normalize_resource_arguments arguments canonical_by_pointer =
      fold normalize_argument arguments canonical_by_pointer

  -- `derive_invocation_resources`
  unfoldable pub derive_invocation_resources :
      CapabilityDefinitionBody → Value → Result InvocationResolutionError (Derived × Value)
  derive_invocation_resources definition arguments = do
    derived ←
        fold (derive_resource arguments)
          (record { canonical_by_pointer = []; requested_scopes = []; resources = [] })
          (sort_by selector_le definition.spec.effect.resource_selectors)
    normalized_arguments ← normalize_resource_arguments arguments derived.canonical_by_pointer
    ok (derived, normalized_arguments)

  -- `resolve_invocation`: the permission request and the normalized arguments of
  -- `ResolvedInvocationRequest`.
  unfoldable pub resolve_invocation :
      String
      → String
      → String
      → CapabilityDefinitionBody
      → Value
      → GrantLifetime
      → Result InvocationResolutionError (ResolvedPermissionRequest × Value)
  resolve_invocation request_id run_id step_id definition arguments requested_lifetime = do
    validate_derived_request_shape request_id run_id step_id definition
    (derived, normalized_arguments) ← derive_invocation_resources definition arguments
    critical_actions ← normalized_critical_actions definition
    ok (
      record {
        api_version = api_version_v1alpha1;
        request_id = request_id;
        run_id = run_id;
        step_id = step_id;
        capability = record {
          capability_id = definition.metadata.id;
          contract_version = definition.metadata.contract_version;
        };
        effect_class = definition.spec.effect.class;
        requested_scopes = derived.requested_scopes;
        resources = derived.resources;
        critical_actions = critical_actions;
        requested_lifetime = requested_lifetime;
      },
      normalized_arguments,
    )
