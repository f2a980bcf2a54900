-- ===== src/Routing/Registry.antt =====
-- The catalog of capabilities: crates/xgeny-runtime/src/registry.rs.
pub mod Bindings
pub mod Register
use xgeny_cli.Prelude.{
  ℕ, String, Option, none, some, List, [], ◌∷◌, map, Bool, true, false, not, ◌&&◌, ◌||◌, ◌==◌, ltb,
  Result, ok, err, ◌>>=◌, ◌>>◌, reject_if, ok_or, is_some, has, find, filter, str_eq, text_lt,
  StringMap, lookup, insert, contains_key, values, insert_ordered, length, if◌then◌else◌,
}
use xgeny_cli.Domain.{CapabilityRef, EffectClass, api_version_v1alpha1}
use xgeny_cli.Domain.Capability.{
  CapabilityDefinitionBody, CapabilityInstanceBody, ExecutionStyle, style_eq, InstanceFeatures,
}

-- `DefinitionKey`, with its derived `==` and `<`.
pub record DefinitionKey : Type 0 where
  pub capability_id : String
  pub contract_version : String

abbrev pub key_eq : DefinitionKey → DefinitionKey → Bool
key_eq a b = str_eq a.capability_id b.capability_id && str_eq a.contract_version b.contract_version

abbrev pub key_lt : DefinitionKey → DefinitionKey → Bool
key_lt a b =
    text_lt a.capability_id b.capability_id
    || (str_eq a.capability_id b.capability_id && text_lt a.contract_version b.contract_version)

-- `DefinitionKey::from_definition` and `from_reference`
abbrev pub from_definition : CapabilityDefinitionBody → DefinitionKey
from_definition definition = record {
  capability_id = definition.metadata.id;
  contract_version = definition.metadata.contract_version;
}

abbrev pub from_reference : CapabilityRef → DefinitionKey
from_reference reference = record {
  capability_id = reference.capability_id;
  contract_version = reference.contract_version;
}

-- `BTreeMap<DefinitionKey, CapabilityDefinitionBody>`, in key order.
abbrev pub DefinitionMap : Type 0
DefinitionMap = List (DefinitionKey × CapabilityDefinitionBody)

unfoldable pub get_definition : DefinitionKey → DefinitionMap → Option CapabilityDefinitionBody
get_definition key [] = none
get_definition key ((k, definition) ∷ definitions) =
    if key_eq k key then some definition else get_definition key definitions

-- An insertion at a key that is not there.
abbrev pub insert_definition :
    DefinitionKey → CapabilityDefinitionBody → DefinitionMap → DefinitionMap
insert_definition key definition =
    insert_ordered (λ a b. key_lt a.0 b.0) (λ a b. key_eq a.0 b.0) (key, definition)

-- `CapabilityRegistry`
pub record CapabilityRegistry : Type 0 where
  pub definitions : DefinitionMap
  pub instances : StringMap CapabilityInstanceBody

-- `CapabilityRegistry::new`
abbrev pub new_registry : CapabilityRegistry
new_registry = record { definitions = []; instances = [] }

-- `RegistryError`
pub data RegistryError : Type 0 where
  unsupported_definition_api_version : String → String → RegistryError
  unsupported_instance_api_version : String → String → RegistryError
  invalid_timeout_range : String → ℕ → ℕ → RegistryError
  unsupported_durable_tool_output_effect : String → RegistryError
  duplicate_definition : String → String → RegistryError
  duplicate_instance : String → RegistryError
  definition_not_found : String → String → String → RegistryError
  unsupported_execution_style : String → String → String → ExecutionStyle → RegistryError
  unsupported_cancellation : String → String → String → RegistryError

-- `matches!(class, ReadOnly | Idempotent | NonIdempotent)`
abbrev pub supports_durable_output : EffectClass → Bool
supports_durable_output EffectClass.read_only = true
supports_durable_output EffectClass.idempotent = true
supports_durable_output EffectClass.compensatable = false
supports_durable_output EffectClass.non_idempotent = true
supports_durable_output EffectClass.unknown = false

-- `validate_definition`
unfoldable pub validate_definition : CapabilityDefinitionBody → Result RegistryError (Unit {0})
validate_definition definition = do
  reject_if (not (str_eq definition.api_version api_version_v1alpha1)) (
      RegistryError.unsupported_definition_api_version definition.metadata.id
        definition.api_version)
  let execution = definition.spec.execution
  reject_if
      (execution.default_timeout_ms == 0
        || (execution.max_timeout_ms == 0
            || ltb execution.max_timeout_ms execution.default_timeout_ms))
      (RegistryError.invalid_timeout_range definition.metadata.id execution.default_timeout_ms
        execution.max_timeout_ms)
  reject_if
      (execution.durable_tool_output && not (supports_durable_output definition.spec.effect.class))
      (RegistryError.unsupported_durable_tool_output_effect definition.metadata.id)

-- `unsupported_style`
unfoldable pub unsupported_style : CapabilityInstanceBody → ExecutionStyle → RegistryError
unsupported_style instance_body style =
    RegistryError.unsupported_execution_style instance_body.instance_id
      instance_body.definition.capability_id instance_body.definition.contract_version style

-- `validate_instance_features`
unfoldable pub validate_instance_features :
    CapabilityInstanceBody → CapabilityDefinitionBody → Result RegistryError (Unit {0})
validate_instance_features instance_body definition = do
  let features = instance_body.features
  let execution = definition.spec.execution
  reject_if (features.sync && not (has style_eq ExecutionStyle.sync execution.styles))
      (unsupported_style instance_body ExecutionStyle.sync)
  reject_if (features.task && not (has style_eq ExecutionStyle.task execution.styles))
      (unsupported_style instance_body ExecutionStyle.task)
  reject_if (features.cancellable && not execution.cancellable) (
      RegistryError.unsupported_cancellation instance_body.instance_id definition.metadata.id
        definition.metadata.contract_version)

-- `register_schema_validated_definition`
unfoldable pub register_definition :
    CapabilityRegistry → CapabilityDefinitionBody → Result RegistryError CapabilityRegistry
register_definition registry definition = do
  validate_definition definition
  let key = from_definition definition
  reject_if (is_some (get_definition key registry.definitions))
      (RegistryError.duplicate_definition key.capability_id key.contract_version)
  ok (record {
    definitions = insert_definition key definition registry.definitions;
    instances = registry.instances;
  })

-- `register_schema_validated_instance`
unfoldable pub register_instance :
    CapabilityRegistry → CapabilityInstanceBody → Result RegistryError CapabilityRegistry
register_instance registry instance_body = do
  reject_if (not (str_eq instance_body.api_version api_version_v1alpha1)) (
      RegistryError.unsupported_instance_api_version instance_body.instance_id
        instance_body.api_version)
  reject_if (contains_key instance_body.instance_id registry.instances)
      (RegistryError.duplicate_instance instance_body.instance_id)
  let key = from_reference instance_body.definition
  definition ← ok_or (get_definition key registry.definitions) (
      RegistryError.definition_not_found instance_body.instance_id key.capability_id
        key.contract_version)
  validate_instance_features instance_body definition
  ok (record {
    definitions = registry.definitions;
    instances = insert instance_body.instance_id instance_body registry.instances;
  })

-- `definition`, `instance`, `definitions`, `instances` and `instances_for`
abbrev pub find_definition : CapabilityRegistry → CapabilityRef → Option CapabilityDefinitionBody
find_definition registry reference = get_definition (from_reference reference) registry.definitions

abbrev pub find_instance : CapabilityRegistry → String → Option CapabilityInstanceBody
find_instance registry instance_id = lookup instance_id registry.instances

abbrev pub all_definitions : CapabilityRegistry → List CapabilityDefinitionBody
all_definitions registry = map (λ entry. entry.1) registry.definitions

abbrev pub all_instances : CapabilityRegistry → List CapabilityInstanceBody
all_instances registry = values registry.instances

unfoldable pub instances_for : CapabilityRegistry → CapabilityRef → List CapabilityInstanceBody
instances_for registry reference =
    filter
      (λ instance_body. key_eq (from_reference instance_body.definition) (from_reference reference))
      (values registry.instances)

-- `definition_count` and `instance_count`
abbrev pub definition_count : CapabilityRegistry → ℕ
definition_count registry = length registry.definitions

abbrev pub instance_count : CapabilityRegistry → ℕ
instance_count registry = length registry.instances
