-- ===== src/Routing/Registry/Bindings.antt =====
-- The invariant of the catalog of crates/xgeny-runtime/src/registry.rs, and what a registration adds.
use xgeny_cli.Prelude.{
  All-insert, ◌<◌, ◌≤◌, String, Option, none, some, List, [], ◌∷◌, Bool, true, false, not, ◌&&◌,
  ◌||◌, ◌==◌, ltb, Result, ok, reject_if-eq-ok, reject_if-ok, >>=-eq-ok, ok_or, ok_or-eq-ok,
  ok_injective, fold, fold_inv, is_some, has, str_eq, eq_iff, lookup, insert, contains_key,
  lookup-insert, insert_ordered, All-insert_ordered, All, All-map, if◌then◌else◌, ◌≡◌, refl, sym,
  ap, ◌∙◌, subst, arith, inl, inr, Bool-cases, not-false, and_true,
}
use xgeny_cli.Domain.{CapabilityRef, api_version_v1alpha1}
use xgeny_cli.Domain.Capability.{
  CapabilityDefinitionBody, CapabilityInstanceBody, ExecutionStyle, style_eq,
}
use xgeny_cli.Routing.Registry.{
  DefinitionKey, key_eq, key_lt, from_definition, from_reference, DefinitionMap, get_definition,
  insert_definition, CapabilityRegistry, new_registry, RegistryError, validate_definition,
  validate_instance_features, register_definition, register_instance, find_definition,
  find_instance, supports_durable_output,
}

-- A usable contract: timeouts are positive and in order, and a durable output has a known effect.
pub record IsUsable (definition : CapabilityDefinitionBody) : Type 0 where
  pub version : definition.api_version ≡ api_version_v1alpha1
  pub default_timeout : 0 < definition.spec.execution.default_timeout_ms
  pub max_timeout :
      definition.spec.execution.default_timeout_ms ≤ definition.spec.execution.max_timeout_ms
  pub output :
      definition.spec.execution.durable_tool_output ≡ true
      → supports_durable_output definition.spec.effect.class ≡ true

-- The instance claims nothing that its definition does not.
pub record Fits (instance_body : CapabilityInstanceBody) (definition : CapabilityDefinitionBody)
    : Type 0 where
  pub sync :
      instance_body.features.sync ≡ true
      → has style_eq ExecutionStyle.sync definition.spec.execution.styles ≡ true
  pub task :
      instance_body.features.task ≡ true
      → has style_eq ExecutionStyle.task definition.spec.execution.styles ≡ true
  pub cancellable :
      instance_body.features.cancellable ≡ true → definition.spec.execution.cancellable ≡ true

-- An entry of the instances: under its own name, bound to a definition that it fits.
pub record IsBound (definitions : DefinitionMap) (entry : String × CapabilityInstanceBody)
    : Type 0 where
  pub named : entry.0 ≡ entry.1.instance_id
  pub definition : CapabilityDefinitionBody
  pub bound : get_definition (from_reference entry.1.definition) definitions ≡ some definition
  pub fits : Fits entry.1 definition

abbrev pub IsKeyed : DefinitionKey × CapabilityDefinitionBody → Type 0
IsKeyed entry = (entry.0 ≡ from_definition entry.1) × IsUsable entry.1

pub record RegistryIsWellFormed (registry : CapabilityRegistry) : Type 0 where
  pub definitions : All IsKeyed registry.definitions
  pub instances : All (IsBound registry.definitions) registry.instances

implied : (a b : Bool) → (a && not b) ≡ false → a ≡ true → b ≡ true
implied a b h t = ground arith

pub validate_definition-IsUsable :
    (definition : CapabilityDefinitionBody)
    → validate_definition definition ≡ ok tt
    → IsUsable definition
unfolding validate_definition
validate_definition-IsUsable definition h =
    let execution = definition.spec.execution in
    let (version, h1) =
      reject_if-eq-ok (not (str_eq definition.api_version api_version_v1alpha1)) _ _ h in
    let (timeouts, h2) =
      reject_if-eq-ok
        (execution.default_timeout_ms == 0
          || (execution.max_timeout_ms == 0
              || ltb execution.max_timeout_ms execution.default_timeout_ms))
        _ _ h1 in
    let output =
      reject_if-ok
        (execution.durable_tool_output
          && not (supports_durable_output definition.spec.effect.class))
        _ h2 in
    record {
      version = (eq_iff definition.api_version api_version_v1alpha1).0 (not-false _ version);
      default_timeout = ground (arith, timeouts);
      max_timeout = ground (arith, timeouts);
      output = implied _ _ output;
    }

validate_instance_features-Fits :
    (instance_body : CapabilityInstanceBody) (definition : CapabilityDefinitionBody)
    → validate_instance_features instance_body definition ≡ ok tt
    → Fits instance_body definition
unfolding validate_instance_features
validate_instance_features-Fits instance_body definition h =
    let features = instance_body.features in
    let execution = definition.spec.execution in
    let (sync, h1) =
      reject_if-eq-ok (features.sync && not (has style_eq ExecutionStyle.sync execution.styles)) _ _
        h in
    let (task, h2) =
      reject_if-eq-ok (features.task && not (has style_eq ExecutionStyle.task execution.styles)) _ _
        h1 in
    let cancellable = reject_if-ok (features.cancellable && not execution.cancellable) _ h2 in
    record {
      sync = implied features.sync _ sync;
      task = implied features.task _ task;
      cancellable = implied features.cancellable _ cancellable;
    }

pub key_eq-eq : (a b : DefinitionKey) → key_eq a b ≡ true → a ≡ b
key_eq-eq a b h =
    let (ids, versions) =
      and_true (str_eq a.capability_id b.capability_id)
        (str_eq a.contract_version b.contract_version) h in
    ap (λ s. build s a.contract_version) ((eq_iff a.capability_id b.capability_id).0 ids)
    ∙ ap (build b.capability_id) ((eq_iff a.contract_version b.contract_version).0 versions)
  where
    build : String → String → DefinitionKey
    build s c = record { capability_id = s; contract_version = c }

pub get_definition-skip :
    (key new : DefinitionKey) (added : CapabilityDefinitionBody) (definitions : DefinitionMap)
    → key_eq new key ≡ false
    → get_definition key (insert_definition new added definitions) ≡ get_definition key definitions
unfolding get_definition insert_ordered
get_definition-skip key new added [] e = rw e refl
get_definition-skip key new added ((k, d) ∷ definitions) e =
    place (key_lt new k) (key_eq new k) (get_definition-skip key new added definitions e)
  where
    place :
        (below same : Bool)
        → get_definition key (insert_definition new added definitions)
          ≡ get_definition key definitions
        → get_definition key (
            if below
            then (new, added) ∷ (k, d) ∷ definitions
            else (if same
                then (k, d) ∷ definitions
                else (k, d) ∷ insert_definition new added definitions))
          ≡ get_definition key ((k, d) ∷ definitions)
    place true same rest = rw e refl
    place false true rest = refl
    place false false rest = ap (λ o. if key_eq k key then some d else o) rest

-- A definition that is there stays when another key gets one.
get_definition-insert :
    (key new : DefinitionKey) (definition added : CapabilityDefinitionBody)
    (definitions : DefinitionMap)
    → is_some (get_definition new definitions) ≡ false
    → get_definition key definitions ≡ some definition
    → get_definition key (insert_definition new added definitions) ≡ some definition
get_definition-insert key new definition added definitions e h =
    elim (Bool-cases (key_eq new key)) [
      | inl same ↦ absurd (
          apart
            (subst (λ k. is_some (get_definition k definitions) ≡ false) (key_eq-eq new key same) e)
            h)
      | inr other ↦ get_definition-skip key new added definitions other ∙ h
    ]
  where
    apart :
        is_some (get_definition key definitions) ≡ false
        → get_definition key definitions ≡ some definition
        → ⊥
    apart none_there there = cc

-- One registration of a document that its schema accepts.
pub data Registration : Type 0 where
  of_definition : CapabilityDefinitionBody → Registration
  of_instance : CapabilityInstanceBody → Registration

abbrev pub register : CapabilityRegistry → Registration → Result RegistryError CapabilityRegistry
register registry (Registration.of_definition definition) = register_definition registry definition
register registry (Registration.of_instance body) = register_instance registry body

register_definition-keeps :
    (registry : CapabilityRegistry) (definition : CapabilityDefinitionBody)
    (registry' : CapabilityRegistry)
    → RegistryIsWellFormed registry
    → register_definition registry definition ≡ ok registry'
    → RegistryIsWellFormed registry'
unfolding register_definition
register_definition-keeps registry definition registry' wf h =
    let key = from_definition definition in
    let (_, valid, h1) = >>=-eq-ok (validate_definition definition) _ h in
    let (fresh, last) =
      reject_if-eq-ok (is_some (get_definition key registry.definitions)) _ _ h1 in
    subst RegistryIsWellFormed (ok_injective last) (record {
      definitions =
          All-insert_ordered IsKeyed _ _ (key, definition) registry.definitions
            (refl, validate_definition-IsUsable definition valid) wf.definitions;
      instances =
          All-map (IsBound registry.definitions)
            (IsBound (insert_definition key definition registry.definitions))
            (λ entry bound. record {
              named = bound.named;
              definition = bound.definition;
              bound =
                  get_definition-insert (from_reference entry.1.definition) key bound.definition
                    definition registry.definitions fresh bound.bound;
              fits = bound.fits;
            })
            registry.instances wf.instances;
    })

register_instance-keeps :
    (registry : CapabilityRegistry) (body : CapabilityInstanceBody) (registry' : CapabilityRegistry)
    → RegistryIsWellFormed registry
    → register_instance registry body ≡ ok registry'
    → RegistryIsWellFormed registry'
unfolding register_instance
register_instance-keeps registry body registry' wf h =
    let (_, h1) = reject_if-eq-ok (not (str_eq body.api_version api_version_v1alpha1)) _ _ h in
    let (_, h2) = reject_if-eq-ok (contains_key body.instance_id registry.instances) _ _ h1 in
    let key = from_reference body.definition in
    let (definition, found, h3) =
      >>=-eq-ok
        (ok_or (get_definition key registry.definitions) (
          RegistryError.definition_not_found body.instance_id key.capability_id
            key.contract_version))
        _ h2 in
    let (_, valid, last) = >>=-eq-ok (validate_instance_features body definition) _ h3 in
    subst RegistryIsWellFormed (ok_injective last) (record {
      definitions = wf.definitions;
      instances =
          All-insert (IsBound registry.definitions) body.instance_id body registry.instances
            (record {
              named = refl;
              definition = definition;
              bound = ok_or-eq-ok (get_definition key registry.definitions) _ found;
              fits = validate_instance_features-Fits body definition valid;
            })
            wf.instances;
    })

-- A registry that any sequence of successful registrations has filled is well formed: each definition
-- stands at its own key with usable timeouts, and each instance is bound to a definition of the
-- registry whose execution styles and cancellation it does not exceed.
pub register-IsWellFormed :
    (registrations : List Registration) (registry : CapabilityRegistry)
    → fold register new_registry registrations ≡ ok registry
    → RegistryIsWellFormed registry
register-IsWellFormed registrations registry h =
    fold_inv RegistryIsWellFormed register keep new_registry registrations registry
      (record { definitions = tt; instances = tt }) h
  where
    keep :
        (before : CapabilityRegistry) (registration : Registration) (after : CapabilityRegistry)
        → RegistryIsWellFormed before
        → register before registration ≡ ok after
        → RegistryIsWellFormed after
    keep before (Registration.of_definition definition) after wf e =
        register_definition-keeps before definition after wf e
    keep before (Registration.of_instance body) after wf e =
        register_instance-keeps before body after wf e

-- A registered instance is found under its name, every other name keeps its answer, and every
-- definition keeps its own.
pub register_instance-lookup :
    (registry : CapabilityRegistry) (body : CapabilityInstanceBody) (registry' : CapabilityRegistry)
    (instance_id : String) (reference : CapabilityRef)
    → register_instance registry body ≡ ok registry'
    → (find_instance registry' body.instance_id ≡ some body)
      × (find_instance registry body.instance_id ≡ none)
      × (str_eq body.instance_id instance_id ≡ false
          → find_instance registry' instance_id ≡ find_instance registry instance_id)
      × (find_definition registry' reference ≡ find_definition registry reference)
unfolding register_instance
register_instance-lookup registry body registry' instance_id reference h =
    let (_, h1) = reject_if-eq-ok (not (str_eq body.api_version api_version_v1alpha1)) _ _ h in
    let (fresh, h2) = reject_if-eq-ok (contains_key body.instance_id registry.instances) _ _ h1 in
    let key = from_reference body.definition in
    let (definition, found, h3) =
      >>=-eq-ok
        (ok_or (get_definition key registry.definitions) (
          RegistryError.definition_not_found body.instance_id key.capability_id
            key.contract_version))
        _ h2 in
    let (_, valid, last) = >>=-eq-ok (validate_instance_features body definition) _ h3 in
    let instances : registry'.instances ≡ insert body.instance_id body registry.instances =
      sym (ap (λ r. r.instances) (ok_injective last)) in
    let definitions : registry'.definitions ≡ registry.definitions =
      sym (ap (λ r. r.definitions) (ok_injective last)) in
    (
      ap (lookup body.instance_id) instances
          ∙ lookup-insert body.instance_id body.instance_id body registry.instances
          ∙ (rw ((eq_iff body.instance_id body.instance_id).1 refl) refl),
      nothing (lookup body.instance_id registry.instances) fresh,
      (λ other.
          ap (lookup instance_id) instances
          ∙ lookup-insert body.instance_id instance_id body registry.instances
          ∙ (rw other refl)),
      ap (get_definition (from_reference reference)) definitions,
    )
  where
    nothing : (o : Option CapabilityInstanceBody) → is_some o ≡ false → o ≡ none
    nothing none e = refl
    nothing (some b) e = cc
