-- ===== src/Routing/Registry/Register.antt =====
-- What the registration of a definition answers: `register_schema_validated_definition` of
-- crates/xgeny-runtime/src/registry.rs.
use text.Mathlib.TextPositions.{eq_refl}
use xgeny_cli.Prelude.{
  ℕ, ◌<◌, ◌≤◌, Option, none, some, [], ◌∷◌, Bool, true, false, not, ◌&&◌, ◌||◌, ◌==◌, ltb, Result,
  ok, err, fault, ◌>>◌, reject_if, is_some, eq_iff, insert_ordered, if◌then◌else◌, ◌≡◌, ◌⊎◌, refl,
  sym, ap, subst, arith, inl, inr, Bool-cases, Fault, ◌≢◌,
}
use xgeny_cli.Domain.{api_version_v1alpha1}
use xgeny_cli.Domain.Capability.{CapabilityDefinitionBody}
use xgeny_cli.Routing.Registry.{
  DefinitionKey, key_eq, key_lt, from_definition, DefinitionMap, get_definition, insert_definition,
  CapabilityRegistry, RegistryError, validate_definition, register_definition,
}
use xgeny_cli.Routing.Registry.Bindings.{
  IsUsable, validate_definition-IsUsable, key_eq-eq, get_definition-skip,
}

key_eq_refl : (key : DefinitionKey) → key_eq key key ≡ true
key_eq_refl key = rw (eq_refl key.capability_id) (eq_refl key.contract_version)

-- A definition that is added at a free key is found there.
get_definition-added :
    (key : DefinitionKey) (added : CapabilityDefinitionBody) (definitions : DefinitionMap)
    → is_some (get_definition key definitions) ≡ false
    → get_definition key (insert_definition key added definitions) ≡ some added
unfolding get_definition insert_ordered
get_definition-added key added [] free = rw (key_eq_refl key) refl
get_definition-added key added ((k, d) ∷ definitions) free = elim (Bool-cases (key_eq k key)) [
  | inl same ↦ absurd (taken (key_eq k key) same free)
  | inr other ↦
      place (key_lt key k) (key_eq key k) refl other
        (get_definition-added key added definitions (skipped (key_eq k key) other free))
]
  where
    taken :
        (b : Bool)
        → b ≡ true
        → is_some (if b then some d else get_definition key definitions) ≡ false
        → ⊥
    taken true e h = cc
    taken false e h = cc

    skipped :
        (b : Bool)
        → b ≡ false
        → is_some (if b then some d else get_definition key definitions) ≡ false
        → is_some (get_definition key definitions) ≡ false
    skipped true e h = cc
    skipped false e h = h

    clash : (b : Bool) → b ≡ true → b ≡ false → ⊥
    clash b e e' = cc

    place :
        (below same : Bool)
        → key_eq key k ≡ same
        → key_eq k key ≡ false
        → get_definition key (insert_definition key added definitions) ≡ some added
        → get_definition key (
            if below
            then (key, added) ∷ (k, d) ∷ definitions
            else (if same
                then (k, d) ∷ definitions
                else (k, d) ∷ insert_definition key added definitions))
          ≡ some added
    place true same e other rest = rw (key_eq_refl key) refl
    place false true e other rest = absurd (
        clash (key_eq k key)
          (subst (λ x. key_eq k x ≡ true) (sym (key_eq-eq key k e)) (key_eq_refl k)) other)
    place false false e other rest = rw other rest

true-not : (b : Bool) → b ≡ true → not b ≡ false
true-not b h = ground arith

passes_if : {E : Type 0} (b : Bool) (e : E) → b ≡ false → reject_if b e ≡ ok tt
passes_if b e h = rw h refl

then_passes :
    {E A : Type 0} (b : Bool) (e : E) (rest : Result E A) {a : A}
    → b ≡ false
    → rest ≡ ok a
    → (reject_if b e >> rest) ≡ ok a
then_passes true e rest h k = cc
then_passes false e rest h k = k

IsUsable-validate_definition :
    (definition : CapabilityDefinitionBody)
    → IsUsable definition
    → validate_definition definition ≡ ok tt
unfolding validate_definition
IsUsable-validate_definition definition usable =
    then_passes _ _ _
      (true-not _ ((eq_iff definition.api_version api_version_v1alpha1).1 usable.version))
      (then_passes _ _ _ (in_order _ _ usable.default_timeout usable.max_timeout)
        (passes_if _ _ (covered _ _ usable.output)))
  where
    in_order : (d m : ℕ) → 0 < d → d ≤ m → ((d == 0) || ((m == 0) || ltb m d)) ≡ false
    in_order d m h k = ground arith

    covered : (a b : Bool) → (a ≡ true → b ≡ true) → (a && not b) ≡ false
    covered a b h = ground arith

validate_definition-fault :
    (definition : CapabilityDefinitionBody) (f : Fault) → validate_definition definition ≢ fault f
unfolding validate_definition
validate_definition-fault definition f h = ground arith

-- The registration of a definition: it is in the registry from now on, and the rest is as it was.
pub record Registers (registry : CapabilityRegistry) (definition : CapabilityDefinitionBody)
    (registry' : CapabilityRegistry) : Type 0 where
  pub there : get_definition (from_definition definition) registry'.definitions ≡ some definition
  pub others :
      (key : DefinitionKey)
      → key_eq (from_definition definition) key ≡ false
      → get_definition key registry'.definitions ≡ get_definition key registry.definitions
  pub instances : registry'.instances ≡ registry.instances

-- The key of a definition is not taken.
abbrev pub IsFree : CapabilityRegistry → CapabilityDefinitionBody → Type 0
IsFree registry definition = get_definition (from_definition definition) registry.definitions ≡ none

-- What a registration answers, by what the definition and the registry are.
abbrev pub Answers :
    CapabilityRegistry → CapabilityDefinitionBody → Result RegistryError CapabilityRegistry → Type 0
Answers registry definition answer =
    (IsUsable definition
      × IsFree registry definition
      × ((registry' : CapabilityRegistry) × (answer ≡ ok registry')
          × Registers registry definition registry'))
    ⊎ ((IsUsable definition
          × ¬ IsFree registry definition
          × (answer
              ≡ err (
                  RegistryError.duplicate_definition definition.metadata.id
                    definition.metadata.contract_version)))
        ⊎ (¬ IsUsable definition × ((error : RegistryError) × (answer ≡ err error))))

register_definition-checked :
    (registry : CapabilityRegistry) (definition : CapabilityDefinitionBody)
    → validate_definition definition ≡ ok tt
    → Answers registry definition (register_definition registry definition)
unfolding register_definition
register_definition-checked registry definition valid =
    rw valid (split (get_definition key registry.definitions) refl)
  where
    usable : IsUsable definition
    usable = validate_definition-IsUsable definition valid

    key : DefinitionKey
    key = from_definition definition

    registry' : CapabilityRegistry
    registry' = record {
      definitions = insert_definition key definition registry.definitions;
      instances = registry.instances;
    }

    split :
        (o : Option CapabilityDefinitionBody)
        → get_definition key registry.definitions ≡ o
        → Answers registry definition (
            reject_if
              (is_some (get_definition key registry.definitions))
              (RegistryError.duplicate_definition key.capability_id key.contract_version)
            >> ok registry')
    split none e =
        let free : is_some (get_definition key registry.definitions) ≡ false = ap is_some e in
        inl (
          usable,
          e,
          (
            registry',
            (rw free refl),
            record {
              there = get_definition-added key definition registry.definitions free;
              others = λ other apart.
                  get_definition-skip other key definition registry.definitions apart;
              instances = refl;
            },
          ),
        )
    split (some d) e = inr (inl (usable, (λ free. cc), (rw (ap is_some e) refl)))

register_definition-refused :
    (registry : CapabilityRegistry) (definition : CapabilityDefinitionBody) (error : RegistryError)
    → validate_definition definition ≡ err error
    → register_definition registry definition ≡ err error
unfolding register_definition
register_definition-refused registry definition error e = rw e refl

-- The registration of a definition has one of three answers. A usable definition whose key is free is
-- registered: it is found at its key, every other key keeps its definition, and the instances stay.
-- A usable definition whose key is taken is refused as a duplicate. Every other one is refused with
-- an error.
pub register_definition-Answers :
    (registry : CapabilityRegistry) (definition : CapabilityDefinitionBody)
    → Answers registry definition (register_definition registry definition)
register_definition-Answers registry definition = split (validate_definition definition) refl
  where
    apart :
        (error : RegistryError)
        → validate_definition definition ≡ err error
        → validate_definition definition ≡ ok tt
        → ⊥
    apart error e valid = cc

    split :
        (v : Result RegistryError (Unit {0}))
        → validate_definition definition ≡ v
        → Answers registry definition (register_definition registry definition)
    split (ok tt) e = register_definition-checked registry definition e
    split (err error) e = inr (
        inr (
          (λ usable. apart error e (IsUsable-validate_definition definition usable)),
          (error, register_definition-refused registry definition error e),
        ))
    split (fault f) e = absurd (validate_definition-fault definition f e)
