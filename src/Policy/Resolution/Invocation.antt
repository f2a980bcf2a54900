-- ===== src/Policy/Resolution/Invocation.antt =====
-- Where the resources of an invocation come from: `resolve_invocation` of
-- crates/xgeny-policy/src/resolution.rs.
use xgeny_cli.Prelude.{
  All-insert, ◌∷◌, String, Option, some, none, List, [], false, not, ok, reject_if, reject_if-eq-ok,
  reject_if-ok, >>=-eq-ok, map_err, map_err-eq-ok, ok_or, ok_or-eq-ok, ok_injective, fold,
  fold_inv-All, fold-All_kept, has, str_eq, eq_iff, StringMap, lookup, insert, lookup-insert,
  text_is_empty, insert_ordered, All-insert_ordered, member-insert_ordered, insert_ordered-member,
  sort_by, All-sort_by, sort_by-All, All, All-itself, Memᴰ, not-false, ◌≡◌, refl, sym, ap, ◌∙◌,
  subst, inl, inr, Bool-cases, some_injective,
}
use xgeny_cli.Domain.{GrantLifetime}
use xgeny_cli.Domain.Capability.{ResourceSelector, CapabilityDefinitionBody}
use xgeny_cli.Policy.Request.{
  ConcreteResource, resource_eq, resource_lt, resource_eq-eq, ResolvedPermissionRequest,
}
use xgeny_cli.Policy.Resolution.{
  ResourceResolver, JsonValue, InvocationResolutionError, Derived, failure_code, selector_le,
  resolve_selected_resource, check_pointer, derive_resource, normalize_argument,
  normalize_resource_arguments, derive_invocation_resources, validate_derived_request_shape,
  normalized_critical_actions, resolve_invocation,
}

-- The texts of a map are written one after the other, each at its pointer, and nothing else is.
pub data Writes {Value : Type 0} (json : JsonValue Value)
    : Value → StringMap String → Value → Type 0 where
  done : {value : Value} → Writes json value [] value
  write :
      {value between end : Value} {pointer text : String} {texts : StringMap String}
      → json.set_text value pointer text ≡ some between
      → Writes json between texts end
      → Writes json value ((pointer, text) ∷ texts) end

-- A pointer that is resolved again has the same canonical text.
kept_pointer :
    (pointer old canonical text : String) (by_pointer : StringMap String)
    → lookup old by_pointer ≡ some text
    → check_pointer by_pointer pointer canonical ≡ ok tt
    → lookup old (insert pointer canonical by_pointer) ≡ some text
unfolding check_pointer
kept_pointer pointer old canonical text by_pointer found agrees =
    elim (Bool-cases (str_eq pointer old)) [
      | inl same ↦
          lookup-insert pointer old canonical by_pointer
          ∙ (rw same (
              ap some (
                agree (lookup pointer by_pointer)
                  (ap (λ k. lookup k by_pointer) ((eq_iff pointer old).0 same) ∙ found) agrees)))
      | inr other ↦ lookup-insert pointer old canonical by_pointer ∙ (rw other found)
    ]
  where
    agree :
        (o : Option String)
        → o ≡ some text
        → (elim o [
          | none ↦ ok tt
          | some existing ↦
              reject_if
                (not (str_eq existing canonical))
                (InvocationResolutionError.conflicting_pointer_canonicalization pointer)
        ])
          ≡ ok tt
        → canonical ≡ text
    agree none e r = cc
    agree (some existing) e r =
        sym (
          (eq_iff existing canonical).0 (
            not-false (str_eq existing canonical)
              (reject_if-ok (not (str_eq existing canonical)) _ r)))
        ∙ some_injective e

module _ (resolver : ResourceResolver) {Value : Type 0} (json : JsonValue Value) where
  -- The resource is the resolver's answer for the text that the selector points at.
  pub record Selects (arguments : Value) (selector : ResourceSelector) (resource : ConcreteResource)
      : Type 0 where
    pub value : Value
    pub raw : String
    pub pointed : json.pointer arguments selector.argument_pointer ≡ some value
    pub text : json.as_str value ≡ some raw
    pub given : text_is_empty raw ≡ false
    pub same_scope : resource.scope ≡ selector.scope
    pub canonical : resolver.resolve selector.scope raw ≡ ok resource.canonical_resource
    pub nonempty : text_is_empty resource.canonical_resource ≡ false

  resolve_selected_resource-Selects :
      (arguments : Value) (selector : ResourceSelector) (canonical : String)
      → resolve_selected_resource resolver json arguments selector ≡ ok canonical
      → Selects arguments selector
          (record { scope = selector.scope; canonical_resource = canonical })
  unfolding resolve_selected_resource
  resolve_selected_resource-Selects arguments selector canonical h =
      let (value, pointed, h1) =
        >>=-eq-ok
          (ok_or (json.pointer arguments selector.argument_pointer) (
            InvocationResolutionError.missing_resource_argument selector.scope
              selector.argument_pointer))
          _ h in
      let (raw, text, h2) =
        >>=-eq-ok
          (ok_or (json.as_str value) (
            InvocationResolutionError.resource_argument_must_be_string selector.scope
              selector.argument_pointer))
          _ h1 in
      let (given, h3) = reject_if-eq-ok (text_is_empty raw) _ _ h2 in
      let (answer, answered, h4) =
        >>=-eq-ok
          (map_err
            (λ error.
              InvocationResolutionError.resolver_rejected selector.scope (failure_code error))
            (resolver.resolve selector.scope raw))
          _ h3 in
      let (nonempty, last) = reject_if-eq-ok (text_is_empty answer) _ _ h4 in
      record {
        value = value;
        raw = raw;
        pointed = ok_or-eq-ok (json.pointer arguments selector.argument_pointer) _ pointed;
        text = ok_or-eq-ok (json.as_str value) _ text;
        given = given;
        same_scope = refl;
        canonical =
            map_err-eq-ok _ (resolver.resolve selector.scope raw) answered
            ∙ ap ok (ok_injective last);
        nonempty = subst (λ c. text_is_empty c ≡ false) (ok_injective last) nonempty;
      }

  -- What `derive_resource` does with a selector that it accepts.
  record Collects (arguments : Value) (derived derived' : Derived) (selector : ResourceSelector)
      : Type 0 where
    resource : ConcreteResource
    selects : Selects arguments selector resource
    agrees :
        check_pointer derived.canonical_by_pointer selector.argument_pointer
          resource.canonical_resource
        ≡ ok tt
    pointers :
        derived'.canonical_by_pointer
        ≡ insert selector.argument_pointer resource.canonical_resource derived.canonical_by_pointer
    resources :
        derived'.resources ≡ insert_ordered resource_lt resource_eq resource derived.resources

  derive_resource-Collects :
      (arguments : Value) (derived : Derived) (selector : ResourceSelector) (derived' : Derived)
      → derive_resource resolver json arguments derived selector ≡ ok derived'
      → Collects arguments derived derived' selector
  unfolding derive_resource
  derive_resource-Collects arguments derived selector derived' h =
      let (canonical, resolved, h1) =
        >>=-eq-ok (resolve_selected_resource resolver json arguments selector) _ h in
      let (_, agrees, h2) =
        >>=-eq-ok (check_pointer derived.canonical_by_pointer selector.argument_pointer canonical) _
          h1 in
      let resource : ConcreteResource = record {
        scope = selector.scope;
        canonical_resource = canonical;
      } in
      let (_, last) = reject_if-eq-ok (has resource_eq resource derived.resources) _ _ h2 in
      record {
        resource = resource;
        selects = resolve_selected_resource-Selects arguments selector canonical resolved;
        agrees = agrees;
        pointers = sym (ap (λ d. d.canonical_by_pointer) (ok_injective last));
        resources = sym (ap (λ d. d.resources) (ok_injective last));
      }

  -- A resource of the request: one that a selector of the definition selects.
  abbrev pub Selected : Value → List ResourceSelector → ConcreteResource → Type 0
  Selected arguments selectors resource =
      (selector : ResourceSelector) × Memᴰ selector selectors × Selects arguments selector resource

  derive_resource-Selected :
      (arguments : Value) (selectors : List ResourceSelector) (derived : Derived)
      (selector : ResourceSelector) (derived' : Derived)
      → All (Selected arguments selectors) derived.resources
      → Memᴰ selector selectors
      → derive_resource resolver json arguments derived selector ≡ ok derived'
      → All (Selected arguments selectors) derived'.resources
  derive_resource-Selected arguments selectors derived selector derived' all m h =
      let collects = derive_resource-Collects arguments derived selector derived' h in
      subst (All (Selected arguments selectors)) (sym collects.resources) (
        All-insert_ordered (Selected arguments selectors) resource_lt resource_eq collects.resource
          derived.resources (selector, m, collects.selects) all)

  -- A selector has its resource, and its pointer has the canonical text that replaces the argument.
  pub record Resolved (arguments : Value) (canonical_by_pointer : StringMap String)
      (resources : List ConcreteResource) (selector : ResourceSelector) : Type 0 where
    pub resource : ConcreteResource
    pub member : Memᴰ resource resources
    pub selects : Selects arguments selector resource
    pub normalizes :
        lookup selector.argument_pointer canonical_by_pointer ≡ some resource.canonical_resource

  abbrev IsDerived : Value → Derived → ResourceSelector → Type 0
  IsDerived arguments derived = Resolved arguments derived.canonical_by_pointer derived.resources

  derive_resource-IsDerived :
      (arguments : Value) (derived : Derived) (selector : ResourceSelector) (derived' : Derived)
      → derive_resource resolver json arguments derived selector ≡ ok derived'
      → IsDerived arguments derived' selector
  derive_resource-IsDerived arguments derived selector derived' h =
      let collects = derive_resource-Collects arguments derived selector derived' h in
      let pointer = selector.argument_pointer in
      record {
        resource = collects.resource;
        member = subst (Memᴰ collects.resource) (sym collects.resources) (
            insert_ordered-member resource_lt resource_eq resource_eq-eq collects.resource
              derived.resources);
        selects = collects.selects;
        normalizes =
            ap (lookup pointer) collects.pointers
            ∙ inserted pointer collects.resource.canonical_resource derived.canonical_by_pointer;
      }
    where
      inserted : (k v : String) (m : StringMap String) → lookup k (insert k v m) ≡ some v
      inserted k v m = lookup-insert k k v m ∙ (rw ((eq_iff k k).1 refl) refl)

  derive_resource-keeps :
      (arguments : Value) (derived : Derived) (selector old : ResourceSelector) (derived' : Derived)
      → IsDerived arguments derived old
      → derive_resource resolver json arguments derived selector ≡ ok derived'
      → IsDerived arguments derived' old
  derive_resource-keeps arguments derived selector old derived' is_derived h =
      let collects = derive_resource-Collects arguments derived selector derived' h in
      record {
        resource = is_derived.resource;
        member = subst (Memᴰ is_derived.resource) (sym collects.resources) (
            member-insert_ordered resource_lt resource_eq collects.resource derived.resources
              is_derived.resource is_derived.member);
        selects = is_derived.selects;
        normalizes =
            ap (lookup old.argument_pointer) collects.pointers
            ∙ kept_pointer selector.argument_pointer old.argument_pointer
                collects.resource.canonical_resource is_derived.resource.canonical_resource
                derived.canonical_by_pointer is_derived.normalizes collects.agrees;
      }

  -- A text that is written: the canonical text of the resource of a selector with that pointer.
  abbrev pub IsWritten : Value → List ResourceSelector → String × String → Type 0
  IsWritten arguments selectors entry =
      (selector : ResourceSelector) × (resource : ConcreteResource) × Memᴰ selector selectors
      × (selector.argument_pointer ≡ entry.0)
      × Selects arguments selector resource
      × (resource.canonical_resource ≡ entry.1)

  derive_resource-IsWritten :
      (arguments : Value) (selectors : List ResourceSelector) (derived : Derived)
      (selector : ResourceSelector) (derived' : Derived)
      → All (IsWritten arguments selectors) derived.canonical_by_pointer
      → Memᴰ selector selectors
      → derive_resource resolver json arguments derived selector ≡ ok derived'
      → All (IsWritten arguments selectors) derived'.canonical_by_pointer
  derive_resource-IsWritten arguments selectors derived selector derived' all m h =
      let collects = derive_resource-Collects arguments derived selector derived' h in
      subst (All (IsWritten arguments selectors)) (sym collects.pointers) (
        All-insert (IsWritten arguments selectors) selector.argument_pointer
          collects.resource.canonical_resource derived.canonical_by_pointer
          (selector, collects.resource, m, refl, collects.selects, refl) all)

  normalize_resource_arguments-Writes :
      (arguments : Value) (texts : StringMap String) (end : Value)
      → normalize_resource_arguments resolver json arguments texts ≡ ok end
      → Writes json arguments texts end
  unfolding normalize_resource_arguments normalize_argument fold
  normalize_resource_arguments-Writes arguments [] end h =
      subst (Writes json arguments []) (ok_injective h) Writes.done
  normalize_resource_arguments-Writes arguments ((pointer, text) ∷ texts) end h =
      let (between, written, rest) =
        >>=-eq-ok
          (ok_or (json.set_text arguments pointer text)
            (InvocationResolutionError.normalization_target_lost pointer))
          _ h in
      Writes.write (ok_or-eq-ok (json.set_text arguments pointer text) _ written)
        (normalize_resource_arguments-Writes between texts end rest)

  -- Each resource of the request that an invocation resolves to is the resolver's answer for the text
  -- that a selector of the definition points at, and is not empty; and each selector of the
  -- definition has its resource there. The arguments that come out are those that went in after
  -- canonical texts have been written at pointers, one after the other: at the pointer of every
  -- selector the canonical text of its resource, and at no other pointer anything.
  pub resolve_invocation-Resolved :
      (request_id run_id step_id : String) (definition : CapabilityDefinitionBody)
      (arguments : Value) (requested_lifetime : GrantLifetime) (request : ResolvedPermissionRequest)
      (normalized_arguments : Value)
      → resolve_invocation resolver json request_id run_id step_id definition arguments
          requested_lifetime
        ≡ ok (request, normalized_arguments)
      → All (Selected arguments definition.spec.effect.resource_selectors) request.resources
        × ((texts : StringMap String) × All
              (Resolved arguments texts request.resources)
              definition.spec.effect.resource_selectors
            × All (IsWritten arguments definition.spec.effect.resource_selectors) texts
            × Writes json arguments texts normalized_arguments)
  unfolding resolve_invocation derive_invocation_resources
  resolve_invocation-Resolved request_id run_id step_id definition arguments requested_lifetime
        request normalized_arguments h =
      let selectors = definition.spec.effect.resource_selectors in
      let (_, _, h1) =
        >>=-eq-ok (validate_derived_request_shape request_id run_id step_id definition) _ h in
      let ((derived, normalized), resolved, h2) =
        >>=-eq-ok (derive_invocation_resources resolver json definition arguments) _ h1 in
      let (critical_actions, _, last) = >>=-eq-ok (normalized_critical_actions definition) _ h2 in
      let (derived', looped, h3) =
        >>=-eq-ok
          (fold (derive_resource resolver json arguments) nothing (sort_by selector_le selectors)) _
          resolved in
      let (normalized', written, same) =
        >>=-eq-ok
          (normalize_resource_arguments resolver json arguments derived'.canonical_by_pointer) _
          h3 in
      let same_resources : derived'.resources ≡ request.resources =
        ap (λ d. d.0.resources) (ok_injective same) ∙ ap (λ r. r.0.resources) (ok_injective last) in
      (
        subst (All (Selected arguments selectors)) same_resources (
            fold_inv-All (λ d. All (Selected arguments selectors) d.resources)
              (λ s. Memᴰ s selectors) (derive_resource resolver json arguments)
              (derive_resource-Selected arguments selectors) nothing (sort_by selector_le selectors)
              derived' tt
              (All-sort_by (λ s. Memᴰ s selectors) selector_le selectors (All-itself selectors))
              looped),
        (
          derived'.canonical_by_pointer,
          subst (λ rs. All (Resolved arguments derived'.canonical_by_pointer rs) selectors)
              same_resources
              (sort_by-All (IsDerived arguments derived') selector_le selectors (
                fold-All_kept (IsDerived arguments) (derive_resource resolver json arguments)
                  (derive_resource-IsDerived arguments) (derive_resource-keeps arguments) nothing
                  (sort_by selector_le selectors) derived' looped)),
          fold_inv-All (λ d. All (IsWritten arguments selectors) d.canonical_by_pointer)
              (λ s. Memᴰ s selectors) (derive_resource resolver json arguments)
              (derive_resource-IsWritten arguments selectors) nothing
              (sort_by selector_le selectors) derived' tt
              (All-sort_by (λ s. Memᴰ s selectors) selector_le selectors (All-itself selectors))
              looped,
          subst (Writes json arguments derived'.canonical_by_pointer)
              (ap (λ d. d.1) (ok_injective same) ∙ ap (λ r. r.1) (ok_injective last))
              (normalize_resource_arguments-Writes arguments derived'.canonical_by_pointer
                normalized' written),
        ),
      )
    where
      nothing : Derived
      nothing = record { canonical_by_pointer = []; requested_scopes = []; resources = [] }
