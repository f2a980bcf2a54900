-- ===== src/Policy/Resolution/Wire.antt =====
-- What `resolve_schema_validated` of crates/xgeny-policy/src/resolution.rs lets through.
use xgeny_cli.Prelude.{
  String, List, [], ◌∷◌, Bool, true, false, not, ◌||◌, ok, err, reject_if-eq-ok, >>=-eq-ok, map_err,
  map_err-eq-ok, ok_injective, Option, fold, fold_inv-All, fold-All_kept, find, has, is_empty,
  str_eq, eq_iff, StringSet, contains, set_insert, contains-set_insert, text_is_empty,
  insert_ordered, All-insert_ordered, member-insert_ordered, insert_ordered-member, All, All-map,
  All-itself, Memᴰ, find-none, not-false, any_adjacent, ◌≡◌, refl, sym, ap, ◌∙◌, subst, arith, ◌⊎◌,
  inl, inr, some, none,
}
use xgeny_cli.Domain.{
  api_version_v1alpha1, critical_action_eq, ResolvedResource, PermissionRequestBody,
}
use xgeny_cli.Policy.Request.{
  ConcreteResource, resource_eq, resource_lt, resource_eq-eq, ResolvedPermissionRequest,
}
use xgeny_cli.Policy.Resolution.{
  ResourceResolver, RequestResolutionError, add_scope, add_resource, check_represented,
  resolve_schema_validated, failure_code,
}

-- The concrete resource is what the resolver answered for the wire resource.
pub record Resolves (resolver : ResourceResolver) (wire : ResolvedResource)
    (resource : ConcreteResource) : Type 0 where
  pub same_scope : resource.scope ≡ wire.scope
  pub canonical : resolver.resolve wire.scope wire.resource ≡ ok resource.canonical_resource
  pub nonempty : text_is_empty resource.canonical_resource ≡ false

or_true : (a b : Bool) → (a || b) ≡ true → (a ≡ true) ⊎ (b ≡ true)
or_true true b h = inl refl
or_true false b h = inr h

swap_or : (a b c : Bool) → (a || (b || c)) ≡ ((b || a) || c)
swap_or a b c = ground arith

module _ (resolver : ResourceResolver) where
  -- What `add_resource` does with a wire resource that it accepts.
  record Adds (requested : StringSet) (state state' : List ConcreteResource × StringSet)
      (wire : ResolvedResource) : Type 0 where
    resource : ConcreteResource
    resolves : Resolves resolver wire resource
    requested_scope : contains wire.scope requested ≡ true
    resources : state'.0 ≡ insert_ordered resource_lt resource_eq resource state.0
    represented : state'.1 ≡ set_insert wire.scope state.1

  add_resource-Adds :
      (requested : StringSet) (state : List ConcreteResource × StringSet) (wire : ResolvedResource)
      (state' : List ConcreteResource × StringSet)
      → add_resource resolver requested state wire ≡ ok state'
      → Adds requested state state' wire
  unfolding add_resource
  add_resource-Adds requested (concrete_resources, scopes) wire state' h =
      let (_, h1) = reject_if-eq-ok (not wire.normalized) _ _ h in
      let (known, h2) = reject_if-eq-ok (not (contains wire.scope requested)) _ _ h1 in
      let (_, h3) = reject_if-eq-ok (text_is_empty wire.resource) _ _ h2 in
      let (canonical, answer, h4) =
        >>=-eq-ok
          (map_err
            (λ error. RequestResolutionError.resolver_rejected wire.scope (failure_code error))
            (resolver.resolve wire.scope wire.resource))
          _ h3 in
      let (nonempty, h5) = reject_if-eq-ok (text_is_empty canonical) _ _ h4 in
      let concrete : ConcreteResource = record {
        scope = wire.scope;
        canonical_resource = canonical;
      } in
      let (_, last) = reject_if-eq-ok (has resource_eq concrete concrete_resources) _ _ h5 in
      record {
        resource = concrete;
        resolves = record {
          same_scope = refl;
          canonical = map_err-eq-ok _ (resolver.resolve wire.scope wire.resource) answer;
          nonempty = nonempty;
        };
        requested_scope = not-false (contains wire.scope requested) known;
        resources = sym (ap (λ s. s.0) (ok_injective last));
        represented = sym (ap (λ s. s.1) (ok_injective last));
      }

  -- A resource of the resolved request: one of the wire request's, in a scope that it asks for.
  abbrev Granted : StringSet → List ResolvedResource → ConcreteResource → Type 0
  Granted requested wires resource =
      (wire : ResolvedResource) × Memᴰ wire wires
      × (contains resource.scope requested ≡ true)
      × Resolves resolver wire resource

  -- A scope has a resource.
  abbrev Represented : List ConcreteResource → String → Type 0
  Represented resources scope =
      (resource : ConcreteResource) × Memᴰ resource resources × (resource.scope ≡ scope)

  record Collected (requested : StringSet) (wires : List ResolvedResource)
      (state : List ConcreteResource × StringSet) : Type 0 where
    granted : All (Granted requested wires) state.0
    scopes : (scope : String) → contains scope state.1 ≡ true → Represented state.0 scope

  add_resource-Collected :
      (requested : StringSet) (wires : List ResolvedResource)
      (state : List ConcreteResource × StringSet) (wire : ResolvedResource)
      (state' : List ConcreteResource × StringSet)
      → Collected requested wires state
      → Memᴰ wire wires
      → add_resource resolver requested state wire ≡ ok state'
      → Collected requested wires state'
  add_resource-Collected requested wires state wire state' collected member h = record {
    granted = subst (All (Granted requested wires)) (sym adds.resources) (
        All-insert_ordered (Granted requested wires) resource_lt resource_eq adds.resource state.0
          (
            wire,
            member,
            subst (λ s. contains s requested ≡ true) (sym adds.resolves.same_scope)
                adds.requested_scope,
            adds.resolves,
          )
          collected.granted);
    scopes = λ scope c.
        subst (λ rs. Represented rs scope) (sym adds.resources)
          (represent scope (
            or_true (str_eq wire.scope scope) (contains scope state.1) (
              sym (contains-set_insert wire.scope scope state.1)
              ∙ subst (λ s. contains scope s ≡ true) adds.represented c)));
  }
    where
      adds : Adds requested state state' wire
      adds = add_resource-Adds requested state wire state' h

      represent :
          (scope : String)
          → (str_eq wire.scope scope ≡ true) ⊎ (contains scope state.1 ≡ true)
          → Represented (insert_ordered resource_lt resource_eq adds.resource state.0) scope
      represent scope (inl same) = (
        adds.resource,
        insert_ordered-member resource_lt resource_eq resource_eq-eq adds.resource state.0,
        adds.resolves.same_scope ∙ (eq_iff wire.scope scope).0 same,
      )
      represent scope (inr old) =
          let (resource, m, s) = collected.scopes scope old in
          (
            resource,
            member-insert_ordered resource_lt resource_eq adds.resource state.0 resource m,
            s,
          )

  -- A wire resource is among the resolved ones.
  abbrev Kept : List ConcreteResource → ResolvedResource → Type 0
  Kept resources wire =
      (resource : ConcreteResource) × Memᴰ resource resources × Resolves resolver wire resource

  add_resource-Kept :
      (requested : StringSet) (state : List ConcreteResource × StringSet) (wire : ResolvedResource)
      (state' : List ConcreteResource × StringSet)
      → add_resource resolver requested state wire ≡ ok state'
      → Kept state'.0 wire
  add_resource-Kept requested state wire state' h =
      let adds = add_resource-Adds requested state wire state' h in
      (
        adds.resource,
        subst (Memᴰ adds.resource) (sym adds.resources)
            (insert_ordered-member resource_lt resource_eq resource_eq-eq adds.resource state.0),
        adds.resolves,
      )

  add_resource-keeps :
      (requested : StringSet) (state : List ConcreteResource × StringSet)
      (wire old : ResolvedResource) (state' : List ConcreteResource × StringSet)
      → Kept state.0 old
      → add_resource resolver requested state wire ≡ ok state'
      → Kept state'.0 old
  add_resource-keeps requested state wire old state' (resource, m, r) h =
      let adds = add_resource-Adds requested state wire state' h in
      (
        resource,
        subst (Memᴰ resource) (sym adds.resources)
            (member-insert_ordered resource_lt resource_eq adds.resource state.0 resource m),
        r,
      )

  -- The scopes of the request, in order.
  add_scopes-contains :
      (scope : String) (scopes : StringSet) (texts : List String) (scopes' : StringSet)
      → fold add_scope scopes texts ≡ ok scopes'
      → contains scope scopes' ≡ (contains scope texts || contains scope scopes)
  unfolding fold add_scope contains
  add_scopes-contains scope scopes [] scopes' h = ap (contains scope) (sym (ok_injective h))
  add_scopes-contains scope scopes (text ∷ texts) scopes' h =
      let (_, h1, rest) = >>=-eq-ok (add_scope scopes text) _ h in
      let (_, h2) = reject_if-eq-ok (text_is_empty text) _ _ h1 in
      let (_, last) = reject_if-eq-ok (contains text scopes) _ _ h2 in
      let rest' : fold add_scope (set_insert text scopes) texts ≡ ok scopes' =
        subst (λ s. fold add_scope s texts ≡ ok scopes') (sym (ok_injective last)) rest in
      add_scopes-contains scope (set_insert text scopes) texts scopes' rest'
      ∙ ap (λ b. contains scope texts || b) (contains-set_insert text scope scopes)
      ∙ swap_or (contains scope texts) (str_eq text scope) (contains scope scopes)

  check_represented-All :
      (requested represented : StringSet)
      → check_represented requested represented ≡ ok tt
      → All (λ scope. contains scope represented ≡ true) requested
  unfolding check_represented
  check_represented-All requested represented h = split _ refl h
    where
      missing : String → Bool
      missing scope = not (contains scope represented)

      split :
          (o : Option String)
          → find missing requested ≡ o
          → (elim o [
            | none ↦ ok tt
            | some scope ↦ err (RequestResolutionError.missing_resource_for_scope scope)
          ])
            ≡ ok tt
          → All (λ scope. contains scope represented ≡ true) requested
      split none e r =
          All-map (λ scope. missing scope ≡ false) (λ scope. contains scope represented ≡ true)
            (λ scope. not-false (contains scope represented)) requested
            (find-none missing requested e)
      split (some scope) e r = cc

  contains-nil : (scope : String) → contains scope [] ≡ true → ⊥
  unfolding contains
  contains-nil scope c = cc

-- What `resolve_schema_validated` promises of its result.
pub record IsResolved (resolver : ResourceResolver) (request : PermissionRequestBody)
    (resolved : ResolvedPermissionRequest) : Type 0 where
  pub scopes :
      (scope : String)
      → contains scope resolved.requested_scopes ≡ contains scope request.requested_scopes
  pub granted :
      All (Granted resolver resolved.requested_scopes request.resolved_resources) resolved.resources
  pub kept : All (Kept resolver resolved.resources) request.resolved_resources
  pub represented : All (Represented resolver resolved.resources) resolved.requested_scopes

or_nothing : (b : Bool) → (b || false) ≡ b
or_nothing b = ground arith

-- A permission request that comes through from the wire asks for exactly its scopes; each of its
-- resources is what the resolver answered for one of the wire resources, is not empty and stands in a
-- requested scope; no wire resource is lost; and each requested scope has a resource.
pub resolve_schema_validated-IsResolved :
    (resolver : ResourceResolver) (request : PermissionRequestBody)
    (resolved : ResolvedPermissionRequest)
    → resolve_schema_validated resolver request ≡ ok resolved
    → IsResolved resolver request resolved
unfolding resolve_schema_validated contains
resolve_schema_validated-IsResolved resolver request resolved h =
    let (_, h1) = reject_if-eq-ok (not (str_eq request.api_version api_version_v1alpha1)) _ _ h in
    let (_, h2) = reject_if-eq-ok (not (is_empty request.required_extensions)) _ _ h1 in
    let (_, h3) = reject_if-eq-ok (is_empty request.requested_scopes) _ _ h2 in
    let (scopes, added, h4) = >>=-eq-ok (fold add_scope [] request.requested_scopes) _ h3 in
    let (_, h5) = reject_if-eq-ok (is_empty request.resolved_resources) _ _ h4 in
    let ((resources, represented), looped, h6) =
      >>=-eq-ok (fold (add_resource resolver scopes) ([], []) request.resolved_resources) _ h5 in
    let (_, checked, h7) = >>=-eq-ok (check_represented scopes represented) _ h6 in
    let (_, last) = reject_if-eq-ok (any_adjacent critical_action_eq _) _ _ h7 in
    let collected =
      fold_inv-All (Collected resolver scopes request.resolved_resources)
        (λ wire. Memᴰ wire request.resolved_resources) (add_resource resolver scopes)
        (add_resource-Collected resolver scopes request.resolved_resources) ([], [])
        request.resolved_resources (resources, represented)
        (record { granted = tt; scopes = λ scope c. absurd (contains-nil resolver scope c) })
        (All-itself request.resolved_resources) looped in
    subst (IsResolved resolver request) (ok_injective last) (record {
      scopes = λ scope.
          add_scopes-contains resolver scope [] request.requested_scopes scopes added
          ∙ or_nothing (contains scope request.requested_scopes);
      granted = collected.granted;
      kept =
          fold-All_kept (λ state. Kept resolver state.0) (add_resource resolver scopes)
            (add_resource-Kept resolver scopes) (add_resource-keeps resolver scopes) ([], [])
            request.resolved_resources (resources, represented) looped;
      represented =
          All-map (λ scope. contains scope represented ≡ true) (Represented resolver resources)
            collected.scopes scopes (check_represented-All resolver scopes represented checked);
    })
