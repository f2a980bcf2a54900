-- ===== src/Policy/Request.antt =====
-- The resolved permission request: `ConcreteResource` and `ResolvedPermissionRequest` of
-- crates/xgeny-policy/src/resolution.rs, with the derived equality that the broker tests.
use xgeny_cli.Prelude.{
  String, List, Bool, ◌&&◌, ◌||◌, ◌≡◌, str_eq, eq_iff, list_eq, and_true, true, ap, ◌∙◌, text_lt,
}
use xgeny_cli.Domain.{
  CapabilityRef, capability_ref_eq, EffectClass, effect_class_eq, CriticalAction,
  critical_action_eq, GrantLifetime, lifetime_eq,
}

-- `ConcreteResource`
pub record ConcreteResource : Type 0 where
  pub scope : String
  pub canonical_resource : String

-- The derived `==` and `<` of `ConcreteResource`.
abbrev pub resource_eq : ConcreteResource → ConcreteResource → Bool
resource_eq a b = str_eq a.scope b.scope && str_eq a.canonical_resource b.canonical_resource

abbrev pub resource_lt : ConcreteResource → ConcreteResource → Bool
resource_lt a b =
    text_lt a.scope b.scope
    || (str_eq a.scope b.scope && text_lt a.canonical_resource b.canonical_resource)

pub resource_eq-eq : (a b : ConcreteResource) → resource_eq a b ≡ true → a ≡ b
resource_eq-eq a b h =
    let (scopes, resources) =
      and_true (str_eq a.scope b.scope) (str_eq a.canonical_resource b.canonical_resource) h in
    ap (λ s. build s a.canonical_resource) ((eq_iff a.scope b.scope).0 scopes)
    ∙ ap (build b.scope) ((eq_iff a.canonical_resource b.canonical_resource).0 resources)
  where
    build : String → String → ConcreteResource
    build s c = record { scope = s; canonical_resource = c }

-- `ResolvedPermissionRequest`
pub record ResolvedPermissionRequest : Type 0 where
  pub api_version : String
  pub request_id : String
  pub run_id : String
  pub step_id : String
  pub capability : CapabilityRef
  pub effect_class : EffectClass
  pub requested_scopes : List String
  pub resources : List ConcreteResource
  pub critical_actions : List CriticalAction
  pub requested_lifetime : GrantLifetime

-- `==` on `ResolvedPermissionRequest`
unfoldable pub request_eq : ResolvedPermissionRequest → ResolvedPermissionRequest → Bool
request_eq a b =
    str_eq a.api_version b.api_version
    && (str_eq a.request_id b.request_id
        && (str_eq a.run_id b.run_id
            && (str_eq a.step_id b.step_id
                && (capability_ref_eq a.capability b.capability
                    && (effect_class_eq a.effect_class b.effect_class
                        && (list_eq str_eq a.requested_scopes b.requested_scopes
                            && (list_eq resource_eq a.resources b.resources
                                && (list_eq critical_action_eq a.critical_actions b.critical_actions
                                    && lifetime_eq a.requested_lifetime b.requested_lifetime))))))))
