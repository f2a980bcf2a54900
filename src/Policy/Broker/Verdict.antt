-- ===== src/Policy/Broker/Verdict.antt =====
-- An independent description of what the layers of a policy stack decide, for `evaluate` of
-- crates/xgeny-policy/src/broker.rs.
use xgeny_cli.Prelude.{List, All, ◌≡◌, true, has, str_eq}
use xgeny_cli.Domain.{PolicySourceKind, critical_action_eq, lifetime_eq}
use xgeny_cli.Policy.Request.{ResolvedPermissionRequest, resource_eq}
use xgeny_cli.Policy.Broker.{PolicyAllowance, ContributionVerdict, PolicyContribution}

-- The allowance covers every part of the request.
pub record Covers (allowance : PolicyAllowance) (request : ResolvedPermissionRequest) : Type 0 where
  pub scopes : All (λ s. has str_eq s allowance.scopes ≡ true) request.requested_scopes
  pub resources : All (λ r. has resource_eq r allowance.resources ≡ true) request.resources
  pub actions :
      All (λ a. has critical_action_eq a allowance.critical_actions ≡ true) request.critical_actions
  pub lifetime : has lifetime_eq request.requested_lifetime allowance.lifetimes ≡ true

-- A layer does not stand against the request: it asks, or what it allows covers the request.
abbrev pub Tolerates : ResolvedPermissionRequest → ContributionVerdict → Type 0
Tolerates request (ContributionVerdict.allow allowance) = Covers allowance request
Tolerates request (ContributionVerdict.ask reason) = Unit
Tolerates request (ContributionVerdict.deny reason) = ⊥

-- A layer allows the request.
abbrev pub Permits : ResolvedPermissionRequest → ContributionVerdict → Type 0
Permits request (ContributionVerdict.allow allowance) = Covers allowance request
Permits request (ContributionVerdict.ask reason) = ⊥
Permits request (ContributionVerdict.deny reason) = ⊥

abbrev pub AllTolerate :
    ResolvedPermissionRequest → List (PolicySourceKind × PolicyContribution) → Type 0
AllTolerate request layers = All (λ l. Tolerates request l.1.verdict) layers

abbrev pub AllPermit :
    ResolvedPermissionRequest → List (PolicySourceKind × PolicyContribution) → Type 0
AllPermit request layers = All (λ l. Permits request l.1.verdict) layers
