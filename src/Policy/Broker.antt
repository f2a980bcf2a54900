-- ===== src/Policy/Broker.antt =====
-- The permission broker: crates/xgeny-policy/src/broker.rs.
pub mod Verdict
pub mod Precedence
pub mod Decision
use xgeny_cli.Prelude.{
  ℕ, String, Option, none, some, List, [], ◌∷◌, ◌++◌, map, Bool, true, false, not, ◌&&◌, ◌||◌, ◌==◌,
  ltb, leb, Result, ok, err, ◌>>=◌, ◌>>◌, reject_if, fold, any, has, is_empty, str_eq, sort_by,
  dedup, chars_count, text_len, text_is_empty, any_char, is_control, head_and_rest,
  is_ascii_lowercase, is_ascii_digit, if◌then◌else◌,
}
use xgeny_cli.Domain.{
  CriticalAction, critical_action_rank, critical_action_eq, GrantLifetime, lifetime_rank,
  lifetime_eq, PolicySourceKind, source_kind_eq, PolicySource,
}
use xgeny_cli.WorkGraph.Digest.{is_sha256_digest}
use xgeny_cli.Policy.Request.{ConcreteResource, resource_eq, ResolvedPermissionRequest, request_eq}

-- `PolicyAllowance`; its sets are lists of their members.
pub record PolicyAllowance : Type 0 where
  pub scopes : List String
  pub resources : List ConcreteResource
  pub critical_actions : List CriticalAction
  pub lifetimes : List GrantLifetime

-- `PolicyAllowance::from_trusted_evaluation`; only membership in the two sets is ever read.
unfoldable pub from_trusted_evaluation :
    List String → List ConcreteResource → List CriticalAction → List GrantLifetime → PolicyAllowance
from_trusted_evaluation scopes resources critical_actions lifetimes = record {
  scopes = scopes;
  resources = resources;
  critical_actions =
      dedup critical_action_eq
        (sort_by (λ a b. leb (critical_action_rank a) (critical_action_rank b)) critical_actions);
  lifetimes =
      dedup lifetime_eq (sort_by (λ a b. leb (lifetime_rank a) (lifetime_rank b)) lifetimes);
}

-- `ContributionVerdict`
pub data ContributionVerdict : Type 0 where
  allow : PolicyAllowance → ContributionVerdict
  ask : String → ContributionVerdict
  deny : String → ContributionVerdict

-- `PolicyContribution`
pub record PolicyContribution : Type 0 where
  pub source : PolicySource
  pub verdict : ContributionVerdict

-- `PolicyLayers`: the host's, the user profile's and the managed lease's.
pub data PolicyLayers : Type 0 where
  local_stack : PolicyContribution → PolicyContribution → PolicyLayers
  managed_stack : PolicyContribution → PolicyContribution → PolicyContribution → PolicyLayers

-- `PolicyInputs`
pub record PolicyInputs : Type 0 where
  pub request : ResolvedPermissionRequest
  pub layers : PolicyLayers

-- `PolicyInputs::local`
abbrev pub local_inputs :
    ResolvedPermissionRequest → PolicyContribution → PolicyContribution → PolicyInputs
local_inputs request host user_profile = record {
  request = request;
  layers = PolicyLayers.local_stack host user_profile;
}

-- `PolicyInputs::managed`
abbrev pub managed_inputs :
    ResolvedPermissionRequest
    → PolicyContribution
    → PolicyContribution
    → PolicyContribution
    → PolicyInputs
managed_inputs request host user_profile managed_lease = record {
  request = request;
  layers = PolicyLayers.managed_stack host user_profile managed_lease;
}

-- `PolicyInputs::ordered`
unfoldable pub ordered : PolicyLayers → List (PolicySourceKind × PolicyContribution)
ordered (PolicyLayers.local_stack host user_profile) =
    (PolicySourceKind.host, host) ∷ (PolicySourceKind.user_profile, user_profile) ∷ []
ordered (PolicyLayers.managed_stack host user_profile managed_lease) =
    (PolicySourceKind.host, host)
    ∷ (PolicySourceKind.user_profile, user_profile)
    ∷ (PolicySourceKind.managed_lease, managed_lease)
    ∷ []

-- `PolicyReason`
pub record PolicyReason : Type 0 where
  pub source : Option PolicySourceKind
  pub reason_code : String

-- `ProvisionalAuthorization`
pub record ProvisionalAuthorization : Type 0 where
  pub lifetime : GrantLifetime
  pub scopes : List String
  pub resources : List ConcreteResource
  pub critical_actions : List CriticalAction

-- `BrokerOutcome`
pub data BrokerOutcome : Type 0 where
  allow : ProvisionalAuthorization → List PolicySource → BrokerOutcome
  ask : List PolicySource → List PolicyReason → BrokerOutcome
  deny : List PolicySource → List PolicyReason → BrokerOutcome

-- `BrokerError`
pub data BrokerError : Type 0 where
  policy_request_mismatch : BrokerError
  source_kind_mismatch : PolicySourceKind → PolicySourceKind → BrokerError
  invalid_policy_source : PolicySourceKind → BrokerError
  invalid_reason_code : PolicySourceKind → BrokerError

-- `BoundPolicyEvaluation`
pub record BoundPolicyEvaluation : Type 0 where
  pub request : ResolvedPermissionRequest
  pub outcome : BrokerOutcome

abbrev max_source_id_chars : ℕ
max_source_id_chars = 300

abbrev max_reason_code_bytes : ℕ
max_reason_code_bytes = 100

abbrev is_reason_byte : ℕ → Bool
is_reason_byte c =
    is_ascii_lowercase c || (is_ascii_digit c || (c == b'.' || (c == b'_' || c == b'-')))

-- `valid_reason_code`
unfoldable pub valid_reason_code : String → Bool
valid_reason_code reason =
    leb (text_len reason) max_reason_code_bytes
    && head_and_rest is_ascii_lowercase is_reason_byte reason

-- The malformed sources of `validate_contribution`; `valid_sha256_digest` is `is_sha256_digest`.
unfoldable pub malformed_source : PolicySource → Bool
malformed_source source =
    text_is_empty source.id
    || (ltb max_source_id_chars (chars_count source.id)
        || (any_char is_control source.id || not (is_sha256_digest source.digest)))

-- `reason.is_some_and(|reason| !valid_reason_code(reason))`
unfoldable pub malformed_reason : ContributionVerdict → Bool
malformed_reason (ContributionVerdict.allow allowance) = false
malformed_reason (ContributionVerdict.ask reason) = not (valid_reason_code reason)
malformed_reason (ContributionVerdict.deny reason) = not (valid_reason_code reason)

-- `validate_contribution`
unfoldable pub validate_contribution :
    PolicySourceKind → PolicyContribution → Result BrokerError (Unit {0})
validate_contribution expected contribution = do
  let actual = contribution.source.kind
  reject_if (not (source_kind_eq actual expected))
      (BrokerError.source_kind_mismatch expected actual)
  reject_if (malformed_source contribution.source) (BrokerError.invalid_policy_source actual)
  reject_if (malformed_reason contribution.verdict) (BrokerError.invalid_reason_code actual)

-- The `for` loop over the layers that validates them.
unfoldable pub validate_layers :
    List (PolicySourceKind × PolicyContribution) → Result BrokerError (Unit {0})
validate_layers [] = ok tt
validate_layers ((expected, contribution) ∷ rest) = do
  validate_contribution expected contribution
  validate_layers rest

abbrev pub from_source : PolicySourceKind → String → PolicyReason
from_source source code = record { source = some source; reason_code = code }

-- `if uncovered { reasons.push(...) }`
unfoldable pub push_if : Bool → PolicyReason → List PolicyReason → List PolicyReason
push_if true reason reasons = reasons ++ reason ∷ []
push_if false reason reasons = reasons

-- `append_coverage_denials`
unfoldable pub append_coverage_denials :
    ResolvedPermissionRequest
    → PolicySourceKind
    → PolicyAllowance
    → List PolicyReason
    → List PolicyReason
append_coverage_denials request source allowance reasons =
    push_if (not (has lifetime_eq request.requested_lifetime allowance.lifetimes))
      (from_source source "lifetime_not_allowed")
      (push_if
        (any (λ action. not (has critical_action_eq action allowance.critical_actions))
          request.critical_actions)
        (from_source source "critical_action_not_allowed")
        (push_if
          (any (λ resource. not (has resource_eq resource allowance.resources)) request.resources)
          (from_source source "resource_not_allowed")
          (push_if (any (λ scope. not (has str_eq scope allowance.scopes)) request.requested_scopes)
            (from_source source "scope_not_allowed") reasons)))

-- The reasons so far: those to deny and those to ask.
pub record Reasons : Type 0 where
  pub deny_reasons : List PolicyReason
  pub ask_reasons : List PolicyReason

-- One round of the second loop of `evaluate`, by the layer's verdict.
unfoldable pub add_reasons :
    ResolvedPermissionRequest → PolicySourceKind → ContributionVerdict → Reasons → Reasons
add_reasons request kind (ContributionVerdict.deny code) reasons = record reasons {
  deny_reasons = reasons.deny_reasons ++ from_source kind code ∷ [];
}
add_reasons request kind (ContributionVerdict.ask code) reasons = record reasons {
  ask_reasons = reasons.ask_reasons ++ from_source kind code ∷ [];
}
add_reasons request kind (ContributionVerdict.allow allowance) reasons = record reasons {
  deny_reasons = append_coverage_denials request kind allowance reasons.deny_reasons;
}

unfoldable pub collect_reasons :
    ResolvedPermissionRequest → List (PolicySourceKind × PolicyContribution) → Reasons → Reasons
collect_reasons request [] reasons = reasons
collect_reasons request ((kind, contribution) ∷ rest) reasons =
    collect_reasons request rest (add_reasons request kind contribution.verdict reasons)

abbrev critical_reason : PolicyReason
critical_reason = record { source = none; reason_code = "critical_approval_required" }

-- The end of `evaluate`: deny before ask before allow.
unfoldable pub conclude : ResolvedPermissionRequest → List PolicySource → Reasons → BrokerOutcome
conclude request sources reasons =
    let asks =
      push_if (not (is_empty request.critical_actions)) critical_reason reasons.ask_reasons in
    if not (is_empty reasons.deny_reasons)
    then BrokerOutcome.deny sources reasons.deny_reasons
    else (if not (is_empty asks)
        then BrokerOutcome.ask sources asks
        else BrokerOutcome.allow
            (record {
              lifetime = request.requested_lifetime;
              scopes = request.requested_scopes;
              resources = request.resources;
              critical_actions = request.critical_actions;
            })
            sources)

-- `PermissionBroker::evaluate`
unfoldable pub evaluate :
    ResolvedPermissionRequest → PolicyInputs → Result BrokerError BrokerOutcome
evaluate request inputs = do
  reject_if (not (request_eq inputs.request request)) BrokerError.policy_request_mismatch
  let layers = ordered inputs.layers
  validate_layers layers
  ok (
      conclude request (map (λ l. l.1.source) layers)
        (collect_reasons request layers (record { deny_reasons = []; ask_reasons = [] })))

-- `PermissionBroker::evaluate_bound`
unfoldable pub evaluate_bound :
    ResolvedPermissionRequest → PolicyInputs → Result BrokerError BoundPolicyEvaluation
evaluate_bound request inputs = do
  outcome ← evaluate request inputs
  ok (record { request = request; outcome = outcome })
