-- ===== src/Routing/Router.antt =====
-- The router: `CapabilityRouter::route` of crates/xgeny-runtime/src/router.rs.
pub mod Selection
pub mod Gates
use xgeny_cli.Prelude.{
  ℕ, String, Option, none, some, List, [], ◌∷◌, ◌++◌, map, Bool, true, false, not, ◌&&◌, ◌||◌, ◌==◌,
  Result, ok, err, ◌>>=◌, ◌>>◌, reject_if, ok_or, all, has, find, is_empty, is_some, length,
  list_eq, str_eq, sort_texts, dedup, if◌then◌else◌,
}
use xgeny_cli.Domain.{
  CapabilityRef, capability_ref_eq, EffectClass, effect_class_eq, critical_action_eq,
}
use xgeny_cli.Domain.Capability.{CapabilityDefinitionBody, CapabilityInstanceBody, ResourceSelector}
use xgeny_cli.Policy.Broker.{PolicyReason, BrokerOutcome, BoundPolicyEvaluation}
use xgeny_cli.Routing.Registry.{
  CapabilityRegistry, find_definition, find_instance, instances_for, get_definition,
}
use xgeny_cli.Routing.Request.{RouteRequest, RouteInputError, validate_request}
use xgeny_cli.Routing.Candidate.{CandidateEligibility, RouteCandidateEvaluation, evaluate_candidate}
use xgeny_cli.Routing.Ranking.{rank_candidates}

-- `RouteSelectionReason`
pub data RouteSelectionReason : Type 0 where
  pinned only_placement_eligible_candidate lexicographic_ranking : RouteSelectionReason

-- `RouteInteractionReason`
pub data RouteInteractionReason : Type 0 where
  policy_approval_required critical_approval_required : RouteInteractionReason

-- `RouteBlockReason`
pub data RouteBlockReason : Type 0 where
  no_candidates no_placement_eligible_candidates : RouteBlockReason
  policy_missing policy_denied : RouteBlockReason
  pinned_instance_not_found pinned_instance_capability_mismatch : RouteBlockReason
  pinned_instance_ineligible : RouteBlockReason

-- The three `code` functions.
unfoldable pub selection_code : RouteSelectionReason → String
selection_code RouteSelectionReason.pinned = "selected_by_pin"
selection_code RouteSelectionReason.only_placement_eligible_candidate =
    "selected_only_eligible_candidate"
selection_code RouteSelectionReason.lexicographic_ranking = "selected_lexicographically"

unfoldable pub interaction_code : RouteInteractionReason → String
interaction_code RouteInteractionReason.policy_approval_required = "policy_approval_required"
interaction_code RouteInteractionReason.critical_approval_required = "critical_approval_required"

unfoldable pub block_code : RouteBlockReason → String
block_code RouteBlockReason.no_candidates = "no_candidates"
block_code RouteBlockReason.no_placement_eligible_candidates = "no_placement_eligible_candidates"
block_code RouteBlockReason.policy_missing = "policy_missing"
block_code RouteBlockReason.policy_denied = "policy_denied"
block_code RouteBlockReason.pinned_instance_not_found = "pinned_instance_not_found"
block_code RouteBlockReason.pinned_instance_capability_mismatch =
    "pinned_instance_capability_mismatch"
block_code RouteBlockReason.pinned_instance_ineligible = "pinned_instance_ineligible"

-- `RouteOutcome`: the chosen instance, an interaction, or a block, each with the ranking and the
-- evaluations behind it.
pub data RouteOutcome : Type 0 where
  selected :
      String → List String → List RouteCandidateEvaluation → RouteSelectionReason → RouteOutcome
  interaction_required :
      List String
      → List RouteCandidateEvaluation
      → List RouteInteractionReason
      → List PolicyReason
      → RouteOutcome
  blocked_by :
      List String
      → List RouteCandidateEvaluation
      → List RouteBlockReason
      → List PolicyReason
      → RouteOutcome

-- `blocked_with_policy`
abbrev pub blocked_with_policy :
    List RouteCandidateEvaluation
    → List String
    → RouteBlockReason
    → List PolicyReason
    → RouteOutcome
blocked_with_policy candidates ranked_instance_ids reason policy_reasons =
    RouteOutcome.blocked_by ranked_instance_ids candidates (reason ∷ []) policy_reasons

-- `blocked`
abbrev pub blocked : List RouteCandidateEvaluation → RouteBlockReason → RouteOutcome
blocked candidates reason = blocked_with_policy candidates [] reason []

-- `same_members`
unfoldable pub same_members : {A : Type 0} → (A → A → Bool) → List A → List A → Bool
same_members eq left right = (length left == length right) && all (λ a. has eq a right) left

-- The policy's request is one of this capability: its capability, effect and scopes.
unfoldable pub check_binding :
    CapabilityDefinitionBody
    → RouteRequest
    → BoundPolicyEvaluation
    → Result RouteInputError (Unit {0})
check_binding definition request policy = do
  let bound_request = policy.request
  reject_if (not (capability_ref_eq bound_request.capability request.capability))
      RouteInputError.policy_capability_mismatch
  reject_if (not (effect_class_eq bound_request.effect_class definition.spec.effect.class)) (
      RouteInputError.policy_effect_class_mismatch definition.spec.effect.class
        bound_request.effect_class)
  reject_if
      (not (
        same_members critical_action_eq bound_request.critical_actions
          definition.spec.effect.critical_actions))
      RouteInputError.policy_critical_actions_mismatch
  let expected_scopes =
      dedup str_eq
        (sort_texts (map (λ selector. selector.scope) definition.spec.effect.resource_selectors))
  let actual_scopes = dedup str_eq (sort_texts bound_request.requested_scopes)
  reject_if (not (list_eq str_eq expected_scopes actual_scopes))
      RouteInputError.policy_scopes_mismatch

-- `validate_policy_binding`
unfoldable pub validate_policy_binding :
    CapabilityDefinitionBody
    → RouteRequest
    → Option BoundPolicyEvaluation
    → Result RouteInputError (Unit {0})
validate_policy_binding definition request none = ok tt
validate_policy_binding definition request (some policy) = check_binding definition request policy

-- `find(...).is_none_or(...)`, where a candidate of the name is missing or not eligible.
abbrev not_eligible : Option RouteCandidateEvaluation → Bool
not_eligible none = true
not_eligible (some candidate) = elim candidate.eligibility [
  | CandidateEligibility.placement_eligible ↦ false
  | CandidateEligibility.rejected ↦ true
]

-- The tests on the pinned instance of `pin_block_reason`.
unfoldable pub pinned_block_reason :
    String
    → RouteRequest
    → List RouteCandidateEvaluation
    → Option CapabilityInstanceBody
    → Option RouteBlockReason
pinned_block_reason pin request candidates none = some RouteBlockReason.pinned_instance_not_found
pinned_block_reason pin request candidates (some found) =
    if not (capability_ref_eq found.definition request.capability)
    then some RouteBlockReason.pinned_instance_capability_mismatch
    else (if not_eligible (find (λ candidate. str_eq candidate.instance_id pin) candidates)
        then some RouteBlockReason.pinned_instance_ineligible
        else none)

-- `pin_block_reason`
unfoldable pub pin_block_reason :
    CapabilityRegistry → RouteRequest → List RouteCandidateEvaluation → Option RouteBlockReason
pin_block_reason registry request candidates = elim request.pinned_instance_id [
  | none ↦ none
  | some pin ↦ pinned_block_reason pin request candidates (find_instance registry pin)
]

-- `interaction_reasons`
unfoldable pub interaction_reasons : CapabilityDefinitionBody → List RouteInteractionReason
interaction_reasons definition =
    (if not (is_empty definition.spec.effect.critical_actions)
      then RouteInteractionReason.critical_approval_required ∷ []
      else [])
    ++ RouteInteractionReason.policy_approval_required ∷ []

-- `selection_reason`
unfoldable pub selection_reason : RouteRequest → ℕ → RouteSelectionReason
selection_reason request candidate_count =
    if is_some request.pinned_instance_id
    then RouteSelectionReason.pinned
    else (if candidate_count == 1
        then RouteSelectionReason.only_placement_eligible_candidate
        else RouteSelectionReason.lexicographic_ranking)

-- The last arm of `apply_policy`: the first of the ranking.
unfoldable pub select_first :
    RouteRequest → List RouteCandidateEvaluation → List String → RouteOutcome
select_first request candidates [] =
    blocked candidates RouteBlockReason.no_placement_eligible_candidates
select_first request candidates (first ∷ others) =
    RouteOutcome.selected first (first ∷ others) candidates
      (selection_reason request (length (first ∷ others)))

-- The arms of `apply_policy` on the broker's outcome.
unfoldable pub apply_outcome :
    CapabilityDefinitionBody
    → RouteRequest
    → List RouteCandidateEvaluation
    → List String
    → BrokerOutcome
    → RouteOutcome
apply_outcome definition request candidates ranked (BrokerOutcome.deny sources reasons) =
    blocked_with_policy candidates ranked RouteBlockReason.policy_denied reasons
apply_outcome definition request candidates ranked (BrokerOutcome.ask sources reasons) =
    RouteOutcome.interaction_required ranked candidates (interaction_reasons definition) reasons
apply_outcome definition request candidates ranked (BrokerOutcome.allow authorization sources) =
    if not (is_empty definition.spec.effect.critical_actions)
    then RouteOutcome.interaction_required ranked candidates
        (RouteInteractionReason.critical_approval_required ∷ []) []
    else select_first request candidates ranked

-- `apply_policy`
unfoldable pub apply_policy :
    CapabilityDefinitionBody
    → RouteRequest
    → Option BoundPolicyEvaluation
    → List RouteCandidateEvaluation
    → List String
    → RouteOutcome
apply_policy definition request none candidates ranked =
    blocked_with_policy candidates ranked RouteBlockReason.policy_missing []
apply_policy definition request (some policy) candidates ranked =
    apply_outcome definition request candidates ranked policy.outcome

-- What `route` does once the candidates are evaluated and no pin blocks it.
unfoldable pub place :
    CapabilityDefinitionBody
    → RouteRequest
    → Option BoundPolicyEvaluation
    → List CapabilityInstanceBody
    → List RouteCandidateEvaluation
    → RouteOutcome
place definition request policy instances candidates =
    let ranked = rank_candidates request instances candidates in
    if not (is_some request.pinned_instance_id) && is_empty candidates
    then blocked candidates RouteBlockReason.no_candidates
    else (if is_empty ranked
        then blocked candidates (
            if is_some request.pinned_instance_id
            then RouteBlockReason.pinned_instance_ineligible
            else RouteBlockReason.no_placement_eligible_candidates)
        else apply_policy definition request policy candidates ranked)

-- `CapabilityRouter::route`
unfoldable pub route :
    CapabilityRegistry
    → RouteRequest
    → Option BoundPolicyEvaluation
    → Result RouteInputError RouteOutcome
route registry request policy = do
  validate_request request
  definition ← ok_or (find_definition registry request.capability) (
      RouteInputError.definition_not_found request.capability.capability_id
        request.capability.contract_version)
  validate_policy_binding definition request policy
  let instances = instances_for registry request.capability
  let candidates = map (λ candidate. evaluate_candidate candidate definition request) instances
  ok (elim (pin_block_reason registry request candidates) [
    | some reason ↦ blocked candidates reason
    | none ↦ place definition request policy instances candidates
  ])
