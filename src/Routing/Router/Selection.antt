-- ===== src/Routing/Router/Selection.antt =====
-- What a selection of `CapabilityRouter::route` of crates/xgeny-runtime/src/router.rs rests on.
use xgeny_cli.Prelude.{
  String, Option, none, some, List, [], ◌∷◌, map, Bool, true, false, not, ◌&&◌, ok, >>=-eq-ok,
  ok_or, ok_or-eq-ok, ok_injective, is_some, is_empty, All, All-itself, Memᴰ, ◌≡◌, refl, sym, ap,
  ◌∙◌, subst, if◌then◌else◌,
}
use xgeny_cli.Domain.Capability.{CapabilityDefinitionBody, CapabilityInstanceBody}
use xgeny_cli.Policy.Broker.{BrokerOutcome, BoundPolicyEvaluation, ProvisionalAuthorization}
use xgeny_cli.Domain.{PolicySource}
use xgeny_cli.Routing.Registry.{CapabilityRegistry, find_definition, instances_for}
use xgeny_cli.Routing.Request.{RouteRequest, RouteInputError, validate_request}
use xgeny_cli.Routing.Candidate.{RouteCandidateEvaluation, evaluate_candidate}
use xgeny_cli.Routing.Candidate.Eligible.{Placeable, evaluate_candidate-Placeable}
use xgeny_cli.Routing.Ranking.{compare_candidates, ranked_instances, rank_candidates}
use xgeny_cli.Routing.Ranking.Comparator.{Before}
use xgeny_cli.Routing.Ranking.Members.{IsEligible, All-ranked_instances, ranked_instances-pinned}
use xgeny_cli.Routing.Ranking.Best.{ranked_instances-best}
use xgeny_cli.Routing.Router.{
  RouteSelectionReason, RouteInteractionReason, RouteBlockReason, RouteOutcome, blocked,
  validate_policy_binding, pin_block_reason, select_first, apply_outcome, apply_policy, place,
  route,
}

-- The policy that was given allows, for this capability.
pub record IsAllowed (request : RouteRequest) (policy : Option BoundPolicyEvaluation) : Type 0 where
  pub evaluation : BoundPolicyEvaluation
  pub given : policy ≡ some evaluation
  pub authorization : ProvisionalAuthorization
  pub sources : List PolicySource
  pub allows : evaluation.outcome ≡ BrokerOutcome.allow authorization sources

-- Why an instance may be selected.
pub record Justifies (registry : CapabilityRegistry) (request : RouteRequest)
    (policy : Option BoundPolicyEvaluation) (instance_id : String) : Type 0 where
  pub definition : CapabilityDefinitionBody
  pub known : find_definition registry request.capability ≡ some definition
  pub chosen : CapabilityInstanceBody
  pub named : chosen.instance_id ≡ instance_id
  pub registered : Memᴰ chosen (instances_for registry request.capability)
  pub placeable : Placeable chosen definition request
  pub pinned : (pin : String) → request.pinned_instance_id ≡ some pin → instance_id ≡ pin
  pub best :
      request.pinned_instance_id ≡ none
      → (other : CapabilityInstanceBody) → Memᴰ other (instances_for registry request.capability)
      → Placeable other definition request
      → Before (compare_candidates request) chosen other
  pub allowed : IsAllowed request policy
  pub bound : validate_policy_binding definition request policy ≡ ok tt
  pub no_critical_actions : definition.spec.effect.critical_actions ≡ []

-- An outcome that selects an instance of some name, and nothing else.
abbrev IsSelection : RouteOutcome → String → Type 0
IsSelection (RouteOutcome.selected selected_id ranked candidates reason) id = selected_id ≡ id
IsSelection (RouteOutcome.interaction_required ranked candidates reasons policy_reasons) id = ⊥
IsSelection (RouteOutcome.blocked_by ranked candidates reasons policy_reasons) id = ⊥

select_first-head :
    (request : RouteRequest) (candidates : List RouteCandidateEvaluation) (ranked : List String)
    (id : String)
    → IsSelection (select_first request candidates ranked) id
    → (others : List String) × (ranked ≡ id ∷ others)
unfolding select_first
select_first-head request candidates [] id s = absurd s
select_first-head request candidates (first ∷ others) id s = (others, ap (λ i. i ∷ others) s)

-- What `apply_policy` needs to select.
record Passes (definition : CapabilityDefinitionBody) (request : RouteRequest)
    (policy : Option BoundPolicyEvaluation) (ranked : List String) (id : String) : Type 0 where
  allowed : IsAllowed request policy
  no_critical_actions : definition.spec.effect.critical_actions ≡ []
  others : List String
  first : ranked ≡ id ∷ others

nothing_critical : {A : Type 0} (xs : List A) → not (is_empty xs) ≡ false → xs ≡ []
nothing_critical [] h = refl
nothing_critical (x ∷ xs) h = cc

apply_policy-Passes :
    (definition : CapabilityDefinitionBody) (request : RouteRequest)
    (policy : Option BoundPolicyEvaluation) (candidates : List RouteCandidateEvaluation)
    (ranked : List String) (id : String)
    → IsSelection (apply_policy definition request policy candidates ranked) id
    → Passes definition request policy ranked id
unfolding apply_policy apply_outcome
apply_policy-Passes definition request none candidates ranked id s = absurd s
apply_policy-Passes definition request (some policy) candidates ranked id s =
    by_outcome policy.outcome refl s
  where
    critical : Bool
    critical = not (is_empty definition.spec.effect.critical_actions)

    by_test :
        (b : Bool)
        → critical ≡ b
        → (authorization : ProvisionalAuthorization) (sources : List PolicySource)
        → policy.outcome ≡ BrokerOutcome.allow authorization sources
        → IsSelection
            (if b
              then RouteOutcome.interaction_required ranked candidates
                  (RouteInteractionReason.critical_approval_required ∷ [])
                  []
              else select_first request candidates ranked)
            id
        → Passes definition request (some policy) ranked id
    by_test true c authorization sources e t = absurd t
    by_test false c authorization sources e t =
        let (others, first) = select_first-head request candidates ranked id t in
        record {
          allowed = record {
            evaluation = policy;
            given = refl;
            authorization = authorization;
            sources = sources;
            allows = e;
          };
          no_critical_actions = nothing_critical definition.spec.effect.critical_actions c;
          others = others;
          first = first;
        }

    by_outcome :
        (o : BrokerOutcome)
        → policy.outcome ≡ o
        → IsSelection (apply_outcome definition request candidates ranked o) id
        → Passes definition request (some policy) ranked id
    by_outcome (BrokerOutcome.deny sources reasons) e t = absurd t
    by_outcome (BrokerOutcome.ask sources reasons) e t = absurd t
    by_outcome (BrokerOutcome.allow authorization sources) e t =
        by_test critical refl authorization sources e t

place-Passes :
    (definition : CapabilityDefinitionBody) (request : RouteRequest)
    (policy : Option BoundPolicyEvaluation) (instances : List CapabilityInstanceBody)
    (candidates : List RouteCandidateEvaluation) (id : String)
    → IsSelection (place definition request policy instances candidates) id
    → Passes definition request policy (rank_candidates request instances candidates) id
unfolding place
place-Passes definition request policy instances candidates id s =
    no_candidates (not (is_some request.pinned_instance_id) && is_empty candidates) s
  where
    ranked : List String
    ranked = rank_candidates request instances candidates

    none_eligible : RouteOutcome
    none_eligible = blocked candidates (
        if is_some request.pinned_instance_id
        then RouteBlockReason.pinned_instance_ineligible
        else RouteBlockReason.no_placement_eligible_candidates)

    empty_ranking :
        (b : Bool)
        → IsSelection
            (if b then none_eligible else apply_policy definition request policy candidates ranked)
            id
        → Passes definition request policy ranked id
    empty_ranking true t = absurd t
    empty_ranking false t = apply_policy-Passes definition request policy candidates ranked id t

    no_candidates :
        (b : Bool)
        → IsSelection
            (if b
              then blocked candidates RouteBlockReason.no_candidates
              else (if is_empty ranked
                  then none_eligible
                  else apply_policy definition request policy candidates ranked))
            id
        → Passes definition request policy ranked id
    no_candidates true t = absurd t
    no_candidates false t = empty_ranking (is_empty ranked) t

first_instance :
    (ranked : List CapabilityInstanceBody) (id : String) (others : List String)
    → map (λ c. c.instance_id) ranked ≡ id ∷ others
    → (first : CapabilityInstanceBody) × (rest : List CapabilityInstanceBody) × (ranked
        ≡ first ∷ rest)
      × (first.instance_id ≡ id)
first_instance [] id others h = cc
first_instance (first ∷ rest) id others h = (first, rest, refl, cc)

unblocked :
    (o : Option RouteBlockReason) (candidates : List RouteCandidateEvaluation) (p : RouteOutcome)
    (id : String)
    → IsSelection (elim o [ some reason ↦ blocked candidates reason | none ↦ p ]) id
    → IsSelection p id
unblocked none candidates p id s = s
unblocked (some reason) candidates p id s = absurd s

-- A selected instance is registered for the requested capability and meets every requirement; the
-- policy was evaluated for this capability and allows it; the definition has no critical action; a
-- pinned request selects its pin; and a request without a pin selects an instance that no instance
-- meeting the requirements comes before in the ranking.
pub route-Justifies :
    (registry : CapabilityRegistry) (request : RouteRequest) (policy : Option BoundPolicyEvaluation)
    (instance_id : String) (ranked : List String) (candidates : List RouteCandidateEvaluation)
    (reason : RouteSelectionReason)
    → route registry request policy
      ≡ ok (RouteOutcome.selected instance_id ranked candidates reason)
    → Justifies registry request policy instance_id
unfolding route
route-Justifies registry request policy instance_id ranked candidates reason h =
    let (_, _, h1) = >>=-eq-ok (validate_request request) _ h in
    let (definition, found, h2) =
      >>=-eq-ok
        (ok_or (find_definition registry request.capability) (
          RouteInputError.definition_not_found request.capability.capability_id
            request.capability.contract_version))
        _ h1 in
    let (_, bound, last) = >>=-eq-ok (validate_policy_binding definition request policy) _ h2 in
    justify definition (ok_or-eq-ok (find_definition registry request.capability) _ found) bound (
      unblocked (pin_block_reason registry request (map (evaluate definition) instances)) _ _
        instance_id (subst (λ o. IsSelection o instance_id) (sym (ok_injective last)) refl))
  where
    instances : List CapabilityInstanceBody
    instances = instances_for registry request.capability

    evaluate : CapabilityDefinitionBody → CapabilityInstanceBody → RouteCandidateEvaluation
    evaluate definition candidate = evaluate_candidate candidate definition request

    justify :
        (definition : CapabilityDefinitionBody)
        → find_definition registry request.capability ≡ some definition
        → validate_policy_binding definition request policy ≡ ok tt
        → IsSelection
            (place definition request policy instances (map (evaluate definition) instances))
            instance_id
        → Justifies registry request policy instance_id
    justify definition known bound s =
        let passes =
          place-Passes definition request policy instances (map (evaluate definition) instances)
            instance_id s in
        let (chosen, rest, leads, named) =
          first_instance (ranked_instances request instances (map (evaluate definition) instances))
            instance_id passes.others passes.first in
        let ((registered, eligible), _) =
          subst (All (λ c. Memᴰ c instances × IsEligible (evaluate definition) c)) leads (
            All-ranked_instances request (evaluate definition) (λ c. Memᴰ c instances) instances
              (All-itself instances)) in
        record {
          definition = definition;
          known = known;
          chosen = chosen;
          named = named;
          registered = registered;
          placeable = (evaluate_candidate-Placeable chosen definition request).0 eligible;
          pinned = λ pin p.
              sym named ∙ ranked_instances-pinned request instances _ pin chosen rest p leads;
          best = λ no_pin other m p.
              ranked_instances-best request (evaluate definition) instances chosen rest no_pin leads
                other m ((evaluate_candidate-Placeable other definition request).1 p);
          allowed = passes.allowed;
          bound = bound;
          no_critical_actions = passes.no_critical_actions;
        }
