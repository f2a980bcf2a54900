-- ===== src/Routing/Router/Gates.antt =====
-- The broker behind the router: crates/xgeny-policy/src/broker.rs and
-- crates/xgeny-runtime/src/router.rs together.
use xgeny_cli.Prelude.{
  String, some, List, [], ok, >>=-eq-ok, ok_injective, some_injective, ◌≡◌, ap, ◌∙◌,
}
use xgeny_cli.Policy.Request.{ResolvedPermissionRequest}
use xgeny_cli.Policy.Broker.{
  PolicyInputs, BrokerOutcome, BoundPolicyEvaluation, ordered, evaluate, evaluate_bound,
}
use xgeny_cli.Policy.Broker.Verdict.{AllPermit}
use xgeny_cli.Policy.Broker.Decision.{evaluate-Decides}
use xgeny_cli.Routing.Registry.{CapabilityRegistry}
use xgeny_cli.Routing.Request.{RouteRequest}
use xgeny_cli.Routing.Candidate.{RouteCandidateEvaluation}
use xgeny_cli.Routing.Router.{RouteSelectionReason, RouteOutcome, route}
use xgeny_cli.Routing.Router.Selection.{route-Justifies}

-- Where a request was evaluated by the broker and an instance is selected on that evaluation, every
-- policy layer permits the request, and it has no critical action.
pub route-AllPermit :
    (request : ResolvedPermissionRequest) (inputs : PolicyInputs) (policy : BoundPolicyEvaluation)
    (registry : CapabilityRegistry) (route_request : RouteRequest) (instance_id : String)
    (ranked : List String) (candidates : List RouteCandidateEvaluation)
    (reason : RouteSelectionReason)
    → evaluate_bound request inputs ≡ ok policy
    → route registry route_request (some policy)
      ≡ ok (RouteOutcome.selected instance_id ranked candidates reason)
    → AllPermit request (ordered inputs.layers) × (request.critical_actions ≡ [])
unfolding evaluate_bound
route-AllPermit request inputs policy registry route_request instance_id ranked candidates reason
      evaluated selected =
    let (outcome, decided, last) = >>=-eq-ok (evaluate request inputs) _ evaluated in
    let justifies =
      route-Justifies registry route_request (some policy) instance_id ranked candidates reason
        selected in
    let allowed = justifies.allowed in
    let allows : outcome ≡ BrokerOutcome.allow allowed.authorization allowed.sources =
      ap (λ p. p.outcome) (ok_injective last ∙ some_injective allowed.given) ∙ allowed.allows in
    (evaluate-Decides request inputs (BrokerOutcome.allow allowed.authorization allowed.sources)
      (decided ∙ ap ok allows)).0
