-- ===== src/Tests/Routes.antt =====
-- The theorems about crates/xgeny-runtime/src/registry.rs and router.rs at the sample capability.
use xgeny_cli.Prelude.{
  some, none, List, [], ◌∷◌, false, ok, ◌≡◌, ◌↔◌, refl, fold, str_eq, text_is_empty, list_eq, has,
  find, sort_by, insert_by, insert_ordered, lookup, insert, filter, dedup, chars_count, any_char,
  is_control, strip_prefix, text_len, all_chars, is_lower_hex, head_and_rest, is_ascii_digit,
  is_ascii_lowercase, dedup_after,
}
use xgeny_cli.WorkGraph.Digest.{is_sha256_digest}
use xgeny_cli.Policy.Request.{request_eq}
use xgeny_cli.Policy.Broker.{
  BoundPolicyEvaluation, ordered, evaluate, evaluate_bound, validate_layers, validate_contribution,
  malformed_source, malformed_reason, conclude, add_reasons, append_coverage_denials,
  collect_reasons, push_if, valid_reason_code,
}
use xgeny_cli.Policy.Broker.Verdict.{AllPermit}
use xgeny_cli.Routing.Registry.{
  CapabilityRegistry, new_registry, from_definition, get_definition, validate_definition,
  validate_instance_features, register_definition, register_instance, find_definition,
  find_instance, instances_for,
}
use xgeny_cli.Routing.Registry.Bindings.{
  Registration, register, RegistryIsWellFormed, register-IsWellFormed, register_instance-lookup,
}
use xgeny_cli.Routing.Registry.Register.{Answers, register_definition-Answers}
use xgeny_cli.Routing.Request.{validate_request, first_duplicate, duplicate_after}
use xgeny_cli.Routing.Candidate.{
  CandidateEligibility, RouteCandidateEvaluation, evaluate_candidate, concat, rejects_candidate,
  required_extensions,
}
use xgeny_cli.Routing.Candidate.Eligible.{Placeable, evaluate_candidate-Placeable}
use xgeny_cli.Routing.Ranking.{compare_candidates, ranked_instances, eligible_instances, pin_first}
use xgeny_cli.Routing.Ranking.Comparator.{IsComparator, compare_candidates-IsComparator}
use xgeny_cli.Routing.Router.{
  RouteOutcome, RouteSelectionReason, route, validate_policy_binding, check_binding, same_members,
  pin_block_reason, place, apply_policy, apply_outcome, select_first, selection_reason,
}
use xgeny_cli.Routing.Router.Selection.{Justifies, route-Justifies}
use xgeny_cli.Routing.Router.Gates.{route-AllPermit}
use xgeny_cli.Tests.Placement.{
  read_request, layered, layered_outcome, reader_ref, reader, local_reader, read_route,
}

abbrev described : CapabilityRegistry
described = record { definitions = (from_definition reader, reader) ∷ []; instances = [] }

abbrev catalog : CapabilityRegistry
catalog = record {
  definitions = (from_definition reader, reader) ∷ [];
  instances = ("i", local_reader) ∷ [];
}

abbrev registrations : List Registration
registrations = Registration.of_definition reader ∷ Registration.of_instance local_reader ∷ []

registrations_run : fold register new_registry registrations ≡ ok catalog
unfolding fold register_definition validate_definition get_definition register_instance lookup
    insert_ordered validate_instance_features has insert
registrations_run = refl

register-IsWellFormed_example : RegistryIsWellFormed catalog
register-IsWellFormed_example = register-IsWellFormed registrations catalog registrations_run

register_run : register_instance described local_reader ≡ ok catalog
unfolding register_instance lookup get_definition validate_instance_features has insert
register_run = refl

register_instance-lookup_example :
    (find_instance catalog "i" ≡ some local_reader)
    × (find_instance described "i" ≡ none)
    × (str_eq "i" "j" ≡ false → find_instance catalog "j" ≡ find_instance described "j")
    × (find_definition catalog reader_ref ≡ find_definition described reader_ref)
register_instance-lookup_example =
    register_instance-lookup described local_reader catalog "j" reader_ref register_run

register_definition-Answers_example :
    Answers new_registry reader (register_definition new_registry reader)
register_definition-Answers_example = register_definition-Answers new_registry reader

evaluate_candidate-Placeable_example :
    ((evaluate_candidate local_reader reader read_route).eligibility
      ≡ CandidateEligibility.placement_eligible)
    ↔ Placeable local_reader reader read_route
evaluate_candidate-Placeable_example = evaluate_candidate-Placeable local_reader reader read_route

compare_candidates-IsComparator_example : IsComparator (compare_candidates read_route)
compare_candidates-IsComparator_example = compare_candidates-IsComparator read_route

abbrev evaluated : BoundPolicyEvaluation
evaluated = record { request = read_request; outcome = layered_outcome }

abbrev accepted : RouteCandidateEvaluation
accepted = record {
  instance_id = "i";
  eligibility = CandidateEligibility.placement_eligible;
  reasons = [];
}

route_run :
    route catalog read_route (some evaluated)
    ≡ ok (
        RouteOutcome.selected "i"
          ("i" ∷ [])
          (accepted ∷ [])
          RouteSelectionReason.only_placement_eligible_candidate)
unfolding route validate_request first_duplicate duplicate_after has find get_definition
    validate_policy_binding check_binding same_members dedup dedup_after sort_by insert_by list_eq
    instances_for filter evaluate_candidate concat required_extensions rejects_candidate
    pin_block_reason place ranked_instances eligible_instances pin_first apply_policy apply_outcome
    select_first selection_reason
route_run = refl

route-Justifies_example : Justifies catalog read_route (some evaluated) "i"
route-Justifies_example =
    route-Justifies catalog read_route (some evaluated) "i" ("i" ∷ []) (accepted ∷ [])
      RouteSelectionReason.only_placement_eligible_candidate route_run

evaluate_run : evaluate_bound read_request layered ≡ ok evaluated
unfolding evaluate_bound evaluate request_eq list_eq validate_layers ordered validate_contribution
    malformed_source text_is_empty chars_count any_char is_control is_sha256_digest strip_prefix
    text_len all_chars is_lower_hex malformed_reason conclude add_reasons append_coverage_denials
    collect_reasons push_if valid_reason_code has head_and_rest is_ascii_digit is_ascii_lowercase
evaluate_run = refl

route-AllPermit_example :
    AllPermit read_request (ordered layered.layers) × (read_request.critical_actions ≡ [])
route-AllPermit_example =
    route-AllPermit read_request layered evaluated catalog read_route "i" ("i" ∷ []) (accepted ∷ [])
      RouteSelectionReason.only_placement_eligible_candidate evaluate_run route_run
