-- ===== src/Tests/Policies.antt =====
-- The theorems about crates/xgeny-policy at the sample request.
use xgeny_cli.WorkGraph.Digest.{is_sha256_digest}
use xgeny_cli.Prelude.{
  list_eq, text_is_empty, chars_count, any_char, is_control, strip_prefix, text_len, all_chars,
  is_lower_hex, has, head_and_rest, is_ascii_digit, is_ascii_lowercase, fold, contains, set_insert,
  find, any_adjacent, sort_by, insert_by, insert_ordered, lookup, insert, String, List, [], ◌∷◌, ok,
  ◌≡◌, refl, All, StringMap,
}
use xgeny_cli.Domain.{PolicySourceKind, PolicySource, GrantLifetime}
use xgeny_cli.Policy.Request.{request_eq}
use xgeny_cli.Policy.Broker.{
  validate_layers, validate_contribution, malformed_source, malformed_reason, conclude, add_reasons,
  append_coverage_denials, collect_reasons, push_if, valid_reason_code, BrokerOutcome, ordered,
  evaluate,
}
use xgeny_cli.Policy.Broker.Decision.{Decides, evaluate-Decides, evaluate-managed_restricts}
use xgeny_cli.Policy.Resolution.{
  add_scope, add_resource, check_represented, validate_derived_request_shape,
  derive_invocation_resources, derive_resource, resolve_selected_resource, check_pointer,
  normalize_argument, normalized_critical_actions, resolve_schema_validated, resolve_invocation,
  normalize_resource_arguments,
}
use xgeny_cli.Policy.Resolution.Wire.{IsResolved, resolve_schema_validated-IsResolved}
use xgeny_cli.Policy.Resolution.Invocation.{
  Selected, Resolved, IsWritten, Writes, resolve_invocation-Resolved,
}
use xgeny_cli.Tests.Placement.{
  read_request, allowing, source_of, layered, leased, layered_outcome, leased_outcome,
  read_authorization, one_file, one_pointer, wire_request, reader,
}

layered_run : evaluate read_request layered ≡ ok layered_outcome
unfolding evaluate request_eq list_eq validate_layers ordered validate_contribution malformed_source
    text_is_empty chars_count any_char is_control is_sha256_digest strip_prefix text_len all_chars
    is_lower_hex malformed_reason conclude add_reasons append_coverage_denials collect_reasons
    push_if valid_reason_code has head_and_rest is_ascii_digit is_ascii_lowercase
layered_run = refl

leased_run : evaluate read_request leased ≡ ok leased_outcome
unfolding evaluate request_eq list_eq validate_layers ordered validate_contribution malformed_source
    text_is_empty chars_count any_char is_control is_sha256_digest strip_prefix text_len all_chars
    is_lower_hex malformed_reason conclude add_reasons append_coverage_denials collect_reasons
    push_if valid_reason_code has head_and_rest is_ascii_digit is_ascii_lowercase
leased_run = refl

evaluate-Decides_example : Decides read_request (ordered layered.layers) layered_outcome
evaluate-Decides_example = evaluate-Decides read_request layered layered_outcome layered_run

evaluate-managed_restricts_example :
    (sources : List PolicySource) × (layered_outcome
      ≡ BrokerOutcome.allow read_authorization sources)
evaluate-managed_restricts_example =
    evaluate-managed_restricts read_request (allowing PolicySourceKind.host)
      (allowing PolicySourceKind.user_profile) (allowing PolicySourceKind.managed_lease)
      read_authorization
      (source_of PolicySourceKind.host
        ∷ source_of PolicySourceKind.user_profile
        ∷ source_of PolicySourceKind.managed_lease
        ∷ [])
      layered_outcome leased_run layered_run

wire_run : resolve_schema_validated one_file wire_request ≡ ok read_request
unfolding resolve_schema_validated fold add_scope text_is_empty contains add_resource set_insert has
    check_represented find any_adjacent sort_by insert_ordered insert_by
wire_run = refl

resolve_schema_validated-IsResolved_example : IsResolved one_file wire_request read_request
resolve_schema_validated-IsResolved_example =
    resolve_schema_validated-IsResolved one_file wire_request read_request wire_run

invocation_run :
    resolve_invocation one_file one_pointer "q" "r" "s" reader "a" GrantLifetime.once
    ≡ ok (read_request, "/w/a")
unfolding resolve_invocation validate_derived_request_shape text_is_empty
    derive_invocation_resources fold sort_by insert_by derive_resource resolve_selected_resource
    check_pointer lookup has normalize_resource_arguments insert normalize_argument set_insert
    insert_ordered normalized_critical_actions any_adjacent
invocation_run = refl

resolve_invocation-Resolved_example :
    All
      (Selected one_file one_pointer "a" reader.spec.effect.resource_selectors)
      read_request.resources
    × ((texts : StringMap String) × All
          (Resolved one_file one_pointer "a" texts read_request.resources)
          reader.spec.effect.resource_selectors
        × All (IsWritten one_file one_pointer "a" reader.spec.effect.resource_selectors) texts
        × Writes one_pointer "a" texts "/w/a")
resolve_invocation-Resolved_example =
    resolve_invocation-Resolved one_file one_pointer "q" "r" "s" reader "a" GrantLifetime.once
      read_request "/w/a" invocation_run
