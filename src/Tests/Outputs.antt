-- ===== src/Tests/Outputs.antt =====
-- The theorems about the output sidecars of crates/xgeny-workgraph/src/lib.rs at a small document and a
-- short summary.
use xgeny_cli.Prelude.{
  String, text_is_empty, any_char, is_control, strip_prefix, all_chars, is_ascii_alphanumeric,
  is_lower_hex, text_len, ◌≤◌, ℕ, zero, suc, some, [], ◌∷◌, ok, Ensures, ◌≡◌, refl,
}
use xgeny_cli.WorkGraph.Digest.{sha256_digest}
use xgeny_cli.WorkGraph.Output.{
  Shape, JsonShape, ensure_pending_bound, bounded_text_add, push_entries, visit_shape, visit_value,
  walk, validate_tool_output,
}
use xgeny_cli.WorkGraph.Output.Bounds.{IsBounded, validate_tool_output-IsBounded}
use xgeny_cli.WorkGraph.Output.Record.{
  ToolOutputRecord, invocation_eq, is_malformed, required_tool_output_provenance, check_identities,
  validate_tool_output_identity, tool_output_id, tool_output_record_digest, verify_output,
  verify_tool_output_for, new_tool_output,
}
use xgeny_cli.WorkGraph.Output.Exclusive.{verify_tool_output_for-exclusive}
use xgeny_cli.WorkGraph.Bindings.{check_bindings}
use xgeny_cli.WorkGraph.Completion.{
  CompletionOutputRecord, validate_completion_summary_candidate, for_model_call, decision_of,
  completion_summary_digest, completion_proposal_digest, completion_candidate_id,
  completion_output_record_digest, verify_content, verify_completion_for, new_completion,
  bind_completion, max_summary_bytes,
}
use xgeny_cli.WorkGraph.Completion.Bound.{bind_completion-decision}
use xgeny_cli.WorkGraph.Planning.{
  require_planning_identifier, require_planning_digest, require_model_call_id,
  require_model_call_identifier, validate_turn,
}
use xgeny_cli.WorkGraph.Status.{ReceiptPlacement}
use xgeny_cli.WorkGraph.Event.{EffectIntent, ExpectedPlanningTurn}
use xgeny_cli.WorkGraph.Digest.{is_sha256_digest, hex_encode}
use xgeny_cli.Tests.Sample.{toy_primitives, intent_at, value}

-- The documents: null, a text, `{"k": null}` and an array of the three.
abbrev document_shape : ℕ → Shape ℕ
document_shape zero = Shape.scalar
document_shape (suc zero) = Shape.text 5
document_shape (suc (suc zero)) = Shape.object ((1, 0) ∷ [])
document_shape (suc (suc (suc n))) = Shape.array (0 ∷ 1 ∷ 2 ∷ [])

abbrev documents : JsonShape ℕ
documents = record {
  shape = document_shape;
  canonical = λ document. some (document ∷ document ∷ []);
}

validate_tool_output-IsBounded_example :
    Ensures (IsBounded toy_primitives documents 3) (validate_tool_output toy_primitives documents 3)
validate_tool_output-IsBounded_example = validate_tool_output-IsBounded toy_primitives documents 3

-- The array is accepted.
accepted :
    validate_tool_output toy_primitives documents 3
    ≡ ok (2, sha256_digest toy_primitives (3 ∷ 3 ∷ []))
unfolding validate_tool_output walk visit_value visit_shape push_entries bounded_text_add
    ensure_pending_bound
accepted = refl

abbrev zero_digest : String
zero_digest = "sha256:0000000000000000000000000000000000000000000000000000000000000000"

abbrev reading : EffectIntent
reading = record (intent_at 4 zero_digest "a" "effect") {
  receipt_provenance = some (record {
    profile_version = "xgeny.core-receipt/v2";
    tool_output_profile = some "xgeny.tool-output/v1";
    invocation_id = "invocation";
    plan_id = "plan";
    policy_decision_id = "decision";
    policy_decision_digest = zero_digest;
    executor_id = "executor";
    executor_placement = ReceiptPlacement.on_host;
    executor_platform = "linux";
    input_summary = "input";
    verification_plan = [];
  });
}

abbrev blank_output : ToolOutputRecord ℕ
blank_output = record {
  format_version = 0;
  output_id = "";
  run_id = "";
  step_id = "";
  effect_id = "";
  action_digest = "";
  invocation = reading.invocation;
  plan_id = "";
  execution_attempt = 0;
  evidence_digest = "";
  canonical_size_bytes = 0;
  output_digest = "";
  output = 0;
  record_digest = "";
}

abbrev kept_output : ToolOutputRecord ℕ
kept_output =
    value blank_output (new_tool_output toy_primitives documents "run" "a" reading 1 zero_digest 3)

-- The same effect with a key for its sink.
abbrev keyed : EffectIntent
keyed = record reading { idempotency_key = some "key" }

abbrev run_id : String
run_id = "run"

abbrev step_id : String
step_id = "a"

abbrev attempt : ℕ
attempt = 1

keeps :
    verify_tool_output_for toy_primitives documents kept_output "run" "a" reading 1 zero_digest
    ≡ ok tt
unfolding verify_tool_output_for new_tool_output required_tool_output_provenance is_malformed
    validate_tool_output_identity check_identities check_bindings verify_output tool_output_id
    tool_output_record_digest invocation_eq validate_tool_output walk visit_value visit_shape
    push_entries bounded_text_add ensure_pending_bound text_is_empty text_len any_char is_control
    is_sha256_digest strip_prefix all_chars is_lower_hex sha256_digest hex_encode
keeps = refl

keeps_keyed :
    verify_tool_output_for toy_primitives documents kept_output "run" "a" keyed 1 zero_digest
    ≡ ok tt
unfolding verify_tool_output_for new_tool_output required_tool_output_provenance is_malformed
    validate_tool_output_identity check_identities check_bindings verify_output tool_output_id
    tool_output_record_digest invocation_eq validate_tool_output walk visit_value visit_shape
    push_entries bounded_text_add ensure_pending_bound text_is_empty text_len any_char is_control
    is_sha256_digest strip_prefix all_chars is_lower_hex sha256_digest hex_encode
keeps_keyed = refl

verify_tool_output_for-exclusive_example :
    (run_id ≡ run_id)
    × (step_id ≡ step_id)
    × (reading.effect_id ≡ keyed.effect_id)
    × (reading.action_digest ≡ keyed.action_digest)
    × (reading.invocation ≡ keyed.invocation)
    × (attempt ≡ attempt)
    × (zero_digest ≡ zero_digest)
verify_tool_output_for-exclusive_example =
    verify_tool_output_for-exclusive toy_primitives documents kept_output run_id run_id step_id
      step_id reading keyed attempt attempt zero_digest zero_digest keeps keeps_keyed

abbrev call_id : String
call_id = "model-call-6901010000000000000000000000000000000000000000000000000000000000"

abbrev blank_completion : CompletionOutputRecord
blank_completion = record {
  format_version = 0;
  candidate_id = "";
  run_id = "";
  turn_index = 0;
  model_call_id = "";
  context_digest = "";
  proposal_digest = "";
  summary_size_bytes = 0;
  summary_digest = "";
  summary = "";
  record_digest = "";
}

abbrev completion : CompletionOutputRecord
completion =
    value blank_completion (bind_completion toy_primitives "run" 2 call_id zero_digest "done")

binds : bind_completion toy_primitives "run" 2 call_id zero_digest "done" ≡ ok completion
unfolding bind_completion new_completion verify_completion_for verify_content for_model_call
    validate_completion_summary_candidate completion_summary_digest completion_proposal_digest
    completion_candidate_id completion_output_record_digest check_bindings validate_turn
    require_planning_identifier require_planning_digest require_model_call_id
    require_model_call_identifier text_is_empty text_len any_char is_control is_sha256_digest
    strip_prefix all_chars is_ascii_alphanumeric is_lower_hex sha256_digest hex_encode
binds = refl

bind_completion-decision_example :
    (decision : ExpectedPlanningTurn) × (decision_of completion ≡ ok decision)
    × (verify_completion_for toy_primitives completion "run" decision completion.candidate_id
          completion.summary_digest
        ≡ ok tt)
    × (completion.run_id ≡ "run")
    × (completion.summary ≡ "done")
    × (text_len "done" ≤ max_summary_bytes)
    × (decision.turn_index ≡ 2)
    × (decision.model_call_id ≡ some call_id)
    × (decision.context_digest ≡ zero_digest)
bind_completion-decision_example =
    bind_completion-decision toy_primitives "run" 2 call_id zero_digest "done" binds
