-- ===== src/WorkGraph/Output/Record.antt =====
-- `ToolOutputRecord` of crates/xgeny-workgraph/src/lib.rs: the sidecar that keeps one tool output, and
-- how it is bound to the effect that produced it.
use Prim.Native.String.{◌++◌}
use xgeny_cli.Prelude.{
  ℕ, String, some, List, [], ◌∷◌, Bool, ◌&&◌, ◌||◌, not, true, false, Result, ok, ◌>>=◌, ◌>>◌,
  reject_if, ok_or, map_err, ltb, ◌==◌, ◌!=◌, str_eq, text_is_empty, text_len, any_char, is_control,
}
use xgeny_cli.WorkGraph.Status.{EffectClass}
use xgeny_cli.WorkGraph.Event.{EffectIntent, InvocationBinding, ReceiptProvenance}
use xgeny_cli.WorkGraph.Digest.{
  Primitives, DigestInput, sha256_digest, strip_or_self, is_sha256_digest,
}
use xgeny_cli.WorkGraph.Effects.{tool_output_profile_v1}
use xgeny_cli.WorkGraph.Reducer.{option_eq}
use xgeny_cli.WorkGraph.Bindings.{check_bindings}
use xgeny_cli.WorkGraph.Output.{JsonShape, ToolOutputError, validate_tool_output}

-- `TOOL_OUTPUT_FORMAT_VERSION`
abbrev pub output_format_version : ℕ
output_format_version = 1

-- `ToolOutputRecord`
pub record ToolOutputRecord (Value : Type 0) : Type 0 where
  pub format_version : ℕ
  pub output_id : String
  pub run_id : String
  pub step_id : String
  pub effect_id : String
  pub action_digest : String
  pub invocation : InvocationBinding
  pub plan_id : String
  pub execution_attempt : ℕ
  pub evidence_digest : String
  pub canonical_size_bytes : ℕ
  pub output_digest : String
  pub output : Value
  pub record_digest : String

-- `PartialEq` of `InvocationBinding`
unfoldable pub invocation_eq : InvocationBinding → InvocationBinding → Bool
invocation_eq a b =
    str_eq a.capability_id b.capability_id
    && (str_eq a.contract_version b.contract_version
        && (str_eq a.definition_digest b.definition_digest
            && (str_eq a.instance_id b.instance_id
                && str_eq a.instance_binding_digest b.instance_binding_digest)))

-- `value.is_empty() || value.len() > 512 || value.chars().any(char::is_control)`
unfoldable pub is_malformed : String → Bool
is_malformed value = text_is_empty value || ltb 512 (text_len value) || any_char is_control value

-- The classes whose outputs are kept.
abbrev has_output : EffectClass → Bool
has_output EffectClass.reversible = false
has_output _ = true

-- `required_tool_output_provenance`
unfoldable pub required_tool_output_provenance :
    EffectIntent → Result ToolOutputError ReceiptProvenance
required_tool_output_provenance intent = do
  reject_if (not (has_output intent.effect_class)) ToolOutputError.unsupported_effect_class
  provenance ← ok_or intent.receipt_provenance ToolOutputError.unsupported_profile
  reject_if
      (not (str_eq provenance.profile_version "xgeny.core-receipt/v2")
        || not (option_eq provenance.tool_output_profile (some tool_output_profile_v1)))
      ToolOutputError.unsupported_profile
  reject_if (is_malformed provenance.plan_id) (ToolOutputError.invalid_identity "plan_id")
  ok provenance

-- The loop of `validate_tool_output_identity`
unfoldable pub check_identities : List (String × String) → Result ToolOutputError (Unit {0})
check_identities [] = ok tt
check_identities ((field, value) ∷ identities) = do
  reject_if (is_malformed value) (ToolOutputError.invalid_identity field)
  check_identities identities

-- `validate_tool_output_identity`
unfoldable pub validate_tool_output_identity :
    String → String → EffectIntent → ℕ → Result ToolOutputError (Unit {0})
validate_tool_output_identity run_id step_id intent execution_attempt = do
  check_identities (
      ("run_id", run_id)
      ∷ ("step_id", step_id)
      ∷ ("effect_id", intent.effect_id)
      ∷ ("action_digest", intent.action_digest)
      ∷ ("capability_id", intent.invocation.capability_id)
      ∷ ("contract_version", intent.invocation.contract_version)
      ∷ ("definition_digest", intent.invocation.definition_digest)
      ∷ ("instance_id", intent.invocation.instance_id)
      ∷ ("instance_binding_digest", intent.invocation.instance_binding_digest)
      ∷ [])
  reject_if (execution_attempt == 0) ToolOutputError.invalid_execution_attempt

-- The pairs that `verify_for` compares.
abbrev pub output_bindings :
    {Value : Type 0}
    → ToolOutputRecord Value
    → String
    → String
    → EffectIntent
    → ℕ
    → String
    → String
    → List (String × Bool)
output_bindings r run_id step_id intent execution_attempt evidence_digest plan_id =
    ("run_id", str_eq r.run_id run_id)
    ∷ ("step_id", str_eq r.step_id step_id)
    ∷ ("effect_id", str_eq r.effect_id intent.effect_id)
    ∷ ("action_digest", str_eq r.action_digest intent.action_digest)
    ∷ ("invocation", invocation_eq r.invocation intent.invocation)
    ∷ ("plan_id", str_eq r.plan_id plan_id)
    ∷ ("execution_attempt", r.execution_attempt == execution_attempt)
    ∷ ("evidence_digest", str_eq r.evidence_digest evidence_digest)
    ∷ []

module _ (prims : Primitives) {Value : Type 0} where
  -- `tool_output_id`
  unfoldable pub tool_output_id : ToolOutputRecord Value → Result ToolOutputError String
  tool_output_id r = do
    canonical ←
        map_err (λ e. ToolOutputError.canonicalization)
          (prims.to_vec (
            DigestInput.tool_output_id_input "xgeny.tool-output.id/v1" r.run_id r.step_id
              r.effect_id r.execution_attempt r.output_digest))
    ok ("output-" ++ strip_or_self (sha256_digest prims canonical))

  -- `tool_output_record_digest`
  unfoldable pub tool_output_record_digest : ToolOutputRecord Value → Result ToolOutputError String
  tool_output_record_digest r = do
    canonical ←
        map_err (λ e. ToolOutputError.canonicalization)
          (prims.to_vec (
            DigestInput.tool_output_record_input "xgeny.tool-output.record/v1" r.format_version
              r.output_id r.run_id r.step_id r.effect_id r.action_digest r.invocation r.plan_id
              r.execution_attempt r.evidence_digest r.canonical_size_bytes r.output_digest))
    ok (sha256_digest prims canonical)

module _ (prims : Primitives) {Value : Type 0} (json : JsonShape Value) where
  -- The digests that `verify_for` computes again.
  unfoldable pub verify_output : ToolOutputRecord Value → Result ToolOutputError (Unit {0})
  verify_output r = do
    reject_if (not (is_sha256_digest r.evidence_digest)) ToolOutputError.invalid_evidence_digest
    validated ← validate_tool_output prims json r.output
    reject_if (r.canonical_size_bytes != validated.0) ToolOutputError.canonical_size_mismatch
    reject_if (not (str_eq r.output_digest validated.1)) ToolOutputError.output_digest_mismatch
    output_id ← tool_output_id prims r
    reject_if (not (str_eq r.output_id output_id)) ToolOutputError.output_id_mismatch
    record_digest ← tool_output_record_digest prims r
    reject_if (not (str_eq r.record_digest record_digest)) ToolOutputError.record_digest_mismatch

  -- `ToolOutputRecord::verify_for`
  unfoldable pub verify_tool_output_for :
      ToolOutputRecord Value
      → String
      → String
      → EffectIntent
      → ℕ
      → String
      → Result ToolOutputError (Unit {0})
  verify_tool_output_for r run_id step_id intent execution_attempt evidence_digest = do
    reject_if (r.format_version != output_format_version)
        (ToolOutputError.unsupported_format_version r.format_version)
    provenance ← required_tool_output_provenance intent
    validate_tool_output_identity run_id step_id intent execution_attempt
    check_bindings ToolOutputError.binding_mismatch (
        output_bindings r run_id step_id intent execution_attempt evidence_digest
          provenance.plan_id)
    verify_output r

  -- `ToolOutputRecord::new`
  unfoldable pub new_tool_output :
      String
      → String
      → EffectIntent
      → ℕ
      → String
      → Value
      → Result ToolOutputError (ToolOutputRecord Value)
  new_tool_output run_id step_id intent execution_attempt evidence_digest output = do
    provenance ← required_tool_output_provenance intent
    validate_tool_output_identity run_id step_id intent execution_attempt
    reject_if (not (is_sha256_digest evidence_digest)) ToolOutputError.invalid_evidence_digest
    validated ← validate_tool_output prims json output
    let draft : ToolOutputRecord Value = record {
      format_version = output_format_version;
      output_id = "";
      run_id = run_id;
      step_id = step_id;
      effect_id = intent.effect_id;
      action_digest = intent.action_digest;
      invocation = intent.invocation;
      plan_id = provenance.plan_id;
      execution_attempt = execution_attempt;
      evidence_digest = evidence_digest;
      canonical_size_bytes = validated.0;
      output_digest = validated.1;
      output = output;
      record_digest = "";
    } in
        do
          output_id ← tool_output_id prims draft
          let named : ToolOutputRecord Value = record draft { output_id = output_id } in
              do
                record_digest ← tool_output_record_digest prims named
                let r : ToolOutputRecord Value = record named { record_digest = record_digest } in
                    do
                      verify_tool_output_for r run_id step_id intent execution_attempt
                          evidence_digest
                      ok r
