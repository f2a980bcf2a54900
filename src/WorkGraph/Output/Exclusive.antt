-- ===== src/WorkGraph/Output/Exclusive.antt =====
-- `ToolOutputRecord::verify_for` of crates/xgeny-workgraph/src/lib.rs: a record is accepted for one
-- execution of one effect only, and holds a bounded output.
use xgeny_cli.Prelude.{
  ℕ, String, true, ok, reject_if-eq-ok, >>=-eq-ok, and_true, str_eq, eq_iff, ◌!=◌, ◌≡◌, sym, ap,
  ◌∙◌, arith,
}
use xgeny_cli.WorkGraph.Event.{EffectIntent, InvocationBinding}
use xgeny_cli.WorkGraph.Digest.{Primitives}
use xgeny_cli.WorkGraph.Bindings.{check_bindings, check_bindings-All}
use xgeny_cli.WorkGraph.Output.{JsonShape, ToolOutputError}
use xgeny_cli.WorkGraph.Output.Record.{
  ToolOutputRecord, output_format_version, invocation_eq, output_bindings,
  required_tool_output_provenance, validate_tool_output_identity, verify_output,
  verify_tool_output_for,
}

invocation_eq-true : (a b : InvocationBinding) → invocation_eq a b ≡ true → a ≡ b
unfolding invocation_eq
invocation_eq-true a b h =
    let (capability, h₁) = and_true (str_eq a.capability_id b.capability_id) _ h in
    let (version, h₂) = and_true (str_eq a.contract_version b.contract_version) _ h₁ in
    let (definition, h₃) = and_true (str_eq a.definition_digest b.definition_digest) _ h₂ in
    let (instance', binding) = and_true (str_eq a.instance_id b.instance_id) _ h₃ in
    ap
      (λ s.
        build s (a.contract_version) (a.definition_digest) (a.instance_id)
          (a.instance_binding_digest))
      ((eq_iff a.capability_id b.capability_id).0 capability)
    ∙ ap
        (λ s.
          build (b.capability_id) s (a.definition_digest) (a.instance_id)
            (a.instance_binding_digest))
        ((eq_iff a.contract_version b.contract_version).0 version)
    ∙ ap
        (λ s.
          build (b.capability_id) (b.contract_version) s (a.instance_id)
            (a.instance_binding_digest))
        ((eq_iff a.definition_digest b.definition_digest).0 definition)
    ∙ ap
        (λ s.
          build (b.capability_id) (b.contract_version) (b.definition_digest) s
            (a.instance_binding_digest))
        ((eq_iff a.instance_id b.instance_id).0 instance')
    ∙ ap (build (b.capability_id) (b.contract_version) (b.definition_digest) (b.instance_id))
        ((eq_iff a.instance_binding_digest b.instance_binding_digest).0 binding)
  where
    build : String → String → String → String → String → InvocationBinding
    build c v d i b = record {
      capability_id = c;
      contract_version = v;
      definition_digest = d;
      instance_id = i;
      instance_binding_digest = b;
    }

module _ (prims : Primitives) {Value : Type 0} (json : JsonShape Value) where
  -- The identity that a record is accepted for.
  record IsFor (r : ToolOutputRecord Value) (run_id step_id : String) (intent : EffectIntent)
      (attempt : ℕ) (evidence : String) : Type 0 where
    pub same_run : r.run_id ≡ run_id
    pub same_step : r.step_id ≡ step_id
    pub same_effect : r.effect_id ≡ intent.effect_id
    pub same_action : r.action_digest ≡ intent.action_digest
    pub same_invocation : r.invocation ≡ intent.invocation
    pub same_attempt : r.execution_attempt ≡ attempt
    pub same_evidence : r.evidence_digest ≡ evidence
    pub content : verify_output prims json r ≡ ok tt

  verify_tool_output_for-IsFor :
      (r : ToolOutputRecord Value) (run_id step_id : String) (intent : EffectIntent) (attempt : ℕ)
      (evidence : String)
      → verify_tool_output_for prims json r run_id step_id intent attempt evidence ≡ ok tt
      → IsFor r run_id step_id intent attempt evidence
  unfolding verify_tool_output_for
  verify_tool_output_for-IsFor r run_id step_id intent attempt evidence h =
      let (_, h₁) =
        reject_if-eq-ok (r.format_version != output_format_version)
          (ToolOutputError.unsupported_format_version r.format_version) _ h in
      let (provenance, _, h₂) = >>=-eq-ok (required_tool_output_provenance intent) _ h₁ in
      let (_, _, h₃) =
        >>=-eq-ok (validate_tool_output_identity run_id step_id intent attempt) _ h₂ in
      let (_, bound, h₄) =
        >>=-eq-ok
          (check_bindings ToolOutputError.binding_mismatch
            (output_bindings r run_id step_id intent attempt evidence provenance.plan_id))
          _ h₃ in
      let (run, (step, (effect, (action, (invocation, (plan, (tries, (proof, _)))))))) =
        check_bindings-All ToolOutputError.binding_mismatch
          (output_bindings r run_id step_id intent attempt evidence provenance.plan_id) bound in
      record {
        same_run = (eq_iff _ _).0 run;
        same_step = (eq_iff _ _).0 step;
        same_effect = (eq_iff _ _).0 effect;
        same_action = (eq_iff _ _).0 action;
        same_invocation = invocation_eq-true _ _ invocation;
        same_attempt = ground (arith, tries);
        same_evidence = (eq_iff _ _).0 proof;
        content = h₄;
      }

  -- A record that `verify_for` accepts twice is accepted for one Run, Step, effect, action,
  -- invocation and attempt and for one evidence digest, whatever the two intents are.
  pub verify_tool_output_for-exclusive :
      (r : ToolOutputRecord Value) (run_id run_id' step_id step_id' : String)
      (intent intent' : EffectIntent) (attempt attempt' : ℕ) (evidence evidence' : String)
      → verify_tool_output_for prims json r run_id step_id intent attempt evidence ≡ ok tt
      → verify_tool_output_for prims json r run_id' step_id' intent' attempt' evidence' ≡ ok tt
      → (run_id ≡ run_id')
        × (step_id ≡ step_id')
        × (intent.effect_id ≡ intent'.effect_id)
        × (intent.action_digest ≡ intent'.action_digest)
        × (intent.invocation ≡ intent'.invocation)
        × (attempt ≡ attempt')
        × (evidence ≡ evidence')
  verify_tool_output_for-exclusive r run_id run_id' step_id step_id' intent intent' attempt attempt'
        evidence evidence' h h' =
      let one = verify_tool_output_for-IsFor r run_id step_id intent attempt evidence h in
      let two = verify_tool_output_for-IsFor r run_id' step_id' intent' attempt' evidence' h' in
      (
        sym one.same_run ∙ two.same_run,
        sym one.same_step ∙ two.same_step,
        sym one.same_effect ∙ two.same_effect,
        sym one.same_action ∙ two.same_action,
        sym one.same_invocation ∙ two.same_invocation,
        sym one.same_attempt ∙ two.same_attempt,
        sym one.same_evidence ∙ two.same_evidence,
      )
