-- ===== src/Tests/Sample.antt =====
-- A small journal for the reducer of crates/xgeny-workgraph/src/lib.rs: a Run of two Steps, the first
-- of which is carried out and verified, and the projections along it. The encoder and the hash are
-- toy functions.
use xgeny_cli.WorkGraph.Kahn.{derive_frontier}
use xgeny_cli.WorkGraph.Frontier.{WorkFrontier}
use xgeny_cli.WorkGraph.Plan.{planned_step}
use xgeny_cli.Prelude.{
  ℕ, zero, suc, String, Option, none, some, List, [], ◌∷◌, Result, ok, err, fault, lookup,
}
use xgeny_cli.WorkGraph.Status.{
  EffectClass, SinkGuarantee, VerificationDisposition, InvocationMaterialUnavailableReason,
}
use xgeny_cli.WorkGraph.Event.{
  RunEvent, RunEventBody, EventRecord, EffectIntent, AuthorizationBinding, AgentLoopBudget,
}
use xgeny_cli.WorkGraph.State.{RunState, StepState}
use xgeny_cli.WorkGraph.Digest.{Primitives, DigestInput}
use xgeny_cli.WorkGraph.Reducer.{next_record, apply_record}

abbrev encode : DigestInput → List ℕ
encode (DigestInput.record_input sequence previous event) = sequence ∷ []
encode (DigestInput.authorization_input domain binding max_uses) = 101 ∷ max_uses ∷ []
encode (DigestInput.once_authorization_id_input domain run_id action_digest) = 102 ∷ []
encode (DigestInput.receipt_provenance_input provenance) = 103 ∷ []
encode (DigestInput.planned_invocation_spec_input domain spec) = 104 ∷ []
encode (DigestInput.model_call_id_input _ _ _ _ _ call_index turn_index _ _ _ _) =
    105 ∷ call_index ∷ turn_index ∷ []
encode (DigestInput.completion_summary_input _ _) = 106 ∷ []
encode (DigestInput.completion_proposal_input _ _ _) = 107 ∷ []
encode (DigestInput.completion_candidate_id_input _ _ _ _) = 108 ∷ []
encode (DigestInput.completion_output_record_input _ _ _ _ turn_index _ _ _ size _) =
    109 ∷ turn_index ∷ size ∷ []
encode (DigestInput.tool_output_id_input _ _ _ _ attempt _) = 110 ∷ attempt ∷ []
encode (DigestInput.tool_output_record_input _ _ _ _ _ _ _ _ _ attempt _ size _) =
    111 ∷ attempt ∷ size ∷ []

-- The first bytes of the content, 32 in all.
abbrev pad : ℕ → List ℕ → List ℕ
pad zero bytes = []
pad (suc n) [] = 0 ∷ pad n []
pad (suc n) (b ∷ bytes) = b ∷ pad n bytes

abbrev pub toy_primitives : Primitives
toy_primitives = record { to_vec = λ input. ok (encode input); sha256 = pad 32 }

abbrev pub value : {E A : Type 0} → A → Result E A → A
value default (ok a) = a
value default (err e) = default
value default (fault f) = default

abbrev pub event : String → RunEventBody → RunEvent
event event_id body = record {
  event_id = event_id;
  run_id = "run";
  authority = "local";
  authority_epoch = 1;
  recorded_at = "2026-01-01T00:00:00Z";
  body = body;
}

abbrev blank_record : EventRecord
blank_record = record {
  sequence = 0;
  previous_digest = none;
  event = event "blank" (RunEventBody.run_created "");
  digest = "";
}

abbrev pub blank_state : RunState
blank_state = record {
  run_id = "";
  authority = "";
  authority_epoch = 0;
  goal = "";
  revision = 0;
  journal_sequence = 0;
  journal_head_digest = "";
  steps = [];
  authorization_consumption = [];
  agent_loop = none;
}

abbrev pub record_after : Option EventRecord → RunEvent → EventRecord
record_after previous e = value blank_record (next_record toy_primitives previous e)

abbrev pub state_after : Option RunState → EventRecord → RunState
state_after current r = value blank_state (apply_record toy_primitives current r)

abbrev pub budget : AgentLoopBudget
budget = record {
  max_model_turns = 3;
  max_planned_steps = 4;
  max_tool_calls = 2;
  max_context_bytes = 1000;
}

abbrev binding_at : ℕ → String → String → AuthorizationBinding
binding_at sequence head step_id = record {
  run_id = "run";
  step_id = step_id;
  authority = "local";
  authority_epoch = 1;
  issued_at_sequence = sequence;
  issued_at_head_digest = head;
  capability_id = "read";
  contract_version = "1";
  definition_digest = "definition";
  instance_id = "instance";
  instance_binding_digest = "instance-binding";
  action_digest = "action";
  material_digest = "material";
  material_retention_digest = "retention";
  policy_evidence_digest = "policy";
  receipt_provenance_digest = none;
}

-- An intent whose authorization is issued at a head.
abbrev pub intent_at : ℕ → String → String → String → EffectIntent
intent_at sequence head step_id effect_id = record {
  effect_id = effect_id;
  action_digest = "action";
  invocation = record {
    capability_id = "read";
    contract_version = "1";
    definition_digest = "definition";
    instance_id = "instance";
    instance_binding_digest = "instance-binding";
  };
  effect_class = EffectClass.read_only;
  idempotency_key = none;
  sink_guarantee = SinkGuarantee.no_guarantee;
  authorization = record {
    grant_id = "authorization-6600000000000000000000000000000000000000000000000000000000000000";
    grant_digest = "sha256:6501000000000000000000000000000000000000000000000000000000000000";
    max_uses = 1;
    binding = binding_at sequence head step_id;
  };
  receipt_provenance = none;
}

abbrev pub receipt_digest : String
receipt_digest = "sha256:aa00000000000000000000000000000000000000000000000000000000000000"

abbrev pub created : EventRecord
created = record_after none (event "1" (RunEventBody.run_created "goal"))

abbrev pub created_state : RunState
created_state = state_after none created

abbrev pub configured : EventRecord
configured = record_after (some created) (event "2" (RunEventBody.agent_loop_configured budget))

abbrev pub configured_state : RunState
configured_state = state_after (some created_state) configured

abbrev pub first_planned : EventRecord
first_planned =
    record_after (some configured) (event "3" (RunEventBody.step_planned "a" "first" []))

abbrev pub first_planned_state : RunState
first_planned_state = state_after (some configured_state) first_planned

abbrev pub second_planned : EventRecord
second_planned =
    record_after (some first_planned)
      (event "4" (RunEventBody.step_planned "b" "second" ("a" ∷ [])))

abbrev pub planned_state : RunState
planned_state = state_after (some first_planned_state) second_planned

abbrev pub first_intent : EffectIntent
first_intent =
    intent_at 4 "sha256:0400000000000000000000000000000000000000000000000000000000000000" "a"
      "effect"

abbrev pub committed : EventRecord
committed =
    record_after (some second_planned)
      (event "5" (RunEventBody.effect_intent_committed "a" first_intent))

abbrev pub committed_state : RunState
committed_state = state_after (some planned_state) committed

abbrev pub started : EventRecord
started =
    record_after (some committed) (event "6" (RunEventBody.effect_execution_started "a" "effect"))

abbrev pub executing_state : RunState
executing_state = state_after (some committed_state) started

abbrev pub succeeded : EventRecord
succeeded =
    record_after (some started)
      (event "7" (RunEventBody.effect_succeeded "a" "effect" "evidence" none))

abbrev pub validating_state : RunState
validating_state = state_after (some executing_state) succeeded

abbrev pub verified : EventRecord
verified = record_after (some succeeded) (
    event "8" (
      RunEventBody.verification_recorded "a" "effect" VerificationDisposition.passed "receipt"
        receipt_digest))

abbrev pub verified_state : RunState
verified_state = state_after (some validating_state) verified

-- The other end of the effect: its outcome is unknown, and then it is reconciled.
abbrev pub lost : EventRecord
lost =
    record_after (some started)
      (event "7" (RunEventBody.effect_became_unknown "a" "effect" "timeout"))

abbrev pub unknown_state : RunState
unknown_state = state_after (some executing_state) lost

abbrev pub reconciling : EventRecord
reconciling =
    record_after (some lost) (event "8" (RunEventBody.reconciliation_started "a" "effect"))

abbrev pub reconciling_state : RunState
reconciling_state = state_after (some unknown_state) reconciling

abbrev pub journal : List EventRecord
journal =
    created ∷ configured ∷ first_planned ∷ second_planned ∷ committed ∷ started ∷ succeeded
    ∷ verified ∷ []

abbrev pub unknown_journal : List EventRecord
unknown_journal =
    created ∷ configured ∷ first_planned ∷ second_planned ∷ committed ∷ started ∷ lost ∷ []

abbrev pub planned_journal : List EventRecord
planned_journal = created ∷ configured ∷ first_planned ∷ second_planned ∷ []

-- A shorter journal, whose Step is handed over to a person.
abbrev pub short_planned : EventRecord
short_planned = record_after (some created) (event "2" (RunEventBody.step_planned "a" "first" []))

abbrev pub short_planned_state : RunState
short_planned_state = state_after (some created_state) short_planned

abbrev pub short_intent : EffectIntent
short_intent =
    intent_at 2 "sha256:0200000000000000000000000000000000000000000000000000000000000000" "a"
      "effect"

abbrev pub short_committed : EventRecord
short_committed =
    record_after (some short_planned)
      (event "3" (RunEventBody.effect_intent_committed "a" short_intent))

abbrev pub short_committed_state : RunState
short_committed_state = state_after (some short_planned_state) short_committed

abbrev pub material_lost : EventRecord
material_lost = record_after (some short_committed) (
    event "4" (
      RunEventBody.invocation_material_unavailable "a" "effect"
        InvocationMaterialUnavailableReason.ephemeral_material_lost))

abbrev pub manual_state : RunState
manual_state = state_after (some short_committed_state) material_lost

abbrev pub manual_journal : List EventRecord
manual_journal = created ∷ short_planned ∷ short_committed ∷ material_lost ∷ []

abbrev pub later_planned : EventRecord
later_planned =
    record_after (some material_lost) (event "5" (RunEventBody.step_planned "b" "second" []))

abbrev pub extended_state : RunState
extended_state = state_after (some manual_state) later_planned

-- A Step of a projection, by its name.
abbrev pub step_of : String → RunState → StepState
step_of step_id state = elim (lookup step_id state.steps) [
  | some step ↦ step
  | none ↦ planned_step step_id "" [] none
]

abbrev blank_frontier : WorkFrontier
blank_frontier = record {
  run_id = "";
  revision = 0;
  journal_sequence = 0;
  journal_head_digest = "";
  total_steps = 0;
  actionable = [];
  waiting = [];
  blocked = [];
  verified_completed_step_ids = [];
  unverified_completed_step_ids = [];
  failed_step_ids = [];
  manual_required_step_ids = [];
}

abbrev pub frontier_of : RunState → WorkFrontier
frontier_of state = value blank_frontier (derive_frontier state)
