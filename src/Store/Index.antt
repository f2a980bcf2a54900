-- ===== src/Store/Index.antt =====
-- The index that an audit derives from a journal: `VerifiedRunIndex` of
-- crates/xgeny-local-store/src/lib.rs. Metrics, which only tests count, are left out.
pub mod Restate
pub mod Warm
use xgeny_cli.Prelude.{
  ℕ, ◌+◌, suc, String, Option, none, some, List, [], ◌∷◌, ◌++◌, Bool, true, false, not, ◌||◌, ◌&&◌,
  leb, ltb, Result, ok, err, ◌>>=◌, ◌>>◌, reject_if, ok_or, expect, fold, is_some, str_eq,
  StringMap, StringSet, lookup, insert, contains_key, contains, set_insert, length, u32_mod,
  if◌then◌else◌,
}
use xgeny_cli.WorkGraph.Status.{VerificationDisposition}
use xgeny_cli.WorkGraph.Event.{
  RunEvent, RunEventBody, EventRecord, EffectIntent, ReceiptProvenance, PlannedInvocationBinding,
  AcceptedPlanStep, ExpectedPlanningTurn,
}
use xgeny_cli.WorkGraph.State.{RunState}
use xgeny_cli.WorkGraph.Effects.{is_output_profile}
use xgeny_cli.Store.Errors.{ExpectedHead, StoreError}

-- `EffectIntentAnchor`
pub record EffectIntentAnchor : Type 0 where
  pub event_sequence : ℕ
  pub step_id : String
  pub intent : EffectIntent

-- `EffectStartAnchor`
pub record EffectStartAnchor : Type 0 where
  pub event_sequence : ℕ
  pub step_id : String
  pub recorded_at : String
  pub execution_attempt : ℕ

-- `PlannedInvocationAnchor`
pub record PlannedInvocationAnchor : Type 0 where
  pub event_sequence : ℕ
  pub binding : PlannedInvocationBinding

-- `StepJournalPosition`
pub record StepJournalPosition : Type 0 where
  pub event_sequence : ℕ
  pub event_step_index : ℕ

-- `ReceiptEventAnchor`
pub record ReceiptEventAnchor : Type 0 where
  pub event_sequence : ℕ
  pub run_id : String
  pub step_id : String
  pub effect_id : String
  pub disposition : VerificationDisposition
  pub receipt_id : String
  pub receipt_digest : String
  pub started_at : String
  pub ended_at : String

-- `ToolOutputEventAnchor`
pub record ToolOutputEventAnchor : Type 0 where
  pub event_sequence : ℕ
  pub run_id : String
  pub step_id : String
  pub effect_id : String
  pub evidence_digest : String
  pub record_digest : String
  pub execution_attempt : ℕ

-- `CompletionOutputEventAnchor`
pub record CompletionOutputEventAnchor : Type 0 where
  pub event_sequence : ℕ
  pub run_id : String
  pub candidate_id : String
  pub turn_index : ℕ
  pub model_call_id : String
  pub context_digest : String
  pub proposal_digest : String
  pub summary_digest : String
  pub record_digest : String

-- `VerifiedRunIndex`, the fields that the journal fills.
pub record VerifiedRunIndex : Type 0 where
  pub state : Option RunState
  pub last_record : Option EventRecord
  pub event_ids : StringSet
  pub step_positions : StringMap StepJournalPosition
  pub planned_invocations : StringMap PlannedInvocationAnchor
  pub intents : StringMap EffectIntentAnchor
  pub effect_starts : StringMap EffectStartAnchor
  pub receipt_events : List ReceiptEventAnchor
  pub receipt_event_positions : StringMap ℕ
  pub tool_output_events : StringMap ToolOutputEventAnchor
  pub completion_output_event : Option CompletionOutputEventAnchor

-- `VerifiedRunIndex::default`
abbrev pub default_index : VerifiedRunIndex
default_index = record {
  state = none;
  last_record = none;
  event_ids = [];
  step_positions = [];
  planned_invocations = [];
  intents = [];
  effect_starts = [];
  receipt_events = [];
  receipt_event_positions = [];
  tool_output_events = [];
  completion_output_event = none;
}

-- `head`
abbrev pub head_of : Option EventRecord → ExpectedHead
head_of none = ExpectedHead.empty
head_of (some r) = ExpectedHead.exact r.sequence r.digest

abbrev pub head : VerifiedRunIndex → ExpectedHead
head index = head_of index.last_record

-- `insert(...).is_some()` as an error.
abbrev pub insert_new :
    {V : Type 0} → String → V → StringMap V → String → Result StoreError (StringMap V)
insert_new key value entries text =
    reject_if (contains_key key entries) (StoreError.corrupt text) >> ok (insert key value entries)

-- `u32::saturating_add(1)`
abbrev pub next_attempt : Option EffectStartAnchor → ℕ
next_attempt none = 1
next_attempt (some anchor) =
    if ltb (anchor.execution_attempt + 1) u32_mod
    then anchor.execution_attempt + 1
    else anchor.execution_attempt

-- The anchor's Step is the event's, and it comes before the event.
abbrev pub precedes : String → ℕ → String → ℕ → Bool
precedes anchor_step anchor_sequence step_id sequence =
    str_eq anchor_step step_id && ltb anchor_sequence sequence

-- `receipt_anchor_for`
unfoldable pub receipt_anchor_for :
    VerifiedRunIndex → EventRecord → RunEventBody → Result StoreError ReceiptEventAnchor
receipt_anchor_for index r
      (RunEventBody.verification_recorded step_id effect_id disposition receipt_id receipt_digest) =
    do
      intent ←
          ok_or (lookup effect_id index.intents)
            (StoreError.corrupt "execution receipt has no committed effect intent")
      reject_if (not (precedes intent.step_id intent.event_sequence step_id r.sequence))
          (StoreError.corrupt "execution receipt precedes or differs from its effect intent")
      started ←
          ok_or (lookup effect_id index.effect_starts)
            (StoreError.corrupt "execution receipt has no start event")
      reject_if (not (precedes started.step_id started.event_sequence step_id r.sequence))
          (StoreError.corrupt "execution receipt precedes or differs from its start event")
      ok (record {
        event_sequence = r.sequence;
        run_id = r.event.run_id;
        step_id = step_id;
        effect_id = effect_id;
        disposition = disposition;
        receipt_id = receipt_id;
        receipt_digest = receipt_digest;
        started_at = started.recorded_at;
        ended_at = r.event.recorded_at;
      })
receipt_anchor_for index r _ = err StoreError.unexpected_execution_receipt

abbrev profile_of : Option ReceiptProvenance → Option String
profile_of none = none
profile_of (some provenance) = provenance.tool_output_profile

-- `tool_output_anchor_for`
unfoldable pub tool_output_anchor_for :
    VerifiedRunIndex → EventRecord → RunEventBody → Result StoreError ToolOutputEventAnchor
tool_output_anchor_for index r
      (RunEventBody.effect_succeeded step_id effect_id evidence_digest (some record_digest)) =
    do
      intent ←
          ok_or (lookup effect_id index.intents)
            (StoreError.corrupt "tool output has no committed effect intent")
      reject_if (not (precedes intent.step_id intent.event_sequence step_id r.sequence))
          (StoreError.corrupt "tool output precedes or differs from its effect intent")
      reject_if (not (is_output_profile (profile_of intent.intent.receipt_provenance)))
          (StoreError.corrupt "tool output has no supported durable profile")
      started ←
          ok_or (lookup effect_id index.effect_starts)
            (StoreError.corrupt "tool output has no effect start event")
      reject_if (not (precedes started.step_id started.event_sequence step_id r.sequence))
          (StoreError.corrupt "tool output precedes or differs from its start event")
      ok (record {
        event_sequence = r.sequence;
        run_id = r.event.run_id;
        step_id = step_id;
        effect_id = effect_id;
        evidence_digest = evidence_digest;
        record_digest = record_digest;
        execution_attempt = started.execution_attempt;
      })
tool_output_anchor_for index r _ = err StoreError.unexpected_tool_output

-- `completion_output_anchor_for`
unfoldable pub completion_output_anchor_for :
    EventRecord → RunEventBody → Result StoreError CompletionOutputEventAnchor
completion_output_anchor_for r
      (RunEventBody.completion_candidate_recorded decision candidate_id summary_digest
        (some digest)) =
    do
      model_call_id ←
          ok_or decision.model_call_id
            (StoreError.corrupt "completion output event has no durable model-call binding")
      ok (record {
        event_sequence = r.sequence;
        run_id = r.event.run_id;
        candidate_id = candidate_id;
        turn_index = decision.turn_index;
        model_call_id = model_call_id;
        context_digest = decision.context_digest;
        proposal_digest = decision.proposal_digest;
        summary_digest = summary_digest;
        record_digest = digest;
      })
completion_output_anchor_for r _ = err StoreError.unexpected_completion_output

-- `index_receipt_event`, from the anchor on.
unfoldable pub index_receipt_event :
    VerifiedRunIndex → ReceiptEventAnchor → Result StoreError VerifiedRunIndex
index_receipt_event index anchor = do
  positions ←
      insert_new anchor.effect_id (length index.receipt_events) index.receipt_event_positions
        "journal contains duplicate Receipt events for one effect"
  ok (record index {
    receipt_event_positions = positions;
    receipt_events = index.receipt_events ++ anchor ∷ [];
  })

-- One Step of an accepted plan, with its position in the plan.
unfoldable pub index_plan_step :
    ℕ → VerifiedRunIndex × ℕ → AcceptedPlanStep → Result StoreError (VerifiedRunIndex × ℕ)
index_plan_step sequence (index, event_step_index) step = do
  positions ←
      insert_new step.step_id
        (record { event_sequence = sequence; event_step_index = event_step_index })
        index.step_positions "journal contains a duplicate Step position"
  planned ←
      insert_new step.step_id (record { event_sequence = sequence; binding = step.invocation })
        index.planned_invocations "journal contains a duplicate planned invocation"
  ok (
    record index { step_positions = positions; planned_invocations = planned },
    suc event_step_index,
  )

-- What an effect's start adds.
abbrev pub index_start : VerifiedRunIndex → EventRecord → String → String → VerifiedRunIndex
index_start index r step_id effect_id = record index {
  effect_starts =
      insert effect_id
        (record {
          event_sequence = r.sequence;
          step_id = step_id;
          recorded_at = r.event.recorded_at;
          execution_attempt = next_attempt (lookup effect_id index.effect_starts);
        })
        index.effect_starts;
}

-- `match &record.event.body` of `from_snapshot`.
unfoldable pub index_body :
    VerifiedRunIndex → EventRecord → RunEventBody → Result StoreError VerifiedRunIndex
index_body index r (RunEventBody.step_planned step_id objective depends_on) = do
  positions ←
      insert_new step_id (record { event_sequence = r.sequence; event_step_index = 0 })
        index.step_positions "journal contains a duplicate Step position"
  ok (record index { step_positions = positions })
index_body index r (RunEventBody.plan_accepted decision steps) = do
  (index', count) ← fold (index_plan_step r.sequence) (index, 0) steps
  ok index'
index_body index r (RunEventBody.effect_intent_committed step_id intent) = do
  intents ←
      insert_new intent.effect_id
        (record { event_sequence = r.sequence; step_id = step_id; intent = intent }) index.intents
        "journal contains a duplicate effect intent"
  ok (record index { intents = intents })
index_body index r (RunEventBody.effect_execution_started step_id effect_id) =
    ok (index_start index r step_id effect_id)
index_body index r (RunEventBody.effect_succeeded step_id effect_id evidence_digest (some digest)) =
    do
      anchor ←
          tool_output_anchor_for index r
            (RunEventBody.effect_succeeded step_id effect_id evidence_digest (some digest))
      events ←
          insert_new anchor.effect_id anchor index.tool_output_events
            "journal contains duplicate tool-output events"
      ok (record index { tool_output_events = events })
index_body index r
      (RunEventBody.completion_candidate_recorded decision candidate_id summary (some digest)) =
    do
      reject_if (is_some index.completion_output_event)
          (StoreError.corrupt "journal contains duplicate completion-output events")
      anchor ←
          completion_output_anchor_for r
            (RunEventBody.completion_candidate_recorded decision candidate_id summary (some digest))
      ok (record index { completion_output_event = some anchor })
index_body index r
      (RunEventBody.verification_recorded step_id effect_id disposition receipt_id digest) =
    receipt_anchor_for index r
      (RunEventBody.verification_recorded step_id effect_id disposition receipt_id digest)
    >>= index_receipt_event index
index_body index r _ = ok index

-- One record of the loop of `from_snapshot`.
unfoldable pub index_record : VerifiedRunIndex → EventRecord → Result StoreError VerifiedRunIndex
index_record index r = do
  reject_if (contains r.event.event_id index.event_ids)
      (StoreError.corrupt "journal contains a duplicate event identifier")
  let identified = record index { event_ids = set_insert r.event.event_id index.event_ids }
  indexed ← index_body identified r r.event.body
  ok (record indexed { last_record = some r })

-- `from_snapshot` on the records and the state of a snapshot.
unfoldable pub from_snapshot : List EventRecord → RunState → Result StoreError VerifiedRunIndex
from_snapshot records state =
    fold index_record (record default_index { state = some state }) records

-- The anchors that the candidate of an append has been checked for: `CommitAnchors`.
pub record CommitAnchors : Type 0 where
  pub output : Option ToolOutputEventAnchor
  pub completion_output : Option CompletionOutputEventAnchor
  pub receipt : Option ReceiptEventAnchor

-- `CommitAnchors::default`
abbrev pub default_anchors : CommitAnchors
default_anchors = record { output = none; completion_output = none; receipt = none }

-- One Step of an accepted plan, as `apply_committed` adds it.
unfoldable pub commit_plan_steps :
    ℕ → ℕ → List AcceptedPlanStep → VerifiedRunIndex → VerifiedRunIndex
commit_plan_steps sequence event_step_index [] index = index
commit_plan_steps sequence event_step_index (step ∷ steps) index =
    commit_plan_steps sequence (suc event_step_index) steps (record index {
      step_positions =
          insert step.step_id
            (record { event_sequence = sequence; event_step_index = event_step_index })
            index.step_positions;
      planned_invocations =
          insert step.step_id (record { event_sequence = sequence; binding = step.invocation })
            index.planned_invocations;
    })

-- `match &commit.record.event.body` of `apply_committed`.
unfoldable pub commit_body :
    CommitAnchors
    → VerifiedRunIndex
    → EventRecord
    → RunEventBody
    → Result StoreError VerifiedRunIndex
commit_body anchors index r (RunEventBody.step_planned step_id objective depends_on) =
    ok (record index {
      step_positions =
          insert step_id (record { event_sequence = r.sequence; event_step_index = 0 })
            index.step_positions;
    })
commit_body anchors index r (RunEventBody.plan_accepted decision steps) =
    ok (commit_plan_steps r.sequence 0 steps index)
commit_body anchors index r (RunEventBody.effect_intent_committed step_id intent) =
    ok (record index {
      intents =
          insert intent.effect_id
            (record { event_sequence = r.sequence; step_id = step_id; intent = intent })
            index.intents;
    })
commit_body anchors index r (RunEventBody.effect_execution_started step_id effect_id) =
    ok (index_start index r step_id effect_id)
commit_body anchors index r
      (RunEventBody.effect_succeeded step_id effect_id evidence (some digest)) =
    do
      anchor ← expect anchors.output
      ok (record index {
        tool_output_events = insert anchor.effect_id anchor index.tool_output_events;
      })
commit_body anchors index r
      (RunEventBody.completion_candidate_recorded decision candidate_id summary (some digest)) =
    do
      anchor ← expect anchors.completion_output
      ok (record index { completion_output_event = some anchor })
commit_body anchors index r
      (RunEventBody.verification_recorded step_id effect_id disposition receipt_id digest) =
    do
      anchor ← expect anchors.receipt
      ok (record index {
        receipt_event_positions =
            insert anchor.effect_id (length index.receipt_events) index.receipt_event_positions;
        receipt_events = index.receipt_events ++ anchor ∷ [];
      })
commit_body anchors index r _ = ok index

-- `apply_committed` without sidecars.
unfoldable pub apply_committed :
    CommitAnchors → VerifiedRunIndex → EventRecord → RunState → Result StoreError VerifiedRunIndex
apply_committed anchors index r state = do
  let identified = record index { event_ids = set_insert r.event.event_id index.event_ids }
  indexed ← commit_body anchors identified r r.event.body
  ok (record indexed { state = some state; last_record = some r })
