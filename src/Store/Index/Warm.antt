-- ===== src/Store/Index/Warm.antt =====
-- The index that an append keeps up is the one that an audit of the journal derives: the two passes
-- of crates/xgeny-local-store/src/lib.rs agree.
use xgeny_cli.Prelude.{
  ℕ, suc, String, some, List, [], ◌∷◌, ◌++◌, ok, >>=-eq-ok, >>=-ok, reject_if-eq-ok, ok_injective,
  fold, fold-append, StringMap, StringSet, insert, contains_key, contains, set_insert, is_some,
  length, ◌≡◌, refl, sym, ap, ◌∙◌, subst,
}
use xgeny_cli.WorkGraph.Event.{RunEventBody, EventRecord, AcceptedPlanStep}
use xgeny_cli.WorkGraph.State.{RunState}
use xgeny_cli.Store.Errors.{StoreError}
use xgeny_cli.Store.Index.Restate.{restate, restate_records}
use xgeny_cli.Store.Index.{
  VerifiedRunIndex, default_index, insert_new, receipt_anchor_for, tool_output_anchor_for,
  completion_output_anchor_for, index_receipt_event, index_plan_step, index_body, index_record,
  from_snapshot, ReceiptEventAnchor, ToolOutputEventAnchor, CompletionOutputEventAnchor,
  CommitAnchors, commit_plan_steps, commit_body, apply_committed,
}

-- The anchors of a commit are those that the index has for its event.
pub record IsAnchored (anchors : CommitAnchors) (index : VerifiedRunIndex) (r : EventRecord)
    : Type 0 where
  pub output :
      (anchor : ToolOutputEventAnchor)
      → tool_output_anchor_for index r r.event.body ≡ ok anchor
      → anchors.output ≡ some anchor
  pub completion_output :
      (anchor : CompletionOutputEventAnchor)
      → completion_output_anchor_for r r.event.body ≡ ok anchor
      → anchors.completion_output ≡ some anchor
  pub receipt :
      (anchor : ReceiptEventAnchor)
      → receipt_anchor_for index r r.event.body ≡ ok anchor
      → anchors.receipt ≡ some anchor

insert_new-insert :
    {V : Type 0} (key : String) (value : V) (entries : StringMap V) (text : String)
    (entries' : StringMap V)
    → insert_new key value entries text ≡ ok entries'
    → insert key value entries ≡ entries'
insert_new-insert key value entries text entries' h =
    let (_, last) =
      reject_if-eq-ok (contains_key key entries) (StoreError.corrupt text)
        (ok (insert key value entries)) h in
    ok_injective last

index_plan_step-commit :
    (sequence count : ℕ) (index : VerifiedRunIndex) (steps : List AcceptedPlanStep)
    (index' : VerifiedRunIndex) (count' : ℕ)
    → fold (index_plan_step sequence) (index, count) steps ≡ ok (index', count')
    → commit_plan_steps sequence count steps index ≡ index'
unfolding fold index_plan_step commit_plan_steps
index_plan_step-commit sequence count index [] index' count' h = ap (λ p. p.0) (ok_injective h)
index_plan_step-commit sequence count index (step ∷ steps) index' count' h =
    let ((middle, next), first, rest) =
      >>=-eq-ok (index_plan_step sequence (index, count) step) _ h in
    let (positions, p, first') =
      >>=-eq-ok
        (insert_new step.step_id (record { event_sequence = sequence; event_step_index = count })
          index.step_positions "journal contains a duplicate Step position")
        _ first in
    let (planned, q, last) =
      >>=-eq-ok
        (insert_new step.step_id (record { event_sequence = sequence; binding = step.invocation })
          index.planned_invocations "journal contains a duplicate planned invocation")
        _ first' in
    let same : (record index {
      step_positions =
          insert step.step_id (record { event_sequence = sequence; event_step_index = count })
            index.step_positions;
      planned_invocations =
          insert step.step_id (record { event_sequence = sequence; binding = step.invocation })
            index.planned_invocations;
    })
        ≡ middle =
      ap
        (λ m. record index {
          step_positions = m;
          planned_invocations =
              insert step.step_id (record { event_sequence = sequence; binding = step.invocation })
                index.planned_invocations;
        })
        (insert_new-insert step.step_id _ index.step_positions _ positions p)
      ∙ ap (λ m. record index { step_positions = positions; planned_invocations = m })
          (insert_new-insert step.step_id _ index.planned_invocations _ planned q)
      ∙ ap (λ s. s.0) (ok_injective last) in
    let after : fold (index_plan_step sequence) (middle, suc count) steps ≡ ok (index', count') =
      subst (λ n. fold (index_plan_step sequence) (middle, n) steps ≡ ok (index', count'))
        (sym (ap (λ s. s.1) (ok_injective last))) rest in
    ap (commit_plan_steps sequence (suc count) steps) same
    ∙ index_plan_step-commit sequence (suc count) middle steps index' count' after

-- The two matches on the body agree where the audit's succeeds.
index_body-commit_body :
    (anchors : CommitAnchors) (index : VerifiedRunIndex) (r : EventRecord) (body : RunEventBody)
    (index' : VerifiedRunIndex)
    → ((anchor : ToolOutputEventAnchor)
        → tool_output_anchor_for index r body ≡ ok anchor
        → anchors.output ≡ some anchor)
    → ((anchor : CompletionOutputEventAnchor)
        → completion_output_anchor_for r body ≡ ok anchor
        → anchors.completion_output ≡ some anchor)
    → ((anchor : ReceiptEventAnchor)
        → receipt_anchor_for index r body ≡ ok anchor
        → anchors.receipt ≡ some anchor)
    → index_body index r body ≡ ok index'
    → commit_body anchors index r body ≡ ok index'
unfolding index_body commit_body index_receipt_event
index_body-commit_body anchors index r (RunEventBody.step_planned step_id objective depends_on)
      index' o c v h =
    let (positions, p, last) =
      >>=-eq-ok
        (insert_new step_id (record { event_sequence = r.sequence; event_step_index = 0 })
          index.step_positions "journal contains a duplicate Step position")
        _ h in
    ap (λ m. ok (record index { step_positions = m }))
      (insert_new-insert step_id _ index.step_positions _ positions p)
    ∙ last
index_body-commit_body anchors index r (RunEventBody.plan_accepted decision steps) index' o c v h =
    let ((indexed, count), p, last) =
      >>=-eq-ok (fold (index_plan_step r.sequence) (index, 0) steps) _ h in
    ap ok (index_plan_step-commit r.sequence 0 index steps indexed count p) ∙ last
index_body-commit_body anchors index r (RunEventBody.effect_intent_committed step_id intent) index'
      o c v h =
    let (intents, p, last) =
      >>=-eq-ok
        (insert_new intent.effect_id
          (record { event_sequence = r.sequence; step_id = step_id; intent = intent }) index.intents
          "journal contains a duplicate effect intent")
        _ h in
    ap (λ m. ok (record index { intents = m }))
      (insert_new-insert intent.effect_id _ index.intents _ intents p)
    ∙ last
index_body-commit_body anchors index r (RunEventBody.effect_execution_started step_id effect_id)
      index' o c v h =
    h
index_body-commit_body anchors index r
      (RunEventBody.effect_succeeded step_id effect_id evidence (some digest)) index' o c v h =
    let (anchor, found, h1) =
      >>=-eq-ok
        (tool_output_anchor_for index r
          (RunEventBody.effect_succeeded step_id effect_id evidence (some digest)))
        _ h in
    let (events, p, last) =
      >>=-eq-ok
        (insert_new anchor.effect_id anchor index.tool_output_events
          "journal contains duplicate tool-output events")
        _ h1 in
    rw (o anchor found) (
      ap (λ m. ok (record index { tool_output_events = m }))
        (insert_new-insert anchor.effect_id anchor index.tool_output_events _ events p)
      ∙ last)
index_body-commit_body anchors index r
      (RunEventBody.completion_candidate_recorded decision candidate_id summary (some digest))
      index' o c v h =
    let (_, h1) = reject_if-eq-ok (is_some index.completion_output_event) _ _ h in
    let (anchor, found, last) =
      >>=-eq-ok
        (completion_output_anchor_for r
          (RunEventBody.completion_candidate_recorded decision candidate_id summary (some digest)))
        _ h1 in
    rw (c anchor found) last
index_body-commit_body anchors index r
      (RunEventBody.verification_recorded step_id effect_id disposition receipt_id digest) index' o
      c v h =
    let (anchor, found, h1) =
      >>=-eq-ok
        (receipt_anchor_for index r
          (RunEventBody.verification_recorded step_id effect_id disposition receipt_id digest))
        _ h in
    let (positions, p, last) =
      >>=-eq-ok
        (insert_new anchor.effect_id (length index.receipt_events) index.receipt_event_positions
          "journal contains duplicate Receipt events for one effect")
        _ h1 in
    rw (v anchor found) (
      ap
        (λ m. ok (record index {
          receipt_event_positions = m;
          receipt_events = index.receipt_events ++ anchor ∷ [];
        }))
        (insert_new-insert anchor.effect_id _ index.receipt_event_positions _ positions p)
      ∙ last)
index_body-commit_body anchors index r _ index' o c v h = h

tool_output_anchor_same :
    (index : VerifiedRunIndex) (ids : StringSet) (r : EventRecord) (body : RunEventBody)
    → tool_output_anchor_for (record index { event_ids = ids }) r body
      ≡ tool_output_anchor_for index r body
unfolding tool_output_anchor_for
tool_output_anchor_same index ids r (RunEventBody.effect_succeeded _ _ _ (some _)) = refl
tool_output_anchor_same index ids r _ = refl

receipt_anchor_same :
    (index : VerifiedRunIndex) (ids : StringSet) (r : EventRecord) (body : RunEventBody)
    → receipt_anchor_for (record index { event_ids = ids }) r body ≡ receipt_anchor_for index r body
unfolding receipt_anchor_for
receipt_anchor_same index ids r (RunEventBody.verification_recorded _ _ _ _ _) = refl
receipt_anchor_same index ids r _ = refl

index_record-apply_committed :
    (anchors : CommitAnchors) (index : VerifiedRunIndex) (r : EventRecord) (state : RunState)
    (cold : VerifiedRunIndex)
    → IsAnchored anchors index r
    → index_record index r ≡ ok cold
    → apply_committed anchors index r state ≡ ok (restate (some state) cold)
unfolding index_record apply_committed
index_record-apply_committed anchors index r state cold anchored h =
    let (_, h1) = reject_if-eq-ok (contains r.event.event_id index.event_ids) _ _ h in
    let (indexed, p, last) = >>=-eq-ok (index_body identified r r.event.body) _ h1 in
    >>=-ok (commit_body anchors identified r r.event.body) _ (
      index_body-commit_body anchors identified r r.event.body indexed
        (λ a e. anchored.output a (sym (tool_output_anchor_same index ids r r.event.body) ∙ e))
        anchored.completion_output
        (λ a e. anchored.receipt a (sym (receipt_anchor_same index ids r r.event.body) ∙ e)) p)
    ∙ ap (λ i. ok (restate (some state) i)) (ok_injective last)
  where
    ids : StringSet
    ids = set_insert r.event.event_id index.event_ids

    identified : VerifiedRunIndex
    identified = record index { event_ids = ids }

-- The index kept up is the index audited: where an audit of the journal gives the index, and the next
-- record passes that audit, then adding the record to the index, with the anchors that its event has,
-- is auditing the journal with the record.
pub apply_committed-from_snapshot :
    (anchors : CommitAnchors) (records : List EventRecord) (state state' : RunState)
    (index : VerifiedRunIndex) (r : EventRecord) (cold : VerifiedRunIndex)
    → from_snapshot records state ≡ ok index
    → IsAnchored anchors index r
    → index_record index r ≡ ok cold
    → apply_committed anchors index r state' ≡ from_snapshot (records ++ r ∷ []) state'
unfolding from_snapshot fold
apply_committed-from_snapshot anchors records state state' index r cold audited anchored passes =
    index_record-apply_committed anchors index r state' cold anchored passes
    ∙ sym (
        fold-append index_record (record default_index { state = some state' }) records (r ∷ [])
        ∙ >>=-ok (fold index_record (record default_index { state = some state' }) records) _ (
            restate_records (some state') records (record default_index { state = some state })
              index audited)
        ∙ restate_records (some state') (r ∷ []) index cold
            (>>=-ok (index_record index r) _ passes))
