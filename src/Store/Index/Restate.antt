-- ===== src/Store/Index/Restate.antt =====
-- The audit of crates/xgeny-local-store/src/lib.rs carries the projection along and does not look at
-- it.
use xgeny_cli.Prelude.{
  ℕ, Option, some, List, [], ◌∷◌, Result, ok, >>=-eq-ok, >>=-ok, reject_if, reject_if-eq-ok,
  ok_injective, fold, contains, set_insert, is_some, length, ◌≡◌, refl, ap, ◌∙◌,
}
use xgeny_cli.WorkGraph.Event.{RunEventBody, EventRecord, AcceptedPlanStep}
use xgeny_cli.WorkGraph.State.{RunState}
use xgeny_cli.Store.Errors.{StoreError}
use xgeny_cli.Store.Index.{
  VerifiedRunIndex, insert_new, receipt_anchor_for, tool_output_anchor_for,
  completion_output_anchor_for, index_receipt_event, index_plan_step, index_body, index_record,
}

-- The projection of an index, replaced.
abbrev pub restate : Option RunState → VerifiedRunIndex → VerifiedRunIndex
restate state index = record index { state = state }

module _ (state : Option RunState) where
  stated :
      {index index' : VerifiedRunIndex}
      → ◌≡◌ {A = Result StoreError VerifiedRunIndex} (ok index) (ok index')
      → ◌≡◌ {A = Result StoreError VerifiedRunIndex}
          (ok (restate state index))
          (ok (restate state index'))
  stated h = ap (λ i. ok (restate state i)) (ok_injective h)

  restate_plan_steps :
      (sequence : ℕ) (index : VerifiedRunIndex) (count : ℕ) (steps : List AcceptedPlanStep)
      (index' : VerifiedRunIndex) (count' : ℕ)
      → fold (index_plan_step sequence) (index, count) steps ≡ ok (index', count')
      → fold (index_plan_step sequence) (restate state index, count) steps
        ≡ ok (restate state index', count')
  unfolding fold index_plan_step
  restate_plan_steps sequence index count [] index' count' h =
      ap (λ p. ok (restate state p.0, p.1)) (ok_injective h)
  restate_plan_steps sequence index count (step ∷ steps) index' count' h =
      let ((middle, next), first, rest) =
        >>=-eq-ok (index_plan_step sequence (index, count) step) _ h in
      let (positions, p, first') =
        >>=-eq-ok
          (insert_new step.step_id (record { event_sequence = sequence; event_step_index = count })
            index.step_positions "journal contains a duplicate Step position")
          _ first in
      let (planned, q, last) =
        >>=-eq-ok
          (insert_new step.step_id (record { event_sequence = sequence; binding = step.invocation })
            index.planned_invocations "journal contains a duplicate planned invocation")
          _ first' in
      let here : index_plan_step sequence (restate state index, count) step
          ≡ ok (restate state middle, next) =
        >>=-ok
          (insert_new step.step_id (record { event_sequence = sequence; event_step_index = count })
            index.step_positions "journal contains a duplicate Step position")
          _ p
        ∙ >>=-ok
            (insert_new step.step_id
              (record { event_sequence = sequence; binding = step.invocation })
              index.planned_invocations "journal contains a duplicate planned invocation")
            _ q
        ∙ ap (λ s. ok (restate state s.0, s.1)) (ok_injective last) in
      >>=-ok (index_plan_step sequence (restate state index, count) step) _ here
      ∙ restate_plan_steps sequence middle next steps index' count' rest

  -- The audit of a record does not look at the projection.
  pub restate_body :
      (index : VerifiedRunIndex) (r : EventRecord) (body : RunEventBody) (index' : VerifiedRunIndex)
      → index_body index r body ≡ ok index'
      → index_body (restate state index) r body ≡ ok (restate state index')
  unfolding index_body index_receipt_event receipt_anchor_for tool_output_anchor_for
  restate_body index r (RunEventBody.step_planned step_id objective depends_on) index' h =
      let (positions, p, last) =
        >>=-eq-ok
          (insert_new step_id (record { event_sequence = r.sequence; event_step_index = 0 })
            index.step_positions "journal contains a duplicate Step position")
          _ h in
      >>=-ok
        (insert_new step_id (record { event_sequence = r.sequence; event_step_index = 0 })
          index.step_positions "journal contains a duplicate Step position")
        _ p
      ∙ stated last
  restate_body index r (RunEventBody.plan_accepted decision steps) index' h =
      let ((indexed, count), p, last) =
        >>=-eq-ok (fold (index_plan_step r.sequence) (index, 0) steps) _ h in
      >>=-ok (fold (index_plan_step r.sequence) (restate state index, 0) steps) _
        (restate_plan_steps r.sequence index 0 steps indexed count p)
      ∙ stated last
  restate_body index r (RunEventBody.effect_intent_committed step_id intent) index' h =
      let (intents, p, last) =
        >>=-eq-ok
          (insert_new intent.effect_id
            (record { event_sequence = r.sequence; step_id = step_id; intent = intent })
            index.intents "journal contains a duplicate effect intent")
          _ h in
      >>=-ok
        (insert_new intent.effect_id
          (record { event_sequence = r.sequence; step_id = step_id; intent = intent }) index.intents
          "journal contains a duplicate effect intent")
        _ p
      ∙ stated last
  restate_body index r (RunEventBody.effect_execution_started step_id effect_id) index' h = stated h
  restate_body index r (RunEventBody.effect_succeeded step_id effect_id evidence (some digest))
        index' h =
      let (anchor, found, h1) =
        >>=-eq-ok
          (tool_output_anchor_for index r
            (RunEventBody.effect_succeeded step_id effect_id evidence (some digest)))
          _ h in
      let (events, p, last) =
        >>=-eq-ok
          (insert_new anchor.effect_id anchor index.tool_output_events
            "journal contains duplicate tool-output events")
          _ h1 in
      >>=-ok
        (tool_output_anchor_for index r
          (RunEventBody.effect_succeeded step_id effect_id evidence (some digest)))
        _ found
      ∙ >>=-ok
          (insert_new anchor.effect_id anchor index.tool_output_events
            "journal contains duplicate tool-output events")
          _ p
      ∙ stated last
  restate_body index r
        (RunEventBody.completion_candidate_recorded decision candidate_id summary (some digest))
        index' h =
      let (fresh, h1) = reject_if-eq-ok (is_some index.completion_output_event) _ _ h in
      let (anchor, found, last) =
        >>=-eq-ok
          (completion_output_anchor_for r (
            RunEventBody.completion_candidate_recorded decision candidate_id summary (some digest)))
          _ h1 in
      >>=-ok (reject_if (is_some index.completion_output_event) _) _ (rw fresh refl)
      ∙ >>=-ok
          (completion_output_anchor_for r (
            RunEventBody.completion_candidate_recorded decision candidate_id summary (some digest)))
          _ found
      ∙ stated last
  restate_body index r
        (RunEventBody.verification_recorded step_id effect_id disposition receipt_id digest) index'
        h =
      let (anchor, found, h1) =
        >>=-eq-ok
          (receipt_anchor_for index r
            (RunEventBody.verification_recorded step_id effect_id disposition receipt_id digest))
          _ h in
      let (positions, p, last) =
        >>=-eq-ok
          (insert_new anchor.effect_id (length index.receipt_events) index.receipt_event_positions
            "journal contains duplicate Receipt events for one effect")
          _ h1 in
      >>=-ok
        (receipt_anchor_for index r
          (RunEventBody.verification_recorded step_id effect_id disposition receipt_id digest))
        _ found
      ∙ >>=-ok
          (insert_new anchor.effect_id (length index.receipt_events) index.receipt_event_positions
            "journal contains duplicate Receipt events for one effect")
          _ p
      ∙ stated last
  restate_body index r _ index' h = stated h

  restate_record :
      (index : VerifiedRunIndex) (r : EventRecord) (index' : VerifiedRunIndex)
      → index_record index r ≡ ok index'
      → index_record (restate state index) r ≡ ok (restate state index')
  unfolding index_record
  restate_record index r index' h =
      let (fresh, h1) = reject_if-eq-ok (contains r.event.event_id index.event_ids) _ _ h in
      let (indexed, p, last) = >>=-eq-ok (index_body (identify index) r r.event.body) _ h1 in
      >>=-ok (reject_if (contains r.event.event_id index.event_ids) _) _ (rw fresh refl)
      ∙ >>=-ok (index_body (restate state (identify index)) r r.event.body) _
          (restate_body (identify index) r r.event.body indexed p)
      ∙ stated last
    where
      identify : VerifiedRunIndex → VerifiedRunIndex
      identify i = record i { event_ids = set_insert r.event.event_id i.event_ids }

  pub restate_records :
      (records : List EventRecord) (index index' : VerifiedRunIndex)
      → fold index_record index records ≡ ok index'
      → fold index_record (restate state index) records ≡ ok (restate state index')
  unfolding fold
  restate_records [] index index' h = stated h
  restate_records (r ∷ rs) index index' h =
      let (middle, first, rest) = >>=-eq-ok (index_record index r) _ h in
      >>=-ok (index_record (restate state index) r) _ (restate_record index r middle first)
      ∙ restate_records rs middle index' rest
