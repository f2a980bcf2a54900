-- ===== src/WorkGraph/Completion/Bound.antt =====
-- `CompletionOutputRecord` of crates/xgeny-workgraph/src/lib.rs: what `bind` builds is bound to the
-- decision that the record gives back.
use xgeny_cli.Prelude.{
  ℕ, String, some, ok, ◌≤◌, ◌>>◌, map_err, reject_if-eq-ok, reject_if-ok, >>=-eq-ok, ok_injective,
  ltb, text_len, ◌≡◌, refl, sym, subst, arith,
}
use xgeny_cli.WorkGraph.Event.{ExpectedPlanningTurn}
use xgeny_cli.WorkGraph.Digest.{Primitives}
use xgeny_cli.WorkGraph.Planning.{
  require_planning_identifier, require_planning_digest, validate_turn,
}
use xgeny_cli.WorkGraph.Completion.{
  CompletionOutputRecord, CompletionOutputError, max_summary_bytes, summary_size,
  validate_completion_summary_candidate, turn_for, for_model_call, decision_of, draft_of,
  with_digest, completion_summary_digest, completion_proposal_digest, completion_candidate_id,
  completion_output_record_digest, verify_completion_for, new_completion, bind_completion,
}

for_model_call-turn :
    (turn_index : ℕ) (call_id context_digest proposal_digest : String) {turn : ExpectedPlanningTurn}
    → for_model_call turn_index call_id context_digest proposal_digest ≡ ok turn
    → turn ≡ turn_for turn_index call_id context_digest proposal_digest
unfolding for_model_call
for_model_call-turn turn_index call_id context_digest proposal_digest h =
    let (u, valid, rest) =
      >>=-eq-ok
        (map_err CompletionOutputError.planning_contract
          (validate_turn (turn_for turn_index call_id context_digest proposal_digest)))
        _ h in
    sym (ok_injective rest)

summary_fits :
    (summary : String)
    → validate_completion_summary_candidate summary ≡ ok tt
    → text_len summary ≤ max_summary_bytes
unfolding validate_completion_summary_candidate
summary_fits summary h =
    let (clean, fits) = reject_if-eq-ok _ CompletionOutputError.invalid_summary _ h in
    let short =
      reject_if-ok (ltb max_summary_bytes (text_len summary))
        CompletionOutputError.summary_too_large fits in
    ground (arith, short)

module _ (prims : Primitives) where
  -- What a record says of the Run, the decision and the summary that it was made for.
  record Says (run_id : String) (decision : ExpectedPlanningTurn) (summary : String)
      (r : CompletionOutputRecord) : Type 0 where
    pub same_run : r.run_id ≡ run_id
    pub same_summary : r.summary ≡ summary
    pub turn : decision ≡ turn_for r.turn_index r.model_call_id r.context_digest r.proposal_digest
    pub verified :
        verify_completion_for prims r run_id decision r.candidate_id r.summary_digest ≡ ok tt

  new_completion-Says :
      (run_id : String) (turn_index : ℕ) (call_id context_digest proposal_digest : String)
      (candidate_id summary_digest summary : String) {r : CompletionOutputRecord}
      → new_completion prims run_id
          (turn_for turn_index call_id context_digest proposal_digest)
          candidate_id
          summary_digest
          summary
        ≡ ok r
      → Says run_id (turn_for turn_index call_id context_digest proposal_digest) summary r
  unfolding new_completion
  new_completion-Says run_id turn_index call_id context_digest proposal_digest candidate_id
        summary_digest summary h =
      let decision = turn_for turn_index call_id context_digest proposal_digest in
      let (size, sized, h₁) = >>=-eq-ok (summary_size summary) _ h in
      let draft = draft_of run_id decision candidate_id summary_digest summary call_id size in
      let (digest, digested, h₂) = >>=-eq-ok (completion_output_record_digest prims draft) _ h₁ in
      let (u, verified, h₃) =
        >>=-eq-ok
          (verify_completion_for prims (with_digest draft digest) run_id decision candidate_id
            summary_digest)
          _ h₂ in
      subst (λ r. Says run_id decision summary r) (ok_injective h₃)
        (record { same_run = refl; same_summary = refl; turn = refl; verified = verified })

  -- Where `bind` makes a record of a summary, the record keeps the Run and the summary, of at most
  -- 5000 bytes, `decision` gives back a decision with the turn and the model call of the call and with
  -- its context digest, and `verify_for` accepts the record for that Run and that decision.
  pub bind_completion-decision :
      (run_id : String) (turn_index : ℕ) (call_id context_digest summary : String)
      {r : CompletionOutputRecord}
      → bind_completion prims run_id turn_index call_id context_digest summary ≡ ok r
      → (decision : ExpectedPlanningTurn) × (decision_of r ≡ ok decision)
        × (verify_completion_for prims r run_id decision r.candidate_id r.summary_digest ≡ ok tt)
        × (r.run_id ≡ run_id)
        × (r.summary ≡ summary)
        × (text_len summary ≤ max_summary_bytes)
        × (decision.turn_index ≡ turn_index)
        × (decision.model_call_id ≡ some call_id)
        × (decision.context_digest ≡ context_digest)
  unfolding bind_completion decision_of for_model_call
  bind_completion-decision run_id turn_index call_id context_digest summary {r = r} h =
      let (_, fits, h₁) = >>=-eq-ok (validate_completion_summary_candidate summary) _ h in
      let (_, _, h₂) =
        >>=-eq-ok
          (map_err CompletionOutputError.planning_contract
            (require_planning_identifier "run_id" run_id))
          _ h₁ in
      let (_, _, h₃) =
        >>=-eq-ok
          (map_err CompletionOutputError.planning_contract
            (require_planning_digest "context_digest" context_digest))
          _ h₂ in
      let (proposal, _, h₄) =
        >>=-eq-ok (completion_proposal_digest prims context_digest summary) _ h₃ in
      let (turn, made, h₅) =
        >>=-eq-ok (for_model_call turn_index call_id context_digest proposal) _ h₄ in
      let (candidate, _, h₆) =
        >>=-eq-ok (completion_candidate_id prims run_id context_digest proposal) _ h₅ in
      let (digest, _, h₇) = >>=-eq-ok (completion_summary_digest prims summary) _ h₆ in
      let given = turn_for turn_index call_id context_digest proposal in
      let is_given = for_model_call-turn turn_index call_id context_digest proposal made in
      let says =
        new_completion-Says run_id turn_index call_id context_digest proposal candidate digest
          summary
          (subst (λ t. new_completion prims run_id t candidate digest summary ≡ ok r) is_given
            h₇) in
      (
        given,
        subst
            (λ t.
              (map_err CompletionOutputError.planning_contract (validate_turn t) >> ok t)
              ≡ ok given)
            (says.turn)
            (subst (λ t. for_model_call turn_index call_id context_digest proposal ≡ ok t) is_given
              made),
        says.verified,
        says.same_run,
        says.same_summary,
        summary_fits summary fits,
        refl,
        refl,
        refl,
      )
