-- ===== src/WorkGraph/Completion.antt =====
-- `CompletionOutputRecord` of crates/xgeny-workgraph/src/lib.rs: the sidecar that keeps the summary of a
-- completed Run, and how it is bound to the decision that the journal accepted.
pub mod Bound
use Prim.Native.String.{◌++◌}
use xgeny_cli.Prelude.{
  ℕ, String, Option, none, some, List, [], ◌∷◌, Bool, ◌&&◌, ◌||◌, not, Result, ok, err, ◌>>=◌, ◌>>◌,
  reject_if, ok_or, map_err, ltb, ◌==◌, ◌!=◌, str_eq, text_is_empty, text_len, any_char, is_control,
  u64_mod, if◌then◌else◌,
}
use xgeny_cli.WorkGraph.Errors.{PlanningContractError}
use xgeny_cli.WorkGraph.Event.{ExpectedPlanningTurn}
use xgeny_cli.WorkGraph.Digest.{Primitives, DigestInput, sha256_digest, strip_or_self}
use xgeny_cli.WorkGraph.Planning.{
  require_planning_identifier, require_planning_digest, validate_turn,
}
use xgeny_cli.WorkGraph.Bindings.{check_bindings}

-- `COMPLETION_OUTPUT_FORMAT_VERSION` and `MAX_COMPLETION_SUMMARY_BYTES`
abbrev pub completion_format_version : ℕ
completion_format_version = 1

abbrev pub max_summary_bytes : ℕ
max_summary_bytes = 5000

-- `CompletionOutputRecord`
pub record CompletionOutputRecord : Type 0 where
  pub format_version : ℕ
  pub candidate_id : String
  pub run_id : String
  pub turn_index : ℕ
  pub model_call_id : String
  pub context_digest : String
  pub proposal_digest : String
  pub summary_size_bytes : ℕ
  pub summary_digest : String
  pub summary : String
  pub record_digest : String

-- `CompletionOutputError`
pub data CompletionOutputError : Type 0 where
  unsupported_format_version : ℕ → CompletionOutputError
  missing_model_call_binding invalid_summary summary_too_large : CompletionOutputError
  binding_mismatch : String → CompletionOutputError
  summary_size_mismatch summary_digest_mismatch proposal_digest_mismatch : CompletionOutputError
  candidate_id_mismatch record_digest_mismatch canonicalization : CompletionOutputError
  planning_contract : PlanningContractError → CompletionOutputError

-- A control character other than `'\n'` and `'\t'`.
abbrev is_refused : ℕ → Bool
is_refused c = is_control c && not ((c == 10) || (c == 9))

-- `validate_completion_summary_candidate`
unfoldable pub validate_completion_summary_candidate :
    String → Result CompletionOutputError (Unit {0})
validate_completion_summary_candidate summary = do
  reject_if (text_is_empty summary || any_char is_refused summary)
      CompletionOutputError.invalid_summary
  reject_if (ltb max_summary_bytes (text_len summary)) CompletionOutputError.summary_too_large

-- `u64::try_from(summary.len())`
abbrev pub summary_size : String → Result CompletionOutputError ℕ
summary_size summary =
    reject_if (not (ltb (text_len summary) u64_mod)) CompletionOutputError.summary_too_large
    >> ok (text_len summary)

abbrev pub turn_for : ℕ → String → String → String → ExpectedPlanningTurn
turn_for turn_index call_id context_digest proposal_digest = record {
  turn_index = turn_index;
  model_call_id = some call_id;
  context_digest = context_digest;
  proposal_digest = proposal_digest;
}

-- `ExpectedPlanningTurn::for_model_call`, whose error `?` wraps.
unfoldable pub for_model_call :
    ℕ → String → String → String → Result CompletionOutputError ExpectedPlanningTurn
for_model_call turn_index call_id context_digest proposal_digest =
    map_err CompletionOutputError.planning_contract
      (validate_turn (turn_for turn_index call_id context_digest proposal_digest))
    >> ok (turn_for turn_index call_id context_digest proposal_digest)

-- `CompletionOutputRecord::decision`
unfoldable pub decision_of :
    CompletionOutputRecord → Result CompletionOutputError ExpectedPlanningTurn
decision_of r = for_model_call r.turn_index r.model_call_id r.context_digest r.proposal_digest

-- The record of `new` before its digest is known.
abbrev pub draft_of :
    String → ExpectedPlanningTurn → String → String → String → String → ℕ → CompletionOutputRecord
draft_of run_id decision candidate_id summary_digest summary model_call_id size = record {
  format_version = completion_format_version;
  candidate_id = candidate_id;
  run_id = run_id;
  turn_index = decision.turn_index;
  model_call_id = model_call_id;
  context_digest = decision.context_digest;
  proposal_digest = decision.proposal_digest;
  summary_size_bytes = size;
  summary_digest = summary_digest;
  summary = summary;
  record_digest = "";
}

abbrev pub with_digest : CompletionOutputRecord → String → CompletionOutputRecord
with_digest r digest = record r { record_digest = digest }

module _ (prims : Primitives) where
  -- `serde_jcs::to_vec(..).map(..sha256_digest..).map_err(|_| Canonicalization)`
  abbrev digest_of : DigestInput → Result CompletionOutputError String
  digest_of input = do
    canonical ← map_err (λ e. CompletionOutputError.canonicalization) (prims.to_vec input)
    ok (sha256_digest prims canonical)

  unfoldable pub completion_summary_digest : String → Result CompletionOutputError String
  completion_summary_digest summary =
      digest_of (DigestInput.completion_summary_input "xgeny.completion-summary/v1" summary)

  unfoldable pub completion_proposal_digest : String → String → Result CompletionOutputError String
  completion_proposal_digest context_digest summary =
      digest_of (
        DigestInput.completion_proposal_input "xgeny.completion-proposal/v1" context_digest summary)

  unfoldable pub completion_candidate_id :
      String → String → String → Result CompletionOutputError String
  completion_candidate_id run_id context_digest proposal_digest = do
    digest ← digest_of (
        DigestInput.completion_candidate_id_input "xgeny.completion-candidate-id/v1" run_id
          context_digest proposal_digest)
    ok ("completion-" ++ strip_or_self digest)

  unfoldable pub completion_output_record_digest :
      CompletionOutputRecord → Result CompletionOutputError String
  completion_output_record_digest r = digest_of (
      DigestInput.completion_output_record_input "xgeny.completion-output.record/v1"
        r.format_version r.candidate_id r.run_id r.turn_index r.model_call_id r.context_digest
        r.proposal_digest r.summary_size_bytes r.summary_digest)

  -- The digests that `verify_for` computes again.
  unfoldable pub verify_content : CompletionOutputRecord → Result CompletionOutputError (Unit {0})
  verify_content r = do
    validate_completion_summary_candidate r.summary
    size ← summary_size r.summary
    reject_if (r.summary_size_bytes != size) CompletionOutputError.summary_size_mismatch
    summary_digest ← completion_summary_digest r.summary
    reject_if (not (str_eq r.summary_digest summary_digest))
        CompletionOutputError.summary_digest_mismatch
    proposal_digest ← completion_proposal_digest r.context_digest r.summary
    reject_if (not (str_eq r.proposal_digest proposal_digest))
        CompletionOutputError.proposal_digest_mismatch
    candidate_id ← completion_candidate_id r.run_id r.context_digest r.proposal_digest
    reject_if (not (str_eq r.candidate_id candidate_id)) CompletionOutputError.candidate_id_mismatch
    record_digest ← completion_output_record_digest r
    reject_if (not (str_eq r.record_digest record_digest))
        CompletionOutputError.record_digest_mismatch

  -- `CompletionOutputRecord::verify_for`
  unfoldable pub verify_completion_for :
      CompletionOutputRecord
      → String
      → ExpectedPlanningTurn
      → String
      → String
      → Result CompletionOutputError (Unit {0})
  verify_completion_for r run_id decision candidate_id summary_digest = do
    reject_if (r.format_version != completion_format_version)
        (CompletionOutputError.unsupported_format_version r.format_version)
    map_err CompletionOutputError.planning_contract (validate_turn decision)
    model_call_id ← ok_or decision.model_call_id CompletionOutputError.missing_model_call_binding
    map_err CompletionOutputError.planning_contract (require_planning_identifier "run_id" run_id)
    map_err CompletionOutputError.planning_contract
        (require_planning_identifier "candidate_id" candidate_id)
    map_err CompletionOutputError.planning_contract
        (require_planning_digest "summary_digest" summary_digest)
    check_bindings CompletionOutputError.binding_mismatch (
        ("run_id", str_eq r.run_id run_id)
        ∷ ("candidate_id", str_eq r.candidate_id candidate_id)
        ∷ ("turn_index", r.turn_index == decision.turn_index)
        ∷ ("model_call_id", str_eq r.model_call_id model_call_id)
        ∷ ("context_digest", str_eq r.context_digest decision.context_digest)
        ∷ ("proposal_digest", str_eq r.proposal_digest decision.proposal_digest)
        ∷ ("summary_digest", str_eq r.summary_digest summary_digest)
        ∷ [])
    verify_content r

  -- `CompletionOutputRecord::new`
  unfoldable pub new_completion :
      String
      → ExpectedPlanningTurn
      → String
      → String
      → String
      → Result CompletionOutputError CompletionOutputRecord
  new_completion run_id decision candidate_id summary_digest summary = do
    model_call_id ← ok_or decision.model_call_id CompletionOutputError.missing_model_call_binding
    size ← summary_size summary
    let draft = draft_of run_id decision candidate_id summary_digest summary model_call_id size in
        do
          record_digest ← completion_output_record_digest draft
          verify_completion_for (with_digest draft record_digest) run_id decision candidate_id
              summary_digest
          ok (with_digest draft record_digest)

  -- `CompletionOutputRecord::bind`
  unfoldable pub bind_completion :
      String → ℕ → String → String → String → Result CompletionOutputError CompletionOutputRecord
  bind_completion run_id turn_index model_call_id context_digest summary = do
    validate_completion_summary_candidate summary
    map_err CompletionOutputError.planning_contract (require_planning_identifier "run_id" run_id)
    map_err CompletionOutputError.planning_contract
        (require_planning_digest "context_digest" context_digest)
    proposal_digest ← completion_proposal_digest context_digest summary
    decision ← for_model_call turn_index model_call_id context_digest proposal_digest
    candidate_id ← completion_candidate_id run_id context_digest proposal_digest
    summary_digest ← completion_summary_digest summary
    new_completion run_id decision candidate_id summary_digest summary
