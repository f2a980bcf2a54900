-- ===== src/WorkGraph/Reducer.antt =====
-- The reducer: `EventRecord::next`, `verify_digest`, `verify_record_against_state`, `apply_body`,
-- `apply_record` and `replay` of crates/xgeny-workgraph/src/lib.rs.
pub mod Chain
pub mod Moves
pub mod Order
pub mod Journal
pub mod Uniqueness
pub mod Grants
use xgeny_cli.Prelude.{
  ℕ, ◌+◌, String, Option, none, some, Bool, true, false, ◌||◌, not, List, [], ◌∷◌, Result, ok, err,
  fault, Fault, ◌>>=◌, ◌>>◌, reject_if, ok_or, map_err, is_some, ◌!=◌, str_eq, checked_add_u64,
}
use xgeny_cli.WorkGraph.Errors.{RecordError, TransitionError, ReplayError}
use xgeny_cli.WorkGraph.Event.{RunEvent, RunEventBody, EventRecord}
use xgeny_cli.WorkGraph.State.{RunState}
use xgeny_cli.WorkGraph.Digest.{Primitives, record_digest}
use xgeny_cli.WorkGraph.Steps.{Transition}
use xgeny_cli.WorkGraph.ModelCalls.{
  configure_agent_loop, configure_model_call_lifecycle, reserve_model_call, mark_model_call_unknown,
  settle_model_call,
}
use xgeny_cli.WorkGraph.Plan.{accept_plan, record_completion_candidate, plan_step}
use xgeny_cli.WorkGraph.Intent.{commit_effect_intent}
use xgeny_cli.WorkGraph.Effects.{apply_effect_lifecycle}

-- `==` on `Option<String>`
abbrev pub option_eq : Option String → Option String → Bool
option_eq none none = true
option_eq (some a) (some b) = str_eq a b
option_eq _ _ = false

-- `previous.map_or(Ok(1), |r| r.sequence.checked_add(1) ...)`, on the sequence of a record or of a
-- projection.
abbrev pub next_sequence : Option ℕ → Result RecordError ℕ
next_sequence none = ok 1
next_sequence (some sequence) = ok_or (checked_add_u64 sequence 1) RecordError.sequence_overflow

abbrev pub sequence_of : Option EventRecord → Option ℕ
sequence_of none = none
sequence_of (some r) = some r.sequence

abbrev pub digest_of : Option EventRecord → Option String
digest_of none = none
digest_of (some r) = some r.digest

abbrev pub state_sequence : Option RunState → Option ℕ
state_sequence none = none
state_sequence (some state) = some state.journal_sequence

abbrev pub state_head : Option RunState → Option String
state_head none = none
state_head (some state) = some state.journal_head_digest

-- The checks of `verify_record_against_state` that need a projection.
unfoldable pub check_authority : Option RunState → RunEvent → Transition (Unit {0})
check_authority none event = ok tt
check_authority (some state) event = do
  reject_if (not (str_eq event.run_id state.run_id)) TransitionError.run_id_mismatch
  reject_if (not (str_eq event.authority state.authority)) TransitionError.authority_mismatch
  reject_if (event.authority_epoch != state.authority_epoch)
      TransitionError.authority_epoch_mismatch

-- The projection that `RunCreated` starts from.
abbrev pub created_run : EventRecord → String → RunState
created_run r goal = record {
  run_id = r.event.run_id;
  authority = r.event.authority;
  authority_epoch = r.event.authority_epoch;
  goal = goal;
  revision = 0;
  journal_sequence = 0;
  journal_head_digest = "";
  steps = [];
  authorization_consumption = [];
  agent_loop = none;
}

-- The last lines of `apply_record`.
abbrev pub advance : EventRecord → RunState → RunState
advance r state = record state {
  revision = r.sequence;
  journal_sequence = r.sequence;
  journal_head_digest = r.digest;
}

unfoldable pub replay_transition_error : TransitionError → ReplayError
replay_transition_error (TransitionError.unexpected_sequence expected actual) =
    ReplayError.unexpected_sequence expected actual
replay_transition_error (TransitionError.previous_digest_mismatch sequence expected actual) =
    ReplayError.previous_digest_mismatch sequence expected actual
replay_transition_error (TransitionError.in_record error) = ReplayError.in_record error
replay_transition_error error = ReplayError.in_transition error

module _ (prims : Primitives) where
  -- `EventRecord::next`
  unfoldable pub next_record : Option EventRecord → RunEvent → Result RecordError EventRecord
  next_record previous event = do
    sequence ← next_sequence (sequence_of previous)
    let previous_digest = digest_of previous
    digest ← record_digest prims sequence previous_digest event
    ok (record {
      sequence = sequence;
      previous_digest = previous_digest;
      event = event;
      digest = digest;
    })

  unfoldable pub verify_digest : EventRecord → Result RecordError (Unit {0})
  verify_digest r = do
    actual ← record_digest prims r.sequence r.previous_digest r.event
    reject_if (not (str_eq actual r.digest))
        (RecordError.digest_mismatch r.sequence r.digest actual)

  unfoldable pub verify_record_against_state : Option RunState → EventRecord → Transition (Unit {0})
  unfolding check_authority
  verify_record_against_state current r = do
    expected_sequence ← map_err TransitionError.in_record (next_sequence (state_sequence current))
    reject_if (r.sequence != expected_sequence)
        (TransitionError.unexpected_sequence expected_sequence r.sequence)
    reject_if (not (option_eq r.previous_digest (state_head current)))
        (TransitionError.previous_digest_mismatch r.sequence (state_head current) r.previous_digest)
    map_err TransitionError.in_record (verify_digest r)
    check_authority current r.event

  -- The first clause is the `unreachable!` arm: `apply_record` handles that event itself.
  unfoldable pub apply_body : RunState → RunEventBody → Transition RunState
  apply_body state (RunEventBody.run_created goal) = fault Fault.panic
  apply_body state (RunEventBody.agent_loop_configured budget) = configure_agent_loop state budget
  apply_body state (RunEventBody.model_call_lifecycle_configured budget) =
      configure_model_call_lifecycle state budget
  apply_body state (RunEventBody.model_call_reserved reservation) =
      reserve_model_call prims state reservation
  apply_body state (RunEventBody.model_call_became_unknown call_id reason) =
      mark_model_call_unknown state call_id reason
  apply_body state (RunEventBody.model_call_settled call_id settlement) =
      settle_model_call state call_id settlement
  apply_body state (RunEventBody.plan_accepted decision steps) =
      accept_plan prims state decision steps
  apply_body state
        (RunEventBody.completion_candidate_recorded decision candidate_id summary_digest digest) =
      record_completion_candidate state decision candidate_id summary_digest digest
  apply_body state (RunEventBody.step_planned step_id objective depends_on) =
      plan_step state step_id objective depends_on none
  apply_body state (RunEventBody.effect_intent_committed step_id intent) =
      commit_effect_intent prims state step_id intent
  apply_body state body = apply_effect_lifecycle state body

  -- `match (current, &record.event.body)` of `apply_record`, and the call of `apply_body`.
  unfoldable pub apply_event : Option RunState → EventRecord → RunEventBody → Transition RunState
  apply_event none r (RunEventBody.run_created goal) = ok (created_run r goal)
  apply_event none r body = err TransitionError.first_event_must_create_run
  apply_event (some state) r (RunEventBody.run_created goal) =
      err TransitionError.run_already_created
  apply_event (some state) r body = apply_body state body

  unfoldable pub apply_record : Option RunState → EventRecord → Transition RunState
  apply_record current r = do
    verify_record_against_state current r
    state ← apply_event current r r.event.body
    ok (advance r state)

  -- The loop of `replay`.
  unfoldable pub replay_from :
      Option RunState → List EventRecord → Result ReplayError (Option RunState)
  replay_from current [] = ok current
  replay_from current (r ∷ rs) =
      map_err replay_transition_error (apply_record current r) >>= λ state.
      replay_from (some state) rs

  unfoldable pub replay : List EventRecord → Result ReplayError RunState
  unfolding replay_from
  replay records = do state ← replay_from none records; ok_or state ReplayError.empty_journal
