-- ===== src/Tests/Stores.antt =====
-- The theorems about crates/xgeny-local-store at the first two records of the sample journal.
use xgeny_cli.Prelude.{
  Bool, ◌&&◌, ◌==◌, str_eq, ◌↔◌, some, [], ◌∷◌, Result, ok, err, ◌≡◌, ◌≢◌, refl, fold, contains,
  set_insert,
}
use xgeny_cli.WorkGraph.Digest.{record_digest, sha256_digest, hex_encode}
use xgeny_cli.WorkGraph.Reducer.{
  next_record, apply_record, verify_record_against_state, verify_digest, check_authority,
  apply_event,
}
use xgeny_cli.Store.Errors.{ExpectedHead}
use xgeny_cli.Store.Index.{
  VerifiedRunIndex, default_index, default_anchors, index_body, index_record, from_snapshot,
  commit_body, apply_committed, tool_output_anchor_for, completion_output_anchor_for,
  receipt_anchor_for,
}
use xgeny_cli.Store.Index.Warm.{IsAnchored, apply_committed-from_snapshot}
use xgeny_cli.Store.Bundles.{
  verify_plan_input_bundle, verify_material_bundle, verify_receipt_bundle,
  verify_tool_output_bundle, verify_completion_output_bundle, verify_bundles,
}
use xgeny_cli.Store.Journal.{
  Commit, MemoryRunStore, new_store, prepare_commit, append, verified_snapshot,
}
use xgeny_cli.Store.Journal.Append.{Reaches, IsBacked, Reaches-IsBacked}
use xgeny_cli.Store.Journal.Snapshot.{IsAccepted, verified_snapshot-IsAccepted}
use xgeny_cli.WorkGraph.State.{RunState}
use xgeny_cli.Store.Journal.Exclusive.{append-exclusive}
use xgeny_cli.Tests.Sample.{toy_primitives, created, created_state, configured, configured_state}

abbrev first_store : MemoryRunStore
first_store = record {
  records = created ∷ [];
  projection = some created_state;
  index = record default_index {
    state = some created_state;
    last_record = some created;
    event_ids = created.event.event_id ∷ [];
  };
}

abbrev first_commit : Commit
first_commit = record { committed = created; state = created_state }

first_append :
    append toy_primitives new_store ExpectedHead.empty created.event
    ≡ ok (first_store, first_commit)
unfolding append verify_bundles verify_plan_input_bundle next_record record_digest
    verify_material_bundle verify_receipt_bundle verify_tool_output_bundle
    verify_completion_output_bundle prepare_commit contains apply_record verify_record_against_state
    verify_digest sha256_digest hex_encode apply_event apply_committed commit_body set_insert
    check_authority
first_append = refl

reached : Reaches toy_primitives first_store
reached =
    Reaches.appended new_store ExpectedHead.empty created.event first_store first_commit
      Reaches.created first_append

Reaches-IsBacked_example : IsBacked toy_primitives first_store
Reaches-IsBacked_example = Reaches-IsBacked toy_primitives first_store reached

-- A comparison of the journal heads alone.
abbrev same_head : RunState → RunState → Bool
same_head a b =
    (a.journal_sequence == b.journal_sequence) && str_eq a.journal_head_digest b.journal_head_digest

verified_snapshot-IsAccepted_example :
    (verified_snapshot toy_primitives same_head first_store.records (some created_state)
      ≡ ok (some (record { records = first_store.records; state = created_state })))
    ↔ IsAccepted same_head first_store.records first_store.projection
        (some created_state)
        (some (record { records = first_store.records; state = created_state }))
verified_snapshot-IsAccepted_example =
    verified_snapshot-IsAccepted toy_primitives same_head first_store reached (some created_state)
      (some (record { records = first_store.records; state = created_state }))

append-exclusive_example :
    append toy_primitives first_store ExpectedHead.empty configured.event
    ≢ ok (first_store, first_commit)
append-exclusive_example =
    append-exclusive toy_primitives new_store ExpectedHead.empty created.event configured.event
      first_store first_store first_commit first_commit first_append

audited : from_snapshot (created ∷ []) created_state ≡ ok first_store.index
unfolding from_snapshot fold index_record contains index_body next_record record_digest set_insert
audited = refl

abbrev second_index : VerifiedRunIndex
second_index = record first_store.index {
  last_record = some configured;
  event_ids = created.event.event_id ∷ configured.event.event_id ∷ [];
}

passes : index_record first_store.index configured ≡ ok second_index
unfolding index_record contains next_record record_digest index_body set_insert
passes = refl

refused : {E A : Type 0} {e : E} {a : A} → ◌≡◌ {A = Result E A} (err e) (ok a) → ⊥
refused h = cc

anchored : IsAnchored default_anchors first_store.index configured
unfolding tool_output_anchor_for completion_output_anchor_for receipt_anchor_for next_record
    record_digest
anchored = record {
  output = λ anchor e. absurd (refused e);
  completion_output = λ anchor e. absurd (refused e);
  receipt = λ anchor e. absurd (refused e);
}

apply_committed-from_snapshot_example :
    apply_committed default_anchors first_store.index configured configured_state
    ≡ from_snapshot (created ∷ configured ∷ []) configured_state
apply_committed-from_snapshot_example =
    apply_committed-from_snapshot default_anchors (created ∷ []) created_state configured_state
      first_store.index configured second_index audited anchored passes
