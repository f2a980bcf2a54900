-- ===== src/Store/Journal.antt =====
-- Appending to the journal and reading it back: `prepare_commit` and `verified_snapshot` of
-- crates/xgeny-local-store/src/lib.rs, and `append` and `load_current` of memory.rs on a store
-- without sidecars. An append that fails leaves the store as it is.
pub mod Append
pub mod Snapshot
pub mod Exclusive
use xgeny_cli.Prelude.{
  ℕ, String, Option, none, some, List, [], ◌∷◌, ◌++◌, Bool, true, false, not, Result, ok, err,
  ◌>>=◌, ◌>>◌, reject_if, map_err, is_empty, contains, if◌then◌else◌,
}
use xgeny_cli.WorkGraph.Event.{RunEvent, EventRecord}
use xgeny_cli.WorkGraph.State.{RunState}
use xgeny_cli.WorkGraph.Digest.{Primitives}
use xgeny_cli.WorkGraph.Reducer.{next_record, apply_record, replay}
use xgeny_cli.Store.Errors.{ExpectedHead, head_eq, StoreError}
use xgeny_cli.Store.Index.{VerifiedRunIndex, default_index, head, default_anchors, apply_committed}
use xgeny_cli.Store.Bundles.{verify_bundles}

-- `Commit`
pub record Commit : Type 0 where
  pub committed : EventRecord
  pub state : RunState

-- `RunSnapshot`
pub record RunSnapshot : Type 0 where
  pub records : List EventRecord
  pub state : RunState

-- `MemoryRunStore`, without its sidecars.
pub record MemoryRunStore : Type 0 where
  pub records : List EventRecord
  pub projection : Option RunState
  pub index : VerifiedRunIndex

-- `MemoryRunStore::new`
abbrev pub new_store : MemoryRunStore
new_store = record { records = []; projection = none; index = default_index }

module _ (prims : Primitives) where
  -- `prepare_commit`
  unfoldable pub prepare_commit :
      VerifiedRunIndex → ExpectedHead → RunEvent → Result StoreError Commit
  prepare_commit index expected event = do
    let actual = head index
    reject_if (not (head_eq expected actual)) (StoreError.head_conflict expected actual)
    reject_if (contains event.event_id index.event_ids)
        (StoreError.duplicate_event_id event.event_id)
    r ← map_err StoreError.in_record (next_record prims index.last_record event)
    state ← map_err StoreError.in_transition (apply_record prims index.state r)
    ok (record { committed = r; state = state })

  -- `append`
  unfoldable pub append :
      MemoryRunStore → ExpectedHead → RunEvent → Result StoreError (MemoryRunStore × Commit)
  append store expected event = do
    verify_bundles event.body
    commit ← prepare_commit store.index expected event
    index ← apply_committed default_anchors store.index commit.committed commit.state
    ok (
      record {
        records = store.records ++ commit.committed ∷ [];
        projection = some commit.state;
        index = index;
      },
      commit,
    )

  -- `load_current`
  abbrev pub load_current : MemoryRunStore → Option RunState
  load_current store = store.projection

  -- `verified_snapshot`; `same` is the derived `==` of projections.
  unfoldable pub verified_snapshot :
      (RunState → RunState → Bool)
      → List EventRecord
      → Option RunState
      → Result StoreError (Option RunSnapshot)
  verified_snapshot same [] none = ok none
  verified_snapshot same [] (some persisted) =
      err (StoreError.corrupt "projection exists without committed events")
  verified_snapshot same (r ∷ rs) none =
      err (StoreError.corrupt "committed events exist without a projection")
  verified_snapshot same (r ∷ rs) (some persisted) = do
    replayed ← map_err StoreError.in_replay (replay prims (r ∷ rs))
    reject_if (not (same persisted replayed))
        (StoreError.corrupt "persisted projection differs from event replay")
    ok (some (record { records = r ∷ rs; state = replayed }))
