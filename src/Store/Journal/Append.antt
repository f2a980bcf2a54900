-- ===== src/Store/Journal/Append.antt =====
-- The store refines the replay of its journal: `append` of crates/xgeny-local-store/src/memory.rs.
use xgeny_cli.Prelude.{
  Option, none, some, [], ◌∷◌, ◌++◌, true, false, not, ok, >>=-eq-ok, >>=-ok, reject_if-eq-ok,
  map_err, map_err-eq-ok, ok_injective, contains, set_insert, not-false, ◌≡◌, refl, sym, ap, ◌∙◌,
}
use xgeny_cli.WorkGraph.Event.{RunEvent, EventRecord}
use xgeny_cli.WorkGraph.State.{RunState}
use xgeny_cli.WorkGraph.Digest.{Primitives}
use xgeny_cli.WorkGraph.Reducer.{next_record, apply_record, replay_from, replay_transition_error}
use xgeny_cli.WorkGraph.Reducer.Journal.{replay_from-append}
use xgeny_cli.Store.Errors.{ExpectedHead, head_eq, StoreError}
use xgeny_cli.Store.Index.{
  VerifiedRunIndex, head, default_anchors, CommitAnchors, commit_body, apply_committed,
}
use xgeny_cli.Store.Bundles.{verify_bundles}
use xgeny_cli.Store.Journal.{Commit, MemoryRunStore, new_store, prepare_commit, append}

apply_committed-ends :
    (anchors : CommitAnchors) (index : VerifiedRunIndex) (r : EventRecord) (state : RunState)
    (index' : VerifiedRunIndex)
    → apply_committed anchors index r state ≡ ok index'
    → (index'.state ≡ some state) × (index'.last_record ≡ some r)
unfolding apply_committed
apply_committed-ends anchors index r state index' h =
    let (indexed, _, last) =
      >>=-eq-ok
        (commit_body anchors
          (record index { event_ids = set_insert r.event.event_id index.event_ids }) r r.event.body)
        _ h in
    (sym (ap (λ i. i.state) (ok_injective last)), sym (ap (λ i. i.last_record) (ok_injective last)))

module _ (prims : Primitives) where
  -- What an append that succeeds has done.
  pub record Appends (store : MemoryRunStore) (expected : ExpectedHead) (event : RunEvent)
      (store' : MemoryRunStore) (commit : Commit) : Type 0 where
    pub at_head : head_eq expected (head store.index) ≡ true
    pub fresh : contains event.event_id store.index.event_ids ≡ false
    pub next : next_record prims store.index.last_record event ≡ ok commit.committed
    pub applied : apply_record prims store.index.state commit.committed ≡ ok commit.state
    pub records : store'.records ≡ (store.records ++ commit.committed ∷ [])
    pub projection : store'.projection ≡ some commit.state
    pub state : store'.index.state ≡ some commit.state
    pub last : store'.index.last_record ≡ some commit.committed

  pub append-Appends :
      (store : MemoryRunStore) (expected : ExpectedHead) (event : RunEvent)
      (store' : MemoryRunStore) (commit : Commit)
      → append prims store expected event ≡ ok (store', commit)
      → Appends store expected event store' commit
  unfolding append prepare_commit
  append-Appends store expected event store' commit h =
      let (_, _, h1) = >>=-eq-ok (verify_bundles event.body) _ h in
      let (made, prepared, h2) = >>=-eq-ok (prepare_commit prims store.index expected event) _ h1 in
      let (index, kept, last) =
        >>=-eq-ok (apply_committed default_anchors store.index made.committed made.state) _ h2 in
      let (at_head, h3) =
        reject_if-eq-ok (not (head_eq expected (head store.index))) _ _ prepared in
      let (fresh, h4) = reject_if-eq-ok (contains event.event_id store.index.event_ids) _ _ h3 in
      let (r, next, h5) =
        >>=-eq-ok (map_err StoreError.in_record (next_record prims store.index.last_record event)) _
          h4 in
      let (state, applied, h6) =
        >>=-eq-ok (map_err StoreError.in_transition (apply_record prims store.index.state r)) _
          h5 in
      let same : made ≡ commit = ap (λ p. p.1) (ok_injective last) in
      let (ends_state, ends_last) =
        apply_committed-ends default_anchors store.index made.committed made.state index kept in
      let same_record : r ≡ commit.committed =
        ap (λ c. c.committed) (ok_injective h6) ∙ ap (λ c. c.committed) same in
      let same_state : state ≡ commit.state =
        ap (λ c. c.state) (ok_injective h6) ∙ ap (λ c. c.state) same in
      record {
        at_head = not-false _ at_head;
        fresh = fresh;
        next =
            map_err-eq-ok _ (next_record prims store.index.last_record event) next
            ∙ ap ok same_record;
        applied =
            ap (apply_record prims store.index.state) (sym same_record)
            ∙ map_err-eq-ok _ (apply_record prims store.index.state r) applied
            ∙ ap ok same_state;
        records =
            sym (ap (λ p. p.0.records) (ok_injective last))
            ∙ ap (λ c. store.records ++ c.committed ∷ []) same;
        projection =
            sym (ap (λ p. p.0.projection) (ok_injective last)) ∙ ap (λ c. some c.state) same;
        state =
            sym (ap (λ p. p.0.index.state) (ok_injective last))
            ∙ ends_state
            ∙ ap (λ c. some c.state) same;
        last =
            sym (ap (λ p. p.0.index.last_record) (ok_injective last))
            ∙ ends_last
            ∙ ap (λ c. some c.committed) same;
      }

  -- The stores that appends lead to from the empty one.
  pub data Reaches : MemoryRunStore → Type 0 where
    created : Reaches new_store
    appended :
        (store : MemoryRunStore) (expected : ExpectedHead) (event : RunEvent)
        (store' : MemoryRunStore) (commit : Commit)
        → Reaches store
        → append prims store expected event ≡ ok (store', commit)
        → Reaches store'

  -- The projection and the index's own are the replay of the records.
  pub record IsBacked (store : MemoryRunStore) : Type 0 where
    pub replayed : replay_from prims none store.records ≡ ok store.projection
    pub indexed : store.index.state ≡ store.projection

  replay_from-step :
      (current : Option RunState) (r : EventRecord) (state : RunState)
      → apply_record prims current r ≡ ok state
      → replay_from prims current (r ∷ []) ≡ ok (some state)
  unfolding replay_from
  replay_from-step current r state h =
      >>=-ok (map_err replay_transition_error (apply_record prims current r)) _
        (ap (map_err replay_transition_error) h)

  -- In every store that appends lead to, the projection, and the one that the next append builds on,
  -- is the replay of the store's records.
  pub Reaches-IsBacked : (store : MemoryRunStore) → Reaches store → IsBacked store
  unfolding replay_from
  Reaches-IsBacked _ created = record { replayed = refl; indexed = refl }
  Reaches-IsBacked _ (appended store expected event store' commit before h) =
      let backed = Reaches-IsBacked store before in
      let appends = append-Appends store expected event store' commit h in
      record {
        replayed =
            ap (replay_from prims none) appends.records
            ∙ replay_from-append prims none store.records (commit.committed ∷ [])
            ∙ >>=-ok (replay_from prims none store.records) _ backed.replayed
            ∙ replay_from-step store.projection commit.committed commit.state (
                ap (λ s. apply_record prims s commit.committed) (sym backed.indexed)
                ∙ appends.applied)
            ∙ ap ok (sym appends.projection);
        indexed = appends.state ∙ sym appends.projection;
      }
