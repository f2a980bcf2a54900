-- ===== src/Store/Journal/Exclusive.antt =====
-- Optimistic appends exclude one another: the head check of `prepare_commit` of
-- crates/xgeny-local-store/src/lib.rs.
use xgeny_cli.Prelude.{ℕ, ◌+◌, Option, none, some, true, ◌==◌, ok, ◌≡◌, ◌≢◌, subst, arith, and_true}
use xgeny_cli.WorkGraph.Event.{RunEvent, EventRecord}
use xgeny_cli.WorkGraph.Digest.{Primitives}
use xgeny_cli.WorkGraph.Reducer.{next_record}
use xgeny_cli.WorkGraph.Reducer.Chain.{next_record-links}
use xgeny_cli.Store.Errors.{ExpectedHead, head_eq}
use xgeny_cli.Store.Index.{head_of}
use xgeny_cli.Store.Journal.{Commit, MemoryRunStore, append}
use xgeny_cli.Store.Journal.Append.{append-Appends}

module _ (prims : Primitives) where
  -- A head that was right before a record is wrong after it.
  stale :
      (expected : ExpectedHead) (last : Option EventRecord) (event : RunEvent) (r : EventRecord)
      → next_record prims last event ≡ ok r
      → head_eq expected (head_of last) ≡ true
      → head_eq expected (ExpectedHead.exact r.sequence r.digest) ≡ true
      → ⊥
  stale ExpectedHead.empty last event r h before after = cc
  stale (ExpectedHead.exact m d) none event r h before after = cc
  stale (ExpectedHead.exact m d) (some previous) event r h before after =
      let links = next_record-links prims previous event r h in
      let (at_previous, _) = and_true (m == previous.sequence) _ before in
      let (at_next, _) = and_true (m == r.sequence) _ after in
      apart m previous.sequence r.sequence links.0 at_previous at_next
    where
      apart : (a b c : ℕ) → c ≡ b + 1 → (a == b) ≡ true → (a == c) ≡ true → ⊥
      apart a b c next first second = ground arith

  -- Of two appends that expect the same head, one after the other, the second fails.
  pub append-exclusive :
      (store : MemoryRunStore) (expected : ExpectedHead) (first second : RunEvent)
      (store' store'' : MemoryRunStore) (commit commit' : Commit)
      → append prims store expected first ≡ ok (store', commit)
      → append prims store' expected second ≢ ok (store'', commit')
  append-exclusive store expected first second store' store'' commit commit' h k =
      let one = append-Appends prims store expected first store' commit h in
      let two = append-Appends prims store' expected second store'' commit' k in
      stale expected store.index.last_record first commit.committed one.next one.at_head
        (subst (λ l. head_eq expected (head_of l) ≡ true) one.last two.at_head)
