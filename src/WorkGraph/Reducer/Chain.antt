-- ===== src/WorkGraph/Reducer/Chain.antt =====
-- The hash chain of the journal: `EventRecord::next`, `verify_digest` and
-- `verify_record_against_state` of crates/xgeny-workgraph/src/lib.rs.
use text.Mathlib.TextPositions.{eq_refl}
use xgeny_cli.Prelude.{
  ℕ, ◌+◌, ◌<◌, ◌≡◌, refl, ap, ◌∙◌, String, Option, none, some, true, Result, ok, >>=-eq-ok,
  ok_injective, subst, arith, eq_iff, u64_mod,
}
use xgeny_cli.WorkGraph.Errors.{RecordError}
use xgeny_cli.WorkGraph.Event.{RunEvent, EventRecord}
use xgeny_cli.WorkGraph.State.{RunState}
use xgeny_cli.WorkGraph.Digest.{Primitives, record_digest}
use xgeny_cli.WorkGraph.Reducer.{
  option_eq, sequence_of, next_sequence, digest_of, next_record, verify_digest,
  verify_record_against_state, apply_event, apply_record,
}

option_eq-eq : (a b : Option String) → option_eq a b ≡ true → a ≡ b
option_eq-eq none none h = refl
option_eq-eq none (some b) h = cc
option_eq-eq (some a) none h = cc
option_eq-eq (some a) (some b) h = ap some ((eq_iff a b).0 h)

module _ (prims : Primitives) where
  -- A record that `next` builds carries the digest of its own content.
  pub next_record-verify_digest :
      (previous : Option EventRecord) (event : RunEvent) (r : EventRecord)
      → next_record prims previous event ≡ ok r
      → verify_digest prims r ≡ ok tt
  unfolding next_record verify_digest
  next_record-verify_digest previous event r h =
      let (sequence, first, rest) = >>=-eq-ok (map_sequence previous) _ h in
      let (digest, second, last) =
        >>=-eq-ok (record_digest prims sequence (digest_of previous) event) _ rest in
      subst (λ x. verify_digest prims x ≡ ok tt) (ok_injective last) (rw second (rw eq_refl refl))
    where
      map_sequence : Option EventRecord → Result RecordError ℕ
      map_sequence p = next_sequence (sequence_of p)

  -- What `verify_record_against_state` has checked of a record that it lets through.
  pub verified_links :
      (state : RunState) (r : EventRecord)
      → verify_record_against_state prims (some state) r ≡ ok tt
      → (r.sequence ≡ state.journal_sequence + 1)
        × (r.previous_digest ≡ some state.journal_head_digest)
        × (verify_digest prims r ≡ ok tt)
        × (r.event.run_id ≡ state.run_id)
        × (r.event.authority ≡ state.authority)
        × (r.event.authority_epoch ≡ state.authority_epoch)
  unfolding verify_record_against_state
  verified_links state r h = ground (
    arith,
    option_eq-eq r.previous_digest (some state.journal_head_digest),
    eq_iff r.event.run_id state.run_id,
    eq_iff r.event.authority state.authority,
  )

  -- An accepted event is the next one of the chain: it follows the projection's sequence and head,
  -- carries the digest of its content, and belongs to the same Run, authority and epoch. The new
  -- projection stands at its sequence and digest.
  pub apply_record-links :
      (state : RunState) (r : EventRecord) (state' : RunState)
      → apply_record prims (some state) r ≡ ok state'
      → (r.sequence ≡ state.journal_sequence + 1)
        × (r.previous_digest ≡ some state.journal_head_digest)
        × (verify_digest prims r ≡ ok tt)
        × (r.event.run_id ≡ state.run_id)
        × (r.event.authority ≡ state.authority)
        × (r.event.authority_epoch ≡ state.authority_epoch)
        × (state'.revision ≡ r.sequence)
        × (state'.journal_sequence ≡ r.sequence)
        × (state'.journal_head_digest ≡ r.digest)
  unfolding apply_record
  apply_record-links state r state' h =
      let (checked, first, rest) =
        >>=-eq-ok (verify_record_against_state prims (some state) r) _ h in
      let (applied, second, last) =
        >>=-eq-ok (apply_event prims (some state) r r.event.body) _ rest in
      let links = verified_links state r first in
      (
        links.0,
        links.1,
        links.2,
        links.3,
        links.4,
        links.5,
        ground arith,
        ground arith,
        ground arith,
      )

  -- Conversely, a record that continues the projection's chain passes the checks.
  pub verify_record_of_links :
      (state : RunState) (r : EventRecord)
      → state.journal_sequence + 1 < u64_mod
      → r.sequence ≡ state.journal_sequence + 1
      → r.previous_digest ≡ some state.journal_head_digest
      → verify_digest prims r ≡ ok tt
      → r.event.run_id ≡ state.run_id
      → r.event.authority ≡ state.authority
      → r.event.authority_epoch ≡ state.authority_epoch
      → verify_record_against_state prims (some state) r ≡ ok tt
  unfolding verify_record_against_state
  verify_record_of_links state r bound h1 h2 h3 h4 h5 h6 = ground (
    arith,
    eq_iff state.journal_head_digest state.journal_head_digest,
    eq_iff r.event.run_id state.run_id,
    eq_iff r.event.authority state.authority,
  )

  pub next_record-links :
      (previous : EventRecord) (event : RunEvent) (r : EventRecord)
      → next_record prims (some previous) event ≡ ok r
      → (r.sequence ≡ previous.sequence + 1)
        × (previous.sequence + 1 < u64_mod)
        × (r.previous_digest ≡ some previous.digest)
        × (r.event ≡ event)
  unfolding next_record
  next_record-links previous event r h = ground arith

  -- Writing and reading the journal agree: where the projection stands at the last record and the
  -- event belongs to its Run, authority and epoch, the record that `EventRecord::next` builds passes
  -- every check of `verify_record_against_state`.
  pub next_record-verify_record :
      (state : RunState) (previous : EventRecord) (event : RunEvent) (r : EventRecord)
      → previous.sequence ≡ state.journal_sequence
      → previous.digest ≡ state.journal_head_digest
      → event.run_id ≡ state.run_id
      → event.authority ≡ state.authority
      → event.authority_epoch ≡ state.authority_epoch
      → next_record prims (some previous) event ≡ ok r
      → verify_record_against_state prims (some state) r ≡ ok tt
  next_record-verify_record state previous event r at_sequence at_head run authority epoch h =
      let links = next_record-links previous event r h in
      verify_record_of_links state r (omega arith) (links.0 ∙ ap (λ n. n + 1) at_sequence)
        (links.2 ∙ ap some at_head) (next_record-verify_digest (some previous) event r h)
        (ap (λ e. e.run_id) links.3 ∙ run) (ap (λ e. e.authority) links.3 ∙ authority)
        (ap (λ e. e.authority_epoch) links.3 ∙ epoch)
