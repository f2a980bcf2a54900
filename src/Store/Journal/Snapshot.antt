-- ===== src/Store/Journal/Snapshot.antt =====
-- The check of a persisted projection against its journal: `verified_snapshot` of
-- crates/xgeny-local-store/src/lib.rs, beside the records that appends have made.
use xgeny_cli.Prelude.{
  Option, none, some, List, [], ◌∷◌, Bool, true, false, not, ok, ◌>>◌, >>=-eq-ok, >>=-ok, reject_if,
  map_err, ok_or, ok_injective, ◌≡◌, ◌↔◌, refl, sym, ap, ◌∙◌, is_some,
}
use xgeny_cli.WorkGraph.Event.{EventRecord}
use xgeny_cli.WorkGraph.State.{RunState}
use xgeny_cli.WorkGraph.Errors.{ReplayError}
use xgeny_cli.WorkGraph.Digest.{Primitives}
use xgeny_cli.WorkGraph.Reducer.{apply_record, replay, replay_from, replay_transition_error}
use xgeny_cli.Store.Errors.{StoreError}
use xgeny_cli.Store.Journal.{RunSnapshot, MemoryRunStore, verified_snapshot}
use xgeny_cli.Store.Journal.Append.{Reaches, Reaches-IsBacked}

-- What may be answered beside some records: the projection of the records, the persisted one, and
-- the snapshot. `same` compares projections.
abbrev pub IsAccepted :
    (RunState → RunState → Bool)
    → List EventRecord
    → Option RunState
    → Option RunState
    → Option RunSnapshot
    → Type 0
IsAccepted same records none none answer = answer ≡ none
IsAccepted same records none (some persisted) answer = ⊥
IsAccepted same records (some state) none answer = ⊥
IsAccepted same records (some state) (some persisted) answer =
    (same persisted state ≡ true) × (answer ≡ some (record { records = records; state = state }))

-- The last test of `verified_snapshot`, by what the comparison says.
test-accepts :
    (equal : Bool) (error : StoreError) (snapshot : RunSnapshot) (answer : Option RunSnapshot)
    → ((reject_if (not equal) error >> ok (some snapshot)) ≡ ok answer)
      ↔ ((equal ≡ true) × (answer ≡ some snapshot))
test-accepts true error snapshot answer =
    (λ h. (refl, sym (ok_injective h)), λ (_, e). ap ok (sym e))
test-accepts false error snapshot answer = (λ h. cc, λ (e, _). cc)

module _ (prims : Primitives) where
  replay_from-some :
      (state : RunState) (records : List EventRecord) (end : Option RunState)
      → replay_from prims (some state) records ≡ ok end
      → is_some end ≡ true
  unfolding replay_from
  replay_from-some state [] end h = ap is_some (sym (ok_injective h))
  replay_from-some state (r ∷ rs) end h =
      let (state', _, rest) =
        >>=-eq-ok (map_err replay_transition_error (apply_record prims (some state) r)) _ h in
      replay_from-some state' rs end rest

  replayed-accepts :
      (same : RunState → RunState → Bool) (records : List EventRecord)
      (projection persisted : Option RunState) (answer : Option RunSnapshot)
      → replay_from prims none records ≡ ok projection
      → (verified_snapshot prims same records persisted ≡ ok answer)
        ↔ IsAccepted same records projection persisted answer
  unfolding verified_snapshot replay replay_from
  replayed-accepts same [] none none answer h = (λ k. sym (ok_injective k), λ e. ap ok (sym e))
  replayed-accepts same [] none (some persisted) answer h = (λ k. cc, λ e. absurd e)
  replayed-accepts same [] (some state) persisted answer h = cc (ok_injective h)
  replayed-accepts same (r ∷ rs) none persisted answer h =
      let (state, _, rest) =
        >>=-eq-ok (map_err replay_transition_error (apply_record prims none r)) _ h in
      cc (replay_from-some state rs none rest)
  replayed-accepts same (r ∷ rs) (some state) none answer h = (λ k. cc, λ e. absurd e)
  replayed-accepts same (r ∷ rs) (some state) (some persisted) answer h =
      let replays =
        >>=-ok (map_err StoreError.in_replay (replay prims (r ∷ rs)))
          (λ replayed.
            reject_if (not (same persisted replayed))
              (StoreError.corrupt "persisted projection differs from event replay")
            >> ok (some (record { records = r ∷ rs; state = replayed })))
          (ap (map_err StoreError.in_replay) (
            >>=-ok (replay_from prims none (r ∷ rs)) (λ s. ok_or s ReplayError.empty_journal) h)) in
      let (accepts, accepted) =
        test-accepts (same persisted state) _ (record { records = r ∷ rs; state = state }) answer in
      (λ k. accepts (sym replays ∙ k), λ e. replays ∙ accepted e)

  -- Beside the records of a store that appends lead to, `verified_snapshot` accepts exactly these
  -- persisted projections, whatever is persisted: none where the store has no projection, with no
  -- snapshot; and one that compares equal to the store's projection, with a snapshot of the records
  -- and of the projection that the appends made.
  pub verified_snapshot-IsAccepted :
      (same : RunState → RunState → Bool) (store : MemoryRunStore)
      → Reaches prims store
      → (persisted : Option RunState) (answer : Option RunSnapshot)
      → (verified_snapshot prims same store.records persisted ≡ ok answer)
        ↔ IsAccepted same store.records store.projection persisted answer
  verified_snapshot-IsAccepted same store reaches persisted answer =
      replayed-accepts same store.records store.projection persisted answer
        (Reaches-IsBacked prims store reaches).replayed
