-- ===== src/WorkGraph/Reducer/Grants.antt =====
-- A grant that is spent stays spent, whatever events follow in the journal: `apply_record` and
-- `replay` of crates/xgeny-workgraph/src/lib.rs.
use xgeny_cli.Prelude.{
  ◌≡◌, ◌≢◌, sym, ap, ◌∙◌, subst, inl, inr, String, some, List, [], ◌∷◌, ok, >>=-eq-ok, ok_injective,
  map_err, map_err-eq-ok, Bool-cases, str_eq, eq_iff, some_injective, lookup,
}
use xgeny_cli.WorkGraph.Event.{EffectIntent, EventRecord}
use xgeny_cli.WorkGraph.State.{RunState}
use xgeny_cli.WorkGraph.Digest.{Primitives}
use xgeny_cli.WorkGraph.Intent.{commit_effect_intent}
use xgeny_cli.WorkGraph.Intent.Commit.{
  consume_and_commit-grants, consume_and_commit-unused, check_intent_shape-once,
}
use xgeny_cli.WorkGraph.Intent.Authorization.{IsSpent, IsSpent-commit, spent_use}
use xgeny_cli.WorkGraph.Reducer.{apply_record, replay_from, replay_transition_error}
use xgeny_cli.WorkGraph.Reducer.Moves.{Outcome}
use xgeny_cli.WorkGraph.Reducer.Journal.{
  IsWellFormed, apply_record-Outcome, apply_record-IsWellFormed,
}

module _ (prims : Primitives) where
  Outcome-IsSpent :
      (state state' : RunState) (grant_id : String)
      → IsSpent prims grant_id state.authorization_consumption
      → Outcome prims state state'
      → IsSpent prims grant_id state'.authorization_consumption
  Outcome-IsSpent state state' grant_id spent (Outcome.grows _ _ grants) =
      subst (IsSpent prims grant_id) (sym grants) spent
  Outcome-IsSpent state state' grant_id (c, found, used) (Outcome.commits step_id intent m) =
      let (_, unused) =
        consume_and_commit-unused state step_id m.before intent state'
          (check_intent_shape-once intent m.shape) m.consumed in
      let written =
        consume_and_commit-grants state step_id m.before intent state' grant_id m.consumed in
      elim (Bool-cases (str_eq intent.authorization.grant_id grant_id)) [
        | inl e ↦ absurd (
            spent_use prims state intent c
              (ap (λ g. lookup g state.authorization_consumption)
                  ((eq_iff intent.authorization.grant_id grant_id).0 e)
                ∙ found)
              used unused)
        | inr e ↦ (c, rw e at written ∙ found, used)
      ]
  Outcome-IsSpent state state' grant_id spent (Outcome.changes c) =
      subst (λ s. IsSpent prims grant_id s.authorization_consumption) (sym c.result) spent

  replay_from-IsSpent :
      (state : RunState) (records : List EventRecord) (end : RunState) (grant_id : String)
      → IsWellFormed state
      → IsSpent prims grant_id state.authorization_consumption
      → replay_from prims (some state) records ≡ ok (some end)
      → IsSpent prims grant_id end.authorization_consumption
  unfolding replay_from
  replay_from-IsSpent state [] end grant_id w spent h =
      subst (λ s. IsSpent prims grant_id s.authorization_consumption)
        (some_injective (ok_injective h)) spent
  replay_from-IsSpent state (r ∷ rs) end grant_id w spent h =
      let (next, first, rest) =
        >>=-eq-ok (map_err replay_transition_error (apply_record prims (some state) r)) _ h in
      let applied = map_err-eq-ok _ _ first in
      let (middle, o, same) = apply_record-Outcome prims state r next w.0 applied in
      replay_from-IsSpent next rs end grant_id
        (apply_record-IsWellFormed prims (some state) r next w applied)
        (subst (λ s. IsSpent prims grant_id s.authorization_consumption) (sym same)
          (Outcome-IsSpent state middle grant_id spent o))
        rest

  -- From a well-formed projection in which a grant's one use is spent, whatever records are replayed,
  -- no intent can be committed on that grant.
  pub replay_from-never_reused :
      (state : RunState) (records : List EventRecord) (end : RunState) (step_id : String)
      (intent : EffectIntent) (state' : RunState)
      → IsWellFormed state
      → IsSpent prims intent.authorization.grant_id state.authorization_consumption
      → replay_from prims (some state) records ≡ ok (some end)
      → commit_effect_intent prims end step_id intent ≢ ok state'
  replay_from-never_reused state records end step_id intent state' w spent h =
      IsSpent-commit prims end step_id intent state'
        (replay_from-IsSpent state records end intent.authorization.grant_id w spent h)
