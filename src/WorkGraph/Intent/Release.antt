-- ===== src/WorkGraph/Intent/Release.antt =====
-- When the dependencies of a Step are released: `first_unreleased_dependency` and
-- `dependency_release_block_reason` of crates/xgeny-workgraph/src/lib.rs.
use xgeny_cli.Prelude.{
  ◌≡◌, ◌≢◌, inl, inr, Option-cases, String, Option, none, some, true, List, [], ◌∷◌, ok, err,
  >>=-eq-ok, fold, All, StringMap, lookup, arith, subst, ok_or-eq-ok, ok_or,
}
use xgeny_cli.WorkGraph.Errors.{TransitionError}
use xgeny_cli.WorkGraph.State.{RunState, StepState}
use xgeny_cli.WorkGraph.Steps.{receipt_releases_dependency, dependency_release_block_reason}
use xgeny_cli.WorkGraph.Frontier.{DependencyBlocker}
use xgeny_cli.WorkGraph.Intent.{
  check_release, first_unreleased_dependency, check_dependencies_released,
}

-- A Step of the map that is completed with a Receipt.
abbrev pub IsReleased : StringMap StepState → String → Type 0
IsReleased steps dependency_id =
    (dependency : StepState) × (lookup dependency_id steps ≡ some dependency)
    × (receipt_releases_dependency dependency ≡ true)

check_release-some :
    (state : RunState) (step_id : String) (first : DependencyBlocker) (dependency_id : String)
    (first' : Option DependencyBlocker)
    → check_release state step_id (some first) dependency_id ≡ ok first'
    → first' ≢ none
unfolding check_release dependency_release_block_reason
check_release-some state step_id first dependency_id first' h = ground arith

check_release-none :
    (state : RunState) (step_id dependency_id : String) (dependency : StepState)
    → lookup dependency_id state.steps ≡ some dependency
    → check_release state step_id none dependency_id ≡ ok none
    → receipt_releases_dependency dependency ≡ true
unfolding check_release dependency_release_block_reason
check_release-none state step_id dependency_id dependency found h = ground arith

check_release-present :
    (state : RunState) (step_id dependency_id : String) (first first' : Option DependencyBlocker)
    → check_release state step_id first dependency_id ≡ ok first'
    → (dependency : StepState) × (lookup dependency_id state.steps ≡ some dependency)
unfolding check_release
check_release-present state step_id dependency_id first first' e =
    let (dependency, at, _) = >>=-eq-ok (ok_or (lookup dependency_id state.steps) _) _ e in
    (dependency, ok_or-eq-ok _ _ at)

-- A blocker that was found is not forgotten.
fold-some :
    (state : RunState) (step_id : String) (first : DependencyBlocker) (ids : List String)
    → fold (check_release state step_id) (some first) ids ≢ ok none
unfolding fold
fold-some state step_id first [] h = cc
fold-some state step_id first (d ∷ ds) h =
    let (first', found, rest) = >>=-eq-ok (check_release state step_id (some first) d) _ h in
    elim (Option-cases first') [
      | inl e ↦ check_release-some state step_id first d first' found e
      | inr (b, e) ↦
          fold-some state step_id b ds
            (subst (λ o. fold (check_release state step_id) o ds ≡ ok none) e rest)
    ]

fold-none :
    (state : RunState) (step_id : String) (ids : List String)
    → fold (check_release state step_id) none ids ≡ ok none
    → All (IsReleased state.steps) ids
unfolding fold
fold-none state step_id [] h = tt
fold-none state step_id (d ∷ ds) h =
    let (first, found, rest) = >>=-eq-ok (check_release state step_id none d) _ h in
    let (dependency, at) = check_release-present state step_id d none first found in
    elim (Option-cases first) [
      | inl e ↦ (
        (
          dependency,
          at,
          check_release-none state step_id d dependency at
              (subst (λ o. check_release state step_id none d ≡ ok o) e found),
        ),
        fold-none state step_id ds
            (subst (λ o. fold (check_release state step_id) o ds ≡ ok none) e rest),
      )
      | inr (b, e) ↦ absurd (
          fold-some state step_id b ds
            (subst (λ o. fold (check_release state step_id) o ds ≡ ok none) e rest))
    ]

-- Where the check of a Step's dependencies passes, each of them is in the projection and is completed
-- with a Receipt.
pub check_dependencies_released-All :
    (state : RunState) (step_id : String) (step : StepState)
    → check_dependencies_released state step_id step ≡ ok tt
    → All (IsReleased state.steps) step.depends_on
unfolding check_dependencies_released first_unreleased_dependency
check_dependencies_released-All state step_id step h =
    let (blocker, found, rest) =
      >>=-eq-ok (fold (check_release state step.step_id) none step.depends_on) _ h in
    no_blocker blocker found rest
  where
    no_blocker :
        (o : Option DependencyBlocker)
        → fold (check_release state step.step_id) none step.depends_on ≡ ok o
        → elim o [
          | none ↦ ok tt
          | some b ↦ err (TransitionError.dependency_not_released step_id b.step_id b.reason)
        ]
          ≡ ok tt
        → All (IsReleased state.steps) step.depends_on
    no_blocker none e rest = fold-none state step.step_id step.depends_on e
    no_blocker (some b) e rest = cc
