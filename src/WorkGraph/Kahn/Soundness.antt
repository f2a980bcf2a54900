-- ===== src/WorkGraph/Kahn/Soundness.antt =====
-- What the derived frontier says of the Steps: a Step that is offered for admission has every
-- dependency released, and a Step listed as verified is completed with a Receipt. By
-- crates/xgeny-workgraph/src/lib.rs, `record_step` and `derive_frontier`.
use xgeny_cli.Prelude.{
  ℕ, suc, ◌+◌, ◌≤◌, ◌≡◌, ◌≢◌, refl, sym, ap, ◌∙◌, ◌⊎◌, inl, inr, String, some, List, [], ◌∷◌, ◌++◌,
  Bool, true, false, ok, ◌>>=◌, >>=-eq-ok, ok_injective, expect, fold, length, length-append, All,
  StringMap, lookup, arith, text_le, expect-eq-ok, All-snoc, sort_by-nil, dedup-sort_by-nil,
}
use xgeny_cli.WorkGraph.Status.{StepStatus, ContinuationAction}
use xgeny_cli.WorkGraph.State.{RunState, StepState}
use xgeny_cli.WorkGraph.Steps.{receipt_releases_dependency, blocker_reason}
use xgeny_cli.WorkGraph.Intent.Release.{IsReleased}
use xgeny_cli.WorkGraph.Frontier.{
  FrontierAssembly, Derivation, partition_dependency, partition_dependencies, DependencyBlocker,
  DependencyOutcome, record_status, record_planned, record_completed, blocker_eq, blocker_le,
  push_action,
}

-- The outcome of a Step is satisfied.
abbrev pub IsSatisfied : FrontierAssembly → String → Type 0
IsSatisfied assembly d = lookup d assembly.outcomes ≡ some DependencyOutcome.satisfied

-- The number of dependencies that wait or block.
abbrev unsatisfied : List String × List DependencyBlocker → ℕ
unsatisfied so_far = length so_far.0 + length so_far.1

-- One round counts its dependency, or finds it satisfied.
partition_dependency-count :
    (assembly : FrontierAssembly) (state : RunState) (so_far : List String × List DependencyBlocker)
    (d : String) (so_far' : List String × List DependencyBlocker)
    → partition_dependency assembly state so_far d ≡ ok so_far'
    → (IsSatisfied assembly d × (unsatisfied so_far' ≡ unsatisfied so_far))
      ⊎ (unsatisfied so_far' ≡ suc (unsatisfied so_far))
unfolding partition_dependency
partition_dependency-count assembly state (waits, blockers) d so_far' h =
    let (outcome, found, rest) = >>=-eq-ok (expect (lookup d assembly.outcomes)) _ h in
    by_outcome outcome (expect-eq-ok _ found) rest
  where
    counted : (o : DependencyOutcome) → Derivation (List String × List DependencyBlocker)
    counted o = elim o [
      | DependencyOutcome.satisfied ↦ ok (waits, blockers)
      | DependencyOutcome.pending ↦ ok (waits ++ d ∷ [], blockers)
      | DependencyOutcome.blocked ↦ do
        dependency ← expect (lookup d state.steps)
        ok (waits, blockers ++ record { step_id = d; reason = blocker_reason dependency } ∷ [])
    ]

    by_outcome :
        (o : DependencyOutcome)
        → lookup d assembly.outcomes ≡ some o
        → counted o ≡ ok so_far'
        → (IsSatisfied assembly d × (unsatisfied so_far' ≡ unsatisfied (waits, blockers)))
          ⊎ (unsatisfied so_far' ≡ suc (unsatisfied (waits, blockers)))
    by_outcome DependencyOutcome.satisfied e r = inl (e, sym (ap unsatisfied (ok_injective r)))
    by_outcome DependencyOutcome.pending e r =
        inr (sym (ap unsatisfied (ok_injective r)) ∙ omega (arith, length-append waits (d ∷ [])))
    by_outcome DependencyOutcome.blocked e r =
        let (dependency, _, last) = >>=-eq-ok (expect (lookup d state.steps)) _ r in
        inr (
          sym (ap unsatisfied (ok_injective last)) ∙ omega (arith, length-append blockers (_ ∷ [])))

-- The loop over the dependencies loses none of what it has counted, and where it counts nothing
-- each dependency is satisfied.
partition-count :
    (assembly : FrontierAssembly) (state : RunState) (so_far : List String × List DependencyBlocker)
    (ds : List String) (so_far' : List String × List DependencyBlocker)
    → fold (partition_dependency assembly state) so_far ds ≡ ok so_far'
    → (unsatisfied so_far ≤ unsatisfied so_far')
      × (unsatisfied so_far' ≡ unsatisfied so_far → All (IsSatisfied assembly) ds)
unfolding fold
partition-count assembly state so_far [] so_far' h =
    (omega (arith, ap unsatisfied (ok_injective h)), λ _. tt)
partition-count assembly state so_far (d ∷ ds) so_far' h =
    let (middle, first, rest) = >>=-eq-ok (partition_dependency assembly state so_far d) _ h in
    let (grows, all) = partition-count assembly state middle ds so_far' rest in
    elim (partition_dependency-count assembly state so_far d middle first) [
      | inl (satisfied, same) ↦
          (omega arith, λ none_counted. (satisfied, all (none_counted ∙ sym same)))
      | inr more ↦ (omega arith, λ none_counted. absurd (omega arith))
    ]

-- Where nothing waits and nothing blocks, each dependency of the Step is satisfied.
pub partition_dependencies-IsSatisfied :
    (assembly : FrontierAssembly) (state : RunState) (step : StepState) (waits : List String)
    (blockers : List DependencyBlocker)
    → partition_dependencies assembly state step ≡ ok (waits, blockers)
    → waits ≡ []
    → blockers ≡ []
    → All (IsSatisfied assembly) step.depends_on
unfolding partition_dependencies
partition_dependencies-IsSatisfied assembly state step waits blockers h no_waits no_blockers =
    let (counted, folded, last) =
      >>=-eq-ok (fold (partition_dependency assembly state) ([], []) step.depends_on) _ h in
    let same = ok_injective last in
    let waits_nil = sort_by-nil text_le counted.0 (ap (λ p. p.0) same ∙ no_waits) in
    let blockers_nil =
      dedup-sort_by-nil blocker_eq blocker_le counted.1 (ap (λ p. p.1) same ∙ no_blockers) in
    (partition-count assembly state ([], []) step.depends_on counted folded).1 (omega arith)

-- A Step that may be admitted: it is planned, and its dependencies are released.
abbrev pub CanBeAdmitted : StringMap StepState → String → Type 0
CanBeAdmitted steps step_id =
    (step : StepState) × (lookup step_id steps ≡ some step)
    × (step.status ≡ StepStatus.planned)
    × All (IsReleased steps) step.depends_on

abbrev pub ActionIsSound : StringMap StepState → ℕ × String × ContinuationAction → Type 0
ActionIsSound steps ranked = ranked.2 ≡ ContinuationAction.admit → CanBeAdmitted steps ranked.1

-- What the assembly has collected so far is true of the Steps.
abbrev pub AssemblyIsSound : StringMap StepState → FrontierAssembly → Type 0
AssemblyIsSound steps assembly =
    ((d : String) → IsSatisfied assembly d → IsReleased steps d)
    × All (ActionIsSound steps) assembly.ranked_actions
    × All (IsReleased steps) assembly.verified_completed_step_ids

pub All-satisfied :
    (steps : StringMap StepState) (assembly : FrontierAssembly) (ds : List String)
    → ((d : String) → IsSatisfied assembly d → IsReleased steps d)
    → All (IsSatisfied assembly) ds
    → All (IsReleased steps) ds
All-satisfied steps assembly [] sound all = tt
All-satisfied steps assembly (d ∷ ds) sound (s, all) =
    (sound d s, All-satisfied steps assembly ds sound all)

-- What `record_status` records of a Step is sound, and its outcome is satisfied only for a released
-- Step.
unfoldable pub RecordedIsSound :
    StringMap StepState → FrontierAssembly → String → FrontierAssembly × DependencyOutcome → Type 0
RecordedIsSound steps assembly step_id (recorded, outcome) =
    (recorded.outcomes ≡ assembly.outcomes)
    × All (ActionIsSound steps) recorded.ranked_actions
    × All (IsReleased steps) recorded.verified_completed_step_ids
    × (outcome ≡ DependencyOutcome.satisfied → IsReleased steps step_id)

module _ (state : RunState) (assembly : FrontierAssembly) (step_id : String) (step : StepState)
    (sound : AssemblyIsSound state.steps assembly)
    (found : lookup step_id state.steps ≡ some step) where
  planned-RecordedIsSound :
      (waits : List String) (blockers : List DependencyBlocker)
      → step.status ≡ StepStatus.planned
      → (waits ≡ [] → blockers ≡ [] → All (IsReleased state.steps) step.depends_on)
      → RecordedIsSound state.steps assembly step_id
          (record_planned assembly step_id waits blockers)
  unfolding record_planned RecordedIsSound
  planned-RecordedIsSound waits (b ∷ bs) planned free = (refl, sound.1, sound.2, λ e. cc)
  planned-RecordedIsSound (p ∷ ps) [] planned free = (refl, sound.1, sound.2, λ e. cc)
  planned-RecordedIsSound [] [] planned free = (
    refl,
    All-snoc (ActionIsSound state.steps) assembly.ranked_actions
        (5, step_id, ContinuationAction.admit) sound.1
        (λ _. (step, found, planned, free refl refl)),
    sound.2,
    λ e. cc,
  )

  completed-RecordedIsSound :
      (released : Bool)
      → receipt_releases_dependency step ≡ released
      → RecordedIsSound state.steps assembly step_id (record_completed assembly step_id released)
  unfolding record_completed RecordedIsSound
  completed-RecordedIsSound true is = (
    refl,
    sound.1,
    All-snoc (IsReleased state.steps) assembly.verified_completed_step_ids step_id sound.2
        (step, found, is),
    λ _. (step, found, is),
  )
  completed-RecordedIsSound false is = (refl, sound.1, sound.2, λ e. cc)

  pushed-RecordedIsSound :
      (rank : ℕ) (action : ContinuationAction)
      → action ≢ ContinuationAction.admit
      → RecordedIsSound state.steps assembly step_id
          (push_action assembly rank step_id action, DependencyOutcome.pending)
  unfolding RecordedIsSound
  pushed-RecordedIsSound rank action other = (
    refl,
    All-snoc (ActionIsSound state.steps) assembly.ranked_actions (rank, step_id, action) sound.1
        (λ e. absurd (other e)),
    sound.2,
    λ e. cc,
  )

  pub record_status-RecordedIsSound :
      (status : StepStatus) (waits : List String) (blockers : List DependencyBlocker)
      → step.status ≡ status
      → (waits ≡ [] → blockers ≡ [] → All (IsReleased state.steps) step.depends_on)
      → RecordedIsSound state.steps assembly step_id
          (record_status assembly step_id status (receipt_releases_dependency step) waits blockers)
  unfolding record_status RecordedIsSound
  record_status-RecordedIsSound StepStatus.planned waits blockers at free =
      planned-RecordedIsSound waits blockers at free
  record_status-RecordedIsSound StepStatus.intent_committed waits blockers at free =
      pushed-RecordedIsSound 4 ContinuationAction.drive_effect cc
  record_status-RecordedIsSound StepStatus.executing waits blockers at free =
      pushed-RecordedIsSound 0 ContinuationAction.drive_effect cc
  record_status-RecordedIsSound StepStatus.effect_unknown waits blockers at free =
      pushed-RecordedIsSound 1 ContinuationAction.drive_effect cc
  record_status-RecordedIsSound StepStatus.reconciling waits blockers at free =
      pushed-RecordedIsSound 2 ContinuationAction.drive_effect cc
  record_status-RecordedIsSound StepStatus.validating waits blockers at free =
      pushed-RecordedIsSound 3 ContinuationAction.verify cc
  record_status-RecordedIsSound StepStatus.completed waits blockers at free =
      completed-RecordedIsSound (receipt_releases_dependency step) refl
  record_status-RecordedIsSound StepStatus.failed waits blockers at free =
      (refl, sound.1, sound.2, λ e. cc)
  record_status-RecordedIsSound StepStatus.manual_required waits blockers at free =
      (refl, sound.1, sound.2, λ e. cc)
