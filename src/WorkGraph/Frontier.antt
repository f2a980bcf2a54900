-- ===== src/WorkGraph/Frontier.antt =====
-- The frontier that is derived from a Run's projection: `FrontierAssembly`,
-- `validate_frontier_graph` and `derive_frontier` of crates/xgeny-workgraph/src/lib.rs. The
-- metrics, which count calls in the crate's tests and are empty elsewhere, are left out.
use xgeny_cli.Prelude.{
  ℕ, String, Bool, true, false, ◌||◌, ◌&&◌, not, List, [], ◌∷◌, ◌++◌, map, Result, ok, ◌>>=◌, ◌>>◌,
  reject_if, expect, fold, length, ltb, ◌==◌, str_eq, StringMap, lookup, insert, saturating_add,
  text_le, text_lt, sort_by, sort_texts, dedup,
}
use xgeny_cli.WorkGraph.Status.{
  StepStatus, status_eq, ContinuationAction, DependencyBlockReason, reason_code,
}
use xgeny_cli.WorkGraph.Errors.{FrontierError}
use xgeny_cli.WorkGraph.State.{RunState, StepState}
use xgeny_cli.WorkGraph.Steps.{receipt_releases_dependency, blocker_reason}

-- `FrontierAction`
pub record FrontierAction : Type 0 where
  pub step_id : String
  pub action : ContinuationAction

-- `DependencyBlocker`
pub record DependencyBlocker : Type 0 where
  pub step_id : String
  pub reason : DependencyBlockReason

-- `WaitingStep`
pub record WaitingStep : Type 0 where
  pub step_id : String
  pub pending_dependencies : List String

-- `BlockedStep`
pub record BlockedStep : Type 0 where
  pub step_id : String
  pub blockers : List DependencyBlocker

-- `WorkFrontier`
pub record WorkFrontier : Type 0 where
  pub run_id : String
  pub revision : ℕ
  pub journal_sequence : ℕ
  pub journal_head_digest : String
  pub total_steps : ℕ
  pub actionable : List FrontierAction
  pub waiting : List WaitingStep
  pub blocked : List BlockedStep
  pub verified_completed_step_ids : List String
  pub unverified_completed_step_ids : List String
  pub failed_step_ids : List String
  pub manual_required_step_ids : List String

-- `WorkFrontier::all_steps_receipt_completed`
unfoldable pub all_steps_receipt_completed : WorkFrontier → Bool
all_steps_receipt_completed frontier =
    ltb 0 frontier.total_steps
    && (length frontier.verified_completed_step_ids == frontier.total_steps)

-- `DependencyOutcome`
pub data DependencyOutcome : Type 0 where
  satisfied pending blocked : DependencyOutcome

-- `FrontierAssembly`; a ranked action is its rank, its Step and the action.
pub record FrontierAssembly : Type 0 where
  pub outcomes : StringMap DependencyOutcome
  pub ranked_actions : List (ℕ × String × ContinuationAction)
  pub waiting : List WaitingStep
  pub blocked : List BlockedStep
  pub verified_completed_step_ids : List String
  pub unverified_completed_step_ids : List String
  pub failed_step_ids : List String
  pub manual_required_step_ids : List String
  pub processed : ℕ

abbrev pub empty_assembly : FrontierAssembly
empty_assembly = record {
  outcomes = [];
  ranked_actions = [];
  waiting = [];
  blocked = [];
  verified_completed_step_ids = [];
  unverified_completed_step_ids = [];
  failed_step_ids = [];
  manual_required_step_ids = [];
  processed = 0;
}

-- The derived `Ord` of `DependencyBlocker`, as `<` and `<=`.
abbrev pub blocker_lt : DependencyBlocker → DependencyBlocker → Bool
blocker_lt a b =
    text_lt a.step_id b.step_id
    || (str_eq a.step_id b.step_id && ltb (reason_code a.reason) (reason_code b.reason))

abbrev pub blocker_eq : DependencyBlocker → DependencyBlocker → Bool
blocker_eq a b = str_eq a.step_id b.step_id && (reason_code a.reason == reason_code b.reason)

abbrev pub blocker_le : DependencyBlocker → DependencyBlocker → Bool
blocker_le a b = blocker_lt a b || blocker_eq a b

abbrev pub Derivation : Type 0 → Type 0
Derivation = Result FrontierError

-- One round of the loop in `partition_dependencies`.
unfoldable pub partition_dependency :
    FrontierAssembly
    → RunState
    → List String × List DependencyBlocker
    → String
    → Derivation (List String × List DependencyBlocker)
partition_dependency assembly state (waits, blockers) dependency_id = do
  outcome ← expect (lookup dependency_id assembly.outcomes)
  elim outcome [
    | DependencyOutcome.satisfied ↦ ok (waits, blockers)
    | DependencyOutcome.pending ↦ ok (waits ++ dependency_id ∷ [], blockers)
    | DependencyOutcome.blocked ↦ do
      dependency ← expect (lookup dependency_id state.steps)
      ok (
        waits,
        blockers ++ record { step_id = dependency_id; reason = blocker_reason dependency } ∷ [],
      )
  ]

unfoldable pub partition_dependencies :
    FrontierAssembly → RunState → StepState → Derivation (List String × List DependencyBlocker)
partition_dependencies assembly state step = do
  (waits, blockers) ← fold (partition_dependency assembly state) ([], []) step.depends_on
  ok (sort_texts waits, dedup blocker_eq (sort_by blocker_le blockers))

abbrev pub push_action : FrontierAssembly → ℕ → String → ContinuationAction → FrontierAssembly
push_action assembly rank step_id action = record assembly {
  ranked_actions = assembly.ranked_actions ++ (rank, step_id, action) ∷ [];
}

-- The `Planned` arms of `record_status`.
unfoldable pub record_planned :
    FrontierAssembly
    → String
    → List String
    → List DependencyBlocker
    → FrontierAssembly × DependencyOutcome
record_planned assembly step_id waits (b ∷ bs) = (
  record assembly {
    blocked = assembly.blocked ++ record { step_id = step_id; blockers = b ∷ bs } ∷ [];
  },
  DependencyOutcome.blocked,
)
record_planned assembly step_id (p ∷ ps) [] = (
  record assembly {
    waiting = assembly.waiting ++ record { step_id = step_id; pending_dependencies = p ∷ ps } ∷ [];
  },
  DependencyOutcome.pending,
)
record_planned assembly step_id [] [] =
    (push_action assembly 5 step_id ContinuationAction.admit, DependencyOutcome.pending)

-- The `Completed` arms of `record_status`.
unfoldable pub record_completed :
    FrontierAssembly → String → Bool → FrontierAssembly × DependencyOutcome
record_completed assembly step_id true = (
  record assembly {
    verified_completed_step_ids = assembly.verified_completed_step_ids ++ step_id ∷ [];
  },
  DependencyOutcome.satisfied,
)
record_completed assembly step_id false = (
  record assembly {
    unverified_completed_step_ids = assembly.unverified_completed_step_ids ++ step_id ∷ [];
  },
  DependencyOutcome.blocked,
)

-- `record_status`, by the Step's status and whether its Receipt releases what depends on it.
unfoldable pub record_status :
    FrontierAssembly
    → String
    → StepStatus
    → Bool
    → List String
    → List DependencyBlocker
    → FrontierAssembly × DependencyOutcome
unfolding record_planned record_completed
record_status assembly step_id StepStatus.planned released waits blockers =
    record_planned assembly step_id waits blockers
record_status assembly step_id StepStatus.intent_committed released waits blockers =
    (push_action assembly 4 step_id ContinuationAction.drive_effect, DependencyOutcome.pending)
record_status assembly step_id StepStatus.executing released waits blockers =
    (push_action assembly 0 step_id ContinuationAction.drive_effect, DependencyOutcome.pending)
record_status assembly step_id StepStatus.effect_unknown released waits blockers =
    (push_action assembly 1 step_id ContinuationAction.drive_effect, DependencyOutcome.pending)
record_status assembly step_id StepStatus.reconciling released waits blockers =
    (push_action assembly 2 step_id ContinuationAction.drive_effect, DependencyOutcome.pending)
record_status assembly step_id StepStatus.validating released waits blockers =
    (push_action assembly 3 step_id ContinuationAction.verify, DependencyOutcome.pending)
record_status assembly step_id StepStatus.completed released waits blockers =
    record_completed assembly step_id released
record_status assembly step_id StepStatus.failed released waits blockers = (
  record assembly { failed_step_ids = assembly.failed_step_ids ++ step_id ∷ [] },
  DependencyOutcome.blocked,
)
record_status assembly step_id StepStatus.manual_required released waits blockers = (
  record assembly { manual_required_step_ids = assembly.manual_required_step_ids ++ step_id ∷ [] },
  DependencyOutcome.blocked,
)

-- The error of `record_step` for a Step that went on before its dependencies were released.
unfoldable pub check_released :
    String → StepStatus → List String → List DependencyBlocker → Derivation (Unit {0})
check_released step_id status waits (b ∷ bs) =
    reject_if (not (status_eq status StepStatus.planned))
      (FrontierError.active_dependency_not_released step_id b.step_id b.reason)
check_released step_id status (p ∷ ps) [] =
    reject_if (not (status_eq status StepStatus.planned))
      (FrontierError.active_dependency_not_released step_id p DependencyBlockReason.not_completed)
check_released step_id status [] [] = ok tt

unfoldable pub record_step : FrontierAssembly → RunState → String → Derivation FrontierAssembly
record_step assembly state step_id = do
  let counted = record assembly { processed = saturating_add assembly.processed 1 }
  step ← expect (lookup step_id state.steps)
  (waits, blockers) ← partition_dependencies counted state step
  check_released step_id step.status waits blockers
  let (recorded, outcome) =
      record_status counted step_id step.status (receipt_releases_dependency step) waits blockers
  ok (record recorded { outcomes = insert step_id outcome recorded.outcomes })

abbrev pub ranked_le : ℕ × String × ContinuationAction → ℕ × String × ContinuationAction → Bool
ranked_le left right = ltb left.0 right.0 || ((left.0 == right.0) && text_le left.1 right.1)

unfoldable pub finish : FrontierAssembly → RunState → WorkFrontier
finish assembly state = record {
  run_id = state.run_id;
  revision = state.revision;
  journal_sequence = state.journal_sequence;
  journal_head_digest = state.journal_head_digest;
  total_steps = length state.steps;
  actionable =
      map (λ ranked. record { step_id = ranked.1; action = ranked.2 })
        (sort_by ranked_le assembly.ranked_actions);
  waiting = sort_by (λ left right. text_le left.step_id right.step_id) assembly.waiting;
  blocked = sort_by (λ left right. text_le left.step_id right.step_id) assembly.blocked;
  verified_completed_step_ids = sort_texts assembly.verified_completed_step_ids;
  unverified_completed_step_ids = sort_texts assembly.unverified_completed_step_ids;
  failed_step_ids = sort_texts assembly.failed_step_ids;
  manual_required_step_ids = sort_texts assembly.manual_required_step_ids;
}
