-- ===== src/WorkGraph/Kahn.antt =====
-- The traversal in dependency order: `validate_frontier_graph` and the loop of
-- `derive_frontier_with_metrics` in crates/xgeny-workgraph/src/lib.rs. The `while` loop takes as
-- fuel the number of open dependency counts and ready Steps, which every round lowers.
pub mod Termination
pub mod Soundness
pub mod Offers
use xgeny_cli.Prelude.{
  ℕ, zero, suc, ◌+◌, String, Option, none, some, Bool, true, false, not, List, [], ◌∷◌, ◌++◌, map,
  Result, ok, err, fault, Fault, ◌>>=◌, ◌>>◌, reject_if, ok_or, expect, fold, length, ◌==◌, ◌!=◌,
  str_eq, StringMap, StringSet, lookup, insert, replace, contains, set_insert, checked_sub,
  sort_texts, if◌then◌else◌,
}
use xgeny_cli.WorkGraph.Errors.{FrontierError}
use xgeny_cli.WorkGraph.State.{RunState, StepState}
use xgeny_cli.WorkGraph.Frontier.{
  WorkFrontier, FrontierAssembly, empty_assembly, Derivation, record_step, finish,
}

-- `ValidatedFrontierGraph`
pub record ValidatedFrontierGraph : Type 0 where
  pub remaining_dependencies : StringMap ℕ
  pub dependents : StringMap (List String)
  pub zero_indegree : StringSet

-- One dependency of `validate_frontier_graph`: the dependents so far and the Step's own set.
unfoldable pub validate_dependency :
    String
    → StringMap (List String) × StringSet
    → String
    → Derivation (StringMap (List String) × StringSet)
validate_dependency step_id (dependents, unique) dependency_id = do
  reject_if (str_eq dependency_id step_id) (FrontierError.self_dependency step_id)
  reject_if (contains dependency_id unique)
      (FrontierError.duplicate_dependency step_id dependency_id)
  children ←
      ok_or (lookup dependency_id dependents)
        (FrontierError.unknown_dependency step_id dependency_id)
  ok (replace dependency_id (children ++ step_id ∷ []) dependents, set_insert dependency_id unique)

-- One Step of `validate_frontier_graph`.
unfoldable pub validate_step :
    StringMap ℕ × StringMap (List String)
    → String × StepState
    → Derivation (StringMap ℕ × StringMap (List String))
validate_step (remaining, dependents) (step_id, step) = do
  (dependents', unique) ← fold (validate_dependency step_id) (dependents, []) step.depends_on
  ok (insert step_id (length step.depends_on) remaining, dependents')

-- The Steps whose count is 0, into a set.
unfoldable pub collect_ready : StringMap ℕ → StringSet
collect_ready [] = []
collect_ready ((step_id, count) ∷ rest) =
    let ready = collect_ready rest in if count == 0 then set_insert step_id ready else ready

unfoldable pub validate_frontier_graph : RunState → Derivation ValidatedFrontierGraph
validate_frontier_graph state = do
  (remaining, dependents) ← fold validate_step ([], map (λ e. (e.0, [])) state.steps) state.steps
  ok (record {
    remaining_dependencies = remaining;
    dependents = map (λ e. (e.0, sort_texts e.1)) dependents;
    zero_indegree = collect_ready remaining;
  })

-- The variables of the loop.
pub record Traversal : Type 0 where
  pub remaining_dependencies : StringMap ℕ
  pub zero_indegree : StringSet
  pub assembly : FrontierAssembly

-- One dependent of the Step that was just recorded.
unfoldable pub release_child :
    StringMap ℕ × StringSet → String → Derivation (StringMap ℕ × StringSet)
release_child (remaining, ready) child = do
  count ← expect (lookup child remaining)
  left ← expect (checked_sub count 1)
  ok (replace child left remaining, if left == 0 then set_insert child ready else ready)

-- The body of the loop, for the Step that `pop_first` returned.
unfoldable pub visit :
    RunState → StringMap (List String) → String → Traversal → Derivation Traversal
visit state dependents step_id t = do
  assembly ← record_step t.assembly state step_id
  children ← expect (lookup step_id dependents)
  (remaining, ready) ← fold release_child (t.remaining_dependencies, t.zero_indegree) children
  ok (record { remaining_dependencies = remaining; zero_indegree = ready; assembly = assembly })

unfoldable pub traverse : ℕ → RunState → StringMap (List String) → Traversal → Derivation Traversal
traverse zero state dependents t = elim t.zero_indegree [
  | [] ↦ ok t
  | _ ∷ _ ↦ fault Fault.out_of_fuel
]
traverse (suc fuel) state dependents t = elim t.zero_indegree [
  | [] ↦ ok t
  | step_id ∷ rest ↦ do
    t' ← visit state dependents step_id (record t { zero_indegree = rest })
    traverse fuel state dependents t'
]

-- The sum of the open counts.
unfoldable pub total_count : StringMap ℕ → ℕ
total_count [] = 0
total_count ((_, count) ∷ rest) = count + total_count rest

unfoldable pub open_work : Traversal → ℕ
open_work t = total_count t.remaining_dependencies + length t.zero_indegree

unfoldable pub derive_frontier : RunState → Derivation WorkFrontier
derive_frontier state = do
  graph ← validate_frontier_graph state
  let start : Traversal = record {
    remaining_dependencies = graph.remaining_dependencies;
    zero_indegree = graph.zero_indegree;
    assembly = empty_assembly;
  }
  t ← traverse (open_work start) state graph.dependents start
  reject_if (t.assembly.processed != length state.steps) FrontierError.dependency_cycle
  ok (finish t.assembly state)
