-- ===== src/WorkGraph/Kahn/Offers.antt =====
-- What the derived frontier offers: the loop of `derive_frontier` and `finish` of
-- crates/xgeny-workgraph/src/lib.rs keep what `record_step` has recorded.
use xgeny_cli.Prelude.{
  ℕ, zero, suc, ◌≡◌, refl, sym, ap, ◌∙◌, subst, inl, inr, String, some, List, [], ◌∷◌, ok,
  >>=-eq-ok, reject_if-eq-ok, ok_injective, expect, expect-eq-ok, fold, length, map, All, StringMap,
  StringSet, lookup, insert, lookup-insert, eq_iff, str_eq, Bool-cases, sort_by, All-sort_by,
  saturating_add, text_le, ◌!=◌, some_injective,
}
use xgeny_cli.WorkGraph.Status.{ContinuationAction}
use xgeny_cli.WorkGraph.State.{RunState, StepState}
use xgeny_cli.WorkGraph.Intent.Release.{IsReleased}
use xgeny_cli.WorkGraph.Frontier.{
  WorkFrontier, FrontierAction, FrontierAssembly, record_step, partition_dependencies,
  check_released, finish, empty_assembly, ranked_le, DependencyOutcome,
}
use xgeny_cli.WorkGraph.Kahn.{
  Traversal, release_child, visit, traverse, derive_frontier, validate_frontier_graph,
}
use xgeny_cli.WorkGraph.Kahn.Soundness.{
  CanBeAdmitted, ActionIsSound, AssemblyIsSound, RecordedIsSound, All-satisfied,
  partition_dependencies-IsSatisfied, record_status-RecordedIsSound,
}

-- Recording a Step's outcome after its status keeps the assembly sound.
outcome-AssemblyIsSound :
    (steps : StringMap StepState) (assembly : FrontierAssembly) (step_id : String)
    (part : FrontierAssembly × DependencyOutcome)
    → AssemblyIsSound steps assembly
    → RecordedIsSound steps assembly step_id part
    → AssemblyIsSound steps (record part.0 { outcomes = insert step_id part.1 part.0.outcomes })
unfolding RecordedIsSound
outcome-AssemblyIsSound steps assembly step_id (recorded, outcome) sound
      (same, actions, verified, out) =
    (released, actions, verified)
  where
    released :
        (d : String)
        → lookup d (insert step_id outcome recorded.outcomes) ≡ some DependencyOutcome.satisfied
        → IsReleased steps d
    released d at =
        let at' = sym (lookup-insert step_id d outcome recorded.outcomes) ∙ at in
        elim (Bool-cases (str_eq step_id d)) [
          | inl e ↦
              subst (IsReleased steps) ((eq_iff step_id d).0 e) (out (some_injective (rw e at at')))
          | inr e ↦ sound.0 d (ap (lookup d) (sym same) ∙ rw e at at')
        ]

record_step-AssemblyIsSound :
    (state : RunState) (assembly : FrontierAssembly) (step_id : String)
    (assembly' : FrontierAssembly)
    → AssemblyIsSound state.steps assembly
    → record_step assembly state step_id ≡ ok assembly'
    → AssemblyIsSound state.steps assembly'
unfolding record_step
record_step-AssemblyIsSound state assembly step_id assembly' sound h =
    let counted : FrontierAssembly = record assembly {
      processed = saturating_add assembly.processed 1;
    } in
    let (step, found, h1) = >>=-eq-ok (expect (lookup step_id state.steps)) _ h in
    let (parts, split, h2) = >>=-eq-ok (partition_dependencies counted state step) _ h1 in
    let (_, _, last) = >>=-eq-ok (check_released step_id step.status parts.0 parts.1) _ h2 in
    subst (AssemblyIsSound state.steps) (ok_injective last) (
      outcome-AssemblyIsSound state.steps counted step_id _ sound (
        record_status-RecordedIsSound state counted step_id step sound (expect-eq-ok _ found)
          step.status parts.0 parts.1 refl
          λ no_waits no_blockers. All-satisfied state.steps counted step.depends_on sound.0 (
            partition_dependencies-IsSatisfied counted state step parts.0 parts.1 split no_waits
              no_blockers)))

visit-AssemblyIsSound :
    (state : RunState) (dependents : StringMap (List String)) (step_id : String) (t t' : Traversal)
    → AssemblyIsSound state.steps t.assembly
    → visit state dependents step_id t ≡ ok t'
    → AssemblyIsSound state.steps t'.assembly
unfolding visit
visit-AssemblyIsSound state dependents step_id t t' sound h =
    let (assembly, recorded, h1) = >>=-eq-ok (record_step t.assembly state step_id) _ h in
    let (children, _, h2) = >>=-eq-ok (expect (lookup step_id dependents)) _ h1 in
    let (after, _, last) =
      >>=-eq-ok (fold release_child (t.remaining_dependencies, t.zero_indegree) children) _ h2 in
    subst (λ u. AssemblyIsSound state.steps u.assembly) (ok_injective last)
      (record_step-AssemblyIsSound state t.assembly step_id assembly sound recorded)

traverse-AssemblyIsSound :
    (fuel : ℕ) (state : RunState) (dependents : StringMap (List String)) (remaining : StringMap ℕ)
    (ready : StringSet) (assembly : FrontierAssembly) (t' : Traversal)
    → AssemblyIsSound state.steps assembly
    → traverse fuel state dependents
        (record { remaining_dependencies = remaining; zero_indegree = ready; assembly = assembly })
      ≡ ok t'
    → AssemblyIsSound state.steps t'.assembly
unfolding traverse
traverse-AssemblyIsSound zero state dependents remaining [] assembly t' sound h =
    subst (λ u. AssemblyIsSound state.steps u.assembly) (ok_injective h) sound
traverse-AssemblyIsSound zero state dependents remaining (x ∷ xs) assembly t' sound h = cc
traverse-AssemblyIsSound (suc fuel) state dependents remaining [] assembly t' sound h =
    subst (λ u. AssemblyIsSound state.steps u.assembly) (ok_injective h) sound
traverse-AssemblyIsSound (suc fuel) state dependents remaining (x ∷ xs) assembly t' sound h =
    let t : Traversal = record {
      remaining_dependencies = remaining;
      zero_indegree = xs;
      assembly = assembly;
    } in
    let (next, visited, rest) = >>=-eq-ok (visit state dependents x t) _ h in
    traverse-AssemblyIsSound fuel state dependents next.remaining_dependencies next.zero_indegree
      next.assembly t' (visit-AssemblyIsSound state dependents x t next sound visited) rest

-- An action of the frontier that offers admission is for a Step that can be admitted.
abbrev pub OfferIsSound : StringMap StepState → FrontierAction → Type 0
OfferIsSound steps offer =
    offer.action ≡ ContinuationAction.admit → CanBeAdmitted steps offer.step_id

All-offers :
    (steps : StringMap StepState) (ranked : List (ℕ × String × ContinuationAction))
    → All (ActionIsSound steps) ranked
    → All (OfferIsSound steps) (map (λ r. record { step_id = r.1; action = r.2 }) ranked)
All-offers steps [] all = tt
All-offers steps (r ∷ rs) (a, all) = (a, All-offers steps rs all)

-- Every Step that the derived frontier offers for admission is planned, and every dependency of it
-- is completed with a Receipt; every Step that the frontier lists as verified is completed with a
-- Receipt.
pub derive_frontier_sound :
    (state : RunState) (frontier : WorkFrontier)
    → derive_frontier state ≡ ok frontier
    → All (OfferIsSound state.steps) frontier.actionable
      × All (IsReleased state.steps) frontier.verified_completed_step_ids
unfolding derive_frontier finish lookup
derive_frontier_sound state frontier h =
    let (graph, _, h1) = >>=-eq-ok (validate_frontier_graph state) _ h in
    let (t, traversed, h2) = >>=-eq-ok (traverse _ state graph.dependents _) _ h1 in
    let (_, last) = reject_if-eq-ok (t.assembly.processed != length state.steps) _ _ h2 in
    let (_, actions, verified) =
      traverse-AssemblyIsSound _ state graph.dependents graph.remaining_dependencies
        graph.zero_indegree empty_assembly t ((λ d e. cc), tt, tt) traversed in
    subst
      (λ f.
        All (OfferIsSound state.steps) f.actionable
        × All (IsReleased state.steps) f.verified_completed_step_ids)
      (ok_injective last)
      (
        All-offers state.steps (sort_by ranked_le t.assembly.ranked_actions)
            (All-sort_by (ActionIsSound state.steps) ranked_le t.assembly.ranked_actions actions),
        All-sort_by (IsReleased state.steps) text_le t.assembly.verified_completed_step_ids
            verified,
      )
