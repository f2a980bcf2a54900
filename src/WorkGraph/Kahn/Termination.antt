-- ===== src/WorkGraph/Kahn/Termination.antt =====
-- The loop of `derive_frontier` ends: every round of it lowers the number of open dependency counts
-- and ready Steps, by crates/xgeny-workgraph/src/lib.rs, `derive_frontier_with_metrics`.
use xgeny_cli.Prelude.{
  ℕ, zero, suc, ◌+◌, ◌≤◌, ◌≡◌, ◌≢◌, refl, subst, String, Option, none, some, List, [], ◌∷◌, Bool,
  true, false, Result, ok, err, fault, Fault, ◌>>=◌, ◌>>◌, >>=-eq-ok, ok_injective, reject_if,
  expect, fold, fold_inv, length, StringMap, StringSet, lookup, replace, set_insert, checked_sub,
  arith, ◌==◌, if◌then◌else◌, ◌!=◌, map, expect-eq-ok, saturating_add,
}
use xgeny_cli.WorkGraph.Errors.{FrontierError}
use xgeny_cli.WorkGraph.State.{RunState, StepState}
use xgeny_cli.WorkGraph.Status.{StepStatus}
use xgeny_cli.WorkGraph.Frontier.{
  WorkFrontier, FrontierAssembly, Derivation, record_step, partition_dependency,
  partition_dependencies, check_released, DependencyBlocker, empty_assembly,
}
use xgeny_cli.WorkGraph.Kahn.{
  Traversal, release_child, visit, traverse, total_count, open_work, derive_frontier,
  validate_frontier_graph, validate_step, validate_dependency,
}

-- The call does not run out of fuel.
abbrev pub HasFuel : {E A : Type 0} → Result E A → Type 0
HasFuel m = m ≢ fault Fault.out_of_fuel

HasFuel->>= :
    {E A B : Type 0} (m : Result E A) (f : A → Result E B)
    → HasFuel m
    → ((a : A) → m ≡ ok a → HasFuel (f a))
    → HasFuel (m >>= f)
HasFuel->>= (ok a) f hm hf = hf a refl
HasFuel->>= (err e) f hm hf = cc
HasFuel->>= (fault Fault.panic) f hm hf = cc
HasFuel->>= (fault Fault.out_of_fuel) f hm hf = absurd (hm refl)

HasFuel-fold :
    {E A B : Type 0} (f : B → A → Result E B)
    → ((b : B) (x : A) → HasFuel (f b x))
    → (b : B) (xs : List A) → HasFuel (fold f b xs)
unfolding fold
HasFuel-fold f hf b [] = cc
HasFuel-fold f hf b (x ∷ xs) =
    HasFuel->>= (f b x) (λ c. fold f c xs) (hf b x) λ c e. HasFuel-fold f hf c xs

total_count-replace :
    (k : String) (v w : ℕ) (m : StringMap ℕ)
    → lookup k m ≡ some v
    → total_count (replace k w m) + v ≡ total_count m + w
unfolding lookup replace total_count
total_count-replace k v w [] h = cc
total_count-replace k v w ((j, u) ∷ m) h = ground (arith, total_count-replace k v w m)

length-set_insert : (k : String) (s : StringSet) → length (set_insert k s) ≤ suc (length s)
unfolding set_insert
length-set_insert k [] = omega arith
length-set_insert k (j ∷ s) = ground (arith, length-set_insert k s)

-- The open work of a pair of counts and ready Steps.
abbrev pub open_pair : StringMap ℕ × StringSet → ℕ
open_pair p = total_count p.0 + length p.1

-- Releasing a dependent lowers its count, and makes one Step ready at most.
release_child-open :
    (before : StringMap ℕ × StringSet) (child : String) (after : StringMap ℕ × StringSet)
    → release_child before child ≡ ok after
    → open_pair after ≤ open_pair before
unfolding release_child
release_child-open (remaining, ready) child after h =
    let (count, found, h1) = >>=-eq-ok (expect (lookup child remaining)) _ h in
    let (left, taken, last) = >>=-eq-ok (expect (checked_sub count 1)) _ h1 in
    released count left (expect-eq-ok _ found) (expect-eq-ok _ taken) last
  where
    released :
        (count left : ℕ)
        → lookup child remaining ≡ some count
        → checked_sub count 1 ≡ some left
        → ◌≡◌ {A = Derivation (StringMap ℕ × StringSet)}
            (ok (replace child left remaining, if left == 0 then set_insert child ready else ready))
            (ok after)
        → open_pair after ≤ open_pair (remaining, ready)
    released count left found taken last =
        ground (
          arith,
          total_count-replace child count left remaining found,
          length-set_insert child ready,
        )

-- A round of the loop does not raise the open work of what it leaves.
pub visit-open :
    (state : RunState) (dependents : StringMap (List String)) (step_id : String) (t t' : Traversal)
    → visit state dependents step_id t ≡ ok t'
    → open_work t' ≤ open_work t
unfolding visit open_work
visit-open state dependents step_id t t' h =
    let (assembly, _, h1) = >>=-eq-ok (record_step t.assembly state step_id) _ h in
    let (children, _, h2) = >>=-eq-ok (expect (lookup step_id dependents)) _ h1 in
    let start : StringMap ℕ × StringSet = (t.remaining_dependencies, t.zero_indegree) in
    let (after, folded, last) = >>=-eq-ok (fold release_child start children) _ h2 in
    let bound : open_pair after ≤ open_pair start =
      fold_inv (λ p. open_pair p ≤ open_pair start) release_child
        (λ b x c le e. omega (arith, release_child-open b x c e)) start children after (omega arith)
        folded in
    subst
      (λ u.
        total_count u.remaining_dependencies + length u.zero_indegree
        ≤ total_count t.remaining_dependencies + length t.zero_indegree)
      (ok_injective last) bound

HasFuel-partition_dependency :
    (assembly : FrontierAssembly) (state : RunState) (so_far : List String × List DependencyBlocker)
    (dependency_id : String)
    → HasFuel (partition_dependency assembly state so_far dependency_id)
unfolding partition_dependency
HasFuel-partition_dependency assembly state (waits, blockers) dependency_id = ground arith

HasFuel-check_released :
    (step_id : String) (status : StepStatus) (waits : List String)
    (blockers : List DependencyBlocker)
    → HasFuel (check_released step_id status waits blockers)
unfolding check_released
HasFuel-check_released step_id status waits blockers = ground arith

HasFuel-expect : {A : Type 0} (o : Option A) → HasFuel {E = FrontierError} (expect o)
HasFuel-expect none = cc
HasFuel-expect (some a) = cc

HasFuel-partition_dependencies :
    (assembly : FrontierAssembly) (state : RunState) (step : StepState)
    → HasFuel (partition_dependencies assembly state step)
unfolding partition_dependencies
HasFuel-partition_dependencies assembly state step =
    HasFuel->>= (fold (partition_dependency assembly state) ([], []) step.depends_on) _
      (HasFuel-fold (partition_dependency assembly state)
        (HasFuel-partition_dependency assembly state) ([], []) step.depends_on)
      λ _ _. cc

HasFuel-record_step :
    (assembly : FrontierAssembly) (state : RunState) (step_id : String)
    → HasFuel (record_step assembly state step_id)
unfolding record_step
HasFuel-record_step assembly state step_id =
    let counted : FrontierAssembly = record assembly {
      processed = saturating_add assembly.processed 1;
    } in
    HasFuel->>= (expect (lookup step_id state.steps)) _ (HasFuel-expect _) λ step _.
      HasFuel->>= (partition_dependencies counted state step) _
        (HasFuel-partition_dependencies counted state step)
        λ parts _.
          HasFuel->>= (check_released step_id step.status parts.0 parts.1) _
            (HasFuel-check_released step_id step.status parts.0 parts.1) λ _ _. cc

HasFuel-release_child :
    (so_far : StringMap ℕ × StringSet) (child : String) → HasFuel (release_child so_far child)
unfolding release_child
HasFuel-release_child (remaining, ready) child = ground arith

HasFuel-visit :
    (state : RunState) (dependents : StringMap (List String)) (step_id : String) (t : Traversal)
    → HasFuel (visit state dependents step_id t)
unfolding visit
HasFuel-visit state dependents step_id t =
    HasFuel->>= (record_step t.assembly state step_id) _
      (HasFuel-record_step t.assembly state step_id)
      λ assembly _.
        HasFuel->>= (expect (lookup step_id dependents)) _ (HasFuel-expect _) λ children _.
          HasFuel->>= (fold release_child (t.remaining_dependencies, t.zero_indegree) children) _
            (HasFuel-fold release_child HasFuel-release_child _ children) λ _ _. cc

abbrev traversal : StringMap ℕ → StringSet → FrontierAssembly → Traversal
traversal remaining ready assembly = record {
  remaining_dependencies = remaining;
  zero_indegree = ready;
  assembly = assembly;
}

-- With as much fuel as there is open work, the loop ends by itself.
traversal-HasFuel :
    (fuel : ℕ) (state : RunState) (dependents : StringMap (List String)) (remaining : StringMap ℕ)
    (ready : StringSet) (assembly : FrontierAssembly)
    → total_count remaining + length ready ≤ fuel
    → HasFuel (traverse fuel state dependents (traversal remaining ready assembly))
unfolding traverse open_work
traversal-HasFuel zero state dependents remaining [] assembly bound = cc
traversal-HasFuel zero state dependents remaining (x ∷ xs) assembly bound = absurd (omega arith)
traversal-HasFuel (suc fuel) state dependents remaining [] assembly bound = cc
traversal-HasFuel (suc fuel) state dependents remaining (x ∷ xs) assembly bound =
    HasFuel->>= (visit state dependents x (traversal remaining xs assembly))
      (traverse fuel state dependents)
      (HasFuel-visit state dependents x (traversal remaining xs assembly))
      λ t' e.
        traversal-HasFuel fuel state dependents t'.remaining_dependencies t'.zero_indegree
          t'.assembly
          (omega (arith, visit-open state dependents x (traversal remaining xs assembly) t' e))

HasFuel-validate_dependency :
    (step_id : String) (so_far : StringMap (List String) × List String) (dependency_id : String)
    → HasFuel (validate_dependency step_id so_far dependency_id)
unfolding validate_dependency
HasFuel-validate_dependency step_id (dependents, unique) dependency_id = ground arith

HasFuel-validate_step :
    (so_far : StringMap ℕ × StringMap (List String)) (entry : String × StepState)
    → HasFuel (validate_step so_far entry)
unfolding validate_step
HasFuel-validate_step (remaining, dependents) (step_id, step) =
    HasFuel->>= (fold (validate_dependency step_id) (dependents, []) step.depends_on) _
      (HasFuel-fold (validate_dependency step_id) (HasFuel-validate_dependency step_id) _ _)
      λ _ _. cc

HasFuel-validate_frontier_graph : (state : RunState) → HasFuel (validate_frontier_graph state)
unfolding validate_frontier_graph
HasFuel-validate_frontier_graph state =
    HasFuel->>= (fold validate_step ([], map (λ e. (e.0, [])) state.steps) state.steps) _
      (HasFuel-fold validate_step HasFuel-validate_step _ _) λ _ _. cc

-- Deriving the frontier never runs out of the fuel that the model gives its loop.
pub derive_frontier-HasFuel : (state : RunState) → derive_frontier state ≢ fault Fault.out_of_fuel
unfolding derive_frontier open_work
derive_frontier-HasFuel state =
    HasFuel->>= (validate_frontier_graph state) _ (HasFuel-validate_frontier_graph state) λ graph _.
      HasFuel->>= (traverse _ state graph.dependents _) _
        (traversal-HasFuel _ state graph.dependents graph.remaining_dependencies graph.zero_indegree
          empty_assembly (omega arith))
        λ t _. ended (t.assembly.processed != length state.steps) _
  where
    ended :
        (b : Bool) (frontier : WorkFrontier)
        → HasFuel (reject_if b FrontierError.dependency_cycle >> ok frontier)
    ended true frontier = cc
    ended false frontier = cc
