-- ===== src/Routing/Ranking.antt =====
-- The ranking of eligible candidates: `rank_candidates` and `compare_candidates` of
-- crates/xgeny-runtime/src/router.rs.
pub mod Comparator
pub mod Members
pub mod Best
use Prim.Native.Nat.{Ordering, compare}
use Prim.Native.String.{compare as compare_text, then as then_with}
use xgeny_cli.Prelude.{
  ℕ, suc, String, Option, none, some, List, [], ◌∷◌, map, Bool, true, false, str_eq, sort_by,
  if◌then◌else◌,
}
use xgeny_cli.Domain.Capability.{CapabilityInstanceBody, HealthStatus, trust_eq, boundary_eq}
use xgeny_cli.Routing.Float.{F64, total_cmp, normalize_zero}
use xgeny_cli.Routing.Request.{RouteRequest}
use xgeny_cli.Routing.Candidate.{
  CandidateEligibility, RouteCandidateEvaluation, reliability, latency, cost,
}

-- `health_rank`
abbrev pub health_rank : HealthStatus → ℕ
health_rank HealthStatus.available = 0
health_rank HealthStatus.degraded = 1
health_rank HealthStatus.unavailable = 2
health_rank HealthStatus.unknown = 2

-- `usize::MAX` on a 64-bit target.
abbrev usize_max : ℕ
usize_max = 18446744073709551615

-- `position`
unfoldable pub position : {A : Type 0} → (A → Bool) → List A → Option ℕ
position p [] = none
position p (x ∷ xs) =
    let rest = position p xs in
    if p x then some 0 else elim rest [ none ↦ none | some index ↦ some (suc index) ]

-- `preference_rank`
abbrev pub preference_rank : {A : Type 0} → (A → A → Bool) → List A → A → ℕ
preference_rank eq preference value = elim (position (λ candidate. eq candidate value) preference) [
  | none ↦ usize_max
  | some index ↦ index
]

-- `compare_optional_ord_asc`, and `compare_optional_f64_asc` with its own comparison of values.
abbrev pub compare_optional : {A : Type 0} → (A → A → Ordering) → Option A → Option A → Ordering
compare_optional cmp (some left) (some right) = cmp left right
compare_optional cmp (some left) none = Ordering.lt
compare_optional cmp none (some right) = Ordering.gt
compare_optional cmp none none = Ordering.eq

abbrev pub compare_optional_ord_asc : Option ℕ → Option ℕ → Ordering
compare_optional_ord_asc = compare_optional compare

abbrev pub compare_optional_f64_asc : Option F64 → Option F64 → Ordering
compare_optional_f64_asc =
    compare_optional (λ left right. total_cmp (normalize_zero left) (normalize_zero right))

abbrev pub compare_optional_f64_desc : Option F64 → Option F64 → Ordering
compare_optional_f64_desc =
    compare_optional (λ left right. total_cmp (normalize_zero right) (normalize_zero left))

-- `compare_candidates`; `then_with` is lazy in its second argument there.
unfoldable pub compare_candidates :
    RouteRequest → CapabilityInstanceBody → CapabilityInstanceBody → Ordering
compare_candidates request left right =
    then_with (compare (health_rank left.health.status) (health_rank right.health.status)) (
      then_with (compare_optional_f64_desc (reliability left) (reliability right)) (
        then_with
          (compare (preference_rank trust_eq request.trust_preference left.trust)
            (preference_rank trust_eq request.trust_preference right.trust))
          (then_with
            (compare
              (preference_rank boundary_eq request.data_boundary_preference left.data_boundary)
              (preference_rank boundary_eq request.data_boundary_preference right.data_boundary))
            (then_with (compare_optional_ord_asc (latency left) (latency right)) (
              then_with (compare_optional_f64_asc (cost left) (cost right)) (
                then_with
                  (compare (preference_rank str_eq request.preferred_instance_ids left.instance_id)
                    (preference_rank str_eq request.preferred_instance_ids right.instance_id))
                  (compare_text left.instance_id right.instance_id)))))))

abbrev pub not_after : Ordering → Bool
not_after Ordering.lt = true
not_after Ordering.eq = true
not_after Ordering.gt = false

-- `zip` and `filter_map`: the instances whose evaluation is eligible.
unfoldable pub eligible_instances :
    List CapabilityInstanceBody → List RouteCandidateEvaluation → List CapabilityInstanceBody
eligible_instances [] _ = []
eligible_instances (_ ∷ _) [] = []
eligible_instances (candidate ∷ candidates) (evaluation ∷ evaluations) =
    let rest = eligible_instances candidates evaluations in
    elim evaluation.eligibility [
      | CandidateEligibility.placement_eligible ↦ candidate ∷ rest
      | CandidateEligibility.rejected ↦ rest
    ]

-- `position`, and `remove` at what it finds: the first element that passes, and the others.
unfoldable pub take_first : {A : Type 0} → (A → Bool) → List A → Option (A × List A)
take_first p [] = none
take_first p (x ∷ xs) =
    let rest = take_first p xs in
    if p x
    then some (x, xs)
    else elim rest [ none ↦ none | some (found, others) ↦ some (found, x ∷ others) ]

-- The pinned candidate first.
unfoldable pub pin_first : Option String → List CapabilityInstanceBody → List CapabilityInstanceBody
pin_first none ranked = ranked
pin_first (some pin) ranked =
    elim (take_first (λ candidate. str_eq candidate.instance_id pin) ranked) [
      | none ↦ []
      | some (pinned, others) ↦ pinned ∷ others
    ]

-- `rank_candidates` before it keeps only the names,
unfoldable pub ranked_instances :
    RouteRequest
    → List CapabilityInstanceBody
    → List RouteCandidateEvaluation
    → List CapabilityInstanceBody
ranked_instances request candidates evaluations = pin_first request.pinned_instance_id (
    sort_by (λ left right. not_after (compare_candidates request left right))
      (eligible_instances candidates evaluations))

-- and `rank_candidates`.
abbrev pub rank_candidates :
    RouteRequest → List CapabilityInstanceBody → List RouteCandidateEvaluation → List String
rank_candidates request candidates evaluations =
    map (λ candidate. candidate.instance_id) (ranked_instances request candidates evaluations)
