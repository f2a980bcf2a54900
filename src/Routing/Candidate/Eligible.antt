-- ===== src/Routing/Candidate/Eligible.antt =====
-- An independent description of the candidates that may be placed, for `evaluate_candidate` of
-- crates/xgeny-runtime/src/router.rs.
use xgeny_cli.Prelude.{
  String, Option, none, some, List, [], ◌∷◌, ◌++◌, map, Bool, true, false, not, ◌&&◌, ◌||◌, has,
  any, str_eq, All, length, dedup, text_le, dedup-sort_by-nil, if◌then◌else◌, ◌≡◌, ◌↔◌, refl, sym,
  ap, ◌∙◌, arith, ◌⊎◌, inl, inr, or_false, not-false, sort_by, some_injective,
}
use xgeny_cli.Domain.Capability.{
  CapabilityDefinitionBody, CapabilityInstanceBody, OperatingSystem, os_eq, Architecture, arch_eq,
  trust_eq, boundary_eq, HealthStatus, AuthState,
}
use xgeny_cli.Routing.Float.{F64, is_finite, below_zero, in_unit_range}
use xgeny_cli.Routing.Request.{RouteRequest}
use xgeny_cli.Routing.Candidate.{
  CandidateEligibility, RouteReason, rejects_candidate, when, health_reasons, auth_reasons,
  supports_style, required_extensions, reliability, cost, is_some_and, concat, placement_tests,
  feature_tests, evaluate_candidate,
}

-- The candidate meets every requirement of the request.
pub record Placeable (candidate : CapabilityInstanceBody) (definition : CapabilityDefinitionBody)
    (request : RouteRequest) : Type 0 where
  pub os :
      (os_eq candidate.platform.os OperatingSystem.any_os
        || os_eq candidate.platform.os request.target_platform.os)
      ≡ true
  pub arch :
      (arch_eq candidate.platform.arch Architecture.any_arch
        || arch_eq candidate.platform.arch request.target_platform.arch)
      ≡ true
  pub health :
      (candidate.health.status ≡ HealthStatus.available)
      ⊎ (candidate.health.status ≡ HealthStatus.degraded)
  pub auth :
      (candidate.auth.state ≡ AuthState.not_required) ⊎ (candidate.auth.state ≡ AuthState.available)
  pub trust : has trust_eq candidate.trust request.allowed_trust_levels ≡ true
  pub boundary : has boundary_eq candidate.data_boundary request.allowed_data_boundaries ≡ true
  pub definition_extensions : definition.required_extensions ≡ []
  pub instance_extensions : candidate.required_extensions ≡ []
  pub style : supports_style candidate request.required_features.execution_style ≡ true
  pub cancellation :
      request.required_features.cancellation ≡ true → candidate.features.cancellable ≡ true
  pub idempotency_key :
      request.required_features.idempotency_key ≡ true
      → definition.spec.execution.idempotency_key_supported ≡ true
  pub idempotency_query :
      request.required_features.idempotency_query ≡ true
      → candidate.features.idempotency_query ≡ true
  pub cost_hint :
      (value : F64)
      → cost candidate ≡ some value
      → (is_finite value ≡ true) × (below_zero value ≡ false)
  pub reliability_hint :
      (value : F64)
      → reliability candidate ≡ some value
      → (is_finite value ≡ true) × (in_unit_range value ≡ true)

-- No reason of the list rejects.
abbrev Accepts : List RouteReason → Type 0
Accepts reasons = any rejects_candidate reasons ≡ false

append-Accepts : (xs ys : List RouteReason) → Accepts (xs ++ ys) ↔ (Accepts xs × Accepts ys)
append-Accepts [] ys = (λ h. (refl, h), λ h. h.1)
append-Accepts (x ∷ xs) ys =
    let (there, back) = append-Accepts xs ys in
    (
      λ h.
          let (first, rest) = or_false (rejects_candidate x) _ h in
          (rw (first, (there rest).0) refl, (there rest).1),
      λ h. let (first, rest) = or_false (rejects_candidate x) _ h.0 in rw first (back (rest, h.1)),
    )

concat-Accepts : (ls : List (List RouteReason)) → Accepts (concat ls) ↔ All Accepts ls
unfolding concat
concat-Accepts [] = (λ h. tt, λ h. refl)
concat-Accepts (l ∷ ls) =
    let (there, back) = append-Accepts l (concat ls) in
    let (each, all) = concat-Accepts ls in
    (λ h. ((there h).0, each (there h).1), λ h. back (h.0, all h.1))

when-Accepts :
    (b : Bool) (reason : RouteReason)
    → rejects_candidate reason ≡ true
    → Accepts (when b reason) ↔ (b ≡ false)
when-Accepts true reason r = (λ h. sym r ∙ (or_false (rejects_candidate reason) false h).0, λ h. cc)
when-Accepts false reason r = (λ h. refl, λ h. refl)

extensions-Accepts :
    (f : String → RouteReason)
    → ((e : String) → rejects_candidate (f e) ≡ true)
    → (required : List String) → Accepts (map f (required_extensions required)) ↔ (required ≡ [])
unfolding required_extensions dedup sort_by
extensions-Accepts f r required =
    (λ h. empty required (dedup-sort_by-nil str_eq text_le required (nothing _ h)), λ h. rw h refl)
  where
    nothing : (es : List String) → Accepts (map f es) → es ≡ []
    nothing [] h = refl
    nothing (e ∷ es) h = cc (r e)

    empty : (es : List String) → length es ≡ 0 → es ≡ []
    empty [] h = refl
    empty (e ∷ es) h = absurd (omega (arith, h))

health-Accepts :
    (status : HealthStatus)
    → Accepts (health_reasons status)
      ↔ ((status ≡ HealthStatus.available) ⊎ (status ≡ HealthStatus.degraded))
unfolding rejects_candidate
health-Accepts HealthStatus.available = (λ h. inl refl, λ h. refl)
health-Accepts HealthStatus.degraded = (λ h. inr refl, λ h. refl)
health-Accepts HealthStatus.unavailable = (λ h. cc, λ h. elim h [ inl e ↦ cc | inr e ↦ cc ])
health-Accepts HealthStatus.unknown = (λ h. cc, λ h. elim h [ inl e ↦ cc | inr e ↦ cc ])

auth-Accepts :
    (state : AuthState)
    → Accepts (auth_reasons state)
      ↔ ((state ≡ AuthState.not_required) ⊎ (state ≡ AuthState.available))
unfolding rejects_candidate
auth-Accepts AuthState.not_required = (λ h. inl refl, λ h. refl)
auth-Accepts AuthState.available = (λ h. inr refl, λ h. refl)
auth-Accepts AuthState.required = (λ h. cc, λ h. elim h [ inl e ↦ cc | inr e ↦ cc ])
auth-Accepts AuthState.expired = (λ h. cc, λ h. elim h [ inl e ↦ cc | inr e ↦ cc ])

neither : (a b : Bool) → ((not a && not b) ≡ false) ↔ ((a || b) ≡ true)
neither a b = ground arith

needs : (a b : Bool) → ((a && not b) ≡ false) ↔ (a ≡ true → b ≡ true)
needs a b = ground arith

is_true : (b : Bool) → (not b ≡ false) ↔ (b ≡ true)
is_true b = ground arith

hint :
    (o : Option F64) (good bad : F64 → Bool)
    → (is_some_and o (λ v. not (good v) || bad v) ≡ false)
      ↔ ((v : F64) → o ≡ some v → (good v ≡ true) × (bad v ≡ false))
hint none good bad = (λ h v e. cc, λ h. refl)
hint (some w) good bad = (
  λ h v e.
      let (first, second) = or_false (not (good w)) (bad w) h in
      let same = some_injective e in
      (ap good (sym same) ∙ not-false (good w) first, ap bad (sym same) ∙ second),
  λ h. let (first, second) = h w refl in rw (first, second) refl,
)

module _ (candidate : CapabilityInstanceBody) (definition : CapabilityDefinitionBody)
    (request : RouteRequest) where
  abbrev tests : List (List RouteReason)
  tests = placement_tests candidate definition request ++ feature_tests candidate definition request

  tests-Placeable : All Accepts tests → Placeable candidate definition request
  unfolding rejects_candidate
  tests-Placeable
        (
          os,
          (
            arch,
            (
              health,
              (
                auth,
                (
                  trust,
                  (boundary, (d, (i, (style, (cancel, (key, (query, (cost_ok, (reliable, _))))))))),
                ),
              ),
            ),
          ),
        ) =
      record {
        os = (neither _ _).0 ((when-Accepts _ RouteReason.platform_os_mismatch refl).0 os);
        arch =
            (neither _ _).0
              ((when-Accepts _ RouteReason.platform_architecture_mismatch refl).0 arch);
        health = (health-Accepts candidate.health.status).0 health;
        auth = (auth-Accepts candidate.auth.state).0 auth;
        trust = (is_true _).0 ((when-Accepts _ RouteReason.trust_not_allowed refl).0 trust);
        boundary =
            (is_true _).0 ((when-Accepts _ RouteReason.data_boundary_not_allowed refl).0 boundary);
        definition_extensions =
            (extensions-Accepts RouteReason.definition_extension_unsupported (λ e. refl)
                definition.required_extensions).0
              d;
        instance_extensions =
            (extensions-Accepts RouteReason.instance_extension_unsupported (λ e. refl)
                candidate.required_extensions).0
              i;
        style = (is_true _).0 (
            (when-Accepts _
                (RouteReason.execution_style_unsupported request.required_features.execution_style)
                refl).0
              style);
        cancellation =
            (needs _ _).0 ((when-Accepts _ RouteReason.cancellation_unsupported refl).0 cancel);
        idempotency_key =
            (needs _ _).0 ((when-Accepts _ RouteReason.idempotency_key_unsupported refl).0 key);
        idempotency_query =
            (needs _ _).0 ((when-Accepts _ RouteReason.idempotency_query_unsupported refl).0 query);
        cost_hint =
            (hint (cost candidate) is_finite below_zero).0
              ((when-Accepts _ RouteReason.invalid_cost_hint refl).0 cost_ok);
        reliability_hint = λ value e.
            let (finite, inside) =
              (hint (reliability candidate) is_finite (λ v. not (in_unit_range v))).0
                ((when-Accepts _ RouteReason.invalid_reliability_hint refl).0 reliable) value e in
            (finite, not-false (in_unit_range value) inside);
      }

  Placeable-tests : Placeable candidate definition request → All Accepts tests
  unfolding rejects_candidate
  Placeable-tests p = (
    (when-Accepts _ RouteReason.platform_os_mismatch refl).1 ((neither _ _).1 p.os),
    (
      (when-Accepts _ RouteReason.platform_architecture_mismatch refl).1 ((neither _ _).1 p.arch),
      (
        (health-Accepts candidate.health.status).1 p.health,
        (
          (auth-Accepts candidate.auth.state).1 p.auth,
          (
            (when-Accepts _ RouteReason.trust_not_allowed refl).1 ((is_true _).1 p.trust),
            (
              (when-Accepts _ RouteReason.data_boundary_not_allowed refl).1
                  ((is_true _).1 p.boundary),
              (
                (extensions-Accepts RouteReason.definition_extension_unsupported (λ e. refl)
                      definition.required_extensions).1
                    p.definition_extensions,
                (
                  (extensions-Accepts RouteReason.instance_extension_unsupported (λ e. refl)
                        candidate.required_extensions).1
                      p.instance_extensions,
                  (
                    (when-Accepts _
                          (RouteReason.execution_style_unsupported
                            request.required_features.execution_style)
                          refl).1
                        ((is_true _).1 p.style),
                    (
                      (when-Accepts _ RouteReason.cancellation_unsupported refl).1
                          ((needs _ _).1 p.cancellation),
                      (
                        (when-Accepts _ RouteReason.idempotency_key_unsupported refl).1
                            ((needs _ _).1 p.idempotency_key),
                        (
                          (when-Accepts _ RouteReason.idempotency_query_unsupported refl).1
                              ((needs _ _).1 p.idempotency_query),
                          (
                            (when-Accepts _ RouteReason.invalid_cost_hint refl).1
                                ((hint (cost candidate) is_finite below_zero).1 p.cost_hint),
                            (
                              (when-Accepts _ RouteReason.invalid_reliability_hint refl).1 (
                                  (hint (reliability candidate) is_finite
                                      (λ v. not (in_unit_range v))).1
                                    (λ value e.
                                      let (finite, inside) = p.reliability_hint value e in
                                      (finite, rw inside refl))),
                              tt,
                            ),
                          ),
                        ),
                      ),
                    ),
                  ),
                ),
              ),
            ),
          ),
        ),
      ),
    ),
  )

eligible_if :
    (b : Bool)
    → ((if b then CandidateEligibility.rejected else CandidateEligibility.placement_eligible)
        ≡ CandidateEligibility.placement_eligible)
      ↔ (b ≡ false)
eligible_if true = (λ h. cc, λ h. cc)
eligible_if false = (λ h. refl, λ h. refl)

-- A candidate is eligible exactly where it meets every requirement of the request: platform, health,
-- authentication, trust, data boundary, extensions, execution features, and hints that are numbers in
-- range.
pub evaluate_candidate-Placeable :
    (candidate : CapabilityInstanceBody) (definition : CapabilityDefinitionBody)
    (request : RouteRequest)
    → ((evaluate_candidate candidate definition request).eligibility
        ≡ CandidateEligibility.placement_eligible)
      ↔ Placeable candidate definition request
unfolding evaluate_candidate
evaluate_candidate-Placeable candidate definition request =
    let (there, back) = concat-Accepts (tests candidate definition request) in
    let (kept, keeps) =
      eligible_if (any rejects_candidate (concat (tests candidate definition request))) in
    (
      λ h. tests-Placeable candidate definition request (there (kept h)),
      λ p. keeps (back (Placeable-tests candidate definition request p)),
    )
