-- ===== src/Policy/Broker/Precedence.antt =====
-- The broker decides as the layers say, deny before ask before allow: `evaluate` of
-- crates/xgeny-policy/src/broker.rs against the description in Policy/Broker/Verdict.antt.
use xgeny_cli.Prelude.{
  List, [], ◌∷◌, Bool, true, false, ◌≡◌, refl, All, All-any-not, any-not-All, append-nil, not-false,
}
use xgeny_cli.Domain.{PolicySourceKind}
use xgeny_cli.Policy.Request.{ResolvedPermissionRequest}
use xgeny_cli.Policy.Broker.{
  PolicyAllowance, ContributionVerdict, PolicyContribution, PolicyReason, push_if,
  append_coverage_denials, Reasons, add_reasons, collect_reasons,
}
use xgeny_cli.Policy.Broker.Verdict.{Covers, Tolerates, Permits, AllTolerate, AllPermit}

push_if-nil :
    (b : Bool) (reason : PolicyReason) (reasons : List PolicyReason)
    → push_if b reason reasons ≡ []
    → (b ≡ false) × (reasons ≡ [])
unfolding push_if
push_if-nil true reason reasons h = absurd (append-nil reasons reason h)
push_if-nil false reason reasons h = (refl, h)

nil-push_if :
    (b : Bool) (reason : PolicyReason) (reasons : List PolicyReason)
    → b ≡ false
    → reasons ≡ []
    → push_if b reason reasons ≡ []
unfolding push_if
nil-push_if true reason reasons e h = cc
nil-push_if false reason reasons e h = h

-- An allowance adds no denial where it covers the request, and only there.
module _ (request : ResolvedPermissionRequest) (source : PolicySourceKind)
    (allowance : PolicyAllowance) (reasons : List PolicyReason) where
  append_coverage_denials-nil :
      append_coverage_denials request source allowance reasons ≡ []
      → Covers allowance request × (reasons ≡ [])
  unfolding append_coverage_denials
  append_coverage_denials-nil h =
      let (lifetime, h1) = push_if-nil _ _ _ h in
      let (actions, h2) = push_if-nil _ _ _ h1 in
      let (resources, h3) = push_if-nil _ _ _ h2 in
      let (scopes, rest) = push_if-nil _ _ reasons h3 in
      (
        record {
          scopes = All-any-not _ request.requested_scopes scopes;
          resources = All-any-not _ request.resources resources;
          actions = All-any-not _ request.critical_actions actions;
          lifetime = not-false _ lifetime;
        },
        rest,
      )

  nil-append_coverage_denials :
      Covers allowance request
      → reasons ≡ []
      → append_coverage_denials request source allowance reasons ≡ []
  unfolding append_coverage_denials
  nil-append_coverage_denials c h = nil-push_if _ _ _ (rw c.lifetime refl) (
      nil-push_if _ _ _ (any-not-All _ request.critical_actions c.actions) (
        nil-push_if _ _ _ (any-not-All _ request.resources c.resources)
          (nil-push_if _ _ reasons (any-not-All _ request.requested_scopes c.scopes) h)))

-- A layer that asks nothing.
abbrev pub Silent : ContributionVerdict → Type 0
Silent (ContributionVerdict.allow allowance) = Unit
Silent (ContributionVerdict.ask reason) = ⊥
Silent (ContributionVerdict.deny reason) = Unit

add_reasons-nil :
    (request : ResolvedPermissionRequest) (kind : PolicySourceKind) (verdict : ContributionVerdict)
    (reasons : Reasons)
    → (add_reasons request kind verdict reasons).deny_reasons ≡ []
    → Tolerates request verdict × (reasons.deny_reasons ≡ [])
unfolding add_reasons
add_reasons-nil request kind (ContributionVerdict.allow allowance) reasons h =
    append_coverage_denials-nil request kind allowance reasons.deny_reasons h
add_reasons-nil request kind (ContributionVerdict.ask reason) reasons h = (tt, h)
add_reasons-nil request kind (ContributionVerdict.deny reason) reasons h =
    absurd (append-nil reasons.deny_reasons _ h)

nil-add_reasons :
    (request : ResolvedPermissionRequest) (kind : PolicySourceKind) (verdict : ContributionVerdict)
    (reasons : Reasons)
    → Tolerates request verdict
    → reasons.deny_reasons ≡ []
    → (add_reasons request kind verdict reasons).deny_reasons ≡ []
unfolding add_reasons
nil-add_reasons request kind (ContributionVerdict.allow allowance) reasons t h =
    nil-append_coverage_denials request kind allowance reasons.deny_reasons t h
nil-add_reasons request kind (ContributionVerdict.ask reason) reasons t h = h
nil-add_reasons request kind (ContributionVerdict.deny reason) reasons t h = absurd t

add_reasons-ask_nil :
    (request : ResolvedPermissionRequest) (kind : PolicySourceKind) (verdict : ContributionVerdict)
    (reasons : Reasons)
    → (add_reasons request kind verdict reasons).ask_reasons ≡ []
    → Silent verdict × (reasons.ask_reasons ≡ [])
unfolding add_reasons
add_reasons-ask_nil request kind (ContributionVerdict.allow allowance) reasons h = (tt, h)
add_reasons-ask_nil request kind (ContributionVerdict.ask reason) reasons h =
    absurd (append-nil reasons.ask_reasons _ h)
add_reasons-ask_nil request kind (ContributionVerdict.deny reason) reasons h = (tt, h)

permitted-add_reasons :
    (request : ResolvedPermissionRequest) (kind : PolicySourceKind) (verdict : ContributionVerdict)
    (reasons : Reasons)
    → Permits request verdict
    → reasons.ask_reasons ≡ []
    → (add_reasons request kind verdict reasons).ask_reasons ≡ []
unfolding add_reasons
permitted-add_reasons request kind (ContributionVerdict.allow allowance) reasons p h = h
permitted-add_reasons request kind (ContributionVerdict.ask reason) reasons p h = absurd p
permitted-add_reasons request kind (ContributionVerdict.deny reason) reasons p h = absurd p

permits :
    (request : ResolvedPermissionRequest) (verdict : ContributionVerdict)
    → Tolerates request verdict
    → Silent verdict
    → Permits request verdict
permits request (ContributionVerdict.allow allowance) t s = t
permits request (ContributionVerdict.ask reason) t s = s
permits request (ContributionVerdict.deny reason) t s = t

tolerates :
    (request : ResolvedPermissionRequest) (verdict : ContributionVerdict)
    → Permits request verdict
    → Tolerates request verdict
tolerates request (ContributionVerdict.allow allowance) p = p
tolerates request (ContributionVerdict.ask reason) p = absurd p
tolerates request (ContributionVerdict.deny reason) p = absurd p

abbrev pub Layers : Type 0
Layers = List (PolicySourceKind × PolicyContribution)

module _ (request : ResolvedPermissionRequest) where
  pub collect_reasons-AllTolerate :
      (layers : Layers) (reasons : Reasons)
      → (collect_reasons request layers reasons).deny_reasons ≡ []
      → AllTolerate request layers × (reasons.deny_reasons ≡ [])
  unfolding collect_reasons
  collect_reasons-AllTolerate [] reasons h = (tt, h)
  collect_reasons-AllTolerate ((kind, c) ∷ rest) reasons h =
      let (all, middle) =
        collect_reasons-AllTolerate rest (add_reasons request kind c.verdict reasons) h in
      let (first, start) = add_reasons-nil request kind c.verdict reasons middle in
      ((first, all), start)

  pub AllTolerate-collect_reasons :
      (layers : Layers) (reasons : Reasons)
      → AllTolerate request layers
      → reasons.deny_reasons ≡ []
      → (collect_reasons request layers reasons).deny_reasons ≡ []
  unfolding collect_reasons
  AllTolerate-collect_reasons [] reasons all h = h
  AllTolerate-collect_reasons ((kind, c) ∷ rest) reasons (first, all) h =
      AllTolerate-collect_reasons rest (add_reasons request kind c.verdict reasons) all
        (nil-add_reasons request kind c.verdict reasons first h)

  pub collect_reasons-Silent :
      (layers : Layers) (reasons : Reasons)
      → (collect_reasons request layers reasons).ask_reasons ≡ []
      → All (λ l. Silent l.1.verdict) layers × (reasons.ask_reasons ≡ [])
  unfolding collect_reasons
  collect_reasons-Silent [] reasons h = (tt, h)
  collect_reasons-Silent ((kind, c) ∷ rest) reasons h =
      let (all, middle) =
        collect_reasons-Silent rest (add_reasons request kind c.verdict reasons) h in
      let (first, start) = add_reasons-ask_nil request kind c.verdict reasons middle in
      ((first, all), start)

  pub AllPermit-collect_reasons :
      (layers : Layers) (reasons : Reasons)
      → AllPermit request layers
      → reasons.ask_reasons ≡ []
      → (collect_reasons request layers reasons).ask_reasons ≡ []
  unfolding collect_reasons
  AllPermit-collect_reasons [] reasons all h = h
  AllPermit-collect_reasons ((kind, c) ∷ rest) reasons (first, all) h =
      AllPermit-collect_reasons rest (add_reasons request kind c.verdict reasons) all
        (permitted-add_reasons request kind c.verdict reasons first h)

  pub AllPermit-parts :
      (layers : Layers)
      → AllTolerate request layers
      → All (λ l. Silent l.1.verdict) layers
      → AllPermit request layers
  AllPermit-parts [] all silent = tt
  AllPermit-parts ((kind, c) ∷ rest) (t, all) (s, silent) =
      (permits request c.verdict t s, AllPermit-parts rest all silent)

  pub AllPermit-AllTolerate :
      (layers : Layers) → AllPermit request layers → AllTolerate request layers
  AllPermit-AllTolerate [] all = tt
  AllPermit-AllTolerate ((kind, c) ∷ rest) (p, all) =
      (tolerates request c.verdict p, AllPermit-AllTolerate rest all)
