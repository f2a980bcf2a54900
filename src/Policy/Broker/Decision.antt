-- ===== src/Policy/Broker/Decision.antt =====
-- The broker refines its description: each outcome of `evaluate` of
-- crates/xgeny-policy/src/broker.rs is the one that the layers call for.
use xgeny_cli.Prelude.{
  List, [], ◌∷◌, Bool, true, false, not, ok, >>=-eq-ok, reject_if-eq-ok, ok_injective, ◌≡◌, ◌≢◌,
  refl, sym, ap, ◌∙◌, subst, inl, inr, is_empty, Bool-cases, append-nil,
}
use xgeny_cli.Domain.{PolicySource}
use xgeny_cli.Policy.Request.{ResolvedPermissionRequest, request_eq}
use xgeny_cli.Policy.Broker.{
  PolicyContribution, PolicyInputs, local_inputs, managed_inputs, PolicyReason, ordered,
  BrokerOutcome, ProvisionalAuthorization, push_if, Reasons, collect_reasons, conclude, evaluate,
  validate_layers, critical_reason,
}
use xgeny_cli.Policy.Broker.Verdict.{AllTolerate, AllPermit}
use xgeny_cli.Policy.Broker.Precedence.{
  Layers, collect_reasons-AllTolerate, AllTolerate-collect_reasons, collect_reasons-Silent,
  AllPermit-collect_reasons, AllPermit-parts, AllPermit-AllTolerate,
}

-- Exactly what the request asks for.
abbrev pub exact_authorization : ResolvedPermissionRequest → ProvisionalAuthorization
exact_authorization request = record {
  lifetime = request.requested_lifetime;
  scopes = request.requested_scopes;
  resources = request.resources;
  critical_actions = request.critical_actions;
}

-- Every layer permits the request, and it has no critical action.
abbrev pub MayAllow : ResolvedPermissionRequest → Layers → Type 0
MayAllow request layers = AllPermit request layers × (request.critical_actions ≡ [])

-- The outcome that the layers call for: deny where one stands against the request, else ask where
-- one does not permit it or an action is critical, else allow exactly the request.
abbrev pub Decides : ResolvedPermissionRequest → Layers → BrokerOutcome → Type 0
Decides request layers (BrokerOutcome.allow authorization sources) =
    MayAllow request layers × (authorization ≡ exact_authorization request)
Decides request layers (BrokerOutcome.ask sources reasons) =
    AllTolerate request layers × (MayAllow request layers → ⊥) × (reasons ≢ [])
Decides request layers (BrokerOutcome.deny sources reasons) =
    (AllTolerate request layers → ⊥) × (reasons ≢ [])

push_if-nonempty : {A : Type 0} (xs : List A) → not (is_empty xs) ≡ true → xs ≢ []
push_if-nonempty [] h e = cc
push_if-nonempty (x ∷ xs) h e = cc

empty_list : {A : Type 0} (xs : List A) → not (is_empty xs) ≡ false → xs ≡ []
empty_list [] h = refl
empty_list (x ∷ xs) h = cc

push_if-parts :
    (b : Bool) (reasons : List PolicyReason)
    → push_if b critical_reason reasons ≡ []
    → (b ≡ false) × (reasons ≡ [])
unfolding push_if
push_if-parts true reasons h = absurd (append-nil reasons critical_reason h)
push_if-parts false reasons h = (refl, h)

parts-push_if :
    (b : Bool) (reasons : List PolicyReason)
    → b ≡ false
    → reasons ≡ []
    → push_if b critical_reason reasons ≡ []
unfolding push_if
parts-push_if true reasons e h = cc
parts-push_if false reasons e h = h

module _ (request : ResolvedPermissionRequest) (layers : Layers) (sources : List PolicySource) where
  abbrev collected : Reasons
  collected = collect_reasons request layers (record { deny_reasons = []; ask_reasons = [] })

  abbrev asks : List PolicyReason
  asks = push_if (not (is_empty request.critical_actions)) critical_reason collected.ask_reasons

  conclude-Decides : Decides request layers (conclude request sources collected)
  unfolding conclude
  conclude-Decides = elim (Bool-cases (not (is_empty collected.deny_reasons))) [
    | inl denied ↦ rw denied (
      (λ all.
          push_if-nonempty collected.deny_reasons denied
            (AllTolerate-collect_reasons request layers _ all refl)),
      push_if-nonempty collected.deny_reasons denied,
    )
    | inr tolerated ↦
        let none_denied = empty_list collected.deny_reasons tolerated in
        let (all, _) = collect_reasons-AllTolerate request layers _ none_denied in
        elim (Bool-cases (not (is_empty asks))) [
          | inl asked ↦
              rw (tolerated, asked)
                (
                  all,
                  (λ may. push_if-nonempty asks asked (
                      parts-push_if _ collected.ask_reasons (ap (λ c. not (is_empty c)) may.1)
                        (AllPermit-collect_reasons request layers _ may.0 refl))),
                  push_if-nonempty asks asked,
                )
          | inr silent ↦
              let (no_critical, no_asks) =
                push_if-parts _ collected.ask_reasons (empty_list asks silent) in
              rw (tolerated, silent)
                (
                  (
                    AllPermit-parts request layers all
                        (collect_reasons-Silent request layers _ no_asks).0,
                    empty_list request.critical_actions no_critical,
                  ),
                  refl,
                )
        ]
  ]

-- Each outcome of the broker is the one that the layers call for: it denies exactly where a layer
-- denies or allows too little, else asks exactly where a layer asks or an action is critical, and
-- else allows what the request asks for and no more.
pub evaluate-Decides :
    (request : ResolvedPermissionRequest) (inputs : PolicyInputs) (outcome : BrokerOutcome)
    → evaluate request inputs ≡ ok outcome
    → Decides request (ordered inputs.layers) outcome
unfolding evaluate
evaluate-Decides request inputs outcome h =
    let (_, h1) = reject_if-eq-ok (not (request_eq inputs.request request)) _ _ h in
    let (_, _, last) = >>=-eq-ok (validate_layers (ordered inputs.layers)) _ h1 in
    subst (Decides request (ordered inputs.layers)) (ok_injective last)
      (conclude-Decides request (ordered inputs.layers) _)

Decides-allow :
    (request : ResolvedPermissionRequest) (layers : Layers) (outcome : BrokerOutcome)
    → Decides request layers outcome
    → MayAllow request layers
    → (sources : List PolicySource) × (outcome
        ≡ BrokerOutcome.allow (exact_authorization request) sources)
Decides-allow request layers (BrokerOutcome.allow authorization sources) d may =
    (sources, ap (λ a. BrokerOutcome.allow a sources) d.1)
Decides-allow request layers (BrokerOutcome.ask sources reasons) d may = absurd (d.1 may)
Decides-allow request layers (BrokerOutcome.deny sources reasons) d may =
    absurd (d.0 (AllPermit-AllTolerate request layers may.0))

-- A managed lease only restricts: what the managed stack allows, the stack of host and user profile
-- without the lease does not deny and does not ask for, where its evaluation succeeds.
pub evaluate-managed_restricts :
    (request : ResolvedPermissionRequest) (host user_profile lease : PolicyContribution)
    (authorization : ProvisionalAuthorization) (sources : List PolicySource)
    (outcome : BrokerOutcome)
    → evaluate request (managed_inputs request host user_profile lease)
      ≡ ok (BrokerOutcome.allow authorization sources)
    → evaluate request (local_inputs request host user_profile) ≡ ok outcome
    → (sources' : List PolicySource) × (outcome ≡ BrokerOutcome.allow authorization sources')
unfolding ordered
evaluate-managed_restricts request host user_profile lease authorization sources outcome managed
      local =
    let (((p_host, (p_user, _)), no_critical), exact) =
      evaluate-Decides request (managed_inputs request host user_profile lease)
        (BrokerOutcome.allow authorization sources) managed in
    let (sources', same) =
      Decides-allow request (ordered (local_inputs request host user_profile).layers) outcome
        (evaluate-Decides request (local_inputs request host user_profile) outcome local)
        ((p_host, (p_user, tt)), no_critical) in
    (sources', same ∙ ap (λ a. BrokerOutcome.allow a sources') (sym exact))
