-- ===== src/Routing/Ranking/Members.antt =====
-- Which candidates `rank_candidates` of crates/xgeny-runtime/src/router.rs ranks.
use xgeny_cli.Prelude.{
  String, Option, none, some, List, [], ◌∷◌, map, Bool, true, false, str_eq, eq_iff, sort_by,
  All-sort_by, All, Memᴰ, ◌≡◌, refl, sym, ap, ◌∙◌, if◌then◌else◌,
}
use mathlib.Core.List.Memᴰ.{head, tail, not-nil}
use xgeny_cli.Domain.Capability.{CapabilityInstanceBody}
use xgeny_cli.Routing.Request.{RouteRequest}
use xgeny_cli.Routing.Candidate.{CandidateEligibility, RouteCandidateEvaluation}
use xgeny_cli.Routing.Ranking.{
  compare_candidates, not_after, eligible_instances, take_first, pin_first, ranked_instances,
}

module _ (evaluate : CapabilityInstanceBody → RouteCandidateEvaluation) where
  abbrev pub IsEligible : CapabilityInstanceBody → Type 0
  IsEligible candidate = (evaluate candidate).eligibility ≡ CandidateEligibility.placement_eligible

  -- Every eligible instance is one of the instances, and its evaluation says so;
  pub All-eligible_instances {κ} :
      (P : CapabilityInstanceBody → Type κ) (candidates : List CapabilityInstanceBody)
      → All P candidates
      → All (λ c. P c × IsEligible c) (eligible_instances candidates (map evaluate candidates))
  unfolding eligible_instances
  All-eligible_instances P [] all = tt
  All-eligible_instances P (c ∷ cs) (p, all) =
      keep (evaluate c).eligibility refl (All-eligible_instances P cs all)
    where
      keep :
          (e : CandidateEligibility)
          → (evaluate c).eligibility ≡ e
          → All (λ x. P x × IsEligible x) (eligible_instances cs (map evaluate cs))
          → All
              (λ x. P x × IsEligible x)
              (elim e [
                | CandidateEligibility.placement_eligible ↦
                    c ∷ eligible_instances cs (map evaluate cs)
                | CandidateEligibility.rejected ↦ eligible_instances cs (map evaluate cs)
              ])
      keep CandidateEligibility.placement_eligible eq rest = ((p, eq), rest)
      keep CandidateEligibility.rejected eq rest = rest

  -- and every instance whose evaluation says so is there.
  pub eligible_instances-member :
      (candidate : CapabilityInstanceBody) (candidates : List CapabilityInstanceBody)
      → Memᴰ candidate candidates
      → IsEligible candidate
      → Memᴰ candidate (eligible_instances candidates (map evaluate candidates))
  unfolding eligible_instances
  eligible_instances-member candidate [] m e = absurd (not-nil m)
  eligible_instances-member candidate (c ∷ cs) m e =
      found (evaluate c).eligibility refl m (λ n. eligible_instances-member candidate cs n e)
    where
      found :
          (k : CandidateEligibility)
          → (evaluate c).eligibility ≡ k
          → Memᴰ candidate (c ∷ cs)
          → (Memᴰ candidate cs → Memᴰ candidate (eligible_instances cs (map evaluate cs)))
          → Memᴰ candidate (elim k [
            | CandidateEligibility.placement_eligible ↦ c ∷ eligible_instances cs (map evaluate cs)
            | CandidateEligibility.rejected ↦ eligible_instances cs (map evaluate cs)
          ])
      found CandidateEligibility.placement_eligible eq (head q) rest = head q
      found CandidateEligibility.placement_eligible eq (tail n) rest = tail (rest n)
      found CandidateEligibility.rejected eq (head q) rest =
          absurd (apart (ap (λ x. (evaluate x).eligibility) (sym q) ∙ e))
        where
          apart : (evaluate c).eligibility ≡ CandidateEligibility.placement_eligible → ⊥
          apart same = cc
      found CandidateEligibility.rejected eq (tail n) rest = rest n

module _ {A : Type 0} (p : A → Bool) where
  -- What `take_first` finds passes the test, and a property of all elements holds of it and of the
  -- others.
  abbrev pub Taken {κ} : (A → Type κ) → Option (A × List A) → Type κ
  Taken P none = Unit
  Taken P (some (found, others)) = (p found ≡ true) × P found × All P others

  pub take_first-Taken {κ} : (P : A → Type κ) (xs : List A) → All P xs → Taken P (take_first p xs)
  unfolding take_first
  take_first-Taken P [] all = tt
  take_first-Taken P (x ∷ xs) (q, all) =
      split (p x) refl (take_first p xs) (take_first-Taken P xs all)
    where
      here : Option (A × List A)
      here = some (x, xs)

      later : Option (A × List A) → Option (A × List A)
      later none = none
      later (some (found, others)) = some (found, x ∷ others)

      split :
          (b : Bool)
          → p x ≡ b
          → (rest : Option (A × List A)) → Taken P rest
          → Taken P (if b then here else later rest)
      split true t rest taken = (t, q, all)
      split false t none taken = tt
      split false t (some (found, others)) taken = (taken.0, taken.1, (q, taken.2))

-- Pinning only moves or drops candidates, and the first is then the pinned one.
pub pin_first-All {κ} :
    (P : CapabilityInstanceBody → Type κ) (pin : Option String)
    (ranked : List CapabilityInstanceBody)
    → All P ranked
    → All P (pin_first pin ranked)
unfolding pin_first
pin_first-All P none ranked all = all
pin_first-All P (some pin) ranked all =
    split (take_first (λ c. str_eq c.instance_id pin) ranked)
      (take_first-Taken (λ c. str_eq c.instance_id pin) P ranked all)
  where
    split :
        (o : Option (CapabilityInstanceBody × List CapabilityInstanceBody))
        → Taken (λ c. str_eq c.instance_id pin) P o
        → All P (elim o [ none ↦ [] | some (pinned, others) ↦ pinned ∷ others ])
    split none taken = tt
    split (some (pinned, others)) taken = (taken.1, taken.2)

pub pin_first-pinned :
    (pin : String) (ranked : List CapabilityInstanceBody) (first : CapabilityInstanceBody)
    (others : List CapabilityInstanceBody)
    → pin_first (some pin) ranked ≡ first ∷ others
    → first.instance_id ≡ pin
unfolding pin_first
pin_first-pinned pin ranked first others h =
    split (take_first (λ c. str_eq c.instance_id pin) ranked)
      (take_first-Taken (λ c. str_eq c.instance_id pin) (λ c. Unit {0}) ranked (trivial ranked)) h
  where
    head_injective :
        {a b : CapabilityInstanceBody} {cs ds : List CapabilityInstanceBody}
        → (a ∷ cs) ≡ (b ∷ ds)
        → a ≡ b
    head_injective e = cc

    trivial : (cs : List CapabilityInstanceBody) → All (λ c. Unit {0}) cs
    trivial [] = tt
    trivial (c ∷ cs) = (tt, trivial cs)

    split :
        (o : Option (CapabilityInstanceBody × List CapabilityInstanceBody))
        → Taken (λ c. str_eq c.instance_id pin) (λ c. Unit {0}) o
        → (elim o [ none ↦ [] | some (pinned, rest) ↦ pinned ∷ rest ]) ≡ first ∷ others
        → first.instance_id ≡ pin
    split none taken e = cc
    split (some (pinned, rest)) taken e =
        ap (λ c. c.instance_id) (sym (head_injective e)) ∙ (eq_iff pinned.instance_id pin).0 taken.0

-- Every ranked candidate is an instance whose evaluation is eligible.
pub All-ranked_instances {κ} :
    (request : RouteRequest) (evaluate : CapabilityInstanceBody → RouteCandidateEvaluation)
    (P : CapabilityInstanceBody → Type κ) (candidates : List CapabilityInstanceBody)
    → All P candidates
    → All
        (λ c. P c × IsEligible evaluate c)
        (ranked_instances request candidates (map evaluate candidates))
unfolding ranked_instances
All-ranked_instances request evaluate P candidates all =
    pin_first-All (λ c. P c × IsEligible evaluate c) request.pinned_instance_id _
      (All-sort_by (λ c. P c × IsEligible evaluate c) _ _
        (All-eligible_instances evaluate P candidates all))

-- The first of a ranking with a pin is the pinned instance.
pub ranked_instances-pinned :
    (request : RouteRequest) (instances : List CapabilityInstanceBody)
    (candidates : List RouteCandidateEvaluation) (pin : String) (first : CapabilityInstanceBody)
    (rest : List CapabilityInstanceBody)
    → request.pinned_instance_id ≡ some pin
    → ranked_instances request instances candidates ≡ first ∷ rest
    → first.instance_id ≡ pin
unfolding ranked_instances
ranked_instances-pinned request instances candidates pin first rest p leads =
    pin_first-pinned pin sorted first rest (ap (λ o. pin_first o sorted) (sym p) ∙ leads)
  where
    sorted : List CapabilityInstanceBody
    sorted =
        sort_by (λ left right. not_after (compare_candidates request left right))
          (eligible_instances instances candidates)
