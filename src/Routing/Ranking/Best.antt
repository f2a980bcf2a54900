-- ===== src/Routing/Ranking/Best.antt =====
-- The first of a sorted list, and of the ranking of crates/xgeny-runtime/src/router.rs.
use Prim.Native.Nat.{Ordering}
use xgeny_cli.Prelude.{
  none, List, [], ◌∷◌, map, Bool, true, false, sort_by, insert_by, length, length-sort_by, All,
  All-map, All-member, Memᴰ, if◌then◌else◌, ◌≡◌, refl, sym, ap, ◌∙◌, subst, arith,
}
use xgeny_cli.Domain.Capability.{CapabilityInstanceBody}
use xgeny_cli.Routing.Request.{RouteRequest}
use xgeny_cli.Routing.Candidate.{RouteCandidateEvaluation}
use xgeny_cli.Routing.Ranking.{
  compare_candidates, not_after, eligible_instances, pin_first, ranked_instances,
}
use xgeny_cli.Routing.Ranking.Comparator.{
  reverse, Before, IsComparator, compare_candidates-IsComparator,
}
use xgeny_cli.Routing.Ranking.Members.{IsEligible, eligible_instances-member}

module _ {A : Type 0} (cmp : A → A → Ordering) (laws : IsComparator cmp) where
  abbrev le : A → A → Bool
  le a b = not_after (cmp a b)

  not_before : (a b : A) → le a b ≡ false → le b a ≡ true
  not_before a b h = subst (λ o. not_after o ≡ true) (sym (laws.flip a b)) (turned (cmp a b) h)
    where
      turned : (o : Ordering) → not_after o ≡ false → not_after (reverse o) ≡ true
      turned Ordering.lt e = cc
      turned Ordering.eq e = refl
      turned Ordering.gt e = refl

  before_itself : (a : A) → le a a ≡ true
  before_itself a = same (cmp a a) (laws.flip a a)
    where
      same : (o : Ordering) → o ≡ reverse o → not_after o ≡ true
      same Ordering.lt e = refl
      same Ordering.eq e = refl
      same Ordering.gt e = cc

  -- The first of a list is not after any of it.
  abbrev pub Leads : List A → List A → Type 0
  Leads [] xs = Unit
  Leads (first ∷ _) xs = All (λ x. le first x ≡ true) xs

  insert_by-Leads :
      (a : A) (sorted xs : List A)
      → (length sorted ≡ length xs)
      → Leads sorted xs
      → Leads (insert_by le a sorted) (a ∷ xs)
  unfolding insert_by
  insert_by-Leads a [] [] e leads = (before_itself a, tt)
  insert_by-Leads a [] (x ∷ xs) e leads = absurd (omega (arith, e))
  insert_by-Leads a (first ∷ rest) xs e leads = split (le a first) refl
    where
      split :
          (b : Bool)
          → le a first ≡ b
          → Leads (if b then a ∷ first ∷ rest else first ∷ insert_by le a rest) (a ∷ xs)
      split true before = (
        before_itself a,
        All-map (λ x. le first x ≡ true) (λ x. le a x ≡ true) (λ x h. laws.trans a first x before h)
            xs leads,
      )
      split false after = (not_before a first after, leads)

  pub sort_by-Leads : (xs : List A) → Leads (sort_by le xs) xs
  unfolding sort_by
  sort_by-Leads [] = tt
  sort_by-Leads (x ∷ xs) =
      insert_by-Leads x (sort_by le xs) xs (length-sort_by le xs) (sort_by-Leads xs)

-- Without a pin, the first of the ranking is not after any eligible instance.
pub ranked_instances-best :
    (request : RouteRequest) (evaluate : CapabilityInstanceBody → RouteCandidateEvaluation)
    (candidates : List CapabilityInstanceBody) (first : CapabilityInstanceBody)
    (others : List CapabilityInstanceBody)
    → request.pinned_instance_id ≡ none
    → ranked_instances request candidates (map evaluate candidates) ≡ first ∷ others
    → (candidate : CapabilityInstanceBody) → Memᴰ candidate candidates
    → IsEligible evaluate candidate
    → Before (compare_candidates request) first candidate
unfolding ranked_instances pin_first
ranked_instances-best request evaluate candidates first others no_pin ranked candidate m e =
    All-member (λ c. Before (compare_candidates request) first c) eligible candidate
      (subst (λ l. Leads (compare_candidates request) laws l eligible) sorted
        (sort_by-Leads (compare_candidates request) laws eligible))
      (eligible_instances-member evaluate candidate candidates m e)
  where
    eligible : List CapabilityInstanceBody
    eligible = eligible_instances candidates (map evaluate candidates)

    laws : IsComparator (compare_candidates request)
    laws = compare_candidates-IsComparator request

    sorted :
        sort_by (λ left right. not_after (compare_candidates request left right)) eligible
        ≡ first ∷ others
    sorted =
        ap
          (λ pin.
            pin_first pin
              (sort_by (λ left right. not_after (compare_candidates request left right)) eligible))
          (sym no_pin)
        ∙ ranked
