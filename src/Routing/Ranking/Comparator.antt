-- ===== src/Routing/Ranking/Comparator.antt =====
-- Comparators of Rust's `sort_by`: total preorders, their lexicographic composition, and the
-- comparator of crates/xgeny-runtime/src/router.rs as one.
use Prim.Native.Nat.{Ordering, compare as compare_number}
use Prim.Native.Char.{Char, code}
use Prim.Native.String.compare
use Prim.Native.String.{String, [], ◌∷◌, compare, then as then_with}
use xgeny_cli.Prelude.{ℕ, str_eq, Option, none, some, true, ◌≡◌, refl, sym, ap, ◌∙◌, subst, arith}
use xgeny_cli.Domain.Capability.{trust_eq, boundary_eq}
use xgeny_cli.Routing.Float.{total_cmp, total_rank, normalize_zero}
use xgeny_cli.Routing.Request.{RouteRequest}
use xgeny_cli.Routing.Candidate.{reliability, latency, cost}
use xgeny_cli.Routing.Ranking.{
  health_rank, preference_rank, compare_optional, compare_optional_ord_asc,
  compare_optional_f64_asc, compare_optional_f64_desc, compare_candidates, not_after,
}

-- `Ordering::reverse`
abbrev pub reverse : Ordering → Ordering
reverse Ordering.lt = Ordering.gt
reverse Ordering.eq = Ordering.eq
reverse Ordering.gt = Ordering.lt

-- `<=` by a comparator.
abbrev pub Before : {A : Type 0} → (A → A → Ordering) → A → A → Type 0
Before cmp a b = not_after (cmp a b) ≡ true

-- A comparator of a total preorder.
pub record IsComparator {A : Type 0} (cmp : A → A → Ordering) : Type 0 where
  pub flip : (a b : A) → cmp b a ≡ reverse (cmp a b)
  pub trans : (a b c : A) → Before cmp a b → Before cmp b c → Before cmp a c

flip_then_with : (o p : Ordering) → then_with (reverse o) (reverse p) ≡ reverse (then_with o p)
flip_then_with Ordering.lt p = refl
flip_then_with Ordering.eq p = refl
flip_then_with Ordering.gt p = refl

-- The first comparison's laws, round the triangle, and the second's transitivity.
trans_then_with :
    (o1 o2 o3 p1 p2 p3 : Ordering)
    → (not_after o1 ≡ true → not_after o2 ≡ true → not_after o3 ≡ true)
    → (not_after o2 ≡ true → not_after (reverse o3) ≡ true → not_after (reverse o1) ≡ true)
    → (not_after (reverse o3) ≡ true → not_after o1 ≡ true → not_after (reverse o2) ≡ true)
    → (not_after p1 ≡ true → not_after p2 ≡ true → not_after p3 ≡ true)
    → not_after (then_with o1 p1) ≡ true
    → not_after (then_with o2 p2) ≡ true
    → not_after (then_with o3 p3) ≡ true
trans_then_with Ordering.gt o2 o3 p1 p2 p3 t u v w h k = cc
trans_then_with Ordering.lt Ordering.gt o3 p1 p2 p3 t u v w h k = cc
trans_then_with Ordering.eq Ordering.gt o3 p1 p2 p3 t u v w h k = cc
trans_then_with o1 o2 Ordering.lt p1 p2 p3 t u v w h k = refl
trans_then_with Ordering.lt Ordering.lt Ordering.eq p1 p2 p3 t u v w h k = cc (u refl refl)
trans_then_with Ordering.lt Ordering.eq Ordering.eq p1 p2 p3 t u v w h k = cc (u refl refl)
trans_then_with Ordering.eq Ordering.lt Ordering.eq p1 p2 p3 t u v w h k = cc (v refl refl)
trans_then_with Ordering.eq Ordering.eq Ordering.eq p1 p2 p3 t u v w h k = w h k
trans_then_with Ordering.lt Ordering.lt Ordering.gt p1 p2 p3 t u v w h k = cc (t refl refl)
trans_then_with Ordering.lt Ordering.eq Ordering.gt p1 p2 p3 t u v w h k = cc (t refl refl)
trans_then_with Ordering.eq Ordering.lt Ordering.gt p1 p2 p3 t u v w h k = cc (t refl refl)
trans_then_with Ordering.eq Ordering.eq Ordering.gt p1 p2 p3 t u v w h k = cc (t refl refl)

compare_flip : (m n : ℕ) → compare_number n m ≡ reverse (compare_number m n)
compare_flip m n = ground arith

compare_trans :
    (m n k : ℕ) → Before compare_number m n → Before compare_number n k → Before compare_number m k
compare_trans m n k h i = ground arith

module _ {A : Type 0} where
  pub then_with-IsComparator :
      (first second : A → A → Ordering)
      → IsComparator first
      → IsComparator second
      → IsComparator (λ a b. then_with (first a b) (second a b))
  then_with-IsComparator first second f s = record {
    flip = λ a b.
        ap (λ o. then_with o (second b a)) (f.flip a b)
        ∙ ap (then_with (reverse (first a b))) (s.flip a b)
        ∙ flip_then_with (first a b) (second a b);
    trans = λ a b c h k.
        trans_then_with (first a b) (first b c) (first a c) (second a b) (second b c) (second a c)
          (f.trans a b c)
          (λ x y.
            subst (λ o. not_after o ≡ true) (f.flip a b)
              (f.trans b c a x (subst (λ o. not_after o ≡ true) (sym (f.flip a c)) y)))
          (λ x y.
            subst (λ o. not_after o ≡ true) (f.flip b c)
              (f.trans c a b (subst (λ o. not_after o ≡ true) (sym (f.flip a c)) x) y))
          (s.trans a b c) h k;
  }

  -- A comparison of what a function makes of two elements.
  pub on-IsComparator :
      {B : Type 0} (f : A → B) (cmp : B → B → Ordering)
      → IsComparator cmp
      → IsComparator (λ a b. cmp (f a) (f b))
  on-IsComparator f cmp c = record {
    flip = λ a b. c.flip (f a) (f b);
    trans = λ a b d. c.trans (f a) (f b) (f d);
  }

  -- The opposite comparison.
  pub swap-IsComparator :
      (cmp : A → A → Ordering) → IsComparator cmp → IsComparator (λ a b. cmp b a)
  swap-IsComparator cmp c = record {
    flip = λ a b. c.flip b a;
    trans = λ a b d h k. c.trans d b a k h;
  }

  optional_flip :
      (cmp : A → A → Ordering)
      → IsComparator cmp
      → (a b : Option A) → compare_optional cmp b a ≡ reverse (compare_optional cmp a b)
  optional_flip cmp c none none = refl
  optional_flip cmp c none (some b) = refl
  optional_flip cmp c (some a) none = refl
  optional_flip cmp c (some a) (some b) = c.flip a b

  optional_trans :
      (cmp : A → A → Ordering)
      → IsComparator cmp
      → (a b d : Option A) → Before (compare_optional cmp) a b
      → Before (compare_optional cmp) b d
      → Before (compare_optional cmp) a d
  optional_trans cmp c none none none h k = refl
  optional_trans cmp c none none (some d) h k = k
  optional_trans cmp c none (some b) d h k = cc
  optional_trans cmp c (some a) b none h k = refl
  optional_trans cmp c (some a) none (some d) h k = cc
  optional_trans cmp c (some a) (some b) (some d) h k = c.trans a b d h k

  pub optional-IsComparator :
      (cmp : A → A → Ordering) → IsComparator cmp → IsComparator (compare_optional cmp)
  optional-IsComparator cmp c = record { flip = optional_flip cmp c; trans = optional_trans cmp c }

numbers-IsComparator : IsComparator compare_number
numbers-IsComparator = record { flip = compare_flip; trans = compare_trans }

text_flip : (s t : String) → compare t s ≡ reverse (compare s t)
text_flip [] [] = ap reverse (sym compare.nil-nil)
text_flip [] (d ∷ t) = compare.cons-nil d t ∙ ap reverse (sym (compare.nil-cons d t))
text_flip (c ∷ s) [] = compare.nil-cons c s ∙ ap reverse (sym (compare.cons-nil c s))
text_flip (c ∷ s) (d ∷ t) =
    compare.cons-cons d c t s
    ∙ ap (λ o. then_with o (compare t s)) (compare_flip (code c) (code d))
    ∙ ap (then_with (reverse (compare_number (code c) (code d)))) (text_flip s t)
    ∙ flip_then_with (compare_number (code c) (code d)) (compare s t)
    ∙ ap reverse (sym (compare.cons-cons c d s t))

text_trans : (s t u : String) → Before compare s t → Before compare t u → Before compare s u
text_trans [] t [] h k = ap not_after compare.nil-nil
text_trans [] t (e ∷ u) h k = ap not_after (compare.nil-cons e u)
text_trans (c ∷ s) [] u h k = cc (compare.cons-nil c s)
text_trans (c ∷ s) (d ∷ t) [] h k = cc (compare.cons-nil d t)
text_trans (c ∷ s) (d ∷ t) (e ∷ u) h k =
    ap not_after (compare.cons-cons c e s u)
    ∙ trans_then_with (compare_number (code c) (code d)) (compare_number (code d) (code e))
        (compare_number (code c) (code e)) (compare s t) (compare t u) (compare s u)
        (compare_trans (code c) (code d) (code e)) (turn c d e)
        (λ x y.
          subst (λ o. not_after o ≡ true) (compare_flip (code d) (code e))
            (compare_trans (code e) (code c) (code d)
              (subst (λ o. not_after o ≡ true) (sym (compare_flip (code c) (code e))) x) y))
        (text_trans s t u) (ap not_after (sym (compare.cons-cons c d s t)) ∙ h)
        (ap not_after (sym (compare.cons-cons d e t u)) ∙ k)
  where
    turn :
        (c d e : Char)
        → Before compare_number (code d) (code e)
        → not_after (reverse (compare_number (code c) (code e))) ≡ true
        → not_after (reverse (compare_number (code c) (code d))) ≡ true
    turn c d e x y =
        subst (λ o. not_after o ≡ true) (compare_flip (code c) (code d))
          (compare_trans (code d) (code e) (code c) x
            (subst (λ o. not_after o ≡ true) (sym (compare_flip (code c) (code e))) y))

texts-IsComparator : IsComparator compare
texts-IsComparator = record { flip = text_flip; trans = text_trans }

-- Placement ranks by a total preorder: the eight comparisons of two candidates, one after the other.
pub compare_candidates-IsComparator :
    (request : RouteRequest) → IsComparator (compare_candidates request)
unfolding compare_candidates
compare_candidates-IsComparator request =
    then_with-IsComparator _ _
      (on-IsComparator (λ c. health_rank c.health.status) compare_number numbers-IsComparator)
      (then_with-IsComparator _ _
        (on-IsComparator reliability compare_optional_f64_desc
          (optional-IsComparator _ (swap-IsComparator _ floats)))
        (then_with-IsComparator _ _
          (on-IsComparator (λ c. preference_rank trust_eq request.trust_preference c.trust)
            compare_number numbers-IsComparator)
          (then_with-IsComparator _ _
            (on-IsComparator
              (λ c. preference_rank boundary_eq request.data_boundary_preference c.data_boundary)
              compare_number numbers-IsComparator)
            (then_with-IsComparator _ _
              (on-IsComparator latency compare_optional_ord_asc
                (optional-IsComparator compare_number numbers-IsComparator))
              (then_with-IsComparator _ _
                (on-IsComparator cost compare_optional_f64_asc (optional-IsComparator _ floats))
                (then_with-IsComparator _ _
                  (on-IsComparator
                    (λ c. preference_rank str_eq request.preferred_instance_ids c.instance_id)
                    compare_number numbers-IsComparator)
                  (on-IsComparator (λ c. c.instance_id) compare texts-IsComparator)))))))
  where
    floats : IsComparator (λ left right. total_cmp (normalize_zero left) (normalize_zero right))
    floats =
        on-IsComparator normalize_zero total_cmp
          (on-IsComparator total_rank compare_number numbers-IsComparator)
