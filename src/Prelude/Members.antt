-- ===== src/Prelude/Members.antt =====
-- Membership in a list, beside `All`: what loops collect from the elements that they visit.
use mathlib.Core.Path.{◌≡◌, refl, sym, subst}
use mathlib.Core.Logic.{inl, inr}
use mathlib.Core.Bool.{Bool, true, false}
use mathlib.Core.Option.{none, some}
use mathlib.Core.List.{List, [], ◌∷◌, Memᴰ}
use mathlib.Core.List.Memᴰ.{head, tail, not-nil}
use xgeny_cli.Prelude.Tests.{if◌then◌else◌, All, find, Bool-cases}
use xgeny_cli.Prelude.Fallible.{Result, ok, >>=-eq-ok, fold, fold_inv}
use xgeny_cli.Prelude.Sort.{insert_by, sort_by, insert_ordered}

module _ {A : Type 0} where
  pub All-map {κ μ} :
      (P : A → Type κ) (Q : A → Type μ)
      → ((x : A) → P x → Q x)
      → (xs : List A) → All P xs
      → All Q xs
  All-map P Q f [] all = tt
  All-map P Q f (x ∷ xs) (p, all) = (f x p, All-map P Q f xs all)

  pub All-member {κ} : (P : A → Type κ) (xs : List A) (x : A) → All P xs → Memᴰ x xs → P x
  All-member P [] x all m = absurd (not-nil m)
  All-member P (y ∷ ys) x (p, all) (head e) = subst P (sym e) p
  All-member P (y ∷ ys) x (p, all) (tail m) = All-member P ys x all m

  -- Every element of a list is a member of it.
  pub All-itself : (xs : List A) → All (λ x. Memᴰ x xs) xs
  All-itself [] = tt
  All-itself (x ∷ xs) = (
    head refl,
    All-map (λ y. Memᴰ y xs) (λ y. Memᴰ y (x ∷ xs)) (λ y m. tail m) xs (All-itself xs),
  )

  insert_by-All {κ} :
      (P : A → Type κ) (le : A → A → Bool) (a : A) (xs : List A)
      → All P (insert_by le a xs)
      → P a × All P xs
  unfolding insert_by
  insert_by-All P le a [] all = (all.0, tt)
  insert_by-All P le a (x ∷ xs) all = split (le a x) (insert_by-All P le a xs) all
    where
      split :
          (b : Bool)
          → (All P (insert_by le a xs) → P a × All P xs)
          → All P (if b then a ∷ x ∷ xs else x ∷ insert_by le a xs)
          → P a × All P (x ∷ xs)
      split true rest (p, (q, others)) = (p, (q, others))
      split false rest (q, others) = let (p, last) = rest others in (p, (q, last))

  -- What holds of a list in order holds of the list.
  pub sort_by-All {κ} :
      (P : A → Type κ) (le : A → A → Bool) (xs : List A) → All P (sort_by le xs) → All P xs
  unfolding sort_by
  sort_by-All P le [] all = tt
  sort_by-All P le (x ∷ xs) all =
      let (p, rest) = insert_by-All P le x (sort_by le xs) all in (p, sort_by-All P le xs rest)

  -- `BTreeSet::insert` loses no member,
  pub member-insert_ordered :
      (lt eq : A → A → Bool) (a : A) (xs : List A) (x : A)
      → Memᴰ x xs
      → Memᴰ x (insert_ordered lt eq a xs)
  unfolding insert_ordered
  member-insert_ordered lt eq a [] x m = absurd (not-nil m)
  member-insert_ordered lt eq a (y ∷ ys) x m =
      place (lt a y) (eq a y) (member-insert_ordered lt eq a ys x) m
    where
      deeper :
          (Memᴰ x ys → Memᴰ x (insert_ordered lt eq a ys))
          → Memᴰ x (y ∷ ys)
          → Memᴰ x (y ∷ insert_ordered lt eq a ys)
      deeper rest (head e) = head e
      deeper rest (tail n) = tail (rest n)

      place :
          (below same : Bool)
          → (Memᴰ x ys → Memᴰ x (insert_ordered lt eq a ys))
          → Memᴰ x (y ∷ ys)
          → Memᴰ x (
              if below
              then a ∷ y ∷ ys
              else (if same then y ∷ ys else y ∷ insert_ordered lt eq a ys))
      place true same rest n = tail n
      place false true rest n = n
      place false false rest n = deeper rest n

  -- and gains the new one.
  pub insert_ordered-member :
      (lt eq : A → A → Bool)
      → ((a b : A) → eq a b ≡ true → a ≡ b)
      → (a : A) (xs : List A) → Memᴰ a (insert_ordered lt eq a xs)
  unfolding insert_ordered
  insert_ordered-member lt eq sound a [] = head refl
  insert_ordered-member lt eq sound a (y ∷ ys) = elim (Bool-cases (lt a y)) [
    | inl below ↦ rw below (head refl)
    | inr above ↦ elim (Bool-cases (eq a y)) [
      | inl same ↦ rw (above, same) (head (sound a y same))
      | inr other ↦ rw (above, other) (tail (insert_ordered-member lt eq sound a ys))
    ]
  ]

  pub find-none : (p : A → Bool) (xs : List A) → find p xs ≡ none → All (λ x. p x ≡ false) xs
  unfolding find
  find-none p [] h = tt
  find-none p (x ∷ xs) h = split (p x) (find-none p xs) h
    where
      split :
          (b : Bool)
          → (find p xs ≡ none → All (λ y. p y ≡ false) xs)
          → (if b then some x else find p xs) ≡ none
          → (b ≡ false) × All (λ y. p y ≡ false) xs
      split true rest e = cc
      split false rest e = (refl, rest e)

-- What a loop establishes for an element and keeps afterwards holds of every element at its end.
pub fold-All_kept {ℓ} :
    {E A B : Type 0} (Q : B → A → Type ℓ) (f : B → A → Result E B)
    → ((b : B) (x : A) (c : B) → f b x ≡ ok c → Q c x)
    → ((b : B) (x y : A) (c : B) → Q b y → f b x ≡ ok c → Q c y)
    → (b : B) (xs : List A) (c : B) → fold f b xs ≡ ok c
    → All (Q c) xs
unfolding fold
fold-All_kept Q f reach keep b [] c e = tt
fold-All_kept Q f reach keep b (x ∷ xs) c e =
    let (d, first, rest) = >>=-eq-ok (f b x) (λ c'. fold f c' xs) e in
    (
      fold_inv (λ s. Q s x) f (λ s y t q h. keep s y x t q h) d xs c (reach b x d first) rest,
      fold-All_kept Q f reach keep d xs c rest,
    )
