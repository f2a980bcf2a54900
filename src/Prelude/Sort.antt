-- ===== src/Prelude/Sort.antt =====
-- `sort`, `sort_by` and `dedup` of Rust's slices: stable sorting by a Boolean order.
use Prim.Native.Nat.{suc, Ordering}
use Prim.Native.String.{String, compare}
use mathlib.Core.Path.{◌≡◌, refl, sym, ap, ◌∙◌}
use mathlib.Core.Logic.{◌≢◌}
use mathlib.Core.Bool.{Bool, true, false, ◌||◌}
use mathlib.Core.List.{List, [], ◌∷◌}
use native.Mathlib.Omega.{arith}
use xgeny_cli.Prelude.Tests.{if◌then◌else◌, length, All}

-- `Ord` on texts.
abbrev pub text_le : String → String → Bool
text_le a b = elim (compare a b) [ Ordering.gt ↦ false | _ ↦ true ]

abbrev pub text_lt : String → String → Bool
text_lt a b = elim (compare a b) [ Ordering.lt ↦ true | _ ↦ false ]

module _ {A : Type 0} where
  unfoldable pub insert_by : (A → A → Bool) → A → List A → List A
  insert_by le a [] = a ∷ []
  insert_by le a (x ∷ xs) = if le a x then a ∷ x ∷ xs else x ∷ insert_by le a xs

  -- Of two equal elements the first stays first.
  unfoldable pub sort_by : (A → A → Bool) → List A → List A
  unfolding insert_by
  sort_by le [] = []
  sort_by le (x ∷ xs) = insert_by le x (sort_by le xs)

  -- `dedup` of what follows an element that stays.
  unfoldable pub dedup_after : (A → A → Bool) → A → List A → List A
  dedup_after eq a [] = a ∷ []
  dedup_after eq a (x ∷ xs) = if eq a x then dedup_after eq a xs else a ∷ dedup_after eq x xs

  unfoldable pub dedup : (A → A → Bool) → List A → List A
  unfolding dedup_after
  dedup eq [] = []
  dedup eq (x ∷ xs) = dedup_after eq x xs

  length-insert_by :
      (le : A → A → Bool) (a : A) (xs : List A) → length (insert_by le a xs) ≡ suc (length xs)
  unfolding insert_by
  length-insert_by le a [] = refl
  length-insert_by le a (x ∷ xs) = ground (arith, length-insert_by le a xs)

  pub length-sort_by : (le : A → A → Bool) (xs : List A) → length (sort_by le xs) ≡ length xs
  unfolding sort_by
  length-sort_by le [] = refl
  length-sort_by le (x ∷ xs) =
      omega (arith, length-insert_by le x (sort_by le xs), length-sort_by le xs)

  All-insert_by {κ} :
      (P : A → Type κ) (le : A → A → Bool) (a : A) (xs : List A)
      → P a
      → All P xs
      → All P (insert_by le a xs)
  unfolding insert_by
  All-insert_by P le a [] p all = (p, tt)
  All-insert_by P le a (x ∷ xs) p (q, all) =
      either (le a x) (p, (q, all)) (q, All-insert_by P le a xs p all)
    where
      either :
          (b : Bool)
          → All P (a ∷ x ∷ xs)
          → All P (x ∷ insert_by le a xs)
          → All P (if b then a ∷ x ∷ xs else x ∷ insert_by le a xs)
      either true y n = y
      either false y n = n

  -- Sorting keeps what holds of every element.
  pub All-sort_by {κ} :
      (P : A → Type κ) (le : A → A → Bool) (xs : List A) → All P xs → All P (sort_by le xs)
  unfolding sort_by
  All-sort_by P le [] all = tt
  All-sort_by P le (x ∷ xs) (p, all) =
      All-insert_by P le x (sort_by le xs) p (All-sort_by P le xs all)

  -- A list that is not empty stays so when sorted or stripped of duplicates.
  dedup_after-nil : (eq : A → A → Bool) (a : A) (xs : List A) → dedup_after eq a xs ≢ []
  unfolding dedup_after
  dedup_after-nil eq a [] h = cc
  dedup_after-nil eq a (x ∷ xs) h = ground (arith, dedup_after-nil eq a xs)

  dedup-nil : (eq : A → A → Bool) (xs : List A) → dedup eq xs ≡ [] → length xs ≡ 0
  unfolding dedup
  dedup-nil eq [] h = refl
  dedup-nil eq (x ∷ xs) h = absurd (dedup_after-nil eq x xs h)

  pub sort_by-nil : (le : A → A → Bool) (xs : List A) → sort_by le xs ≡ [] → length xs ≡ 0
  sort_by-nil le xs h = sym (length-sort_by le xs) ∙ ap length h

  pub dedup-sort_by-nil :
      (eq le : A → A → Bool) (xs : List A) → dedup eq (sort_by le xs) ≡ [] → length xs ≡ 0
  dedup-sort_by-nil eq le xs h = sym (length-sort_by le xs) ∙ dedup-nil eq (sort_by le xs) h

abbrev pub sort_texts : List String → List String
sort_texts = sort_by text_le

module _ {A : Type 0} where
  -- `BTreeSet::insert` for an element type with its own order and equality.
  unfoldable pub insert_ordered : (A → A → Bool) → (A → A → Bool) → A → List A → List A
  insert_ordered lt eq a [] = a ∷ []
  insert_ordered lt eq a (x ∷ xs) =
      let rest = insert_ordered lt eq a xs in
      if lt a x then a ∷ x ∷ xs else (if eq a x then x ∷ xs else x ∷ rest)

  -- What holds of the members and of the new one holds of all members.
  pub All-insert_ordered {κ} :
      (P : A → Type κ) (lt eq : A → A → Bool) (a : A) (xs : List A)
      → P a
      → All P xs
      → All P (insert_ordered lt eq a xs)
  unfolding insert_ordered
  All-insert_ordered P lt eq a [] p all = (p, tt)
  All-insert_ordered P lt eq a (x ∷ xs) p (q, all) =
      place (lt a x) (eq a x) (All-insert_ordered P lt eq a xs p all)
    where
      place :
          (below same : Bool)
          → All P (insert_ordered lt eq a xs)
          → All P (
              if below
              then a ∷ x ∷ xs
              else (if same then x ∷ xs else x ∷ insert_ordered lt eq a xs))
      place true same rest = (p, (q, all))
      place false true rest = (q, all)
      place false false rest = (q, rest)

  -- `windows(2).any(|pair| pair[0] == pair[1])`
  unfoldable pub any_adjacent : (A → A → Bool) → List A → Bool
  any_adjacent eq [] = false
  any_adjacent eq (x ∷ []) = false
  any_adjacent eq (x ∷ y ∷ xs) = eq x y || any_adjacent eq (y ∷ xs)
