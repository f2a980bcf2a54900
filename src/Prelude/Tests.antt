-- ===== src/Prelude/Tests.antt =====
-- Boolean tests on numbers and options, the conditional, and case lemmas.
use Prim.Native.Nat.{ℕ, suc, ◌+◌, compare, Ordering}
use mathlib.Core.Path.{◌≡◌, refl}
use mathlib.Core.Logic.{◌≢◌, ◌⊎◌, inl, inr}
use mathlib.Core.Bool.{Bool, true, false, ◌||◌, ◌&&◌, not}
use mathlib.Core.Option.{Option, none, some}
use mathlib.Core.List.{List, [], ◌∷◌, ◌++◌}
use native.Mathlib.Omega.{arith}

abbrev pub ltb : ℕ → ℕ → Bool
ltb a b = elim (compare a b) [ Ordering.lt ↦ true | _ ↦ false ]

abbrev pub leb : ℕ → ℕ → Bool
leb a b = elim (compare a b) [ Ordering.gt ↦ false | _ ↦ true ]

infix 50 ◌==◌ ◌!=◌
abbrev pub ◌==◌ : ℕ → ℕ → Bool
a == b = elim (compare a b) [ Ordering.eq ↦ true | _ ↦ false ]

abbrev pub ◌!=◌ : ℕ → ℕ → Bool
a != b = elim (compare a b) [ Ordering.eq ↦ false | _ ↦ true ]

infix 1 if◌then◌else◌
abbrev pub if◌then◌else◌ {ℓ} : {A : Type ℓ} → Bool → A → A → A
if true then x else y = x
if false then x else y = y

pub Bool-cases : (b : Bool) → (b ≡ true) ⊎ (b ≡ false)
Bool-cases true = inl refl
Bool-cases false = inr refl

pub and_true : (a b : Bool) → (a && b) ≡ true → (a ≡ true) × (b ≡ true)
and_true true b h = (refl, h)
and_true false b h = cc

pub not-false : (b : Bool) → not b ≡ false → b ≡ true
not-false true h = refl
not-false false h = cc

pub or_false : (a b : Bool) → (a || b) ≡ false → (a ≡ false) × (b ≡ false)
or_false true b h = cc
or_false false b h = (refl, h)

pub some_injective {ℓ} : {A : Type ℓ} {a b : A} → ◌≡◌ {A = Option A} (some a) (some b) → a ≡ b
some_injective h = cc

module _ {ℓ} {A : Type ℓ} where
  abbrev pub is_some : Option A → Bool
  is_some none = false
  is_some (some _) = true

  abbrev pub is_empty : List A → Bool
  is_empty [] = true
  is_empty (_ ∷ _) = false

  abbrev pub length : List A → ℕ
  length [] = 0
  length (x ∷ xs) = suc (length xs)

  -- `Iterator::any` and `Iterator::all`.
  abbrev pub any : (A → Bool) → List A → Bool
  any p [] = false
  any p (x ∷ xs) = p x || any p xs

  abbrev pub all : (A → Bool) → List A → Bool
  all p [] = true
  all p (x ∷ xs) = p x && all p xs

  pub Option-cases : (o : Option A) → (o ≡ none) ⊎ ((a : A) × (o ≡ some a))
  Option-cases none = inl refl
  Option-cases (some a) = inr (a, refl)

  -- Every element of a list has a property.
  abbrev pub All {κ} : (A → Type κ) → List A → Type κ
  All P [] = Unit
  All P (x ∷ xs) = P x × All P xs

  pub length-append : (xs ys : List A) → length (xs ++ ys) ≡ length xs + length ys
  length-append [] ys = omega arith
  length-append (x ∷ xs) ys = omega (arith, length-append xs ys)

  pub All-snoc {κ} : (P : A → Type κ) (xs : List A) (x : A) → All P xs → P x → All P (xs ++ x ∷ [])
  All-snoc P [] x all p = (p, tt)
  All-snoc P (y ∷ ys) x (q, all) p = (q, All-snoc P ys x all p)

  -- The derived `==` of two vectors.
  unfoldable pub list_eq : (A → A → Bool) → List A → List A → Bool
  list_eq eq [] [] = true
  list_eq eq [] (_ ∷ _) = false
  list_eq eq (_ ∷ _) [] = false
  list_eq eq (x ∷ xs) (y ∷ ys) = eq x y && list_eq eq xs ys

  -- `contains`, by the element's `==`, which takes the member first.
  unfoldable pub has : (A → A → Bool) → A → List A → Bool
  has eq a [] = false
  has eq a (x ∷ xs) = eq x a || has eq a xs

  -- `find`
  unfoldable pub find : (A → Bool) → List A → Option A
  find p [] = none
  find p (x ∷ xs) = if p x then some x else find p xs

  -- `filter`
  unfoldable pub filter : (A → Bool) → List A → List A
  filter p [] = []
  filter p (x ∷ xs) = let rest = filter p xs in if p x then x ∷ rest else rest

  pub list_eq-eq :
      (eq : A → A → Bool)
      → ((a b : A) → eq a b ≡ true → a ≡ b)
      → (xs ys : List A) → list_eq eq xs ys ≡ true
      → xs ≡ ys
  unfolding list_eq
  list_eq-eq eq sound [] [] h = refl
  list_eq-eq eq sound [] (y ∷ ys) h = cc
  list_eq-eq eq sound (x ∷ xs) [] h = cc
  list_eq-eq eq sound (x ∷ xs) (y ∷ ys) h =
      let (first, rest) = and_true (eq x y) (list_eq eq xs ys) h in
      cc (sound x y first, list_eq-eq eq sound xs ys rest)

  -- No element fails a test where every element passes it.
  pub All-any-not :
      (p : A → Bool) (xs : List A) → any (λ x. not (p x)) xs ≡ false → All (λ x. p x ≡ true) xs
  All-any-not p [] h = tt
  All-any-not p (x ∷ xs) h =
      let (first, rest) = or_false (not (p x)) _ h in (not-false (p x) first, All-any-not p xs rest)

  pub any-not-All :
      (p : A → Bool) (xs : List A) → All (λ x. p x ≡ true) xs → any (λ x. not (p x)) xs ≡ false
  any-not-All p [] all = refl
  any-not-All p (x ∷ xs) (first, rest) = rw first (any-not-All p xs rest)

  pub append-nil : (xs : List A) (x : A) → (xs ++ x ∷ []) ≢ []
  append-nil [] x h = cc
  append-nil (y ∷ ys) x h = cc
