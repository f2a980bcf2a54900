-- ===== src/Prelude/Maps.antt =====
-- `BTreeMap<String, V>` as an association list in key order, and `BTreeSet<String>` as a list in
-- order. Rust orders strings by bytes, which is the order of `compare`.
use Prim.Native.Nat.{◌≤◌, suc, Ordering}
use Prim.Native.String.{String, compare}
use mathlib.Core.Path.{◌≡◌, refl}
use mathlib.Core.Bool.{Bool, false, ◌||◌}
use mathlib.Core.Option.{Option, none, some}
use mathlib.Core.List.{List, [], ◌∷◌, map}
use native.Mathlib.Omega.{arith}
use text.Mathlib.Text.{◌==◌ as str_eq}
use text.Mathlib.TextEquality.{eq_iff}
use xgeny_cli.Prelude.Tests.{All, if◌then◌else◌, length, is_some}

abbrev pub StringMap : Type 0 → Type 0
StringMap V = List (String × V)

module _ {V : Type 0} where
  unfoldable pub lookup : String → StringMap V → Option V
  lookup k [] = none
  lookup k ((j, v) ∷ m) = if str_eq j k then some v else lookup k m

  -- `contains_key`
  abbrev pub contains_key : String → StringMap V → Bool
  contains_key k m = is_some (lookup k m)

  -- `insert`, in key order; an existing key keeps its place and gets the new value.
  unfoldable pub insert : String → V → StringMap V → StringMap V
  insert k v [] = (k, v) ∷ []
  insert k v ((j, w) ∷ m) =
      let rest = insert k v m in
      elim (compare k j) [
        | Ordering.lt ↦ (k, v) ∷ (j, w) ∷ m
        | Ordering.eq ↦ (k, v) ∷ m
        | Ordering.gt ↦ (j, w) ∷ rest
      ]

  -- A write through `get_mut`: the entry of the key, where there is one, gets the new value.
  unfoldable pub replace : String → V → StringMap V → StringMap V
  replace k v [] = []
  replace k v ((j, w) ∷ m) = if str_eq j k then (j, v) ∷ m else (j, w) ∷ replace k v m

  abbrev pub values : StringMap V → List V
  values = map (λ e. e.1)

  abbrev pub keys : StringMap V → List String
  keys = map (λ e. e.0)

  pub lookup-insert :
      (k j : String) (v : V) (m : StringMap V)
      → lookup j (insert k v m) ≡ (if str_eq k j then some v else lookup j m)
  unfolding lookup insert
  lookup-insert k j v [] = refl
  lookup-insert k j v ((i, w) ∷ m) =
      ground (arith, eq_iff k j, eq_iff k i, eq_iff i j, lookup-insert k j v m)

  pub lookup-replace :
      (k j : String) (v : V) (m : StringMap V)
      → lookup j (replace k v m)
        ≡ (if str_eq k j then (if is_some (lookup j m) then some v else none) else lookup j m)
  unfolding lookup replace
  lookup-replace k j v [] = ground arith
  lookup-replace k j v ((i, w) ∷ m) =
      ground (arith, eq_iff k j, eq_iff i k, eq_iff i j, lookup-replace k j v m)

  pub length-replace : (k : String) (v : V) (m : StringMap V) → length (replace k v m) ≡ length m
  unfolding replace
  length-replace k v [] = refl
  length-replace k v ((i, w) ∷ m) = ground (arith, length-replace k v m)

  pub length-insert :
      (k : String) (v : V) (m : StringMap V)
      → lookup k m ≡ none
      → length (insert k v m) ≡ suc (length m)
  unfolding lookup insert
  length-insert k v [] h = refl
  length-insert k v ((i, w) ∷ m) h = ground (arith, eq_iff k i, eq_iff i k, length-insert k v m)

  -- An insertion adds one entry at most.
  pub length-insert_bound :
      (k : String) (v : V) (m : StringMap V) → length (insert k v m) ≤ suc (length m)
  unfolding insert
  length-insert_bound k v [] = omega arith
  length-insert_bound k v ((i, w) ∷ m) = ground (arith, length-insert_bound k v m)

abbrev pub StringSet : Type 0
StringSet = List String

-- `BTreeSet::contains`; also `Vec::contains`.
unfoldable pub contains : String → List String → Bool
contains k [] = false
contains k (j ∷ s) = str_eq j k || contains k s

-- `BTreeSet::insert`
unfoldable pub set_insert : String → StringSet → StringSet
set_insert k [] = k ∷ []
set_insert k (j ∷ s) =
    let rest = set_insert k s in
    elim (compare k j) [ Ordering.lt ↦ k ∷ j ∷ s | Ordering.eq ↦ j ∷ s | Ordering.gt ↦ j ∷ rest ]

pub contains-set_insert :
    (k j : String) (s : StringSet) → contains j (set_insert k s) ≡ (str_eq k j || contains j s)
unfolding contains set_insert
contains-set_insert k j [] = refl
contains-set_insert k j (i ∷ s) =
    ground (arith, eq_iff k j, eq_iff k i, eq_iff i j, contains-set_insert k j s)

pub All-insert {κ} :
    {V : Type 0} (P : String × V → Type κ) (k : String) (v : V) (m : StringMap V)
    → P (k, v)
    → All P m
    → All P (insert k v m)
unfolding insert
All-insert P k v [] p all = (p, tt)
All-insert P k v ((j, w) ∷ m) p (q, all) = place (compare k j) (All-insert P k v m p all)
  where
    place :
        (o : Ordering)
        → All P (insert k v m)
        → All P (elim o [
          | Ordering.lt ↦ (k, v) ∷ (j, w) ∷ m
          | Ordering.eq ↦ (k, v) ∷ m
          | Ordering.gt ↦ (j, w) ∷ insert k v m
        ])
    place Ordering.lt rest = (p, (q, all))
    place Ordering.eq rest = (p, all)
    place Ordering.gt rest = (q, rest)
