-- ===== src/Prelude/Fallible.antt =====
-- Rust's `Result` with `?`, and the two ways in which a call may fail to return: a panic
-- (`expect`, an index out of range) and, in this model of loops, fuel that ran out.
use mathlib.Core.Path.{◌≡◌, refl, subst}
use mathlib.Core.Bool.{Bool, true, false}
use mathlib.Core.Option.{Option, none, some}
use mathlib.Core.List.{List, [], ◌∷◌, ◌++◌}
use xgeny_cli.Prelude.Tests.{All}

pub data Fault : Type 0 where
  panic out_of_fuel : Fault

pub data Result (E A : Type 0) : Type 0 where
  ok : A → Result E A
  err : E → Result E A
  fault : Fault → Result E A

infixl 5 ◌>>=◌ ◌>>◌
abbrev pub ◌>>=◌ : {E A B : Type 0} → Result E A → (A → Result E B) → Result E B
fault x >>= rest = fault x
err e >>= rest = err e
ok a >>= rest = rest a

-- A statement whose value is not used.
abbrev pub ◌>>◌ : {E B : Type 0} → Result E (Unit {0}) → Result E B → Result E B
first >> second = first >>= λ _. second

-- `if b { return Err(e) }`
abbrev pub reject_if : {E : Type 0} → Bool → E → Result E (Unit {0})
reject_if true e = err e
reject_if false e = ok tt

-- `ok_or`
abbrev pub ok_or : {E A : Type 0} → Option A → E → Result E A
ok_or none e = err e
ok_or (some a) e = ok a

-- `expect`
abbrev pub expect : {E A : Type 0} → Option A → Result E A
expect none = fault panic
expect (some a) = ok a

-- `map_err`, and the conversion that `?` makes.
abbrev pub map_err : {E F A : Type 0} → (E → F) → Result E A → Result F A
map_err f (ok a) = ok a
map_err f (err e) = err (f e)
map_err f (fault x) = fault x

-- `try_fold`, and a `for` loop over a local variable.
unfoldable pub fold : {E A B : Type 0} → (B → A → Result E B) → B → List A → Result E B
fold f b [] = ok b
fold f b (x ∷ xs) = f b x >>= λ c. fold f c xs

-- A successful bind is two successful calls.
pub >>=-eq-ok :
    {E A B : Type 0} (first : Result E A) (rest : A → Result E B) {b : B}
    → (first >>= rest) ≡ ok b
    → (a : A) × (first ≡ ok a) × (rest a ≡ ok b)
>>=-eq-ok (fault x) rest h = cc
>>=-eq-ok (err e) rest h = cc
>>=-eq-ok (ok a) rest h = (a, refl, h)

-- A bind of a successful call goes on with its value.
pub >>=-ok :
    {E A B : Type 0} (first : Result E A) (rest : A → Result E B) {a : A}
    → first ≡ ok a
    → (first >>= rest) ≡ rest a
>>=-ok (ok a) rest h = cc
>>=-ok (err e) rest h = cc
>>=-ok (fault x) rest h = cc

pub ok_or-eq-ok : {E A : Type 0} (o : Option A) (e : E) {a : A} → ok_or o e ≡ ok a → o ≡ some a
ok_or-eq-ok none e h = cc
ok_or-eq-ok (some a) e h = cc

pub expect-eq-ok :
    {E A : Type 0} (o : Option A) {a : A} → ◌≡◌ {A = Result E A} (expect o) (ok a) → o ≡ some a
expect-eq-ok none h = cc
expect-eq-ok (some a) h = cc

pub map_err-eq-ok :
    {E F A : Type 0} (f : E → F) (m : Result E A) {a : A} → map_err f m ≡ ok a → m ≡ ok a
map_err-eq-ok f (ok a) h = cc
map_err-eq-ok f (err e) h = cc
map_err-eq-ok f (fault x) h = cc

pub reject_if-ok : {E : Type 0} (b : Bool) (e : E) → reject_if b e ≡ ok tt → b ≡ false
reject_if-ok true e h = cc
reject_if-ok false e h = refl

-- What comes after a test that let the call go on.
pub reject_if-eq-ok :
    {E A : Type 0} (b : Bool) (e : E) (rest : Result E A) {a : A}
    → (reject_if b e >> rest) ≡ ok a
    → (b ≡ false) × (rest ≡ ok a)
reject_if-eq-ok true e rest h = cc
reject_if-eq-ok false e rest h = (refl, h)

pub ok_injective : {E A : Type 0} {a b : A} → ◌≡◌ {A = Result E A} (ok a) (ok b) → a ≡ b
ok_injective h = cc

-- A property that each call of the loop body preserves holds after the loop.
pub fold_inv {ℓ} :
    {E A B : Type 0} (P : B → Type ℓ) (f : B → A → Result E B)
    → ((b : B) (x : A) (c : B) → P b → f b x ≡ ok c → P c)
    → (b : B) (xs : List A) (c : B) → P b
    → fold f b xs ≡ ok c
    → P c
unfolding fold
fold_inv P f keep b [] c h e = subst P (ok_injective e) h
fold_inv P f keep b (x ∷ xs) c h e =
    let (d, first, rest) = >>=-eq-ok (f b x) (λ c'. fold f c' xs) e in
    fold_inv P f keep d xs c (keep b x d h first) rest

-- What the loop body checks of each element holds of all of them.
pub fold-All {ℓ} :
    {E A B : Type 0} (Q : A → Type ℓ) (f : B → A → Result E B)
    → ((b : B) (x : A) (c : B) → f b x ≡ ok c → Q x)
    → (b : B) (xs : List A) (c : B) → fold f b xs ≡ ok c
    → All Q xs
unfolding fold
fold-All Q f check b [] c e = tt
fold-All Q f check b (x ∷ xs) c e =
    let (d, first, rest) = >>=-eq-ok (f b x) (λ c'. fold f c' xs) e in
    (check b x d first, fold-All Q f check d xs c rest)

-- `fold_inv` where the body may use a property of the element.
pub fold_inv-All {ℓ κ} :
    {E A B : Type 0} (P : B → Type ℓ) (Q : A → Type κ) (f : B → A → Result E B)
    → ((b : B) (x : A) (c : B) → P b → Q x → f b x ≡ ok c → P c)
    → (b : B) (xs : List A) (c : B) → P b
    → All Q xs
    → fold f b xs ≡ ok c
    → P c
unfolding fold
fold_inv-All P Q f keep b [] c h q e = subst P (ok_injective e) h
fold_inv-All P Q f keep b (x ∷ xs) c h q e =
    let (d, first, rest) = >>=-eq-ok (f b x) (λ c'. fold f c' xs) e in
    fold_inv-All P Q f keep d xs c (keep b x d h q.0 first) q.1 rest

-- A loop over two lists is a loop over the second from where the first ends.
pub fold-append :
    {E A B : Type 0} (f : B → A → Result E B) (b : B) (xs ys : List A)
    → fold f b (xs ++ ys) ≡ (fold f b xs >>= λ c. fold f c ys)
unfolding fold
fold-append f b [] ys = refl
fold-append {E = E} {A = A} {B = B} f b (x ∷ xs) ys = after (f b x) (λ c. fold-append f c xs ys)
  where
    after :
        (m : Result E B)
        → ((c : B) → fold f c (xs ++ ys) ≡ (fold f c xs >>= λ d. fold f d ys))
        → (m >>= λ c. fold f c (xs ++ ys)) ≡ ((m >>= λ c. fold f c xs) >>= λ d. fold f d ys)
    after (ok c) ih = ih c
    after (err e) ih = refl
    after (fault x) ih = refl
