-- ===== src/Prelude/Outcomes.antt =====
-- What a call guarantees: it does not panic or run out of fuel, and its value, where there is one, has
-- a property.
use mathlib.Core.Path.{◌≡◌, refl}
use mathlib.Core.Bool.{Bool, true, false}
use mathlib.Core.Option.{Option, none, some}
use xgeny_cli.Prelude.Fallible.{Result, ok, err, fault, ◌>>=◌, reject_if, ok_or}

abbrev pub Ensures : {E A : Type 0} → (A → Type 0) → Result E A → Type 0
Ensures P (ok a) = P a
Ensures P (err e) = Unit
Ensures P (fault x) = ⊥

pub bind-Ensures :
    {E A B : Type 0} (P : A → Type 0) (Q : B → Type 0) (first : Result E A) (rest : A → Result E B)
    → Ensures P first
    → ((a : A) → P a → Ensures Q (rest a))
    → Ensures Q (first >>= rest)
bind-Ensures P Q (ok a) rest h k = k a h
bind-Ensures P Q (err e) rest h k = tt
bind-Ensures P Q (fault x) rest h k = absurd h

pub reject_if-Ensures : {E : Type 0} (b : Bool) (e : E) → Ensures (λ u. b ≡ false) (reject_if b e)
reject_if-Ensures true e = tt
reject_if-Ensures false e = refl

pub ok_or-Ensures : {E A : Type 0} (o : Option A) (e : E) → Ensures (λ a. o ≡ some a) (ok_or o e)
ok_or-Ensures none e = tt
ok_or-Ensures (some a) e = refl

-- A guarantee that is at least as strong.
pub weaken-Ensures :
    {E A : Type 0} (P : A → Type 0) (Q : A → Type 0) (m : Result E A)
    → ((a : A) → P a → Q a)
    → Ensures P m
    → Ensures Q m
weaken-Ensures P Q (ok a) k h = k a h
weaken-Ensures P Q (err e) k h = tt
weaken-Ensures P Q (fault x) k h = absurd h
