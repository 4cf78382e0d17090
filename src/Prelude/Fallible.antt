-- ===== src/Prelude/Fallible.antt =====
-- Computations that may fail, as options: the binds of a `do` block, and what two of them have in common.
use mathlib.Core.Option.{Option, none, some}

infixl 5 ◌>>=◌
abbrev pub ◌>>=◌ : {A B : Type 0} → Option A → (A → Option B) → Option B
none >>= f = none
some a >>= f = f a

-- Where both return, what they return is related.
abbrev pub Both : {A B : Type 0} → (A → B → Type 0) → Option A → Option B → Type 0
Both R (some a) (some b) = R a b
Both R none o = Unit
Both R (some a) none = Unit

Both-none : {A B : Type 0} (R : A → B → Type 0) (o : Option A) → Both R o none
Both-none R none = tt
Both-none R (some a) = tt

pub Both-bind :
    {A B C D : Type 0} (R : A → B → Type 0) (S : C → D → Type 0) (f : A → Option C)
    (g : B → Option D) (o : Option A) (p : Option B)
    → Both R o p
    → ((a : A) (b : B) → R a b → Both S (f a) (g b))
    → Both S (o >>= f) (p >>= g)
Both-bind R S f g none p h k = tt
Both-bind R S f g (some a) none h k = Both-none S (f a)
Both-bind R S f g (some a) (some b) h k = k a b h

pub Both-refl : {A : Type 0} (R : A → A → Type 0) → ((a : A) → R a a) → (o : Option A) → Both R o o
Both-refl R h none = tt
Both-refl R h (some a) = h a

-- What is returned, if anything is.
abbrev pub Returns : {A : Type 0} → (A → Type 0) → Option A → Type 0
Returns P none = Unit
Returns P (some a) = P a

pub Returns-bind :
    {A B : Type 0} (P : A → Type 0) (Q : B → Type 0) (f : A → Option B) (o : Option A)
    → Returns P o
    → ((a : A) → P a → Returns Q (f a))
    → Returns Q (o >>= f)
Returns-bind P Q f none h k = tt
Returns-bind P Q f (some a) h k = k a h

pub Returns-then :
    {A B : Type 0} (Q : B → Type 0) (f : A → Option B) (o : Option A)
    → ((a : A) → Returns Q (f a))
    → Returns Q (o >>= f)
Returns-then Q f none k = tt
Returns-then Q f (some a) k = k a

pub Returns-weaken :
    {A : Type 0} (P Q : A → Type 0) (o : Option A)
    → Returns P o
    → ((a : A) → P a → Q a)
    → Returns Q o
Returns-weaken P Q none h k = tt
Returns-weaken P Q (some a) h k = k a h
