-- ===== src/Prelude/Bools.antt =====
-- Disjunctions of Booleans, and what follows of their values.
use mathlib.Core.Path.{◌≡◌, refl, ap}
use mathlib.Core.Logic.{◌⊎◌, inl, inr}
use mathlib.Core.Bool.{Bool, true, false, ◌&&◌, ◌||◌}
use native.Mathlib.Omega.{arith}

pub clash : {b : Bool} → b ≡ true → b ≡ false → ⊥
clash h g = absurd (ground arith)

pub or_assoc : (a b c : Bool) → (a || (b || c)) ≡ ((a || b) || c)
or_assoc true b c = refl
or_assoc false b c = refl

pub none_of : (a b : Bool) → a ≡ false → b ≡ false → (a || b) ≡ false
none_of a b h g = ground arith

pub no_left : (a b : Bool) → (a || b) ≡ false → a ≡ false
no_left false b h = refl
no_left true b h = h

pub no_right : (a b : Bool) → (a || b) ≡ false → b ≡ false
no_right false b h = h
no_right true b h = absurd (ground arith)

pub left_or : (a b : Bool) → (a || b) ≡ true → (a ≡ true) ⊎ (b ≡ true)
left_or true b h = inl refl
left_or false b h = inr h

pub or_left : (a b : Bool) → a ≡ true → (a || b) ≡ true
or_left a b h = ap (λ a. a || b) h

pub or_right : (a b : Bool) → b ≡ true → (a || b) ≡ true
or_right true b h = refl
or_right false b h = h

pub or_swap : (a b c : Bool) → (a || (b || c)) ≡ (b || (a || c))
or_swap true true c = refl
or_swap true false c = refl
or_swap false b c = refl

pub or_true : (a : Bool) → (a || true) ≡ true
or_true true = refl
or_true false = refl

pub and_left : (a b : Bool) → (a && b) ≡ true → a ≡ true
and_left true b h = refl
and_left false b h = h

pub and_right : (a b : Bool) → (a && b) ≡ true → b ≡ true
and_right true b h = h
and_right false b h = absurd (ground arith)
