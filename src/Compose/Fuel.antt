-- ===== src/Compose/Fuel.antt =====
-- src/compose.ts: the size of a type, by the types that its constraints hold, which every nested call of
-- `compose` and `covers` makes smaller.
pub mod Loop
pub mod Table
pub mod Step
pub mod Depth
use sequence.Prelude.{
  ℕ, zero, suc, ◌+◌, ◌≤◌, Bool, true, false, ◌≡◌, refl, sym, List, [], ◌∷◌, Option, none, some,
  arith, All, keep, find_first, All-keep, if◌then◌else◌, String, ◌==◌,
}
use sequence.Lang.{
  nth, arg, Value, ref, type_of, Values, nil, cons, Constraint, con, Constraints, none_left,
  one_more, Ty, ty, constraints, constraints_of, op_of,
}
use sequence.Lang.Vocabulary.{constraints_with}
use Prim.Native.Nat.{◌*◌}
use sequence.Compose.Contradiction.{Deadline}
use sequence.Compose.Lattice.{calls_at, as_type, types_in, branches}

unfoldable mutual
  pub type_size : Ty → ℕ
  type_size (ty k cs m) = suc (constraints_size cs)

  pub constraints_size : Constraints → ℕ
  constraints_size none_left = 0
  constraints_size (one_more c cs) = constraint_size c + constraints_size cs

  pub constraint_size : Constraint → ℕ
  constraint_size (con op args) = values_size args

  pub values_size : Values → ℕ
  values_size nil = 0
  values_size (cons v vs) = value_size v + values_size vs

  pub value_size : Value → ℕ
  value_size (ref i (type_of t)) = type_size t
  value_size _ = 0

nth_size : (n : ℕ) (vs : Values) → value_size (nth n vs) ≤ values_size vs
unfolding value_size values_size
nth_size n nil = omega arith
nth_size zero (cons v vs) = omega arith
nth_size (suc n) (cons v vs) = omega (arith, nth_size n vs)

pub arg_size : (n : ℕ) (c : Constraint) → value_size (arg n c) ≤ constraint_size c
unfolding value_size constraint_size
arg_size n (con op args) = nth_size n args

-- less than a bound
abbrev pub Small : ℕ → Constraint → Type 0
Small n c = suc (constraint_size c) ≤ n

abbrev pub SmallType : ℕ → Ty → Type 0
SmallType n t = suc (type_size t) ≤ n

-- the type that an argument holds, if it holds one
abbrev pub Held : ℕ → Option Ty → Type 0
Held n none = Unit
Held n (some t) = SmallType n t

pub as_type-Held : (n i : ℕ) (c : Constraint) → Small n c → Held n (as_type (arg i c))
as_type-Held n i c h = by_value (arg i c) (omega (arith, arg_size i c))
  where
    by_value : (v : Value) → suc (value_size v) ≤ n → Held n (as_type v)
    by_value (ref j (type_of t)) k = unfold value_size in k
    by_value v k = tt

constraints-Small :
    (n : ℕ) (cs : Constraints) → suc (constraints_size cs) ≤ n → All (Small n) (constraints cs)
unfolding constraints_size
constraints-Small n none_left h = tt
constraints-Small n (one_more c cs) h = (omega arith, constraints-Small n cs (omega arith))

pub constraints_of-Small : (t : Ty) → All (Small (type_size t)) (constraints_of t)
unfolding type_size
constraints_of-Small (ty k cs m) = constraints-Small (suc (constraints_size cs)) cs (omega arith)

types_in-Small : (n : ℕ) (cs : List Constraint) → All (Small n) cs → All (SmallType n) (types_in cs)
types_in-Small n [] h = tt
types_in-Small n (c ∷ cs) (h, hs) =
    by_held (as_type (arg 0 c)) (as_type-Held n 0 c h) (types_in-Small n cs hs)
  where
    by_held :
        (o : Option Ty)
        → Held n o
        → All (SmallType n) (types_in cs)
        → All (SmallType n) (elim o [ none ↦ types_in cs | some t ↦ t ∷ types_in cs ])
    by_held none k ks = ks
    by_held (some t) k ks = (k, ks)

pub branches-Small : (t : Ty) → All (SmallType (type_size t)) (branches t)
unfolding branches constraints_with
branches-Small t =
    types_in-Small (type_size t) (keep (λ c. op_of c == "branch") (constraints_of t)) (
      All-keep (Small (type_size t)) (λ c. op_of c == "branch") (constraints_of t)
        (constraints_of-Small t))

-- the constraint that a search finds, if it finds one
abbrev pub Found : ℕ → Option Constraint → Type 0
Found n none = Unit
Found n (some c) = Small n c

pub find_first-Found :
    (n : ℕ) (p : Constraint → Bool) (cs : List Constraint)
    → All (Small n) cs
    → Found n (find_first p cs)
find_first-Found n p [] h = tt
find_first-Found n p (c ∷ cs) (h, hs) = by_test (p c) (find_first-Found n p cs hs)
  where
    by_test :
        (b : Bool) → Found n (find_first p cs) → Found n (if b then some c else find_first p cs)
    by_test true k = h
    by_test false k = k

-- `compose`, with as many levels of nested calls as are enough
unfoldable pub compose : Deadline → Ty → Ty → Ty
unfolding calls_at type_size
compose misses a b = (calls_at misses (3 * (type_size a + type_size b) + 3)).compose a b
