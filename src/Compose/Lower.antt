-- ===== src/Compose/Lower.antt =====
-- src/compose.ts: types without functions and segments, and what it is for a composition to accept less than both of
-- its parts.
pub mod Merge
pub mod Pair
pub mod Length
pub mod Row
pub mod Table
pub mod Base
pub mod Union
pub mod Composed
use sequence.Prelude.{ℕ, String, Bool, true, false, ◌&&◌, ◌||◌, ◌≡◌, List, [], ◌∷◌, ◌==◌}
use sequence.Lang.{
  Kind, string, number, boolean, null, object, array, fn, never, or, Value, undefined, num, nth,
  bool, str, ref, Shape, type_of, Values, nil, cons, Fields, Constraint, con, Constraints,
  none_left, one_more, Ty, ty,
}

-- the kinds of plain data
abbrev pub is_base : Kind → Bool
is_base fn = false
is_base Kind.any = false
is_base never = false
is_base or = false
is_base _ = true

-- the ops whose check reads a nested type or the other constraints
abbrev pub is_special : String → Bool
is_special op = op == "property" || op == "element" || op == "branch" || op == "segment"

abbrev pub is_bound : Value → Bool
is_bound undefined = true
is_bound (num n) = true
is_bound _ = false

-- The two bounds of a length are numbers or missing.
abbrev pub is_bounded : Values → Bool
is_bounded args = is_bound (nth 0 args) && is_bound (nth 1 args)

-- Types with no function and no segment in them, whose properties, elements, branches and lengths
-- have the arguments that src/type.ts gives them, and whose unions have only branches.
mutual
  pub data Plain : Ty → Type 0 where
    nothing : {cs : Constraints} {m : Fields} → Plain (ty never cs m)
    anything : {cs : Constraints} {m : Fields} → Plain (ty Kind.any cs m)
    union : {cs : Constraints} {m : Fields} → PlainBranches cs → Plain (ty or cs m)
    base :
        {k : Kind} {cs : Constraints} {m : Fields}
        → is_base k ≡ true
        → PlainEach cs
        → Plain (ty k cs m)

  pub data PlainBranches : Constraints → Type 0 where
    no_more : PlainBranches none_left
    branch :
        {i : ℕ} {t : Ty} {cs : Constraints}
        → Plain t
        → PlainBranches cs
        → PlainBranches (one_more (con "branch" (cons (ref i (type_of t)) nil)) cs)

  pub data PlainEach : Constraints → Type 0 where
    none_left_over : PlainEach none_left
    also :
        {c : Constraint} {cs : Constraints} → PlainOne c → PlainEach cs → PlainEach (one_more c cs)

  pub data PlainOne : Constraint → Type 0 where
    property :
        {k : String} {i : ℕ} {t : Ty} {o : Bool}
        → Plain t
        → PlainOne (con "property" (cons (str k) (cons (ref i (type_of t)) (cons (bool o) nil))))
    element : {i : ℕ} {t : Ty} → Plain t → PlainOne (con "element" (cons (ref i (type_of t)) nil))
    flat :
        {op : String} {args : Values}
        → is_special op ≡ false
        → (op == "length" || op == "arrayLength") ≡ false
        → PlainOne (con op args)
    bounded :
        {op : String} {args : Values}
        → (op == "length" || op == "arrayLength") ≡ true
        → is_bounded args ≡ true
        → PlainOne (con op args)
