-- ===== src/Lang.antt =====
-- src/type.ts: values, types and constraints. A JavaScript value is a primitive or an object with
-- an identity, by which `===` and `Object.is` compare it. Numbers are integers: fractions, NaN, the
-- infinities and -0 are left out. An object with the shape of a type or of a constraint is its own
-- case. The lists inside the block are copies of `List`, since a data type cannot nest itself.
pub mod Int
pub mod Vocabulary
mod Tests
use sequence.Prelude.{
  ℕ, zero, suc, String, Bool, true, false, ◌&&◌, Option, none, some, List, [], ◌∷◌, eqb, ◌==◌,
}
use sequence.Lang.Int.{ℤ, eq_ℤ}

pub data Kind : Type 0 where
  string number boolean null object array fn any never or : Kind

mutual
  pub data Value : Type 0 where
    undefined nil_value : Value
    bool : Bool → Value
    num : ℤ → Value
    str : String → Value
    -- an object by its identity and its content
    ref : ℕ → Shape → Value

  pub data Shape : Type 0 where
    arr : Values → Shape
    obj : Fields → Shape
    func : Shape
    type_of : Ty → Shape
    constraint_of : Constraint → Shape

  pub data Values : Type 0 where
    nil : Values
    cons : Value → Values → Values

  pub data Fields : Type 0 where
    end : Fields
    field : String → Value → Fields → Fields

  -- `{ op, args }`
  pub data Constraint : Type 0 where
    con : String → Values → Constraint

  pub data Constraints : Type 0 where
    none_left : Constraints
    one_more : Constraint → Constraints → Constraints

  -- `{ kind, constraints, meta }`
  pub data Ty : Type 0 where
    ty : Kind → Constraints → Fields → Ty

abbrev pub values : Values → List Value
values nil = []
values (cons v vs) = v ∷ values vs

abbrev pub constraints : Constraints → List Constraint
constraints none_left = []
constraints (one_more c cs) = c ∷ constraints cs

abbrev pub from_list : List Constraint → Constraints
from_list [] = none_left
from_list (c ∷ cs) = one_more c (from_list cs)

abbrev pub op_of : Constraint → String
op_of (con op args) = op

abbrev pub args_of : Constraint → List Value
args_of (con op args) = values args

-- an argument, `undefined` past the last
abbrev pub nth : ℕ → Values → Value
nth n nil = undefined
nth zero (cons v vs) = v
nth (suc n) (cons v vs) = nth n vs

abbrev pub arg : ℕ → Constraint → Value
arg n (con op args) = nth n args

abbrev pub kind_of : Ty → Kind
kind_of (ty k cs m) = k

abbrev pub constraints_of : Ty → List Constraint
constraints_of (ty k cs m) = constraints cs

-- `isNever`, `isAny`, and the test `kind === 'fn'`
abbrev pub is_never : Ty → Bool
is_never (ty never cs m) = true
is_never _ = false

abbrev pub is_any : Ty → Bool
is_any (ty any cs m) = true
is_any _ = false

abbrev pub is_fn : Ty → Bool
is_fn (ty fn cs m) = true
is_fn _ = false

abbrev pub is_undefined : Value → Bool
is_undefined undefined = true
is_undefined _ = false

-- `typeof value === 'function'`
abbrev pub is_func : Value → Bool
is_func (ref i func) = true
is_func _ = false

-- `===` and `Object.is`: primitives by content, objects by identity.
abbrev pub same : Value → Value → Bool
same undefined undefined = true
same nil_value nil_value = true
same (bool true) (bool true) = true
same (bool false) (bool false) = true
same (num a) (num b) = eq_ℤ a b
same (str s) (str t) = s == t
same (ref i a) (ref j b) = eqb i j
same _ _ = false
