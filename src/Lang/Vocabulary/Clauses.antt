-- ===== src/Lang/Vocabulary/Clauses.antt =====
-- src/type.ts: the constructors whose arguments are constraints, lists of values or options, and those of
-- expressions. A new object or array comes with its identity.
use sequence.Prelude.{ℕ, String, Bool, Option, none, some, List, [], ◌∷◌}
use sequence.Lang.{
  Value, undefined, bool, num, str, ref, arr, obj, constraint_of, Values, nil, cons, end, field,
  Constraint, con,
}
use sequence.Lang.Int.{ℤ}
use sequence.Lang.Vocabulary.{TypeObject, held}

-- an object that is a constraint
abbrev pub ConstraintObject : Type 0
ConstraintObject = ℕ × Constraint

abbrev pub held_clause : ConstraintObject → Value
held_clause (i, c) = ref i (constraint_of c)

abbrev held_clauses : List ConstraintObject → Values
held_clauses [] = nil
held_clauses (c ∷ cs) = cons (held_clause c) (held_clauses cs)

abbrev pub or_clause : List ConstraintObject → Constraint
or_clause clauses = con "or_clause" (held_clauses clauses)

abbrev pub and_clause : List ConstraintObject → Constraint
and_clause clauses = con "and_clause" (held_clauses clauses)

abbrev pub not_clause : ConstraintObject → Constraint
not_clause clause = con "not_clause" (cons (held_clause clause) nil)

-- the array of the rest parameter is the one that the constraint holds
abbrev pub one_of : String → ℕ → Values → Constraint
one_of path array values = con "one_of" (cons (str path) (cons (ref array (arr values)) nil))

pub record SegmentOptions : Type 0 where
  pub budget : Option ℤ
  pub mutations : Option (ℕ × Values)
  pub locked : Option Bool

abbrev budget_of : Option SegmentOptions → Value
budget_of none = undefined
budget_of (some o) = elim o.budget [ none ↦ undefined | some n ↦ num n ]

abbrev mutations_of : Option SegmentOptions → Value
mutations_of none = undefined
mutations_of (some o) = elim o.mutations [ none ↦ undefined | some (i, ops) ↦ ref i (arr ops) ]

abbrev locked_of : Option SegmentOptions → Value
locked_of none = undefined
locked_of (some o) = elim o.locked [ none ↦ undefined | some b ↦ bool b ]

abbrev pub segment : String → TypeObject → Option SegmentOptions → Constraint
segment name type opts = con "segment" (
    cons (str name) (
      cons (held type)
        (cons (budget_of opts) (cons (mutations_of opts) (cons (locked_of opts) nil)))))

-- `lit` and `path`: an expression that is a number or a path is that primitive
abbrev pub lit_value : ℤ → Value
lit_value n = num n

abbrev pub path_value : String → Value
path_value p = str p

-- `add` and `mul`, with the identities of the object and of its array
abbrev pub add_value : ℕ → ℕ → Values → Value
add_value object array terms = ref object (obj (field "add" (ref array (arr terms)) end))

abbrev pub mul_value : ℕ → ℕ → Values → Value
mul_value object array factors = ref object (obj (field "mul" (ref array (arr factors)) end))

abbrev pub call_value : ℕ → String → Value → Value
call_value object fn_name arg = ref object (obj (field "fn" (str fn_name) (field "arg" arg end)))

abbrev pub pm_value : ℕ → Value → Value → Value
pm_value object center margin = ref object (obj (field "pm" center (field "margin" margin end)))
