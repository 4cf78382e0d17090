-- ===== src/Space/Evaluate/Judge.antt =====
-- src-v2/evaluate.ts: `evaluateConstraint`.
use sequence.Prelude.{
  String, Bool, true, false, not, ◌&&◌, ◌==◌, Option, none, some, List, if◌then◌else◌,
}
use sequence.Prelude.Fallible.{◌>>=◌}
use sequence.Lang.{
  Kind, string, number, boolean, null, object, array, Value, nil_value, bool, num, str, ref, arr,
  constraint_of, Values, nil, cons, end, Constraint, con, Ty, ty, none_left, one_more, nth,
  is_undefined,
}
use sequence.Lang.Int.{pos}
use sequence.Compose.Check.{check}
use sequence.Space.Evaluate.{Platform, rejects_glob, count_keys_at_path}
use sequence.Space.Evaluate.Arguments.{resolve_arg, substitute_segments}

-- `kindOf`
unfoldable pub literal_kind : Value → Kind
literal_kind nil_value = null
literal_kind (ref i (arr vs)) = array
literal_kind (str s) = string
literal_kind (num n) = number
literal_kind (bool b) = boolean
literal_kind v = object

abbrev pub type_with : Kind → String → Value → Ty
type_with k op v = ty k (one_more (con op (cons v nil)) none_left) end

-- `typeof v === 'number'`
abbrev pub is_num : Value → Bool
is_num (num n) = true
is_num v = false

module _ (js : Platform) where
  unfoldable pub equal_by_check : Value → Value → Bool
  unfolding check literal_kind
  equal_by_check a b = check js.matches (type_with (literal_kind b) "literal" b) a

  -- `check(createType('number', [min(b)]), a)`, and with `max`
  unfoldable pub reaches : Value → Value → Bool
  unfolding check
  reaches a b = check js.matches (type_with number "min" b) a

  unfoldable pub stays_within : Value → Value → Bool
  unfolding check
  stays_within a b = check js.matches (type_with number "max" b) a

  unfoldable pub is_number : Value → Bool
  unfolding check
  is_number a = check js.matches (ty number none_left end) a

  module _ (state : Value) (bindings : List (String × Value)) where
    abbrev lhs : Values → Option Value
    unfolding resolve_arg
    lhs args = resolve_arg js state bindings false (nth 0 args)

    abbrev rhs : Values → Option Value
    unfolding resolve_arg
    rhs args = resolve_arg js state bindings true (nth 1 args)

    -- `count_lt` and `count_gte`, by whether the count should reach the number
    unfoldable pub counts : Bool → Values → Option Bool
    unfolding substitute_segments rejects_glob rhs count_keys_at_path reaches is_number
    counts wanted args = elim (nth 0 args) [
      | str arg ↦
          let p = substitute_segments js state bindings arg in
          if rejects_glob p
          then none
          else rhs args >>= λ n.
              if not (is_num n)
              then some false
              else let meets = reaches (num (pos (count_keys_at_path state p))) n in
                some (if wanted then meets else not meets)
      | _ ↦ some false
    ]

    -- the operations on values
    unfoldable pub evaluate_flat : String → Values → Option Bool
    unfolding lhs rhs equal_by_check reaches stays_within is_number counts
    evaluate_flat op args =
        if op == "eq"
        then (lhs args >>= λ a. rhs args >>= λ b. some (equal_by_check a b))
        else if op == "neq"
        then (lhs args >>= λ a. rhs args >>= λ b. some (not (equal_by_check a b)))
        else if op == "gte"
        then (rhs args >>= λ b.
            if is_num b then (lhs args >>= λ a. some (reaches a b)) else some false)
        else if op == "lte"
        then (rhs args >>= λ b.
            if is_num b then (lhs args >>= λ a. some (stays_within a b)) else some false)
        else if op == "gt"
        then (lhs args >>= λ a.
            rhs args >>= λ b. some (is_num b && is_number a && not (stays_within a b)))
        else if op == "lt"
        then (lhs args >>= λ a.
            rhs args >>= λ b. some (is_num b && is_number a && not (reaches a b)))
        else if op == "exists"
        then (lhs args >>= λ a. some (not (is_undefined a)))
        else if op == "notExists"
        then (lhs args >>= λ a. some (is_undefined a))
        else if op == "count_lt"
        then counts false args
        else if op == "count_gte"
        then counts true args
        else none

    unfoldable mutual
      unfolding evaluate_flat

      -- `evaluateConstraint`
      pub evaluate_constraint : Constraint → Option Bool
      evaluate_constraint (con op args) =
          let met = some_clause args in
          let all_met = every_clause args in
          let first = first_clause args in
          if op == "or_clause"
          then met
          else if op == "and_clause"
          then all_met
          else if op == "not_clause"
          then (first >>= λ b. some (not b))
          else evaluate_flat op args

      -- `asConstraint`, then the evaluation
      pub clause : Value → Option Bool
      clause (ref i (constraint_of c)) = evaluate_constraint c
      clause v = none

      pub first_clause : Values → Option Bool
      first_clause nil = none
      first_clause (cons v vs) = clause v

      pub some_clause : Values → Option Bool
      some_clause nil = some false
      some_clause (cons v vs) =
          let rest = some_clause vs in clause v >>= λ b. if b then some true else rest

      pub every_clause : Values → Option Bool
      every_clause nil = some true
      every_clause (cons v vs) =
          let rest = every_clause vs in clause v >>= λ b. if b then rest else some false
