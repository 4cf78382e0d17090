-- ===== src/Compose/Pairs.antt =====
-- src/compose.ts, `pairHandlers`: what two constraints of compatible ops come to. The composition of two
-- nested types is a parameter. An object that a handler makes has no identity that another value
-- has; the model writes 0. A row whose constraints lack the arguments that src/type.ts gives them
-- keeps both.
use sequence.Prelude.{String, Bool, false, not, ◌&&◌, List, [], ◌∷◌, ◌==◌, if◌then◌else◌, any, keep}
use sequence.Lang.{
  arg, Value, undefined, nil_value, bool, num, str, ref, Shape, arr, obj, type_of, Values, nil,
  cons, Fields, end, field, Constraint, con, Ty, values, op_of, is_never, is_undefined, same,
}
use sequence.Lang.Int.{ℤ, ltb_ℤ, leb_ℤ}
use sequence.Compose.Meet.{Meet, contradiction, merged, independent}
use sequence.Compose.Bounds.{larger, smaller}

abbrev pub fresh : Shape → Value
fresh s = ref 0 s

abbrev pub list_values : List Value → Values
list_values [] = nil
list_values (v ∷ vs) = cons v (list_values vs)

-- `a ?? b`
abbrev pub coalesce : Value → Value → Value
coalesce undefined w = w
coalesce nil_value w = w
coalesce v w = v

-- `o?.k` of a plain object
abbrev lookup_field : String → Fields → Value
lookup_field k end = undefined
lookup_field k (field j v fs) = if j == k then v else lookup_field k fs

abbrev pub field_or_undefined : String → Value → Value
field_or_undefined k (ref i (obj fs)) = lookup_field k fs
field_or_undefined k _ = undefined

-- the tighter of two bounds that may be missing
abbrev pub tighter : (ℤ → ℤ → ℤ) → Value → Value → Value
tighter f (num a) (num b) = num (f a b)
tighter f v w = coalesce v w

abbrev pub is_crossed : Value → Value → Bool
is_crossed (num lo) (num hi) = ltb_ℤ hi lo
is_crossed _ _ = false

unfoldable pub meet_literal : Constraint → Constraint → Meet Constraint
meet_literal a b = if same (arg 0 a) (arg 0 b) then merged a else contradiction

abbrev pub meet_number : (ℤ → ℤ → ℤ) → String → Value → Value → Meet Constraint
meet_number f op (num x) (num y) = merged (con op (cons (num (f x y)) nil))
meet_number f op _ _ = independent

unfoldable pub meet_min : Constraint → Constraint → Meet Constraint
meet_min a b = meet_number larger "min" (arg 0 a) (arg 0 b)

unfoldable pub meet_max : Constraint → Constraint → Meet Constraint
meet_max a b = meet_number smaller "max" (arg 0 a) (arg 0 b)

-- a lower bound against an upper bound
unfoldable pub meet_opposite : Value → Value → Meet Constraint
meet_opposite lo hi = if is_crossed lo hi then contradiction else independent

abbrev pub ranged : Value → Value → Meet Constraint
ranged (num lo) (num hi) =
    if ltb_ℤ hi lo then contradiction else merged (con "range" (cons (num lo) (cons (num hi) nil)))
ranged _ _ = independent

abbrev pub both_numbers : (ℤ → ℤ → ℤ) → Value → Value → Value
both_numbers f (num a) (num b) = num (f a b)
both_numbers f _ _ = undefined

unfoldable pub meet_range : Constraint → Constraint → Meet Constraint
meet_range a b =
    ranged (both_numbers larger (arg 0 a) (arg 0 b)) (both_numbers smaller (arg 1 a) (arg 1 b))

-- `length` and `arrayLength`
unfoldable pub meet_length : String → Constraint → Constraint → Meet Constraint
meet_length op a b =
    let lo = tighter larger (arg 0 a) (arg 0 b) in
    let hi = tighter smaller (arg 1 a) (arg 1 b) in
    if is_crossed lo hi then contradiction else merged (con op (cons lo (cons hi nil)))

unfoldable pub meet_pattern : Constraint → Constraint → Meet Constraint
meet_pattern a b = if same (arg 0 a) (arg 0 b) then merged a else independent

unfoldable pub meet_identity : Constraint → Constraint → Meet Constraint
meet_identity a b =
    if not (same (arg 0 a) (arg 0 b))
    then independent
    else if same (arg 1 a) (arg 1 b)
    then merged a
    else contradiction

unfoldable pub meet_preserves : Constraint → Constraint → Meet Constraint
meet_preserves a b =
    if same (arg 0 a) (arg 0 b) && same (arg 1 a) (arg 1 b)
    then merged a
    else if same (arg 0 a) (str "*")
    then merged a
    else if same (arg 0 b) (str "*")
    then merged b
    else independent

-- the bound that both declare, where they are numbers, and else the first that is declared
abbrev pub chosen : (ℤ → ℤ → ℤ) → Value → Value → Value
chosen f (num a) (num b) = num (f a b)
chosen f undefined w = w
chosen f v undefined = coalesce v undefined
chosen f v w = v

unfoldable pub meet_equation : Constraint → Constraint → Meet Constraint
meet_equation a b =
    let v = arg 2 a in
    let w = arg 2 b in
    let part =
      λ (f : ℤ → ℤ → ℤ) (k : String). chosen f (field_or_undefined k v) (field_or_undefined k w) in
    let opts = fresh (
      obj (
        field "from" (part larger "from") (
          field "until" (part smaller "until") (
            field "reliability"
              (coalesce (field_or_undefined "reliability" v) (field_or_undefined "reliability" w))
              end)))) in
    if not (same (arg 0 a) (arg 0 b))
    then independent
    else if not (same (arg 1 a) (arg 1 b))
    then contradiction
    else if is_undefined v && is_undefined w
    then merged a
    else merged (con "equation" (cons (arg 0 a) (cons (arg 1 a) (cons opts nil))))

abbrev pub opposed : Value → Value → Bool
opposed (num lo) (num hi) = leb_ℤ hi lo
opposed _ _ = false

abbrev pub temporal_bound : (ℤ → ℤ → ℤ) → String → Value → Value → Value → Meet Constraint
temporal_bound f dir lhs (num x) (num y) =
    merged (con "temporal" (cons (str dir) (cons lhs (cons (num (f x y)) nil))))
temporal_bound f dir lhs _ _ = independent

unfoldable pub meet_temporal : Constraint → Constraint → Meet Constraint
meet_temporal a b =
    let later = same (arg 0 a) (str "gt") in
    let later' = same (arg 0 b) (str "gt") in
    let before = same (arg 0 a) (str "lt") in
    let before' = same (arg 0 b) (str "lt") in
    if not (same (arg 1 a) (arg 1 b))
    then independent
    else if later && later'
    then temporal_bound larger "gt" (arg 1 a) (arg 2 a) (arg 2 b)
    else if before && before'
    then temporal_bound smaller "lt" (arg 1 a) (arg 2 a) (arg 2 b)
    else if later && before' && opposed (arg 2 a) (arg 2 b)
    then contradiction
    else if before && later' && opposed (arg 2 b) (arg 2 a)
    then contradiction
    else independent

abbrev pub conjoined : Value → Value → Value
conjoined (bool x) (bool y) = bool (x && y)
conjoined _ _ = bool false

abbrev pub shared : Value → Value → Value
shared (ref i (arr xs)) (ref j (arr ys)) =
    fresh (arr (list_values (keep (λ x. any (same x) (values ys)) (values xs))))
shared v w = coalesce v w

-- `mutations?.length ? mutations : undefined`
abbrev pub non_empty : Value → Value
non_empty (ref i (arr (cons v vs))) = ref i (arr (cons v vs))
non_empty _ = undefined

module _ (meet_ty : Ty → Ty → Ty) where
  -- a constraint of nested types, built again from their composition
  abbrev pub nested : (Value → Constraint) → Value → Value → Meet Constraint
  nested build (ref i (type_of t)) (ref j (type_of u)) =
      if is_never (meet_ty t u)
      then contradiction
      else merged (build (fresh (type_of (meet_ty t u))))
  nested build _ _ = independent

  unfoldable pub meet_property : Constraint → Constraint → Meet Constraint
  meet_property a b =
      if same (arg 0 a) (arg 0 b)
      then nested
          (λ t. con "property" (cons (arg 0 a) (cons t (cons (conjoined (arg 2 a) (arg 2 b)) nil))))
          (arg 1 a) (arg 1 b)
      else independent

  -- `element`, `param` and `returns`
  unfoldable pub meet_inner : String → Constraint → Constraint → Meet Constraint
  meet_inner op a b = nested (λ t. con op (cons t nil)) (arg 0 a) (arg 0 b)

  unfoldable pub meet_segment : Constraint → Constraint → Meet Constraint
  meet_segment a b =
      if same (arg 0 a) (arg 0 b)
      then nested
          (λ t. con "segment" (
            cons (arg 0 a) (
              cons t (
                cons (tighter smaller (arg 2 a) (arg 2 b)) (
                  cons (non_empty (shared (arg 3 a) (arg 3 b)))
                    (cons (coalesce (arg 4 a) (arg 4 b)) nil))))))
          (arg 1 a) (arg 1 b)
      else independent

  -- the handler of an op
  unfoldable pub meet_same : String → Constraint → Constraint → Meet Constraint
  unfolding meet_literal meet_min meet_max meet_range meet_length meet_pattern meet_identity
      meet_preserves meet_equation meet_temporal meet_property meet_inner meet_segment
  meet_same op a b =
      if op == "literal"
      then meet_literal a b
      else if op == "min"
      then meet_min a b
      else if op == "max"
      then meet_max a b
      else if op == "range"
      then meet_range a b
      else if op == "length"
      then meet_length "length" a b
      else if op == "pattern"
      then meet_pattern a b
      else if op == "property"
      then meet_property a b
      else if op == "element"
      then meet_inner "element" a b
      else if op == "arrayLength"
      then meet_length "arrayLength" a b
      else if op == "param"
      then meet_inner "param" a b
      else if op == "returns"
      then meet_inner "returns" a b
      else if op == "segment"
      then meet_segment a b
      else if op == "temporal"
      then meet_temporal a b
      else if op == "identity"
      then meet_identity a b
      else if op == "equation"
      then meet_equation a b
      else if op == "preserves"
      then meet_preserves a b
      else independent

  -- `pairHandlers[a.op]`, with the ops that `compatOps` adds
  unfoldable pub meet_pair : Constraint → Constraint → Meet Constraint
  unfolding meet_same meet_opposite
  meet_pair a b =
      if op_of a == op_of b
      then meet_same (op_of a) a b
      else if op_of a == "min" && op_of b == "max"
      then meet_opposite (arg 0 a) (arg 0 b)
      else if op_of a == "max" && op_of b == "min"
      then meet_opposite (arg 0 b) (arg 0 a)
      else independent
