-- ===== src/Compose/Check.antt =====
-- src/compose.ts: `check`, by its `ok`; the gaps and the follows are reports. A text is as long as it has
-- code points, and the test of a regular expression is a parameter. The keys of a value are those of a
-- plain object, a type or a constraint: a key that an object inherits or that an array or a function
-- has is none, and neither has a primitive a key, where the `in` of the source throws.
use sequence.Prelude.{
  ℕ, suc, ◌+◌, String, Bool, true, false, not, ◌&&◌, ◌||◌, Option, none, some, ◌==◌, if◌then◌else◌,
  every, length, get_elem?, leb,
}
use Prim.Native.Nat.{◌*◌, ◌-◌}
use Prim.Native.Char.{code}
use sequence.Lang.{
  nth, Kind, string, number, boolean, null, object, array, fn, never, or, Value, nil_value, bool,
  num, str, ref, arr, obj, func, type_of, constraint_of, Values, nil, cons, Fields, end, field,
  Constraint, con, Constraints, none_left, one_more, Ty, ty, values, same,
}
use sequence.Lang.Int.{pos, ltb_ℤ}
use sequence.Compose.Pairs.{fresh}

-- `typeof`-tests of `checkKind`
unfoldable pub kind_ok : Kind → Value → Bool
kind_ok string (str s) = true
kind_ok string _ = false
kind_ok number (num n) = true
kind_ok number _ = false
kind_ok boolean (bool b) = true
kind_ok boolean _ = false
kind_ok null nil_value = true
kind_ok null _ = false
kind_ok object (ref i (arr vs)) = false
kind_ok object (ref i func) = false
kind_ok object (ref i s) = true
kind_ok object _ = false
kind_ok array (ref i (arr vs)) = true
kind_ok array _ = false
kind_ok _ v = true

abbrev find_field : String → Fields → Option Value
find_field k end = none
find_field k (field j v fs) = if j == k then some v else find_field k fs

abbrev constraint_list : Constraints → Values
constraint_list none_left = nil
constraint_list (one_more c cs) = cons (fresh (constraint_of c)) (constraint_list cs)

abbrev pub kind_text : Kind → String
kind_text string = "string"
kind_text number = "number"
kind_text boolean = "boolean"
kind_text null = "null"
kind_text object = "object"
kind_text array = "array"
kind_text fn = "fn"
kind_text Kind.any = "any"
kind_text never = "never"
kind_text or = "or"

-- the own property of an object; `none` where it has no such key
unfoldable pub own_property : String → Value → Option Value
own_property k (ref i (obj fs)) = find_field k fs
own_property k (ref i (type_of (ty kind cs m))) =
    if k == "kind"
    then some (str (kind_text kind))
    else if k == "constraints"
    then some (fresh (arr (constraint_list cs)))
    else if k == "meta"
    then some (fresh (obj m))
    else none
own_property k (ref i (constraint_of (con op args))) =
    if k == "op" then some (str op) else if k == "args" then some (fresh (arr args)) else none
own_property k _ = none

abbrev pub below : Value → Value → Bool
below (num a) (num b) = ltb_ℤ a b
below _ _ = false

unfoldable pub text_size : String → ℕ
text_size String.[] = 0
text_size (String.◌∷◌ c s) = suc (text_size s)

abbrev pub outside : Value → Value → Value → Bool
outside lo hi n = below n lo || below hi n

-- the handlers whose constraints hold no type
unfoldable pub flat_ok : (String → String → Bool) → String → Values → Value → Bool
unfolding text_size
flat_ok matches op args (num n) =
    if op == "literal"
    then same (num n) (nth 0 args)
    else if op == "min"
    then not (below (num n) (nth 0 args))
    else if op == "max"
    then not (below (nth 0 args) (num n))
    else if op == "range"
    then not (outside (nth 0 args) (nth 1 args) (num n))
    else true
flat_ok matches op args (str s) =
    if op == "literal"
    then same (str s) (nth 0 args)
    else if op == "length"
    then not (outside (nth 0 args) (nth 1 args) (num (pos (text_size s))))
    else if op == "pattern"
    then elim (nth 0 args) [ str p ↦ matches p s | _ ↦ true ]
    else true
flat_ok matches op args (ref i (arr vs)) =
    if op == "literal"
    then same (ref i (arr vs)) (nth 0 args)
    else if op == "arrayLength"
    then not (outside (nth 0 args) (nth 1 args) (num (pos (length (values vs)))))
    else true
flat_ok matches op args v = if op == "literal" then same v (nth 0 args) else true

-- the digits that `parseInt` reads at the start of a text; `none` is NaN
leading_digits : ℕ → Bool → String → Option ℕ
leading_digits n some_read String.[] = if some_read then some n else none
leading_digits n some_read (String.◌∷◌ c s) =
    let more = leading_digits (n * 10 + (code c - 48)) true s in
    if leb 48 (code c) && leb (code c) 57 then more else if some_read then some n else none

abbrev segment_ok : String → (Value → Bool) → Value → Bool
unfolding leading_digits
segment_ok position inner (ref i (arr vs)) = elim (leading_digits 0 false position) [
  | none ↦ true
  | some n ↦ elim (get_elem? (values vs) n) [ none ↦ true | some v ↦ inner v ]
]
segment_ok position inner _ = true

abbrev pub property_ok : String → (Value → Bool) → Bool → Value → Bool
property_ok k inner optional v = elim (own_property k v) [ none ↦ optional | some w ↦ inner w ]

abbrev pub elements_ok : (Value → Bool) → Value → Bool
elements_ok inner (ref i (arr vs)) = every inner (values vs)
elements_ok inner _ = true

abbrev pub is_true : Value → Bool
is_true (bool b) = b
is_true _ = false

abbrev pub has_op : String → Constraints → Bool
has_op op none_left = false
has_op op (one_more (con o args) cs) = o == op || has_op op cs

module _ (matches : String → String → Bool) where
  unfoldable mutual
    unfolding kind_ok own_property flat_ok segment_ok

    pub check : Ty → Value → Bool
    check (ty never cs m) v = false
    check (ty Kind.any cs m) v = true
    check (ty k cs m) v = kind_ok k v && check_each (has_op "segment" cs) (some_branch cs v) cs v

    -- the branches that accept, of a type's constraints
    pub some_branch : Constraints → Value → Bool
    some_branch none_left v = false
    some_branch (one_more c cs) v = branch_ok c v || some_branch cs v

    pub branch_ok : Constraint → Value → Bool
    branch_ok (con op (cons (ref i (type_of t)) rest)) v = op == "branch" && check t v
    branch_ok (con op _) v = false

    -- the constraints of a type that has segments or not, and a branch that accepts or not
    pub check_each : Bool → Bool → Constraints → Value → Bool
    check_each segmented branched none_left v = true
    check_each segmented branched (one_more c cs) v =
        check_one segmented branched c v && check_each segmented branched cs v

    pub check_one : Bool → Bool → Constraint → Value → Bool
    check_one segmented branched (con op (cons (str k) (cons (ref i (type_of t)) rest))) v =
        if op == "property"
        then property_ok k (check t) (is_true (nth 0 rest)) v
        else if op == "segment"
        then segment_ok k (check t) v
        else if op == "branch"
        then branched
        else flat_ok matches op (cons (str k) (cons (ref i (type_of t)) rest)) v
    check_one segmented branched (con op (cons (ref i (type_of t)) rest)) v =
        if op == "element"
        then segmented || elements_ok (check t) v
        else if op == "branch"
        then branched
        else flat_ok matches op (cons (ref i (type_of t)) rest) v
    check_one segmented branched (con op args) v =
        if op == "branch" then branched else flat_ok matches op args v
