-- ===== src/Space/Evaluate.antt =====
-- src-v2/evaluate.ts: the addresses of a state and the arguments of a constraint. A throw is `none`. A state and
-- the bindings are plain data, and an expression object has the keys of its form alone. What the platform
-- does with a text is a parameter: the test of a regular expression, `String` of a value that is no text,
-- `JSON.stringify` of a value that is no object, and the order of the keys.
pub mod Arguments
pub mod Judge
pub mod Ordering
pub mod Clauses
pub mod Counts
pub mod Gather
pub mod Tests
use Prim.Native.Char.{code}
use Prim.Native.String
use sequence.Prelude.{
  ℕ, String, Bool, true, false, not, ◌&&◌, ◌||◌, ◌==◌, Option, none, some, List, [], ◌∷◌, ◌⊹◌,
  if◌then◌else◌, ◌+◌, any, lookup, or_else, assign, split, join, starts_with, eqb, map,
}
use sequence.Prelude.Fallible.{◌>>=◌}
use sequence.Lang.{
  Kind, string, number, boolean, null, object, array, Value, undefined, nil_value, bool, num, str,
  ref, arr, obj, func, type_of, constraint_of, Values, nil, cons, Fields, end, field, Constraint,
  con, ty, is_undefined,
}
use sequence.Lang.Int.{ℤ}
use sequence.Compose.Check.{kind_ok, own_property}
use sequence.Compose.Backward.{slice_from}
use sequence.Compose.Expr.{
  Expr, lit, path, add, mul, call, pm, Exprs, no_terms, one_term, evaluate_expr, refs_of, Bindings,
}

-- what the platform does with texts
pub record Platform : Type 0 where
  pub matches : String → String → Bool
  pub show : Value → String
  pub json : Value → String
  pub text_before : String → String → Bool

-- `isPlainObject`
abbrev pub is_plain_object : Value → Bool
unfolding kind_ok
is_plain_object v = kind_ok object v

unfoldable mutual
  pub has_leaf : Value → Bool
  has_leaf undefined = false
  has_leaf (ref i (obj fs)) = some_leaf fs
  has_leaf v = true

  pub some_leaf : Fields → Bool
  some_leaf end = false
  some_leaf (field k v fs) = has_leaf v || some_leaf fs

-- the walk along the segments, `none` where it meets what is no object
unfoldable pub walk_segments : List String → Value → Option Value
unfolding is_plain_object own_property
walk_segments [] v = some v
walk_segments (s ∷ ss) v =
    if is_plain_object v then walk_segments ss (or_else (own_property s v) undefined) else none

-- `valueAtPath`
unfoldable pub value_at_path : Value → String → Value
unfolding walk_segments split has_leaf is_plain_object
value_at_path state p = elim (walk_segments (split p) state) [
  | none ↦ undefined
  | some v ↦ if is_plain_object v && not (has_leaf v) then undefined else v
]

unfoldable pub leaves_in : Fields → ℕ
unfolding has_leaf
leaves_in end = 0
leaves_in (field k v fs) = if has_leaf v then 1 + leaves_in fs else leaves_in fs

abbrev pub keys_of : Value → ℕ
unfolding leaves_in some_leaf
keys_of (ref i (obj fs)) = leaves_in fs
keys_of (ref i (constraint_of c)) = 2
keys_of (ref i (type_of (ty k cs meta))) = if some_leaf meta then 3 else 2
keys_of v = 0

-- `countKeysAtPath`
unfoldable pub count_keys_at_path : Value → String → ℕ
unfolding walk_segments split keys_of
count_keys_at_path state p = elim (walk_segments (split p) state) [ none ↦ 0 | some v ↦ keys_of v ]

-- `s.includes(t)`
unfoldable pub includes : String → String → Bool
unfolding starts_with
includes String.[] t = starts_with String.[] t
includes (String.◌∷◌ c s) t = starts_with (String.◌∷◌ c s) t || includes s t

-- `wholeBinding`, by the value where it hits
unfoldable pub whole_binding : String → List (String × Value) → Option Value
unfolding starts_with includes slice_from
whole_binding arg bindings =
    if starts_with arg "$" && not (includes arg ".")
    then lookup (slice_from 1 arg) bindings
    else none

unfoldable pub rejects_glob : String → Bool
unfolding includes
rejects_glob p = includes p ".*" || p == "*"
