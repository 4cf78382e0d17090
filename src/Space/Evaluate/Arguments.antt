-- ===== src/Space/Evaluate/Arguments.antt =====
-- src-v2/evaluate.ts: reads of gathered evidence, expressions, and the value of an argument.
use sequence.Prelude.{
  String, Bool, true, false, ◌&&◌, ◌||◌, ◌==◌, Option, none, some, List, [], ◌∷◌, ◌⊹◌,
  if◌then◌else◌, any, lookup, or_else, assign, split, join, starts_with, map,
}
use sequence.Prelude.Fallible.{◌>>=◌}
use sequence.Lang.{
  Value, undefined, num, str, ref, arr, obj, func, constraint_of, Values, nil, cons, Fields, end,
  field, Constraint, con, is_undefined,
}
use sequence.Lang.Int.{ℤ}
use sequence.Compose.Backward.{slice_from}
use sequence.Compose.Expr.{
  Expr, lit, path, add, mul, call, pm, Exprs, no_terms, one_term, evaluate_expr, refs_of,
}
use sequence.Space.Evaluate.{Platform, value_at_path, includes, whole_binding, rejects_glob}

abbrev pub is_at_term : Value → Bool
is_at_term (ref i (obj (field k v end))) = k == "at"
is_at_term v = false

-- `texts.join(',')`
unfoldable pub with_commas : List String → String
with_commas [] = ""
with_commas (s ∷ []) = s
with_commas (s ∷ t ∷ ss) = s ⊹ "," ⊹ with_commas (t ∷ ss)

unfoldable mutual
  -- the expression that an object stands for
  pub expr_of : Value → Option Expr
  expr_of (num n) = some (lit n)
  expr_of (str s) = some (path s)
  expr_of (ref i (obj (field k (ref j (arr vs)) end))) =
      let terms = exprs_of vs in
      if k == "add"
      then (terms >>= λ es. some (add es))
      else if k == "mul"
      then (terms >>= λ es. some (mul es))
      else none
  expr_of (ref i (obj (field k v (field l w end)))) =
      let first = expr_of v in
      let second = expr_of w in
      if k == "pm" && l == "margin"
      then (first >>= λ c. second >>= λ m. some (pm c m))
      else if k == "margin" && l == "pm"
      then (second >>= λ c. first >>= λ m. some (pm c m))
      else if k == "fn" && l == "arg"
      then (name_of v >>= λ n. second >>= λ e. some (call n e))
      else if k == "arg" && l == "fn"
      then (name_of w >>= λ n. first >>= λ e. some (call n e))
      else none
    where
      name_of : Value → Option String
      name_of (str n) = some n
      name_of v = none
  expr_of v = none

  pub exprs_of : Values → Option Exprs
  exprs_of nil = some no_terms
  exprs_of (cons v vs) = do e ← expr_of v; es ← exprs_of vs; some (one_term e es)

unfoldable mutual
  -- where the walk of `resolveExprArg` throws
  pub has_call : Expr → Bool
  has_call (lit n) = false
  has_call (path p) = false
  has_call (add es) = some_call es
  has_call (mul es) = some_call es
  has_call (call n e) = true
  has_call (pm c m) = has_call c || has_call m

  pub some_call : Exprs → Bool
  some_call no_terms = false
  some_call (one_term e es) = has_call e || some_call es

-- where a reference is a number
abbrev pub number_in : Value → Option ℤ
number_in (num n) = some n
number_in v = none

module _ (js : Platform) where
  -- one text put where it belongs by its key
  unfoldable pub put_key : String × String → List (String × String) → List (String × String)
  put_key e [] = e ∷ []
  put_key e (f ∷ es) =
      let later = put_key e es in if js.text_before f.0 e.0 then f ∷ later else e ∷ f ∷ es

  unfoldable mutual
    unfolding put_key with_commas

    pub stable_stringify : Value → String
    stable_stringify (ref i (arr vs)) = "[" ⊹ with_commas (texts_of vs) ⊹ "]"
    stable_stringify (ref i (obj fs)) =
        "{" ⊹ with_commas (map (λ e. js.json (str e.0) ⊹ ":" ⊹ e.1) (sorted_texts fs)) ⊹ "}"
    stable_stringify v = js.json v

    pub texts_of : Values → List String
    texts_of nil = []
    texts_of (cons v vs) = stable_stringify v ∷ texts_of vs

    -- the keys with the texts of their values, sorted by key
    pub sorted_texts : Fields → List (String × String)
    sorted_texts end = []
    sorted_texts (field k v fs) = put_key (k, stable_stringify v) (sorted_texts fs)

  -- `atTermKey`, by what stands at `at`
  unfoldable pub at_term_key : Value → String
  unfolding stable_stringify
  at_term_key (ref i (obj (field k v end))) = "@" ⊹ stable_stringify v
  at_term_key v = ""

  unfoldable mutual
    unfolding at_term_key

    -- the walk of `collectAtTerms`, over what it has seen
    pub walk_terms : Constraint → List (String × Value) → List (String × Value)
    walk_terms (con op args) seen = walk_args args seen

    pub walk_args : Values → List (String × Value) → List (String × Value)
    walk_args nil seen = seen
    walk_args (cons (ref i (constraint_of c)) vs) seen = walk_args vs (walk_terms c seen)
    walk_args (cons v vs) seen =
        if is_at_term v then walk_args vs (assign (at_term_key v) v seen) else walk_args vs seen

  -- `collectAtTerms`
  unfoldable pub collect_at_terms : Constraint → List Value
  unfolding walk_terms
  collect_at_terms c = map (λ e. e.1) (walk_terms c [])

  module _ (state : Value) (bindings : List (String × Value)) where
    -- one segment of a path, with its binding in place of a name
    abbrev pub bound_segment : String → String
    unfolding starts_with slice_from
    bound_segment s =
        if starts_with s "$"
        then elim (lookup (slice_from 1 s) bindings) [
          | none ↦ s
          | some (str t) ↦ t
          | some v ↦ js.show v
        ]
        else s

    -- `substituteSegments`
    unfoldable pub substitute_segments : String → String
    unfolding includes bound_segment split join
    substitute_segments arg = if includes arg "$" then join (map bound_segment (split arg)) else arg

    -- the number that a reference of an expression stands for
    abbrev pub number_at : String → Option ℤ
    unfolding whole_binding value_at_path substitute_segments
    number_at r = elim (whole_binding r bindings) [
      | some v ↦ number_in v
      | none ↦ number_in (value_at_path state (substitute_segments r))
    ]

    abbrev pub rejects_ref : String → Bool
    unfolding whole_binding rejects_glob substitute_segments
    rejects_ref r = elim (whole_binding r bindings) [
      | some v ↦ false
      | none ↦ rejects_glob (substitute_segments r)
    ]

    -- `resolveExprArg`
    unfoldable pub resolve_expr_arg : Expr → Option Value
    unfolding has_call refs_of rejects_ref number_at evaluate_expr
    resolve_expr_arg e =
        if has_call e || any rejects_ref (refs_of e)
        then none
        else some (elim (evaluate_expr number_at (λ f. none) e) [
          | none ↦ undefined
          | some r ↦ num r.value
        ])

    -- `resolveArg`; whether the side is that of values
    unfoldable pub resolve_arg : Bool → Value → Option Value
    unfolding whole_binding substitute_segments rejects_glob value_at_path at_term_key expr_of
        resolve_expr_arg
    resolve_arg is_value (str s) = elim (whole_binding s bindings) [
      | some v ↦ some v
      | none ↦
          let p = substitute_segments s in
          let v = value_at_path state p in
          if rejects_glob p
          then none
          else if is_value && is_undefined v
          then some (str p)
          else some v
    ]
    resolve_arg is_value (ref i func) = some (ref i func)
    resolve_arg is_value (ref i s) =
        if is_at_term (ref i s)
        then some (or_else (lookup (at_term_key (ref i s)) bindings) undefined)
        else elim (expr_of (ref i s)) [ none ↦ none | some e ↦ resolve_expr_arg e ]
    resolve_arg is_value v = some v
