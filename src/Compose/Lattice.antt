-- ===== src/Compose/Lattice.antt =====
-- src/compose.ts: `compose`, `composeOr`, `composeConstraints`, `branchAccepts`, `covers` and
-- `selectFirstBranch`. They call one another on smaller types; the depth of the calls is fuel, and
-- Compose/Fuel shows how much is enough. The reason that a `never` carries is left out.
use sequence.Prelude.{
  ℕ, zero, suc, String, Bool, true, false, not, ◌&&◌, ◌||◌, Option, none, some, List, [], ◌∷◌, ◌==◌,
  map, if◌then◌else◌, or_else, any, every, keep, find_first, eqb,
}
use sequence.Lang.{
  arg, Kind, string, number, boolean, null, object, array, fn, never, or, Value, bool, ref, type_of,
  nil, cons, Fields, end, field, Constraint, con, Ty, ty, from_list, op_of, constraints_of, kind_of,
  is_never, is_any, is_fn, same,
}
use sequence.Lang.Vocabulary.{constraints_with, constraint_with}
use sequence.Compose.Meet.{compose_constraints}
use sequence.Compose.Pairs.{fresh, meet_pair}
use sequence.Compose.Contradiction.{Deadline, contradicts_fn, detect_contradiction}

abbrev pub kind_number : Kind → ℕ
kind_number string = 0
kind_number number = 1
kind_number boolean = 2
kind_number null = 3
kind_number object = 4
kind_number array = 5
kind_number fn = 6
kind_number Kind.any = 7
kind_number never = 8
kind_number or = 9

abbrev pub same_kind : Kind → Kind → Bool
same_kind k l = eqb (kind_number k) (kind_number l)

abbrev pub contradicted : Ty
contradicted = ty never (from_list []) end

abbrev pub as_type : Value → Option Ty
as_type (ref i (type_of t)) = some t
as_type _ = none

abbrev pub has_kind : Kind → Ty → Bool
has_kind k t = same_kind (kind_of t) k

-- the types that the constraints of an op hold
abbrev pub types_in : List Constraint → List Ty
types_in [] = []
types_in (c ∷ cs) = elim (as_type (arg 0 c)) [ none ↦ types_in cs | some t ↦ t ∷ types_in cs ]

unfoldable pub branches : Ty → List Ty
unfolding constraints_with
branches t = types_in (constraints_with t "branch")

-- The two functions that call each other, one level down.
pub record Calls : Type 0 where
  pub compose : Ty → Ty → Ty
  pub covers : Ty → Ty → Bool

-- a field set as an object spread sets it
abbrev set_field : String → Value → Fields → Fields
set_field k v end = field k v end
set_field k v (field j w fs) = if j == k then field j v fs else field j w (set_field k v fs)

-- `{ ...b, ...a }`
abbrev pub spread_meta : Fields → Fields → Fields
spread_meta b end = b
spread_meta b (field k v fs) = spread_meta (set_field k v b) fs

abbrev pub meta_of : Ty → Fields
meta_of (ty k cs m) = m

abbrev pub branch_of : Ty → Constraint
branch_of t = con "branch" (cons (fresh (type_of t)) nil)

-- what a union whose branches are these comes to
abbrev pub union_of : List Ty → Ty
union_of [] = contradicted
union_of (t ∷ []) = t
union_of (t ∷ u ∷ ts) = ty or (from_list (branch_of t ∷ branch_of u ∷ map branch_of ts)) end

-- the first property of a name
abbrev pub named_property : Value → List Constraint → Option Constraint
named_property k cs = find_first (λ c. op_of c == "property" && same (arg 0 c) k) cs

module _ (misses : Deadline) (calls : Calls) where
  -- `composeConstraints`
  unfoldable pub compose_same : Ty → Ty → Ty
  unfolding compose_constraints meet_pair detect_contradiction
  compose_same a b =
      elim (compose_constraints (meet_pair calls.compose) (detect_contradiction misses (kind_of a))
        (constraints_of a) (constraints_of b)) [
          | none ↦ contradicted
          | some cs ↦ ty (kind_of a) (from_list cs) (spread_meta (meta_of b) (meta_of a))
        ]

  -- the application of a function type to what it may take; `none` where it does not apply
  unfoldable pub invoke : Ty → Ty → Option Ty
  unfolding constraint_with contradicts_fn
  invoke f x = elim (constraint_with f "param") [
    | none ↦ none
    | some p ↦ elim (as_type (arg 0 p)) [
      | none ↦ none
      | some input ↦
          if not (same_kind (kind_of x) (kind_of input)) || is_never (calls.compose input x)
          then none
          else if contradicts_fn misses (constraints_of f)
          then some contradicted
          else elim (constraint_with f "returns") [
            | none ↦ some (ty Kind.any (from_list []) end)
            | some r ↦ as_type (arg 0 r)
          ]
    ]
  ]

  unfoldable pub branch_accepts : Ty → Ty → Bool
  unfolding constraint_with
  branch_accepts branch candidate =
      if not (is_fn branch)
      then calls.covers branch candidate
      else if is_fn candidate
      then true
      else elim (constraint_with branch "param") [
        | none ↦ true
        | some p ↦ elim (as_type (arg 0 p)) [ none ↦ true | some t ↦ calls.covers t candidate ]
      ]

  -- `composeOr`
  unfoldable pub compose_or : Ty → Ty → Ty
  unfolding branches branch_accepts
  compose_or union other = union_of (
      keep (λ t. not (is_never t))
        (map (λ b. calls.compose b other) (keep (λ b. branch_accepts b other) (branches union))))

  unfoldable pub compose_with : Ty → Ty → Ty
  unfolding compose_same invoke compose_or
  compose_with a b =
      if is_any a
      then b
      else if is_any b
      then a
      else if is_never a
      then a
      else if is_never b
      then b
      else if has_kind or a
      then compose_or a b
      else if has_kind or b
      then compose_or b a
      else if is_fn a && not (is_fn b)
      then or_else (invoke a b) contradicted
      else if is_fn b && not (is_fn a)
      then calls.compose b a
      else if same_kind (kind_of a) (kind_of b)
      then compose_same a b
      else contradicted

  abbrev pub is_optional : Constraint → Bool
  is_optional c = elim (arg 2 c) [ bool b ↦ b | _ ↦ false ]

  -- a property that is wanted against the candidate's
  unfoldable pub property_covered : List Constraint → Constraint → Bool
  property_covered candidate wanted =
      if not (op_of wanted == "property") || is_optional wanted
      then true
      else elim (named_property (arg 0 wanted) candidate) [
        | none ↦ false
        | some found ↦ elim (as_type (arg 1 wanted)) [
          | none ↦ true
          | some t ↦ elim (as_type (arg 1 found)) [
            | none ↦ true
            | some u ↦ not (is_never (calls.compose t u))
          ]
        ]
      ]

  unfoldable pub covers_with : Ty → Ty → Bool
  unfolding branches property_covered
  covers_with required candidate =
      if is_any required
      then true
      else if is_never candidate
      then true
      else if is_never required
      then false
      else if is_any candidate
      then false
      else if has_kind or candidate
      then every (λ b. calls.covers required b) (branches candidate)
      else if has_kind or required
      then any (λ b. calls.covers b candidate) (branches required)
      else if not (same_kind (kind_of required) (kind_of candidate))
      then false
      else if has_kind object required
      then every (property_covered (constraints_of candidate)) (constraints_of required)
      else not (is_never (calls.compose required candidate))

-- The calls nest at most as deep as the fuel.
unfoldable pub calls_at : Deadline → ℕ → Calls
unfolding compose_with covers_with
calls_at misses zero = record { compose = λ a b. contradicted; covers = λ a b. false }
calls_at misses (suc n) = record {
  compose = compose_with misses (calls_at misses n);
  covers = covers_with misses (calls_at misses n);
}

-- `selectFirstBranch`: the branch, its composition and its place
unfoldable pub select_from : Deadline → Calls → ℕ → List Ty → Ty → Option (Ty × Ty × ℕ)
unfolding branch_accepts
select_from misses calls i [] candidate = none
select_from misses calls i (b ∷ bs) candidate =
    let rest = select_from misses calls (suc i) bs candidate in
    if branch_accepts misses calls b candidate && not (is_never (calls.compose b candidate))
    then some (b, calls.compose b candidate, i)
    else rest

unfoldable pub select_first_branch : Deadline → Calls → Ty → Ty → Option (Ty × Ty × ℕ)
unfolding select_from branches
select_first_branch misses calls union candidate =
    if has_kind or union
    then select_from misses calls 0 (branches union) candidate
    else select_from misses calls 0 (union ∷ []) candidate
