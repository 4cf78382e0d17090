-- ===== src/Compose/Backward.antt =====
-- src/compose.ts, `backwardInfer`: what a function must take for its output to satisfy a type. A path is a
-- text; one that is none, on which the source throws or which it reads as a missing key, is passed over. The
-- required type stands at an input as an object whose identity no other value has.
pub mod Inputs
pub mod Narrows
use mathlib.Core.Option
use sequence.Prelude.{
  ℕ, zero, suc, String, Bool, true, false, not, ◌&&◌, ◌||◌, Option, none, some, List, [], ◌∷◌, ◌++◌,
  ◌==◌, map, eqb, if◌then◌else◌, any, keep, find_first, is_some, length, starts_with, or_else,
}
use Prim.Native.String
use sequence.Lang.{
  Kind, or, object, Value, ref, type_of, bool, str, nil, cons, end, arg, same, Constraint, con,
  Constraints, none_left, one_more, Ty, ty, from_list, is_any, is_fn, op_of,
}
use sequence.Lang.Vocabulary.{Property, properties, constraint_with, constraints_with}
use sequence.Compose.Pairs.{fresh, coalesce}
use sequence.Compose.Contradiction.{Deadline}
use sequence.Compose.Lattice.{as_type, branches, has_kind}
use sequence.Compose.Fuel.{compose}

abbrev pub anything_at_all : Ty
anything_at_all = ty Kind.any none_left end

-- the type that a function's constraint holds
unfoldable pub held_type : Ty → String → Ty
unfolding constraint_with
held_type f op = elim (constraint_with f op) [
  | none ↦ anything_at_all
  | some c ↦ or_else (as_type (arg 0 c)) anything_at_all
]

-- `property(key, p.type, p.optional)`
abbrev pub carried : Value → Property → Constraint
carried key p =
    con "property" (cons key (cons p.type (cons (coalesce p.optional (bool false)) nil)))

abbrev pub object_properties : Ty → List Property
unfolding properties
object_properties t = if has_kind object t then properties t else []

-- what a function adds to its parameter
unfoldable pub effects : Ty → Ty → List Value
unfolding properties
effects param returns =
    map (λ p. p.name)
      (keep (λ r. not (any (λ p. same p.name r.name) (object_properties param)))
        (object_properties returns))

-- the text of a path
abbrev pub path_text : Value → Option String
path_text (str s) = some s
path_text v = none

-- `reverseMap.get`, where the last entry of a key counts
unfoldable pub mapped_from : List Constraint → Value → Option Value
mapped_from [] key = none
mapped_from (c ∷ cs) key = elim (mapped_from cs key) [
  | some v ↦ some v
  | none ↦ if same (arg 1 c) key then some (arg 0 c) else none
]

-- an input path that is not empty
abbrev pub input_path : Option Value → Option String
input_path (some (str s)) = if s == "" then none else some s
input_path _ = none

unfoldable pub mapped_inputs : List Constraint → List Property → List Constraint
unfolding mapped_from
mapped_inputs preserved [] = []
mapped_inputs preserved (p ∷ ps) =
    let rest = mapped_inputs preserved ps in
    elim (input_path (mapped_from preserved p.name)) [
      | none ↦ rest
      | some s ↦ carried (str s) p ∷ rest
    ]

-- `s.slice(n)`
unfoldable pub slice_from : ℕ → String → String
slice_from zero s = s
slice_from (suc n) String.[] = String.[]
slice_from (suc n) (String.◌∷◌ c s) = slice_from n s

unfoldable pub clean_path : String → String
unfolding starts_with slice_from
clean_path s = if starts_with s "input." then slice_from 6 s else s

-- what a required output says of a path in it
unfoldable pub required_at : Ty → Value → Option Value
unfolding properties
required_at required path =
    if same path (str ".")
    then some (fresh (type_of required))
    else if has_kind object required
    then Option.map (λ p. p.type) (find_first (λ p. same p.name path) (properties required))
    else none

module _ (misses : Deadline) where
  -- a parameter with more requirements
  unfoldable pub with_inputs : Ty → List Constraint → Ty
  unfolding compose
  with_inputs param [] = param
  with_inputs param (c ∷ cs) = compose misses param (ty object (from_list (c ∷ cs)) end)

  -- `backwardInferWildcard`
  unfoldable pub infer_wildcard : Ty → Ty → Ty → Ty
  unfolding with_inputs effects properties
  infer_wildcard param returns required =
      if not (has_kind object required)
      then param
      else with_inputs param (
          map (λ p. carried p.name p)
            (keep (λ p. not (any (λ e. same e p.name) (effects param returns)))
              (properties required)))

  -- `backwardInferMapped`
  unfoldable pub infer_mapped : Ty → List Constraint → Ty → Ty
  unfolding with_inputs mapped_inputs properties
  infer_mapped param preserved required =
      if not (has_kind object required)
      then param
      else with_inputs param (mapped_inputs preserved (properties required))

  -- the loop of `backwardInferIdentity`, with the requirements so far
  unfoldable pub infer_identity_from : Ty → Ty → List Constraint → List Constraint → Ty
  unfolding with_inputs required_at clean_path compose
  infer_identity_from param required [] inputs = with_inputs param inputs
  infer_identity_from param required (c ∷ cs) inputs = elim (required_at required (arg 0 c)) [
    | none ↦ infer_identity_from param required cs inputs
    | some v ↦ elim (as_type v) [
      | none ↦ infer_identity_from param required cs inputs
      | some t ↦ elim (path_text (arg 1 c)) [
        | none ↦ infer_identity_from param required cs inputs
        | some s ↦
            if s == "."
            then compose misses param t
            else infer_identity_from param required cs (
                inputs
                ++ con "property" (cons (str (clean_path s)) (cons v (cons (bool false) nil))) ∷ [])
      ]
    ]
  ]

  unfoldable pub infer_identity : Ty → List Constraint → Ty → Ty
  unfolding infer_identity_from
  infer_identity param identities required = infer_identity_from param required identities []

  abbrev pub is_wildcard : Constraint → Bool
  is_wildcard c = same (arg 0 c) (str "*")

  unfoldable pub infer_preserved : Ty → Ty → List Constraint → Ty → Ty
  unfolding infer_wildcard infer_mapped
  infer_preserved param returns preserved required =
      if any is_wildcard preserved
      then infer_wildcard param returns required
      else infer_mapped param preserved required

  -- the inference from one required type as a whole
  unfoldable pub infer_whole : Ty → Ty → Ty
  unfolding held_type infer_identity infer_preserved compose constraints_with
  infer_whole f required =
      let param = held_type f "param" in
      let preserved = constraints_with f "preserves" in
      let identities = constraints_with f "identity" in
      let kept = infer_preserved param (held_type f "returns") preserved required in
      let equal = infer_identity param identities required in
      elim identities [
        | i ∷ is ↦ elim preserved [ p ∷ ps ↦ compose misses equal kept | [] ↦ equal ]
        | [] ↦ elim preserved [ p ∷ ps ↦ kept | [] ↦ param ]
      ]

  unfoldable mutual
    unfolding infer_whole branches

    -- the inference from a required type, or from its branches in order
    pub infer : Ty → Ty → Ty
    infer f (ty or cs m) =
        or_else (infer_branches f (eqb (length (branches (ty or cs m))) 1) cs)
          (infer_whole f (ty or cs m))
    infer f (ty k cs m) = infer_whole f (ty k cs m)

    pub infer_branches : Ty → Bool → Constraints → Option Ty
    infer_branches f lone none_left = none
    infer_branches f lone (one_more (con op (cons (ref i (type_of t)) rest)) cs) =
        let result = infer f t in
        let later = infer_branches f lone cs in
        if op == "branch" && (not (is_any result) || lone) then some result else later
    infer_branches f lone (one_more (con op args) cs) = infer_branches f lone cs

  -- `backwardInfer`
  unfoldable pub backward_infer : Ty → Ty → Ty
  unfolding infer
  backward_infer f required = if not (is_fn f) then anything_at_all else infer f required
