-- ===== src/Compose/Backward/Narrows.antt =====
-- src/compose.ts, `backwardInfer`: what is inferred for an input asks for no less than the parameter.
use sequence.Prelude.{
  ℕ, String, Bool, true, false, not, ◌||◌, ◌≡◌, refl, sym, subst, List, [], ◌∷◌, ◌++◌, Option, none,
  some, arith, All, All-append, All-keep, map, keep, any, if◌then◌else◌, ◌==◌, or_else, eqb, length,
}
use sequence.Lang.{
  Kind, or, object, Value, ref, type_of, bool, str, nil, cons, end, arg, same, Fields, Constraint,
  con, Constraints, Ty, ty, from_list, is_any, is_fn,
}
use sequence.Lang.Vocabulary.{Property, properties, constraints_with}
use sequence.Compose.Check.{check}
use sequence.Compose.Contradiction.{Deadline}
use sequence.Compose.Lattice.{as_type, branches, has_kind}
use sequence.Compose.Fuel.{compose}
use sequence.Compose.Lower.{
  Plain, PlainOne, PlainBranches, nothing, anything, union, base, no_more, branch, property,
  is_base,
}
use sequence.Compose.Lower.Base.{each_plain}
use sequence.Compose.Lower.Composed.{compose-Plain, compose-Lower}
use sequence.Compose.Backward.{
  held_type, carried, effects, mapped_inputs, clean_path, path_text, required_at, with_inputs,
  infer_wildcard, infer_mapped, infer_identity_from, infer_identity, infer_preserved, infer_whole,
  infer, infer_branches, backward_infer, is_wildcard, anything_at_all,
}
use sequence.Compose.Backward.Inputs.{
  PlainProperty, PlainValue, plain_value, Maybe, properties-PlainProperty, carried_all,
  mapped_inputs-PlainOne, required_at-PlainValue,
}

module _ (misses : Deadline) (matches : String → String → Bool) (v : Value) where
  -- a plain type that accepts the value only where another does
  abbrev Narrows : Ty → Ty → Type 0
  Narrows p r = Plain r × (check matches r v ≡ true → check matches p v ≡ true)

  compose-Narrows : (p a b : Ty) → Narrows p a → Plain b → Narrows p (compose misses a b)
  unfolding compose
  compose-Narrows p a b (h, k) q =
      (compose-Plain misses _ a b h q, λ e. k (compose-Lower misses matches _ a b h q v e).0)

  with_inputs-Narrows :
      (p : Ty) (cs : List Constraint)
      → Plain p
      → All PlainOne cs
      → Narrows p (with_inputs misses p cs)
  unfolding with_inputs
  with_inputs-Narrows p [] h k = (h, λ e. e)
  with_inputs-Narrows p (c ∷ cs) h k =
      compose-Narrows p p (ty object (from_list (c ∷ cs)) end) (h, λ e. e)
        (base refl (each_plain (c ∷ cs) k))

  or_else-Narrows :
      (p : Ty) (o : Option Ty) (r : Ty)
      → Maybe (Narrows p) o
      → Narrows p r
      → Narrows p (or_else o r)
  or_else-Narrows p none r h k = k
  or_else-Narrows p (some t) r h k = h

  chosen_Narrows :
      (p : Ty) (b : Bool) (r : Ty) (o : Option Ty)
      → Narrows p r
      → Maybe (Narrows p) o
      → Maybe (Narrows p) (if b then some r else o)
  chosen_Narrows p true r o h k = h
  chosen_Narrows p false r o h k = k

  infer_wildcard-Narrows :
      (p returns required : Ty)
      → Plain p
      → Plain required
      → Narrows p (infer_wildcard misses p returns required)
  unfolding infer_wildcard
  infer_wildcard-Narrows p returns required h q =
      by_test (has_kind object required) (properties-PlainProperty required q)
    where
      fresh_ones : List Property
      fresh_ones =
          keep (λ p'. not (any (λ e. same e p'.name) (effects p returns))) (properties required)

      by_test :
          (b : Bool)
          → (b ≡ true → All PlainProperty (properties required))
          → Narrows p
              (if not b then p else with_inputs misses p (map (λ p. carried p.name p) fresh_ones))
      by_test false k = (h, λ e. e)
      by_test true k = with_inputs-Narrows p (map (λ p. carried p.name p) fresh_ones) h (
          carried_all fresh_ones (
            All-keep PlainProperty (λ p'. not (any (λ e. same e p'.name) (effects p returns)))
              (properties required) (k refl)))

  infer_mapped-Narrows :
      (p : Ty) (preserved : List Constraint) (required : Ty)
      → Plain p
      → Plain required
      → Narrows p (infer_mapped misses p preserved required)
  unfolding infer_mapped
  infer_mapped-Narrows p preserved required h q =
      by_test (has_kind object required) (properties-PlainProperty required q)
    where
      by_test :
          (b : Bool)
          → (b ≡ true → All PlainProperty (properties required))
          → Narrows p (
              if not b
              then p
              else with_inputs misses p (mapped_inputs preserved (properties required)))
      by_test false k = (h, λ e. e)
      by_test true k =
          with_inputs-Narrows p (mapped_inputs preserved (properties required)) h
            (mapped_inputs-PlainOne preserved (properties required) (k refl))

  infer_identity_from-Narrows :
      (p required : Ty) (cs inputs : List Constraint)
      → Plain p
      → Plain required
      → All PlainOne inputs
      → Narrows p (infer_identity_from misses p required cs inputs)
  unfolding infer_identity_from
  infer_identity_from-Narrows p required [] inputs h q k = with_inputs-Narrows p inputs h k
  infer_identity_from-Narrows p required (c ∷ cs) inputs h q k =
      by_required (required_at required (arg 0 c)) (required_at-PlainValue required (arg 0 c) q)
        (λ inputs k. infer_identity_from-Narrows p required cs inputs h q k)
    where
      asked : Value → String → Constraint
      asked v s = con "property" (cons (str (clean_path s)) (cons v (cons (bool false) nil)))

      by_path :
          (i : ℕ) (t : Ty) (o : Option String)
          → Plain t
          → ((inputs : List Constraint)
              → All PlainOne inputs
              → Narrows p (infer_identity_from misses p required cs inputs))
          → Narrows p (elim o [
            | none ↦ infer_identity_from misses p required cs inputs
            | some s ↦
                if s == "."
                then compose misses p t
                else infer_identity_from misses p required cs
                    (inputs ++ asked (ref i (type_of t)) s ∷ [])
          ])
      by_path i t none m ih = ih inputs k
      by_path i t (some s) m ih = by_test (s == ".")
        where
          by_test :
              (b : Bool)
              → Narrows p (
                  if b
                  then compose misses p t
                  else infer_identity_from misses p required cs
                      (inputs ++ asked (ref i (type_of t)) s ∷ []))
          by_test true = compose-Narrows p p t (h, λ e. e) m
          by_test false =
              ih (inputs ++ asked (ref i (type_of t)) s ∷ [])
                (All-append PlainOne inputs (asked (ref i (type_of t)) s ∷ []) k (property m, tt))

      by_required :
          (o : Option Value)
          → Maybe PlainValue o
          → ((inputs : List Constraint)
              → All PlainOne inputs
              → Narrows p (infer_identity_from misses p required cs inputs))
          → Narrows p (elim o [
            | none ↦ infer_identity_from misses p required cs inputs
            | some v ↦ elim (as_type v) [
              | none ↦ infer_identity_from misses p required cs inputs
              | some t ↦ elim (path_text (arg 1 c)) [
                | none ↦ infer_identity_from misses p required cs inputs
                | some s ↦
                    if s == "."
                    then compose misses p t
                    else infer_identity_from misses p required cs (inputs ++ asked v s ∷ [])
              ]
            ]
          ])
      by_required none m ih = ih inputs k
      by_required (some _) (plain_value {i} {t} m) ih = by_path i t (path_text (arg 1 c)) m ih

  infer_whole-Narrows :
      (f required : Ty)
      → Plain (held_type f "param")
      → Plain required
      → Narrows (held_type f "param") (infer_whole misses f required)
  unfolding infer_whole infer_preserved infer_identity
  infer_whole-Narrows f required h q =
      by_lists (constraints_with f "preserves") (constraints_with f "identity")
        (infer_preserved misses p (held_type f "returns") (constraints_with f "preserves") required)
        (infer_identity misses p (constraints_with f "identity") required)
        (kept (constraints_with f "preserves"))
        (infer_identity_from-Narrows p required (constraints_with f "identity") [] h q tt)
    where
      p : Ty
      p = held_type f "param"

      kept :
          (preserved : List Constraint)
          → Narrows p (
              if any (is_wildcard misses) preserved
              then infer_wildcard misses p (held_type f "returns") required
              else infer_mapped misses p preserved required)
      kept preserved = by_test (any (is_wildcard misses) preserved)
        where
          by_test :
              (b : Bool)
              → Narrows p (
                  if b
                  then infer_wildcard misses p (held_type f "returns") required
                  else infer_mapped misses p preserved required)
          by_test true = infer_wildcard-Narrows p (held_type f "returns") required h q
          by_test false = infer_mapped-Narrows p preserved required h q

      by_lists :
          (preserved identities : List Constraint) (kept equal : Ty)
          → Narrows p kept
          → Narrows p equal
          → Narrows p (elim identities [
            | i ∷ is ↦ elim preserved [ x ∷ xs ↦ compose misses equal kept | [] ↦ equal ]
            | [] ↦ elim preserved [ x ∷ xs ↦ kept | [] ↦ p ]
          ])
      by_lists [] [] kept equal k e = (h, λ e. e)
      by_lists (x ∷ xs) [] kept equal k e = k
      by_lists [] (i ∷ is) kept equal k e = e
      by_lists (x ∷ xs) (i ∷ is) kept equal k e = compose-Narrows p equal kept e k.0

  infer_base :
      (f : Ty) (k : Kind) (cs : Constraints) (m : Fields)
      → is_base k ≡ true
      → infer misses f (ty k cs m) ≡ infer_whole misses f (ty k cs m)
  unfolding infer
  infer_base f or cs m h = absurd (ground arith)
  infer_base f k cs m h = refl

  mutual
    unfolding infer infer_branches

    infer-Narrows :
        (f required : Ty)
        → Plain (held_type f "param")
        → Plain required
        → Narrows (held_type f "param") (infer misses f required)
    infer-Narrows f _ h nothing = infer_whole-Narrows f _ h nothing
    infer-Narrows f _ h anything = infer_whole-Narrows f _ h anything
    infer-Narrows f _ h (union {cs} {m} p) =
        or_else-Narrows (held_type f "param")
          (infer_branches misses f (eqb (length (branches (ty or cs m))) 1) cs)
          (infer_whole misses f (ty or cs m))
          (infer_branches-Narrows f (eqb (length (branches (ty or cs m))) 1) cs h p)
          (infer_whole-Narrows f (ty or cs m) h (union p))
    infer-Narrows f _ h (base {k} {cs} {m} e p) =
        subst (Narrows (held_type f "param")) (sym (infer_base f k cs m e))
          (infer_whole-Narrows f (ty k cs m) h (base e p))

    infer_branches-Narrows :
        (f : Ty) (lone : Bool) (cs : Constraints)
        → Plain (held_type f "param")
        → PlainBranches cs
        → Maybe (Narrows (held_type f "param")) (infer_branches misses f lone cs)
    infer_branches-Narrows f lone _ h no_more = tt
    infer_branches-Narrows f lone _ h (branch {t} {cs} p ps) =
        chosen_Narrows (held_type f "param") (not (is_any (infer misses f t)) || lone)
          (infer misses f t) (infer_branches misses f lone cs) (infer-Narrows f t h p)
          (infer_branches-Narrows f lone cs h ps)

-- Every value that the type inferred for the input of a function accepts, whatever type is required of the
-- output, is a value that the function's parameter accepts, where the type of the parameter and the
-- required type are plain: with no function and no segment in them, with properties, elements, branches and
-- lengths whose arguments are those that their constructors give them, and with unions that have only branches.
pub backward_infer-Narrows :
    (misses : Deadline) (matches : String → String → Bool) (f required : Ty)
    → is_fn f ≡ true
    → Plain (held_type f "param")
    → Plain required
    → (v : Value) → check matches (backward_infer misses f required) v ≡ true
    → check matches (held_type f "param") v ≡ true
unfolding backward_infer
backward_infer-Narrows misses matches f required h p q v = by_test (is_fn f) h
  where
    by_test :
        (b : Bool)
        → b ≡ true
        → check matches (if not b then anything_at_all else infer misses f required) v ≡ true
        → check matches (held_type f "param") v ≡ true
    by_test true e = (infer-Narrows misses matches v f required p q).1
    by_test false e = absurd (ground arith)
