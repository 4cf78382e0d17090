-- ===== src/Compose/Fuel/Step.antt =====
-- src/compose.ts, `compose` and `covers`: what they come to depends on their nested calls of smaller types.
use sequence.Prelude.{
  ℕ, suc, ◌+◌, ◌≤◌, Bool, true, false, not, ◌&&◌, ◌||◌, ◌≡◌, refl, ◌∙◌, ap, List, [], Option, none,
  some, arith, All, All-keep, keep, map, any, every, find_first, if◌then◌else◌, ◌==◌, or_else,
}
use sequence.Lang.{
  Kind, arg, or, object, Constraint, Ty, ty, op_of, end, from_list, constraints_of, kind_of,
  is_never, is_any, is_fn, same,
}
use sequence.Lang.Vocabulary.{constraint_with}
use sequence.Compose.Pairs.{meet_pair}
use sequence.Compose.Contradiction.{Deadline, contradicts_fn, detect_contradiction}
use sequence.Compose.Lattice.{
  Calls, compose_same, invoke, branch_accepts, compose_or, compose_with, property_covered,
  covers_with, branches, as_type, union_of, same_kind, has_kind, contradicted, spread_meta, meta_of,
  is_optional, named_property,
}
use sequence.Compose.Fuel.{
  type_size, Small, SmallType, Held, as_type-Held, Found, find_first-Found, constraints_of-Small,
  branches-Small,
}
use sequence.Compose.Fuel.Loop.{
  map_ext, keep_ext, any_ext, every_ext, All_weaken, compose_constraints_ext,
}
use sequence.Compose.Fuel.Table.{meet_pair_ext}

-- Two ways to make the nested calls agree on types whose sizes add up to less than a bound.
abbrev pub Close : Calls → Calls → ℕ → Type 0
Close c d s =
    (t u : Ty)
    → suc (type_size t + type_size u) ≤ s
    → (c.compose t u ≡ d.compose t u) × (c.covers t u ≡ d.covers t u)

module _ (misses : Deadline) (c d : Calls) (a b : Ty)
    (close : Close c d (type_size a + type_size b)) where
  compose_same_ext : compose_same misses c a b ≡ compose_same misses d a b
  unfolding compose_same
  compose_same_ext =
      ap
        (λ o. elim o [
          | none ↦ contradicted
          | some cs ↦ ty (kind_of a) (from_list cs) (spread_meta (meta_of b) (meta_of a))
        ])
        (compose_constraints_ext (meet_pair c.compose) (meet_pair d.compose) (Small (type_size a))
          (Small (type_size b))
          (λ x y h k.
            meet_pair_ext c.compose d.compose (type_size a) (type_size b)
              (λ t u p q. (close t u (omega arith)).0) x y h k)
          (detect_contradiction misses (kind_of a)) (constraints_of a) (constraints_of b)
          (constraints_of-Small a) (constraints_of-Small b))

  invoke_ext : invoke misses c a b ≡ invoke misses d a b
  unfolding invoke constraint_with
  invoke_ext = by_param (find_first (λ c. op_of c == "param") (constraints_of a)) (
      find_first-Found (type_size a) (λ c. op_of c == "param") (constraints_of a)
        (constraints_of-Small a))
    where
      result : Option Ty
      result =
          if contradicts_fn misses (constraints_of a)
          then some contradicted
          else elim (constraint_with a "returns") [
            | none ↦ some (ty Kind.any (from_list []) end)
            | some r ↦ as_type (arg 0 r)
          ]

      applied : Calls → Option Ty → Option Ty
      applied c o = elim o [
        | none ↦ none
        | some input ↦
            if not (same_kind (kind_of b) (kind_of input)) || is_never (c.compose input b)
            then none
            else result
      ]

      by_input : (o : Option Ty) → Held (type_size a) o → applied c o ≡ applied d o
      by_input none h = refl
      by_input (some input) h =
          ap
            (λ z.
              if not (same_kind (kind_of b) (kind_of input)) || is_never z then none else result)
            (close input b (omega arith)).0

      by_param :
          (o : Option Constraint)
          → Found (type_size a) o
          → (elim o [ none ↦ none | some p ↦ applied c (as_type (arg 0 p)) ])
            ≡ (elim o [ none ↦ none | some p ↦ applied d (as_type (arg 0 p)) ])
      by_param none h = refl
      by_param (some p) h = by_input (as_type (arg 0 p)) (as_type-Held (type_size a) 0 p h)

module _ (misses : Deadline) (c d : Calls) (s : ℕ) (close : Close c d s) where
  branch_accepts_ext :
      (t u : Ty)
      → suc (type_size t + type_size u) ≤ s
      → branch_accepts misses c t u ≡ branch_accepts misses d t u
  unfolding branch_accepts constraint_with
  branch_accepts_ext t u h =
      ap
        (λ z.
          if not (is_fn t)
          then z
          else if is_fn u
          then true
          else elim (find_first (λ c. op_of c == "param") (constraints_of t)) [
            | none ↦ true
            | some p ↦ covered c (as_type (arg 0 p))
          ])
        (close t u h).1
      ∙ ap (λ z. if not (is_fn t) then d.covers t u else if is_fn u then true else z)
          (by_param (find_first (λ c. op_of c == "param") (constraints_of t)) (
            find_first-Found (type_size t) (λ c. op_of c == "param") (constraints_of t)
              (constraints_of-Small t)))
    where
      covered : Calls → Option Ty → Bool
      covered c o = elim o [ none ↦ true | some t ↦ c.covers t u ]

      by_input : (o : Option Ty) → Held (type_size t) o → covered c o ≡ covered d o
      by_input none k = refl
      by_input (some input) k = (close input u (omega arith)).1

      by_param :
          (o : Option Constraint)
          → Found (type_size t) o
          → (elim o [ none ↦ true | some p ↦ covered c (as_type (arg 0 p)) ])
            ≡ (elim o [ none ↦ true | some p ↦ covered d (as_type (arg 0 p)) ])
      by_param none k = refl
      by_param (some p) k = by_input (as_type (arg 0 p)) (as_type-Held (type_size t) 0 p k)

  compose_or_ext :
      (t u : Ty) → type_size t + type_size u ≤ s → compose_or misses c t u ≡ compose_or misses d t u
  unfolding compose_or
  compose_or_ext t u h =
      ap (λ bs. union_of (keep (λ t. not (is_never t)) bs))
        (ap (map (λ b. c.compose b u)) (
            keep_ext (λ b. branch_accepts misses c b u) (λ b. branch_accepts misses d b u)
              (branches t)
              (All_weaken (branches t) (λ b k. branch_accepts_ext b u (omega arith))
                (branches-Small t)))
          ∙ map_ext (λ b. c.compose b u) (λ b. d.compose b u)
              (keep (λ b. branch_accepts misses d b u) (branches t))
              (All_weaken (keep (λ b. branch_accepts misses d b u) (branches t))
                (λ b k. (close b u (omega arith)).0)
                (All-keep (SmallType (type_size t)) (λ b. branch_accepts misses d b u) (branches t)
                  (branches-Small t))))

-- one more where the second type alone is a function, since `compose` then swaps the two
abbrev pub swaps : Ty → Ty → Bool
swaps a b = is_fn b && not (is_fn a)

module _ (misses : Deadline) (c d : Calls) (a b : Ty)
    (close : Close c d (type_size a + type_size b)) where
  pub compose_with_ext :
      (swaps a b ≡ true → c.compose b a ≡ d.compose b a)
      → compose_with misses c a b ≡ compose_with misses d a b
  unfolding compose_with
  compose_with_ext h =
      ap
        (λ z.
          ladder z (compose_or misses c b a) (invoke misses c a b)
            (after (c.compose b a) (compose_same misses c a b) (swaps a b)))
        (compose_or_ext misses c d (type_size a + type_size b) close a b (omega arith))
      ∙ ap
          (λ z.
            ladder (compose_or misses d a b) z (invoke misses c a b)
              (after (c.compose b a) (compose_same misses c a b) (swaps a b)))
          (compose_or_ext misses c d (type_size a + type_size b) close b a (omega arith))
      ∙ ap
          (λ z.
            ladder (compose_or misses d a b) (compose_or misses d b a) z
              (after (c.compose b a) (compose_same misses c a b) (swaps a b)))
          (invoke_ext misses c d a b close)
      ∙ ap (ladder (compose_or misses d a b) (compose_or misses d b a) (invoke misses d a b)) (
          ap (λ z. after (c.compose b a) z (swaps a b)) (compose_same_ext misses c d a b close)
          ∙ by_swap (compose_same misses d a b) (swaps a b) h)
    where
      after : Ty → Ty → Bool → Ty
      after swapped same x =
          if x then swapped else if same_kind (kind_of a) (kind_of b) then same else contradicted

      ladder : Ty → Ty → Option Ty → Ty → Ty
      ladder left right applied rest =
          if is_any a
          then b
          else if is_any b
          then a
          else if is_never a
          then a
          else if is_never b
          then b
          else if has_kind or a
          then left
          else if has_kind or b
          then right
          else if is_fn a && not (is_fn b)
          then or_else applied contradicted
          else rest

      by_swap :
          (same : Ty) (x : Bool)
          → (x ≡ true → c.compose b a ≡ d.compose b a)
          → after (c.compose b a) same x ≡ after (d.compose b a) same x
      by_swap same true h = h refl
      by_swap same false h = refl

  property_covered_ext :
      (cs : List Constraint) (w : Constraint)
      → All (Small (type_size b)) cs
      → Small (type_size a) w
      → property_covered misses c cs w ≡ property_covered misses d cs w
  unfolding property_covered
  property_covered_ext cs w hs h =
      ap (λ z. if not (op_of w == "property") || is_optional misses c w then true else z)
        (by_found (named_property (arg 0 w) cs) (
          find_first-Found (type_size b) (λ c. op_of c == "property" && same (arg 0 c) (arg 0 w)) cs
            hs))
    where
      met : Calls → Option Ty → Option Ty → Bool
      met c o o' = elim o [
        | none ↦ true
        | some t ↦ elim o' [ none ↦ true | some u ↦ not (is_never (c.compose t u)) ]
      ]

      by_types :
          (o o' : Option Ty)
          → Held (type_size a) o
          → Held (type_size b) o'
          → met c o o' ≡ met d o o'
      by_types none o' k l = refl
      by_types (some t) none k l = refl
      by_types (some t) (some u) k l = ap (λ z. not (is_never z)) (close t u (omega arith)).0

      by_found :
          (o : Option Constraint)
          → Found (type_size b) o
          → (elim o [ none ↦ false | some x ↦ met c (as_type (arg 1 w)) (as_type (arg 1 x)) ])
            ≡ (elim o [ none ↦ false | some x ↦ met d (as_type (arg 1 w)) (as_type (arg 1 x)) ])
      by_found none k = refl
      by_found (some x) k =
          by_types (as_type (arg 1 w)) (as_type (arg 1 x)) (as_type-Held (type_size a) 1 w h)
            (as_type-Held (type_size b) 1 x k)

  pub covers_with_ext :
      c.compose a b ≡ d.compose a b → covers_with misses c a b ≡ covers_with misses d a b
  unfolding covers_with
  covers_with_ext h =
      ap
        (λ z.
          ladder z (any (λ x. c.covers x b) (branches a))
            (every (property_covered misses c (constraints_of b)) (constraints_of a))
            (c.compose a b))
        (every_ext (λ x. c.covers a x) (λ x. d.covers a x) (branches b)
          (All_weaken (branches b) (λ x k. (close a x (omega arith)).1) (branches-Small b)))
      ∙ ap
          (λ z.
            ladder (every (λ x. d.covers a x) (branches b)) z
              (every (property_covered misses c (constraints_of b)) (constraints_of a))
              (c.compose a b))
          (any_ext (λ x. c.covers x b) (λ x. d.covers x b) (branches a)
            (All_weaken (branches a) (λ x k. (close x b (omega arith)).1) (branches-Small a)))
      ∙ ap
          (λ z.
            ladder (every (λ x. d.covers a x) (branches b)) (any (λ x. d.covers x b) (branches a)) z
              (c.compose a b))
          (every_ext (property_covered misses c (constraints_of b))
            (property_covered misses d (constraints_of b)) (constraints_of a)
            (All_weaken (constraints_of a)
              (λ w k. property_covered_ext (constraints_of b) w (constraints_of-Small b) k)
              (constraints_of-Small a)))
      ∙ ap
          (ladder (every (λ x. d.covers a x) (branches b)) (any (λ x. d.covers x b) (branches a))
            (every (property_covered misses d (constraints_of b)) (constraints_of a)))
          h
    where
      ladder : Bool → Bool → Bool → Ty → Bool
      ladder all some_one props met =
          if is_any a
          then true
          else if is_never b
          then true
          else if is_never a
          then false
          else if is_any b
          then false
          else if has_kind or b
          then all
          else if has_kind or a
          then some_one
          else if not (same_kind (kind_of a) (kind_of b))
          then false
          else if has_kind object a
          then props
          else not (is_never met)
