-- ===== src/Space/Evaluate/Counts.antt =====
-- src-v2/evaluate.ts: an object that is there has a key that counts.
use sequence.Prelude.{
  ℕ, ◌+◌, String, Bool, true, false, not, ◌&&◌, ◌||◌, ◌≡◌, refl, sym, ◌∙◌, ap, none, some, List,
  if◌then◌else◌, arith, leb, split,
}
use sequence.Prelude.Fallible.{◌>>=◌}
use sequence.Lang.{
  Value, undefined, nil_value, bool, num, str, ref, arr, obj, func, type_of, constraint_of, nil,
  cons, Fields, end, field, con, ty, is_undefined,
}
use sequence.Lang.Int.{pos}
use sequence.Compose.Check.{check, kind_ok, flat_ok}
use sequence.Space.Evaluate.{
  Platform, is_plain_object, has_leaf, some_leaf, walk_segments, value_at_path, leaves_in, keys_of,
  count_keys_at_path, whole_binding, rejects_glob,
}
use sequence.Space.Evaluate.Arguments.{resolve_arg, substitute_segments}
use sequence.Space.Evaluate.Judge.{reaches, evaluate_flat, evaluate_constraint, counts}

leb_one : (n : ℕ) → leb 1 (1 + n) ≡ true
leb_one n = ground arith

leaves_in-some_leaf : (fs : Fields) → leb 1 (leaves_in fs) ≡ some_leaf fs
unfolding leaves_in has_leaf some_leaf
leaves_in-some_leaf end = refl
leaves_in-some_leaf (field k v fs) = by_leaf (has_leaf v) (leaves_in-some_leaf fs)
  where
    by_leaf :
        (b : Bool)
        → leb 1 (leaves_in fs) ≡ some_leaf fs
        → leb 1 (if b then 1 + leaves_in fs else leaves_in fs) ≡ (b || some_leaf fs)
    by_leaf true h = leb_one (leaves_in fs)
    by_leaf false h = h

keys_of-has_leaf : (v : Value) → is_plain_object v ≡ true → leb 1 (keys_of v) ≡ has_leaf v
unfolding is_plain_object kind_ok keys_of has_leaf
keys_of-has_leaf (ref i (obj fs)) h = leaves_in-some_leaf fs
keys_of-has_leaf (ref i (constraint_of c)) h = refl
keys_of-has_leaf (ref i (type_of (ty k cs meta))) h = by_meta (some_leaf meta)
  where
    by_meta : (b : Bool) → leb 1 (if b then 3 else 2) ≡ true
    by_meta true = refl
    by_meta false = refl
keys_of-has_leaf (ref i (arr vs)) h = absurd (ground arith)
keys_of-has_leaf (ref i func) h = absurd (ground arith)
keys_of-has_leaf undefined h = absurd (ground arith)
keys_of-has_leaf nil_value h = absurd (ground arith)
keys_of-has_leaf (bool b) h = absurd (ground arith)
keys_of-has_leaf (num n) h = absurd (ground arith)
keys_of-has_leaf (str s) h = absurd (ground arith)

-- an object reads as nothing where it has no leaf
read_object :
    (v : Value)
    → is_plain_object v ≡ true
    → is_undefined (if is_plain_object v && not (has_leaf v) then undefined else v)
      ≡ not (has_leaf v)
unfolding is_plain_object kind_ok
read_object v h =
    ap (λ b. is_undefined (if b && not (has_leaf v) then undefined else v)) h ∙ by_leaf (has_leaf v)
  where
    never_undefined : (v : Value) → is_plain_object v ≡ true → is_undefined v ≡ false
    never_undefined undefined h = absurd (ground arith)
    never_undefined nil_value h = refl
    never_undefined (bool b) h = refl
    never_undefined (num n) h = refl
    never_undefined (str s) h = refl
    never_undefined (ref i s) h = refl

    by_leaf : (b : Bool) → is_undefined (if not b then undefined else v) ≡ not b
    by_leaf true = never_undefined v h
    by_leaf false = refl

module _ (js : Platform) (state : Value) (bindings : List (String × Value)) (p : String) where
  abbrev path : String
  unfolding substitute_segments
  path = substitute_segments js state bindings p

  resolved :
      whole_binding p bindings ≡ none
      → rejects_glob path ≡ false
      → resolve_arg js state bindings false (str p) ≡ some (value_at_path state path)
  unfolding resolve_arg
  resolved h g =
      ap
        (λ o. elim o [
          | some v ↦ some v
          | none ↦
              if rejects_glob path
              then none
              else if false && is_undefined (value_at_path state path)
              then some (str path)
              else some (value_at_path state path)
        ])
        h
      ∙ ap (λ b. if b then none else some (value_at_path state path)) g

  reaches_one : (n : ℕ) → reaches js (num (pos n)) (num (pos 1)) ≡ leb 1 n
  unfolding reaches check kind_ok flat_ok
  reaches_one n = ground arith

  undefined_at :
      (v : Value)
      → walk_segments (split path) state ≡ some v
      → is_plain_object v ≡ true
      → is_undefined (value_at_path state path) ≡ not (has_leaf v)
  unfolding value_at_path
  undefined_at v w o =
      ap
        (λ x. is_undefined (elim x [
          | none ↦ undefined
          | some v ↦ if is_plain_object v && not (has_leaf v) then undefined else v
        ]))
        w
      ∙ read_object v o

  counted :
      (wanted : Bool) (v : Value)
      → rejects_glob path ≡ false
      → walk_segments (split path) state ≡ some v
      → is_plain_object v ≡ true
      → counts js state bindings wanted (cons (str p) (cons (num (pos 1)) nil))
        ≡ some (if wanted then has_leaf v else not (has_leaf v))
  unfolding counts resolve_arg count_keys_at_path
  counted wanted v g w o =
      ap (λ b. if b then none else some (if wanted then meets else not meets)) g
      ∙ ap (λ m. some (if wanted then m else not m))
          (reaches_one (count_keys_at_path state path)
            ∙ ap (λ x. leb 1 (elim x [ none ↦ 0 | some v ↦ keys_of v ])) w
            ∙ keys_of-has_leaf v o)
    where
      meets : Bool
      meets = reaches js (num (pos (count_keys_at_path state path))) (num (pos 1))

  -- Where a path is a text without a binding of its own or a glob, and leads to an object, the object exists
  -- exactly where it counts at least one key, and does not exist exactly where it counts less than one.
  pub evaluate_constraint-counts :
      (v : Value)
      → whole_binding p bindings ≡ none
      → rejects_glob (substitute_segments js state bindings p) ≡ false
      → walk_segments (split (substitute_segments js state bindings p)) state ≡ some v
      → is_plain_object v ≡ true
      → (evaluate_constraint js state bindings (con "exists" (cons (str p) nil))
          ≡ evaluate_constraint js state bindings
              (con "count_gte" (cons (str p) (cons (num (pos 1)) nil))))
        × (evaluate_constraint js state bindings (con "notExists" (cons (str p) nil))
            ≡ evaluate_constraint js state bindings
                (con "count_lt" (cons (str p) (cons (num (pos 1)) nil))))
  unfolding evaluate_constraint evaluate_flat
  evaluate_constraint-counts v h g w o = (
    ap (λ x. x >>= λ a. some (not (is_undefined a))) (resolved h g)
        ∙ ap (λ x. some (not x)) (undefined_at v w o)
        ∙ ap some (not_not (has_leaf v))
        ∙ sym (counted true v g w o),
    ap (λ x. x >>= λ a. some (is_undefined a)) (resolved h g)
        ∙ ap some (undefined_at v w o)
        ∙ sym (counted false v g w o),
  )
    where
      not_not : (b : Bool) → not (not b) ≡ b
      not_not true = refl
      not_not false = refl
