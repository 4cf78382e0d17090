-- ===== src/Compose/Lower/Row.antt =====
-- src/compose.ts, `pairHandlers`: the rows of nested types, and the table as a whole.
use sequence.Prelude.{
  ℕ, String, Bool, true, false, not, ◌&&◌, ◌≡◌, refl, ◌∙◌, subst, List, [], ◌∷◌, Option, none, some,
  arith, every, ◌==◌, if◌then◌else◌, eq_iff,
}
use sequence.Lang.{
  nth, Value, bool, str, ref, arr, type_of, Values, nil, cons, Constraint, con, Ty, values, same,
  is_never, num, is_undefined,
}
use sequence.Lang.Int.{ℤ}
use sequence.Compose.Bounds.{larger, smaller}
use sequence.Compose.Meet.{Meet, contradiction, merged, independent}
use sequence.Compose.Pairs.{
  fresh, meet_identity, meet_preserves, meet_equation, meet_temporal, meet_property, meet_inner,
  nested, temporal_bound, opposed,
}
use sequence.Compose.Check.{check, own_property, property_ok, elements_ok}
use sequence.Compose.Lower.{Plain, PlainOne, flat, property, element, is_special}
use sequence.Compose.Lower.Merge.{Below, clash, apart, tight}
use sequence.Compose.Lower.Pair.{holds, check_one-flat, flat_ok-unchecked, is_checked}

-- a property that two tests pass, where a third implies both
property_ok-both :
    (k : String) (p q r : Value → Bool) (x y : Bool) (v : Value)
    → ((w : Value) → r w ≡ true → (p w ≡ true) × (q w ≡ true))
    → property_ok k r (x && y) v ≡ true
    → (property_ok k p x v ≡ true) × (property_ok k q y v ≡ true)
property_ok-both k p q r x y v h = by_own (own_property k v)
  where
    by_own :
        (o : Option Value)
        → (elim o [ none ↦ x && y | some w ↦ r w ]) ≡ true
        → ((elim o [ none ↦ x | some w ↦ p w ]) ≡ true)
          × ((elim o [ none ↦ y | some w ↦ q w ]) ≡ true)
    by_own none e = (ground arith, ground arith)
    by_own (some w) e = h w e

every_both :
    (p q r : Value → Bool) (vs : List Value)
    → ((w : Value) → r w ≡ true → (p w ≡ true) × (q w ≡ true))
    → every r vs ≡ true
    → (every p vs ≡ true) × (every q vs ≡ true)
every_both p q r [] h e = (refl, refl)
every_both p q r (w ∷ vs) h e =
    let here = h w (ground arith) in
    let there = every_both p q r vs h (ground arith) in (ground arith, ground arith)

elements_ok-both :
    (p q r : Value → Bool) (v : Value)
    → ((w : Value) → r w ≡ true → (p w ≡ true) × (q w ≡ true))
    → elements_ok r v ≡ true
    → (elements_ok p v ≡ true) × (elements_ok q v ≡ true)
elements_ok-both p q r (ref i (arr vs)) h e = every_both p q r (values vs) h e
elements_ok-both p q r v h e = (refl, refl)

module _ (matches : String → String → Bool) (v : Value) where
  abbrev pub property_of : String → ℕ → Ty → Bool → Constraint
  property_of k i t x = con "property" (cons (str k) (cons (ref i (type_of t)) (cons (bool x) nil)))

  -- a merge of two constraints that no value fails
  free_tight :
      (op : String) (xs ys : Values) (m : Constraint)
      → is_special op ≡ false
      → is_checked op ≡ false
      → PlainOne m
      → Below PlainOne (holds matches v) (con op xs) (con op ys) (merged m)
  free_tight op xs ys m h k p = tight p λ e. (
    check_one-flat matches v false false op xs h ∙ flat_ok-unchecked matches op xs v k,
    check_one-flat matches v false false op ys h ∙ flat_ok-unchecked matches op ys v k,
  )

  abbrev pub Row : String → Values → Values → Meet Constraint → Type 0
  Row op xs ys m = Below PlainOne (holds matches v) (con op xs) (con op ys) m

  pub identity-Below :
      (xs ys : Values)
      → Row "identity" xs ys (meet_identity (con "identity" xs) (con "identity" ys))
  unfolding meet_identity
  identity-Below xs ys = by_tests (same (nth 0 xs) (nth 0 ys)) (same (nth 1 xs) (nth 1 ys))
    where
      by_tests :
          (p q : Bool)
          → Row "identity" xs ys (
              if not p
              then independent
              else if q
              then merged (con "identity" xs)
              else contradiction)
      by_tests false q = apart
      by_tests true false = clash
      by_tests true true =
          free_tight "identity" xs ys (con "identity" xs) refl refl (flat refl refl)

  pub preserves-Below :
      (xs ys : Values)
      → Row "preserves" xs ys (meet_preserves (con "preserves" xs) (con "preserves" ys))
  unfolding meet_preserves
  preserves-Below xs ys =
      by_tests (same (nth 0 xs) (nth 0 ys) && same (nth 1 xs) (nth 1 ys))
        (same (nth 0 xs) (str "*")) (same (nth 0 ys) (str "*"))
    where
      kept : (zs : Values) → Row "preserves" xs ys (merged (con "preserves" zs))
      kept zs = free_tight "preserves" xs ys (con "preserves" zs) refl refl (flat refl refl)

      by_tests :
          (p q r : Bool)
          → Row "preserves" xs ys (
              if p
              then merged (con "preserves" xs)
              else if q
              then merged (con "preserves" xs)
              else if r
              then merged (con "preserves" ys)
              else independent)
      by_tests true q r = kept xs
      by_tests false true r = kept xs
      by_tests false false true = kept ys
      by_tests false false false = apart

  pub equation-Below :
      (xs ys : Values)
      → Row "equation" xs ys (meet_equation (con "equation" xs) (con "equation" ys))
  unfolding meet_equation
  equation-Below xs ys =
      by_tests _ (same (nth 0 xs) (nth 0 ys)) (same (nth 1 xs) (nth 1 ys))
        (is_undefined (nth 2 xs) && is_undefined (nth 2 ys))
    where
      kept : (zs : Values) → Row "equation" xs ys (merged (con "equation" zs))
      kept zs = free_tight "equation" xs ys (con "equation" zs) refl refl (flat refl refl)

      by_tests :
          (zs : Values) (p q r : Bool)
          → Row "equation" xs ys (
              if not p
              then independent
              else if not q
              then contradiction
              else if r
              then merged (con "equation" xs)
              else merged (con "equation" zs))
      by_tests zs false q r = apart
      by_tests zs true false r = clash
      by_tests zs true true true = kept xs
      by_tests zs true true false = kept zs

  pub temporal-Below :
      (xs ys : Values)
      → Row "temporal" xs ys (meet_temporal (con "temporal" xs) (con "temporal" ys))
  unfolding meet_temporal
  temporal-Below xs ys =
      by_tests (same (nth 1 xs) (nth 1 ys))
        (same (nth 0 xs) (str "gt") && same (nth 0 ys) (str "gt"))
        (same (nth 0 xs) (str "lt") && same (nth 0 ys) (str "lt"))
        (same (nth 0 xs) (str "gt") && same (nth 0 ys) (str "lt") && opposed (nth 2 xs) (nth 2 ys))
        (same (nth 0 xs) (str "lt") && same (nth 0 ys) (str "gt") && opposed (nth 2 ys) (nth 2 xs))
    where
      bound :
          (f : ℤ → ℤ → ℤ) (dir : String) (lhs x y : Value)
          → Row "temporal" xs ys (temporal_bound f dir lhs x y)
      bound f dir lhs (num a) (num b) =
          free_tight "temporal" xs ys
            (con "temporal" (cons (str dir) (cons lhs (cons (num (f a b)) nil)))) refl refl
            (flat refl refl)
      bound f dir lhs (num a) y = apart
      bound f dir lhs x y = apart

      by_tests :
          (p q r t u : Bool)
          → Row "temporal" xs ys (
              if not p
              then independent
              else if q
              then temporal_bound larger "gt" (nth 1 xs) (nth 2 xs) (nth 2 ys)
              else if r
              then temporal_bound smaller "lt" (nth 1 xs) (nth 2 xs) (nth 2 ys)
              else if t
              then contradiction
              else if u
              then contradiction
              else independent)
      by_tests false q r t u = apart
      by_tests true true r t u = bound larger "gt" (nth 1 xs) (nth 2 xs) (nth 2 ys)
      by_tests true false true t u = bound smaller "lt" (nth 1 xs) (nth 2 xs) (nth 2 ys)
      by_tests true false false true u = clash
      by_tests true false false false true = clash
      by_tests true false false false false = apart

  -- a plain type that accepts the value only where two types do
  abbrev pub Parts : Ty → Ty → Ty → Type 0
  Parts a b m =
      Plain m × (check matches m v ≡ true → (check matches a v ≡ true) × (check matches b v ≡ true))

  module _ (meet_ty : Ty → Ty → Ty) where
    pub inner-Below :
        (op : String) (xs ys : Values)
        → is_special op ≡ false
        → is_checked op ≡ false
        → Row op xs ys (meet_inner meet_ty op (con op xs) (con op ys))
    unfolding meet_inner
    inner-Below op xs ys h k = by_args (nth 0 xs) (nth 0 ys)
      where
        by_test :
            (zs : Values) (b : Bool)
            → Row op xs ys (if b then contradiction else merged (con op zs))
        by_test zs true = clash
        by_test zs false = free_tight op xs ys (con op zs) h k (flat h (ground arith))

        by_args : (x y : Value) → Row op xs ys (nested meet_ty (λ t. con op (cons t nil)) x y)
        by_args (ref i (type_of t)) (ref j (type_of u)) =
            by_test (cons (fresh (type_of (meet_ty t u))) nil) (is_never (meet_ty t u))
        by_args (ref i (type_of t)) y = apart
        by_args x y = apart

    -- the composition is plain again, and accepts less than both
    abbrev pub Lower : Ty → Ty → Type 0
    Lower t u =
        Plain (meet_ty t u)
        × ((w : Value)
            → check matches (meet_ty t u) w ≡ true
            → (check matches t w ≡ true) × (check matches u w ≡ true))

    pub property-Below :
        (k l : String) (i j : ℕ) (t u : Ty) (x y : Bool)
        → Lower t u
        → Below PlainOne
            (holds matches v)
            (property_of k i t x)
            (property_of l j u y)
            (meet_property meet_ty (property_of k i t x) (property_of l j u y))
    unfolding meet_property check
    property-Below k l i j t u x y h = by_test (k == l) refl
      where
        by_inner :
            (b : Bool)
            → (k == l) ≡ true
            → Below PlainOne
                (holds matches v)
                (property_of k i t x)
                (property_of l j u y)
                (if b then contradiction else merged (property_of k 0 (meet_ty t u) (x && y)))
        by_inner true e = clash
        by_inner false e = tight (property h.0) (
            subst
              (λ z.
                property_ok k (check matches (meet_ty t u)) (x && y) v ≡ true
                → (property_ok k (check matches t) x v ≡ true)
                  × (property_ok z (check matches u) y v ≡ true))
              ((eq_iff k l).0 e)
              (property_ok-both k (check matches t) (check matches u) (check matches (meet_ty t u))
                x y v h.1))

        by_test :
            (b : Bool)
            → (k == l) ≡ b
            → Below PlainOne (holds matches v) (property_of k i t x) (property_of l j u y) (
                if b
                then if is_never (meet_ty t u)
                  then contradiction
                  else merged (property_of k 0 (meet_ty t u) (x && y))
                else independent)
        by_test false e = apart
        by_test true e = by_inner (is_never (meet_ty t u)) e

    pub element-Below :
        (i j : ℕ) (t u : Ty)
        → Lower t u
        → Row "element" (cons (ref i (type_of t)) nil) (cons (ref j (type_of u)) nil) (
            meet_inner meet_ty "element"
              (con "element" (cons (ref i (type_of t)) nil))
              (con "element" (cons (ref j (type_of u)) nil)))
    unfolding meet_inner check
    element-Below i j t u h = by_test (is_never (meet_ty t u))
      where
        by_test :
            (b : Bool)
            → Row "element" (cons (ref i (type_of t)) nil) (cons (ref j (type_of u)) nil) (
                if b
                then contradiction
                else merged (con "element" (cons (fresh (type_of (meet_ty t u))) nil)))
        by_test true = clash
        by_test false = tight (element h.0) (
            elements_ok-both (check matches t) (check matches u) (check matches (meet_ty t u)) v
              h.1)
