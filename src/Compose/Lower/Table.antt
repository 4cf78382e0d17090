-- ===== src/Compose/Lower/Table.antt =====
-- src/compose.ts, `pairHandlers`: the table, over the rows of each op.
use sequence.Prelude.{
  String, Bool, true, false, ◌&&◌, ◌||◌, ◌≡◌, refl, sym, subst, List, [], ◌∷◌, arith, ◌==◌,
  if◌then◌else◌, eq_iff, All,
}
use sequence.Lang.{arg, Value, Values, Constraint, con, Ty, op_of}
use sequence.Compose.Meet.{Meet, independent}
use sequence.Compose.Pairs.{
  meet_literal, meet_min, meet_max, meet_opposite, meet_range, meet_length, meet_pattern,
  meet_identity, meet_preserves, meet_equation, meet_temporal, meet_property, meet_inner,
  meet_segment, meet_same, meet_pair,
}
use sequence.Compose.Lower.{
  Plain, PlainOne, property, element, flat, bounded, is_special, is_bounded,
}
use sequence.Compose.Lower.Merge.{Below, apart}
use sequence.Compose.Lower.Pair.{
  holds, literal-Below, min-Below, max-Below, opposite-Below, pattern-Below,
}
use sequence.Compose.Lower.Length.{length-Below, array_length-Below, range-Below}
use sequence.Compose.Lower.Row.{
  Row, Lower, identity-Below, preserves-Below, equation-Below, temporal-Below, inner-Below,
  property-Below, element-Below,
}

abbrev is_length : String → Bool
is_length op = op == "length" || op == "arrayLength"

other_op : (n op : String) → (op == n) ≡ false → (n == op) ≡ false
other_op n op h = ground (arith, eq_iff n op, eq_iff op n)

pub is_length-unspecial : (op : String) → is_length op ≡ true → is_special op ≡ false
is_length-unspecial op h = by_tests (op == "length") (op == "arrayLength") refl refl h
  where
    by_tests :
        (p q : Bool)
        → (op == "length") ≡ p
        → (op == "arrayLength") ≡ q
        → (p || q) ≡ true
        → is_special op ≡ false
    by_tests true q e f h = subst (λ z. is_special z ≡ false) (sym ((eq_iff op "length").0 e)) refl
    by_tests false true e f h =
        subst (λ z. is_special z ≡ false) (sym ((eq_iff op "arrayLength").0 f)) refl
    by_tests false false e f h = absurd (ground arith)

-- the handler of an op, from a list of them
abbrev row_of : String → List (String × (String → Meet Constraint)) → Meet Constraint
row_of op [] = independent
row_of op (r ∷ rs) = if op == r.0 then r.1 op else row_of op rs

module _ (matches : String → String → Bool) (v : Value) where
  row_of-Below :
      (op : String) (xs ys : Values) (rs : List (String × (String → Meet Constraint)))
      → All (λ r. (op == r.0) ≡ true → Row matches v r.0 xs ys (r.1 r.0)) rs
      → Row matches v op xs ys (row_of op rs)
  row_of-Below op xs ys [] h = apart
  row_of-Below op xs ys (r ∷ rs) (h, hs) = by_test (op == r.0) refl (row_of-Below op xs ys rs hs)
    where
      by_test :
          (b : Bool)
          → (op == r.0) ≡ b
          → Row matches v op xs ys (row_of op rs)
          → Row matches v op xs ys (if b then r.1 op else row_of op rs)
      by_test false e k = k
      by_test true e k =
          subst (λ z. Row matches v z xs ys (r.1 z)) (sym ((eq_iff op r.0).0 e)) (h e)

  module _ (meet_ty : Ty → Ty → Ty) where
    same-Below :
        (op : String) (xs ys : Values)
        → is_special op ≡ false
        → (is_length op ≡ true → (is_bounded xs ≡ true) × (is_bounded ys ≡ true))
        → Row matches v op xs ys (meet_same meet_ty op (con op xs) (con op ys))
    unfolding meet_same
    same-Below op xs ys h k =
        row_of-Below op xs ys
          (("literal", λ z. meet_literal (con z xs) (con z ys))
            ∷ ("min", λ z. meet_min (con z xs) (con z ys))
            ∷ ("max", λ z. meet_max (con z xs) (con z ys))
            ∷ ("range", λ z. meet_range (con z xs) (con z ys))
            ∷ ("length", λ z. meet_length "length" (con z xs) (con z ys))
            ∷ ("pattern", λ z. meet_pattern (con z xs) (con z ys))
            ∷ ("property", λ z. meet_property meet_ty (con z xs) (con z ys))
            ∷ ("element", λ z. meet_inner meet_ty "element" (con z xs) (con z ys))
            ∷ ("arrayLength", λ z. meet_length "arrayLength" (con z xs) (con z ys))
            ∷ ("param", λ z. meet_inner meet_ty "param" (con z xs) (con z ys))
            ∷ ("returns", λ z. meet_inner meet_ty "returns" (con z xs) (con z ys))
            ∷ ("segment", λ z. meet_segment meet_ty (con z xs) (con z ys))
            ∷ ("temporal", λ z. meet_temporal (con z xs) (con z ys))
            ∷ ("identity", λ z. meet_identity (con z xs) (con z ys))
            ∷ ("equation", λ z. meet_equation (con z xs) (con z ys))
            ∷ ("preserves", λ z. meet_preserves (con z xs) (con z ys))
            ∷ [])
          (
            (λ e. literal-Below matches v xs ys),
            (
              (λ e. min-Below matches v xs ys),
              (
                (λ e. max-Below matches v xs ys),
                (
                  (λ e. range-Below matches v xs ys),
                  (
                    (λ e. (let b = k (ground arith) in length-Below matches v xs ys b.0 b.1)),
                    (
                      (λ e. pattern-Below matches v xs ys),
                      (
                        (λ e. absurd (ground arith)),
                        (
                          (λ e. absurd (ground arith)),
                          (
                            (λ e.
                                (let b = k (ground arith) in
                                  array_length-Below matches v xs ys b.0 b.1)),
                            (
                              (λ e. inner-Below matches v meet_ty "param" xs ys refl refl),
                              (
                                (λ e. inner-Below matches v meet_ty "returns" xs ys refl refl),
                                (
                                  (λ e. absurd (ground arith)),
                                  (
                                    (λ e. temporal-Below matches v xs ys),
                                    (
                                      (λ e. identity-Below matches v xs ys),
                                      (
                                        (λ e. equation-Below matches v xs ys),
                                        ((λ e. preserves-Below matches v xs ys), tt),
                                      ),
                                    ),
                                  ),
                                ),
                              ),
                            ),
                          ),
                        ),
                      ),
                    ),
                  ),
                ),
              ),
            ),
          )

    unlike-Below :
        (a b : Constraint)
        → (op_of a == op_of b) ≡ false
        → Below PlainOne (holds matches v) a b (meet_pair meet_ty a b)
    unfolding meet_pair
    unlike-Below a b h =
        by_tests (op_of a == op_of b) (op_of a == "min" && op_of b == "max")
          (op_of a == "max" && op_of b == "min") h
      where
        by_tests :
            (p q r : Bool)
            → p ≡ false
            → Below PlainOne (holds matches v) a b (
                if p
                then meet_same meet_ty (op_of a) a b
                else if q
                then meet_opposite (arg 0 a) (arg 0 b)
                else if r
                then meet_opposite (arg 0 b) (arg 0 a)
                else independent)
        by_tests true q r e = absurd (ground arith)
        by_tests false true r e = opposite-Below matches v a b (arg 0 a) (arg 0 b)
        by_tests false false true e = opposite-Below matches v a b (arg 0 b) (arg 0 a)
        by_tests false false false e = apart

    alike-Below :
        (op op' : String) (xs ys : Values)
        → is_special op ≡ false
        → (is_length op ≡ true → is_bounded xs ≡ true)
        → (is_length op' ≡ true → is_bounded ys ≡ true)
        → Below PlainOne
            (holds matches v)
            (con op xs)
            (con op' ys)
            (meet_pair meet_ty (con op xs) (con op' ys))
    unfolding meet_pair
    alike-Below op op' xs ys h k k' = by_test (op == op') refl
      where
        at_one :
            (z : String)
            → op ≡ z
            → (is_length z ≡ true → is_bounded ys ≡ true)
            → Below PlainOne
                (holds matches v)
                (con op xs)
                (con z ys)
                (meet_same meet_ty op (con op xs) (con z ys))
        at_one z e k' =
            subst
              (λ z.
                (is_length z ≡ true → is_bounded ys ≡ true)
                → Below PlainOne (holds matches v) (con op xs) (con z ys)
                    (meet_same meet_ty op (con op xs) (con z ys)))
              e (λ k''. same-Below op xs ys h (λ l. (k l, k'' l))) k'

        by_test :
            (b : Bool)
            → (op == op') ≡ b
            → Below PlainOne
                (holds matches v)
                (con op xs)
                (con op' ys)
                (meet_pair meet_ty (con op xs) (con op' ys))
        by_test false e = unlike-Below (con op xs) (con op' ys) e
        by_test true e =
            subst (λ m. Below PlainOne (holds matches v) (con op xs) (con op' ys) m) (ground arith)
              (at_one op' ((eq_iff op op').0 e) k')

    pub pair-Below :
        ((t u : Ty) → Plain t → Plain u → Lower matches v meet_ty t u)
        → (a b : Constraint) → PlainOne a
        → PlainOne b
        → Below PlainOne (holds matches v) a b (meet_pair meet_ty a b)
    unfolding meet_pair meet_same
    pair-Below ih _ _ (property {k} {i} {t} {o} p) (property {k = k'} {i = j} {t = u} {o = o'} q) =
        property-Below matches v meet_ty k k' i j t u o o' (ih t u p q)
    pair-Below ih _ _ (element {i} {t} p) (element {i = j} {t = u} q) =
        element-Below matches v meet_ty i j t u (ih t u p q)
    pair-Below ih _ _ (flat {op} {args = xs} h l) (flat {op = op'} {args = ys} h' l') =
        alike-Below op op' xs ys h (λ e. absurd (ground arith)) (λ e. absurd (ground arith))
    pair-Below ih _ _ (flat {op} {args = xs} h l) (bounded {op = op'} {args = ys} l' b) =
        alike-Below op op' xs ys h (λ e. absurd (ground arith)) (λ e. b)
    pair-Below ih _ _ (bounded {op} {args = xs} l b) (flat {op = op'} {args = ys} h l') =
        let plain = is_length-unspecial op l in
        alike-Below op op' xs ys (ground arith) (λ e. b) (λ e. absurd (ground arith))
    pair-Below ih _ _ (bounded {op} {args = xs} l b) (bounded {op = op'} {args = ys} l' b') =
        let plain = is_length-unspecial op l in
        alike-Below op op' xs ys (ground arith) (λ e. b) (λ e. b')
    pair-Below ih a b (property p) (element q) = unlike-Below a b refl
    pair-Below ih a b (element p) (property q) = unlike-Below a b refl
    pair-Below ih a b (property p) (flat {op} {args = xs} h l) =
        unlike-Below a b (other_op "property" op (ground arith))
    pair-Below ih a b (property p) (bounded {op} {args = xs} l c) =
        let plain = is_length-unspecial op l in
        unlike-Below a b (other_op "property" op (ground arith))
    pair-Below ih a b (element p) (flat {op} {args = xs} h l) =
        unlike-Below a b (other_op "element" op (ground arith))
    pair-Below ih a b (element p) (bounded {op} {args = xs} l c) =
        let plain = is_length-unspecial op l in
        unlike-Below a b (other_op "element" op (ground arith))
    pair-Below ih a b (flat {op} {args = xs} h l) (property q) = unlike-Below a b (ground arith)
    pair-Below ih a b (flat {op} {args = xs} h l) (element q) = unlike-Below a b (ground arith)
    pair-Below ih a b (bounded {op} l c) (property q) =
        let plain = is_length-unspecial op l in unlike-Below a b (ground arith)
    pair-Below ih a b (bounded {op} l c) (element q) =
        let plain = is_length-unspecial op l in unlike-Below a b (ground arith)
