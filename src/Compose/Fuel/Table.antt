-- ===== src/Compose/Fuel/Table.antt =====
-- src/compose.ts, `pairHandlers`: the rows compose the types that their constraints hold, and no others.
use sequence.Prelude.{ℕ, suc, ◌≤◌, String, ◌≡◌, refl, ap, arith, if◌then◌else◌}
use sequence.Lang.{arg, Value, ref, type_of, nil, cons, Constraint, con, Ty, is_never, same, op_of}
use sequence.Compose.Meet.{contradiction, merged, independent}
use sequence.Compose.Pairs.{
  fresh, nested, meet_property, meet_inner, meet_segment, meet_same, meet_pair, conjoined, tighter,
  non_empty, shared, coalesce,
}
use sequence.Compose.Bounds.{smaller}
use sequence.Compose.Fuel.{value_size, Small, SmallType, arg_size}

module _ (f g : Ty → Ty → Ty) (m n : ℕ)
    (alike : (t u : Ty) → SmallType m t → SmallType n u → f t u ≡ g t u) where
  nested_ext :
      (build : Value → Constraint) (v w : Value)
      → suc (value_size v) ≤ m
      → suc (value_size w) ≤ n
      → nested f build v w ≡ nested g build v w
  unfolding value_size
  nested_ext build (ref i (type_of t)) (ref j (type_of u)) h k =
      ap (λ z. if is_never z then contradiction else merged (build (fresh (type_of z))))
        (alike t u h k)
  nested_ext build (ref i (type_of t)) w h k = refl
  nested_ext build v w h k = refl

  module _ (a b : Constraint) (h : Small m a) (k : Small n b) where
    args_ext :
        (build : Value → Constraint) (i : ℕ)
        → nested f build (arg i a) (arg i b) ≡ nested g build (arg i a) (arg i b)
    args_ext build i =
        nested_ext build (arg i a) (arg i b) (omega (arith, arg_size i a))
          (omega (arith, arg_size i b))

    property_ext : meet_property f a b ≡ meet_property g a b
    unfolding meet_property
    property_ext =
        ap (λ z. if same (arg 0 a) (arg 0 b) then z else independent)
          (args_ext
            (λ t.
              con "property" (cons (arg 0 a) (cons t (cons (conjoined (arg 2 a) (arg 2 b)) nil))))
            1)

    inner_ext : (op : String) → meet_inner f op a b ≡ meet_inner g op a b
    unfolding meet_inner
    inner_ext op = args_ext (λ t. con op (cons t nil)) 0

    segment_ext : meet_segment f a b ≡ meet_segment g a b
    unfolding meet_segment
    segment_ext =
        ap (λ z. if same (arg 0 a) (arg 0 b) then z else independent)
          (args_ext
            (λ t. con "segment" (
              cons (arg 0 a) (
                cons t (
                  cons (tighter smaller (arg 2 a) (arg 2 b)) (
                    cons (non_empty (shared (arg 3 a) (arg 3 b)))
                      (cons (coalesce (arg 4 a) (arg 4 b)) nil))))))
            1)

    same_ext : (op : String) → meet_same f op a b ≡ meet_same g op a b
    unfolding meet_same
    same_ext op =
        rw (property_ext, inner_ext "element", inner_ext "param", inner_ext "returns", segment_ext)

    pub meet_pair_ext : meet_pair f a b ≡ meet_pair g a b
    unfolding meet_pair
    meet_pair_ext = rw (same_ext (op_of a))
