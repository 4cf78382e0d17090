-- ===== src/Kernel/Guards/Order.antt =====
-- src-v2/sequence.ts, `installBuiltinGuards`: how JavaScript orders the values that the kernel's
-- guards compare. Two texts compare by code points, and a text is a number where it is empty or all
-- digits; other numerals in a text, and objects, compare as NaN does.
use Prim.Native.Nat.{compare, Ordering, ◌*◌}
use Prim.Native.Char.{code}
use Prim.Native.String.{compare as str_compare}
use sequence.Prelude.{
  ℕ, ◌+◌, ◌-◌, String, Bool, true, false, ◌&&◌, Option, none, some, if◌then◌else◌, leb,
}
use sequence.Lang.{Value, nil_value, bool, num, str}
use sequence.Lang.Int.{ℤ, pos, pos_part, neg_part}

-- `Number(v)`; `none` is NaN.
digits : ℕ → String → Option ℕ
digits n String.[] = some n
digits n (String.◌∷◌ c s) =
    let next = digits (n * 10 + (code c - 48)) s in
    if leb 48 (code c) && leb (code c) 57 then next else none

unfoldable pub to_number : Value → Option ℤ
unfolding digits
to_number (num n) = some n
to_number (bool true) = some (pos 1)
to_number (bool false) = some (pos 0)
to_number nil_value = some (pos 0)
to_number (str s) = elim (digits 0 s) [ none ↦ none | some n ↦ some (pos n) ]
to_number _ = none

abbrev order_ℤ : ℤ → ℤ → Ordering
order_ℤ a b = compare (pos_part a + neg_part b) (pos_part b + neg_part a)

-- How `<` and `>` order two values; `none` where a side is NaN.
unfoldable pub order : Value → Value → Option Ordering
unfolding to_number
order (str s) (str t) = some (str_compare s t)
order a b = elim (to_number a) [
  | none ↦ none
  | some x ↦ elim (to_number b) [ none ↦ none | some y ↦ some (order_ℤ x y) ]
]

abbrev pub is_lt : Option Ordering → Bool
is_lt (some Ordering.lt) = true
is_lt _ = false

abbrev pub is_gt : Option Ordering → Bool
is_gt (some Ordering.gt) = true
is_gt _ = false

abbrev pub is_eq : Option Ordering → Bool
is_eq (some Ordering.eq) = true
is_eq _ = false
