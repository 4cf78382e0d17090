-- ===== src/Space/Evaluate/Ordering.antt =====
-- src-v2/evaluate.ts: what the comparisons say of the values of their arguments.
use sequence.Prelude.{
  String, Bool, true, false, not, ◌&&◌, ◌≡◌, refl, sym, ◌∙◌, ap, Option, some, List, if◌then◌else◌,
  arith,
}
use sequence.Prelude.Fallible.{◌>>=◌}
use sequence.Lang.{
  Value, undefined, nil_value, bool, num, str, ref, arr, obj, func, type_of, constraint_of, nil,
  cons, con, same,
}
use sequence.Lang.Int.{ℤ, ltb_ℤ, leb_ℤ}
use sequence.Compose.Check.{check, kind_ok, flat_ok}
use sequence.Space.Evaluate.{Platform}
use sequence.Space.Evaluate.Arguments.{resolve_arg}
use sequence.Space.Evaluate.Judge.{
  literal_kind, equal_by_check, reaches, stays_within, is_num, is_number, evaluate_flat,
  evaluate_constraint,
}

-- what a literal is equal to: neither nothing nor a function
abbrev pub is_data : Value → Bool
is_data undefined = false
is_data (ref i func) = false
is_data v = true

-- two numbers, and in the relation
abbrev pub numbers : (ℤ → ℤ → Bool) → Value → Value → Bool
numbers r (num a) (num b) = r a b
numbers r a b = false

conjunct : (x : Bool) {y z : Bool} → y ≡ z → (x && (y && true)) ≡ (x && z)
conjunct x e = ground arith

no_number : (r : ℤ → ℤ → Bool) (a b : Value) → is_num b ≡ false → numbers r a b ≡ false
no_number r (num m) (num n) h = absurd (ground arith)
no_number r (num m) undefined h = refl
no_number r (num m) nil_value h = refl
no_number r (num m) (bool x) h = refl
no_number r (num m) (str x) h = refl
no_number r (num m) (ref i x) h = refl
no_number r undefined b h = refl
no_number r nil_value b h = refl
no_number r (bool x) b h = refl
no_number r (str x) b h = refl
no_number r (ref i x) b h = refl

only_number :
    (f g : Value → Bool) (b : Value)
    → ((n : ℤ) → f (num n) ≡ g (num n))
    → ((b : Value) → is_num b ≡ false → g b ≡ false)
    → (is_num b && f b) ≡ g b
only_number f g (num n) h k = h n
only_number f g undefined h k = sym (k undefined refl)
only_number f g nil_value h k = sym (k nil_value refl)
only_number f g (bool x) h k = sym (k (bool x) refl)
only_number f g (str x) h k = sym (k (str x) refl)
only_number f g (ref i x) h k = sym (k (ref i x) refl)

and_assoc : (x y z : Bool) → (x && y && z) ≡ (x && (y && z))
and_assoc x y z = ground arith

guarded : (x y : Bool) → (if x then some y else some false) ≡ some (x && y)
guarded true y = refl
guarded false y = refl

bind_both :
    {o p : Option Value} {a b : Value} (f : Value → Value → Bool)
    → o ≡ some a
    → p ≡ some b
    → (o >>= λ a. p >>= λ b. some (f a b)) ≡ some (f a b)
bind_both {p = p} {a = a} f e h =
    ap (λ o. o >>= λ a. p >>= λ b. some (f a b)) e ∙ ap (λ p. p >>= λ b. some (f a b)) h

bind_number :
    {o p : Option Value} {a b : Value} (f : Value → Value → Bool)
    → o ≡ some a
    → p ≡ some b
    → (p >>= λ b. if is_num b then (o >>= λ a. some (f a b)) else some false)
      ≡ some (is_num b && f a b)
bind_number {o = o} {a = a} {b = b} f e h =
    ap (λ p. p >>= λ b. if is_num b then (o >>= λ a. some (f a b)) else some false) h
    ∙ ap (λ o. if is_num b then (o >>= λ a. some (f a b)) else some false) e
    ∙ guarded (is_num b) (f a b)

module _ (js : Platform) where
  flat_ok_literal : (a b : Value) → flat_ok js.matches "literal" (cons b nil) a ≡ same a b
  unfolding flat_ok
  flat_ok_literal undefined b = refl
  flat_ok_literal nil_value b = refl
  flat_ok_literal (bool x) b = refl
  flat_ok_literal (num n) b = refl
  flat_ok_literal (str x) b = refl
  flat_ok_literal (ref i (arr vs)) b = refl
  flat_ok_literal (ref i (obj fs)) b = refl
  flat_ok_literal (ref i func) b = refl
  flat_ok_literal (ref i (type_of u)) b = refl
  flat_ok_literal (ref i (constraint_of d)) b = refl

  equal_by_check-kind_ok :
      (a b : Value) → equal_by_check js a b ≡ (kind_ok (literal_kind b) a && same a b)
  unfolding equal_by_check check literal_kind
  equal_by_check-kind_ok a undefined =
      conjunct (kind_ok (literal_kind undefined) a) (flat_ok_literal a undefined)
  equal_by_check-kind_ok a nil_value =
      conjunct (kind_ok (literal_kind nil_value) a) (flat_ok_literal a nil_value)
  equal_by_check-kind_ok a (bool c) =
      conjunct (kind_ok (literal_kind (bool c)) a) (flat_ok_literal a (bool c))
  equal_by_check-kind_ok a (num m) =
      conjunct (kind_ok (literal_kind (num m)) a) (flat_ok_literal a (num m))
  equal_by_check-kind_ok a (str t) =
      conjunct (kind_ok (literal_kind (str t)) a) (flat_ok_literal a (str t))
  equal_by_check-kind_ok a (ref j (type_of t)) =
      conjunct (kind_ok (literal_kind (ref j (type_of t))) a)
        (flat_ok_literal a (ref j (type_of t)))
  equal_by_check-kind_ok a (ref j (arr ws)) =
      conjunct (kind_ok (literal_kind (ref j (arr ws))) a) (flat_ok_literal a (ref j (arr ws)))
  equal_by_check-kind_ok a (ref j (obj gs)) =
      conjunct (kind_ok (literal_kind (ref j (obj gs))) a) (flat_ok_literal a (ref j (obj gs)))
  equal_by_check-kind_ok a (ref j func) =
      conjunct (kind_ok (literal_kind (ref j func)) a) (flat_ok_literal a (ref j func))
  equal_by_check-kind_ok a (ref j (constraint_of c)) =
      conjunct (kind_ok (literal_kind (ref j (constraint_of c))) a)
        (flat_ok_literal a (ref j (constraint_of c)))

  -- What has one identity is one object.
  abbrev pub OneObject : Value → Value → Type 0
  OneObject a b = same a b ≡ true → a ≡ b

  kind_ok-literal_kind : (a : Value) → kind_ok (literal_kind a) a ≡ is_data a
  unfolding kind_ok literal_kind
  kind_ok-literal_kind undefined = refl
  kind_ok-literal_kind nil_value = refl
  kind_ok-literal_kind (bool x) = refl
  kind_ok-literal_kind (num n) = refl
  kind_ok-literal_kind (str x) = refl
  kind_ok-literal_kind (ref i (arr vs)) = refl
  kind_ok-literal_kind (ref i (obj fs)) = refl
  kind_ok-literal_kind (ref i func) = refl
  kind_ok-literal_kind (ref i (type_of u)) = refl
  kind_ok-literal_kind (ref i (constraint_of d)) = refl

  equal_by_check-same :
      (a b : Value) → OneObject a b → equal_by_check js a b ≡ (is_data a && same a b)
  equal_by_check-same a b h = equal_by_check-kind_ok a b ∙ by_same (same a b) refl
    where
      by_same :
          (x : Bool)
          → same a b ≡ x
          → (kind_ok (literal_kind b) a && same a b) ≡ (is_data a && same a b)
      by_same false e = ground arith
      by_same true e =
          ap (λ c. kind_ok (literal_kind c) a && same a b) (sym (h e))
          ∙ ap (λ x. x && same a b) (kind_ok-literal_kind a)

  reaches-numbers :
      (a : Value) (n : ℤ) → reaches js a (num n) ≡ numbers (λ x y. leb_ℤ y x) a (num n)
  unfolding reaches check kind_ok flat_ok
  reaches-numbers (num m) n = ground arith
  reaches-numbers a n = refl

  stays_within-numbers : (a : Value) (n : ℤ) → stays_within js a (num n) ≡ numbers leb_ℤ a (num n)
  unfolding stays_within check kind_ok flat_ok
  stays_within-numbers (num m) n = ground arith
  stays_within-numbers a n = refl

  above_number :
      (a : Value) (n : ℤ)
      → (is_number js a && not (stays_within js a (num n))) ≡ numbers (λ x y. ltb_ℤ y x) a (num n)
  unfolding is_number stays_within check kind_ok flat_ok
  above_number (num m) n = ground arith
  above_number undefined n = refl
  above_number nil_value n = refl
  above_number (bool x) n = refl
  above_number (str x) n = refl
  above_number (ref i x) n = refl

  above :
      (a b : Value)
      → (is_num b && is_number js a && not (stays_within js a b)) ≡ numbers (λ x y. ltb_ℤ y x) a b
  above a b =
      and_assoc (is_num b) (is_number js a) (not (stays_within js a b))
      ∙ only_number (λ b. is_number js a && not (stays_within js a b))
          (numbers (λ x y. ltb_ℤ y x) a) b (above_number a) (no_number (λ x y. ltb_ℤ y x) a)

  under_number :
      (a : Value) (n : ℤ) → (is_number js a && not (reaches js a (num n))) ≡ numbers ltb_ℤ a (num n)
  unfolding is_number reaches check kind_ok flat_ok
  under_number (num m) n = ground arith
  under_number undefined n = refl
  under_number nil_value n = refl
  under_number (bool x) n = refl
  under_number (str x) n = refl
  under_number (ref i x) n = refl

  under : (a b : Value) → (is_num b && is_number js a && not (reaches js a b)) ≡ numbers ltb_ℤ a b
  under a b =
      and_assoc (is_num b) (is_number js a) (not (reaches js a b))
      ∙ only_number (λ b. is_number js a && not (reaches js a b)) (numbers ltb_ℤ a) b
          (under_number a) (no_number ltb_ℤ a)

  module _ (state : Value) (bindings : List (String × Value)) (l r : Value) where
    abbrev pub judged : String → Option Bool
    judged op = evaluate_constraint js state bindings (con op (cons l (cons r nil)))

    -- Where both arguments of a comparison resolve, to values of which the same object is not two, equality is
    -- that of data, and the four orders are those of numbers and hold of nothing else.
    pub evaluate_constraint-numbers :
        (a b : Value)
        → resolve_arg js state bindings false l ≡ some a
        → resolve_arg js state bindings true r ≡ some b
        → OneObject a b
        → (judged "eq" ≡ some (is_data a && same a b))
          × (judged "neq" ≡ some (not (is_data a && same a b)))
          × (judged "gte" ≡ some (numbers (λ x y. leb_ℤ y x) a b))
          × (judged "lte" ≡ some (numbers leb_ℤ a b))
          × (judged "gt" ≡ some (numbers (λ x y. ltb_ℤ y x) a b))
          × (judged "lt" ≡ some (numbers ltb_ℤ a b))
    unfolding evaluate_constraint evaluate_flat resolve_arg
    evaluate_constraint-numbers a b e f h = (
      bind_both (equal_by_check js) e f ∙ ap some (equal_by_check-same a b h),
      bind_both (λ a b. not (equal_by_check js a b)) e f
          ∙ ap (λ x. some (not x)) (equal_by_check-same a b h),
      bind_number (reaches js) e f
          ∙ ap some (
              only_number (reaches js a) (numbers (λ x y. leb_ℤ y x) a) b (reaches-numbers a)
                (no_number (λ x y. leb_ℤ y x) a)),
      bind_number (stays_within js) e f
          ∙ ap some (
              only_number (stays_within js a) (numbers leb_ℤ a) b (stays_within-numbers a)
                (no_number leb_ℤ a)),
      bind_both (λ a b. is_num b && is_number js a && not (stays_within js a b)) e f
          ∙ ap some (above a b),
      bind_both (λ a b. is_num b && is_number js a && not (reaches js a b)) e f
          ∙ ap some (under a b),
    )
