-- ===== src/Compose/Lower/Pair.antt =====
-- src/compose.ts, `pairHandlers`: a merge of two constraints of plain types holds only where both hold.
use sequence.Prelude.{
  String, Bool, true, false, ◌||◌, ◌≡◌, refl, sym, ◌∙◌, subst, arith, ◌==◌, if◌then◌else◌, eq_iff,
}
use sequence.Lang.{
  nth, Value, undefined, nil_value, bool, num, str, ref, arr, type_of, Values, nil, cons,
  Constraint, con, same,
}
use sequence.Lang.Int.{ℤ, eq_ℤ, eq_of_eq_ℤ}
use sequence.Compose.Bounds.{larger, smaller}
use sequence.Compose.Meet.{contradiction, merged, independent}
use sequence.Compose.Pairs.{
  is_crossed, meet_number, meet_literal, meet_min, meet_max, meet_opposite, meet_pattern,
}
use sequence.Compose.Check.{check_one, flat_ok}
use sequence.Compose.Lower.{PlainOne, flat, is_special}
use sequence.Compose.Lower.Merge.{Below, clash, apart, tight}

-- `Object.is` is an equivalence.
same_trans : (x v w : Value) → same v x ≡ true → same x w ≡ true → same v w ≡ true
same_trans undefined undefined undefined h k = refl
same_trans nil_value nil_value nil_value h k = refl
same_trans (bool true) (bool true) (bool true) h k = refl
same_trans (bool false) (bool false) (bool false) h k = refl
same_trans (num a) (num b) (num c) h k =
    let e = eq_of_eq_ℤ b a h in subst (λ z. eq_ℤ z c ≡ true) (sym e) k
same_trans (str a) (str b) (str c) h k = ground (arith, eq_iff b a, eq_iff a c, eq_iff b c)
same_trans (ref i a) (ref j b) (ref l c) h k = ground arith
same_trans x v w h k = ground arith

-- the ops whose check is not the constant `true`
abbrev pub is_checked : String → Bool
is_checked op =
    op == "literal"
    || op == "min"
    || op == "max"
    || op == "range"
    || op == "length"
    || op == "pattern"
    || op == "arrayLength"

pub flat_ok-unchecked :
    (matches : String → String → Bool) (op : String) (args : Values) (v : Value)
    → is_checked op ≡ false
    → flat_ok matches op args v ≡ true
unfolding flat_ok
flat_ok-unchecked matches op args (num n) h = ground arith
flat_ok-unchecked matches op args (str s) h = ground arith
flat_ok-unchecked matches op args (ref i (arr vs)) h = ground arith
flat_ok-unchecked matches op args v h = ground arith

flat_ok-literal :
    (matches : String → String → Bool) (args : Values) (v : Value)
    → flat_ok matches "literal" args v ≡ same v (nth 0 args)
unfolding flat_ok
flat_ok-literal matches args (num n) = refl
flat_ok-literal matches args (str s) = refl
flat_ok-literal matches args (ref i (arr vs)) = refl
flat_ok-literal matches args v = refl

module _ (matches : String → String → Bool) (v : Value) where
  abbrev pub holds : Constraint → Bool
  holds c = check_one matches false false c v

  pub check_one-flat :
      (segmented branched : Bool) (op : String) (args : Values)
      → is_special op ≡ false
      → check_one matches segmented branched (con op args) v ≡ flat_ok matches op args v
  unfolding check_one
  check_one-flat s b op (cons (str k) (cons (ref i (type_of t)) rest)) h = ground arith
  check_one-flat s b op (cons (ref i (type_of t)) rest) h = ground arith
  check_one-flat s b op args h = ground arith

  -- a merge of two constraints of one flat op
  pub flat_tight :
      (op : String) (zs xs ys : Values)
      → is_special op ≡ false
      → PlainOne (con op zs)
      → (flat_ok matches op zs v ≡ true
          → (flat_ok matches op xs v ≡ true) × (flat_ok matches op ys v ≡ true))
      → Below PlainOne holds (con op xs) (con op ys) (merged (con op zs))
  flat_tight op zs xs ys h p k = tight p λ e.
      (let both = k (sym (check_one-flat false false op zs h) ∙ e) in
        (check_one-flat false false op xs h ∙ both.0, check_one-flat false false op ys h ∙ both.1))

  pub literal-Below :
      (xs ys : Values)
      → Below PlainOne holds
          (con "literal" xs)
          (con "literal" ys)
          (meet_literal (con "literal" xs) (con "literal" ys))
  unfolding meet_literal
  literal-Below xs ys = by_test (same (nth 0 xs) (nth 0 ys)) refl
    where
      by_test :
          (b : Bool)
          → same (nth 0 xs) (nth 0 ys) ≡ b
          → Below PlainOne holds
              (con "literal" xs)
              (con "literal" ys)
              (if b then merged (con "literal" xs) else contradiction)
      by_test true h = flat_tight "literal" xs xs ys refl (flat refl refl) λ e. (
        e,
        flat_ok-literal matches ys v
            ∙ same_trans (nth 0 xs) v (nth 0 ys) (sym (flat_ok-literal matches xs v) ∙ e) h,
      )
      by_test false h = clash

  pub min-Below :
      (xs ys : Values)
      → Below PlainOne holds (con "min" xs) (con "min" ys) (meet_min (con "min" xs) (con "min" ys))
  unfolding meet_min flat_ok
  min-Below xs ys = by_args (nth 0 xs) (nth 0 ys) refl refl
    where
      least :
          (a b : ℤ) (u : Value)
          → nth 0 xs ≡ num a
          → nth 0 ys ≡ num b
          → flat_ok matches "min" (cons (num (larger a b)) nil) u ≡ true
          → (flat_ok matches "min" xs u ≡ true) × (flat_ok matches "min" ys u ≡ true)
      least a b (num n) p q h = ground arith
      least a b (str s) p q h = (refl, refl)
      least a b (ref i (arr vs)) p q h = (refl, refl)
      least a b u p q h = (refl, refl)

      by_args :
          (x y : Value)
          → nth 0 xs ≡ x
          → nth 0 ys ≡ y
          → Below PlainOne holds (con "min" xs) (con "min" ys) (meet_number larger "min" x y)
      by_args (num a) (num b) p q =
          flat_tight "min" (cons (num (larger a b)) nil) xs ys refl (flat refl refl)
            (least a b v p q)
      by_args x y p q = apart

  pub max-Below :
      (xs ys : Values)
      → Below PlainOne holds (con "max" xs) (con "max" ys) (meet_max (con "max" xs) (con "max" ys))
  unfolding meet_max flat_ok
  max-Below xs ys = by_args (nth 0 xs) (nth 0 ys) refl refl
    where
      greatest :
          (a b : ℤ) (u : Value)
          → nth 0 xs ≡ num a
          → nth 0 ys ≡ num b
          → flat_ok matches "max" (cons (num (smaller a b)) nil) u ≡ true
          → (flat_ok matches "max" xs u ≡ true) × (flat_ok matches "max" ys u ≡ true)
      greatest a b (num n) p q h = ground arith
      greatest a b (str s) p q h = (refl, refl)
      greatest a b (ref i (arr vs)) p q h = (refl, refl)
      greatest a b u p q h = (refl, refl)

      by_args :
          (x y : Value)
          → nth 0 xs ≡ x
          → nth 0 ys ≡ y
          → Below PlainOne holds (con "max" xs) (con "max" ys) (meet_number smaller "max" x y)
      by_args (num a) (num b) p q =
          flat_tight "max" (cons (num (smaller a b)) nil) xs ys refl (flat refl refl)
            (greatest a b v p q)
      by_args x y p q = apart

  pub opposite-Below :
      (a b : Constraint) (lo hi : Value) → Below PlainOne holds a b (meet_opposite lo hi)
  unfolding meet_opposite
  opposite-Below a b lo hi = by_test (is_crossed lo hi)
    where
      by_test : (t : Bool) → Below PlainOne holds a b (if t then contradiction else independent)
      by_test true = clash
      by_test false = apart

  pub pattern-Below :
      (xs ys : Values)
      → Below PlainOne holds
          (con "pattern" xs)
          (con "pattern" ys)
          (meet_pattern (con "pattern" xs) (con "pattern" ys))
  unfolding meet_pattern flat_ok
  pattern-Below xs ys = by_test (same (nth 0 xs) (nth 0 ys)) refl
    where
      alike :
          (u x y : Value)
          → same x y ≡ true
          → flat_ok matches "pattern" (cons x nil) u ≡ true
          → flat_ok matches "pattern" (cons y nil) u ≡ true
      alike (str s) (str p) (str q) h e = ground (arith, eq_iff p q)
      alike (str s) x (str q) h e = absurd (ground arith)
      alike (str s) x y h e = refl
      alike (num n) x y h e = refl
      alike (ref i (arr vs)) x y h e = refl
      alike u x y h e = refl

      first_only :
          (u : Value) (zs : Values)
          → flat_ok matches "pattern" zs u ≡ flat_ok matches "pattern" (cons (nth 0 zs) nil) u
      first_only (str s) zs = refl
      first_only (num n) zs = refl
      first_only (ref i (arr vs)) zs = refl
      first_only u zs = refl

      by_test :
          (b : Bool)
          → same (nth 0 xs) (nth 0 ys) ≡ b
          → Below PlainOne holds
              (con "pattern" xs)
              (con "pattern" ys)
              (if b then merged (con "pattern" xs) else independent)
      by_test true h =
          flat_tight "pattern" xs xs ys refl (flat refl refl)
            λ e. (e, first_only v ys ∙ alike v (nth 0 xs) (nth 0 ys) h (sym (first_only v xs) ∙ e))
      by_test false h = apart
