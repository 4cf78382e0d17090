-- ===== src/Compose/Lower/Length.antt =====
-- src/compose.ts, `pairHandlers`: the rows of `length`, `arrayLength` and `range`.
use sequence.Prelude.{String, Bool, true, false, ◌≡◌, refl, arith, if◌then◌else◌, length}
use sequence.Lang.{nth, Value, undefined, num, str, ref, arr, Values, nil, cons, con, values}
use sequence.Lang.Int.{ℤ, pos, ltb_ℤ}
use sequence.Compose.Bounds.{larger, smaller}
use sequence.Compose.Meet.{contradiction, merged}
use sequence.Compose.Pairs.{tighter, is_crossed, ranged, both_numbers, meet_range, meet_length}
use sequence.Compose.Check.{flat_ok, text_size, below, outside}
use sequence.Compose.Lower.{PlainOne, flat, bounded, is_bound, is_bounded}
use sequence.Compose.Lower.Merge.{Below, clash, apart}
use sequence.Compose.Lower.Pair.{holds, flat_tight}

tighter-is_bound :
    (f : ℤ → ℤ → ℤ) (x y : Value)
    → is_bound x ≡ true
    → is_bound y ≡ true
    → is_bound (tighter f x y) ≡ true
tighter-is_bound f (num a) (num b) h k = refl
tighter-is_bound f (num a) undefined h k = refl
tighter-is_bound f undefined y h k = k
tighter-is_bound f x y h k = absurd (ground arith)

tighter-bounded :
    (xs ys : Values)
    → is_bounded xs ≡ true
    → is_bounded ys ≡ true
    → is_bounded (
        cons
          (tighter larger (nth 0 xs) (nth 0 ys))
          (cons (tighter smaller (nth 1 xs) (nth 1 ys)) nil))
      ≡ true
tighter-bounded xs ys h k =
    let lo = tighter-is_bound larger (nth 0 xs) (nth 0 ys) (ground arith) (ground arith) in
    let hi = tighter-is_bound smaller (nth 1 xs) (nth 1 ys) (ground arith) (ground arith) in
    ground arith

module _ (matches : String → String → Bool) (v : Value) where
  tighter-larger :
      (x y : Value) (n : ℤ)
      → is_bound x ≡ true
      → is_bound y ≡ true
      → below (num n) (tighter larger x y) ≡ false
      → (below (num n) x ≡ false) × (below (num n) y ≡ false)
  tighter-larger (num a) (num b) n h k e = ground arith
  tighter-larger (num a) undefined n h k e = (e, refl)
  tighter-larger undefined y n h k e = (refl, e)
  tighter-larger x y n h k e = absurd (ground arith)

  tighter-smaller :
      (x y : Value) (n : ℤ)
      → is_bound x ≡ true
      → is_bound y ≡ true
      → below (tighter smaller x y) (num n) ≡ false
      → (below x (num n) ≡ false) × (below y (num n) ≡ false)
  tighter-smaller (num a) (num b) n h k e = ground arith
  tighter-smaller (num a) undefined n h k e = (e, refl)
  tighter-smaller undefined y n h k e = (refl, e)
  tighter-smaller x y n h k e = absurd (ground arith)

  inside :
      (xs ys : Values) (n : ℤ)
      → is_bounded xs ≡ true
      → is_bounded ys ≡ true
      → outside
          (tighter larger (nth 0 xs) (nth 0 ys))
          (tighter smaller (nth 1 xs) (nth 1 ys))
          (num n)
        ≡ false
      → (outside (nth 0 xs) (nth 1 xs) (num n) ≡ false)
        × (outside (nth 0 ys) (nth 1 ys) (num n) ≡ false)
  inside xs ys n h k e =
      let lo =
        tighter-larger (nth 0 xs) (nth 0 ys) n (ground arith) (ground arith) (ground arith) in
      let hi =
        tighter-smaller (nth 1 xs) (nth 1 ys) n (ground arith) (ground arith) (ground arith) in
      ground arith

  pub length-Below :
      (xs ys : Values)
      → is_bounded xs ≡ true
      → is_bounded ys ≡ true
      → Below PlainOne
          (holds matches v)
          (con "length" xs)
          (con "length" ys)
          (meet_length "length" (con "length" xs) (con "length" ys))
  unfolding meet_length flat_ok
  length-Below xs ys h k = by_test (is_crossed lo hi)
    where
      lo : Value
      lo = tighter larger (nth 0 xs) (nth 0 ys)

      hi : Value
      hi = tighter smaller (nth 1 xs) (nth 1 ys)

      within :
          (u : Value)
          → flat_ok matches "length" (cons lo (cons hi nil)) u ≡ true
          → (flat_ok matches "length" xs u ≡ true) × (flat_ok matches "length" ys u ≡ true)
      within (str s) e =
          let both = inside xs ys (pos (text_size s)) h k (ground arith) in ground arith
      within (num n) e = (refl, refl)
      within (ref i (arr vs)) e = (refl, refl)
      within u e = (refl, refl)

      by_test :
          (t : Bool)
          → Below PlainOne
              (holds matches v)
              (con "length" xs)
              (con "length" ys)
              (if t then contradiction else merged (con "length" (cons lo (cons hi nil))))
      by_test true = clash
      by_test false =
          flat_tight matches v "length" (cons lo (cons hi nil)) xs ys refl
            (bounded refl (tighter-bounded xs ys h k)) (within v)

  pub array_length-Below :
      (xs ys : Values)
      → is_bounded xs ≡ true
      → is_bounded ys ≡ true
      → Below PlainOne
          (holds matches v)
          (con "arrayLength" xs)
          (con "arrayLength" ys)
          (meet_length "arrayLength" (con "arrayLength" xs) (con "arrayLength" ys))
  unfolding meet_length flat_ok
  array_length-Below xs ys h k = by_test (is_crossed lo hi)
    where
      lo : Value
      lo = tighter larger (nth 0 xs) (nth 0 ys)

      hi : Value
      hi = tighter smaller (nth 1 xs) (nth 1 ys)

      within :
          (u : Value)
          → flat_ok matches "arrayLength" (cons lo (cons hi nil)) u ≡ true
          → (flat_ok matches "arrayLength" xs u ≡ true)
            × (flat_ok matches "arrayLength" ys u ≡ true)
      within (str s) e = (refl, refl)
      within (num n) e = (refl, refl)
      within (ref i (arr vs)) e =
          let both = inside xs ys (pos (length (values vs))) h k (ground arith) in ground arith
      within u e = (refl, refl)

      by_test :
          (t : Bool)
          → Below PlainOne
              (holds matches v)
              (con "arrayLength" xs)
              (con "arrayLength" ys)
              (if t then contradiction else merged (con "arrayLength" (cons lo (cons hi nil))))
      by_test true = clash
      by_test false =
          flat_tight matches v "arrayLength" (cons lo (cons hi nil)) xs ys refl
            (bounded refl (tighter-bounded xs ys h k)) (within v)

  pub range-Below :
      (xs ys : Values)
      → Below PlainOne
          (holds matches v)
          (con "range" xs)
          (con "range" ys)
          (meet_range (con "range" xs) (con "range" ys))
  unfolding meet_range flat_ok
  range-Below xs ys = by_args (nth 0 xs) (nth 0 ys) (nth 1 xs) (nth 1 ys) refl refl refl refl
    where
      within :
          (a b c d : ℤ) (u : Value)
          → nth 0 xs ≡ num a
          → nth 0 ys ≡ num b
          → nth 1 xs ≡ num c
          → nth 1 ys ≡ num d
          → flat_ok matches "range" (cons (num (larger a b)) (cons (num (smaller c d)) nil)) u
            ≡ true
          → (flat_ok matches "range" xs u ≡ true) × (flat_ok matches "range" ys u ≡ true)
      within a b c d (num n) p q r t h = ground arith
      within a b c d (str s) p q r t h = (refl, refl)
      within a b c d (ref i (arr vs)) p q r t h = (refl, refl)
      within a b c d u p q r t h = (refl, refl)

      by_test :
          (a b c d : ℤ) (z : Bool)
          → nth 0 xs ≡ num a
          → nth 0 ys ≡ num b
          → nth 1 xs ≡ num c
          → nth 1 ys ≡ num d
          → Below PlainOne (holds matches v) (con "range" xs) (con "range" ys) (
              if z
              then contradiction
              else merged (con "range" (cons (num (larger a b)) (cons (num (smaller c d)) nil))))
      by_test a b c d true p q r t = clash
      by_test a b c d false p q r t =
          flat_tight matches v "range" (cons (num (larger a b)) (cons (num (smaller c d)) nil)) xs
            ys refl (flat refl refl) (within a b c d v p q r t)

      by_args :
          (x y x' y' : Value)
          → nth 0 xs ≡ x
          → nth 0 ys ≡ y
          → nth 1 xs ≡ x'
          → nth 1 ys ≡ y'
          → Below PlainOne
              (holds matches v)
              (con "range" xs)
              (con "range" ys)
              (ranged (both_numbers larger x y) (both_numbers smaller x' y'))
      by_args (num a) (num b) (num c) (num d) p q r t =
          by_test a b c d (ltb_ℤ (smaller c d) (larger a b)) p q r t
      by_args (num a) (num b) x' y' p q r t = apart
      by_args x y x' y' p q r t = apart
