-- ===== src/Compose/Bounds.antt =====
-- src/compose.ts: the constraints of numbers by their bounds, as `min`, `max` and `range` of src/type.ts
-- make them: their pair handlers, their checks, and the check for contradictions of a number.
use sequence.Prelude.{
  Bool, true, false, not, ◌&&◌, ◌||◌, ◌≡◌, refl, List, [], ◌∷◌, Option, arith, any, every,
  if◌then◌else◌,
}
use sequence.Lang.Int.{ℤ, ltb_ℤ}
use sequence.Compose.Meet.{
  Meet, contradiction, merged, independent, Agrees, Denotes, compose_constraints,
  compose_constraints-Denotes,
}

pub data Bound : Type 0 where
  min : ℤ → Bound
  max : ℤ → Bound
  range : ℤ → ℤ → Bound

-- `Math.max` and `Math.min`
abbrev pub larger : ℤ → ℤ → ℤ
larger a b = if ltb_ℤ a b then b else a

abbrev pub smaller : ℤ → ℤ → ℤ
smaller a b = if ltb_ℤ b a then b else a

-- the rows of `pairHandlers`, where the ops are compatible
unfoldable pub meet_bound : Bound → Bound → Meet Bound
meet_bound (min a) (min b) = merged (min (larger a b))
meet_bound (min a) (max b) = if ltb_ℤ b a then contradiction else independent
meet_bound (max a) (max b) = merged (max (smaller a b))
meet_bound (max a) (min b) = if ltb_ℤ a b then contradiction else independent
meet_bound (range a b) (range c d) =
    if ltb_ℤ (smaller b d) (larger a c)
    then contradiction
    else merged (range (larger a c) (smaller b d))
meet_bound _ _ = independent

-- the rows of `checkHandlers`, at a number
unfoldable pub admits : ℤ → Bound → Bool
admits v (min a) = not (ltb_ℤ v a)
admits v (max a) = not (ltb_ℤ a v)
admits v (range a b) = not (ltb_ℤ v a || ltb_ℤ b v)

abbrev above_max : ℤ → Bound → Bool
above_max a (max b) = ltb_ℤ b a
above_max a _ = false

-- `detectContradiction` for a number: a `min` above a `max`
unfoldable pub crossed_with : List Bound → List Bound → Bool
crossed_with all [] = false
crossed_with all (min a ∷ bs) = any (above_max a) all || crossed_with all bs
crossed_with all (_ ∷ bs) = crossed_with all bs

unfoldable pub crossed : List Bound → Bool
unfolding crossed_with
crossed bs = crossed_with bs bs

unfoldable pub compose_bounds : List Bound → List Bound → Option (List Bound)
unfolding compose_constraints meet_bound crossed
compose_bounds = compose_constraints meet_bound crossed

module _ (v : ℤ) where
  meet_bound-Agrees : (a b : Bound) → Agrees (admits v) a b (meet_bound a b)
  unfolding meet_bound admits
  meet_bound-Agrees (min a) (min b) = ground arith
  meet_bound-Agrees (min a) (max b) = by_test (ltb_ℤ b a) refl
    where
      by_test :
          (t : Bool)
          → ltb_ℤ b a ≡ t
          → Agrees (admits v) (min a) (max b) (if t then contradiction else independent)
      by_test true h = ground arith
      by_test false h = tt
  meet_bound-Agrees (max a) (max b) = ground arith
  meet_bound-Agrees (max a) (min b) = by_test (ltb_ℤ a b) refl
    where
      by_test :
          (t : Bool)
          → ltb_ℤ a b ≡ t
          → Agrees (admits v) (max a) (min b) (if t then contradiction else independent)
      by_test true h = ground arith
      by_test false h = tt
  meet_bound-Agrees (range a b) (range c d) = by_test (ltb_ℤ (smaller b d) (larger a c)) refl
    where
      by_test :
          (t : Bool)
          → ltb_ℤ (smaller b d) (larger a c) ≡ t
          → Agrees
              (admits v)
              (range a b)
              (range c d)
              (if t then contradiction else merged (range (larger a c) (smaller b d)))
      by_test true h = ground arith
      by_test false h = ground arith
  meet_bound-Agrees (min a) (range c d) = tt
  meet_bound-Agrees (max a) (range c d) = tt
  meet_bound-Agrees (range c d) (min a) = tt
  meet_bound-Agrees (range c d) (max a) = tt

  any-above_max :
      (a : ℤ) (bs : List Bound)
      → any (above_max a) bs ≡ true
      → (admits v (min a) && every (admits v) bs) ≡ false
  unfolding admits
  any-above_max a [] h = absurd (ground arith)
  any-above_max a (max b ∷ bs) h = let ih = any-above_max a bs in ground arith
  any-above_max a (min b ∷ bs) h = let ih = any-above_max a bs h in ground arith
  any-above_max a (range b c ∷ bs) h = let ih = any-above_max a bs h in ground arith

  crossed_with-empty :
      (all bs : List Bound)
      → crossed_with all bs ≡ true
      → (every (admits v) bs && every (admits v) all) ≡ false
  unfolding crossed_with
  crossed_with-empty all [] h = absurd (ground arith)
  crossed_with-empty all (min a ∷ bs) h =
      let here = any-above_max a all in let ih = crossed_with-empty all bs in ground arith
  crossed_with-empty all (max a ∷ bs) h = let ih = crossed_with-empty all bs h in ground arith
  crossed_with-empty all (range a b ∷ bs) h = let ih = crossed_with-empty all bs h in ground arith

  crossed-empty : (bs : List Bound) → crossed bs ≡ true → every (admits v) bs ≡ false
  unfolding crossed
  crossed-empty bs h = let both = crossed_with-empty bs bs h in ground arith

-- The composition of two lists of bounds admits a number exactly when both lists admit it, and is
-- `never` only where no number is admitted by both.
pub compose_bounds-Denotes :
    (v : ℤ) (xs ys : List Bound)
    → Denotes (admits v) (every (admits v) xs && every (admits v) ys) (compose_bounds xs ys)
unfolding compose_bounds
compose_bounds-Denotes v xs ys =
    compose_constraints-Denotes meet_bound (admits v) (meet_bound-Agrees v) crossed
      (crossed-empty v) xs ys
