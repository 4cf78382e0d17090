-- ===== src/Space/Relations.antt =====
-- src-v2/relations.ts: `withinMax` and `reachedMin`, through `check`. A finite number is an integer; the three
-- numbers that are not finite are their own cases.
use sequence.Prelude.{String, Bool, true, false, ◌≡◌, [], ◌∷◌, arith, ◌↔◌}
use sequence.Lang.{number, num, nil, cons, con, end, from_list, ty}
use sequence.Lang.Int.{ℤ, leb_ℤ}
use sequence.Compose.Check.{check}

-- A number of the platform.
pub data Number : Type 0 where
  finite : ℤ → Number
  not_a_number infinity minus_infinity : Number

module _ (matches : String → String → Bool) where
  -- where `Number.isFinite` fails for either number, both deny
  unfoldable pub within_max : Number → Number → Bool
  unfolding check
  within_max (finite value) (finite limit) =
      check matches (ty number (from_list (con "max" (cons (num limit) nil) ∷ [])) end) (num value)
  within_max _ _ = false

  unfoldable pub reached_min : Number → Number → Bool
  unfolding check
  reached_min (finite value) (finite threshold) =
      check matches (ty number (from_list (con "min" (cons (num threshold) nil) ∷ [])) end)
        (num value)
  reached_min _ _ = false

  -- One number is at most another, and both are finite.
  pub data AtMost : Number → Number → Type 0 where
    at_most : (a b : ℤ) → leb_ℤ a b ≡ true → AtMost (finite a) (finite b)

  within_max-AtMost : (value limit : Number) → (within_max value limit ≡ true) ↔ AtMost value limit
  unfolding within_max check
  within_max-AtMost value limit = (forth value limit, back value limit)
    where
      forth : (v l : Number) → within_max v l ≡ true → AtMost v l
      forth (finite v) (finite l) h = at_most v l (ground arith)
      forth (finite v) not_a_number h = absurd (ground arith)
      forth (finite v) infinity h = absurd (ground arith)
      forth (finite v) minus_infinity h = absurd (ground arith)
      forth not_a_number l h = absurd (ground arith)
      forth infinity l h = absurd (ground arith)
      forth minus_infinity l h = absurd (ground arith)

      back : (v l : Number) → AtMost v l → within_max v l ≡ true
      back _ _ (at_most v l h) = ground arith

  reached_min-AtMost :
      (value threshold : Number) → (reached_min value threshold ≡ true) ↔ AtMost threshold value
  unfolding reached_min check
  reached_min-AtMost value threshold = (forth value threshold, back value threshold)
    where
      forth : (v l : Number) → reached_min v l ≡ true → AtMost l v
      forth (finite v) (finite l) h = at_most l v (ground arith)
      forth (finite v) not_a_number h = absurd (ground arith)
      forth (finite v) infinity h = absurd (ground arith)
      forth (finite v) minus_infinity h = absurd (ground arith)
      forth not_a_number l h = absurd (ground arith)
      forth infinity l h = absurd (ground arith)
      forth minus_infinity l h = absurd (ground arith)

      back : (v l : Number) → AtMost l v → reached_min v l ≡ true
      back _ _ (at_most l v h) = ground arith

  -- A value is within a limit exactly when both are finite and the value is at most the limit, and has reached
  -- a threshold exactly when both are finite and the threshold is at most the value: any other pair is denied.
  pub within_max-reached_min :
      (value bound : Number)
      → ((within_max value bound ≡ true) ↔ AtMost value bound)
        × ((reached_min value bound ≡ true) ↔ AtMost bound value)
  within_max-reached_min value bound =
      (within_max-AtMost value bound, reached_min-AtMost value bound)
