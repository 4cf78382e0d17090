-- ===== src/Space/Trajectory.antt =====
-- src-v2/trajectory.ts: `expiryFromTrajectory`. The moment at which a trend leaves its tolerance is floating
-- point arithmetic on the trend, and is a parameter, as is the trend that is read at a path of the kernel.
pub mod Earliest
pub mod Tests
use sequence.Prelude.{
  ℕ, String, Bool, true, false, not, ◌&&◌, ◌||◌, Option, none, some, List, [], ◌∷◌, ◌⊹◌,
  if◌then◌else◌, ltb,
}
use sequence.Lang.Int.{ℤ, pos, ltb_ℤ, leb_ℤ, eq_ℤ, ◌+ℤ◌}

-- `Trend`, with its slope as a number of the platform
pub record Trend (Num : Type 0) : Type 0 where
  pub mean : Num
  pub at : ℤ
  pub slope_per_hour : Num
  pub samples : ℕ

pub data ExpiryBasis (Num : Type 0) : Type 0 where
  trajectory : ℤ → String → Num → Num → ExpiryBasis Num
  ceiling : ℤ → Num → ExpiryBasis Num

-- the candidate that is best so far
pub record Candidate (Num : Type 0) : Type 0 where
  pub expires_at : ℤ
  pub bound_by : String
  pub slope_per_hour : Num

abbrev pub larger : ℤ → ℤ → ℤ
larger a b = if leb_ℤ a b then b else a

abbrev pub smaller : ℤ → ℤ → ℤ
smaller a b = if leb_ℤ a b then a else b

-- the arithmetic on trends: whether a slope is not zero, and the moment a trend leaves its tolerance, which may
-- be relative to its mean
pub record Arithmetic (Num : Type 0) : Type 0 where
  pub moves : Num → Bool
  pub leaves_at : Bool → Num → Trend Num → ℤ

module _ {Num : Type 0} (arithmetic : Arithmetic Num) (trend_at : String → Option (Trend Num))
    (now : ℤ) (ceiling_ms : ℤ) (tolerance : Num) where
  -- clipped to the time from a minute on until the ceiling
  unfoldable pub clipped : ℤ → ℤ
  unfolding ◌+ℤ◌
  clipped t = larger (now +ℤ pos 60000) (smaller ceiling_ms t)

  -- the candidate of one trend, where it bounds the expiry
  unfoldable pub candidate : String → Bool → Option (Trend Num) → Option (Candidate Num)
  unfolding clipped
  candidate tool relative none = none
  candidate tool relative (some t) =
      if ltb t.samples 3 || not (arithmetic.moves t.slope_per_hour)
      then none
      else some (record {
        expires_at = clipped (arithmetic.leaves_at relative tolerance t);
        bound_by = tool;
        slope_per_hour = t.slope_per_hour;
      })

  unfoldable pub better : Option (Candidate Num) → Option (Candidate Num) → Option (Candidate Num)
  better best none = best
  better none (some c) = some c
  better (some b) (some c) = if ltb_ℤ c.expires_at b.expires_at then some c else some b

  -- the two trends of a tool
  unfoldable pub better_of_tool : Option (Candidate Num) → String → Option (Candidate Num)
  unfolding candidate better
  better_of_tool best tool =
      better (better best (candidate tool false (trend_at (tool ⊹ "._prior.reliabilityTrend"))))
        (candidate tool true (trend_at (tool ⊹ "._prior.latencyTrend")))

  unfoldable pub best_of : Option (Candidate Num) → List String → Option (Candidate Num)
  unfolding better_of_tool
  best_of best [] = best
  best_of best (tool ∷ tools) = best_of (better_of_tool best tool) tools

  -- `expiryFromTrajectory`
  unfoldable pub expiry_from_trajectory : List String → ExpiryBasis Num
  unfolding best_of
  expiry_from_trajectory tools = elim (best_of none tools) [
    | none ↦ ceiling ceiling_ms tolerance
    | some b ↦
        if leb_ℤ ceiling_ms b.expires_at
        then ceiling ceiling_ms tolerance
        else trajectory b.expires_at b.bound_by b.slope_per_hour tolerance
  ]
