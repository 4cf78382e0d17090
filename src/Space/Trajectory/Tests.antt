-- ===== src/Space/Trajectory/Tests.antt =====
-- The theorem on src-v2/trajectory.ts at two tools, of which one has a trend.
use sequence.Prelude.{
  String, true, false, ◌==◌, ◌≡◌, refl, [], ◌∷◌, Option, none, some, if◌then◌else◌,
}
use sequence.Lang.Int.{ℤ, pos, ◌+ℤ◌, eq_ℤ}
use sequence.Space.Trajectory.{Trend, Arithmetic, trajectory, expiry_from_trajectory}
use sequence.Space.Trajectory.Earliest.{Honest, expiry_from_trajectory-Honest}

-- a slope is a number of milliseconds until the tolerance is left
abbrev steps : Arithmetic ℤ
unfolding ◌+ℤ◌
steps = record {
  moves = λ slope. if eq_ℤ slope (pos 0) then false else true;
  leaves_at = λ relative tolerance t. t.at +ℤ t.slope_per_hour;
}

abbrev drifting : Trend ℤ
drifting = record { mean = pos 1; at = pos 100; slope_per_hour = pos 70000; samples = 5 }

abbrev trends : String → Option (Trend ℤ)
trends path = if path == "b._prior.latencyTrend" then some drifting else none

bound_by_b :
    expiry_from_trajectory steps trends (pos 100) (pos 90000) (pos 1) ("a" ∷ "b" ∷ [])
    ≡ trajectory (pos 70100) "b" (pos 70000) (pos 1)
unfolding expiry_from_trajectory steps ◌+ℤ◌
bound_by_b = refl

expiry_from_trajectory-Honest_example :
    Honest steps trends
      (pos 100)
      (pos 90000)
      (pos 1)
      ("a" ∷ "b" ∷ [])
      (expiry_from_trajectory steps trends (pos 100) (pos 90000) (pos 1) ("a" ∷ "b" ∷ []))
expiry_from_trajectory-Honest_example =
    expiry_from_trajectory-Honest steps trends (pos 100) (pos 90000) (pos 1) ("a" ∷ "b" ∷ [])
