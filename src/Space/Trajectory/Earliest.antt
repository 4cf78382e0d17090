-- ===== src/Space/Trajectory/Earliest.antt =====
-- src-v2/trajectory.ts: the expiry is the earliest moment at which a trend leaves its tolerance.
use sequence.Prelude.{
  String, Bool, true, false, not, ◌||◌, ◌≡◌, refl, Option, none, some, List, [], ◌∷◌, ◌⊹◌,
  if◌then◌else◌, arith, has, subst, sym, All, ltb, ◌==◌, eq_refl,
}
use sequence.Prelude.Bools.{or_left, or_right}
use sequence.Lang.Int.{ℤ, pos, ltb_ℤ, leb_ℤ, ◌+ℤ◌}
use sequence.Space.Trajectory.{
  Trend, ExpiryBasis, trajectory, ceiling, Candidate, larger, smaller, Arithmetic, clipped,
  candidate, better, better_of_tool, best_of, expiry_from_trajectory,
}

leb_ℤ_trans : (a b c : ℤ) → leb_ℤ a b ≡ true → leb_ℤ b c ≡ true → leb_ℤ a c ≡ true
leb_ℤ_trans a b c h g = ground arith

leb_ℤ_refl : (a : ℤ) → leb_ℤ a a ≡ true
leb_ℤ_refl a = ground arith

leb_ℤ_of_ltb : (a b : ℤ) → ltb_ℤ a b ≡ true → leb_ℤ a b ≡ true
leb_ℤ_of_ltb a b h = ground arith

leb_ℤ_of_not : (a b : ℤ) → ltb_ℤ a b ≡ false → leb_ℤ b a ≡ true
leb_ℤ_of_not a b h = ground arith

ltb_ℤ_of_not : (a b : ℤ) → leb_ℤ a b ≡ false → ltb_ℤ b a ≡ true
ltb_ℤ_of_not a b h = ground arith

larger-leb_ℤ : (a b : ℤ) → leb_ℤ a (larger a b) ≡ true
larger-leb_ℤ a b = by_test (leb_ℤ a b) refl
  where
    by_test : (x : Bool) → leb_ℤ a b ≡ x → leb_ℤ a (if x then b else a) ≡ true
    by_test true e = e
    by_test false e = leb_ℤ_refl a

module _ {Num : Type 0} (arithmetic : Arithmetic Num) (trend_at : String → Option (Trend Num))
    (now : ℤ) (ceiling_ms : ℤ) (tolerance : Num) where
  -- the candidate of a trend of a tool
  abbrev pub of_trend : String → Bool → Option (Candidate Num)
  of_trend tool relative =
      candidate arithmetic trend_at now ceiling_ms tolerance tool relative (
        trend_at (tool ⊹ (if relative then "._prior.latencyTrend" else "._prior.reliabilityTrend")))

  -- no candidate lies before a moment
  abbrev pub NotBefore : ℤ → Option (Candidate Num) → Type 0
  NotBefore t none = Unit
  NotBefore t (some c) = leb_ℤ t c.expires_at ≡ true

  -- where the best candidate so far lies before another
  abbrev Best : Option (Candidate Num) → Option (Candidate Num) → Type 0
  Best best none = Unit
  Best none (some c) = ⊥
  Best (some b) (some c) = leb_ℤ b.expires_at c.expires_at ≡ true

  Best-trans : (o p q : Option (Candidate Num)) → Best o p → Best p q → Best o q
  Best-trans o p none h g = tt
  Best-trans o none (some c) h g = absurd g
  Best-trans none (some b) (some c) h g = absurd h
  Best-trans (some a) (some b) (some c) h g = leb_ℤ_trans a.expires_at b.expires_at c.expires_at h g

  Best-better :
      (o p : Option (Candidate Num))
      → Best (better arithmetic trend_at now ceiling_ms tolerance o p) o
        × Best (better arithmetic trend_at now ceiling_ms tolerance o p) p
  unfolding better
  Best-better none none = (tt, tt)
  Best-better (some b) none = (leb_ℤ_refl b.expires_at, tt)
  Best-better none (some c) = (tt, leb_ℤ_refl c.expires_at)
  Best-better (some b) (some c) = by_test (ltb_ℤ c.expires_at b.expires_at) refl
    where
      by_test :
          (x : Bool)
          → ltb_ℤ c.expires_at b.expires_at ≡ x
          → Best (if x then some c else some b) (some b)
            × Best (if x then some c else some b) (some c)
      by_test true e = (leb_ℤ_of_ltb c.expires_at b.expires_at e, leb_ℤ_refl c.expires_at)
      by_test false e = (leb_ℤ_refl b.expires_at, leb_ℤ_of_not c.expires_at b.expires_at e)

  best_of-Best :
      (best : Option (Candidate Num)) (tools : List String)
      → Best (best_of arithmetic trend_at now ceiling_ms tolerance best tools) best
        × All
            (λ tool.
              Best
                (best_of arithmetic trend_at now ceiling_ms tolerance best tools)
                (of_trend tool false)
              × Best
                  (best_of arithmetic trend_at now ceiling_ms tolerance best tools)
                  (of_trend tool true))
            tools
  unfolding best_of better_of_tool
  best_of-Best none [] = (tt, tt)
  best_of-Best (some b) [] = (leb_ℤ_refl b.expires_at, tt)
  best_of-Best best (tool ∷ tools) =
      let first = better arithmetic trend_at now ceiling_ms tolerance best (of_trend tool false) in
      let second = better arithmetic trend_at now ceiling_ms tolerance first (of_trend tool true) in
      let last = best_of arithmetic trend_at now ceiling_ms tolerance second tools in
      let one = Best-better best (of_trend tool false) in
      let two = Best-better first (of_trend tool true) in
      let rest = best_of-Best second tools in
      let before = Best-trans last second first rest.0 two.0 in
      (
        Best-trans last first best before one.0,
        (
          (
            Best-trans last first (of_trend tool false) before one.1,
            Best-trans last second (of_trend tool true) rest.0 two.1,
          ),
          rest.1,
        ),
      )

  module _ (P : Candidate Num → Type 0) where
    -- a property of the candidate, if there is one
    abbrev Holds : Option (Candidate Num) → Type 0
    Holds none = Unit
    Holds (some c) = P c

    better-Holds :
        (o p : Option (Candidate Num))
        → Holds o
        → Holds p
        → Holds (better arithmetic trend_at now ceiling_ms tolerance o p)
    unfolding better
    better-Holds none none h g = tt
    better-Holds (some b) none h g = h
    better-Holds none (some c) h g = g
    better-Holds (some b) (some c) h g = by_test (ltb_ℤ c.expires_at b.expires_at)
      where
        by_test : (x : Bool) → Holds (if x then some c else some b)
        by_test true = g
        by_test false = h

    best_of-Holds :
        (best : Option (Candidate Num)) (tools : List String)
        → Holds best
        → All (λ tool. Holds (of_trend tool false) × Holds (of_trend tool true)) tools
        → Holds (best_of arithmetic trend_at now ceiling_ms tolerance best tools)
    unfolding best_of better_of_tool
    best_of-Holds best [] h g = h
    best_of-Holds best (tool ∷ tools) h (g, gs) =
        best_of-Holds (better_of_tool arithmetic trend_at now ceiling_ms tolerance best tool) tools
          (better-Holds
            (better arithmetic trend_at now ceiling_ms tolerance best (of_trend tool false))
            (of_trend tool true) (better-Holds best (of_trend tool false) h g.0) g.1)
          gs

  -- a candidate of a trend of one of the tools, a minute ahead at least
  abbrev Ahead : List String → Candidate Num → Type 0
  Ahead tools c =
      (has c.bound_by tools ≡ true)
      × (leb_ℤ (now +ℤ pos 60000) c.expires_at ≡ true)
      × ((relative : Bool) × (of_trend c.bound_by relative ≡ some c))

  -- a candidate that a tool bounds, a minute ahead at least
  abbrev IsOf : String → Candidate Num → Type 0
  IsOf tool c = (c.bound_by ≡ tool) × (leb_ℤ (now +ℤ pos 60000) c.expires_at ≡ true)

  candidate-IsOf :
      (tool : String) (relative : Bool) (o : Option (Trend Num))
      → Holds (IsOf tool) (candidate arithmetic trend_at now ceiling_ms tolerance tool relative o)
  unfolding candidate clipped
  candidate-IsOf tool relative none = tt
  candidate-IsOf tool relative (some t) =
      by_test (ltb t.samples 3 || not (arithmetic.moves t.slope_per_hour))
    where
      end : ℤ
      end = smaller ceiling_ms (arithmetic.leaves_at relative tolerance t)

      by_test :
          (x : Bool)
          → Holds (IsOf tool) (
              if x
              then none
              else some (record {
                expires_at = larger (now +ℤ pos 60000) end;
                bound_by = tool;
                slope_per_hour = t.slope_per_hour;
              }))
      by_test true = tt
      by_test false = (refl, larger-leb_ℤ (now +ℤ pos 60000) end)

  candidate-Ahead :
      (tools : List String) (tool : String) (relative : Bool)
      → has tool tools ≡ true
      → Holds (Ahead tools) (of_trend tool relative)
  candidate-Ahead tools tool relative h =
      by_result (of_trend tool relative) refl (candidate-IsOf tool relative _)
    where
      by_result :
          (o : Option (Candidate Num))
          → of_trend tool relative ≡ o
          → Holds (IsOf tool) o
          → Holds (Ahead tools) o
      by_result none e g = tt
      by_result (some c) e (same, ahead) = (
        subst (λ k. has k tools ≡ true) (sym same) h,
        ahead,
        (relative, subst (λ k. of_trend k relative ≡ some c) (sym same) e),
      )

  all_Ahead :
      (all tools : List String)
      → ((k : String) → has k tools ≡ true → has k all ≡ true)
      → All
          (λ tool. Holds (Ahead all) (of_trend tool false) × Holds (Ahead all) (of_trend tool true))
          tools
  all_Ahead all [] h = tt
  all_Ahead all (tool ∷ tools) h =
      let here = h tool (or_left (tool == tool) (has tool tools) (eq_refl tool)) in
      (
        (candidate-Ahead all tool false here, candidate-Ahead all tool true here),
        all_Ahead all tools (λ k g. h k (or_right (tool == k) (has k tools) g)),
      )

  -- No trend of the tools leaves its tolerance before a moment.
  abbrev pub Earliest : ℤ → List String → Type 0
  Earliest t tools =
      All (λ tool. NotBefore t (of_trend tool false) × NotBefore t (of_trend tool true)) tools

  -- What an expiry promises.
  abbrev pub Honest : List String → ExpiryBasis Num → Type 0
  Honest tools (ceiling t d) = (t ≡ ceiling_ms) × (d ≡ tolerance) × Earliest t tools
  Honest tools (trajectory t tool slope d) =
      (ltb_ℤ t ceiling_ms ≡ true)
      × (leb_ℤ (now +ℤ pos 60000) t ≡ true)
      × (has tool tools ≡ true)
      × ((c : Candidate Num) × (relative : Bool) × (of_trend tool relative ≡ some c)
          × (c.expires_at ≡ t)
          × (c.slope_per_hour ≡ slope))
      × (d ≡ tolerance)
      × Earliest t tools

  Earliest-Best :
      (best : Option (Candidate Num)) (t : ℤ) (tools : List String)
      → ((c : Candidate Num) → Best best (some c) → leb_ℤ t c.expires_at ≡ true)
      → All (λ tool. Best best (of_trend tool false) × Best best (of_trend tool true)) tools
      → Earliest t tools
  Earliest-Best best t [] k h = tt
  Earliest-Best best t (tool ∷ tools) k (h, hs) = (
    (each (of_trend tool false) h.0, each (of_trend tool true) h.1),
    Earliest-Best best t tools k hs,
  )
    where
      each : (o : Option (Candidate Num)) → Best best o → NotBefore t o
      each none g = tt
      each (some c) g = k c g

  -- An expiry is the ceiling, and then no candidate lies before the ceiling; or it lies before the ceiling, at
  -- least a minute after now, and is the moment and the slope of the candidate of one of the two trends of the
  -- tool it names, which is one of the tools, and no candidate of any of the tools lies before it. Either
  -- carries the tolerance.
  pub expiry_from_trajectory-Honest :
      (tools : List String)
      → Honest tools (expiry_from_trajectory arithmetic trend_at now ceiling_ms tolerance tools)
  unfolding expiry_from_trajectory
  expiry_from_trajectory-Honest tools =
      by_best (best_of arithmetic trend_at now ceiling_ms tolerance none tools)
        (best_of-Best none tools).1
        (best_of-Holds (Ahead tools) none tools tt (all_Ahead tools tools (λ k h. h)))
    where
      by_best :
          (o : Option (Candidate Num))
          → All (λ tool. Best o (of_trend tool false) × Best o (of_trend tool true)) tools
          → Holds (Ahead tools) o
          → Honest tools (elim o [
            | none ↦ ceiling ceiling_ms tolerance
            | some b ↦
                if leb_ℤ ceiling_ms b.expires_at
                then ceiling ceiling_ms tolerance
                else trajectory b.expires_at b.bound_by b.slope_per_hour tolerance
          ])
      by_best none h g = (refl, refl, Earliest-Best none ceiling_ms tools (λ c k. absurd k) h)
      by_best (some b) h g = by_test (leb_ℤ ceiling_ms b.expires_at) refl
        where
          by_test :
              (x : Bool)
              → leb_ℤ ceiling_ms b.expires_at ≡ x
              → Honest tools (
                  if x
                  then ceiling ceiling_ms tolerance
                  else trajectory b.expires_at b.bound_by b.slope_per_hour tolerance)
          by_test true e = (
            refl,
            refl,
            Earliest-Best (some b) ceiling_ms tools
                (λ c k. leb_ℤ_trans ceiling_ms b.expires_at c.expires_at e k) h,
          )
          by_test false e =
              let (known, ahead, made) = g in
              (
                ltb_ℤ_of_not ceiling_ms b.expires_at e,
                ahead,
                known,
                (b, made.0, made.1, refl, refl),
                refl,
                Earliest-Best (some b) b.expires_at tools (λ c k. k) h,
              )
