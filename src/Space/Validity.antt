-- ===== src/Space/Validity.antt =====
-- src-v2/validity.ts: `timeHorizon`, the latest instant at which a constraint may hold.
use sequence.Prelude.{
  String, Bool, true, false, ◌&&◌, ◌||◌, ◌≡◌, refl, ◌==◌, if◌then◌else◌, Option, none, some, arith,
}
use sequence.Lang.{
  Value, num, str, ref, constraint_of, Values, nil, cons, Constraint, con, nth, same,
}
use sequence.Lang.Int.{ℤ, ltb_ℤ, leb_ℤ}

-- a bound that is a number
abbrev number_bound : Value → Option ℤ
number_bound (num n) = some n
number_bound _ = none

-- the earlier of two horizons, where there may be none
abbrev pub earlier : Option ℤ → Option ℤ → Option ℤ
earlier h none = h
earlier none (some k) = some k
earlier (some h) (some k) = if ltb_ℤ k h then some k else some h

abbrev pub is_bound_op : String → Bool
is_bound_op op = op == "lte" || op == "lt"

abbrev pub is_now : Value → Bool
is_now v = same v (str "$now")

unfoldable mutual
  pub time_horizon : Constraint → Option ℤ
  time_horizon (con op args) =
      let members = horizon_of_all none args in
      if is_bound_op op && is_now (nth 0 args)
      then number_bound (nth 1 args)
      else if op == "and_clause"
      then members
      else none

  -- the loop over the members of a conjunction, with the earliest horizon so far
  pub horizon_of_all : Option ℤ → Values → Option ℤ
  horizon_of_all least nil = least
  horizon_of_all least (cons v vs) = horizon_of_all (earlier least (horizon_of v)) vs

  pub horizon_of : Value → Option ℤ
  horizon_of (ref i (constraint_of c)) = time_horizon c
  horizon_of _ = none

abbrev bound_holds : String → Value → ℤ → Bool
bound_holds op (num n) t = if op == "lte" then leb_ℤ t n else ltb_ℤ t n
bound_holds op _ t = true

and_parts : (p q : Bool) → (p && q) ≡ true → (p ≡ true) × (q ≡ true)
and_parts true q h = (refl, h)
and_parts false q h = absurd (ground arith)

-- What a constraint says at an instant, where the bounds on the time and the conjunctions are read, and
-- each other constraint says what it will.
module _ (says : String → Values → ℤ → Bool) where
  unfoldable mutual
    pub holds_at : Constraint → ℤ → Bool
    holds_at (con op args) t =
        let all = all_hold_at args t in
        if is_bound_op op && is_now (nth 0 args)
        then bound_holds op (nth 1 args) t
        else if op == "and_clause"
        then all
        else says op args t

    pub all_hold_at : Values → ℤ → Bool
    all_hold_at nil t = true
    all_hold_at (cons v vs) t = member_holds_at v t && all_hold_at vs t

    pub member_holds_at : Value → ℤ → Bool
    member_holds_at (ref i (constraint_of c)) t = holds_at c t
    member_holds_at _ t = true

  -- no later than a horizon, if there is one
  abbrev pub Until : ℤ → Option ℤ → Type 0
  Until t none = Unit
  Until t (some n) = leb_ℤ t n ≡ true

  earlier-Until : (t : ℤ) (h k : Option ℤ) → Until t h → Until t k → Until t (earlier h k)
  earlier-Until t h none p q = p
  earlier-Until t none (some k) p q = q
  earlier-Until t (some h) (some k) p q = by_test (ltb_ℤ k h)
    where
      by_test : (b : Bool) → Until t (if b then some k else some h)
      by_test true = q
      by_test false = p

  number_bound-Until :
      (op : String) (v : Value) (t : ℤ) → bound_holds op v t ≡ true → Until t (number_bound v)
  number_bound-Until op (num n) t h = by_test (op == "lte") h
    where
      by_test : (b : Bool) → (if b then leb_ℤ t n else ltb_ℤ t n) ≡ true → leb_ℤ t n ≡ true
      by_test true e = e
      by_test false e = ground arith
  number_bound-Until op v t h = tt

  mutual
    unfolding time_horizon horizon_of_all horizon_of holds_at all_hold_at member_holds_at

    horizon-Until : (c : Constraint) (t : ℤ) → holds_at c t ≡ true → Until t (time_horizon c)
    horizon-Until (con op args) t h =
        by_tests (is_bound_op op && is_now (nth 0 args)) (op == "and_clause") h
          (number_bound-Until op (nth 1 args) t) (all-Until none args t tt)
      where
        by_tests :
            (x y : Bool)
            → (if x
                then bound_holds op (nth 1 args) t
                else if y
                then all_hold_at args t
                else says op args t)
              ≡ true
            → (bound_holds op (nth 1 args) t ≡ true → Until t (number_bound (nth 1 args)))
            → (all_hold_at args t ≡ true → Until t (horizon_of_all none args))
            → Until t (
                if x
                then number_bound (nth 1 args)
                else if y
                then horizon_of_all none args
                else none)
        by_tests true y e f g = f e
        by_tests false true e f g = g e
        by_tests false false e f g = tt

    all-Until :
        (least : Option ℤ) (vs : Values) (t : ℤ)
        → Until t least
        → all_hold_at vs t ≡ true
        → Until t (horizon_of_all least vs)
    all-Until least nil t p h = p
    all-Until least (cons v vs) t p h =
        let both = and_parts (member_holds_at v t) (all_hold_at vs t) h in
        all-Until (earlier least (horizon_of v)) vs t
          (earlier-Until t least (horizon_of v) p (member-Until v t both.0)) both.1

    member-Until : (v : Value) (t : ℤ) → member_holds_at v t ≡ true → Until t (horizon_of v)
    member-Until (ref i (constraint_of c)) t h = horizon-Until c t h
    member-Until v t h = tt

-- A constraint holds at no instant after its horizon, whatever the constraints that are no bounds on the time
-- and no conjunctions say.
pub time_horizon-Until :
    (says : String → Values → ℤ → Bool) (c : Constraint) (t : ℤ)
    → holds_at says c t ≡ true
    → Until says t (time_horizon c)
time_horizon-Until says c t h = horizon-Until says c t h
