-- ===== src/Compose/Lower/Union.antt =====
-- src/compose.ts, `composeOr`: a type composed with each branch of a union.
use sequence.Prelude.{
  All-keep, String, Bool, true, false, not, ◌&&◌, ◌||◌, ◌≡◌, refl, sym, ◌∙◌, ap, subst, List, [],
  ◌∷◌, arith, any, All, keep, map, if◌then◌else◌,
}
use sequence.Lang.{or, Value, Constraints, Ty, ty, Fields, from_list, is_never}
use sequence.Lang.Vocabulary.{constraints_with}
use sequence.Compose.Check.{check, check_each, check_one, some_branch, branch_ok, kind_ok, has_op}
use sequence.Compose.Contradiction.{Deadline}
use sequence.Compose.Lattice.{Calls, compose_or, branches, branch_accepts, union_of, branch_of}
use sequence.Compose.Lower.{Plain, PlainBranches, nothing, union, no_more, branch}
use sequence.Compose.Lower.Row.{Lower, Parts}

and_left : (p q : Bool) → (p && q) ≡ true → p ≡ true
and_left p q h = ground arith

module _ (matches : String → String → Bool) (v : Value) where
  abbrev accepts : Ty → Bool
  accepts t = check matches t v

  -- in a union, what one branch accepts
  branches-each :
      (segmented : Bool) (cs : Constraints)
      → PlainBranches cs
      → check_each matches segmented true cs v ≡ true
  unfolding check_each check_one
  branches-each s _ no_more = refl
  branches-each s _ (branch p ps) = branches-each s _ ps

  branches-some :
      (cs : Constraints) (m : Fields)
      → PlainBranches cs
      → any accepts (branches (ty or cs m)) ≡ true
      → some_branch matches cs v ≡ true
  unfolding branches constraints_with some_branch branch_ok
  branches-some _ m no_more h = h
  branches-some _ m (branch {t} {cs} p ps) h = by_test (accepts t) h (branches-some cs m ps)
    where
      by_test :
          (b : Bool)
          → (b || any accepts (branches (ty or cs m))) ≡ true
          → (any accepts (branches (ty or cs m)) ≡ true → some_branch matches cs v ≡ true)
          → (b || some_branch matches cs v) ≡ true
      by_test true h k = refl
      by_test false h k = k h

  check-union :
      (cs : Constraints) (m : Fields)
      → PlainBranches cs
      → any accepts (branches (ty or cs m)) ≡ true
      → check matches (ty or cs m) v ≡ true
  unfolding check kind_ok
  check-union cs m p h =
      subst (λ b. check_each matches (has_op "segment" cs) b cs v ≡ true)
        (sym (branches-some cs m p h)) (branches-each (has_op "segment" cs) cs p)

  some_branch-any :
      (ts : List Ty) → some_branch matches (from_list (map branch_of ts)) v ≡ any accepts ts
  unfolding some_branch branch_ok
  some_branch-any [] = refl
  some_branch-any (t ∷ ts) = ap (λ b. accepts t || b) (some_branch-any ts)

  union_of-any : (ts : List Ty) → check matches (union_of ts) v ≡ true → any accepts ts ≡ true
  unfolding check check_each check_one kind_ok some_branch branch_ok
  union_of-any [] h = h
  union_of-any (t ∷ []) h = ground arith
  union_of-any (t ∷ u ∷ ts) h =
      sym (some_branch-any (t ∷ u ∷ ts))
      ∙ and_left (some_branch matches (from_list (map branch_of (t ∷ u ∷ ts))) v)
          (check_each matches (has_op "segment" (from_list (map branch_of ts)))
            (some_branch matches (from_list (map branch_of (t ∷ u ∷ ts))) v)
            (from_list (map branch_of (u ∷ ts))) v)
          h

  module _ (misses : Deadline) (calls : Calls)
      (ih : (t u : Ty) → Plain t → Plain u → Lower matches v calls.compose t u) where
    plain_branches :
        (cs : Constraints) (m : Fields) → PlainBranches cs → All Plain (branches (ty or cs m))
    unfolding branches constraints_with
    plain_branches _ m no_more = tt
    plain_branches _ m (branch p ps) = (p, plain_branches _ m ps)

    -- the branches that accept a type, composed with it
    met : Ty → List Ty → List Ty
    met other bs =
        keep (λ t. not (is_never t))
          (map (λ b. calls.compose b other) (keep (λ b. branch_accepts misses calls b other) bs))

    met_step :
        (other b : Ty) (bs : List Ty) (x y : Bool)
        → branch_accepts misses calls b other ≡ x
        → is_never (calls.compose b other) ≡ y
        → any accepts (met other (b ∷ bs))
          ≡ any accepts (
              if x
              then (if not y then calls.compose b other ∷ met other bs else met other bs)
              else met other bs)
    unfolding met
    met_step other b bs true true h k = rw (h, k)
    met_step other b bs true false h k = rw (h, k)
    met_step other b bs false y h k = rw h

    met-any :
        (other : Ty) (bs : List Ty)
        → Plain other
        → All Plain bs
        → any accepts (met other bs) ≡ true
        → (any accepts bs ≡ true) × (accepts other ≡ true)
    unfolding met
    met-any other [] p h e = absurd (ground arith)
    met-any other (b ∷ bs) p (q, qs) e =
        by_tests (branch_accepts misses calls b other) (is_never (calls.compose b other))
          (met-any other bs p qs)
          (sym (
              met_step other b bs (branch_accepts misses calls b other)
                (is_never (calls.compose b other)) refl refl)
            ∙ e)
      where
        c : Ty
        c = calls.compose b other

        by_accept :
            (z : Bool)
            → accepts c ≡ z
            → (any accepts (met other bs) ≡ true → (any accepts bs ≡ true) × (accepts other ≡ true))
            → (z || any accepts (met other bs)) ≡ true
            → ((accepts b || any accepts bs) ≡ true) × (accepts other ≡ true)
        by_accept true f k e = let both = (ih b other q p).1 v f in (ground arith, both.1)
        by_accept false f k e = let both = k e in (ground arith, both.1)

        by_tests :
            (x y : Bool)
            → (any accepts (met other bs) ≡ true → (any accepts bs ≡ true) × (accepts other ≡ true))
            → any accepts
                (if x then (if not y then c ∷ met other bs else met other bs) else met other bs)
              ≡ true
            → ((accepts b || any accepts bs) ≡ true) × (accepts other ≡ true)
        by_tests false y k e = let both = k e in (ground arith, both.1)
        by_tests true true k e = let both = k e in (ground arith, both.1)
        by_tests true false k e = by_accept (accepts c) refl k e

    met-Plain : (other : Ty) (bs : List Ty) → Plain other → All Plain bs → All Plain (met other bs)
    unfolding met
    met-Plain other bs p h =
        All-keep Plain (λ t. not (is_never t))
          (map (λ b. calls.compose b other) (keep (λ b. branch_accepts misses calls b other) bs))
          (all_met (keep (λ b. branch_accepts misses calls b other) bs)
            (All-keep Plain (λ b. branch_accepts misses calls b other) bs h))
      where
        all_met : (bs : List Ty) → All Plain bs → All Plain (map (λ b. calls.compose b other) bs)
        all_met [] h = tt
        all_met (b ∷ bs) (q, qs) = ((ih b other q p).0, all_met bs qs)

    union_of-Plain : (ts : List Ty) → All Plain ts → Plain (union_of ts)
    union_of-Plain [] h = nothing
    union_of-Plain (t ∷ []) (h, hs) = h
    union_of-Plain (t ∷ u ∷ ts) (h, (k, hs)) = union (branch h (branch k (each ts hs)))
      where
        each : (ts : List Ty) → All Plain ts → PlainBranches (from_list (map branch_of ts))
        each [] h = no_more
        each (t ∷ ts) (h, hs) = branch h (each ts hs)

    pub union-Lower :
        (cs : Constraints) (m : Fields) (other : Ty)
        → PlainBranches cs
        → Plain other
        → Parts matches v (ty or cs m) other (compose_or misses calls (ty or cs m) other)
    unfolding compose_or met
    union-Lower cs m other p q =
        let plain = plain_branches cs m p in
        (
          union_of-Plain (met other (branches (ty or cs m)))
              (met-Plain other (branches (ty or cs m)) q plain),
          λ h.
              (let both =
                  met-any other (branches (ty or cs m)) q plain
                    (union_of-any (met other (branches (ty or cs m))) h) in
                (check-union cs m p both.0, both.1)),
        )
