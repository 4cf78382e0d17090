-- ===== src/Compose/Lower/Composed.antt =====
-- src/compose.ts, `compose`: the composition of two types accepts less than either.
use sequence.Prelude.{
  ℕ, zero, suc, String, Bool, true, false, not, ◌&&◌, ◌≡◌, refl, subst, List, [], ◌∷◌, arith,
  if◌then◌else◌, or_else,
}
use sequence.Lang.{
  undefined, Kind, any, never, or, Value, fn, Constraints, Fields, Ty, ty, kind_of, is_never,
  is_any, is_fn,
}
use sequence.Compose.Check.{check}
use sequence.Compose.Contradiction.{Deadline}
use sequence.Compose.Lattice.{
  Calls, compose_with, compose_or, compose_same, invoke, calls_at, has_kind, same_kind,
  contradicted,
}
use sequence.Compose.Lower.{Plain, nothing, anything, union, base, is_base}
use sequence.Compose.Lower.Row.{Lower, Parts}
use sequence.Compose.Lower.Base.{same_kind_eq, same-Lower}
use sequence.Compose.Lower.Union.{union-Lower}

module _ (matches : String → String → Bool) (v : Value) where
  -- the first type whose test holds
  abbrev first_of : List (Bool × Ty) → Ty → Ty
  first_of [] last = last
  first_of (r ∷ rs) last = if r.0 then r.1 else first_of rs last

  abbrev Chain : Ty → Ty → List (Bool × Ty) → Ty → Type 0
  Chain a b [] last = Parts matches v a b last
  Chain a b (r ∷ rs) last =
      (r.0 ≡ true → Parts matches v a b r.1) × (r.0 ≡ false → Chain a b rs last)

  first_of-Parts :
      (a b : Ty) (rs : List (Bool × Ty)) (last : Ty)
      → Chain a b rs last
      → Parts matches v a b (first_of rs last)
  first_of-Parts a b [] last h = h
  first_of-Parts a b ((true, t) ∷ rs) last (h, hs) = h refl
  first_of-Parts a b ((false, t) ∷ rs) last (h, hs) = first_of-Parts a b rs last (hs refl)

  any_accepts : (a : Ty) → is_any a ≡ true → check matches a v ≡ true
  unfolding check
  any_accepts (ty any cs m) h = refl
  any_accepts (ty k cs m) h = absurd (ground arith)

  never_accepts : (a : Ty) → is_never a ≡ true → check matches a v ≡ false
  unfolding check
  never_accepts (ty never cs m) h = refl
  never_accepts (ty k cs m) h = absurd (ground arith)

  base_fn :
      (k : Kind) (cs : Constraints) (m : Fields) → is_base k ≡ true → is_fn (ty k cs m) ≡ false
  base_fn fn cs m h = absurd (ground arith)
  base_fn k cs m h = ground arith

  Plain-fn : (a : Ty) → Plain a → is_fn a ≡ false
  Plain-fn _ nothing = refl
  Plain-fn _ anything = refl
  Plain-fn _ (union p) = refl
  Plain-fn _ (base {k} h p) = base_fn k _ _ h

  pub is_base-same : (k l : Kind) → is_base k ≡ true → same_kind k l ≡ true → is_base l ≡ true
  is_base-same k l h e = subst (λ z. is_base z ≡ true) (same_kind_eq k l e) h

  module _ (misses : Deadline) (calls : Calls)
      (ih : (t u : Ty) → Plain t → Plain u → Lower matches v calls.compose t u) where
    or-Parts :
        (a other : Ty)
        → Plain a
        → Plain other
        → has_kind or a ≡ true
        → Parts matches v a other (compose_or misses calls a other)
    or-Parts _ other (union p) q h = union-Lower matches v misses calls ih _ _ other p q
    or-Parts _ other nothing q h = absurd (ground arith)
    or-Parts _ other anything q h = absurd (ground arith)
    or-Parts _ other (base {k} e p) q h = let no = is_base-same k or e h in absurd (ground arith)

    same-Parts :
        (a b : Ty)
        → Plain a
        → Plain b
        → is_any a ≡ false
        → is_never a ≡ false
        → has_kind or a ≡ false
        → same_kind (kind_of a) (kind_of b) ≡ true
        → Parts matches v a b (compose_same misses calls a b)
    same-Parts _ b nothing q x y z h = absurd (ground arith)
    same-Parts _ b anything q x y z h = absurd (ground arith)
    same-Parts _ b (union p) q x y z h = absurd (ground arith)
    same-Parts _ _ (base {k} e p) nothing x y z h =
        let no = is_base-same k never e h in absurd (ground arith)
    same-Parts _ _ (base {k} e p) anything x y z h =
        let no = is_base-same k any e h in absurd (ground arith)
    same-Parts _ _ (base {k} e p) (union q) x y z h =
        let no = is_base-same k or e h in absurd (ground arith)
    same-Parts _ _ (base {k} {cs} {m} e p) (base {k = l} {cs = ds} {m = n} e' q) x y z h =
        subst
          (λ l.
            Parts matches v (ty k cs m) (ty l ds n)
              (compose_same misses calls (ty k cs m) (ty l ds n)))
          (same_kind_eq k l h) (same-Lower matches v misses calls ih k cs ds m n e p q)

    with-Parts :
        (a b : Ty) → Plain a → Plain b → Parts matches v a b (compose_with misses calls a b)
    unfolding compose_with
    with-Parts a b p q =
        first_of-Parts a b
          ((is_any a, b)
            ∷ (is_any b, a)
            ∷ (is_never a, a)
            ∷ (is_never b, b)
            ∷ (has_kind or a, compose_or misses calls a b)
            ∷ (has_kind or b, compose_or misses calls b a)
            ∷ (is_fn a && not (is_fn b), or_else (invoke misses calls a b) contradicted)
            ∷ (is_fn b && not (is_fn a), calls.compose b a)
            ∷ (same_kind (kind_of a) (kind_of b), compose_same misses calls a b)
            ∷ [])
          contradicted
          (
            (λ h. (q, λ e. (any_accepts a h, e))),
            λ x. (
              (λ h. (p, λ e. (e, any_accepts b h))),
              λ _. (
                (λ h. (p, λ e. (let no = never_accepts a h in absurd (ground arith)))),
                λ y. (
                  (λ h. (q, λ e. (let no = never_accepts b h in absurd (ground arith)))),
                  λ _. (
                    (λ h. or-Parts a b p q h),
                    λ z. (
                      (λ h.
                          (let both = or-Parts b a q p h in
                            (both.0, λ e. (let two = both.1 e in (two.1, two.0))))),
                      λ _. (
                        (λ h. (let no = Plain-fn a p in absurd (ground arith))),
                        λ _. (
                          (λ h. (let no = Plain-fn b q in absurd (ground arith))),
                          λ _. (
                            (λ h. same-Parts a b p q x y z h),
                            λ _. (
                              nothing,
                              λ e.
                                  (let no = never_accepts contradicted refl in
                                    absurd (ground arith)),
                            ),
                          ),
                        ),
                      ),
                    ),
                  ),
                ),
              ),
            ),
          )

composed :
    (misses : Deadline) (matches : String → String → Bool) (n : ℕ) (a b : Ty) (v : Value)
    → Plain a
    → Plain b
    → Parts matches v a b ((calls_at misses n).compose a b)
unfolding calls_at
composed misses matches zero a b v p q =
    (nothing, λ h. (let no = never_accepts matches v contradicted refl in absurd (ground arith)))
composed misses matches (suc n) a b v p q =
    with-Parts matches v misses (calls_at misses n)
      (λ t u p q.
        ((composed misses matches n t u v p q).0, λ w. (composed misses matches n t u w p q).1))
      a b p q

-- The composition of two plain types is a plain type. A plain type has no function and no segment in it, its
-- properties, elements, branches and lengths have the arguments that their constructors give them, and its
-- unions have only branches.
pub compose-Plain :
    (misses : Deadline) (n : ℕ) (a b : Ty)
    → Plain a
    → Plain b
    → Plain ((calls_at misses n).compose a b)
compose-Plain misses n a b p q = (composed misses (λ p s. true) n a b undefined p q).0

-- A value that the composition of two plain types accepts is a value that each of the two types accepts,
-- whatever the depth of the calls, the test of a regular expression and the deadlines. A plain type has no
-- function and no segment in it, its properties, elements, branches and lengths have the arguments that their
-- constructors give them, and its unions have only branches.
pub compose-Lower :
    (misses : Deadline) (matches : String → String → Bool) (n : ℕ) (a b : Ty)
    → Plain a
    → Plain b
    → (v : Value) → check matches ((calls_at misses n).compose a b) v ≡ true
    → (check matches a v ≡ true) × (check matches b v ≡ true)
compose-Lower misses matches n a b p q v h = (composed misses matches n a b v p q).1 h
