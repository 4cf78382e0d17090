-- ===== src/Space/Procedure/Secrets/Result.antt =====
-- src-v2/procedure.ts: plans for values that differ in secrets.
use sequence.Prelude.{
  String, Bool, true, false, ◌||◌, ◌≡◌, refl, sym, ◌∙◌, ap, Option, none, some, List, [], ◌∷◌,
  if◌then◌else◌, arith, has, any, All, subst,
}
use sequence.Prelude.Fallible.{◌>>=◌, Both, Both-bind, Both-refl}
use sequence.Lang.{Value, undefined, nil_value, bool, num, str, ref, is_undefined}
use sequence.Lang.Int.{ℤ, ◌*ℤ◌}
use sequence.Compose.Check.{check}
use sequence.Space.Procedure.{
  ProcedureParam, ProcedureValue, is_blank, scaled, resolve_param_value, Scope, scope_set,
  eval_value,
}
use sequence.Space.Procedure.Plan.{
  ProcedureManifest, ProcedureGap, PlanResult, planned, incomplete, leaks, with_gap, supplied,
  declared_scope, resolve_params, derive, facts_of, plan_procedure, secret_params, value_refs,
  step_refs, reads,
}
use sequence.Space.Procedure.Secrets.{redacted_result, SameScope, SameScope-scope_set, value_same}
use sequence.Space.Procedure.Secrets.Flow.{SimilarFacts, facts_similar}

is_blank-scaled : (k : Option ℤ) (v : Value) → is_blank v ≡ false → is_blank (scaled k v) ≡ false
unfolding is_blank scaled ◌*ℤ◌
is_blank-scaled none v h = h
is_blank-scaled (some k) (num n) h = refl
is_blank-scaled (some k) undefined h = h
is_blank-scaled (some k) nil_value h = h
is_blank-scaled (some k) (bool b) h = h
is_blank-scaled (some k) (str x) h = h
is_blank-scaled (some k) (ref n x) h = h

is_blank-resolve_param_value :
    (p : ProcedureParam) (v : Value)
    → is_undefined (resolve_param_value p v) ≡ false
    → is_blank (resolve_param_value p v) ≡ false
unfolding resolve_param_value
is_blank-resolve_param_value p v = by_test (if is_blank v then p.default else v)
  where
    by_blank :
        (w : Value) (b : Bool)
        → is_blank w ≡ b
        → is_undefined (if b then undefined else scaled p.scale w) ≡ false
        → is_blank (if b then undefined else scaled p.scale w) ≡ false
    by_blank w true e h = absurd (ground arith)
    by_blank w false e h = is_blank-scaled p.scale w e

    by_test :
        (w : Value)
        → is_undefined (if is_blank w then undefined else scaled p.scale w) ≡ false
        → is_blank (if is_blank w then undefined else scaled p.scale w) ≡ false
    by_test w = by_blank w (is_blank w) refl

-- Supplied values that differ at most in secrets, and not in which parameters they leave open.
abbrev pub SameSupply :
    List String → List (String × Value) → List (String × Value) → ProcedureParam → Type 0
SameSupply secrets vs ws p =
    (has p.name secrets ≡ false → supplied vs p.name ≡ supplied ws p.name)
    × (is_undefined (resolve_param_value p (supplied vs p.name))
        ≡ is_undefined (resolve_param_value p (supplied ws p.name)))

abbrev pub SameButSecrets :
    ProcedureManifest → List (String × Value) → List (String × Value) → Type 0
SameButSecrets m vs ws = All (SameSupply (secret_params m) vs ws) m.params

module _ (matches : String → String → Bool) (show : Value → String) (secrets : List String) where
  abbrev SameResolved : Scope × List ProcedureGap → Scope × List ProcedureGap → Type 0
  SameResolved r q = SameScope secrets r.0 q.0 × (r.1 ≡ q.1)

  derive_similar :
      (ds : List (String × ProcedureValue)) (s t : Scope)
      → SameScope secrets s t
      → any (λ d. reads secrets (value_refs d.1)) ds ≡ false
      → Both (SameScope secrets) (derive matches show ds s) (derive matches show ds t)
  unfolding derive
  derive_similar [] s t h k = h
  derive_similar (d ∷ ds) s t h k =
      Both-bind (λ v w. v ≡ w) (SameScope secrets) (λ v. derive matches show ds (scope_set d.0 v s))
        (λ v. derive matches show ds (scope_set d.0 v t)) (eval_value show d.1 s)
        (eval_value show d.1 t)
        (same (eval_value show d.1 s) (eval_value show d.1 t)
          (value_same secrets s t h show d.1 (ground arith)))
        (λ v w e.
          derive_similar ds (scope_set d.0 v s) (scope_set d.0 w t)
            (SameScope-scope_set secrets d.0 v w s t h (λ k. e) (ap is_blank e)) (ground arith))
    where
      same : (o p : Option Value) → o ≡ p → Both (λ v w. v ≡ w) o p
      same o p e = subst (Both (λ v w. v ≡ w) o) e (Both-refl (λ v w. v ≡ w) (λ v. refl) o)

  module _ (vs ws : List (String × Value)) where
    resolve_param_similar :
        (p : ProcedureParam) (ps : List ProcedureParam) (s t : Scope)
        → SameScope secrets s t
        → SameSupply secrets vs ws p
        → ((s t : Scope)
            → SameScope secrets s t
            → Both SameResolved
                (resolve_params matches show vs ps s)
                (resolve_params matches show ws ps t))
        → Both SameResolved
            (resolve_params matches show vs (p ∷ ps) s)
            (resolve_params matches show ws (p ∷ ps) t)
    unfolding resolve_params
    resolve_param_similar p ps s t h k ih =
        by_tests (is_undefined v) (is_undefined w) refl refl (check matches p.type v)
          (check matches p.type w)
      where
        v : Value
        v = resolve_param_value p (supplied vs p.name)

        w : Value
        w = resolve_param_value p (supplied ws p.name)

        skip :
            Both SameResolved
              (resolve_params matches show vs ps s >>= λ r. some (r.0, with_gap p r.1))
              (resolve_params matches show ws ps t >>= λ r. some (r.0, with_gap p r.1))
        skip =
            Both-bind SameResolved SameResolved (λ r. some (r.0, with_gap p r.1))
              (λ r. some (r.0, with_gap p r.1)) (resolve_params matches show vs ps s)
              (resolve_params matches show ws ps t) (ih s t h) (λ r q e. (e.0, ap (with_gap p) e.1))

        take :
            is_undefined v ≡ false
            → is_undefined w ≡ false
            → Both SameResolved
                (resolve_params matches show vs ps (scope_set p.name v s))
                (resolve_params matches show ws ps (scope_set p.name w t))
        take e f = ih (scope_set p.name v s) (scope_set p.name w t) (
            SameScope-scope_set secrets p.name v w s t h (λ n. ap (resolve_param_value p) (k.0 n))
              (is_blank-resolve_param_value p (supplied vs p.name) e
                ∙ sym (is_blank-resolve_param_value p (supplied ws p.name) f)))

        either : (o : Option (Scope × List ProcedureGap)) → Both SameResolved o none
        either none = tt
        either (some r) = tt

        by_tests :
            (x y : Bool)
            → is_undefined v ≡ x
            → is_undefined w ≡ y
            → (a b : Bool)
            → Both SameResolved
                (if x
                  then (resolve_params matches show vs ps s >>= λ r. some (r.0, with_gap p r.1))
                  else if a
                  then resolve_params matches show vs ps (scope_set p.name v s)
                  else none)
                (if y
                  then (resolve_params matches show ws ps t >>= λ r. some (r.0, with_gap p r.1))
                  else if b
                  then resolve_params matches show ws ps (scope_set p.name w t)
                  else none)
        by_tests true true e f a b = skip
        by_tests true false e f a b = absurd (ground arith)
        by_tests false true e f a b = absurd (ground arith)
        by_tests false false e f true true = take e f
        by_tests false false e f true false =
            either (resolve_params matches show vs ps (scope_set p.name v s))
        by_tests false false e f false b = tt

    resolve_params_similar :
        (ps : List ProcedureParam) (s t : Scope)
        → SameScope secrets s t
        → All (SameSupply secrets vs ws) ps
        → Both SameResolved
            (resolve_params matches show vs ps s)
            (resolve_params matches show ws ps t)
    unfolding resolve_params
    resolve_params_similar [] s t h k = (h, refl)
    resolve_params_similar (p ∷ ps) s t h (k, ks) =
        resolve_param_similar p ps s t h k (λ s t h. resolve_params_similar ps s t h ks)

-- Where the values supplied for a procedure differ in nothing but its secrets, and leave the same parameters
-- open, two plans of it that return are the same up to the keys and values of the secrets written.
pub plan_procedure_secret :
    (matches : String → String → Bool) (show : Value → String) (m : ProcedureManifest)
    (vs ws : List (String × Value))
    → SameButSecrets m vs ws
    → Both
        (λ r q. redacted_result r ≡ redacted_result q)
        (plan_procedure matches show m vs)
        (plan_procedure matches show m ws)
unfolding plan_procedure leaks
plan_procedure_secret matches show m vs ws h =
    by_leaks (any (λ d. reads secrets (value_refs d.1)) m.derived) refl
      (any (λ s. reads secrets (step_refs s.body)) m.steps) refl
  where
    secrets : List String
    secrets = secret_params m

    start : SameScope secrets (declared_scope m.params) (declared_scope m.params)
    start = record { names = refl; open_values = λ n k. refl; blanks = λ n. refl }

    finish : List (String × Value) → Scope × List ProcedureGap → Option PlanResult
    finish vs r = elim r.1 [
      | g ∷ gs ↦ some (incomplete (g ∷ gs))
      | [] ↦ derive matches show m.derived r.0 >>= λ s.
          facts_of matches show m.steps s >>= λ fs. some (planned fs)
    ]

    SameResult : PlanResult → PlanResult → Type 0
    SameResult r q = redacted_result r ≡ redacted_result q

    by_gaps :
        any (λ d. reads secrets (value_refs d.1)) m.derived ≡ false
        → any (λ s. reads secrets (step_refs s.body)) m.steps ≡ false
        → (s t : Scope) → SameScope secrets s t
        → (gs ks : List ProcedureGap) → gs ≡ ks
        → Both SameResult (finish vs (s, gs)) (finish ws (t, ks))
    by_gaps e f s t k [] [] l =
        Both-bind (SameScope secrets) SameResult
          (λ s. facts_of matches show m.steps s >>= λ fs. some (planned fs))
          (λ s. facts_of matches show m.steps s >>= λ fs. some (planned fs))
          (derive matches show m.derived s) (derive matches show m.derived t)
          (derive_similar matches show secrets m.derived s t k e)
          (λ s t k.
            Both-bind SimilarFacts SameResult (λ fs. some (planned fs)) (λ fs. some (planned fs))
              (facts_of matches show m.steps s) (facts_of matches show m.steps t)
              (facts_similar matches show secrets s t k m.steps f) (λ fs gs l. ap planned l))
    by_gaps e f s t k [] (x ∷ ks) l = absurd (ground arith)
    by_gaps e f s t k (g ∷ gs) [] l = absurd (ground arith)
    by_gaps e f s t k (g ∷ gs) (x ∷ ks) l = ap incomplete l

    by_leaks :
        (x : Bool)
        → any (λ d. reads secrets (value_refs d.1)) m.derived ≡ x
        → (y : Bool) → any (λ s. reads secrets (step_refs s.body)) m.steps ≡ y
        → Both
            (λ r q. redacted_result r ≡ redacted_result q)
            (if x || y
              then none
              else resolve_params matches show vs m.params (declared_scope m.params) >>= λ r.
                  finish vs r)
            (if x || y
              then none
              else resolve_params matches show ws m.params (declared_scope m.params) >>= λ r.
                  finish ws r)
    by_leaks true e y f = tt
    by_leaks false e true f = tt
    by_leaks false e false f =
        Both-bind (SameResolved matches show secrets) SameResult (finish vs) (finish ws)
          (resolve_params matches show vs m.params (declared_scope m.params))
          (resolve_params matches show ws m.params (declared_scope m.params))
          (resolve_params_similar matches show secrets vs ws m.params (declared_scope m.params)
            (declared_scope m.params) start h)
          (λ r q k. by_gaps e f r.0 q.0 k.0 r.1 q.1 k.1)
