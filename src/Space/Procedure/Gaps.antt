-- ===== src/Space/Procedure/Gaps.antt =====
-- src-v2/procedure.ts: what is missing from a plan is what `procedureGaps` finds missing.
use sequence.Prelude.{
  String, Bool, true, false, not, ◌&&◌, ◌≡◌, refl, sym, ap, Option, none, some, List, [], ◌∷◌,
  if◌then◌else◌,
}
use sequence.Prelude.Fallible.{◌>>=◌, Returns, Returns-bind}
use sequence.Lang.{Value, is_undefined}
use sequence.Compose.Check.{check}
use sequence.Space.Procedure.{ProcedureParam, Scope, resolve_param_value, scope_set}
use sequence.Space.Procedure.Plan.{
  ProcedureManifest, ProcedureGap, PlannedFact, PlanResult, planned, incomplete, leaks, gap,
  with_gap, supplied, declared_scope, resolve_params, derive, facts_of, plan_procedure,
  procedure_gaps,
}

module _ (matches : String → String → Bool) (show : Value → String)
    (vs : List (String × Value)) where
  abbrev Finds : List ProcedureParam → Scope × List ProcedureGap → Type 0
  Finds ps r = r.1 ≡ procedure_gaps ps vs

  resolve_params-Finds :
      (ps : List ProcedureParam) (s : Scope)
      → Returns (Finds ps) (resolve_params matches show vs ps s)
  unfolding resolve_params procedure_gaps
  resolve_params-Finds [] s = refl
  resolve_params-Finds (p ∷ ps) s =
      by_tests (is_undefined v) (check matches p.type v) (resolve_params-Finds ps s)
        (resolve_params-Finds ps (scope_set p.name v s))
    where
      v : Value
      v = resolve_param_value p (supplied vs p.name)

      rest : List ProcedureGap
      rest = procedure_gaps ps vs

      one_gap :
          (b : Bool) (gs : List ProcedureGap)
          → gs ≡ rest
          → (if b then gs else gap p ∷ gs) ≡ (if not b then gap p ∷ rest else rest)
      one_gap true gs h = h
      one_gap false gs h = ap (λ gs. gap p ∷ gs) h

      by_tests :
          (x y : Bool)
          → Returns (Finds ps) (resolve_params matches show vs ps s)
          → Returns (Finds ps) (resolve_params matches show vs ps (scope_set p.name v s))
          → Returns
              (λ r. r.1 ≡ (if x && not p.optional then gap p ∷ rest else rest))
              (if x
                then (resolve_params matches show vs ps s >>= λ r. some (r.0, with_gap p r.1))
                else if y
                then resolve_params matches show vs ps (scope_set p.name v s)
                else none)
      by_tests true y h k =
          Returns-bind (Finds ps) (λ r. r.1 ≡ (if not p.optional then gap p ∷ rest else rest))
            (λ r. some (r.0, with_gap p r.1)) (resolve_params matches show vs ps s) h
            (λ r e. one_gap p.optional r.1 e)
      by_tests false true h k = k
      by_tests false false h k = tt

  -- A plan has gaps exactly where the parameters have, and they are the same.
  abbrev pub Accounts : ProcedureManifest → PlanResult → Type 0
  Accounts m (planned fs) = procedure_gaps m.params vs ≡ []
  Accounts m (incomplete gs) = (gs ≡ procedure_gaps m.params vs)

  -- What a plan reports as missing, where it returns, is what the search for gaps finds, and a plan with facts
  -- is returned only where that finds none.
  pub plan_procedure-Accounts :
      (m : ProcedureManifest) → Returns (Accounts m) (plan_procedure matches show m vs)
  unfolding plan_procedure
  plan_procedure-Accounts m = by_test (leaks m)
    where
      by_gaps :
          (s : Scope) (gs : List ProcedureGap)
          → gs ≡ procedure_gaps m.params vs
          → Returns (Accounts m) (elim gs [
            | g ∷ gs ↦ some (incomplete (g ∷ gs))
            | [] ↦ derive matches show m.derived s >>= λ s.
                facts_of matches show m.steps s >>= λ fs. some (planned fs)
          ])
      by_gaps s (g ∷ gs) h = h
      by_gaps s [] h = by_scope (derive matches show m.derived s)
        where
          by_facts :
              (o : Option (List PlannedFact)) → Returns (Accounts m) (o >>= λ fs. some (planned fs))
          by_facts none = tt
          by_facts (some fs) = sym h

          by_scope :
              (o : Option Scope)
              → Returns
                  (Accounts m)
                  (o >>= λ s. facts_of matches show m.steps s >>= λ fs. some (planned fs))
          by_scope none = tt
          by_scope (some s) = by_facts (facts_of matches show m.steps s)

      by_resolved :
          (o : Option (Scope × List ProcedureGap))
          → Returns (Finds m.params) o
          → Returns (Accounts m) (
              o >>= λ r. elim r.1 [
                | g ∷ gs ↦ some (incomplete (g ∷ gs))
                | [] ↦ derive matches show m.derived r.0 >>= λ s.
                    facts_of matches show m.steps s >>= λ fs. some (planned fs)
              ])
      by_resolved none h = tt
      by_resolved (some r) h = by_gaps r.0 r.1 h

      by_test :
          (b : Bool)
          → Returns (Accounts m) (
              if b
              then none
              else resolve_params matches show vs m.params (declared_scope m.params) >>= λ r.
                  elim r.1 [
                    | g ∷ gs ↦ some (incomplete (g ∷ gs))
                    | [] ↦ derive matches show m.derived r.0 >>= λ s.
                        facts_of matches show m.steps s >>= λ fs. some (planned fs)
                  ])
      by_test true = tt
      by_test false =
          by_resolved (resolve_params matches show vs m.params (declared_scope m.params))
            (resolve_params-Finds m.params (declared_scope m.params))
