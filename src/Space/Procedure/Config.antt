-- ===== src/Space/Procedure/Config.antt =====
-- src-v2/procedure.ts: `planProcessorConfig`, the configuration of one processor under new values. Its null is
-- `some none`, a throw is `none`.
pub mod Agrees
use sequence.Prelude.{
  String, Bool, true, false, not, ◌&&◌, ◌≡◌, refl, sym, ◌∙◌, ap, Option, none, some, List, [], ◌∷◌,
  if◌then◌else◌, arith, any, ◌==◌,
}
use sequence.Prelude.Fallible.{◌>>=◌, Returns, Returns-bind}
use sequence.Lang.{Value, is_undefined}
use sequence.Compose.Check.{check}
use sequence.Space.Procedure.{
  ProcedureParam, Scope, resolve_param_value, scope_set, eval_template, scope_get, is_blank,
  eval_string,
}
use sequence.Space.Procedure.Plan.{
  ProcedureManifest, ProcedureStep, ProcedureGap, StepBody, create_topic, declare_processor,
  store_secret, PlannedFact, topic_created, process_registered, secret_written, PlanResult, planned,
  incomplete, leaks, gap, with_gap, supplied, declared_scope, resolve_params, derive, guard_holds,
  fact_of, facts_of, plan_procedure, title_of,
}

module _ (matches : String → String → Bool) (show : Value → String) where
  -- the loop over the parameters, which throws where one is missing
  unfoldable pub config_scope : List (String × Value) → List ProcedureParam → Scope → Option Scope
  unfolding resolve_param_value check
  config_scope vs [] s = some s
  config_scope vs (p ∷ ps) s =
      let v = resolve_param_value p (supplied vs p.name) in
      let skipped = config_scope vs ps s in
      let taken = config_scope vs ps (scope_set p.name v s) in
      if is_undefined v
      then (if p.optional then skipped else none)
      else if check matches p.type v
      then taken
      else none

  -- whether a step declares the processor with this name
  abbrev pub declares : String → StepBody → Bool
  declares name (declare_processor d) = d.name == name
  declares name b = false

  unfoldable pub template_in : StepBody → Scope → Option Value
  unfolding eval_template
  template_in (declare_processor d) s = eval_template show d.config s
  template_in b s = none

  -- the loop over the steps
  unfoldable pub config_of : String → List ProcedureStep → Scope → Option (Option Value)
  unfolding guard_holds template_in
  config_of name [] s = some none
  config_of name (step ∷ steps) s =
      let later = config_of name steps s in
      if declares name step.body
      then (guard_holds matches show step.guard s >>= λ holds.
          if holds then (template_in step.body s >>= λ c. some (some c)) else some none)
      else later

  -- `planProcessorConfig`
  unfoldable pub plan_processor_config :
      ProcedureManifest → String → List (String × Value) → Option (Option Value)
  unfolding leaks config_scope derive config_of
  plan_processor_config m name vs =
      if leaks m
      then none
      else config_scope vs m.params (declared_scope m.params) >>= λ s.
          derive matches show m.derived s >>= λ s. config_of name m.steps s

  -- the configuration in the first fact that registers a processor with this name
  unfoldable pub registered : String → List PlannedFact → Option Value
  registered name [] = none
  registered name (process_registered p ∷ fs) =
      let later = registered name fs in if p.name == name then some p.config else later
  registered name (topic_created t ∷ fs) = registered name fs
  registered name (secret_written k v ∷ fs) = registered name fs

  -- A configuration is that of the facts.
  abbrev pub Edits : String → List PlannedFact → Option (Option Value) → Type 0
  Edits name fs none = ⊥
  Edits name fs (some none) = Unit
  Edits name fs (some (some c)) = registered name fs ≡ some c

  pub config_scope-resolve_params :
      (vs : List (String × Value)) (ps : List ProcedureParam) (s : Scope)
      → Returns
          (λ r. r.1 ≡ [] → config_scope vs ps s ≡ some r.0)
          (resolve_params matches show vs ps s)
  unfolding config_scope resolve_params
  config_scope-resolve_params vs [] s = λ e. refl
  config_scope-resolve_params vs (p ∷ ps) s =
      by_tests (is_undefined v) (check matches p.type v) (config_scope-resolve_params vs ps s)
        (config_scope-resolve_params vs ps (scope_set p.name v s))
    where
      v : Value
      v = resolve_param_value p (supplied vs p.name)

      optional :
          (b : Bool) (r : Scope × List ProcedureGap)
          → (r.1 ≡ [] → config_scope vs ps s ≡ some r.0)
          → (if b then r.1 else gap p ∷ r.1) ≡ []
          → (if b then config_scope vs ps s else none) ≡ some r.0
      optional true r h e = h e
      optional false r h e = absurd (ground arith)

      by_tests :
          (x y : Bool)
          → Returns
              (λ r. r.1 ≡ [] → config_scope vs ps s ≡ some r.0)
              (resolve_params matches show vs ps s)
          → Returns
              (λ r. r.1 ≡ [] → config_scope vs ps (scope_set p.name v s) ≡ some r.0)
              (resolve_params matches show vs ps (scope_set p.name v s))
          → Returns
              (λ r.
                r.1 ≡ []
                → (if x
                    then (if p.optional then config_scope vs ps s else none)
                    else if y
                    then config_scope vs ps (scope_set p.name v s)
                    else none)
                  ≡ some r.0)
              (if x
                then (resolve_params matches show vs ps s >>= λ r. some (r.0, with_gap p r.1))
                else if y
                then resolve_params matches show vs ps (scope_set p.name v s)
                else none)
      by_tests true y h k =
          Returns-bind (λ r. r.1 ≡ [] → config_scope vs ps s ≡ some r.0)
            (λ r. r.1 ≡ [] → (if p.optional then config_scope vs ps s else none) ≡ some r.0)
            (λ r. some (r.0, with_gap p r.1)) (resolve_params matches show vs ps s) h
            (λ r e. optional p.optional r e)
      by_tests false true h k = k
      by_tests false false h k = tt
