-- ===== src/Space/Procedure/Config/Agrees.antt =====
-- src-v2/procedure.ts: the configuration of one processor and the facts of the whole plan.
use sequence.Prelude.{
  String, Bool, true, false, ◌≡◌, refl, sym, ◌∙◌, subst, Option, none, some, List, [], ◌∷◌, ◌⊹◌,
  if◌then◌else◌, arith,
}
use sequence.Prelude.Fallible.{◌>>=◌, Returns, Returns-bind, Returns-then}
use sequence.Lang.{Value}
use sequence.Space.Procedure.{Scope, eval_template, eval_string, scope_get, is_blank, text_of}
use sequence.Space.Procedure.Plan.{
  ProcedureManifest, ProcedureStep, ProcedureGap, StepBody, create_topic, declare_processor,
  store_secret, PlannedFact, process_registered, secret_written, PlanResult, planned, incomplete,
  leaks, declared_scope, resolve_params, derive, guard_holds, fact_of, facts_of, plan_procedure,
  title_of,
}
use sequence.Space.Procedure.Config.{
  config_scope, declares, template_in, config_of, plan_processor_config, registered, Edits,
  config_scope-resolve_params,
}

module _ (matches : String → String → Bool) (show : Value → String) (name : String) where
  abbrev put : Option PlannedFact → List PlannedFact → List PlannedFact
  put f fs = elim f [ none ↦ fs | some f ↦ f ∷ fs ]

  -- a fact that leaves the search for the name where it was
  abbrev Passes : Option PlannedFact → Type 0
  Passes f =
      (fs : List PlannedFact)
      → registered matches show name (put f fs) ≡ registered matches show name fs

  -- the fact of a step that declares the processor
  abbrev Registers : StepBody → Scope → Option PlannedFact → Type 0
  Registers b s none = ⊥
  Registers b s (some f) =
      (c : Value) × ((template_in matches show b s ≡ some c)
        × ((fs : List PlannedFact) → registered matches show name (f ∷ fs) ≡ some c))

  fact_of-Passes :
      (b : StepBody) (s : Scope)
      → declares matches show name b ≡ false
      → Returns Passes (fact_of matches show b s)
  unfolding fact_of registered
  fact_of-Passes (create_topic c) s h =
      Returns-then Passes _ (eval_string show c.topic_id s)
        (λ id. Returns-then Passes _ (title_of matches show c.title s) (λ title fs. refl))
  fact_of-Passes (declare_processor d) s h =
      Returns-then Passes _ (eval_string show d.attach_to s)
        (λ at. Returns-then Passes _ (eval_template show d.config s) (λ config fs. ground arith))
  fact_of-Passes (store_secret c) s h =
      Returns-then Passes _ (scope_get c.from_param s) (λ v. by_blank v (is_blank v))
    where
      by_blank :
          (v : Value) (b : Bool)
          → Returns Passes (
              if b
              then some none
              else eval_string show c.key s >>= λ key.
                  some (some (secret_written key (text_of show v))))
      by_blank v true = λ fs. refl
      by_blank v false = Returns-then Passes _ (eval_string show c.key s) (λ key fs. refl)

  fact_of-Registers :
      (b : StepBody) (s : Scope)
      → declares matches show name b ≡ true
      → Returns (Registers b s) (fact_of matches show b s)
  unfolding fact_of registered template_in
  fact_of-Registers (create_topic c) s h = absurd (ground arith)
  fact_of-Registers (store_secret c) s h = absurd (ground arith)
  fact_of-Registers (declare_processor d) s h =
      Returns-then (Registers (declare_processor d) s) _ (eval_string show d.attach_to s)
        (λ at. by_config at (eval_template show d.config s) refl)
    where
      by_config :
          (at : String) (o : Option Value)
          → eval_template show d.config s ≡ o
          → Returns (Registers (declare_processor d) s) (
              o >>= λ config. some (
                some (
                  process_registered (record {
                    name = d.name;
                    process_ref = "process:" ⊹ d.process_kind ⊹ ":" ⊹ d.name;
                    process_kind = d.process_kind;
                    attach_to = at;
                    config = config;
                  }))))
      by_config at none e = tt
      by_config at (some c) e = (c, (e, λ fs. ground arith))

  Edits-put :
      (f : Option PlannedFact) (fs : List PlannedFact) (o : Option (Option Value))
      → Passes f
      → Edits matches show name fs o
      → Edits matches show name (put f fs) o
  Edits-put f fs none h e = e
  Edits-put f fs (some none) h e = tt
  Edits-put f fs (some (some c)) h e = h fs ∙ e

  abbrev rest_of : List ProcedureStep → Scope → Option PlannedFact → Option (List PlannedFact)
  rest_of xs s f = facts_of matches show xs s >>= λ fs. some (put f fs)

  passed :
      (x : ProcedureStep) (xs : List ProcedureStep) (s : Scope) (later : Option (Option Value))
      → Returns (λ fs. Edits matches show name fs later) (facts_of matches show xs s)
      → declares matches show name x.body ≡ false
      → (holds : Bool)
      → Returns
          (λ fs. Edits matches show name fs later)
          ((if holds then fact_of matches show x.body s else some none) >>= rest_of xs s)
  passed x xs s later ih e holds =
      Returns-bind Passes (λ fs. Edits matches show name fs later) (rest_of xs s)
        (if holds then fact_of matches show x.body s else some none) (chosen holds)
        (λ f h.
          Returns-bind (λ fs. Edits matches show name fs later)
            (λ fs. Edits matches show name fs later) (λ fs. some (put f fs))
            (facts_of matches show xs s) ih (λ fs k. Edits-put f fs later h k))
    where
      chosen : (b : Bool) → Returns Passes (if b then fact_of matches show x.body s else some none)
      chosen true = fact_of-Passes x.body s e
      chosen false = λ fs. refl

  registers :
      (x : ProcedureStep) (xs : List ProcedureStep) (s : Scope)
      → declares matches show name x.body ≡ true
      → (holds : Bool)
      → Returns
          (λ fs. Edits matches show name fs (
            if holds
            then (template_in matches show x.body s >>= λ c. some (some c))
            else some none))
          ((if holds then fact_of matches show x.body s else some none) >>= rest_of xs s)
  registers x xs s e false = Returns-then (λ fs. Unit) _ (facts_of matches show xs s) (λ fs. tt)
  registers x xs s e true =
      Returns-bind (Registers x.body s)
        (λ fs.
          Edits matches show name fs (template_in matches show x.body s >>= λ c. some (some c)))
        (rest_of xs s) (fact_of matches show x.body s) (fact_of-Registers x.body s e) by_fact
    where
      by_fact :
          (f : Option PlannedFact)
          → Registers x.body s f
          → Returns
              (λ fs.
                Edits matches show name fs
                  (template_in matches show x.body s >>= λ c. some (some c)))
              (rest_of xs s f)
      by_fact none h = absurd h
      by_fact (some f) (c, (k, h)) =
          Returns-then
            (λ fs.
              Edits matches show name fs (template_in matches show x.body s >>= λ c. some (some c)))
            _ (facts_of matches show xs s)
            (λ fs.
              subst (λ o. Edits matches show name (f ∷ fs) (o >>= λ c. some (some c))) (sym k)
                (h fs))

  facts_of-Edits :
      (steps : List ProcedureStep) (s : Scope)
      → Returns
          (λ fs. Edits matches show name fs (config_of matches show name steps s))
          (facts_of matches show steps s)
  unfolding facts_of config_of
  facts_of-Edits [] s = tt
  facts_of-Edits (x ∷ xs) s =
      by_name x xs (declares matches show name x.body) refl (guard_holds matches show x.guard s)
        (facts_of-Edits xs s)
    where
      by_name :
          (x : ProcedureStep) (xs : List ProcedureStep) (b : Bool)
          → declares matches show name x.body ≡ b
          → (o : Option Bool)
          → Returns
              (λ fs. Edits matches show name fs (config_of matches show name xs s))
              (facts_of matches show xs s)
          → Returns
              (λ fs. Edits matches show name fs (
                if b
                then (o >>= λ holds.
                    if holds
                    then (template_in matches show x.body s >>= λ c. some (some c))
                    else some none)
                else config_of matches show name xs s))
              (o >>= λ holds.
                (if holds then fact_of matches show x.body s else some none) >>= rest_of xs s)
      by_name x xs b e none ih = tt
      by_name x xs true e (some holds) ih = registers x xs s e holds
      by_name x xs false e (some holds) ih =
          passed x xs s (config_of matches show name xs s) ih e holds

  -- The configuration of a processor does not fail where a plan has facts, and is that of the first fact that
  -- registers a processor with the name.
  abbrev pub Agrees : PlanResult → Option (Option Value) → Type 0
  Agrees (planned fs) o = Edits matches show name fs o
  Agrees (incomplete gs) o = Unit

  -- For the values for which a plan of a procedure has facts, the configuration of a processor is computed
  -- without a throw, and is either null or the configuration in the first of the facts that registers a processor
  -- with the name.
  pub plan_processor_config-Agrees :
      (m : ProcedureManifest) (vs : List (String × Value))
      → Returns
          (λ r. Agrees r (plan_processor_config matches show m name vs))
          (plan_procedure matches show m vs)
  unfolding plan_procedure plan_processor_config
  plan_processor_config-Agrees m vs = by_leaks (leaks m)
    where
      ended : Scope → Option (Option Value)
      ended s = derive matches show m.derived s >>= λ s. config_of matches show name m.steps s

      by_derived :
          (o : Option Scope)
          → Returns
              (λ r. Agrees r (o >>= λ s. config_of matches show name m.steps s))
              (o >>= λ s. facts_of matches show m.steps s >>= λ fs. some (planned fs))
      by_derived none = tt
      by_derived (some s) =
          Returns-bind (λ fs. Edits matches show name fs (config_of matches show name m.steps s))
            (λ r. Agrees r (config_of matches show name m.steps s)) (λ fs. some (planned fs))
            (facts_of matches show m.steps s) (facts_of-Edits m.steps s) (λ fs h. h)

      by_gaps :
          (s : Scope) (gs : List ProcedureGap) (o : Option Scope)
          → (gs ≡ [] → o ≡ some s)
          → Returns
              (λ r. Agrees r (o >>= ended))
              (elim gs [
                | g ∷ gs ↦ some (incomplete (g ∷ gs))
                | [] ↦ derive matches show m.derived s >>= λ s.
                    facts_of matches show m.steps s >>= λ fs. some (planned fs)
              ])
      by_gaps s (g ∷ gs) o h = tt
      by_gaps s [] o h =
          subst
            (λ o.
              Returns (λ r. Agrees r (o >>= ended))
                (derive matches show m.derived s >>= λ s.
                  facts_of matches show m.steps s >>= λ fs. some (planned fs)))
            (sym (h refl)) (by_derived (derive matches show m.derived s))

      by_leaks :
          (b : Bool)
          → Returns
              (λ r. Agrees r (
                if b
                then none
                else config_scope matches show vs m.params (declared_scope m.params) >>= ended))
              (if b
                then none
                else resolve_params matches show vs m.params (declared_scope m.params) >>= λ r.
                    elim r.1 [
                      | g ∷ gs ↦ some (incomplete (g ∷ gs))
                      | [] ↦ derive matches show m.derived r.0 >>= λ s.
                          facts_of matches show m.steps s >>= λ fs. some (planned fs)
                    ])
      by_leaks true = tt
      by_leaks false =
          Returns-bind
            (λ r.
              r.1 ≡ [] → config_scope matches show vs m.params (declared_scope m.params) ≡ some r.0)
            (λ r.
              Agrees r (config_scope matches show vs m.params (declared_scope m.params) >>= ended))
            (λ r. elim r.1 [
              | g ∷ gs ↦ some (incomplete (g ∷ gs))
              | [] ↦ derive matches show m.derived r.0 >>= λ s.
                  facts_of matches show m.steps s >>= λ fs. some (planned fs)
            ])
            (resolve_params matches show vs m.params (declared_scope m.params))
            (config_scope-resolve_params matches show vs m.params (declared_scope m.params))
            (λ r h.
              by_gaps r.0 r.1 (config_scope matches show vs m.params (declared_scope m.params)) h)
