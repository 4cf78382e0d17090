-- ===== src/Space/Procedure/Secrets/Flow.antt =====
-- src-v2/procedure.ts: where the values of secret parameters go.
use mathlib.Core.Option
use sequence.Prelude.{
  String, Bool, true, false, not, ◌≡◌, refl, ◌∙◌, ap, subst, Option, none, some, List, [], ◌∷◌, ◌⊹◌,
  if◌then◌else◌, arith, has, any, map,
}
use sequence.Prelude.Fallible.{◌>>=◌, Both, Both-bind, Both-refl}
use sequence.Lang.{Value}
use sequence.Space.Procedure.{
  ProcedureValue, is_blank, Scope, value_in, scope_get, text_of, eval_string, eval_template,
}
use sequence.Space.Procedure.Plan.{
  ProcedureStep, StepBody, StepGuard, always, present, absent, create_topic, declare_processor,
  store_secret, PlannedFact, topic_created, process_registered, secret_written, guard_holds,
  title_of, fact_of, facts_of, value_refs, param_refs, step_refs, reads,
}
use sequence.Space.Procedure.Secrets.{redacted, SameScope, string_same, template_same, reads-append}

Both-equal :
    {A : Type 0} (R : A → A → Type 0) → ((a : A) → R a a) → (o p : Option A) → o ≡ p → Both R o p
Both-equal R h o p e = subst (Both R o) e (Both-refl R h o)

abbrev Similar : Option PlannedFact → Option PlannedFact → Type 0
Similar f g = Option.map redacted f ≡ Option.map redacted g

abbrev pub SimilarFacts : List PlannedFact → List PlannedFact → Type 0
SimilarFacts fs gs = map redacted fs ≡ map redacted gs

module _ (matches : String → String → Bool) (show : Value → String) (secrets : List String) where
  module _ (s t : Scope) (h : SameScope secrets s t) where
    guard_similar :
        (g : StepGuard)
        → Both (λ x y. x ≡ y) (guard_holds matches show g s) (guard_holds matches show g t)
    unfolding guard_holds scope_get
    guard_similar always = refl
    guard_similar (present n) = by_name (has n s.declared) (has n t.declared)
      where
        by_name :
            (x y : Bool)
            → Both
                (λ x y. x ≡ y)
                ((if x then some (value_in s n) else none) >>= λ v. some (not (is_blank v)))
                ((if y then some (value_in t n) else none) >>= λ v. some (not (is_blank v)))
        by_name true true = ap not (h.blanks n)
        by_name true false = tt
        by_name false y = tt
    guard_similar (absent n) = by_name (has n s.declared) (has n t.declared)
      where
        by_name :
            (x y : Bool)
            → Both
                (λ x y. x ≡ y)
                ((if x then some (value_in s n) else none) >>= λ v. some (is_blank v))
                ((if y then some (value_in t n) else none) >>= λ v. some (is_blank v))
        by_name true true = h.blanks n
        by_name true false = tt
        by_name false y = tt

    title_same :
        (o : Option ProcedureValue)
        → reads secrets (elim o [ none ↦ [] | some x ↦ value_refs x ]) ≡ false
        → title_of matches show o s ≡ title_of matches show o t
    unfolding title_of
    title_same none k = refl
    title_same (some x) k =
        ap (λ o. o >>= λ text. some (some text)) (string_same secrets s t h show x k)

    secret-Similar :
        (key : ProcedureValue) (v w : Value)
        → is_blank v ≡ is_blank w
        → Both Similar
            (if is_blank v
              then some none
              else eval_string show key s >>= λ key.
                  some (some (secret_written key (text_of show v))))
            (if is_blank w
              then some none
              else eval_string show key t >>= λ key.
                  some (some (secret_written key (text_of show w))))
    secret-Similar key v w e = by_tests (is_blank v) (is_blank w) e
      where
        by_keys :
            (o p : Option String)
            → Both Similar
                (o >>= λ key. some (some (secret_written key (text_of show v))))
                (p >>= λ key. some (some (secret_written key (text_of show w))))
        by_keys none p = tt
        by_keys (some k) none = tt
        by_keys (some k) (some l) = refl

        by_tests :
            (x y : Bool)
            → x ≡ y
            → Both Similar
                (if x
                  then some none
                  else eval_string show key s >>= λ key.
                      some (some (secret_written key (text_of show v))))
                (if y
                  then some none
                  else eval_string show key t >>= λ key.
                      some (some (secret_written key (text_of show w))))
        by_tests true true e = refl
        by_tests true false e = absurd (ground arith)
        by_tests false true e = absurd (ground arith)
        by_tests false false e = by_keys (eval_string show key s) (eval_string show key t)

    fact_of-Similar :
        (b : StepBody)
        → reads secrets (step_refs b) ≡ false
        → Both Similar (fact_of matches show b s) (fact_of matches show b t)
    unfolding fact_of scope_get step_refs
    fact_of-Similar (create_topic c) k =
        let both =
          reads-append secrets (value_refs c.topic_id)
            (elim c.title [ none ↦ [] | some x ↦ value_refs x ]) k in
        Both-equal Similar (λ f. refl) (fact_of matches show (create_topic c) s)
          (fact_of matches show (create_topic c) t)
          (ap
              (λ o. o >>= λ id. title_of matches show c.title s >>= λ title. some (
                some (
                  topic_created (record {
                    topic_id = id;
                    topic_kind = c.topic_kind;
                    render_mode = c.render_mode;
                    title = title;
                    description = c.description;
                    tags = c.tags;
                  }))))
              (string_same secrets s t h show c.topic_id both.0)
            ∙ ap
                (λ o. eval_string show c.topic_id t >>= λ id. o >>= λ title. some (
                  some (
                    topic_created (record {
                      topic_id = id;
                      topic_kind = c.topic_kind;
                      render_mode = c.render_mode;
                      title = title;
                      description = c.description;
                      tags = c.tags;
                    }))))
                (title_same c.title both.1))
    fact_of-Similar (declare_processor d) k =
        let both = reads-append secrets (value_refs d.attach_to) (param_refs d.config) k in
        Both-equal Similar (λ f. refl) (fact_of matches show (declare_processor d) s)
          (fact_of matches show (declare_processor d) t)
          (ap
              (λ o. o >>= λ at. eval_template show d.config s >>= λ config. some (
                some (
                  process_registered (record {
                    name = d.name;
                    process_ref = "process:" ⊹ d.process_kind ⊹ ":" ⊹ d.name;
                    process_kind = d.process_kind;
                    attach_to = at;
                    config = config;
                  }))))
              (string_same secrets s t h show d.attach_to both.0)
            ∙ ap
                (λ o. eval_string show d.attach_to t >>= λ at. o >>= λ config. some (
                  some (
                    process_registered (record {
                      name = d.name;
                      process_ref = "process:" ⊹ d.process_kind ⊹ ":" ⊹ d.name;
                      process_kind = d.process_kind;
                      attach_to = at;
                      config = config;
                    }))))
                (template_same secrets s t h show d.config both.1))
    fact_of-Similar (store_secret c) k =
        by_name (has c.from_param s.declared) (has c.from_param t.declared)
      where
        by_name :
            (x y : Bool)
            → Both Similar
                ((if x then some (value_in s c.from_param) else none) >>= λ v.
                  if is_blank v
                  then some none
                  else eval_string show c.key s >>= λ key.
                      some (some (secret_written key (text_of show v))))
                ((if y then some (value_in t c.from_param) else none) >>= λ v.
                  if is_blank v
                  then some none
                  else eval_string show c.key t >>= λ key.
                      some (some (secret_written key (text_of show v))))
        by_name true true =
            secret-Similar c.key (value_in s c.from_param) (value_in t c.from_param)
              (h.blanks c.from_param)
        by_name true false = none_right (
            if is_blank (value_in s c.from_param)
            then some none
            else eval_string show c.key s >>= λ key.
                some (some (secret_written key (text_of show (value_in s c.from_param)))))
          where
            none_right : (o : Option (Option PlannedFact)) → Both Similar o none
            none_right none = tt
            none_right (some f) = tt
        by_name false y = tt

    pub facts_similar :
        (steps : List ProcedureStep)
        → any (λ x. reads secrets (step_refs x.body)) steps ≡ false
        → Both SimilarFacts (facts_of matches show steps s) (facts_of matches show steps t)
    unfolding facts_of
    facts_similar [] k = refl
    facts_similar (x ∷ xs) k =
        Both-bind (λ a b. a ≡ b) SimilarFacts (next x xs s) (next x xs t)
          (guard_holds matches show x.guard s) (guard_holds matches show x.guard t)
          (guard_similar x.guard)
          (λ a b e.
            Both-bind Similar SimilarFacts (rest xs s) (rest xs t)
              (if a then fact_of matches show x.body s else some none)
              (if b then fact_of matches show x.body t else some none) (chosen a b e)
              (λ f g e.
                Both-bind SimilarFacts SimilarFacts (λ fs. some (put f fs)) (λ gs. some (put g gs))
                  (facts_of matches show xs s) (facts_of matches show xs t)
                  (facts_similar xs (ground arith)) (λ fs gs k. put_similar f g fs gs e k)))
      where
        put : Option PlannedFact → List PlannedFact → List PlannedFact
        put f fs = elim f [ none ↦ fs | some f ↦ f ∷ fs ]

        rest : List ProcedureStep → Scope → Option PlannedFact → Option (List PlannedFact)
        rest xs s f = facts_of matches show xs s >>= λ fs. some (put f fs)

        next : ProcedureStep → List ProcedureStep → Scope → Bool → Option (List PlannedFact)
        next x xs s b = (if b then fact_of matches show x.body s else some none) >>= rest xs s

        chosen :
            (a b : Bool)
            → a ≡ b
            → Both Similar
                (if a then fact_of matches show x.body s else some none)
                (if b then fact_of matches show x.body t else some none)
        chosen true true e = fact_of-Similar x.body (ground arith)
        chosen false false e = refl
        chosen true false e = absurd (ground arith)
        chosen false true e = absurd (ground arith)

        put_similar :
            (f g : Option PlannedFact) (fs gs : List PlannedFact)
            → Similar f g
            → SimilarFacts fs gs
            → SimilarFacts (put f fs) (put g gs)
        put_similar none none fs gs e k = k
        put_similar none (some g) fs gs e k = absurd (ground arith)
        put_similar (some f) none fs gs e k = absurd (ground arith)
        put_similar (some f) (some g) fs gs e k = cc
