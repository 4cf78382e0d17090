-- ===== src/Space/Procedure/Secrets.antt =====
-- src-v2/procedure.ts: templates that read no secret have the same value in scopes that differ in secrets.
pub mod Flow
pub mod Result
use sequence.Prelude.{
  String, Bool, true, false, not, ◌&&◌, ◌||◌, ◌≡◌, refl, sym, ◌∙◌, ap, subst, Option, none, some,
  List, [], ◌∷◌, ◌++◌, ◌⊹◌, if◌then◌else◌, arith, has, any, map, All, or_else, lookup, eq_iff, ◌==◌,
}
use sequence.Prelude.Fallible.{◌>>=◌, Both, Both-bind, Both-refl}
use sequence.Lang.{
  Value, undefined, num, bool, str, nil_value, ref, Shape, arr, obj, Values, nil, cons, Fields, end,
  field, is_undefined,
}
use sequence.Lang.Int.{ℤ, ◌*ℤ◌}
use sequence.Compose.Check.{check}
use sequence.Compose.Pairs.{fresh}
use sequence.Space.Procedure.{
  ProcedureParam, ProcedureValue, lit, param, join, coalesce, strip_prefix, ProcedureValues,
  no_values, one_value, TemplateValue, leaf, value, list, object, TemplateValues, no_items,
  one_item, TemplateEntries, no_entries, one_entry, is_blank, is_blank_text, scaled,
  resolve_param_value, Scope, value_in, scope_get, scope_set, text_of, text_or_empty,
  without_prefix, eval_value, eval_join, eval_coalesce, eval_string, eval_template, eval_items,
  eval_entries,
}
use sequence.Space.Procedure.Plan.{
  ProcedureManifest, ProcedureStep, StepBody, StepGuard, always, present, absent, create_topic,
  declare_processor, store_secret, CreateTopic, DeclareProcessor, StoreSecret, ProcedureGap,
  PlannedFact, topic_created, process_registered, secret_written, PlanResult, planned, incomplete,
  leaks, gap, with_gap, supplied, declared_scope, resolve_params, derive, guard_holds, title_of,
  fact_of, facts_of, plan_procedure, secret_params, value_refs, refs_of_all, param_refs, item_refs,
  entry_refs, step_refs, reads,
}

pub reads-append :
    (secrets xs ys : List String)
    → reads secrets (xs ++ ys) ≡ false
    → (reads secrets xs ≡ false) × (reads secrets ys ≡ false)
reads-append secrets [] ys h = (refl, h)
reads-append secrets (x ∷ xs) ys h =
    let rest = reads-append secrets xs ys (ground arith) in (ground arith, rest.1)

-- a fact of a secret, without its key and its value
abbrev pub redacted : PlannedFact → PlannedFact
redacted (secret_written key v) = secret_written "" ""
redacted f = f

abbrev pub redacted_result : PlanResult → PlanResult
redacted_result (planned fs) = planned (map redacted fs)
redacted_result (incomplete gs) = incomplete gs

module _ (secrets : List String) where
  -- Two scopes that differ at most in the values of secrets, and not in which of them are blank.
  pub record SameScope (s t : Scope) : Type 0 where
    pub names : s.declared ≡ t.declared
    pub open_values : (n : String) → has n secrets ≡ false → value_in s n ≡ value_in t n
    pub blanks : (n : String) → is_blank (value_in s n) ≡ is_blank (value_in t n)

  pub SameScope-scope_set :
      (n : String) (v w : Value) (s t : Scope)
      → SameScope s t
      → (has n secrets ≡ false → v ≡ w)
      → is_blank v ≡ is_blank w
      → SameScope (scope_set n v s) (scope_set n w t)
  SameScope-scope_set n v w s t h same blank = record {
    names = ap (λ ns. n ∷ ns) h.names;
    open_values = λ m k. by_name m k (n == m) refl;
    blanks = λ m. by_blank m (n == m);
  }
    where
      by_name :
          (m : String)
          → has m secrets ≡ false
          → (b : Bool) → (n == m) ≡ b
          → or_else (if b then some v else lookup m s.bound) undefined
            ≡ or_else (if b then some w else lookup m t.bound) undefined
      by_name m k true e = same (subst (λ x. has x secrets ≡ false) (sym ((eq_iff n m).0 e)) k)
      by_name m k false e = h.open_values m k

      by_blank :
          (m : String) (b : Bool)
          → is_blank (or_else (if b then some v else lookup m s.bound) undefined)
            ≡ is_blank (or_else (if b then some w else lookup m t.bound) undefined)
      by_blank m true = blank
      by_blank m false = h.blanks m

  module _ (s t : Scope) (h : SameScope s t) where
    pub get_same : (n : String) → has n secrets ≡ false → scope_get n s ≡ scope_get n t
    unfolding scope_get
    get_same n k =
        ap (λ ns. if has n ns then some (value_in s n) else none) h.names
        ∙ ap (λ v. if has n t.declared then some v else none) (h.open_values n k)

    module _ (show : Value → String) where
      mutual
        unfolding eval_value eval_join eval_coalesce value_refs refs_of_all

        pub value_same :
            (v : ProcedureValue)
            → reads secrets (value_refs v) ≡ false
            → eval_value show v s ≡ eval_value show v t
        value_same (lit v) k = refl
        value_same (param name) k = get_same name (ground arith)
        value_same (join parts) k = ap (λ o. o >>= λ text. some (str text)) (join_same parts k)
        value_same (coalesce parts) k = coalesce_same parts k
        value_same (strip_prefix inner prefix) k =
            ap (λ o. o >>= λ r. some (str (without_prefix show prefix (text_or_empty show r))))
              (value_same inner k)

        join_same :
            (vs : ProcedureValues)
            → reads secrets (refs_of_all vs) ≡ false
            → eval_join show vs s ≡ eval_join show vs t
        join_same no_values k = refl
        join_same (one_value v vs) k =
            let both = reads-append secrets (value_refs v) (refs_of_all vs) k in
            ap (λ o. o >>= λ r. eval_join show vs s >>= λ rest. some (text_or_empty show r ⊹ rest))
              (value_same v both.0)
            ∙ ap
                (λ o. eval_value show v t >>= λ r. o >>= λ rest. some (text_or_empty show r ⊹ rest))
                (join_same vs both.1)

        coalesce_same :
            (vs : ProcedureValues)
            → reads secrets (refs_of_all vs) ≡ false
            → eval_coalesce show vs s ≡ eval_coalesce show vs t
        coalesce_same no_values k = refl
        coalesce_same (one_value v vs) k =
            let both = reads-append secrets (value_refs v) (refs_of_all vs) k in
            ap (λ o. o >>= λ r. if is_blank r then eval_coalesce show vs s else some r)
              (value_same v both.0)
            ∙ ap (λ o. eval_value show v t >>= λ r. if is_blank r then o else some r)
                (coalesce_same vs both.1)

      pub string_same :
          (v : ProcedureValue)
          → reads secrets (value_refs v) ≡ false
          → eval_string show v s ≡ eval_string show v t
      unfolding eval_string
      string_same v k =
          ap (λ o. o >>= λ r. if is_blank r then none else some (text_of show r)) (value_same v k)

      mutual
        unfolding eval_template eval_items eval_entries param_refs item_refs entry_refs

        pub template_same :
            (x : TemplateValue)
            → reads secrets (param_refs x) ≡ false
            → eval_template show x s ≡ eval_template show x t
        template_same (leaf v) k = refl
        template_same (value v) k = value_same v k
        template_same (list ts) k = ap (λ o. o >>= λ vs. some (fresh (arr vs))) (items_same ts k)
        template_same (object es) k =
            ap (λ o. o >>= λ fs. some (fresh (obj fs))) (entries_same es k)

        items_same :
            (ts : TemplateValues)
            → reads secrets (item_refs ts) ≡ false
            → eval_items show ts s ≡ eval_items show ts t
        items_same no_items k = refl
        items_same (one_item x ts) k =
            let both = reads-append secrets (param_refs x) (item_refs ts) k in
            ap (λ o. o >>= λ v. eval_items show ts s >>= λ vs. some (cons v vs))
              (template_same x both.0)
            ∙ ap (λ o. eval_template show x t >>= λ v. o >>= λ vs. some (cons v vs))
                (items_same ts both.1)

        entries_same :
            (es : TemplateEntries)
            → reads secrets (entry_refs es) ≡ false
            → eval_entries show es s ≡ eval_entries show es t
        entries_same no_entries k = refl
        entries_same (one_entry n x es) k =
            let both = reads-append secrets (param_refs x) (entry_refs es) k in
            ap
              (λ o. o >>= λ v.
                eval_entries show es s >>= λ fs. some (if is_undefined v then fs else field n v fs))
              (template_same x both.0)
            ∙ ap
                (λ o. eval_template show x t >>= λ v.
                  o >>= λ fs. some (if is_undefined v then fs else field n v fs))
                (entries_same es both.1)
