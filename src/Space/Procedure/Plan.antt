-- ===== src/Space/Procedure/Plan.antt =====
-- src-v2/procedure.ts: `lintSecretFlow`, `planProcedure` and `procedureGaps`.
use sequence.Prelude.{
  String, Bool, true, not, ◌&&◌, ◌||◌, Option, none, some, List, [], ◌∷◌, ◌++◌, ◌⊹◌, if◌then◌else◌,
  has, lookup, or_else, any, map, keep,
}
use sequence.Prelude.Fallible.{◌>>=◌}
use sequence.Lang.{Value, undefined, Kind, kind_of, is_undefined}
use sequence.Compose.Check.{check}
use sequence.Space.Procedure.{
  ProcedureParam, ProcedureValue, lit, param, join, coalesce, strip_prefix, ProcedureValues,
  no_values, one_value, TemplateValue, leaf, value, list, object, TemplateValues, no_items,
  one_item, TemplateEntries, no_entries, one_entry, is_blank, resolve_param_value, Scope, scope_get,
  scope_set, text_of, eval_value, eval_string, eval_template,
}

pub data StepGuard : Type 0 where
  always : StepGuard
  present : String → StepGuard
  absent : String → StepGuard

pub record CreateTopic : Type 0 where
  pub topic_id : ProcedureValue
  pub topic_kind : String
  pub render_mode : Option String
  pub title : Option ProcedureValue
  pub description : Option String
  pub tags : Option (List String)

pub record DeclareProcessor : Type 0 where
  pub name : String
  pub process_kind : String
  pub attach_to : ProcedureValue
  pub config : TemplateValue

pub record StoreSecret : Type 0 where
  pub key : ProcedureValue
  pub from_param : String

pub data StepBody : Type 0 where
  create_topic : CreateTopic → StepBody
  declare_processor : DeclareProcessor → StepBody
  store_secret : StoreSecret → StepBody

pub record ProcedureStep : Type 0 where
  pub body : StepBody
  pub guard : StepGuard

pub record ProcedureManifest : Type 0 where
  pub id : String
  pub version : String
  pub title : String
  pub description : Option String
  pub tags : Option (List String)
  pub params : List ProcedureParam
  pub derived : List (String × ProcedureValue)
  pub steps : List ProcedureStep

pub record TopicFact : Type 0 where
  pub topic_id : String
  pub topic_kind : String
  pub render_mode : Option String
  pub title : Option String
  pub description : Option String
  pub tags : Option (List String)

pub record ProcessFact : Type 0 where
  pub name : String
  pub process_ref : String
  pub process_kind : String
  pub attach_to : String
  pub config : Value

pub data PlannedFact : Type 0 where
  topic_created : TopicFact → PlannedFact
  process_registered : ProcessFact → PlannedFact
  -- a key and a value
  secret_written : String → String → PlannedFact

pub record ProcedureGap : Type 0 where
  pub name : String
  pub kind : Kind
  pub label : Option String
  pub description : Option String
  pub secret : Bool
  pub ui : Value

pub data PlanResult : Type 0 where
  planned : List PlannedFact → PlanResult
  incomplete : List ProcedureGap → PlanResult

-- `collectValueRefs`
unfoldable mutual
  pub value_refs : ProcedureValue → List String
  value_refs (lit v) = []
  value_refs (param name) = name ∷ []
  value_refs (join parts) = refs_of_all parts
  value_refs (coalesce parts) = refs_of_all parts
  value_refs (strip_prefix inner prefix) = value_refs inner

  pub refs_of_all : ProcedureValues → List String
  refs_of_all no_values = []
  refs_of_all (one_value v vs) = value_refs v ++ refs_of_all vs

-- `collectParamRefs`
unfoldable mutual
  unfolding value_refs

  pub param_refs : TemplateValue → List String
  param_refs (leaf v) = []
  param_refs (value v) = value_refs v
  param_refs (list ts) = item_refs ts
  param_refs (object es) = entry_refs es

  pub item_refs : TemplateValues → List String
  item_refs no_items = []
  item_refs (one_item t ts) = param_refs t ++ item_refs ts

  pub entry_refs : TemplateEntries → List String
  entry_refs no_entries = []
  entry_refs (one_entry k t es) = param_refs t ++ entry_refs es

abbrev pub secret_params : ProcedureManifest → List String
secret_params m = map (λ p. p.name) (keep (λ p. p.secret) m.params)

unfoldable pub step_refs : StepBody → List String
unfolding value_refs param_refs
step_refs (create_topic c) =
    value_refs c.topic_id ++ elim c.title [ none ↦ [] | some t ↦ value_refs t ]
step_refs (declare_processor d) = value_refs d.attach_to ++ param_refs d.config
step_refs (store_secret s) = []

-- whether one of the names is secret
abbrev pub reads : List String → List String → Bool
reads secrets refs = any (λ r. has r secrets) refs

-- where `lintSecretFlow` throws
unfoldable pub leaks : ProcedureManifest → Bool
unfolding value_refs param_refs step_refs
leaks m =
    any (λ d. reads (secret_params m) (value_refs d.1)) m.derived
    || any (λ s. reads (secret_params m) (step_refs s.body)) m.steps

abbrev pub gap : ProcedureParam → ProcedureGap
gap p = record {
  name = p.name;
  kind = kind_of p.type;
  label = p.label;
  description = p.description;
  secret = p.secret;
  ui = p.ui;
}

abbrev pub with_gap : ProcedureParam → List ProcedureGap → List ProcedureGap
with_gap p gaps = if p.optional then gaps else gap p ∷ gaps

-- a field of the values that were supplied
abbrev pub supplied : List (String × Value) → String → Value
supplied vs name = or_else (lookup name vs) undefined

abbrev pub declared_scope : List ProcedureParam → Scope
declared_scope ps = record { declared = map (λ p. p.name) ps; bound = [] }

module _ (matches : String → String → Bool) (show : Value → String) where
  -- the loop over the parameters: the scope that comes of it, and the gaps
  unfoldable pub resolve_params :
      List (String × Value) → List ProcedureParam → Scope → Option (Scope × List ProcedureGap)
  unfolding resolve_param_value check
  resolve_params vs [] s = some (s, [])
  resolve_params vs (p ∷ ps) s =
      let v = resolve_param_value p (supplied vs p.name) in
      let skipped = resolve_params vs ps s in
      let taken = resolve_params vs ps (scope_set p.name v s) in
      if is_undefined v
      then (skipped >>= λ r. some (r.0, with_gap p r.1))
      else if check matches p.type v
      then taken
      else none

  unfoldable pub derive : List (String × ProcedureValue) → Scope → Option Scope
  unfolding eval_value
  derive [] s = some s
  derive (d ∷ ds) s = do v ← eval_value show d.1 s; derive ds (scope_set d.0 v s)

  -- `guardHolds`
  unfoldable pub guard_holds : StepGuard → Scope → Option Bool
  unfolding scope_get is_blank
  guard_holds always s = some true
  guard_holds (present name) s = do v ← scope_get name s; some (not (is_blank v))
  guard_holds (absent name) s = do v ← scope_get name s; some (is_blank v)

  unfoldable pub title_of : Option ProcedureValue → Scope → Option (Option String)
  unfolding eval_string
  title_of none s = some none
  title_of (some t) s = do text ← eval_string show t s; some (some text)

  -- the fact of a step, if it has one
  unfoldable pub fact_of : StepBody → Scope → Option (Option PlannedFact)
  unfolding eval_string eval_template scope_get is_blank title_of
  fact_of (create_topic c) s = do
    id ← eval_string show c.topic_id s
    title ← title_of c.title s
    some (
        some (
          topic_created (record {
            topic_id = id;
            topic_kind = c.topic_kind;
            render_mode = c.render_mode;
            title = title;
            description = c.description;
            tags = c.tags;
          })))
  fact_of (declare_processor d) s = do
    at ← eval_string show d.attach_to s
    config ← eval_template show d.config s
    some (
        some (
          process_registered (record {
            name = d.name;
            process_ref = "process:" ⊹ d.process_kind ⊹ ":" ⊹ d.name;
            process_kind = d.process_kind;
            attach_to = at;
            config = config;
          })))
  fact_of (store_secret c) s = do
    v ← scope_get c.from_param s
    if is_blank v
        then some none
        else eval_string show c.key s >>= λ key. some (some (secret_written key (text_of show v)))

  unfoldable pub facts_of : List ProcedureStep → Scope → Option (List PlannedFact)
  unfolding guard_holds fact_of
  facts_of [] s = some []
  facts_of (step ∷ steps) s = do
    holds ← guard_holds step.guard s
    fact ← (if holds then fact_of step.body s else some none)
    facts ← facts_of steps s
    some (elim fact [ none ↦ facts | some f ↦ f ∷ facts ])

  -- `planProcedure`
  unfoldable pub plan_procedure : ProcedureManifest → List (String × Value) → Option PlanResult
  unfolding leaks resolve_params derive facts_of
  plan_procedure m vs =
      if leaks m
      then none
      else resolve_params vs m.params (declared_scope m.params) >>= λ r. elim r.1 [
        | g ∷ gs ↦ some (incomplete (g ∷ gs))
        | [] ↦ derive m.derived r.0 >>= λ s. facts_of m.steps s >>= λ fs. some (planned fs)
      ]

-- `procedureGaps`
unfoldable pub procedure_gaps : List ProcedureParam → List (String × Value) → List ProcedureGap
unfolding resolve_param_value
procedure_gaps [] vs = []
procedure_gaps (p ∷ ps) vs =
    let rest = procedure_gaps ps vs in
    if is_undefined (resolve_param_value p (supplied vs p.name)) && not p.optional
    then gap p ∷ rest
    else rest
