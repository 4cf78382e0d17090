-- ===== src/Space/Procedure.antt =====
-- src-v2/procedure.ts: the manifest of an installation and the values of its parameters. A throw is
-- `none`. Numbers are integers, so that the rounding of a number does nothing; the text of a value that is
-- no text is the parameter `show`. A scope is read by name alone, so its newest binding stands first.
pub mod Plan
pub mod Config
pub mod Secrets
pub mod Gaps
pub mod Tests
use Prim.Native.Char.{code}
use Prim.Native.String
use sequence.Prelude.{
  ℕ, String, Bool, true, false, not, ◌&&◌, ◌||◌, Option, none, some, List, [], ◌∷◌, ◌++◌, ◌⊹◌,
  if◌then◌else◌, has, lookup, or_else, starts_with, is_space,
}
use sequence.Prelude.Fallible.{◌>>=◌}
use sequence.Lang.{
  Value, undefined, nil_value, bool, num, str, ref, Shape, arr, obj, Values, nil, cons, Fields, end,
  field, Ty, is_undefined,
}
use sequence.Lang.Int.{ℤ, ◌*ℤ◌}
use sequence.Compose.Pairs.{fresh}
use sequence.Compose.Backward.{slice_from}

pub record ProcedureParam : Type 0 where
  pub name : String
  pub type : Ty
  pub label : Option String
  pub description : Option String
  pub default : Value
  pub optional : Bool
  pub secret : Bool
  pub scale : Option ℤ
  pub round : Bool
  pub ui : Value

mutual
  pub data ProcedureValue : Type 0 where
    lit : Value → ProcedureValue
    param : String → ProcedureValue
    join : ProcedureValues → ProcedureValue
    coalesce : ProcedureValues → ProcedureValue
    strip_prefix : ProcedureValue → String → ProcedureValue

  pub data ProcedureValues : Type 0 where
    no_values : ProcedureValues
    one_value : ProcedureValue → ProcedureValues → ProcedureValues

mutual
  -- a leaf is a text, a number, a Boolean or null
  pub data TemplateValue : Type 0 where
    leaf : Value → TemplateValue
    value : ProcedureValue → TemplateValue
    list : TemplateValues → TemplateValue
    object : TemplateEntries → TemplateValue

  pub data TemplateValues : Type 0 where
    no_items : TemplateValues
    one_item : TemplateValue → TemplateValues → TemplateValues

  pub data TemplateEntries : Type 0 where
    no_entries : TemplateEntries
    one_entry : String → TemplateValue → TemplateEntries → TemplateEntries

unfoldable pub is_blank_text : String → Bool
is_blank_text String.[] = true
is_blank_text (String.◌∷◌ c s) = is_space c && is_blank_text s

unfoldable pub is_blank : Value → Bool
unfolding is_blank_text
is_blank undefined = true
is_blank nil_value = true
is_blank (str s) = is_blank_text s
is_blank v = false

unfoldable pub scaled : Option ℤ → Value → Value
unfolding ◌*ℤ◌
scaled (some k) (num n) = num (n *ℤ k)
scaled _ v = v

-- `resolveParamValue`
unfoldable pub resolve_param_value : ProcedureParam → Value → Value
unfolding is_blank scaled
resolve_param_value p supplied =
    let v = if is_blank supplied then p.default else supplied in
    if is_blank v then undefined else scaled p.scale v

pub record Scope : Type 0 where
  pub declared : List String
  pub bound : List (String × Value)

abbrev pub value_in : Scope → String → Value
value_in s name = or_else (lookup name s.bound) undefined

unfoldable pub scope_get : String → Scope → Option Value
scope_get name s = if has name s.declared then some (value_in s name) else none

abbrev pub scope_set : String → Value → Scope → Scope
scope_set name v s = record { declared = name ∷ s.declared; bound = (name, v) ∷ s.bound }

module _ (show : Value → String) where
  -- `String(v)`
  abbrev pub text_of : Value → String
  text_of (str s) = s
  text_of v = show v

  abbrev pub text_or_empty : Value → String
  unfolding is_blank
  text_or_empty v = if is_blank v then "" else text_of v

  abbrev pub without_prefix : String → String → String
  unfolding starts_with slice_from
  without_prefix prefix s = if starts_with s prefix then slice_from (size prefix) s else s
    where
      size : String → ℕ
      size String.[] = 0
      size (String.◌∷◌ c s) = ℕ.suc (size s)

  unfoldable mutual
    unfolding is_blank scope_get starts_with slice_from

    pub eval_value : ProcedureValue → Scope → Option Value
    eval_value (lit v) s = some v
    eval_value (param name) s = scope_get name s
    eval_value (join parts) s = do text ← eval_join parts s; some (str text)
    eval_value (coalesce parts) s = eval_coalesce parts s
    eval_value (strip_prefix inner prefix) s = do
      r ← eval_value inner s
      some (str (without_prefix prefix (text_or_empty r)))

    pub eval_join : ProcedureValues → Scope → Option String
    eval_join no_values s = some ""
    eval_join (one_value part parts) s = do
      r ← eval_value part s
      rest ← eval_join parts s
      some (text_or_empty r ⊹ rest)

    pub eval_coalesce : ProcedureValues → Scope → Option Value
    eval_coalesce no_values s = some undefined
    eval_coalesce (one_value part parts) s =
        let later = eval_coalesce parts s in
        eval_value part s >>= λ r. if is_blank r then later else some r

  -- `evalString`
  unfoldable pub eval_string : ProcedureValue → Scope → Option String
  unfolding eval_value is_blank
  eval_string v s = do r ← eval_value v s; if is_blank r then none else some (text_of r)

  unfoldable mutual
    unfolding eval_value

    pub eval_template : TemplateValue → Scope → Option Value
    eval_template (leaf v) s = some v
    eval_template (value v) s = eval_value v s
    eval_template (list ts) s = do vs ← eval_items ts s; some (fresh (arr vs))
    eval_template (object es) s = do fs ← eval_entries es s; some (fresh (obj fs))

    pub eval_items : TemplateValues → Scope → Option Values
    eval_items no_items s = some nil
    eval_items (one_item t ts) s = do v ← eval_template t s; vs ← eval_items ts s; some (cons v vs)

    pub eval_entries : TemplateEntries → Scope → Option Fields
    eval_entries no_entries s = some end
    eval_entries (one_entry k t es) s = do
      v ← eval_template t s
      fs ← eval_entries es s
      some (if is_undefined v then fs else field k v fs)
