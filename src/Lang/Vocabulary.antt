-- ===== src/Lang/Vocabulary.antt =====
-- src/type.ts: the constructors of constraints and types, and the queries on them. An object that is an
-- argument comes with its identity.
pub mod Clauses
pub mod Template
use mathlib.Core.Option
use sequence.Prelude.{
  ℕ, String, Bool, false, Option, none, some, List, [], ◌∷◌, ◌==◌, map, or_else, keep, find_first,
  if◌then◌else◌, ◌++◌, ◌≡◌, refl, ap, All,
}
use sequence.Lang.{
  arg, Kind, never, any, Value, undefined, bool, num, str, ref, type_of, Values, nil, cons, Fields,
  end, field, Constraint, con, Ty, ty, from_list, op_of, constraints_of, constraints,
}
use sequence.Lang.Int.{ℤ}

-- an object that is a type
abbrev pub TypeObject : Type 0
TypeObject = ℕ × Ty

abbrev pub held : TypeObject → Value
held (i, t) = ref i (type_of t)

abbrev number_or : Option ℤ → Value
number_or none = undefined
number_or (some n) = num n

abbrev texts : List String → Values
texts [] = nil
texts (s ∷ ss) = cons (str s) (texts ss)

abbrev pub literal : Value → Constraint
literal value = con "literal" (cons value nil)

abbrev pub min : ℤ → Constraint
min value = con "min" (cons (num value) nil)

abbrev pub max : ℤ → Constraint
max value = con "max" (cons (num value) nil)

abbrev pub range : ℤ → ℤ → Constraint
range lo hi = con "range" (cons (num lo) (cons (num hi) nil))

abbrev pub length : Option ℤ → Option ℤ → Constraint
length min_len max_len = con "length" (cons (number_or min_len) (cons (number_or max_len) nil))

abbrev pub pattern : String → Constraint
pattern re = con "pattern" (cons (str re) nil)

abbrev pub element : TypeObject → Constraint
element t = con "element" (cons (held t) nil)

abbrev pub array_length : Option ℤ → Option ℤ → Constraint
array_length min_len max_len =
    con "arrayLength" (cons (number_or min_len) (cons (number_or max_len) nil))

abbrev pub param : TypeObject → Constraint
param t = con "param" (cons (held t) nil)

abbrev pub returns : TypeObject → Constraint
returns t = con "returns" (cons (held t) nil)

abbrev pub impl : String → Constraint
impl id = con "impl" (cons (str id) nil)

abbrev pub identity : String → String → Constraint
identity output_path input_path =
    con "identity" (cons (str output_path) (cons (str input_path) nil))

abbrev pub temporal : String → String → Value → Constraint
temporal dir lhs bound = con "temporal" (cons (str dir) (cons (str lhs) (cons bound nil)))

abbrev pub equation : String → String → Option Value → Constraint
equation lhs rhs opts =
    con "equation" (cons (str lhs) (cons (str rhs) (cons (or_else opts undefined) nil)))

abbrev pub distribution : String → String → Value → Constraint
distribution prop family params =
    con "distribution" (cons (str prop) (cons (str family) (cons params nil)))

abbrev pub decay : String → Value → Constraint
decay family params_or_fn = con "decay" (cons (str family) (cons params_or_fn nil))

abbrev pub prior : String → String → Value → Constraint
prior name family initial = con "prior" (cons (str name) (cons (str family) (cons initial nil)))

abbrev pub law : Value → Constraint
law spec = con "law" (cons spec nil)

abbrev pub history : String → String → Option Value → Constraint
history kind method filter =
    con "history" (cons (str kind) (cons (str method) (cons (or_else filter undefined) nil)))

abbrev pub ref_to : String → Constraint
ref_to source = con "ref" (cons (str source) nil)

abbrev pub computable : String → Value → Constraint
computable output_path expr = con "computable" (cons (str output_path) (cons expr nil))

abbrev pub auth : String → Constraint
auth identity_path = con "auth" (cons (str identity_path) nil)

abbrev pub produced_by : String → Option ℤ → Constraint
produced_by producer max_age = con "producedBy" (cons (str producer) (cons (number_or max_age) nil))

abbrev pub partition : String → Constraint
partition p = con "partition" (cons (str p) nil)

abbrev pub cdf_gte : String → Value → Value → Constraint
cdf_gte path t p = con "cdf_gte" (cons (str path) (cons t (cons p nil)))

abbrev pub concrete_at : String → Value → Constraint
concrete_at path t = con "concrete_at" (cons (str path) (cons t nil))

abbrev pub version : ℤ → Constraint
version n = con "version" (cons (num n) nil)

abbrev pub default_value : Value → Constraint
default_value value = con "default" (cons value nil)

abbrev pub exists : String → Constraint
exists path = con "exists" (cons (str path) nil)

abbrev pub not_exists : String → Constraint
not_exists path = con "notExists" (cons (str path) nil)

abbrev pub eq : String → Value → Constraint
eq path value = con "eq" (cons (str path) (cons value nil))

abbrev pub neq : String → Value → Constraint
neq path value = con "neq" (cons (str path) (cons value nil))

abbrev pub lt : String → Value → Constraint
lt path value = con "lt" (cons (str path) (cons value nil))

abbrev pub lte : String → Value → Constraint
lte path value = con "lte" (cons (str path) (cons value nil))

abbrev pub gt : String → Value → Constraint
gt path value = con "gt" (cons (str path) (cons value nil))

abbrev pub gte : String → Value → Constraint
gte path value = con "gte" (cons (str path) (cons value nil))

abbrev pub count_lt : String → ℤ → Constraint
count_lt path n = con "count_lt" (cons (str path) (cons (num n) nil))

abbrev pub count_gte : String → ℤ → Constraint
count_gte path n = con "count_gte" (cons (str path) (cons (num n) nil))

abbrev pub bind_from : String → String → Constraint
bind_from var_name glob_path = con "bind_from" (cons (str var_name) (cons (str glob_path) nil))

abbrev pub index_spec : Value → Constraint
index_spec spec = con "index_spec" (cons spec nil)

abbrev pub regex : String → String → Constraint
regex path re = con "regex" (cons (str path) (cons (str re) nil))

abbrev pub between : String → Value → Value → Constraint
between path lo hi = con "between" (cons (str path) (cons lo (cons hi nil)))

abbrev pub contains : String → Value → Constraint
contains path value = con "contains" (cons (str path) (cons value nil))

abbrev pub satisfies : String → TypeObject → Constraint
satisfies path t = con "satisfies" (cons (str path) (cons (held t) nil))

abbrev pub preserves : String → Option String → Constraint
preserves input_path output_path =
    con "preserves" (cons (str input_path) (cons (str (or_else output_path input_path)) nil))

abbrev pub derived : String → List String → Constraint
derived fn_id arg_paths = con "derived" (cons (str fn_id) (texts arg_paths))

abbrev pub key : List String → Constraint
key fields = con "key" (texts fields)

abbrev pub endpoint : String → Option Value → Constraint
endpoint url opts = con "endpoint" (cons (str url) (elim opts [ none ↦ nil | some o ↦ cons o nil ]))

abbrev pub response_policy : Option ℤ → Option ℤ → Option String → Constraint
response_policy timeout confidence escalation = con "responsePolicy" (
    cons (number_or timeout)
      (cons (number_or confidence) (cons (str (or_else escalation "warning")) nil)))

abbrev pub property : String → TypeObject → Option Bool → Constraint
property name t optional =
    con "property" (cons (str name) (cons (held t) (cons (bool (or_else optional false)) nil)))

abbrev pub create_type : Kind → List Constraint → Fields → Ty
create_type kind cs meta = ty kind (from_list cs) meta

abbrev pub any_type : Ty
any_type = create_type any [] end

abbrev pub never_type : Option String → Ty
never_type none = create_type never [] end
never_type (some reason) =
    create_type never [] (if reason == "" then end else field "reason" (str reason) end)

unfoldable pub constraints_with : Ty → String → List Constraint
constraints_with t op = keep (λ c. op_of c == op) (constraints_of t)

unfoldable pub constraint_with : Ty → String → Option Constraint
constraint_with t op = find_first (λ c. op_of c == op) (constraints_of t)

unfoldable pub literal_value : Ty → Value
unfolding constraint_with
literal_value t = or_else (Option.map (arg 0) (constraint_with t "literal")) undefined

unfoldable pub element_type : Ty → Value
unfolding constraint_with
element_type t = or_else (Option.map (arg 0) (constraint_with t "element")) undefined

pub record Property : Type 0 where
  pub name : Value
  pub type : Value
  pub optional : Value

unfoldable pub properties : Ty → List Property
unfolding constraints_with
properties t =
    map (λ c. record { name = arg 0 c; type = arg 1 c; optional = arg 2 c })
      (constraints_with t "property")

-- what an entry of an object type is built of
abbrev pub declared : String × TypeObject × Option Bool → Constraint
declared (name, t, optional) = property name t optional

abbrev pub listed : String × TypeObject × Option Bool → Property
listed (name, t, optional) = record {
  name = str name;
  type = held t;
  optional = bool (or_else optional false);
}

-- a constraint that is no property
abbrev pub IsOther : Constraint → Type 0
IsOther c = (op_of c == "property") ≡ false

properties_of :
    (others : List Constraint) → All IsOther others → keep (λ c. op_of c == "property") others ≡ []
properties_of [] h = refl
properties_of (c ∷ cs) (h, hs) = rw h (properties_of cs hs)

pub constraints-from_list : (cs : List Constraint) → constraints (from_list cs) ≡ cs
constraints-from_list [] = refl
constraints-from_list (c ∷ cs) = ap (λ ds. c ∷ ds) (constraints-from_list cs)

-- The properties of a type that was created with a list of properties, before other constraints, are
-- those properties, in order, each with its key, its type and whether it is optional.
pub properties-create_type :
    (kind : Kind) (ps : List (String × TypeObject × Option Bool)) (others : List Constraint)
    (meta : Fields)
    → All IsOther others
    → properties (create_type kind (map declared ps ++ others) meta) ≡ map listed ps
unfolding properties constraints_with
properties-create_type kind ps others meta h =
    rw (constraints-from_list (map declared ps ++ others)) (go ps)
  where
    go :
        (ps : List (String × TypeObject × Option Bool))
        → map
            (λ c. record { name = arg 0 c; type = arg 1 c; optional = arg 2 c })
            (keep (λ c. op_of c == "property") (map declared ps ++ others))
          ≡ map listed ps
    go [] = rw (properties_of others h) refl
    go (p ∷ ps) = ap (λ qs. listed p ∷ qs) (go ps)
