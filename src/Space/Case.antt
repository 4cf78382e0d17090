-- ===== src/Space/Case.antt =====
-- src-v2/case.ts: concerns, which say how to walk the cells of a kernel, and the walk. The order of texts, the
-- lower case of a text and the arithmetic of a score are parameters; numbers are integers.
pub mod Search
pub mod Walk
use Prim.Native.Char.{code}
use Prim.Native.String
use sequence.Prelude.{
  ℕ, String, Bool, true, false, not, ◌&&◌, ◌||◌, ◌==◌, Option, none, some, List, [], ◌∷◌, ◌⊹◌,
  if◌then◌else◌, or_else, eqb, has,
}
use sequence.Lang.{Value, undefined, bool, num, str, Ty, Constraint, constraints_of}
use sequence.Lang.Int.{ℤ, pos}
use sequence.Kernel.Data.{CellData, Store, InsertInput, Axis, structural, temporal}
use sequence.Kernel.Tree.{find_cell}
use sequence.Kernel.Host.{Env}
use sequence.Kernel.Exec.{M, pure, ◌>>=◌}
use sequence.Kernel.Insert.{insert}
use sequence.Space.Validity.{time_horizon, earlier}

pub record ConcernValueWeights : Type 0 where
  pub base : ℤ
  pub access : ℤ
  pub preference : ℤ
  pub temporal : ℤ

pub record ConcernSpec : Type 0 where
  pub roots : List String
  pub axes : List String
  pub type_kind : Option String
  pub underscore : Bool
  pub horizon : Option ℤ
  pub within_horizon : Bool
  pub value : ConcernValueWeights

-- `text.split(' ')`, the first piece given the characters read so far
words_from : String → String → List String
words_from cur String.[] = cur ∷ []
words_from cur (String.◌∷◌ c s) =
    let next = words_from "" s in
    let same = words_from (cur ⊹ String.◌∷◌ c String.[]) s in
    if eqb (code c) 32 then cur ∷ next else same

unfoldable pub words : String → List String
unfolding words_from
words text = words_from "" text

-- `texts.join(' ')`
unfoldable pub with_spaces : List String → String
with_spaces [] = ""
with_spaces (s ∷ []) = s
with_spaces (s ∷ t ∷ ss) = s ⊹ " " ⊹ with_spaces (t ∷ ss)

-- what is declared of a concern, with nothing where the source has `undefined`
pub record ConcernInput : Type 0 where
  pub roots : Option (List String)
  pub axes : Option (List String)
  pub type_kind : Option String
  pub underscore : Option Bool
  pub within_horizon : Option Bool
  pub horizon : Option ℤ
  pub base : Option ℤ
  pub access : Option ℤ
  pub preference : Option ℤ
  pub temporal : Option ℤ

abbrev pub fact : String → Value → InsertInput
fact path v = record {
  path = path;
  value = v;
  type = none;
  rules = [];
  wheres = [];
  author = none;
  identity = none;
  op = none;
  time = none;
}

-- one fact more, where its value is given
abbrev pub with_fact :
    {A : Type 0} → String → (A → Value) → Option A → List InsertInput → List InsertInput
with_fact path f none facts = facts
with_fact path f (some a) facts = fact path (f a) ∷ facts

-- the facts that `declareConcern` inserts, in order
unfoldable pub concern_facts : String → ConcernInput → List InsertInput
unfolding with_spaces
concern_facts name c =
    let at : String → String = λ p. "_concerns." ⊹ name ⊹ "." ⊹ p in
    fact (at "roots") (str (with_spaces (or_else c.roots ("" ∷ []))))
    ∷ with_fact (at "axes") (λ axes. str (with_spaces axes)) c.axes
        (with_fact (at "filter.typeKind") str c.type_kind (
          with_fact (at "filter.underscore") bool c.underscore (
            with_fact (at "filter.withinHorizon") bool c.within_horizon (
              with_fact (at "horizon") num c.horizon (
                with_fact (at "value.base") num c.base (
                  with_fact (at "value.access") num c.access (
                    with_fact (at "value.preference") num c.preference
                      (with_fact (at "value.temporal") num c.temporal []))))))))

unfoldable pub insert_all : Env → ℕ → List InsertInput → M (Unit {0})
unfolding insert
insert_all env fuel [] = pure tt
insert_all env fuel (i ∷ is) = do r ← insert env fuel i; insert_all env fuel is

-- `declareConcern`
unfoldable pub declare_concern : Env → ℕ → String → ConcernInput → M (Unit {0})
unfolding concern_facts insert_all
declare_concern env fuel name c = insert_all env fuel (concern_facts name c)

abbrev pub value_of : Option CellData → Value
value_of none = undefined
value_of (some d) = d.value

-- the value of the fact of a concern
unfoldable pub read_fact : Store → String → String → Value
unfolding find_cell
read_fact s name p = value_of (find_cell ("_concerns." ⊹ name ⊹ "." ⊹ p) s.root)

abbrev pub as_number : Value → Option ℤ
as_number (num n) = some n
as_number v = none

abbrev pub as_text : Value → Option String
as_text (str t) = some t
as_text v = none

abbrev pub is_true : Value → Bool
is_true (bool b) = b
is_true v = false

abbrev pub axes_in : Value → List String
unfolding words
axes_in (str t) = if t == "" then "structural" ∷ [] else words t
axes_in v = "structural" ∷ []

-- `readConcern`
unfoldable pub read_concern : Store → String → Option ConcernSpec
unfolding read_fact words axes_in
read_concern s name = elim (as_text (read_fact s name "roots")) [
  | none ↦ none
  | some roots ↦ some (record {
    roots = if roots == "" then "" ∷ [] else words roots;
    axes = axes_in (read_fact s name "axes");
    type_kind = as_text (read_fact s name "filter.typeKind");
    underscore = is_true (read_fact s name "filter.underscore");
    horizon = as_number (read_fact s name "horizon");
    within_horizon = is_true (read_fact s name "filter.withinHorizon");
    value = record {
      base = or_else (as_number (read_fact s name "value.base")) (pos 0);
      access = or_else (as_number (read_fact s name "value.access")) (pos 1);
      preference = or_else (as_number (read_fact s name "value.preference")) (pos 1);
      temporal = or_else (as_number (read_fact s name "value.temporal")) (pos 1);
    };
  })
]

-- the earliest horizon of a list of constraints
unfoldable pub earliest : Option ℤ → List Constraint → Option ℤ
unfolding time_horizon
earliest least [] = least
earliest least (c ∷ cs) = earliest (earlier least (time_horizon c)) cs

-- `cellTimeBound`
unfoldable pub cell_time_bound : Option Ty → Option ℤ
unfolding earliest
cell_time_bound none = none
cell_time_bound (some t) = earliest none (constraints_of t)
