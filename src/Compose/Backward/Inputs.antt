-- ===== src/Compose/Backward/Inputs.antt =====
-- src/compose.ts, `backwardInfer`: what it asks of an input is made of parts of the required type.
use mathlib.Core.Option
use sequence.Prelude.{
  ℕ, String, Bool, true, false, ◌≡◌, refl, List, [], ◌∷◌, Option, none, some, arith, All, map, keep,
  find_first, if◌then◌else◌, ◌==◌,
}
use sequence.Lang.{
  object, Value, ref, type_of, bool, str, arg, same, Constraint, con, Ty, constraints, op_of,
}
use sequence.Lang.Vocabulary.{Property, properties, constraints_with}
use sequence.Compose.Lattice.{has_kind}
use sequence.Compose.Lower.{
  Plain, PlainOne, nothing, anything, union, base, property, element, flat, bounded,
}
use sequence.Compose.Lower.Table.{is_length-unspecial}
use sequence.Compose.Lower.Base.{plain_each}
use sequence.Compose.Backward.{carried, mapped_from, input_path, mapped_inputs, required_at}

-- a property with a text for its key, a plain type, and a test of whether it is optional
pub data PlainProperty : Property → Type 0 where
  plain_property :
      {k : String} {i : ℕ} {t : Ty} {o : Bool}
      → Plain t
      → PlainProperty (record { name = str k; type = ref i (type_of t); optional = bool o })

pub data PlainValue : Value → Type 0 where
  plain_value : {i : ℕ} {t : Ty} → Plain t → PlainValue (ref i (type_of t))

unfoldable declared : Constraint → Property
declared c = record { name = arg 0 c; type = arg 1 c; optional = arg 2 c }

another_op :
    (c : Constraint) (cs : List Constraint)
    → (op_of c == "property") ≡ false
    → All PlainProperty (map declared (keep (λ c. op_of c == "property") cs))
    → All PlainProperty (map declared (keep (λ c. op_of c == "property") (c ∷ cs)))
another_op c cs e h = by_test (op_of c == "property") e
  where
    by_test :
        (b : Bool)
        → b ≡ false
        → All PlainProperty (
            map declared (
              if b
              then c ∷ keep (λ c. op_of c == "property") cs
              else keep (λ c. op_of c == "property") cs))
    by_test true e = absurd (ground arith)
    by_test false e = h

properties_in-PlainProperty :
    (cs : List Constraint)
    → All PlainOne cs
    → All PlainProperty (map declared (keep (λ c. op_of c == "property") cs))
unfolding declared
properties_in-PlainProperty [] h = tt
properties_in-PlainProperty (c ∷ cs) (property p, hs) =
    (plain_property p, properties_in-PlainProperty cs hs)
properties_in-PlainProperty (c ∷ cs) (element p, hs) = properties_in-PlainProperty cs hs
properties_in-PlainProperty (c ∷ cs) (flat {op} {args} h l, hs) =
    another_op (con op args) cs (ground arith) (properties_in-PlainProperty cs hs)
properties_in-PlainProperty (c ∷ cs) (bounded {op} {args} l b, hs) =
    let plain = is_length-unspecial op l in
    another_op (con op args) cs (ground arith) (properties_in-PlainProperty cs hs)

pub properties-PlainProperty :
    (t : Ty) → Plain t → has_kind object t ≡ true → All PlainProperty (properties t)
unfolding properties constraints_with declared
properties-PlainProperty _ nothing h = absurd (ground arith)
properties-PlainProperty _ anything h = absurd (ground arith)
properties-PlainProperty _ (union p) h = absurd (ground arith)
properties-PlainProperty _ (base {k} {cs} e p) h =
    properties_in-PlainProperty (constraints cs) (plain_each cs p)

carried-PlainOne : (k : String) (p : Property) → PlainProperty p → PlainOne (carried (str k) p)
carried-PlainOne k _ (plain_property h) = property h

pub carried_all :
    (ps : List Property) → All PlainProperty ps → All PlainOne (map (λ p. carried p.name p) ps)
carried_all [] h = tt
carried_all (p ∷ ps) (plain_property h, hs) = (property h, carried_all ps hs)

pub mapped_inputs-PlainOne :
    (preserved : List Constraint) (ps : List Property)
    → All PlainProperty ps
    → All PlainOne (mapped_inputs preserved ps)
unfolding mapped_inputs
mapped_inputs-PlainOne preserved [] h = tt
mapped_inputs-PlainOne preserved (p ∷ ps) (h, hs) =
    by_path (input_path (mapped_from preserved p.name)) (mapped_inputs-PlainOne preserved ps hs)
  where
    by_path :
        (o : Option String)
        → All PlainOne (mapped_inputs preserved ps)
        → All PlainOne (elim o [
          | none ↦ mapped_inputs preserved ps
          | some s ↦ carried (str s) p ∷ mapped_inputs preserved ps
        ])
    by_path none k = k
    by_path (some s) k = (carried-PlainOne s p h, k)

abbrev pub Maybe : {A : Type 0} → (A → Type 0) → Option A → Type 0
Maybe P none = Unit
Maybe P (some a) = P a

type_found :
    (f : Property → Bool) (ps : List Property)
    → All PlainProperty ps
    → Maybe PlainValue (Option.map (λ p. p.type) (find_first f ps))
type_found f [] h = tt
type_found f (p ∷ ps) (plain_property {k} {i} {t} {o} h, hs) =
    by_test (f (record { name = str k; type = ref i (type_of t); optional = bool o }))
      (type_found f ps hs)
  where
    by_test :
        (b : Bool)
        → Maybe PlainValue (Option.map (λ p. p.type) (find_first f ps))
        → Maybe PlainValue (
            Option.map
              (λ p. p.type)
              (if b
                then some (record { name = str k; type = ref i (type_of t); optional = bool o })
                else find_first f ps))
    by_test true m = plain_value h
    by_test false m = m

pub required_at-PlainValue :
    (required : Ty) (path : Value) → Plain required → Maybe PlainValue (required_at required path)
unfolding required_at
required_at-PlainValue required path p =
    by_tests (same path (str ".")) (has_kind object required) (properties-PlainProperty required p)
  where
    by_tests :
        (x y : Bool)
        → (y ≡ true → All PlainProperty (properties required))
        → Maybe PlainValue (
            if x
            then some (ref 0 (type_of required))
            else if y
            then Option.map (λ p. p.type) (find_first (λ p. same p.name path) (properties required))
            else none)
    by_tests true y h = plain_value p
    by_tests false true h = type_found (λ p. same p.name path) (properties required) (h refl)
    by_tests false false h = tt
