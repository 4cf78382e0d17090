-- ===== src/Kernel/Guards.antt =====
-- src-v2/sequence.ts, `installBuiltinGuards`: the guards of the kernel, as functions of a constraint and
-- its context.
mod Scope
mod Order
mod Paths
unfoldable pub use Scope.*
unfoldable pub use Order.*
unfoldable pub use Paths.*
use Prim.Native.Nat.{Ordering}
use mathlib.Core.Option
use sequence.Prelude.{
  ℕ, ◌+◌, ◌-◌, String, Bool, true, false, not, ◌&&◌, ◌||◌, Option, none, some, List, [], ◌∷◌, ◌++◌,
  ◌==◌, ◌⊹◌, if◌then◌else◌, leb, eqb, starts_with, or_else,
}
use sequence.Lang.{
  Kind, string, number, boolean, null, object, array, fn, any, never, or, Value, undefined,
  nil_value, bool, num, str, ref, Shape, arr, constraint_of, Values, nil, cons, Constraint, con,
  kind_of, same, is_undefined, values,
}
use sequence.Kernel.Data.{
  DeltaKind, none_changed, value_changed, type_changed, invocation, retraction, access_hit,
  access_miss, Rule,
}
use sequence.Kernel.Host.{Host, ret, get, insert, peek, now, next_sequence, GuardCtx}

abbrev pub kind_name : Kind → String
kind_name string = "string"
kind_name number = "number"
kind_name boolean = "boolean"
kind_name null = "null"
kind_name object = "object"
kind_name array = "array"
kind_name fn = "fn"
kind_name any = "any"
kind_name never = "never"
kind_name or = "or"

abbrev delta_name : DeltaKind → String
delta_name none_changed = "none"
delta_name value_changed = "value"
delta_name type_changed = "type"
delta_name invocation = "invocation"
delta_name retraction = "retraction"
delta_name access_hit = "access"
delta_name access_miss = "access"

-- `args[0]` and `args[1]`
abbrev first : Values → Value
first nil = undefined
first (cons v vs) = v

abbrev second : Values → Value
second nil = undefined
second (cons v vs) = first vs

-- `x === name` for a text, false where there is no text.
abbrev is_text : Option String → Value → Bool
is_text (some t) (str s) = t == s
is_text none undefined = true
is_text _ _ = false

abbrev text_of : Value → String
text_of (str s) = s
text_of _ = ""

-- `resolve`: a text stands for the value at that path, if there is one.
resolve : Value → (Value → Host Bool) → Host Bool
resolve (str p) next = get p none (λ v. next (if is_undefined v then str p else v))
resolve v next = next v

compared : (Option Ordering → Bool) → Values → Host Bool
unfolding resolve order
compared test args = resolve (first args) λ a. resolve (second args) λ b. ret (test (order a b))

equated : (Bool → Bool) → Values → Host Bool
unfolding resolve
equated test args = resolve (first args) λ a. resolve (second args) λ b. ret (test (same a b))

present : (Bool → Bool) → Values → Host Bool
present test args = get (text_of (first args)) none λ v. ret (test (is_undefined v))

-- The built-in ops but for the logical ones; `none` where no op has the name.
unfoldable pub builtin : String → Values → GuardCtx → Option (Host Bool)
unfolding compared equated present path_matches_glob
builtin op args ctx =
    if op == "eq"
    then some (equated (λ b. b) args)
    else if op == "neq"
    then some (equated not args)
    else if op == "gt"
    then some (compared is_gt args)
    else if op == "lt"
    then some (compared is_lt args)
    else if op == "gte"
    then some (compared (λ o. is_gt o || is_eq o) args)
    else if op == "lte"
    then some (compared (λ o. is_lt o || is_eq o) args)
    else if op == "exists"
    then some (present not args)
    else if op == "notExists"
    then some (present (λ b. b) args)
    else if op == "deltaKindIs"
    then some (ret (is_text (Option.map (λ d. delta_name d.kind) ctx.delta) (first args)))
    else if op == "cellTypeKindIs"
    then some (ret (is_text (Option.map (λ t. kind_name (kind_of t)) ctx.cell.type) (first args)))
    else if op == "pathEq"
    then some (ret (is_text (some ctx.cell.path) (first args)))
    else if op == "pathMatches"
    then some (ret (path_matches_glob ctx.cell.path (text_of (first args))))
    else none

-- Runs a guard, then another by its answer.
unfoldable pub continue : Host Bool → (Bool → Host Bool) → Host Bool
continue (ret b) next = next b
continue (get p c k) next = get p c λ v. continue (k v) next
continue (insert i k) next = insert i λ r. continue (k r) next
continue (peek k) next = peek λ s. continue (k s) next
continue (now k) next = now λ t. continue (k t) next
continue (next_sequence k) next = next_sequence λ n. continue (k n) next

module _ (custom : String → Option (Constraint → GuardCtx → Host Bool)) (ctx : GuardCtx) where
  -- `guards.get(op)?.(c, seq, ctx)`; `none` where no guard has the op. `and` goes on while its parts
  -- hold and counts an unknown op as true, `or` and `not` count it as false.
  unfoldable mutual
    unfolding builtin continue

    pub evaluate : Constraint → Option (Host Bool)
    evaluate (con op args) = elim (custom op) [
      | some g ↦ some (g (con op args) ctx)
      | none ↦
          if op == "and"
          then some (conjunction args)
          else if op == "or"
          then some (disjunction args)
          else if op == "not"
          then some (negation args)
          else builtin op args ctx
    ]

    pub evaluate_arg : Value → Option (Host Bool)
    evaluate_arg (ref i s) = evaluate_shape s
    evaluate_arg _ = none

    pub evaluate_shape : Shape → Option (Host Bool)
    evaluate_shape (constraint_of c) = evaluate c
    evaluate_shape _ = none

    pub conjunction : Values → Host Bool
    conjunction nil = ret true
    conjunction (cons v vs) =
        continue (or_else (evaluate_arg v) (ret true)) λ b. if b then conjunction vs else ret false

    pub disjunction : Values → Host Bool
    disjunction nil = ret false
    disjunction (cons v vs) =
        continue (or_else (evaluate_arg v) (ret false)) λ b. if b then ret true else disjunction vs

    pub negation : Values → Host Bool
    negation nil = ret true
    negation (cons v vs) = continue (or_else (evaluate_arg v) (ret false)) λ b. ret (not b)
