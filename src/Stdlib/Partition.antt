-- ===== src/Stdlib/Partition.antt =====
-- src-v2/stdlib/partition.ts: the partitions of the state, and the guard on references between them.
-- The names that every JavaScript object inherits are no keys of its tables here.
pub mod Refusal
use sequence.Prelude.{
  ℕ, String, Bool, true, false, not, ◌&&◌, ◌||◌, Option, none, some, List, [], ◌∷◌, ◌==◌,
  if◌then◌else◌, or_else, segments, starts_with,
}
use sequence.Lang.{
  Value, str, undefined, Constraint, con, cons, nil, op_of, args_of, Ty, constraints_of,
}
use sequence.Kernel.Data.{Block, Rule, admission, InsertInput, InsertResult, Store}
use sequence.Kernel.Tree.{find_cell}
use sequence.Kernel.Host.{Host, ret, peek, GuardCtx, Env}
use sequence.Kernel.Exec.{M}
use sequence.Kernel.Insert.{insert}

pub data Partition : Type 0 where
  state proc id req chan proj : Partition

-- `PARTITION_PREFIXES`, and the members of `ALL_PARTITIONS`
unfoldable pub named : String → Option Partition
named s =
    if s == "state"
    then some state
    else if s == "proc"
    then some proc
    else if s == "id"
    then some id
    else if s == "req"
    then some req
    else if s == "chan"
    then some chan
    else if s == "proj"
    then some proj
    else none

-- `ALLOWED_REFS`
abbrev pub may_refer : Partition → Partition → Bool
may_refer state state = true
may_refer state id = true
may_refer state _ = false
may_refer proc proj = false
may_refer proc _ = true
may_refer id id = true
may_refer id state = true
may_refer id _ = false
may_refer req state = true
may_refer req id = true
may_refer req chan = true
may_refer req req = true
may_refer req _ = false
may_refer chan id = true
may_refer chan req = true
may_refer chan _ = false
may_refer proj _ = true

pub data Persistence : Type 0 where
  required policy never : Persistence

-- `PARTITION_PERSISTENCE`
abbrev pub persistence : Partition → Persistence
persistence state = required
persistence id = required
persistence req = required
persistence proc = policy
persistence chan = policy
persistence proj = never

-- `PARTITION_AUTHORITY`: all but the projections may be written
abbrev pub authority : Partition → Bool
authority proj = false
authority _ = true

-- a declaration of a partition, if this constraint is one
unfoldable pub declared_by : Constraint → Option Partition
unfolding named
declared_by (con op (cons (str p) vs)) = if op == "partition" then named p else none
declared_by (con op _) = none

unfoldable pub declared_in : List Constraint → Option Partition
unfolding declared_by
declared_in [] = none
declared_in (c ∷ cs) =
    let rest = declared_in cs in elim (declared_by c) [ none ↦ rest | some p ↦ some p ]

unfoldable pub partition_of_type : Option Ty → Option Partition
unfolding declared_in
partition_of_type none = none
partition_of_type (some t) = declared_in (constraints_of t)

abbrev head_segment : List String → String
head_segment [] = ""
head_segment (s ∷ ss) = s

unfoldable pub partition_of : String → Option Ty → Partition
unfolding partition_of_type named
partition_of path t = if starts_with path "_" then state else elim (partition_of_type t) [
  | some p ↦ p
  | none ↦ or_else (named (head_segment (segments path))) state
]

-- `typeAt`
unfoldable pub type_at : Store → String → Option Ty
unfolding find_cell
type_at s path = elim (find_cell path s.root) [ none ↦ none | some d ↦ d.type ]

-- the rounds of the guard over the constraints of a type
unfoldable pub allows : Store → Partition → List Constraint → Bool
unfolding type_at partition_of
allows s from [] = true
allows s from (con op (cons (str target) vs) ∷ cs) =
    let rest = allows s from cs in
    if op == "ref" && not (starts_with target "_")
    then may_refer from (partition_of target (type_at s target)) && rest
    else rest
allows s from (con op _ ∷ cs) = allows s from cs

-- `block.cause?.ruleId`, as a test
abbrev pub rule_made : Block → Bool
rule_made b = elim b.cause [
  | none ↦ false
  | some c ↦ elim c.rule_id [ none ↦ false | some r ↦ not (r == "") ]
]

abbrev pub guard_op : String
guard_op = "_partition_direction"

-- the guard that `installPartitionDirection` registers
unfoldable pub direction : Constraint → GuardCtx → Host Bool
unfolding allows partition_of
direction c ctx = elim ctx.block [
  | none ↦ ret true
  | some b ↦ if rule_made b || starts_with ctx.cell.path "_" then ret true else elim b.type [
    | none ↦ ret true
    | some t ↦ peek (λ s. ret (allows s (partition_of ctx.cell.path (some t)) (constraints_of t)))
  ]
]

abbrev pub direction_rule : Rule
direction_rule = record {
  id = guard_op;
  phase = admission;
  scope = "";
  when = some (con guard_op nil);
  watching = [];
  emit = none;
}

-- what `installPartitionDirection` inserts
abbrev pub install_input : InsertInput
install_input = record {
  path = "_rules._partition_direction";
  value = undefined;
  type = none;
  rules = direction_rule ∷ [];
  wheres = [];
  author = none;
  identity = none;
  op = none;
  time = none;
}

-- `seq.guards.set(guardOp, ...)`
abbrev pub with_direction : Env → Env
with_direction env = record env {
  custom_guards = λ op. if op == guard_op then some direction else env.custom_guards op;
}

-- `installPartitionDirection`
unfoldable pub install_partition_direction : Env → ℕ → M InsertResult
unfolding insert
install_partition_direction env fuel = insert (with_direction env) fuel install_input
