-- ===== src/Kernel/Calls.antt =====
-- src-v2/sequence.ts: host code run on the kernel (`runGuard`, the public `insert`), `computeDerived`
-- and `dispatchRule`. The methods that call back are a parameter.
use sequence.Prelude.{
  ℕ, String, Bool, true, Option, none, some, List, [], ◌∷◌, if◌then◌else◌, or_else, has, find_first,
  any, not,
}
use sequence.Lang.{Value, Constraint, constraints_of, is_undefined}
use sequence.Kernel.Data.{
  ref, narrow, applied, Block, CellData, Rule, Delta, Frame, InsertInput, InsertResult,
  BlockTemplate,
}
use sequence.Kernel.Tree.{find_cell}
use sequence.Kernel.Host.{Host, ret, get, insert, peek, now, next_sequence, GuardCtx, Env}
use sequence.Kernel.Guards.{evaluate}
use sequence.Kernel.Exec.{M, pure, ◌>>=◌, ◌>>◌, reads, take_seq, read_clock, look, for_each, gather}
use sequence.Kernel.Step.{Ops, is_derived, derived_args, tail_of}

-- the block that a call of the public `insert` makes
abbrev pub block_of : InsertInput → ℕ → ℕ → Block
block_of input seq time = record {
  seq = seq;
  path = input.path;
  identity = input.identity;
  op = or_else input.op narrow;
  value = input.value;
  type = input.type;
  rules = input.rules;
  wheres = input.wheres;
  time = time;
  author = input.author;
  status = applied;
  cause = none;
}

-- the block that `dispatchRule` makes of a template
abbrev pub induced : BlockTemplate → String → String → ℕ → ℕ → Block
induced t from rule_id seq time = record {
  seq = seq;
  path = t.path;
  identity = none;
  op = or_else t.op narrow;
  value = t.value;
  type = t.type;
  rules = t.rules;
  wheres = t.wheres;
  time = time;
  author = t.author;
  status = applied;
  cause = some (record { from = from; axis = none; rule_id = some rule_id });
}

-- the block of a derived value
abbrev pub derived_block : String → Value → ℕ → ℕ → Block
derived_block path value seq time = record {
  seq = seq;
  path = path;
  identity = none;
  op = narrow;
  value = value;
  type = none;
  rules = [];
  wheres = [];
  time = time;
  author = none;
  status = applied;
  cause = some (record { from = path; axis = some ref; rule_id = none });
}

abbrev pub head_of : List String → Option String
head_of [] = none
head_of (x ∷ xs) = some x

-- the `derived` constraint of a cell
abbrev pub derived_of : Option CellData → Option Constraint
derived_of none = none
derived_of (some d) = elim d.type [
  | none ↦ none
  | some t ↦ find_first is_derived (constraints_of t)
]

module _ (env : Env) (ops : Ops) where
  -- `input.time ?? this.clock()`
  unfoldable pub time_of : InsertInput → M ℕ
  unfolding read_clock
  time_of input = elim input.time [ none ↦ read_clock env.clock | some t ↦ pure t ]

  -- `insert` up to the call of the observers
  unfoldable pub insert_with : InsertInput → M InsertResult
  unfolding time_of
  insert_with input = do
    seq ← take_seq
    time ← time_of input
    r ← ops.step (block_of input seq time) none
    pure record { block = r.block; changes = r.changes; suspended = not r.done }

  unfoldable pub run_host : {A : Type 0} → Host A → M A
  run_host (ret a) = pure a
  run_host (get p c next) = do v ← ops.get p c; run_host (next v)
  run_host (insert i next) = do r ← ops.insert i; run_host (next r)
  run_host (peek next) = λ s. run_host (next s) s
  run_host (now next) = do t ← read_clock env.clock; run_host (next t)
  run_host (next_sequence next) = do n ← take_seq; run_host (next n)

  -- the round over the observers
  unfoldable pub notify : InsertResult → M Unit
  unfolding run_host for_each
  notify r = for_each (λ o. run_host (o.tell r)) env.observers

  -- `insert`
  unfoldable pub insert_at : InsertInput → M InsertResult
  unfolding insert_with notify
  insert_at input = do r ← insert_with input; notify r; pure r

  -- `runGuard`: no guard and an unknown op pass
  unfoldable pub run_guard : Constraint → GuardCtx → M Bool
  unfolding run_host evaluate
  run_guard c ctx = elim (evaluate env.custom_guards ctx c) [
    | none ↦ pure true
    | some g ↦ run_host g
  ]

  unfoldable pub run_guard? : Option Constraint → GuardCtx → M Bool
  unfolding run_guard
  run_guard? none ctx = pure true
  run_guard? (some c) ctx = run_guard c ctx

  unfoldable pub get_all : List String → M (List Value)
  get_all [] = pure []
  get_all (p ∷ ps) = do v ← ops.get p none; vs ← get_all ps; pure (v ∷ vs)

  -- the call of the derived function, and its block
  unfoldable pub produce : String → Option String → List String → M (Option Block)
  unfolding get_all run_host
  produce path fn_id args = elim fn_id [
    | none ↦ pure none
    | some id ↦ elim (env.impls id) [
      | none ↦ pure none
      | some f ↦ do
        vs ← get_all args
        if any is_undefined vs then pure none else do
          made ← run_host (f vs)
          elim made [
            | none ↦ pure none
            | some v ↦ do
              seq ← take_seq
              time ← read_clock env.clock
              pure (some (derived_block path v seq time))
          ]
    ]
  ]

  -- `computeDerived`
  unfoldable pub compute_derived : String → M (Option Block)
  unfolding produce find_cell
  compute_derived path = do
    d ← reads (λ s. derived_of (find_cell path s.root))
    elim d [
      | none ↦ pure none
      | some c ↦ produce path (head_of (derived_args c)) (tail_of (derived_args c))
    ]

  -- the rounds over the templates of `dispatchRule`
  unfoldable pub emit_one : Frame → Rule → BlockTemplate → M (List Delta)
  emit_one frame r t = if has t.path frame.seen then pure [] else do
    seq ← take_seq
    time ← read_clock env.clock
    made ← ops.step (induced t frame.cell_path r.id seq time) (some frame)
    pure made.changes

  unfoldable pub emit_all : Frame → Rule → Delta → Block → M (List Delta)
  unfolding run_host gather emit_one look
  emit_all frame r delta block = elim (env.emitters (or_else r.emit "")) [
    | none ↦ pure []
    | some emitter ↦ do
      d ← reads (look frame.loc)
      templates ← run_host (emitter (record { cell = d; delta = delta; block = block; rule = r }))
      gather (emit_one frame r) templates
  ]

  -- `dispatchRule`
  unfoldable pub dispatch_rule : Frame → Delta → Block → Rule → M (List Delta)
  unfolding run_guard? emit_all look
  dispatch_rule frame delta block r = do
    d ← reads (look frame.loc)
    held ← run_guard? r.when (record { cell = d; delta = some delta; block = some block })
    if held then emit_all frame r delta block else pure []
