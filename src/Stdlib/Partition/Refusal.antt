-- ===== src/Stdlib/Partition/Refusal.antt =====
-- src-v2/stdlib/partition.ts over src-v2/sequence.ts: what an `insert` does where the guard refuses.
use sequence.Prelude.{
  ℕ, suc, String, Bool, true, false, not, ◌≡◌, refl, [], ◌∷◌, Option, none, some, ◌∙◌, ap,
  starts_with, segments, if◌then◌else◌,
}
use sequence.Lang.{undefined, Constraint, con, nil, Ty, constraints_of}
use sequence.Kernel.Data.{Block, Store, Frame, CellData, InsertInput, InsertResult, applied, narrow}
use sequence.Kernel.Tree.{find, ensure, rules_on_path}
use sequence.Kernel.Host.{Env}
use sequence.Kernel.Exec.{M, pure, ◌>>=◌, ◌>>◌, reads, look, with_block, take_seq, for_each}
use sequence.Kernel.Trace.{rewritten}
use sequence.Kernel.Step.{Ops, Stepped, suspend, traverse, wire_temporal_watches}
use sequence.Kernel.Calls.{run_guard, insert_with}
use sequence.Kernel.Insert.{insert, step_at, ops_at, first_refused, admission_guards, park, commit}
use sequence.Kernel.Silent.{bind-at, insert_at_quiet}
use sequence.Stdlib.Partition.{direction, direction_rule, guard_op, allows, partition_of}

-- A declaration of a type by a user, with the time of its caller, and its block.
abbrev pub typed_fact : String → Ty → Option String → ℕ → InsertInput
typed_fact path t author time = record {
  path = path;
  value = undefined;
  type = some t;
  rules = [];
  wheres = [];
  author = author;
  identity = none;
  op = none;
  time = some time;
}

abbrev pub typed_block : String → Ty → Option String → ℕ → ℕ → Block
typed_block path t author seq time = record {
  seq = seq;
  path = path;
  identity = none;
  op = narrow;
  value = undefined;
  type = some t;
  rules = [];
  wheres = [];
  time = time;
  author = author;
  status = applied;
  cause = none;
}

abbrev guard : Constraint
guard = con guard_op nil

module _ (env : Env) (ops : Ops) (fuel : ℕ) where
  run_guard-direction :
      (path : String) (t : Ty) (author : Option String) (seq time : ℕ) (s : Store) (d : CellData)
      → env.custom_guards guard_op ≡ some direction
      → starts_with d.path "_" ≡ false
      → run_guard env ops guard
          (record { cell = d; delta = none; block = some (typed_block path t author seq time) })
          s
        ≡ some (allows s (partition_of d.path (some t)) (constraints_of t), s)
  unfolding run_guard direction
  run_guard-direction path t author seq time s d known outer = rw known (rw outer refl)

  admission-first_refused :
      (frame : Frame) (path : String) (t : Ty) (author : Option String) (seq time : ℕ) (s : Store)
      (d : CellData)
      → env.custom_guards guard_op ≡ some direction
      → starts_with d.path "_" ≡ false
      → look frame.loc s ≡ d
      → allows s (partition_of d.path (some t)) (constraints_of t) ≡ false
      → first_refused env ops fuel frame (typed_block path t author seq time) (guard ∷ []) s
        ≡ some (some guard, s)
  unfolding first_refused
  admission-first_refused frame path t author seq time s d known outer here bad =
      let b = typed_block path t author seq time in
      let rest : Bool → M (Option Constraint) =
        λ held. if held then first_refused env ops fuel frame b [] else pure (some guard) in
      let read : reads (look frame.loc) s ≡ some (d, s) = ap (λ x. some (x, s)) here in
      bind-at s (reads (look frame.loc))
        (λ d. run_guard env ops guard (record { cell = d; delta = none; block = some b }) >>= rest)
        read
      ∙ bind-at s (run_guard env ops guard (record { cell = d; delta = none; block = some b })) rest
          (run_guard-direction path t author seq time s d known outer)
      ∙ ap (λ x. rest x s) bad

  park-guard :
      (frame : Frame) (b : Block) (s : Store)
      → park env ops fuel frame b guard s
        ≡ some (
          record { done = false; block = suspend b; changes = [] },
          rewritten s (with_block (suspend b)) frame.loc,
        )
  unfolding park wire_temporal_watches for_each sequence.Kernel.Guards.collect_paths
      sequence.Kernel.Exec.write
  park-guard frame b s = refl

-- Declaring a type at a cell whose path does not start with an underscore, where the guard of the partitions
-- is registered, the rule of the partitions is the one
-- rule in scope, the type refers to a partition that it may not refer to, and nothing observes, returns: the block is
-- suspended with the next number, no delta is told, and the store is the old one with the path
-- grown and, at its cell alone, the suspended block added to the history; the type is not declared.
pub insert_refused :
    (env : Env) (left : ℕ) (s : Store) (path : String) (t : Ty) (author : Option String) (time : ℕ)
    (d : CellData)
    → env.custom_guards guard_op ≡ some direction
    → env.observers ≡ []
    → rules_on_path (segments path) s.root ≡ direction_rule ∷ []
    → find (segments path) (ensure (segments path) s.root) ≡ some d
    → starts_with d.path "_" ≡ false
    → allows
        (record s { next_seq = suc s.next_seq; root = ensure (segments path) s.root })
        (partition_of d.path (some t))
        (constraints_of t)
      ≡ false
    → insert env (suc left) (typed_fact path t author time) s
      ≡ some (
        record {
          block = suspend (typed_block path t author s.next_seq time);
          changes = [];
          suspended = true;
        },
        rewritten
            (record s { next_seq = suc s.next_seq; root = ensure (segments path) s.root })
            (with_block (suspend (typed_block path t author s.next_seq time)))
            (segments path),
      )
unfolding insert ops_at insert_with take_seq step_at
insert_refused env left s path t author time d known quiet rules here outer bad =
    let ops = ops_at env left in
    let b = typed_block path t author s.next_seq time in
    let numbered : Store = record s { next_seq = suc s.next_seq } in
    let grown : Store = record s {
      next_seq = suc s.next_seq;
      root = ensure (segments path) s.root;
    } in
    let frame : Frame = record {
      loc = segments path;
      cell_path = d.path;
      rules_in_scope = direction_rule ∷ [];
      depth = 0;
      seen = [];
    } in
    let found : look (segments path) grown ≡ d = unfold look in rw here in
    let entered : traverse path none 0 numbered ≡ some (frame, grown) =
      unfold traverse in rw (found, rules) in
    let judge : Frame → Option Constraint → M Stepped = λ f barred. elim barred [
      | some c ↦ park env ops left f b c
      | none ↦ first_refused env ops left f b [] >>= (λ unmet. elim unmet [
        | some c ↦ park env ops left f b c
        | none ↦ commit env ops left f b
      ])
    ] in
    let after : Stepped → M InsertResult =
      λ r. pure (record { block = r.block; changes = r.changes; suspended = not r.done }) in
    let stepped : step_at env ops left b none numbered
        ≡ some (
          record { done = false; block = suspend b; changes = [] },
          rewritten grown (with_block (suspend b)) (segments path),
        ) =
      bind-at numbered (traverse path none 0)
        (λ f.
          first_refused env ops left f b (admission_guards f.cell_path f.rules_in_scope)
          >>= judge f)
        entered
      ∙ bind-at grown (first_refused env ops left frame b (guard ∷ [])) (judge frame) (
          admission-first_refused env ops left frame path t author s.next_seq time grown d known
            outer found bad)
      ∙ park-guard env ops left frame b grown in
    insert_at_quiet env (ops_at env (suc left)) (typed_fact path t author time) s _ _ quiet
      (bind-at numbered (step_at env ops left b none) after stepped)
