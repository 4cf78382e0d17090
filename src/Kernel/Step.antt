-- ===== src/Kernel/Step.antt =====
-- src-v2/sequence.ts: `step` and what it does to one cell: `traverse`, `composeAtCell`, `applyDelta`,
-- `installRule`, `registerRefEdges` and `wireTemporalWatches`. What it calls again is a parameter.
use sequence.Prelude.{
  ℕ, String, Bool, true, false, not, ◌&&◌, Option, none, some, List, [], ◌∷◌, ◌==◌, eqb,
  if◌then◌else◌, is_some, length, keep, segments,
}
use sequence.Lang.{
  Value, str, Constraint, op_of, args_of, Ty, constraints_of, kind_of, is_never, is_fn, is_func,
  is_undefined, same, undefined,
}
use sequence.Kernel.Data.{
  temporal, ref, narrow, invalidate, Status, suspended, Block, CellData, Rule, admission,
  observation, access, Phase, Delta, DeltaKind, none_changed, value_changed, type_changed,
  invocation, retraction, Content, absent, of_value, of_type, Frame, InsertInput, InsertResult,
}
use sequence.Kernel.Tree.{rules_on_path, update}
use sequence.Kernel.Host.{Lattice}
use sequence.Kernel.Guards.{collect_paths, strip_glob, kind_name}
use sequence.Kernel.Exec.{
  M, pure, ◌>>=◌, ◌>>◌, reads, look, ensure_at, write, with_block, with_rule, edge_from, set_rule,
  add_watcher, for_each,
}

-- What `step` tells: its result, the block with its final status, and the deltas that it pushed.
pub record Stepped : Type 0 where
  pub done : Bool
  pub block : Block
  pub changes : List Delta

-- The methods that call one another without end in the source, one level down.
pub record Ops : Type 0 where
  pub step : Block → Option Frame → M Stepped
  pub get : String → Option String → M Value
  pub insert : InsertInput → M InsertResult

abbrev pub is_suspended : Status → Bool
is_suspended suspended = true
is_suspended _ = false

abbrev pub is_admission : Phase → Bool
is_admission admission = true
is_admission _ = false

abbrev pub is_observation : Phase → Bool
is_observation observation = true
is_observation _ = false

abbrev pub is_access : Phase → Bool
is_access access = true
is_access _ = false

abbrev pub suspend : Block → Block
suspend b = record b { status = suspended }

-- `sameType`; where its two types are one object their texts are equal too.
unfoldable pub same_type : Lattice → Ty → Ty → Bool
same_type l a b =
    kind_name (kind_of a) == kind_name (kind_of b)
    && l.same_specificity a b
    && eqb (length (constraints_of a)) (length (constraints_of b))
    && l.stringify a == l.stringify b

abbrev pub unchanged : CellData → Delta
unchanged d = record {
  path = d.path;
  kind = none_changed;
  prev = absent;
  next = absent;
  context_class = none;
}

abbrev pub changed : CellData → DeltaKind → Content → Content → Delta
changed d kind prev next = record {
  path = d.path;
  kind = kind;
  prev = prev;
  next = next;
  context_class = none;
}

module _ (l : Lattice) where
  -- the branch of `composeAtCell` for a declared type
  unfoldable pub compose_type : CellData → Block → Ty → Block × Delta
  unfolding same_type
  compose_type d b t = elim d.type [
    | none ↦
        if is_never t
        then (suspend b, unchanged d)
        else (b, changed d type_changed absent (of_type t))
    | some prev ↦
        let next = l.compose prev t in
        if is_never next
        then (suspend b, unchanged d)
        else if same_type l prev next
        then (b, unchanged d)
        else (b, changed d type_changed (of_type prev) (of_type next))
  ]

  -- the overwrite at the end of the branch for a value
  unfoldable pub overwrite : CellData → Block → Block × Delta
  overwrite d b =
      if same d.value b.value
      then (b, unchanged d)
      else (b, changed d value_changed (of_value d.value) (of_value b.value))

  unfoldable pub compose_value : CellData → Block → Block × Delta
  unfolding overwrite
  compose_value d b = elim d.type [
    | none ↦ overwrite d b
    | some t ↦
        if is_fn t && not (is_func b.value)
        then (b, changed d invocation absent (of_value b.value))
        else if l.accepts t b.value d.path
        then overwrite d b
        else (suspend b, unchanged d)
  ]

  -- `composeAtCell`, with the block as it leaves it
  unfoldable pub compose_at_cell : CellData → Block → Block × Delta
  unfolding compose_type compose_value
  compose_at_cell d b = elim b.op [
    | invalidate ↦
        if is_undefined d.value && not (is_some d.type)
        then (b, unchanged d)
        else (b, changed d retraction (of_value d.value) (of_value undefined))
    | narrow ↦ elim b.type [
      | some t ↦ compose_type d b t
      | none ↦ if is_undefined b.value then (b, unchanged d) else compose_value d b
    ]
  ]

abbrev pub written : Content → Value → Value
written (of_value v) old = v
written _ old = old

abbrev pub retyped : Content → Option Ty → Option Ty
retyped (of_type t) old = some t
retyped _ old = old

-- `applyDelta`, and the push of the block where nothing changed
unfoldable pub apply_delta : Block → Delta → CellData → CellData
apply_delta b delta d = elim delta.kind [
  | value_changed ↦ record (with_block b d) { value = written delta.next d.value }
  | type_changed ↦ record (with_block b d) { type = retyped delta.next d.type }
  | retraction ↦ record (with_block b d) { value = undefined }
  | _ ↦ with_block b d
]

abbrev pub is_none_changed : DeltaKind → Bool
is_none_changed none_changed = true
is_none_changed _ = false

-- steps 3 and 4 of `step`: compose at the cell, then apply
unfoldable pub settle : Lattice → List String → Block → M (Block × Delta)
unfolding compose_at_cell apply_delta
settle l loc block s =
    let (b, delta) = compose_at_cell l (look loc s) block in
    some ((b, delta), record s { root = update (apply_delta b delta) loc s.root })

-- `installRule`
unfoldable pub install_rule : Rule → M Unit
unfolding ensure_at write set_rule add_watcher strip_glob for_each
install_rule r = do
  ensure_at (segments r.scope)
  write (with_rule r) (segments r.scope)
  set_rule r
  for_each (λ w. add_watcher (strip_glob w) r.id) r.watching

abbrev texts : List Value → List String
texts [] = []
texts (str s ∷ vs) = s ∷ texts vs
texts (_ ∷ vs) = texts vs

abbrev pub tail_of : {A : Type 0} → List A → List A
tail_of [] = []
tail_of (x ∷ xs) = xs

-- the first `derived` constraint of a type, and its arguments
abbrev pub is_derived : Constraint → Bool
is_derived c = op_of c == "derived"

abbrev pub derived_args : Constraint → List String
derived_args c = texts (args_of c)

-- `registerRefEdges`
unfoldable pub register_ref_edges : List String → Block → M Unit
unfolding edge_from for_each
register_ref_edges loc b = elim b.type [
  | none ↦ pure tt
  | some t ↦
      for_each (λ c. for_each (λ p. edge_from p loc ref) (tail_of (derived_args c)))
        (keep is_derived (constraints_of t))
]

-- `wireTemporalWatches`
unfoldable pub wire_temporal_watches : Constraint → List String → M Unit
unfolding edge_from for_each collect_paths
wire_temporal_watches c loc = for_each (λ p. edge_from p loc temporal) (collect_paths c)

-- `traverse`
unfoldable pub traverse : String → Option Frame → ℕ → M Frame
unfolding ensure_at
traverse path parent depth = do
  rules ← reads (λ s. rules_on_path (segments path) s.root)
  ensure_at (segments path)
  here ← reads (λ s. (look (segments path) s).path)
  pure record {
    loc = segments path;
    cell_path = here;
    rules_in_scope = rules;
    depth = depth;
    seen = elim parent [ none ↦ [] | some f ↦ f.seen ];
  }
