-- ===== src/Kernel/Insert.antt =====
-- src-v2/sequence.ts: `step`, `get`, `typeAt` and the public `insert`, with the knot of their calls
-- tied on fuel.
use sequence.Prelude.{
  ℕ, zero, suc, ◌+◌, String, Bool, true, false, not, ◌&&◌, Option, none, some, List, [], ◌∷◌, ltb,
  if◌then◌else◌, is_some, has, add, without, segments,
}
use sequence.Lang.{Value, Constraint, undefined, is_undefined}
use sequence.Kernel.Data.{
  Block, CellData, Rule, Delta, Frame, Store, InsertInput, InsertResult, cell, leaf, make_cell,
}
use sequence.Kernel.Tree.{find_cell}
use sequence.Kernel.Host.{Env}
use sequence.Kernel.Guards.{scope_matches}
use sequence.Kernel.Exec.{M, pure, ◌>>=◌, ◌>>◌, overflow, reads, look, write, with_block, for_each}
use sequence.Kernel.Step.{
  Ops, Stepped, suspend, is_suspended, is_admission, is_none_changed, settle, install_rule,
  register_ref_edges, wire_temporal_watches, traverse,
}
use sequence.Kernel.Calls.{insert_at, run_guard, compute_derived, derived_of}
use sequence.Kernel.Propagate.{propagate, fire_access}

-- the guards of the admission rules in scope, in order; a rule with none admits
unfoldable pub admission_guards : String → List Rule → List Constraint
unfolding scope_matches
admission_guards path [] = []
admission_guards path (r ∷ rs) =
    let rest = admission_guards path rs in
    if is_admission r.phase && scope_matches r path
    then elim r.when [ none ↦ rest | some c ↦ c ∷ rest ]
    else rest

abbrev pub depth_of : Option Frame → ℕ
depth_of none = 0
depth_of (some f) = f.depth + 1

unfoldable pub enter : Frame → Frame
enter f = record f { seen = add f.cell_path f.seen }

module _ (env : Env) (ops : Ops) (fuel : ℕ) where
  -- the first of the guards that fails
  unfoldable pub first_refused : Frame → Block → List Constraint → M (Option Constraint)
  unfolding run_guard look
  first_refused frame block [] = pure none
  first_refused frame block (c ∷ cs) = do
    d ← reads (look frame.loc)
    held ← run_guard env ops c (record { cell = d; delta = none; block = some block })
    if held then first_refused frame block cs else pure (some c)

  -- a refused block waits at its cell
  unfoldable pub park : Frame → Block → Constraint → M Stepped
  unfolding write wire_temporal_watches
  park frame block c = do
    write (with_block (suspend block)) frame.loc
    wire_temporal_watches c frame.loc
    pure record { done = false; block = suspend block; changes = [] }

  -- steps 3 to 5 of `step`
  unfoldable pub unmoved : Block → M Stepped
  unmoved b = pure record { done = not (is_suspended b.status); block = b; changes = [] }

  -- step 5 of `step`, after the edges of a derived type
  unfoldable pub spread : Frame → Block → Delta → M Stepped
  unfolding register_ref_edges propagate enter
  spread frame b delta = do
    register_ref_edges frame.loc b
    more ← propagate env ops fuel (enter frame) delta b
    pure record { done = true; block = b; changes = delta ∷ more }

  unfoldable pub commit : Frame → Block → M Stepped
  unfolding settle install_rule for_each unmoved spread
  commit frame block = do
    made ← settle env.lattice frame.loc block
    for_each install_rule made.0.rules
    if is_none_changed made.1.kind then unmoved made.0 else spread frame made.0 made.1

  unfoldable pub step_at : Block → Option Frame → M Stepped
  unfolding traverse admission_guards first_refused park commit
  step_at block parent =
      if ltb 128 (depth_of parent)
      then pure record { done = false; block = block; changes = [] }
      else do
        frame ← traverse block.path parent (depth_of parent)
        barred ← first_refused frame block (admission_guards frame.cell_path frame.rules_in_scope)
        elim barred [
          | some c ↦ park frame block c
          | none ↦ do
            unmet ← first_refused frame block block.wheres
            elim unmet [ some c ↦ park frame block c | none ↦ commit frame block ]
        ]

  -- `tryAutoExpand`: its step's deltas are dropped
  unfoldable pub try_auto_expand : CellData → M Unit
  unfolding compute_derived
  try_auto_expand d = elim (derived_of (some d)) [
    | none ↦ pure tt
    | some c ↦ do
      made ← compute_derived env ops d.path
      elim made [ none ↦ pure tt | some b ↦ do _ ← ops.step b none; pure tt ]
  ]

  unfoldable pub set_expanding : (List String → List String) → M Unit
  set_expanding f s = some (tt, record s { expand_in_progress = f s.expand_in_progress })

  unfoldable pub expand_now : String → CellData → M Unit
  unfolding try_auto_expand set_expanding
  expand_now path d = do set_expanding (add path); try_auto_expand d; set_expanding (without path)

  -- the gap of `get`: a cell with a type and no value, which is not being filled already
  unfoldable pub expand : String → Bool → M Unit
  unfolding expand_now look
  expand path hit = do
    d ← reads (look (segments path))
    busy ← reads (λ s. has path s.expand_in_progress)
    if not hit && is_some d.type && not busy then expand_now path d else pure tt

  unfoldable pub get_at : String → Option String → M Value
  unfolding fire_access expand find_cell look
  get_at path class = do
    found ← reads (λ s. find_cell path s.root)
    quiet ← reads (λ s. s.access_in_flight)
    if quiet then pure tt else fire_access env ops fuel path found class
    elim found [
      | none ↦ pure undefined
      | some d ↦ do
        expand path (not (is_undefined d.value))
        reads (λ s. (look (segments path) s).value)
    ]

-- The calls of the source nest at most as deep as the fuel.
unfoldable pub ops_at : Env → ℕ → Ops
unfolding step_at get_at insert_at
ops_at env zero = record { step = λ _ _. overflow; get = λ _ _. overflow; insert = λ _. overflow }
ops_at env (suc fuel) = record {
  step = step_at env (ops_at env fuel) fuel;
  get = get_at env (ops_at env fuel) fuel;
  insert = insert_at env (ops_at env fuel);
}

-- The public methods of a kernel.
unfoldable pub insert : Env → ℕ → InsertInput → M InsertResult
unfolding insert_at ops_at
insert env fuel = insert_at env (ops_at env fuel)

unfoldable pub get : Env → ℕ → String → Option String → M Value
unfolding ops_at
get env fuel = (ops_at env fuel).get

-- `new Sequence(clock)`
abbrev pub init : Store
unfolding make_cell
init = record {
  root = cell (make_cell "") leaf;
  next_seq = 0;
  watchers = [];
  rules_by_id = [];
  access_in_flight = false;
  expand_in_progress = [];
  reads = 0;
}
