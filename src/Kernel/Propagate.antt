-- ===== src/Kernel/Propagate.antt =====
-- src-v2/sequence.ts: `propagate`, `fireAccess`, `tryAutoExpand` and `get`. A loop over a set that
-- may grow while it runs goes by position and takes fuel.
use sequence.Prelude.{
  ℕ, zero, suc, String, Bool, true, false, not, ◌&&◌, Option, none, some, List, [], ◌∷◌, ◌++◌, eqb,
  if◌then◌else◌, or_else, has, any, add, lookup, keep, get_elem?, split, segments, join,
}
use sequence.Lang.{undefined, is_undefined}
use sequence.Kernel.Data.{
  temporal, narrow, applied, Block, CellData, Rule, Delta, Frame, absent, of_value, access_hit,
  access_miss, Phase,
}
use sequence.Kernel.Tree.{find_cell, rules_on_path}
use sequence.Kernel.Host.{Env}
use sequence.Kernel.Guards.{scope_matches}
use sequence.Kernel.Exec.{
  M, pure, ◌>>=◌, ◌>>◌, overflow, reads, take_seq, read_clock, look, write, gather,
}
use sequence.Kernel.Step.{Ops, is_suspended, is_observation, is_access}
use sequence.Kernel.Calls.{compute_derived, dispatch_rule}

-- a retry of a suspended block
abbrev pub retry_of : Block → String → ℕ → Block
retry_of b from seq = record b {
  seq = seq;
  status = applied;
  cause = some (record { from = from; axis = some temporal; rule_id = none });
}

abbrev pub is_suspended_block : Block → Bool
is_suspended_block b = is_suspended b.status

-- Blocks are told apart by their numbers.
abbrev pub is_among : List Block → Block → Bool
is_among retried b = any (λ r. eqb r.seq b.seq) retried

abbrev pub without_blocks : List Block → CellData → CellData
without_blocks retried d = record d { blocks = keep (λ b. not (is_among retried b)) d.blocks }

-- the prefixes that `watchers` is asked for: '' and then each leading part of the path
leading : List String → List String → List String
leading before [] = []
leading before (p ∷ ps) = join (before ++ p ∷ []) ∷ leading (before ++ p ∷ []) ps

unfoldable pub prefixes : String → List String
unfolding leading
prefixes path = "" ∷ leading [] (split path)

-- the same in `fireAccess`, where the empty path has no parts
unfoldable pub access_prefixes : String → List String
unfolding leading
access_prefixes path = "" ∷ leading [] (segments path)

module _ (env : Env) (ops : Ops) (fuel : ℕ) where
  module _ (frame : Frame) where
    -- (a) the cells derived from this one
    unfoldable pub recompute : String → M (List Delta)
    unfolding compute_derived
    recompute t = if has t frame.seen then pure [] else do
      made ← compute_derived env ops t
      elim made [ none ↦ pure [] | some b ↦ do r ← ops.step b (some frame); pure r.changes ]

    unfoldable pub cascade : ℕ → ℕ → M (List Delta)
    unfolding recompute
    cascade zero i = overflow
    cascade (suc left) i = do
      target ← reads (λ s. get_elem? (look frame.loc s).out_ref i)
      elim target [
        | none ↦ pure []
        | some t ↦ do here ← recompute t; later ← cascade left (suc i); pure (here ++ later)
      ]

    -- (b) the blocks that wait for this cell
    unfoldable pub retry : Block → M (List Delta)
    retry b = do
      seq ← take_seq
      r ← ops.step (retry_of b frame.cell_path seq) (some frame)
      pure r.changes

    unfoldable pub resume_at : List String → List Block → M (List Delta)
    unfolding retry gather write
    resume_at loc waiting = do
      made ← gather retry waiting
      write (without_blocks waiting) loc
      pure made

    unfoldable pub resume : String → M (List Delta)
    unfolding resume_at
    resume watcher = if has watcher frame.seen then pure [] else do
      d ← reads (λ s. find_cell watcher s.root)
      elim d [
        | none ↦ pure []
        | some d ↦ resume_at (segments watcher) (keep is_suspended_block d.blocks)
      ]

    unfoldable pub wake : ℕ → ℕ → M (List Delta)
    unfolding resume
    wake zero i = overflow
    wake (suc left) i = do
      target ← reads (λ s. get_elem? (look frame.loc s).out_temporal i)
      elim target [
        | none ↦ pure []
        | some t ↦ do here ← resume t; later ← wake left (suc i); pure (here ++ later)
      ]

    module _ (fits : Phase → Bool) (delta : Delta) (block : Block) where
      -- (c) the rules on the way to the cell
      unfoldable pub in_scope : String → List Rule → M (List Delta)
      unfolding dispatch_rule gather scope_matches
      in_scope path rules =
          gather (dispatch_rule env ops frame delta block)
            (keep (λ r. fits r.phase && scope_matches r path) rules)

      -- (d) the rules that watch a prefix, each at most once
      unfoldable pub watch_one : String → M (List Delta)
      unfolding dispatch_rule
      watch_one id = do
        found ← reads (λ s. lookup id s.rules_by_id)
        elim found [
          | none ↦ pure []
          | some r ↦ if fits r.phase then dispatch_rule env ops frame delta block r else pure []
        ]

      unfoldable pub watch_at : ℕ → String → ℕ → List String → M (List Delta × List String)
      unfolding watch_one
      watch_at zero prefix i ids = overflow
      watch_at (suc left) prefix i ids = do
        next ← reads (λ s. get_elem? (or_else (lookup prefix s.watchers) []) i)
        elim next [
          | none ↦ pure ([], ids)
          | some id ↦ if has id ids then watch_at left prefix (suc i) ids else do
            here ← watch_one id
            later ← watch_at left prefix (suc i) (add id ids)
            pure (here ++ later.0, later.1)
        ]

      unfoldable pub watch_all : List String → List String → M (List Delta)
      unfolding watch_at
      watch_all [] ids = pure []
      watch_all (p ∷ ps) ids = do
        here ← watch_at fuel p 0 ids
        later ← watch_all ps here.1
        pure (here.0 ++ later)

  -- `propagate`
  unfoldable pub propagate : Frame → Delta → Block → M (List Delta)
  unfolding cascade wake in_scope watch_all prefixes
  propagate frame delta block = do
    derived ← cascade frame fuel 0
    woken ← wake frame fuel 0
    observed ← in_scope frame is_observation delta block frame.cell_path frame.rules_in_scope
    watched ← watch_all frame is_observation delta block (prefixes frame.cell_path) []
    pure (derived ++ woken ++ observed ++ watched)

  -- the block and the delta that `fireAccess` makes up
  abbrev pub access_delta : String → Option CellData → Option String → Delta
  access_delta path none class = record {
    path = path;
    kind = access_miss;
    prev = absent;
    next = absent;
    context_class = class;
  }
  access_delta path (some d) class =
      if is_undefined d.value
      then record {
        path = path;
        kind = access_miss;
        prev = absent;
        next = absent;
        context_class = class;
      }
      else record {
        path = path;
        kind = access_hit;
        prev = absent;
        next = of_value d.value;
        context_class = class;
      }

  abbrev pub access_block : String → ℕ → ℕ → Block
  access_block path seq time = record {
    seq = seq;
    path = path;
    identity = none;
    op = narrow;
    value = undefined;
    type = none;
    rules = [];
    wheres = [];
    time = time;
    author = none;
    status = applied;
    cause = none;
  }

  unfoldable pub set_access : Bool → M Unit
  set_access b s = some (tt, record s { access_in_flight = b })

  -- a missing cell stands for the root in the frame
  unfoldable pub access_loc : String → Option CellData → List String
  access_loc path none = []
  access_loc path (some d) = segments path

  -- the body of the `try` in `fireAccess`
  unfoldable pub access_rounds : String → Option CellData → Option String → M Unit
  unfolding in_scope watch_all access_prefixes access_loc
  access_rounds path found class = do
    rules ← reads (λ s. rules_on_path (segments path) s.root)
    seq ← take_seq
    time ← read_clock env.clock
    here ← reads (λ s. (look (access_loc path found) s).path)
    let frame : Frame = record {
      loc = access_loc path found;
      cell_path = here;
      rules_in_scope = rules;
      depth = 0;
      seen = [];
    }
    let delta = access_delta path found class
    _ ← in_scope frame is_access delta (access_block path seq time) path rules
    _ ← watch_all frame is_access delta (access_block path seq time) (access_prefixes path) []
    pure tt

  -- `fireAccess`
  unfoldable pub fire_access : String → Option CellData → Option String → M Unit
  unfolding access_rounds set_access
  fire_access path found class = do
    set_access true
    access_rounds path found class
    set_access false
