-- ===== src/Kernel/Trace/Insert.antt =====
-- `step`, `get` and the public `insert` keep to a closed relation, at every fuel.
use sequence.Prelude.{
  ℕ, zero, suc, String, Bool, true, false, ◌<◌, List, [], ◌∷◌, Option, none, some, ltb, not, has,
  is_some, ◌&&◌, add, without, segments,
}
use sequence.Lang.{Constraint, undefined, is_undefined}
use sequence.Kernel.Data.{Block, Store, Delta, Frame, InsertInput, CellData}
use sequence.Kernel.Tree.{find_cell, rules_on_path}
use sequence.Kernel.Host.{Env}
use sequence.Kernel.Exec.{look}
use sequence.Kernel.Step.{
  Ops, suspend, traverse, install_rule, is_none_changed, is_access, is_suspended,
}
use sequence.Kernel.Calls.{derived_of, compute_derived}
use sequence.Kernel.Propagate.{
  access_loc, access_delta, access_block, access_prefixes, set_access, access_rounds,
}
use sequence.Kernel.Insert.{
  first_refused, park, spread, commit, step_at, enter, depth_of, admission_guards, try_auto_expand,
  set_expanding, expand, get_at, ops_at, insert, get,
}
use sequence.Kernel.Trace.{IsClosed, Traces}
use sequence.Kernel.Trace.Rules.{
  Traces-pure, Traces-reads, Traces-overflow, Traces-bind, Traces-bind_block, Traces-take,
  Traces-if, Traces-option, Traces-write1, Traces-push, Traces-settle, Traces-ensure, Traces-clock,
  Traces-for_each, Traces-install, Traces-register, Traces-wire,
}
use sequence.Kernel.Trace.Calls.{
  OpsTrace, Traces-run_guard, Traces-compute_derived, Ensures-compute_derived, Traces-insert_at,
}
use sequence.Kernel.Trace.Propagate.{Traces-propagate, Traces-in_scope, Traces-watch_all}

module _ (env : Env) {R : Store → Store → Type 0} (c : IsClosed env.lattice R) (ops : Ops)
    (o : OpsTrace R ops) (fuel : ℕ) where
  pub Traces-first_refused :
      (n : ℕ) (frame : Frame) (b : Block) (ks : List Constraint)
      → Traces R n (first_refused env ops fuel frame b ks)
  unfolding first_refused
  Traces-first_refused n frame b [] = Traces-pure c n none
  Traces-first_refused n frame b (k ∷ ks) =
      Traces-bind c n _ _ (Traces-reads c n (look frame.loc)) λ d.
        Traces-bind c n _ _
          (Traces-run_guard env c ops o n k (record { cell = d; delta = none; block = some b }))
          λ held.
            Traces-if c n held _ _ (Traces-first_refused n frame b ks) (Traces-pure c n (some k))

  Traces-park :
      (n : ℕ) (frame : Frame) (b : Block) (k : Constraint)
      → b.seq < n
      → Traces R n (park env ops fuel frame b k)
  unfolding park
  Traces-park n frame b k lt = Traces-bind c n _ _ (Traces-push c n (suspend b) frame.loc lt) λ _.
      Traces-bind c n _ _ (Traces-wire c n k frame.loc)
        λ _. Traces-pure c n (record { done = false; block = suspend b; changes = [] })

  Traces-spread :
      (n : ℕ) (frame : Frame) (b : Block) (d : Delta) → Traces R n (spread env ops fuel frame b d)
  unfolding spread
  Traces-spread n frame b d = Traces-bind c n _ _ (Traces-register c n b frame.loc) λ _.
      Traces-bind c n _ _ (Traces-propagate env c ops o fuel n (enter frame) d b)
        λ more. Traces-pure c n (record { done = true; block = b; changes = d ∷ more })

  Traces-commit :
      (n : ℕ) (frame : Frame) (b : Block) → b.seq < n → Traces R n (commit env ops fuel frame b)
  unfolding commit
  Traces-commit n frame b lt = Traces-bind c n _ _ (Traces-settle c n b frame.loc lt) λ made.
      Traces-bind c n _ _
        (Traces-for_each c n install_rule made.0.rules (λ r. Traces-install c n r))
        λ _.
          Traces-if c n (is_none_changed made.1.kind) _ _
            (Traces-pure c n
              (record { done = not (is_suspended made.0.status); block = made.0; changes = [] }))
            (Traces-spread n frame made.0 made.1)

  Traces-traverse :
      (n : ℕ) (path : String) (parent : Option Frame) (depth : ℕ)
      → Traces R n (traverse path parent depth)
  unfolding traverse
  Traces-traverse n path parent depth =
      Traces-bind c n _ _ (Traces-reads c n (λ s. rules_on_path (segments path) s.root)) λ rules.
        Traces-bind c n _ _ (Traces-ensure c n (segments path)) λ _.
          Traces-bind c n _ _ (Traces-reads c n (λ s. (look (segments path) s).path)) λ here.
            Traces-pure c n (record {
              loc = segments path;
              cell_path = here;
              rules_in_scope = rules;
              depth = depth;
              seen = elim parent [ none ↦ [] | some f ↦ f.seen ];
            })

  pub Traces-step_at :
      (n : ℕ) (b : Block) (parent : Option Frame)
      → b.seq < n
      → Traces R n (step_at env ops fuel b parent)
  unfolding step_at
  Traces-step_at n b parent lt = Traces-if c n (ltb 128 (depth_of parent)) _ _ (Traces-pure c n _) (
      Traces-bind c n _ _ (Traces-traverse n b.path parent (depth_of parent)) λ frame.
        Traces-bind c n _ _
          (Traces-first_refused n frame b (admission_guards frame.cell_path frame.rules_in_scope))
          λ barred.
            Traces-option c n barred _ _
              (Traces-bind c n _ _ (Traces-first_refused n frame b b.wheres) λ unmet.
                Traces-option c n unmet _ _ (Traces-commit n frame b lt)
                  λ k. Traces-park n frame b k lt)
              λ k. Traces-park n frame b k lt)

  pub Traces-access_rounds :
      (n : ℕ) (path : String) (found : Option CellData) (class : Option String)
      → Traces R n (access_rounds env ops fuel path found class)
  unfolding access_rounds
  Traces-access_rounds n path found class =
      Traces-bind c n _ _ (Traces-reads c n (λ s. rules_on_path (segments path) s.root)) λ rules.
        Traces-take c n _ λ seq le.
          Traces-bind c (suc seq) _ _ (Traces-clock c (suc seq) env.clock) λ time.
            Traces-bind c (suc seq) _ _
              (Traces-reads c (suc seq) (λ s. (look (access_loc env ops fuel path found) s).path))
              λ here.
                let frame : Frame = record {
                  loc = access_loc env ops fuel path found;
                  cell_path = here;
                  rules_in_scope = rules;
                  depth = 0;
                  seen = [];
                } in
                let delta = access_delta env ops fuel path found class in
                let block = access_block env ops fuel path seq time in
                Traces-bind c (suc seq) _ _
                  (Traces-in_scope env c ops o fuel frame is_access delta block (suc seq) path
                    rules)
                  λ _.
                    Traces-bind c (suc seq) _ _
                      (Traces-watch_all env c ops o fuel frame is_access delta block (suc seq)
                        (access_prefixes path) [])
                      λ _. Traces-pure c (suc seq) tt

  pub Traces-try_auto_expand : (n : ℕ) (d : CellData) → Traces R n (try_auto_expand env ops fuel d)
  unfolding try_auto_expand
  Traces-try_auto_expand n d = Traces-option c n (derived_of (some d)) _ _ (Traces-pure c n tt) λ k.
      Traces-bind_block c n (compute_derived env ops d.path) _
        (Traces-compute_derived env c ops o n d.path) (Ensures-compute_derived env c ops o d.path)
        (λ m. Traces-pure c m tt)
        (λ b m lt. Traces-bind c m _ _ (o.step m b none lt) λ _. Traces-pure c m tt)

-- The knot: where `get` keeps to the relation one level up, every level does.
module _ (env : Env) {R : Store → Store → Type 0} (c : IsClosed env.lattice R)
    (g : (ops : Ops)
      → OpsTrace R ops
      → (fuel n : ℕ) (path : String) (class : Option String)
      → Traces R n (get_at env ops fuel path class)) where
  pub Traces-ops_at : (fuel : ℕ) → OpsTrace R (ops_at env fuel)
  unfolding ops_at
  Traces-ops_at zero = record {
    step = λ n b parent lt. Traces-overflow c n;
    get = λ n path class. Traces-overflow c n;
    insert = λ n i. Traces-overflow c n;
  }
  Traces-ops_at (suc fuel) =
      let below = Traces-ops_at fuel in
      record {
        step = Traces-step_at env c (ops_at env fuel) below fuel;
        get = g (ops_at env fuel) below fuel;
        insert = Traces-insert_at env c (ops_at env fuel) below;
      }

  pub Traces-insert : (fuel n : ℕ) (i : InsertInput) → Traces R n (insert env fuel i)
  unfolding insert
  Traces-insert fuel n i = Traces-insert_at env c (ops_at env fuel) (Traces-ops_at fuel) n i

  pub Traces-get :
      (fuel n : ℕ) (path : String) (class : Option String) → Traces R n (get env fuel path class)
  unfolding get
  Traces-get fuel n path class = (Traces-ops_at fuel).get n path class

-- A relation that the two flags of `get` do not matter to.
pub record IsFlagFree (R : Store → Store → Type 0) : Type 0 where
  pub access : (s : Store) (b : Bool) → R s (record s { access_in_flight = b })
  pub expanding :
      (s : Store) (f : List String → List String)
      → R s (record s { expand_in_progress = f s.expand_in_progress })

module _ (env : Env) {R : Store → Store → Type 0} (c : IsClosed env.lattice R) (free : IsFlagFree R)
    (ops : Ops) (o : OpsTrace R ops) (fuel n : ℕ) where
  Traces-expand : (path : String) (hit : Bool) → Traces R n (expand env ops fuel path hit)
  unfolding expand set_expanding
  Traces-expand path hit = Traces-bind c n _ _ (Traces-reads c n (look (segments path))) λ d.
      Traces-bind c n _ _ (Traces-reads c n (λ s. has path s.expand_in_progress)) λ busy.
        Traces-if c n (not hit && is_some d.type && not busy) _ _
          (Traces-bind c n _ _ (Traces-write1 c n _ (λ s h. free.expanding s (add path))) λ _.
            Traces-bind c n _ _ (Traces-try_auto_expand env c ops o fuel n d)
              λ _. Traces-write1 c n _ (λ s h. free.expanding s (without path)))
          (Traces-pure c n tt)

  pub Traces-get_at :
      (path : String) (class : Option String) → Traces R n (get_at env ops fuel path class)
  unfolding get_at set_access
  Traces-get_at path class =
      Traces-bind c n _ _ (Traces-reads c n (λ s. find_cell path s.root)) λ found.
        Traces-bind c n _ _ (Traces-reads c n (λ s. s.access_in_flight)) λ quiet.
          Traces-bind c n _ _
            (Traces-if c n quiet _ _ (Traces-pure c n tt) (
              Traces-bind c n _ _ (Traces-write1 c n _ (λ s h. free.access s true)) λ _.
                Traces-bind c n _ _ (Traces-access_rounds env c ops o fuel n path found class)
                  λ _. Traces-write1 c n _ (λ s h. free.access s false)))
            λ _. Traces-option c n found _ _ (Traces-pure c n undefined) λ d.
              Traces-bind c n _ _ (Traces-expand path (not (is_undefined d.value)))
                λ _. Traces-reads c n (λ s. (look (segments path) s).value)
