-- ===== src/Kernel/Trace/Propagate.antt =====
-- The loops of `propagate` and of `fireAccess` keep to a closed relation.
use sequence.Prelude.{
  ℕ, zero, suc, String, Bool, List, [], ◌∷◌, ◌++◌, some, has, add, keep, get_elem?, or_else, lookup,
  segments, ◌&&◌,
}
use sequence.Kernel.Data.{Block, Rule, Store, Delta, Frame, Phase}
use sequence.Kernel.Tree.{find_cell}
use sequence.Kernel.Host.{Env}
use sequence.Kernel.Guards.{scope_matches}
use sequence.Kernel.Exec.{look}
use sequence.Kernel.Step.{Ops, is_observation}
use sequence.Kernel.Calls.{compute_derived}
use sequence.Kernel.Propagate.{
  retry_of, is_suspended_block, recompute, cascade, retry, resume, wake, in_scope, watch_one,
  watch_at, watch_all, propagate, prefixes,
}
use sequence.Kernel.Trace.{IsClosed, Traces}
use sequence.Kernel.Trace.Rules.{
  Traces-pure, Traces-reads, Traces-overflow, Traces-bind, Traces-bind_block, Traces-take,
  Traces-if, Traces-option, Traces-gather, Traces-write1, lt_suc,
}
use sequence.Kernel.Trace.Calls.{
  OpsTrace, Traces-compute_derived, Ensures-compute_derived, Traces-dispatch_rule,
}

module _ (env : Env) {R : Store → Store → Type 0} (c : IsClosed env.lattice R) (ops : Ops)
    (o : OpsTrace R ops) (fuel : ℕ) where
  module _ (frame : Frame) where
    Traces-recompute : (n : ℕ) (t : String) → Traces R n (recompute env ops fuel frame t)
    unfolding recompute
    Traces-recompute n t = Traces-if c n (has t frame.seen) _ _ (Traces-pure c n _) (
        Traces-bind_block c n (compute_derived env ops t) _ (Traces-compute_derived env c ops o n t)
          (Ensures-compute_derived env c ops o t) (λ k. Traces-pure c k [])
          (λ b k lt.
            Traces-bind c k _ _ (o.step k b (some frame) lt) λ r. Traces-pure c k r.changes))

    Traces-cascade : (n left i : ℕ) → Traces R n (cascade env ops fuel frame left i)
    unfolding cascade
    Traces-cascade n zero i = Traces-overflow c n
    Traces-cascade n (suc left) i =
        Traces-bind c n _ _ (Traces-reads c n (λ s. get_elem? (look frame.loc s).out_ref i))
          λ target. Traces-option c n target _ _ (Traces-pure c n []) λ t.
            Traces-bind c n _ _ (Traces-recompute n t) λ here.
              Traces-bind c n _ _ (Traces-cascade n left (suc i))
                λ later. Traces-pure c n (here ++ later)

    Traces-retry : (n : ℕ) (b : Block) → Traces R n (retry env ops fuel frame b)
    unfolding retry
    Traces-retry n b = Traces-take c n _ λ seq le.
        Traces-bind c (suc seq) _ _
          (o.step (suc seq) (retry_of b frame.cell_path seq) (some frame) (lt_suc seq))
          λ r. Traces-pure c (suc seq) r.changes

    Traces-resume : (n : ℕ) (w : String) → Traces R n (resume env ops fuel frame w)
    unfolding resume
    Traces-resume n w = Traces-if c n (has w frame.seen) _ _ (Traces-pure c n _) (
        Traces-bind c n _ _ (Traces-reads c n (λ s. find_cell w s.root)) λ d.
          Traces-option c n d _ _ (Traces-pure c n []) λ d.
            Traces-bind c n _ _
              (Traces-gather c n _ (keep is_suspended_block d.blocks) λ b. Traces-retry n b)
              λ made.
                Traces-bind c n _ _
                  (Traces-write1 c n _
                    (λ s h. c.dropped s (keep is_suspended_block d.blocks) (segments w)))
                  λ _. Traces-pure c n made)

    Traces-wake : (n left i : ℕ) → Traces R n (wake env ops fuel frame left i)
    unfolding wake
    Traces-wake n zero i = Traces-overflow c n
    Traces-wake n (suc left) i =
        Traces-bind c n _ _ (Traces-reads c n (λ s. get_elem? (look frame.loc s).out_temporal i))
          λ target. Traces-option c n target _ _ (Traces-pure c n []) λ t.
            Traces-bind c n _ _ (Traces-resume n t) λ here.
              Traces-bind c n _ _ (Traces-wake n left (suc i))
                λ later. Traces-pure c n (here ++ later)

    module _ (fits : Phase → Bool) (delta : Delta) (block : Block) where
      pub Traces-in_scope :
          (n : ℕ) (path : String) (rules : List Rule)
          → Traces R n (in_scope env ops fuel frame fits delta block path rules)
      unfolding in_scope
      Traces-in_scope n path rules =
          Traces-gather c n _ (keep (λ r. fits r.phase && scope_matches r path) rules)
            λ r. Traces-dispatch_rule env c ops o n frame delta block r

      Traces-watch_one :
          (n : ℕ) (id : String) → Traces R n (watch_one env ops fuel frame fits delta block id)
      unfolding watch_one
      Traces-watch_one n id =
          Traces-bind c n _ _ (Traces-reads c n (λ s. lookup id s.rules_by_id)) λ found.
            Traces-option c n found _ _ (Traces-pure c n []) λ r.
              Traces-if c n (fits r.phase) _ _
                (Traces-dispatch_rule env c ops o n frame delta block r) (Traces-pure c n [])

      Traces-watch_at :
          (n left : ℕ) (prefix : String) (i : ℕ) (ids : List String)
          → Traces R n (watch_at env ops fuel frame fits delta block left prefix i ids)
      unfolding watch_at
      Traces-watch_at n zero prefix i ids = Traces-overflow c n
      Traces-watch_at n (suc left) prefix i ids =
          Traces-bind c n _ _
            (Traces-reads c n (λ s. get_elem? (or_else (lookup prefix s.watchers) []) i))
            λ next. Traces-option c n next _ _ (Traces-pure c n ([], ids)) λ id.
              Traces-if c n (has id ids) _ _ (Traces-watch_at n left prefix (suc i) ids) (
                Traces-bind c n _ _ (Traces-watch_one n id) λ here.
                  Traces-bind c n _ _ (Traces-watch_at n left prefix (suc i) (add id ids))
                    λ later. Traces-pure c n (here ++ later.0, later.1))

      pub Traces-watch_all :
          (n : ℕ) (ps ids : List String)
          → Traces R n (watch_all env ops fuel frame fits delta block ps ids)
      unfolding watch_all
      Traces-watch_all n [] ids = Traces-pure c n _
      Traces-watch_all n (p ∷ ps) ids = Traces-bind c n _ _ (Traces-watch_at n fuel p 0 ids) λ here.
          Traces-bind c n _ _ (Traces-watch_all n ps here.1)
            λ later. Traces-pure c n (here.0 ++ later)

  pub Traces-propagate :
      (n : ℕ) (frame : Frame) (d : Delta) (b : Block)
      → Traces R n (propagate env ops fuel frame d b)
  unfolding propagate
  Traces-propagate n frame d b = Traces-bind c n _ _ (Traces-cascade frame n fuel 0) λ derived.
      Traces-bind c n _ _ (Traces-wake frame n fuel 0) λ woken.
        Traces-bind c n _ _
          (Traces-in_scope frame is_observation d b n frame.cell_path frame.rules_in_scope)
          λ observed.
            Traces-bind c n _ _
              (Traces-watch_all frame is_observation d b n (prefixes frame.cell_path) [])
              λ watched. Traces-pure c n (derived ++ woken ++ observed ++ watched)
