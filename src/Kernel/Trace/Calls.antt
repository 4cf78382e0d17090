-- ===== src/Kernel/Trace/Calls.antt =====
-- Host code, guards, derived values and the dispatch of a rule keep to a closed relation.
use sequence.Prelude.{
  ℕ, suc, String, ◌<◌, List, [], ◌∷◌, Option, none, some, any, or_else, has, subst,
}
use sequence.Lang.{Value, Constraint, is_undefined}
use sequence.Kernel.Data.{
  Block, Rule, Store, Delta, Frame, InsertInput, InsertResult, BlockTemplate,
}
use sequence.Kernel.Tree.{find_cell}
use sequence.Kernel.Host.{Host, ret, get, insert, peek, now, next_sequence, GuardCtx, Env}
use sequence.Kernel.Guards.{evaluate}
use sequence.Kernel.Exec.{pure, ◌>>=◌, reads, take_seq, read_clock, look}
use sequence.Kernel.Step.{Ops, derived_args, tail_of}
use sequence.Kernel.Calls.{
  time_of, insert_with, insert_at, notify, run_host, run_guard, run_guard?, get_all, produce,
  compute_derived, derived_of, block_of, derived_block, induced, head_of, emit_one, emit_all,
  dispatch_rule,
}
use sequence.Kernel.Trace.{IsClosed, Traces}
use sequence.Kernel.Trace.Rules.{
  Traces-pure, Traces-reads, Traces-bind, Traces-take, Traces-if, Traces-option, Traces-clock,
  Traces-gather, Traces-for_each, Ensures, Ensures-pure, Ensures-bind, Ensures-if, Ensures-option,
  IsNumbered, lt_suc, some-pair-injective,
}

-- The calls one level down keep to the relation.
pub record OpsTrace (R : Store → Store → Type 0) (ops : Ops) : Type 0 where
  pub step :
      (n : ℕ) (b : Block) (parent : Option Frame) → b.seq < n → Traces R n (ops.step b parent)
  pub get : (n : ℕ) (path : String) (class : Option String) → Traces R n (ops.get path class)
  pub insert : (n : ℕ) (i : InsertInput) → Traces R n (ops.insert i)

module _ (env : Env) {R : Store → Store → Type 0} (c : IsClosed env.lattice R) (ops : Ops)
    (o : OpsTrace R ops) where
  Traces-time_of : (n : ℕ) (i : InsertInput) → Traces R n (time_of env ops i)
  unfolding time_of
  Traces-time_of n i =
      elim i.time as (λ t. Traces R n (elim t [ none ↦ read_clock env.clock | some t ↦ pure t ])) [
        | none ↦ Traces-clock c n env.clock
        | some t ↦ Traces-pure c n t
      ]

  Traces-insert_with : (n : ℕ) (i : InsertInput) → Traces R n (insert_with env ops i)
  unfolding insert_with
  Traces-insert_with n i = Traces-take c n _ λ seq le.
      Traces-bind c (suc seq) _ _ (Traces-time_of (suc seq) i) λ time.
        Traces-bind c (suc seq) _ _ (o.step (suc seq) (block_of i seq time) none (lt_suc seq))
          λ r. Traces-pure c (suc seq) _

  pub Traces-run_host : {A : Type 0} (n : ℕ) (h : Host A) → Traces R n (run_host env ops h)
  unfolding run_host
  Traces-run_host n (ret a) = Traces-pure c n a
  Traces-run_host n (get p k next) =
      Traces-bind c n _ _ (o.get n p k) λ v. Traces-run_host n (next v)
  Traces-run_host n (insert i next) =
      Traces-bind c n _ _ (o.insert n i) λ r. Traces-run_host n (next r)
  Traces-run_host n (peek next) = record {
    at = λ s h a t e. (Traces-run_host n (next s)).at s h a t e;
  }
  Traces-run_host n (now next) =
      Traces-bind c n _ _ (Traces-clock c n env.clock) λ t. Traces-run_host n (next t)
  Traces-run_host n (next_sequence next) =
      Traces-take c n _ λ a le. Traces-run_host (suc a) (next a)

  Traces-notify : (n : ℕ) (r : InsertResult) → Traces R n (notify env ops r)
  unfolding notify
  Traces-notify n r = Traces-for_each c n _ env.observers λ o. Traces-run_host n (o.tell r)

  pub Traces-insert_at : (n : ℕ) (i : InsertInput) → Traces R n (insert_at env ops i)
  unfolding insert_at
  Traces-insert_at n i =
      Traces-bind c n _ _ (Traces-insert_with n i)
        λ r. Traces-bind c n _ _ (Traces-notify n r) λ _. Traces-pure c n r

  pub Traces-run_guard :
      (n : ℕ) (k : Constraint) (x : GuardCtx) → Traces R n (run_guard env ops k x)
  unfolding run_guard
  Traces-run_guard n k x =
      Traces-option c n (evaluate env.custom_guards x k) _ _ (Traces-pure c n _)
        λ g. Traces-run_host n g

  Traces-run_guard? :
      (n : ℕ) (k : Option Constraint) (x : GuardCtx) → Traces R n (run_guard? env ops k x)
  unfolding run_guard?
  Traces-run_guard? n none x = Traces-pure c n _
  Traces-run_guard? n (some k) x = Traces-run_guard n k x

  Traces-get_all : (n : ℕ) (ps : List String) → Traces R n (get_all env ops ps)
  unfolding get_all
  Traces-get_all n [] = Traces-pure c n _
  Traces-get_all n (p ∷ ps) =
      Traces-bind c n _ _ (o.get n p none)
        λ v. Traces-bind c n _ _ (Traces-get_all n ps) λ vs. Traces-pure c n _

  Traces-produce :
      (n : ℕ) (path : String) (fn_id : Option String) (args : List String)
      → Traces R n (produce env ops path fn_id args)
  unfolding produce
  Traces-produce n path fn_id args = Traces-option c n fn_id _ _ (Traces-pure c n _) λ id.
      Traces-option c n (env.impls id) _ _ (Traces-pure c n _) λ f.
        Traces-bind c n _ _ (Traces-get_all n args) λ vs.
          Traces-if c n (any is_undefined vs) _ _ (Traces-pure c n _) (
            Traces-bind c n _ _ (Traces-run_host n (f vs)) λ made.
              Traces-option c n made _ _ (Traces-pure c n _) λ v. Traces-take c n _ λ seq le.
                Traces-bind c (suc seq) _ _ (Traces-clock c (suc seq) env.clock)
                  λ time. Traces-pure c (suc seq) (some (derived_block path v seq time)))

  -- the end of `produce`
  made_number :
      (path : String) (v : Value)
      → Ensures IsNumbered (do
        seq ← take_seq
        time ← read_clock env.clock
        pure (some (derived_block path v seq time)))
  unfolding take_seq read_clock
  made_number path v = record {
    at = λ s o t e.
        let (same_o, same_s) = some-pair-injective e in
        subst (λ u. IsNumbered o u) same_s
          (subst (λ x. IsNumbered x (record s { next_seq = suc s.next_seq; reads = suc s.reads }))
            same_o (lt_suc s.next_seq));
  }

  Ensures-produce :
      (path : String) (fn_id : Option String) (args : List String)
      → Ensures IsNumbered (produce env ops path fn_id args)
  unfolding produce
  Ensures-produce path fn_id args = Ensures-option fn_id _ _ (Ensures-pure none (λ s. tt)) λ id.
      Ensures-option (env.impls id) _ _ (Ensures-pure none (λ s. tt)) λ f.
        Ensures-bind (get_all env ops args) _ λ vs.
          Ensures-if (any is_undefined vs) _ _ (Ensures-pure none (λ s. tt)) (
            Ensures-bind (run_host env ops (f vs)) _
              λ made. Ensures-option made _ _ (Ensures-pure none (λ s. tt)) λ v. made_number path v)

  pub Traces-compute_derived : (n : ℕ) (path : String) → Traces R n (compute_derived env ops path)
  unfolding compute_derived
  Traces-compute_derived n path =
      Traces-bind c n _ _ (Traces-reads c n (λ s. derived_of (find_cell path s.root))) λ d.
        Traces-option c n d _ _ (Traces-pure c n none)
          λ k. Traces-produce n path (head_of (derived_args k)) (tail_of (derived_args k))

  pub Ensures-compute_derived : (path : String) → Ensures IsNumbered (compute_derived env ops path)
  unfolding compute_derived
  Ensures-compute_derived path =
      Ensures-bind (reads (λ s. derived_of (find_cell path s.root))) _ λ d.
        Ensures-option d _ _ (Ensures-pure none (λ s. tt))
          λ k. Ensures-produce path (head_of (derived_args k)) (tail_of (derived_args k))

  Traces-emit_one :
      (n : ℕ) (frame : Frame) (r : Rule) (t : BlockTemplate)
      → Traces R n (emit_one env ops frame r t)
  unfolding emit_one
  Traces-emit_one n frame r t = Traces-if c n (has t.path frame.seen) _ _ (Traces-pure c n _) (
      Traces-take c n _ λ seq le.
        Traces-bind c (suc seq) _ _ (Traces-clock c (suc seq) env.clock) λ time.
          Traces-bind c (suc seq) _ _
            (o.step (suc seq) (induced t frame.cell_path r.id seq time) (some frame) (lt_suc seq))
            λ made. Traces-pure c (suc seq) _)

  Traces-emit_all :
      (n : ℕ) (frame : Frame) (r : Rule) (d : Delta) (b : Block)
      → Traces R n (emit_all env ops frame r d b)
  unfolding emit_all
  Traces-emit_all n frame r d b =
      Traces-option c n (env.emitters (or_else r.emit "")) _ _ (Traces-pure c n _) λ emitter.
        Traces-bind c n _ _ (Traces-reads c n (look frame.loc)) λ x.
          Traces-bind c n _ _
            (Traces-run_host n (emitter (record { cell = x; delta = d; block = b; rule = r })))
            λ templates. Traces-gather c n _ templates λ t. Traces-emit_one n frame r t

  pub Traces-dispatch_rule :
      (n : ℕ) (frame : Frame) (d : Delta) (b : Block) (r : Rule)
      → Traces R n (dispatch_rule env ops frame d b r)
  unfolding dispatch_rule
  Traces-dispatch_rule n frame d b r = Traces-bind c n _ _ (Traces-reads c n (look frame.loc)) λ x.
      Traces-bind c n _ _
        (Traces-run_guard? n r.when (record { cell = x; delta = some d; block = some b }))
        λ held. Traces-if c n held _ _ (Traces-emit_all n frame r d b) (Traces-pure c n [])
