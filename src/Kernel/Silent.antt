-- ===== src/Kernel/Silent.antt =====
-- src-v2/sequence.ts: what the parts of an `insert` do where no rule, watcher or edge applies.
use sequence.Prelude.{
  ℕ, suc, String, Bool, true, false, ◌≡◌, refl, List, [], ◌∷◌, ◌++◌, Option, none, some, arith, ◌∙◌,
  ap,
}
use sequence.Lang.{Value, is_undefined, same}
use sequence.Kernel.Data.{
  Block, Store, Frame, Delta, InsertInput, InsertResult, CellData, Phase, Rule, applied, narrow,
  value_changed, of_value,
}
use sequence.Kernel.Tree.{find}
use sequence.Kernel.Host.{Env}
use sequence.Kernel.Exec.{M, pure, ◌>>=◌, ◌>>◌, look, gather, for_each}
use sequence.Kernel.Calls.{insert_with, insert_at, notify}
use sequence.Kernel.Host.{Lattice}
use sequence.Kernel.Trace.{rewritten}
use sequence.Kernel.Tree.Laws.{find-update_self}
use sequence.Kernel.Step.{
  Ops, is_observation, settle, compose_at_cell, compose_value, overwrite, apply_delta, changed,
  register_ref_edges,
}
use sequence.Kernel.Propagate.{cascade, wake, in_scope, watch_at, watch_all, propagate, prefixes}
use sequence.Kernel.Insert.{spread, first_refused, admission_guards, enter}

-- A part that returns hands on its result and its state.
pub bind-at :
    {A B : Type 0} (s : Store) (m : M A) (f : A → M B) {u : Store} {a : A}
    → m s ≡ some (a, u)
    → (m >>= f) s ≡ f a u
bind-at {A} {B} s m f e =
    ap
      (λ (r : Option (A × Store)).
        let x : Option (B × Store) = elim r [ none ↦ none | some (a, u) ↦ f a u ] in x)
      e

-- Where no observer is registered, an `insert` returns as its fold does.
pub insert_at_quiet :
    (env : Env) (ops : Ops) (i : InsertInput) (s : Store) (r : InsertResult) (t : Store)
    → env.observers ≡ []
    → insert_with env ops i s ≡ some (r, t)
    → insert_at env ops i s ≡ some (r, t)
unfolding insert_at notify for_each
insert_at_quiet env ops i s r t quiet e =
    bind-at s (insert_with env ops i) (λ r. notify env ops r >> pure r) e ∙ rw quiet refl

module _ (env : Env) (ops : Ops) (fuel : ℕ) (frame : Frame) where
  cascade_quiet :
      (left : ℕ) (s : Store)
      → (look frame.loc s).out_ref ≡ []
      → cascade env ops fuel frame (suc left) 0 s ≡ some ([], s)
  unfolding cascade
  cascade_quiet left s h = ground arith

  wake_quiet :
      (left : ℕ) (s : Store)
      → (look frame.loc s).out_temporal ≡ []
      → wake env ops fuel frame (suc left) 0 s ≡ some ([], s)
  unfolding wake
  wake_quiet left s h = ground arith

  module _ (fits : Phase → Bool) (delta : Delta) (block : Block) where
    watch_at_quiet :
        (left : ℕ) (p : String) (ids : List String) (s : Store)
        → s.watchers ≡ []
        → watch_at env ops fuel frame fits delta block (suc left) p 0 ids s ≡ some (([], ids), s)
    unfolding watch_at
    watch_at_quiet left p ids s h = ground arith

module _ (env : Env) (ops : Ops) (left : ℕ) (frame : Frame) (fits : Phase → Bool) (delta : Delta)
    (block : Block) where
  pub watch_all_quiet :
      (ps ids : List String) (s : Store)
      → s.watchers ≡ []
      → watch_all env ops (suc left) frame fits delta block ps ids s ≡ some ([], s)
  unfolding watch_all
  watch_all_quiet [] ids s h = refl
  watch_all_quiet (p ∷ ps) ids s h =
      bind-at s (watch_at env ops (suc left) frame fits delta block (suc left) p 0 ids) _
        (watch_at_quiet env ops (suc left) frame fits delta block left p ids s h)
      ∙ bind-at s (watch_all env ops (suc left) frame fits delta block ps ids) _
          (watch_all_quiet ps ids s h)

pub in_scope_quiet :
    (env : Env) (ops : Ops) (fuel : ℕ) (frame : Frame) (fits : Phase → Bool) (delta : Delta)
    (block : Block) (path : String) (rules : List Rule) (s : Store)
    → rules ≡ []
    → in_scope env ops fuel frame fits delta block path rules s ≡ some ([], s)
unfolding in_scope gather
in_scope_quiet env ops fuel frame fits delta block path rules s h = rw h

module _ (env : Env) (ops : Ops) (left : ℕ) where
  propagate_quiet :
      (frame : Frame) (delta : Delta) (block : Block) (s : Store)
      → frame.rules_in_scope ≡ []
      → s.watchers ≡ []
      → (look frame.loc s).out_ref ≡ []
      → (look frame.loc s).out_temporal ≡ []
      → propagate env ops (suc left) frame delta block s ≡ some ([], s)
  unfolding propagate
  propagate_quiet frame delta block s rules watchers derived waiting =
      bind-at s (cascade env ops (suc left) frame (suc left) 0) _
        (cascade_quiet env ops (suc left) frame left s derived)
      ∙ bind-at s (wake env ops (suc left) frame (suc left) 0) _
          (wake_quiet env ops (suc left) frame left s waiting)
      ∙ bind-at s
          (in_scope env ops (suc left) frame is_observation delta block frame.cell_path
            frame.rules_in_scope)
          _
          (in_scope_quiet env ops (suc left) frame is_observation delta block frame.cell_path
            frame.rules_in_scope s rules)
      ∙ bind-at s
          (watch_all env ops (suc left) frame is_observation delta block (prefixes frame.cell_path)
            [])
          (λ watched. pure ([] ++ [] ++ [] ++ watched))
          (watch_all_quiet env ops left frame is_observation delta block (prefixes frame.cell_path)
            [] s watchers)

-- The block of a plain fact, and its delta at a cell.
abbrev pub fact_block : String → Value → Option String → ℕ → ℕ → Block
fact_block path v author seq time = record {
  seq = seq;
  path = path;
  identity = none;
  op = narrow;
  value = v;
  type = none;
  rules = [];
  wheres = [];
  time = time;
  author = author;
  status = applied;
  cause = none;
}

abbrev pub fact_delta : CellData → Value → Delta
fact_delta d v = changed d value_changed (of_value d.value) (of_value v)

pub settle_quiet :
    (l : Lattice) (loc : List String) (s : Store) (d : CellData) (path : String) (v : Value)
    (author : Option String) (seq time : ℕ)
    → look loc s ≡ d
    → d.type ≡ none
    → is_undefined v ≡ false
    → same d.value v ≡ false
    → settle l loc (fact_block path v author seq time) s
      ≡ some (
        (fact_block path v author seq time, fact_delta d v),
        rewritten s (apply_delta (fact_block path v author seq time) (fact_delta d v)) loc,
      )
unfolding settle
settle_quiet l loc s d path v author seq time here untyped present new =
    let b : Block = fact_block path v author seq time in
    let made : compose_at_cell l d b ≡ (b, fact_delta d v) =
      unfold compose_at_cell compose_value overwrite in ground arith in
    rw here (rw made)

module _ (env : Env) (ops : Ops) (left : ℕ) where
  pub spread_quiet :
      (frame : Frame) (d : Delta) (path : String) (v : Value) (author : Option String)
      (seq time : ℕ) (s : Store)
      → frame.rules_in_scope ≡ []
      → s.watchers ≡ []
      → (look frame.loc s).out_ref ≡ []
      → (look frame.loc s).out_temporal ≡ []
      → spread env ops (suc left) frame (fact_block path v author seq time) d s
        ≡ some
            (record { done = true; block = fact_block path v author seq time; changes = d ∷ [] }, s)
  unfolding spread register_ref_edges enter
  spread_quiet frame d path v author seq time s rules watchers derived waiting =
      bind-at s (propagate env ops (suc left) (enter frame) d (fact_block path v author seq time)) _
        (propagate_quiet env ops left (enter frame) d (fact_block path v author seq time) s rules
          watchers derived waiting)

pub look_written :
    (f : CellData → CellData) (loc : List String) (s : Store) (d : CellData)
    → find loc s.root ≡ some d
    → look loc (rewritten s f loc) ≡ f d
unfolding look
look_written f loc s d here = rw (find-update_self f s.root loc) (rw here)

-- The guards of no rules refuse nothing.
pub first_refused_quiet :
    (env : Env) (ops : Ops) (fuel : ℕ) (frame : Frame) (b : Block) (path : String)
    (rules : List Rule) (s : Store)
    → rules ≡ []
    → first_refused env ops fuel frame b (admission_guards path rules) s ≡ some (none, s)
unfolding first_refused admission_guards
first_refused_quiet env ops fuel frame b path rules s h = rw h
