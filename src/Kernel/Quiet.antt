-- ===== src/Kernel/Quiet.antt =====
-- A write where nothing listens: it returns, and a read gives the value back.
use sequence.Prelude.{
  ℕ, suc, String, true, false, not, ◌≡◌, [], ◌∷◌, ◌++◌, Option, none, some, ◌∙◌, segments,
  if◌then◌else◌,
}
use sequence.Lang.{Value, is_undefined, same}
use sequence.Kernel.Data.{Block, Store, Frame, CellData, InsertInput, value_changed, of_value}
use sequence.Kernel.Tree.{find, ensure, update, rules_on_path}
use sequence.Kernel.Host.{Env}
use sequence.Kernel.Exec.{pure, ◌>>=◌, ◌>>◌, look, for_each, take_seq}
use sequence.Kernel.Calls.{insert_with}
use sequence.Kernel.Trace.{rewritten}
use sequence.Kernel.Step.{
  Stepped, is_none_changed, install_rule, settle, apply_delta, changed, traverse,
}
use sequence.Kernel.Insert.{
  insert, step_at, commit, spread, first_refused, admission_guards, ops_at, unmoved, park,
}
use sequence.Kernel.Silent.{
  bind-at, insert_at_quiet, fact_block, fact_delta, first_refused_quiet, look_written, settle_quiet,
  spread_quiet,
}

module _ (env : Env) (left : ℕ) (s : Store) (path : String) (v : Value) (author : Option String)
    (time : ℕ) (d : CellData) where
  abbrev numbered : Store
  numbered = record s { next_seq = suc s.next_seq }

  abbrev grown : Store
  grown = record s { next_seq = suc s.next_seq; root = ensure (segments path) s.root }

  abbrev the_block : Block
  the_block = fact_block path v author s.next_seq time

  abbrev the_frame : Frame
  the_frame = record {
    loc = segments path;
    cell_path = d.path;
    rules_in_scope = rules_on_path (segments path) s.root;
    depth = 0;
    seen = [];
  }

  abbrev settled_store : Store
  settled_store = rewritten grown (apply_delta the_block (fact_delta d v)) (segments path)

  abbrev the_step : Stepped
  the_step = record { done = true; block = the_block; changes = fact_delta d v ∷ [] }

  commit_quiet :
      find (segments path) grown.root ≡ some d
      → rules_on_path (segments path) s.root ≡ []
      → s.watchers ≡ []
      → d.type ≡ none
      → d.out_ref ≡ []
      → d.out_temporal ≡ []
      → is_undefined v ≡ false
      → same d.value v ≡ false
      → commit env (ops_at env (suc left)) (suc left) the_frame the_block grown
        ≡ some (the_step, settled_store)
  unfolding commit for_each
  commit_quiet here rules watchers untyped derived waiting present new =
      let ops = ops_at env (suc left) in
      let found : look (segments path) grown ≡ d = unfold look in rw here in
      let after : look (segments path) settled_store ≡ apply_delta the_block (fact_delta d v) d =
        look_written (apply_delta the_block (fact_delta d v)) (segments path) grown d here in
      bind-at grown (settle env.lattice (segments path) the_block)
        (λ x.
          for_each install_rule x.0.rules
          >> (if is_none_changed x.1.kind
              then unmoved env ops (suc left) x.0
              else spread env ops (suc left) the_frame x.0 x.1))
        (settle_quiet env.lattice (segments path) grown d path v author s.next_seq time found
          untyped present new)
      ∙ spread_quiet env ops left the_frame (fact_delta d v) path v author s.next_seq time
          settled_store rules watchers (unfold apply_delta in rw after derived)
          (unfold apply_delta in rw after waiting)

  step_at_quiet :
      find (segments path) grown.root ≡ some d
      → rules_on_path (segments path) s.root ≡ []
      → s.watchers ≡ []
      → d.type ≡ none
      → d.out_ref ≡ []
      → d.out_temporal ≡ []
      → is_undefined v ≡ false
      → same d.value v ≡ false
      → step_at env (ops_at env (suc left)) (suc left) the_block none numbered
        ≡ some (the_step, settled_store)
  unfolding step_at
  step_at_quiet here rules watchers untyped derived waiting present new =
      let ops = ops_at env (suc left) in
      let found : look (segments path) grown ≡ d = unfold look in rw here in
      let entered : traverse path none 0 numbered ≡ some (the_frame, grown) =
        unfold traverse in rw found in
      bind-at numbered (traverse path none 0)
        (λ frame.
          first_refused env ops (suc left) frame the_block
            (admission_guards frame.cell_path frame.rules_in_scope)
          >>= (λ barred. elim barred [
            | some c ↦ park env ops (suc left) frame the_block c
            | none ↦ first_refused env ops (suc left) frame the_block [] >>= (λ unmet. elim unmet [
              | some c ↦ park env ops (suc left) frame the_block c
              | none ↦ commit env ops (suc left) frame the_block
            ])
          ]))
        entered
      ∙ bind-at grown
          (first_refused env ops (suc left) the_frame the_block
            (admission_guards d.path the_frame.rules_in_scope))
          (λ barred. elim barred [
            | some c ↦ park env ops (suc left) the_frame the_block c
            | none ↦ first_refused env ops (suc left) the_frame the_block [] >>= (λ unmet.
                elim unmet [
                  | some c ↦ park env ops (suc left) the_frame the_block c
                  | none ↦ commit env ops (suc left) the_frame the_block
                ])
          ])
          (first_refused_quiet env ops (suc left) the_frame the_block d.path
            the_frame.rules_in_scope grown rules)
      ∙ commit_quiet here rules watchers untyped derived waiting present new

-- A fact, with the time of its caller.
abbrev pub plain_fact : String → Value → Option String → ℕ → InsertInput
plain_fact path v author time = record {
  path = path;
  value = v;
  type = none;
  rules = [];
  wheres = [];
  author = author;
  identity = none;
  op = none;
  time = some time;
}

abbrev pub plain_block : String → Value → Option String → ℕ → ℕ → Block
plain_block = fact_block

abbrev pub noted : Block → CellData → Value → CellData
noted b d v = record d { value = v; blocks = d.blocks ++ b ∷ [] }

-- Inserting a defined value that the cell does not hold yet, with two levels of calls to spare, at a
-- path that no rule is in scope of, when nothing watches or observes, and whose cell has no type and no derived
-- or waiting cells, returns: the block is applied and gets the next sequence number, the one delta is
-- the change of the value, and the store is the old one with the path grown and, at its cell alone,
-- the value set and the block added to the history.
pub insert_quiet :
    (env : Env) (left : ℕ) (s : Store) (path : String) (v : Value) (author : Option String)
    (time : ℕ) (d : CellData)
    → env.observers ≡ []
    → find (segments path) (ensure (segments path) s.root) ≡ some d
    → rules_on_path (segments path) s.root ≡ []
    → s.watchers ≡ []
    → d.type ≡ none
    → d.out_ref ≡ []
    → d.out_temporal ≡ []
    → is_undefined v ≡ false
    → same d.value v ≡ false
    → insert env (suc (suc left)) (plain_fact path v author time) s
      ≡ some (
        record {
          block = plain_block path v author s.next_seq time;
          changes = changed d value_changed (of_value d.value) (of_value v) ∷ [];
          suspended = false;
        },
        record s {
          next_seq = suc s.next_seq;
          root =
              update
                (λ c. noted (plain_block path v author s.next_seq time) c v)
                (segments path)
                (ensure (segments path) s.root);
        },
      )
unfolding insert ops_at insert_with apply_delta take_seq
insert_quiet env left s path v author time d quiet here rules watchers untyped derived waiting
      present new =
    let ops = ops_at env (suc (suc left)) in
    insert_at_quiet env ops (plain_fact path v author time) s _ _ quiet (
      bind-at (numbered env left s path v author time d)
        (step_at env (ops_at env (suc left)) (suc left) (plain_block path v author s.next_seq time)
          none)
        (λ r. pure (record { block = r.block; changes = r.changes; suspended = not r.done }))
        (step_at_quiet env left s path v author time d here rules watchers untyped derived waiting
          present new))
