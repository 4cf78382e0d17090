-- ===== src/Kernel/ReadBack.antt =====
-- src-v2/sequence.ts: a read where nothing listens, and a write that is read back.
use mathlib.Core.Option
use sequence.Prelude.{
  ℕ, suc, String, Bool, true, false, not, ◌≡◌, refl, ◌∙◌, ap, List, [], ◌∷◌, ◌++◌, Option, none,
  some, arith, eq_refl, if◌then◌else◌, segments,
}
use sequence.Lang.{Value, undefined, is_undefined, same}
use sequence.Kernel.Data.{CellData, Cell, cell, Children, leaf, child, Store, InsertResult, Frame}
use sequence.Kernel.Tree.{
  find, find_cell, fresh, ensure, ensure_child, update, update_child, rules_on_path, rules_below,
  child_path,
}
use sequence.Kernel.Host.{Env}
use sequence.Kernel.Exec.{M, pure, ◌>>◌, reads, look, take_seq, read_clock}
use sequence.Kernel.Step.{Ops, is_access}
use sequence.Kernel.Propagate.{
  in_scope, watch_all, access_rounds, fire_access, set_access, access_loc, access_delta,
  access_block, access_prefixes,
}
use sequence.Kernel.Insert.{get_at, expand, ops_at, insert, get}
use sequence.Kernel.Tree.Laws.{find-update_self}
use sequence.Kernel.Silent.{bind-at, in_scope_quiet, watch_all_quiet}
use sequence.Kernel.Quiet.{insert_quiet, plain_fact, plain_block, noted}

-- A new cell has no rules, nor have those above it.
rules_on_path-fresh : (path : String) (p : List String) → rules_on_path p (fresh path p) ≡ []
unfolding rules_on_path fresh child_path sequence.Kernel.Data.make_cell
rules_on_path-fresh path [] = refl
rules_on_path-fresh path (k ∷ p) = rw (eq_refl k) (rules_on_path-fresh (child_path path k) p)

mutual
  unfolding rules_on_path ensure

  rules_on_path-ensure :
      (c : Cell) (p : List String) → rules_on_path p (ensure p c) ≡ rules_on_path p c
  rules_on_path-ensure (cell d cs) [] = refl
  rules_on_path-ensure (cell d cs) (k ∷ p) =
      ap (λ rs. d.rules ++ rs) (rules_below-ensure_child cs d.path k p)

  rules_below-ensure_child :
      (cs : Children) (parent k : String) (p : List String)
      → rules_below k p (ensure_child parent k p cs) ≡ rules_below k p cs
  rules_below-ensure_child leaf parent k p =
      rw (eq_refl k) (rules_on_path-fresh (child_path parent k) p)
  rules_below-ensure_child (child j c cs) parent k p =
      ground (arith, rules_on_path-ensure c p, rules_below-ensure_child cs parent k p)

module _ (f : CellData → CellData) (keeps : (d : CellData) → (f d).rules ≡ d.rules) where
  mutual
    unfolding rules_on_path update

    rules_on_path-update :
        (c : Cell) (p : List String) → rules_on_path p (update f p c) ≡ rules_on_path p c
    rules_on_path-update (cell d cs) [] = keeps d
    rules_on_path-update (cell d cs) (k ∷ p) =
        ap (λ rs. d.rules ++ rs) (rules_below-update_child cs k p)

    rules_below-update_child :
        (cs : Children) (k : String) (p : List String)
        → rules_below k p (update_child f k p cs) ≡ rules_below k p cs
    rules_below-update_child leaf k p = refl
    rules_below-update_child (child j c cs) k p =
        ground (arith, rules_on_path-update c p, rules_below-update_child cs k p)

module _ (env : Env) (ops : Ops) (left : ℕ) (path : String) (o : Option CellData)
    (class : Option String) where
  abbrev asked : Store → Store
  asked s = record s { next_seq = suc s.next_seq; reads = suc s.reads }

  access_rounds_quiet :
      (s : Store)
      → rules_on_path (segments path) s.root ≡ []
      → s.watchers ≡ []
      → access_rounds env ops (suc left) path o class s ≡ some (tt, asked s)
  unfolding access_rounds take_seq read_clock
  access_rounds_quiet s rules watchers =
      let frame : Frame = record {
        loc = access_loc env ops (suc left) path o;
        cell_path = (look (access_loc env ops (suc left) path o) (asked s)).path;
        rules_in_scope = rules_on_path (segments path) s.root;
        depth = 0;
        seen = [];
      } in
      let delta = access_delta env ops (suc left) path o class in
      let block = access_block env ops (suc left) path s.next_seq (env.clock s.reads) in
      bind-at (asked s)
        (in_scope env ops (suc left) frame is_access delta block path
          (rules_on_path (segments path) s.root))
        _
        (in_scope_quiet env ops (suc left) frame is_access delta block path
          (rules_on_path (segments path) s.root) (asked s) rules)
      ∙ bind-at (asked s)
          (watch_all env ops (suc left) frame is_access delta block (access_prefixes path) [])
          (λ _. pure tt)
          (watch_all_quiet env ops left frame is_access delta block (access_prefixes path) []
            (asked s) watchers)

  fire_access_quiet :
      (s : Store)
      → rules_on_path (segments path) s.root ≡ []
      → s.watchers ≡ []
      → fire_access env ops (suc left) path o class s
        ≡ some (tt, record (asked s) { access_in_flight = false })
  unfolding fire_access set_access
  fire_access_quiet s rules watchers =
      bind-at (record s { access_in_flight = true }) (access_rounds env ops (suc left) path o class)
        (λ _. set_access env ops (suc left) false)
        (access_rounds_quiet (record s { access_in_flight = true }) rules watchers)

module _ (env : Env) (ops : Ops) (left : ℕ) (path : String) (d : CellData)
    (class : Option String) where
  get_at_quiet :
      (s : Store)
      → find (segments path) s.root ≡ some d
      → rules_on_path (segments path) s.root ≡ []
      → s.watchers ≡ []
      → s.access_in_flight ≡ false
      → is_undefined d.value ≡ false
      → get_at env ops (suc left) path class s
        ≡ some (
          d.value,
          record s { next_seq = suc s.next_seq; reads = suc s.reads; access_in_flight = false },
        )
  unfolding get_at find_cell
  get_at_quiet s here rules watchers flag present =
      let after : Store = record s {
        next_seq = suc s.next_seq;
        reads = suc s.reads;
        access_in_flight = false;
      } in
      let filled : (expand env ops (suc left) path (not (is_undefined d.value))
              >> reads (λ s. (look (segments path) s).value))
            after
          ≡ some (d.value, after) =
        unfold expand look in rw (present, here) refl in
      let branch : Option CellData → Bool → M Value = λ o quiet.
        (if quiet then pure tt else fire_access env ops (suc left) path o class) >> elim o [
          | none ↦ pure undefined
          | some d ↦
              expand env ops (suc left) path (not (is_undefined d.value))
              >> reads (λ s. (look (segments path) s).value)
        ] in
      ap (λ o. branch o s.access_in_flight s) here
      ∙ ap (λ quiet. branch (some d) quiet s) flag
      ∙ bind-at s (fire_access env ops (suc left) path (some d) class)
          (λ _.
            expand env ops (suc left) path (not (is_undefined d.value))
            >> reads (λ s. (look (segments path) s).value))
          (fire_access_quiet env ops left path (some d) class s rules watchers)
      ∙ filled

module _ (env : Env) (ops : Ops) (left : ℕ) (path : String) (class : Option String) where
  get_at_missing :
      (s : Store)
      → find (segments path) s.root ≡ none
      → rules_on_path (segments path) s.root ≡ []
      → s.watchers ≡ []
      → s.access_in_flight ≡ false
      → get_at env ops (suc left) path class s
        ≡ some (
          undefined,
          record s { next_seq = suc s.next_seq; reads = suc s.reads; access_in_flight = false },
        )
  unfolding get_at find_cell
  get_at_missing s here rules watchers flag =
      let branch : Option CellData → Bool → M Value = λ o quiet.
        (if quiet then pure tt else fire_access env ops (suc left) path o class) >> elim o [
          | none ↦ pure undefined
          | some d ↦
              expand env ops (suc left) path (not (is_undefined d.value))
              >> reads (λ s. (look (segments path) s).value)
        ] in
      ap (λ o. branch o s.access_in_flight s) here
      ∙ ap (λ quiet. branch none quiet s) flag
      ∙ bind-at s (fire_access env ops (suc left) path none class) (λ _. pure undefined)
          (fire_access_quiet env ops left path none class s rules watchers)

-- A read of a cell with a value, with two levels of calls to spare, at a path that no rule is in scope of,
-- when nothing watches and no access is being told, returns the value, and takes one number and one
-- reading of the clock for the access.
pub get_quiet :
    (env : Env) (left : ℕ) (path : String) (d : CellData) (class : Option String) (s : Store)
    → find (segments path) s.root ≡ some d
    → rules_on_path (segments path) s.root ≡ []
    → s.watchers ≡ []
    → s.access_in_flight ≡ false
    → is_undefined d.value ≡ false
    → get env (suc (suc left)) path class s
      ≡ some (
        d.value,
        record s { next_seq = suc s.next_seq; reads = suc s.reads; access_in_flight = false },
      )
unfolding get ops_at
get_quiet env left path d class s here rules watchers flag present =
    get_at_quiet env (ops_at env (suc left)) left path d class s here rules watchers flag present

-- A read of a path where no cell stands, with two levels of calls to spare, that no rule is in scope of, when
-- nothing watches and no access is being told, returns `undefined`, and takes one number and one reading of
-- the clock for the access.
pub get_missing :
    (env : Env) (left : ℕ) (path : String) (class : Option String) (s : Store)
    → find (segments path) s.root ≡ none
    → rules_on_path (segments path) s.root ≡ []
    → s.watchers ≡ []
    → s.access_in_flight ≡ false
    → get env (suc (suc left)) path class s
      ≡ some (
        undefined,
        record s { next_seq = suc s.next_seq; reads = suc s.reads; access_in_flight = false },
      )
unfolding get ops_at
get_missing env left path class s here rules watchers flag =
    get_at_missing env (ops_at env (suc left)) left path class s here rules watchers flag

-- Inserting a defined value that the cell does not hold yet, with two levels of calls to spare, at a path
-- that no rule is in scope of, when nothing watches or observes and no access is being told, and whose cell
-- has no type and no derived or waiting cells, returns, and a read of the path from the state that it leaves
-- returns the value.
pub insert-get :
    (env : Env) (left : ℕ) (s : Store) (path : String) (v : Value) (author : Option String)
    (time : ℕ) (d : CellData) (class : Option String)
    → env.observers ≡ []
    → find (segments path) (ensure (segments path) s.root) ≡ some d
    → rules_on_path (segments path) s.root ≡ []
    → s.watchers ≡ []
    → s.access_in_flight ≡ false
    → d.type ≡ none
    → d.out_ref ≡ []
    → d.out_temporal ≡ []
    → is_undefined v ≡ false
    → same d.value v ≡ false
    → (r : InsertResult) × (t : Store) × (u : Store) × (insert env
          (suc (suc left))
          (plain_fact path v author time)
          s
        ≡ some (r, t))
      × (get env (suc (suc left)) path class t ≡ some (v, u))
insert-get env left s path v author time d class unobserved here rules watchers flag untyped derived
      waiting present new =
    let p = segments path in
    let f : CellData → CellData = λ c. noted (plain_block path v author s.next_seq time) c v in
    let root = update f p (ensure p s.root) in
    let written : find p root ≡ some (f d) =
      find-update_self f (ensure p s.root) p ∙ ap (Option.map f) here in
    let free : rules_on_path p root ≡ [] =
      rules_on_path-update f (λ c. refl) (ensure p s.root) p
      ∙ rules_on_path-ensure s.root p
      ∙ rules in
    (
      _,
      _,
      _,
      insert_quiet env left s path v author time d unobserved here rules watchers untyped derived
          waiting present new,
      get_quiet env left path (f d) class (record s { next_seq = suc s.next_seq; root = root })
          written free watchers flag present,
    )
