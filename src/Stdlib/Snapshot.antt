-- ===== src/Stdlib/Snapshot.antt =====
-- src-v2/stdlib/snapshot.ts: the cells of a kernel as entries, and their replay.
pub mod Laws
use sequence.Prelude.{
  ℕ, zero, suc, String, Bool, true, false, ◌&&◌, Option, none, some, List, [], ◌∷◌, ◌++◌, ◌==◌,
  if◌then◌else◌, starts_with,
}
use sequence.Lang.{Value, undefined, is_undefined, Ty}
use sequence.Kernel.Data.{Block, Status, applied, Op, CellData, InsertInput, InsertResult, Store}
use sequence.Kernel.Tree.{walk}
use sequence.Kernel.Host.{Env}
use sequence.Kernel.Exec.{M, pure, ◌>>=◌}
use sequence.Kernel.Insert.{insert}

pub record SnapshotEntry : Type 0 where
  pub path : String
  pub value : Value
  pub type : Option Ty
  pub author : Option String
  pub identity : Option String
  pub op : Option Op

abbrev is_applied : Status → Bool
is_applied applied = true
is_applied _ = false

-- the author of the last applied block
unfoldable pub last_author : List Block → Option String
last_author bs = last none bs
  where
    last : Option String → List Block → Option String
    last a [] = a
    last a (b ∷ bs) = if is_applied b.status then last b.author bs else last a bs

abbrev entry : CellData → Value → Option Ty → Option String → SnapshotEntry
entry d v t author = record {
  path = d.path;
  value = v;
  type = t;
  author = author;
  identity = none;
  op = none;
}

-- the entries of one cell: its type, then its value
unfoldable pub entries_of : CellData → List SnapshotEntry
unfolding last_author
entries_of d =
    let author = last_author d.blocks in
    let typed : List SnapshotEntry = elim d.type [
      | none ↦ []
      | some t ↦ entry d undefined (some t) author ∷ []
    ] in
    typed ++ (if is_undefined d.value then [] else entry d d.value none author ∷ [])

unfoldable pub capture_cells : Bool → List CellData → List SnapshotEntry
unfolding entries_of
capture_cells skip_internal [] = []
capture_cells skip_internal (d ∷ ds) =
    let rest = capture_cells skip_internal ds in
    if d.path == ""
    then rest
    else if skip_internal && starts_with d.path "_"
    then rest
    else entries_of d ++ rest

-- `captureSnapshot`
unfoldable pub capture_snapshot : Bool → Store → List SnapshotEntry
unfolding capture_cells walk
capture_snapshot skip_internal s = capture_cells skip_internal (walk s.root)

abbrev pub input_of : SnapshotEntry → InsertInput
input_of e = record {
  path = e.path;
  value = e.value;
  type = e.type;
  rules = [];
  wheres = [];
  author = e.author;
  identity = e.identity;
  op = e.op;
  time = none;
}

-- The counts that a replay returns, or the path at which it throws.
pub data Outcome : Type 0 where
  counted : ℕ → ℕ → Outcome
  stopped_at : String → Outcome

-- `restoreSnapshot`, from the counts so far
unfoldable pub restore_from : Env → ℕ → Bool → ℕ → ℕ → List SnapshotEntry → M Outcome
restore_from env fuel strict done held [] = pure (counted done held)
restore_from env fuel strict done held (e ∷ es) = do
  r ← insert env fuel (input_of e)
  if r.suspended
      then (if strict
          then pure (stopped_at e.path)
          else restore_from env fuel strict done (suc held) es)
      else restore_from env fuel strict (suc done) held es

unfoldable pub restore_snapshot : Env → ℕ → Bool → List SnapshotEntry → M Outcome
unfolding restore_from
restore_snapshot env fuel strict es = restore_from env fuel strict 0 0 es
