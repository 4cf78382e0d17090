-- ===== src/Kernel/Host.antt =====
-- src-v2/sequence.ts: the runtime registries (`impls`, `emitters`, `guards`), the observers and the clock, which the
-- host supplies. Host code sees the kernel through its public methods alone: a run of it is a program
-- of such calls. It neither throws (but for an impl, whose throw the kernel catches) nor changes the
-- registries, and it does not write to the objects that the kernel hands it.
use sequence.Prelude.{ℕ, String, Bool, Option, List, [], ◌∷◌, ◌++◌, eqb, if◌then◌else◌}
use sequence.Lang.{Value, Constraint, Ty}
use sequence.Kernel.Data.{
  CellData, Block, Rule, Delta, BlockTemplate, InsertInput, InsertResult, Store,
}

pub data Host (A : Type 0) : Type 0 where
  ret : A → Host A
  -- `seq.get(path, contextClass)`
  get : String → Option String → (Value → Host A) → Host A
  -- `seq.insert(input)`
  insert : InsertInput → (InsertResult → Host A) → Host A
  -- the methods that only read: `typeAt`, `cells`, `getCell`, `childSegments`, `keys`, `rawTypeAt`
  peek : (Store → Host A) → Host A
  -- `seq.now()`
  now : (ℕ → Host A) → Host A
  -- `seq.nextSequence()`
  next_sequence : (ℕ → Host A) → Host A

-- What a guard is told: the cell, and the delta and the block where there is one.
pub record GuardCtx : Type 0 where
  pub cell : CellData
  pub delta : Option Delta
  pub block : Option Block

pub record EmitterCtx : Type 0 where
  pub cell : CellData
  pub delta : Delta
  pub block : Block
  pub rule : Rule

-- src/compose.ts and `JSON.stringify`, as the kernel uses them.
pub record Lattice : Type 0 where
  pub compose : Ty → Ty → Ty
  -- `check(type, value, path).ok`
  pub accepts : Ty → Value → String → Bool
  -- `typeSpecificity(a) === typeSpecificity(b)`
  pub same_specificity : Ty → Ty → Bool
  pub stringify : Ty → String

-- What `onInsert` registers: a function, told apart from others by its identity.
pub record Observer : Type 0 where
  pub id : ℕ
  pub tell : InsertResult → Host (Unit {0})

pub record Env : Type 0 where
  pub lattice : Lattice
  -- `none` is a throw
  pub impls : String → Option (List Value → Host (Option Value))
  pub emitters : String → Option (EmitterCtx → Host (List BlockTemplate))
  -- the ops that are set beside the built-in ones, or in their place
  pub custom_guards : String → Option (Constraint → GuardCtx → Host Bool)
  -- `insertObservers`, told in this order
  pub observers : List Observer
  -- the n-th reading of the clock
  pub clock : ℕ → ℕ

-- `onInsert`, and the call of the function that it returns, which takes away the first that is the same
abbrev pub on_insert : Observer → Env → Env
on_insert o env = record env { observers = env.observers ++ o ∷ [] }

abbrev pub without_observer : ℕ → List Observer → List Observer
without_observer i [] = []
without_observer i (o ∷ os) =
    let rest = without_observer i os in if eqb o.id i then os else o ∷ rest

abbrev pub unregister : Observer → Env → Env
unregister o env = record env { observers = without_observer o.id env.observers }
