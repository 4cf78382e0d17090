-- ===== src/Kernel/Data.antt =====
-- src-v2/sequence.ts: the types of the core data and the fields of the class `Sequence`. An optional
-- list is empty where it is absent, and an absent value is `undefined`.
use sequence.Prelude.{ℕ, String, Bool, List, [], Option, none}
use sequence.Lang.{Value, Constraint, Ty, undefined}

-- The axes along which the kernel draws edges; the structural axis is the tree itself.
pub data Axis : Type 0 where
  structural temporal ref : Axis

pub data Op : Type 0 where
  narrow invalidate : Op

pub data Status : Type 0 where
  applied suspended invalidated : Status

pub data Phase : Type 0 where
  admission observation access : Phase

pub record Cause : Type 0 where
  pub from : String
  pub axis : Option Axis
  pub rule_id : Option String

pub record Rule : Type 0 where
  pub id : String
  pub phase : Phase
  pub scope : String
  pub when : Option Constraint
  pub watching : List String
  pub emit : Option String

pub record Block : Type 0 where
  pub seq : ℕ
  pub path : String
  pub identity : Option String
  pub op : Op
  pub value : Value
  pub type : Option Ty
  pub rules : List Rule
  pub wheres : List Constraint
  pub time : ℕ
  pub author : Option String
  pub status : Status
  pub cause : Option Cause

-- `Cell` without its children, which the tree holds.
pub record CellData : Type 0 where
  pub path : String
  pub value : Value
  pub type : Option Ty
  pub blocks : List Block
  pub rules : List Rule
  pub in_ref : List String
  pub in_temporal : List String
  pub out_ref : List String
  pub out_temporal : List String

mutual
  pub data Cell : Type 0 where
    cell : CellData → Children → Cell

  pub data Children : Type 0 where
    leaf : Children
    child : String → Cell → Children → Children

pub data DeltaKind : Type 0 where
  none_changed value_changed type_changed invocation retraction : DeltaKind
  access_hit access_miss : DeltaKind

-- `prev` and `next` of a change of type are its types.
pub data Content : Type 0 where
  absent : Content
  of_value : Value → Content
  of_type : Ty → Content

pub record Delta : Type 0 where
  pub path : String
  pub kind : DeltaKind
  pub prev : Content
  pub next : Content
  pub context_class : Option String

pub record BlockTemplate : Type 0 where
  pub path : String
  pub value : Value
  pub type : Option Ty
  pub rules : List Rule
  pub wheres : List Constraint
  pub author : Option String
  pub op : Option Op

pub record InsertInput : Type 0 where
  pub path : String
  pub value : Value
  pub type : Option Ty
  pub rules : List Rule
  pub wheres : List Constraint
  pub author : Option String
  pub identity : Option String
  pub op : Option Op
  pub time : Option ℕ

pub record InsertResult : Type 0 where
  pub block : Block
  pub changes : List Delta
  pub suspended : Bool

-- `loc` is the place of `frame.cell` in the tree: a cell is never removed, so its place is its
-- identity.
pub record Frame : Type 0 where
  pub loc : List String
  pub cell_path : String
  pub rules_in_scope : List Rule
  pub depth : ℕ
  pub seen : List String

-- The private fields of `Sequence`. `reads` counts the readings of the clock.
pub record Store : Type 0 where
  pub root : Cell
  pub next_seq : ℕ
  pub watchers : List (String × List String)
  pub rules_by_id : List (String × Rule)
  pub access_in_flight : Bool
  pub expand_in_progress : List String
  pub reads : ℕ

unfoldable pub make_cell : String → CellData
make_cell path = record {
  path = path;
  value = undefined;
  type = none;
  blocks = [];
  rules = [];
  in_ref = [];
  in_temporal = [];
  out_ref = [];
  out_temporal = [];
}
