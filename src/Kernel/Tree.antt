-- ===== src/Kernel/Tree.antt =====
-- src-v2/sequence.ts: the tree of cells (`findCell`, `ensureCell`, the walk of `traverse`, `walk`).
pub mod Laws
pub mod Every
use sequence.Prelude.{
  String, ◌≡◌, refl, Option, none, some, List, [], ◌∷◌, ◌++◌, ◌==◌, ◌⊹◌, if◌then◌else◌, segments,
}
use sequence.Kernel.Data.{CellData, Cell, cell, Children, leaf, child, Rule, make_cell}

-- `cell.path ? `${cell.path}.${seg}` : seg`
unfoldable pub child_path : String → String → String
child_path parent seg = if parent == "" then seg else parent ⊹ "." ⊹ seg

abbrev pub data_of : Cell → CellData
data_of (cell d cs) = d

-- The cell at a place, if it is there.
unfoldable mutual
  pub find : List String → Cell → Option CellData
  find [] (cell d cs) = some d
  find (seg ∷ segs) (cell d cs) = find_child seg segs cs

  pub find_child : String → List String → Children → Option CellData
  find_child seg segs leaf = none
  find_child seg segs (child k c cs) = if k == seg then find segs c else find_child seg segs cs

-- `findCell`
unfoldable pub find_cell : String → Cell → Option CellData
find_cell path root = find (segments path) root

-- The chain of new cells below a new cell.
unfoldable pub fresh : String → List String → Cell
unfolding child_path make_cell
fresh path [] = cell (make_cell path) leaf
fresh path (seg ∷ segs) = cell (make_cell path) (child seg (fresh (child_path path seg) segs) leaf)

-- `ensureCell`: makes the cells that are missing on the way to a place.
unfoldable mutual
  unfolding fresh

  pub ensure : List String → Cell → Cell
  ensure [] c = c
  ensure (seg ∷ segs) (cell d cs) = cell d (ensure_child d.path seg segs cs)

  pub ensure_child : String → String → List String → Children → Children
  ensure_child parent seg segs leaf = child seg (fresh (child_path parent seg) segs) leaf
  ensure_child parent seg segs (child k c cs) =
      let inside = child k (ensure segs c) cs in
      let beside = child k c (ensure_child parent seg segs cs) in
      if k == seg then inside else beside

-- A write to the cell at a place.
unfoldable mutual
  pub update : (CellData → CellData) → List String → Cell → Cell
  update f [] (cell d cs) = cell (f d) cs
  update f (seg ∷ segs) (cell d cs) = cell d (update_child f seg segs cs)

  pub update_child : (CellData → CellData) → String → List String → Children → Children
  update_child f seg segs leaf = leaf
  update_child f seg segs (child k c cs) =
      let inside = child k (update f segs c) cs in
      let beside = child k c (update_child f seg segs cs) in if k == seg then inside else beside

-- The rules of the cells on the way to a place, the root's first; the walk of `traverse` and of
-- `traverseReadOnly`, which stops at a missing cell.
unfoldable mutual
  pub rules_on_path : List String → Cell → List Rule
  rules_on_path [] (cell d cs) = d.rules
  rules_on_path (seg ∷ segs) (cell d cs) = d.rules ++ rules_below seg segs cs

  pub rules_below : String → List String → Children → List Rule
  rules_below seg segs leaf = []
  rules_below seg segs (child k c cs) =
      if k == seg then rules_on_path segs c else rules_below seg segs cs

-- `walk`, and `cells()`: every cell, each before its children.
unfoldable mutual
  pub walk : Cell → List CellData
  walk (cell d cs) = d ∷ walk_children cs

  pub walk_children : Children → List CellData
  walk_children leaf = []
  walk_children (child k c cs) = walk c ++ walk_children cs

abbrev names : Children → List String
names leaf = []
names (child k c cs) = k ∷ names cs

-- `childSegments`
unfoldable mutual
  pub child_segments : List String → Cell → List String
  child_segments [] (cell d cs) = names cs
  child_segments (seg ∷ segs) (cell d cs) = child_segments_below seg segs cs

  pub child_segments_below : String → List String → Children → List String
  child_segments_below seg segs leaf = []
  child_segments_below seg segs (child k c cs) =
      if k == seg then child_segments segs c else child_segments_below seg segs cs

empty_root : Cell
unfolding make_cell
empty_root = cell (make_cell "") leaf

ensure_test :
    child_segments ("a" ∷ []) (ensure ("a" ∷ "c" ∷ []) (ensure ("a" ∷ "b" ∷ []) empty_root))
    ≡ "b" ∷ "c" ∷ []
unfolding child_segments ensure empty_root
ensure_test = refl
